-- ===== src/Package.antt =====
-- The packets of common/JammerNetzPackage.h and JammerNetzPackage.cpp in memory.
pub mod FillIn
pub mod Padding
pub mod Memory
mod Tests
use jammer_netz.Base.{
  ℕ, zero, suc, ◌+◌, ◌-◌, ◌*◌, ◌/◌, Bool, true, false, ◌&&◌, not, Option, none, some, List, [], ◌∷◌,
  ltb, leb, ◌==◌, if◌then◌else◌, Text, text_eq, length, u64_mod, sub64,
}
use jammer_netz.Platform.{Platform}

-- `enum JammerNetzChannelTarget`; a packet holds any byte.
abbrev pub mute : ℕ
mute = 0

abbrev pub left : ℕ
left = 1

abbrev pub right : ℕ
right = 2

abbrev pub mono : ℕ
mono = 3

abbrev pub send_mono : ℕ
send_mono = 4

abbrev pub send_left : ℕ
send_left = 5

abbrev pub send_right : ℕ
send_right = 6

abbrev pub sample_rate_hz : ℕ
sample_rate_hz = 48000

abbrev pub sample_buffer_size : ℕ
sample_buffer_size = 128

-- `JammerNetzProtocol`.
abbrev pub legacy_protocol : ℕ
legacy_protocol = 0

abbrev pub split_session_info : ℕ
split_session_info = 1

abbrev pub current_protocol : ℕ
current_protocol = split_session_info

abbrev pub supports_split_session_info : ℕ → Bool
supports_split_session_info version = leb split_session_info version

pub data MidiSignal : Type 0 where
  midi_none midi_start midi_stop : MidiSignal

-- A `shared_ptr` to a sample buffer; the code never stores a null one in a packet.
abbrev pub BufferRef : Type 0
BufferRef = ℕ

abbrev pub u64_max : ℕ
u64_max = 18446744073709551615

-- The samples between the packet `n` and the one that the code has, kept within 64 bits.
abbrev pub missing_samples : ℕ → ℕ → ℕ → ℕ
missing_samples samples source_counter n =
    let frames : ℕ = if ltb n source_counter then source_counter - n else 1 in
    if leb samples (u64_max / frames) then samples * frames else u64_max

module _ (P : Platform) where
  open P use {Float, literal, Buffer, num_samples, lt, fabs, sub}

  pub record SingleChannelSetup : Type 0 where
    pub target : ℕ
    pub volume : Float
    pub mag : Float
    pub rms : Float
    pub pitch : Float
    pub name : Text

  -- The constructor from a target.
  unfoldable pub channel_for : ℕ → SingleChannelSetup
  channel_for t = record {
    target = t;
    volume = literal 1 0;
    mag = literal 0 0;
    rms = literal 0 0;
    pitch = literal 0 0;
    name = [];
  }

  pub record ChannelSetup : Type 0 where
    pub local_monitoring : Bool
    pub channels : List SingleChannelSetup

  pub single_equal_enough : SingleChannelSetup → SingleChannelSetup → Bool
  single_equal_enough s other =
      s.target == other.target
      && (lt (fabs (sub s.volume other.volume)) (literal 1 6) && text_eq s.name other.name)

  -- The loop over the channels, after the test of the sizes.
  channels_equal_enough : List SingleChannelSetup → List SingleChannelSetup → Bool
  channels_equal_enough [] others = true
  channels_equal_enough (s ∷ ss) [] = true
  channels_equal_enough (s ∷ ss) (o ∷ os) =
      if not (single_equal_enough s o) then false else channels_equal_enough ss os

  pub setup_equal_enough : ChannelSetup → ChannelSetup → Bool
  unfolding channels_equal_enough
  setup_equal_enough s other =
      if not (same_flag s.local_monitoring other.local_monitoring)
      then false
      else if not (length s.channels == length other.channels)
      then false
      else channels_equal_enough s.channels other.channels
    where
      same_flag : Bool → Bool → Bool
      same_flag true b = b
      same_flag false b = not b

  -- `serverTimeSampleBased` is never read or written, and is left out.
  pub record AudioBlock : Type 0 where
    pub timestamp : Float
    pub message_counter : ℕ
    pub server_time : ℕ
    pub bpm : Float
    pub midi_signal : MidiSignal
    pub sample_rate : ℕ
    pub channel_setup : ChannelSetup
    pub audio_buffer : BufferRef

  -- `activeBlock_` is `audioBlock_` in every object.
  pub record AudioData : Type 0 where
    pub audio_block : AudioBlock
    pub fec_block : Option AudioBlock
    pub protocol_version : ℕ
    pub legacy_session : Option ChannelSetup

  abbrev pub counter : AudioData → ℕ
  counter d = d.audio_block.message_counter

  -- The sample buffers that the shared pointers of the packets lead to.
  pub record Store : Type 0 where
    pub next : ℕ
    pub cells : BufferRef → Buffer

  unfoldable pub put_buffer : BufferRef → Buffer → Store → Store
  put_buffer r b s = record s { cells = λ r'. if r' == r then b else s.cells r' }

  unfoldable pub alloc : Buffer → Store → BufferRef × Store
  unfolding put_buffer
  alloc b s = (s.next, record (put_buffer s.next b s) { next = s.next + 1 })

  -- The constructor from a block and its FEC block.
  unfoldable pub from_block : AudioBlock → Option AudioBlock → AudioData
  from_block b fec = record {
    audio_block = b;
    fec_block = fec;
    protocol_version = current_protocol;
    legacy_session = none;
  }

  -- The block again, as the one numbered `n` before it.
  pub repeated_block : Store → AudioBlock → ℕ → AudioBlock
  repeated_block st b n =
      let missing : ℕ =
        missing_samples (num_samples (st.cells b.audio_buffer)) b.message_counter n in
      record b {
        message_counter = n;
        server_time = if leb missing b.server_time then b.server_time - missing else 0;
        midi_signal = midi_none;
      }

  -- A new packet takes the version and the session setup of its source.
  keep_version : AudioData → AudioBlock → AudioData
  unfolding from_block
  keep_version d b = record (from_block b none) {
    protocol_version = d.protocol_version;
    legacy_session = d.legacy_session;
  }

  -- The two branches of `createFillInPackage`, on the FEC block.
  pub fill_in_from : Store → AudioData → ℕ → Option AudioBlock → Bool × AudioData
  unfolding keep_version
  fill_in_from st d n none = (false, keep_version d (repeated_block st d.audio_block n))
  fill_in_from st d n (some f) =
      if f.message_counter == n
      then (true, keep_version d (record f { message_counter = n }))
      else (false, keep_version d (repeated_block st d.audio_block n))

  -- `createFillInPackage`, with `outHadFEC`. The new packet shares the buffer of its source.
  unfoldable pub create_fill_in_package : Store → AudioData → ℕ → Bool × AudioData
  unfolding fill_in_from
  create_fill_in_package st d n = fill_in_from st d n d.fec_block

  -- `createPrePaddingPackage`: silence in a buffer of its own, numbered one less.
  unfoldable pub create_pre_padding_package : AudioData → Store → AudioData × Store
  create_pre_padding_package d st =
      let (r, st') = alloc (P.clear (st.cells d.audio_block.audio_buffer)) st in
      (
        record {
          audio_block = record {
            timestamp = d.audio_block.timestamp;
            message_counter = sub64 d.audio_block.message_counter 1;
            server_time = 0;
            bpm = literal 0 0;
            midi_signal = midi_none;
            sample_rate = sample_rate_hz;
            channel_setup = d.audio_block.channel_setup;
            audio_buffer = r;
          };
          fec_block = none;
          protocol_version = d.protocol_version;
          legacy_session = d.legacy_session;
        },
        st',
      )
