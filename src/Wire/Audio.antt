-- ===== src/Wire/Audio.antt =====
-- Audio messages: `JammerNetzAudioData`'s `serialize` and its deserializing constructor, of
-- common/JammerNetzPackage.cpp.
use jammer_netz.Base.{
  ℕ, zero, suc, ◌*◌, ◌/◌, ◌%◌, false, not, Option, none, some, List, [], ◌∷◌, ◌++◌, map, ltb, ◌==◌,
  if◌then◌else◌, Text,
}
use jammer_netz.Platform.{Platform}
use jammer_netz.Package.{
  AudioBlock, AudioData, BufferRef, ChannelSetup, SingleChannelSetup, Store, alloc, channel_for,
  sample_rate_hz,
}
use jammer_netz.Wire.{
  Read, got, rejected, ◌>>=◌, deref, audio_type, write_header, ChannelTable, SamplesTable,
  BlockTable, AudioTable, Formats,
}

abbrev pub fec_samplerate_reduction : ℕ
fec_samplerate_reduction = 2

-- The loop over the sample positions from `start`.
unfoldable pub tabulate {ℓ} : {A : Type ℓ} → (ℕ → A) → ℕ → ℕ → List A
tabulate f start zero = []
tabulate f start (suc n) = f start ∷ tabulate f (suc start) n

-- 48 kHz over the rate of the datagram; an integer division.
unfoldable pub upsample_rate : ℕ → ℕ
upsample_rate rate = if not (rate == 0) then 48000 / rate else 48000

module _ (P : Platform) where
  open P use {Float, Buffer, num_channels, num_samples, sample, write, to_int16, from_int16}

  unfoldable pub channel_table : SingleChannelSetup P → ChannelTable P
  channel_table c = record {
    target = c.target;
    volume = c.volume;
    mag = c.mag;
    rms = c.rms;
    pitch = c.pitch;
    name = some c.name;
  }

  -- The samples of one channel: all of them, or every `reduction`-th through `tempBuffer`.
  unfoldable pub channel_samples : Buffer → ℕ → ℕ → List ℕ
  unfolding tabulate
  channel_samples b reduction c =
      if reduction == 1
      then tabulate (λ i. to_int16 (sample b c i)) 0 (num_samples b)
      else let temp_buffer : ℕ → Float = λ i. sample b c (i * reduction) in
        tabulate (λ i. to_int16 (temp_buffer i)) 0 (num_samples b / 2)

  -- `appendAudioBuffer`.
  unfoldable pub append_audio_buffer : Buffer → ℕ → List (SamplesTable P)
  unfolding tabulate channel_samples
  append_audio_buffer b reduction =
      tabulate (λ c. record { audio_samples = some (channel_samples b reduction c) }) 0
        (num_channels b)

  -- `serializeAudioBlock`.
  unfoldable pub serialize_audio_block :
      Store P → AudioBlock P → ℕ → ℕ → ChannelSetup P → BlockTable P
  unfolding append_audio_buffer channel_table
  serialize_audio_block st src sample_rate reduction legacy =
      let buffer = st.cells src.audio_buffer in
      record {
        timestamp = src.timestamp;
        message_counter = src.message_counter;
        num_channels = num_channels buffer % 256;
        number_of_samples = num_samples buffer % 65536 / reduction;
        sample_rate = sample_rate / reduction;
        channel_setup = some (map channel_table src.channel_setup.channels);
        channels = some (append_audio_buffer buffer reduction);
        all_channels = some (map channel_table legacy.channels);
        want_echo = not src.channel_setup.local_monitoring;
        server_time = src.server_time;
        bpm = src.bpm;
        midi_signal = src.midi_signal;
      }

  abbrev pub legacy_or_empty : Option (ChannelSetup P) → ChannelSetup P
  legacy_or_empty none = record { local_monitoring = false; channels = [] }
  legacy_or_empty (some s) = s

  abbrev pub fec_tables : Store P → Option (AudioBlock P) → ChannelSetup P → List (BlockTable P)
  fec_tables st none legacy = []
  fec_tables st (some f) legacy =
      serialize_audio_block st f sample_rate_hz fec_samplerate_reduction legacy ∷ []

  unfoldable pub audio_table : Store P → AudioData P → AudioTable P
  audio_table st d =
      let legacy = legacy_or_empty d.legacy_session in
      record {
        audio_blocks = some (
            serialize_audio_block st d.audio_block sample_rate_hz 1 legacy
            ∷ fec_tables st d.fec_block legacy);
        protocol_version = d.protocol_version;
      }

  -- `serialize`: the bytes written.
  unfoldable pub serialize_audio : Formats P → Store P → AudioData P → List ℕ
  unfolding audio_table
  serialize_audio F st d = write_header audio_type ++ F.encode_audio (audio_table st d)

  abbrev name_or_empty : Option Text → Text
  name_or_empty none = []
  name_or_empty (some name) = name

  unfoldable pub read_channel : ChannelTable P → SingleChannelSetup P
  unfolding channel_for
  read_channel t = record (channel_for P t.target) {
    volume = t.volume;
    mag = t.mag;
    rms = t.rms;
    pitch = t.pitch;
    name = name_or_empty t.name;
  }

  -- `readChannelSetup`.
  unfoldable pub read_channel_setup : Option (List (ChannelTable P)) → ChannelSetup P
  unfolding read_channel
  read_channel_setup none = record { local_monitoring = false; channels = [] }
  read_channel_setup (some ts) = record { local_monitoring = false; channels = map read_channel ts }

  -- `convertSamples` into a channel, from the position `i`.
  unfoldable pub write_converted : ℕ → ℕ → List ℕ → Buffer → Buffer
  write_converted c i [] b = b
  write_converted c i (v ∷ vs) b = write_converted c (suc i) vs (write b c i (from_int16 v))

  -- The inner loop: `n` copies of one sample, from the position `i`.
  unfoldable pub write_copies : ℕ → ℕ → ℕ → Float → Buffer → Buffer
  write_copies c i zero v b = b
  write_copies c i (suc n) v b = write_copies c (suc i) n v (write b c i v)

  -- The outer loop, from the position `i` of the source.
  unfoldable pub write_upsampled : ℕ → ℕ → ℕ → List ℕ → Buffer → Buffer
  unfolding write_copies
  write_upsampled c rate i [] b = b
  write_upsampled c rate i (v ∷ vs) b =
      write_upsampled c rate (suc i) vs (write_copies c (i * rate) rate (from_int16 v) b)

  unfoldable pub write_channel : ℕ → ℕ → List ℕ → Buffer → Buffer
  unfolding write_converted write_upsampled
  write_channel c rate vs b =
      if rate == 1 then write_converted c 0 vs b else write_upsampled c rate 0 vs b

  -- `readAudioBytes`, from the channel `c`.
  unfoldable pub read_audio_bytes : ℕ → ℕ → List (SamplesTable P) → Buffer → Read Buffer
  unfolding write_channel
  read_audio_bytes c rate [] b = got b
  read_audio_bytes c rate (t ∷ ts) b = do
    vs ← deref t.audio_samples
    read_audio_bytes (suc c) rate ts (write_channel c rate vs b)

  -- `readAudioHeaderAndBytes`.
  unfoldable pub read_audio_block : BlockTable P → Store P → Read (AudioBlock P × Store P)
  unfolding upsample_rate read_audio_bytes read_channel_setup
  read_audio_block t st = do
    let rate : ℕ = upsample_rate t.sample_rate
    channels ← deref t.channels
    b ← read_audio_bytes 0 rate channels (P.new_buffer t.num_channels (t.number_of_samples * rate))
    let a : BufferRef × Store P = alloc P b st
    got (
      record {
        timestamp = t.timestamp;
        message_counter = t.message_counter;
        server_time = t.server_time;
        bpm = t.bpm;
        midi_signal = t.midi_signal;
        sample_rate = sample_rate_hz;
        channel_setup = read_channel_setup t.channel_setup;
        audio_buffer = a.0;
      },
      a.1,
    )

  abbrev pub session_if_present : Option (List (ChannelTable P)) → Option (ChannelSetup P)
  session_if_present none = none
  session_if_present (some ts) = some (read_channel_setup (some ts))

  -- The second block; a third one throws.
  unfoldable pub read_fec : List (BlockTable P) → Store P → Read (Option (AudioBlock P) × Store P)
  unfolding read_audio_block
  read_fec [] st = got (none, st)
  read_fec (f ∷ []) st = read_audio_block f st >>= λ b. got (some b.0, b.1)
  read_fec (f ∷ _ ∷ _) st = read_audio_block f st >>= λ b. rejected

  -- The loop over the blocks. The object has no block where the datagram has none.
  unfoldable pub read_blocks :
      ℕ → List (BlockTable P) → Store P → Read (Option (AudioData P) × Store P)
  unfolding read_audio_block read_fec
  read_blocks version [] st = got (none, st)
  read_blocks version (t ∷ ts) st = do
    a ← read_audio_block t st
    fec ← read_fec ts a.1
    got (
      some (record {
        audio_block = a.0;
        fec_block = fec.0;
        protocol_version = version;
        legacy_session = session_if_present t.all_channels;
      }),
      fec.1,
    )

  unfoldable pub read_audio_table :
      Option (AudioTable P) → Store P → Read (Option (AudioData P) × Store P)
  unfolding read_blocks
  read_audio_table none st = rejected
  read_audio_table (some t) st = do ts ← deref t.audio_blocks; read_blocks t.protocol_version ts st

  -- The constructor, on the bytes after the header; `bytes` is the length of the datagram.
  unfoldable pub read_audio :
      Formats P → ℕ → List ℕ → Store P → Read (Option (AudioData P) × Store P)
  unfolding read_audio_table
  read_audio F bytes body st =
      if ltb bytes F.audio_header_size then rejected else read_audio_table (F.decode_audio body) st
