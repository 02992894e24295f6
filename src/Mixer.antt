-- ===== src/Mixer.antt =====
-- The mix of one buffer for every client: Server/Source/ServerMixerCore.h and ServerMixerCore.cpp.
-- The incoming packets, a `std::map`, are a list in the order of their keys. A diagnostic text is
-- the constructor that names its case and carries its numbers.
pub mod Routes
pub mod Outgoing
pub mod Answers
mod Tests
use jammer_netz.Base.{
  ℕ, zero, suc, ◌+◌, Bool, true, false, not, ◌||◌, ◌&&◌, Option, none, some, List, [], ◌∷◌, ◌++◌,
  ltb, ◌==◌, if◌then◌else◌, add64, Text, text_eq, length, take, min,
}
use jammer_netz.Platform.{Platform}
use jammer_netz.Package.{
  MidiSignal, midi_none, midi_start, midi_stop, SingleChannelSetup, ChannelSetup, AudioBlock,
  AudioData, Store, alloc, counter, mute, left, right, mono, send_mono, send_left, send_right,
  sample_rate_hz, current_protocol,
}

pub data Diagnostic : Type 0 where
  no_channels : Diagnostic
  wrong_buffer_size : ℕ → ℕ → Diagnostic
  channel_count_mismatch : ℕ → ℕ → Diagnostic

module _ (P : Platform) where
  open P use {Float, Buffer, literal, lt, num_channels, num_samples, new_buffer, clear, add_from}

  abbrev pub Incoming : Type 0
  Incoming = List (Text × AudioData P)

  pub record OutgoingPackage : Type 0 where
    pub target_address : Text
    pub audio_block : AudioBlock P
    pub session_setup : ChannelSetup P
    pub receiver_protocol_version : ℕ

  pub record Mixer : Type 0 where
    pub server_time : ℕ
    pub last_bpm : Float
    pub mixdown_setup : ChannelSetup P

  -- The constructor.
  pub new_mixer : ChannelSetup P → Mixer
  new_mixer setup = record { server_time = 0; last_bpm = literal 120 0; mixdown_setup = setup }

  -- The result of `mix`: the sample position, the packages and the diagnostics.
  pub record MixStepResult : Type 0 where
    pub server_time : ℕ
    pub outgoing : List OutgoingPackage
    pub diagnostics : List Diagnostic

  -- The `switch` on a channel's target: which outputs its samples are added to.
  unfoldable pub mix_channel : Bool → Bool → ℕ → SingleChannelSetup P → Buffer → Buffer → Buffer
  mix_channel is_for_sender wants_echo channel setup audio output =
      if setup.target == mute
      then output
      else if setup.target == send_left
      then (if is_for_sender then output else to_left)
      else if setup.target == left
      then to_left
      else if setup.target == send_right
      then (if is_for_sender then output else to_right)
      else if setup.target == right
      then to_right
      else if setup.target == send_mono
      then (if is_for_sender then output else to_both)
      else if setup.target == mono
      then to_both
      else output
    where
      heard : Bool
      heard = not is_for_sender || wants_echo

      to_left : Buffer
      to_left = if heard then add_from output 0 audio channel setup.volume else output

      to_right : Buffer
      to_right = if heard then add_from output 1 audio channel setup.volume else output

      to_both : Buffer
      to_both =
          if heard
          then add_from (add_from output 0 audio channel setup.volume) 1 audio channel setup.volume
          else output

  -- The loop over the channels to mix.
  unfoldable pub mix_channels :
      Bool → Bool → ℕ → List (SingleChannelSetup P) → Buffer → Buffer → Buffer
  mix_channels is_for_sender wants_echo channel [] audio output = output
  mix_channels is_for_sender wants_echo channel (setup ∷ rest) audio output =
      mix_channels is_for_sender wants_echo (channel + 1) rest audio
        (mix_channel is_for_sender wants_echo channel setup audio output)

  abbrev channel_diagnostics : Buffer → List (SingleChannelSetup P) → List Diagnostic
  channel_diagnostics audio channels =
      if num_channels audio == length channels
      then []
      else channel_count_mismatch (num_channels audio) (length channels) ∷ []

  abbrev empty_diagnostics : Buffer → List Diagnostic
  empty_diagnostics audio = if num_channels audio == 0 then no_channels ∷ [] else []

  -- The buffer with one client added, and the diagnostics behind those before.
  pub buffer_mixdown :
      Store P → Buffer → AudioData P → Bool → List Diagnostic → Buffer × List Diagnostic
  buffer_mixdown st output d is_for_sender diagnostics =
      if not (num_samples audio == num_samples output)
      then (
        output,
        (diagnostics ++ empty_diagnostics audio)
            ++ wrong_buffer_size (num_samples audio) (num_samples output) ∷ [],
      )
      else (
        mix_channels is_for_sender (not setup.local_monitoring) 0
            (take (min (num_channels audio) (length setup.channels)) setup.channels) audio output,
        (diagnostics ++ empty_diagnostics audio) ++ channel_diagnostics audio setup.channels,
      )
    where
      audio : Buffer
      audio = st.cells d.audio_block.audio_buffer

      setup : ChannelSetup P
      setup = d.audio_block.channel_setup

  -- What the inner loop of `mix` gathers for one receiver.
  pub record Gathered : Type 0 where
    pub output : Buffer
    pub session_channels : List (SingleChannelSetup P)
    pub maximum_bpm : Float
    pub midi_signal : MidiSignal
    pub diagnostics : List Diagnostic

  -- `std::max`.
  abbrev pub max_float : Float → Float → Float
  max_float a b = if lt a b then b else a

  -- The two tests on a client's MIDI signal.
  abbrev pub join_midi : MidiSignal → MidiSignal → MidiSignal
  join_midi midi_none midi_start = midi_start
  join_midi m midi_start = m
  join_midi m midi_stop = midi_stop
  join_midi m midi_none = m

  pub gather_client : Store P → Text → Text × AudioData P → Gathered → Gathered
  gather_client st receiver (name, d) g =
      let is_receiver = text_eq name receiver in
      let (output, diagnostics) = buffer_mixdown st g.output d is_receiver g.diagnostics in
      record {
        output = output;
        session_channels =
            if is_receiver
            then g.session_channels
            else g.session_channels ++ d.audio_block.channel_setup.channels;
        maximum_bpm = max_float g.maximum_bpm d.audio_block.bpm;
        midi_signal = join_midi g.midi_signal d.audio_block.midi_signal;
        diagnostics = diagnostics;
      }

  pub gather : Store P → Text → Incoming → Gathered → Gathered
  gather st receiver [] g = g
  gather st receiver (client ∷ rest) g =
      gather st receiver rest (gather_client st receiver client g)

  abbrev pub gather_start : ℕ → List Diagnostic → Gathered
  gather_start buffer_length diagnostics = record {
    output = clear (new_buffer 2 buffer_length);
    session_channels = [];
    maximum_bpm = literal 0 0;
    midi_signal = midi_none;
    diagnostics = diagnostics;
  }

  -- The body of the loop over the receivers, with the state and the store after it.
  pub mix_for :
      ℕ
      → Incoming
      → Text × AudioData P
      → Mixer
      → List Diagnostic
      → Store P
      → OutgoingPackage × Mixer × List Diagnostic × Store P
  mix_for buffer_length incoming (name, d) m diagnostics st =
      let g = gather st name incoming (gather_start buffer_length diagnostics) in
      let bpm = if lt (literal 0 0) g.maximum_bpm then g.maximum_bpm else m.last_bpm in
      let (r, st') = alloc P g.output st in
      (
        record {
          target_address = name;
          audio_block = record {
            timestamp = d.audio_block.timestamp;
            message_counter = d.audio_block.message_counter;
            server_time = m.server_time;
            bpm = bpm;
            midi_signal = g.midi_signal;
            sample_rate = sample_rate_hz;
            channel_setup = m.mixdown_setup;
            audio_buffer = r;
          };
          session_setup = record { local_monitoring = false; channels = g.session_channels };
          receiver_protocol_version = d.protocol_version;
        },
        record m { last_bpm = bpm },
        g.diagnostics,
        st',
      )

  -- The loop over the receivers that are left.
  pub mix_all :
      ℕ
      → Incoming
      → Incoming
      → Mixer
      → List Diagnostic
      → Store P
      → List OutgoingPackage × Mixer × List Diagnostic × Store P
  mix_all buffer_length incoming [] m diagnostics st = ([], m, diagnostics, st)
  mix_all buffer_length incoming (receiver ∷ rest) m diagnostics st =
      let (first, m', diagnostics', st') =
        mix_for buffer_length incoming receiver m diagnostics st in
      let (packages, m'', diagnostics'', st'') =
        mix_all buffer_length incoming rest m' diagnostics' st' in
      (first ∷ packages, m'', diagnostics'', st'')

  pub mix : Incoming → Mixer → Store P → MixStepResult × Mixer × Store P
  mix [] m st = (record { server_time = m.server_time; outgoing = []; diagnostics = [] }, m, st)
  mix ((name, d) ∷ rest) m st =
      let buffer_length = num_samples (st.cells d.audio_block.audio_buffer) in
      let m' : Mixer = record m { server_time = add64 m.server_time buffer_length } in
      let (packages, m'', diagnostics, st') =
        mix_all buffer_length ((name, d) ∷ rest) ((name, d) ∷ rest) m' [] st in
      (
        record { server_time = m'.server_time; outgoing = packages; diagnostics = diagnostics },
        m'',
        st',
      )
