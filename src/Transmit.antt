-- ===== src/Transmit.antt =====
-- The way of the microphone's samples to the network: Client/Source/AudioTransmitWorker.cpp, and the
-- input side of `processChunk` of JammerNetzAudioEngine.cpp. The levels and the pitch of a frame are
-- measured by other code and are arguments, as is what the packet sink answers.
pub mod Ingest
mod Tests
use jammer_netz.Base.{
  ℕ, zero, suc, ◌+◌, ◌-◌, ◌/◌, Bool, true, false, not, ◌||◌, Option, none, some, List, [], ◌∷◌, ltb,
  leb, ◌==◌, if◌then◌else◌, length, add64,
}
use jammer_netz.Platform.{Platform}
use jammer_netz.RingBuffers.{RingBuffers}
use jammer_netz.Package.{
  MidiSignal, midi_none, midi_start, midi_stop, ChannelSetup, SingleChannelSetup,
  sample_buffer_size,
}
use jammer_netz.Receive.{try_write, try_read}

abbrev pub transmit_capacity : ℕ
transmit_capacity = 64

abbrev pub max_audio_channels : ℕ
max_audio_channels = 64

-- The capacity of `midiSignalsToSend_`.
abbrev pub midi_signal_capacity : ℕ
midi_signal_capacity = 32

module _ (P : Platform) where
  open P use {Float}

  pub record TransmitAudioFrame : Type 0 where
    pub channels : ℕ
    pub samples : List (List Float)
    pub bpm : Option Float
    pub midi_signal : Option MidiSignal

  -- `AudioTransmitWorker`.
  pub record Transmitter : Type 0 where
    pub queue : List TransmitAudioFrame
    pub channel_setup : ChannelSetup P
    pub enqueued : ℕ
    pub sent : ℕ
    pub dropped : ℕ

  abbrev pub has_capacity : Transmitter → Bool
  has_capacity t = ltb (length t.queue) transmit_capacity

  abbrev pub record_dropped_frame : Transmitter → Transmitter
  record_dropped_frame t = record t { dropped = add64 t.dropped 1 }

  abbrev pub set_channel_setup : ChannelSetup P → Transmitter → Transmitter
  set_channel_setup setup t = record t { channel_setup = setup }

  -- `shutdown`, once the thread has stopped.
  abbrev pub stop_transmitter : Transmitter → Transmitter
  stop_transmitter t = record t { queue = [] }

  -- What a channel's meter and tuner say.
  pub record Level : Type 0 where
    pub mag : Float
    pub rms : Float
    pub pitch : Float

  -- The loop over the channels of the outgoing setup, from the channel `i`.
  pub with_levels : (ℕ → Level) → ℕ → List (SingleChannelSetup P) → List (SingleChannelSetup P)
  with_levels measure i [] = []
  with_levels measure i (c ∷ cs) =
      record c { mag = (measure i).mag; rms = (measure i).rms; pitch = (measure i).pitch }
      ∷ with_levels measure (suc i) cs

  -- What goes to `sendData` of the packet sink.
  pub record Outgoing : Type 0 where
    pub setup : ChannelSetup P
    pub samples : List (List Float)
    pub bpm : Option Float
    pub midi_signal : Option MidiSignal

  -- `processFrame`; `sink` is none where there is no packet sink, else what it answers.
  unfoldable pub process_frame :
      (ℕ → Level) → Option Bool → TransmitAudioFrame → Transmitter → Option Outgoing × Transmitter
  unfolding with_levels
  process_frame measure sink f t =
      let outgoing : Outgoing = record {
        setup = record t.channel_setup {
          channels = with_levels measure 0 t.channel_setup.channels;
        };
        samples = f.samples;
        bpm = f.bpm;
        midi_signal = f.midi_signal;
      } in
      if not (length t.channel_setup.channels == f.channels)
      then (none, record_dropped_frame t)
      else elim sink [
        | none ↦ (none, t)
        | some sends ↦ (some outgoing, (if sends then record t { sent = add64 t.sent 1 } else t))
      ]

  -- `processNextFrame`.
  unfoldable pub process_next_transmit :
      (ℕ → Level) → Option Bool → Transmitter → Bool × Option Outgoing × Transmitter
  unfolding process_frame
  process_next_transmit measure sink t =
      let (frame, queue) = try_read t.queue in
      elim frame [
        | none ↦ (false, none, t)
        | some f ↦
            let (outgoing, t') = process_frame measure sink f (record t { queue = queue }) in
            (true, outgoing, t')
      ]

  module _ (R : RingBuffers P) where
    open R use {RingBuffer, num_ready}

    -- The input side of the engine: the ring buffer, the worker, the tempo that waits in the mailbox
    -- and the MIDI commands that wait.
    pub record Input : Type 0 where
      pub ingest_buffer : RingBuffer
      pub transmitter : Transmitter
      pub client_bpm : Option Float
      pub midi_signals : List MidiSignal
      pub midi_commands_dropped : ℕ
      pub input_blocks_dropped : ℕ

    -- `setMidiSignalToSend`.
    unfoldable pub set_midi_signal_to_send : MidiSignal → Input → Input
    set_midi_signal_to_send midi_none i = i
    set_midi_signal_to_send signal i =
        let (queued, signals) = try_write midi_signal_capacity signal i.midi_signals in
        record i {
          midi_signals = signals;
          midi_commands_dropped =
              if queued then i.midi_commands_dropped else add64 i.midi_commands_dropped 1;
        }

    -- `enqueueFrom`: whether a frame was read from the source, with the source and the worker.
    unfoldable pub enqueue_from :
        RingBuffer
        → ℕ
        → Option Float
        → Option MidiSignal
        → Transmitter
        → Bool × RingBuffer × Transmitter
    enqueue_from source channels bpm midi t =
        let (samples, source') = R.read source sample_buffer_size in
        let frame : TransmitAudioFrame = record {
          channels = channels;
          samples = samples;
          bpm = bpm;
          midi_signal = midi;
        } in
        let (written, queue) = try_write transmit_capacity frame t.queue in
        if channels == 0 || ltb max_audio_channels channels
        then (false, source, record_dropped_frame t)
        else if written
        then (true, source', record t { queue = queue; enqueued = add64 t.enqueued 1 })
        else (false, source, record_dropped_frame t)

    -- One frame's worth of the ring buffer.
    unfoldable pub ingest_frame : ℕ → Input → Input
    unfolding enqueue_from
    ingest_frame channels i =
        let (midi, signals) = try_read i.midi_signals in
        let (enqueued, source, t) =
          enqueue_from i.ingest_buffer channels i.client_bpm midi i.transmitter in
        if has_capacity i.transmitter
        then record i {
          ingest_buffer = if enqueued then source else R.discard source sample_buffer_size;
          transmitter = t;
          client_bpm = none;
          midi_signals = signals;
        }
        else record i {
          ingest_buffer = R.discard i.ingest_buffer sample_buffer_size;
          transmitter = record_dropped_frame i.transmitter;
        }

    -- The loop of `processChunk`, on fuel.
    unfoldable pub ingest_frames : ℕ → ℕ → Input → Input
    unfolding ingest_frame
    ingest_frames zero channels i = i
    ingest_frames (suc fuel) channels i =
        let rest = ingest_frames fuel channels (ingest_frame channels i) in
        if leb sample_buffer_size (num_ready i.ingest_buffer) then rest else i

    -- The input side of `processChunk`, for a block of `n` samples that the device delivers on the
    -- channels that are set up.
    unfoldable pub ingest : ℕ → ℕ → List (List Float) → Input → Input
    unfolding ingest_frames
    ingest channels n samples i =
        let i' =
          if leb n (R.free_space i.ingest_buffer)
          then record i { ingest_buffer = R.write i.ingest_buffer samples n }
          else record i { input_blocks_dropped = add64 i.input_blocks_dropped 1 } in
        ingest_frames (num_ready i'.ingest_buffer / sample_buffer_size) channels i'
