-- ===== src/Playout.antt =====
-- The play-out of the client's audio callback: Client/Source/JammerNetzAudioEngine.cpp and its
-- header. `RingBuffer` is code of a submodule and a parameter. `steady_clock`, the level meters, the
-- output tap and the recorders are left out, the 64 bit counts of samples do not wrap, and a marker that is due is given back with its offset
-- where the code computes the clock pulses of it.
pub mod Representation
pub mod Bounds
pub mod Refinement
mod Tests
use jammer_netz.Base.{
  ℕ, zero, suc, ◌+◌, ◌-◌, ◌/◌, ◌%◌, ◌≡◌, ◌<◌, ◌≤◌, Bool, true, false, not, ◌&&◌, Option, none, some,
  List, [], ◌∷◌, ltb, leb, ◌==◌, if◌then◌else◌, get_or, set, replicate, add64,
}
use jammer_netz.Platform.{Platform}
use jammer_netz.RingBuffers.{RingBuffers}
use jammer_netz.Package.{MidiSignal, midi_none, sample_buffer_size}
use jammer_netz.Receive.{RemoteAudioFrame, Worker, ready_frames, discarded_frames, request_rebuffer}

-- `maxPlayoutTimingMarkers`: `PLAYOUT_RINGBUFFER_SIZE / SAMPLE_BUFFER_SIZE + 1`.
abbrev pub playout_ringbuffer_size : ℕ
playout_ringbuffer_size = 131072

abbrev pub max_timing_markers : ℕ
max_timing_markers = playout_ringbuffer_size / sample_buffer_size + 1

abbrev pub max_callback_samples : ℕ
max_callback_samples = 8192

module _ (P : Platform) where
  open P use {Float, literal}

  -- `PlayoutTimingMarker`.
  pub record Marker : Type 0 where
    pub playout_sample : ℕ
    pub server_sample_end : ℕ
    pub bpm : Float
    pub midi_signal : MidiSignal

  unfoldable pub blank_marker : Marker
  blank_marker = record {
    playout_sample = 0;
    server_sample_end = 0;
    bpm = literal 0 0;
    midi_signal = midi_none;
  }

  -- The array of markers, with the indexes of the next to read and to write.
  pub record Timing : Type 0 where
    pub markers : List Marker
    pub timing_read : ℕ
    pub timing_write : ℕ
    pub timing_count : ℕ
    pub samples_written : ℕ
    pub samples_read : ℕ
    pub markers_dropped : ℕ

  -- The members' initial values.
  unfoldable pub new_timing : Timing
  unfolding blank_marker
  new_timing = record {
    markers = replicate max_timing_markers blank_marker;
    timing_read = 0;
    timing_write = 0;
    timing_count = 0;
    samples_written = 0;
    samples_read = 0;
    markers_dropped = 0;
  }

  -- A marker that is due, with its offset in the callback's block.
  pub record Due : Type 0 where
    pub marker : Marker
    pub frame_offset : ℕ

  abbrev pub marker_of : RemoteAudioFrame P → ℕ → Marker
  marker_of f sample = record {
    playout_sample = sample;
    server_sample_end = f.server_sample_end;
    bpm = f.bpm;
    midi_signal = f.midi_signal;
  }

  -- `resetPlayoutState`, but for the buffer.
  unfoldable pub reset_timing : Timing → Timing
  reset_timing t = record t {
    timing_read = 0;
    timing_write = 0;
    timing_count = 0;
    samples_written = 0;
    samples_read = 0;
  }

  -- `appendPlayoutTiming`.
  unfoldable pub append_playout_timing : RemoteAudioFrame P → Timing → Timing
  append_playout_timing f t =
      if t.timing_count == max_timing_markers
      then record t {
        markers_dropped = add64 t.markers_dropped 1;
        samples_written = t.samples_written + sample_buffer_size;
      }
      else record t {
        markers = set t.markers t.timing_write (marker_of f t.samples_written);
        timing_write = (t.timing_write + 1) % max_timing_markers;
        timing_count = t.timing_count + 1;
        samples_written = t.samples_written + sample_buffer_size;
      }

  -- The loop of `scheduleMidiForPlayout`, `count` markers before its end; `sender` says whether
  -- there is a MIDI sender.
  unfoldable pub take_due : Bool → ℕ → ℕ → Timing → List Due × Timing
  take_due sender read_end zero t = ([], t)
  take_due sender read_end (suc count) t =
      let marker : Marker = get_or t.markers t.timing_read blank_marker in
      let (due, t') = take_due sender read_end count (record t {
        timing_read = (t.timing_read + 1) % max_timing_markers;
        timing_count = t.timing_count - 1;
      }) in
      if leb read_end marker.playout_sample then ([], t) else (
        (if sender
            then record {
              marker = marker;
              frame_offset =
                  if ltb t.samples_read marker.playout_sample
                  then marker.playout_sample - t.samples_read
                  else 0;
            }
              ∷ due
            else []),
        t',
      )

  -- `scheduleMidiForPlayout`.
  unfoldable pub schedule_midi_for_playout : Bool → ℕ → Timing → List Due × Timing
  unfolding take_due
  schedule_midi_for_playout sender n t =
      let read_end = t.samples_read + n in
      let (due, t') = take_due sender read_end t.timing_count t in
      (due, record t' { samples_read = read_end })

  module _ (R : RingBuffers P) where
    open R use {RingBuffer, num_ready}

    pub record Playout : Type 0 where
      pub buffer : RingBuffer
      pub timing : Timing
      pub is_playing : Bool
      pub underruns : ℕ

    -- `resetPlayoutState`.
    unfoldable pub reset_playout_state : Playout → Playout
    unfolding reset_timing
    reset_playout_state p = record p { buffer = R.clear p.buffer; timing = reset_timing p.timing }

    -- A frame of the receiving worker, written to the buffer.
    unfoldable pub take_frame : RemoteAudioFrame P → Playout → Playout
    unfolding append_playout_timing
    take_frame f p = record p {
      buffer = R.write p.buffer (f.left_samples ∷ f.right_samples ∷ []) sample_buffer_size;
      timing = append_playout_timing f p.timing;
    }

    -- The loop that pops frames, `frames` of them in the worker's queue, until the block can be
    -- played; frames of another generation are thrown away. With the frames that stay queued.
    unfoldable pub fill_playout :
        ℕ → ℕ → List (RemoteAudioFrame P) → Playout → List (RemoteAudioFrame P) × Playout
    unfolding take_frame
    fill_playout n generation [] p = ([], p)
    fill_playout n generation (f ∷ frames) p =
        let kept = fill_playout n generation frames (take_frame f p) in
        let skipped = fill_playout n generation frames p in
        if ltb (num_ready p.buffer) n
        then (if f.generation == generation then kept else skipped)
        else (f ∷ frames, p)

    -- What a block plays: the samples, none in silence, and the markers that are due.
    pub record Played : Type 0 where
      pub samples : Option (List (List Float))
      pub due : List Due
      pub worker : Worker P
      pub playout : Playout

    -- The rest of `processChunk`'s play-out, once the frames are popped.
    unfoldable pub play_block : Bool → ℕ → Worker P → Playout → Played
    unfolding reset_playout_state schedule_midi_for_playout
    play_block sender n w p =
        let playing =
          if not p.is_playing && leb n (num_ready p.buffer) then true else p.is_playing in
        let (due, timing) = schedule_midi_for_playout sender n p.timing in
        let (samples, buffer) = R.read p.buffer n in
        if playing
        then (if ltb (num_ready p.buffer) n
            then record {
              samples = none;
              due = [];
              worker = request_rebuffer P w;
              playout =
                  reset_playout_state
                    (record p { is_playing = false; underruns = p.underruns + 1 });
            }
            else record {
              samples = some samples;
              due = due;
              worker = w;
              playout = record p { buffer = buffer; timing = timing; is_playing = playing };
            })
        else record {
          samples = none;
          due = [];
          worker = w;
          playout = record p { is_playing = playing };
        }

    -- The play-out of `processChunk` for a block of `n` samples; `reset_requested` is the flag that it
    -- takes at its start.
    unfoldable pub process_playout : Bool → Bool → ℕ → ℕ → Worker P → Playout → Played
    unfolding reset_playout_state fill_playout play_block
    process_playout reset_requested sender generation n w p =
        let p' =
          if reset_requested then record (reset_playout_state p) { is_playing = false } else p in
        let (frames, p'') = fill_playout n generation w.output_queue p' in
        play_block sender n (record w { output_queue = frames }) p''
