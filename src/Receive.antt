-- ===== src/Receive.antt =====
-- The client's receiving worker: Client/Source/AudioReceiveWorker.h and AudioReceiveWorker.cpp,
-- with the frame of RealtimeAudioFrames.h and the queues of BoundedSpscQueue.h. A bounded queue is
-- a list of at most its capacity. The atomic members are fields, which other threads change between
-- two steps. The level meter, the quality text and the thread's sleep are left out.
pub mod Recovery
pub mod Settling
pub mod Frames
mod Tests
use jammer_netz.Base.{
  ℕ, zero, suc, ◌+◌, ◌*◌, Bool, true, false, not, ◌&&◌, ◌||◌, Option, none, some, List, [], ◌∷◌,
  ◌++◌, ltb, leb, ◌==◌, if◌then◌else◌, length, add64, max, min,
}
use jammer_netz.Platform.{Platform}
use jammer_netz.Package.{AudioData, Store, MidiSignal, sample_buffer_size}
use jammer_netz.Queue
use jammer_netz.Queue.{PacketStreamQueue, new_queue, reset, size, try_pop}

abbrev pub input_capacity : ℕ
input_capacity = 512

abbrev pub output_capacity : ℕ
output_capacity = 256

-- `BoundedSpscQueue::tryWrite`.
abbrev pub try_write {ℓ} : {A : Type ℓ} → ℕ → A → List A → Bool × List A
try_write capacity a items =
    if ltb (length items) capacity then (true, items ++ a ∷ []) else (false, items)

-- `BoundedSpscQueue::tryRead`.
abbrev pub try_read {ℓ} : {A : Type ℓ} → List A → Option A × List A
try_read [] = (none, [])
try_read (a ∷ items) = (some a, items)

module _ (P : Platform) where
  open P use {Float, Buffer, literal, num_channels, num_samples, sample}

  pub record RemoteAudioFrame : Type 0 where
    pub generation : ℕ
    pub source_timestamp : Float
    pub server_sample_end : ℕ
    pub bpm : Float
    pub midi_signal : MidiSignal
    pub left_samples : List Float
    pub right_samples : List Float

  pub record Worker : Type 0 where
    pub inbound_queue : List (AudioData P)
    pub packet_queue : PacketStreamQueue P
    pub output_queue : List RemoteAudioFrame
    pub minimum_frames : ℕ
    pub maximum_frames : ℕ
    pub rebuffer_requested : Bool
    pub requested_generation : ℕ
    pub active_generation : ℕ
    pub stream_started : Bool
    pub latest_server_bpm : Float
    pub server_bpm_pending : Bool
    pub discarded : ℕ
    pub inbound_overruns : ℕ
    pub output_overruns : ℕ
    pub recovering_from_overrun : Bool
    pub store : Store P

  -- The members' initial values; `maximum` and `minimum` are the two play-out constants.
  pub new_worker : ℕ → ℕ → Store P → Worker
  new_worker minimum maximum st = record {
    inbound_queue = [];
    packet_queue = new_queue P;
    output_queue = [];
    minimum_frames = minimum;
    maximum_frames = maximum;
    rebuffer_requested = false;
    requested_generation = 0;
    active_generation = 0;
    stream_started = false;
    latest_server_bpm = literal 0 0;
    server_bpm_pending = false;
    discarded = 0;
    inbound_overruns = 0;
    output_overruns = 0;
    recovering_from_overrun = false;
    store = st;
  }

  -- `shutdown`, once the thread has stopped.
  pub shutdown : Worker → Worker
  shutdown w = record w {
    inbound_queue = [];
    output_queue = [];
    packet_queue = reset P w.packet_queue;
  }

  abbrev pub ready_frames : Worker → ℕ
  ready_frames w = length w.output_queue

  abbrev pub current_generation : Worker → ℕ
  current_generation w = w.requested_generation

  pub discarded_frames : Worker → ℕ
  discarded_frames w = add64 w.discarded w.inbound_overruns

  pub output_queue_overruns : Worker → ℕ
  output_queue_overruns w = add64 w.inbound_overruns w.output_overruns

  pub enqueue : AudioData P → Worker → Worker
  enqueue p w =
      let (written, inbound) = try_write input_capacity p w.inbound_queue in
      record w {
        inbound_queue = inbound;
        inbound_overruns = if written then w.inbound_overruns else add64 w.inbound_overruns 1;
      }

  pub try_pop_frame : Worker → Option RemoteAudioFrame × Worker
  try_pop_frame w =
      let (frame, output) = try_read w.output_queue in (frame, record w { output_queue = output })

  pub set_playout_range : ℕ → ℕ → Worker → Worker
  set_playout_range minimum maximum w = record w {
    minimum_frames = minimum;
    maximum_frames = max minimum maximum;
  }

  pub request_rebuffer : Worker → Worker
  request_rebuffer w = record w { rebuffer_requested = true }

  pub request_reset : Worker → Worker
  request_reset w = record w { requested_generation = add64 w.requested_generation 1 }

  pub take_server_bpm_update : Worker → Option Float × Worker
  take_server_bpm_update w = (
    (if w.server_bpm_pending then some w.latest_server_bpm else none),
    record w { server_bpm_pending = false },
  )

  pub apply_reset_if_requested : Worker → Worker
  apply_reset_if_requested w =
      if w.requested_generation == w.active_generation then w else record w {
        inbound_queue = [];
        packet_queue = reset P w.packet_queue;
        stream_started = false;
        recovering_from_overrun = false;
        active_generation = w.requested_generation;
      }

  -- The packets that wait, put into the jitter buffer; the i-th push reads the clock `clock i`.
  pub push_inbound :
      (ℕ → Float) → ℕ → List (AudioData P) → PacketStreamQueue P → PacketStreamQueue P
  push_inbound clock i [] q = q
  push_inbound clock i (p ∷ ps) q = push_inbound clock (i + 1) ps (Queue.push P (clock i) p q).1

  pub drain_inbound : (ℕ → Float) → Worker → Worker
  drain_inbound clock w = record w {
    inbound_queue = [];
    packet_queue = push_inbound clock 0 w.inbound_queue w.packet_queue;
  }

  abbrev pub rebuffer_if_requested : Worker → Worker
  rebuffer_if_requested w =
      if w.rebuffer_requested
      then record w {
        rebuffer_requested = false;
        stream_started = false;
        recovering_from_overrun = false;
      }
      else w

  -- The loop that throws packets away while more than `minimum` frames are ready, `ready` of them
  -- in the output queue; with the number thrown away.
  pub discard : ℕ → ℕ → ℕ → PacketStreamQueue P → Store P → ℕ → PacketStreamQueue P × Store P × ℕ
  discard zero minimum ready q st n = (q, st, n)
  discard (suc fuel) minimum ready q st n =
      let (popped, q', st') = try_pop P st q in
      let later = discard fuel minimum ready q' st' (add64 n 1) in
      if ltb minimum (ready + size P q)
      then elim popped [ none ↦ (q', st', n) | some _ ↦ later ]
      else (q, st, n)

  -- Each packet leaves after at most two fill-ins for the gap in front of it.
  abbrev pub enough : PacketStreamQueue P → ℕ
  enough q = 3 * size P q + 3

  abbrev pub combined_ready_frames : Worker → ℕ
  combined_ready_frames w = length w.output_queue + size P w.packet_queue

  -- The recovery from an overrun.
  pub recover : Worker → Worker
  recover w =
      let recovering =
        w.recovering_from_overrun || ltb w.maximum_frames (combined_ready_frames w) in
      let (q, st, n) =
        discard (enough w.packet_queue) w.minimum_frames (length w.output_queue) w.packet_queue
          w.store w.discarded in
      if recovering
      then record w {
        packet_queue = q;
        store = st;
        discarded = n;
        recovering_from_overrun = not (leb (length w.output_queue + size P q) w.minimum_frames);
      }
      else w

  pub start_stream : Worker → Worker
  start_stream w = record w {
    stream_started = w.stream_started || leb w.minimum_frames (size P w.packet_queue);
  }

  -- One channel of a frame: the samples that the buffer has, then silence.
  abbrev pub copy_from : Buffer → ℕ → ℕ → ℕ → List Float
  copy_from audio channel i zero = []
  copy_from audio channel i (suc n) =
      let rest = copy_from audio channel (i + 1) n in
      (if ltb channel (num_channels audio) && ltb i (num_samples audio)
        then sample audio channel i
        else literal 0 0)
      ∷ rest

  pub frame_of : ℕ → AudioData P → Store P → RemoteAudioFrame
  frame_of generation p st =
      let audio = st.cells p.audio_block.audio_buffer in
      record {
        generation = generation;
        source_timestamp = p.audio_block.timestamp;
        server_sample_end = p.audio_block.server_time;
        bpm = p.audio_block.bpm;
        midi_signal = p.audio_block.midi_signal;
        left_samples = copy_from audio 0 0 sample_buffer_size;
        right_samples = copy_from audio 1 0 sample_buffer_size;
      }

  -- The frame that is written, or the overrun; the worker has popped already.
  abbrev pub write_frame : AudioData P → Worker → Bool × Worker
  write_frame p w =
      let (written, output) =
        try_write output_capacity (frame_of w.active_generation p w.store) w.output_queue in
      if written
      then (
        true,
        record w {
          output_queue = output;
          latest_server_bpm = p.audio_block.bpm;
          server_bpm_pending = true;
        },
      )
      else (false, record w { output_overruns = add64 w.output_overruns 1 })

  abbrev pub prepare_popped : Option (AudioData P × Bool) → Worker → Bool × Worker
  prepare_popped none w = (false, w)
  prepare_popped (some (p, is_fill_in)) w = write_frame p w

  pub prepare_one_frame : Worker → Bool × Worker
  prepare_one_frame w =
      let (popped, q, st) = try_pop P w.store w.packet_queue in
      if length w.output_queue == output_capacity
      then (false, w)
      else prepare_popped popped (record w { packet_queue = q; store = st })

  -- `processNextFrame` up to its last statement.
  pub settle : (ℕ → Float) → Worker → Worker
  settle clock w =
      start_stream
        (recover (rebuffer_if_requested (drain_inbound clock (apply_reset_if_requested w))))

  pub process_next_frame : (ℕ → Float) → Worker → Bool × Worker
  process_next_frame clock w =
      let w' = settle clock w in
      if w'.stream_started
        && not w'.recovering_from_overrun
        && ltb (length w'.output_queue) w'.maximum_frames
      then prepare_one_frame w'
      else (false, w')

  pub process_next_pending_frame : Bool → (ℕ → Float) → Worker → Bool × Worker
  process_next_pending_frame is_thread_running clock w =
      let r = process_next_frame clock w in if is_thread_running then (false, w) else r
