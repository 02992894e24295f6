-- ===== src/Playout/Tests.antt =====
-- Concrete runs of the play-out.
use jammer_netz.Base.{ℕ, ◌≡◌, refl, false, true, List, [], ◌∷◌, arith}
use jammer_netz.Package.{midi_start}
use jammer_netz.Samples.{counting, counting-RingBufferLaws, integers, one_buffer}
use jammer_netz.Receive.{RemoteAudioFrame, Worker, new_worker}
use jammer_netz.Playout.{Playout, new_timing}
use jammer_netz.Playout.Refinement.{
  Implements, append, schedule, reset, Operation, run_timing, run_queue, run_timing-run_queue,
  new_queue, new_timing-Implements,
}
use jammer_netz.Playout.Bounds.{Block, IsBalanced, Spaced, play_all, play_all-markers_dropped}

abbrev frame : RemoteAudioFrame integers
frame = record {
  generation = 0;
  source_timestamp = 0;
  server_sample_end = 128;
  bpm = 120;
  midi_signal = midi_start;
  left_samples = [];
  right_samples = [];
}

abbrev operations : List (Operation integers)
operations =
    append frame ∷ append frame ∷ schedule true 100 ∷ reset ∷ append frame ∷ schedule true 64 ∷ []

run_timing-run_queue_example :
    ((run_timing integers operations (new_timing integers)).0
      ≡ (run_queue integers operations (new_queue integers)).0)
    × Implements integers
        (run_timing integers operations (new_timing integers)).1
        (run_queue integers operations (new_queue integers)).1
run_timing-run_queue_example =
    run_timing-run_queue integers operations (new_timing integers) (new_queue integers)
      (new_timing-Implements integers)

abbrev silent : Playout integers counting
silent = record {
  buffer = (0, 131072);
  timing = new_timing integers;
  is_playing = false;
  underruns = 0;
}

silent-IsBalanced : IsBalanced integers counting silent
unfolding new_queue
silent-IsBalanced = record {
  queue = new_queue integers;
  held = new_timing-Implements integers;
  spaced = unfold Spaced in tt;
  counted = refl;
  few = omega arith;
  room = omega arith;
}

abbrev worker : Worker integers
worker = record (new_worker integers 1 4 one_buffer) { output_queue = frame ∷ frame ∷ [] }

abbrev block : ℕ → Block integers counting
block n = record {
  reset_requested = false;
  sender = true;
  generation = 0;
  samples = n;
  worker = worker;
}

play_all-markers_dropped_example :
    (play_all integers counting (block 200 ∷ block 300 ∷ []) silent).timing.markers_dropped
    ≡ (new_timing integers).markers_dropped
play_all-markers_dropped_example =
    play_all-markers_dropped integers counting counting-RingBufferLaws (block 200 ∷ block 300 ∷ [])
      silent (omega arith) silent-IsBalanced
