-- ===== src/Receive/Tests.antt =====
-- The receiving worker at concrete inputs.
use jammer_netz.Package.{AudioData}
use jammer_netz.Base.{
  Bool, ◌==◌, ◌≤◌, ◌≡◌, ◌⊎◌, ◌||◌, ◌++◌, true, false, some, [], ◌∷◌, ltb, length, arith,
}
use jammer_netz.Queue.{new_queue, member, try_pop}
use jammer_netz.Queue.Life.{new_queue-IsSound}
use jammer_netz.Samples.{integers, one_buffer, packet}
use jammer_netz.Receive.{
  Worker, recover, settle, process_next_frame, combined_ready_frames, output_capacity, frame_of,
}
use jammer_netz.Receive.Recovery.{IsOrderly, IsDrained, recover_lem}
use jammer_netz.Receive.Settling.{TakesIn}
use jammer_netz.Receive.Frames.{may_play, process_next_frame_lem}

-- A worker with two packets waiting.
abbrev worker : Worker integers
worker = record {
  inbound_queue = packet 10 ∷ packet 11 ∷ [];
  packet_queue = new_queue integers;
  output_queue = [];
  minimum_frames = 1;
  maximum_frames = 3;
  rebuffer_requested = false;
  requested_generation = 0;
  active_generation = 0;
  stream_started = false;
  latest_server_bpm = 0;
  server_bpm_pending = false;
  discarded = 0;
  inbound_overruns = 0;
  output_overruns = 0;
  recovering_from_overrun = true;
  store = one_buffer;
}

worker-IsOrderly : IsOrderly integers worker
worker-IsOrderly =
    let s = new_queue-IsSound integers in record { ordered = s.ordered; bridging = s.bridging }

-- A worker with three packets in its jitter buffer, two of them behind a gap.
abbrev crowded : Worker integers
crowded = record worker {
  inbound_queue = [];
  packet_queue = record (new_queue integers) {
    packets = packet 11 ∷ packet 20 ∷ packet 21 ∷ [];
    in_queue = 20 ∷ 11 ∷ 21 ∷ [];
    last_popped = 10;
    last_popped_data = some (packet 10);
  };
}

crowded-IsOrderly : IsOrderly integers crowded
unfolding member new_queue
crowded-IsOrderly = record {
  ordered = record {
    rising = (omega arith, omega arith, (omega arith, omega arith, (omega arith, omega arith, tt)));
    tracked = λ c. ground arith;
  };
  bridging = record { gap_most = omega arith; found = λ h. absurd (omega (arith, h)) };
}

recover_lem_example :
    let w' = recover integers crowded in
    IsOrderly integers w'
    × (w'.output_queue ≡ crowded.output_queue)
    × (((crowded.recovering_from_overrun
              || ltb crowded.maximum_frames (combined_ready_frames integers crowded))
            ≡ false)
          × (w' ≡ crowded)
        ⊎ ((crowded.recovering_from_overrun
              || ltb crowded.maximum_frames (combined_ready_frames integers crowded))
            ≡ true)
          × (w'.recovering_from_overrun
              ≡ ltb crowded.minimum_frames (combined_ready_frames integers w'))
          × IsDrained integers 1 0 crowded.packet_queue w'.packet_queue)
recover_lem_example = recover_lem integers crowded crowded-IsOrderly

-- The same worker while no recovery is under way: the step makes a frame.
abbrev playing : Worker integers
playing = record crowded { maximum_frames = 9; recovering_from_overrun = false }

playing-IsOrderly : IsOrderly integers playing
playing-IsOrderly =
    let v = crowded-IsOrderly in record { ordered = v.ordered; bridging = v.bridging }

process_next_frame_lem_example :
    let (made, w') = process_next_frame integers (λ i. i) playing in
    let ready = settle integers (λ i. i) playing in
    let (popped, q, st) = try_pop integers ready.store ready.packet_queue in
    IsOrderly integers w'
    × (w'.output_overruns ≡ playing.output_overruns)
    × (length w'.output_queue ≤ output_capacity)
    × (ready.inbound_queue ≡ [])
    × (((playing.requested_generation == playing.active_generation) ≡ true)
          × TakesIn integers (λ i. i) playing ready.packet_queue
        ⊎ ((playing.requested_generation == playing.active_generation) ≡ false)
          × (ready.packet_queue.packets ≡ []))
    × ((made ≡ false)
          × (w'.output_queue ≡ playing.output_queue)
          × (w'.packet_queue ≡ ready.packet_queue)
          × ((may_play integers ready ≡ false)
              ⊎ (length playing.output_queue ≡ output_capacity)
              ⊎ (ready.packet_queue.packets ≡ []))
        ⊎ (made ≡ true)
          × (may_play integers ready ≡ true)
          × (w'.packet_queue ≡ q)
          × (p : AudioData integers) × (is_fill_in : Bool) × (popped ≡ some (p, is_fill_in))
          × (w'.output_queue
              ≡ playing.output_queue ++ frame_of integers playing.requested_generation p st ∷ []))
process_next_frame_lem_example =
    process_next_frame_lem integers (λ i. i) playing tt (omega arith) playing-IsOrderly
