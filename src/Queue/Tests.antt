-- ===== src/Queue/Tests.antt =====
-- The jitter buffer at concrete inputs.
use jammer_netz.Base.{
  ℕ, ◌+◌, ◌-◌, ◌≤◌, ◌<◌, ◌≡◌, ◌⊎◌, ◌↔◌, refl, true, false, some, List, [], ◌∷◌, arith, length, drop,
  add64, sub64,
}
use jammer_netz.Package.{AudioData, counter, create_fill_in_package}
use jammer_netz.Samples.{integers, integers-BufferLaws, one_buffer, packet}
use jammer_netz.Queue.{
  PacketStreamQueue, new_queue, push, try_pop, fast_forward_to_size, insert_packet, member,
  discard_down_to,
}
use jammer_netz.Queue.Order.{IsOrdered, has_counter, push-accepts_iff, push-takes}
use jammer_netz.Queue.Pop.{try_pop-rises}
use jammer_netz.Queue.Gaps.{try_pop-within_three}
use jammer_netz.Queue.Rebase.{
  fast_forward_to_size_lem, fast_forward_to_size-pops_real, fast_forward_to_size-IsFinal,
}
use jammer_netz.Queue.Silence.{try_pop-silences_waiting}
use jammer_netz.Queue.Life.{
  Call, pushes, pops, fast_forwards, resets, call, run, IsSound, new_queue-IsSound, run-IsSound,
}

runs : Unit {0}
unfolding add64 sub64 member discard_down_to run call push try_pop fast_forward_to_size new_queue
    create_fill_in_package
runs = tt

-- Four packets out of order, one of them twice, and one missing.
abbrev arrivals : List (Call integers)
arrivals =
    pushes 0 (packet 10) (omega arith)
    ∷ pushes 1 (packet 12) (omega arith)
    ∷ pushes 2 (packet 11) (omega arith)
    ∷ pushes 3 (packet 11) (omega arith)
    ∷ pushes 4 (packet 20) (omega arith)
    ∷ []

abbrev waiting : PacketStreamQueue integers
waiting = run integers arrivals (new_queue integers)

waiting-IsSound : IsSound integers waiting
waiting-IsSound = run-IsSound integers arrivals (new_queue integers) (new_queue-IsSound integers)

run-IsSound_example :
    IsSound integers
      (run integers (pops one_buffer ∷ fast_forwards 1 ∷ pops one_buffer ∷ resets ∷ []) waiting)
run-IsSound_example =
    run-IsSound integers (pops one_buffer ∷ fast_forwards 1 ∷ pops one_buffer ∷ resets ∷ []) waiting
      waiting-IsSound

push-accepts_iff_example :
    ((push integers 5 (packet 11) waiting).0 ≡ true)
    ↔ ((waiting.last_popped < 11) × (has_counter integers 11 waiting.packets ≡ false))
push-accepts_iff_example = push-accepts_iff integers 5 (packet 11) waiting waiting-IsSound.ordered

push-takes_example :
    ((push integers 5 (packet 10) (new_queue integers)).0 ≡ true)
    × ((push integers 5 (packet 10) (new_queue integers)).1.packets
        ≡ insert_packet integers (packet 10) [])
    × ((push integers 5 (packet 10) (new_queue integers)).1.last_popped ≡ 0)
unfolding new_queue
push-takes_example =
    push-takes integers 5 (packet 10) (new_queue integers) (new_queue-IsSound integers).ordered
      (omega arith) refl

-- A queue with one packet, as the gap before it is bridged.
abbrev gap_queue : ℕ → ℕ → PacketStreamQueue integers
gap_queue last gap = record (new_queue integers) {
  packets = packet 20 ∷ [];
  in_queue = 20 ∷ [];
  last_popped = last;
  current_gap = gap;
  last_popped_data = some (packet last);
}

gap_queue-IsOrdered : (last gap : ℕ) → last < 20 → IsOrdered integers (gap_queue last gap)
unfolding member
gap_queue-IsOrdered last gap h = record {
  rising = (h, omega arith, tt);
  tracked = λ c. ground arith;
}

try_pop-rises_example :
    (19 < 20) × ((try_pop integers one_buffer (gap_queue 19 0)).1.last_popped ≡ 20)
unfolding runs
try_pop-rises_example =
    try_pop-rises integers one_buffer (gap_queue 19 0) (packet 20) false
      (gap_queue-IsOrdered 19 0 (omega arith)) refl

try_pop-within_three_example :
    let (r, q', st') = try_pop integers one_buffer (gap_queue 11 0) in
    let (r', q'', st'') = try_pop integers st' q' in
    let (r'', _, _) = try_pop integers st'' q'' in
    (r ≡ some (packet 20, false))
    ⊎ (e : AudioData integers) × (r ≡ some (e, true))
      × (counter integers e ≡ 11 + 1)
      × ((r' ≡ some (packet 20, false))
          ⊎ (e' : AudioData integers) × (r' ≡ some (e', true))
            × (20 ≡ counter integers e' + 1)
            × (r'' ≡ some (packet 20, false)))
try_pop-within_three_example =
    try_pop-within_three integers one_buffer (gap_queue 11 0) (packet 20) []
      (gap_queue-IsOrdered 11 0 (omega arith))
      (record { gap_most = omega arith; found = λ h. absurd (omega (arith, h)) }) refl refl

fast_forward_to_size_lem_example :
    let (r, q') = fast_forward_to_size integers 2 waiting in
    (q'.packets ≡ drop (length waiting.packets - 2) waiting.packets)
    × (r.discarded_packets ≡ length waiting.packets - 2)
    × (waiting.last_popped ≤ q'.last_popped)
fast_forward_to_size_lem_example =
    fast_forward_to_size_lem integers 2 waiting waiting-IsSound.ordered

-- Three packets behind a pop.
abbrev three : PacketStreamQueue integers
three = record (new_queue integers) {
  packets = packet 11 ∷ packet 12 ∷ packet 20 ∷ [];
  in_queue = 12 ∷ 11 ∷ 20 ∷ [];
  last_popped = 10;
  last_popped_data = some (packet 10);
}

three-IsOrdered : IsOrdered integers three
unfolding member
three-IsOrdered = record {
  rising = (omega arith, omega arith, (omega arith, omega arith, (omega arith, omega arith, tt)));
  tracked = λ c. ground arith;
}

fast_forward_to_size-pops_real_example :
    (try_pop integers one_buffer (fast_forward_to_size integers 2 three).1).0
    ≡ some (packet 12, false)
unfolding runs
fast_forward_to_size-pops_real_example =
    fast_forward_to_size-pops_real integers 2 one_buffer three (packet 12) (packet 20 ∷ [])
      (omega arith) three-IsOrdered refl

fast_forward_to_size-IsFinal_example : 11 ≤ (fast_forward_to_size integers 2 three).1.last_popped
unfolding runs
fast_forward_to_size-IsFinal_example =
    fast_forward_to_size-IsFinal integers 2 three 11 three-IsOrdered refl refl

try_pop-silences_waiting_example :
    let (r, q', st') = try_pop integers one_buffer (gap_queue 11 1) in
    (q'.packets ≡ packet 20 ∷ []) × ((st'.cells 0).value 0 1 ≡ 0)
unfolding runs
try_pop-silences_waiting_example =
    try_pop-silences_waiting integers integers-BufferLaws one_buffer (packet 20) [] (gap_queue 11 1)
      0 1 refl refl (omega arith) refl (gap_queue-IsOrdered 11 1 (omega arith)) (omega arith)
      (omega arith)
