-- ===== src/Queue/Life.antt =====
-- A jitter buffer through any sequence of calls.
use jammer_netz.Base.{
  ℕ, suc, ◌+◌, ◌-◌, ◌≤◌, ◌<◌, ◌≡◌, refl, ◌∙◌, ap, inl, inr, List, [], ◌∷◌, arith, ◌==◌,
  if◌then◌else◌, length, length-drop, drop, u64_mod, add64, add64-eq, Bool-cases,
}
use jammer_netz.Platform.{Platform}
use jammer_netz.Package.{AudioData, Store, counter}
use jammer_netz.Queue.{
  PacketStreamQueue, fresh_quality, new_queue, reset, insert_packet, push, accept, enqueue,
  note_order, measure_jitter, has_been_pushed_before, member, pop_real, fill_in, pop_fill_in,
  pop_first, follows_on, fast_forward_to_size, try_pop,
}
use jammer_netz.Queue.Order.{IsOrdered, push-IsOrdered}
use jammer_netz.Queue.Pop.{try_pop-IsOrdered, pop_fill_in-packets}
use jammer_netz.Queue.Gaps.{IsBridging, push-IsBridging, try_pop-IsBridging, gap_small}
use jammer_netz.Queue.Rebase.{
  fast_forward_to_size-IsOrdered, fast_forward_to_size-IsBridging, fast_forward_to_size_lem,
}

module _ (P : Platform) where
  -- Every packet that was taken is in the queue, was handed out, or was discarded by a rebase, up
  -- to the wrap-around of the counters; and the longest gap stands in the statistics.
  pub record IsAccounted (q : PacketStreamQueue P) : Type 0 where
    pub balance : q.quality.packages_pushed ≡ add64 q.quality.packages_popped (length q.packets)
    pub longest : q.quality.max_length_of_gap ≤ 2

  length-insert_packet :
      (p : AudioData P) (ps : List (AudioData P)) → length (insert_packet P p ps) ≡ length ps + 1
  unfolding insert_packet
  length-insert_packet p [] = omega arith
  length-insert_packet p (x ∷ xs) = ground (arith, length-insert_packet p xs)

  add64-suc : (a b n : ℕ) → a ≡ add64 b n → add64 a 1 ≡ add64 b (n + 1)
  unfolding add64
  add64-suc a b n h = omega arith

  add64-move : (a b n : ℕ) → a ≡ add64 b (n + 1) → a ≡ add64 (add64 b 1) n
  unfolding add64
  add64-move a b n h = omega arith

  add64-split : (a b n k : ℕ) → k ≤ n → a ≡ add64 b n → a ≡ add64 (add64 b k) (n - k)
  unfolding add64
  add64-split a b n k l h = omega arith

  measure_jitter-IsAccounted :
      (now : P.Float) (p : AudioData P) (q : PacketStreamQueue P)
      → IsAccounted q
      → IsAccounted (measure_jitter P now p q)
  unfolding measure_jitter
  measure_jitter-IsAccounted now p q v = ground arith

  enqueue-IsAccounted :
      (p : AudioData P) (q : PacketStreamQueue P) → IsAccounted q → IsAccounted (enqueue P p q)
  unfolding enqueue note_order
  enqueue-IsAccounted p q v = ground (
    arith,
    length-insert_packet p q.packets,
    add64-suc q.quality.packages_pushed q.quality.packages_popped (length q.packets) v.balance,
  )

  push-IsAccounted :
      (now : P.Float) (p : AudioData P) (q : PacketStreamQueue P)
      → IsAccounted q
      → IsAccounted (push P now p q).1
  unfolding push has_been_pushed_before accept
  push-IsAccounted now p q v =
      ground (arith, measure_jitter-IsAccounted now p (enqueue P p q) (enqueue-IsAccounted p q v))

  pop_real-IsAccounted :
      (p : AudioData P) (rest : List (AudioData P)) (q : PacketStreamQueue P)
      → q.packets ≡ p ∷ rest
      → IsAccounted q
      → IsAccounted (pop_real P p rest q)
  unfolding pop_real
  pop_real-IsAccounted p rest q e v = record {
    balance = add64-move q.quality.packages_pushed q.quality.packages_popped (length rest) (
        v.balance
        ∙ ap (add64 q.quality.packages_popped)
            (ap length e ∙ (let k : suc (length rest) ≡ length rest + 1 = omega arith in k)));
    longest = v.longest;
  }

  fill_in-keeps :
      (st : Store P) (p : AudioData P) (q : PacketStreamQueue P)
      → let (_, s, _) = fill_in P st p q in
        (s.packages_pushed ≡ q.quality.packages_pushed)
        × (s.packages_popped ≡ q.quality.packages_popped)
        × (s.max_length_of_gap ≡ q.quality.max_length_of_gap)
  unfolding fill_in
  fill_in-keeps st p q = ground arith

  pop_fill_in-IsAccounted :
      (st : Store P) (p : AudioData P) (rest : List (AudioData P)) (q : PacketStreamQueue P)
      → q.packets ≡ p ∷ rest
      → q.current_gap ≤ 1
      → IsOrdered P q
      → IsAccounted q
      → IsAccounted (pop_fill_in P st p rest q).1
  pop_fill_in-IsAccounted st p rest q e g o v = record {
    balance = rw kept (unfold pop_fill_in in ground (arith, fill_in-keeps st p q, v.balance));
    longest =
        unfold pop_fill_in in
        ground (arith, fill_in-keeps st p q, v.longest, add64-eq q.current_gap 1);
  }
    where
      kept : (pop_fill_in P st p rest q).1.packets ≡ q.packets
      kept = pop_fill_in-packets P st p rest q e o

  pop_first-IsAccounted :
      (st : Store P) (ps : List (AudioData P)) (q : PacketStreamQueue P)
      → q.packets ≡ ps
      → IsOrdered P q
      → IsBridging P q
      → IsAccounted q
      → IsAccounted (pop_first P st ps q).1
  unfolding pop_first
  pop_first-IsAccounted st [] q e o b v = v
  pop_first-IsAccounted st (p ∷ rest) q e o b v = elim (Bool-cases (follows_on P p q)) [
    | inl f ↦ rw f (pop_real-IsAccounted p rest q e v)
    | inr f ↦ rw f (pop_fill_in-IsAccounted st p rest q e (gap_small P p rest q e f o b) o v)
  ]

  try_pop-IsAccounted :
      (st : Store P) (q : PacketStreamQueue P)
      → IsOrdered P q
      → IsBridging P q
      → IsAccounted q
      → IsAccounted (try_pop P st q).1
  unfolding try_pop
  try_pop-IsAccounted st q o b v = pop_first-IsAccounted st q.packets q refl o b v

  -- The calls of a buffer's users. A packet's counter fits 64 bits.
  pub data Call : Type 0 where
    pushes : P.Float → (p : AudioData P) → counter P p < u64_mod → Call
    pops : Store P → Call
    fast_forwards : ℕ → Call
    resets : Call

  unfoldable pub call : Call → PacketStreamQueue P → PacketStreamQueue P
  call (pushes now p h) q = (push P now p q).1
  call (pops st) q = (try_pop P st q).1
  call (fast_forwards retained) q = (fast_forward_to_size P retained q).1
  call resets q = reset P q

  unfoldable pub run : List Call → PacketStreamQueue P → PacketStreamQueue P
  run [] q = q
  run (c ∷ cs) q = run cs (call c q)

  pub record IsSound (q : PacketStreamQueue P) : Type 0 where
    pub ordered : IsOrdered P q
    pub bridging : IsBridging P q
    pub accounted : IsAccounted q

  pub new_queue-IsSound : IsSound (new_queue P)
  unfolding new_queue fresh_quality member add64
  new_queue-IsSound = record {
    ordered = record { rising = tt; tracked = λ c. refl };
    bridging = record { gap_most = omega arith; found = λ h. absurd (omega arith) };
    accounted = record { balance = refl; longest = omega arith };
  }

  reset-eq-new_queue : (q : PacketStreamQueue P) → reset P q ≡ new_queue P
  unfolding reset new_queue
  reset-eq-new_queue q = refl

  fast_forward_to_size-quality :
      (retained : ℕ) (q : PacketStreamQueue P)
      → let (r, q') = fast_forward_to_size P retained q in
        (q'.quality.packages_pushed ≡ q.quality.packages_pushed)
        × (q'.quality.max_length_of_gap ≡ q.quality.max_length_of_gap)
        × (q'.quality.packages_popped ≡ (
            if r.discarded_packets == 0
            then q.quality.packages_popped
            else add64 q.quality.packages_popped r.discarded_packets))
  unfolding fast_forward_to_size
  fast_forward_to_size-quality retained q = ground arith

  fast_forward_to_size-IsAccounted :
      (retained : ℕ) (q : PacketStreamQueue P)
      → IsOrdered P q
      → IsAccounted q
      → IsAccounted (fast_forward_to_size P retained q).1
  fast_forward_to_size-IsAccounted retained q o v = record {
    balance = ground (
      arith,
      fast_forward_to_size-quality retained q,
      kept.1,
      size_left,
      v.balance,
      add64-split q.quality.packages_pushed q.quality.packages_popped (length q.packets)
          (length q.packets - retained),
    );
    longest = ground (arith, fast_forward_to_size-quality retained q, v.longest);
  }
    where
      kept :
          let (r, q') = fast_forward_to_size P retained q in
          (q'.packets ≡ drop (length q.packets - retained) q.packets)
          × (r.discarded_packets ≡ length q.packets - retained)
          × (q.last_popped ≤ q'.last_popped)
      kept = fast_forward_to_size_lem P retained q o

      size_left :
          length (fast_forward_to_size P retained q).1.packets
          ≡ length q.packets - (length q.packets - retained)
      size_left = ap length kept.0 ∙ length-drop (length q.packets - retained) q.packets

  call-IsSound : (c : Call) (q : PacketStreamQueue P) → IsSound q → IsSound (call c q)
  unfolding call
  call-IsSound (pushes now p h) q v = record {
    ordered = push-IsOrdered P now p q h v.ordered;
    bridging = push-IsBridging P now p q v.ordered v.bridging;
    accounted = push-IsAccounted now p q v.accounted;
  }
  call-IsSound (pops st) q v = record {
    ordered = try_pop-IsOrdered P st q v.ordered;
    bridging = try_pop-IsBridging P st q v.ordered v.bridging;
    accounted = try_pop-IsAccounted st q v.ordered v.bridging v.accounted;
  }
  call-IsSound (fast_forwards retained) q v = record {
    ordered = fast_forward_to_size-IsOrdered P retained q v.ordered;
    bridging = fast_forward_to_size-IsBridging P retained q v.ordered v.bridging;
    accounted = fast_forward_to_size-IsAccounted retained q v.ordered v.accounted;
  }
  call-IsSound resets q v = rw (reset-eq-new_queue q) new_queue-IsSound

  -- A sound buffer stays sound whatever is called, in whatever order, on packets with 64-bit
  -- counters: its packets stand by strictly
  -- rising counters above the last popped one and the set holds their counters; no gap is bridged
  -- by more than two fill-ins; and the packets taken are those popped, discarded or still there.
  pub run-IsSound : (cs : List Call) (q : PacketStreamQueue P) → IsSound q → IsSound (run cs q)
  unfolding run
  run-IsSound [] q v = v
  run-IsSound (c ∷ cs) q v = run-IsSound cs (call c q) (call-IsSound c q v)

  -- A reset leaves a sound buffer, whatever it was before.
  pub reset-IsSound : (q : PacketStreamQueue P) → IsSound (reset P q)
  reset-IsSound q = rw (reset-eq-new_queue q) new_queue-IsSound
