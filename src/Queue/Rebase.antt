-- ===== src/Queue/Rebase.antt =====
-- The latency rebase of the jitter buffer, `fastForwardToSize`.
use jammer_netz.Base.{
  ℕ, suc, ◌+◌, ◌-◌, ◌≤◌, ◌<◌, ◌≡◌, sym, ◌∙◌, ap, subst, inl, inr, true, false, Option, none, some,
  List, [], ◌∷◌, arith, ltb, ◌==◌, length, drop, Bool-cases,
}
use jammer_netz.Platform.{Platform}
use jammer_netz.Package.{AudioData, Store, counter}
use jammer_netz.Queue.{
  PacketStreamQueue, member, erase_counter, discard_down_to, rebased, fast_forward_to_size, try_pop,
  pop_first,
}
use jammer_netz.Queue.Order.{
  Rising, has_counter, IsOrdered, has_counter_below, member-erase_counter,
}
use jammer_netz.Queue.Gaps.{IsBridging, Follows}

module _ (P : Platform) where
  abbrev Tracks : List ℕ → List (AudioData P) → Type 0
  Tracks set ps = (c : ℕ) → member P c set ≡ has_counter P c ps

  -- The newest discarded counter, or the given bound before the first.
  abbrev floor : Option ℕ → ℕ → ℕ
  floor none b = b
  floor (some x) b = x

  Tracks-erase_counter :
      (p : AudioData P) (ps : List (AudioData P)) (set : List ℕ)
      → Rising P (counter P p) ps
      → Tracks set (p ∷ ps)
      → Tracks (erase_counter P (counter P p) set) ps
  Tracks-erase_counter p ps set r t c = ground (
    arith,
    t c,
    member-erase_counter P c (counter P p) set,
    has_counter_below P (counter P p) c ps,
  )

  record Discards (retained b start : ℕ) (ps : List (AudioData P)) (n : ℕ)
      (r : List (AudioData P) × List ℕ × Option ℕ × ℕ) : Type 0 where
    kept : r.0 ≡ drop (length ps - retained) ps
    tracks : Tracks r.1 r.0
    above : Rising P (floor r.2 b) r.0
    number : r.3 ≡ n + (length ps - retained)
    later : start ≤ floor r.2 b
    -- What left the queue is not above the bound any more.
    dropped : (c : ℕ) → has_counter P c ps ≡ true → has_counter P c r.0 ≡ false → c ≤ floor r.2 b

  discard_lem :
      (retained b : ℕ) (ps : List (AudioData P)) (set : List ℕ) (newest : Option ℕ) (n : ℕ)
      → Rising P (floor newest b) ps
      → Tracks set ps
      → Discards retained b (floor newest b) ps n (discard_down_to P retained ps set newest n)
  unfolding discard_down_to
  discard_lem retained b [] set newest n r t = record {
    kept = ground arith;
    tracks = t;
    above = r;
    number = omega arith;
    later = omega arith;
    dropped = λ c h k. absurd (cc);
  }
  discard_lem retained b (p ∷ ps) set newest n r t =
      elim (Bool-cases (ltb retained (suc (length ps)))) [
        | inl e ↦
            let ih =
              discard_lem retained b ps (erase_counter P (counter P p) set) (some (counter P p))
                (n + 1) r.2 (Tracks-erase_counter p ps set r.2 t) in
            let k : suc (length ps) - retained ≡ suc (length ps - retained) = ground arith in
            rw e (record {
              kept = ih.kept ∙ ap (λ (m : ℕ). drop m (p ∷ ps)) (sym k);
              tracks = ih.tracks;
              above = ih.above;
              number = omega (arith, ih.number, k);
              later = omega (arith, ih.later);
              dropped = λ c h g. ground (arith, ih.dropped c, h, g, ih.later);
            })
        | inr e ↦
            let k : suc (length ps) - retained ≡ 0 = ground arith in
            rw e (record {
              kept = ap (λ (m : ℕ). drop m (p ∷ ps)) (sym k);
              tracks = t;
              above = r;
              number = omega (arith, k);
              later = omega arith;
              dropped = λ c h g. absurd (cc);
            })
      ]

  rebased-Rising :
      (ps : List (AudioData P)) (newest : Option ℕ) (b last : ℕ)
      → Rising P (floor newest b) ps
      → Rising P (rebased P ps newest last) ps
  rebased-Rising [] newest b last r = tt
  rebased-Rising (p ∷ ps) newest b last r = ground arith

  floor-le-rebased :
      (ps : List (AudioData P)) (newest : Option ℕ) (last : ℕ)
      → Rising P (floor newest last) ps
      → floor newest last ≤ rebased P ps newest last
  floor-le-rebased [] none last r = omega arith
  floor-le-rebased [] (some x) last r = omega arith
  floor-le-rebased (p ∷ ps) newest last r = ground arith

  pub fast_forward_to_size-IsOrdered :
      (retained : ℕ) (q : PacketStreamQueue P)
      → IsOrdered P q
      → IsOrdered P (fast_forward_to_size P retained q).1
  unfolding fast_forward_to_size
  fast_forward_to_size-IsOrdered retained q v = elim (Bool-cases (r.3 == 0)) [
    | inl e ↦ rw e (record {
      rising = subst (Rising P q.last_popped) (sym (unchanged e)) v.rising;
      tracked = d.tracks;
    })
    | inr e ↦ rw e (record {
      rising = rebased-Rising r.0 r.2 q.last_popped q.last_popped d.above;
      tracked = d.tracks;
    })
  ]
    where
      r : List (AudioData P) × List ℕ × Option ℕ × ℕ
      r = discard_down_to P retained q.packets q.in_queue none 0

      d : Discards retained q.last_popped q.last_popped q.packets 0 r
      d = discard_lem retained q.last_popped q.packets q.in_queue none 0 v.rising v.tracked

      unchanged : (r.3 == 0) ≡ true → r.0 ≡ q.packets
      unchanged e =
          d.kept
          ∙ ap (λ (m : ℕ). drop m q.packets)
              (let k : length q.packets - retained ≡ 0 = ground (arith, d.number, e) in k)

  -- The rebase of a queue in order keeps the newest packets, `retained` of them at most, and
  -- reports how many it discarded. The last popped counter does not go back.
  pub fast_forward_to_size_lem :
      (retained : ℕ) (q : PacketStreamQueue P)
      → IsOrdered P q
      → let (r, q') = fast_forward_to_size P retained q in
        (q'.packets ≡ drop (length q.packets - retained) q.packets)
        × (r.discarded_packets ≡ length q.packets - retained)
        × (q.last_popped ≤ q'.last_popped)
  unfolding fast_forward_to_size
  fast_forward_to_size_lem retained q v = elim (Bool-cases (r.3 == 0)) [
    | inl e ↦ rw e (d.kept, ground (arith, d.number, e), omega arith)
    | inr e ↦ rw e (
      d.kept,
      omega (arith, d.number),
      omega (arith, d.later, floor-le-rebased r.0 r.2 q.last_popped d.above),
    )
  ]
    where
      r : List (AudioData P) × List ℕ × Option ℕ × ℕ
      r = discard_down_to P retained q.packets q.in_queue none 0

      d : Discards retained q.last_popped q.last_popped q.packets 0 r
      d = discard_lem retained q.last_popped q.packets q.in_queue none 0 v.rising v.tracked

  -- A discarded packet is not above the last popped counter any more, so it cannot come back.
  pub fast_forward_to_size-IsFinal :
      (retained : ℕ) (q : PacketStreamQueue P) (c : ℕ)
      → IsOrdered P q
      → has_counter P c q.packets ≡ true
      → has_counter P c (fast_forward_to_size P retained q).1.packets ≡ false
      → c ≤ (fast_forward_to_size P retained q).1.last_popped
  unfolding fast_forward_to_size
  fast_forward_to_size-IsFinal retained q c v h g =
      ground
        (arith, d.dropped c h, d.kept, d.number, floor-le-rebased r.0 r.2 q.last_popped d.above)
    where
      r : List (AudioData P) × List ℕ × Option ℕ × ℕ
      r = discard_down_to P retained q.packets q.in_queue none 0

      d : Discards retained q.last_popped q.last_popped q.packets 0 r
      d = discard_lem retained q.last_popped q.packets q.in_queue none 0 v.rising v.tracked

  pub fast_forward_to_size-IsBridging :
      (retained : ℕ) (q : PacketStreamQueue P)
      → IsOrdered P q
      → IsBridging P q
      → IsBridging P (fast_forward_to_size P retained q).1
  unfolding fast_forward_to_size
  fast_forward_to_size-IsBridging retained q o v = elim (Bool-cases (r.3 == 0)) [
    | inl e ↦ rw e (record {
      gap_most = v.gap_most;
      found = λ h.
          subst (Follows P q.last_popped)
            (sym (d.kept ∙ ap (λ (m : ℕ). drop m q.packets) (nothing e))) (v.found h);
    })
    | inr e ↦ rw e (record { gap_most = omega arith; found = λ h. absurd (omega arith) })
  ]
    where
      r : List (AudioData P) × List ℕ × Option ℕ × ℕ
      r = discard_down_to P retained q.packets q.in_queue none 0

      d : Discards retained q.last_popped q.last_popped q.packets 0 r
      d = discard_lem retained q.last_popped q.packets q.in_queue none 0 o.rising o.tracked

      nothing : (r.3 == 0) ≡ true → length q.packets - retained ≡ 0
      nothing e = ground (arith, d.number, e)

  first_without_context :
      (st : Store P) (ps rest : List (AudioData P)) (p : AudioData P) (q : PacketStreamQueue P)
      → ps ≡ p ∷ rest
      → q.last_popped_data ≡ none
      → (pop_first P st ps q).0 ≡ some (p, false)
  unfolding pop_first
  first_without_context st ps rest p q e n = rw e (ground arith)

  -- After a rebase that discarded packets, the next pop hands out the oldest retained packet, with
  -- no fill-in for the packets that were skipped.
  pub fast_forward_to_size-pops_real :
      (retained : ℕ) (st : Store P) (q : PacketStreamQueue P) (p : AudioData P)
      (rest : List (AudioData P))
      → retained < length q.packets
      → IsOrdered P q
      → (fast_forward_to_size P retained q).1.packets ≡ p ∷ rest
      → (try_pop P st (fast_forward_to_size P retained q).1).0 ≡ some (p, false)
  unfolding try_pop fast_forward_to_size
  fast_forward_to_size-pops_real retained st q p rest h v e =
      first_without_context st _ rest p (fast_forward_to_size P retained q).1 e some_discarded
    where
      r : List (AudioData P) × List ℕ × Option ℕ × ℕ
      r = discard_down_to P retained q.packets q.in_queue none 0

      d : Discards retained q.last_popped q.last_popped q.packets 0 r
      d = discard_lem retained q.last_popped q.packets q.in_queue none 0 v.rising v.tracked

      some_discarded : (fast_forward_to_size P retained q).1.last_popped_data ≡ none
      some_discarded = ground (arith, d.number, h)
