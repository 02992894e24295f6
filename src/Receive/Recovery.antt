-- ===== src/Receive/Recovery.antt =====
-- The recovery from an overrun: the loop that throws packets away ends.
use jammer_netz.Base.{
  ℕ, zero, suc, ◌+◌, ◌-◌, ◌*◌, ◌≤◌, ◌<◌, ◌≡◌, refl, ◌∙◌, ap, ◌⊎◌, inl, inr, Bool, true, false, ◌||◌,
  Option, none, some, [], arith, ltb, length, add64, add64-eq, Bool-cases,
}
use jammer_netz.Platform.{Platform}
use jammer_netz.Package.{AudioData, Store}
use jammer_netz.Queue.{PacketStreamQueue, size, try_pop}
use jammer_netz.Queue.Order.{IsOrdered}
use jammer_netz.Queue.Pop.{Pops, empty, real, fill, try_pop-Pops, try_pop-IsOrdered}
use jammer_netz.Queue.Gaps.{IsBridging, gap_small, try_pop-IsBridging}
use jammer_netz.Queue.Size.{size-length}
use jammer_netz.Receive.{Worker, discard, enough, recover, combined_ready_frames}

module _ (P : Platform) where
  -- What is left to throw away: three pops for each packet, less the fill-ins that the gap in
  -- front of the first one has had.
  abbrev work : PacketStreamQueue P → ℕ
  work q = 3 * length q.packets + (2 - q.current_gap)

  -- A pop gives nothing from an empty buffer, and otherwise leaves less work.
  pop-work :
      (q q' : PacketStreamQueue P) (r : Option (AudioData P × Bool))
      → IsOrdered P q
      → IsBridging P q
      → Pops P q r q'
      → ((r ≡ none) × (q' ≡ q) × (q.packets ≡ []))
        ⊎ ((d : AudioData P × Bool) × (r ≡ some d) × (work q' < work q))
  pop-work q q' r o b (empty e n s) = inl (n, s, e)
  pop-work q q' r o b (real p rest e n s l g) =
      let k : length q.packets ≡ suc (length rest) = ap length e in
      let k' : length q'.packets ≡ length rest = ap length s in
      inr ((p, false), n, omega (arith, k, k', g))
  pop-work q q' r o b (fill p rest x e f n s lo hi l g) =
      let k' : length q'.packets ≡ length q.packets = ap length s in
      let small = gap_small P p rest q e f o b in
      inr ((x, true), n, omega (arith, k', small, g, add64-eq q.current_gap 1))

  -- What the loop leaves of a buffer: all of it, where no more than the minimum was ready; else
  -- exactly the minimum, or nothing where more than the minimum is in the output queue.
  abbrev pub IsDrained : ℕ → ℕ → PacketStreamQueue P → PacketStreamQueue P → Type 0
  IsDrained minimum ready q q' =
      (ready + size P q ≤ minimum) × (q' ≡ q)
      ⊎ (minimum < ready + size P q)
        × ((ready + size P q' ≡ minimum) ⊎ (minimum < ready) × (q'.packets ≡ []))

  -- A pop takes one packet at most.
  pop-one :
      (q q' : PacketStreamQueue P) (r : Option (AudioData P × Bool))
      → Pops P q r q'
      → size P q ≤ size P q' + 1
  unfolding size
  pop-one q q' r (empty e n s) = rw s (omega arith)
  pop-one q q' r (real p rest e n s l g) = rw (e, s) (omega arith)
  pop-one q q' r (fill p rest x e f n s lo hi l g) = rw s (omega arith)

  -- The loop after one pop.
  IsDrained-pop :
      (minimum ready : ℕ) (q q' q'' : PacketStreamQueue P)
      → minimum < ready + size P q
      → size P q ≤ size P q' + 1
      → IsDrained minimum ready q' q''
      → IsDrained minimum ready q q''
  IsDrained-pop minimum ready q q' q'' h one (inl (l, s)) =
      inr (h, inl (rw s (omega (arith, h, one, l))))
  IsDrained-pop minimum ready q q' q'' h one (inr (l, d)) = inr (h, d)

  discard_step :
      (fuel minimum ready : ℕ) (q : PacketStreamQueue P) (st : Store P) (n : ℕ)
      → ltb minimum (ready + size P q) ≡ true
      → ((d : AudioData P × Bool)
          → (try_pop P st q).0 ≡ some d
          → discard P (suc fuel) minimum ready q st n
            ≡ discard P fuel minimum ready (try_pop P st q).1 (try_pop P st q).2 (add64 n 1))
        × ((try_pop P st q).0 ≡ none
            → (discard P (suc fuel) minimum ready q st n).0 ≡ (try_pop P st q).1)
  unfolding discard
  discard_step fuel minimum ready q st n h = (λ d e. rw (h, e) refl, λ e. rw (h, e) refl)

  pub discard-IsDrained :
      (fuel minimum ready : ℕ) (q : PacketStreamQueue P) (st : Store P) (n : ℕ)
      → IsOrdered P q
      → IsBridging P q
      → work q < fuel
      → let (q', _, _) = discard P fuel minimum ready q st n in
        IsDrained minimum ready q q' × IsOrdered P q' × IsBridging P q'
  discard-IsDrained zero minimum ready q st n o b h = absurd (omega (arith, h))
  discard-IsDrained (suc fuel) minimum ready q st n o b h =
      elim (Bool-cases (ltb minimum (ready + size P q))) [
        | inr t ↦
            let same : (discard P (suc fuel) minimum ready q st n).0 ≡ q =
              unfold discard in rw t refl in
            rw same (inl (ground (arith, t), refl), o, b)
        | inl t ↦
            let (goes, stops) = discard_step fuel minimum ready q st n t in
            let more : minimum < ready + size P q = ground (arith, t) in
            let one = pop-one q (try_pop P st q).1 (try_pop P st q).0 (try_pop-Pops P st q o) in
            elim (pop-work q (try_pop P st q).1 (try_pop P st q).0 o b (try_pop-Pops P st q o)) [
              | inl (e, s, x) ↦
                  let none_left : size P q ≡ 0 = size-length P q ∙ ap length x in
                  rw (stops e ∙ s) (inr (more, inr (omega (arith, more, none_left), x)), o, b)
              | inr (d, e, l) ↦
                  let (drained, o', b') =
                    discard-IsDrained fuel minimum ready (try_pop P st q).1 (try_pop P st q).2
                      (add64 n 1) (try_pop-IsOrdered P st q o) (try_pop-IsBridging P st q o b)
                      (omega (arith, l, h)) in
                  rw (goes d e) (IsDrained-pop minimum ready q _ _ more one drained, o', b')
            ]
      ]

  pub discard-enough :
      (minimum ready : ℕ) (q : PacketStreamQueue P) (st : Store P) (n : ℕ)
      → IsOrdered P q
      → IsBridging P q
      → let (q', _, _) = discard P (enough P q) minimum ready q st n in
        IsDrained minimum ready q q' × IsOrdered P q' × IsBridging P q'
  discard-enough minimum ready q st n o b =
      discard-IsDrained (enough P q) minimum ready q st n o b (omega (arith, size-length P q))

  -- The worker whose jitter buffer is in order and bridges its gaps.
  pub record IsOrderly (w : Worker P) : Type 0 where
    pub ordered : IsOrdered P w.packet_queue
    pub bridging : IsBridging P w.packet_queue

  -- The recovery ends its loop, fill-ins included, and leaves a jitter buffer that is in order and
  -- bridges its gaps, as it was before. A worker that neither is recovering nor has more frames
  -- ready than the maximum stays as it is. Any other one keeps its jitter buffer where no more than
  -- the minimum is ready; else exactly the minimum is ready then, or its jitter buffer is empty and
  -- more than the minimum is in the output queue, and just in that case it goes on recovering.
  pub recover_lem :
      (w : Worker P)
      → IsOrderly w
      → let w' = recover P w in
        IsOrderly w'
        × (w'.output_queue ≡ w.output_queue)
        × (((w.recovering_from_overrun || ltb w.maximum_frames (combined_ready_frames P w)) ≡ false)
              × (w' ≡ w)
            ⊎ ((w.recovering_from_overrun || ltb w.maximum_frames (combined_ready_frames P w))
                ≡ true)
              × (w'.recovering_from_overrun ≡ ltb w.minimum_frames (combined_ready_frames P w'))
              × IsDrained w.minimum_frames (length w.output_queue) w.packet_queue w'.packet_queue)
  unfolding recover
  recover_lem w v =
      let d =
        discard-enough w.minimum_frames (length w.output_queue) w.packet_queue w.store w.discarded
          v.ordered v.bridging in
      elim (Bool-cases
        (w.recovering_from_overrun || ltb w.maximum_frames (combined_ready_frames P w))) [
          | inl e ↦
              rw e (record { ordered = d.1; bridging = d.2 }, refl, inr (refl, ground arith, d.0))
          | inr e ↦ rw e (v, refl, inl (refl, refl))
        ]
