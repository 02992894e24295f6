-- ===== src/Receive/Frames.antt =====
-- One step of the receiving worker and the frame that it prepares.
use jammer_netz.Base.{
  ℕ, ◌≤◌, ◌<◌, ◌≡◌, refl, sym, ◌∙◌, ap, subst, ◌⊎◌, inl, inr, Bool, true, false, not, ◌&&◌, Option,
  none, some, if◌then◌else◌, [], ◌∷◌, ◌++◌, arith, ltb, ◌==◌, length, length-append, u64_mod,
  Bool-cases, All,
}
use jammer_netz.Platform.{Platform}
use jammer_netz.Package.{AudioData, Store, counter}
use jammer_netz.Queue.{PacketStreamQueue, try_pop}
use jammer_netz.Queue.Order.{IsOrdered}
use jammer_netz.Queue.Pop.{Pops, empty, real, fill, try_pop-Pops, try_pop-IsOrdered}
use jammer_netz.Queue.Gaps.{IsBridging, try_pop-IsBridging}
use jammer_netz.Receive.{
  Worker, frame_of, prepare_popped, prepare_one_frame, settle, process_next_frame, output_capacity,
}
use jammer_netz.Receive.Recovery.{IsOrderly}
use jammer_netz.Receive.Settling.{
  settle-IsOrderly, settle-keeps, settle-reset, settle-TakesIn, TakesIn,
}

module _ (P : Platform) where
  -- Either no frame was added and the jitter buffer kept its packets, since there was none or no
  -- room, or exactly one frame, of the packet that the jitter buffer handed out.
  abbrev pub OneFrame : Worker P → Bool → Worker P → Type 0
  OneFrame w made w' =
      ((made ≡ false)
        × (w'.output_queue ≡ w.output_queue)
        × (w'.packet_queue ≡ w.packet_queue)
        × ((length w.output_queue ≡ output_capacity) ⊎ (w.packet_queue.packets ≡ [])))
      ⊎ ((made ≡ true)
          × (length w.output_queue < output_capacity)
          × (p : AudioData P) × (is_fill_in : Bool) × ((try_pop P w.store w.packet_queue).0
              ≡ some (p, is_fill_in))
          × (w'.packet_queue ≡ (try_pop P w.store w.packet_queue).1)
          × (w'.output_queue
              ≡ w.output_queue
                ++ frame_of P w.active_generation p (try_pop P w.store w.packet_queue).2 ∷ []))

  Pops-none :
      {q q' : PacketStreamQueue P} {r : Option (AudioData P × Bool)}
      → Pops P q r q'
      → r ≡ none
      → (q' ≡ q) × (q.packets ≡ [])
  Pops-none (empty e n s) h = (s, e)
  Pops-none (real p rest e n s l g) h = absurd (cc)
  Pops-none (fill p rest x e f n s lo hi l g) h = absurd (cc)

  -- The frame of a popped packet, in a queue with room.
  prepare_popped_lem :
      (popped : Option (AudioData P × Bool)) (q : PacketStreamQueue P) (st : Store P) (w : Worker P)
      → length w.output_queue < output_capacity
      → Pops P w.packet_queue popped q
      → popped ≡ (try_pop P w.store w.packet_queue).0
      → q ≡ (try_pop P w.store w.packet_queue).1
      → st ≡ (try_pop P w.store w.packet_queue).2
      → let (made, w') = prepare_popped P popped (record w { packet_queue = q; store = st }) in
        OneFrame w made w' × (w'.output_overruns ≡ w.output_overruns) × (w'.packet_queue ≡ q)
  prepare_popped_lem none q st w h v e e' e'' =
      let (s, n) = Pops-none v refl in (inl (refl, refl, s, inr n), refl, refl)
  prepare_popped_lem (some (p, f)) q st w h v e e' e'' =
      let t : ltb (length w.output_queue) output_capacity ≡ true = ground (arith, h) in
      rw t (
        inr (
          refl,
          h,
          p,
          f,
          sym e,
          e',
          ap (λ s. w.output_queue ++ frame_of P w.active_generation p s ∷ []) e'',
        ),
        refl,
        refl,
      )

  prepare_one_frame_lem :
      (w : Worker P)
      → length w.output_queue ≤ output_capacity
      → IsOrderly P w
      → let (made, w') = prepare_one_frame P w in
        OneFrame w made w' × (w'.output_overruns ≡ w.output_overruns) × IsOrderly P w'
  unfolding prepare_one_frame
  prepare_one_frame_lem w h v = elim (Bool-cases (length w.output_queue == output_capacity)) [
    | inl e ↦ rw e (inl (refl, refl, refl, inl (ground (arith, e))), refl, v)
    | inr e ↦
        let (popped, q, st) = try_pop P w.store w.packet_queue in
        let l =
          prepare_popped_lem popped q st w (ground (arith, e, h))
            (try_pop-Pops P w.store w.packet_queue v.ordered) refl refl refl in
        rw e (
          l.0,
          l.1,
          record {
            ordered =
                subst (IsOrdered P) (sym l.2)
                  (try_pop-IsOrdered P w.store w.packet_queue v.ordered);
            bridging =
                subst (IsBridging P) (sym l.2)
                  (try_pop-IsBridging P w.store w.packet_queue v.ordered v.bridging);
          },
        )
  ]

  room_after :
      (w : Worker P)
      → length w.output_queue ≤ output_capacity
      → OneFrame w (prepare_one_frame P w).0 (prepare_one_frame P w).1
      → length (prepare_one_frame P w).1.output_queue ≤ output_capacity
  room_after w h (inl (n, q, _, _)) = rw q h
  room_after w h (inr (y, r, p, f, _, _, q)) = rw q (
      omega (
        arith,
        length-append w.output_queue
            (frame_of P w.active_generation p (try_pop P w.store w.packet_queue).2 ∷ []),
        r,
      ))

  -- A worker that may make a frame.
  abbrev pub may_play : Worker P → Bool
  may_play w =
      w.stream_started
      && not w.recovering_from_overrun
      && ltb (length w.output_queue) w.maximum_frames

  frame_or_wait :
      (w : Worker P)
      → length w.output_queue ≤ output_capacity
      → IsOrderly P w
      → let (made, w') = if may_play w then prepare_one_frame P w else (false, w) in
        IsOrderly P w'
        × (w'.output_overruns ≡ w.output_overruns)
        × (length w'.output_queue ≤ output_capacity)
        × (((may_play w ≡ false) × (made ≡ false) × (w' ≡ w))
            ⊎ ((may_play w ≡ true) × OneFrame w made w'))
  frame_or_wait w room v = elim (Bool-cases (may_play w)) [
    | inr g ↦ rw g (v, refl, room, inl (refl, refl, refl))
    | inl g ↦
        let l = prepare_one_frame_lem w room v in
        rw g (l.2, l.1, room_after w room l.0, inr (refl, l.0))
  ]

  -- A step of the worker first settles. A reset that was requested leaves the jitter buffer empty;
  -- else the packets that came in are pushed into it, and it stays so, or is thrown away down to the
  -- minimum as a recovery does. Then it adds at most one frame to the output
  -- queue, and tells whether it did. It adds none, and takes nothing from the jitter buffer, when
  -- the stream does not run, a recovery is under way or the maximum of frames is ready, when the
  -- output queue is full, or when the jitter buffer is empty. Otherwise it adds the frame of the
  -- packet that the jitter buffer hands out, under the generation that was requested last. No frame
  -- is lost to a full output queue, and the jitter buffer stays in order, as it was before.
  pub process_next_frame_lem :
      (clock : ℕ → P.Float) (w : Worker P)
      → All (λ p. counter P p < u64_mod) w.inbound_queue
      → length w.output_queue ≤ output_capacity
      → IsOrderly P w
      → let (made, w') = process_next_frame P clock w in
        let ready = settle P clock w in
        let (popped, q, st) = try_pop P ready.store ready.packet_queue in
        IsOrderly P w'
        × (w'.output_overruns ≡ w.output_overruns)
        × (length w'.output_queue ≤ output_capacity)
        × (ready.inbound_queue ≡ [])
        × (((w.requested_generation == w.active_generation) ≡ true)
              × TakesIn P clock w ready.packet_queue
            ⊎ ((w.requested_generation == w.active_generation) ≡ false)
              × (ready.packet_queue.packets ≡ []))
        × ((made ≡ false)
              × (w'.output_queue ≡ w.output_queue)
              × (w'.packet_queue ≡ ready.packet_queue)
              × ((may_play ready ≡ false)
                  ⊎ (length w.output_queue ≡ output_capacity)
                  ⊎ (ready.packet_queue.packets ≡ []))
            ⊎ (made ≡ true)
              × (may_play ready ≡ true)
              × (w'.packet_queue ≡ q)
              × (p : AudioData P) × (is_fill_in : Bool) × (popped ≡ some (p, is_fill_in))
              × (w'.output_queue ≡ w.output_queue ++ frame_of P w.requested_generation p st ∷ []))
  unfolding process_next_frame
  process_next_frame_lem clock w h r v =
      let k = settle-keeps P clock w in
      let ready = settle P clock w in
      let room : length ready.output_queue ≤ output_capacity = rw k.0 r in
      let l = frame_or_wait ready room (settle-IsOrderly P clock w h v) in
      let taken : ((w.requested_generation == w.active_generation) ≡ true)
            × TakesIn P clock w ready.packet_queue
          ⊎ ((w.requested_generation == w.active_generation) ≡ false)
            × (ready.packet_queue.packets ≡ []) =
        elim (Bool-cases (w.requested_generation == w.active_generation)) [
          | inl e ↦ inl (e, settle-TakesIn P clock w h v e)
          | inr e ↦ inr (e, settle-reset P clock w h v e)
        ] in
      (
        l.0,
        l.1 ∙ k.2,
        l.2,
        k.4,
        taken,
        elim l.3 [
          | inl (g, n, s) ↦
              inl (n, ap (λ x. x.output_queue) s ∙ k.0, ap (λ x. x.packet_queue) s, inl g)
          | inr (g, inl (n, o, q, why)) ↦ inl (
            n,
            o ∙ k.0,
            q,
            inr (elim why [ inl full ↦ inl (sym (ap length k.0) ∙ full) | inr e ↦ inr e ]),
          )
          | inr (g, inr (y, _, p, f, e, q, o)) ↦ inr (y, g, q, p, f, e, o ∙ rw (k.0, k.1) refl)
        ],
      )
