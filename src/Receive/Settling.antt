-- ===== src/Receive/Settling.antt =====
-- What the receiving worker does before it prepares a frame.
use jammer_netz.Base.{
  ℕ, ◌+◌, ◌<◌, ◌≡◌, ◌∙◌, ap, subst, ◌⊎◌, inl, inr, true, false, List, [], ◌∷◌, arith, ◌==◌, length,
  u64_mod, Bool-cases, All,
}
use jammer_netz.Platform.{Platform}
use jammer_netz.Package.{AudioData, counter}
use jammer_netz.Queue.{PacketStreamQueue, size}
use jammer_netz.Queue.Order.{IsOrdered, push-IsOrdered}
use jammer_netz.Queue.Size.{size-length, reset-packets}
use jammer_netz.Queue.Gaps.{IsBridging, push-IsBridging}
use jammer_netz.Queue.Life.{reset-IsSound}
use jammer_netz.Receive.{
  Worker, apply_reset_if_requested, push_inbound, drain_inbound, rebuffer_if_requested, recover,
  start_stream, settle,
}
use jammer_netz.Receive.Recovery.{IsOrderly, IsDrained, recover_lem}

module _ (P : Platform) where
  push_inbound_sound :
      (clock : ℕ → P.Float) (i : ℕ) (ps : List (AudioData P)) (q : PacketStreamQueue P)
      → All (λ p. counter P p < u64_mod) ps
      → IsOrdered P q
      → IsBridging P q
      → IsOrdered P (push_inbound P clock i ps q) × IsBridging P (push_inbound P clock i ps q)
  unfolding push_inbound
  push_inbound_sound clock i [] q h o b = (o, b)
  push_inbound_sound clock i (p ∷ ps) q h o b =
      push_inbound_sound clock (i + 1) ps _ h.1 (push-IsOrdered P (clock i) p q h.0 o)
        (push-IsBridging P (clock i) p q o b)

  abbrev Inbound : List (AudioData P) → Type 0
  Inbound = All (λ p. counter P p < u64_mod)

  reset_step :
      (w : Worker P)
      → Inbound w.inbound_queue
      → IsOrderly P w
      → let w' = apply_reset_if_requested P w in Inbound w'.inbound_queue × IsOrderly P w'
  unfolding apply_reset_if_requested
  reset_step w h v = elim (Bool-cases (w.requested_generation == w.active_generation)) [
    | inl e ↦ rw e (h, v)
    | inr e ↦
        let s = reset-IsSound P w.packet_queue in
        rw e (tt, record { ordered = s.ordered; bridging = s.bridging })
  ]

  drain_step :
      (clock : ℕ → P.Float) (w : Worker P)
      → Inbound w.inbound_queue
      → IsOrderly P w
      → IsOrderly P (drain_inbound P clock w)
  unfolding drain_inbound
  drain_step clock w h v =
      let s = push_inbound_sound clock 0 w.inbound_queue w.packet_queue h v.ordered v.bridging in
      record { ordered = s.0; bridging = s.1 }

  rebuffer_step : (w : Worker P) → IsOrderly P w → IsOrderly P (rebuffer_if_requested P w)
  rebuffer_step w v = elim (Bool-cases w.rebuffer_requested) [
    | inl e ↦ rw e (record { ordered = v.ordered; bridging = v.bridging })
    | inr e ↦ ground (arith, v)
  ]

  pub settle-IsOrderly :
      (clock : ℕ → P.Float) (w : Worker P)
      → Inbound w.inbound_queue
      → IsOrderly P w
      → IsOrderly P (settle P clock w)
  unfolding settle start_stream
  settle-IsOrderly clock w h v =
      let r = reset_step w h v in
      let x = rebuffer_step _ (drain_step clock (apply_reset_if_requested P w) r.0 r.1) in
      let y = (recover_lem P _ x).0 in record { ordered = y.ordered; bridging = y.bridging }

  pub settle-keeps :
      (clock : ℕ → P.Float) (w : Worker P)
      → let w' = settle P clock w in
        (w'.output_queue ≡ w.output_queue)
        × (w'.active_generation ≡ w.requested_generation)
        × (w'.output_overruns ≡ w.output_overruns)
        × (w'.maximum_frames ≡ w.maximum_frames)
        × (w'.inbound_queue ≡ [])
  unfolding settle start_stream recover drain_inbound apply_reset_if_requested
  settle-keeps clock w = ground arith

  drained-nil :
      (minimum ready : ℕ) (q q' : PacketStreamQueue P)
      → q.packets ≡ []
      → IsDrained P minimum ready q q'
      → q'.packets ≡ []
  drained-nil minimum ready q q' e (inl (l, s)) = rw s e
  drained-nil minimum ready q q' e (inr (l, inr (h, n))) = n
  drained-nil minimum ready q q' e (inr (l, inl x)) =
      let none_left : size P q ≡ 0 = size-length P q ∙ ap length e in
      absurd (omega (arith, l, x, none_left))

  recover-nil :
      (w : Worker P)
      → IsOrderly P w
      → w.packet_queue.packets ≡ []
      → (recover P w).packet_queue.packets ≡ []
  recover-nil w v e = elim (recover_lem P w v).2 [
    | inl (x, s) ↦ rw s e
    | inr (x, y, d) ↦ drained-nil w.minimum_frames (length w.output_queue) w.packet_queue _ e d
  ]

  -- After a reset no packet is left from before it.
  pub settle-reset :
      (clock : ℕ → P.Float) (w : Worker P)
      → Inbound w.inbound_queue
      → IsOrderly P w
      → (w.requested_generation == w.active_generation) ≡ false
      → (settle P clock w).packet_queue.packets ≡ []
  unfolding settle start_stream
  settle-reset clock w h v e =
      let r = reset_step w h v in
      let x = rebuffer_step _ (drain_step clock (apply_reset_if_requested P w) r.0 r.1) in
      recover-nil _ x (
        unfold apply_reset_if_requested drain_inbound push_inbound in
        rw e (ground (arith, reset-packets P w.packet_queue)))

  -- The jitter buffer after the packets that came in and a recovery, if there was one.
  abbrev pub TakesIn : (ℕ → P.Float) → Worker P → PacketStreamQueue P → Type 0
  TakesIn clock w q =
      let pushed = push_inbound P clock 0 w.inbound_queue w.packet_queue in
      (q ≡ pushed) ⊎ IsDrained P w.minimum_frames (length w.output_queue) pushed q

  recover-TakesIn :
      (clock : ℕ → P.Float) (w x : Worker P)
      → IsOrderly P x
      → x.packet_queue ≡ push_inbound P clock 0 w.inbound_queue w.packet_queue
      → x.minimum_frames ≡ w.minimum_frames
      → x.output_queue ≡ w.output_queue
      → TakesIn clock w (recover P x).packet_queue
  recover-TakesIn clock w x v q m o = elim (recover_lem P x v).2 [
    | inl (_, same) ↦ inl (ap (λ y. y.packet_queue) same ∙ q)
    | inr (_, _, d) ↦ inr (
        subst
          (λ n.
            IsDrained P n (length w.output_queue)
              (push_inbound P clock 0 w.inbound_queue w.packet_queue) (recover P x).packet_queue)
          m
          (subst
            (λ l.
              IsDrained P x.minimum_frames (length l)
                (push_inbound P clock 0 w.inbound_queue w.packet_queue) (recover P x).packet_queue)
            o
            (subst
              (λ b.
                IsDrained P x.minimum_frames (length x.output_queue) b (recover P x).packet_queue)
              q d)))
  ]

  pub settle-TakesIn :
      (clock : ℕ → P.Float) (w : Worker P)
      → Inbound w.inbound_queue
      → IsOrderly P w
      → (w.requested_generation == w.active_generation) ≡ true
      → TakesIn clock w (settle P clock w).packet_queue
  unfolding settle start_stream
  settle-TakesIn clock w h v e =
      let r = reset_step w h v in
      let x = rebuffer_step _ (drain_step clock (apply_reset_if_requested P w) r.0 r.1) in
      recover-TakesIn clock w _ x
        (unfold apply_reset_if_requested drain_inbound in rw e (ground arith))
        (unfold apply_reset_if_requested drain_inbound in rw e (ground arith))
        (unfold apply_reset_if_requested drain_inbound in rw e (ground arith))
