-- ===== src/ClientState/Steps.antt =====
-- What the scheduler relies on in a client's operations.
use jammer_netz.Base.{
  ℕ, ◌≤◌, ◌≡◌, refl, inl, inr, true, false, not, ◌||◌, ◌==◌, Option, none, some, arith, ltb,
  Bool-cases,
}
use jammer_netz.Platform.{Platform}
use jammer_netz.Package.{Store}
use jammer_netz.Queue.{PacketStreamQueue, size}
use jammer_netz.Queue.Order.{IsOrdered}
use jammer_netz.Queue.Pop.{try_pop-IsOrdered}
use jammer_netz.Queue.Rebase.{fast_forward_to_size-IsOrdered}
use jammer_netz.Queue.Size.{fast_forward_to_size-size, try_pop-size}
use jammer_netz.ClientState.{
  ClientState, disconnecting, is_disconnected, is_connected, is_disconnecting, try_pop_client,
  snapshot, apply_queue_pressure, mark_underrun, disconnect_if_grace_expired,
}

module _ (P : Platform) where
  pub snapshot-state : (c : ClientState P) → (snapshot P c).state ≡ c.state
  unfolding snapshot
  snapshot-state c = refl

  pub apply_queue_pressure-after :
      (maximum retained : ℕ) (c : ClientState P)
      → let (r, c') = apply_queue_pressure P maximum retained c in r.after ≡ snapshot P c'
  unfolding apply_queue_pressure snapshot
  apply_queue_pressure-after maximum retained c = ground arith

  -- A pop that gives nothing leaves the client's state and its activity generation, and one that
  -- the client is not disconnected for observes that generation.
  pub try_pop_client-keeps :
      (c : ClientState P) (st : Store P)
      → let (r, generation, c', _) = try_pop_client P c st in
        (c'.state ≡ c.state)
        × (c'.activity_generation ≡ c.activity_generation)
        × (generation ≡ c.activity_generation)
  unfolding try_pop_client
  try_pop_client-keeps c st = ground arith

  pub try_pop_client-disconnected :
      (c : ClientState P) (st : Store P)
      → is_disconnected c.state ≡ true
      → (try_pop_client P c st).0 ≡ none
  unfolding try_pop_client
  try_pop_client-disconnected c st h = ground arith

  -- An underrun that was observed at the client's generation leaves it in its grace period.
  pub mark_underrun-disconnecting :
      (now : ℕ) (c : ClientState P)
      → is_disconnected c.state ≡ false
      → (mark_underrun P c.activity_generation now c).1.state ≡ disconnecting
  unfolding mark_underrun
  mark_underrun-disconnecting now c h = ground arith

  -- The packets of a client's queue, if it has one, stand in order.
  abbrev pub OrderedQueue : Option (PacketStreamQueue P) → Type 0
  OrderedQueue none = Unit
  OrderedQueue (some q) = IsOrdered P q

  -- A client whose queue is in order and shows no more than a number of packets.
  pub record IsWithin (maximum : ℕ) (c : ClientState P) : Type 0 where
    pub ordered : OrderedQueue c.queue
    pub bounded : (snapshot P c).size ≤ maximum

  pub disconnect_if_grace_expired-ordered :
      (now : ℕ) (c : ClientState P)
      → OrderedQueue c.queue
      → OrderedQueue (disconnect_if_grace_expired P now c).1.queue
  unfolding disconnect_if_grace_expired
  disconnect_if_grace_expired-ordered now c v =
      elim (Bool-cases (not (is_disconnecting c.state) || ltb now c.disconnect_deadline)) [
        | inl e ↦ rw e v
        | inr e ↦ rw e tt
      ]

  pressed-IsWithin :
      (maximum retained : ℕ) (queue : Option (PacketStreamQueue P)) (c : ClientState P)
      → c.queue ≡ queue
      → retained ≤ maximum
      → OrderedQueue queue
      → IsWithin maximum (apply_queue_pressure P maximum retained c).1
  unfolding apply_queue_pressure snapshot
  pressed-IsWithin maximum retained none c e l v =
      rw e (record { ordered = tt; bounded = omega arith })
  pressed-IsWithin maximum retained (some q) c e l v =
      let o = fast_forward_to_size-IsOrdered P retained q v in
      let b = fast_forward_to_size-size P retained q v in
      elim (Bool-cases (is_disconnected c.state)) [
        | inl d ↦ rw (e, d) (record { ordered = v; bounded = ground arith })
        | inr d ↦ elim (Bool-cases (ltb maximum (size P q))) [
          | inl t ↦ rw (e, d, t) (record { ordered = o; bounded = ground arith })
          | inr t ↦ rw (e, d, t) (record { ordered = v; bounded = ground arith })
        ]
      ]

  pub apply_queue_pressure-IsWithin :
      (maximum retained : ℕ) (c : ClientState P)
      → retained ≤ maximum
      → OrderedQueue c.queue
      → IsWithin maximum (apply_queue_pressure P maximum retained c).1
  apply_queue_pressure-IsWithin maximum retained c l v =
      pressed-IsWithin maximum retained c.queue c refl l v

  popped-IsWithin :
      (maximum : ℕ) (queue : Option (PacketStreamQueue P)) (c : ClientState P) (st : Store P)
      → c.queue ≡ queue
      → IsWithin maximum c
      → IsWithin maximum (try_pop_client P c st).2
  unfolding try_pop_client snapshot
  popped-IsWithin maximum none c st e v = rw e (record { ordered = tt; bounded = omega arith })
  popped-IsWithin maximum (some q) c st e v = elim (Bool-cases (is_disconnected c.state)) [
    | inl d ↦
        let w : IsOrdered P q = rw e at v.ordered in
        rw (e, d) (record { ordered = w; bounded = ground arith })
    | inr d ↦
        let w : IsOrdered P q = rw e at v.ordered in
        rw (e, d)
          (record {
            ordered = try_pop-IsOrdered P st q w;
            bounded = ground (arith, v.bounded, try_pop-size P st q w);
          })
  ]

  pub try_pop_client-IsWithin :
      (maximum : ℕ) (c : ClientState P) (st : Store P)
      → IsWithin maximum c
      → IsWithin maximum (try_pop_client P c st).2
  try_pop_client-IsWithin maximum c st v = popped-IsWithin maximum c.queue c st refl v

  pub mark_underrun-IsWithin :
      (maximum observed now : ℕ) (c : ClientState P)
      → IsWithin maximum c
      → IsWithin maximum (mark_underrun P observed now c).1
  unfolding mark_underrun snapshot
  mark_underrun-IsWithin maximum observed now c v =
      elim (Bool-cases (not (is_connected c.state) || not (c.activity_generation == observed))) [
        | inl e ↦ rw e v
        | inr e ↦ rw e (record { ordered = v.ordered; bounded = ground (arith, v.bounded) })
      ]
