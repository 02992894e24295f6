-- ===== src/ClientState/Lifecycle.antt =====
-- The connection state machine of a client.
use jammer_netz.Base.{
  ℕ, ◌+◌, ◌<◌, ◌≡◌, ◌≢◌, refl, Bool, true, false, not, List, [], ◌∷◌, arith, leb, if◌then◌else◌,
  u64_mod, add64, add64-lt, add64-ne_self, All, is_some,
}
use jammer_netz.Platform.{Platform}
use jammer_netz.Package.{AudioData, Store}
use jammer_netz.ClientState.{
  ClientState, ConnectionState, disconnected, connected, disconnecting, Transition, unchanged,
  initial_connection, grace_recovery, reconnection, is_disconnected, disconnect_grace_period,
  new_client, push, opened, try_pop_client, apply_queue_pressure, mark_underrun,
  disconnect_if_grace_expired,
}

module _ (P : Platform) where
  -- A client has a queue exactly while it is not disconnected, and only after it has connected.
  pub record IsConsistent (c : ClientState P) : Type 0 where
    pub owned : is_some c.queue ≡ not (is_disconnected c.state)
    pub joined : is_some c.queue ≡ true → c.has_connected ≡ true
    pub generation : c.activity_generation < u64_mod

  pub new_client-IsConsistent : IsConsistent (new_client P)
  new_client-IsConsistent = record {
    owned = refl;
    joined = λ h. absurd (cc);
    generation = omega arith;
  }

  -- The transition that the state of the client calls for.
  abbrev pub expected_transition : ConnectionState → Bool → Transition
  expected_transition disconnected has_connected =
      if has_connected then reconnection else initial_connection
  expected_transition connected has_connected = unchanged
  expected_transition disconnecting has_connected = grace_recovery

  -- A packet connects a consistent client, whether or not the queue takes it. The activity
  -- generation changes, and the transition that is reported is the one from the state before.
  pub push-connects :
      (clock : ℕ → P.Float) (count : ℕ) (p : AudioData P) (c : ClientState P) (st : Store P)
      → IsConsistent c
      → let (r, c', st') = push P clock count p c st in
        (c'.state ≡ connected)
        × (is_some c'.queue ≡ true)
        × (c'.has_connected ≡ true)
        × (c'.activity_generation ≢ c.activity_generation)
        × (r.transition ≡ expected_transition c.state c.has_connected)
        × IsConsistent c'
  unfolding push
  push-connects clock count p c st v = (
    refl,
    refl,
    refl,
    other,
    transition_lem,
    record { owned = refl; joined = λ h. refl; generation = add64-lt c.activity_generation 1 },
  )
    where
      other : add64 c.activity_generation 1 ≢ c.activity_generation
      other = ground (arith, add64-ne_self c.activity_generation v.generation)

      transition_lem : (opened P c).1 ≡ expected_transition c.state c.has_connected
      transition_lem = ground (arith, v.owned)

  -- An underrun that was observed before a packet arrived does not take the client down.
  pub mark_underrun-IsStale :
      (clock : ℕ → P.Float) (count now : ℕ) (p : AudioData P) (c : ClientState P) (st : Store P)
      → c.activity_generation < u64_mod
      → let (_, c', _) = push P clock count p c st in
        mark_underrun P c.activity_generation now c' ≡ (false, c')
  unfolding mark_underrun push
  mark_underrun-IsStale clock count now p c st h =
      ground (arith, add64-ne_self c.activity_generation h)

  -- What the server does with a client between two packets.
  pub data QuietCall : Type 0 where
    pops : Store P → QuietCall
    pressures : ℕ → ℕ → QuietCall
    marks : ℕ → ℕ → QuietCall
    expires : ℕ → QuietCall

  pub call : QuietCall → ClientState P → ClientState P
  call (pops st) c = (try_pop_client P c st).2
  call (pressures maximum retained) c = (apply_queue_pressure P maximum retained c).1
  call (marks observed now) c = (mark_underrun P observed now c).1
  call (expires now) c = (disconnect_if_grace_expired P now c).1

  pub run : List QuietCall → ClientState P → ClientState P
  run [] c = c
  run (e ∷ es) c = run es (call e c)

  -- An expiry is tested before the deadline only.
  abbrev pub Early : ℕ → QuietCall → Type 0
  Early deadline (expires now) = now < deadline
  Early deadline e = Unit {0}

  -- The grace period that ends at `deadline` is running.
  pub record IsInGrace (deadline : ℕ) (c : ClientState P) : Type 0 where
    pub state : c.state ≡ disconnecting
    pub ends : c.disconnect_deadline ≡ deadline
    pub owns : is_some c.queue ≡ true

  call-IsInGrace :
      (deadline : ℕ) (e : QuietCall) (c : ClientState P)
      → Early deadline e
      → IsInGrace deadline c
      → IsInGrace deadline (call e c)
  unfolding call try_pop_client apply_queue_pressure mark_underrun disconnect_if_grace_expired
  call-IsInGrace deadline (pops st) c h v = ground arith
  call-IsInGrace deadline (pressures maximum retained) c h v = ground arith
  call-IsInGrace deadline (marks observed now) c h v = ground arith
  call-IsInGrace deadline (expires now) c h v = ground arith

  pub run-IsInGrace :
      (deadline : ℕ) (es : List QuietCall) (c : ClientState P)
      → All (Early deadline) es
      → IsInGrace deadline c
      → IsInGrace deadline (run es c)
  unfolding run
  run-IsInGrace deadline [] c h v = v
  run-IsInGrace deadline (e ∷ es) c h v =
      run-IsInGrace deadline es (call e c) h.1 (call-IsInGrace deadline e c h.0 v)

  -- A client that was marked at a time and sends nothing keeps its queue and stays in its grace
  -- period, whatever else is called, through every test for expiry in the next two seconds. A
  -- later test disconnects it exactly when two seconds have passed since the mark, and then it
  -- gives up its queue.
  pub grace_period_lem :
      (observed marked now : ℕ) (es : List QuietCall) (c : ClientState P)
      → (mark_underrun P observed marked c).0 ≡ true
      → is_some c.queue ≡ true
      → All (Early (marked + disconnect_grace_period)) es
      → let c' = run es (mark_underrun P observed marked c).1 in
        let (expired, c'') = disconnect_if_grace_expired P now c' in
        (c'.state ≡ disconnecting)
        × (is_some c'.queue ≡ true)
        × (expired ≡ leb (marked + disconnect_grace_period) now)
        × (is_some c''.queue ≡ not expired)
        × (is_disconnected c''.state ≡ expired)
  grace_period_lem observed marked now es c h q early =
      expiry (run es (mark_underrun P observed marked c).1)
        (run-IsInGrace (marked + disconnect_grace_period) es _ early started)
    where
      started : IsInGrace (marked + disconnect_grace_period) (mark_underrun P observed marked c).1
      started = unfold mark_underrun in ground arith

      expiry :
          (c' : ClientState P)
          → IsInGrace (marked + disconnect_grace_period) c'
          → let (expired, c'') = disconnect_if_grace_expired P now c' in
            (c'.state ≡ disconnecting)
            × (is_some c'.queue ≡ true)
            × (expired ≡ leb (marked + disconnect_grace_period) now)
            × (is_some c''.queue ≡ not expired)
            × (is_disconnected c''.state ≡ expired)
      expiry c' v = unfold disconnect_if_grace_expired in ground arith
