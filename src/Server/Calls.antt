-- ===== src/Server/Calls.antt =====
-- The calls of the threads on the clients: each member function of `ClientState` is one step of one
-- thread, under the mutex of one client, and the calls of the threads come in any order.
use jammer_netz.Base.{ℕ, ◌<◌, arith, ◌∷◌, Text, u64_mod}
use jammer_netz.Platform.{Platform}
use jammer_netz.Package.{AudioData, Store, counter}
use jammer_netz.ClientState
use jammer_netz.ClientState.{
  ClientState, snapshot, disconnect_if_grace_expired, apply_queue_pressure, try_pop_client,
  mark_underrun,
}
use jammer_netz.ClientState.Steps.{
  OrderedQueue, IsWithin, disconnect_if_grace_expired-ordered, apply_queue_pressure-IsWithin,
  try_pop_client-IsWithin, mark_underrun-IsWithin,
}
use jammer_netz.ClientState.Intake.{push-OrderedQueue}
use jammer_netz.Scheduler.{ServerBufferConfig, Clients, maximum_queue_depth, target_queue_depth}
use jammer_netz.Scheduler.Popping.{IsFresh, IsKeyed}
use jammer_netz.Scheduler.Depth.{AllOrdered}

module _ (P : Platform) where
  -- A call on a client, with the client and the buffers after it.
  pub data Call (c : ClientState P) (st : Store P) : ClientState P → Store P → Type 0 where
    pushes :
        (clock : ℕ → P.Float) (prefill_count : ℕ) (p : AudioData P)
        → counter P p < u64_mod
        → Call c st
            (ClientState.push P clock prefill_count p c st).1
            (ClientState.push P clock prefill_count p c st).2
    expires : (now : ℕ) → Call c st (disconnect_if_grace_expired P now c).1 st
    presses :
        (config : ServerBufferConfig)
        → Call c st
            (apply_queue_pressure P (maximum_queue_depth config) (target_queue_depth config) c).1
            st
    pops : Call c st (try_pop_client P c st).2 (try_pop_client P c st).3
    marks : (observed now : ℕ) → Call c st (mark_underrun P observed now c).1 st

  -- A call on one client of the list.
  pub data ClientStep : Clients P → Store P → Clients P → Store P → Type 0 where
    here :
        (name : Text) (c c' : ClientState P) (rest : Clients P) (st st' : Store P)
        → Call c st c' st'
        → ClientStep ((name, c) ∷ rest) st ((name, c') ∷ rest) st'
    there :
        (name : Text) (c : ClientState P) (cs cs' : Clients P) (st st' : Store P)
        → ClientStep cs st cs' st'
        → ClientStep ((name, c) ∷ cs) st ((name, c) ∷ cs') st'

  Call-OrderedQueue :
      (c : ClientState P) (st : Store P) (c' : ClientState P) (st' : Store P)
      → Call c st c' st'
      → OrderedQueue P c.queue
      → OrderedQueue P c'.queue
  Call-OrderedQueue c st _ _ (pushes clock n p k) v = push-OrderedQueue P clock n p c st k v
  Call-OrderedQueue c st _ _ (expires now) v = disconnect_if_grace_expired-ordered P now c v
  Call-OrderedQueue c st _ _ (presses config) v =
      (apply_queue_pressure-IsWithin P (maximum_queue_depth config) (target_queue_depth config) c
        (omega arith) v).ordered
  Call-OrderedQueue c st _ _ pops v =
      let w : IsWithin P (snapshot P c).size c = record { ordered = v; bounded = omega arith } in
      (try_pop_client-IsWithin P (snapshot P c).size c st w).ordered
  Call-OrderedQueue c st _ _ (marks observed now) v =
      let w : IsWithin P (snapshot P c).size c = record { ordered = v; bounded = omega arith } in
      (mark_underrun-IsWithin P (snapshot P c).size observed now c w).ordered

  pub ClientStep-AllOrdered :
      (cs : Clients P) (st : Store P) (cs' : Clients P) (st' : Store P)
      → ClientStep cs st cs' st'
      → AllOrdered P cs
      → AllOrdered P cs'
  ClientStep-AllOrdered _ _ _ _ (here name c c' rest st st' k) v =
      (Call-OrderedQueue c st c' st' k v.0, v.1)
  ClientStep-AllOrdered _ _ _ _ (there name c cs cs' st st' k) v =
      (v.0, ClientStep-AllOrdered cs st cs' st' k v.1)

  ClientStep-IsFresh :
      (other : Text) (cs : Clients P) (st : Store P) (cs' : Clients P) (st' : Store P)
      → ClientStep cs st cs' st'
      → IsFresh P other cs
      → IsFresh P other cs'
  ClientStep-IsFresh other _ _ _ _ (here name c c' rest st st' k) f = f
  ClientStep-IsFresh other _ _ _ _ (there name c cs cs' st st' k) f =
      (f.0, ClientStep-IsFresh other cs st cs' st' k f.1)

  pub ClientStep-IsKeyed :
      (cs : Clients P) (st : Store P) (cs' : Clients P) (st' : Store P)
      → ClientStep cs st cs' st'
      → IsKeyed P cs
      → IsKeyed P cs'
  ClientStep-IsKeyed _ _ _ _ (here name c c' rest st st' k) u = u
  ClientStep-IsKeyed _ _ _ _ (there name c cs cs' st st' k) u =
      (ClientStep-IsFresh name cs st cs' st' k u.0, ClientStep-IsKeyed cs st cs' st' k u.1)
