-- ===== src/Scheduler/Depth.antt =====
-- The bound on the clients' queues after a step of the scheduler.
use jammer_netz.Base.{
  ℕ, sym, subst, Option, none, some, List, [], ◌∷◌, arith, Text, Bool-cases, inl, inr, All,
}
use jammer_netz.Platform.{Platform}
use jammer_netz.Package.{Store}
use jammer_netz.ClientState.{ClientState, disconnect_if_grace_expired}
use jammer_netz.ClientState.Steps.{
  OrderedQueue, IsWithin, disconnect_if_grace_expired-ordered, apply_queue_pressure-IsWithin,
  try_pop_client-IsWithin, mark_underrun-IsWithin,
}
use jammer_netz.Mixer.{Mixer}
use jammer_netz.Scheduler.{
  ServerBufferConfig, Clients, ScheduledMixResult, Trigger, settle, find, pop_client, pop_all, mark,
  mark_client, mark_all, mix_round, process, maximum_queue_depth, target_queue_depth,
}
use jammer_netz.Scheduler.Waiting.{settled, settled_client, waits, process-waits, process-mixes}

module _ (P : Platform) where
  -- Every client's queue is in order.
  abbrev pub AllOrdered : Clients P → Type 0
  AllOrdered = All (λ entry. OrderedQueue P entry.1.queue)

  -- Every client's queue is in order and shows no more than a number of packets.
  abbrev pub AllWithin : ℕ → Clients P → Type 0
  AllWithin maximum = All (λ entry. IsWithin P maximum entry.1)

  settled_client-IsWithin :
      (config : ServerBufferConfig) (now : ℕ) (c : ClientState P)
      → OrderedQueue P c.queue
      → IsWithin P (maximum_queue_depth config) (settled_client P config now c)
  unfolding settle
  settled_client-IsWithin config now c v =
      apply_queue_pressure-IsWithin P (maximum_queue_depth config) (target_queue_depth config)
        (disconnect_if_grace_expired P now c).1 (omega arith)
        (disconnect_if_grace_expired-ordered P now c v)

  settled-AllWithin :
      (config : ServerBufferConfig) (now : ℕ) (cs : Clients P)
      → AllOrdered cs
      → AllWithin (maximum_queue_depth config) (settled P config now cs)
  settled-AllWithin config now [] v = tt
  settled-AllWithin config now ((name, c) ∷ rest) v =
      (settled_client-IsWithin config now c v.0, settled-AllWithin config now rest v.1)

  pop_all-AllWithin :
      (maximum : ℕ) (cs : Clients P) (s : ScheduledMixResult P × List (Text × ℕ)) (st : Store P)
      → AllWithin maximum cs
      → AllWithin maximum (pop_all P cs s st).0
  unfolding pop_all pop_client
  pop_all-AllWithin maximum [] s st v = tt
  pop_all-AllWithin maximum ((name, c) ∷ rest) s st v =
      let (_, s', st') = pop_client P name c s st in
      (try_pop_client-IsWithin P maximum c st v.0, pop_all-AllWithin maximum rest s' st' v.1)

  mark-IsWithin :
      (maximum now : ℕ) (observation : Option ℕ) (c : ClientState P)
      → IsWithin P maximum c
      → IsWithin P maximum (mark P now observation c).1
  mark-IsWithin maximum now none c v = v
  mark-IsWithin maximum now (some generation) c v =
      mark_underrun-IsWithin P maximum generation now c v

  mark_all-AllWithin :
      (maximum now : ℕ) (observed : List (Text × ℕ)) (cs : Clients P) (r : ScheduledMixResult P)
      → AllWithin maximum cs
      → AllWithin maximum (mark_all P now observed cs r).0
  unfolding mark_all mark_client
  mark_all-AllWithin maximum now observed [] r v = tt
  mark_all-AllWithin maximum now observed ((name, c) ∷ rest) r v = (
    mark-IsWithin maximum now (find name observed) c v.0,
    mark_all-AllWithin maximum now observed rest (mark_client P now observed name c r).1 v.1,
  )

  mix_round-AllWithin :
      (maximum now : ℕ) (t : Trigger) (r : ScheduledMixResult P) (cs : Clients P) (m : Mixer P)
      (st : Store P)
      → AllWithin maximum cs
      → AllWithin maximum (mix_round P now t r cs m st).1
  unfolding mix_round
  mix_round-AllWithin maximum now t r cs m st v =
      let (popped, (r', observed), st') = pop_all P cs (record r { trigger = t }, []) st in
      mark_all-AllWithin maximum now observed popped r'
        (pop_all-AllWithin maximum cs (record r { trigger = t }, []) st v)

  -- When every client's queue is in order, each is in order after a step of the scheduler and
  -- shows no more packets than the setting for the incoming maximum allows, whether or not the
  -- step mixes.
  pub process-AllWithin :
      (config : ServerBufferConfig) (now : ℕ) (clients : Clients P) (m : Mixer P) (st : Store P)
      → AllOrdered clients
      → let (_, clients', _, _) = process P config now clients m st in
        AllWithin (maximum_queue_depth config) clients'
  process-AllWithin config now clients m st v =
      elim (Bool-cases (waits P config (settled P config now clients))) [
        | inl w ↦
            subst (AllWithin (maximum_queue_depth config))
              (sym (process-waits P config now clients m st w).0)
              (settled-AllWithin config now clients v)
        | inr w ↦
            let (r, e, p) = process-mixes P config now clients m st w in
            rw p (
              mix_round-AllWithin (maximum_queue_depth config) now _ r
                (settled P config now clients) m st (settled-AllWithin config now clients v))
      ]
