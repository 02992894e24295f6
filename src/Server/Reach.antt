-- ===== src/Server/Reach.antt =====
-- The server through any interleaving of the calls of its threads on what they share.
use jammer_netz.Base.{
  ℕ, ◌+◌, ◌≤◌, ◌<◌, ◌≡◌, refl, sym, ◌∙◌, ap, List, [], ◌∷◌, ◌++◌, arith, Text, length,
  length-append,
}
use mathlib.Core.List.{append_assoc}
use jammer_netz.Platform.{Platform}
use jammer_netz.Package.{Store, ChannelSetup}
use jammer_netz.Package.Memory.{Keeps}
use jammer_netz.Mixer.{Incoming, OutgoingPackage, mix}
use jammer_netz.Scheduler.{Clients}
use jammer_netz.Scheduler.Popping.{IsKeyed}
use jammer_netz.Scheduler.Depth.{AllOrdered}
use jammer_netz.Server.{
  Server, insert_client, send_next_from, send_next, new_server, send_queue_capacity,
}
use jammer_netz.Server.Keys.{insert_client-IsKeyed, insert_client-AllOrdered}
use jammer_netz.Server.Calls.{ClientStep, ClientStep-AllOrdered, ClientStep-IsKeyed}

module _ (P : Platform) where
  -- One call of one of the threads that leaves the send queue as it is. A packet that arrives
  -- brings its own buffer, so the store may grow.
  pub data Step (s : Server P) : Server P → Type 0 where
    arrives : (st : Store P) → Keeps P s.store st → Step s (record s { store = st })
    inserts : (name : Text) → Step s (record s { clients = insert_client P name s.clients })
    calls :
        (cs : Clients P) (st : Store P)
        → ClientStep P s.clients s.store cs st
        → Step s (record s { clients = cs; store = st })
    mixes :
        (incoming : Incoming P)
        → Step s (record s {
          mixer = (mix P incoming s.mixer s.store).1;
          store = (mix P incoming s.mixer s.store).2;
        })
    posts : (message : ℕ) → Step s (record s { wake_ups = s.wake_ups ++ message ∷ [] })
    takes :
        (message : ℕ) (waiting : List ℕ)
        → s.wake_ups ≡ message ∷ waiting
        → Step s (record s { wake_ups = waiting })

  -- The server after any such calls, with the packages that the mixer's thread has put into the
  -- send queue and those that the sender's thread has taken out.
  pub data Reach (s : Server P)
      : Server P → List (OutgoingPackage P) → List (OutgoingPackage P) → Type 0 where
    start : Reach s s [] []
    more :
        (s' s'' : Server P) (forwarded sent : List (OutgoingPackage P))
        → Reach s s' forwarded sent
        → Step s' s''
        → Reach s s'' forwarded sent
    -- `try_push` with room; without room the process ends.
    forwards :
        (s' : Server P) (package' : OutgoingPackage P) (forwarded sent : List (OutgoingPackage P))
        → Reach s s' forwarded sent
        → length s'.send_queue < send_queue_capacity
        → Reach s
            (record s' { send_queue = s'.send_queue ++ package' ∷ [] })
            (forwarded ++ package' ∷ [])
            sent
    sends :
        (s' : Server P) (package' : OutgoingPackage P)
        (rest forwarded sent : List (OutgoingPackage P))
        → Reach s s' forwarded sent
        → s'.send_queue ≡ package' ∷ rest
        → Reach s (send_next P s') forwarded (sent ++ package' ∷ [])

  -- Clients have different names, their queues are in order, and the send queue is within its
  -- capacity and holds what was put in and not taken out yet.
  pub record IsServing (s : Server P) (forwarded sent : List (OutgoingPackage P)) : Type 0 where
    pub keyed : IsKeyed P s.clients
    pub ordered : AllOrdered P s.clients
    pub room : length s.send_queue ≤ send_queue_capacity
    pub in_order : forwarded ≡ sent ++ s.send_queue

  Step-IsServing :
      (s s' : Server P) (forwarded sent : List (OutgoingPackage P))
      → IsServing s forwarded sent
      → Step s s'
      → IsServing s' forwarded sent
  Step-IsServing s _ f t v (arrives st k) = record {
    keyed = v.keyed;
    ordered = v.ordered;
    room = v.room;
    in_order = v.in_order;
  }
  Step-IsServing s _ f t v (inserts name) = record {
    keyed = insert_client-IsKeyed P name s.clients v.keyed;
    ordered = insert_client-AllOrdered P name s.clients v.ordered;
    room = v.room;
    in_order = v.in_order;
  }
  Step-IsServing s _ f t v (calls cs st k) = record {
    keyed = ClientStep-IsKeyed P s.clients s.store cs st k v.keyed;
    ordered = ClientStep-AllOrdered P s.clients s.store cs st k v.ordered;
    room = v.room;
    in_order = v.in_order;
  }
  Step-IsServing s _ f t v (mixes incoming) = record {
    keyed = v.keyed;
    ordered = v.ordered;
    room = v.room;
    in_order = v.in_order;
  }
  Step-IsServing s _ f t v (posts message) = record {
    keyed = v.keyed;
    ordered = v.ordered;
    room = v.room;
    in_order = v.in_order;
  }
  Step-IsServing s _ f t v (takes message waiting e) = record {
    keyed = v.keyed;
    ordered = v.ordered;
    room = v.room;
    in_order = v.in_order;
  }

  sent_one :
      (s : Server P) (queue : List (OutgoingPackage P)) (package' : OutgoingPackage P)
      (rest forwarded sent : List (OutgoingPackage P))
      → queue ≡ package' ∷ rest
      → s.send_queue ≡ queue
      → IsServing s forwarded sent
      → IsServing (send_next_from P queue s) forwarded (sent ++ package' ∷ [])
  sent_one s queue package' rest forwarded sent e e' v = rw e (record {
    keyed = v.keyed;
    ordered = v.ordered;
    room =
        let k : length s.send_queue ≡ length rest + 1 = ap length (e' ∙ e) ∙ omega arith in
        omega (arith, v.room, k);
    in_order =
        v.in_order ∙ ap (λ q. sent ++ q) (e' ∙ e) ∙ sym (append_assoc sent (package' ∷ []) rest);
  })

  send_next-IsServing :
      (s : Server P) (package' : OutgoingPackage P) (rest forwarded sent : List (OutgoingPackage P))
      → s.send_queue ≡ package' ∷ rest
      → IsServing s forwarded sent
      → IsServing (send_next P s) forwarded (sent ++ package' ∷ [])
  unfolding send_next
  send_next-IsServing s package' rest forwarded sent e v =
      sent_one s s.send_queue package' rest forwarded sent e refl v

  -- Whatever calls the threads make in whatever order, a mixer's round and the other threads' calls
  -- in the middle of it included: the clients have different names, every client's queue holds its
  -- packets by rising counters above the last popped one, no more than 128 packages wait to be sent,
  -- and the packages that were put into the send queue are those taken out, in the same order,
  -- followed by those that wait. A package is put in only when there is room, since the process ends
  -- otherwise.
  pub Reach-IsServing :
      (setup : ChannelSetup P) (st : Store P) (s : Server P)
      (forwarded sent : List (OutgoingPackage P))
      → Reach (new_server P setup st) s forwarded sent
      → IsServing s forwarded sent
  Reach-IsServing setup st _ _ _ start =
      unfold new_server in record { keyed = tt; ordered = tt; room = omega arith; in_order = refl }
  Reach-IsServing setup st _ _ _ (more s' s'' f t r e) =
      Step-IsServing s' s'' f t (Reach-IsServing setup st s' f t r) e
  Reach-IsServing setup st _ _ _ (forwards s' p f t r h) =
      let v = Reach-IsServing setup st s' f t r in
      record {
        keyed = v.keyed;
        ordered = v.ordered;
        room = omega (arith, h, length-append s'.send_queue (p ∷ []));
        in_order = ap (λ l. l ++ p ∷ []) v.in_order ∙ append_assoc t s'.send_queue (p ∷ []);
      }
  Reach-IsServing setup st _ _ _ (sends s' p rest f t r e) =
      send_next-IsServing s' p rest f t e (Reach-IsServing setup st s' f t r)
