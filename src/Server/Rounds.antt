-- ===== src/Server/Rounds.antt =====
-- The rounds of the threads as calls: what a round leaves behind is reached by single calls.
use jammer_netz.Base.{
  ℕ, ◌≡◌, ◌<◌, refl, sym, subst, Bool, true, false, Option, none, some, List, [], ◌∷◌, ◌++◌,
  if◌then◌else◌, arith, ltb, Text, length, u64_mod, Bool-cases, inl, inr, some-injective, text_eq,
}
use mathlib.Core.List.{append_assoc, append-nil}
use jammer_netz.Platform.{Platform}
use jammer_netz.Package.{AudioData, Store, counter}
use jammer_netz.ClientState.{ClientState, disconnect_if_grace_expired}
use jammer_netz.Mixer.{Incoming, Mixer, OutgoingPackage}
use jammer_netz.Scheduler.{
  ServerBufferConfig, Clients, ScheduledMixResult, Trigger, settle, pop_client, pop_all, mark, find,
  mark_client, mark_all, mix_round, process, max_zero,
}
use jammer_netz.Scheduler.Waiting.{settled, settled_client, waits, process-waits, process-mixes}
use jammer_netz.Server.{
  Server, push_to, push_outgoing, send_queue_capacity, forward, mixed, mix_next_from, mix_next,
  insert_client, process_audio_message,
}
use jammer_netz.Server.Calls.{Call, pushes, expires, presses, pops, marks, ClientStep, here, there}
use jammer_netz.Server.Reach.{Reach, more, calls, forwards, mixes, posts, takes, inserts}

module _ (P : Platform) where
  -- Calls on the clients, one after the other.
  pub data Calls (cs : Clients P) (st : Store P) : Clients P → Store P → Type 0 where
    done : Calls cs st cs st
    next :
        (cs' : Clients P) (st' : Store P) (cs'' : Clients P) (st'' : Store P)
        → Calls cs st cs' st'
        → ClientStep P cs' st' cs'' st''
        → Calls cs st cs'' st''

  one :
      (name : Text) (c c' : ClientState P) (rest : Clients P) (st st' : Store P)
      → Call P c st c' st'
      → Calls ((name, c) ∷ rest) st ((name, c') ∷ rest) st'
  one name c c' rest st st' k = next _ _ _ _ done (here name c c' rest st st' k)

  joined :
      (cs : Clients P) (st : Store P) (cs' : Clients P) (st' : Store P) (cs'' : Clients P)
      (st'' : Store P)
      → Calls cs st cs' st'
      → Calls cs' st' cs'' st''
      → Calls cs st cs'' st''
  joined cs st cs' st' _ _ k done = k
  joined cs st cs' st' _ _ k (next ds dt es et l x) =
      next ds dt es et (joined cs st cs' st' ds dt k l) x

  behind :
      (name : Text) (c : ClientState P) (cs : Clients P) (st : Store P) (cs' : Clients P)
      (st' : Store P)
      → Calls cs st cs' st'
      → Calls ((name, c) ∷ cs) st ((name, c) ∷ cs') st'
  behind name c cs st _ _ done = done
  behind name c cs st _ _ (next ds dt es et l x) =
      next _ _ _ _ (behind name c cs st ds dt l) (there name c ds es dt et x)

  -- The first loop of the scheduler.
  settled-Calls :
      (config : ServerBufferConfig) (now : ℕ) (cs : Clients P) (st : Store P)
      → Calls cs st (settled P config now cs) st
  settled-Calls config now [] st = done
  settled-Calls config now ((name, c) ∷ rest) st =
      joined _ st _ st _ st
        (joined _ st _ st _ st (one name c _ rest st st (expires now)) (
          one name (disconnect_if_grace_expired P now c).1 (settled_client P config now c) rest st
            st (unfold settle in presses config)))
        (behind name (settled_client P config now c) rest st _ st
          (settled-Calls config now rest st))

  -- The second loop.
  pop_all-Calls :
      (cs : Clients P) (r : ScheduledMixResult P) (observed : List (Text × ℕ)) (st : Store P)
      → let (cs', _, st') = pop_all P cs (r, observed) st in Calls cs st cs' st'
  unfolding pop_all pop_client
  pop_all-Calls [] r observed st = done
  pop_all-Calls ((name, c) ∷ rest) r observed st =
      let (c', (r', observed'), st') = pop_client P name c (r, observed) st in
      let (rest', _, st'') = pop_all P rest (r', observed') st' in
      joined _ st _ st' _ st'' (one name c c' rest st st' pops)
        (behind name c' rest st' rest' st'' (pop_all-Calls rest r' observed' st'))

  mark-Calls :
      (now : ℕ) (observation : Option ℕ) (name : Text) (c : ClientState P) (rest : Clients P)
      (st : Store P)
      → Calls ((name, c) ∷ rest) st ((name, (mark P now observation c).1) ∷ rest) st
  mark-Calls now none name c rest st = done
  mark-Calls now (some g) name c rest st = one name c _ rest st st (marks g now)

  -- The third loop.
  mark_all-Calls :
      (now : ℕ) (observed : List (Text × ℕ)) (cs : Clients P) (r : ScheduledMixResult P)
      (st : Store P)
      → Calls cs st (mark_all P now observed cs r).0 st
  unfolding mark_all mark_client
  mark_all-Calls now observed [] r st = done
  mark_all-Calls now observed ((name, c) ∷ rest) r st =
      joined _ st _ st _ st (mark-Calls now (find name observed) name c rest st) (
        behind name _ rest st _ st
          (mark_all-Calls now observed rest (mark_client P now observed name c r).1 st))

  -- The push of a packet.
  push_to-Calls :
      (clock : ℕ → P.Float) (count : ℕ) (p : AudioData P) (name : Text) (cs : Clients P)
      (st : Store P)
      → counter P p < u64_mod
      → let (_, cs', st') = push_to P clock count p name cs st in Calls cs st cs' st'
  push_to-Calls clock count p name [] st k = done
  push_to-Calls clock count p name ((name', c) ∷ rest) st k =
      elim (Bool-cases (text_eq name name')) [
        | inl e ↦ rw e (one name' c _ rest st _ (pushes clock count p k))
        | inr e ↦ rw e (behind name' c rest st _ _ (push_to-Calls clock count p name rest st k))
      ]

  Reach-Calls :
      (s s' : Server P) (forwarded sent : List (OutgoingPackage P)) (cs : Clients P) (st : Store P)
      → Reach P s s' forwarded sent
      → Calls s'.clients s'.store cs st
      → Reach P s (record s' { clients = cs; store = st }) forwarded sent
  Reach-Calls s s' f t _ _ r done = r
  Reach-Calls s s' f t _ _ r (next ds dt es et l x) =
      more (record s' { clients = ds; store = dt }) _ f t (Reach-Calls s s' f t ds dt r l)
        (calls es et x)

  push_outgoing-Reach :
      (s s' : Server P) (packages queue queue' forwarded sent : List (OutgoingPackage P))
      → push_outgoing P packages queue ≡ some queue'
      → Reach P s (record s' { send_queue = queue }) forwarded sent
      → Reach P s (record s' { send_queue = queue' }) (forwarded ++ packages) sent
  unfolding push_outgoing
  push_outgoing-Reach s s' [] queue queue' f t e r = rw (append-nil f, sym (some-injective e)) r
  push_outgoing-Reach s s' (p ∷ ps) queue queue' f t e r =
      elim (Bool-cases (ltb (length queue) send_queue_capacity)) [
        | inl h ↦
            subst (λ l. Reach P s (record s' { send_queue = queue' }) l t)
              (append_assoc f (p ∷ []) ps)
              (push_outgoing-Reach s s' ps (queue ++ p ∷ []) queue' (f ++ p ∷ []) t
                (ground (arith, e, h))
                (forwards (record s' { send_queue = queue }) p f t r (ground (arith, h))))
        | inr h ↦ absurd (ground (arith, e, h))
      ]

  mix_round-Reach :
      (s s' : Server P) (now : ℕ) (trigger : Trigger) (r : ScheduledMixResult P) (cs : Clients P)
      (forwarded sent : List (OutgoingPackage P))
      → Reach P s (record s' { clients = cs }) forwarded sent
      → let (_, cs', m, st) = mix_round P now trigger r cs s'.mixer s'.store in
        Reach P s (record s' { clients = cs'; mixer = m; store = st }) forwarded sent
  unfolding mix_round
  mix_round-Reach s s' now trigger r cs f t reached =
      let r0 : ScheduledMixResult P = record r { trigger = trigger } in
      let (popped, (r', observed), st') = pop_all P cs (r0, []) s'.store in
      let (marked, r'') = mark_all P now observed popped r' in
      more (record s' { clients = marked; store = st' }) _ f t
        (Reach-Calls s (record s' { clients = cs }) f t marked st' reached
          (joined cs s'.store popped st' marked st' (pop_all-Calls cs r0 [] s'.store)
            (mark_all-Calls now observed popped r' st')))
        (mixes r''.incoming)

  -- A round of the scheduler.
  process-Reach :
      (s s' : Server P) (config : ServerBufferConfig) (now : ℕ)
      (forwarded sent : List (OutgoingPackage P))
      → Reach P s s' forwarded sent
      → let (_, cs, m, st) = process P config now s'.clients s'.mixer s'.store in
        Reach P s (record s' { clients = cs; mixer = m; store = st }) forwarded sent
  process-Reach s s' config now f t reached =
      let settled_all = settled P config now s'.clients in
      let begun =
        Reach-Calls s s' f t settled_all s'.store reached
          (settled-Calls config now s'.clients s'.store) in
      elim (Bool-cases (waits P config settled_all)) [
        | inl w ↦
            let x = process-waits P config now s'.clients s'.mixer s'.store w in
            rw (x.0, x.1, x.2) begun
        | inr w ↦
            let (r, _, x) = process-mixes P config now s'.clients s'.mixer s'.store w in
            rw x (mix_round-Reach s s' now _ r settled_all f t begun)
      ]

  forwarded_by : ScheduledMixResult P → List (OutgoingPackage P)
  forwarded_by r = elim r.incoming [ [] ↦ [] | _ ∷ _ ↦ r.mix.outgoing ]

  forward-Reach :
      (s s' : Server P) (r : ScheduledMixResult P) (incoming : Incoming P)
      (queue' forwarded sent : List (OutgoingPackage P))
      → r.incoming ≡ incoming
      → forward P r s'.send_queue ≡ some queue'
      → Reach P s s' forwarded sent
      → (forwarded' : List (OutgoingPackage P)) × Reach P s
          (record s' { send_queue = queue' })
          forwarded'
          sent
  forward-Reach s s' r [] queue' f t i e reached =
      let same : s'.send_queue ≡ queue' = some-injective (rw i at e) in (f, rw (sym same) reached)
  forward-Reach s s' r (x ∷ xs) queue' f t i e reached = (
    f ++ r.mix.outgoing,
    push_outgoing-Reach s s' r.mix.outgoing s'.send_queue queue' f t (rw i at e) reached,
  )

  woken :
      (s s' : Server P) (again : Bool) (waiting : List ℕ)
      (forwarded sent : List (OutgoingPackage P))
      → Reach P s (record s' { wake_ups = waiting }) forwarded sent
      → Reach P s
          (record s' { wake_ups = if again then waiting ++ 0 ∷ [] else waiting })
          forwarded
          sent
  woken s s' true waiting f t r = more _ _ f t r (posts 0)
  woken s s' false waiting f t r = r

  -- The end of a round: the packages and the next wake-up.
  mixed-Reach :
      (s s' s'' : Server P) (waiting : List ℕ) (r : ScheduledMixResult P) (cs : Clients P)
      (m : Mixer P) (st : Store P) (queue : Option (List (OutgoingPackage P)))
      (forwarded sent : List (OutgoingPackage P))
      → forward P r s'.send_queue ≡ queue
      → Reach P s
          (record s' { wake_ups = waiting; clients = cs; mixer = m; store = st })
          forwarded
          sent
      → mixed P waiting s' (r, cs, m, st) queue ≡ some s''
      → (forwarded' : List (OutgoingPackage P)) × Reach P s s'' forwarded' sent
  mixed-Reach s s' s'' waiting r cs m st none f t q reached e = absurd (ground (arith, e))
  mixed-Reach s s' s'' waiting r cs m st (some queue) f t q reached e =
      let (f', put) =
        forward-Reach s (record s' { wake_ups = waiting; clients = cs; mixer = m; store = st }) r
          r.incoming queue f t refl q reached in
      (
        f',
        subst (λ x. Reach P s x f' t) (some-injective e)
            (woken s (record s' { clients = cs; mixer = m; store = st; send_queue = queue })
              r.should_wake_again waiting f' t put),
      )

  mix_next_from-Reach :
      (s s' s'' : Server P) (config : ServerBufferConfig) (now : ℕ) (messages : List ℕ)
      (forwarded sent : List (OutgoingPackage P))
      → s'.wake_ups ≡ messages
      → Reach P s s' forwarded sent
      → mix_next_from P config now messages s' ≡ some s''
      → (forwarded' : List (OutgoingPackage P)) × Reach P s s'' forwarded' sent
  mix_next_from-Reach s s' s'' config now [] f t w reached e =
      (f, subst (λ x. Reach P s x f t) (some-injective e) reached)
  mix_next_from-Reach s s' s'' config now (message ∷ waiting) f t w reached e =
      let (r, cs, m, st) = process P config now s'.clients s'.mixer s'.store in
      mixed-Reach s s' s'' waiting r cs m st (forward P r s'.send_queue) f t refl
        (process-Reach s (record s' { wake_ups = waiting }) config now f t
          (more s' (record s' { wake_ups = waiting }) f t reached (takes message waiting w)))
        e

  -- What a round of the mixer's thread leaves behind is reached by single calls.
  pub mix_next-Reach :
      (s s' s'' : Server P) (config : ServerBufferConfig) (now : ℕ)
      (forwarded sent : List (OutgoingPackage P))
      → Reach P s s' forwarded sent
      → mix_next P config now s' ≡ some s''
      → (forwarded' : List (OutgoingPackage P)) × Reach P s s'' forwarded' sent
  unfolding mix_next
  mix_next-Reach s s' s'' config now f t reached e =
      mix_next_from-Reach s s' s'' config now s'.wake_ups f t refl reached e

  -- What the acceptance of a packet leaves behind is reached by single calls.
  pub process_audio_message-Reach :
      (s s' : Server P) (config : ServerBufferConfig) (clock : ℕ → P.Float) (p : AudioData P)
      (name : Text) (forwarded sent : List (OutgoingPackage P))
      → counter P p < u64_mod
      → Reach P s s' forwarded sent
      → Reach P s (process_audio_message P config clock p name s') forwarded sent
  unfolding process_audio_message
  process_audio_message-Reach s s' config clock p name f t k reached =
      let count = max_zero config.server_buffer_prefill_on_connect in
      let inserted : Server P = record s' { clients = insert_client P name s'.clients } in
      let (queued, cs, st) = push_to P clock count p name inserted.clients s'.store in
      let pushed =
        Reach-Calls s inserted f t cs st (more s' inserted f t reached (inserts name))
          (push_to-Calls clock count p name inserted.clients s'.store k) in
      elim (Bool-cases queued) [
        | inl y ↦ rw y (more _ _ f t pushed (posts 1))
        | inr n ↦ rw n pushed
      ]
