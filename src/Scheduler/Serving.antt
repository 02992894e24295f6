-- ===== src/Scheduler/Serving.antt =====
-- What one mix round does to every client.
use jammer_netz.Base.{
  ℕ, ◌≡◌, refl, sym, subst, Bool, true, false, none, some, List, [], ◌∷◌, arith, Text,
}
use jammer_netz.Platform.{Platform}
use jammer_netz.Package.{Store, AudioData}
use jammer_netz.ClientState.{ClientState, is_disconnected, disconnecting, try_pop_client}
use jammer_netz.ClientState.Steps.{mark_underrun-disconnecting}
use jammer_netz.Mixer.{Incoming, Mixer, mix}
use jammer_netz.Scheduler.{
  ServerBufferConfig, Clients, ScheduledMixResult, Trigger, find, pop_all, mark, mark_client,
  mark_all, mix_round, process,
}
use jammer_netz.Scheduler.Waiting.{settled, waits, process-mixes}
use jammer_netz.Scheduler.Popping.{
  IsFresh, IsKeyed, Popped, took, missed, skipped, PoppedAll, pop_all-PoppedAll, IsAbsent-at_start,
  popped_store, pop_all-popped_store,
}

module _ (P : Platform) where
  -- What happened to a client: its packet is in the mix, or it had none and is in its grace
  -- period, or it takes no part.
  pub data Outcome (incoming : Incoming P) (name : Text) (c c' : ClientState P) : Type 0 where
    served :
        (st : Store P) (p : AudioData P) (is_fill_in : Bool)
        → (try_pop_client P c st).0 ≡ some (p, is_fill_in)
        → find name incoming ≡ some p
        → c' ≡ (try_pop_client P c st).2
        → Outcome incoming name c c'
    starved :
        is_disconnected c.state ≡ false
        → find name incoming ≡ none
        → c'.state ≡ disconnecting
        → Outcome incoming name c c'
    absent :
        is_disconnected c.state ≡ true
        → find name incoming ≡ none
        → c'.state ≡ c.state
        → Outcome incoming name c c'

  -- One outcome for each client, in their order and under their names.
  abbrev pub Outcomes : Incoming P → Clients P → Clients P → Type 0
  Outcomes incoming [] [] = Unit
  Outcomes incoming [] (c' ∷ cs') = ⊥
  Outcomes incoming (c ∷ cs) [] = ⊥
  Outcomes incoming ((name, c) ∷ cs) ((name', c') ∷ cs') =
      (name' ≡ name) × Outcome incoming name c c' × Outcomes incoming cs cs'

  marked-Outcome :
      (now : ℕ) (incoming : Incoming P) (observed : List (Text × ℕ)) (name : Text)
      (c c' : ClientState P)
      → Popped P incoming observed name c c'
      → Outcome incoming name c (mark P now (find name observed) c').1
  marked-Outcome now incoming observed name c c' (took st p f e i o w) = served st p f e i (rw o w)
  marked-Outcome now incoming observed name c c' (missed d i o s) =
      starved d i (rw o (mark_underrun-disconnecting P now c' (ground (arith, s, d))))
  marked-Outcome now incoming observed name c c' (skipped d i o s) = absent d i (rw o s)

  mark_all-Outcomes :
      (now : ℕ) (incoming : Incoming P) (observed : List (Text × ℕ)) (cs cs' : Clients P)
      (r : ScheduledMixResult P)
      → PoppedAll P incoming observed cs cs'
      → Outcomes incoming cs (mark_all P now observed cs' r).0
  unfolding mark_all mark_client
  mark_all-Outcomes now incoming observed [] [] r v = tt
  mark_all-Outcomes now incoming observed [] (c' ∷ cs') r v = absurd v
  mark_all-Outcomes now incoming observed (c ∷ cs) [] r v = absurd v
  mark_all-Outcomes now incoming observed ((name, c) ∷ cs) ((name', c') ∷ cs') r v = (
    v.0,
    rw v.0 (marked-Outcome now incoming observed name c c' v.1),
    mark_all-Outcomes now incoming observed cs cs' (mark_client P now observed name' c' r).1 v.2,
  )

  mark_all-incoming :
      (now : ℕ) (observed : List (Text × ℕ)) (cs : Clients P) (r : ScheduledMixResult P)
      → (mark_all P now observed cs r).1.incoming ≡ r.incoming
  unfolding mark_all mark_client
  mark_all-incoming now observed [] r = refl
  mark_all-incoming now observed ((name, c) ∷ cs) r =
      mark_all-incoming now observed cs (mark_client P now observed name c r).1

  -- The packets go to the mixer, with the buffers that the pops left, and what the mixer makes of
  -- them is the result.
  mix_round-mix :
      (now : ℕ) (t : Trigger) (r : ScheduledMixResult P) (cs : Clients P) (m : Mixer P)
      (st : Store P)
      → let (r', _, m', st') = mix_round P now t r cs m st in
        let (step, m'', st'') = mix P r'.incoming m (popped_store P cs st) in
        (r'.mix ≡ step) × (m' ≡ m'') × (st' ≡ st'')
  unfolding mix_round
  mix_round-mix now t r cs m st =
      rw (sym (pop_all-popped_store P cs (record r { trigger = t }) [] st)) (refl, refl, refl)

  mix_round-Outcomes :
      (now : ℕ) (t : Trigger) (r : ScheduledMixResult P) (cs : Clients P) (m : Mixer P)
      (st : Store P)
      → IsKeyed P cs
      → r.incoming ≡ []
      → let (r', cs', _, _) = mix_round P now t r cs m st in Outcomes r'.incoming cs cs'
  unfolding mix_round
  mix_round-Outcomes now t r cs m st u h =
      let (popped, (r', observed), st') = pop_all P cs (record r { trigger = t }, []) st in
      subst (λ incoming. Outcomes incoming cs (mark_all P now observed popped r').0)
        (sym (mark_all-incoming now observed popped r'))
        (mark_all-Outcomes now r'.incoming observed cs popped r' (
          pop_all-PoppedAll P cs (record r { trigger = t }) [] st u
            (IsAbsent-at_start P cs r.incoming h)))

  pub settled-IsFresh :
      (config : ServerBufferConfig) (now : ℕ) (name : Text) (cs : Clients P)
      → IsFresh P name cs
      → IsFresh P name (settled P config now cs)
  settled-IsFresh config now name [] f = tt
  settled-IsFresh config now name ((name', c) ∷ rest) f =
      (f.0, settled-IsFresh config now name rest f.1)

  pub settled-IsKeyed :
      (config : ServerBufferConfig) (now : ℕ) (cs : Clients P)
      → IsKeyed P cs
      → IsKeyed P (settled P config now cs)
  settled-IsKeyed config now [] u = tt
  settled-IsKeyed config now ((name, c) ∷ rest) u =
      (settled-IsFresh config now name rest u.0, settled-IsKeyed config now rest u.1)

  pub process-Outcomes :
      (config : ServerBufferConfig) (now : ℕ) (clients : Clients P) (m : Mixer P) (st : Store P)
      → IsKeyed P clients
      → waits P config (settled P config now clients) ≡ false
      → let (r, clients', m', st') = process P config now clients m st in
        let (step, m'', st'') =
          mix P r.incoming m (popped_store P (settled P config now clients) st) in
        Outcomes r.incoming (settled P config now clients) clients'
        × (r.mix ≡ step)
        × (m' ≡ m'')
        × (st' ≡ st'')
  process-Outcomes config now clients m st u h =
      let (r, e, p) = process-mixes P config now clients m st h in
      let mixed = mix_round-mix now _ r (settled P config now clients) m st in
      rw p (
        mix_round-Outcomes now _ r (settled P config now clients) m st
            (settled-IsKeyed config now clients u) e,
        mixed.0,
        mixed.1,
        mixed.2,
      )
