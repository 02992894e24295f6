-- ===== src/Scheduler/Popping.antt =====
-- What the first loop of a mix round, which pops one packet of each client, does to every client.
use jammer_netz.Base.{
  ℕ, ◌≡◌, refl, ◌∙◌, ap, Bool, true, false, none, some, List, [], ◌∷◌, arith, if◌then◌else◌, Text,
  text_eq, text_eq_refl, text_eq→eq, Option-cases, inl, inr, Bool-cases,
}
use jammer_netz.Platform.{Platform}
use jammer_netz.Package.{Store, AudioData}
use jammer_netz.ClientState.{ClientState, is_disconnected, snapshot, try_pop_client}
use jammer_netz.ClientState.Steps.{snapshot-state, try_pop_client-keeps}
use jammer_netz.Mixer.{Incoming}
use jammer_netz.Scheduler.{Clients, ScheduledMixResult, emplace, find, pop_client, pop_all}
use jammer_netz.Scheduler.Maps.{find-emplace_self, find-emplace_other}

module _ (P : Platform) where
  -- A name that no client of the list has.
  abbrev pub IsFresh : Text → Clients P → Type 0
  IsFresh name [] = Unit
  IsFresh name ((name', c) ∷ rest) = (text_eq name name' ≡ false) × IsFresh name rest

  -- Different clients have different names.
  abbrev pub IsKeyed : Clients P → Type 0
  IsKeyed [] = Unit
  IsKeyed ((name, c) ∷ rest) = IsFresh name rest × IsKeyed rest

  -- What the loop did to a client: its packet is taken, or it had none and is observed, or it takes
  -- no part.
  pub data Popped (incoming : Incoming P) (observed : List (Text × ℕ)) (name : Text)
      (c c' : ClientState P) : Type 0 where
    took :
        (st : Store P) (p : AudioData P) (is_fill_in : Bool)
        → (try_pop_client P c st).0 ≡ some (p, is_fill_in)
        → find name incoming ≡ some p
        → find name observed ≡ none
        → c' ≡ (try_pop_client P c st).2
        → Popped incoming observed name c c'
    missed :
        is_disconnected c.state ≡ false
        → find name incoming ≡ none
        → find name observed ≡ some c'.activity_generation
        → c'.state ≡ c.state
        → Popped incoming observed name c c'
    skipped :
        is_disconnected c.state ≡ true
        → find name incoming ≡ none
        → find name observed ≡ none
        → c'.state ≡ c.state
        → Popped incoming observed name c c'

  abbrev pub PoppedAll : Incoming P → List (Text × ℕ) → Clients P → Clients P → Type 0
  PoppedAll incoming observed [] [] = Unit
  PoppedAll incoming observed [] (c' ∷ cs') = ⊥
  PoppedAll incoming observed (c ∷ cs) [] = ⊥
  PoppedAll incoming observed ((name, c) ∷ cs) ((name', c') ∷ cs') =
      (name' ≡ name) × Popped incoming observed name c c' × PoppedAll incoming observed cs cs'

  pop_client-none :
      (name : Text) (c : ClientState P) (r : ScheduledMixResult P) (observed : List (Text × ℕ))
      (st : Store P)
      → (try_pop_client P c st).0 ≡ none
      → let (c', (r', observed'), _) = pop_client P name c (r, observed) st in
        (c' ≡ (try_pop_client P c st).2)
        × (r' ≡ r)
        × (observed' ≡ (
            if is_disconnected (snapshot P (try_pop_client P c st).2).state
            then observed
            else emplace name (try_pop_client P c st).1 observed))
  unfolding pop_client
  pop_client-none name c r observed st e = rw e (refl, refl, refl)

  pop_client-some :
      (name : Text) (c : ClientState P) (r : ScheduledMixResult P) (observed : List (Text × ℕ))
      (st : Store P) (p : AudioData P) (is_fill_in : Bool)
      → (try_pop_client P c st).0 ≡ some (p, is_fill_in)
      → let (c', (r', observed'), _) = pop_client P name c (r, observed) st in
        (c' ≡ (try_pop_client P c st).2)
        × (r'.incoming ≡ emplace name p r.incoming)
        × (observed' ≡ observed)
  unfolding pop_client
  pop_client-some name c r observed st p true e = rw e (refl, refl, refl)
  pop_client-some name c r observed st p false e = rw e (refl, refl, refl)

  pop_client-other :
      (name other : Text) (c : ClientState P) (r : ScheduledMixResult P)
      (observed : List (Text × ℕ)) (st : Store P)
      → text_eq other name ≡ false
      → let (_, (r', observed'), _) = pop_client P name c (r, observed) st in
        (find other r'.incoming ≡ find other r.incoming)
        × (find other observed' ≡ find other observed)
  pop_client-other name other c r observed st h = elim (Option-cases (try_pop_client P c st).0) [
    | inl e ↦ ground (
      arith,
      pop_client-none name c r observed st e,
      find-emplace_other other name (try_pop_client P c st).1 observed h,
    )
    | inr ((p, f), e) ↦ ground (
      arith,
      pop_client-some name c r observed st p f e,
      find-emplace_other other name p r.incoming h,
    )
  ]

  pop_client-Popped :
      (name : Text) (c : ClientState P) (r : ScheduledMixResult P) (observed : List (Text × ℕ))
      (st : Store P)
      → find name r.incoming ≡ none
      → find name observed ≡ none
      → let (c', (r', observed'), _) = pop_client P name c (r, observed) st in
        Popped r'.incoming observed' name c c'
  pop_client-Popped name c r observed st h k = elim (Option-cases (try_pop_client P c st).0) [
    | inr ((p, f), e) ↦
        let s = pop_client-some name c r observed st p f e in
        took st p f e (ap (find name) s.1 ∙ find-emplace_self name p r.incoming h)
          (ap (find name) s.2 ∙ k) s.0
    | inl e ↦ elim (Bool-cases (is_disconnected c.state)) [
      | inl d ↦
          skipped d (ground (arith, pop_client-none name c r observed st e))
            (ground (
              arith,
              pop_client-none name c r observed st e,
              try_pop_client-keeps P c st,
              snapshot-state P (try_pop_client P c st).2,
            ))
            (ground (arith, pop_client-none name c r observed st e, try_pop_client-keeps P c st))
      | inr d ↦
          missed d (ground (arith, pop_client-none name c r observed st e))
            (ground (
              arith,
              pop_client-none name c r observed st e,
              try_pop_client-keeps P c st,
              snapshot-state P (try_pop_client P c st).2,
              find-emplace_self name (try_pop_client P c st).1 observed k,
            ))
            (ground (arith, pop_client-none name c r observed st e, try_pop_client-keeps P c st))
    ]
  ]

  Popped-transfer :
      (incoming incoming' : Incoming P) (observed observed' : List (Text × ℕ)) (name : Text)
      (c c' : ClientState P)
      → find name incoming' ≡ find name incoming
      → find name observed' ≡ find name observed
      → Popped incoming observed name c c'
      → Popped incoming' observed' name c c'
  Popped-transfer incoming incoming' observed observed' name c c' h k (took st p f e i o w) =
      took st p f e (h ∙ i) (k ∙ o) w
  Popped-transfer incoming incoming' observed observed' name c c' h k (missed d i o s) =
      missed d (h ∙ i) (k ∙ o) s
  Popped-transfer incoming incoming' observed observed' name c c' h k (skipped d i o s) =
      skipped d (h ∙ i) (k ∙ o) s

  -- No client of the list has an entry yet.
  abbrev pub IsAbsent : Incoming P → List (Text × ℕ) → Clients P → Type 0
  IsAbsent incoming observed [] = Unit
  IsAbsent incoming observed ((name, c) ∷ rest) =
      (find name incoming ≡ none) × (find name observed ≡ none) × IsAbsent incoming observed rest

  text_eq-sym : (s t : Text) → text_eq s t ≡ false → text_eq t s ≡ false
  text_eq-sym s t h = elim (Bool-cases (text_eq t s)) [
    | inl e ↦ absurd (ground (arith, text_eq→eq t s e, text_eq_refl t, h))
    | inr e ↦ e
  ]

  pop_client-IsAbsent :
      (name : Text) (c : ClientState P) (r : ScheduledMixResult P) (observed : List (Text × ℕ))
      (st : Store P) (rest : Clients P)
      → IsFresh name rest
      → IsAbsent r.incoming observed rest
      → let (_, (r', observed'), _) = pop_client P name c (r, observed) st in
        IsAbsent r'.incoming observed' rest
  pop_client-IsAbsent name c r observed st [] f a = tt
  pop_client-IsAbsent name c r observed st ((name', c') ∷ rest) f a =
      let o = pop_client-other name name' c r observed st (text_eq-sym name name' f.0) in
      (o.0 ∙ a.0, o.1 ∙ a.1, pop_client-IsAbsent name c r observed st rest f.1 a.2)

  pop_all-other :
      (other : Text) (cs : Clients P) (r : ScheduledMixResult P) (observed : List (Text × ℕ))
      (st : Store P)
      → IsFresh other cs
      → let (_, (r', observed'), _) = pop_all P cs (r, observed) st in
        (find other r'.incoming ≡ find other r.incoming)
        × (find other observed' ≡ find other observed)
  unfolding pop_all
  pop_all-other other [] r observed st f = (refl, refl)
  pop_all-other other ((name, c) ∷ rest) r observed st f =
      let (_, (r', observed'), st') = pop_client P name c (r, observed) st in
      let o = pop_client-other name other c r observed st f.0 in
      let os = pop_all-other other rest r' observed' st' f.1 in (os.0 ∙ o.0, os.1 ∙ o.1)

  pub pop_all-PoppedAll :
      (cs : Clients P) (r : ScheduledMixResult P) (observed : List (Text × ℕ)) (st : Store P)
      → IsKeyed cs
      → IsAbsent r.incoming observed cs
      → let (cs', (r', observed'), _) = pop_all P cs (r, observed) st in
        PoppedAll r'.incoming observed' cs cs'
  unfolding pop_all
  pop_all-PoppedAll [] r observed st u a = tt
  pop_all-PoppedAll ((name, c) ∷ rest) r observed st u a =
      let (c', (r', observed'), st') = pop_client P name c (r, observed) st in
      let (_, (r'', observed''), _) = pop_all P rest (r', observed') st' in
      let os = pop_all-other name rest r' observed' st' u.0 in
      (
        refl,
        Popped-transfer r'.incoming r''.incoming observed' observed'' name c c' os.0 os.1
            (pop_client-Popped name c r observed st a.0 a.1),
        pop_all-PoppedAll rest r' observed' st' u.1
            (pop_client-IsAbsent name c r observed st rest u.0 a.2),
      )

  nothing-IsAbsent : (cs : Clients P) → IsAbsent [] [] cs
  nothing-IsAbsent [] = tt
  nothing-IsAbsent ((name, c) ∷ rest) = (refl, refl, nothing-IsAbsent rest)

  pub IsAbsent-at_start :
      (cs : Clients P) (incoming : Incoming P) → incoming ≡ [] → IsAbsent incoming [] cs
  IsAbsent-at_start cs incoming h = rw h (nothing-IsAbsent cs)

  -- The buffers after one pop of each client.
  abbrev pub popped_store : Clients P → Store P → Store P
  popped_store [] st = st
  popped_store ((name, c) ∷ rest) st = popped_store rest (try_pop_client P c st).3

  pub pop_all-popped_store :
      (cs : Clients P) (r : ScheduledMixResult P) (observed : List (Text × ℕ)) (st : Store P)
      → (pop_all P cs (r, observed) st).2 ≡ popped_store cs st
  unfolding pop_all pop_client
  pop_all-popped_store [] r observed st = refl
  pop_all-popped_store ((name, c) ∷ rest) r observed st =
      let (_, (r', observed'), st') = pop_client P name c (r, observed) st in
      pop_all-popped_store rest r' observed' st'
