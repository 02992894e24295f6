-- ===== src/Plugin/Guard.antt =====
-- The gate counts the callbacks, and each step of a callback keeps it so.
use jammer_netz.Base.{
  ℕ, zero, suc, ◌+◌, ◌≡◌, ◌≢◌, ◌≤◌, ◌⊎◌, inl, inr, refl, sym, ap, ◌∙◌, Bool, true, false, not, ◌&&◌,
  some, List, [], ◌∷◌, ◌==◌, if◌then◌else◌, get_elem?, set, arith, Bool-cases, some-injective,
}
use jammer_netz.Plugin.{
  Plugin, Control, Callback, outside, checked, loaded, counted, inside, leaving, idle, gate_reset,
  engine_started, active, gate_closed, drained, engine_stopped, closing_bit, process_count_mask,
  is_closing, process_count, leave_process, exchange, callback_step, move,
}

-- A callback that the gate counts.
abbrev pub holds : Callback → ℕ
holds counted = 1
holds inside = 1
holds leaving = 1
holds _ = 0

-- A callback that is in the engine.
abbrev pub enters : Callback → ℕ
enters inside = 1
enters _ = 0

abbrev pub total : (Callback → ℕ) → List Callback → ℕ
total f [] = 0
total f (c ∷ cs) = f c + total f cs

total-set :
    (f : Callback → ℕ) (cs : List Callback) (i : ℕ) (c c' : Callback)
    → get_elem? cs i ≡ some c
    → total f (set cs i c') + f c ≡ total f cs + f c'
total-set f [] i c c' e = absurd (cc)
total-set f (d ∷ cs) zero c c' e = let e' : d ≡ c = some-injective e in rw e' (omega arith)
total-set f (d ∷ cs) (suc i) c c' e = omega (arith, total-set f cs i c c' e)

pub total-le : (cs : List Callback) → total enters cs ≤ total holds cs
total-le [] = omega arith
total-le (outside ∷ cs) = omega (arith, total-le cs)
total-le (checked ∷ cs) = omega (arith, total-le cs)
total-le (loaded g ∷ cs) = omega (arith, total-le cs)
total-le (counted ∷ cs) = omega (arith, total-le cs)
total-le (inside ∷ cs) = omega (arith, total-le cs)
total-le (leaving ∷ cs) = omega (arith, total-le cs)

-- The message thread has set the closing bit.
abbrev pub shut : Control → Bool
shut gate_closed = true
shut drained = true
shut engine_stopped = true
shut _ = false

-- It has seen no count in the gate since.
abbrev pub dry : Control → Bool
dry drained = true
dry engine_stopped = true
dry _ = false

-- No session is connected, nor was since the last shutdown.
abbrev pub quiet : Control → Bool
quiet idle = true
quiet gate_reset = true
quiet engine_started = true
quiet _ = false

abbrev pub is_active : Control → Bool
is_active active = true
is_active _ = false

abbrev pub is_up : Control → Bool
is_up active = true
is_up engine_started = true
is_up _ = false

quiet-active : (k : Control) → quiet k ≡ true → is_active k ≢ true
quiet-active idle h a = cc
quiet-active gate_reset h a = cc
quiet-active engine_started h a = cc
quiet-active _ h a = cc

dry-shut : (k : Control) → dry k ≡ true → shut k ≢ false
dry-shut drained h a = cc
dry-shut engine_stopped h a = cc
dry-shut _ h a = cc

up-active : (k : Control) → is_active k ≡ true → is_up k ≡ true
up-active active a = refl
up-active _ a = absurd (cc)

pub record IsGuarded (p : Plugin) : Type 0 where
  pub gate_counts : p.gate ≡ total holds p.callbacks + (if shut p.control then closing_bit else 0)
  pub few : total holds p.callbacks ≤ process_count_mask
  pub connected_active : p.connected ≡ is_active p.control
  pub up : is_up p.control ≡ true → p.running ≡ true
  pub empty : dry p.control ≡ true → total holds p.callbacks ≡ 0
  pub silent : quiet p.control ≡ true → total enters p.callbacks ≡ 0
  pub guarded : (total enters p.callbacks ≡ 0) ⊎ (p.running ≡ true)

-- A callback moves on, and the gate with it.
replace-IsGuarded :
    (p : Plugin) (i : ℕ) (c c' : Callback) (gate' : ℕ)
    → get_elem? p.callbacks i ≡ some c
    → IsGuarded p
    → gate' + holds c ≡ p.gate + holds c'
    → total holds p.callbacks + holds c' ≤ process_count_mask + holds c
    → (dry p.control ≡ true → holds c' ≤ holds c)
    → (enters c' ≤ enters c) ⊎ (is_active p.control ≡ true)
    → IsGuarded (move i (c', gate') p)
replace-IsGuarded p i c c' gate' e g hg hf hd he =
    let held = total-set holds p.callbacks i c c' e in
    let entered = total-set enters p.callbacks i c c' e in
    record {
      gate_counts = omega (arith, g.gate_counts, hg, held);
      few = omega (arith, hf, held);
      connected_active = g.connected_active;
      up = g.up;
      empty = λ h. omega (arith, held, g.empty h, hd h);
      silent = λ h. elim he [
        | inl l ↦ omega (arith, entered, g.silent h, l)
        | inr a ↦ absurd (quiet-active p.control h a)
      ];
      guarded = elim he [
        | inl l ↦ elim g.guarded [ inl z ↦ inl (omega (arith, entered, z, l)) | inr r ↦ inr r ]
        | inr a ↦ inr (g.up (up-active p.control a))
      ];
    }

-- The same for a step that is equal to it; a callback that the gate does not count stays so.
step-IsGuarded :
    (p : Plugin) (i : ℕ) (c c' : Callback) (r : Callback × ℕ)
    → get_elem? p.callbacks i ≡ some c
    → IsGuarded p
    → holds c' ≡ holds c
    → (enters c' ≤ enters c) ⊎ (is_active p.control ≡ true)
    → r ≡ (c', p.gate)
    → IsGuarded (move i r p)
step-IsGuarded p i c c' r e g h h' er = rw er (
    replace-IsGuarded p i c c' p.gate e g (omega (arith, h)) (omega (arith, g.few, h))
      (λ d. omega (arith, h)) h')

exchange-IsGuarded :
    (p : Plugin) (i k : ℕ) (open' same : Bool)
    → (not (is_closing k) && not (process_count k == process_count_mask)) ≡ open'
    → (p.gate == k) ≡ same
    → get_elem? p.callbacks i ≡ some (loaded k)
    → IsGuarded p
    → IsGuarded (move i (exchange k p) p)
exchange-IsGuarded p i k false same eo es e g =
    step-IsGuarded p i (loaded k) outside _ e g refl (inl (omega arith)) (rw eo refl)
exchange-IsGuarded p i k true false eo es e g =
    step-IsGuarded p i (loaded k) (loaded p.gate) _ e g refl (inl (omega arith)) (rw (eo, es) refl)
exchange-IsGuarded p i k true true eo es e g =
    let ek : k ≡ p.gate = ground (arith, es) in
    let er : exchange k p ≡ (counted, k + 1) = rw (eo, es) refl in
    let room : total holds p.callbacks + 1 ≤ process_count_mask =
      ground (arith, ek, eo, g.gate_counts, g.few) in
    let not_shut : shut p.control ≡ false = ground (arith, ek, eo, g.gate_counts) in
    rw er (
      replace-IsGuarded p i (loaded k) counted (k + 1) e g (omega (arith, ek)) (omega (arith, room))
        (λ d. absurd (dry-shut p.control d not_shut)) (inl (omega arith)))

pub move-IsGuarded :
    (p : Plugin) (i : ℕ) (c : Callback)
    → get_elem? p.callbacks i ≡ some c
    → IsGuarded p
    → IsGuarded (move i (callback_step c p) p)
unfolding callback_step
move-IsGuarded p i outside e g = elim (Bool-cases p.connected) [
  | inl k ↦
      step-IsGuarded p i outside checked _ e g refl (inl (omega arith))
        (ap (λ b. (if b then checked else outside, p.gate)) k)
  | inr k ↦
      step-IsGuarded p i outside outside _ e g refl (inl (omega arith))
        (ap (λ b. (if b then checked else outside, p.gate)) k)
]
move-IsGuarded p i checked e g =
    step-IsGuarded p i checked (loaded p.gate) _ e g refl (inl (omega arith)) refl
move-IsGuarded p i (loaded k) e g = exchange-IsGuarded p i k _ _ refl refl e g
move-IsGuarded p i counted e g = elim (Bool-cases p.connected) [
  | inl k ↦
      step-IsGuarded p i counted inside _ e g refl (inr (sym g.connected_active ∙ k))
        (ap (λ b. (if b then inside else leaving, p.gate)) k)
  | inr k ↦
      step-IsGuarded p i counted leaving _ e g refl (inl (omega arith))
        (ap (λ b. (if b then inside else leaving, p.gate)) k)
]
move-IsGuarded p i inside e g =
    step-IsGuarded p i inside leaving _ e g refl (inl (omega arith)) refl
move-IsGuarded p i leaving e g =
    let held = total-set holds p.callbacks i leaving outside e in
    replace-IsGuarded p i leaving outside (leave_process p.gate) e g
      (ground (arith, held, g.gate_counts, g.few)) (omega (arith, g.few)) (λ h. omega arith)
      (inl (omega arith))
