-- ===== src/Plugin/Lease.antt =====
-- `SingleActiveSessionLease`: one session for all the plugin's instances in a host. An owner is a
-- number, and the list holds the `owner_` of each lease.
use jammer_netz.Base.{
  ℕ, zero, suc, ◌≡◌, ◌≢◌, refl, sym, ap, ◌∙◌, Bool, true, false, Option, none, some, List, [], ◌∷◌,
  ◌==◌, if◌then◌else◌, get_elem?, set, replicate, arith, some-injective, Bool-cases, inl, inr, ◌⊎◌,
}

abbrev pub or_free : Option (Option ℕ) → Option ℕ
or_free none = none
or_free (some h) = h

pub record Leases : Type 0 where
  pub active_owner : Option ℕ
  pub owners : List (Option ℕ)

abbrev pub is_owner : Option ℕ → ℕ → Bool
is_owner none o = false
is_owner (some o') o = o' == o

-- `acquire` of the lease `i` for the owner `o`, where the lease has `held`.
abbrev pub acquire_from : Option ℕ → Option ℕ → ℕ → ℕ → Leases → Bool × Leases
acquire_from none none i o l =
    (true, record { active_owner = some o; owners = set l.owners i (some o) })
acquire_from none (some a) i o l = (false, l)
acquire_from (some h) none i o l =
    if h == o
    then (true, l)
    else (true, record { active_owner = some o; owners = set l.owners i (some o) })
acquire_from (some h) (some a) i o l = if h == o then (true, l) else (false, l)

-- `acquire(this)` of the instance `i`, whose lease is the lease `i` and whose owner is `i`.
unfoldable pub acquire : ℕ → Leases → Bool × Leases
acquire i l = acquire_from (or_free (get_elem? l.owners i)) l.active_owner i i l

-- `release` of the lease `i`, which has `held`: the compare-and-exchange, and the lease's owner.
abbrev pub release_from : Option ℕ → ℕ → Leases → Leases
release_from none i l = l
release_from (some h) i l = record {
  active_owner = if is_owner l.active_owner h then none else l.active_owner;
  owners = set l.owners i none;
}

unfoldable pub release : ℕ → Leases → Leases
release i l = release_from (or_free (get_elem? l.owners i)) i l

pub data Request : Type 0 where
  take_lease drop_lease : ℕ → Request

-- The leases after the requests of the instances, in any order.
unfoldable pub run_leases : List Request → Leases → Leases
unfolding acquire release
run_leases [] l = l
run_leases (take_lease i ∷ rs) l = run_leases rs (acquire i l).1
run_leases (drop_lease i ∷ rs) l = run_leases rs (release i l)

-- A lease that is held is held for its instance, which is the active owner.
unfoldable pub IsExclusive : Leases → Type 0
IsExclusive l =
    (i o : ℕ) → get_elem? l.owners i ≡ some (some o) → (o ≡ i) × (l.active_owner ≡ some i)

-- The leases of new instances.
unfoldable pub new_leases : ℕ → Leases
new_leases n = record { active_owner = none; owners = replicate n none }

get_elem?-replicate : (n i o : ℕ) → get_elem? (replicate {A = Option ℕ} n none) i ≢ some (some o)
get_elem?-replicate zero i o e = cc
get_elem?-replicate (suc n) zero o e = cc
get_elem?-replicate (suc n) (suc i) o e = get_elem?-replicate n i o e

pub new_leases-IsExclusive : (n : ℕ) → IsExclusive (new_leases n)
unfolding IsExclusive new_leases
new_leases-IsExclusive n i o e = absurd (get_elem?-replicate n i o e)

get_elem?-set {ℓ} :
    {A : Type ℓ} (xs : List A) (i j : ℕ) (v w : A)
    → get_elem? (set xs i v) j ≡ some w
    → ((i ≡ j) × (v ≡ w)) ⊎ ((i ≢ j) × (get_elem? xs j ≡ some w))
get_elem?-set [] i j v w e = absurd (cc)
get_elem?-set (x ∷ xs) zero zero v w e = inl (refl, some-injective e)
get_elem?-set (x ∷ xs) zero (suc j) v w e = inr (omega arith, e)
get_elem?-set (x ∷ xs) (suc i) zero v w e = inr (omega arith, e)
get_elem?-set (x ∷ xs) (suc i) (suc j) v w e = elim (get_elem?-set xs i j v w e) [
  | inl h ↦ inl (ap suc h.0, h.1)
  | inr h ↦ inr (omega (arith, h.0), h.1)
]

acquired-IsExclusive :
    (l : Leases) (i : ℕ)
    → l.active_owner ≡ none
    → IsExclusive l
    → IsExclusive (record { active_owner = some i; owners = set l.owners i (some i) })
unfolding IsExclusive
acquired-IsExclusive l i a x j o e = elim (get_elem?-set l.owners i j (some i) (some o) e) [
  | inl h ↦ (sym (some-injective h.1) ∙ h.0, ap some h.0)
  | inr h ↦ absurd (cc (a, (x j o h.1).1))
]

acquire-IsExclusive :
    (l : Leases) (i : ℕ) (held active : Option ℕ)
    → or_free (get_elem? l.owners i) ≡ held
    → l.active_owner ≡ active
    → IsExclusive l
    → IsExclusive (acquire_from held active i i l).1
acquire-IsExclusive l i none none eh ea x = acquired-IsExclusive l i ea x
acquire-IsExclusive l i none (some a) eh ea x = x
acquire-IsExclusive l i (some h) none eh ea x = elim (Bool-cases (h == i)) [
  | inl t ↦ rw t x
  | inr f ↦ rw f (acquired-IsExclusive l i ea x)
]
acquire-IsExclusive l i (some h) (some a) eh ea x = elim (Bool-cases (h == i)) [
  | inl t ↦ rw t x
  | inr f ↦ rw f x
]

or_free-held : (o : Option (Option ℕ)) (h : ℕ) → or_free o ≡ some h → o ≡ some (some h)
or_free-held none h e = absurd (cc)
or_free-held (some x) h e = ap some e

release-IsExclusive :
    (l : Leases) (i : ℕ) (held : Option ℕ)
    → or_free (get_elem? l.owners i) ≡ held
    → IsExclusive l
    → IsExclusive (release_from held i l)
unfolding IsExclusive
release-IsExclusive l i none e x j o ej = x j o ej
release-IsExclusive l i (some h) e x j o ej = elim (get_elem?-set l.owners i j none (some o) ej) [
  | inl k ↦ absurd (cc (k.1))
  | inr k ↦
      let mine = x i h (or_free-held (get_elem? l.owners i) h e) in
      let other = x j o k.1 in absurd (k.0 (some-injective (sym mine.1 ∙ other.1)))
]

run_leases-IsExclusive :
    (rs : List Request) (l : Leases) → IsExclusive l → IsExclusive (run_leases rs l)
unfolding run_leases acquire release
run_leases-IsExclusive [] l x = x
run_leases-IsExclusive (take_lease i ∷ rs) l x =
    run_leases-IsExclusive rs _ (acquire-IsExclusive l i _ _ refl refl x)
run_leases-IsExclusive (drop_lease i ∷ rs) l x =
    run_leases-IsExclusive rs _ (release-IsExclusive l i _ refl x)

-- After any requests of the instances, no two of them hold the lease: from leases of which none is
-- held for another than the active owner, two instances whose leases are held are the same.
pub run_leases-one :
    (rs : List Request) (l : Leases) (i j o o' : ℕ)
    → IsExclusive l
    → get_elem? (run_leases rs l).owners i ≡ some (some o)
    → get_elem? (run_leases rs l).owners j ≡ some (some o')
    → i ≡ j
unfolding IsExclusive
run_leases-one rs l i j o o' x e e' =
    let x' = run_leases-IsExclusive rs l x in some-injective (sym (x' i o e).1 ∙ (x' j o' e').1)
