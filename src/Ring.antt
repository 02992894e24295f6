-- ===== src/Ring.antt =====
-- The ring of the packages sent last: common/RingOfAudioBuffers.h. A slot that was never written
-- holds a null pointer, `none`. The argument of the getters is the new object that they make where
-- there is nothing to read. `endIndex_` is never negative, so `push` has no guard here.
mod Tests
use jammer_netz.Base.{
  ℕ, zero, suc, ◌+◌, ◌-◌, ◌%◌, ◌≤◌, ◌<◌, ◌≡◌, refl, sym, ◌∙◌, ap, Bool, true, false, Option, none,
  some, List, [], ◌∷◌, ltb, ◌==◌, if◌then◌else◌, length, get_or, set, replicate, arith, length-set,
  length-replicate, get_or-set_self, Bool-cases, inl, inr,
}
use native.Mathlib.Nat.{mod-eq_of_lt, mod_self}

module _ (A : Type 0) where
  pub record Ring : Type 0 where
    pub data_slots : List (Option A)
    pub end_index : ℕ
    pub head_index : ℕ

  pub new_ring : ℕ → Ring
  new_ring capacity = record { data_slots = replicate capacity none; end_index = 0; head_index = 0 }

  pub is_empty : Ring → Bool
  is_empty r = r.end_index == r.head_index

  -- The conditional of `incIndex`'s modulus, for an index in range.
  abbrev pub inc_index : ℕ → Ring → ℕ
  inc_index i r = (i + 1) % length r.data_slots

  pub push_ring : A → Ring → Ring
  push_ring a r =
      let slots = set r.data_slots r.end_index (some a) in
      let end = inc_index r.end_index r in
      record {
        data_slots = slots;
        end_index = end;
        head_index = if end == r.head_index then inc_index r.head_index r else r.head_index;
      }

  -- The index before one, around the ring.
  abbrev pub before : ℕ → Ring → ℕ
  before zero r = length r.data_slots - 1
  before (suc i) r = i

  pub get_last : A → Ring → Option A
  unfolding is_empty
  get_last fresh r =
      if is_empty r then some fresh else get_or r.data_slots (before r.end_index r) none

  -- The loop of `getNthLast`.
  pub step_back : A → ℕ → ℕ → Ring → Option A
  step_back fresh zero i r = get_or r.data_slots i none
  step_back fresh (suc n) i r =
      let further = step_back fresh n (before i r) r in
      if i == r.head_index then some fresh else further

  pub get_nth_last : A → ℕ → Ring → Option A
  unfolding is_empty
  get_nth_last fresh n r =
      if is_empty r then some fresh else step_back fresh n (before r.end_index r) r

  abbrev empty_slot : Option A
  empty_slot = none

  -- The indices lie in a ring of at least two slots.
  pub record IsValid (r : Ring) : Type 0 where
    pub slots : 2 ≤ length r.data_slots
    pub end_below : r.end_index < length r.data_slots
    pub head_below : r.head_index < length r.data_slots

  pub new_ring-IsValid : (capacity : ℕ) → 2 ≤ capacity → IsValid (new_ring capacity)
  unfolding new_ring
  new_ring-IsValid capacity h =
      let l = length-replicate capacity empty_slot in
      record {
        slots = omega (arith, l, h);
        end_below = omega (arith, l, h);
        head_below = omega (arith, l, h);
      }

  -- One step around the ring.
  next_index : (i n : ℕ) → i < n → (i + 1) % n ≡ (if i + 1 == n then 0 else i + 1)
  next_index i n h = elim (Bool-cases (i + 1 == n)) [
    | inl e ↦ let w : i + 1 ≡ n = ground (arith, e) in rw e (rw w (mod_self n))
    | inr e ↦ rw e (mod-eq_of_lt (ground (arith, e, h)))
  ]

  push_ring-IsValid : (a : A) (r : Ring) → IsValid r → IsValid (push_ring a r)
  unfolding push_ring
  push_ring-IsValid a r v =
      let l = length-set r.data_slots r.end_index (some a) in
      let e = next_index r.end_index (length r.data_slots) v.end_below in
      let h = next_index r.head_index (length r.data_slots) v.head_below in
      record {
        slots = omega (arith, l, v.slots);
        end_below = ground (arith, l, e, v.end_below, v.slots);
        head_below = ground (arith, l, e, h, v.head_below, v.slots);
      }

  before-next :
      (i n : ℕ) (r : Ring)
      → length r.data_slots ≡ n
      → i < n
      → before (if i + 1 == n then 0 else i + 1) r ≡ i
  before-next i n r l h = elim (Bool-cases (i + 1 == n)) [
    | inl e ↦ rw e (ground (arith, l, e))
    | inr e ↦ let k : i + 1 ≡ suc i = omega arith in rw e (rw k refl)
  ]

  -- After a push into a ring of at least two slots with its indices in range, the ring is not
  -- empty, both getters read the pushed entry as the last one, and the indices stay in range.
  pub push_ring-get_last :
      (fresh a : A) (r : Ring)
      → IsValid r
      → let r' = push_ring a r in
        (is_empty r' ≡ false)
        × (get_last fresh r' ≡ some a)
        × (get_nth_last fresh 0 r' ≡ some a)
        × IsValid r'
  unfolding push_ring is_empty get_last get_nth_last step_back
  push_ring-get_last fresh a r v =
      let l = length-set r.data_slots r.end_index (some a) in
      let e = next_index r.end_index (length r.data_slots) v.end_below in
      let h = next_index r.head_index (length r.data_slots) v.head_below in
      let g = get_or-set_self r.data_slots r.end_index (some a) none v.end_below in
      let apart : is_empty (push_ring a r) ≡ false =
        ground (arith, e, h, v.slots, v.end_below, v.head_below) in
      let back : before ((r.end_index + 1) % length r.data_slots) (push_ring a r) ≡ r.end_index =
        ap (λ i. before i (push_ring a r)) e
        ∙ before-next r.end_index (length r.data_slots) (push_ring a r) l v.end_below in
      (apart, rw (apart, back) g, rw (apart, back) g, push_ring-IsValid a r v)

  pub new_ring-is_empty : (capacity : ℕ) → is_empty (new_ring capacity) ≡ true
  unfolding is_empty new_ring
  new_ring-is_empty capacity = refl
