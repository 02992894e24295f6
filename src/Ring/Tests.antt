-- ===== src/Ring/Tests.antt =====
-- The ring at a concrete input.
use jammer_netz.Base.{ℕ, ◌≡◌, refl, some}
use jammer_netz.Ring.{Ring, new_ring, push_ring, get_last, get_nth_last, step_back}

abbrev pushed : Ring ℕ
unfolding push_ring new_ring
pushed = push_ring ℕ 8 (push_ring ℕ 7 (new_ring ℕ 3))

last-pushed : get_last ℕ 0 pushed ≡ some 8
unfolding push_ring new_ring get_last
last-pushed = refl

before-pushed : get_nth_last ℕ 0 1 pushed ≡ some 7
unfolding push_ring new_ring get_nth_last step_back
before-pushed = refl
