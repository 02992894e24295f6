-- ===== src/Scheduler/Maps.antt =====
-- `std::map` with strings as its keys: what `find` sees of `emplace`.
use jammer_netz.Base.{◌≡◌, false, none, some, List, [], ◌∷◌, arith, Text, text_eq, text_eq_refl}
use jammer_netz.Scheduler.{emplace, find}

module _ {ℓ} {V : Type ℓ} where
  pub find-emplace_self :
      (k : Text) (v : V) (entries : List (Text × V))
      → find k entries ≡ none
      → find k (emplace k v entries) ≡ some v
  unfolding emplace
  find-emplace_self k v [] h = ground (arith, text_eq_refl k)
  find-emplace_self k v ((k', v') ∷ rest) h =
      ground (arith, text_eq_refl k, find-emplace_self k v rest)

  pub find-emplace_other :
      (j k : Text) (v : V) (entries : List (Text × V))
      → text_eq j k ≡ false
      → find j (emplace k v entries) ≡ find j entries
  unfolding emplace
  find-emplace_other j k v [] h = ground arith
  find-emplace_other j k v ((k', v') ∷ rest) h = ground (arith, find-emplace_other j k v rest h)
