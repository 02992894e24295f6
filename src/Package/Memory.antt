-- ===== src/Package/Memory.antt =====
-- What an allocation leaves alone in the store of the sample buffers.
use jammer_netz.Base.{ℕ, ◌≤◌, ◌<◌, ◌≡◌, refl, ◌∙◌, arith}
use jammer_netz.Platform.{Platform}
use jammer_netz.Package.{Store, alloc, put_buffer}

module _ (P : Platform) where
  -- Every buffer of the first store is in the second one as it was.
  pub record Keeps (st st' : Store P) : Type 0 where
    pub grows : st.next ≤ st'.next
    pub same : (r : ℕ) → r < st.next → st'.cells r ≡ st.cells r

  pub Keeps-refl : (st : Store P) → Keeps st st
  Keeps-refl st = record { grows = omega arith; same = λ r h. refl }

  pub Keeps-trans : (st st' st'' : Store P) → Keeps st st' → Keeps st' st'' → Keeps st st''
  Keeps-trans st st' st'' k l = record {
    grows = omega (arith, k.grows, l.grows);
    same = λ r h. l.same r (omega (arith, h, k.grows)) ∙ k.same r h;
  }

  pub alloc-Keeps : (b : P.Buffer) (st : Store P) → Keeps st (alloc P b st).1
  unfolding alloc put_buffer
  alloc-Keeps b st = record { grows = omega arith; same = λ r h. ground arith }

  -- The new buffer is where the pointer leads, now and after more allocations.
  pub alloc_lem :
      (b : P.Buffer) (st st' : Store P)
      → Keeps (alloc P b st).1 st'
      → st'.cells (alloc P b st).0 ≡ b
  unfolding alloc put_buffer
  alloc_lem b st st' k = k.same st.next (omega arith) ∙ ground arith
