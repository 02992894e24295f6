-- ===== src/Wire/Memory.antt =====
-- The receiver's buffers after an allocation.
use jammer_netz.Base.{◌≡◌, ◌≢◌, arith}
use jammer_netz.Platform.{Platform}
use jammer_netz.Package.{BufferRef, Store, alloc, put_buffer}

module _ (P : Platform) where
  pub alloc-cell : (b : P.Buffer) (st : Store P) → (alloc P b st).1.cells st.next ≡ b
  unfolding alloc put_buffer
  alloc-cell b st = ground arith

  pub alloc-other :
      (b : P.Buffer) (st : Store P) (r : BufferRef)
      → r ≢ st.next
      → (alloc P b st).1.cells r ≡ st.cells r
  unfolding alloc put_buffer
  alloc-other b st r h = ground arith

  pub alloc-next_ne : (b : P.Buffer) (st : Store P) → st.next ≢ (alloc P b st).1.next
  unfolding alloc
  alloc-next_ne b st = omega arith
