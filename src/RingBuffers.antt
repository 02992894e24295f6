-- ===== src/RingBuffers.antt =====
-- The client's ring buffers of samples. `RingBuffer` is a class of a submodule, so that it is a
-- parameter of the model.
use jammer_netz.Base.{ℕ, ◌+◌, ◌≡◌, ◌≤◌, List}
use jammer_netz.Platform.{Platform}

-- The `RingBuffer` of the submodule: samples of some channels, in the order they were written.
pub record RingBuffers (P : Platform) : Type 1 where
  pub RingBuffer : Type 0
  pub num_ready : RingBuffer → ℕ
  pub free_space : RingBuffer → ℕ
  pub write : RingBuffer → List (List P.Float) → ℕ → RingBuffer
  pub read : RingBuffer → ℕ → List (List P.Float) × RingBuffer
  pub discard : RingBuffer → ℕ → RingBuffer
  pub clear : RingBuffer → RingBuffer

-- What the proofs rely on: the ready samples are counted.
pub record RingBufferLaws (P : Platform) (R : RingBuffers P) : Type 0 where
  pub write_ready :
      (b : R.RingBuffer) (s : List (List P.Float)) (n : ℕ)
      → n ≤ R.free_space b
      → R.num_ready (R.write b s n) ≡ R.num_ready b + n
  pub write_room :
      (b : R.RingBuffer) (s : List (List P.Float)) (n : ℕ)
      → n ≤ R.free_space b
      → R.free_space (R.write b s n) + n ≡ R.free_space b
  pub read_ready :
      (b : R.RingBuffer) (n : ℕ)
      → n ≤ R.num_ready b
      → R.num_ready (R.read b n).1 + n ≡ R.num_ready b
  pub read_room :
      (b : R.RingBuffer) (n : ℕ)
      → n ≤ R.num_ready b
      → R.free_space (R.read b n).1 ≡ R.free_space b + n
  pub discard_ready :
      (b : R.RingBuffer) (n : ℕ)
      → n ≤ R.num_ready b
      → R.num_ready (R.discard b n) + n ≡ R.num_ready b
  pub clear_ready : (b : R.RingBuffer) → R.num_ready (R.clear b) ≡ 0
  pub clear_room : (b : R.RingBuffer) → R.free_space (R.clear b) ≡ R.num_ready b + R.free_space b
