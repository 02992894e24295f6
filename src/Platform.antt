-- ===== src/Platform.antt =====
-- What the program takes from outside its repository: floating point numbers, and the sample
-- buffers and sample conversions of JUCE (`juce::AudioBuffer<float>`, `juce::AudioData`).
-- They are a parameter of the model. `float` and `double` are one type here, so that a conversion
-- between them, as of the volume of the monitoring, is no operation; the literal m * 10^-e is `literal m e`.
use jammer_netz.Base.{ℕ, ◌≡◌, ◌<◌, Bool}

pub record Platform : Type 1 where
  pub Float : Type 0
  pub literal : ℕ → ℕ → Float
  pub of_nat : ℕ → Float
  pub add : Float → Float → Float
  pub sub : Float → Float → Float
  pub mul : Float → Float → Float
  pub div : Float → Float → Float
  pub lt : Float → Float → Bool
  pub fabs : Float → Float
  pub sqrt : Float → Float
  pub pow : Float → Float → Float
  pub Buffer : Type 0
  pub num_channels : Buffer → ℕ
  pub num_samples : Buffer → ℕ
  pub sample : Buffer → ℕ → ℕ → Float
  -- A new buffer with this number of channels and samples.
  pub new_buffer : ℕ → ℕ → Buffer
  pub clear : Buffer → Buffer
  -- Sets one sample of a channel.
  pub write : Buffer → ℕ → ℕ → Float → Buffer
  -- Adds `gain` times a channel of the source to a channel of the destination.
  pub add_from : Buffer → ℕ → Buffer → ℕ → Float → Buffer
  pub to_int16 : Float → ℕ
  pub from_int16 : ℕ → Float

-- The documented behaviour of the buffer operations that the proofs rely on.
pub record BufferLaws (P : Platform) : Type 0 where
  pub new_channels : (c n : ℕ) → P.num_channels (P.new_buffer c n) ≡ c
  pub new_samples : (c n : ℕ) → P.num_samples (P.new_buffer c n) ≡ n
  pub clear_channels : (b : P.Buffer) → P.num_channels (P.clear b) ≡ P.num_channels b
  pub clear_samples : (b : P.Buffer) → P.num_samples (P.clear b) ≡ P.num_samples b
  pub clear_silent :
      (b : P.Buffer) (c i : ℕ)
      → c < P.num_channels b
      → i < P.num_samples b
      → P.sample (P.clear b) c i ≡ P.literal 0 0
  pub add_from_channels :
      (b s : P.Buffer) (c d : ℕ) (g : P.Float)
      → P.num_channels (P.add_from b c s d g) ≡ P.num_channels b
  pub add_from_samples :
      (b s : P.Buffer) (c d : ℕ) (g : P.Float)
      → P.num_samples (P.add_from b c s d g) ≡ P.num_samples b
