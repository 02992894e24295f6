-- ===== src/Wire/Samples.antt =====
-- The sample loops of a deserialization: what a channel holds after them.
use jammer_netz.Base.{
  ℕ, zero, suc, ◌+◌, ◌*◌, ◌/◌, ◌≡◌, ◌<◌, ◌≤◌, refl, ◌&&◌, some, ltb, leb, ◌==◌, if◌then◌else◌,
  arith, ◌∙◌, ap, subst, List, Bool-cases, inl, inr,
}
use jammer_netz.Platform.{Platform}
use jammer_netz.Wire.{got}
use jammer_netz.Wire.Audio.{
  tabulate, write_converted, write_copies, write_upsampled, write_channel, read_audio_bytes,
}

-- The documented behaviour of writing one sample of a buffer, within its bounds.
pub record WriteLaws (P : Platform) : Type 0 where
  pub write_channels :
      (b : P.Buffer) (c i : ℕ) (v : P.Float)
      → c < P.num_channels b
      → i < P.num_samples b
      → P.num_channels (P.write b c i v) ≡ P.num_channels b
  pub write_samples :
      (b : P.Buffer) (c i : ℕ) (v : P.Float)
      → c < P.num_channels b
      → i < P.num_samples b
      → P.num_samples (P.write b c i v) ≡ P.num_samples b
  pub write_sample :
      (b : P.Buffer) (c i : ℕ) (v : P.Float) (c' k : ℕ)
      → c < P.num_channels b
      → i < P.num_samples b
      → P.sample (P.write b c i v) c' k ≡ (if c' == c && k == i then v else P.sample b c' k)

module _ (P : Platform) (W : WriteLaws P) where
  open P use {Float, Buffer, num_channels, num_samples, sample, write, from_int16}

  -- `b'` is `b` with the positions from `lo` up to `hi` of a channel set to the values `g`.
  pub record Filled (c lo hi : ℕ) (g : ℕ → Float) (b b' : Buffer) : Type 0 where
    pub channels : num_channels b' ≡ num_channels b
    pub samples : num_samples b' ≡ num_samples b
    pub at :
        (c' k : ℕ)
        → sample b' c' k ≡ (if c' == c && (leb lo k && ltb k hi) then g k else sample b c' k)

  write-Filled :
      (c i : ℕ) (g : ℕ → Float) (b : Buffer)
      → c < num_channels b
      → i < num_samples b
      → Filled c i (suc i) g b (write b c i (g i))
  write-Filled c i g b hc hi = record {
    channels = W.write_channels b c i (g i) hc hi;
    samples = W.write_samples b c i (g i) hc hi;
    at = λ c' k. ground (arith, W.write_sample b c i (g i) c' k hc hi);
  }

  -- Two stretches, one after the other.
  Filled-append :
      {c lo mid hi : ℕ} {g : ℕ → Float} {b b' b'' : Buffer}
      → lo ≤ mid
      → mid ≤ hi
      → Filled c lo mid g b b'
      → Filled c mid hi g b' b''
      → Filled c lo hi g b b''
  Filled-append {c} {lo} {mid} {hi} h h' f f' = record {
    channels = f'.channels ∙ f.channels;
    samples = f'.samples ∙ f.samples;
    at = λ c' k. ground (arith, f.at c' k, f'.at c' k);
  }

  Filled-none : (c i : ℕ) (g : ℕ → Float) (b : Buffer) → Filled c i i g b b
  Filled-none c i g b = record { channels = refl; samples = refl; at = λ c' k. ground arith }

  Filled-end :
      {c lo hi hi' : ℕ} {g : ℕ → Float} {b b' : Buffer}
      → hi ≡ hi'
      → Filled c lo hi g b b'
      → Filled c lo hi' g b b'
  Filled-end {c} {lo} {g} {b} {b'} e f = subst (λ m. Filled c lo m g b b') e f

  -- Other values that agree on the stretch.
  Filled-agree :
      {c lo hi : ℕ} {g : ℕ → Float} (g' : ℕ → Float) {b b' : Buffer}
      → ((k : ℕ) → lo ≤ k → k < hi → g k ≡ g' k)
      → Filled c lo hi g b b'
      → Filled c lo hi g' b b'
  Filled-agree {c} {lo} {hi} {g} g' {b} h f = record {
    channels = f.channels;
    samples = f.samples;
    at = λ c' k. f.at c' k ∙ agree c' k;
  }
    where
      agree :
          (c' k : ℕ)
          → (if c' == c && (leb lo k && ltb k hi) then g k else sample b c' k)
            ≡ (if c' == c && (leb lo k && ltb k hi) then g' k else sample b c' k)
      agree c' k = elim (Bool-cases (leb lo k && ltb k hi)) [
        | inl e ↦
            ap (λ v. if c' == c && (leb lo k && ltb k hi) then v else sample b c' k)
              (h k (ground (arith, e)) (ground (arith, e)))
        | inr e ↦ ground (arith, e)
      ]

  -- Samples converted one by one.
  write_converted-Filled :
      (c : ℕ) (f : ℕ → ℕ) (i n : ℕ) (b : Buffer)
      → c < num_channels b
      → i + n ≤ num_samples b
      → Filled c i (i + n) (λ k. from_int16 (f k)) b (write_converted P c i (tabulate f i n) b)
  unfolding write_converted tabulate
  write_converted-Filled c f i zero b hc h =
      Filled-end (omega arith) (Filled-none c i (λ k. from_int16 (f k)) b)
  write_converted-Filled c f i (suc n) b hc h =
      let g : ℕ → Float = λ k. from_int16 (f k) in
      let one = write-Filled c i g b hc (omega arith) in
      let rest =
        write_converted-Filled c f (suc i) n (write b c i (g i)) (rw one.channels hc)
          (rw one.samples (omega arith)) in
      Filled-end (omega arith) (Filled-append (omega arith) (omega arith) one rest)

  write_copies-Filled :
      (c : ℕ) (v : Float) (i n : ℕ) (b : Buffer)
      → c < num_channels b
      → i + n ≤ num_samples b
      → Filled c i (i + n) (λ k. v) b (write_copies P c i n v b)
  unfolding write_copies
  write_copies-Filled c v i zero b hc h = Filled-end (omega arith) (Filled-none c i (λ k. v) b)
  write_copies-Filled c v i (suc n) b hc h =
      let one = write-Filled c i (λ k. v) b hc (omega arith) in
      let rest =
        write_copies-Filled c v (suc i) n (write b c i v) (rw one.channels hc)
          (rw one.samples (omega arith)) in
      Filled-end (omega arith) (Filled-append (omega arith) (omega arith) one rest)

  -- Samples written twice each.
  write_upsampled-Filled :
      (c : ℕ) (f : ℕ → ℕ) (i n : ℕ) (b : Buffer)
      → c < num_channels b
      → (i + n) * 2 ≤ num_samples b
      → Filled c
          (i * 2)
          ((i + n) * 2)
          (λ k. from_int16 (f (k / 2)))
          b
          (write_upsampled P c 2 i (tabulate f i n) b)
  unfolding write_upsampled tabulate
  write_upsampled-Filled c f i zero b hc h =
      Filled-end (omega arith) (Filled-none c (i * 2) (λ k. from_int16 (f (k / 2))) b)
  write_upsampled-Filled c f i (suc n) b hc h =
      let g : ℕ → Float = λ k. from_int16 (f (k / 2)) in
      let two = write_copies-Filled c (from_int16 (f i)) (i * 2) 2 b hc (omega arith) in
      let one = Filled-agree g (same i) two in
      let rest =
        write_upsampled-Filled c f (suc i) n (write_copies P c (i * 2) 2 (from_int16 (f i)) b)
          (rw one.channels hc) (rw one.samples (omega arith)) in
      Filled-end (omega arith)
        (Filled-append (omega arith) (omega arith) (Filled-end (omega arith) one) rest)
    where
      same : (j k : ℕ) → j * 2 ≤ k → k < j * 2 + 2 → from_int16 (f j) ≡ from_int16 (f (k / 2))
      same j k h h' = let e : j ≡ k / 2 = omega arith in ap (λ m. from_int16 (f m)) e

  -- All the channels: each of them from position 0 up to `hi`.
  pub record FilledAll (lo hi length : ℕ) (g : ℕ → ℕ → Float) (b b' : Buffer) : Type 0 where
    pub channels : num_channels b' ≡ num_channels b
    pub samples : num_samples b' ≡ num_samples b
    pub at :
        (c k : ℕ)
        → sample b' c k ≡ (if leb lo c && (ltb c hi && ltb k length) then g c k else sample b c k)

  -- The loop over the channels, where each call of the loop's body fills its channel.
  pub read_audio_bytes-FilledAll :
      (rate size c n : ℕ) (vs : ℕ → List ℕ) (g : ℕ → ℕ → Float) (b : Buffer)
      → num_samples b ≡ size
      → ((c' : ℕ) (b' : Buffer)
          → num_samples b' ≡ size
          → c' < num_channels b'
          → Filled c' 0 size (g c') b' (write_channel P c' rate (vs c') b'))
      → c + n ≤ num_channels b
      → (b' : Buffer) × (read_audio_bytes P c rate
            (tabulate (λ c'. record { audio_samples = some (vs c') }) c n)
            b
          ≡ got b')
        × FilledAll c (c + n) size g b b'
  unfolding read_audio_bytes tabulate
  read_audio_bytes-FilledAll rate size c zero vs g b e fill h =
      (b, refl, record { channels = refl; samples = refl; at = λ c' k. ground arith })
  read_audio_bytes-FilledAll rate size c (suc n) vs g b e fill h =
      let one = fill c b e (omega arith) in
      let (b', read, all) =
        read_audio_bytes-FilledAll rate size (suc c) n vs g (write_channel P c rate (vs c) b)
          (one.samples ∙ e) fill (rw one.channels (omega arith)) in
      (
        b',
        read,
        record {
          channels = all.channels ∙ one.channels;
          samples = all.samples ∙ one.samples;
          at = λ c' k. ground (arith, one.at c' k, all.at c' k);
        },
      )

  -- The loop's body, where the datagram carries all the samples and where it carries half of them.
  pub write_channel-all :
      (c n : ℕ) (f : ℕ → ℕ) (b : Buffer)
      → num_samples b ≡ n
      → c < num_channels b
      → Filled c 0 n (λ k. from_int16 (f k)) b (write_channel P c 1 (tabulate f 0 n) b)
  unfolding write_channel
  write_channel-all c n f b e h =
      Filled-end (omega arith) (write_converted-Filled c f 0 n b h (omega arith))

  pub write_channel-half :
      (c n : ℕ) (f : ℕ → ℕ) (b : Buffer)
      → num_samples b ≡ n * 2
      → c < num_channels b
      → Filled c 0 (n * 2) (λ k. from_int16 (f (k / 2))) b (write_channel P c 2 (tabulate f 0 n) b)
  unfolding write_channel
  write_channel-half c n f b e h =
      Filled-end (omega arith) (write_upsampled-Filled c f 0 n b h (omega arith))
