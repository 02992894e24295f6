-- ===== src/Mixer/Routes.antt =====
-- Which receiver hears which channel.
use jammer_netz.Base.{
  ℕ, zero, suc, ◌+◌, ◌≡◌, ◌≢◌, refl, ◌∙◌, ◌⊎◌, inl, inr, Bool, true, not, ◌||◌, ◌&&◌, List, [], ◌∷◌,
  ◌++◌, ◌==◌, if◌then◌else◌, arith, length, take, min, All, Bool-cases,
}
use jammer_netz.Platform.{Platform}
use jammer_netz.Package.{
  SingleChannelSetup, AudioData, Store, left, right, mono, send_mono, send_left, send_right,
}
use jammer_netz.Mixer.{
  Diagnostic, wrong_buffer_size, mix_channel, mix_channels, buffer_mixdown, empty_diagnostics,
}

-- The targets by what they mean.
abbrev pub goes_left : ℕ → Bool
goes_left t = t == left || (t == mono || (t == send_left || t == send_mono))

abbrev pub goes_right : ℕ → Bool
goes_right t = t == right || (t == mono || (t == send_right || t == send_mono))

abbrev pub is_send_only : ℕ → Bool
is_send_only t = t == send_mono || (t == send_left || t == send_right)

-- A receiver does not hear its own channels if it monitors them locally, nor those that it only
-- sends.
abbrev pub hears : Bool → Bool → ℕ → Bool
hears is_for_sender local_monitoring t = not (is_for_sender && (local_monitoring || is_send_only t))

module _ (P : Platform) where
  open P use {Buffer, add_from, num_channels, num_samples}

  abbrev add_if : Bool → Buffer → ℕ → Buffer → ℕ → SingleChannelSetup P → Buffer
  add_if b output side audio channel setup =
      if b then add_from output side audio channel setup.volume else output

  -- The channels from an index on, routed by the meaning of their targets.
  abbrev pub route : Bool → Bool → ℕ → List (SingleChannelSetup P) → Buffer → Buffer → Buffer
  route is_for_sender local_monitoring channel [] audio output = output
  route is_for_sender local_monitoring channel (setup ∷ rest) audio output =
      let h = hears is_for_sender local_monitoring setup.target in
      let with_left = add_if (h && goes_left setup.target) output 0 audio channel setup in
      let with_right = add_if (h && goes_right setup.target) with_left 1 audio channel setup in
      route is_for_sender local_monitoring (channel + 1) rest audio with_right

  mix_channel_lem :
      (s lm : Bool) (channel : ℕ) (setup : SingleChannelSetup P) (audio output : Buffer)
      → mix_channel P s (not lm) channel setup audio output ≡ (
          let h = hears s lm setup.target in
          add_if
            (h && goes_right setup.target)
            (add_if (h && goes_left setup.target) output 0 audio channel setup)
            1
            audio
            channel
            setup)
  unfolding mix_channel
  mix_channel_lem s lm channel setup audio output = ground arith

  mix_channels-eq-route :
      (s lm : Bool) (channel : ℕ) (setups : List (SingleChannelSetup P)) (audio output : Buffer)
      → mix_channels P s (not lm) channel setups audio output
        ≡ route s lm channel setups audio output
  unfolding mix_channels
  mix_channels-eq-route s lm channel [] audio output = refl
  mix_channels-eq-route s lm channel (setup ∷ rest) audio output =
      rw (mix_channel_lem s lm channel setup audio output)
        (mix_channels-eq-route s lm (channel + 1) rest audio _)

  route_silent :
      (lm : Bool) (channel : ℕ) (setups : List (SingleChannelSetup P)) (audio output : Buffer)
      → All (λ s. (lm || is_send_only s.target) ≡ true) setups
      → route true lm channel setups audio output ≡ output
  route_silent lm channel [] audio output h = refl
  route_silent lm channel (setup ∷ rest) audio output h =
      rw h.0 (route_silent lm (channel + 1) rest audio output h.1)

  All-take :
      (Q : SingleChannelSetup P → Type 0) (n : ℕ) (setups : List (SingleChannelSetup P))
      → All Q setups
      → All Q (take n setups)
  All-take Q zero setups h = tt
  All-take Q (suc n) [] h = tt
  All-take Q (suc n) (s ∷ ss) h = (h.0, All-take Q n ss h.1)

  -- A client whose buffer has the length of the mix is routed by what its targets mean, as many
  -- channels as both its audio and its setup have. A client with a buffer of another length leaves
  -- the mix as it is, and the last diagnostic says so.
  pub buffer_mixdown-eq-route :
      (st : Store P) (output : Buffer) (d : AudioData P) (is_for_sender : Bool)
      (diagnostics : List Diagnostic)
      → let audio = st.cells d.audio_block.audio_buffer in
        let setup = d.audio_block.channel_setup in
        let (mixed, reported) = buffer_mixdown P st output d is_for_sender diagnostics in
        ((num_samples audio ≡ num_samples output)
          × (mixed
              ≡ route is_for_sender setup.local_monitoring 0
                  (take (min (num_channels audio) (length setup.channels)) setup.channels)
                  audio
                  output))
        ⊎ ((num_samples audio ≢ num_samples output)
            × (mixed ≡ output)
            × ((before : List Diagnostic) × (reported
                  ≡ before ++ wrong_buffer_size (num_samples audio) (num_samples output) ∷ [])))
  unfolding buffer_mixdown
  buffer_mixdown-eq-route st output d s diagnostics =
      elim (Bool-cases (num_samples (st.cells d.audio_block.audio_buffer) == num_samples output)) [
        | inl e ↦ inl (ground arith, rw e (mix_channels-eq-route s _ 0 _ _ output))
        | inr e ↦ inr (ground arith, rw e refl, (before, rw e refl))
      ]
    where
      before : List Diagnostic
      before = diagnostics ++ empty_diagnostics P (st.cells d.audio_block.audio_buffer)

  -- A sender that monitors itself locally, or whose channels are all send-only, is not in the mix
  -- that it gets back.
  pub buffer_mixdown-no_echo :
      (st : Store P) (output : Buffer) (d : AudioData P) (diagnostics : List Diagnostic)
      → All
          (λ s. (d.audio_block.channel_setup.local_monitoring || is_send_only s.target) ≡ true)
          d.audio_block.channel_setup.channels
      → (buffer_mixdown P st output d true diagnostics).0 ≡ output
  unfolding buffer_mixdown
  buffer_mixdown-no_echo st output d diagnostics h =
      elim (Bool-cases (num_samples (st.cells d.audio_block.audio_buffer) == num_samples output)) [
        | inl e ↦ rw e (
            mix_channels-eq-route true d.audio_block.channel_setup.local_monitoring 0 mixed audio
              output
            ∙ route_silent d.audio_block.channel_setup.local_monitoring 0 mixed audio output (
                All-take _ (min (num_channels audio) (length d.audio_block.channel_setup.channels))
                  d.audio_block.channel_setup.channels h))
        | inr e ↦ rw e
      ]
    where
      audio : Buffer
      audio = st.cells d.audio_block.audio_buffer

      mixed : List (SingleChannelSetup P)
      mixed =
          take (min (num_channels audio) (length d.audio_block.channel_setup.channels))
            d.audio_block.channel_setup.channels
