-- ===== src/Package/FillIn.antt =====
-- The packets that stand in for missing ones: `createFillInPackage`.
use jammer_netz.Base.{
  ℕ, ◌-◌, ◌*◌, ◌/◌, ◌≤◌, ◌<◌, ◌≡◌, refl, ◌∙◌, inl, inr, Bool, true, false, if◌then◌else◌, Option,
  none, some, arith, ap, Bool-cases, ◌==◌,
}
use jammer_netz.Platform.{Platform}
use jammer_netz.Package.{
  midi_none, AudioBlock, AudioData, Store, counter, repeated_block, create_fill_in_package,
  fill_in_from, u64_max,
}

module _ (P : Platform) where
  open P use {num_samples}

  pub counter-create_fill_in_package :
      (st : Store P) (d : AudioData P) (n : ℕ) → counter P (create_fill_in_package P st d n).1 ≡ n
  unfolding create_fill_in_package repeated_block
  counter-create_fill_in_package st d n = ground arith

  div_bound : (s f m : ℕ) → 0 < f → m / f < s → m < s * f
  div_bound s f m h k = grind arith

  le_of_div : (s f m : ℕ) → 0 < f → s ≤ m / f → s * f ≤ m
  le_of_div s f m h k = grind arith

  -- The overflow guard of the server time has no effect on a 64-bit server time: the end sample of
  -- the missing packet is that of the source less the samples in between, and 0 at least.
  pub server_time-repeated_block :
      (st : Store P) (b : AudioBlock P) (n : ℕ)
      → n < b.message_counter
      → b.server_time ≤ u64_max
      → (repeated_block P st b n).server_time
        ≡ b.server_time - num_samples (st.cells b.audio_buffer) * (b.message_counter - n)
  unfolding repeated_block
  server_time-repeated_block st b n h k = ground (
    arith,
    div_bound samples (b.message_counter - n) u64_max (omega arith),
    le_of_div samples (b.message_counter - n) u64_max (omega arith),
  )
    where
      samples : ℕ
      samples = num_samples (st.cells b.audio_buffer)

  -- The FEC block of a packet, if it is the one numbered `n`.
  abbrev pub fec_for : ℕ → Option (AudioBlock P) → Option (AudioBlock P)
  fec_for n none = none
  fec_for n (some f) = if f.message_counter == n then some f else none

  -- The packet `e` repeats the block of `d` as the one numbered `n`: its last sample lies as many
  -- samples before that of `d` as the packets in between have, but not before 0.
  pub record IsRepeated (st : Store P) (d : AudioData P) (n : ℕ) (e : AudioData P) : Type 0 where
    pub time : e.audio_block.timestamp ≡ d.audio_block.timestamp
    pub server_end :
        e.audio_block.server_time
        ≡ d.audio_block.server_time
          - num_samples (st.cells d.audio_block.audio_buffer) * (counter P d - n)
    pub tempo : e.audio_block.bpm ≡ d.audio_block.bpm
    pub signal : e.audio_block.midi_signal ≡ midi_none
    pub rate : e.audio_block.sample_rate ≡ d.audio_block.sample_rate
    pub channels : e.audio_block.channel_setup ≡ d.audio_block.channel_setup
    pub buffer : e.audio_block.audio_buffer ≡ d.audio_block.audio_buffer

  -- The two ways to stand for the packet numbered `n`, by the FEC block of that number.
  abbrev pub Stands :
      Store P → AudioData P → ℕ → Option (AudioBlock P) → Bool → AudioData P → Type 0
  Stands st d n none had_fec e = (had_fec ≡ false) × IsRepeated st d n e
  Stands st d n (some f) had_fec e = (had_fec ≡ true) × (e.audio_block ≡ f)

  repeated_lem :
      (st : Store P) (d : AudioData P) (n : ℕ) (e : AudioData P)
      → n < counter P d
      → d.audio_block.server_time ≤ u64_max
      → e.audio_block ≡ repeated_block P st d.audio_block n
      → IsRepeated st d n e
  repeated_lem st d n e h k r =
      let time = ap (λ b. b.server_time) r ∙ server_time-repeated_block st d.audio_block n h k in
      unfold repeated_block in
      record {
        time = ap (λ b. b.timestamp) r;
        server_end = time;
        tempo = ap (λ b. b.bpm) r;
        signal = ap (λ b. b.midi_signal) r;
        rate = ap (λ b. b.sample_rate) r;
        channels = ap (λ b. b.channel_setup) r;
        buffer = ap (λ b. b.audio_buffer) r;
      }

  fill_in_from_lem :
      (st : Store P) (d : AudioData P) (n : ℕ) (fec : Option (AudioBlock P))
      → n < counter P d
      → d.audio_block.server_time ≤ u64_max
      → let (had_fec, e) = fill_in_from P st d n fec in Stands st d n (fec_for n fec) had_fec e
  unfolding fill_in_from
  fill_in_from_lem st d n none h k = (refl, repeated_lem st d n _ h k refl)
  fill_in_from_lem st d n (some f) h k = elim (Bool-cases (f.message_counter == n)) [
    | inl e ↦ rw e (refl, ground arith)
    | inr e ↦ rw e (refl, repeated_lem st d n _ h k refl)
  ]

  buffer-fill_in_from :
      (st : Store P) (d : AudioData P) (n : ℕ) (fec : Option (AudioBlock P))
      → (fill_in_from P st d n fec).0 ≡ false
      → (fill_in_from P st d n fec).1.audio_block.audio_buffer ≡ d.audio_block.audio_buffer
  unfolding fill_in_from repeated_block
  buffer-fill_in_from st d n none h = refl
  buffer-fill_in_from st d n (some f) h = ground (arith, h)

  -- A packet that is repeated shares its sample buffer.
  pub buffer-create_fill_in_package :
      (st : Store P) (d : AudioData P) (n : ℕ)
      → (create_fill_in_package P st d n).0 ≡ false
      → (create_fill_in_package P st d n).1.audio_block.audio_buffer ≡ d.audio_block.audio_buffer
  unfolding create_fill_in_package
  buffer-create_fill_in_package st d n h = buffer-fill_in_from st d n d.fec_block h

  -- The packet that stands for an earlier one, numbered `n`, has that number and no FEC block, and
  -- keeps the protocol version and the session setup of its source. It is the FEC block of the
  -- source exactly when that block has the number `n`; else it repeats the source: its time stamp,
  -- tempo, rate, channels and sample buffer, with no MIDI command and the end sample of the server
  -- set back by the samples in between, to 0 at least. The server's sample of the source fits 64
  -- bits.
  pub create_fill_in_package_lem :
      (st : Store P) (d : AudioData P) (n : ℕ)
      → n < counter P d
      → d.audio_block.server_time ≤ u64_max
      → let (had_fec, e) = create_fill_in_package P st d n in
        (counter P e ≡ n)
        × (e.fec_block ≡ none)
        × (e.protocol_version ≡ d.protocol_version)
        × (e.legacy_session ≡ d.legacy_session)
        × Stands st d n (fec_for n d.fec_block) had_fec e
  unfolding create_fill_in_package repeated_block
  create_fill_in_package_lem st d n h k = (
    counter-create_fill_in_package st d n,
    ground arith,
    ground arith,
    ground arith,
    fill_in_from_lem st d n d.fec_block h k,
  )
