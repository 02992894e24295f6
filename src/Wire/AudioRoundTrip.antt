-- ===== src/Wire/AudioRoundTrip.antt =====
-- An audio message that is serialized and deserialized.
use jammer_netz.Base.{
  ℕ, ◌+◌, ◌*◌, ◌/◌, ◌%◌, ◌≡◌, ◌≢◌, ◌<◌, ◌≤◌, refl, sym, ap, subst, ◌∙◌, false, Option, none, some,
  List, [], ◌∷◌, ◌++◌, map, ltb, arith, length,
}
use mathlib.Core.List.{append-nil}
use jammer_netz.Platform.{Platform, BufferLaws}
use jammer_netz.Package.{
  AudioBlock, AudioData, ChannelSetup, SingleChannelSetup, BufferRef, Store, alloc, sample_rate_hz,
  channel_for,
}
use jammer_netz.Wire.{audio_type, BlockTable, got, Formats, FormatLaws}
use jammer_netz.Wire.Audio.{
  tabulate, channel_table, channel_samples, append_audio_buffer, serialize_audio_block,
  legacy_or_empty, fec_tables, audio_table, serialize_audio, read_channel, read_channel_setup,
  read_audio_block, read_audio_bytes, read_fec, read_blocks, read_audio, read_audio_table,
  upsample_rate, session_if_present,
}
use jammer_netz.Wire.Messages.{deserialize, read_message, audio_message}
use jammer_netz.Wire.Dispatch.{deserialize-headed}
use jammer_netz.Wire.Memory.{alloc-cell, alloc-other, alloc-next_ne}
use jammer_netz.Wire.Samples.{
  WriteLaws, read_audio_bytes-FilledAll, write_channel-all, write_channel-half,
}

module _ (P : Platform) where
  open P use {Float, Buffer, num_channels, num_samples, sample, to_int16, from_int16}

  -- The sizes fit the fields of the datagram, and the samples come in pairs.
  pub record IsSendable (b : Buffer) : Type 0 where
    pub few_channels : num_channels b < 256
    pub few_samples : num_samples b < 65536
    pub even : num_samples b % 2 ≡ 0

  -- The second buffer is as large as the first, and each of its samples is the 16 bit version of
  -- the first buffer's sample at `position`.
  pub record SameSound (position : ℕ → ℕ) (b b' : Buffer) : Type 0 where
    pub channels : num_channels b' ≡ num_channels b
    pub samples : num_samples b' ≡ num_samples b
    pub at :
        (c k : ℕ)
        → c < num_channels b
        → k < num_samples b
        → sample b' c k ≡ from_int16 (to_int16 (sample b c (position k)))

  -- The block as it arrives, in a buffer of the receiver.
  pub received_block : AudioBlock P → BufferRef → AudioBlock P
  received_block b r = record b {
    sample_rate = sample_rate_hz;
    channel_setup = record { local_monitoring = false; channels = b.channel_setup.channels };
    audio_buffer = r;
  }

  map-read_channel :
      (cs : List (SingleChannelSetup P)) → map (read_channel P) (map (channel_table P) cs) ≡ cs
  unfolding read_channel channel_table channel_for
  map-read_channel [] = refl
  map-read_channel (c ∷ cs) = ap (λ l. c ∷ l) (map-read_channel cs)

  -- What arrives of a FEC block, which takes the next buffer.
  abbrev pub received_fec : Option (AudioBlock P) → BufferRef → Option (AudioBlock P)
  received_fec none r = none
  received_fec (some f) r = some (received_block f r)

  -- The packet as it arrives, with its first buffer. It always has a legacy setup.
  pub received : AudioData P → BufferRef → AudioData P
  unfolding received_block
  received d r = record {
    audio_block = received_block d.audio_block r;
    fec_block = received_fec d.fec_block (r + 1);
    protocol_version = d.protocol_version;
    legacy_session = some (record {
      local_monitoring = false;
      channels = (legacy_or_empty P d.legacy_session).channels;
    });
  }

  abbrev pub IsSendableFec : Store P → Option (AudioBlock P) → Type 0
  IsSendableFec st none = Unit
  IsSendableFec st (some f) = IsSendable (st.cells f.audio_buffer)

  abbrev pub SameFec : Store P → Option (AudioBlock P) → Buffer → Type 0
  SameFec st none b' = Unit
  SameFec st (some f) b' = SameSound (λ k. k / 2 * 2) (st.cells f.audio_buffer) b'

  module _ (B : BufferLaws P) (W : WriteLaws P) where
    -- Both ways to send the samples, against both ways to read them.
    Sounds : ℕ → (ℕ → ℕ) → Buffer → Type 0
    Sounds rate position b =
        (b' : Buffer) × (read_audio_bytes P 0 rate (append_audio_buffer P b rate)
            (P.new_buffer (num_channels b % 256) (num_samples b % 65536 / rate * rate))
          ≡ got b')
        × SameSound position b b'

    Sounds-all : (b : Buffer) → IsSendable b → Sounds 1 (λ k. k) b
    unfolding Sounds append_audio_buffer channel_samples
    Sounds-all b s =
        let fresh : Buffer = P.new_buffer (num_channels b % 256) (num_samples b % 65536 / 1 * 1) in
        let few = s.few_channels in
        let short = s.few_samples in
        let as_wide : num_channels fresh ≡ num_channels b = B.new_channels _ _ ∙ omega arith in
        let as_long : num_samples fresh ≡ num_samples b = B.new_samples _ _ ∙ omega arith in
        let f : ℕ → ℕ → ℕ = λ c k. to_int16 (sample b c k) in
        let (b', read, all) =
          read_audio_bytes-FilledAll P W 1 (num_samples b) 0 (num_channels b)
            (λ c. tabulate (f c) 0 (num_samples b)) (λ c k. from_int16 (f c k)) fresh as_long
            (λ c b'' e h. write_channel-all P W c (num_samples b) (f c) b'' e h)
            (omega (arith, as_wide)) in
        (
          b',
          read,
          record {
            channels = all.channels ∙ as_wide;
            samples = all.samples ∙ as_long;
            at = λ c k h h'. ground (arith, all.at c k, h, h');
          },
        )

    Sounds-half : (b : Buffer) → IsSendable b → Sounds 2 (λ k. k / 2 * 2) b
    unfolding Sounds append_audio_buffer channel_samples
    Sounds-half b s =
        let fresh : Buffer = P.new_buffer (num_channels b % 256) (num_samples b % 65536 / 2 * 2) in
        let few = s.few_channels in
        let short = s.few_samples in
        let even = s.even in
        let as_wide : num_channels fresh ≡ num_channels b = B.new_channels _ _ ∙ omega arith in
        let as_long : num_samples fresh ≡ num_samples b = B.new_samples _ _ ∙ omega arith in
        let f : ℕ → ℕ → ℕ = λ c k. to_int16 (sample b c (k * 2)) in
        let n : ℕ = num_samples b / 2 in
        let (b', read, all) =
          read_audio_bytes-FilledAll P W 2 (n * 2) 0 (num_channels b) (λ c. tabulate (f c) 0 n)
            (λ c k. from_int16 (f c (k / 2))) fresh (as_long ∙ omega arith)
            (λ c b'' e h. write_channel-half P W c n (f c) b'' e h) (omega (arith, as_wide)) in
        (
          b',
          read,
          record {
            channels = all.channels ∙ as_wide;
            samples = all.samples ∙ as_long;
            at = λ c k h h'. ground (arith, all.at c k, h, h');
          },
        )

    -- A block that is sent with a reduction, and read into a store.
    read_audio_block-serialize_audio_block :
        (st st' : Store P) (b : AudioBlock P) (legacy : ChannelSetup P) (reduction : ℕ)
        (position : ℕ → ℕ)
        → upsample_rate (48000 / reduction) ≡ reduction
        → Sounds reduction position (st.cells b.audio_buffer)
        → (b' : Buffer) × (read_audio_block P
              (serialize_audio_block P st b sample_rate_hz reduction legacy)
              st'
            ≡ got (received_block b st'.next, (alloc P b' st').1))
          × SameSound position (st.cells b.audio_buffer) b'
    unfolding read_audio_block serialize_audio_block received_block Sounds alloc read_channel_setup
    read_audio_block-serialize_audio_block st st' b legacy reduction position e (b', read, same) =
        (b', rw (e, read, map-read_channel b.channel_setup.channels) refl, same)

    read_fec-fec_tables :
        (st st' : Store P) (fec : Option (AudioBlock P)) (legacy : ChannelSetup P)
        → IsSendableFec st fec
        → (st'' : Store P) × (read_fec P (fec_tables P st fec legacy) st'
            ≡ got (received_fec fec st'.next, st''))
          × ((r : BufferRef) → r ≢ st'.next → st''.cells r ≡ st'.cells r)
          × SameFec st fec (st''.cells st'.next)
    unfolding read_fec
    read_fec-fec_tables st st' none legacy h = (st', refl, λ r ne. refl, tt)
    read_fec-fec_tables st st' (some f) legacy h =
        let (b', read, same) =
          read_audio_block-serialize_audio_block st st' f legacy 2 _ (unfold upsample_rate in refl)
            (Sounds-half _ h) in
        (
          (alloc P b' st').1,
          rw read refl,
          λ r ne. alloc-other P b' st' r ne,
          subst (λ b. SameSound (λ k. k / 2 * 2) (st.cells f.audio_buffer) b)
              (sym (alloc-cell P b' st')) same,
        )

    read_blocks-got :
        (version : ℕ) (t : BlockTable P) (ts : List (BlockTable P)) (st st' : Store P)
        {st'' : Store P} {b : AudioBlock P} {fec : Option (AudioBlock P)}
        {legacy : Option (ChannelSetup P)}
        → session_if_present P t.all_channels ≡ legacy
        → read_audio_block P t st ≡ got (b, st')
        → read_fec P ts st' ≡ got (fec, st'')
        → read_blocks P version (t ∷ ts) st
          ≡ got (
            some (record {
              audio_block = b;
              fec_block = fec;
              protocol_version = version;
              legacy_session = legacy;
            }),
            st'',
          )
    unfolding read_blocks
    read_blocks-got version t ts st st' e e' e'' = rw (e', e'', e) refl

    legacy-same :
        (st : Store P) (b : AudioBlock P) (legacy : ChannelSetup P)
        → session_if_present P (serialize_audio_block P st b sample_rate_hz 1 legacy).all_channels
          ≡ some (record { local_monitoring = false; channels = legacy.channels })
    unfolding serialize_audio_block read_channel_setup
    legacy-same st b legacy = rw (map-read_channel legacy.channels) refl

    read_blocks-audio_table :
        (st st' : Store P) (d : AudioData P)
        → IsSendable (st.cells d.audio_block.audio_buffer)
        → IsSendableFec st d.fec_block
        → (st'' : Store P) × (read_blocks P d.protocol_version
              (serialize_audio_block P st d.audio_block sample_rate_hz 1
                  (legacy_or_empty P d.legacy_session)
                ∷ fec_tables P st d.fec_block (legacy_or_empty P d.legacy_session))
              st'
            ≡ got (some (received d st'.next), st''))
          × SameSound (λ k. k) (st.cells d.audio_block.audio_buffer) (st''.cells st'.next)
          × SameFec st d.fec_block (st''.cells (st'.next + 1))
    unfolding received alloc
    read_blocks-audio_table st st' d h h' =
        let legacy = legacy_or_empty P d.legacy_session in
        let (b', read, same) =
          read_audio_block-serialize_audio_block st st' d.audio_block legacy 1 (λ k. k)
            (unfold upsample_rate in refl) (Sounds-all _ h) in
        let (st'', read', kept, same') =
          read_fec-fec_tables st (alloc P b' st').1 d.fec_block legacy h' in
        (
          st'',
          read_blocks-got d.protocol_version
              (serialize_audio_block P st d.audio_block sample_rate_hz 1 legacy)
              (fec_tables P st d.fec_block legacy) st' (alloc P b' st').1
              (legacy-same st d.audio_block legacy) read read',
          subst (λ b. SameSound (λ k. k) (st.cells d.audio_block.audio_buffer) b)
              (sym (kept st'.next (alloc-next_ne P b' st') ∙ alloc-cell P b' st')) same,
          same',
        )

    module _ (F : Formats P) (L : FormatLaws P F) where
      -- A packet that is serialized and deserialized, with any memory after the datagram, arrives
      -- with its version, and its block with its counter, times, tempo, MIDI command and channels,
      -- but not as it was sent throughout: the flag for local monitoring is off, the sample rate is
      -- 48000, and the session setup is there in any case, empty if none was sent. The block arrives
      -- in a new buffer with its samples as 16 bit values. A FEC block arrives likewise in the next
      -- buffer, each second one of its samples in place of two. The buffers have an even number of
      -- samples and fit the fields of the datagram, which has the size of the reader's table at least.
      pub deserialize-serialize_audio :
          (st st' : Store P) (d : AudioData P) (more : List ℕ)
          → IsSendable (st.cells d.audio_block.audio_buffer)
          → IsSendableFec st d.fec_block
          → F.audio_header_size ≤ length (serialize_audio P F st d)
          → (st'' : Store P) × (deserialize P F
                (serialize_audio P F st d ++ more)
                (length (serialize_audio P F st d))
                st'
              ≡ got (audio_message (some (received d st'.next)), st''))
            × SameSound (λ k. k) (st.cells d.audio_block.audio_buffer) (st''.cells st'.next)
            × SameFec st d.fec_block (st''.cells (st'.next + 1))
      unfolding serialize_audio read_audio read_audio_table audio_table read_message
      deserialize-serialize_audio st st' d more h h' long =
          let (st'', read, same, same') = read_blocks-audio_table st st' d h h' in
          let body = F.encode_audio (audio_table P st d) in
          let whole = L.audio_back (audio_table P st d) [] in
          let here : F.decode_audio body ≡ some (audio_table P st d) =
            rw (append-nil body) at whole in
          let e : ltb (4 + length body) F.audio_header_size ≡ false = ground (arith, long) in
          (
            st'',
            deserialize-headed P F audio_type body more st' ∙ rw (e, here, read) refl,
            same,
            same',
          )
