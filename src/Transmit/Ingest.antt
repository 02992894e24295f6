-- ===== src/Transmit/Ingest.antt =====
-- The loop that hands the ring buffer's samples over in frames.
use jammer_netz.Base.{
  ℕ, zero, suc, ◌+◌, ◌/◌, ◌%◌, ◌≡◌, ◌≤◌, ◌<◌, ◌⊎◌, inl, inr, refl, true, false, ◌||◌, List, ltb,
  leb, ◌==◌, length, length-append, add64, u64_mod, arith, Bool-cases, ltb→lt, ltb→le, leb→le,
}
use jammer_netz.Platform.{Platform}
use jammer_netz.RingBuffers.{RingBuffers, RingBufferLaws}
use jammer_netz.Package.{sample_buffer_size}
use jammer_netz.Transmit.{
  Transmitter, Input, transmit_capacity, max_audio_channels, enqueue_from, ingest_frame,
  ingest_frames, ingest,
}

module _ (P : Platform) (R : RingBuffers P) where
  open R use {num_ready}

  -- The counters of the worker are 64 bit words, and its queue has kept to its capacity.
  pub record IsCounted (t : Transmitter P) : Type 0 where
    pub enqueued_word : t.enqueued < u64_mod
    pub dropped_word : t.dropped < u64_mod
    pub bounded : length t.queue ≤ transmit_capacity

  -- `taken` frames were queued and `refused` ones dropped, and a frame was dropped only when the
  -- queue was full.
  pub record Ingested (taken refused : ℕ) (i i' : Input P R) : Type 0 where
    pub left : num_ready i'.ingest_buffer ≡ num_ready i.ingest_buffer % sample_buffer_size
    pub all : taken + refused ≡ num_ready i.ingest_buffer / sample_buffer_size
    pub queued : length i'.transmitter.queue ≡ length i.transmitter.queue + taken
    pub full : (refused ≡ 0) ⊎ (length i'.transmitter.queue ≡ transmit_capacity)
    pub enqueued : i'.transmitter.enqueued ≡ (i.transmitter.enqueued + taken) % u64_mod
    pub dropped : i'.transmitter.dropped ≡ (i.transmitter.dropped + refused) % u64_mod
    pub counted : IsCounted i'.transmitter

  -- The result of the loop.
  pub Outcome : Input P R → Input P R → Type 0
  Outcome i i' = (taken : ℕ) × (refused : ℕ) × Ingested taken refused i i'

  module _ (L : RingBufferLaws P R) where
    taken-frame :
        (channels : ℕ) (i : Input P R)
        → 0 < channels
        → channels ≤ max_audio_channels
        → sample_buffer_size ≤ num_ready i.ingest_buffer
        → length i.transmitter.queue < transmit_capacity
        → IsCounted i.transmitter
        → (num_ready (ingest_frame P R channels i).ingest_buffer + sample_buffer_size
            ≡ num_ready i.ingest_buffer)
          × (length (ingest_frame P R channels i).transmitter.queue
              ≡ length i.transmitter.queue + 1)
          × ((ingest_frame P R channels i).transmitter.enqueued
              ≡ (i.transmitter.enqueued + 1) % u64_mod)
          × ((ingest_frame P R channels i).transmitter.dropped ≡ i.transmitter.dropped)
    unfolding ingest_frame enqueue_from add64
    taken-frame channels i h h' ready room c =
        let valid : (channels == 0 || ltb max_audio_channels channels) ≡ false = ground arith in
        let space : ltb (length i.transmitter.queue) transmit_capacity ≡ true = ground arith in
        rw (valid, space)
          (
            L.read_ready i.ingest_buffer sample_buffer_size ready,
            length-append i.transmitter.queue _,
            refl,
            refl,
          )

    refused-frame :
        (channels : ℕ) (i : Input P R)
        → sample_buffer_size ≤ num_ready i.ingest_buffer
        → length i.transmitter.queue ≡ transmit_capacity
        → (num_ready (ingest_frame P R channels i).ingest_buffer + sample_buffer_size
            ≡ num_ready i.ingest_buffer)
          × (length (ingest_frame P R channels i).transmitter.queue ≡ length i.transmitter.queue)
          × ((ingest_frame P R channels i).transmitter.enqueued ≡ i.transmitter.enqueued)
          × ((ingest_frame P R channels i).transmitter.dropped
              ≡ (i.transmitter.dropped + 1) % u64_mod)
    unfolding ingest_frame add64
    refused-frame channels i ready full =
        let space : ltb (length i.transmitter.queue) transmit_capacity ≡ false =
          ground (arith, full) in
        rw space (L.discard_ready i.ingest_buffer sample_buffer_size ready, refl, refl, refl)

    stop-Ingested :
        (i : Input P R)
        → num_ready i.ingest_buffer < sample_buffer_size
        → IsCounted i.transmitter
        → Ingested 0 0 i i
    stop-Ingested i h c = record {
      left = omega (arith, h);
      all = omega (arith, h);
      queued = omega arith;
      full = inl refl;
      enqueued = omega (arith, c.enqueued_word);
      dropped = omega (arith, c.dropped_word);
      counted = c;
    }

    taken-Ingested :
        (t r : ℕ) (i i1 i2 : Input P R)
        → num_ready i1.ingest_buffer + sample_buffer_size ≡ num_ready i.ingest_buffer
        → length i1.transmitter.queue ≡ length i.transmitter.queue + 1
        → i1.transmitter.enqueued ≡ (i.transmitter.enqueued + 1) % u64_mod
        → i1.transmitter.dropped ≡ i.transmitter.dropped
        → Ingested t r i1 i2
        → Ingested (t + 1) r i i2
    taken-Ingested t r i i1 i2 ready queue enqueued dropped g = record {
      left = omega (arith, g.left, ready);
      all = omega (arith, g.all, ready);
      queued = omega (arith, g.queued, queue);
      full = g.full;
      enqueued = omega (arith, g.enqueued, enqueued);
      dropped = omega (arith, g.dropped, dropped);
      counted = g.counted;
    }

    refused-Ingested :
        (t r : ℕ) (i i1 i2 : Input P R)
        → length i.transmitter.queue ≡ transmit_capacity
        → num_ready i1.ingest_buffer + sample_buffer_size ≡ num_ready i.ingest_buffer
        → length i1.transmitter.queue ≡ length i.transmitter.queue
        → i1.transmitter.enqueued ≡ i.transmitter.enqueued
        → i1.transmitter.dropped ≡ (i.transmitter.dropped + 1) % u64_mod
        → Ingested t r i1 i2
        → Ingested t (r + 1) i i2
    refused-Ingested t r i i1 i2 was_full ready queue enqueued dropped g = record {
      left = omega (arith, g.left, ready);
      all = omega (arith, g.all, ready);
      queued = omega (arith, g.queued, queue);
      full = inr (omega (arith, g.queued, queue, was_full, g.counted.bounded));
      enqueued = omega (arith, g.enqueued, enqueued);
      dropped = omega (arith, g.dropped, dropped);
      counted = g.counted;
    }

    ingest_frames-Outcome :
        (fuel channels : ℕ) (i : Input P R)
        → num_ready i.ingest_buffer / sample_buffer_size ≤ fuel
        → 0 < channels
        → channels ≤ max_audio_channels
        → IsCounted i.transmitter
        → Outcome i (ingest_frames P R fuel channels i)
    unfolding ingest_frames Outcome
    ingest_frames-Outcome zero channels i enough h h' c =
        (0, 0, stop-Ingested i (omega (arith, enough)) c)
    ingest_frames-Outcome (suc fuel) channels i enough h h' c =
        elim (Bool-cases (leb sample_buffer_size (num_ready i.ingest_buffer))) [
          | inr e ↦ rw e (0, 0, stop-Ingested i (ground (arith, e)) c)
          | inl e ↦
              let ready = leb→le sample_buffer_size (num_ready i.ingest_buffer) e in
              let i1 : Input P R = ingest_frame P R channels i in
              elim (Bool-cases (ltb (length i.transmitter.queue) transmit_capacity)) [
                | inl s ↦
                    let room = ltb→lt (length i.transmitter.queue) transmit_capacity s in
                    let (r1, q1, e1, d1) = taken-frame channels i h h' ready room c in
                    let c1 : IsCounted i1.transmitter = record {
                      enqueued_word = omega (arith, e1);
                      dropped_word = omega (arith, d1, c.dropped_word);
                      bounded = omega (arith, q1, room);
                    } in
                    let (t, r, g) =
                      ingest_frames-Outcome fuel channels i1 (omega (arith, enough, r1)) h h' c1 in
                    rw e (t + 1, r, taken-Ingested t r i i1 _ r1 q1 e1 d1 g)
                | inr s ↦
                    let full : length i.transmitter.queue ≡ transmit_capacity =
                      omega (
                        arith,
                        ltb→le (length i.transmitter.queue) transmit_capacity s,
                        c.bounded,
                      ) in
                    let (r1, q1, e1, d1) = refused-frame channels i ready full in
                    let c1 : IsCounted i1.transmitter = record {
                      enqueued_word = omega (arith, e1, c.enqueued_word);
                      dropped_word = omega (arith, d1);
                      bounded = omega (arith, q1, full);
                    } in
                    let (t, r, g) =
                      ingest_frames-Outcome fuel channels i1 (omega (arith, enough, r1)) h h' c1 in
                    rw e (t, r + 1, refused-Ingested t r i i1 _ full r1 q1 e1 d1 g)
              ]
        ]

    -- A block that fits into the ring buffer, on 1 to 64 channels, is handed over in whole frames: the
    -- loop ends with the samples that are left of the last frame, each frame is queued for the
    -- network or counted as dropped, and one is dropped only when the queue is full.
    pub ingest_lem :
        (channels n : ℕ) (samples : List (List P.Float)) (i : Input P R)
        → n ≤ R.free_space i.ingest_buffer
        → 0 < channels
        → channels ≤ max_audio_channels
        → IsCounted i.transmitter
        → Outcome
            (record i { ingest_buffer = R.write i.ingest_buffer samples n })
            (ingest P R channels n samples i)
    unfolding ingest
    ingest_lem channels n samples i fits h h' c =
        let e : leb n (R.free_space i.ingest_buffer) ≡ true = ground (arith, fits) in
        rw e (ingest_frames-Outcome _ channels _ (omega arith) h h' c)
