-- ===== src/Playout/Bounds.antt =====
-- The array of markers is large enough: no block drops a marker.
use jammer_netz.Base.{
  ℕ, ◌+◌, ◌*◌, ◌≡◌, ◌<◌, ◌≤◌, refl, sym, ◌∙◌, Bool, true, false, not, ◌&&◌, List, [], ◌∷◌, ◌++◌,
  leb, ltb, ◌==◌, if◌then◌else◌, length, arith, length-append, Bool-cases, inl, inr, ltb→lt, ltb→le,
  All,
}
use jammer_netz.Platform.{Platform}
use jammer_netz.Package.{sample_buffer_size}
use jammer_netz.Receive.{RemoteAudioFrame, Worker}
use jammer_netz.RingBuffers.{RingBuffers, RingBufferLaws}
use jammer_netz.Playout.{
  Marker, Playout, marker_of, max_timing_markers, max_callback_samples, append_playout_timing,
  schedule_midi_for_playout, reset_playout_state, take_frame, fill_playout, play_block,
  process_playout,
}
use jammer_netz.Playout.Refinement.{
  Queue, Implements, append_queue, schedule_queue, reset_queue, due_before, Implements-append,
  Implements-schedule, Implements-reset,
}

module _ (P : Platform) where
  -- Each marker stands one frame before the next, and the last one a frame before the end.
  unfoldable pub Spaced : ℕ → List (Marker P) → Type 0
  Spaced end' [] = Unit
  Spaced end' (m ∷ ms) =
      (m.playout_sample + sample_buffer_size * length (m ∷ ms) ≡ end') × Spaced end' ms

  Spaced-append :
      (m : Marker P) (end' : ℕ) (ms : List (Marker P))
      → m.playout_sample ≡ end'
      → Spaced end' ms
      → Spaced (end' + sample_buffer_size) (ms ++ m ∷ [])
  unfolding Spaced
  Spaced-append m end' [] e s = (omega arith, tt)
  Spaced-append m end' (m' ∷ ms) e s =
      (omega (arith, s.0, length-append ms (m ∷ [])), Spaced-append m end' ms e s.1)

  -- The markers that stay are spaced, and fit between the end of the block and the end.
  Spaced-due_before :
      (sender : Bool) (read read_end end' : ℕ) (ms : List (Marker P))
      → read_end ≤ end'
      → Spaced end' ms
      → Spaced end' (due_before P sender read read_end ms).1
        × (read_end + sample_buffer_size * length (due_before P sender read read_end ms).1 ≤ end')
  unfolding Spaced due_before
  Spaced-due_before sender read read_end end' [] h s = (tt, omega arith)
  Spaced-due_before sender read read_end end' (m ∷ ms) h s =
      let (s', h') = Spaced-due_before sender read read_end end' ms h s.1 in
      elim (Bool-cases (ltb m.playout_sample read_end)) [
        | inl e ↦ rw e (s', h')
        | inr e ↦ rw e (s, omega (arith, s.0, ltb→le m.playout_sample read_end e))
      ]

  module _ (R : RingBuffers P) where
    open R use {num_ready, free_space}

    -- The markers of a play-out lie in the samples that are ready, which leave room for a block and
    -- a frame.
    pub record IsBalanced (p : Playout P R) : Type 0 where
      pub queue : Queue P
      pub held : Implements P p.timing queue
      pub spaced : Spaced queue.written queue.waiting
      pub counted : queue.written ≡ queue.read + num_ready p.buffer
      pub few : sample_buffer_size * length queue.waiting ≤ num_ready p.buffer
      pub room :
          max_callback_samples + sample_buffer_size ≤ num_ready p.buffer + free_space p.buffer

    -- A play-out that keeps its markers' balance, with as many markers dropped as before.
    abbrev pub KeepsBalance : (p p' : Playout P R) → IsBalanced p → Type 0
    KeepsBalance p p' b = (b' : IsBalanced p') × (b'.queue.dropped ≡ b.queue.dropped)

    -- A block of the callback, with what the other threads have left for it.
    pub record Block : Type 0 where
      pub reset_requested : Bool
      pub sender : Bool
      pub generation : ℕ
      pub samples : ℕ
      pub worker : Worker P

    -- The play-out after a list of blocks.
    pub play_all : List Block → Playout P R → Playout P R
    play_all [] p = p
    play_all (k ∷ ks) p =
        play_all ks
          (process_playout P R k.reset_requested k.sender k.generation k.samples k.worker p).playout

    module _ (L : RingBufferLaws P R) where
      take_frame-IsBalanced :
          (f : RemoteAudioFrame P) (p : Playout P R)
          → num_ready p.buffer < max_callback_samples
          → (b : IsBalanced p)
          → (b' : IsBalanced (take_frame P R f p)) × (b'.queue.dropped ≡ b.queue.dropped)
      unfolding take_frame append_queue
      take_frame-IsBalanced f p h b =
          let s = f.left_samples ∷ f.right_samples ∷ [] in
          let fits : sample_buffer_size ≤ free_space p.buffer = omega (arith, b.room, h) in
          let ready = L.write_ready p.buffer s sample_buffer_size fits in
          let free = L.write_room p.buffer s sample_buffer_size fits in
          let m : Marker P = marker_of P f b.queue.written in
          let long = length-append b.queue.waiting (m ∷ []) in
          let not_full : (length b.queue.waiting == max_timing_markers) ≡ false =
            ground (arith, b.few, h) in
          let held : Implements P (append_playout_timing P f p.timing) (record b.queue {
            waiting = b.queue.waiting ++ m ∷ [];
            written = b.queue.written + sample_buffer_size;
          }) =
            rw not_full at (Implements-append P f p.timing b.queue b.held) in
          (
            record {
              queue = record b.queue {
                waiting = b.queue.waiting ++ m ∷ [];
                written = b.queue.written + sample_buffer_size;
              };
              held = held;
              spaced = Spaced-append m b.queue.written b.queue.waiting refl b.spaced;
              counted = omega (arith, b.counted, ready);
              few = omega (arith, b.few, ready, long);
              room = omega (arith, b.room, ready, free);
            },
            refl,
          )

      reset-IsBalanced :
          (p : Playout P R)
          → (b : IsBalanced p)
          → (b' : IsBalanced (reset_playout_state P R p)) × (b'.queue.dropped ≡ b.queue.dropped)
      unfolding reset_playout_state reset_queue Spaced
      reset-IsBalanced p b =
          let ready = L.clear_ready p.buffer in
          (
            record {
              queue = reset_queue P b.queue;
              held = Implements-reset P p.timing b.queue b.held;
              spaced = tt;
              counted = omega (arith, ready);
              few = omega arith;
              room = omega (arith, b.room, ready, L.clear_room p.buffer);
            },
            refl,
          )

      fill_playout-IsBalanced :
          (n generation : ℕ) (frames : List (RemoteAudioFrame P)) (p : Playout P R)
          → n ≤ max_callback_samples
          → (b : IsBalanced p) → KeepsBalance p (fill_playout P R n generation frames p).1 b
      unfolding fill_playout
      fill_playout-IsBalanced n generation [] p h b = (b, refl)
      fill_playout-IsBalanced n generation (f ∷ frames) p h b =
          elim (Bool-cases (ltb (num_ready p.buffer) n)) [
            | inr e ↦ rw e (b, refl)
            | inl e ↦ elim (Bool-cases (f.generation == generation)) [
              | inr g ↦ rw (e, g) (fill_playout-IsBalanced n generation frames p h b)
              | inl g ↦
                  let lt = ltb→lt (num_ready p.buffer) n e in
                  let (b', d) = take_frame-IsBalanced f p (omega (arith, lt, h)) b in
                  let (b'', d') =
                    fill_playout-IsBalanced n generation frames (take_frame P R f p) h b' in
                  rw (e, g) (b'', d' ∙ d)
            ]
          ]

      -- A block that is played.
      played-IsBalanced :
          (sender : Bool) (n : ℕ) (p : Playout P R) (playing : Bool)
          → n ≤ num_ready p.buffer
          → (b : IsBalanced p)
          → KeepsBalance p
              (record p {
                buffer = (R.read p.buffer n).1;
                timing = (schedule_midi_for_playout P sender n p.timing).1;
                is_playing = playing;
              })
              b
      unfolding schedule_queue
      played-IsBalanced sender n p playing h b =
          let q = b.queue in
          let ready = L.read_ready p.buffer n h in
          let free = L.read_room p.buffer n h in
          let (due, held) = Implements-schedule P sender n p.timing q b.held in
          let (spaced, few) =
            Spaced-due_before sender q.read (q.read + n) q.written q.waiting
              (omega (arith, b.counted, h)) b.spaced in
          (
            record {
              queue = (schedule_queue P sender n q).1;
              held = held;
              spaced = spaced;
              counted = omega (arith, b.counted, ready);
              few = omega (arith, few, b.counted, ready);
              room = omega (arith, b.room, ready, free);
            },
            refl,
          )

      flags-IsBalanced :
          (p : Playout P R) (playing : Bool) (underruns : ℕ)
          → (b : IsBalanced p)
          → KeepsBalance p (record p { is_playing = playing; underruns = underruns }) b
      flags-IsBalanced p playing underruns b = (
        record {
          queue = b.queue;
          held = b.held;
          spaced = b.spaced;
          counted = b.counted;
          few = b.few;
          room = b.room;
        },
        refl,
      )

      play_block-IsBalanced :
          (sender : Bool) (n : ℕ) (w : Worker P) (p : Playout P R)
          → (b : IsBalanced p) → KeepsBalance p (play_block P R sender n w p).playout b
      unfolding play_block
      play_block-IsBalanced sender n w p b =
          let playing =
            if not p.is_playing && leb n (num_ready p.buffer) then true else p.is_playing in
          elim (Bool-cases playing) [
            | inr e ↦ rw e (flags-IsBalanced p false p.underruns b)
            | inl e ↦ elim (Bool-cases (ltb (num_ready p.buffer) n)) [
              | inl g ↦
                  let (b', d) = flags-IsBalanced p false (p.underruns + 1) b in
                  let (b'', d') = reset-IsBalanced _ b' in rw (e, g) (b'', d' ∙ d)
              | inr g ↦
                  rw (e, g) (played-IsBalanced sender n p true (ltb→le (num_ready p.buffer) n g) b)
            ]
          ]

      pub process_playout-IsBalanced :
          (reset_requested sender : Bool) (generation n : ℕ) (w : Worker P) (p : Playout P R)
          → n ≤ max_callback_samples
          → (b : IsBalanced p)
          → KeepsBalance p (process_playout P R reset_requested sender generation n w p).playout b
      unfolding process_playout
      process_playout-IsBalanced true sender generation n w p h b =
          let (b', d) = reset-IsBalanced p b in
          let p' = record (reset_playout_state P R p) { is_playing = false } in
          let (b'', d') = flags-IsBalanced (reset_playout_state P R p) false p'.underruns b' in
          let (b3, d3) = fill_playout-IsBalanced n generation w.output_queue p' h b'' in
          let (b4, d4) = play_block-IsBalanced sender n _ _ b3 in (b4, d4 ∙ d3 ∙ d' ∙ d)
      process_playout-IsBalanced false sender generation n w p h b =
          let (b3, d3) = fill_playout-IsBalanced n generation w.output_queue p h b in
          let (b4, d4) = play_block-IsBalanced sender n _ _ b3 in (b4, d4 ∙ d3)

      play_all-IsBalanced :
          (ks : List Block) (p : Playout P R)
          → All (λ k. k.samples ≤ max_callback_samples) ks
          → (b : IsBalanced p) → KeepsBalance p (play_all ks p) b
      unfolding play_all
      play_all-IsBalanced [] p h b = (b, refl)
      play_all-IsBalanced (k ∷ ks) p h b =
          let (b', d) =
            process_playout-IsBalanced k.reset_requested k.sender k.generation k.samples k.worker p
              h.0 b in
          let (b'', d') = play_all-IsBalanced ks _ h.1 b' in (b'', d' ∙ d)

      -- No list of blocks of at most 8192 samples each, which is what the callback splits its samples
      -- into, ever drops a timing marker, whatever the other threads leave for the blocks and whenever
      -- they reset the play-out, if it starts balanced.
      pub play_all-markers_dropped :
          (ks : List Block) (p : Playout P R)
          → All (λ k. k.samples ≤ max_callback_samples) ks
          → IsBalanced p
          → (play_all ks p).timing.markers_dropped ≡ p.timing.markers_dropped
      play_all-markers_dropped ks p h b =
          let (b', d) = play_all-IsBalanced ks p h b in b'.held.dropped ∙ d ∙ sym b.held.dropped
