-- ===== src/Playout/Refinement.antt =====
-- A first-in, first-out queue of markers that holds 1025 of them, and the circular array that
-- implements it.
use jammer_netz.Base.{
  ℕ, ◌+◌, ◌-◌, ◌≡◌, ◌<◌, refl, sym, ap, subst, ◌∙◌, Bool, true, false, List, [], ◌∷◌, ◌++◌, leb,
  ltb, ◌==◌, if◌then◌else◌, length, length-replicate, arith, add64, Bool-cases, inl, inr,
}
use jammer_netz.Platform.{Platform}
use jammer_netz.Package.{sample_buffer_size}
use jammer_netz.Receive.{RemoteAudioFrame}
use jammer_netz.Playout.{
  Marker, Timing, Due, blank_marker, marker_of, max_timing_markers, append_playout_timing, take_due,
  schedule_midi_for_playout, reset_timing, new_timing,
}
use jammer_netz.Playout.Representation.{
  Represents, appended, removed, Represents-appended, Represents-front, Represents-removed,
  Represents-counts,
}

module _ (P : Platform) where
  -- The queue, and the counts that the array's owner keeps.
  pub record Queue : Type 0 where
    pub waiting : List (Marker P)
    pub written : ℕ
    pub read : ℕ
    pub dropped : ℕ

  pub data Operation : Type 0 where
    append : RemoteAudioFrame P → Operation
    schedule : Bool → ℕ → Operation
    reset : Operation

  unfoldable pub append_queue : RemoteAudioFrame P → Queue → Queue
  append_queue f q =
      if length q.waiting == max_timing_markers
      then record q { dropped = add64 q.dropped 1; written = q.written + sample_buffer_size }
      else record q {
        waiting = q.waiting ++ marker_of P f q.written ∷ [];
        written = q.written + sample_buffer_size;
      }

  -- The markers in front that lie before an end, with their offsets, and those that stay.
  unfoldable pub due_before : Bool → ℕ → ℕ → List (Marker P) → List (Due P) × List (Marker P)
  due_before sender read read_end [] = ([], [])
  due_before sender read read_end (m ∷ ms) =
      let (due, rest) = due_before sender read read_end ms in
      if ltb m.playout_sample read_end
      then (
        (if sender
            then record { marker = m; frame_offset = m.playout_sample - read } ∷ due
            else []),
        rest,
      )
      else ([], m ∷ ms)

  unfoldable pub schedule_queue : Bool → ℕ → Queue → List (Due P) × Queue
  unfolding due_before
  schedule_queue sender n q =
      let (due, rest) = due_before sender q.read (q.read + n) q.waiting in
      (due, record q { waiting = rest; read = q.read + n })

  unfoldable pub reset_queue : Queue → Queue
  reset_queue q = record q { waiting = []; written = 0; read = 0 }

  -- The markers that a list of operations gives out, and the state after it.
  pub run_queue : List Operation → Queue → List (Due P) × Queue
  unfolding append_queue schedule_queue reset_queue
  run_queue [] q = ([], q)
  run_queue (append f ∷ ops) q = run_queue ops (append_queue f q)
  run_queue (schedule sender n ∷ ops) q =
      let (due, q') = schedule_queue sender n q in
      let (later, q'') = run_queue ops q' in (due ++ later, q'')
  run_queue (reset ∷ ops) q = run_queue ops (reset_queue q)

  pub run_timing : List Operation → Timing P → List (Due P) × Timing P
  unfolding append_playout_timing schedule_midi_for_playout reset_timing
  run_timing [] t = ([], t)
  run_timing (append f ∷ ops) t = run_timing ops (append_playout_timing P f t)
  run_timing (schedule sender n ∷ ops) t =
      let (due, t') = schedule_midi_for_playout P sender n t in
      let (later, t'') = run_timing ops t' in (due ++ later, t'')
  run_timing (reset ∷ ops) t = run_timing ops (reset_timing P t)

  -- The array holds the queue, and the counts agree.
  pub record Implements (t : Timing P) (q : Queue) : Type 0 where
    pub held : Represents P t q.waiting
    pub written : t.samples_written ≡ q.written
    pub read : t.samples_read ≡ q.read
    pub dropped : t.markers_dropped ≡ q.dropped

  pub Implements-append :
      (f : RemoteAudioFrame P) (t : Timing P) (q : Queue)
      → Implements t q
      → Implements (append_playout_timing P f t) (append_queue f q)
  unfolding append_queue append_playout_timing
  Implements-append f t q i = elim (Bool-cases (length q.waiting == max_timing_markers)) [
    | inl e ↦
        let e' : (t.timing_count == max_timing_markers) ≡ true = ground (arith, e, i.held.count) in
        rw (e, e')
          (record {
            held = Represents-counts P t q.waiting _ _ _ i.held;
            written = omega (arith, i.written);
            read = i.read;
            dropped = ap (λ n. add64 n 1) i.dropped;
          })
    | inr e ↦
        let e' : (t.timing_count == max_timing_markers) ≡ false = ground (arith, e, i.held.count) in
        let m : Marker P = marker_of P f t.samples_written in
        let room : length q.waiting < max_timing_markers = ground (arith, e, i.held.few) in
        let t' : Timing P = record (appended P m t) {
          samples_written = t.samples_written + sample_buffer_size;
        } in
        let held =
          Represents-counts P (appended P m t) (q.waiting ++ m ∷ [])
            (t.samples_written + sample_buffer_size) t.samples_read t.markers_dropped
            (Represents-appended P m t q.waiting room i.held) in
        rw (e, e')
          (record {
            held = subst (λ w. Represents P t' (q.waiting ++ marker_of P f w ∷ [])) i.written held;
            written = omega (arith, i.written);
            read = i.read;
            dropped = i.dropped;
          })
  ]

  -- The loop gives out the markers that are due, in order, and leaves the others.
  take_due-due_before :
      (sender : Bool) (read_end : ℕ) (t : Timing P) (q : List (Marker P))
      → Represents P t q
      → ((take_due P sender read_end (length q) t).0
          ≡ (due_before sender t.samples_read read_end q).0)
        × Represents P
            (take_due P sender read_end (length q) t).1
            (due_before sender t.samples_read read_end q).1
        × ((take_due P sender read_end (length q) t).1.samples_written ≡ t.samples_written)
        × ((take_due P sender read_end (length q) t).1.markers_dropped ≡ t.markers_dropped)
  unfolding take_due due_before
  take_due-due_before sender read_end t [] r = (refl, r, refl, refl)
  take_due-due_before sender read_end t (m ∷ q) r =
      let front = Represents-front P m t q r in
      let (due, held, written, dropped) =
        take_due-due_before sender read_end (removed P t) q (Represents-removed P m t q r) in
      elim (Bool-cases (ltb m.playout_sample read_end)) [
        | inl e ↦
            let e' : leb read_end m.playout_sample ≡ false = ground (arith, e) in
            let o : (if ltb t.samples_read m.playout_sample
                  then m.playout_sample - t.samples_read
                  else 0)
                ≡ m.playout_sample - t.samples_read =
              ground arith in
            rw (front, e, e', o)
              (
                ap
                    (λ l.
                      if sender
                      then record { marker = m; frame_offset = m.playout_sample - t.samples_read }
                        ∷ l
                      else [])
                    due,
                held,
                written,
                dropped,
              )
        | inr e ↦
            let e' : leb read_end m.playout_sample ≡ true = ground (arith, e) in
            rw (front, e, e') (refl, r, refl, refl)
      ]

  -- The same from equal counts.
  take_due-due_before_from :
      (sender : Bool) (read_end : ℕ) (t : Timing P) (q : List (Marker P)) (n r : ℕ)
      → n ≡ length q
      → r ≡ t.samples_read
      → Represents P t q
      → ((take_due P sender read_end n t).0 ≡ (due_before sender r read_end q).0)
        × Represents P (take_due P sender read_end n t).1 (due_before sender r read_end q).1
        × ((take_due P sender read_end n t).1.samples_written ≡ t.samples_written)
        × ((take_due P sender read_end n t).1.markers_dropped ≡ t.markers_dropped)
  take_due-due_before_from sender read_end t q n r e e' h =
      rw (e, e') (take_due-due_before sender read_end t q h)

  pub Implements-schedule :
      (sender : Bool) (n : ℕ) (t : Timing P) (q : Queue)
      → Implements t q
      → ((schedule_midi_for_playout P sender n t).0 ≡ (schedule_queue sender n q).0)
        × Implements (schedule_midi_for_playout P sender n t).1 (schedule_queue sender n q).1
  unfolding schedule_queue schedule_midi_for_playout
  Implements-schedule sender n t q i =
      let e : t.samples_read + n ≡ q.read + n = omega (arith, i.read) in
      let t' : Timing P = (take_due P sender (t.samples_read + n) t.timing_count t).1 in
      let (due, held, written, dropped) =
        take_due-due_before_from sender (t.samples_read + n) t q.waiting t.timing_count q.read
          i.held.count (sym i.read) i.held in
      let due_at : ℕ → List (Due P) = λ end'. (due_before sender q.read end' q.waiting).0 in
      let rest_at : ℕ → List (Marker P) = λ end'. (due_before sender q.read end' q.waiting).1 in
      let held' =
        Represents-counts P t' (rest_at (t.samples_read + n)) t'.samples_written
          (t.samples_read + n) t'.markers_dropped held in
      (
        due ∙ ap due_at e,
        record {
          held =
              subst
                (λ end'.
                  Represents P (record t' { samples_read = t.samples_read + n }) (rest_at end'))
                e held';
          written = written ∙ i.written;
          read = e;
          dropped = dropped ∙ i.dropped;
        },
      )

  pub Implements-reset :
      (t : Timing P) (q : Queue) → Implements t q → Implements (reset_timing P t) (reset_queue q)
  unfolding reset_timing reset_queue
  Implements-reset t q i = record {
    held = record {
      whole = i.held.whole;
      count = refl;
      few = omega arith;
      reads = omega arith;
      writes = refl;
      at = λ k h. elim h [ ];
    };
    written = refl;
    read = refl;
    dropped = i.dropped;
  }

  unfoldable pub new_queue : Queue
  new_queue = record { waiting = []; written = 0; read = 0; dropped = 0 }

  pub new_timing-Implements : Implements (new_timing P) new_queue
  unfolding new_timing new_queue
  new_timing-Implements = record {
    held = record {
      whole = length-replicate max_timing_markers (blank_marker P);
      count = refl;
      few = omega arith;
      reads = omega arith;
      writes = refl;
      at = λ k h. elim h [ ];
    };
    written = refl;
    read = refl;
    dropped = refl;
  }

  -- The circular array refines the queue: from an array that holds the queue, any operations give
  -- out the same markers with the same offsets, and leave an array that holds the queue that is left,
  -- with the same number of markers dropped.
  pub run_timing-run_queue :
      (ops : List Operation) (t : Timing P) (q : Queue)
      → Implements t q
      → ((run_timing ops t).0 ≡ (run_queue ops q).0)
        × Implements (run_timing ops t).1 (run_queue ops q).1
  unfolding run_timing run_queue
  run_timing-run_queue [] t q i = (refl, i)
  run_timing-run_queue (append f ∷ ops) t q i =
      run_timing-run_queue ops _ _ (Implements-append f t q i)
  run_timing-run_queue (schedule sender n ∷ ops) t q i =
      let (due, i') = Implements-schedule sender n t q i in
      let (later, i'') =
        run_timing-run_queue ops (schedule_midi_for_playout P sender n t).1
          (schedule_queue sender n q).1 i' in
      (cc (due, later), i'')
  run_timing-run_queue (reset ∷ ops) t q i = run_timing-run_queue ops _ _ (Implements-reset t q i)
