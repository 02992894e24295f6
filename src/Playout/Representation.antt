-- ===== src/Playout/Representation.antt =====
-- The circular array of the markers as a queue.
use jammer_netz.Base.{
  ℕ, suc, ◌+◌, ◌-◌, ◌%◌, ◌≡◌, ◌≢◌, ◌<◌, ◌≤◌, sym, ap, ◌∙◌, inl, inr, Bool-cases, ltb→lt, ltb→le,
  List, [], ◌∷◌, ◌++◌, ltb, get_or, set, length, arith, get_or-set_self, get_or-set_ne, length-set,
  length-append, get_or-append, get_or-append_end,
}
use jammer_netz.Platform.{Platform}
use jammer_netz.Playout.{Marker, Timing, blank_marker, max_timing_markers}

module _ (P : Platform) where
  -- The queue `q` stands in the array, from the index to read on.
  pub record Represents (t : Timing P) (q : List (Marker P)) : Type 0 where
    pub whole : length t.markers ≡ max_timing_markers
    pub count : t.timing_count ≡ length q
    pub few : length q ≤ max_timing_markers
    pub reads : t.timing_read < max_timing_markers
    pub writes : t.timing_write ≡ (t.timing_read + length q) % max_timing_markers
    pub at :
        (i : ℕ)
        → i < length q
        → get_or t.markers ((t.timing_read + i) % max_timing_markers) (blank_marker P)
          ≡ get_or q i (blank_marker P)

  -- The array after a write at the index to write.
  abbrev pub appended : Marker P → Timing P → Timing P
  appended m t = record t {
    markers = set t.markers t.timing_write m;
    timing_write = (t.timing_write + 1) % max_timing_markers;
    timing_count = t.timing_count + 1;
  }

  -- The array after a read at the index to read.
  abbrev pub removed : Timing P → Timing P
  removed t = record t {
    timing_read = (t.timing_read + 1) % max_timing_markers;
    timing_count = t.timing_count - 1;
  }

  pub Represents-appended :
      (m : Marker P) (t : Timing P) (q : List (Marker P))
      → length q < max_timing_markers
      → Represents t q
      → Represents (appended m t) (q ++ m ∷ [])
  Represents-appended m t q room r =
      let long : length (q ++ m ∷ []) ≡ length q + 1 = length-append q (m ∷ []) in
      let w = r.writes in
      let reads = r.reads in
      record {
        whole = length-set t.markers t.timing_write m ∙ r.whole;
        count = omega (arith, r.count, long);
        few = omega (arith, long);
        reads = r.reads;
        writes = omega (arith, w, long);
        at = λ i h. entry i (omega (arith, long, h));
      }
    where
      entry :
          (i : ℕ)
          → i ≤ length q
          → get_or
              (set t.markers t.timing_write m)
              ((t.timing_read + i) % max_timing_markers)
              (blank_marker P)
            ≡ get_or (q ++ m ∷ []) i (blank_marker P)
      entry i h = elim (Bool-cases (ltb i (length q))) [
        | inl e ↦
            let lt : i < length q = ltb→lt i (length q) e in
            let ne : t.timing_write ≢ (t.timing_read + i) % max_timing_markers =
              omega (arith, r.writes, r.reads, lt, room) in
            get_or-set_ne t.markers m (blank_marker P) ne
            ∙ r.at i lt
            ∙ sym (get_or-append q m (blank_marker P) i lt)
        | inr e ↦
            let eq : i ≡ length q = omega (arith, ltb→le i (length q) e, h) in
            let here : (t.timing_read + i) % max_timing_markers ≡ t.timing_write =
              omega (arith, r.writes, eq) in
            let inside : t.timing_write < length t.markers =
              omega (arith, r.writes, ap (λ n. n + 0) r.whole) in
            rw here (
              get_or-set_self t.markers t.timing_write m (blank_marker P) inside
              ∙ rw eq (sym (get_or-append_end q m (blank_marker P))))
      ]

  pub Represents-front :
      (m : Marker P) (t : Timing P) (q : List (Marker P))
      → Represents t (m ∷ q)
      → get_or t.markers t.timing_read (blank_marker P) ≡ m
  Represents-front m t q r =
      let e : (t.timing_read + 0) % max_timing_markers ≡ t.timing_read = omega (arith, r.reads) in
      rw e at (r.at 0 (omega arith))

  pub Represents-removed :
      (m : Marker P) (t : Timing P) (q : List (Marker P))
      → Represents t (m ∷ q)
      → Represents (removed t) q
  Represents-removed m t q r = record {
    whole = r.whole;
    count = omega (arith, r.count);
    few = omega (arith, r.few);
    reads = omega arith;
    writes = omega (arith, r.writes, r.reads);
    at = λ i h.
        let e : ((t.timing_read + 1) % max_timing_markers + i) % max_timing_markers
            ≡ (t.timing_read + suc i) % max_timing_markers =
          omega arith in
        rw e (r.at (suc i) (omega (arith, h)));
  }

  -- The counts do not matter.
  pub Represents-counts :
      (t : Timing P) (q : List (Marker P)) (written read dropped : ℕ)
      → Represents t q
      → Represents
          (record t { samples_written = written; samples_read = read; markers_dropped = dropped })
          q
  Represents-counts t q written read dropped r = record {
    whole = r.whole;
    count = r.count;
    few = r.few;
    reads = r.reads;
    writes = r.writes;
    at = r.at;
  }
