-- ===== src/Queue/Gaps.antt =====
-- How the jitter buffer bridges a gap: at most two fill-ins in a row, and the second one silences
-- the packet behind the gap too.
use jammer_netz.Base.{
  ℕ, ◌+◌, ◌≤◌, ◌<◌, ◌≡◌, refl, sym, ◌∙◌, subst, ◌⊎◌, inl, inr, Bool, true, false, Option, some,
  List, [], ◌∷◌, arith, leb, ltb, if◌then◌else◌, add64, sub64, add64-eq, sub64-eq, Bool-cases,
}
use jammer_netz.Platform.{Platform}
use jammer_netz.Package.{AudioData, Store, counter}
use jammer_netz.Queue.{
  PacketStreamQueue, insert_packet, accept, enqueue, push, has_been_pushed_before, member, pop_real,
  pop_fill_in, pop_first, try_pop, follows_on, fill_in,
}
use jammer_netz.Queue.Order.{Rising, has_counter, IsOrdered, measure_jitter-keeps}
use jammer_netz.Queue.Pop.{counter-fill_in, pop_fill_in-packets, try_pop-IsOrdered}

module _ (P : Platform) where
  -- The packet at the front is the successor of the last popped one.
  abbrev pub Follows : ℕ → List (AudioData P) → Type 0
  Follows last [] = ⊥
  Follows last (p ∷ ps) = counter P p ≡ last + 1

  pub record IsBridging (q : PacketStreamQueue P) : Type 0 where
    pub gap_most : q.current_gap ≤ 2
    pub found : q.current_gap ≡ 2 → Follows q.last_popped q.packets

  Follows-insert_packet :
      (last : ℕ) (p : AudioData P) (ps : List (AudioData P))
      → last < counter P p
      → has_counter P (counter P p) ps ≡ false
      → Follows last ps
      → Follows last (insert_packet P p ps)
  unfolding insert_packet
  Follows-insert_packet last p [] h n f = absurd f
  Follows-insert_packet last p (x ∷ xs) h n f = ground arith

  IsBridging-transfer :
      (q r : PacketStreamQueue P)
      → r.packets ≡ q.packets
      → r.last_popped ≡ q.last_popped
      → r.current_gap ≡ q.current_gap
      → IsBridging q
      → IsBridging r
  IsBridging-transfer q r e f g v = record {
    gap_most = rw g v.gap_most;
    found = λ h. rw (e, f) (v.found (sym g ∙ h));
  }

  enqueue-IsBridging :
      (p : AudioData P) (q : PacketStreamQueue P)
      → q.last_popped < counter P p
      → has_counter P (counter P p) q.packets ≡ false
      → IsBridging q
      → IsBridging (enqueue P p q)
  unfolding enqueue
  enqueue-IsBridging p q h n v = record {
    gap_most = v.gap_most;
    found = λ g. Follows-insert_packet q.last_popped p q.packets h n (v.found g);
  }

  pub push-IsBridging :
      (now : P.Float) (p : AudioData P) (q : PacketStreamQueue P)
      → IsOrdered P q
      → IsBridging q
      → IsBridging (push P now p q).1
  unfolding push has_been_pushed_before accept
  push-IsBridging now p q o v = elim (Bool-cases (leb (counter P p) q.last_popped)) [
    | inl e ↦ rw e (IsBridging-transfer q _ refl refl refl v)
    | inr e ↦ elim (Bool-cases (member P (counter P p) q.in_queue)) [
      | inl f ↦ rw (e, f) (IsBridging-transfer q _ refl refl refl v)
      | inr f ↦
          let k = measure_jitter-keeps P now p (enqueue P p q) in
          rw (e, f)
            (IsBridging-transfer (enqueue P p q) _ k.0 k.1 k.3
              (enqueue-IsBridging p q (ground arith) (sym (o.tracked (counter P p)) ∙ f) v))
    ]
  ]

  -- Where two fill-ins in a row were handed out, the packet at the front follows on.
  found_follows_on :
      (p : AudioData P) (rest : List (AudioData P)) (q : PacketStreamQueue P)
      → q.packets ≡ p ∷ rest
      → q.current_gap ≡ 2
      → IsOrdered P q
      → IsBridging q
      → follows_on P p q ≡ true
  found_follows_on p rest q e g o v =
      let r : Rising P q.last_popped (p ∷ rest) = rw e at o.rising in
      let f : Follows q.last_popped (p ∷ rest) = rw e at (v.found g) in
      ground (arith, add64-eq q.last_popped 1, r, f)

  pub gap_small :
      (p : AudioData P) (rest : List (AudioData P)) (q : PacketStreamQueue P)
      → q.packets ≡ p ∷ rest
      → follows_on P p q ≡ false
      → IsOrdered P q
      → IsBridging q
      → q.current_gap ≤ 1
  gap_small p rest q e f o v = ground (arith, found_follows_on p rest q e, o, v, v.gap_most)

  pop_fill_in-IsBridging :
      (st : Store P) (p : AudioData P) (rest : List (AudioData P)) (q : PacketStreamQueue P)
      → q.packets ≡ p ∷ rest
      → follows_on P p q ≡ false
      → IsOrdered P q
      → IsBridging q
      → IsBridging (pop_fill_in P st p rest q).1
  pop_fill_in-IsBridging st p rest q e f o v = record {
    gap_most =
        unfold pop_fill_in in omega (arith, small, add64-eq q.current_gap 1 (omega (arith, small)));
    found = λ h.
        subst (Follows (pop_fill_in P st p rest q).1.last_popped)
          (sym (pop_fill_in-packets P st p rest q e o ∙ e))
          (unfold pop_fill_in in
            ground (
              arith,
              h,
              r,
              small,
              add64-eq q.current_gap 1,
              counter-fill_in P st p q,
              sub64-eq (counter P p) 1,
            ));
  }
    where
      small : q.current_gap ≤ 1
      small = gap_small p rest q e f o v

      r : Rising P q.last_popped (p ∷ rest)
      r = rw e at o.rising

  pop_first-IsBridging :
      (st : Store P) (ps : List (AudioData P)) (q : PacketStreamQueue P)
      → q.packets ≡ ps
      → IsOrdered P q
      → IsBridging q
      → IsBridging (pop_first P st ps q).1
  unfolding pop_first
  pop_first-IsBridging st [] q e o v = v
  pop_first-IsBridging st (p ∷ rest) q e o v = elim (Bool-cases (follows_on P p q)) [
    | inl f ↦
        rw f
          (unfold pop_real in record { gap_most = omega arith; found = λ h. absurd (omega arith) })
    | inr f ↦ rw f (pop_fill_in-IsBridging st p rest q e f o v)
  ]

  pub try_pop-IsBridging :
      (st : Store P) (q : PacketStreamQueue P)
      → IsOrdered P q
      → IsBridging q
      → IsBridging (try_pop P st q).1
  unfolding try_pop
  try_pop-IsBridging st q o v = pop_first-IsBridging st q.packets q refl o v

  -- One pop of a queue with a packet in front: the packet, or a fill-in before it.
  abbrev PopsFront :
      AudioData P
      → List (AudioData P)
      → PacketStreamQueue P
      → Option (AudioData P × Bool)
      → PacketStreamQueue P
      → Type 0
  PopsFront p rest q r q' =
      (r ≡ some (p, false))
      ⊎ (e : AudioData P) × (r ≡ some (e, true))
        × (counter P e
            ≡ (if ltb q.current_gap 1 then add64 q.last_popped 1 else sub64 (counter P p) 1))
        × (q'.packets ≡ p ∷ rest)
        × (q'.last_popped ≡ counter P e)
        × (q'.current_gap ≡ add64 q.current_gap 1)

  first-PopsFront :
      (st : Store P) (ps : List (AudioData P)) (q : PacketStreamQueue P) (p : AudioData P)
      (rest : List (AudioData P))
      → ps ≡ p ∷ rest
      → q.packets ≡ p ∷ rest
      → IsOrdered P q
      → PopsFront p rest q (pop_first P st ps q).0 (pop_first P st ps q).1
  unfolding pop_first
  first-PopsFront st ps q p rest e e' v = elim (Bool-cases (follows_on P p q)) [
    | inl f ↦ rw (e, f) (inl refl)
    | inr f ↦
        let kept = pop_fill_in-packets P st p rest q e' v in
        rw (e, f)
          (inr (
            (fill_in P st p q).0,
            unfold pop_fill_in in refl,
            counter-fill_in P st p q,
            kept ∙ e',
            unfold pop_fill_in in refl,
            unfold pop_fill_in in refl,
          ))
  ]

  try_pop-PopsFront :
      (st : Store P) (q : PacketStreamQueue P) (p : AudioData P) (rest : List (AudioData P))
      → q.packets ≡ p ∷ rest
      → IsOrdered P q
      → PopsFront p rest q (try_pop P st q).0 (try_pop P st q).1
  unfolding try_pop
  try_pop-PopsFront st q p rest e v = first-PopsFront st q.packets q p rest e e v

  pops_front :
      (st : Store P) (q : PacketStreamQueue P) (p : AudioData P) (rest : List (AudioData P))
      → q.packets ≡ p ∷ rest
      → IsOrdered P q
      → IsBridging q
      → q.current_gap ≡ 2
      → (try_pop P st q).0 ≡ some (p, false)
  unfolding try_pop pop_first
  pops_front st q p rest e o v g = let f = found_follows_on p rest q e g o v in rw (e, f) refl

  -- A packet at the front of a queue in order, before which no fill-in was handed out yet, leaves
  -- the queue within three pops: at once, or behind a fill-in for the packet after the last popped
  -- one, or behind that and a second fill-in for the packet right before it.
  pub try_pop-within_three :
      (st : Store P) (q : PacketStreamQueue P) (p : AudioData P) (rest : List (AudioData P))
      → IsOrdered P q
      → IsBridging q
      → q.packets ≡ p ∷ rest
      → q.current_gap ≡ 0
      → let (r, q', st') = try_pop P st q in
        let (r', q'', st'') = try_pop P st' q' in
        let (r'', _, _) = try_pop P st'' q'' in
        (r ≡ some (p, false))
        ⊎ (e : AudioData P) × (r ≡ some (e, true))
          × (counter P e ≡ q.last_popped + 1)
          × ((r' ≡ some (p, false))
              ⊎ (e' : AudioData P) × (r' ≡ some (e', true))
                × (counter P p ≡ counter P e' + 1)
                × (r'' ≡ some (p, false)))
  try_pop-within_three st q p rest o v h g =
      let (r, q', st') = try_pop P st q in
      let (r', q'', st'') = try_pop P st' q' in
      let o' = try_pop-IsOrdered P st q o in
      let v' = try_pop-IsBridging st q o v in
      let low : Rising P q.last_popped (p ∷ rest) = rw h at o.rising in
      elim (try_pop-PopsFront st q p rest h o) [
        | inl now ↦ inl now
        | inr (e, is, c, kept, last, gap) ↦
            let one : q'.current_gap ≡ 1 = ground (arith, gap, g, add64-eq 0 1) in
            let first : counter P e ≡ q.last_popped + 1 =
              ground (arith, c, g, add64-eq q.last_popped 1, low.0, low.1) in
            inr (
              e,
              is,
              first,
              elim (try_pop-PopsFront st' q' p rest kept o') [
                | inl now ↦ inl now
                | inr (e', is', c', kept', last', gap') ↦
                    let two : q''.current_gap ≡ 2 = ground (arith, gap', one, add64-eq 1 1) in
                    inr (
                      e',
                      is',
                      ground (arith, c', one, sub64-eq (counter P p) 1, low.0, low.1),
                      pops_front st'' q'' p rest kept' (try_pop-IsOrdered P st' q' o')
                          (try_pop-IsBridging st' q' o' v') two,
                    )
              ],
            )
      ]
