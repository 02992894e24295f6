-- ===== src/Queue/Pop.antt =====
-- What `try_pop` takes out of the jitter buffer.
use jammer_netz.Base.{
  ◌<◌, ◌≡◌, refl, sym, ◌∙◌, ap, subst, inl, inr, Bool, true, false, Option, none, some, List, [],
  ◌∷◌, arith, ltb, if◌then◌else◌, u64_mod, add64, sub64, add64-eq, sub64-eq, Bool-cases,
}
use jammer_netz.Platform.{Platform}
use jammer_netz.Package.{AudioData, Store, counter}
use jammer_netz.Package.FillIn.{counter-create_fill_in_package}
use jammer_netz.Queue.{
  PacketStreamQueue, pop_real, fill_in, pop_fill_in, pop_first, try_pop, follows_on,
}
use jammer_netz.Queue.Order.{
  Rising, has_counter, IsOrdered, has_counter_below, insert_packet-least, member-erase_counter,
}

module _ (P : Platform) where
  pub counter-fill_in :
      (st : Store P) (p : AudioData P) (q : PacketStreamQueue P)
      → counter P (fill_in P st p q).0
        ≡ (if ltb q.current_gap 1 then add64 q.last_popped 1 else sub64 (counter P p) 1)
  unfolding fill_in
  counter-fill_in st p q = ground (
    arith,
    counter-create_fill_in_package P st p (add64 q.last_popped 1),
    counter-create_fill_in_package P st p (sub64 (counter P p) 1),
  )

  -- The counter of a fill-in lies strictly between the last popped packet and the waiting one.
  fill_in_between :
      (st : Store P) (p : AudioData P) (q : PacketStreamQueue P)
      → follows_on P p q ≡ false
      → q.last_popped < counter P p
      → counter P p < u64_mod
      → (q.last_popped < counter P (fill_in P st p q).0)
        × (counter P (fill_in P st p q).0 < counter P p)
  fill_in_between st p q f h k =
      ground (arith, counter-fill_in st p q, add64-eq q.last_popped 1, sub64-eq (counter P p) 1)

  -- What a pop finds and leaves behind.
  pub data Pops (q : PacketStreamQueue P) (r : Option (AudioData P × Bool))
      (q' : PacketStreamQueue P) : Type 0 where
    -- The queue is empty and stays as it is.
    empty : q.packets ≡ [] → r ≡ none → q' ≡ q → Pops q r q'
    -- The oldest packet leaves the queue.
    real :
        (p : AudioData P) (rest : List (AudioData P))
        → q.packets ≡ p ∷ rest
        → r ≡ some (p, false)
        → q'.packets ≡ rest
        → q'.last_popped ≡ counter P p
        → q'.current_gap ≡ 0
        → Pops q r q'
    -- A fill-in for a missing packet; the queue keeps its packets.
    fill :
        (p : AudioData P) (rest : List (AudioData P)) (e : AudioData P)
        → q.packets ≡ p ∷ rest
        → follows_on P p q ≡ false
        → r ≡ some (e, true)
        → q'.packets ≡ q.packets
        → q.last_popped < counter P e
        → counter P e < counter P p
        → q'.last_popped ≡ counter P e
        → q'.current_gap ≡ add64 q.current_gap 1
        → Pops q r q'

  pop_real-IsOrdered :
      (p : AudioData P) (rest : List (AudioData P)) (q : PacketStreamQueue P)
      → q.packets ≡ p ∷ rest
      → IsOrdered P q
      → IsOrdered P (pop_real P p rest q)
  unfolding pop_real
  pop_real-IsOrdered p rest q e v = record {
    rising = r.2;
    tracked = λ c. ground (
      arith,
      v.tracked c,
      member-erase_counter P c (counter P p) q.in_queue,
      has_counter_below P (counter P p) c rest,
      e,
      r.2,
      ap (has_counter P c) e,
    );
  }
    where
      r : Rising P q.last_popped (p ∷ rest)
      r = rw e at v.rising

  pub pop_fill_in-packets :
      (st : Store P) (p : AudioData P) (rest : List (AudioData P)) (q : PacketStreamQueue P)
      → q.packets ≡ p ∷ rest
      → IsOrdered P q
      → (pop_fill_in P st p rest q).1.packets ≡ q.packets
  unfolding pop_fill_in
  pop_fill_in-packets st p rest q e v =
      let r : Rising P q.last_popped (p ∷ rest) = rw e at v.rising in
      insert_packet-least P p rest r.2 ∙ sym e

  pop_first-Pops :
      (st : Store P) (ps : List (AudioData P)) (q : PacketStreamQueue P)
      → q.packets ≡ ps
      → IsOrdered P q
      → let (r, q', _) = pop_first P st ps q in Pops q r q'
  unfolding pop_first
  pop_first-Pops st [] q e v = empty e refl refl
  pop_first-Pops st (p ∷ rest) q e v = elim (Bool-cases (follows_on P p q)) [
    | inl f ↦ rw f (unfold pop_real in real p rest e refl refl refl refl)
    | inr f ↦
        let r : Rising P q.last_popped (p ∷ rest) = rw e at v.rising in
        let (lo, hi) = fill_in_between st p q f r.0 r.1 in
        let kept = pop_fill_in-packets st p rest q e v in
        rw f (unfold pop_fill_in in fill p rest (fill_in P st p q).0 e f refl kept lo hi refl refl)
  ]

  pop_first-IsOrdered :
      (st : Store P) (ps : List (AudioData P)) (q : PacketStreamQueue P)
      → q.packets ≡ ps
      → IsOrdered P q
      → IsOrdered P (pop_first P st ps q).1
  unfolding pop_first
  pop_first-IsOrdered st [] q e v = v
  pop_first-IsOrdered st (p ∷ rest) q e v = elim (Bool-cases (follows_on P p q)) [
    | inl f ↦ rw f (pop_real-IsOrdered p rest q e v)
    | inr f ↦
        let r : Rising P q.last_popped (p ∷ rest) = rw e at v.rising in
        let (lo, hi) = fill_in_between st p q f r.0 r.1 in
        let kept = pop_fill_in-packets st p rest q e v in
        rw f (record {
          rising =
              subst (Rising P (pop_fill_in P st p rest q).1.last_popped) (sym (kept ∙ e))
                (unfold pop_fill_in in (hi, r.1, r.2));
          tracked = λ c. rw kept (unfold pop_fill_in in v.tracked c);
        })
  ]

  -- A pop of an ordered queue finds the queue empty and changes nothing, or takes the packet with
  -- the smallest counter, or leaves all packets and hands out a fill-in whose counter lies between
  -- the last popped one and the smallest in the queue. The last popped counter follows the packet
  -- handed out.
  pub try_pop-Pops :
      (st : Store P) (q : PacketStreamQueue P)
      → IsOrdered P q
      → Pops q (try_pop P st q).0 (try_pop P st q).1
  unfolding try_pop
  try_pop-Pops st q v = pop_first-Pops st q.packets q refl v

  -- `try_pop` keeps the queue ordered.
  pub try_pop-IsOrdered :
      (st : Store P) (q : PacketStreamQueue P) → IsOrdered P q → IsOrdered P (try_pop P st q).1
  unfolding try_pop
  try_pop-IsOrdered st q v = pop_first-IsOrdered st q.packets q refl v

  Pops-rises :
      {q q' : PacketStreamQueue P} {r : Option (AudioData P × Bool)} (e : AudioData P)
      (is_fill_in : Bool)
      → Pops q r q'
      → IsOrdered P q
      → r ≡ some (e, is_fill_in)
      → (q.last_popped < counter P e) × (q'.last_popped ≡ counter P e)
  Pops-rises e b (empty h n s) v k = absurd (cc)
  Pops-rises {q} e b (real p rest h n s l g) v k =
      let r : Rising P q.last_popped (p ∷ rest) = rw h at v.rising in ground (arith, r)
  Pops-rises e b (fill p rest e' h f n s lo hi l g) v k = ground arith

  -- What a queue in order hands out has a counter above the last popped one, and that counter is
  -- the last popped one then.
  pub try_pop-rises :
      (st : Store P) (q : PacketStreamQueue P) (e : AudioData P) (is_fill_in : Bool)
      → IsOrdered P q
      → (try_pop P st q).0 ≡ some (e, is_fill_in)
      → (q.last_popped < counter P e) × ((try_pop P st q).1.last_popped ≡ counter P e)
  try_pop-rises st q e is_fill_in v h = Pops-rises e is_fill_in (try_pop-Pops st q v) v h
