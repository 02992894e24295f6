-- ===== src/Queue/Order.antt =====
-- The order of the jitter buffer: its packets stand by strictly rising counter above the last
-- popped one, and the set holds their counters.
use jammer_netz.Base.{
  ℕ, ◌≤◌, ◌<◌, ◌≡◌, refl, sym, ◌∙◌, ◌↔◌, inl, inr, Bool, true, false, ◌||◌, List, [], ◌∷◌, arith,
  leb, ◌==◌, if◌then◌else◌, u64_mod, Bool-cases,
}
use jammer_netz.Platform.{Platform}
use jammer_netz.Package.{AudioData, counter}
use jammer_netz.Queue.{
  PacketStreamQueue, insert_packet, member, erase_counter, has_been_pushed_before, measure_jitter,
  enqueue, accept, push,
}

module _ (P : Platform) where
  abbrev pub Rising : ℕ → List (AudioData P) → Type 0
  Rising b [] = Unit
  Rising b (p ∷ ps) = (b < counter P p) × (counter P p < u64_mod) × Rising (counter P p) ps

  abbrev pub has_counter : ℕ → List (AudioData P) → Bool
  has_counter c [] = false
  has_counter c (p ∷ ps) = counter P p == c || has_counter c ps

  pub record IsOrdered (q : PacketStreamQueue P) : Type 0 where
    pub rising : Rising q.last_popped q.packets
    pub tracked : (c : ℕ) → member P c q.in_queue ≡ has_counter c q.packets

  pub Rising-weaken : (a b : ℕ) (ps : List (AudioData P)) → a ≤ b → Rising b ps → Rising a ps
  Rising-weaken a b [] h r = tt
  Rising-weaken a b (p ∷ ps) h r = (omega arith, r.1, r.2)

  pub has_counter_below :
      (b c : ℕ) (ps : List (AudioData P)) → c ≤ b → Rising b ps → has_counter c ps ≡ false
  has_counter_below b c [] h r = refl
  has_counter_below b c (p ∷ ps) h r =
      ground (arith, has_counter_below (counter P p) c ps (omega arith) r.2)

  pub has_counter-insert_packet :
      (c : ℕ) (p : AudioData P) (ps : List (AudioData P))
      → has_counter c (insert_packet P p ps) ≡ (counter P p == c || has_counter c ps)
  unfolding insert_packet
  has_counter-insert_packet c p [] = refl
  has_counter-insert_packet c p (x ∷ xs) = ground (arith, has_counter-insert_packet c p xs)

  pub Rising-insert_packet :
      (b : ℕ) (p : AudioData P) (ps : List (AudioData P))
      → b < counter P p
      → counter P p < u64_mod
      → has_counter (counter P p) ps ≡ false
      → Rising b ps
      → Rising b (insert_packet P p ps)
  unfolding insert_packet
  Rising-insert_packet b p [] h k n r = (h, k, tt)
  Rising-insert_packet b p (x ∷ xs) h k n r =
      ground (arith, Rising-insert_packet (counter P x) p xs)

  -- A packet below all others goes back to the front.
  pub insert_packet-least :
      (p : AudioData P) (ps : List (AudioData P))
      → Rising (counter P p) ps
      → insert_packet P p ps ≡ p ∷ ps
  unfolding insert_packet
  insert_packet-least p [] r = refl
  insert_packet-least p (x ∷ xs) r = ground arith

  pub member-erase_counter :
      (c d : ℕ) (xs : List ℕ)
      → member P c (erase_counter P d xs) ≡ (if d == c then false else member P c xs)
  unfolding member erase_counter
  member-erase_counter c d [] = ground arith
  member-erase_counter c d (x ∷ xs) = ground (arith, member-erase_counter c d xs)

  pub measure_jitter-keeps :
      (now : P.Float) (p : AudioData P) (q : PacketStreamQueue P)
      → let q' = measure_jitter P now p q in
        (q'.packets ≡ q.packets)
        × (q'.last_popped ≡ q.last_popped)
        × (q'.in_queue ≡ q.in_queue)
        × (q'.current_gap ≡ q.current_gap)
        × (q'.last_popped_data ≡ q.last_popped_data)
        × (q'.last_pushed ≡ q.last_pushed)
  unfolding measure_jitter
  measure_jitter-keeps now p q = ground arith

  enqueue-IsOrdered :
      (p : AudioData P) (q : PacketStreamQueue P)
      → q.last_popped < counter P p
      → counter P p < u64_mod
      → member P (counter P p) q.in_queue ≡ false
      → IsOrdered q
      → IsOrdered (enqueue P p q)
  unfolding enqueue member
  enqueue-IsOrdered p q above small new v = record {
    rising =
        Rising-insert_packet q.last_popped p q.packets above small
          (sym (v.tracked (counter P p)) ∙ new) v.rising;
    tracked = λ c. ground (arith, v.tracked c, has_counter-insert_packet c p q.packets);
  }

  -- Only the packets, the last popped counter and the set matter to the order.
  pub IsOrdered-transfer :
      (q r : PacketStreamQueue P)
      → r.packets ≡ q.packets
      → r.last_popped ≡ q.last_popped
      → r.in_queue ≡ q.in_queue
      → IsOrdered q
      → IsOrdered r
  IsOrdered-transfer q r e f g v = record {
    rising = rw (e, f) v.rising;
    tracked = λ c. rw (e, g) (v.tracked c);
  }

  accept-IsOrdered :
      (now : P.Float) (p : AudioData P) (q : PacketStreamQueue P)
      → q.last_popped < counter P p
      → counter P p < u64_mod
      → member P (counter P p) q.in_queue ≡ false
      → IsOrdered q
      → IsOrdered (accept P now p q)
  unfolding accept
  accept-IsOrdered now p q above small new v =
      let k = measure_jitter-keeps now p (enqueue P p q) in
      IsOrdered-transfer (enqueue P p q) _ k.0 k.1 k.2 (enqueue-IsOrdered p q above small new v)

  -- A queue in order takes a packet exactly when its counter is above the last popped one and
  -- no packet in the queue has it.
  pub push-accepts_iff :
      (now : P.Float) (p : AudioData P) (q : PacketStreamQueue P)
      → IsOrdered q
      → ((push P now p q).0 ≡ true)
        ↔ ((q.last_popped < counter P p) × (has_counter (counter P p) q.packets ≡ false))
  unfolding push has_been_pushed_before
  push-accepts_iff now p q v = ground (arith, v.tracked (counter P p))

  pub push-IsOrdered :
      (now : P.Float) (p : AudioData P) (q : PacketStreamQueue P)
      → counter P p < u64_mod
      → IsOrdered q
      → IsOrdered (push P now p q).1
  unfolding push has_been_pushed_before
  push-IsOrdered now p q small v = elim (Bool-cases (leb (counter P p) q.last_popped)) [
    | inl e ↦ rw e (IsOrdered-transfer q _ refl refl refl v)
    | inr e ↦ elim (Bool-cases (member P (counter P p) q.in_queue)) [
      | inl f ↦ rw (e, f) (IsOrdered-transfer q _ refl refl refl v)
      | inr f ↦ rw (e, f) (accept-IsOrdered now p q (ground arith) small f v)
    ]
  ]

  -- A packet above the last popped one that is not in the queue is put into it.
  pub push-takes :
      (now : P.Float) (p : AudioData P) (q : PacketStreamQueue P)
      → IsOrdered q
      → q.last_popped < counter P p
      → has_counter (counter P p) q.packets ≡ false
      → ((push P now p q).0 ≡ true)
        × ((push P now p q).1.packets ≡ insert_packet P p q.packets)
        × ((push P now p q).1.last_popped ≡ q.last_popped)
  unfolding push has_been_pushed_before accept enqueue
  push-takes now p q v h n =
      ground (arith, v.tracked (counter P p), measure_jitter-keeps now p (enqueue P p q))
