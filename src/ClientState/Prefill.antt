-- ===== src/ClientState/Prefill.antt =====
-- The silence that a first connection puts before its first packet.
use jammer_netz.Base.{
  ℕ, zero, suc, ◌+◌, ◌-◌, ◌≤◌, ◌<◌, ◌≡◌, refl, sym, ◌∙◌, ap, true, false, none, some, List, [], ◌∷◌,
  ◌++◌, map, arith, u64_mod, sub64-eq, All, All-append, length,
}
use mathlib.Core.List.{reverse, reverse-cons, map-append}
use jammer_netz.Platform.{Platform}
use jammer_netz.Package.{AudioData, Store, counter, create_pre_padding_package}
use jammer_netz.Package.Padding.{counter-create_pre_padding_package}
use jammer_netz.Queue
use jammer_netz.Queue.{PacketStreamQueue, new_queue, insert_packet}
use jammer_netz.Queue.Order.{IsOrdered, has_counter, push-IsOrdered, push-takes}
use jammer_netz.Queue.Life.{new_queue-IsSound}
use jammer_netz.ClientState.{ClientState, initial_connection, push, push_all, paddings}

abbrev pub counters_from : ℕ → ℕ → List ℕ
counters_from start zero = []
counters_from start (suc n) = start ∷ counters_from (start + 1) n

counters_from-snoc :
    (start n last : ℕ)
    → last ≡ start + n
    → counters_from start (suc n) ≡ counters_from start n ++ last ∷ []
counters_from-snoc start zero last h = ground arith
counters_from-snoc start (suc n) last h =
    ap (λ l. start ∷ l) (counters_from-snoc (start + 1) n last (omega arith))

module _ (P : Platform) where
  -- The packets have the counters below `c`, one by one, and none wraps.
  abbrev Descends : ℕ → List (AudioData P) → Type 0
  Descends c [] = Unit
  Descends c (p ∷ ps) = (counter P p + 1 ≡ c) × (0 < counter P p) × Descends (counter P p) ps

  abbrev Below : ℕ → List (AudioData P) → Type 0
  Below c = All (λ p. counter P p < c)

  Descends-paddings :
      (n : ℕ) (p : AudioData P) (st : Store P)
      → n < counter P p
      → counter P p < u64_mod
      → Descends (counter P p) (paddings P n p st).0 × (length (paddings P n p st).0 ≡ n)
  unfolding paddings
  Descends-paddings zero p st h k = (tt, refl)
  Descends-paddings (suc n) p st h k =
      let (e, st') = create_pre_padding_package P p st in
      let below : counter P e + 1 ≡ counter P p = omega (
        arith,
        counter-create_pre_padding_package P p st,
        sub64-eq (counter P p) 1 (omega arith) k,
      ) in
      let rest = Descends-paddings n e st' (omega (arith, below)) (omega (arith, below)) in
      ((below, (let pos : 0 < counter P e = omega (arith, below) in pos), rest.0), ap suc rest.1)

  Descends-Below : (c b : ℕ) (ps : List (AudioData P)) → c ≤ b → Descends c ps → Below b ps
  Descends-Below c b [] h d = tt
  Descends-Below c b (p ∷ ps) h d =
      (omega (arith, d.0), Descends-Below (counter P p) b ps (omega (arith, d.0)) d.2)

  Below-reverse : (c : ℕ) (ps : List (AudioData P)) → Below c ps → Below c (reverse ps)
  Below-reverse c [] h = tt
  Below-reverse c (p ∷ ps) h =
      rw (reverse-cons p ps)
        (All-append (λ q. counter P q < c) (reverse ps) (p ∷ []) (Below-reverse c ps h.1) (h.0, tt))

  insert_packet-greatest :
      (p : AudioData P) (ps : List (AudioData P))
      → Below (counter P p) ps
      → insert_packet P p ps ≡ ps ++ p ∷ []
  unfolding insert_packet
  insert_packet-greatest p [] h = refl
  insert_packet-greatest p (x ∷ xs) h = ground (arith, insert_packet-greatest p xs h.1)

  has_counter_beyond : (c : ℕ) (ps : List (AudioData P)) → Below c ps → has_counter P c ps ≡ false
  has_counter_beyond c [] h = refl
  has_counter_beyond c (x ∷ xs) h = ground (arith, has_counter_beyond c xs h.1)

  -- Nothing was popped yet, and the queue holds these packets.
  record Holds (ps : List (AudioData P)) (q : PacketStreamQueue P) : Type 0 where
    ordered : IsOrdered P q
    fresh : q.last_popped ≡ 0
    content : q.packets ≡ ps

  push-Holds :
      (now : P.Float) (p : AudioData P) (ps : List (AudioData P)) (q : PacketStreamQueue P)
      → 0 < counter P p
      → counter P p < u64_mod
      → Below (counter P p) ps
      → Holds ps q
      → Holds (ps ++ p ∷ []) (Queue.push P now p q).1 × ((Queue.push P now p q).0 ≡ true)
  push-Holds now p ps q h k b v = (
    record {
      ordered = push-IsOrdered P now p q k v.ordered;
      fresh = taken.2 ∙ v.fresh;
      content = taken.1 ∙ ap (insert_packet P p) v.content ∙ insert_packet-greatest p ps b;
    },
    taken.0,
  )
    where
      taken :
          ((Queue.push P now p q).0 ≡ true)
          × ((Queue.push P now p q).1.packets ≡ insert_packet P p q.packets)
          × ((Queue.push P now p q).1.last_popped ≡ q.last_popped)
      taken =
          push-takes P now p q v.ordered (rw v.fresh h)
            (rw v.content (has_counter_beyond (counter P p) ps b))

  push_all-append :
      (clock : ℕ → P.Float) (i : ℕ) (ps : List (AudioData P)) (p : AudioData P)
      (q : PacketStreamQueue P)
      → (now : P.Float) × (push_all P clock i (ps ++ p ∷ []) q
          ≡ (Queue.push P now p (push_all P clock i ps q)).1)
  unfolding push_all
  push_all-append clock i [] p q = (clock i, refl)
  push_all-append clock i (x ∷ xs) p q = push_all-append clock (i + 1) xs p _

  push_all-Holds :
      (clock : ℕ → P.Float) (c : ℕ) (ps : List (AudioData P))
      → Descends c ps
      → c < u64_mod
      → Holds (reverse ps) (push_all P clock 0 (reverse ps) (new_queue P))
  push_all-Holds clock c [] d k =
      unfold push_all new_queue in
      record { ordered = (new_queue-IsSound P).ordered; fresh = refl; content = refl }
  push_all-Holds clock c (p ∷ ps) d k =
      let (now, e) = push_all-append clock 0 (reverse ps) p (new_queue P) in
      rw (reverse-cons p ps, e)
        (push-Holds now p (reverse ps) _ d.1 (omega (arith, d.0))
          (Below-reverse (counter P p) ps
            (Descends-Below (counter P p) (counter P p) ps (omega arith) d.2))
          (push_all-Holds clock (counter P p) ps d.2 (omega (arith, d.0)))).0

  counters-reverse :
      (c start : ℕ) (ps : List (AudioData P))
      → Descends c ps
      → start + length ps ≡ c
      → map (counter P) (reverse ps) ≡ counters_from start (length ps)
  counters-reverse c start [] d h = refl
  counters-reverse c start (p ∷ ps) d h =
      let ih = counters-reverse (counter P p) start ps d.2 (omega (arith, d.0)) in
      rw (reverse-cons p ps, map-append (counter P) (reverse ps) (p ∷ []), ih)
        (sym (counters_from-snoc start (length ps) (counter P p) (omega (arith, d.0))))

  counters-prefilled :
      (count : ℕ) (p : AudioData P) (ps : List (AudioData P))
      → Descends (counter P p) ps
      → length ps ≡ count
      → count < counter P p
      → map (counter P) (reverse ps ++ p ∷ []) ≡ counters_from (counter P p - count) (count + 1)
  counters-prefilled count p ps d l h =
      let low = counters-reverse (counter P p) (counter P p - count) ps d (omega (arith, l)) in
      let top =
        counters_from-snoc (counter P p - count) (length ps) (counter P p) (omega (arith, l)) in
      let k : suc (length ps) ≡ count + 1 = omega (arith, l) in
      rw (map-append (counter P) (reverse ps) (p ∷ []), low)
        (sym top ∙ ap (counters_from (counter P p - count)) k)

  -- The first packet of a client whose counter is greater than the prefill count is queued behind
  -- its padding: the queue then holds the counters from that many below it up to its own, and each
  -- padding is a packet of its own.
  pub push-prefills :
      (clock : ℕ → P.Float) (count : ℕ) (p : AudioData P) (c : ClientState P) (st : Store P)
      → c.queue ≡ none
      → c.has_connected ≡ false
      → count < counter P p
      → counter P p < u64_mod
      → let (r, c', st') = push P clock count p c st in
        (r.queued ≡ true)
        × (r.transition ≡ initial_connection)
        × ((q : PacketStreamQueue P) × (c'.queue ≡ some q)
            × (map (counter P) q.packets ≡ counters_from (counter P p - count) (count + 1)))
  unfolding push
  push-prefills clock count p c st e f h k =
      let d = Descends-paddings count p st h k in
      let ps = (paddings P count p st).0 in
      let (held, taken) =
        push-Holds (clock count) p (reverse ps) _ (omega arith) k
          (Below-reverse (counter P p) ps
            (Descends-Below (counter P p) (counter P p) ps (omega arith) d.0))
          (push_all-Holds clock (counter P p) ps d.0 k) in
      rw (e, f)
        (
          taken,
          refl,
          (_, refl, ap (map (counter P)) held.content ∙ counters-prefilled count p ps d.0 d.1 h),
        )
