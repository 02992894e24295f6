-- ===== src/Queue.antt =====
-- The jitter buffer of common/PacketStreamQueue.h and PacketStreamQueue.cpp.
-- The priority queue is the list of its packets by rising counter, and the set of counters is a
-- list. Packets with equal counters, whose order a priority queue leaves open, never meet in it
-- (`Order`). The 64-bit counters wrap. `FAKE_DROPS` is a debugging build and is left out.
pub mod Order
pub mod Pop
pub mod Gaps
pub mod Silence
pub mod Rebase
pub mod Size
pub mod Life
mod Tests
use jammer_netz.Base.{
  ℕ, zero, suc, ◌+◌, ◌-◌, ◌≡◌, Bool, true, false, ◌||◌, ◌&&◌, not, Option, none, some, List, [],
  ◌∷◌, ltb, leb, ◌==◌, if◌then◌else◌, Text, length, add64, sub64, max, is_some,
}
use jammer_netz.Platform.{Platform}
use jammer_netz.Stats.{RunningStats, cleared, push_value, mean, standard_deviation}
use jammer_netz.Package.{AudioData, Store, counter, create_fill_in_package, put_buffer}

module _ (P : Platform) where
  open P use {Float, literal, sub, fabs}

  pub record StreamQualityData : Type 0 where
    pub too_late_or_duplicate : ℕ
    pub dropped_packet_counter : ℕ
    pub out_of_order_packet_counter : ℕ
    pub duplicate_packet_counter : ℕ
    pub drops_healed : ℕ
    pub packages_pushed : ℕ
    pub packages_popped : ℕ
    pub max_length_of_gap : ℕ
    pub max_wrong_order_span : ℕ
    pub jitter_mean_millis : Float
    pub jitter_sd_millis : Float

  pub fresh_quality : StreamQualityData
  fresh_quality = record {
    too_late_or_duplicate = 0;
    dropped_packet_counter = 0;
    out_of_order_packet_counter = 0;
    duplicate_packet_counter = 0;
    drops_healed = 0;
    packages_pushed = 0;
    packages_popped = 0;
    max_length_of_gap = 0;
    max_wrong_order_span = 0;
    jitter_mean_millis = literal 0 0;
    jitter_sd_millis = literal 0 0;
  }

  pub record PacketStreamQueue : Type 0 where
    pub packets : List (AudioData P)
    pub last_pushed : ℕ
    pub last_popped : ℕ
    pub current_gap : ℕ
    pub last_popped_data : Option (AudioData P)
    pub clock_delta : RunningStats P
    pub jitter : RunningStats P
    pub quality : StreamQualityData
    pub in_queue : List ℕ

  -- The constructor; its name is only printed.
  unfoldable pub new_queue : PacketStreamQueue
  unfolding fresh_quality
  new_queue = record {
    packets = [];
    last_pushed = 0;
    last_popped = 0;
    current_gap = 0;
    last_popped_data = none;
    clock_delta = cleared P;
    jitter = cleared P;
    quality = fresh_quality;
    in_queue = [];
  }

  -- `reset` sets each member to what the constructor gives it.
  pub reset : PacketStreamQueue → PacketStreamQueue
  unfolding fresh_quality
  reset q = record q {
    packets = [];
    in_queue = [];
    last_pushed = 0;
    last_popped = 0;
    last_popped_data = none;
    current_gap = 0;
    clock_delta = cleared P;
    jitter = cleared P;
    quality = fresh_quality;
  }

  unfoldable pub size : PacketStreamQueue → ℕ
  size q = length q.packets

  -- `std::priority_queue::push`, smallest counter first.
  unfoldable pub insert_packet : AudioData P → List (AudioData P) → List (AudioData P)
  insert_packet p [] = p ∷ []
  insert_packet p (x ∷ xs) =
      if leb (counter P x) (counter P p) then x ∷ insert_packet p xs else p ∷ x ∷ xs

  unfoldable pub member : ℕ → List ℕ → Bool
  member c [] = false
  member c (x ∷ xs) = x == c || member c xs

  pub erase_counter : ℕ → List ℕ → List ℕ
  erase_counter c [] = []
  erase_counter c (x ∷ xs) = if x == c then erase_counter c xs else x ∷ erase_counter c xs

  -- `hasBeenPushedBefore`, with the statistics that it counts.
  pub has_been_pushed_before : AudioData P → PacketStreamQueue → Bool × StreamQualityData
  has_been_pushed_before p q =
      if leb (counter P p) q.last_popped
      then (true, record s { too_late_or_duplicate = add64 s.too_late_or_duplicate 1 })
      else if member (counter P p) q.in_queue
      then (true, record s { duplicate_packet_counter = add64 s.duplicate_packet_counter 1 })
      else (false, s)
    where
      s : StreamQualityData
      s = q.quality

  -- The out-of-order statistics of `push`.
  pub note_order : AudioData P → PacketStreamQueue → StreamQualityData → StreamQualityData
  note_order p q s =
      if ltb (counter P p) q.last_pushed
      then record s {
        out_of_order_packet_counter = add64 s.out_of_order_packet_counter 1;
        max_wrong_order_span = max s.max_wrong_order_span (q.last_pushed - counter P p);
      }
      else s

  abbrev pub rolling_mean_limit : ℕ
  rolling_mean_limit = 11250

  -- The jitter measurement of `push`, and the reset of the rolling mean.
  pub measure_jitter : Float → AudioData P → PacketStreamQueue → PacketStreamQueue
  measure_jitter now p q =
      let delta = sub now p.audio_block.timestamp in
      let measured : PacketStreamQueue =
        if ltb 0 q.clock_delta.n
        then (let j = push_value P (fabs (sub delta (mean P q.clock_delta))) q.jitter in
            record q {
              jitter = j;
              quality = record s {
                jitter_mean_millis = mean P j;
                jitter_sd_millis = standard_deviation P j;
              };
            })
        else q in
      let clock = push_value P delta q.clock_delta in
      if ltb rolling_mean_limit clock.n
      then record measured { clock_delta = cleared P; jitter = cleared P }
      else record measured { clock_delta = clock }
    where
      s : StreamQualityData
      s = q.quality

  -- The first half of `push` on a packet that is new.
  pub enqueue : AudioData P → PacketStreamQueue → PacketStreamQueue
  unfolding note_order
  enqueue p q = record q {
    in_queue = counter P p ∷ q.in_queue;
    packets = insert_packet p q.packets;
    quality = note_order p q (record s { packages_pushed = add64 s.packages_pushed 1 });
    last_pushed = counter P p;
  }
    where
      s : StreamQualityData
      s = q.quality

  -- All that `push` does with a packet that is new.
  pub accept : Float → AudioData P → PacketStreamQueue → PacketStreamQueue
  accept now p q = measure_jitter now p (enqueue p q)

  pub push : Float → AudioData P → PacketStreamQueue → Bool × PacketStreamQueue
  push now p q =
      let (seen, s) = has_been_pushed_before p q in
      if seen then (false, record q { quality = s }) else (true, accept now p q)

  -- A pop that succeeds: the packet, and whether it is a fill-in.
  abbrev pub Popped : Type 0
  Popped = Option (AudioData P × Bool) × PacketStreamQueue × Store P

  -- The expected packet, or the very first one.
  pub pop_real : AudioData P → List (AudioData P) → PacketStreamQueue → PacketStreamQueue
  pop_real p rest q = record q {
    packets = rest;
    last_popped = counter P p;
    last_popped_data = some p;
    in_queue = erase_counter (counter P p) q.in_queue;
    current_gap = 0;
    quality = record s { packages_popped = add64 s.packages_popped 1 };
  }
    where
      s : StreamQualityData
      s = q.quality

  -- The packet that stands in for a missing one, the statistics, and the store: the second fill-in
  -- of a gap is silenced through the buffer pointer that it shares with its source.
  pub fill_in :
      Store P → AudioData P → PacketStreamQueue → AudioData P × StreamQualityData × Store P
  fill_in st p q =
      if ltb q.current_gap 1
      then (let (had_fec, e) = create_fill_in_package P st p (add64 q.last_popped 1) in
          (
            e,
            (if had_fec
                then record s { drops_healed = add64 s.drops_healed 1 }
                else record s { dropped_packet_counter = add64 s.dropped_packet_counter 1 }),
            st,
          ))
      else (let (_, e) = create_fill_in_package P st p (sub64 (counter P p) 1) in
          (
            e,
            record s { dropped_packet_counter = add64 s.dropped_packet_counter 1 },
            put_buffer P e.audio_block.audio_buffer (P.clear (st.cells e.audio_block.audio_buffer))
                st,
          ))
    where
      s : StreamQualityData
      s = q.quality

  -- The first packet does not follow on: it goes back into the queue.
  pub pop_fill_in : Store P → AudioData P → List (AudioData P) → PacketStreamQueue → Popped
  pop_fill_in st p rest q =
      let (e, s, st') = fill_in st p q in
      let gap = add64 q.current_gap 1 in
      (
        some (e, true),
        record q {
          packets = insert_packet p rest;
          last_popped = counter P e;
          current_gap = gap;
          quality = record s { max_length_of_gap = max s.max_length_of_gap gap };
        },
        st',
      )

  abbrev pub follows_on : AudioData P → PacketStreamQueue → Bool
  follows_on p q = add64 q.last_popped 1 == counter P p || not (is_some q.last_popped_data)

  -- `try_pop` on the packets of the queue.
  pub pop_first : Store P → List (AudioData P) → PacketStreamQueue → Popped
  pop_first st [] q = (none, q, st)
  pop_first st (p ∷ rest) q =
      if follows_on p q then (some (p, false), pop_real p rest q, st) else pop_fill_in st p rest q

  pub try_pop : Store P → PacketStreamQueue → Popped
  unfolding pop_first
  try_pop st q = pop_first st q.packets q

  pub record FastForwardResult : Type 0 where
    pub discarded_packets : ℕ
    pub oldest_retained_counter : Option ℕ

  -- The loop of `fastForwardToSize` discards the oldest packets; it returns the packets and the
  -- set that are left, the newest discarded counter and the number of the discarded packets.
  pub discard_down_to :
      ℕ → List (AudioData P) → List ℕ → Option ℕ → ℕ → List (AudioData P) × List ℕ × Option ℕ × ℕ
  discard_down_to retained [] set newest n = ([], set, newest, n)
  discard_down_to retained (p ∷ ps) set newest n =
      let rest =
        discard_down_to retained ps (erase_counter (counter P p) set) (some (counter P p))
          (n + 1) in
      if ltb retained (suc (length ps)) then rest else (p ∷ ps, set, newest, n)

  -- Where counting goes on after the packets were discarded.
  abbrev rebased : List (AudioData P) → Option ℕ → ℕ → ℕ
  rebased [] none last = last
  rebased [] (some newest) last = newest
  rebased (p ∷ ps) newest last = if counter P p == 0 then 0 else counter P p - 1

  abbrev oldest : List (AudioData P) → Option ℕ
  oldest [] = none
  oldest (p ∷ ps) = some (counter P p)

  pub fast_forward_to_size : ℕ → PacketStreamQueue → FastForwardResult × PacketStreamQueue
  fast_forward_to_size retained q =
      let (ps, set, newest, n) = discard_down_to retained q.packets q.in_queue none 0 in
      if n == 0
      then (
        record { discarded_packets = 0; oldest_retained_counter = none },
        record q { packets = ps; in_queue = set },
      )
      else (
        record { discarded_packets = n; oldest_retained_counter = oldest ps },
        record q {
          packets = ps;
          in_queue = set;
          last_popped_data = none;
          current_gap = 0;
          last_popped = rebased ps newest q.last_popped;
          quality = record s {
            dropped_packet_counter = add64 s.dropped_packet_counter n;
            packages_popped = add64 s.packages_popped n;
          };
        },
      )
    where
      s : StreamQualityData
      s = q.quality
