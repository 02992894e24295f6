-- ===== src/ClientState.antt =====
-- One client's queue and connection state: Server/Source/ClientState.h and ClientState.cpp.
-- The members run under the object's mutex, so each is one step. A time point is a number of
-- milliseconds. The i-th packet that one call of `push` puts into the queue reads the clock
-- `clock i`. The client's name, which the queue prints, is left out.
pub mod Lifecycle
pub mod Prefill
pub mod Steps
pub mod Intake
mod Tests
use jammer_netz.Base.{
  ℕ, zero, suc, ◌+◌, Bool, true, false, not, ◌||◌, ◌&&◌, Option, none, some, List, [], ◌∷◌, ltb,
  ◌==◌, if◌then◌else◌, add64, is_some,
}
use mathlib.Core.List.{reverse}
use jammer_netz.Platform.{Platform}
use jammer_netz.Package.{AudioData, Store, create_pre_padding_package}
use jammer_netz.Queue
use jammer_netz.Queue.{
  PacketStreamQueue, StreamQualityData, FastForwardResult, new_queue, try_pop, fast_forward_to_size,
  size,
}

-- `ClientConnectionState`.
pub data ConnectionState : Type 0 where
  disconnected connected disconnecting : ConnectionState

-- `ClientConnectionTransition`.
pub data Transition : Type 0 where
  unchanged initial_connection grace_recovery reconnection : Transition

abbrev pub is_disconnected : ConnectionState → Bool
is_disconnected disconnected = true
is_disconnected _ = false

abbrev pub is_connected : ConnectionState → Bool
is_connected connected = true
is_connected _ = false

abbrev pub is_disconnecting : ConnectionState → Bool
is_disconnecting disconnecting = true
is_disconnecting _ = false

-- Milliseconds.
abbrev pub disconnect_grace_period : ℕ
disconnect_grace_period = 2000

pub record Snapshot : Type 0 where
  pub state : ConnectionState
  pub size : ℕ
  pub activity_generation : ℕ

module _ (P : Platform) where
  pub record ClientState : Type 0 where
    pub state : ConnectionState
    pub queue : Option (PacketStreamQueue P)
    pub disconnect_deadline : ℕ
    pub activity_generation : ℕ
    pub has_connected : Bool

  -- The members' initial values.
  abbrev pub new_client : ClientState
  new_client = record {
    state = disconnected;
    queue = none;
    disconnect_deadline = 0;
    activity_generation = 0;
    has_connected = false;
  }

  -- The packets of silence for the `n` counters below a packet, the highest first.
  pub paddings : ℕ → AudioData P → Store P → List (AudioData P) × Store P
  paddings zero p st = ([], st)
  paddings (suc n) p st =
      let (e, st') = create_pre_padding_package P p st in
      let (rest, st'') = paddings n e st' in (e ∷ rest, st'')

  pub push_all : (ℕ → P.Float) → ℕ → List (AudioData P) → PacketStreamQueue P → PacketStreamQueue P
  push_all clock i [] q = q
  push_all clock i (p ∷ ps) q = push_all clock (i + 1) ps (Queue.push P (clock i) p q).1

  -- The queue that the packet goes into, and the transition.
  abbrev pub opened : ClientState → PacketStreamQueue P × Transition
  opened c = elim c.queue [
    | none ↦ (new_queue P, (if c.has_connected then reconnection else initial_connection))
    | some q ↦ (q, (if is_disconnecting c.state then grace_recovery else unchanged))
  ]

  -- The padding before the first packet of a client, the lowest counter first.
  abbrev pub prefilled :
      (ℕ → P.Float)
      → ℕ
      → AudioData P
      → Bool
      → PacketStreamQueue P
      → Store P
      → PacketStreamQueue P × Store P
  prefilled clock count p has_connected q st =
      if has_connected
      then (q, st)
      else (let (ps, st') = paddings count p st in (push_all clock 0 (reverse ps) q, st'))

  pub record PushResult : Type 0 where
    pub queued : Bool
    pub transition : Transition

  pub push :
      (ℕ → P.Float) → ℕ → AudioData P → ClientState → Store P → PushResult × ClientState × Store P
  push clock count p c st =
      let (q, transition) = opened c in
      let (q', st') = prefilled clock count p c.has_connected q st in
      let (queued, q'') = Queue.push P (clock count) p q' in
      (
        record { queued = queued; transition = transition },
        record c {
          state = connected;
          has_connected = true;
          activity_generation = add64 c.activity_generation 1;
          queue = some q'';
        },
        st',
      )

  -- `none`, or the packet and whether it is a fill-in; then the observed activity generation.
  pub try_pop_client :
      ClientState → Store P → Option (AudioData P × Bool) × ℕ × ClientState × Store P
  try_pop_client c st = elim c.queue [
    | none ↦ (none, c.activity_generation, c, st)
    | some q ↦
        if is_disconnected c.state
        then (none, c.activity_generation, c, st)
        else (let (r, q', st') = try_pop P st q in
            (r, c.activity_generation, record c { queue = some q' }, st'))
  ]

  abbrev queue_size : ClientState → ℕ
  queue_size c = elim c.queue [
    | none ↦ 0
    | some q ↦ if is_disconnected c.state then 0 else size P q
  ]

  unfoldable pub snapshot : ClientState → Snapshot
  snapshot c = record {
    state = c.state;
    size = queue_size c;
    activity_generation = c.activity_generation;
  }

  abbrev pub no_fast_forward : FastForwardResult P
  no_fast_forward = record { discarded_packets = 0; oldest_retained_counter = none }

  pub record PressureResult : Type 0 where
    pub before : Snapshot
    pub after : Snapshot
    pub fast_forward : FastForwardResult P

  abbrev under_pressure :
      ℕ → ℕ → ClientState → PacketStreamQueue P → FastForwardResult P × ClientState
  under_pressure maximum retained c q =
      if ltb maximum (size P q)
      then (let (r, q') = fast_forward_to_size P retained q in (r, record c { queue = some q' }))
      else (no_fast_forward, c)

  unfoldable pub apply_queue_pressure : ℕ → ℕ → ClientState → PressureResult × ClientState
  unfolding snapshot
  apply_queue_pressure maximum retained c = elim c.queue [
    | none ↦ (record { before = snapshot c; after = snapshot c; fast_forward = no_fast_forward }, c)
    | some q ↦
        if is_disconnected c.state
        then (record { before = snapshot c; after = snapshot c; fast_forward = no_fast_forward }, c)
        else (let (r, c') = under_pressure maximum retained c q in
            (record { before = snapshot c; after = snapshot c'; fast_forward = r }, c'))
  ]

  pub quality_info : ClientState → Option (StreamQualityData P)
  quality_info c = elim c.queue [
    | none ↦ none
    | some q ↦ if is_disconnected c.state then none else some q.quality
  ]

  pub mark_underrun : ℕ → ℕ → ClientState → Bool × ClientState
  mark_underrun observed now c =
      if not (is_connected c.state) || not (c.activity_generation == observed)
      then (false, c)
      else (
        true,
        record c { state = disconnecting; disconnect_deadline = now + disconnect_grace_period },
      )

  unfoldable pub disconnect_if_grace_expired : ℕ → ClientState → Bool × ClientState
  disconnect_if_grace_expired now c =
      if not (is_disconnecting c.state) || ltb now c.disconnect_deadline
      then (false, c)
      else (true, record c { state = disconnected; queue = none })
