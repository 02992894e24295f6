-- ===== src/Scheduler.antt =====
-- One mix step over all clients: Server/Source/ServerMixScheduler.h and ServerMixScheduler.cpp,
-- with the settings of common/BuffersConfig.h. The clients are a list in the order in which the
-- map is iterated; each has its own object, which is never null since the only insertion makes one.
-- An int setting is a ℤ. A queue's size is taken to fit an int.
pub mod Waiting
pub mod Depth
pub mod Maps
pub mod Popping
pub mod Serving
mod Tests
use jammer_netz.Base.{
  ℕ, zero, suc, ◌+◌, Bool, true, false, not, ◌||◌, ◌&&◌, Option, none, some, List, [], ◌∷◌, ◌++◌,
  ltb, ◌==◌, if◌then◌else◌, Text, text_eq, text_lt, min,
}
use jammer_netz.Platform.{Platform}
use jammer_netz.Package.{AudioData, Store, ChannelSetup}
use jammer_netz.Queue.{FastForwardResult}
use jammer_netz.ClientState.{
  ClientState, Snapshot, PressureResult, is_disconnected, disconnect_if_grace_expired,
  apply_queue_pressure, try_pop_client, snapshot, mark_underrun,
}
use jammer_netz.Mixer.{Incoming, Mixer, MixStepResult, mix}

pub data ℤ : Type 0 where
  pos : ℕ → ℤ
  negsuc : ℕ → ℤ

-- `std::max(0, n)`.
abbrev pub max_zero : ℤ → ℕ
max_zero (pos n) = n
max_zero (negsuc n) = 0

-- `n > z`.
abbrev pub exceeds : ℕ → ℤ → Bool
exceeds n (pos m) = ltb m n
exceeds n (negsuc m) = true

pub record ServerBufferConfig : Type 0 where
  pub server_incoming_jitter_buffer : ℤ
  pub server_incoming_maximum_buffer : ℤ
  pub server_buffer_prefill_on_connect : ℤ

-- `ServerMixTrigger`; the last two are never set.
pub data Trigger : Type 0 where
  no_trigger single_client all_clients_ready maximum_buffer_pressure
        all_clients_ready_and_maximum_buffer_pressure :
      Trigger

-- `std::map<std::string, V>`: a list in the order of its keys; `emplace` keeps what is there.
pub emplace {ℓ} : {V : Type ℓ} → Text → V → List (Text × V) → List (Text × V)
emplace k v [] = (k, v) ∷ []
emplace k v ((k', v') ∷ rest) =
    let later = emplace k v rest in
    if text_lt k k'
    then (k, v) ∷ (k', v') ∷ rest
    else if text_eq k k'
    then (k', v') ∷ rest
    else (k', v') ∷ later

abbrev pub find {ℓ} : {V : Type ℓ} → Text → List (Text × V) → Option V
find k [] = none
find k ((k', v') ∷ rest) = let later = find k rest in if text_eq k k' then some v' else later

abbrev pub maximum_queue_depth : ServerBufferConfig → ℕ
maximum_queue_depth config = max_zero config.server_incoming_maximum_buffer

abbrev pub target_queue_depth : ServerBufferConfig → ℕ
target_queue_depth config =
    min (maximum_queue_depth config) (max_zero config.server_incoming_jitter_buffer)

abbrev pub trigger_of : ℕ → Bool → Trigger
trigger_of client_count ready =
    if client_count == 1 then single_client else if ready then all_clients_ready else no_trigger

module _ (P : Platform) where
  abbrev pub Clients : Type 0
  Clients = List (Text × ClientState P)

  pub record ScheduledMixResult : Type 0 where
    pub trigger : Trigger
    pub should_wake_again : Bool
    pub queues_before : List (Text × Snapshot)
    pub queues_after : List (Text × Snapshot)
    pub disconnected_clients : List Text
    pub underrun_clients : List Text
    pub fill_in_clients : List Text
    pub fast_forwarded_clients : List (Text × FastForwardResult P)
    pub incoming : Incoming P
    pub mix : MixStepResult P

  -- A result with the members' initial values.
  abbrev pub blank : ScheduledMixResult
  blank = record {
    trigger = no_trigger;
    should_wake_again = false;
    queues_before = [];
    queues_after = [];
    disconnected_clients = [];
    underrun_clients = [];
    fill_in_clients = [];
    fast_forwarded_clients = [];
    incoming = [];
    mix = record { server_time = 0; outgoing = []; diagnostics = [] };
  }

  -- The local variables of the first loop.
  pub record Survey : Type 0 where
    pub result : ScheduledMixResult
    pub client_count : ℕ
    pub available : ℕ
    pub queues_after_fast_forward : List (Text × Snapshot)

  abbrev pub note_disconnected : Text → Bool → ScheduledMixResult → ScheduledMixResult
  note_disconnected name expired r =
      if expired then record r { disconnected_clients = r.disconnected_clients ++ name ∷ [] } else r

  abbrev pub note_pressure : Text → PressureResult P → ScheduledMixResult → ScheduledMixResult
  note_pressure name pressure r =
      if ltb 0 pressure.fast_forward.discarded_packets
      then record r {
        fast_forwarded_clients = emplace name pressure.fast_forward r.fast_forwarded_clients;
      }
      else r

  -- A client after the grace period and the queue pressure.
  unfoldable pub settle :
      ServerBufferConfig → ℕ → ClientState P → Bool × PressureResult P × ClientState P
  settle config now c =
      let (expired, c') = disconnect_if_grace_expired P now c in
      let (pressure, c'') =
        apply_queue_pressure P (maximum_queue_depth config) (target_queue_depth config) c' in
      (expired, pressure, c'')

  pub survey_client :
      ServerBufferConfig → ℕ → Text → ClientState P → Survey → ClientState P × Survey
  survey_client config now name c s =
      let (expired, pressure, c') = settle config now c in
      let r = note_disconnected name expired s.result in
      let r' : ScheduledMixResult = record r {
        queues_before = emplace name pressure.before r.queues_before;
      } in
      let queues = emplace name pressure.after s.queues_after_fast_forward in
      if is_disconnected pressure.after.state
      then (c', record s { result = r'; queues_after_fast_forward = queues })
      else (
        c',
        record {
          result = note_pressure name pressure r';
          client_count = s.client_count + 1;
          available =
              if exceeds pressure.after.size config.server_incoming_jitter_buffer
              then s.available + 1
              else s.available;
          queues_after_fast_forward = queues;
        },
      )

  pub survey : ServerBufferConfig → ℕ → Clients → Survey → Clients × Survey
  survey config now [] s = ([], s)
  survey config now ((name, c) ∷ rest) s =
      let (c', s') = survey_client config now name c s in
      let (rest', s'') = survey config now rest s' in ((name, c') ∷ rest', s'')

  -- The second loop: what it adds to the result, and `observedActivity`.
  abbrev pub note_popped :
      Text
      → Option (AudioData P × Bool)
      → ℕ
      → Bool
      → ScheduledMixResult × List (Text × ℕ)
      → ScheduledMixResult × List (Text × ℕ)
  note_popped name (some (p, true)) generation gone (r, observed) = (
    record r {
      incoming = emplace name p r.incoming;
      fill_in_clients = r.fill_in_clients ++ name ∷ [];
      should_wake_again = true;
    },
    observed,
  )
  note_popped name (some (p, false)) generation gone (r, observed) =
      (record r { incoming = emplace name p r.incoming }, observed)
  note_popped name none generation gone (r, observed) =
      (r, (if gone then observed else emplace name generation observed))

  unfoldable pub pop_client :
      Text
      → ClientState P
      → ScheduledMixResult × List (Text × ℕ)
      → Store P
      → ClientState P × (ScheduledMixResult × List (Text × ℕ)) × Store P
  pop_client name c s st =
      let (popped, generation, c', st') = try_pop_client P c st in
      (c', note_popped name popped generation (is_disconnected (snapshot P c').state) s, st')

  unfoldable pub pop_all :
      Clients
      → ScheduledMixResult × List (Text × ℕ)
      → Store P
      → Clients × (ScheduledMixResult × List (Text × ℕ)) × Store P
  pop_all [] s st = ([], s, st)
  pop_all ((name, c) ∷ rest) s st =
      let (c', s', st') = pop_client name c s st in
      let (rest', s'', st'') = pop_all rest s' st' in ((name, c') ∷ rest', s'', st'')

  -- The third loop.
  abbrev pub mark : ℕ → Option ℕ → ClientState P → Bool × ClientState P
  mark now none c = (false, c)
  mark now (some generation) c = mark_underrun P generation now c

  unfoldable pub mark_client :
      ℕ
      → List (Text × ℕ)
      → Text
      → ClientState P
      → ScheduledMixResult
      → ClientState P × ScheduledMixResult
  mark_client now observed name c r =
      let (underrun, c') = mark now (find name observed) c in
      (
        c',
        record r {
          underrun_clients =
              if underrun then r.underrun_clients ++ name ∷ [] else r.underrun_clients;
          queues_after = emplace name (snapshot P c') r.queues_after;
        },
      )

  unfoldable pub mark_all :
      ℕ → List (Text × ℕ) → Clients → ScheduledMixResult → Clients × ScheduledMixResult
  mark_all now observed [] r = ([], r)
  mark_all now observed ((name, c) ∷ rest) r =
      let (c', r') = mark_client now observed name c r in
      let (rest', r'') = mark_all now observed rest r' in ((name, c') ∷ rest', r'')

  -- `process` behind the early return.
  unfoldable pub mix_round :
      ℕ
      → Trigger
      → ScheduledMixResult
      → Clients
      → Mixer P
      → Store P
      → ScheduledMixResult × Clients × Mixer P × Store P
  mix_round now trigger r clients m st =
      let (popped, (r', observed), st') = pop_all clients (record r { trigger = trigger }, []) st in
      let (marked, r'') = mark_all now observed popped r' in
      let (step, m', st'') = mix P r''.incoming m st' in
      (record r'' { mix = step }, marked, m', st'')

  pub process :
      ServerBufferConfig
      → ℕ
      → Clients
      → Mixer P
      → Store P
      → ScheduledMixResult × Clients × Mixer P × Store P
  process config now clients m st =
      let (clients', s) = survey config now clients (record {
        result = blank;
        client_count = 0;
        available = 0;
        queues_after_fast_forward = [];
      }) in
      let ready = ltb 0 s.client_count && s.client_count == s.available in
      if not ready && ltb 1 s.client_count
      then (
        record s.result { trigger = no_trigger; queues_after = s.queues_after_fast_forward },
        clients',
        m,
        st,
      )
      else mix_round now (trigger_of s.client_count ready) s.result clients' m st
