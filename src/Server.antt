-- ===== src/Server.antt =====
-- The server's threads and the queues between them: AcceptThread.cpp (from the deserialized packet
-- on), MixerThread.cpp, SendThread.cpp and Main.cpp of Server/Source. Here each thread works
-- in rounds: a packet is accepted, one wake-up is taken and mixed, one package is sent. The single
-- calls that a round is made of are in Server/Calls. The bytes, the encryption, the sockets and what
-- is printed are left out.
pub mod Calls
pub mod Keys
pub mod Reach
mod Rounds
pub mod Reports
pub mod Fec
mod Tests
use jammer_netz.Base.{
  ℕ, zero, suc, ◌+◌, ◌%◌, Bool, true, false, not, ◌&&◌, Option, none, some, List, [], ◌∷◌, ◌++◌,
  ltb, ◌==◌, if◌then◌else◌, Text, text_eq, length, add64,
}
use jammer_netz.Platform.{Platform}
use jammer_netz.Package.{
  AudioData, Store, ChannelSetup, SingleChannelSetup, left, right, supports_split_session_info,
}
use jammer_netz.ClientState
use jammer_netz.ClientState.{ClientState, new_client, snapshot, quality_info}
use jammer_netz.Queue.{StreamQualityData}
use jammer_netz.Mixer.{Mixer, OutgoingPackage, new_mixer}
use jammer_netz.Scheduler.{Clients, ServerBufferConfig, ScheduledMixResult, process, max_zero}

-- `sendQueue_.set_capacity`.
abbrev pub send_queue_capacity : ℕ
send_queue_capacity = 128

module _ (P : Platform) where
  open P use {Float, literal}

  -- The objects that the threads share, and the state of the mixer and of the sender.
  pub record Server : Type 0 where
    pub clients : Clients P
    pub mixer : Mixer P
    pub store : Store P
    pub wake_ups : List ℕ
    pub send_queue : List (OutgoingPackage P)
    pub package_counters : List (Text × ℕ)

  -- `insert` of a new client, which leaves a client of that name as it is.
  abbrev pub insert_client : Text → Clients P → Clients P
  insert_client name [] = (name, new_client P) ∷ []
  insert_client name ((name', c) ∷ rest) =
      let later = insert_client name rest in
      if text_eq name name' then (name', c) ∷ rest else (name', c) ∷ later

  -- `push` on the client of a name; a name that is not there changes nothing.
  abbrev pub push_to :
      (ℕ → Float) → ℕ → AudioData P → Text → Clients P → Store P → Bool × Clients P × Store P
  push_to clock count p name [] st = (false, [], st)
  push_to clock count p name ((name', c) ∷ rest) st =
      let (queued', rest', st') = push_to clock count p name rest st in
      let (r, c', st'') = ClientState.push P clock count p c st in
      if text_eq name name'
      then (r.queued, (name', c') ∷ rest, st'')
      else (queued', (name', c) ∷ rest', st')

  -- `AcceptThread::processAudioMessage`.
  pub process_audio_message :
      ServerBufferConfig → (ℕ → Float) → AudioData P → Text → Server → Server
  process_audio_message config clock p name s =
      let prefill_count = max_zero config.server_buffer_prefill_on_connect in
      let (queued, clients', st') =
        push_to clock prefill_count p name (insert_client name s.clients) s.store in
      record s {
        clients = clients';
        store = st';
        wake_ups = if queued then s.wake_ups ++ 1 ∷ [] else s.wake_ups;
      }

  -- The time-out of `AcceptThread::run`.
  pub accept_timeout : Server → Server
  accept_timeout s = record s { wake_ups = s.wake_ups ++ 0 ∷ [] }

  -- The `try_push` of each package; `none` ends the process.
  pub push_outgoing :
      List (OutgoingPackage P) → List (OutgoingPackage P) → Option (List (OutgoingPackage P))
  push_outgoing [] queue = some queue
  push_outgoing (package' ∷ rest) queue =
      let others = push_outgoing rest (queue ++ package' ∷ []) in
      if ltb (length queue) send_queue_capacity then others else none

  abbrev pub forward :
      ScheduledMixResult P → List (OutgoingPackage P) → Option (List (OutgoingPackage P))
  forward r queue = elim r.incoming [ [] ↦ some queue | _ ∷ _ ↦ push_outgoing r.mix.outgoing queue ]

  -- What a mix leaves, unless the send queue overflows.
  abbrev pub mixed :
      List ℕ
      → Server
      → ScheduledMixResult P × Clients P × Mixer P × Store P
      → Option (List (OutgoingPackage P))
      → Option Server
  mixed waiting s x none = none
  mixed waiting s (r, clients', m', st') (some queue) = some (record s {
    clients = clients';
    mixer = m';
    store = st';
    wake_ups = if r.should_wake_again then waiting ++ 0 ∷ [] else waiting;
    send_queue = queue;
  })

  -- One round of `MixerThread::run`, which blocks until there is a wake-up; `none` is the exit on
  -- an overflow of the send queue.
  abbrev pub mix_next_from : ServerBufferConfig → ℕ → List ℕ → Server → Option Server
  mix_next_from config now [] s = some s
  mix_next_from config now (message ∷ waiting) s =
      let x = process P config now s.clients s.mixer s.store in
      mixed waiting s x (forward x.0 s.send_queue)

  pub mix_next : ServerBufferConfig → ℕ → Server → Option Server
  mix_next config now s = mix_next_from config now s.wake_ups s

  -- A package on its way, and the packages of statistics and of the session that follow it.
  pub record Sent : Type 0 where
    pub sent_package : OutgoingPackage P
    pub client_info : Option (List (Text × StreamQualityData P))
    pub with_session_info : Bool

  -- `packageCounters_`, where a missing address counts 0.
  abbrev pub package_count : Text → List (Text × ℕ) → ℕ
  package_count name [] = 0
  package_count name ((name', n) ∷ rest) =
      let later = package_count name rest in if text_eq name name' then n else later

  abbrev pub count_package : Text → List (Text × ℕ) → List (Text × ℕ)
  count_package name [] = (name, 1) ∷ []
  count_package name ((name', n) ∷ rest) =
      let later = count_package name rest in
      if text_eq name name' then (name', add64 n 1) ∷ rest else (name', n) ∷ later

  abbrev pub add_info :
      Text
      → Option (StreamQualityData P)
      → List (Text × StreamQualityData P)
      → List (Text × StreamQualityData P)
  add_info name none infos = infos
  add_info name (some quality) infos = (name, quality) ∷ infos

  -- The loop of `sendClientInfoPackage` over the clients.
  unfoldable pub client_infos : Clients P → List (Text × StreamQualityData P)
  client_infos [] = []
  client_infos ((name, c) ∷ rest) =
      let infos = client_infos rest in
      if ltb 0 (snapshot P c).size then add_info name (quality_info P c) infos else infos

  -- Its early return when no client has data.
  abbrev pub unless_empty :
      List (Text × StreamQualityData P) → Option (List (Text × StreamQualityData P))
  unless_empty [] = none
  unless_empty (i ∷ is) = some (i ∷ is)

  -- One round of `SendThread::run`, which blocks until there is a package.
  pub send : Clients P → OutgoingPackage P → List (Text × ℕ) → Sent × List (Text × ℕ)
  send clients package' counters =
      let informs = package_count package'.target_address counters % 100 == 0 in
      (
        record {
          sent_package = package';
          client_info = if informs then unless_empty (client_infos clients) else none;
          with_session_info =
              informs && supports_split_session_info package'.receiver_protocol_version;
        },
        count_package package'.target_address counters,
      )

  abbrev pub send_next_from : List (OutgoingPackage P) → Server → Server
  send_next_from [] s = s
  send_next_from (package' ∷ rest) s = record s {
    send_queue = rest;
    package_counters = (send s.clients package' s.package_counters).1;
  }

  pub send_next : Server → Server
  send_next s = send_next_from s.send_queue s

  -- The members' initial values.
  pub new_server : ChannelSetup P → Store P → Server
  new_server setup st = record {
    clients = [];
    mixer = new_mixer P setup;
    store = st;
    wake_ups = [];
    send_queue = [];
    package_counters = [];
  }
