-- ===== src/Scheduler/Waiting.antt =====
-- When the scheduler mixes and when it waits.
use jammer_netz.Base.{ℕ, ◌+◌, ◌≡◌, Bool, true, false, not, ◌&&◌, [], ◌∷◌, ltb, ◌==◌, arith, Text}
use jammer_netz.Platform.{Platform}
use jammer_netz.Package.{Store}
use jammer_netz.ClientState.{ClientState, is_disconnected, snapshot, disconnect_if_grace_expired}
use jammer_netz.ClientState.Steps.{apply_queue_pressure-after, snapshot-state}
use jammer_netz.Mixer.{Mixer}
use jammer_netz.Scheduler.{
  ServerBufferConfig, Clients, ScheduledMixResult, Survey, no_trigger, exceeds, settle,
  survey_client, survey, mix_round, process, trigger_of, blank,
}

module _ (P : Platform) where
  abbrev pub settled_client : ServerBufferConfig → ℕ → ClientState P → ClientState P
  settled_client config now c = (settle P config now c).2

  -- The clients after the grace periods and the queue pressure.
  abbrev pub settled : ServerBufferConfig → ℕ → Clients P → Clients P
  settled config now [] = []
  settled config now ((name, c) ∷ rest) =
      (name, settled_client config now c) ∷ settled config now rest

  abbrev one_if : Bool → ℕ
  one_if true = 1
  one_if false = 0

  -- How many clients take part.
  abbrev pub active_count : Clients P → ℕ
  active_count [] = 0
  active_count ((name, c) ∷ rest) = one_if (not (is_disconnected c.state)) + active_count rest

  -- How many of them hold more packets than the jitter buffer wants.
  abbrev pub ready_count : ServerBufferConfig → Clients P → ℕ
  ready_count config [] = 0
  ready_count config ((name, c) ∷ rest) =
      one_if (
        not (is_disconnected c.state)
        && exceeds (snapshot P c).size config.server_incoming_jitter_buffer)
      + ready_count config rest

  settle_after :
      (config : ServerBufferConfig) (now : ℕ) (c : ClientState P)
      → let (_, pressure, c') = settle P config now c in pressure.after ≡ snapshot P c'
  unfolding settle
  settle_after config now c =
      apply_queue_pressure-after P _ _ (disconnect_if_grace_expired P now c).1

  survey_client_lem :
      (config : ServerBufferConfig) (now : ℕ) (name : Text) (c : ClientState P) (s : Survey P)
      → let (c', s') = survey_client P config now name c s in
        (c' ≡ settled_client config now c)
        × (s'.client_count ≡ s.client_count + one_if (not (is_disconnected c'.state)))
        × (s'.available
            ≡ s.available
              + one_if (
                  not (is_disconnected c'.state)
                  && exceeds (snapshot P c').size config.server_incoming_jitter_buffer))
        × (s'.result.incoming ≡ s.result.incoming)
        × (s'.result.mix ≡ s.result.mix)
        × (s'.result.should_wake_again ≡ s.result.should_wake_again)
  unfolding survey_client
  survey_client_lem config now name c s =
      ground (arith, settle_after config now c, snapshot-state P (settled_client config now c))

  pub survey_lem :
      (config : ServerBufferConfig) (now : ℕ) (clients : Clients P) (s : Survey P)
      → let (clients', s') = survey P config now clients s in
        (clients' ≡ settled config now clients)
        × (s'.client_count ≡ s.client_count + active_count (settled config now clients))
        × (s'.available ≡ s.available + ready_count config (settled config now clients))
        × (s'.result.incoming ≡ s.result.incoming)
        × (s'.result.mix ≡ s.result.mix)
        × (s'.result.should_wake_again ≡ s.result.should_wake_again)
  unfolding survey
  survey_lem config now [] s = ground arith
  survey_lem config now ((name, c) ∷ rest) s =
      let one = survey_client_lem config now name c s in
      let others = survey_lem config now rest (survey_client P config now name c s).1 in
      ground (arith, one, others)

  -- Two or more clients take part and one of them is not ready.
  abbrev pub waits : ServerBufferConfig → Clients P → Bool
  waits config clients =
      ltb 1 (active_count clients) && not (active_count clients == ready_count config clients)

  abbrev start : Survey P
  start = record {
    result = blank P;
    client_count = 0;
    available = 0;
    queues_after_fast_forward = [];
  }

  -- While two or more clients take part and one of them holds no more packets than the jitter
  -- buffer wants, the scheduler takes no packet from any client: the clients are as the grace
  -- periods and the queue pressure leave them, nothing is mixed or sent, the sample position and
  -- the buffers stay, and there is no trigger and no call to wake again.
  pub process-waits :
      (config : ServerBufferConfig) (now : ℕ) (clients : Clients P) (m : Mixer P) (st : Store P)
      → waits config (settled config now clients) ≡ true
      → let (r, clients', m', st') = process P config now clients m st in
        (clients' ≡ settled config now clients)
        × (m' ≡ m)
        × (st' ≡ st)
        × (r.incoming ≡ [])
        × (r.mix.outgoing ≡ [])
        × (r.trigger ≡ no_trigger)
        × (r.should_wake_again ≡ false)
  unfolding process
  process-waits config now clients m st h = ground (arith, survey_lem config now clients start)

  -- Otherwise the scheduler mixes.
  pub process-mixes :
      (config : ServerBufferConfig) (now : ℕ) (clients : Clients P) (m : Mixer P) (st : Store P)
      → waits config (settled config now clients) ≡ false
      → let cs = settled config now clients in
        (r : ScheduledMixResult P) × (r.incoming ≡ [])
        × (process P config now clients m st
            ≡ mix_round P now
                (trigger_of
                  (active_count cs)
                  (ltb 0 (active_count cs) && active_count cs == ready_count config cs))
                r
                cs
                m
                st)
  unfolding process
  process-mixes config now clients m st h =
      let (clients', s) = survey P config now clients start in
      let facts = survey_lem config now clients start in (s.result, facts.3, ground (arith, facts))
