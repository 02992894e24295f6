-- ===== src/Scheduler/Tests.antt =====
-- The scheduler at concrete inputs.
use jammer_netz.Base.{ℕ, ◌≡◌, refl, true, false, some, List, [], ◌∷◌, arith}
use jammer_netz.Package.{AudioData}
use jammer_netz.Queue.{new_queue, size, member}
use jammer_netz.Queue.Order.{IsOrdered}
use jammer_netz.ClientState.{
  ClientState, connected, new_client, disconnect_if_grace_expired, apply_queue_pressure, snapshot,
}
use jammer_netz.Mixer.{Mixer, new_mixer, mix}
use jammer_netz.Samples.{integers, one_buffer, packet, left_setup, ann, bob}
use jammer_netz.Scheduler.{ServerBufferConfig, Clients, pos, no_trigger, process, settle}
use jammer_netz.Scheduler.Waiting.{settled, process-waits}
use jammer_netz.Scheduler.Depth.{AllWithin, process-AllWithin}

runs : Unit {0}
unfolding settle disconnect_if_grace_expired apply_queue_pressure snapshot size
runs = tt

abbrev config : ServerBufferConfig
config = record {
  server_incoming_jitter_buffer = pos 1;
  server_incoming_maximum_buffer = pos 4;
  server_buffer_prefill_on_connect = pos 2;
}

-- A connected client with these packets.
abbrev client_with : List (AudioData integers) → List ℕ → ClientState integers
client_with packets numbers = record (new_client integers) {
  state = connected;
  has_connected = true;
  activity_generation = 1;
  queue = some (record (new_queue integers) { packets = packets; in_queue = numbers });
}

abbrev full : ClientState integers
full = client_with (packet 10 ∷ packet 11 ∷ []) (10 ∷ 11 ∷ [])

abbrev starving : ClientState integers
starving = client_with [] []

abbrev duo : Clients integers
duo = (ann, full) ∷ (bob, starving) ∷ []

abbrev solo : Clients integers
solo = (bob, full) ∷ []

abbrev mixer : Mixer integers
mixer = new_mixer integers left_setup

process-waits_example :
    let (r, clients', m', st') = process integers config 0 duo mixer one_buffer in
    (clients' ≡ settled integers config 0 duo)
    × (m' ≡ mixer)
    × (st' ≡ one_buffer)
    × (r.incoming ≡ [])
    × (r.mix.outgoing ≡ [])
    × (r.trigger ≡ no_trigger)
    × (r.should_wake_again ≡ false)
unfolding runs
process-waits_example = process-waits integers config 0 duo mixer one_buffer refl

full-IsOrdered :
    IsOrdered integers (record (new_queue integers) {
      packets = packet 10 ∷ packet 11 ∷ [];
      in_queue = 10 ∷ 11 ∷ [];
    })
unfolding member new_queue
full-IsOrdered = record {
  rising = (omega arith, omega arith, (omega arith, omega arith, tt));
  tracked = λ c. ground arith;
}

process-AllWithin_example :
    let (_, clients', _, _) = process integers config 0 solo mixer one_buffer in
    AllWithin integers 4 clients'
process-AllWithin_example =
    process-AllWithin integers config 0 solo mixer one_buffer (full-IsOrdered, tt)
