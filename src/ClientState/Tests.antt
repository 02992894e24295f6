-- ===== src/ClientState/Tests.antt =====
-- One client at concrete inputs.
use jammer_netz.Base.{
  ℕ, ◌+◌, ◌-◌, ◌≡◌, ◌≢◌, refl, true, false, not, some, [], ◌∷◌, map, arith, leb, is_some, add64,
}
use jammer_netz.Package.{counter}
use jammer_netz.Queue.{PacketStreamQueue}
use jammer_netz.Samples.{integers, one_buffer, packet}
use jammer_netz.ClientState.{
  ClientState, connected, disconnecting, initial_connection, is_disconnected, new_client, push,
  mark_underrun, disconnect_if_grace_expired,
}
use jammer_netz.ClientState.Lifecycle.{
  IsConsistent, new_client-IsConsistent, push-connects, mark_underrun-IsStale, pops, expires, run,
  grace_period_lem,
}
use jammer_netz.ClientState.Prefill.{counters_from, push-prefills}

abbrev clock : ℕ → ℕ
clock i = i

push-connects_example :
    let (r, c', st') = push integers clock 3 (packet 10) (new_client integers) one_buffer in
    (c'.state ≡ connected)
    × (is_some c'.queue ≡ true)
    × (c'.has_connected ≡ true)
    × (c'.activity_generation ≢ 0)
    × (r.transition ≡ initial_connection)
    × IsConsistent integers c'
push-connects_example =
    push-connects integers clock 3 (packet 10) (new_client integers) one_buffer
      (new_client-IsConsistent integers)

mark_underrun-IsStale_example :
    let (_, c', _) = push integers clock 3 (packet 10) (new_client integers) one_buffer in
    mark_underrun integers 0 500 c' ≡ (false, c')
mark_underrun-IsStale_example =
    mark_underrun-IsStale integers clock 3 500 (packet 10) (new_client integers) one_buffer
      (omega arith)

push-prefills_example :
    let (r, c', st') = push integers clock 3 (packet 10) (new_client integers) one_buffer in
    (r.queued ≡ true)
    × (r.transition ≡ initial_connection)
    × ((q : PacketStreamQueue integers) × (c'.queue ≡ some q)
        × (map (counter integers) q.packets ≡ counters_from (10 - 3) (3 + 1)))
push-prefills_example =
    push-prefills integers clock 3 (packet 10) (new_client integers) one_buffer refl refl
      (omega arith) (omega arith)

abbrev client : ClientState integers
client = (push integers clock 3 (packet 10) (new_client integers) one_buffer).1

grace_period_lem_example :
    let c' =
      run integers
        (pops one_buffer ∷ expires 1500 ∷ [])
        (mark_underrun integers client.activity_generation 1000 client).1 in
    let (expired, c'') = disconnect_if_grace_expired integers 3200 c' in
    (c'.state ≡ disconnecting)
    × (is_some c'.queue ≡ true)
    × (expired ≡ leb (1000 + 2000) 3200)
    × (is_some c''.queue ≡ not expired)
    × (is_disconnected c''.state ≡ expired)
unfolding add64 push mark_underrun
grace_period_lem_example =
    grace_period_lem integers client.activity_generation 1000 3200
      (pops one_buffer ∷ expires 1500 ∷ []) client refl refl (tt, (omega arith, tt))
