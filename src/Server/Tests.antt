-- ===== src/Server/Tests.antt =====
-- The server at concrete inputs.
use jammer_netz.Base.{
  ℕ, ◌%◌, ◌≡◌, ◌&&◌, ◌==◌, true, none, some, if◌then◌else◌, [], ◌∷◌, List, arith, text_eq, refl,
}
use jammer_netz.Package.{Store, current_protocol, supports_split_session_info}
use jammer_netz.Mixer.{OutgoingPackage, mix}
use jammer_netz.Samples.{integers, one_buffer, packet, left_setup, ann, bob}
use jammer_netz.Scheduler.{ServerBufferConfig, Clients, pos}
use jammer_netz.Server.{
  Server, new_server, insert_client, process_audio_message, send_next, send, client_infos,
}
use jammer_netz.ClientState
use jammer_netz.ClientState.{ClientState, PushResult, new_client}
use jammer_netz.Server.Calls.{here, pushes}
use jammer_netz.Server.Reach.{
  Reach, start, more, forwards, sends, inserts, calls, mixes, IsServing, Reach-IsServing,
}
use jammer_netz.Server.Fec.{rings_after, last_to, send_audio_block, send_audio_block-fec}
use jammer_netz.Server.Reports.{counters_after, packages_to, any_reports, send-reports}

abbrev config : ServerBufferConfig
config = record {
  server_incoming_jitter_buffer = pos 1;
  server_incoming_maximum_buffer = pos 4;
  server_buffer_prefill_on_connect = pos 2;
}

abbrev launched : Server integers
launched = new_server integers left_setup one_buffer

abbrev joined : Server integers
joined =
    process_audio_message integers config (λ i. i) (packet 10) ann
      (record launched { store = one_buffer })

abbrev package_for : List ℕ → OutgoingPackage integers
package_for name = record {
  target_address = name;
  audio_block = (packet 10).audio_block;
  session_setup = left_setup;
  receiver_protocol_version = current_protocol;
}

-- A packet of ann is accepted and mixed, and a package for her is put into the queue and sent.
abbrev inserted : Server integers
inserted = record launched { clients = insert_client integers ann launched.clients }

abbrev pushed : PushResult integers × ClientState integers × Store integers
pushed = ClientState.push integers (λ i. i) 2 (packet 10) (new_client integers) one_buffer

abbrev accepted : Server integers
accepted = record inserted { clients = (ann, pushed.1) ∷ []; store = pushed.2 }

abbrev after_mix : Server integers
after_mix = record accepted {
  mixer = (mix integers ((ann, packet 10) ∷ []) accepted.mixer accepted.store).1;
  store = (mix integers ((ann, packet 10) ∷ []) accepted.mixer accepted.store).2;
}

abbrev queued : Server integers
queued = record after_mix { send_queue = package_for ann ∷ [] }

queued-Reach : Reach integers launched queued (package_for ann ∷ []) []
unfolding new_server
queued-Reach =
    forwards after_mix (package_for ann) [] []
      (more accepted after_mix [] []
        (more inserted accepted [] [] (more launched inserted [] [] start (inserts ann)) (
          calls ((ann, pushed.1) ∷ []) pushed.2 (
            here ann (new_client integers) pushed.1 [] one_buffer pushed.2
              (pushes (λ i. i) 2 (packet 10) (omega arith)))))
        (mixes ((ann, packet 10) ∷ [])))
      (omega arith)

Reach-IsServing_example :
    IsServing integers (send_next integers queued) (package_for ann ∷ []) (package_for ann ∷ [])
unfolding new_server
Reach-IsServing_example =
    Reach-IsServing integers left_setup one_buffer (send_next integers queued)
      (package_for ann ∷ []) (package_for ann ∷ [])
      (sends queued (package_for ann) [] (package_for ann ∷ []) [] queued-Reach refl)

abbrev earlier : List (Clients integers × OutgoingPackage integers)
earlier = ([], package_for bob) ∷ ([], package_for ann) ∷ ([], package_for bob) ∷ []

send-reports_example :
    let (sent, _) =
      send integers joined.clients (package_for ann) (counters_after integers earlier []) in
    let due = packages_to integers ann earlier % 100 == 0 in
    (sent.sent_package ≡ package_for ann)
    × (sent.client_info ≡ (
        if due && any_reports integers joined.clients
        then some (client_infos integers joined.clients)
        else none))
    × (sent.with_session_info ≡ (due && supports_split_session_info current_protocol))
unfolding text_eq
send-reports_example = send-reports integers earlier joined.clients (package_for ann) (omega arith)

send_audio_block-fec_example :
    let earlier = package_for bob ∷ package_for ann ∷ package_for bob ∷ [] in
    let fresh = (packet 0).audio_block in
    let (d, _) =
      send_audio_block integers fresh true
        (package_for ann)
        (rings_after integers fresh true earlier []) in
    (d.audio_block ≡ (packet 10).audio_block)
    × (d.fec_block ≡ (if true then last_to integers ann earlier none else none))
    × (d.legacy_session
        ≡ (if supports_split_session_info current_protocol then none else some left_setup))
send_audio_block-fec_example =
    send_audio_block-fec integers (packet 0).audio_block true
      (package_for bob ∷ package_for ann ∷ package_for bob ∷ []) (package_for ann)
