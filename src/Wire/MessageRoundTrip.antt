-- ===== src/Wire/MessageRoundTrip.antt =====
-- The other messages, serialized and deserialized.
use jammer_netz.Base.{ℕ, ◌≡◌, refl, ◌∙◌, false, some, List, [], ◌∷◌, ◌++◌, map, take, length, All}
use mathlib.Core.List.{append-nil}
use jammer_netz.Platform.{Platform}
use jammer_netz.Package.{SingleChannelSetup, Store, channel_for}
use jammer_netz.Wire.{
  got, Formats, FormatLaws, session_setup_type, generic_json_type, client_info_type, ControlTable,
  ClientInfoTable,
}
use jammer_netz.Wire.Audio.{channel_table}
use jammer_netz.Wire.Messages.{
  SessionInfoMessage, ClientInfo, ClientInfoMessage, session_message, control_message,
  client_info_message, session_table, serialize_session, serialize_control, serialize_client_info,
  client_table, with_counters, read_session_channels, read_session, read_control, read_clients,
  read_client, read_client_info, read_message, deserialize,
}
use jammer_netz.Wire.Dispatch.{deserialize-headed}

module _ (P : Platform) where
  -- The message as it arrives.
  pub received_session : SessionInfoMessage P → SessionInfoMessage P
  received_session m = record m {
    setup = record { local_monitoring = false; channels = m.setup.channels };
  }

  -- The jitter and the clock difference are not sent.
  pub received_client : ClientInfo P → ClientInfo P
  unfolding with_counters
  received_client i = record i { quality_info = with_counters P i.quality_info.counters }

  read_session_channels-channel_table :
      (cs : List (SingleChannelSetup P))
      → read_session_channels P (map (channel_table P) cs) ≡ got cs
  unfolding read_session_channels channel_table channel_for
  read_session_channels-channel_table [] = refl
  read_session_channels-channel_table (c ∷ cs) = rw (read_session_channels-channel_table cs) refl

  read_session-session_table :
      (m : SessionInfoMessage P)
      → read_session P (some (session_table P m)) ≡ got (received_session m)
  unfolding read_session session_table received_session
  read_session-session_table m = rw (read_session_channels-channel_table m.setup.channels) refl

  module _ (F : Formats P) (L : FormatLaws P F) where
    -- An address of a `juce::IPAddress`, which is what the constructor copies.
    unfoldable pub IsAddress : ClientInfo P → Type 0
    IsAddress i =
        (length i.ip_address ≡ 16) × (F.address_bytes i.ip_address i.is_ipv6 ≡ i.ip_address)

    read_clients-client_table :
        (is : List (ClientInfo P))
        → All IsAddress is
        → read_clients P F (map (client_table P) is) ≡ got (map received_client is)
    unfolding read_clients client_table read_client received_client IsAddress
    read_clients-client_table [] h = refl
    read_clients-client_table (i ∷ is) h = rw (h.0.0, h.0.1, read_clients-client_table is h.1) refl

    -- A session setup and a control message come back as they were sent, with any memory after the
    -- datagram; of the setup the flag for local monitoring is not sent.
    pub deserialize-serialize_session :
        (m : SessionInfoMessage P) (j : F.Json) (more : List ℕ) (st : Store P)
        → (deserialize P F (serialize_session P F m ++ more) (length (serialize_session P F m)) st
            ≡ got (session_message (received_session m), st))
          × (deserialize P F (serialize_control P F j ++ more) (length (serialize_control P F j)) st
              ≡ got (control_message j, st))
    unfolding serialize_session serialize_control read_message read_control
    deserialize-serialize_session m j more st =
        let t : ControlTable = record { control_message_json = some (F.dump j) } in
        let back =
          rw (append-nil (F.encode_session (session_table P m))) at
            (L.session_back (session_table P m) []) in
        let back' = rw (append-nil (F.encode_control t)) at (L.control_back t []) in
        (
          deserialize-headed P F session_setup_type (F.encode_session (session_table P m)) more st
              ∙ rw (back, read_session-session_table m) refl,
          deserialize-headed P F generic_json_type (F.encode_control t) more st
              ∙ rw (back', L.parse-dump j) refl,
        )

    -- A client info message comes back with its clients in order, their addresses, ports and nine
    -- counters, and its capabilities, with any memory after the datagram; the jitter is not sent.
    pub deserialize-serialize_client_info :
        (m : ClientInfoMessage P) (more : List ℕ) (st : Store P)
        → All IsAddress m.client_infos
        → deserialize P F
            (serialize_client_info P F m ++ more)
            (length (serialize_client_info P F m))
            st
          ≡ got (
            client_info_message (record m { client_infos = map received_client m.client_infos }),
            st,
          )
    unfolding serialize_client_info read_message read_client_info
    deserialize-serialize_client_info m more st h =
        let t : ClientInfoTable = record {
          client_infos = some (map (client_table P) m.client_infos);
          capabilities = some m.capabilities;
        } in
        deserialize-headed P F client_info_type (F.encode_client_info t) more st
        ∙ rw (L.client_info_back t (take 4 more), read_clients-client_table m.client_infos h) refl
