-- ===== src/Wire/Messages.antt =====
-- The other messages of common/JammerNetzPackage.h and JammerNetzClientInfoMessage.cpp, and
-- `JammerNetzMessage::deserialize`. A decoder of the client info message is given as many bytes as
-- the datagram has, starting after the header.
use jammer_netz.Base.{
  ℕ, ◌-◌, ◌%◌, Bool, false, ◌&&◌, ◌||◌, Option, none, some, List, [], ◌∷◌, ◌++◌, map, ltb, leb,
  ◌==◌, if◌then◌else◌, Text, text_eq, length, take, get_elem?,
}
use jammer_netz.Platform.{Platform}
use jammer_netz.Package.{AudioData, ChannelSetup, SingleChannelSetup, Store, channel_for}
use jammer_netz.Wire.{
  Read, got, rejected, ◌>>=◌, deref, audio_type, client_info_type, session_setup_type,
  generic_json_type, header_size, write_header, ChannelTable, SessionTable, ControlTable,
  QualityTable, ClientTable, ClientInfoTable, Formats,
}
use jammer_netz.Wire.Audio.{channel_table, read_audio}

-- `supportsCapability`.
unfoldable pub supports_capability : List Text → Text → Bool
supports_capability [] c = false
supports_capability (d ∷ ds) c = text_eq d c || supports_capability ds c

-- `addCapability`.
abbrev pub add_capability : List Text → Text → List Text
add_capability ds d = ds ++ d ∷ []

abbrev pub or_empty {ℓ} : {A : Type ℓ} → Option (List A) → List A
or_empty none = []
or_empty (some xs) = xs

module _ (P : Platform) where
  open P use {Float, literal}

  -- `JammerNetzSessionInfoMessage`; the flag of its setup is never true.
  pub record SessionInfoMessage : Type 0 where
    pub setup : ChannelSetup P
    pub capabilities : List Text

  unfoldable pub session_table : SessionInfoMessage → SessionTable P
  session_table m = record {
    all_channels = some (map (channel_table P) m.setup.channels);
    capabilities = some m.capabilities;
  }

  unfoldable pub serialize_session : Formats P → SessionInfoMessage → List ℕ
  unfolding session_table
  serialize_session F m = write_header session_setup_type ++ F.encode_session (session_table m)

  -- The loop over the channels.
  unfoldable pub read_session_channels : List (ChannelTable P) → Read (List (SingleChannelSetup P))
  unfolding channel_for
  read_session_channels [] = got []
  read_session_channels (t ∷ ts) = do
    name ← deref t.name
    rest ← read_session_channels ts
    got (
        record (channel_for P t.target) {
          volume = t.volume;
          mag = t.mag;
          rms = t.rms;
          pitch = t.pitch;
          name = name;
        }
        ∷ rest)

  -- The constructor; a table that does not verify leaves the message empty.
  unfoldable pub read_session : Option (SessionTable P) → Read SessionInfoMessage
  unfolding read_session_channels
  read_session none =
      got (record { setup = record { local_monitoring = false; channels = [] }; capabilities = [] })
  read_session (some t) = do
    ts ← deref t.all_channels
    channels ← read_session_channels ts
    got (record {
      setup = record { local_monitoring = false; channels = channels };
      capabilities = or_empty t.capabilities;
    })

  -- `JammerNetzControlMessage`.
  unfoldable pub serialize_control : (F : Formats P) → F.Json → List ℕ
  serialize_control F j =
      write_header generic_json_type
      ++ F.encode_control (record { control_message_json = some (F.dump j) })

  abbrev pub json_or_throw : (F : Formats P) → Option F.Json → Read F.Json
  json_or_throw F none = rejected
  json_or_throw F (some j) = got j

  unfoldable pub read_control : (F : Formats P) → Option ControlTable → Read F.Json
  read_control F none = got F.json_null
  read_control F (some t) =
      deref t.control_message_json >>= λ text. json_or_throw F (F.parse_json text)

  -- `JammerNetzStreamQualityInfo`.
  pub record StreamQualityInfo : Type 0 where
    pub counters : QualityTable
    pub wall_clock_delta : Float
    pub jitter_mean_millis : Float
    pub jitter_sd_millis : Float

  -- `JammerNetzClientInfo`, whose constructor copies the bytes of an address.
  pub record ClientInfo : Type 0 where
    pub ip_address : List ℕ
    pub is_ipv6 : Bool
    pub port_number : ℕ
    pub quality_info : StreamQualityInfo

  -- `JammerNetzClientInfoMessage`.
  pub record ClientInfoMessage : Type 0 where
    pub client_infos : List ClientInfo
    pub capabilities : List Text

  -- `addClientInfo`.
  abbrev pub add_client_info : ClientInfo → ClientInfoMessage → ClientInfoMessage
  add_client_info i m = record m { client_infos = m.client_infos ++ i ∷ [] }

  -- `getNumClients`: 8 bits.
  abbrev pub get_num_clients : ClientInfoMessage → ℕ
  get_num_clients m = length m.client_infos % 256

  unfoldable pub blank_counters : QualityTable
  blank_counters = record {
    too_late_or_duplicate = 0;
    dropped_packet_counter = 0;
    out_of_order_packet_counter = 0;
    duplicate_packet_counter = 0;
    drops_healed = 0;
    packages_pushed = 0;
    packages_popped = 0;
    max_length_of_gap = 0;
    max_wrong_order_span = 0;
  }

  -- A quality info of these counters, with the rest as it is initialised.
  unfoldable pub with_counters : QualityTable → StreamQualityInfo
  with_counters q = record {
    counters = q;
    wall_clock_delta = literal 0 0;
    jitter_mean_millis = literal 0 0;
    jitter_sd_millis = literal 0 0;
  }

  abbrev pub quality_or_blank : Option ClientInfo → StreamQualityInfo
  unfolding with_counters blank_counters
  quality_or_blank none = with_counters blank_counters
  quality_or_blank (some i) = i.quality_info

  -- `getStreamQuality`.
  unfoldable pub get_stream_quality : ClientInfoMessage → ℕ → StreamQualityInfo
  get_stream_quality m client_no =
      if ltb client_no (get_num_clients m)
      then quality_or_blank (get_elem? m.client_infos client_no)
      else quality_or_blank none

  -- The loop's body in `serialize`.
  unfoldable pub client_table : ClientInfo → ClientTable
  client_table i = record {
    ip_address = some i.ip_address;
    is_ipv6 = i.is_ipv6;
    port_number = i.port_number;
    quality_info = some i.quality_info.counters;
  }

  -- `serialize`, where `byteswritten` starts at 0 as at every call.
  unfoldable pub serialize_client_info : Formats P → ClientInfoMessage → List ℕ
  unfolding client_table
  serialize_client_info F m =
      write_header client_info_type
      ++ F.encode_client_info (record {
        client_infos = some (map client_table m.client_infos);
        capabilities = some m.capabilities;
      })

  -- The body of the loop over the clients, before the clients that follow: an address that has not
  -- 16 bytes is skipped.
  unfoldable pub read_client : Formats P → ClientTable → List ℕ → Read (List ClientInfo)
  unfolding with_counters
  read_client F t ip =
      if length ip == 16
      then (deref t.quality_info >>= λ q. got (
          record {
            ip_address = F.address_bytes ip t.is_ipv6;
            is_ipv6 = t.is_ipv6;
            port_number = t.port_number;
            quality_info = with_counters q;
          }
          ∷ []))
      else got []

  unfoldable pub read_clients : Formats P → List ClientTable → Read (List ClientInfo)
  read_clients F [] = got []
  read_clients F (t ∷ ts) = do
    ip ← deref t.ip_address
    info ← read_client F t ip
    infos ← read_clients F ts
    got (info ++ infos)

  -- The constructor; a table that does not verify leaves the message empty.
  unfoldable pub read_client_info : Formats P → Option ClientInfoTable → Read ClientInfoMessage
  unfolding read_clients
  read_client_info F none = got (record { client_infos = []; capabilities = [] })
  read_client_info F (some t) = do
    ts ← deref t.client_infos
    infos ← read_clients F ts
    got (record { client_infos = infos; capabilities = or_empty t.capabilities })

  -- The object that `deserialize` returns; an audio message may have no block.
  pub data Message (F : Formats P) : Type 0 where
    audio_message : Option (AudioData P) → Message F
    client_info_message : ClientInfoMessage → Message F
    session_message : SessionInfoMessage → Message F
    control_message : F.Json → Message F

  unfoldable pub read_message :
      (F : Formats P) → ℕ → List ℕ → List ℕ → ℕ → Store P → Read (Message F × Store P)
  unfolding read_session read_control read_client_info
  read_message F message_type body body_as_long bytes st =
      if message_type == audio_type
      then (read_audio P F bytes body st >>= λ a. got (audio_message a.0, a.1))
      else if message_type == client_info_type
      then (read_client_info F (F.decode_client_info body_as_long) >>= λ m.
          got (client_info_message m, st))
      else if message_type == session_setup_type
      then (read_session (F.decode_session body) >>= λ m. got (session_message m, st))
      else if message_type == generic_json_type
      then (read_control F (F.decode_control body) >>= λ j. got (control_message j, st))
      else rejected

  abbrev pub read_headed : (F : Formats P) → List ℕ → ℕ → Store P → Read (Message F × Store P)
  read_headed F (m0 ∷ m1 ∷ m2 ∷ message_type ∷ rest) bytes st =
      if m0 == 49 && (m1 == 50 && m2 == 51)
      then read_message F message_type (take (bytes - header_size) rest) (take bytes rest) bytes st
      else rejected
  read_headed F _ bytes st = rejected

  -- `JammerNetzMessage::deserialize`: the memory from `data` on, of which `bytes` were received. A
  -- null result is a rejection.
  unfoldable pub deserialize : (F : Formats P) → List ℕ → ℕ → Store P → Read (Message F × Store P)
  deserialize F memory bytes st =
      if leb header_size bytes then read_headed F memory bytes st else rejected
