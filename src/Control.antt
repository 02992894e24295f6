-- ===== src/Control.antt =====
-- Control messages, and what the client does with a message of the server:
-- `AcceptThread::processControlMessage` of Server/Source/AcceptThread.cpp, the cases of
-- `DataReceiveThread::run` of Client/Source/DataReceiveThread.cpp, and the probes of
-- Client/Source/Client.cpp. JSON values are those of a library and a parameter.
pub mod Datagram
pub mod Probes
mod Tests
use jammer_netz.Base.{
  ℕ, ◌+◌, ◌-◌, ◌≡◌, ◌<◌, ◌≤◌, Bool, true, false, not, ◌&&◌, Option, none, some, List, [], ◌∷◌, ltb,
  leb, ◌==◌, if◌then◌else◌, Text,
}
use jammer_netz.Platform.{Platform}
use jammer_netz.Package.{AudioData, ChannelSetup, supports_split_session_info}
use jammer_netz.Mtu.{Discovery, Probe, is_unavailable, mark_failed, set_supported, acknowledge}
use jammer_netz.Scheduler.{ℤ, pos, negsuc}
use jammer_netz.Wire.{Formats, Read, got, null_field}
use jammer_netz.Wire.Messages.{
  Message, audio_message, client_info_message, session_message, control_message, ClientInfoMessage,
  supports_capability,
}

-- The text "mtu-probe-v1".
abbrev pub mtu_probe_capability : Text
mtu_probe_capability = 109 ∷ 116 ∷ 117 ∷ 45 ∷ 112 ∷ 114 ∷ 111 ∷ 98 ∷ 101 ∷ 45 ∷ 118 ∷ 49 ∷ []

-- The names of the fields.
pub data Field : Type 0 where
  fec mtu_probe_v1 mtu_ack_v1 id size padding : Field

abbrev pub int_max : ℕ
int_max = 2147483647

-- What the code uses of `nlohmann::json`: `contains`, `operator[]` on a field that is there, the
-- tests of the type, and the conversions. A conversion to `bool` throws on any other type.
-- `get_int64` is `get<int64_t>`.
pub record JsonLibrary (Json : Type 0) : Type 0 where
  pub contains : Json → Field → Bool
  pub at : Json → Field → Json
  pub is_object : Json → Bool
  pub is_number_unsigned : Json → Bool
  pub is_number_integer : Json → Bool
  pub to_bool : Json → Option Bool
  pub get_unsigned : Json → ℕ
  pub get_int64 : Json → ℤ
  pub equals_int : Json → ℕ → Bool
  -- The objects that the code builds, field by field.
  pub probe_json : ℕ → ℕ → ℕ → Json
  pub ack_json : ℕ → ℕ → Json

-- The documented behaviour on the objects that the code builds.
pub record JsonLaws (Json : Type 0) (J : JsonLibrary Json) : Type 0 where
  pub probe_has : (i s p : ℕ) → J.contains (J.probe_json i s p) mtu_probe_v1 ≡ true
  pub probe_only : (i s p : ℕ) → J.contains (J.probe_json i s p) fec ≡ false
  pub probe_object : (i s p : ℕ) → J.is_object (J.at (J.probe_json i s p) mtu_probe_v1) ≡ true
  pub probe_id :
      (i s p : ℕ)
      → (J.contains (J.at (J.probe_json i s p) mtu_probe_v1) id ≡ true)
        × (J.is_number_unsigned (J.at (J.at (J.probe_json i s p) mtu_probe_v1) id) ≡ true)
        × (J.get_unsigned (J.at (J.at (J.probe_json i s p) mtu_probe_v1) id) ≡ i)
  pub probe_size :
      (i s p : ℕ)
      → (J.contains (J.at (J.probe_json i s p) mtu_probe_v1) size ≡ true)
        × (J.is_number_integer (J.at (J.at (J.probe_json i s p) mtu_probe_v1) size) ≡ true)
        × ((n : ℕ) → J.equals_int (J.at (J.at (J.probe_json i s p) mtu_probe_v1) size) n ≡ (s == n))
  pub ack_has : (i s : ℕ) → J.contains (J.ack_json i s) mtu_ack_v1 ≡ true
  pub ack_object : (i s : ℕ) → J.is_object (J.at (J.ack_json i s) mtu_ack_v1) ≡ true
  pub ack_id :
      (i s : ℕ)
      → (J.contains (J.at (J.ack_json i s) mtu_ack_v1) id ≡ true)
        × (J.is_number_unsigned (J.at (J.at (J.ack_json i s) mtu_ack_v1) id) ≡ true)
        × (J.get_unsigned (J.at (J.at (J.ack_json i s) mtu_ack_v1) id) ≡ i)
  pub ack_size :
      (i s : ℕ)
      → 0 < s
      → (J.contains (J.at (J.ack_json i s) mtu_ack_v1) size ≡ true)
        × (J.is_number_integer (J.at (J.at (J.ack_json i s) mtu_ack_v1) size) ≡ true)
        × (J.get_int64 (J.at (J.at (J.ack_json i s) mtu_ack_v1) size) ≡ pos s)

module _ (Json : Type 0) (J : JsonLibrary Json) where
  -- The answer to a probe, whose datagram had `received` bytes.
  unfoldable pub answer_probe : Json → ℕ → Option Json
  answer_probe probe received =
      if J.is_object probe
        && (J.contains probe id
            && (J.is_number_unsigned (J.at probe id)
                && (J.contains probe size
                    && (J.is_number_integer (J.at probe size)
                        && J.equals_int (J.at probe size) received))))
      then some (J.ack_json (J.get_unsigned (J.at probe id)) received)
      else none

  abbrev pub set_fec : Json → Bool → Option Bool
  set_fec json use_fec = if J.contains json fec then J.to_bool (J.at json fec) else some use_fec

  abbrev pub answer_control : Json → ℕ → Option Bool → Option (Bool × Option Json)
  answer_control json received none = none
  answer_control json received (some use_fec) = some (
    use_fec,
    (if J.contains json mtu_probe_v1 then answer_probe (J.at json mtu_probe_v1) received else none),
  )

  -- `processControlMessage`: the configuration's use of FEC, and the acknowledgement that is sent.
  -- none is an exception, which ends the process.
  unfoldable pub process_control_message : Json → ℕ → Bool → Option (Bool × Option Json)
  unfolding answer_probe
  process_control_message json received use_fec =
      answer_control json received (set_fec json use_fec)

  -- The test of the size in an acknowledgement, and the handler's call.
  abbrev pub take_size : ℤ → ℕ → ℕ → Discovery → Discovery
  take_size (negsuc n) i now d = d
  take_size (pos bytes) i now d =
      if ltb 0 bytes && leb bytes int_max then (acknowledge d i bytes now).1 else d

  -- A control message at the client.
  unfoldable pub receive_control : Json → ℕ → Discovery → Discovery
  receive_control json now d =
      let ack = J.at json mtu_ack_v1 in
      if J.contains json mtu_ack_v1
        && (J.is_object ack
            && (J.contains ack id
                && (J.is_number_unsigned (J.at ack id)
                    && (J.contains ack size && J.is_number_integer (J.at ack size)))))
      then take_size (J.get_int64 (J.at ack size)) (J.get_unsigned (J.at ack id)) now d
      else d

-- `setMtuDiscoverySupported`; `dont_fragment` is the answer of the socket.
unfoldable pub set_mtu_discovery_supported : Bool → Bool → Discovery → Discovery
set_mtu_discovery_supported dont_fragment supported d =
    if supported && (is_unavailable d.status && not dont_fragment)
    then mark_failed d
    else set_supported supported d

module _ (P : Platform) (F : Formats P) (J : JsonLibrary F.Json) where
  -- `DataReceiveThread`, with the search of the sender that its handlers lead to.
  pub record Receiver : Type 0 where
    pub is_receiving : Bool
    pub current_session : ChannelSetup P
    pub last_client_info : Option (ClientInfoMessage P)
    pub discovery : Discovery

  abbrev session_of : AudioData P → ChannelSetup P → ChannelSetup P
  session_of d current =
      if not (supports_split_session_info d.protocol_version)
      then elim d.legacy_session [ none ↦ current | some s ↦ s ]
      else current

  -- The cases of `run` on a message, with the packet for the player.
  unfoldable pub receive_message :
      Bool → ℕ → Message P F → Receiver → Read (Option (AudioData P) × Receiver)
  unfolding receive_control set_mtu_discovery_supported
  receive_message dont_fragment now (audio_message none) r = null_field
  receive_message dont_fragment now (audio_message (some d)) r =
      got
        (some d, record r { is_receiving = true; current_session = session_of d r.current_session })
  receive_message dont_fragment now (client_info_message m) r = got (
    none,
    record r {
      is_receiving = true;
      last_client_info = some m;
      discovery =
          set_mtu_discovery_supported dont_fragment
            (supports_capability m.capabilities mtu_probe_capability) r.discovery;
    },
  )
  receive_message dont_fragment now (session_message m) r = got (
    none,
    record r {
      is_receiving = true;
      current_session = m.setup;
      discovery =
          set_mtu_discovery_supported dont_fragment
            (supports_capability m.capabilities mtu_probe_capability) r.discovery;
    },
  )
  receive_message dont_fragment now (control_message j) r = got (
    none,
    record r { is_receiving = true; discovery = receive_control F.Json J j now r.discovery },
  )
