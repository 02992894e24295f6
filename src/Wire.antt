-- ===== src/Wire.antt =====
-- The datagrams of common/JammerNetzPackage.cpp, JammerNetzPackage.h and
-- JammerNetzClientInfoMessage.cpp: the tables of the .fbs files, and FlatBuffers, which turns a table
-- into bytes, as a parameter. A vector or a string that a datagram may leave out is an `Option`.
pub mod Audio
pub mod Messages
pub mod Memory
pub mod Samples
pub mod Dispatch
pub mod AudioRoundTrip
pub mod MessageRoundTrip
pub mod Codec
mod Tests
use jammer_netz.Base.{
  ℕ, ◌+◌, ◌-◌, ◌≡◌, Bool, true, Option, none, some, List, [], ◌∷◌, ◌++◌, ◌==◌, ◌&&◌, leb,
  if◌then◌else◌, length, Text,
}
use jammer_netz.Platform.{Platform}
use jammer_netz.Package.{MidiSignal}

-- What the reader of a datagram does: it returns, it throws `JammerNetzMessageParseException`, or it
-- dereferences a field that the datagram leaves out.
pub data Read {ℓ} (A : Type ℓ) : Type ℓ where
  got : A → Read A
  rejected null_field : Read A

infixl 1 ◌>>=◌
abbrev pub ◌>>=◌ {ℓ κ} : {A : Type ℓ} {B : Type κ} → Read A → (A → Read B) → Read B
got a >>= f = f a
rejected >>= f = rejected
null_field >>= f = null_field

-- A dereference of a field.
abbrev pub deref {ℓ} : {A : Type ℓ} → Option A → Read A
deref none = null_field
deref (some a) = got a

-- The type in the header.
abbrev pub audio_type : ℕ
audio_type = 1

abbrev pub client_info_type : ℕ
client_info_type = 8

abbrev pub session_setup_type : ℕ
session_setup_type = 16

abbrev pub generic_json_type : ℕ
generic_json_type = 32

abbrev pub header_size : ℕ
header_size = 4

-- `writeHeader`: the characters 1, 2 and 3, and the type.
abbrev pub write_header : ℕ → List ℕ
write_header message_type = 49 ∷ 50 ∷ 51 ∷ message_type ∷ []

module _ (P : Platform) where
  open P use {Float}

  -- `JammerNetzPNPChannelSetup`.
  pub record ChannelTable : Type 0 where
    pub target : ℕ
    pub volume : Float
    pub mag : Float
    pub rms : Float
    pub pitch : Float
    pub name : Option Text

  -- `JammerNetzPNPAudioSamples`.
  pub record SamplesTable : Type 0 where
    pub audio_samples : Option (List ℕ)

  -- `JammerNetzPNPAudioBlock`.
  pub record BlockTable : Type 0 where
    pub timestamp : Float
    pub message_counter : ℕ
    pub num_channels : ℕ
    pub number_of_samples : ℕ
    pub sample_rate : ℕ
    pub channel_setup : Option (List ChannelTable)
    pub channels : Option (List SamplesTable)
    pub all_channels : Option (List ChannelTable)
    pub want_echo : Bool
    pub server_time : ℕ
    pub bpm : Float
    pub midi_signal : MidiSignal

  -- `JammerNetzPNPAudioData`.
  pub record AudioTable : Type 0 where
    pub audio_blocks : Option (List BlockTable)
    pub protocol_version : ℕ

  -- `JammerNetzSessionInfo`.
  pub record SessionTable : Type 0 where
    pub all_channels : Option (List ChannelTable)
    pub capabilities : Option (List Text)

-- `JammerNetzControlInfo`.
pub record ControlTable : Type 0 where
  pub control_message_json : Option Text

-- `JammerNetzPNPStreamQualityInfo`; the three signed counters are never negative here.
pub record QualityTable : Type 0 where
  pub too_late_or_duplicate : ℕ
  pub dropped_packet_counter : ℕ
  pub out_of_order_packet_counter : ℕ
  pub duplicate_packet_counter : ℕ
  pub drops_healed : ℕ
  pub packages_pushed : ℕ
  pub packages_popped : ℕ
  pub max_length_of_gap : ℕ
  pub max_wrong_order_span : ℕ

-- `JammerNetzPNPClientInfo`.
pub record ClientTable : Type 0 where
  pub ip_address : Option (List ℕ)
  pub is_ipv6 : Bool
  pub port_number : ℕ
  pub quality_info : Option QualityTable

-- `JammerNetzPNPClientInfoPackage`.
pub record ClientInfoTable : Type 0 where
  pub client_infos : Option (List ClientTable)
  pub capabilities : Option (List Text)

-- The third-party code that a datagram goes through. `decode` is the verifier and the root
-- accessor: none where the verifier refuses the bytes. The rest is the compiler's size of
-- `JammerNetzAudioHeader`, `nlohmann::json`, and the 16 bytes of a `juce::IPAddress` that is made
-- from 16 bytes and the IPv6 flag.
pub record Formats (P : Platform) : Type 1 where
  pub encode_audio : AudioTable P → List ℕ
  pub decode_audio : List ℕ → Option (AudioTable P)
  pub encode_session : SessionTable P → List ℕ
  pub decode_session : List ℕ → Option (SessionTable P)
  pub encode_control : ControlTable → List ℕ
  pub decode_control : List ℕ → Option ControlTable
  pub encode_client_info : ClientInfoTable → List ℕ
  pub decode_client_info : List ℕ → Option ClientInfoTable
  pub audio_header_size : ℕ
  pub Json : Type 0
  pub json_null : Json
  pub dump : Json → Text
  pub parse_json : Text → Option Json
  pub address_bytes : List ℕ → Bool → List ℕ

-- The documented behaviour of these that the proofs rely on: a finished buffer verifies and reads
-- back as its table, whatever bytes follow it; a dumped value parses to itself.
pub record FormatLaws (P : Platform) (F : Formats P) : Type 0 where
  pub audio_back :
      (t : AudioTable P) (more : List ℕ) → F.decode_audio (F.encode_audio t ++ more) ≡ some t
  pub session_back :
      (t : SessionTable P) (more : List ℕ) → F.decode_session (F.encode_session t ++ more) ≡ some t
  pub control_back :
      (t : ControlTable) (more : List ℕ) → F.decode_control (F.encode_control t ++ more) ≡ some t
  pub client_info_back :
      (t : ClientInfoTable) (more : List ℕ)
      → F.decode_client_info (F.encode_client_info t ++ more) ≡ some t
  pub parse-dump : (j : F.Json) → F.parse_json (F.dump j) ≡ some j
