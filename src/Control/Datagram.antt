-- ===== src/Control/Datagram.antt =====
-- The probe of the MTU search as a datagram: `Client::sendMtuProbe` of Client/Source/Client.cpp, and
-- the decryption in `AcceptThread::run` of Server/Source/AcceptThread.cpp.
use jammer_netz.Base.{
  ℕ, suc, zero, ◌+◌, ◌-◌, ◌*◌, ◌/◌, ◌%◌, ◌≡◌, ◌<◌, ◌≤◌, refl, ◌∙◌, false, not, Bool, Option, none,
  some, List, [], ◌++◌, ◌==◌, if◌then◌else◌, arith, length, min, Bool-cases, inl, inr, ap,
}
use jammer_netz.Platform.{Platform}
use jammer_netz.Package.{Store}
use jammer_netz.Mtu.{Discovery, Probe, acknowledge}
use jammer_netz.Wire.{Formats, FormatLaws, got}
use jammer_netz.Wire.Messages.{SessionInfoMessage, control_message, serialize_control, deserialize}
use jammer_netz.Wire.MessageRoundTrip.{deserialize-serialize_session}
use jammer_netz.Control.{JsonLibrary, JsonLaws, process_control_message, receive_control}
use jammer_netz.Control.Probes.{process_control_message-probe_json}

-- JUCE's `BlowFish`; none is the answer -1.
pub record BlowFish : Type 0 where
  pub encrypt : List ℕ → Option (List ℕ)
  pub decrypt : List ℕ → Option (List ℕ)

abbrev pub max_frame_size : ℕ
max_frame_size = 65536

-- The encryption adds one to eight bytes up to a multiple of eight, if they fit in the buffer, and
-- the decryption takes them off.
pub record BlowFishLaws (C : BlowFish) : Type 0 where
  pub cipher : List ℕ → List ℕ
  pub encrypts :
      (m : List ℕ) → length m + (8 - length m % 8) ≤ max_frame_size → C.encrypt m ≡ some (cipher m)
  pub cipher_length : (m : List ℕ) → length (cipher m) ≡ length m + (8 - length m % 8)
  pub decrypts : (m : List ℕ) → C.decrypt (cipher m) ≡ some m

abbrev pub IsLawful : Option BlowFish → Type 0
IsLawful none = Unit
IsLawful (some c) = BlowFishLaws c

-- `wireSizeFor`.
abbrev pub wire_size_for : Option BlowFish → ℕ → ℕ
wire_size_for none n = n
wire_size_for (some c) n = n + (8 - n % 8)

abbrev pub encrypted : Option BlowFish → List ℕ → Option (List ℕ)
encrypted none m = some m
encrypted (some c) m = c.encrypt m

-- The decryption at the server; none is an ignored datagram.
abbrev pub decrypted : Option BlowFish → List ℕ → Option (List ℕ)
decrypted none d = some d
decrypted (some c) d = c.decrypt d

-- The datagram for the socket, if the encryption has the length that was computed.
abbrev pub exact : Option (List ℕ) → ℕ → Option (List ℕ)
exact none n = none
exact (some d) n = if length d == n then some d else none

abbrev Wired : Option BlowFish → ℕ → List ℕ → List ℕ → Type 0
Wired c n m d = (exact (encrypted c m) n ≡ some d) × (length d ≡ n) × (decrypted c d ≡ some m)

exact-encrypted :
    (c : Option BlowFish) (n : ℕ) (m : List ℕ)
    → IsLawful c
    → n ≤ max_frame_size
    → wire_size_for c (length m) ≡ n
    → (d : List ℕ) × Wired c n m d
exact-encrypted none n m L h e = (m, (ground (arith, e), e, refl))
exact-encrypted (some c) n m L h e =
    let fits = L.encrypts m (omega (arith, e, h)) in
    let bytes = L.cipher_length m in
    (L.cipher m, (rw fits (ground (arith, bytes, e)), bytes ∙ e, L.decrypts m))

-- The padding that is looked for, behind this number of bytes.
abbrev padding_for : Option BlowFish → ℕ → ℕ → ℕ
padding_for none n unpadded = n - unpadded
padding_for (some c) n unpadded = n - 8 - unpadded

wire_size_for-padding_for :
    (c : Option BlowFish) (n unpadded : ℕ)
    → n % 8 ≡ 0
    → wire_size_for c (4 * ((unpadded + 0) / 4)) ≤ n
    → wire_size_for c (4 * ((unpadded + padding_for c n unpadded) / 4)) ≡ n
wire_size_for-padding_for none n k e h = omega (arith, e, h)
wire_size_for-padding_for (some c) n k e h = omega (arith, e, h)

padding_for_bounds :
    (c : Option BlowFish) (n unpadded : ℕ)
    → wire_size_for c (4 * ((unpadded + 0) / 4)) ≤ n
    → let estimated = n - wire_size_for c (4 * ((unpadded + 0) / 4)) in
      (estimated - 64 ≤ padding_for c n unpadded)
      × (padding_for c n unpadded ≤ min n (estimated + 64))
padding_for_bounds none n k h = (omega (arith, h), omega (arith, h))
padding_for_bounds (some c) n k h = (omega (arith, h), omega (arith, h))

strictly : (f : ℕ → ℕ) (n a b : ℕ) → a ≤ b → (f a == n) ≡ false → f b ≡ n → a < b
strictly f n a b h differs e = elim (Bool-cases (a == b)) [
  | inl t ↦ let same : a ≡ b = ground (arith, t) in absurd (ground (arith, ap f same, differs, e))
  | inr k ↦ ground (arith, h, k)
]

module _ (P : Platform) (F : Formats P) (J : JsonLibrary F.Json) where
  -- `serializeWithPadding`.
  abbrev pub probe_message : Probe → ℕ → List ℕ
  probe_message p padding = serialize_control P F (J.probe_json p.id p.payload_bytes padding)

  -- The loop over this number of paddings.
  unfoldable pub send_padded : Option BlowFish → Probe → ℕ → ℕ → Option (List ℕ)
  send_padded c p zero padding = none
  send_padded c p (suc n) padding =
      let rest = send_padded c p n (suc padding) in
      let message = probe_message p padding in
      if not (wire_size_for c (length message) == p.payload_bytes)
      then rest
      else exact (encrypted c message) p.payload_bytes

  abbrev pub estimate : Option BlowFish → Probe → ℕ
  estimate c p = p.payload_bytes - wire_size_for c (length (probe_message p 0))

  -- `sendMtuProbe`, with the datagram that it sends.
  unfoldable pub send_mtu_probe : Option BlowFish → Probe → Option (List ℕ)
  send_mtu_probe c p =
      let first = estimate c p - 64 in
      let last = min p.payload_bytes (estimate c p + 64) in send_padded c p (suc last - first) first

  -- JSON writes one byte for each byte of padding, and FlatBuffers fills a text up to a multiple of
  -- four bytes.
  pub record ProbeLaws : Type 0 where
    pub unpadded : ℕ → ℕ → ℕ
    pub probe_bytes :
        (i s padding : ℕ)
        → length (serialize_control P F (J.probe_json i s padding))
          ≡ 4 * ((unpadded i s + padding) / 4)

  send_padded-Wired :
      (c : Option BlowFish) (p : Probe) (n start target : ℕ)
      → IsLawful c
      → p.payload_bytes ≤ max_frame_size
      → start ≤ target
      → target < start + n
      → wire_size_for c (length (probe_message p target)) ≡ p.payload_bytes
      → (d : List ℕ) × (padding : ℕ) × (send_padded c p n start ≡ some d)
        × (length d ≡ p.payload_bytes)
        × (decrypted c d ≡ some (probe_message p padding))
  unfolding send_padded
  send_padded-Wired c p zero start target L fits h h' e = absurd (omega (arith, h, h'))
  send_padded-Wired c p (suc n) start target L fits h h' e =
      elim (Bool-cases (wire_size_for c (length (probe_message p start)) == p.payload_bytes)) [
        | inl t ↦
            let (d, (sent, bytes, back)) =
              exact-encrypted c p.payload_bytes (probe_message p start) L fits
                (ground (arith, t)) in
            (d, start, rw t sent, bytes, back)
        | inr f ↦
            let next : suc start ≤ target =
              strictly (λ i. wire_size_for c (length (probe_message p i))) p.payload_bytes start
                target h f e in
            let (d, padding, sent, bytes, back) =
              send_padded-Wired c p n (suc start) target L fits next (omega (arith, h')) e in
            (d, padding, rw f sent, bytes, back)
      ]

  -- A probe of a positive size that is a multiple of eight, not below that of a message without padding and
  -- not above the buffer, is sent as a datagram of exactly that size, with a key or without one; the
  -- server with the same key reads the probe in it, keeps its configuration and answers with an
  -- acknowledgement of that size, which the client takes as one of its search.
  pub send_mtu_probe-answered :
      (c : Option BlowFish) (p : Probe) (use_fec : Bool) (now : ℕ) (discovery : Discovery)
      (more : List ℕ) (st : Store P)
      → FormatLaws P F
      → JsonLaws F.Json J
      → (S : ProbeLaws) → IsLawful c
      → 0 < p.payload_bytes
      → p.payload_bytes % 8 ≡ 0
      → p.payload_bytes ≤ max_frame_size
      → wire_size_for c (length (probe_message p 0)) ≤ p.payload_bytes
      → (datagram : List ℕ) × (message : List ℕ) × (json : F.Json) × (send_mtu_probe c p
          ≡ some datagram)
        × (length datagram ≡ p.payload_bytes)
        × (decrypted c datagram ≡ some message)
        × (deserialize P F (message ++ more) (length message) st ≡ got (control_message json, st))
        × (process_control_message F.Json J json (length datagram) use_fec
            ≡ some (use_fec, some (J.ack_json p.id p.payload_bytes)))
        × (receive_control F.Json J (J.ack_json p.id p.payload_bytes) now discovery
            ≡ (acknowledge discovery p.id p.payload_bytes now).1)
  unfolding send_mtu_probe
  send_mtu_probe-answered c p use_fec now discovery more st L K S cl positive even fits large =
      let n = p.payload_bytes in
      let unpadded = S.unpadded p.id n in
      let bytes = λ (padding : ℕ). S.probe_bytes p.id n padding in
      let large' : wire_size_for c (4 * ((unpadded + 0) / 4)) ≤ n = rw (bytes 0) at large in
      let (low, high) = padding_for_bounds c n unpadded large' in
      let low' : estimate c p - 64 ≤ padding_for c n unpadded = rw (bytes 0) low in
      let high' : padding_for c n unpadded ≤ min n (estimate c p + 64) = rw (bytes 0) high in
      let (datagram, padding, sent, size, back) =
        send_padded-Wired c p (suc (min n (estimate c p + 64)) - (estimate c p - 64))
          (estimate c p - 64) (padding_for c n unpadded) cl fits low' (omega (arith, low', high'))
          (rw (bytes (padding_for c n unpadded))
            (wire_size_for-padding_for c n unpadded even large')) in
      let json = J.probe_json p.id n padding in
      let empty : SessionInfoMessage P = record {
        setup = record { local_monitoring = false; channels = [] };
        capabilities = [];
      } in
      let (answer, taken) =
        process_control_message-probe_json F.Json J K p.id n padding n now use_fec discovery
          positive (omega (arith, fits)) in
      (
        datagram,
        probe_message p padding,
        json,
        sent,
        size,
        back,
        (deserialize-serialize_session P F L empty json more st).1,
        rw size (answer ∙ ground arith),
        taken,
      )
