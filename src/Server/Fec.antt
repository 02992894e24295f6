-- ===== src/Server/Fec.antt =====
-- The forward error correction of the sender: `sendAudioBlock` of Server/Source/SendThread.cpp up
-- to the serialization. A ring is made for an address when the first package goes there.
use jammer_netz.Base.{
  ℕ, ◌≡◌, Bool, true, false, not, ◌&&◌, Option, none, some, List, [], ◌∷◌, if◌then◌else◌, Text,
  text_eq, text_eq_refl, text_eq→eq, arith, Bool-cases, inl, inr,
}
use jammer_netz.Platform.{Platform}
use jammer_netz.Package.{AudioBlock, AudioData, from_block, supports_split_session_info}
use jammer_netz.Mixer.{OutgoingPackage}
use jammer_netz.Ring.{
  Ring, IsValid, new_ring, is_empty, push_ring, get_last, new_ring-IsValid, push_ring-get_last,
  new_ring-is_empty,
}

-- `FEC_RINGBUFFER_SIZE`.
abbrev pub fec_ringbuffer_size : ℕ
fec_ringbuffer_size = 16

module _ (P : Platform) where
  abbrev pub Rings : Type 0
  Rings = List (Text × Ring (AudioBlock P))

  -- `emplace`, which leaves a ring that is there.
  abbrev pub insert_ring : Text → Rings → Rings
  insert_ring name [] = (name, new_ring (AudioBlock P) fec_ringbuffer_size) ∷ []
  insert_ring name ((name', r) ∷ rest) =
      let later = insert_ring name rest in
      if text_eq name name' then (name', r) ∷ rest else (name', r) ∷ later

  abbrev pub find_ring : Text → Rings → Ring (AudioBlock P)
  find_ring name [] = new_ring (AudioBlock P) fec_ringbuffer_size
  find_ring name ((name', r) ∷ rest) =
      let later = find_ring name rest in if text_eq name name' then r else later

  abbrev pub push_to_ring : Text → AudioBlock P → Rings → Rings
  push_to_ring name b [] = []
  push_to_ring name b ((name', r) ∷ rest) =
      let later = push_to_ring name b rest in
      if text_eq name name'
      then (name', push_ring (AudioBlock P) b r) ∷ rest
      else (name', r) ∷ later

  -- The packet for the client, and the rings after it; `fresh` is a default-constructed block.
  pub send_audio_block : AudioBlock P → Bool → OutgoingPackage P → Rings → AudioData P × Rings
  send_audio_block fresh use_fec package' rings =
      let rings' = insert_ring package'.target_address rings in
      let ring = find_ring package'.target_address rings' in
      let fec =
        if use_fec && not (is_empty (AudioBlock P) ring)
        then get_last (AudioBlock P) fresh ring
        else none in
      let d = from_block P package'.audio_block fec in
      (
        (if supports_split_session_info package'.receiver_protocol_version
            then d
            else record d { legacy_session = some package'.session_setup }),
        push_to_ring package'.target_address package'.audio_block rings',
      )

  -- The rings after a list of packages, the first one first.
  abbrev pub rings_after : AudioBlock P → Bool → List (OutgoingPackage P) → Rings → Rings
  rings_after fresh use_fec [] rings = rings
  rings_after fresh use_fec (p ∷ ps) rings =
      rings_after fresh use_fec ps (send_audio_block fresh use_fec p rings).1

  -- The last block of a list that goes to an address, if any does; else the one before the list.
  abbrev pub last_to :
      Text → List (OutgoingPackage P) → Option (AudioBlock P) → Option (AudioBlock P)
  last_to name [] sent = sent
  last_to name (p ∷ ps) sent =
      last_to name ps (if text_eq name p.target_address then some p.audio_block else sent)

  -- The ring's last entry is the block sent last.
  abbrev IsLast : AudioBlock P → Option (AudioBlock P) → Ring (AudioBlock P) → Type 0
  IsLast fresh none r = is_empty (AudioBlock P) r ≡ true
  IsLast fresh (some b) r =
      (is_empty (AudioBlock P) r ≡ false) × (get_last (AudioBlock P) fresh r ≡ some b)

  record Holds (fresh : AudioBlock P) (sent : Option (AudioBlock P)) (r : Ring (AudioBlock P))
      : Type 0 where
    valid : IsValid (AudioBlock P) r
    last : IsLast fresh sent r

  find_ring-insert_ring :
      (name t : Text) (rings : Rings) → find_ring name (insert_ring t rings) ≡ find_ring name rings
  find_ring-insert_ring name t [] = ground arith
  find_ring-insert_ring name t ((name', r) ∷ rest) =
      ground (arith, find_ring-insert_ring name t rest)

  text_eq-other :
      (name name' t : Text)
      → text_eq name name' ≡ true
      → text_eq t name' ≡ false
      → text_eq name t ≡ false
  text_eq-other name name' t e f = elim (Bool-cases (text_eq name t)) [
    | inl g ↦ let s : name ≡ t = text_eq→eq name t g in absurd (ground (arith, rw s at e, f))
    | inr g ↦ g
  ]

  find_ring-push_to_ring :
      (name t : Text) (b : AudioBlock P) (rings : Rings)
      → find_ring name (push_to_ring t b (insert_ring t rings)) ≡ (
          if text_eq name t
          then push_ring (AudioBlock P) b (find_ring name rings)
          else find_ring name rings)
  find_ring-push_to_ring name t b [] = ground (arith, text_eq_refl t)
  find_ring-push_to_ring name t b ((name', r) ∷ rest) = elim (Bool-cases (text_eq t name')) [
    | inl e ↦
        let s : t ≡ name' = text_eq→eq t name' e in rw (e, s) (ground (arith, text_eq_refl name'))
    | inr e ↦ elim (Bool-cases (text_eq name name')) [
      | inl f ↦ rw (e, f, text_eq-other name name' t f e) (ground (arith, e, f))
      | inr f ↦ rw e (ground (arith, e, f, find_ring-push_to_ring name t b rest))
    ]
  ]

  Holds-push :
      (fresh b : AudioBlock P) (sent : Option (AudioBlock P)) (r : Ring (AudioBlock P))
      → Holds fresh sent r
      → Holds fresh (some b) (push_ring (AudioBlock P) b r)
  Holds-push fresh b sent r h =
      let p = push_ring-get_last (AudioBlock P) fresh b r h.valid in
      record { valid = p.3; last = (p.0, p.1) }

  Holds-after :
      (fresh : AudioBlock P) (use_fec : Bool) (name : Text) (ps : List (OutgoingPackage P))
      (rings : Rings) (sent : Option (AudioBlock P))
      → Holds fresh sent (find_ring name rings)
      → Holds fresh (last_to name ps sent) (find_ring name (rings_after fresh use_fec ps rings))
  unfolding send_audio_block
  Holds-after fresh use_fec name [] rings sent h = h
  Holds-after fresh use_fec name (p ∷ ps) rings sent h = Holds-after fresh use_fec name ps _ _ (
      rw (find_ring-push_to_ring name p.target_address p.audio_block rings)
        (elim (Bool-cases (text_eq name p.target_address)) [
          | inl e ↦ rw e (Holds-push fresh p.audio_block sent (find_ring name rings) h)
          | inr e ↦ rw e h
        ]))

  fec_of :
      (fresh : AudioBlock P) (use_fec : Bool) (sent : Option (AudioBlock P))
      (r : Ring (AudioBlock P))
      → Holds fresh sent r
      → (if use_fec && not (is_empty (AudioBlock P) r)
          then get_last (AudioBlock P) fresh r
          else none)
        ≡ (if use_fec then sent else none)
  fec_of fresh use_fec none r h =
      let e : is_empty (AudioBlock P) r ≡ true = h.last in ground (arith, e)
  fec_of fresh use_fec (some b) r h =
      let l : (is_empty (AudioBlock P) r ≡ false) × (get_last (AudioBlock P) fresh r ≡ some b) =
        h.last in
      ground (arith, l)

  -- With forward error correction a packet carries, next to its own block, the block that was sent
  -- last to the same client, whatever was sent to others in between; the first packet to a client
  -- and every packet without error correction carry none. The session setup goes along exactly
  -- for a client whose protocol version has no package of its own for it.
  pub send_audio_block-fec :
      (fresh : AudioBlock P) (use_fec : Bool) (earlier : List (OutgoingPackage P))
      (package' : OutgoingPackage P)
      → let (d, _) =
          send_audio_block fresh use_fec package' (rings_after fresh use_fec earlier []) in
        (d.audio_block ≡ package'.audio_block)
        × (d.fec_block ≡ (if use_fec then last_to package'.target_address earlier none else none))
        × (d.legacy_session ≡ (
            if supports_split_session_info package'.receiver_protocol_version
            then none
            else some package'.session_setup))
  unfolding send_audio_block from_block
  send_audio_block-fec fresh use_fec earlier package' =
      let name = package'.target_address in
      let rings = rings_after fresh use_fec earlier [] in
      let h = Holds-after fresh use_fec name earlier [] none (record {
        valid = new_ring-IsValid (AudioBlock P) fec_ringbuffer_size (omega arith);
        last = new_ring-is_empty (AudioBlock P) fec_ringbuffer_size;
      }) in
      let f = fec_of fresh use_fec _ (find_ring name rings) h in
      rw (find_ring-insert_ring name name rings, f) (ground arith)
