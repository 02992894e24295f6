-- ===== src/Control/Tests.antt =====
-- JSON values as texts of numbers, a cipher, and the run of a probe.
use mathlib.Core.List.{append_assoc}
use jammer_netz.Base.{
  ℕ, suc, zero, ◌+◌, ◌-◌, ◌*◌, ◌/◌, ◌%◌, ◌≡◌, refl, ◌∙◌, ap, Bool, true, false, ◌&&◌, Option, none,
  some, List, [], ◌∷◌, ◌++◌, Text, ◌==◌, if◌then◌else◌, arith, length, replicate, drop, take,
  length-append, length-replicate,
}
use jammer_netz.Mtu.{Discovery, Probe, initial, acknowledge, poll, set_supported}
use jammer_netz.Scheduler.{ℤ, pos}
use jammer_netz.Wire.{Formats, FormatLaws, ControlTable, got}
use jammer_netz.Wire.Messages.{serialize_control, control_message, deserialize}
use jammer_netz.Wire.Codec.{plain_formats, plain_formats-FormatLaws}
use jammer_netz.Samples.{integers, one_buffer}
use jammer_netz.Control.{
  Field, fec, mtu_probe_v1, mtu_ack_v1, id, size, padding, JsonLibrary, JsonLaws,
  process_control_message, receive_control,
}
use jammer_netz.Control.Probes.{process_control_message-probe_json}
use jammer_netz.Control.Datagram.{
  BlowFish, BlowFishLaws, decrypted, send_mtu_probe, ProbeLaws, send_mtu_probe-answered,
}

-- The first number says what the text is: 1 a probe, 2 an acknowledgement, 3 the object in either,
-- 4 a number, 5 a configuration, 6 a truth value.
abbrev is_kind : ℕ → Text → Bool
is_kind k [] = false
is_kind k (t ∷ r) = t == k

abbrev contains : Text → Field → Bool
contains j mtu_probe_v1 = is_kind 1 j
contains j mtu_ack_v1 = is_kind 2 j
contains j fec = is_kind 5 j
contains j id = is_kind 3 j
contains j size = is_kind 3 j
contains j padding = is_kind 3 j

abbrev tail : Text → Text
tail [] = []
tail (t ∷ r) = r

abbrev head : Text → ℕ
head [] = 0
head (t ∷ r) = t

abbrev at : Text → Field → Text
at j mtu_probe_v1 = 3 ∷ tail j
at j mtu_ack_v1 = 3 ∷ tail j
at j fec = tail j
at j id = 4 ∷ head (tail j) ∷ []
at j size = 4 ∷ head (tail (tail j)) ∷ []
at j padding = tail (tail (tail j))

abbrev to_bool : Text → Option Bool
to_bool j = if is_kind 6 j then some (head (tail j) == 1) else none

abbrev get_int64 : Text → ℤ
get_int64 j = pos (head (tail j))

abbrev texts : JsonLibrary Text
texts = record {
  contains = contains;
  at = at;
  is_object = is_kind 3;
  is_number_unsigned = is_kind 4;
  is_number_integer = is_kind 4;
  to_bool = to_bool;
  get_unsigned = λ j. head (tail j);
  get_int64 = get_int64;
  equals_int = λ j n. is_kind 4 j && head (tail j) == n;
  probe_json = λ i s p. 1 ∷ i ∷ s ∷ replicate p 112;
  ack_json = λ i s. 2 ∷ i ∷ s ∷ [];
}

texts-JsonLaws : JsonLaws Text texts
texts-JsonLaws = record {
  probe_has = λ i s p. refl;
  probe_only = λ i s p. refl;
  probe_object = λ i s p. refl;
  probe_id = λ i s p. (refl, refl, refl);
  probe_size = λ i s p. (refl, refl, λ n. refl);
  ack_has = λ i s. refl;
  ack_object = λ i s. refl;
  ack_id = λ i s. (refl, refl, refl);
  ack_size = λ i s h. (refl, refl, refl);
}

abbrev searcher : Discovery
searcher = (poll (set_supported true initial) 1000).1

-- The server answers the first probe, and the client grows.
process_control_message-probe_json_example :
    (process_control_message Text texts (texts.probe_json 1 1200 900) 1200 true
      ≡ some (true, (if 1200 == 1200 then some (texts.ack_json 1 1200) else none)))
    × (receive_control Text texts (texts.ack_json 1 1200) 1100 searcher
        ≡ (acknowledge searcher 1 1200 1100).1)
process_control_message-probe_json_example =
    process_control_message-probe_json Text texts texts-JsonLaws 1 1200 900 1200 1100 true searcher
      (omega arith) (omega arith)

-- A FEC field that is no boolean is an exception.
process_control_message-fec_number :
    process_control_message Text texts (5 ∷ 4 ∷ 1 ∷ []) 100 true ≡ none
unfolding process_control_message
process_control_message-fec_number = refl

-- Tables filled up to a multiple of four.
abbrev filled : List ℕ → List ℕ
filled l = l ++ replicate ((4 - length l % 4) % 4) 0

length-filled : (l : List ℕ) → length (filled l) ≡ 4 * ((length l + 3) / 4)
length-filled l =
    let joined = length-append l (replicate ((4 - length l % 4) % 4) 0) in
    omega (arith, joined, length-replicate {A = ℕ} ((4 - length l % 4) % 4) 0)

take-append : (xs ys : List ℕ) → take (length xs) (xs ++ ys) ≡ xs
take-append [] ys = refl
take-append (x ∷ xs) ys = ap (λ (l : List ℕ). x ∷ l) (take-append xs ys)

abbrev put_text : Option Text → List ℕ
put_text none = 0 ∷ []
put_text (some x) = 1 ∷ length x ∷ x

abbrev get_text : List ℕ → Option ControlTable
get_text [] = none
get_text (zero ∷ l) = some (record { control_message_json = none })
get_text (suc k ∷ l) = some (record { control_message_json = some (take (head l) (tail l)) })

get_text-put_text :
    (x : Option Text) (more : List ℕ)
    → get_text (put_text x ++ more) ≡ some (record { control_message_json = x })
get_text-put_text none more = refl
get_text-put_text (some x) more = rw (take-append x more) refl

abbrev filled_formats : Formats integers
filled_formats = record plain_formats {
  encode_control = λ t. filled (put_text t.control_message_json);
  decode_control = get_text;
}

filled_formats-FormatLaws : FormatLaws integers filled_formats
filled_formats-FormatLaws = record {
  audio_back = plain_formats-FormatLaws.audio_back;
  session_back = plain_formats-FormatLaws.session_back;
  control_back = λ t more.
      let l = put_text t.control_message_json in
      let zeros = replicate ((4 - length l % 4) % 4) 0 in
      ap get_text (append_assoc l zeros more)
      ∙ get_text-put_text t.control_message_json (zeros ++ more);
  client_info_back = plain_formats-FormatLaws.client_info_back;
  parse-dump = plain_formats-FormatLaws.parse-dump;
}

texts-ProbeLaws : ProbeLaws integers filled_formats texts
unfolding serialize_control
texts-ProbeLaws = record {
  unpadded = λ i s. 12;
  probe_bytes = λ i s p.
      let bytes = length-filled (put_text (some (texts.probe_json i s p))) in
      omega (arith, bytes, length-replicate {A = ℕ} p 112);
}

-- A cipher that puts the filling in front.
abbrev filling : List ℕ → ℕ
filling m = 8 - length m % 8

abbrev cipher : List ℕ → List ℕ
cipher m = filling m ∷ replicate (filling m - 1) 0 ++ m

abbrev fish : BlowFish
fish = record { encrypt = λ m. some (cipher m); decrypt = λ d. some (drop (head d) d) }

drop-replicate : (n : ℕ) (m : List ℕ) → drop n (replicate n 0 ++ m) ≡ m
drop-replicate zero m = refl
drop-replicate (suc n) m = drop-replicate n m

fish-BlowFishLaws : BlowFishLaws fish
fish-BlowFishLaws = record {
  cipher = cipher;
  encrypts = λ m h. refl;
  cipher_length = λ m. omega (
    arith,
    length-append (replicate (filling m - 1) 0) m,
    length-replicate {A = ℕ} (filling m - 1) 0,
  );
  decrypts = λ m.
      let k : filling m ≡ suc (filling m - 1) = omega arith in
      ap some (ap (λ (n : ℕ). drop n (cipher m)) k ∙ drop-replicate (filling m - 1) m);
}

abbrev first_probe : Probe
first_probe = record { id = 1; payload_bytes = 1200 }

-- The first probe of a search, encrypted.
send_mtu_probe-answered_example :
    (datagram : List ℕ) × (message : List ℕ) × (json : Text) × (send_mtu_probe integers
        filled_formats texts
        (some fish)
        first_probe
      ≡ some datagram)
    × (length datagram ≡ 1200)
    × (decrypted (some fish) datagram ≡ some message)
    × (deserialize integers filled_formats (message ++ []) (length message) one_buffer
        ≡ got (control_message json, one_buffer))
    × (process_control_message Text texts json (length datagram) true
        ≡ some (true, some (texts.ack_json 1 1200)))
    × (receive_control Text texts (texts.ack_json 1 1200) 1100 searcher
        ≡ (acknowledge searcher 1 1200 1100).1)
unfolding serialize_control
send_mtu_probe-answered_example =
    send_mtu_probe-answered integers filled_formats texts (some fish) first_probe true 1100 searcher
      [] one_buffer filled_formats-FormatLaws texts-JsonLaws texts-ProbeLaws fish-BlowFishLaws
      (omega arith) refl (omega arith) (omega arith)
