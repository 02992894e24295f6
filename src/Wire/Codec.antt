-- ===== src/Wire/Codec.antt =====
-- Tables as lists of numbers, for the concrete runs: a format in which every table reads back.
use jammer_netz.Base.{
  ℕ, zero, suc, ◌≡◌, refl, ap, Bool, true, false, Option, none, some, List, [], ◌∷◌, ◌++◌, Text,
  length,
}
use mathlib.Core.List.{append_assoc}
use jammer_netz.Package.{MidiSignal, midi_none, midi_start, midi_stop}
use jammer_netz.Wire.{
  ChannelTable, SamplesTable, BlockTable, AudioTable, SessionTable, ControlTable, QualityTable,
  ClientTable, ClientInfoTable, Formats, FormatLaws,
}
use jammer_netz.Samples.{integers}

record Codec (A : Type 0) : Type 0 where
  put : A → List ℕ
  get : List ℕ → Option (A × List ℕ)
  back : (a : A) (rest : List ℕ) → get (put a ++ rest) ≡ some (a, rest)

abbrev then_get :
    {A B : Type 0} → Option (A × List ℕ) → (A → List ℕ → Option (B × List ℕ)) → Option (B × List ℕ)
then_get none f = none
then_get (some (a, rest)) f = f a rest

abbrev number : Codec ℕ
number = record { put = λ n. n ∷ []; get = get_number; back = λ n rest. refl }
  where
    get_number : List ℕ → Option (ℕ × List ℕ)
    get_number [] = none
    get_number (n ∷ rest) = some (n, rest)

abbrev both : {A B : Type 0} → Codec A → Codec B → Codec (A × B)
both c d = record {
  put = λ p. c.put p.0 ++ d.put p.1;
  get = λ l. then_get (c.get l) λ a rest. then_get (d.get rest) λ b rest'. some ((a, b), rest');
  back = λ p rest. rw (append_assoc, c.back p.0 (d.put p.1 ++ rest), d.back p.1 rest) refl;
}

-- Another type with the same values.
abbrev via :
    {A B : Type 0} (c : Codec A) (f : B → A) (g : A → B) → ((b : B) → g (f b) ≡ b) → Codec B
via c f g e = record {
  put = λ b. c.put (f b);
  get = λ l. then_get (c.get l) λ a rest. some (g a, rest);
  back = λ b rest. rw (c.back (f b) rest, e b) refl;
}

abbrev optional : {A : Type 0} → Codec A → Codec (Option A)
optional {A} c = record { put = put_optional; get = get_optional; back = back_optional }
  where
    put_optional : Option A → List ℕ
    put_optional none = 0 ∷ []
    put_optional (some a) = 1 ∷ c.put a

    get_optional : List ℕ → Option (Option A × List ℕ)
    get_optional [] = none
    get_optional (zero ∷ rest) = some (none, rest)
    get_optional (suc n ∷ rest) = then_get (c.get rest) λ a rest'. some (some a, rest')

    back_optional :
        (a : Option A) (rest : List ℕ) → get_optional (put_optional a ++ rest) ≡ some (a, rest)
    back_optional none rest = refl
    back_optional (some a) rest = rw (c.back a rest) refl

abbrev sequence : {A : Type 0} → Codec A → Codec (List A)
sequence {A} c = record {
  put = λ as'. length as' ∷ put_all as';
  get = get_sequence;
  back = λ as' rest. back_all as' rest;
}
  where
    put_all : List A → List ℕ
    put_all [] = []
    put_all (a ∷ as') = c.put a ++ put_all as'

    get_all : ℕ → List ℕ → Option (List A × List ℕ)
    get_all zero l = some ([], l)
    get_all (suc n) l =
        then_get (c.get l) λ a rest. then_get (get_all n rest) λ as' rest'. some (a ∷ as', rest')

    get_sequence : List ℕ → Option (List A × List ℕ)
    get_sequence [] = none
    get_sequence (n ∷ rest) = get_all n rest

    back_all :
        (as' : List A) (rest : List ℕ)
        → get_all (length as') (put_all as' ++ rest) ≡ some (as', rest)
    back_all [] rest = refl
    back_all (a ∷ as') rest =
        rw (append_assoc, c.back a (put_all as' ++ rest), back_all as' rest) refl

abbrev flag : Codec Bool
flag = via number of_flag to_flag same
  where
    of_flag : Bool → ℕ
    of_flag false = 0
    of_flag true = 1

    to_flag : ℕ → Bool
    to_flag zero = false
    to_flag (suc n) = true

    same : (b : Bool) → to_flag (of_flag b) ≡ b
    same true = refl
    same false = refl

abbrev midi : Codec MidiSignal
midi = via number of_midi to_midi same
  where
    of_midi : MidiSignal → ℕ
    of_midi midi_none = 0
    of_midi midi_start = 1
    of_midi midi_stop = 2

    to_midi : ℕ → MidiSignal
    to_midi zero = midi_none
    to_midi (suc zero) = midi_start
    to_midi (suc (suc n)) = midi_stop

    same : (m : MidiSignal) → to_midi (of_midi m) ≡ m
    same midi_none = refl
    same midi_start = refl
    same midi_stop = refl

abbrev text : Codec Text
text = sequence number

abbrev channel : Codec (ChannelTable integers)
channel =
    via (both (both number number) (both (both number number) (both number (optional text))))
      (λ t. ((t.target, t.volume), ((t.mag, t.rms), (t.pitch, t.name))))
      (λ p. record {
        target = p.0.0;
        volume = p.0.1;
        mag = p.1.0.0;
        rms = p.1.0.1;
        pitch = p.1.1.0;
        name = p.1.1.1;
      })
      (λ t. refl)

abbrev samples : Codec (SamplesTable integers)
samples =
    via (optional (sequence number)) (λ t. t.audio_samples) (λ s. record { audio_samples = s })
      (λ t. refl)

abbrev block : Codec (BlockTable integers)
block =
    via
      (both (both (both number number) (both (both number number) number)) (
        both
          (both (optional (sequence channel))
            (both (optional (sequence samples)) (optional (sequence channel))))
          (both (both flag number) (both number midi))))
      (λ t. (
        ((t.timestamp, t.message_counter), ((t.num_channels, t.number_of_samples), t.sample_rate)),
        (
          (t.channel_setup, (t.channels, t.all_channels)),
          ((t.want_echo, t.server_time), (t.bpm, t.midi_signal)),
        ),
      ))
      (λ p. record {
        timestamp = p.0.0.0;
        message_counter = p.0.0.1;
        num_channels = p.0.1.0.0;
        number_of_samples = p.0.1.0.1;
        sample_rate = p.0.1.1;
        channel_setup = p.1.0.0;
        channels = p.1.0.1.0;
        all_channels = p.1.0.1.1;
        want_echo = p.1.1.0.0;
        server_time = p.1.1.0.1;
        bpm = p.1.1.1.0;
        midi_signal = p.1.1.1.1;
      })
      (λ t. refl)

abbrev audio : Codec (AudioTable integers)
audio =
    via (both (optional (sequence block)) number) (λ t. (t.audio_blocks, t.protocol_version))
      (λ p. record { audio_blocks = p.0; protocol_version = p.1 }) (λ t. refl)

abbrev session : Codec (SessionTable integers)
session =
    via (both (optional (sequence channel)) (optional (sequence text)))
      (λ t. (t.all_channels, t.capabilities))
      (λ p. record { all_channels = p.0; capabilities = p.1 }) (λ t. refl)

abbrev control : Codec ControlTable
control =
    via (optional text) (λ t. t.control_message_json) (λ s. record { control_message_json = s })
      (λ t. refl)

abbrev quality : Codec QualityTable
quality =
    via
      (both (both (both number number) (both number number))
        (both (both number number) (both number (both number number))))
      (λ t. (
        (
          (t.too_late_or_duplicate, t.dropped_packet_counter),
          (t.out_of_order_packet_counter, t.duplicate_packet_counter),
        ),
        (
          (t.drops_healed, t.packages_pushed),
          (t.packages_popped, (t.max_length_of_gap, t.max_wrong_order_span)),
        ),
      ))
      (λ p. record {
        too_late_or_duplicate = p.0.0.0;
        dropped_packet_counter = p.0.0.1;
        out_of_order_packet_counter = p.0.1.0;
        duplicate_packet_counter = p.0.1.1;
        drops_healed = p.1.0.0;
        packages_pushed = p.1.0.1;
        packages_popped = p.1.1.0;
        max_length_of_gap = p.1.1.1.0;
        max_wrong_order_span = p.1.1.1.1;
      })
      (λ t. refl)

abbrev client : Codec ClientTable
client =
    via (both (both (optional (sequence number)) flag) (both number (optional quality)))
      (λ t. ((t.ip_address, t.is_ipv6), (t.port_number, t.quality_info)))
      (λ p. record {
        ip_address = p.0.0;
        is_ipv6 = p.0.1;
        port_number = p.1.0;
        quality_info = p.1.1;
      })
      (λ t. refl)

abbrev client_info : Codec ClientInfoTable
client_info =
    via (both (optional (sequence client)) (optional (sequence text)))
      (λ t. (t.client_infos, t.capabilities))
      (λ p. record { client_infos = p.0; capabilities = p.1 }) (λ t. refl)

-- A table as a verifier reads it, whatever follows it.
abbrev decoded : {A : Type 0} → Option (A × List ℕ) → Option A
decoded none = none
decoded (some (a, rest)) = some a

abbrev pub plain_formats : Formats integers
plain_formats = record {
  encode_audio = audio.put;
  decode_audio = λ l. decoded (audio.get l);
  encode_session = session.put;
  decode_session = λ l. decoded (session.get l);
  encode_control = control.put;
  decode_control = λ l. decoded (control.get l);
  encode_client_info = client_info.put;
  decode_client_info = λ l. decoded (client_info.get l);
  audio_header_size = 20;
  Json = Text;
  json_null = [];
  dump = λ j. j;
  parse_json = λ t. some t;
  address_bytes = λ bytes v6. bytes;
}

pub plain_formats-FormatLaws : FormatLaws integers plain_formats
plain_formats-FormatLaws = record {
  audio_back = λ t more. ap decoded (audio.back t more);
  session_back = λ t more. ap decoded (session.back t more);
  control_back = λ t more. ap decoded (control.back t more);
  client_info_back = λ t more. ap decoded (client_info.back t more);
  parse-dump = λ j. refl;
}
