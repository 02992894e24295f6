-- ===== src/Wire/Tests.antt =====
-- Concrete runs of the datagrams.
use jammer_netz.Base.{ℕ, ◌≡◌, refl, true, some, [], ◌∷◌, ◌++◌, length, replicate, arith}
use jammer_netz.Package.{AudioData, Store}
use jammer_netz.Samples.{integers, integers-BufferLaws, one_buffer, packet, left_setup, ann, bob}
use jammer_netz.Wire.{got}
use jammer_netz.Wire.Audio.{serialize_audio, serialize_audio_block}
use jammer_netz.Wire.Messages.{
  SessionInfoMessage, ClientInfo, ClientInfoMessage, deserialize, audio_message, session_message,
  control_message, client_info_message, serialize_session, serialize_control, serialize_client_info,
  blank_counters,
}
use jammer_netz.Wire.Samples.{WriteLaws}
use jammer_netz.Wire.AudioRoundTrip.{
  SameSound, SameFec, IsSendable, received, deserialize-serialize_audio,
}
use jammer_netz.Wire.MessageRoundTrip.{
  received_session, received_client, IsAddress, deserialize-serialize_session,
  deserialize-serialize_client_info,
}
use jammer_netz.Wire.Codec.{plain_formats, plain_formats-FormatLaws}

integers-WriteLaws : WriteLaws integers
integers-WriteLaws = record {
  write_channels = λ b c i v h h'. refl;
  write_samples = λ b c i v h h'. refl;
  write_sample = λ b c i v c' k h h'. refl;
}

-- A packet with a FEC block, in the one buffer.
abbrev with_fec : AudioData integers
with_fec = record (packet 11) { fec_block = some (packet 10).audio_block }

one_buffer-IsSendable : (r : ℕ) → IsSendable integers (one_buffer.cells r)
one_buffer-IsSendable r = record {
  few_channels = omega arith;
  few_samples = omega arith;
  even = refl;
}

deserialize-serialize_audio_example :
    (st'' : Store integers) × (deserialize integers plain_formats
        (serialize_audio integers plain_formats one_buffer with_fec ++ 7 ∷ [])
        (length (serialize_audio integers plain_formats one_buffer with_fec))
        one_buffer
      ≡ got (audio_message (some (received integers with_fec 1)), st''))
    × SameSound integers (λ k. k) (one_buffer.cells 0) (st''.cells 1)
    × SameFec integers one_buffer with_fec.fec_block (st''.cells 2)
deserialize-serialize_audio_example =
    deserialize-serialize_audio integers integers-BufferLaws integers-WriteLaws plain_formats
      plain_formats-FormatLaws one_buffer one_buffer with_fec (7 ∷ []) (one_buffer-IsSendable 0)
      (one_buffer-IsSendable 0) (unfold serialize_audio serialize_audio_block in omega arith)

abbrev session_message_of_ann : SessionInfoMessage integers
session_message_of_ann = record { setup = left_setup; capabilities = ann ∷ [] }

deserialize-serialize_session_example :
    (deserialize integers plain_formats
        (serialize_session integers plain_formats session_message_of_ann ++ [])
        (length (serialize_session integers plain_formats session_message_of_ann))
        one_buffer
      ≡ got (session_message (received_session integers session_message_of_ann), one_buffer))
    × (deserialize integers plain_formats
          (serialize_control integers plain_formats bob ++ [])
          (length (serialize_control integers plain_formats bob))
          one_buffer
        ≡ got (control_message bob, one_buffer))
deserialize-serialize_session_example =
    deserialize-serialize_session integers plain_formats plain_formats-FormatLaws
      session_message_of_ann bob [] one_buffer

abbrev client_of_ann : ClientInfo integers
unfolding blank_counters
client_of_ann = record {
  ip_address = replicate 16 1;
  is_ipv6 = true;
  port_number = 7777;
  quality_info = record {
    counters = blank_counters integers;
    wall_clock_delta = 3;
    jitter_mean_millis = 2;
    jitter_sd_millis = 1;
  };
}

abbrev info_of_ann : ClientInfoMessage integers
info_of_ann = record { client_infos = client_of_ann ∷ []; capabilities = bob ∷ [] }

deserialize-serialize_client_info_example :
    deserialize integers plain_formats
      (serialize_client_info integers plain_formats info_of_ann ++ 9 ∷ [])
      (length (serialize_client_info integers plain_formats info_of_ann))
      one_buffer
    ≡ got (
      client_info_message
          (record info_of_ann { client_infos = received_client integers client_of_ann ∷ [] }),
      one_buffer,
    )
unfolding client_of_ann
deserialize-serialize_client_info_example =
    deserialize-serialize_client_info integers plain_formats plain_formats-FormatLaws info_of_ann
      (9 ∷ []) one_buffer ((unfold IsAddress in (refl, refl)), tt)
