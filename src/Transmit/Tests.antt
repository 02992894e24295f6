-- ===== src/Transmit/Tests.antt =====
-- A concrete run of the input side.
use jammer_netz.Base.{none, [], ◌∷◌, arith}
use jammer_netz.Package.{midi_start}
use jammer_netz.Samples.{integers, left_setup, counting, counting-RingBufferLaws}
use jammer_netz.Transmit.{Input, ingest}
use jammer_netz.Transmit.Ingest.{IsCounted, Outcome, ingest_lem}

abbrev quiet_input : Input integers counting
quiet_input = record {
  ingest_buffer = (60, 131012);
  transmitter = record {
    queue = [];
    channel_setup = left_setup;
    enqueued = 7;
    sent = 7;
    dropped = 0;
  };
  client_bpm = none;
  midi_signals = midi_start ∷ [];
  midi_commands_dropped = 0;
  input_blocks_dropped = 0;
}

quiet_input-IsCounted : IsCounted integers counting quiet_input.transmitter
quiet_input-IsCounted = record {
  enqueued_word = omega arith;
  dropped_word = omega arith;
  bounded = omega arith;
}

ingest_lem_example :
    Outcome integers counting
      (record quiet_input { ingest_buffer = (560, 130512) })
      (ingest integers counting 1 500 [] quiet_input)
ingest_lem_example =
    ingest_lem integers counting counting-RingBufferLaws 1 500 [] quiet_input (omega arith)
      (omega arith) (omega arith) quiet_input-IsCounted
