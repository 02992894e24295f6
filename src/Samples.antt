-- ===== src/Samples.antt =====
-- A platform with natural numbers for the samples, and packets on it, for the concrete runs.
use jammer_netz.Base.{
  ℕ, ◌+◌, ◌-◌, ◌*◌, ◌/◌, ◌^◌, refl, false, ◌&&◌, none, [], ◌∷◌, ltb, ◌==◌, if◌then◌else◌, Text,
  arith,
}
use jammer_netz.Platform.{Platform, BufferLaws}
use jammer_netz.RingBuffers.{RingBuffers, RingBufferLaws}
use jammer_netz.Package.{
  AudioData, ChannelSetup, SingleChannelSetup, Store, midi_none, current_protocol, sample_rate_hz,
  left,
}

pub record Sound : Type 0 where
  pub channels : ℕ
  pub samples : ℕ
  pub value : ℕ → ℕ → ℕ

abbrev pub integers : Platform
integers = record {
  Float = ℕ;
  literal = λ m e. m;
  of_nat = λ n. n;
  add = λ a b. a + b;
  sub = λ a b. a - b;
  mul = λ a b. a * b;
  div = λ a b. a / b;
  lt = ltb;
  fabs = λ a. a;
  sqrt = λ a. a;
  pow = λ a b. a ^ b;
  Buffer = Sound;
  num_channels = λ b. b.channels;
  num_samples = λ b. b.samples;
  sample = λ b c i. b.value c i;
  new_buffer = λ c n. record { channels = c; samples = n; value = λ c' i. 0 };
  clear = λ b. record b { value = λ c i. 0 };
  write = λ b c i v. record b { value = λ c' i'. if c' == c && i' == i then v else b.value c' i' };
  add_from = λ b c s d gain. record b {
    value = λ c' i. if c' == c then b.value c' i + s.value d i * gain else b.value c' i;
  };
  to_int16 = λ a. a;
  from_int16 = λ n. n;
}

pub integers-BufferLaws : BufferLaws integers
integers-BufferLaws = record {
  new_channels = λ c n. refl;
  new_samples = λ c n. refl;
  clear_channels = λ b. refl;
  clear_samples = λ b. refl;
  clear_silent = λ b c i h k. refl;
  add_from_channels = λ b s c d g. refl;
  add_from_samples = λ b s c d g. refl;
}

-- A buffer by its number of ready samples and its room.
abbrev pub counting : RingBuffers integers
counting = record {
  RingBuffer = ℕ × ℕ;
  num_ready = λ b. b.0;
  free_space = λ b. b.1;
  write = λ b s n. (b.0 + n, b.1 - n);
  read = λ b n. ([], (b.0 - n, b.1 + n));
  discard = λ b n. (b.0 - n, b.1 + n);
  clear = λ b. (0, b.0 + b.1);
}

pub counting-RingBufferLaws : RingBufferLaws integers counting
counting-RingBufferLaws = record {
  write_ready = λ b s n h. refl;
  write_room = λ b s n h. omega (arith, h);
  read_ready = λ b n h. omega (arith, h);
  read_room = λ b n h. refl;
  discard_ready = λ b n h. omega (arith, h);
  clear_ready = λ b. refl;
  clear_room = λ b. refl;
}

-- One buffer of one channel with two samples.
abbrev pub one_buffer : Store integers
one_buffer = record {
  next = 1;
  cells = λ r. record { channels = 1; samples = 2; value = λ c i. 5 };
}

abbrev pub left_channel : SingleChannelSetup integers
left_channel = record { target = left; volume = 1; mag = 0; rms = 0; pitch = 0; name = [] }

abbrev pub left_setup : ChannelSetup integers
left_setup = record { local_monitoring = false; channels = left_channel ∷ [] }

-- The packet with a counter, in that buffer.
abbrev pub packet : ℕ → AudioData integers
packet n = record {
  audio_block = record {
    timestamp = 0;
    message_counter = n;
    server_time = 1000;
    bpm = 90;
    midi_signal = midi_none;
    sample_rate = sample_rate_hz;
    channel_setup = left_setup;
    audio_buffer = 0;
  };
  fec_block = none;
  protocol_version = current_protocol;
  legacy_session = none;
}

-- Names of clients.
abbrev pub ann : Text
ann = 97 ∷ []

abbrev pub bob : Text
bob = 98 ∷ []
