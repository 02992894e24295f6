-- ===== src/Mixer/Tests.antt =====
-- The mix at concrete inputs.
use jammer_netz.Base.{
  ◌≡◌, ◌≢◌, ◌⊎◌, refl, true, false, [], ◌∷◌, ◌++◌, arith, List, add64, take, min,
}
use jammer_netz.Package.{AudioData, ChannelSetup, send_left}
use jammer_netz.Mixer.{Incoming, Diagnostic, wrong_buffer_size, mix, new_mixer, buffer_mixdown}
use jammer_netz.Mixer.Routes.{route, buffer_mixdown-eq-route, buffer_mixdown-no_echo}
use jammer_netz.Mixer.Answers.{Answers, mix-Answers}
use jammer_netz.Samples.{Sound, integers, one_buffer, packet, left_setup, left_channel, ann, bob}

abbrev mixdown : ChannelSetup integers
mixdown = record { local_monitoring = false; channels = [] }

abbrev both : Incoming integers
both = (ann, packet 20) ∷ (bob, packet 31) ∷ []

mix-Answers_example :
    let m = new_mixer integers mixdown in
    let r = mix integers both m one_buffer in
    (r.0.server_time ≡ add64 m.server_time 2)
    × (r.1.server_time ≡ add64 m.server_time 2)
    × Answers integers one_buffer r.2 both 2
        (add64 m.server_time 2)
        m.mixdown_setup
        m.last_bpm
        both
        r.0.outgoing
mix-Answers_example =
    mix-Answers integers ann (packet 20) ((bob, packet 31) ∷ []) (new_mixer integers mixdown)
      one_buffer (omega arith, (omega arith, tt))

abbrev silence : Sound
silence = record { channels = 2; samples = 2; value = λ c i. 0 }

buffer_mixdown-eq-route_example :
    let (mixed, reported) = buffer_mixdown integers one_buffer silence (packet 20) false [] in
    (((one_buffer.cells 0).samples ≡ silence.samples)
      × (mixed
          ≡ route integers false false 0
              (take (min 1 1) left_setup.channels)
              (one_buffer.cells 0)
              silence))
    ⊎ (((one_buffer.cells 0).samples ≢ silence.samples)
        × (mixed ≡ silence)
        × ((before : List Diagnostic) × (reported ≡ before ++ wrong_buffer_size 2 2 ∷ [])))
buffer_mixdown-eq-route_example =
    buffer_mixdown-eq-route integers one_buffer silence (packet 20) false []

-- A packet whose only channel is sent and not heard.
abbrev sent_packet : AudioData integers
sent_packet = record (packet 20) {
  audio_block = record ((packet 20).audio_block) {
    channel_setup = record {
      local_monitoring = false;
      channels = record left_channel { target = send_left } ∷ [];
    };
  };
}

buffer_mixdown-no_echo_example :
    (buffer_mixdown integers one_buffer silence sent_packet true []).0 ≡ silence
buffer_mixdown-no_echo_example =
    buffer_mixdown-no_echo integers one_buffer silence sent_packet [] (refl, tt)
