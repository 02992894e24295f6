-- ===== src/Monitor/Tests.antt =====
-- A concrete run of the monitoring.
use jammer_netz.Base.{◌≡◌, refl, true, map, arith}
use jammer_netz.Samples.{Sound, integers, integers-BufferLaws, left_setup}
use jammer_netz.Mixer.{mix_channels}
use jammer_netz.Monitor.{Monitor, calc_local_monitoring}
use jammer_netz.Monitor.Echo.{at_monitor_volume, calc_local_monitoring-mix_channels}

abbrev half : Monitor integers
half = record { is_local = true; monitor_balance = 0; master_volume = 2 }

abbrev microphone : Sound
microphone = record { channels = 1; samples = 4; value = λ c i. i }

abbrev speakers : Sound
speakers = record { channels = 2; samples = 4; value = λ c i. 0 }

calc_local_monitoring-mix_channels_example :
    calc_local_monitoring integers half (λ c. true) microphone left_setup speakers
    ≡ mix_channels integers true true 0
        (map (at_monitor_volume integers half) left_setup.channels)
        microphone
        speakers
calc_local_monitoring-mix_channels_example =
    calc_local_monitoring-mix_channels integers integers-BufferLaws half (λ c. true) microphone
      speakers left_setup (λ c. refl) (omega arith) (omega arith)
