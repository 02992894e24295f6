-- ===== src/Monitor/Echo.antt =====
-- The local monitoring against the echo of the server.
use jammer_netz.Base.{
  ℕ, suc, ◌+◌, ◌≡◌, ◌<◌, refl, true, Bool, List, [], ◌∷◌, map, ltb, if◌then◌else◌, length, take,
  min, arith, Bool-cases, inl, inr,
}
use jammer_netz.Platform.{Platform, BufferLaws}
use jammer_netz.Package.{ChannelSetup, SingleChannelSetup}
use jammer_netz.Mixer.{mix_channel, mix_channels}
use jammer_netz.Monitor.{
  Monitor, input_volume, monitor_channel, monitor_channels, calc_local_monitoring,
}

module _ (P : Platform) where
  open P use {Buffer, num_channels, add_from}

  -- The channel at its volume in the monitoring.
  pub at_monitor_volume : Monitor P → SingleChannelSetup P → SingleChannelSetup P
  at_monitor_volume m setup = record setup { volume = input_volume P m setup }

  monitor_channel-mix_channel :
      (B : BufferLaws P) (m : Monitor P) (inputs : Buffer) (channel : ℕ)
      (setup : SingleChannelSetup P) (output : Buffer)
      → 1 < num_channels output
      → monitor_channel P m inputs channel setup output
        ≡ mix_channel P true true channel (at_monitor_volume m setup) inputs output
  unfolding monitor_channel at_monitor_volume mix_channel
  monitor_channel-mix_channel B m inputs channel setup output h =
      let volume = input_volume P m setup in
      let first : ltb 0 (num_channels output) ≡ true = ground (arith, h) in
      let second : ltb 1 (num_channels output) ≡ true = ground (arith, h) in
      let both : ltb 1 (num_channels (add_from output 0 inputs channel volume)) ≡ true =
        ground (arith, h, B.add_from_channels output inputs 0 channel volume) in
      rw (first, second, both) (ground arith)

  mix_channel-wide :
      (B : BufferLaws P) (channel : ℕ) (setup : SingleChannelSetup P) (inputs output : Buffer)
      → num_channels (mix_channel P true true channel setup inputs output) ≡ num_channels output
  unfolding mix_channel
  mix_channel-wide B channel setup inputs output = ground (
    arith,
    B.add_from_channels output inputs 0 channel setup.volume,
    B.add_from_channels output inputs 1 channel setup.volume,
    B.add_from_channels (add_from output 0 inputs channel setup.volume) inputs 1 channel
        setup.volume,
  )

  monitor_channels-mix_channels :
      (B : BufferLaws P) (m : Monitor P) (present : ℕ → Bool) (inputs : Buffer) (channel : ℕ)
      (setups : List (SingleChannelSetup P)) (output : Buffer)
      → ((c : ℕ) → present c ≡ true)
      → 1 < num_channels output
      → monitor_channels P m present inputs channel setups output
        ≡ mix_channels P true true channel (map (at_monitor_volume m) setups) inputs output
  unfolding monitor_channels mix_channels
  monitor_channels-mix_channels B m present inputs channel [] output all h = refl
  monitor_channels-mix_channels B m present inputs channel (setup ∷ rest) output all h =
      let here = monitor_channel-mix_channel B m inputs channel setup output h in
      let wide = mix_channel-wide B channel (at_monitor_volume m setup) inputs output in
      let e : suc channel ≡ channel + 1 = omega arith in
      rw (all channel, here, e)
        (monitor_channels-mix_channels B m present inputs (channel + 1) rest _ all
          (omega (arith, wide, h)))

  -- With two outputs and samples on every channel, the local monitoring mixes what the server would
  -- echo to a client without it, each channel at its volume in the monitoring; switched off, it adds
  -- nothing.
  pub calc_local_monitoring-mix_channels :
      (B : BufferLaws P) (m : Monitor P) (present : ℕ → Bool) (inputs output : Buffer)
      (setup : ChannelSetup P)
      → ((c : ℕ) → present c ≡ true)
      → 1 < num_channels output
      → 0 < num_channels inputs
      → calc_local_monitoring P m present inputs setup output ≡ (
          if m.is_local
          then mix_channels P true true 0
              (map
                (at_monitor_volume m)
                (take (min (num_channels inputs) (length setup.channels)) setup.channels))
              inputs
              output
          else output)
  unfolding calc_local_monitoring
  calc_local_monitoring-mix_channels B m present inputs output setup all h h' =
      let e : ltb 0 (num_channels inputs) ≡ true = ground (arith, h') in
      let mixed =
        monitor_channels-mix_channels B m present inputs 0
          (take (min (num_channels inputs) (length setup.channels)) setup.channels) output all h in
      elim (Bool-cases m.is_local) [
        | inl t ↦ ground (arith, t, e, mixed)
        | inr f ↦ ground (arith, f)
      ]
