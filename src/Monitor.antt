-- ===== src/Monitor.antt =====
-- The local monitoring, and the tempo that the client and the server tell each other:
-- `calcLocalMonitoring`, `setClientBpm` and `takeServerBpmUpdate` of
-- Client/Source/JammerNetzAudioEngine.cpp, with `LatestBpmMailbox` of its header. The mailbox's
-- value that is no number is `none`. Times are counted in milliseconds; 0 is a slider never moved.
pub mod Echo
mod Tests
use jammer_netz.Base.{
  ℕ, suc, ◌+◌, ◌-◌, Bool, true, false, not, ◌&&◌, Option, none, some, List, [], ◌∷◌, ltb, leb, ◌==◌,
  if◌then◌else◌, length, take, min, max,
}
use jammer_netz.Platform.{Platform}
use jammer_netz.Package.{ChannelSetup, SingleChannelSetup, left, right, mono}

-- `setPlayoutBufferRange`, but for the worker's own range.
abbrev pub playout_buffer_range : ℕ → ℕ → ℕ × ℕ
playout_buffer_range minimum_length maximum_length =
    (minimum_length, max minimum_length maximum_length)

module _ (P : Platform) where
  open P use {Float, Buffer, literal, add, sub, mul, sqrt, lt, fabs, num_channels, add_from}

  -- `calcMonitorGain`: the gains of the left and of the right side.
  pub calc_monitor_gain : Float → Float × Float
  calc_monitor_gain t = (
    sqrt (mul (literal 5 1) (sub (literal 1 0) t)),
    sqrt (mul (literal 5 1) (add (literal 1 0) t)),
  )

  -- The three controls of the monitoring.
  pub record Monitor : Type 0 where
    pub is_local : Bool
    pub monitor_balance : Float
    pub master_volume : Float

  abbrev pub input_volume : Monitor → SingleChannelSetup P → Float
  input_volume m setup =
      mul (mul setup.volume (calc_monitor_gain m.monitor_balance).0) m.master_volume

  -- A channel of the input, added to an output that there is.
  abbrev pub add_to : ℕ → ℕ → Buffer → Float → Buffer → Buffer
  add_to side channel inputs volume output =
      if ltb side (num_channels output) then add_from output side inputs channel volume else output

  -- The `switch` on the target of a channel.
  unfoldable pub monitor_channel : Monitor → Buffer → ℕ → SingleChannelSetup P → Buffer → Buffer
  monitor_channel m inputs channel setup output =
      let volume = input_volume m setup in
      if setup.target == left
      then add_to 0 channel inputs volume output
      else if setup.target == right
      then add_to 1 channel inputs volume output
      else if setup.target == mono
      then add_to 1 channel inputs volume (add_to 0 channel inputs volume output)
      else output

  -- The loop over the channels to mix; a channel without samples is left out.
  unfoldable pub monitor_channels :
      Monitor → (ℕ → Bool) → Buffer → ℕ → List (SingleChannelSetup P) → Buffer → Buffer
  unfolding monitor_channel
  monitor_channels m present inputs channel [] output = output
  monitor_channels m present inputs channel (setup ∷ rest) output =
      monitor_channels m present inputs (suc channel) rest
        (if not (present channel) then output else monitor_channel m inputs channel setup output)

  -- `calcLocalMonitoring`, on inputs that are not null.
  unfoldable pub calc_local_monitoring :
      Monitor → (ℕ → Bool) → Buffer → ChannelSetup P → Buffer → Buffer
  unfolding monitor_channels
  calc_local_monitoring m present inputs setup output =
      if m.is_local && ltb 0 (num_channels inputs)
      then monitor_channels m present inputs 0
          (take (min (num_channels inputs) (length setup.channels)) setup.channels) output
      else output

  pub record Tempo : Type 0 where
    pub client_bpm : Option Float
    pub server_bpm : Float
    pub pending_server_bpm : Float
    pub ignore_next_change : Bool
    pub slider_last_moved : ℕ

  -- `setClientBpm`: a change that echoes the server's tempo is taken once for no change.
  unfoldable pub set_client_bpm : ℕ → Float → Tempo → Tempo
  set_client_bpm now bpm t =
      let t' : Tempo = record t { ignore_next_change = false } in
      if t.ignore_next_change && lt (fabs (sub bpm t.pending_server_bpm)) (literal 1 4)
      then t'
      else record t' { client_bpm = some bpm; slider_last_moved = now }

  -- `takeLatest` of the mailbox.
  abbrev pub take_latest : Tempo → Option Float × Tempo
  take_latest t = (t.client_bpm, record t { client_bpm = none })

  -- `takeServerBpmUpdate`, on what the receiving worker gives.
  unfoldable pub take_server_bpm : ℕ → Option Float → Tempo → Option Float × Tempo
  take_server_bpm now none t = (none, t)
  take_server_bpm now (some bpm) t =
      if not (t.slider_last_moved == 0) && leb (now - t.slider_last_moved) 1000
      then (none, t)
      else (
        some bpm,
        record t {
          server_bpm = bpm;
          pending_server_bpm = bpm;
          ignore_next_change = true;
          slider_last_moved = now;
        },
      )
