-- ===== src/Plugin.antt =====
-- The life of the plugin's session: Plugin/Source/JammerNetzPluginProcessor.cpp and its header. The
-- audio callbacks and the message thread take turns, one access to an atomic member at a time; the
-- calls on the message thread follow each other. The session and the engine run or are shut down.
pub mod Guard
pub mod Gate
pub mod Lease
mod Tests
use jammer_netz.Base.{
  ℕ, zero, suc, ◌+◌, ◌-◌, ◌%◌, Bool, true, false, not, ◌&&◌, Option, none, some, List, [], ◌∷◌, leb,
  ◌==◌, if◌then◌else◌, get_elem?, set,
}

-- `closingMask`, the top bit of the gate; `processCountMask` covers the others.
abbrev pub closing_bit : ℕ
closing_bit = 2147483648

abbrev pub process_count_mask : ℕ
process_count_mask = 2147483647

abbrev pub word : ℕ
word = 4294967296

abbrev pub is_closing : ℕ → Bool
is_closing gate = leb closing_bit gate

abbrev pub process_count : ℕ → ℕ
process_count gate = gate % closing_bit

-- Where an audio callback stands in `processBlock`: before `enterProcess`, after its first test,
-- with the gate that it has read, with its count in the gate, inside the engine, or about to leave.
pub data Callback : Type 0 where
  outside checked : Callback
  loaded : ℕ → Callback
  counted inside leaving : Callback

-- Where the message thread stands in `connectSession` or `disconnectSession`, by what it did last.
pub data Control : Type 0 where
  idle gate_reset engine_started active flag_cleared gate_closed drained engine_stopped : Control

pub record Plugin : Type 0 where
  pub connected : Bool
  pub gate : ℕ
  pub running : Bool
  pub control : Control
  pub callbacks : List Callback

pub data Event : Type 0 where
  callback : ℕ → Event
  connect start_fails disconnect advance : Event

-- `leaveProcess`: `fetch_sub`.
abbrev pub leave_process : ℕ → ℕ
leave_process gate = (gate + (word - 1)) % word

-- The compare-and-exchange of `enterProcess`, where `g` is the gate that was read.
abbrev pub exchange : ℕ → Plugin → Callback × ℕ
exchange g p =
    if not (is_closing g) && not (process_count g == process_count_mask)
    then (if p.gate == g then (counted, g + 1) else (loaded p.gate, p.gate))
    else (outside, p.gate)

-- The next step of a callback: where it stands then, and the gate.
unfoldable pub callback_step : Callback → Plugin → Callback × ℕ
callback_step outside p = (if p.connected then checked else outside, p.gate)
callback_step checked p = (loaded p.gate, p.gate)
callback_step (loaded g) p = exchange g p
callback_step counted p = (if p.connected then inside else leaving, p.gate)
callback_step inside p = (leaving, p.gate)
callback_step leaving p = (outside, leave_process p.gate)

-- The next step of the message thread in a call that it has begun.
unfoldable pub advance_control : Control → Plugin → Plugin
advance_control idle p = p
advance_control gate_reset p = record p { running = true; control = engine_started }
advance_control engine_started p = record p { connected = true; control = active }
advance_control active p = p
advance_control flag_cleared p = record p {
  gate = if is_closing p.gate then p.gate else p.gate + closing_bit;
  control = gate_closed;
}
advance_control gate_closed p =
    if process_count p.gate == 0 then record p { control = drained } else p
advance_control drained p = record p { running = false; control = engine_stopped }
advance_control engine_stopped p = record p { gate = 0; control = idle }

-- A call begins only where no other is under way.
unfoldable pub connect_from : Control → Plugin → Plugin
connect_from idle p = record p { gate = 0; control = gate_reset }
connect_from _ p = p

-- The start of the session fails, and the engine is shut down again.
unfoldable pub fail_from : Control → Plugin → Plugin
fail_from engine_started p = record p { running = false; control = idle }
fail_from _ p = p

unfoldable pub disconnect_from : Control → Plugin → Plugin
disconnect_from idle p = record p { connected = false; control = flag_cleared }
disconnect_from active p = record p { connected = false; control = flag_cleared }
disconnect_from _ p = p

abbrev pub move : ℕ → Callback × ℕ → Plugin → Plugin
move i (c, gate) p = record p { gate = gate; callbacks = set p.callbacks i c }

-- A callback that is not there does nothing.
unfoldable pub step : Event → Plugin → Plugin
unfolding callback_step advance_control connect_from fail_from disconnect_from
step (callback i) p = elim (get_elem? p.callbacks i) [
  | none ↦ p
  | some c ↦ move i (callback_step c p) p
]
step connect p = connect_from p.control p
step start_fails p = fail_from p.control p
step disconnect p = disconnect_from p.control p
step advance p = advance_control p.control p

unfoldable pub run : List Event → Plugin → Plugin
unfolding step
run [] p = p
run (e ∷ es) p = run es (step e p)
