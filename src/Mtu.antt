-- ===== src/Mtu.antt =====
-- The path MTU search of Client/Source/PathMtuDiscovery.h and PathMtuDiscovery.cpp.
-- A time point is a number of milliseconds; an `int` of the class is a natural number, since the
-- only subtraction outside a guarded branch takes 8 off a candidate, which is at least 1200.
pub mod Bounds
pub mod Search
pub mod Progress
mod Tests
use jammer_netz.Base.{
  ℕ, ◌+◌, ◌-◌, ◌*◌, ◌/◌, Bool, true, false, not, ◌&&◌, ◌||◌, Option, none, some, List, [], ◌∷◌, ltb,
  leb, ◌==◌, if◌then◌else◌, add64,
}

pub record Probe : Type 0 where
  pub id : ℕ
  pub payload_bytes : ℕ

pub data Status : Type 0 where
  unavailable searching complete failed : Status

abbrev pub is_searching : Status → Bool
is_searching searching = true
is_searching _ = false

abbrev pub is_unavailable : Status → Bool
is_unavailable unavailable = true
is_unavailable _ = false

abbrev pub fallback_payload_bytes : ℕ
fallback_payload_bytes = 1200

abbrev pub maximum_probe_payload_bytes : ℕ
maximum_probe_payload_bytes = 16384

abbrev pub probe_alignment_bytes : ℕ
probe_alignment_bytes = 8

abbrev pub maximum_attempts : ℕ
maximum_attempts = 3

abbrev pub probe_timeout : ℕ
probe_timeout = 500

pub record Discovery : Type 0 where
  pub status : Status
  pub safe : ℕ
  pub candidate : ℕ
  pub upper_bound : ℕ
  pub next_probe_id : ℕ
  pub active_probe : Probe
  pub attempts : ℕ
  pub awaiting : Bool
  pub deadline : ℕ
  pub earliest_next_probe : ℕ

-- The members' initial values.
abbrev pub initial : Discovery
initial = record {
  status = unavailable;
  safe = 0;
  candidate = fallback_payload_bytes;
  upper_bound = 0;
  next_probe_id = 1;
  active_probe = record { id = 0; payload_bytes = 0 };
  attempts = 0;
  awaiting = false;
  deadline = 0;
  earliest_next_probe = 0;
}

abbrev pub growth_targets : List ℕ
growth_targets = 1200 ∷ 1472 ∷ 2048 ∷ 4096 ∷ 8192 ∷ 16384 ∷ []

-- The loop over the targets that are left.
first_growth_target : List ℕ → Discovery → Discovery
first_growth_target [] d = record d { status = complete }
first_growth_target (target ∷ rest) d =
    if ltb d.safe target then record d { candidate = target } else first_growth_target rest d

pub select_next_growth_target : Discovery → Discovery
unfolding first_growth_target
select_next_growth_target d = first_growth_target growth_targets d

abbrev aligned_half_span : Discovery → ℕ
aligned_half_span d = (d.upper_bound - d.safe) / 2 / probe_alignment_bytes * probe_alignment_bytes

pub select_binary_search_target : Discovery → Discovery
select_binary_search_target d =
    if ltb d.upper_bound (d.safe + probe_alignment_bytes)
    then record d { status = complete }
    else (let next = d.safe + aligned_half_span d in
        record d { candidate = if leb next d.safe then d.safe + probe_alignment_bytes else next })

pub record_success : Discovery → Discovery
record_success d =
    let d' : Discovery = record d { safe = d.candidate } in
    if ltb 0 d'.upper_bound then select_binary_search_target d' else select_next_growth_target d'

pub record_failure : Discovery → Discovery
record_failure d =
    if d.safe == 0
    then record d { status = failed }
    else select_binary_search_target
        (record d { upper_bound = d.candidate - probe_alignment_bytes })

pub set_supported : Bool → Discovery → Discovery
set_supported false d = record d { status = unavailable; awaiting = false }
set_supported true d = if not (is_unavailable d.status) then d else record d {
  status = searching;
  safe = 0;
  candidate = fallback_payload_bytes;
  upper_bound = 0;
  attempts = 0;
  awaiting = false;
}

pub mark_failed : Discovery → Discovery
mark_failed d = record d { status = failed; awaiting = false }

-- The end of `poll`: a new probe where none is awaited, and one more attempt at it.
send_probe : ℕ → Discovery → Option Probe × Discovery
send_probe now d =
    let d' : Discovery = if d.awaiting then d else record d {
      active_probe = record { id = d.next_probe_id; payload_bytes = d.candidate };
      next_probe_id = add64 d.next_probe_id 1;
      attempts = 0;
      awaiting = true;
    } in
    (some d'.active_probe, record d' { attempts = d'.attempts + 1; deadline = now + probe_timeout })

-- From the test against the earliest time on.
start_probe : ℕ → Discovery → Option Probe × Discovery
unfolding send_probe
start_probe now d =
    if not d.awaiting && ltb now d.earliest_next_probe then (none, d) else send_probe now d

-- The awaited probe has had its attempts, and the last one has timed out.
give_up : ℕ → Discovery → Option Probe × Discovery
unfolding start_probe
give_up now d =
    let d' = record_failure (record d { awaiting = false }) in
    if is_searching d'.status then start_probe now d' else (none, d')

pub poll : Discovery → ℕ → Option Probe × Discovery
unfolding give_up start_probe
poll d now =
    if not (is_searching d.status)
    then (none, d)
    else if d.awaiting
    then (if ltb now d.deadline
        then (none, d)
        else if leb maximum_attempts d.attempts
        then give_up now d
        else start_probe now d)
    else start_probe now d

pub acknowledge : Discovery → ℕ → ℕ → ℕ → Bool × Discovery
acknowledge d id payload_bytes now =
    if not (is_searching d.status)
      || (not d.awaiting
          || (not (d.active_probe.id == id) || not (d.active_probe.payload_bytes == payload_bytes)))
    then (false, d)
    else (
      true,
      record_success
          (record d { awaiting = false; attempts = 0; earliest_next_probe = now + probe_timeout }),
    )

pub safe_payload_bytes : Discovery → ℕ
safe_payload_bytes d = if ltb 0 d.safe then d.safe else fallback_payload_bytes
