-- ===== src/Mtu/Bounds.antt =====
-- The invariant of the path MTU search: what it probes and reports stays within its limits.
use jammer_netz.Base.{ℕ, ◌+◌, ◌%◌, ◌≤◌, ◌<◌, ◌≡◌, ◌⊎◌, refl, Bool, true, false, arith}
use jammer_netz.Mtu.{
  searching, Discovery, probe_timeout, fallback_payload_bytes, maximum_probe_payload_bytes, initial,
  select_next_growth_target, select_binary_search_target, record_success, record_failure,
  set_supported, mark_failed, send_probe, start_probe, give_up, poll, acknowledge,
  safe_payload_bytes,
}

pub record IsValid (d : Discovery) : Type 0 where
  pub safe_range : (d.safe ≡ 0) ⊎ (fallback_payload_bytes ≤ d.safe)
  pub safe_most : d.safe ≤ maximum_probe_payload_bytes
  pub safe_aligned : d.safe % 8 ≡ 0
  pub candidate_least : fallback_payload_bytes ≤ d.candidate
  pub candidate_most : d.candidate ≤ maximum_probe_payload_bytes
  pub candidate_aligned : d.candidate % 8 ≡ 0
  pub upper_aligned : d.upper_bound % 8 ≡ 0
  pub upper_most : d.upper_bound ≤ maximum_probe_payload_bytes
  pub upper_safe : 0 < d.upper_bound → 0 < d.safe
  pub candidate_new : d.status ≡ searching → d.safe < d.candidate
  pub candidate_upper : d.status ≡ searching → 0 < d.upper_bound → d.candidate ≤ d.upper_bound
  pub active : d.awaiting ≡ true → d.active_probe.payload_bytes ≡ d.candidate

pub record_success-IsValid :
    (d : Discovery)
    → d.awaiting ≡ false
    → IsValid d
    → d.status ≡ searching
    → IsValid (record_success d)
unfolding record_success select_next_growth_target select_binary_search_target
record_success-IsValid d w v s = ground arith

pub record_failure-IsValid :
    (d : Discovery)
    → d.awaiting ≡ false
    → IsValid d
    → d.status ≡ searching
    → IsValid (record_failure d)
unfolding record_failure select_binary_search_target
record_failure-IsValid d w v s = ground arith

pub initial-IsValid : IsValid initial
initial-IsValid = ground arith

send_probe-IsValid : (now : ℕ) (d : Discovery) → IsValid d → IsValid (send_probe now d).1
unfolding send_probe
send_probe-IsValid now d v = ground arith

start_probe-IsValid : (now : ℕ) (d : Discovery) → IsValid d → IsValid (start_probe now d).1
unfolding start_probe
start_probe-IsValid now d v = ground (arith, send_probe-IsValid now d v)

retired-IsValid : (d : Discovery) → IsValid d → IsValid (record d { awaiting = false })
retired-IsValid d v = ground arith

abbrev pub acknowledged : Discovery → ℕ → Discovery
acknowledged d now = record d {
  awaiting = false;
  attempts = 0;
  earliest_next_probe = now + probe_timeout;
}

pub acknowledged-IsValid : (d : Discovery) (now : ℕ) → IsValid d → IsValid (acknowledged d now)
acknowledged-IsValid d now v = ground arith

give_up-IsValid :
    (now : ℕ) (d : Discovery) → IsValid d → d.status ≡ searching → IsValid (give_up now d).1
unfolding give_up
give_up-IsValid now d v s = ground (
  arith,
  start_probe-IsValid now (record_failure d')
      (record_failure-IsValid d' refl (retired-IsValid d v) s),
  record_failure-IsValid d' refl (retired-IsValid d v) s,
)
  where
    d' : Discovery
    d' = record d { awaiting = false }

pub poll-IsValid : (d : Discovery) (now : ℕ) → IsValid d → IsValid (poll d now).1
unfolding poll
poll-IsValid d now v = ground (arith, give_up-IsValid now d v, start_probe-IsValid now d v)

pub acknowledge-IsValid :
    (d : Discovery) (id size now : ℕ) → IsValid d → IsValid (acknowledge d id size now).1
unfolding acknowledge
acknowledge-IsValid d id size now v =
    ground (arith, record_success-IsValid (acknowledged d now) refl (acknowledged-IsValid d now v))

pub set_supported-IsValid : (b : Bool) (d : Discovery) → IsValid d → IsValid (set_supported b d)
unfolding set_supported
set_supported-IsValid true d v = ground arith
set_supported-IsValid false d v = ground arith

pub mark_failed-IsValid : (d : Discovery) → IsValid d → IsValid (mark_failed d)
unfolding mark_failed
mark_failed-IsValid d v = ground arith

-- In a valid search the reported payload size lies between the fallback and the largest probe.
pub safe_payload_bytes_bounds :
    (d : Discovery)
    → IsValid d
    → (fallback_payload_bytes ≤ safe_payload_bytes d)
      × (safe_payload_bytes d ≤ maximum_probe_payload_bytes)
unfolding safe_payload_bytes
safe_payload_bytes_bounds d v = ground arith
