-- ===== src/Mtu/Progress.antt =====
-- Every probe that is settled brings the path MTU search nearer to its end.
use jammer_netz.Base.{ℕ, ◌+◌, ◌-◌, ◌≤◌, ◌<◌, ◌≡◌, false, arith, if◌then◌else◌, ◌==◌}
use jammer_netz.Mtu.{
  searching, Discovery, is_searching, select_next_growth_target, select_binary_search_target,
  record_success, record_failure, send_probe, start_probe, give_up, poll, acknowledge,
}
use jammer_netz.Mtu.Bounds.{IsValid, acknowledged, acknowledged-IsValid}
use jammer_netz.Mtu.Search.{gives_up}

-- How far the search is from its end: over the growth targets, then over the span that is left.
abbrev pub remaining : Discovery → ℕ
remaining d =
    if is_searching d.status
    then (if d.upper_bound == 0 then 40000 - d.safe else d.upper_bound - d.safe + 1)
    else 0

record_success-progress :
    (d : Discovery) → IsValid d → d.status ≡ searching → remaining (record_success d) < remaining d
unfolding record_success select_next_growth_target select_binary_search_target
record_success-progress d v s = ground arith

record_failure-progress :
    (d : Discovery) → IsValid d → d.status ≡ searching → remaining (record_failure d) < remaining d
unfolding record_failure select_binary_search_target
record_failure-progress d v s = ground arith

remaining-start_probe : (now : ℕ) (d : Discovery) → remaining (start_probe now d).1 ≡ remaining d
unfolding start_probe send_probe
remaining-start_probe now d = ground arith

acknowledge-progress :
    (d : Discovery) (id size now : ℕ)
    → IsValid d
    → remaining (acknowledge d id size now).1 + (if (acknowledge d id size now).0 then 1 else 0)
      ≤ remaining d
unfolding acknowledge
acknowledge-progress d id size now v =
    ground (arith, record_success-progress (acknowledged d now) (acknowledged-IsValid d now v))

poll-progress :
    (d : Discovery) (now : ℕ)
    → IsValid d
    → remaining (poll d now).1 + (if gives_up d now then 1 else 0) ≤ remaining d
unfolding poll give_up
poll-progress d now v = ground (
  arith,
  remaining-start_probe now d,
  remaining-start_probe now (record_failure d'),
  record_failure-progress d' v',
)
  where
    d' : Discovery
    d' = record d { awaiting = false }

    v' : IsValid d'
    v' = ground arith

-- An acknowledgement that is accepted and a poll that gives a probe up each bring the search nearer
-- to its end, and no other acknowledgement or poll takes it farther away.
pub probing-progress :
    (d : Discovery) (id size now now' : ℕ)
    → IsValid d
    → (remaining (acknowledge d id size now).1 + (if (acknowledge d id size now).0 then 1 else 0)
        ≤ remaining d)
      × (remaining (poll d now').1 + (if gives_up d now' then 1 else 0) ≤ remaining d)
probing-progress d id size now now' v =
    (acknowledge-progress d id size now v, poll-progress d now' v)
