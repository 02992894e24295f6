-- ===== src/Mtu/Tests.antt =====
-- The path MTU search at concrete inputs.
use jammer_netz.Base.{
  ℕ, ◌+◌, ◌*◌, ◌%◌, ◌≤◌, ◌<◌, ◌≡◌, ◌⊎◌, refl, true, false, arith, add64, if◌then◌else◌,
}
use jammer_netz.Mtu.{
  complete, Discovery, initial, select_next_growth_target, record_success, set_supported, poll,
  acknowledge, safe_payload_bytes,
}
use jammer_netz.Mtu.Bounds.{IsValid, initial-IsValid, set_supported-IsValid, poll-IsValid}
use jammer_netz.Mtu.Search.{
  Reach, start, next, supports, polls, acknowledges, gives_up, Reach-IsDelivered, Reach-IsMaximal,
}
use jammer_netz.Mtu.Progress.{remaining, probing-progress}

runs : Unit {0}
unfolding poll acknowledge set_supported record_success select_next_growth_target safe_payload_bytes
    add64
runs = tt

-- One probe, acknowledged at once.
abbrev round : ℕ → ℕ → Discovery → Discovery
round id size d = (acknowledge (poll d (1000 * id)).1 id size (1000 * id)).1

round-Reach :
    (id size : ℕ) (d : Discovery)
    → gives_up d (1000 * id) ≡ false
    → size ≤ 20000
    → Reach 20000 d
    → Reach 20000 (round id size d)
round-Reach id size d h k r =
    next (next r (polls d (1000 * id) (λ e. absurd (cc)))) (acknowledges _ id size (1000 * id) k)

abbrev supported : Discovery
supported = set_supported true initial

abbrev small : Discovery
small = round 2 1472 (round 1 1200 supported)

abbrev grown : Discovery
grown = round 6 16384 (round 5 8192 (round 4 4096 (round 3 2048 small)))

grown-runs : (grown.status ≡ complete) × (safe_payload_bytes grown ≡ 16384) × (small.safe ≡ 1472)
unfolding runs
grown-runs = (refl, refl, refl)

small-Reach : Reach 20000 small
unfolding runs
small-Reach =
    round-Reach 2 1472 _ refl (omega arith)
      (round-Reach 1 1200 _ refl (omega arith) (next start (supports true initial)))

grown-Reach : Reach 20000 grown
unfolding runs
grown-Reach = round-Reach 6 16384 _ refl (omega arith) (
    round-Reach 5 8192 _ refl (omega arith) (
      round-Reach 4 4096 _ refl (omega arith)
        (round-Reach 3 2048 _ refl (omega arith) small-Reach)))

Reach-IsDelivered_example :
    (small.safe ≤ 20000) × (1200 ≤ safe_payload_bytes small) × (safe_payload_bytes small ≤ 16384)
Reach-IsDelivered_example = Reach-IsDelivered 20000 small-Reach

Reach-IsMaximal_example :
    (safe_payload_bytes grown ≤ 20000)
    × (safe_payload_bytes grown % 8 ≡ 0)
    × ((safe_payload_bytes grown ≡ 16384) ⊎ (20000 < safe_payload_bytes grown + 8))
Reach-IsMaximal_example = Reach-IsMaximal 20000 grown-Reach grown-runs.0

abbrev probing : Discovery
probing = (poll supported 1000).1

probing-IsValid : IsValid probing
probing-IsValid = poll-IsValid supported 1000 (set_supported-IsValid true initial initial-IsValid)

probing-progress_example :
    (remaining (acknowledge probing 1 1200 1100).1
        + (if (acknowledge probing 1 1200 1100).0 then 1 else 0)
      ≤ remaining probing)
    × (remaining (poll probing 1500).1 + (if gives_up probing 1500 then 1 else 0)
        ≤ remaining probing)
probing-progress_example = probing-progress probing 1 1200 1100 1500 probing-IsValid
