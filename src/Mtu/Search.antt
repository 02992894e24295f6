-- ===== src/Mtu/Search.antt =====
-- The path MTU search against a path that delivers exactly the payloads of at most `limit` bytes.
use jammer_netz.Base.{
  ℕ, ◌+◌, ◌%◌, ◌≤◌, ◌<◌, ◌≡◌, ◌⊎◌, Bool, true, false, ◌&&◌, not, arith, leb, ltb,
}
use jammer_netz.Mtu.{
  searching, complete, Discovery, fallback_payload_bytes, maximum_probe_payload_bytes, initial,
  is_searching, maximum_attempts, select_next_growth_target, select_binary_search_target,
  record_success, record_failure, set_supported, mark_failed, send_probe, start_probe, give_up,
  poll, acknowledge, safe_payload_bytes,
}
use jammer_netz.Mtu.Bounds.{
  IsValid, initial-IsValid, poll-IsValid, acknowledge-IsValid, set_supported-IsValid,
  mark_failed-IsValid, acknowledged, acknowledged-IsValid,
}

-- The last attempt at the awaited probe has timed out, so that `poll` gives it up.
abbrev pub gives_up : Discovery → ℕ → Bool
gives_up d now =
    is_searching d.status
    && (d.awaiting && (not (ltb now d.deadline) && leb maximum_attempts d.attempts))

module _ (limit : ℕ) where
  -- What the session may do: a probe is given up only if the path drops it, and an acknowledgement
  -- arrives only for a payload that the path delivers. Stray and repeated ones are included.
  pub data Step : Discovery → Discovery → Type 0 where
    supports : (b : Bool) (d : Discovery) → Step d (set_supported b d)
    fails : (d : Discovery) → Step d (mark_failed d)
    polls :
        (d : Discovery) (now : ℕ)
        → (gives_up d now ≡ true → limit < d.active_probe.payload_bytes)
        → Step d (poll d now).1
    acknowledges :
        (d : Discovery) (id size now : ℕ) → size ≤ limit → Step d (acknowledge d id size now).1

  pub data Reach : Discovery → Type 0 where
    start : Reach initial
    next : {d e : Discovery} → Reach d → Step d e → Reach e

  -- What is known of the path: it delivers `safe` bytes, and not more than the upper bound, up to
  -- the alignment; a search is complete when no aligned size is left between the two.
  record Knows (d : Discovery) : Type 0 where
    delivered : d.safe ≤ limit
    dropped : 0 < d.upper_bound → limit < d.upper_bound + 8
    settled :
        d.status ≡ complete
        → (d.safe ≡ maximum_probe_payload_bytes)
          ⊎ ((0 < d.upper_bound) × (d.upper_bound < d.safe + 8) × (0 < d.safe))

  record_success-Knows :
      (d : Discovery)
      → IsValid d
      → d.status ≡ searching
      → d.candidate ≤ limit
      → Knows d
      → Knows (record_success d)
  unfolding record_success select_next_growth_target select_binary_search_target
  record_success-Knows d v s h k = ground arith

  record_failure-Knows :
      (d : Discovery)
      → IsValid d
      → d.status ≡ searching
      → limit < d.candidate
      → Knows d
      → Knows (record_failure d)
  unfolding record_failure select_binary_search_target
  record_failure-Knows d v s h k = ground arith

  start_probe-Knows : (now : ℕ) (d : Discovery) → Knows d → Knows (start_probe now d).1
  unfolding start_probe send_probe
  start_probe-Knows now d k = ground arith

  poll-Knows :
      (d : Discovery) (now : ℕ)
      → (gives_up d now ≡ true → limit < d.active_probe.payload_bytes)
      → IsValid d
      → Knows d
      → Knows (poll d now).1
  unfolding poll give_up
  poll-Knows d now h v k = ground (
    arith,
    start_probe-Knows now d k,
    start_probe-Knows now (record_failure d'),
    record_failure-Knows d' v',
    k',
  )
    where
      d' : Discovery
      d' = record d { awaiting = false }

      v' : IsValid d'
      v' = ground arith

      k' : Knows d'
      k' = ground arith

  acknowledge-Knows :
      (d : Discovery) (id size now : ℕ)
      → size ≤ limit
      → IsValid d
      → Knows d
      → Knows (acknowledge d id size now).1
  unfolding acknowledge
  acknowledge-Knows d id size now h v k =
      ground (arith, record_success-Knows (acknowledged d now) (acknowledged-IsValid d now v), k')
    where
      k' : Knows (acknowledged d now)
      k' = ground arith

  Step-Knows : {d e : Discovery} → Step d e → IsValid d → Knows d → IsValid e × Knows e
  unfolding set_supported mark_failed
  Step-Knows (supports true d) v k = (set_supported-IsValid true d v, ground arith)
  Step-Knows (supports false d) v k = (set_supported-IsValid false d v, ground arith)
  Step-Knows (fails d) v k = (mark_failed-IsValid d v, ground arith)
  Step-Knows (polls d now h) v k = (poll-IsValid d now v, poll-Knows d now h v k)
  Step-Knows (acknowledges d id size now h) v k =
      (acknowledge-IsValid d id size now v, acknowledge-Knows d id size now h v k)

  Reach-Knows : {d : Discovery} → Reach d → IsValid d × Knows d
  Reach-Knows start = (initial-IsValid, ground arith)
  Reach-Knows (next r s) = let (v, k) = Reach-Knows r in Step-Knows s v k

  -- In every reachable state the confirmed size is one that the path delivers, and the reported
  -- size lies between the fallback and the largest probe.
  pub Reach-IsDelivered :
      {d : Discovery}
      → Reach d
      → (d.safe ≤ limit)
        × (fallback_payload_bytes ≤ safe_payload_bytes d)
        × (safe_payload_bytes d ≤ maximum_probe_payload_bytes)
  unfolding safe_payload_bytes
  Reach-IsDelivered r = let (v, k) = Reach-Knows r in ground arith

  -- A completed search reports a multiple of 8 that the path delivers: the largest probe, or the
  -- largest multiple of 8 that the path delivers.
  pub Reach-IsMaximal :
      {d : Discovery}
      → Reach d
      → d.status ≡ complete
      → (safe_payload_bytes d ≤ limit)
        × (safe_payload_bytes d % 8 ≡ 0)
        × ((safe_payload_bytes d ≡ maximum_probe_payload_bytes)
            ⊎ (limit < safe_payload_bytes d + 8))
  unfolding safe_payload_bytes
  Reach-IsMaximal r c = let (v, k) = Reach-Knows r in ground (arith, k.settled c)
