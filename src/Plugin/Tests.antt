-- ===== src/Plugin/Tests.antt =====
-- Concrete runs of the plugin's session.
use jammer_netz.Base.{ℕ, ◌≡◌, refl, false, some, List, [], ◌∷◌, get_elem?, inl, arith}
use jammer_netz.Plugin.{
  Plugin, Event, outside, inside, idle, callback, connect, disconnect, advance, step, run,
  callback_step, advance_control, connect_from, disconnect_from,
}
use jammer_netz.Plugin.Guard.{IsGuarded}
use jammer_netz.Plugin.Gate.{run-IsGuarded}
use jammer_netz.Plugin.Lease.{
  Request, new_leases, new_leases-IsExclusive, take_lease, drop_lease, run_leases, run_leases-one,
  acquire, release,
}

abbrev fresh : Plugin
fresh = record {
  connected = false;
  gate = 0;
  running = false;
  control = idle;
  callbacks = outside ∷ [];
}

fresh-IsGuarded : IsGuarded fresh
fresh-IsGuarded = record {
  gate_counts = refl;
  few = omega arith;
  connected_active = refl;
  up = λ h. cc;
  empty = λ h. refl;
  silent = λ h. refl;
  guarded = inl refl;
}

-- A session with one callback, and a disconnect that waits for it.
abbrev session : List Event
session =
    connect
    ∷ advance
    ∷ advance
    ∷ callback 0
    ∷ callback 0
    ∷ callback 0
    ∷ callback 0
    ∷ disconnect
    ∷ advance
    ∷ advance
    ∷ callback 0
    ∷ callback 0
    ∷ advance
    ∷ advance
    ∷ advance
    ∷ []

run-IsGuarded_example : IsGuarded (run session fresh)
run-IsGuarded_example =
    run-IsGuarded session fresh
      (unfold step callback_step advance_control connect_from disconnect_from in omega arith)
      fresh-IsGuarded

-- A callback that has read the gate before a disconnect and adds its count after it: the next
-- connect resets the count, and the disconnect after that does not wait for the callback.
abbrev race : List Event
race =
    connect
    ∷ advance
    ∷ advance
    ∷ callback 0
    ∷ callback 0
    ∷ disconnect
    ∷ advance
    ∷ advance
    ∷ advance
    ∷ advance
    ∷ callback 0
    ∷ connect
    ∷ advance
    ∷ advance
    ∷ callback 0
    ∷ disconnect
    ∷ advance
    ∷ advance
    ∷ advance
    ∷ []

race-inside : get_elem? (run race fresh).callbacks 0 ≡ some inside
unfolding run step callback_step advance_control connect_from disconnect_from
race-inside = refl

race-running : (run race fresh).running ≡ false
unfolding run step callback_step advance_control connect_from disconnect_from
race-running = refl

abbrev requests : List Request
requests = take_lease 1 ∷ take_lease 2 ∷ drop_lease 1 ∷ take_lease 2 ∷ take_lease 0 ∷ []

run_leases-one_example : ◌≡◌ {A = ℕ} 2 2
unfolding run_leases acquire release new_leases
run_leases-one_example =
    run_leases-one requests (new_leases 3) 2 2 2 2 (new_leases-IsExclusive 3) refl refl
