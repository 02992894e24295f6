-- ===== src/Plugin/Gate.antt =====
-- The steps of the message thread keep the gate, and so does any interleaving.
use jammer_netz.Base.{
  ℕ, ◌≡◌, inl, inr, refl, ap, Bool, true, false, Option, none, some, List, [], ◌∷◌, ◌==◌,
  if◌then◌else◌, get_elem?, arith,
}
use jammer_netz.Plugin.{
  Plugin, Event, Control, Callback, idle, gate_reset, engine_started, active, flag_cleared,
  gate_closed, drained, engine_stopped, callback, connect, start_fails, disconnect, advance,
  process_count, callback_step, advance_control, connect_from, fail_from, disconnect_from, move,
  step, run,
}
use jammer_netz.Plugin.Guard.{holds, total, total-le, shut, dry, quiet, IsGuarded, move-IsGuarded}

-- The message thread waits until the gate counts no callback.
closed-IsGuarded :
    (p : Plugin) (empty : Bool)
    → (process_count p.gate == 0) ≡ empty
    → p.control ≡ gate_closed
    → IsGuarded p
    → IsGuarded (if empty then record p { control = drained } else p)
closed-IsGuarded p false z e g = g
closed-IsGuarded p true z e g = record {
  gate_counts = ground (arith, g.gate_counts, e);
  few = g.few;
  connected_active = ground (arith, g.connected_active, e);
  up = λ h. ground arith;
  empty = λ h. ground (arith, g.gate_counts, g.few, e, z);
  silent = λ h. ground arith;
  guarded = g.guarded;
}

control-IsGuarded :
    (control : Control) (p : Plugin)
    → p.control ≡ control
    → IsGuarded p
    → IsGuarded (advance_control control p)
unfolding advance_control
control-IsGuarded idle p e g = g
control-IsGuarded active p e g = g
control-IsGuarded gate_reset p e g = record {
  gate_counts = ground (arith, g.gate_counts, e);
  few = g.few;
  connected_active = ground (arith, g.connected_active, e);
  up = λ h. refl;
  empty = λ h. ground arith;
  silent = λ h. ground (arith, g.silent, e);
  guarded = inr refl;
}
control-IsGuarded engine_started p e g = record {
  gate_counts = ground (arith, g.gate_counts, e);
  few = g.few;
  connected_active = refl;
  up = λ h. ground (arith, g.up, e);
  empty = λ h. ground arith;
  silent = λ h. ground arith;
  guarded = inr (ground (arith, g.up, e));
}
control-IsGuarded flag_cleared p e g = record {
  gate_counts = ground (arith, g.gate_counts, g.few, e);
  few = g.few;
  connected_active = ground (arith, g.connected_active, e);
  up = λ h. ground arith;
  empty = λ h. ground arith;
  silent = λ h. ground arith;
  guarded = g.guarded;
}
control-IsGuarded gate_closed p e g = closed-IsGuarded p (process_count p.gate == 0) refl e g
control-IsGuarded drained p e g =
    let none_held = g.empty (ap dry e) in
    let le = total-le p.callbacks in
    record {
      gate_counts = ground (arith, g.gate_counts, e);
      few = g.few;
      connected_active = ground (arith, g.connected_active, e);
      up = λ h. ground arith;
      empty = λ h. none_held;
      silent = λ h. ground arith;
      guarded = inl (omega (arith, le, none_held));
    }
control-IsGuarded engine_stopped p e g =
    let none_held = g.empty (ap dry e) in
    let le = total-le p.callbacks in
    record {
      gate_counts = omega (arith, none_held);
      few = g.few;
      connected_active = ground (arith, g.connected_active, e);
      up = λ h. ground arith;
      empty = λ h. none_held;
      silent = λ h. omega (arith, le, none_held);
      guarded = inl (omega (arith, le, none_held));
    }

-- A connect resets the gate when no session is there.
abbrev pub resets : Control → Bool
resets idle = true
resets _ = false

-- No callback has its count in the gate when `connectSession` resets the gate.
abbrev pub IsCalm : Event → Plugin → Type 0
IsCalm connect p = (if resets p.control then total holds p.callbacks else 0) ≡ 0
IsCalm _ p = Unit

abbrev pub AllCalm : List Event → Plugin → Type 0
AllCalm [] p = Unit
AllCalm (e ∷ es) p = IsCalm e p × AllCalm es (step e p)

connect-IsGuarded :
    (control : Control) (p : Plugin)
    → p.control ≡ control
    → (if resets control then total holds p.callbacks else 0) ≡ 0
    → IsGuarded p
    → IsGuarded (connect_from control p)
unfolding connect_from
connect-IsGuarded idle p e z g = record {
  gate_counts = omega (arith, z);
  few = g.few;
  connected_active = ground (arith, g.connected_active, e);
  up = λ h. ground arith;
  empty = λ h. z;
  silent = λ h. ground (arith, g.silent, e);
  guarded = g.guarded;
}
connect-IsGuarded gate_reset p e z g = g
connect-IsGuarded _ p e z g = g

fail-IsGuarded :
    (control : Control) (p : Plugin)
    → p.control ≡ control
    → IsGuarded p
    → IsGuarded (fail_from control p)
unfolding fail_from
fail-IsGuarded engine_started p e g =
    let silent = g.silent (ap quiet e) in
    record {
      gate_counts = ground (arith, g.gate_counts, e);
      few = g.few;
      connected_active = ground (arith, g.connected_active, e);
      up = λ h. ground arith;
      empty = λ h. ground arith;
      silent = λ h. silent;
      guarded = inl silent;
    }
fail-IsGuarded idle p e g = g
fail-IsGuarded _ p e g = g

disconnect-IsGuarded :
    (control : Control) (p : Plugin)
    → p.control ≡ control
    → shut control ≡ false
    → IsGuarded p
    → IsGuarded (record p { connected = false; control = flag_cleared })
disconnect-IsGuarded control p e s g = record {
  gate_counts = ground (arith, g.gate_counts, e, s);
  few = g.few;
  connected_active = refl;
  up = λ h. ground arith;
  empty = λ h. ground arith;
  silent = λ h. ground arith;
  guarded = g.guarded;
}

disconnect_from-IsGuarded :
    (control : Control) (p : Plugin)
    → p.control ≡ control
    → IsGuarded p
    → IsGuarded (disconnect_from control p)
unfolding disconnect_from
disconnect_from-IsGuarded idle p e g = disconnect-IsGuarded idle p e refl g
disconnect_from-IsGuarded active p e g = disconnect-IsGuarded active p e refl g
disconnect_from-IsGuarded gate_reset p e g = g
disconnect_from-IsGuarded _ p e g = g

callback-IsGuarded :
    (p : Plugin) (i : ℕ) (o : Option Callback)
    → get_elem? p.callbacks i ≡ o
    → IsGuarded p
    → IsGuarded (elim o [ none ↦ p | some c ↦ move i (callback_step c p) p ])
callback-IsGuarded p i none e g = g
callback-IsGuarded p i (some c) e g = move-IsGuarded p i c e g

step-keeps : (e : Event) (p : Plugin) → IsCalm e p → IsGuarded p → IsGuarded (step e p)
unfolding step
step-keeps (callback i) p z g = callback-IsGuarded p i _ refl g
step-keeps connect p z g = connect-IsGuarded p.control p refl z g
step-keeps start_fails p z g = fail-IsGuarded p.control p refl g
step-keeps disconnect p z g = disconnect_from-IsGuarded p.control p refl g
step-keeps advance p z g = control-IsGuarded p.control p refl g

-- Over an interleaving of the callbacks' steps with connects, failed starts and disconnects in which
-- no callback has its count in the gate whenever a connect resets it, from a state that is guarded:
-- the gate counts the callbacks between their entry and their exit, with the closing bit where a
-- disconnect has set it, and a callback is in the engine only while the session and the engine run.
pub run-IsGuarded :
    (es : List Event) (p : Plugin) → AllCalm es p → IsGuarded p → IsGuarded (run es p)
unfolding run
run-IsGuarded [] p c g = g
run-IsGuarded (e ∷ es) p c g = run-IsGuarded es (step e p) c.1 (step-keeps e p c.0 g)
