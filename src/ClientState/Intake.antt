-- ===== src/ClientState/Intake.antt =====
-- A client's queue stays in order when packets arrive.
use jammer_netz.Base.{
  ℕ, zero, suc, ◌+◌, ◌<◌, ◌≡◌, refl, Bool, true, false, Option, none, some, List, [], ◌∷◌, u64_mod,
  sub64-lt, All, All-append,
}
use mathlib.Core.List.{reverse, reverse-cons}
use jammer_netz.Platform.{Platform}
use jammer_netz.Package.{AudioData, Store, counter, create_pre_padding_package}
use jammer_netz.Package.Padding.{counter-create_pre_padding_package}
use jammer_netz.Queue.{PacketStreamQueue}
use jammer_netz.Queue.Order.{IsOrdered, push-IsOrdered}
use jammer_netz.Queue.Life.{new_queue-IsSound}
use jammer_netz.ClientState.{ClientState, paddings, push_all, opened, prefilled, push}
use jammer_netz.ClientState.Steps.{OrderedQueue}

module _ (P : Platform) where
  abbrev Counted : AudioData P → Type 0
  Counted p = counter P p < u64_mod

  paddings-Counted : (n : ℕ) (p : AudioData P) (st : Store P) → All Counted (paddings P n p st).0
  unfolding paddings
  paddings-Counted zero p st = tt
  paddings-Counted (suc n) p st =
      let (e, st') = create_pre_padding_package P p st in
      (
        rw (counter-create_pre_padding_package P p st) (sub64-lt (counter P p) 1),
        paddings-Counted n e st',
      )

  reverse-Counted : (ps : List (AudioData P)) → All Counted ps → All Counted (reverse ps)
  reverse-Counted [] h = tt
  reverse-Counted (p ∷ ps) h =
      rw (reverse-cons p ps)
        (All-append Counted (reverse ps) (p ∷ []) (reverse-Counted ps h.1) (h.0, tt))

  push_all-IsOrdered :
      (clock : ℕ → P.Float) (i : ℕ) (ps : List (AudioData P)) (q : PacketStreamQueue P)
      → All Counted ps
      → IsOrdered P q
      → IsOrdered P (push_all P clock i ps q)
  unfolding push_all
  push_all-IsOrdered clock i [] q h v = v
  push_all-IsOrdered clock i (p ∷ ps) q h v =
      push_all-IsOrdered clock (i + 1) ps _ h.1 (push-IsOrdered P (clock i) p q h.0 v)

  opened-IsOrdered :
      (queue : Option (PacketStreamQueue P)) (c : ClientState P)
      → c.queue ≡ queue
      → OrderedQueue P queue
      → IsOrdered P (opened P c).0
  opened-IsOrdered none c e v = rw e ((new_queue-IsSound P).ordered)
  opened-IsOrdered (some q) c e v = rw e v

  prefilled-IsOrdered :
      (clock : ℕ → P.Float) (count : ℕ) (p : AudioData P) (has_connected : Bool)
      (q : PacketStreamQueue P) (st : Store P)
      → IsOrdered P q
      → IsOrdered P (prefilled P clock count p has_connected q st).0
  prefilled-IsOrdered clock count p true q st v = v
  prefilled-IsOrdered clock count p false q st v =
      push_all-IsOrdered clock 0 (reverse (paddings P count p st).0) q
        (reverse-Counted (paddings P count p st).0 (paddings-Counted count p st)) v

  -- A packet with a 64-bit counter leaves the queue in order, with or without padding.
  pub push-OrderedQueue :
      (clock : ℕ → P.Float) (count : ℕ) (p : AudioData P) (c : ClientState P) (st : Store P)
      → counter P p < u64_mod
      → OrderedQueue P c.queue
      → OrderedQueue P (push P clock count p c st).1.queue
  unfolding push
  push-OrderedQueue clock count p c st k v = push-IsOrdered P (clock count) p _ k (
      prefilled-IsOrdered clock count p c.has_connected (opened P c).0 st
        (opened-IsOrdered c.queue c refl v))
