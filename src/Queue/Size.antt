-- ===== src/Queue/Size.antt =====
-- How the operations change the number of packets in the jitter buffer.
use jammer_netz.Base.{
  ℕ, ◌-◌, ◌≤◌, ◌≡◌, refl, Bool, Option, List, [], arith, length, length-drop, drop,
}
use jammer_netz.Platform.{Platform}
use jammer_netz.Package.{AudioData, Store}
use jammer_netz.Queue.{PacketStreamQueue, try_pop, fast_forward_to_size, size, reset}
use jammer_netz.Queue.Order.{IsOrdered}
use jammer_netz.Queue.Pop.{Pops, empty, real, fill, try_pop-Pops}
use jammer_netz.Queue.Rebase.{fast_forward_to_size_lem}

module _ (P : Platform) where
  pub size-length : (q : PacketStreamQueue P) → size P q ≡ length q.packets
  unfolding size
  size-length q = refl

  length-drop_all : (n : ℕ) (ps : List (AudioData P)) → length (drop (length ps - n) ps) ≤ n
  length-drop_all n ps = omega (arith, length-drop (length ps - n) ps)

  pub fast_forward_to_size-size :
      (retained : ℕ) (q : PacketStreamQueue P)
      → IsOrdered P q
      → size P (fast_forward_to_size P retained q).1 ≤ retained
  unfolding size
  fast_forward_to_size-size retained q v =
      rw ((fast_forward_to_size_lem P retained q v).0) (length-drop_all retained q.packets)

  pub try_pop-size :
      (st : Store P) (q : PacketStreamQueue P)
      → IsOrdered P q
      → size P (try_pop P st q).1 ≤ size P q
  unfolding size
  try_pop-size st q v = shrinks (try_pop P st q).0 (try_pop P st q).1 (try_pop-Pops P st q v)
    where
      shrinks :
          (r : Option (AudioData P × Bool)) (q' : PacketStreamQueue P)
          → Pops P q r q'
          → length q'.packets ≤ length q.packets
      shrinks r q' (empty e n s) = rw s (omega arith)
      shrinks r q' (real p rest e n s l g) = rw (e, s) (omega arith)
      shrinks r q' (fill p rest x e f n s a b l g) = rw s (omega arith)

  pub reset-packets : (q : PacketStreamQueue P) → (reset P q).packets ≡ []
  unfolding reset
  reset-packets q = refl
