-- ===== src/Queue/Silence.antt =====
-- The second fill-in of a gap and the buffer that it shares.
use jammer_netz.Base.{ℕ, ◌≤◌, ◌<◌, ◌≡◌, ◌∙◌, false, List, ◌∷◌, arith, sub64}
use jammer_netz.Platform.{Platform, BufferLaws}
use jammer_netz.Package.{AudioData, Store, counter, create_fill_in_package, put_buffer}
use jammer_netz.Package.FillIn.{buffer-create_fill_in_package}
use jammer_netz.Queue.{PacketStreamQueue, fill_in, pop_fill_in, pop_first, try_pop, follows_on}
use jammer_netz.Queue.Order.{IsOrdered}
use jammer_netz.Queue.Pop.{pop_fill_in-packets}

module _ (P : Platform) where
  open P use {sample, num_channels, num_samples, literal}

  fill_in-clears :
      (st : Store P) (p : AudioData P) (q : PacketStreamQueue P)
      → 1 ≤ q.current_gap
      → (create_fill_in_package P st p (sub64 (counter P p) 1)).0 ≡ false
      → (fill_in P st p q).2.cells p.audio_block.audio_buffer
        ≡ P.clear (st.cells p.audio_block.audio_buffer)
  unfolding fill_in put_buffer
  fill_in-clears st p q h n =
      ground (arith, buffer-create_fill_in_package P st p (sub64 (counter P p) 1) n)

  first_silences :
      (st : Store P) (p : AudioData P) (rest ps : List (AudioData P)) (q : PacketStreamQueue P)
      → ps ≡ p ∷ rest
      → follows_on P p q ≡ false
      → q.packets ≡ p ∷ rest
      → 1 ≤ q.current_gap
      → (create_fill_in_package P st p (sub64 (counter P p) 1)).0 ≡ false
      → IsOrdered P q
      → let (r, q', st') = pop_first P st ps q in
        (q'.packets ≡ p ∷ rest)
        × (st'.cells p.audio_block.audio_buffer ≡ P.clear (st.cells p.audio_block.audio_buffer))
  unfolding pop_first
  first_silences st p rest ps q d f e h n v =
      rw (d, pop_first, f)
        (pop_fill_in-packets P st p rest q e v ∙ e, unfold pop_fill_in in fill_in-clears st p q h n)

  -- Where a fill-in has been handed out already, the waiting packet still does not follow on, and
  -- it has no FEC block for its predecessor, the next pop leaves the waiting packet at the front of
  -- the queue and sets every sample of its buffer to zero: that packet is handed out silent.
  pub try_pop-silences_waiting :
      (laws : BufferLaws P) (st : Store P) (p : AudioData P) (rest : List (AudioData P))
      (q : PacketStreamQueue P) (channel i : ℕ)
      → q.packets ≡ p ∷ rest
      → follows_on P p q ≡ false
      → 1 ≤ q.current_gap
      → (create_fill_in_package P st p (sub64 (counter P p) 1)).0 ≡ false
      → IsOrdered P q
      → channel < num_channels (st.cells p.audio_block.audio_buffer)
      → i < num_samples (st.cells p.audio_block.audio_buffer)
      → let (r, q', st') = try_pop P st q in
        (q'.packets ≡ p ∷ rest)
        × (sample (st'.cells p.audio_block.audio_buffer) channel i ≡ literal 0 0)
  unfolding try_pop
  try_pop-silences_waiting laws st p rest q channel i e f h n v hc hi =
      let (kept, cleared) = first_silences st p rest q.packets q e f e h n v in
      (kept, rw cleared (laws.clear_silent (st.cells p.audio_block.audio_buffer) channel i hc hi))
