-- ===== src/Package/Padding.antt =====
-- The silence that stands before the first packet of a client: `createPrePaddingPackage`.
use jammer_netz.Base.{ℕ, ◌<◌, ◌≡◌, refl, none, arith, sub64}
use jammer_netz.Platform.{Platform, BufferLaws}
use jammer_netz.Package.{
  midi_none, AudioData, Store, counter, alloc, put_buffer, create_pre_padding_package,
}

module _ (P : Platform) where
  open P use {num_channels, num_samples, sample, literal}

  pub counter-create_pre_padding_package :
      (d : AudioData P) (st : Store P)
      → counter P (create_pre_padding_package P d st).0 ≡ sub64 (counter P d) 1
  unfolding create_pre_padding_package
  counter-create_pre_padding_package d st = refl

  -- The padding for a packet has as many channels and samples as that packet, is silent throughout,
  -- carries no MIDI command and no FEC block, and stands in the next new buffer of the store: no
  -- buffer that was in use changes.
  pub create_pre_padding_package-IsSilent :
      (laws : BufferLaws P) (d : AudioData P) (st : Store P) (r c i : ℕ)
      → r < st.next
      → c < num_channels (st.cells d.audio_block.audio_buffer)
      → i < num_samples (st.cells d.audio_block.audio_buffer)
      → let (e, st') = create_pre_padding_package P d st in
        (sample (st'.cells e.audio_block.audio_buffer) c i ≡ literal 0 0)
        × (num_samples (st'.cells e.audio_block.audio_buffer)
            ≡ num_samples (st.cells d.audio_block.audio_buffer))
        × (num_channels (st'.cells e.audio_block.audio_buffer)
            ≡ num_channels (st.cells d.audio_block.audio_buffer))
        × (e.audio_block.audio_buffer ≡ st.next)
        × (st'.cells r ≡ st.cells r)
        × (e.audio_block.midi_signal ≡ midi_none)
        × (e.fec_block ≡ none)
  unfolding create_pre_padding_package alloc put_buffer
  create_pre_padding_package-IsSilent laws d st r c i h hc hi = ground (
    arith,
    laws.clear_silent (st.cells d.audio_block.audio_buffer) c i hc hi,
    laws.clear_channels (st.cells d.audio_block.audio_buffer),
    laws.clear_samples (st.cells d.audio_block.audio_buffer),
  )
