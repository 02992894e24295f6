-- ===== src/BufferChoice/Tests.antt =====
-- The choice of a buffer size at a concrete input.
use jammer_netz.Base.{◌≡◌, refl, true, false, [], ◌∷◌}
use jammer_netz.BufferChoice.{
  has_usable_channel_selection, select_buffer_size, select_buffer_size_lem, or_else, least,
  greatest,
}

select_buffer_size_lem_example :
    select_buffer_size 128 (64 ∷ 512 ∷ 0 ∷ 256 ∷ [])
    ≡ or_else (least 128 (64 ∷ 512 ∷ 0 ∷ 256 ∷ [])) (greatest (64 ∷ 512 ∷ 0 ∷ 256 ∷ []))
select_buffer_size_lem_example = select_buffer_size_lem 128 (64 ∷ 512 ∷ 0 ∷ 256 ∷ [])

-- One side without a channel is no selection.
has_usable_channel_selection-both : has_usable_channel_selection (0 ∷ []) (0 ∷ 1 ∷ []) ≡ true
has_usable_channel_selection-both = refl

has_usable_channel_selection-no_input : has_usable_channel_selection [] (0 ∷ 1 ∷ []) ≡ false
has_usable_channel_selection-no_input = refl
