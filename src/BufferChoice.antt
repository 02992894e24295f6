-- ===== src/BufferChoice.antt =====
-- The choice of the audio device's buffer size and channels: `selectBufferSize` and more of
-- Client/Source/AudioCorrectness.h. A size that is not positive is skipped, so a negative one is
-- a 0 here, and so is a negative preferred minimum, which no positive size is below.
mod Tests
use jammer_netz.Base.{
  ℕ, ◌≤◌, ◌<◌, ◌≡◌, refl, sym, ◌∙◌, ap, min, max, Bool, true, false, Option, none, some, List, [],
  ◌∷◌, arith, ltb, leb, ◌==◌, ◌&&◌, ◌||◌, not, if◌then◌else◌, length,
}

-- No value, or one that the new one beats.
abbrev pub is_better : (ℕ → ℕ → Bool) → ℕ → Option ℕ → Bool
is_better beats size none = true
is_better beats size (some best) = beats size best

-- The body of the loop: the smallest preferred size and the largest size so far.
abbrev pub note_size : ℕ → ℕ → Option ℕ × Option ℕ → Option ℕ × Option ℕ
note_size preferred size (smallest, largest) = if size == 0 then (smallest, largest) else (
  (if leb preferred size && is_better ltb size smallest then some size else smallest),
  (if is_better (λ a b. ltb b a) size largest then some size else largest),
)

pub note_sizes : ℕ → List ℕ → Option ℕ × Option ℕ → Option ℕ × Option ℕ
note_sizes preferred [] s = s
note_sizes preferred (size ∷ rest) s = note_sizes preferred rest (note_size preferred size s)

abbrev pub or_else : Option ℕ → Option ℕ → Option ℕ
or_else none b = b
or_else (some a) b = some a

pub select_buffer_size : ℕ → List ℕ → Option ℕ
unfolding note_sizes
select_buffer_size preferred sizes =
    let (smallest, largest) = note_sizes preferred sizes (none, none) in or_else smallest largest

-- The smaller and the larger of two values, either of which may be missing.
abbrev pub lower : Option ℕ → Option ℕ → Option ℕ
lower none b = b
lower (some a) none = some a
lower (some a) (some b) = some (min a b)

abbrev pub higher : Option ℕ → Option ℕ → Option ℕ
higher none b = b
higher (some a) none = some a
higher (some a) (some b) = some (max a b)

-- The least usable size that is at least the preferred one.
abbrev pub least : ℕ → List ℕ → Option ℕ
least preferred [] = none
least preferred (size ∷ rest) =
    if ltb 0 size && leb preferred size
    then lower (some size) (least preferred rest)
    else least preferred rest

-- The greatest usable size.
abbrev pub greatest : List ℕ → Option ℕ
greatest [] = none
greatest (size ∷ rest) = if ltb 0 size then higher (some size) (greatest rest) else greatest rest

lower-none : (a : Option ℕ) → lower a none ≡ a
lower-none none = refl
lower-none (some a) = refl

higher-none : (a : Option ℕ) → higher a none ≡ a
higher-none none = refl
higher-none (some a) = refl

note_lower :
    (preferred size : ℕ) (s l r : Option ℕ)
    → lower (note_size preferred size (s, l)).0 r
      ≡ lower s (if ltb 0 size && leb preferred size then lower (some size) r else r)
note_lower preferred size none l none = ground arith
note_lower preferred size none l (some r) = ground arith
note_lower preferred size (some s) l none = ground arith
note_lower preferred size (some s) l (some r) = ground arith

note_higher :
    (preferred size : ℕ) (s l r : Option ℕ)
    → higher (note_size preferred size (s, l)).1 r
      ≡ higher l (if ltb 0 size then higher (some size) r else r)
note_higher preferred size s none none = ground arith
note_higher preferred size s none (some r) = ground arith
note_higher preferred size s (some l) none = ground arith
note_higher preferred size s (some l) (some r) = ground arith

note_sizes_lem :
    (preferred : ℕ) (sizes : List ℕ) (s l : Option ℕ)
    → (lower s (least preferred sizes) ≡ (note_sizes preferred sizes (s, l)).0)
      × (higher l (greatest sizes) ≡ (note_sizes preferred sizes (s, l)).1)
unfolding note_sizes
note_sizes_lem preferred [] s l = (lower-none s, higher-none l)
note_sizes_lem preferred (size ∷ rest) s l =
    let x = note_size preferred size (s, l) in
    let ih = note_sizes_lem preferred rest x.0 x.1 in
    (
      sym (note_lower preferred size s l (least preferred rest)) ∙ ih.0,
      sym (note_higher preferred size s l (greatest rest)) ∙ ih.1,
    )

-- The chosen size is the least positive one that is at least the preferred minimum; where there is
-- none it is the greatest positive one, and where no size is positive there is no choice.
pub select_buffer_size_lem :
    (preferred : ℕ) (sizes : List ℕ)
    → select_buffer_size preferred sizes ≡ or_else (least preferred sizes) (greatest sizes)
unfolding select_buffer_size
select_buffer_size_lem preferred sizes =
    let e = note_sizes_lem preferred sizes none none in
    sym (
      ap (λ a. or_else a (greatest sizes)) e.0
      ∙ ap (or_else (note_sizes preferred sizes (none, none)).0) e.1)

-- `hasUsableChannelSelection`.
abbrev pub has_usable_channel_selection : List ℕ → List ℕ → Bool
has_usable_channel_selection input_channels output_channels =
    ltb 0 (length input_channels) && ltb 0 (length output_channels)
