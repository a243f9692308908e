-- ===== src/Search/Segments.antt =====
-- `_segments` of app/search/query.py.
pub mod Tiling
use eh_bot.Prelude.{
  ℕ, zero, suc, ◌+◌, Bool, true, false, Option, none, some, List, [], ◌∷◌, ◌++◌, ◌==◌,
  if◌then◌else◌, length, Text,
}

-- `block` and `unclosed` have the place of their first `$`, `text` the place where it starts; a
-- block has the place of its second `$` too.
pub data Segment : Type 0 where
  block : Text → ℕ → ℕ → Segment
  words : Text → ℕ → Segment
  unclosed : Text → ℕ → Segment

-- What stands in front of the first `$`, and what follows that `$` (`text.find`).
cut : Text → Text × Option Text
cut [] = ([], none)
cut (c ∷ t) = let (before, after) = cut t in if c == b'$' then ([], some t) else (c ∷ before, after)

-- A `$` at place `i` stands in front of the text.
open_block : ℕ → Text → Text × Option Text → (ℕ → Text → List Segment) → List Segment
open_block i t (inside, none) go = unclosed (b'$' ∷ t) i ∷ []
open_block i t (inside, some rest) go =
    block inside i (i + 1 + length inside) ∷ go (i + 2 + length inside) rest

-- The free text ends at a `$`, which stays.
free_text : ℕ → Text × Option Text → (ℕ → Text → List Segment) → List Segment
free_text i (inside, none) go = words inside i ∷ []
free_text i (inside, some rest) go = words inside i ∷ go (i + length inside) (b'$' ∷ rest)

-- The text from place `i` on. The fuel is more than the segments that are left: each takes a
-- character.
segments_from : ℕ → ℕ → Text → List Segment
unfolding cut open_block free_text
segments_from zero i t = []
segments_from (suc f) i [] = []
segments_from (suc f) i (c ∷ t) =
    if c == b'$'
    then open_block i t (cut t) (segments_from f)
    else free_text i (cut (c ∷ t)) (segments_from f)

pub segments : Text → List Segment
unfolding segments_from
segments t = segments_from (length t) 0 t
