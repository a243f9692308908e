-- ===== src/Search/Segments/Tiling.antt =====
-- The segments of a query cover it.
use mathlib.Core.Path.{subst}
use eh_bot.Prelude.{
  ℕ, zero, suc, ◌+◌, ◌≤◌, ◌<◌, ◌≡◌, refl, sym, Bool, true, false, Option, none, some, List, [], ◌∷◌,
  ◌++◌, ◌==◌, if◌then◌else◌, length, Text, arith, length-append, append-nil, All, Bool-cases, inl,
  inr, ◌≢◌,
}
use eh_bot.Search.Segments.{
  Segment, block, words, unclosed, cut, open_block, free_text, segments_from, segments,
}

-- No `$` stands in the text.
abbrev pub IsFree : Text → Type 0
IsFree t = All (λ c. c ≢ b'$') t

-- The text is at its end, or in front of a `$`.
pub data Stops : Text → Type 0 where
  at_end : Stops []
  at_next : {t : Text} → Stops (b'$' ∷ t)

-- `Tiles i t parts`: the text, which starts at place `i` of the query, is the parts one behind the
-- other, at the places that they name.
pub data Tiles : ℕ → Text → List Segment → Type 0 where
  done : {i : ℕ} → Tiles i [] []
  block_first :
      {i : ℕ} (inside : Text) {rest : Text} {parts : List Segment}
      → IsFree inside
      → Tiles (i + 2 + length inside) rest parts
      → Tiles i (b'$' ∷ inside ++ b'$' ∷ rest) (block inside i (i + 1 + length inside) ∷ parts)
  words_first :
      {i : ℕ} (inside : Text) {rest : Text} {parts : List Segment}
      → 1 ≤ length inside
      → IsFree inside
      → Stops rest
      → Tiles (i + length inside) rest parts
      → Tiles i (inside ++ rest) (words inside i ∷ parts)
  unclosed_last :
      {i : ℕ} (inside : Text)
      → IsFree inside
      → Tiles i (b'$' ∷ inside) (unclosed (b'$' ∷ inside) i ∷ [])

-- What `cut` finds.
data Cut : Text → Text × Option Text → Type 0 where
  no_dollar : {t : Text} → IsFree t → Cut t (t, none)
  at_dollar :
      {before after : Text} → IsFree before → Cut (before ++ b'$' ∷ after) (before, some after)

dollar : (c : ℕ) → (c == b'$') ≡ true → c ≡ b'$'
dollar c h = ground arith

not_dollar : (c : ℕ) → (c == b'$') ≡ false → c ≢ b'$'
not_dollar c h = ground arith

Cut-step :
    (c : ℕ) {t : Text} {p : Text × Option Text} → c ≢ b'$' → Cut t p → Cut (c ∷ t) (c ∷ p.0, p.1)
Cut-step c n (no_dollar free) = no_dollar (n, free)
Cut-step c n (at_dollar {before} free) = at_dollar {before = c ∷ before} (n, free)

Cut-cons :
    (c : ℕ) (t : Text) (p : Text × Option Text)
    → Cut t p
    → Cut (c ∷ t) (if c == b'$' then ([], some t) else (c ∷ p.0, p.1))
Cut-cons c t p h = elim (Bool-cases (c == b'$')) [
  | inl e ↦
      rw (e) (subst (λ x. Cut (x ∷ t) ([], some t)) (sym (dollar c e)) (at_dollar {before = []} tt))
  | inr e ↦ rw (e) (Cut-step c (not_dollar c e) h)
]

cut-Cut : (t : Text) → Cut t (cut t)
unfolding cut
cut-Cut [] = no_dollar tt
cut-Cut (c ∷ t) = Cut-cons c t (cut t) (cut-Cut t)

open_block-Tiles :
    (i : ℕ) (t : Text) (p : Text × Option Text) (go : ℕ → Text → List Segment)
    → Cut t p
    → ((j : ℕ) (rest : Text) → length rest < length t + 1 → Tiles j rest (go j rest))
    → Tiles i (b'$' ∷ t) (open_block i t p go)
unfolding open_block
open_block-Tiles i t p go (no_dollar free) h = unclosed_last t free
open_block-Tiles i t p go (at_dollar {before} {after} free) h =
    block_first before free
      (h (i + 2 + length before) after (omega (arith, length-append before (b'$' ∷ after))))

-- The first character is no `$`.
Starts : Text → Type 0
Starts [] = ⊥
Starts (c ∷ t) = c ≢ b'$'

length-Starts : (s : Text) → Starts s → 1 ≤ length s
unfolding Starts
length-Starts [] h = absurd h
length-Starts (c ∷ t) h = omega arith

Tiles-if :
    {i : ℕ} {t : Text} (b : Bool) {x y : List Segment}
    → (b ≡ true → Tiles i t x)
    → (b ≡ false → Tiles i t y)
    → Tiles i t (if b then x else y)
Tiles-if true hx hy = hx refl
Tiles-if false hx hy = hy refl

free_text-Tiles :
    (i : ℕ) (s : Text) (p : Text × Option Text) (go : ℕ → Text → List Segment)
    → Starts s
    → Cut s p
    → ((j : ℕ) (rest : Text) → length rest < length s → Tiles j rest (go j rest))
    → Tiles i s (free_text i p go)
unfolding free_text Starts
free_text-Tiles i s p go hs (no_dollar free) rest =
    subst (λ x. Tiles i x (words s i ∷ [])) (append-nil s)
      (words_first s (length-Starts s hs) free at_end done)
free_text-Tiles i s p go hs (at_dollar {before = []} {after} free) rest = absurd (hs refl)
free_text-Tiles i s p go hs (at_dollar {before = c ∷ before} {after} free) rest =
    words_first (c ∷ before) (omega arith) free at_next (
      rest (i + length (c ∷ before)) (b'$' ∷ after)
        (omega (arith, length-append (c ∷ before) (b'$' ∷ after))))

segments_from-Tiles : (f i : ℕ) (t : Text) → length t ≤ f → Tiles i t (segments_from f i t)
unfolding segments_from Starts
segments_from-Tiles zero i [] h = done
segments_from-Tiles zero i (c ∷ t) h = absurd (omega arith)
segments_from-Tiles (suc f) i [] h = done
segments_from-Tiles (suc f) i (c ∷ t) h =
    Tiles-if (c == b'$')
      (λ e.
        subst (λ x. Tiles i (x ∷ t) (open_block i t (cut t) (segments_from f))) (sym (dollar c e))
          (open_block-Tiles i t (cut t) (segments_from f) (cut-Cut t)
            λ j rest l. segments_from-Tiles f j rest (omega arith)))
      λ e.
        free_text-Tiles i (c ∷ t) (cut (c ∷ t)) (segments_from f) (not_dollar c e) (cut-Cut (c ∷ t))
          λ j rest l. segments_from-Tiles f j rest (omega arith)

-- The segments cover the query, each where it says and in order: a block between two `$`, words that
-- go on up to the next `$` or the end and are not empty, and at most one block that never closes,
-- which is the last. No `$` stands within any of them, but for the one that opens an unclosed block.
pub segments-Tiles : (t : Text) → Tiles 0 t (segments t)
unfolding segments
segments-Tiles t = segments_from-Tiles (length t) 0 t (omega arith)
