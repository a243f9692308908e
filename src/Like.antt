-- ===== src/Like.antt =====
-- The LIKE patterns of the rule language (`_like_pattern` and `_like_matches` of
-- app/auto_approval/rules.py). The compiled regular expression is the list of its parts; `fullmatch`
-- is what Python's `re` does with them, where `.` is any character but a line feed.
mod Spec
mod Samples
use eh_bot.Prelude.{ℕ, Bool, true, false, not, ◌&&◌, ◌||◌, List, [], ◌∷◌, ◌==◌, if◌then◌else◌, Text}

-- One part of the expression: `.*`, `.` or an escaped character.
pub data Part : Type 0 where
  run one : Part
  lit : ℕ → Part

unfoldable pub part : ℕ → Part
part c = if c == b'%' then run else if c == b'_' then one else lit c

-- `[%]` or `[_]` stands here.
unfoldable pub is_escape : ℕ → ℕ → ℕ → Bool
is_escape a b d = a == b'[' && (b == b'%' || b == b'_') && d == b']'

unfoldable pub compile : Text → List Part
unfolding part is_escape
compile [] = []
compile (a ∷ []) = part a ∷ []
compile (a ∷ b ∷ []) = part a ∷ part b ∷ []
compile (a ∷ b ∷ d ∷ s) =
    let escaped = lit b ∷ compile s in
    let plain = part a ∷ compile (b ∷ d ∷ s) in if is_escape a b d then escaped else plain

-- `.*` in front of what the rest of the expression accepts.
some_run : (Text → Bool) → Text → Bool
some_run rest [] = rest []
some_run rest (c ∷ s) = rest (c ∷ s) || (not (c == 10) && some_run rest s)

fullmatch : List Part → Text → Bool
unfolding some_run
fullmatch [] [] = true
fullmatch [] (c ∷ s) = false
fullmatch (run ∷ p) s = some_run (fullmatch p) s
fullmatch (one ∷ p) [] = false
fullmatch (one ∷ p) (c ∷ s) = not (c == 10) && fullmatch p s
fullmatch (lit x ∷ p) [] = false
fullmatch (lit x ∷ p) (c ∷ s) = c == x && fullmatch p s

-- `_fold`, over Python's `str.casefold`
unfoldable pub fold : (Text → Text) → Bool → Text → Text
fold casefold case_sensitive text = if case_sensitive then text else casefold text

-- `_like_matches`
pub like_matches : (Text → Text) → Text → Text → Bool → Bool
unfolding fullmatch
like_matches casefold pattern_text actual case_sensitive =
    fullmatch (compile (fold casefold case_sensitive pattern_text))
      (fold casefold case_sensitive actual)
