-- ===== src/Search/Patterns.antt =====
-- `like_pattern` and `has_wildcard` of app/search/query.py.
pub mod Spec
use eh_bot.Prelude.{ℕ, Bool, true, false, ◌||◌, [], ◌∷◌, ◌==◌, if◌then◌else◌, Text}
use eh_bot.Like.{is_escape}

-- What one character becomes.
guarded : ℕ → Text → Text
guarded c rest =
    if c == b'\\' then b'\\' ∷ b'\\' ∷ rest else if c == b'[' then b'\\' ∷ b'[' ∷ rest else c ∷ rest

pub like_pattern : Text → Text
unfolding guarded is_escape
like_pattern [] = []
like_pattern (a ∷ []) = guarded a []
like_pattern (a ∷ b ∷ []) = guarded a (guarded b [])
like_pattern (a ∷ b ∷ d ∷ s) =
    let escaped = b'\\' ∷ b ∷ like_pattern s in
    let plain = guarded a (like_pattern (b ∷ d ∷ s)) in if is_escape a b d then escaped else plain

is_wildcard : ℕ → Bool
is_wildcard c = c == b'%' || c == b'_'

pub has_wildcard : Text → Bool
unfolding is_wildcard is_escape
has_wildcard [] = false
has_wildcard (a ∷ []) = is_wildcard a
has_wildcard (a ∷ b ∷ []) = is_wildcard a || is_wildcard b
has_wildcard (a ∷ b ∷ d ∷ s) =
    let behind = has_wildcard s in
    let plain = is_wildcard a || has_wildcard (b ∷ d ∷ s) in
    if is_escape a b d then behind else plain
