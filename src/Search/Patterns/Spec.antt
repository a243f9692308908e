-- ===== src/Search/Patterns/Spec.antt =====
-- A search value and a rule's pattern are one language.
use eh_bot.Prelude.{
  ℕ, ◌≡◌, refl, Bool, true, false, ◌||◌, List, [], ◌∷◌, ◌==◌, if◌then◌else◌, Text, arith,
  Bool-cases, inl, inr,
}
use eh_bot.Like.{Part, lit, part, is_escape, compile}
use eh_bot.Search.Patterns.{guarded, like_pattern, is_wildcard, has_wildcard}

-- The operand of SQL's `LIKE … ESCAPE '\'`: what follows a backslash is literal.
pub sql_parts : Text → List Part
unfolding part
sql_parts [] = []
sql_parts (a ∷ []) = part a ∷ []
sql_parts (a ∷ b ∷ s) =
    let literal = lit b ∷ sql_parts s in
    let plain = part a ∷ sql_parts (b ∷ s) in if a == b'\\' then literal else plain

sql_parts-plain :
    (a : ℕ) (s : Text) → (a == b'\\') ≡ false → sql_parts (a ∷ s) ≡ part a ∷ sql_parts s
unfolding sql_parts
sql_parts-plain a [] h = refl
sql_parts-plain a (b ∷ s) h = rw (h) refl

sql_parts-escape : (b : ℕ) (s : Text) → sql_parts (b'\\' ∷ b ∷ s) ≡ lit b ∷ sql_parts s
unfolding sql_parts
sql_parts-escape b s = refl

sql_parts-guarded : (a : ℕ) (s : Text) → sql_parts (guarded a s) ≡ part a ∷ sql_parts s
unfolding guarded part
sql_parts-guarded a s =
    grind (arith, sql_parts-escape b'\\' s, sql_parts-escape b'[' s, sql_parts-plain a s)

-- As the operand of SQL's `LIKE` with a backslash as its escape, the pattern of a search value has
-- the parts that the value has as a pattern of the rule language.
pub sql_parts-like_pattern : (v : Text) → sql_parts (like_pattern v) ≡ compile v
unfolding like_pattern compile
sql_parts-like_pattern [] = unfold sql_parts in refl
sql_parts-like_pattern (a ∷ []) = rw (sql_parts-guarded a []) (unfold sql_parts in refl)
sql_parts-like_pattern (a ∷ b ∷ []) =
    rw (sql_parts-guarded a (guarded b []), sql_parts-guarded b []) (unfold sql_parts in refl)
sql_parts-like_pattern (a ∷ b ∷ d ∷ s) = elim (Bool-cases (is_escape a b d)) [
  | inl e ↦ rw (e, sql_parts-escape b (like_pattern s), sql_parts-like_pattern s) refl
  | inr e ↦
      rw (e, sql_parts-guarded a (like_pattern (b ∷ d ∷ s)), sql_parts-like_pattern (b ∷ d ∷ s))
        refl
]

pub any_wild : List Part → Bool
any_wild [] = false
any_wild (lit c ∷ p) = any_wild p
any_wild (_ ∷ p) = true

any_wild-part : (a : ℕ) (p : List Part) → any_wild (part a ∷ p) ≡ (is_wildcard a || any_wild p)
unfolding any_wild part is_wildcard
any_wild-part a p = ground arith

-- A search value counts as a pattern just if a part of it, read as a pattern of the rule language,
-- is a wildcard.
pub has_wildcard-compile : (v : Text) → has_wildcard v ≡ any_wild (compile v)
unfolding has_wildcard compile
has_wildcard-compile [] = unfold any_wild in refl
has_wildcard-compile (a ∷ []) = unfold any_wild in ground (arith, any_wild-part a [])
has_wildcard-compile (a ∷ b ∷ []) =
    rw (any_wild-part a (part b ∷ []), any_wild-part b []) (unfold any_wild in ground arith)
has_wildcard-compile (a ∷ b ∷ d ∷ s) = elim (Bool-cases (is_escape a b d)) [
  | inl e ↦ rw (e, has_wildcard-compile s) (unfold any_wild in refl)
  | inr e ↦ rw (e, any_wild-part a (compile (b ∷ d ∷ s)), has_wildcard-compile (b ∷ d ∷ s)) refl
]
