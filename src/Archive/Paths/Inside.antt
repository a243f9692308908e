-- ===== src/Archive/Paths/Inside.antt =====
-- A normal name stays within the directory.
use eh_bot.Prelude.{
  ℕ, ◌≡◌, ◌≢◌, refl, Bool, true, false, ◌||◌, List, [], ◌∷◌, ◌==◌, Text, codes, list_eq, All, arith,
  ok, IfOk, returned, IfOk-ok, IfOk-refuse_if, Bool-cases, inl, inr,
}
use eh_bot.Prelude.Strings.{trim, split_at_any, push}
use eh_bot.Archive.{invalid_name, absolute_name, traversal}
use eh_bot.Archive.Paths.{
  to_slashes, real_parts, parts, path_text, has_parent, is_absolute, normalize_member_name,
}

abbrev pub HasNoSlash : Text → Type 0
HasNoSlash p = All (λ c. c ≢ b'/') p

-- A part that names a child.
pub record IsChild (p : Text) : Type 0 where
  pub is_given : list_eq p [] ≡ false
  pub no_dot : list_eq p (codes ".") ≡ false
  pub no_parent : list_eq p (codes "..") ≡ false
  pub no_slash : HasNoSlash p

-- The text is a relative path of such parts.
pub record IsInside (t : Text) : Type 0 where
  pub children : List Text
  pub written : t ≡ path_text children
  pub each : All IsChild children

push-HasNoSlash :
    (c : ℕ) (b : Bool) (ps : List Text)
    → (b ≡ false → c ≢ b'/')
    → All HasNoSlash ps
    → All HasNoSlash (push b c ps)
push-HasNoSlash c true ps h hs = (tt, hs)
push-HasNoSlash c false [] h hs = ((h refl, tt), tt)
push-HasNoSlash c false (p ∷ ps) h hs = ((h refl, hs.0), hs.1)

split_at_any-HasNoSlash : (t : Text) → All HasNoSlash (split_at_any (λ c. c == b'/') t)
unfolding split_at_any
split_at_any-HasNoSlash [] = (tt, tt)
split_at_any-HasNoSlash (c ∷ t) =
    push-HasNoSlash c (c == b'/') (split_at_any (λ c. c == b'/') t) (λ e. ground arith)
      (split_at_any-HasNoSlash t)

real_parts-IsChild :
    (ps : List Text)
    → All HasNoSlash ps
    → has_parent (real_parts ps) ≡ false
    → All IsChild (real_parts ps)
unfolding real_parts has_parent
real_parts-IsChild [] h g = tt
real_parts-IsChild (p ∷ ps) h g = elim (Bool-cases (list_eq p [] || list_eq p (codes "."))) [
  | inl e ↦ rw (e) (real_parts-IsChild ps h.1 (ground arith))
  | inr e ↦ rw (e) (
    record {
      is_given = ground arith;
      no_dot = ground arith;
      no_parent = ground arith;
      no_slash = h.0;
    },
    real_parts-IsChild ps h.1 (ground arith),
  )
]

normalize-IfOk : (name : Text) → IfOk IsInside (normalize_member_name name)
unfolding normalize_member_name parts
normalize-IfOk name =
    let cleaned = trim (to_slashes name) in
    IfOk-refuse_if (list_eq cleaned []) invalid_name λ _.
      IfOk-refuse_if (is_absolute cleaned) absolute_name λ _.
        IfOk-refuse_if (has_parent (parts cleaned)) traversal λ h. returned (record {
          children = parts cleaned;
          written = refl;
          each =
              real_parts-IsChild (split_at_any (λ c. c == b'/') cleaned)
                (split_at_any-HasNoSlash cleaned) h;
        })

-- A member name that is accepted becomes a relative path of which no part is empty, a dot, two dots
-- or has a slash within.
pub normalize_member_name-IsInside :
    (name path : Text) → normalize_member_name name ≡ ok path → IsInside path
normalize_member_name-IsInside name path e = IfOk-ok (normalize-IfOk name) e
