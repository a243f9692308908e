-- ===== src/Like/Spec.antt =====
-- What a LIKE pattern says, read off its text.
use eh_bot.Prelude.{
  ℕ, ◌≡◌, ◌≢◌, ◌↔◌, ◌⊎◌, inl, inr, refl, ◌∙◌, Bool, true, false, List, [], ◌∷◌, ◌++◌, arith, ◌==◌,
  Text, Bool-cases,
}
use eh_bot.Like.{
  Part, run, one, lit, part, is_escape, compile, some_run, fullmatch, fold, like_matches,
}

-- The text begins with `[%]` or `[_]`.
abbrev escapes : Text → Bool
escapes (a ∷ b ∷ d ∷ s) = is_escape a b d
escapes _ = false

-- `%` is any run of characters and `_` any one, line feeds excepted; `[%]` and `[_]` are the
-- characters themselves, and so is anything else.
pub data Says : Text → Text → Type 0 where
  done : Says [] []
  stop : {p s : Text} → Says p s → Says (b'%' ∷ p) s
  take : {p s : Text} (c : ℕ) → c ≢ 10 → Says (b'%' ∷ p) s → Says (b'%' ∷ p) (c ∷ s)
  any : {p s : Text} (c : ℕ) → c ≢ 10 → Says p s → Says (b'_' ∷ p) (c ∷ s)
  escaped :
      {p s : Text} (b : ℕ) → (b ≡ b'%') ⊎ (b ≡ b'_') → Says p s → Says (b'[' ∷ b ∷ b']' ∷ p) (b ∷ s)
  plain :
      {p s : Text} (c : ℕ)
      → c ≢ b'%'
      → c ≢ b'_'
      → escapes (c ∷ p) ≡ false
      → Says p s
      → Says (c ∷ p) (c ∷ s)

compile-part : (c : ℕ) (p : Text) → escapes (c ∷ p) ≡ false → compile (c ∷ p) ≡ part c ∷ compile p
unfolding compile
compile-part c [] h = refl
compile-part c (b ∷ []) h = refl
compile-part c (b ∷ d ∷ p) h = rw h

escapes-ne : (c : ℕ) (p : Text) → c ≢ b'[' → escapes (c ∷ p) ≡ false
unfolding is_escape
escapes-ne c [] h = refl
escapes-ne c (b ∷ []) h = refl
escapes-ne c (b ∷ d ∷ p) h = ground arith

compile-run : (p : Text) → compile (b'%' ∷ p) ≡ run ∷ compile p
compile-run p = compile-part b'%' p (escapes-ne b'%' p (omega arith)) ∙ unfold part in refl

compile-one : (p : Text) → compile (b'_' ∷ p) ≡ one ∷ compile p
compile-one p = compile-part b'_' p (escapes-ne b'_' p (omega arith)) ∙ unfold part in refl

compile-escaped :
    (b : ℕ) (p : Text) → (b ≡ b'%') ⊎ (b ≡ b'_') → compile (b'[' ∷ b ∷ b']' ∷ p) ≡ lit b ∷ compile p
unfolding compile
compile-escaped b p h = ground arith

compile-plain :
    (c : ℕ) (p : Text)
    → c ≢ b'%'
    → c ≢ b'_'
    → escapes (c ∷ p) ≡ false
    → compile (c ∷ p) ≡ lit c ∷ compile p
compile-plain c p h k e = compile-part c p e ∙ unfold part in ground arith

some_run-stop : (p : List Part) (s : Text) → fullmatch p s ≡ true → some_run (fullmatch p) s ≡ true
unfolding some_run
some_run-stop p [] h = h
some_run-stop p (c ∷ s) h = rw h

fullmatch-take :
    (p : List Part) (c : ℕ) (s : Text)
    → c ≢ 10
    → fullmatch (run ∷ p) s ≡ true
    → fullmatch (run ∷ p) (c ∷ s) ≡ true
unfolding fullmatch
fullmatch-take p c s ne h = ground arith

fullmatch-one :
    (p : List Part) (c : ℕ) (s : Text)
    → c ≢ 10
    → fullmatch p s ≡ true
    → fullmatch (one ∷ p) (c ∷ s) ≡ true
unfolding fullmatch
fullmatch-one p c s ne h = ground arith

fullmatch-lit :
    (p : List Part) (c : ℕ) (s : Text) → fullmatch p s ≡ true → fullmatch (lit c ∷ p) (c ∷ s) ≡ true
unfolding fullmatch
fullmatch-lit p c s h = ground arith

fullmatch-stop : (p : List Part) (s : Text) → fullmatch p s ≡ true → fullmatch (run ∷ p) s ≡ true
fullmatch-stop p s h = unfold fullmatch in some_run-stop p s h

fullmatch-Says : {p s : Text} → Says p s → fullmatch (compile p) s ≡ true
unfolding compile
fullmatch-Says done = unfold fullmatch in refl
fullmatch-Says (stop {p} {s} h) =
    rw (compile-run p) (fullmatch-stop (compile p) s (fullmatch-Says h))
fullmatch-Says (take {p} {s} c ne h) =
    rw (compile-run p)
      (fullmatch-take (compile p) c s ne (rw (compile-run p) at (fullmatch-Says h)))
fullmatch-Says (any {p} {s} c ne h) =
    rw (compile-one p) (fullmatch-one (compile p) c s ne (fullmatch-Says h))
fullmatch-Says (escaped {p} {s} b e h) =
    rw (compile-escaped b p e) (fullmatch-lit (compile p) b s (fullmatch-Says h))
fullmatch-Says (plain {p} {s} c h k e d) =
    rw (compile-plain c p h k e) (fullmatch-lit (compile p) c s (fullmatch-Says d))

-- What a pattern accepts is said by its text.
abbrev Sound : Text → Type 0
Sound p = (s : Text) → fullmatch (compile p) s ≡ true → Says p s

Sound-run :
    (p : Text)
    → Sound p
    → (s : Text) → some_run (fullmatch (compile p)) s ≡ true
    → Says (b'%' ∷ p) s
unfolding some_run
Sound-run p sound [] h = stop (sound [] h)
Sound-run p sound (c ∷ s) h = elim (Bool-cases (fullmatch (compile p) (c ∷ s))) [
  | inl here ↦ stop (sound (c ∷ s) here)
  | inr later ↦ take c (ground arith) (Sound-run p sound s (ground arith))
]

Sound-one :
    (p : Text) → Sound p → (s : Text) → fullmatch (one ∷ compile p) s ≡ true → Says (b'_' ∷ p) s
unfolding fullmatch
Sound-one p sound [] h = cc
Sound-one p sound (c ∷ s) h = any c (ground arith) (sound s (ground arith))

Sound-lit :
    (q : List Part) (c : ℕ) (p r s : Text)
    → ((t : Text) → fullmatch q t ≡ true → Says p t)
    → ((t : Text) → Says p t → Says r (c ∷ t))
    → fullmatch (lit c ∷ q) s ≡ true
    → Says r s
unfolding fullmatch
Sound-lit q c p r [] sound more h = cc
Sound-lit q c p r (x ∷ s) sound more h =
    let e : x ≡ c = ground arith in rw e (more s (sound s (ground arith)))

Sound-part : (a : ℕ) (p : Text) → Sound p → escapes (a ∷ p) ≡ false → Sound (a ∷ p)
Sound-part a p sound e s h = elim (Bool-cases (a == b'%')) [
  | inl is_run ↦
      let same : a ≡ b'%' = ground arith in
      rw same (Sound-run p sound s (unfold fullmatch in (rw (same, compile-run p) at h)))
  | inr no_run ↦ elim (Bool-cases (a == b'_')) [
    | inl is_one ↦
        let same : a ≡ b'_' = ground arith in
        rw same (Sound-one p sound s (rw (same, compile-one p) at h))
    | inr no_one ↦
        let h₁ : a ≢ b'%' = λ q. ground arith in
        let h₂ : a ≢ b'_' = λ q. ground arith in
        Sound-lit (compile p) a p (a ∷ p) s sound (λ t d. plain a h₁ h₂ e d)
          (rw (compile-plain a p h₁ h₂ e) at h)
  ]
]

Sound-escaped : (a b d : ℕ) (p : Text) → Sound p → is_escape a b d ≡ true → Sound (a ∷ b ∷ d ∷ p)
Sound-escaped a b d p sound e s h =
    let opens : a ≡ b'[' = unfold is_escape in ground arith in
    let closes : d ≡ b']' = unfold is_escape in ground arith in
    let inner : (b ≡ b'%') ⊎ (b ≡ b'_') = unfold is_escape in ground arith in
    Sound-lit (compile p) b p (a ∷ b ∷ d ∷ p) s sound
      (λ t m. rw (opens, closes) (escaped b inner m))
      (rw (opens, closes, compile-escaped b p inner) at h)

Says-fullmatch : (p : Text) → Sound p
Says-fullmatch [] [] h = done
Says-fullmatch [] (c ∷ s) h = unfold fullmatch compile in cc
Says-fullmatch (a ∷ []) s h = Sound-part a [] (Says-fullmatch []) refl s h
Says-fullmatch (a ∷ b ∷ []) s h = Sound-part a (b ∷ []) (Says-fullmatch (b ∷ [])) refl s h
Says-fullmatch (a ∷ b ∷ d ∷ p) s h = elim (Bool-cases (is_escape a b d)) [
  | inl here ↦ Sound-escaped a b d p (Says-fullmatch p) here s h
  | inr nowhere ↦ Sound-part a (b ∷ d ∷ p) (Says-fullmatch (b ∷ d ∷ p)) nowhere s h
]

-- A text matches a LIKE pattern exactly if the folded text is what the folded pattern says: `%` any
-- run and `_` any one character, line feeds excepted, `[%]`, `[_]` and all else themselves.
pub like_matches_iff :
    (casefold : Text → Text) (pattern_text actual : Text) (case_sensitive : Bool)
    → (like_matches casefold pattern_text actual case_sensitive ≡ true)
      ↔ Says (fold casefold case_sensitive pattern_text) (fold casefold case_sensitive actual)
unfolding like_matches
like_matches_iff casefold pattern_text actual case_sensitive =
    (Says-fullmatch (fold casefold case_sensitive pattern_text) _, fullmatch-Says)

run_stops : (before after : Text) → fullmatch (compile (b'%' ∷ [])) (before ++ 10 ∷ after) ≡ false
unfolding fullmatch compile part
run_stops [] after = refl
run_stops (c ∷ before) after = ground (arith, run_stops before after)

-- The pattern `%` alone refuses every text with a line feed in it, under either case setting of a
-- folding that leaves the pattern and the text alone.
pub like_matches-line_feed :
    (casefold : Text → Text) (before after : Text) (case_sensitive : Bool)
    → casefold (b'%' ∷ []) ≡ b'%' ∷ []
    → casefold (before ++ 10 ∷ after) ≡ before ++ 10 ∷ after
    → like_matches casefold (b'%' ∷ []) (before ++ 10 ∷ after) case_sensitive ≡ false
unfolding like_matches fold
like_matches-line_feed casefold before after true h k = run_stops before after
like_matches-line_feed casefold before after false h k = rw (h, k) (run_stops before after)
