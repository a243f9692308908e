-- ===== src/Search/Words/Bounds.antt =====
-- Where the words of a query stand.
use mathlib.Core.Path.{subst}
use eh_bot.Prelude.{
  ℕ, ◌+◌, ◌≤◌, ◌<◌, ◌≡◌, ◌||◌, Option, none, some, List, [], ◌∷◌, ◌++◌, ◌==◌, length, Text, arith,
  if-elim,
}
use eh_bot.Prelude.Strings.{is_white}
use eh_bot.Search.Words.{
  Word, Scan, begin_at, close_word, quoted, unquoted, feed, finish_scan, scan, split_words,
}

-- The words stand between two places, one behind the other; none is empty.
unfoldable pub InOrder : ℕ → List Word → ℕ → Type 0
InOrder lo [] hi = lo ≤ hi
InOrder lo (w ∷ ws) hi = (lo ≤ w.start) × (w.start < w.finish) × InOrder w.finish ws hi

InOrder-append :
    (lo hi top : ℕ) (ws : List Word) (w : Word)
    → InOrder lo ws hi
    → hi ≤ w.start
    → w.start < w.finish
    → w.finish ≤ top
    → InOrder lo (ws ++ w ∷ []) top
unfolding InOrder
InOrder-append lo hi top [] w h a b c = (omega arith, b, c)
InOrder-append lo hi top (v ∷ ws) w h a b c =
    (h.0, h.1, InOrder-append v.finish hi top ws w h.2 a b c)

InOrder-up : (lo hi top : ℕ) (ws : List Word) → InOrder lo ws hi → hi ≤ top → InOrder lo ws top
unfolding InOrder
InOrder-up lo hi top [] h a = omega arith
InOrder-up lo hi top (v ∷ ws) h a = (h.0, h.1, InOrder-up v.finish hi top ws h.2 a)

-- In front of place `i`, of the words so far and the start of the one that goes on.
Good : ℕ → List Word → Option ℕ → Type 0
Good i ws none = InOrder 0 ws i
Good i ws (some b) = InOrder 0 ws b × (b < i)

Good-next : (i : ℕ) (ws : List Word) (b : Option ℕ) → Good i ws b → Good (i + 1) ws b
unfolding Good
Good-next i ws none h = InOrder-up 0 i (i + 1) ws h (omega arith)
Good-next i ws (some b) h = (h.0, omega arith)

Good-begin_at :
    (i : ℕ) (ws : List Word) (b : Option ℕ) → Good i ws b → Good (i + 1) ws (begin_at i b)
unfolding Good begin_at
Good-begin_at i ws none h = (h, omega arith)
Good-begin_at i ws (some b) h = (h.0, omega arith)

Good-close_word :
    (i : ℕ) (current : Text) (ws : List Word) (b : Option ℕ)
    → Good i ws b
    → InOrder 0 (close_word i current b ws) i
unfolding Good close_word
Good-close_word i current ws none h = h
Good-close_word i current ws (some b) h =
    InOrder-append 0 b i ws _ h.0 (omega arith) (omega arith) (omega arith)

abbrev GoodScan : ℕ → Scan → Type 0
GoodScan i s = Good i s.words s.begin

quoted-Good : (i q c : ℕ) (s : Scan) → GoodScan i s → GoodScan (i + 1) (quoted q c s)
unfolding quoted
quoted-Good i q c s h =
    if-elim (GoodScan (i + 1)) (c == q) (Good-next i s.words s.begin h)
      (Good-next i s.words s.begin h)

unquoted-Good : (i c : ℕ) (s : Scan) → GoodScan i s → GoodScan (i + 1) (unquoted i c s)
unfolding unquoted Good
unquoted-Good i c s h =
    if-elim (GoodScan (i + 1)) (c == b'"' || c == b'\'') (Good-begin_at i s.words s.begin h) (
      if-elim (GoodScan (i + 1)) (is_white c)
        (InOrder-up 0 i (i + 1) (close_word i s.current s.begin s.words)
          (Good-close_word i s.current s.words s.begin h) (omega arith))
        (Good-begin_at i s.words s.begin h))

feed-Good : (i c : ℕ) (s : Scan) → GoodScan i s → GoodScan (i + 1) (feed i c s)
unfolding feed
feed-Good i c s h =
    elim s.quote
      as (λ q. GoodScan (i + 1) (elim q [ none ↦ unquoted i c s | some q ↦ quoted q c s ])) [
        | none ↦ unquoted-Good i c s h
        | some q ↦ quoted-Good i q c s h
      ]

IfSome : {A : Type 0} → (A → Type 0) → Option A → Type 0
IfSome P none = Unit
IfSome P (some a) = P a

IfSome-some : {A : Type 0} (P : A → Type 0) (o : Option A) (a : A) → IfSome P o → o ≡ some a → P a
unfolding IfSome
IfSome-some P none a h e = cc
IfSome-some P (some b) a h e = subst P (cc) h

scan-InOrder :
    (i : ℕ) (t : Text) (s : Scan)
    → GoodScan i s
    → IfSome (λ ws. InOrder 0 ws (i + length t)) (scan i t s)
unfolding scan finish_scan IfSome
scan-InOrder i [] s h =
    elim s.quote
      as (λ q.
        IfSome (λ ws. InOrder 0 ws (i + 0))
          (elim q [ none ↦ some (close_word i s.current s.begin s.words) | some q ↦ none ])) [
            | none ↦
                InOrder-up 0 i (i + 0) (close_word i s.current s.begin s.words)
                  (Good-close_word i s.current s.words s.begin h) (omega arith)
            | some q ↦ tt
          ]
scan-InOrder i (c ∷ t) s h =
    subst (λ n. IfSome (λ ws. InOrder 0 ws n) (scan (i + 1) t (feed i c s))) (omega arith)
      (scan-InOrder (i + 1) t (feed i c s) (feed-Good i c s h))

-- The words of a query, where its quotes are closed, stand within it one behind the other, and none
-- of their places is empty.
pub split_words-InOrder :
    (t : Text) (ws : List Word) → split_words t ≡ some ws → InOrder 0 ws (length t)
unfolding split_words Good InOrder
split_words-InOrder t ws e = subst (InOrder 0 ws) (omega arith) (
    IfSome-some (λ ws. InOrder 0 ws (0 + length t)) (split_words t) ws
      (scan-InOrder 0 t (record { words = []; current = []; begin = none; quote = none })
        (omega arith))
      e)
