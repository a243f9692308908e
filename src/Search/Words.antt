-- ===== src/Search/Words.antt =====
-- `_split_words` of app/search/query.py.
pub mod Bounds
use eh_bot.Prelude.{
  ℕ, suc, ◌+◌, Bool, true, false, ◌||◌, Option, none, some, List, [], ◌∷◌, ◌++◌, ◌==◌,
  if◌then◌else◌, Text,
}
use eh_bot.Prelude.Strings.{is_white}

pub record Word : Type 0 where
  pub text : Text
  pub start : ℕ
  pub finish : ℕ

-- The local variables of the loop.
record Scan : Type 0 where
  pub words : List Word
  pub current : Text
  pub begin : Option ℕ
  pub quote : Option ℕ

begin_at : ℕ → Option ℕ → Option ℕ
begin_at i none = some i
begin_at i (some b) = some b

-- The word that goes on, if there is one, ends in front of `i`.
close_word : ℕ → Text → Option ℕ → List Word → List Word
close_word i current none words = words
close_word i current (some b) words = words ++ record { text = current; start = b; finish = i } ∷ []

-- A character inside of quotes.
quoted : ℕ → ℕ → Scan → Scan
quoted q c s =
    if c == q then record s { quote = none } else record s { current = s.current ++ c ∷ [] }

reset : Option ℕ → Text → Text
reset none current = current
reset (some b) current = []

-- A character outside of quotes.
unquoted : ℕ → ℕ → Scan → Scan
unfolding begin_at close_word reset
unquoted i c s =
    if c == b'"' || c == b'\''
    then record s { quote = some c; begin = begin_at i s.begin }
    else if is_white c
    then record {
      words = close_word i s.current s.begin s.words;
      current = reset s.begin s.current;
      begin = none;
      quote = none;
    }
    else record s { begin = begin_at i s.begin; current = s.current ++ c ∷ [] }

feed : ℕ → ℕ → Scan → Scan
unfolding quoted unquoted
feed i c s = elim s.quote [ none ↦ unquoted i c s | some q ↦ quoted q c s ]

finish_scan : ℕ → Scan → Option (List Word)
unfolding close_word
finish_scan i s = elim s.quote [
  | none ↦ some (close_word i s.current s.begin s.words)
  | some q ↦ none
]

scan : ℕ → Text → Scan → Option (List Word)
unfolding feed finish_scan
scan i [] s = finish_scan i s
scan i (c ∷ t) s = scan (i + 1) t (feed i c s)

-- `none` when a quote is left open.
unfoldable pub split_words : Text → Option (List Word)
unfolding scan
split_words t = scan 0 t (record { words = []; current = []; begin = none; quote = none })
