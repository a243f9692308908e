-- ===== src/Search/Query.antt =====
-- The parsed query (`parse_query`, `_block_filters`, `_add_free_text`, `without` of
-- app/search/query.py).
pub mod Searchable
use eh_bot.Prelude.{
  ℕ, zero, suc, ◌+◌, ◌-◌, Bool, true, false, not, ◌&&◌, ◌||◌, Option, none, some, String, List, [],
  ◌∷◌, ◌++◌, ◌==◌, ltb, leb, if◌then◌else◌, Text, codes, list_eq, length, Result, ok, err, ◌>>=◌,
}
use eh_bot.Prelude.Strings.{is_white, trim, words}
use eh_bot.Search.Patterns.{has_wildcard}
use eh_bot.Search.Words.{Word, split_words}
use eh_bot.Search.Segments.{Segment, block, words as loose, unclosed, segments}
use eh_bot.Search.Slices.{slice, find, drop}
use eh_bot.Search.Fields.{
  Page, Refusal, open_quote, empty_block, open_block, bad_condition, unknown_status, unknown_source,
  status_field, source_field, match_condition, resolve_field, status_codes, provider_codes_matching,
}

pub record Filter : Type 0 where
  pub field : Text
  pub value : Text
  pub exclude : Bool
  pub fuzzy : Bool
  pub raw : Text
  pub codes_of : List Text
  pub block_at : Option (ℕ × ℕ)

pub record FreeTerm : Type 0 where
  pub value : Text
  pub exclude : Bool

pub record Degraded : Type 0 where
  pub text : Text
  pub reason : Refusal

pub record ParsedQuery : Type 0 where
  pub text : Text
  pub filters : List Filter
  pub terms : List FreeTerm
  pub degraded : List Degraded

or_refuse : Refusal → List Text → Result Refusal (List Text)
or_refuse r [] = err r
or_refuse r (c ∷ cs) = ok (c ∷ cs)

quotes_to_blanks : Text → Text
quotes_to_blanks [] = []
quotes_to_blanks (c ∷ t) = (if c == b'"' || c == b'\'' then 32 else c) ∷ quotes_to_blanks t

-- One word outside of the blocks.
free_terms : Text → List FreeTerm
free_terms [] = []
free_terms (c ∷ []) = record { value = c ∷ []; exclude = false } ∷ []
free_terms (c ∷ d ∷ t) =
    if c == b'-'
    then record { value = d ∷ t; exclude = true } ∷ []
    else record { value = c ∷ d ∷ t; exclude = false } ∷ []

terms_of : List Text → List FreeTerm
unfolding free_terms
terms_of [] = []
terms_of (w ∷ ws) = free_terms w ++ terms_of ws

texts : List Word → List Text
texts [] = []
texts (w ∷ ws) = w.text ∷ texts ws

-- `_add_free_text`: the terms, and the refusal if there is one.
pub add_free_text : Text → List FreeTerm × Option Refusal
unfolding split_words quotes_to_blanks terms_of texts words
add_free_text t = elim (split_words t) [
  | none ↦ (terms_of (words (quotes_to_blanks t)), some open_quote)
  | some ws ↦ (terms_of (texts ws), none)
]

module _ (casefold : Text → Text) (page : Page) where
  codes_for : Text → Text → Result Refusal (List Text)
  unfolding or_refuse
  codes_for field value =
      if list_eq field status_field
      then or_refuse (unknown_status value) (status_codes casefold value)
      else if list_eq field source_field
      then or_refuse (unknown_source value) (provider_codes_matching casefold value)
      else ok []

  filter_of : Text → ℕ × ℕ → Word → Bool × Text × Text → Result Refusal Filter
  unfolding codes_for slice
  filter_of content place word (exclude, name, value) =
      if list_eq value [] then err (bad_condition word.text) else (do
        field ← resolve_field casefold name page
        found ← codes_for field value
        ok (record {
          field = field;
          value = value;
          exclude = exclude;
          fuzzy = has_wildcard value;
          raw = slice word.start word.finish content;
          codes_of = found;
          block_at = some place;
        }))

  word_filter : Text → ℕ × ℕ → Word → Option (Bool × Text × Text) → Result Refusal Filter
  unfolding filter_of
  word_filter content place word none = err (bad_condition word.text)
  word_filter content place word (some m) = filter_of content place word m

  filters_of : Text → ℕ × ℕ → List Word → Result Refusal (List Filter)
  unfolding word_filter match_condition
  filters_of content place [] = ok []
  filters_of content place (w ∷ ws) = do
    f ← word_filter content place w (match_condition w.text)
    fs ← filters_of content place ws
    ok (f ∷ fs)

  filters_in : Text → ℕ × ℕ → Option (List Word) → Result Refusal (List Filter)
  unfolding filters_of
  filters_in content place none = err open_quote
  filters_in content place (some []) = err empty_block
  filters_in content place (some (w ∷ ws)) = filters_of content place (w ∷ ws)

  -- `_block_filters`
  pub block_filters : Text → ℕ → ℕ → Result Refusal (List Filter)
  unfolding filters_in split_words
  block_filters content start finish = filters_in content (start, finish) (split_words content)

  in_front_of : ParsedQuery → List Filter → List FreeTerm → List Degraded → ParsedQuery
  in_front_of q fs ts ds = record q {
    filters = fs ++ q.filters;
    terms = ts ++ q.terms;
    degraded = ds ++ q.degraded;
  }

  blamed : Text → Option Refusal → List Degraded
  unfolding trim
  blamed content none = []
  blamed content (some r) = record { text = trim content; reason = r } ∷ []

  block_result : Text → Result Refusal (List Filter) → ParsedQuery → ParsedQuery
  unfolding in_front_of
  block_result content (ok fs) q = in_front_of q fs [] []
  block_result content (err r) q =
      in_front_of q [] (add_free_text content).0
        (record { text = b'$' ∷ (content ++ b'$' ∷ []); reason = r } ∷ [])

  -- What a segment gives, in front of what the others give.
  add_segment : Segment → ParsedQuery → ParsedQuery
  unfolding in_front_of block_result blamed
  add_segment (block content start finish) q =
      block_result content (block_filters content start finish) q
  add_segment (unclosed content start) q =
      in_front_of q [] (add_free_text content).0
        (record { text = content; reason = open_block } ∷ [])
  add_segment (loose content start) q =
      in_front_of q [] (add_free_text content).0 (blamed content (add_free_text content).1)

  add_segments : Text → List Segment → ParsedQuery
  unfolding add_segment
  add_segments t [] = record { text = t; filters = []; terms = []; degraded = [] }
  add_segments t (s ∷ ss) = add_segment s (add_segments t ss)

  -- `parse_query`
  pub parse_query : Text → ParsedQuery
  unfolding add_segments
  parse_query t = add_segments t (segments t)
