-- ===== src/Search/Query/Searchable.antt =====
-- The filters of a parsed query.
use eh_bot.Prelude.{
  ℕ, ◌≡◌, refl, Bool, true, not, ◌&&◌, ◌||◌, Option, none, some, List, [], ◌∷◌, Text, list_eq,
  Result, ok, err, IfOk, returned, raised, IfOk-if, IfOk-bind, arith, All, All-append,
}
use eh_bot.Search.Words.{Word, split_words}
use eh_bot.Search.Segments.{Segment, block, words as loose, unclosed, segments}
use eh_bot.Search.Fields.{
  Page, Refusal, status_field, source_field, status_codes, provider_codes_matching, match_condition,
  unknown_status, unknown_source,
}
use eh_bot.Search.Fields.Resolve.{is_offered, resolve_field-is_offered}
use eh_bot.Search.Query.{
  Filter, ParsedQuery, or_refuse, codes_for, filter_of, word_filter, filters_of, filters_in,
  block_filters, in_front_of, block_result, add_segment, add_segments, parse_query,
}

unfoldable pub has_codes : Text → List Text → Bool
has_codes field [] = not (list_eq field status_field || list_eq field source_field)
has_codes field (c ∷ cs) = true

-- The filter's field can be searched on the page, its value is not empty, and a state or a source
-- names at least one code.
unfoldable pub is_searchable : Page → Filter → Bool
unfolding is_offered has_codes
is_searchable page f =
    is_offered page f.field && not (list_eq f.value []) && has_codes f.field f.codes_of

or_refuse-has_codes :
    (r : Refusal) (field : Text) (cs : List Text)
    → IfOk (λ cs. has_codes field cs ≡ true) (or_refuse r cs)
unfolding or_refuse has_codes
or_refuse-has_codes r field [] = raised
or_refuse-has_codes r field (c ∷ cs) = returned refl

module _ (casefold : Text → Text) (page : Page) where
  codes_for-has_codes :
      (field value : Text)
      → IfOk (λ cs. has_codes field cs ≡ true) (codes_for casefold page field value)
  unfolding codes_for has_codes
  codes_for-has_codes field value =
      IfOk-if (list_eq field status_field)
        (λ _. or_refuse-has_codes (unknown_status value) field (status_codes casefold value))
        λ a.
          IfOk-if (list_eq field source_field)
            (λ _.
              or_refuse-has_codes (unknown_source value) field
                (provider_codes_matching casefold value))
            λ b. returned (ground arith)

  filter_of-is_searchable :
      (content : Text) (place : ℕ × ℕ) (word : Word) (m : Bool × Text × Text)
      → IfOk (λ f. is_searchable page f ≡ true) (filter_of casefold page content place word m)
  unfolding filter_of is_searchable
  filter_of-is_searchable content place word (exclude, name, value) =
      IfOk-if (list_eq value []) (λ _. raised)
        λ given. IfOk-bind (resolve_field-is_offered casefold name page) λ field offered.
          IfOk-bind (codes_for-has_codes field value) λ found coded. returned (ground arith)

  word_filter-is_searchable :
      (content : Text) (place : ℕ × ℕ) (word : Word) (m : Option (Bool × Text × Text))
      → IfOk (λ f. is_searchable page f ≡ true) (word_filter casefold page content place word m)
  unfolding word_filter
  word_filter-is_searchable content place word none = raised
  word_filter-is_searchable content place word (some m) =
      filter_of-is_searchable content place word m

  abbrev AllSearchable : List Filter → Type 0
  AllSearchable fs = All (λ f. is_searchable page f ≡ true) fs

  filters_of-AllSearchable :
      (content : Text) (place : ℕ × ℕ) (ws : List Word)
      → IfOk AllSearchable (filters_of casefold page content place ws)
  unfolding filters_of
  filters_of-AllSearchable content place [] = returned tt
  filters_of-AllSearchable content place (w ∷ ws) =
      IfOk-bind (word_filter-is_searchable content place w (match_condition w.text))
        λ f h. IfOk-bind (filters_of-AllSearchable content place ws) λ fs hs. returned (h, hs)

  filters_in-AllSearchable :
      (content : Text) (place : ℕ × ℕ) (ws : Option (List Word))
      → IfOk AllSearchable (filters_in casefold page content place ws)
  unfolding filters_in
  filters_in-AllSearchable content place none = raised
  filters_in-AllSearchable content place (some []) = raised
  filters_in-AllSearchable content place (some (w ∷ ws)) =
      filters_of-AllSearchable content place (w ∷ ws)

  block_result-AllSearchable :
      (content : Text) (r : Result Refusal (List Filter)) (q : ParsedQuery)
      → IfOk AllSearchable r
      → AllSearchable q.filters
      → AllSearchable (block_result casefold page content r q).filters
  unfolding block_result in_front_of
  block_result-AllSearchable content (ok fs) q (returned h) hq = All-append _ fs q.filters h hq
  block_result-AllSearchable content (err r) q h hq = hq

  add_segment-AllSearchable :
      (s : Segment) (q : ParsedQuery)
      → AllSearchable q.filters
      → AllSearchable (add_segment casefold page s q).filters
  unfolding add_segment in_front_of block_filters
  add_segment-AllSearchable (block content start finish) q h =
      block_result-AllSearchable content (block_filters casefold page content start finish) q
        (filters_in-AllSearchable content (start, finish) (split_words content)) h
  add_segment-AllSearchable (unclosed content start) q h = h
  add_segment-AllSearchable (loose content start) q h = h

  add_segments-AllSearchable :
      (t : Text) (ss : List Segment) → AllSearchable (add_segments casefold page t ss).filters
  unfolding add_segments
  add_segments-AllSearchable t [] = tt
  add_segments-AllSearchable t (s ∷ ss) =
      add_segment-AllSearchable s (add_segments casefold page t ss)
        (add_segments-AllSearchable t ss)

-- Every filter of a parsed query names a field that the page offers for searching, so none on a
-- rating, a page count or a file size, has a value, and has at least one code where it asks for a
-- state or a source.
pub parse_query-AllSearchable :
    (casefold : Text → Text) (page : Page) (t : Text)
    → All (λ f. is_searchable page f ≡ true) (parse_query casefold page t).filters
unfolding parse_query
parse_query-AllSearchable casefold page t = add_segments-AllSearchable casefold page t (segments t)
