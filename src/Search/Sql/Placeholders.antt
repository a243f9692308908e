-- ===== src/Search/Sql/Placeholders.antt =====
-- The SQL has as many placeholders as parameters.
use eh_bot.Prelude.{
  ℕ, ◌+◌, ◌≡◌, refl, Bool, true, false, ◌||◌, Option, none, some, String, List, [], ◌∷◌, ◌++◌, ◌==◌,
  if◌then◌else◌, Text, codes, list_eq, length, length-append, arith, All, All-append, if-elim,
}
use eh_bot.Rules.{is_one_of}
use eh_bot.Search.Patterns.{like_pattern}
use eh_bot.Search.Fields.{status_field, source_field, tag_field, provider_codes_matching}
use eh_bot.Search.Query.{Filter, FreeTerm, ParsedQuery}
use eh_bot.Search.Sql.{
  tag_fields, multi_value_fields, global_fields, Sql, placeholders, fence, escape, exists_sql,
  negated, negated_list, between, metadata_predicate, metadata_clause, in_codes, alias_text,
  pseudo_clause, or_provider, with_provider, free_clause, filter_clause, free_clauses,
  filter_clauses, joined_by_and, all_params, conjunction, compile_query,
}

-- The number of question marks.
unfoldable pub marks : Text → ℕ
marks [] = 0
marks (c ∷ t) = (if c == b'?' then 1 else 0) + marks t

marks-append : (s t : Text) → marks (s ++ t) ≡ marks s + marks t
unfolding marks
marks-append [] t = omega arith
marks-append (c ∷ s) t = omega (arith, marks-append s t)

abbrev IsBalanced : Sql → Type 0
IsBalanced s = marks s.clause ≡ length s.params

marks-placeholders : (ts : List Text) → marks (placeholders ts) ≡ length ts
unfolding marks placeholders
marks-placeholders [] = refl
marks-placeholders (t ∷ []) = refl
marks-placeholders (t ∷ u ∷ ts) = omega (arith, marks-placeholders (u ∷ ts))

exists_sql-IsBalanced :
    (fields : List Text) (s : Sql) (alias : Text)
    → marks alias ≡ 0
    → IsBalanced s
    → IsBalanced (exists_sql fields s alias)
unfolding exists_sql marks
exists_sql-IsBalanced fields s alias ha h =
    simp (marks-append, length-append, marks-placeholders, ha, h) (omega arith)

negated-IsBalanced : (b : Bool) (s : Sql) → IsBalanced s → IsBalanced (negated b s)
unfolding negated marks
negated-IsBalanced true s h = simp h (omega arith)
negated-IsBalanced false s h = h

negated_list-IsBalanced : (b : Bool) (s : Sql) → IsBalanced s → IsBalanced (negated_list b s)
unfolding negated_list marks
negated_list-IsBalanced true s h = simp (marks-append, h) (omega arith)
negated_list-IsBalanced false s h = h

in_codes-IsBalanced :
    (alias : Text) (column : String) (found : List Text)
    → marks alias ≡ 0
    → marks (codes column) ≡ 0
    → IsBalanced (in_codes alias column found)
unfolding in_codes marks
in_codes-IsBalanced alias column found ha hc =
    simp (marks-append, marks-placeholders, ha, hc) (omega arith)

metadata_predicate-IsBalanced : (f : Filter) (body : Text) → IsBalanced (metadata_predicate f body)
unfolding metadata_predicate fence marks
metadata_predicate-IsBalanced f body = if-elim IsBalanced f.fuzzy refl (
    if-elim IsBalanced (list_eq f.field tag_field) refl
      (if-elim IsBalanced (is_one_of f.field multi_value_fields) refl refl))

metadata_clause-IsBalanced :
    (f : Filter) (alias : Text) → marks alias ≡ 0 → IsBalanced (metadata_clause f alias)
unfolding metadata_clause marks
metadata_clause-IsBalanced f alias ha = if-elim IsBalanced (list_eq f.value []) refl (
    negated-IsBalanced f.exclude
      (exists_sql (if list_eq f.field tag_field then tag_fields else f.field ∷ [])
        (metadata_predicate f (like_pattern f.value)) alias)
      (exists_sql-IsBalanced (if list_eq f.field tag_field then tag_fields else f.field ∷ [])
        (metadata_predicate f (like_pattern f.value)) alias ha
        (metadata_predicate-IsBalanced f (like_pattern f.value))))

-- The name of a table has no question mark.
unfoldable pub IsPlain : Option Text → Type 0
unfolding marks
IsPlain none = Unit
IsPlain (some alias) = marks alias ≡ 0

alias_text-IsPlain : (o : Option Text) → IsPlain o → marks (alias_text o) ≡ 0
unfolding alias_text IsPlain marks
alias_text-IsPlain none h = refl
alias_text-IsPlain (some alias) h = h

pseudo_clause-IsBalanced :
    (f : Filter) (alias : Text) (provider : Option Text)
    → marks alias ≡ 0
    → IsPlain provider
    → IsBalanced (pseudo_clause f alias provider)
unfolding pseudo_clause marks
pseudo_clause-IsBalanced f alias provider ha hp =
    if-elim IsBalanced (list_eq f.field status_field)
      (negated_list-IsBalanced f.exclude (in_codes alias ".status" f.codes_of)
        (in_codes-IsBalanced alias ".status" f.codes_of ha refl))
      (negated_list-IsBalanced f.exclude (in_codes (alias_text provider) ".provider" f.codes_of) (
        in_codes-IsBalanced (alias_text provider) ".provider" f.codes_of
          (alias_text-IsPlain provider hp) refl))

or_provider-IsBalanced :
    (s : Sql) (alias : Text) (found : List Text)
    → marks alias ≡ 0
    → IsBalanced s
    → IsBalanced (or_provider s alias found)
unfolding or_provider in_codes marks
or_provider-IsBalanced s alias [] ha h = h
or_provider-IsBalanced s alias (c ∷ cs) ha h =
    simp (marks-append, length-append, marks-placeholders, ha, h) (omega arith)

with_provider-IsBalanced :
    (casefold : Text → Text) (value : Text) (provider : Option Text) (s : Sql)
    → IsPlain provider
    → IsBalanced s
    → IsBalanced (with_provider casefold value provider s)
unfolding with_provider IsPlain
with_provider-IsBalanced casefold value none s hp h = h
with_provider-IsBalanced casefold value (some alias) s hp h =
    or_provider-IsBalanced s alias (provider_codes_matching casefold value) hp h

free_clause-IsBalanced :
    (casefold : Text → Text) (t : FreeTerm) (alias : Text) (provider : Option Text)
    → marks alias ≡ 0
    → IsPlain provider
    → IsBalanced (free_clause casefold t alias provider)
unfolding free_clause marks
free_clause-IsBalanced casefold t alias provider ha hp =
    let searched : Sql = record {
      clause = codes "mv.field_value LIKE ?" ++ escape;
      params = between "%" (like_pattern t.value) "%" ∷ [];
    } in
    negated-IsBalanced t.exclude
      (with_provider casefold t.value provider (exists_sql global_fields searched alias))
      (with_provider-IsBalanced casefold t.value provider (exists_sql global_fields searched alias)
        hp (exists_sql-IsBalanced global_fields searched alias ha refl))

filter_clause-IsBalanced :
    (f : Filter) (alias : Text) (provider : Option Text)
    → marks alias ≡ 0
    → IsPlain provider
    → IsBalanced (filter_clause f alias provider)
unfolding filter_clause
filter_clause-IsBalanced f alias provider ha hp =
    if-elim IsBalanced (list_eq f.field status_field || list_eq f.field source_field)
      (pseudo_clause-IsBalanced f alias provider ha hp) (metadata_clause-IsBalanced f alias ha)

free_clauses-IsBalanced :
    (casefold : Text → Text) (ts : List FreeTerm) (alias : Text) (provider : Option Text)
    → marks alias ≡ 0
    → IsPlain provider
    → All IsBalanced (free_clauses casefold ts alias provider)
unfolding free_clauses
free_clauses-IsBalanced casefold [] alias provider ha hp = tt
free_clauses-IsBalanced casefold (t ∷ ts) alias provider ha hp = (
  free_clause-IsBalanced casefold t alias provider ha hp,
  free_clauses-IsBalanced casefold ts alias provider ha hp,
)

filter_clauses-IsBalanced :
    (fs : List Filter) (alias : Text) (provider : Option Text)
    → marks alias ≡ 0
    → IsPlain provider
    → All IsBalanced (filter_clauses fs alias provider)
unfolding filter_clauses
filter_clauses-IsBalanced [] alias provider ha hp = tt
filter_clauses-IsBalanced (f ∷ fs) alias provider ha hp = (
  filter_clause-IsBalanced f alias provider ha hp,
  filter_clauses-IsBalanced fs alias provider ha hp,
)

joined_by_and-IsBalanced :
    (ss : List Sql) → All IsBalanced ss → marks (joined_by_and ss) ≡ length (all_params ss)
unfolding joined_by_and all_params marks
joined_by_and-IsBalanced [] h = refl
joined_by_and-IsBalanced (s ∷ []) h = simp (length-append, h.0) (omega arith)
joined_by_and-IsBalanced (s ∷ u ∷ ss) h =
    simp (marks-append, length-append, h.0)
      (omega (arith, joined_by_and-IsBalanced (u ∷ ss) h.1, length-append u.params (all_params ss)))

conjunction-IsBalanced : (ss : List Sql) → All IsBalanced ss → IsBalanced (conjunction ss)
unfolding conjunction marks
conjunction-IsBalanced [] h = refl
conjunction-IsBalanced (s ∷ ss) h =
    simp (marks-append, joined_by_and-IsBalanced (s ∷ ss) h) (omega arith)

-- The WHERE fragment of a parsed query has as many question marks as there are parameters, whatever
-- the query says, if there is none in the names of the tables.
pub compile_query-marks :
    (casefold : Text → Text) (parsed : ParsedQuery) (alias : Text) (provider : Option Text)
    → marks alias ≡ 0
    → IsPlain provider
    → marks (compile_query casefold parsed alias provider).clause
      ≡ length (compile_query casefold parsed alias provider).params
unfolding compile_query
compile_query-marks casefold parsed alias provider ha hp =
    conjunction-IsBalanced
      (free_clauses casefold parsed.terms alias provider
        ++ filter_clauses parsed.filters alias provider)
      (All-append IsBalanced (free_clauses casefold parsed.terms alias provider)
        (filter_clauses parsed.filters alias provider)
        (free_clauses-IsBalanced casefold parsed.terms alias provider ha hp)
        (filter_clauses-IsBalanced parsed.filters alias provider ha hp))
