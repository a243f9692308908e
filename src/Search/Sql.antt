-- ===== src/Search/Sql.antt =====
-- The SQL of a parsed query (`_compile` and its helpers in app/search/query.py): a WHERE fragment with
-- `?` for each parameter, and the parameters.
pub mod Placeholders
use eh_bot.Prelude.{
  ℕ, Bool, true, false, ◌||◌, Option, none, some, String, List, [], ◌∷◌, ◌++◌, if◌then◌else◌, Text,
  codes, list_eq,
}
use eh_bot.Rules.{is_one_of}
use eh_bot.Search.Patterns.{like_pattern}
use eh_bot.Search.Fields.{status_field, source_field, tag_field, provider_codes_matching}
use eh_bot.Search.Query.{Filter, FreeTerm, ParsedQuery}

-- `TAG_FIELDS`
abbrev tag_fields : List Text
tag_fields = codes "Tags" ∷ codes "TagsRaw" ∷ []

-- `MULTI_VALUE_FIELDS`
abbrev multi_value_fields : List String
multi_value_fields =
    "Tags" ∷ "TagsRaw" ∷ "Artist" ∷ "ArtistRaw" ∷ "Group" ∷ "GroupRaw" ∷ "Parody" ∷ "ParodyRaw"
    ∷ "Character" ∷ "CharacterRaw" ∷ []

-- `GLOBAL_FIELDS`
abbrev global_fields : List Text
global_fields =
    codes "Title"
    ∷ codes "JapaneseTitle"
    ∷ codes "Artist"
    ∷ codes "ArtistRaw"
    ∷ codes "Group"
    ∷ codes "GroupRaw"
    ∷ codes "Parody"
    ∷ codes "ParodyRaw"
    ∷ codes "Character"
    ∷ codes "CharacterRaw"
    ∷ codes "Tags"
    ∷ codes "TagsRaw"
    ∷ codes "Category"
    ∷ codes "CategoryRaw"
    ∷ codes "Language"
    ∷ codes "Uploader"
    ∷ []

pub record Sql : Type 0 where
  pub clause : Text
  pub params : List Text

-- `", ".join("?" for _ in items)`
placeholders : List Text → Text
placeholders [] = []
placeholders (t ∷ []) = b'?' ∷ []
placeholders (t ∷ u ∷ ts) = b'?' ∷ b',' ∷ 32 ∷ placeholders (u ∷ ts)

-- `_fence`
fence : Text → Text
fence expression =
    codes "',' || replace(replace(" ++ expression ++ codes ", char(10), ','), ', ', ',') || ','"

abbrev escape : Text
escape = codes " ESCAPE '\\'"

-- `_exists`
exists_sql : List Text → Sql → Text → Sql
unfolding placeholders
exists_sql fields predicate alias = record {
  clause =
      codes "EXISTS (SELECT 1 FROM metadata_values mv WHERE mv.candidate_id = "
      ++ alias
      ++ codes ".id AND mv.field_name IN ("
      ++ placeholders fields
      ++ codes ") AND "
      ++ predicate.clause
      ++ codes ")";
  params = fields ++ predicate.params;
}

negated : Bool → Sql → Sql
negated true s = record s { clause = codes "NOT " ++ s.clause }
negated false s = s

-- `NOT (…)`
negated_list : Bool → Sql → Sql
negated_list true s = record s { clause = codes "NOT (" ++ s.clause ++ codes ")" }
negated_list false s = s

abbrev between : String → Text → String → Text
between a t b = codes a ++ t ++ codes b

metadata_predicate : Filter → Text → Sql
unfolding fence
metadata_predicate f body =
    let fenced = fence (codes "mv.field_value") in
    if f.fuzzy
    then record { clause = codes "mv.field_value LIKE ?" ++ escape; params = body ∷ [] }
    else if list_eq f.field tag_field
    then record {
      clause =
          codes "("
          ++ fenced
          ++ codes " LIKE ?"
          ++ escape
          ++ codes " OR "
          ++ fenced
          ++ codes " LIKE ?"
          ++ escape
          ++ codes ")";
      params = between "%," body ",%" ∷ between "%:" body ",%" ∷ [];
    }
    else if is_one_of f.field multi_value_fields
    then record {
      clause = fenced ++ codes " LIKE ?" ++ escape;
      params = between "%," body ",%" ∷ [];
    }
    else record { clause = codes "mv.field_value LIKE ?" ++ escape; params = body ∷ [] }

-- `_metadata_clause`
metadata_clause : Filter → Text → Sql
unfolding metadata_predicate exists_sql negated
metadata_clause f alias =
    if list_eq f.value []
    then record { clause = codes "1=1"; params = [] }
    else negated f.exclude (
        exists_sql (if list_eq f.field tag_field then tag_fields else f.field ∷ [])
          (metadata_predicate f (like_pattern f.value)) alias)

in_codes : Text → String → List Text → Sql
unfolding placeholders
in_codes alias column found = record {
  clause = alias ++ codes column ++ codes " IN (" ++ placeholders found ++ codes ")";
  params = found;
}

-- `None` in an f-string
alias_text : Option Text → Text
alias_text none = codes "None"
alias_text (some t) = t

-- `_pseudo_clause`
pseudo_clause : Filter → Text → Option Text → Sql
unfolding in_codes negated_list alias_text
pseudo_clause f status_alias provider_alias =
    if list_eq f.field status_field
    then negated_list f.exclude (in_codes status_alias ".status" f.codes_of)
    else negated_list f.exclude (in_codes (alias_text provider_alias) ".provider" f.codes_of)

or_provider : Sql → Text → List Text → Sql
unfolding in_codes
or_provider s alias [] = s
or_provider s alias (c ∷ cs) =
    let listed = in_codes alias ".provider" (c ∷ cs) in
    record {
      clause = codes "(" ++ s.clause ++ codes " OR " ++ listed.clause ++ codes ")";
      params = s.params ++ listed.params;
    }

with_provider : (Text → Text) → Text → Option Text → Sql → Sql
unfolding or_provider
with_provider casefold value none s = s
with_provider casefold value (some alias) s =
    or_provider s alias (provider_codes_matching casefold value)

-- `_free_clause`
free_clause : (Text → Text) → FreeTerm → Text → Option Text → Sql
unfolding exists_sql with_provider negated
free_clause casefold term alias provider_alias = negated term.exclude (
    with_provider casefold term.value provider_alias (
      exists_sql global_fields
        (record {
          clause = codes "mv.field_value LIKE ?" ++ escape;
          params = between "%" (like_pattern term.value) "%" ∷ [];
        })
        alias))

filter_clause : Filter → Text → Option Text → Sql
unfolding pseudo_clause metadata_clause
filter_clause f alias provider_alias =
    if list_eq f.field status_field || list_eq f.field source_field
    then pseudo_clause f alias provider_alias
    else metadata_clause f alias

free_clauses : (Text → Text) → List FreeTerm → Text → Option Text → List Sql
unfolding free_clause
free_clauses casefold [] alias provider_alias = []
free_clauses casefold (t ∷ ts) alias provider_alias =
    free_clause casefold t alias provider_alias ∷ free_clauses casefold ts alias provider_alias

filter_clauses : List Filter → Text → Option Text → List Sql
unfolding filter_clause
filter_clauses [] alias provider_alias = []
filter_clauses (f ∷ fs) alias provider_alias =
    filter_clause f alias provider_alias ∷ filter_clauses fs alias provider_alias

-- `" AND ".join(clauses)`
joined_by_and : List Sql → Text
joined_by_and [] = []
joined_by_and (s ∷ []) = s.clause
joined_by_and (s ∷ u ∷ ss) = s.clause ++ codes " AND " ++ joined_by_and (u ∷ ss)

all_params : List Sql → List Text
all_params [] = []
all_params (s ∷ ss) = s.params ++ all_params ss

conjunction : List Sql → Sql
unfolding joined_by_and all_params
conjunction [] = record { clause = codes "1=1"; params = [] }
conjunction (s ∷ ss) = record {
  clause = codes "(" ++ joined_by_and (s ∷ ss) ++ codes ")";
  params = all_params (s ∷ ss);
}

-- `_compile`
pub compile_query : (Text → Text) → ParsedQuery → Text → Option Text → Sql
unfolding free_clauses filter_clauses conjunction
compile_query casefold parsed alias provider_alias = conjunction (
    free_clauses casefold parsed.terms alias provider_alias
    ++ filter_clauses parsed.filters alias provider_alias)

pub candidate_search_sql : (Text → Text) → ParsedQuery → Sql
candidate_search_sql casefold parsed = compile_query casefold parsed (codes "c") none

pub downloaded_search_sql : (Text → Text) → ParsedQuery → Sql
downloaded_search_sql casefold parsed =
    compile_query casefold parsed (codes "c") (some (codes "dj"))
