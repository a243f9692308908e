-- ===== src/Search/Samples.antt =====
-- A query at work.
use eh_bot.Prelude.{◌≡◌, refl, true, some, List, [], ◌∷◌, Text, codes, length, All}
use eh_bot.Like.{compile}
use eh_bot.Search.Patterns.{like_pattern}
use eh_bot.Search.Patterns.Spec.{sql_parts, sql_parts-like_pattern}
use eh_bot.Search.Words.{Word}
use eh_bot.Search.Segments.{segments}
use eh_bot.Search.Segments.Tiling.{Tiles, segments-Tiles}
use eh_bot.Search.Fields.{candidates}
use eh_bot.Search.Query.{parse_query}
use eh_bot.Search.Query.Searchable.{is_searchable, parse_query-AllSearchable}
use eh_bot.Search.Sql.{compile_query}
use eh_bot.Search.Sql.Placeholders.{marks, IsPlain, compile_query-marks}

abbrev query : Text
query = codes "maid -$lang_uage$ $tag:\"full color\" -artist:a_b$ $"

abbrev lowered : Text → Text
lowered t = t

sql_parts-like_pattern_example :
    sql_parts (like_pattern (codes "50[%]\\_[")) ≡ compile (codes "50[%]\\_[")
sql_parts-like_pattern_example = sql_parts-like_pattern (codes "50[%]\\_[")

segments-Tiles_example : Tiles 0 query (segments query)
segments-Tiles_example = segments-Tiles query

abbrev two_words : List Word
two_words =
    record { text = codes "a b"; start = 1; finish = 6 }
    ∷ record { text = codes "c"; start = 7; finish = 8 }
    ∷ []

parse_query-AllSearchable_example :
    All (λ f. is_searchable candidates f ≡ true) (parse_query lowered candidates query).filters
parse_query-AllSearchable_example = parse_query-AllSearchable lowered candidates query

compile_query-marks_example :
    marks
      (compile_query lowered
        (parse_query lowered candidates query)
        (codes "c")
        (some (codes "dj"))).clause
    ≡ length
        (compile_query lowered
          (parse_query lowered candidates query)
          (codes "c")
          (some (codes "dj"))).params
unfolding marks IsPlain
compile_query-marks_example =
    compile_query-marks lowered (parse_query lowered candidates query) (codes "c")
      (some (codes "dj")) refl refl
