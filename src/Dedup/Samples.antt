-- ===== src/Dedup/Samples.antt =====
-- Three rows of one gallery and one of another.
use eh_bot.Prelude.{
  ◌≡◌, refl, true, false, none, some, List, [], ◌∷◌, ltb, if◌then◌else◌, length, All, codes, nat_Eq,
}
use eh_bot.Prelude.Dict
use eh_bot.Prelude.Decimal.{decimal}
use eh_bot.Dedup.{
  Entry, keep_key, pages_or, key_lt, int_lt, int_eq, insert_best, best_first, add_entry, fill,
  push_group, decide, insert_group, by_gid, group_candidates, display_title,
}
use eh_bot.Dedup.Buckets.{rows_of}
use eh_bot.Dedup.Groups.{
  IsDecided, count_groups, group_candidates-IsDecided, count_groups-group_candidates,
}

abbrev first : Entry
first = record {
  candidate_id = 3;
  ex_gid = 70;
  status = codes "NEW";
  title = none;
  packaged = false;
  page_count = none;
}

abbrev second : Entry
second = record first { candidate_id = 5; packaged = true; page_count = some 20 }

abbrev third : Entry
third = record second { candidate_id = 9; page_count = some 24 }

abbrev rows : List Entry
rows = first ∷ record first { candidate_id = 4; ex_gid = 8 } ∷ second ∷ third ∷ []

one_group :
    group_candidates rows ≡ record { ex_gid = 70; keep = third; remove = second ∷ first ∷ [] } ∷ []
unfolding group_candidates fill add_entry Dict.set Dict.lookup decide best_first insert_best key_lt
    keep_key int_lt int_eq pages_or push_group by_gid insert_group
one_group = refl

untitled : display_title none (some 70) 3 ≡ codes "#70"
unfolding display_title decimal
untitled = refl

group_candidates-IsDecided_example : All (IsDecided rows) (group_candidates rows)
group_candidates-IsDecided_example = group_candidates-IsDecided rows

count_groups-group_candidates_example :
    count_groups 70 (group_candidates rows) ≡ (if ltb (length (rows_of 70 rows)) 2 then 0 else 1)
count_groups-group_candidates_example = count_groups-group_candidates 70 rows
