-- ===== src/Volumes/Samples.antt =====
-- Split archives in small directories.
use eh_bot.Prelude.{◌≡◌, refl, Bool, true, false, List, [], ◌∷◌, Text, codes, arith}
use eh_bot.Prelude.Decimal.{is_digit, decimal}
use eh_bot.Prelude.Strings.{is_one_of}
use eh_bot.Archive.Paths.{suffix, parts}
use eh_bot.Volumes.{
  lower, lowered, reversed_onto, and_then, first_of, drop_end, end_digits, number, from_end,
  has_feed, as_stem, tagged, container_end, rar_group, numbered, rar_part, legacy, first, stem_of,
  leading, volume, member_of, sibling, comes_first, insert_volume, add_volume, candidates, names_of,
  sibling_volumes, nonzero, indexes_of, max_of, is_listed, gaps, is_some, any_legacy, after_dot,
  zeros, padded, expected_volume_name, names_for, with_missing, of_volumes, of_group,
  resolve_volumes,
}
use eh_bot.Volumes.Gaps.{is_file_in, resolve_volumes-IsComplete}

abbrev first_part : Text
first_part = codes "b.part1.rar"

abbrev second_part : Text
second_part = codes "b.part2.RAR"

abbrev folder : List (Text × Bool)
folder = (second_part, true) ∷ (codes "b.part3.rar", false) ∷ (first_part, true) ∷ []

resolved : resolve_volumes second_part folder ≡ (first_part ∷ second_part ∷ [], [])
unfolding resolve_volumes of_group of_volumes with_missing names_for indexes_of max_of gaps
    any_legacy sibling_volumes candidates names_of sibling add_volume insert_volume comes_first
    member_of volume first_of numbered rar_part end_digits from_end reversed_onto is_digit number
    and_then drop_end lower container_end as_stem has_feed rar_group nonzero is_listed is_some
    legacy
resolved = refl

-- The volume that is not there is named as its siblings are.
missing_companion :
    resolve_volumes (codes "b.rar") ((codes "b.r01", true) ∷ (codes "b.rar", true) ∷ [])
    ≡ (codes "b.rar" ∷ codes "b.r01" ∷ [], codes "b.r00" ∷ [])
unfolding resolve_volumes of_group of_volumes with_missing names_for indexes_of max_of gaps
    any_legacy sibling_volumes candidates names_of sibling add_volume insert_volume comes_first
    member_of volume first_of numbered rar_part legacy leading lowered stem_of first end_digits
    from_end reversed_onto is_digit number and_then drop_end lower container_end tagged as_stem
    has_feed rar_group nonzero is_listed is_some expected_volume_name after_dot padded zeros decimal
    is_one_of suffix parts
missing_companion = refl

in_folder : is_file_in second_part folder ≡ true
unfolding is_file_in
in_folder = refl

second_listed : is_listed 2 (indexes_of (resolve_volumes second_part folder).0) ≡ true
unfolding is_listed indexes_of nonzero volume first_of numbered rar_part end_digits from_end
    reversed_onto is_digit number and_then drop_end lower as_stem has_feed rar_group
second_listed = rw resolved refl

nothing_missing : (resolve_volumes second_part folder).1 ≡ []
nothing_missing = rw resolved refl

resolve_volumes-IsComplete_example :
    is_listed 1 (indexes_of (resolve_volumes second_part folder).0) ≡ true
resolve_volumes-IsComplete_example =
    resolve_volumes-IsComplete second_part folder 2 1 in_folder nothing_missing second_listed
      (omega arith) (omega arith)
