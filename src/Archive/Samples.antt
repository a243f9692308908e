-- ===== src/Archive/Samples.antt =====
-- A listing of two pages and a note.
use mathlib.Core.List.{Perm}
use eh_bot.Prelude.{ℕ, ok, All, ◌≡◌, refl, false, none, some, String, [], ◌∷◌, Text, codes}
use eh_bot.Archive.{Member, Manifest, default_limits, files}
use eh_bot.Prelude.Dict
use eh_bot.Prelude.Strings.{is_one_of}
use eh_bot.Archive.Images.{
  is_image_member, is_mislabelled, detected_image_extension, header_matches_extension,
}
use eh_bot.Archive.Paths.{normalize_member_name, parts, member_depth, path_text, suffix}
use eh_bot.Archive.Paths.Inside.{IsInside, normalize_member_name-IsInside}
use eh_bot.Archive.Ratio.{compression_groups, enforce_compression_ratio}
use eh_bot.Archive.Ratio.Expanding.{IsTame, enforce_compression_ratio-IsTame}
use eh_bot.Archive.Ratio.Groups.{ungrouped, compression_groups-Perm}
use eh_bot.Archive.Order.{is_superscript, natural_sort_key, key_lt}
use eh_bot.Archive.Order.Raising.{
  all_superscripts, ends_in_digit, begins_with_digit, natural_sort_key-superscripts,
}
use eh_bot.Archive.Listing.{validate_manifest}
use eh_bot.Archive.Listing.Sorted.{IsNaturalOrder, validate_manifest-IsNaturalOrder}
use eh_bot.Archive.Listing.Safe.{IsAccepted, validate_manifest-IsAccepted}

abbrev lowered : Text → Text
lowered t = t

abbrev page : String → ℕ → Member
page name block = record {
  name = codes name;
  size = 900;
  compressed_size = 700;
  is_dir = false;
  is_symlink = false;
  header = [];
  solid_block = some block;
}

abbrev note : Member
note = record {
  name = codes "./book\\note.txt";
  size = 10;
  compressed_size = 10;
  is_dir = false;
  is_symlink = false;
  header = [];
  solid_block = none;
}

abbrev book : Manifest
book = record {
  members = page "book/10.jpg" 0 ∷ note ∷ page "book/2.jpg" 0 ∷ [];
  encrypted = false;
}

validated :
    validate_manifest lowered default_limits book none
    ≡ ok (page "book/2.jpg" 0 ∷ page "book/10.jpg" 0 ∷ [])
unfolding validate_manifest files normalize_member_name parts member_depth path_text is_one_of
    suffix is_image_member is_mislabelled detected_image_extension header_matches_extension
    enforce_compression_ratio compression_groups Dict.set Dict.lookup natural_sort_key key_lt
validated = refl

validate_manifest-IsNaturalOrder_example :
    IsNaturalOrder lowered default_limits
      (files book)
      (page "book/2.jpg" 0 ∷ page "book/10.jpg" 0 ∷ [])
validate_manifest-IsNaturalOrder_example =
    validate_manifest-IsNaturalOrder lowered default_limits book none
      (page "book/2.jpg" 0 ∷ page "book/10.jpg" 0 ∷ []) validated

validate_manifest-IsAccepted_example : IsAccepted lowered default_limits (files book)
validate_manifest-IsAccepted_example =
    validate_manifest-IsAccepted lowered default_limits book none
      (page "book/2.jpg" 0 ∷ page "book/10.jpg" 0 ∷ []) validated

normalize_member_name-IsInside_example : IsInside (codes "book/note.txt")
unfolding normalize_member_name parts path_text
normalize_member_name-IsInside_example =
    normalize_member_name-IsInside (codes "./book\\note.txt") (codes "book/note.txt") refl

compression_groups-Perm_example :
    Perm
      (ungrouped (compression_groups (page "a.jpg" 1 ∷ note ∷ page "b.jpg" 1 ∷ [])))
      (page "a.jpg" 1 ∷ note ∷ page "b.jpg" 1 ∷ [])
compression_groups-Perm_example =
    compression_groups-Perm (page "a.jpg" 1 ∷ note ∷ page "b.jpg" 1 ∷ [])

natural_sort_key-superscripts_example :
    natural_sort_key lowered (b'1' ∷ 0xb2 ∷ 0xb3 ∷ b'2' ∷ []) ≡ none
unfolding all_superscripts is_superscript ends_in_digit begins_with_digit
natural_sort_key-superscripts_example =
    natural_sort_key-superscripts lowered (b'1' ∷ 0xb2 ∷ 0xb3 ∷ b'2' ∷ []) (b'1' ∷ []) 0xb2
      (0xb3 ∷ []) (b'2' ∷ []) refl refl refl refl

enforce_compression_ratio-IsTame_example :
    All (IsTame false 200 none) (compression_groups (page "a.jpg" 1 ∷ note ∷ page "b.jpg" 1 ∷ []))
unfolding enforce_compression_ratio compression_groups Dict.set Dict.lookup detected_image_extension
enforce_compression_ratio-IsTame_example =
    enforce_compression_ratio-IsTame book (page "a.jpg" 1 ∷ note ∷ page "b.jpg" 1 ∷ [])
      default_limits none refl
