-- ===== src/Archive/Listing.antt =====
-- `validate_manifest` of app/archive/safety.py.
pub mod Safe
pub mod Sorted
use eh_bot.Prelude.{
  ℕ, ◌+◌, Bool, true, false, not, ◌&&◌, ◌||◌, Option, none, some, List, [], ◌∷◌, ltb, leb,
  if◌then◌else◌, length, Text, list_eq, Result, ok, err, ◌>>=◌, ◌>>◌, refuse_if,
}
use eh_bot.Prelude.Strings.{is_one_of}
use eh_bot.Archive.{
  Member, Manifest, SafetyLimits, Refusal, empty, too_many_members, symlink, too_deep,
  nested_archive, too_large, total_too_large, fake_image, no_images, value_error, files,
}
use eh_bot.Archive.Paths.{normalize_member_name, member_depth, suffix}
use eh_bot.Archive.Images.{
  nested_archive_extensions, detected_image_extension, is_image_member, header_matches_extension,
  is_mislabelled,
}
use eh_bot.Archive.Ratio.{enforce_compression_ratio}
use eh_bot.Archive.Order.{Chunk, natural_sort_key, key_lt}

is_none : Option Text → Bool
is_none none = true
is_none (some t) = false

is_empty : List Member → Bool
is_empty [] = true
is_empty (m ∷ ms) = false

normalized : Result Refusal Text → Text
normalized (ok t) = t
normalized (err e) = []

insert_page : List Chunk → Member → List (List Chunk × Member) → List (List Chunk × Member)
insert_page k m [] = (k, m) ∷ []
insert_page k m ((l, n) ∷ rest) =
    let later = insert_page k m rest in
    if key_lt l k then (l, n) ∷ later else (k, m) ∷ (l, n) ∷ rest

sort_pages : List (List Chunk × Member) → List (List Chunk × Member)
unfolding insert_page
sort_pages [] = []
sort_pages ((k, m) ∷ rest) = insert_page k m (sort_pages rest)

pub members_of : List (List Chunk × Member) → List Member
members_of [] = []
members_of ((k, m) ∷ rest) = m ∷ members_of rest

with_key :
    Option (List Chunk)
    → Member
    → List (List Chunk × Member)
    → Result Refusal (List (List Chunk × Member))
with_key none m rest = err value_error
with_key (some k) m rest = ok ((k, m) ∷ rest)

module _ (lower : Text → Text) (limits : SafetyLimits) where
  -- Whether the member is a page.
  is_page : Text → Text → Bool
  unfolding is_none
  is_page name header =
      is_image_member lower name
      || (list_eq (suffix (lower name)) [] && not (is_none (detected_image_extension header)))

  -- A page whose bytes and suffix disagree, and whose bytes are no known format.
  is_fake : Text → Text → Bool
  unfolding is_none
  is_fake name header =
      (is_mislabelled lower name (detected_image_extension header)
        || not (header_matches_extension lower name header))
      && is_none (detected_image_extension header)

  -- One turn of the loop, with the sizes so far: whether the member is a page.
  check_member : ℕ → Member → Result Refusal Bool
  unfolding is_page is_fake
  check_member total m = do
    name ← normalize_member_name m.name
    refuse_if m.is_symlink symlink
    refuse_if (ltb limits.max_depth (member_depth name)) too_deep
    refuse_if (is_one_of (suffix (lower name)) nested_archive_extensions) nested_archive
    refuse_if (ltb limits.max_member_bytes m.size) too_large
    refuse_if (ltb limits.max_total_bytes (total + m.size)) total_too_large
    refuse_if (is_page name m.header && is_fake name m.header) fake_image
    ok (is_page name m.header)

  pub check_members : ℕ → List Member → Result Refusal (List Member)
  unfolding check_member
  check_members total [] = ok []
  check_members total (m ∷ ms) = do
    page ← check_member total m
    pages ← check_members (total + m.size) ms
    ok (if page then m ∷ pages else pages)

  -- The key of a page; its name has been normalized before.
  key_of : Member → Option (List Chunk)
  unfolding normalized
  key_of m = natural_sort_key lower (normalized (normalize_member_name m.name))

  keyed : List Member → Result Refusal (List (List Chunk × Member))
  unfolding key_of with_key
  keyed [] = ok []
  keyed (m ∷ ms) = do rest ← keyed ms; with_key (key_of m) m rest

  unfoldable pub validate_manifest :
      Manifest → Option (Member → Text) → Result Refusal (List Member)
  unfolding is_empty check_members keyed sort_pages members_of
  validate_manifest manifest read_header = do
    let listed = files manifest
    refuse_if (is_empty listed) empty
    refuse_if (ltb limits.max_members (length listed)) too_many_members
    pages ← check_members 0 listed
    enforce_compression_ratio manifest listed limits read_header
    refuse_if (is_empty pages) no_images
    with_keys ← keyed pages
    ok (members_of (sort_pages with_keys))
