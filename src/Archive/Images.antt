-- ===== src/Archive/Images.antt =====
-- What the first bytes of a member say (app/archive/safety.py).
use eh_bot.Prelude.{
  ℕ, zero, suc, Bool, true, false, not, ◌&&◌, ◌||◌, Option, none, some, String, List, [], ◌∷◌,
  if◌then◌else◌, ltb, length, Text, codes, list_eq,
}
use eh_bot.Prelude.Strings.{is_one_of, starts_with}
use eh_bot.Archive.Paths.{suffix}

abbrev pub image_extensions : List String
image_extensions = ".jpg" ∷ ".jpeg" ∷ ".png" ∷ ".webp" ∷ ".gif" ∷ ".bmp" ∷ ".avif" ∷ ".jxl" ∷ []

abbrev pub nested_archive_extensions : List String
nested_archive_extensions =
    ".zip" ∷ ".cbz" ∷ ".rar" ∷ ".cbr" ∷ ".7z" ∷ ".cb7" ∷ ".tar" ∷ ".gz" ∷ ".xz" ∷ ".bz2" ∷ []

abbrev jpeg_start : Text
jpeg_start = 0xff ∷ 0xd8 ∷ 0xff ∷ []

abbrev png_start : Text
png_start = 0x89 ∷ b'P' ∷ b'N' ∷ b'G' ∷ 13 ∷ 10 ∷ 26 ∷ 10 ∷ []

abbrev image_signatures : List (Text × List String)
image_signatures =
    (jpeg_start, ".jpg" ∷ ".jpeg" ∷ [])
    ∷ (png_start, ".png" ∷ [])
    ∷ (codes "GIF87a", ".gif" ∷ [])
    ∷ (codes "GIF89a", ".gif" ∷ [])
    ∷ (codes "BM", ".bmp" ∷ [])
    ∷ []

abbrev signature_extensions : List (Text × String)
signature_extensions =
    (jpeg_start, ".jpg")
    ∷ (png_start, ".png")
    ∷ (codes "GIF87a", ".gif")
    ∷ (codes "GIF89a", ".gif")
    ∷ (codes "BM", ".bmp")
    ∷ []

-- `_EXTENSION_ALIASES[detected]`
extension_aliases : Text → List String
extension_aliases detected =
    if list_eq detected (codes ".jpg")
    then ".jpg" ∷ ".jpeg" ∷ []
    else if list_eq detected (codes ".png")
    then ".png" ∷ []
    else if list_eq detected (codes ".gif")
    then ".gif" ∷ []
    else if list_eq detected (codes ".bmp")
    then ".bmp" ∷ []
    else if list_eq detected (codes ".webp")
    then ".webp" ∷ []
    else []

signed_by : Text → List (Text × String) → Option Text
signed_by header [] = none
signed_by header ((signature, extension) ∷ rest) =
    if starts_with signature header then some (codes extension) else signed_by header rest

skip : ℕ → Text → Text
skip zero t = t
skip (suc n) [] = []
skip (suc n) (c ∷ t) = skip n t

is_webp : Text → Bool
unfolding skip
is_webp header = starts_with (codes "RIFF") header && starts_with (codes "WEBP") (skip 8 header)

or_webp : Text → Option Text → Option Text
unfolding is_webp
or_webp header (some e) = some e
or_webp header none = if is_webp header then some (codes ".webp") else none

-- `detected_image_extension`
unfoldable pub detected_image_extension : Text → Option Text
unfolding signed_by or_webp
detected_image_extension header =
    if list_eq header [] then none else or_webp header (signed_by header signature_extensions)

-- The loop over the signatures: the answer of the first whose extensions have the suffix.
claimed : Text → Text → List (Text × List String) → Bool
claimed extension header [] =
    if list_eq extension (codes ".webp")
    then starts_with (codes "RIFF") header || ltb (length header) 4
    else true
claimed extension header ((signature, extensions) ∷ rest) =
    if is_one_of extension extensions
    then starts_with signature header
    else claimed extension header rest

module _ (lower : Text → Text) where
  unfoldable pub is_image_member : Text → Bool
  is_image_member name = is_one_of (suffix (lower name)) image_extensions

  unfoldable pub header_matches_extension : Text → Text → Bool
  unfolding claimed
  header_matches_extension name header =
      list_eq header [] || claimed (suffix (lower name)) header image_signatures

  -- The bytes name a format that the suffix is no name of.
  unfoldable pub is_mislabelled : Text → Option Text → Bool
  unfolding extension_aliases
  is_mislabelled name none = false
  is_mislabelled name (some detected) =
      not (is_one_of (suffix (lower name)) (extension_aliases detected))

  -- `effective_page_extension`
  pub effective_page_extension : Text → Text → Text
  unfolding extension_aliases
  effective_page_extension name header = elim (detected_image_extension header) [
    | none ↦ suffix (lower name)
    | some detected ↦
        if is_one_of (suffix (lower name)) (extension_aliases detected)
        then suffix (lower name)
        else detected
  ]
