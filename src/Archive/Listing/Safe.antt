-- ===== src/Archive/Listing/Safe.antt =====
-- What an accepted listing keeps to.
use eh_bot.Prelude.{
  ℕ, ◌+◌, ◌≤◌, ◌≡◌, false, ◌&&◌, Option, List, [], ◌∷◌, ltb, length, Text, All, arith, ok, IfOk,
  returned, IfOk-ok, IfOk-self, IfOk-bind, IfOk-refuse_if,
}
use eh_bot.Prelude.Strings.{is_one_of}
use eh_bot.Archive.{
  Member, Manifest, SafetyLimits, empty, too_many_members, symlink, too_deep, nested_archive,
  too_large, total_too_large, fake_image, no_images, files,
}
use eh_bot.Archive.Paths.{normalize_member_name, member_depth, suffix}
use eh_bot.Archive.Images.{nested_archive_extensions}
use eh_bot.Archive.Ratio.{total_size, enforce_compression_ratio}
use eh_bot.Archive.Listing.{
  is_empty, is_page, is_fake, check_member, check_members, keyed, validate_manifest,
}

-- No link, no archive within the archive, not larger than allowed, and with a name that stays within
-- the directory and is not too deep.
pub record IsHarmless (lower : Text → Text) (limits : SafetyLimits) (m : Member) : Type 0 where
  pub no_link : m.is_symlink ≡ false
  pub name : Text
  pub normal : normalize_member_name m.name ≡ ok name
  pub depth : member_depth name ≤ limits.max_depth
  pub no_archive : is_one_of (suffix (lower name)) nested_archive_extensions ≡ false
  pub bytes : m.size ≤ limits.max_member_bytes

-- The whole listing.
pub record IsAccepted (lower : Text → Text) (limits : SafetyLimits) (ms : List Member)
    : Type 0 where
  pub some_file : 1 ≤ length ms
  pub count : length ms ≤ limits.max_members
  pub total : total_size ms ≤ limits.max_total_bytes
  pub each : All (IsHarmless lower limits) ms

module _ (lower : Text → Text) (limits : SafetyLimits) where
  check_member-IfOk :
      (total : ℕ) (m : Member)
      → IfOk
          (λ page. IsHarmless lower limits m × (total + m.size ≤ limits.max_total_bytes))
          (check_member lower limits total m)
  unfolding check_member
  check_member-IfOk total m = IfOk-bind (IfOk-self (normalize_member_name m.name)) λ name normal.
      IfOk-refuse_if m.is_symlink symlink λ a.
        IfOk-refuse_if (ltb limits.max_depth (member_depth name)) too_deep λ b.
          IfOk-refuse_if (is_one_of (suffix (lower name)) nested_archive_extensions) nested_archive
            λ c. IfOk-refuse_if (ltb limits.max_member_bytes m.size) too_large λ d.
              IfOk-refuse_if (ltb limits.max_total_bytes (total + m.size)) total_too_large λ e.
                IfOk-refuse_if
                  (is_page lower limits name m.header && is_fake lower limits name m.header)
                  fake_image
                  λ f. returned (
                    record {
                      no_link = a;
                      name = name;
                      normal = normal;
                      depth = ground arith;
                      no_archive = c;
                      bytes = ground arith;
                    },
                    ground arith,
                  )

  check_members-IfOk :
      (total : ℕ) (ms : List Member)
      → total ≤ limits.max_total_bytes
      → IfOk
          (λ pages.
            All (IsHarmless lower limits) ms × (total + total_size ms ≤ limits.max_total_bytes))
          (check_members lower limits total ms)
  unfolding check_members total_size
  check_members-IfOk total [] h = returned (tt, omega arith)
  check_members-IfOk total (m ∷ ms) h = IfOk-bind (check_member-IfOk total m) λ page hm.
      IfOk-bind (check_members-IfOk (total + m.size) ms hm.1)
        λ pages hms. returned ((hm.0, hms.0), omega (arith, hms.1))

  validate_manifest-IfOk :
      (manifest : Manifest) (read_header : Option (Member → Text))
      → IfOk
          (λ pages. IsAccepted lower limits (files manifest))
          (validate_manifest lower limits manifest read_header)
  unfolding validate_manifest
  validate_manifest-IfOk manifest read_header =
      IfOk-refuse_if (is_empty (files manifest)) empty λ a.
        IfOk-refuse_if (ltb limits.max_members (length (files manifest))) too_many_members λ b.
          IfOk-bind (check_members-IfOk 0 (files manifest) (omega arith)) λ pages h.
            IfOk-bind
              (IfOk-self (enforce_compression_ratio manifest (files manifest) limits read_header))
              λ done _. IfOk-refuse_if (is_empty pages) no_images λ _.
                IfOk-bind (IfOk-self (keyed lower limits pages)) λ with_keys _. returned (record {
                  some_file = length-is_empty (files manifest) a;
                  count = ground arith;
                  total = omega (arith, h.1);
                  each = h.0;
                })
    where
      length-is_empty : (ms : List Member) → is_empty ms ≡ false → 1 ≤ length ms
      length-is_empty [] h = cc
      length-is_empty (m ∷ ms) h = omega arith

-- A listing from which pages come keeps to every limit: its files are at most so many, together at
-- most so large, and none of them is a link, an archive, too large, too deep or of a name that
-- leaves the directory.
pub validate_manifest-IsAccepted :
    (lower : Text → Text) (limits : SafetyLimits) (manifest : Manifest)
    (read_header : Option (Member → Text)) (pages : List Member)
    → validate_manifest lower limits manifest read_header ≡ ok pages
    → IsAccepted lower limits (files manifest)
validate_manifest-IsAccepted lower limits manifest read_header pages e =
    IfOk-ok (validate_manifest-IfOk lower limits manifest read_header) e
