-- ===== src/Archive.antt =====
-- The checks on an archive listing (app/archive/safety.py) and its data (app/archive/models.py).
pub mod Paths
pub mod Images
pub mod Ratio
pub mod Order
pub mod Listing
mod Samples
use eh_bot.Prelude.{ℕ, Bool, true, false, Option, List, [], ◌∷◌, if◌then◌else◌, Text}

pub record Member : Type 0 where
  pub name : Text
  pub size : ℕ
  pub compressed_size : ℕ
  pub is_dir : Bool
  pub is_symlink : Bool
  pub header : Text
  pub solid_block : Option ℕ

pub record Manifest : Type 0 where
  pub members : List Member
  pub encrypted : Bool

-- The ratio is a whole number here.
pub record SafetyLimits : Type 0 where
  pub max_members : ℕ
  pub max_total_bytes : ℕ
  pub max_member_bytes : ℕ
  pub max_compression_ratio : ℕ
  pub max_depth : ℕ

abbrev pub default_limits : SafetyLimits
default_limits = record {
  max_members = 5000;
  max_total_bytes = 4294967296;
  max_member_bytes = 536870912;
  max_compression_ratio = 200;
  max_depth = 8;
}

-- One constructor for each code of an `ArchiveSafetyError`, and the `ValueError` of `int`.
pub data Refusal : Type 0 where
  invalid_name absolute_name traversal empty too_many_members symlink too_deep nested_archive :
      Refusal
  too_large total_too_large fake_image compression_ratio no_images value_error : Refusal

files_of : List Member → List Member
files_of [] = []
files_of (m ∷ ms) = let rest = files_of ms in if m.is_dir then rest else m ∷ rest

-- `ArchiveManifest.files`
unfoldable pub files : Manifest → List Member
unfolding files_of
files manifest = files_of manifest.members
