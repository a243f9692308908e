-- ===== src/Archive/Ratio.antt =====
-- `compression_groups` and `enforce_compression_ratio` of app/archive/safety.py. A ratio is compared
-- without division: the whole limit times the packed size.
pub mod Groups
pub mod Expanding
use eh_bot.Prelude.{
  ℕ, zero, suc, ◌+◌, ◌*◌, ◌≤◌, Bool, true, false, not, ◌&&◌, Option, none, some, List, [], ◌∷◌,
  ◌++◌, leb, if◌then◌else◌, Text, Result, ok, err, ◌>>=◌, ◌>>◌, nat_Eq,
}
use eh_bot.Prelude.Dict
use eh_bot.Prelude.Dict.{Dict}
use eh_bot.Archive.{Member, Manifest, SafetyLimits, Refusal, compression_ratio}
use eh_bot.Archive.Images.{detected_image_extension}

or_none : Option (List Member) → List Member
or_none none = []
or_none (some ms) = ms

place : Option ℕ → Member → Dict ℕ (List Member) × List Member → Dict ℕ (List Member) × List Member
unfolding or_none
place none m (grouped, loose) = (grouped, loose ++ m ∷ [])
place (some b) m (grouped, loose) =
    (Dict.set b (or_none (Dict.lookup b grouped) ++ m ∷ []) grouped, loose)

-- One member of the loop: the blocks in the order of their first members, and the loose ones.
charge : Member → Dict ℕ (List Member) × List Member → Dict ℕ (List Member) × List Member
unfolding place
charge m acc = place m.solid_block m acc

charge_all : List Member → Dict ℕ (List Member) × List Member → Dict ℕ (List Member) × List Member
unfolding charge
charge_all [] acc = acc
charge_all (m ∷ ms) acc = charge_all ms (charge m acc)

groups_of : Dict ℕ (List Member) → List (List Member)
groups_of [] = []
groups_of ((b, ms) ∷ rest) = ms ∷ groups_of rest

singletons : List Member → List (List Member)
singletons [] = []
singletons (m ∷ ms) = (m ∷ []) ∷ singletons ms

unfoldable pub compression_groups : List Member → List (List Member)
unfolding charge_all groups_of singletons
compression_groups ms =
    groups_of (charge_all ms ([], [])).0 ++ singletons (charge_all ms ([], [])).1

max_of : ℕ → ℕ → ℕ
max_of m n = if leb m n then n else m

-- `max(member.compressed_size for member in group)`
packed_size : List Member → ℕ
unfolding max_of
packed_size [] = 0
packed_size (m ∷ ms) = max_of m.compressed_size (packed_size ms)

unfoldable pub total_size : List Member → ℕ
total_size [] = 0
total_size (m ∷ ms) = m.size + total_size ms

is_identified : Text → Bool
is_identified header = elim (detected_image_extension header) [ none ↦ false | some e ↦ true ]

identified_as_image : List Member → Bool
unfolding is_identified
identified_as_image [] = true
identified_as_image (m ∷ ms) = is_identified m.header && identified_as_image ms

-- The question to the archive itself, of the first member.
probed : Bool → Option (Member → Text) → List Member → Bool
unfolding is_identified
probed encrypted none group = false
probed encrypted (some read_header) [] = false
probed encrypted (some read_header) (m ∷ ms) = not encrypted && is_identified (read_header m)

is_expanding : ℕ → List Member → Bool
unfolding packed_size total_size
is_expanding limit group =
    not (leb (packed_size group) 0) && not (leb (total_size group) (limit * packed_size group))

-- One turn of the loop.
enforce_group : Bool → ℕ → Option (Member → Text) → List Member → Result Refusal (Unit {0})
unfolding is_expanding identified_as_image probed
enforce_group encrypted limit read_header group =
    if is_expanding limit group
      && not (identified_as_image group)
      && not (probed encrypted read_header group)
    then err compression_ratio
    else ok tt

enforce_groups : Bool → ℕ → Option (Member → Text) → List (List Member) → Result Refusal (Unit {0})
unfolding enforce_group
enforce_groups encrypted limit read_header [] = ok tt
enforce_groups encrypted limit read_header (g ∷ gs) =
    enforce_group encrypted limit read_header g >> enforce_groups encrypted limit read_header gs

-- `enforce_compression_ratio`
unfoldable pub enforce_compression_ratio :
    Manifest → List Member → SafetyLimits → Option (Member → Text) → Result Refusal (Unit {0})
unfolding enforce_groups
enforce_compression_ratio manifest ms limits read_header =
    enforce_groups manifest.encrypted limits.max_compression_ratio read_header
      (compression_groups ms)
