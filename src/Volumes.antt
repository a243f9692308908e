-- ===== src/Volumes.antt =====
-- The volumes of a split archive by their names (app/archive/formats.py). A name is a text, and a
-- directory is the list of its entries; of letters without case, those of ASCII are modelled.
pub mod Gaps
mod Samples
use eh_bot.Prelude.{
  ℕ, suc, zero, ◌+◌, ◌*◌, ◌-◌, Bool, true, false, not, ◌&&◌, ◌||◌, Option, none, some, List, [],
  ◌∷◌, ◌++◌, ltb, leb, length, ◌==◌, if◌then◌else◌, Text, codes, list_eq,
}
use eh_bot.Prelude.Decimal.{decimal, is_digit}
use eh_bot.Prelude.Strings.{is_one_of}
use eh_bot.Archive.Paths.{suffix}
use eh_bot.Archive.Order.{text_lt}

lower : ℕ → ℕ
lower c = if leb b'A' c && leb c b'Z' then c + 32 else c

lowered : Text → Text
lowered [] = []
lowered (c ∷ t) = lower c ∷ lowered t

reversed_onto : Text → Text → Text
reversed_onto t [] = t
reversed_onto t (c ∷ u) = reversed_onto (c ∷ t) u

pub and_then : {A B : Type 0} → Option A → (A → Option B) → Option B
and_then none f = none
and_then (some a) f = f a

pub first_of : {A : Type 0} → Option A → Option A → Option A
first_of none o = o
first_of (some a) o = some a

-- A name is read from its end, so the literals of the patterns are reversed.
drop_end : Text → Text → Option Text
unfolding lower
drop_end [] t = some t
drop_end (p ∷ ps) [] = none
drop_end (p ∷ ps) (c ∷ t) = if lower c == p then drop_end ps t else none

-- the digits at the end, in their order, and what is in front of them
end_digits : Text → Text → Text × Text
end_digits ds [] = (ds, [])
end_digits ds (c ∷ t) = let more = end_digits (c ∷ ds) t in if is_digit c then more else (ds, c ∷ t)

number : ℕ → Text → ℕ
number n [] = n
number n (c ∷ t) = number (n * 10 + (c - b'0')) t

-- `$` also stands in front of a line feed at the end
from_end : Text → Text
from_end name = without_feed (reversed_onto [] name)
  where
    without_feed : Text → Text
    without_feed [] = []
    without_feed (c ∷ t) = if c == 10 then t else c ∷ t

has_feed : Text → Bool
has_feed [] = false
has_feed (c ∷ t) = c == 10 || has_feed t

-- `(?P<stem>.+)`
as_stem : Text → Option Text
as_stem [] = none
as_stem (c ∷ t) = if has_feed (c ∷ t) then none else some (reversed_onto [] (c ∷ t))

pub data Container : Type 0 where
  zip seven_zip rar : Container

container_name : Container → Text
container_name zip = codes "zip"
container_name seven_zip = codes "7z"
container_name rar = codes "rar"

tagged : Container → Option Text → Option (Container × Text)
tagged c none = none
tagged c (some t) = some (c, t)

container_end : Text → Option (Container × Text)
unfolding tagged drop_end
container_end t = first_of (tagged zip (drop_end (codes "piz.") t)) (
    first_of (tagged seven_zip (drop_end (codes "z7.") t)) (tagged rar (drop_end (codes "rar.") t)))

-- What a name is matched as: the group it belongs to, and its index.
pub record Volume : Type 0 where
  pub group : Text
  pub index : ℕ

numbered_group : Text → Container → Text
unfolding container_name
numbered_group stem c = stem ++ codes "." ++ container_name c

rar_group : Text → Text
rar_group stem = stem ++ codes ".rar"

-- `_NUMBERED_PATTERN`
numbered : Text → Option Volume
unfolding end_digits number drop_end container_end as_stem numbered_group
numbered name =
    let (ds, front) = end_digits [] (from_end name) in
    if length ds == 3
    then and_then (drop_end (codes ".") front) (λ t. and_then (container_end t) (λ p.
      and_then (as_stem p.1)
        (λ stem. some (record { group = numbered_group stem p.0; index = number 0 ds }))))
    else none

-- `_RAR_PART_PATTERN`
rar_part : Text → Option Volume
unfolding end_digits number drop_end as_stem rar_group
rar_part name = and_then (drop_end (codes "rar.") (from_end name)) (λ t.
    let (ds, front) = end_digits [] t in
    if length ds == 0
    then none
    else and_then (drop_end (codes "trap.") front) (λ u.
      and_then (as_stem u) (λ stem. some (record { group = rar_group stem; index = number 0 ds }))))

-- `_RAR_LEGACY_PATTERN`; its first companion is the second volume
legacy : Text → Option Volume
unfolding end_digits number drop_end as_stem rar_group
legacy name =
    let (ds, front) = end_digits [] (from_end name) in
    if length ds == 2 || length ds == 3
    then and_then (drop_end (codes "r.") front) (λ t.
      and_then (as_stem t)
        (λ stem. some (record { group = rar_group stem; index = number 0 ds + 2 })))
    else none

first : ℕ → Text → Text
first zero t = []
first (suc n) [] = []
first (suc n) (c ∷ t) = c ∷ first n t

-- `path.stem`
stem_of : Text → Text
unfolding first
stem_of name = first (length name - length (suffix name)) name

leading : Text → Option Volume
unfolding lowered rar_group stem_of
leading name =
    if is_one_of (lowered (suffix name)) (".rar" ∷ ".cbr" ∷ [])
    then some (record { group = rar_group (stem_of name); index = 1 })
    else none

-- `volume_group` and `_volume_index`
pub volume : Text → Option Volume
unfolding numbered rar_part legacy leading
volume name =
    first_of (numbered name) (first_of (rar_part name) (first_of (legacy name) (leading name)))

-- An entry of the directory that belongs to a group, with its index.
member_of : Text → Text → Option Volume → Option (ℕ × Text)
member_of group name none = if list_eq name group then some (1, name) else none
member_of group name (some v) = if list_eq v.group group then some (v.index, name) else none

sibling : Text → Text × Bool → Option (ℕ × Text)
unfolding member_of volume
sibling group (name, false) = none
sibling group (name, true) = member_of group name (volume name)

-- not behind, by index and then by name
comes_first : ℕ × Text → ℕ × Text → Bool
comes_first (i, n) (j, m) = ltb i j || i == j && not (text_lt m n)

insert_volume : ℕ × Text → List (ℕ × Text) → List (ℕ × Text)
unfolding comes_first
insert_volume v [] = v ∷ []
insert_volume v (w ∷ vs) = if comes_first v w then v ∷ w ∷ vs else w ∷ insert_volume v vs

add_volume : Option (ℕ × Text) → List (ℕ × Text) → List (ℕ × Text)
unfolding insert_volume
add_volume none vs = vs
add_volume (some v) vs = insert_volume v vs

candidates : Text → List (Text × Bool) → List (ℕ × Text)
unfolding sibling add_volume
candidates group [] = []
candidates group (e ∷ entries) = add_volume (sibling group e) (candidates group entries)

names_of : List (ℕ × Text) → List Text
names_of [] = []
names_of ((i, name) ∷ vs) = name ∷ names_of vs

-- `_sibling_volumes`
pub sibling_volumes : Text → List (Text × Bool) → List Text
unfolding candidates names_of
sibling_volumes group entries = names_of (candidates group entries)

-- `_volume_index`; an index of zero is dropped, and so is a name without one
nonzero : Option Volume → List ℕ → List ℕ
nonzero none is = is
nonzero (some v) is = if v.index == 0 then is else v.index ∷ is

pub indexes_of : List Text → List ℕ
unfolding nonzero volume
indexes_of [] = []
indexes_of (name ∷ names) = nonzero (volume name) (indexes_of names)

pub max_of : List ℕ → ℕ
max_of [] = 0
max_of (i ∷ is) = let m = max_of is in if leb i m then m else i

pub is_listed : ℕ → List ℕ → Bool
is_listed x [] = false
is_listed x (i ∷ is) = x == i || is_listed x is

-- the numbers from `from` on, so many of them, that are not listed
pub gaps : ℕ → ℕ → List ℕ → List ℕ
unfolding is_listed
gaps zero from is = []
gaps (suc n) from is =
    let rest = gaps n (suc from) is in if is_listed from is then rest else from ∷ rest

is_some : Option Volume → Bool
is_some none = false
is_some (some v) = true

any_legacy : List Text → Bool
unfolding is_some legacy
any_legacy [] = false
any_legacy (name ∷ names) = is_some (legacy name) || any_legacy names

-- `group.rpartition(".")`, of a reversed group: what follows the dot, and what is in front of it
after_dot : Text → Text → Text × Text
after_dot end [] = ([], end)
after_dot end (c ∷ t) =
    let more = after_dot (c ∷ end) t in if c == b'.' then (reversed_onto [] t, end) else more

zeros : ℕ → Text
zeros zero = []
zeros (suc n) = b'0' ∷ zeros n

-- a number with leading zeros
padded : ℕ → ℕ → Text
unfolding zeros
padded width n = zeros (width - length (decimal n)) ++ decimal n

-- `_expected_volume_name`
pub expected_volume_name : Text → ℕ → Bool → Text
unfolding after_dot padded
expected_volume_name group index is_legacy =
    let (stem, container) = after_dot [] (reversed_onto [] group) in
    if list_eq container (codes "rar")
    then if index == 1
      then group
      else if is_legacy
      then stem ++ codes ".r" ++ padded 2 (index - 2)
      else stem ++ codes ".part" ++ decimal index ++ codes ".rar"
    else group ++ codes "." ++ padded 3 index

names_for : Text → Bool → List ℕ → List Text
unfolding expected_volume_name
names_for group is_legacy [] = []
names_for group is_legacy (i ∷ is) =
    expected_volume_name group i is_legacy ∷ names_for group is_legacy is

-- the volumes, and the names of those that are missing
pub with_missing : Text → List Text → List Text × List Text
unfolding names_for indexes_of max_of gaps any_legacy
with_missing group names =
    let is = indexes_of names in (names, names_for group (any_legacy names) (gaps (max_of is) 1 is))

pub of_volumes : Text → Text → List Text → List Text × List Text
unfolding with_missing
of_volumes name group [] = (name ∷ [], [])
of_volumes name group (v ∷ vs) = with_missing group (v ∷ vs)

pub of_group : Text → List (Text × Bool) → Option Volume → List Text × List Text
unfolding of_volumes sibling_volumes
of_group name entries none = (name ∷ [], [])
of_group name entries (some v) = of_volumes name v.group (sibling_volumes v.group entries)

-- `resolve_volumes`, of a name in a directory
pub resolve_volumes : Text → List (Text × Bool) → List Text × List Text
unfolding of_group volume
resolve_volumes name entries = of_group name entries (volume name)
