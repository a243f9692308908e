-- ===== src/Archive/Paths.antt =====
-- Member names (`normalize_member_name`, `member_depth` of app/archive/safety.py), over what they use of
-- `PurePosixPath` on a relative path.
pub mod Inside
use eh_bot.Prelude.{
  ℕ, Bool, true, false, not, ◌&&◌, ◌||◌, Option, none, some, List, [], ◌∷◌, ◌++◌, ◌==◌, leb,
  if◌then◌else◌, length, Text, codes, list_eq, Result, ok, err, ◌>>=◌, ◌>>◌, refuse_if,
}
use eh_bot.Prelude.Strings.{trim, split_at_any}
use eh_bot.Archive.{Refusal, invalid_name, absolute_name, traversal}

to_slashes : Text → Text
to_slashes [] = []
to_slashes (c ∷ t) = (if c == b'\\' then b'/' else c) ∷ to_slashes t

-- Empty parts and `.` do not count.
real_parts : List Text → List Text
real_parts [] = []
real_parts (p ∷ ps) =
    let rest = real_parts ps in if list_eq p [] || list_eq p (codes ".") then rest else p ∷ rest

-- `PurePosixPath(text).parts`
unfoldable pub parts : Text → List Text
unfolding real_parts split_at_any
parts t = real_parts (split_at_any (λ c. c == b'/') t)

joined : List Text → Text
joined [] = []
joined (p ∷ []) = p
joined (p ∷ q ∷ ps) = p ++ b'/' ∷ joined (q ∷ ps)

-- `str` of the path with these parts
unfoldable pub path_text : List Text → Text
unfolding joined
path_text [] = codes "."
path_text (p ∷ ps) = joined (p ∷ ps)

has_parent : List Text → Bool
has_parent [] = false
has_parent (p ∷ ps) = list_eq p (codes "..") || has_parent ps

is_letter : ℕ → Bool
is_letter c = (leb b'A' c && leb c b'Z') || (leb b'a' c && leb c b'z')

-- A leading slash, or a drive: `^[A-Za-z]:`.
is_absolute : Text → Bool
unfolding is_letter
is_absolute [] = false
is_absolute (c ∷ []) = c == b'/'
is_absolute (c ∷ d ∷ t) = c == b'/' || (is_letter c && d == b':')

-- `normalize_member_name`
unfoldable pub normalize_member_name : Text → Result Refusal Text
unfolding to_slashes is_absolute has_parent trim
normalize_member_name name = do
  let cleaned = trim (to_slashes name)
  refuse_if (list_eq cleaned []) invalid_name
  refuse_if (is_absolute cleaned) absolute_name
  refuse_if (has_parent (parts cleaned)) traversal
  ok (path_text (parts cleaned))

-- `member_depth`
unfoldable pub member_depth : Text → ℕ
member_depth name = length (parts name)

final : List Text → Text
final [] = []
final (p ∷ []) = p
final (p ∷ q ∷ ps) = final (q ∷ ps)

-- From the last dot on, if there is one; the flag says that a character stands in front.
from_last_dot : Bool → Text → Option Text
from_last_dot before [] = none
from_last_dot before (c ∷ t) = elim (from_last_dot true t) [
  | some s ↦ some s
  | none ↦ if before && c == b'.' then some (c ∷ t) else none
]

-- A dot that is the last character gives no suffix.
or_no_suffix : Option Text → Text
or_no_suffix none = []
or_no_suffix (some []) = []
or_no_suffix (some (c ∷ [])) = []
or_no_suffix (some (c ∷ d ∷ t)) = c ∷ d ∷ t

-- `PurePosixPath(text).suffix`
unfoldable pub suffix : Text → Text
unfolding final from_last_dot or_no_suffix
suffix t = or_no_suffix (from_last_dot false (final (parts t)))
