-- ===== src/Search/Slices.antt =====
-- `in`, `find` and slices of Python's strings.
use eh_bot.Prelude.{
  ℕ, zero, suc, ◌-◌, Bool, true, false, ◌||◌, Option, none, some, [], ◌∷◌, if◌then◌else◌, Text,
}
use eh_bot.Prelude.Strings.{starts_with}

-- `needle in text`
pub contains : Text → Text → Bool
unfolding starts_with
contains needle [] = starts_with needle []
contains needle (c ∷ t) = starts_with needle (c ∷ t) || contains needle t

pub drop : ℕ → Text → Text
drop zero t = t
drop (suc n) [] = []
drop (suc n) (c ∷ t) = drop n t

pub take : ℕ → Text → Text
take zero t = []
take (suc n) [] = []
take (suc n) (c ∷ t) = c ∷ take n t

-- `text[start:finish]`
unfoldable pub slice : ℕ → ℕ → Text → Text
unfolding drop take
slice start finish t = take (finish - start) (drop start t)

cut_at : ℕ → Bool → Option (Text × Text) → Text → Option (Text × Text)
cut_at c true o rest = some ([], rest)
cut_at c false none rest = none
cut_at c false (some (before, after)) rest = some (c ∷ before, after)

-- What stands in front of the first place where the needle stands, and what follows from there
-- (`text.find`).
pub find : Text → Text → Option (Text × Text)
unfolding starts_with cut_at
find needle [] = if starts_with needle [] then some ([], []) else none
find needle (c ∷ t) = cut_at c (starts_with needle (c ∷ t)) (find needle t) (c ∷ t)
