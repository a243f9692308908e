-- ===== src/Like/Samples.antt =====
-- Patterns at work.
use eh_bot.Prelude.{◌≡◌, refl, true, Text, codes}
use eh_bot.Like.{compile, fold, like_matches}
use eh_bot.Like.Spec.{Says, like_matches_iff}

abbrev unfolded : Text → Text
unfolded t = t

middle : like_matches unfolded (codes "%ab[_]c_") (codes "xxabab_cd") true ≡ true
unfolding like_matches fold compile
middle = refl

like_matches_example :
    Says (fold unfolded true (codes "%ab[_]c_")) (fold unfolded true (codes "xxabab_cd"))
like_matches_example =
    (like_matches_iff unfolded (codes "%ab[_]c_") (codes "xxabab_cd") true).0 middle
