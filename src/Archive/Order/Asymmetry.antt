-- ===== src/Archive/Order/Asymmetry.antt =====
-- The natural order is asymmetric.
use eh_bot.Prelude.{◌≡◌, refl, true, false, ◌||◌, List, [], ◌∷◌, Text, list_eq, arith}
use eh_bot.Archive.Order.{Chunk, words, number, text_lt, chunk_lt, chunk_eq, key_lt}

text_lt-asym : (t u : Text) → text_lt t u ≡ true → text_lt u t ≡ false
unfolding text_lt
text_lt-asym t [] h = cc
text_lt-asym [] (d ∷ u) h = refl
text_lt-asym (c ∷ t) (d ∷ u) h = ground (arith, text_lt-asym t u)

list_eq-sym : (t u : Text) → list_eq t u ≡ list_eq u t
list_eq-sym [] [] = refl
list_eq-sym [] (d ∷ u) = refl
list_eq-sym (c ∷ t) [] = refl
list_eq-sym (c ∷ t) (d ∷ u) = ground (arith, list_eq-sym t u)

text_lt-list_eq : (t u : Text) → list_eq t u ≡ true → text_lt t u ≡ false
unfolding text_lt
text_lt-list_eq [] [] h = refl
text_lt-list_eq [] (d ∷ u) h = cc
text_lt-list_eq (c ∷ t) [] h = cc
text_lt-list_eq (c ∷ t) (d ∷ u) h = ground (arith, text_lt-list_eq t u)

chunk_lt-asym : (c d : Chunk) → chunk_lt c d ≡ true → (chunk_lt d c || chunk_eq d c) ≡ false
unfolding chunk_lt chunk_eq
chunk_lt-asym (words t) (words u) h =
    ground (arith, text_lt-asym t u, text_lt-list_eq t u, list_eq-sym t u)
chunk_lt-asym (words t) (number n) h = refl
chunk_lt-asym (number m) (words u) h = cc
chunk_lt-asym (number m) (number n) h = ground arith

chunk_eq-lt : (c d : Chunk) → chunk_eq c d ≡ true → chunk_lt d c ≡ false
unfolding chunk_lt chunk_eq
chunk_eq-lt (words t) (words u) h = ground (arith, text_lt-list_eq u t, list_eq-sym t u)
chunk_eq-lt (words t) (number n) h = cc
chunk_eq-lt (number m) (words u) h = cc
chunk_eq-lt (number m) (number n) h = ground arith

pub key_lt-asym : (k l : List Chunk) → key_lt k l ≡ true → key_lt l k ≡ false
unfolding key_lt
key_lt-asym k [] h = cc
key_lt-asym [] (d ∷ l) h = refl
key_lt-asym (c ∷ k) (d ∷ l) h = ground (arith, chunk_lt-asym c d, chunk_eq-lt c d, key_lt-asym k l)
