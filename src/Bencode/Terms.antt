-- ===== src/Bencode/Terms.antt =====
-- The reader on the integers and byte strings that `encode` writes.
use eh_bot.Prelude.{
  ℕ, zero, suc, ◌+◌, ◌<◌, ◌≡◌, ◌≢◌, ◌⊎◌, inr, refl, true, false, some, [], ◌∷◌, ◌++◌, arith,
  append_assoc, length, Text, All, ok,
}
use eh_bot.Prelude.Int.{ℤ, pos, negsuc}
use eh_bot.Prelude.Decimal.{
  decimal, str_int, py_int, is_digit, IsDigit, decimal-IsDigit, py_int-decimal, py_int-str_int,
  of_decimal,
}
use eh_bot.Bencode.{
  int, bytes, find_mark, is_ascii, malformed, parse_int, split_at, parse_bytes, encode_bytes,
  parse_value, starts,
}

pub find_mark-append :
    (m : ℕ) (s rest : Text) → All (λ c. c ≢ m) s → find_mark m (s ++ m ∷ rest) ≡ some (s, rest)
unfolding find_mark
find_mark-append m [] rest h = ground arith
find_mark-append m (c ∷ s) rest h = ground (arith, find_mark-append m s rest)

pub All-IsDigit-ne : (m : ℕ) (s : Text) → m < b'0' ⊎ b'9' < m → All IsDigit s → All (λ c. c ≢ m) s
All-IsDigit-ne m [] out h = tt
All-IsDigit-ne m (c ∷ s) out h = (λ e. ground arith, All-IsDigit-ne m s out h.1)

pub is_ascii-IsDigit : (s : Text) → All IsDigit s → is_ascii s ≡ true
unfolding is_ascii
is_ascii-IsDigit [] h = refl
is_ascii-IsDigit (c ∷ s) h = ground (arith, is_ascii-IsDigit s)

malformed-decimal : (n : ℕ) → malformed (decimal n) ≡ false
malformed-decimal zero = unfold malformed decimal in refl
malformed-decimal (suc n) =
    of_decimal (λ s. malformed s ≡ false) (suc n)
      λ c t h lead. unfold malformed in ground (arith, lead.1)

malformed-minus : (n : ℕ) → malformed (b'-' ∷ decimal (n + 1)) ≡ false
malformed-minus n =
    of_decimal (λ s. malformed (b'-' ∷ s) ≡ false) (n + 1)
      λ c t h lead. unfold malformed in ground (arith, lead.1)

-- The steps of `parse_int` on a text that it accepts.
pub parse_int-eq :
    (text rest : Text) (z : ℤ)
    → All (λ c. c ≢ b'e') text
    → is_ascii text ≡ true
    → malformed text ≡ false
    → py_int text ≡ some z
    → parse_int (text ++ b'e' ∷ rest) ≡ ok (int z, rest)
unfolding parse_int
parse_int-eq text rest z no_mark ascii formed reads =
    rw (find_mark-append b'e' text rest no_mark) (rw (ascii, formed, reads))

pub parse_int-str_int :
    (z : ℤ) (rest : Text) → parse_int (str_int z ++ b'e' ∷ rest) ≡ ok (int z, rest)
parse_int-str_int (pos n) rest =
    unfold str_int in
    parse_int-eq (decimal n) rest (pos n)
      (All-IsDigit-ne b'e' _ (inr (omega arith)) (decimal-IsDigit n))
      (is_ascii-IsDigit _ (decimal-IsDigit n)) (malformed-decimal n) (py_int-decimal n)
parse_int-str_int (negsuc n) rest =
    parse_int-eq (str_int (negsuc n)) rest (negsuc n)
      (unfold str_int in
        ((λ e. omega arith), All-IsDigit-ne b'e' _ (inr (omega arith)) (decimal-IsDigit (n + 1))))
      (unfold str_int is_ascii in ground (arith, is_ascii-IsDigit _ (decimal-IsDigit (n + 1))))
      (unfold str_int in malformed-minus n) (py_int-str_int (negsuc n))

split_at-append : (b rest : Text) → split_at (length b) (b ++ rest) ≡ some (b, rest)
unfolding split_at
split_at-append [] rest = refl
split_at-append (c ∷ b) rest = rw (split_at-append b rest)

parse_bytes-eq :
    (text b rest : Text)
    → All IsDigit text
    → py_int text ≡ some (pos (length b))
    → parse_bytes (text ++ b':' ∷ (b ++ rest)) ≡ ok (b, rest)
unfolding parse_bytes
parse_bytes-eq text b rest digits reads =
    rw
      (find_mark-append b':' text (b ++ rest) (All-IsDigit-ne b':' text (inr (omega arith)) digits))
      (rw reads (rw (split_at-append b rest)))

-- Digits that spell the length, a colon and the bytes are read as the bytes.
pub parse_value-digits :
    (f c : ℕ) (t b rest : Text)
    → All IsDigit (c ∷ t)
    → py_int (c ∷ t) ≡ some (pos (length b))
    → parse_value (suc f) (c ∷ (t ++ b':' ∷ (b ++ rest))) ≡ ok (bytes b, rest)
unfolding parse_value is_digit
parse_value-digits f c t b rest digits reads =
    ground (arith, parse_bytes-eq (c ∷ t) b rest digits reads)

pub parse_value-bytes :
    (f : ℕ) (b rest : Text) → parse_value (suc f) (encode_bytes b ++ rest) ≡ ok (bytes b, rest)
unfolding encode_bytes
parse_value-bytes f b rest = rw (append_assoc (decimal (length b)) (b':' ∷ b) rest) (
    of_decimal
      (λ s.
        py_int s ≡ some (pos (length b))
        → parse_value (suc f) (s ++ b':' ∷ (b ++ rest)) ≡ ok (bytes b, rest))
      (length b) (λ c t digits _ reads. parse_value-digits f c t b rest digits reads)
      (py_int-decimal (length b)))

pub starts-encode_bytes : (b rest : Text) → starts b'e' (encode_bytes b ++ rest) ≡ false
unfolding encode_bytes
starts-encode_bytes b rest =
    of_decimal (λ s. starts b'e' ((s ++ b':' ∷ b) ++ rest) ≡ false) (length b)
      λ c t digits _. unfold starts in ground arith

pub length-encode_bytes : (b : Text) → 0 < length (encode_bytes b)
unfolding encode_bytes
length-encode_bytes b =
    of_decimal (λ s. 0 < length (s ++ b':' ∷ b)) (length b) λ c t digits _. omega arith
