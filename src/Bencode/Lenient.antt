-- ===== src/Bencode/Lenient.antt =====
-- Texts that are not canonical and that the reader takes, and the exception that it lets through.
use eh_bot.Prelude.{
  ℕ, zero, suc, ◌+◌, ◌*◌, ◌<◌, ◌≤◌, ◌≡◌, ◌≢◌, refl, ap, false, [], ◌∷◌, ◌++◌, arith, append-nil,
  length, length-append, Text, ok, err, inr,
}
use eh_bot.Prelude.Int.{pos}
use eh_bot.Prelude.Decimal.{
  decimal, str_int, decimal-IsDigit, py_int-plus_decimal, py_int-padded, py_int-dashes, of_decimal,
}
use eh_bot.Bencode.{
  int, bytes, value_error, max_torrent_bytes, parse_int, parse_value, malformed, is_ascii, decode,
  encode, encode_bytes,
}
use eh_bot.Bencode.Terms.{
  find_mark-append, parse_int-eq, All-IsDigit-ne, is_ascii-IsDigit, parse_value-digits,
}

abbrev plus_sign : ℕ → Text
plus_sign n = b'+' ∷ decimal n

parse_int-plus :
    (n : ℕ) (rest : Text) → parse_int (plus_sign n ++ b'e' ∷ rest) ≡ ok (int (pos n), rest)
parse_int-plus n rest =
    parse_int-eq (plus_sign n) rest (pos n)
      ((λ e. omega arith), All-IsDigit-ne b'e' _ (inr (omega arith)) (decimal-IsDigit n))
      (unfold is_ascii in ground (arith, is_ascii-IsDigit _ (decimal-IsDigit n)))
      (unfold malformed in refl) (py_int-plus_decimal n)

-- An integer with a plus sign is accepted, whatever its digits, and encodes to another text.
pub decode-plus_sign :
    (n : ℕ)
    → length (decimal n) + 3 ≤ max_torrent_bytes
    → let text = b'i' ∷ b'+' ∷ (decimal n ++ b'e' ∷ []) in
      (decode text ≡ ok (int (pos n))) × (encode (int (pos n)) ≢ text)
unfolding decode parse_value encode str_int
decode-plus_sign n fits = (
  ground (arith, parse_int-plus n [], length-append (decimal n) (b'e' ∷ [])),
  λ e. omega (arith, ap length e),
)

read_padded :
    (f : ℕ) (b : Text)
    → 0 < f
    → parse_value f (b'0' ∷ (decimal (length b) ++ b':' ∷ b)) ≡ ok (bytes b, [])
read_padded zero b h = absurd (omega arith)
read_padded (suc f) b h = rw append-nil at (
    parse_value-digits f b'0' (decimal (length b)) b []
      ((omega arith, omega arith), decimal-IsDigit (length b)) (py_int-padded (length b)))

-- A byte string whose length is written with a leading zero is accepted, whatever its bytes, and
-- encodes to another text.
pub decode-padded_length :
    (b : Text)
    → length (decimal (length b)) + length b + 2 ≤ max_torrent_bytes
    → let text = b'0' ∷ (decimal (length b) ++ b':' ∷ b) in
      (decode text ≡ ok (bytes b)) × (encode (bytes b) ≢ text)
unfolding decode encode encode_bytes
decode-padded_length b fits = (
  ground (
    arith,
    length-append (decimal (length b)) (b':' ∷ b),
    read_padded (2 * suc (length (decimal (length b) ++ b':' ∷ b)) + 1) b,
  ),
  λ e. omega (arith, ap length e),
)

malformed-dashes : (n : ℕ) → malformed (b'-' ∷ b'-' ∷ decimal n) ≡ false
malformed-dashes zero = unfold malformed decimal in refl
malformed-dashes (suc n) =
    of_decimal (λ s. malformed (b'-' ∷ b'-' ∷ s) ≡ false) (suc n)
      λ c t h lead. unfold malformed in ground (arith, lead.1)

parse_int-dashes :
    (n : ℕ) (rest : Text) → parse_int (b'-' ∷ b'-' ∷ (decimal n ++ b'e' ∷ rest)) ≡ err value_error
unfolding parse_int
parse_int-dashes n rest =
    rw
      (find_mark-append b'e' (b'-' ∷ b'-' ∷ decimal n) rest (
        (λ e. omega arith),
        ((λ e. omega arith), All-IsDigit-ne b'e' _ (inr (omega arith)) (decimal-IsDigit n)),
      ))
      (rw (malformed-dashes n, py_int-dashes n)
        (unfold is_ascii in ground (arith, is_ascii-IsDigit _ (decimal-IsDigit n))))

-- An integer with two minus signs passes the checks of the reader and makes `int` raise a
-- `ValueError`, which is no `TorrentError`, whatever its digits.
pub decode-dashes :
    (n : ℕ)
    → length (decimal n) + 4 ≤ max_torrent_bytes
    → decode (b'i' ∷ b'-' ∷ b'-' ∷ (decimal n ++ b'e' ∷ [])) ≡ err value_error
unfolding decode parse_value
decode-dashes n fits = ground (arith, parse_int-dashes n [], length-append (decimal n) (b'e' ∷ []))
