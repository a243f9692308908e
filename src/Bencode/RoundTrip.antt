-- ===== src/Bencode/RoundTrip.antt =====
-- What is encoded decodes back.
use eh_bot.Prelude.{
  ℕ, zero, suc, ◌+◌, ◌*◌, ◌≤◌, ◌<◌, ◌≡◌, refl, ap, false, Option, none, some, [], ◌∷◌, ◌++◌,
  append_assoc, append-nil, arith, length, length-append, Text, codes, ok, list_eq,
}
use eh_bot.Bencode.{
  Value, Items, Fields, int, bytes, list, dict, no_items, item, no_fields, field, max_torrent_bytes,
  encode, encode_items, encode_bytes, parse_value, parse_items, parse_fields, as_key, out_of_order,
  starts, decode, Parsed, infohash, get_field,
}
use eh_bot.Bencode.Terms.{
  parse_int-str_int, parse_value-bytes, starts-encode_bytes, length-encode_bytes,
}
use eh_bot.Bencode.Order.{
  Follows, IsOrdered, ItemsOrdered, FieldsOrdered, encode_fields, encode-dict,
}

length-append_text : (s t : Text) → length (s ++ t) ≡ length s + length t
length-append_text = length-append

ruleset lengths = (arith, length-append_text, length-encode_bytes)

length-encode_pos : (v : Value) → 0 < length (encode v)
unfolding encode
length-encode_pos (bytes b) = length-encode_bytes b
length-encode_pos _ = omega arith

-- No value's text begins with the end mark.
starts-encode : (v : Value) (rest : Text) → starts b'e' (encode v ++ rest) ≡ false
unfolding encode
starts-encode (bytes b) rest = starts-encode_bytes b rest
starts-encode _ rest = unfold starts in refl

out_of_order-Follows :
    (previous : Option Text) (k : Text) → Follows previous k → out_of_order previous k ≡ false
unfolding out_of_order
out_of_order-Follows none k h = refl
out_of_order-Follows (some p) k h = rw h

-- With fuel above `bound`, `p` reads `a` off `printed` and leaves what follows.
abbrev Reads : {A : Type 0} → (ℕ → Text → Parsed A) → ℕ → Text → A → Type 0
Reads p bound printed a = (rest : Text) (f : ℕ) → bound < f → p f (printed ++ rest) ≡ ok (a, rest)

abbrev ReadsValue : Value → Type 0
ReadsValue v = IsOrdered v → Reads parse_value (2 * length (encode v)) (encode v) v

abbrev ReadsItems : Items → Type 0
ReadsItems xs =
    ItemsOrdered xs
    → Reads parse_items (2 * length (encode_items xs) + 1) (encode_items xs ++ b'e' ∷ []) xs

abbrev ReadsFields : Fields → Type 0
ReadsFields fs =
    (previous : Option Text)
    → FieldsOrdered fs previous
    → Reads (λ f. parse_fields f previous) (2 * length (encode_fields fs) + 1)
        (encode_fields fs ++ b'e' ∷ []) fs

spend : {n : ℕ} (P : ℕ → Type 0) → ((f : ℕ) → n ≤ f → P (suc f)) → (f : ℕ) → n < f → P f
spend P k zero h = absurd (omega arith)
spend P k (suc f) h = k f (omega arith)

read_key :
    (f : ℕ) (k rest : Text) → 0 < f → parse_value f (encode_bytes k ++ rest) ≡ ok (bytes k, rest)
read_key zero k rest h = absurd (omega arith)
read_key (suc f) k rest h = parse_value-bytes f k rest

ruleset steps = (append_assoc, starts-encode, starts-encode_bytes)

parse_value-Reads : (v : Value) → ReadsValue v
unfolding parse_value encode encode_fields as_key
parse_value-Reads v = elim v as ReadsValue ReadsItems ReadsFields [
  | int n ↦ λ o rest. spend _ λ f h. simp append_assoc (rw (parse_int-str_int n rest))
  | bytes b ↦ λ o rest. spend _ λ f h. parse_value-bytes f b rest
  | list (xs → ih) ↦ λ o rest. spend _ λ f h. rw (ih o rest f (omega lengths))
  | dict (fs → ih) ↦ λ o rest. spend _ λ f h.
      rw (
        encode-dict fs none o,
        ih none o rest f (omega (lengths, ap length (encode-dict fs none o))),
      )
  | no_items ↦ λ o rest. spend _ λ f h. unfold starts in refl
  | item (w → ih) (xs → ihs) ↦ λ o rest. spend _ λ f h.
      let rest_read =
        (simp append_assoc at (ihs o.1 rest f (omega (lengths, length-encode_pos w)))) in
      simp (steps, ih o.0 _ f (omega lengths), rest_read)
  | no_fields ↦ λ p o rest. spend _ λ f h. unfold starts in refl
  | field k (w → ih) (fs → ihs) ↦ λ p o rest. spend _ λ f h.
      let rest_read = (simp append_assoc at (ihs (some k) o.2 rest f (omega lengths))) in
      simp (
        steps,
        read_key f k _ (omega lengths),
        ih o.1 _ f (omega lengths),
        out_of_order-Follows p k o.0,
        rest_read,
      )
]

list_eq-nil : (s : Text) → 0 < length s → list_eq s [] ≡ false
list_eq-nil [] h = absurd (omega arith)
list_eq-nil (c ∷ s) h = refl

-- Encoding a value whose dicts have rising keys and decoding the text gives the value back, if the
-- text is within `MAX_TORRENT_BYTES`.
pub decode-encode :
    (v : Value) → IsOrdered v → length (encode v) ≤ max_torrent_bytes → decode (encode v) ≡ ok v
unfolding decode
decode-encode v o fits =
    let read =
      (rw append-nil at (parse_value-Reads v o [] (2 * length (encode v) + 1) (omega arith))) in
    let nonempty = list_eq-nil (encode v) (length-encode_pos v) in ground (arith, read, nonempty)

-- The infohash of an encoded document with rising keys, within `MAX_TORRENT_BYTES`, is the hash of
-- the encoding of its `info` dict, whatever the hash function and the other fields.
pub infohash-encode :
    {Digest : Type 0} (sha1 : Text → Digest) (fs info : Fields)
    → length (encode (dict fs)) ≤ max_torrent_bytes
    → IsOrdered (dict fs)
    → get_field (codes "info") fs ≡ some (dict info)
    → infohash sha1 (encode (dict fs)) ≡ ok (sha1 (encode (dict info)))
unfolding infohash
infohash-encode sha1 fs info fits o found = rw (decode-encode (dict fs) o fits) (rw found)
