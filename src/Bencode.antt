-- ===== src/Bencode.antt =====
-- The bencode reader that checks a `.torrent` before it is pushed (app/torrent/bencode.py).
-- Where the source keeps the whole data and an index, the model keeps what stands from the index on.
mod Terms
mod Order
mod RoundTrip
mod Sound
mod Lenient
mod Samples
use eh_bot.Prelude.{
  ℕ, zero, suc, ◌+◌, ◌*◌, Bool, true, false, not, ◌&&◌, ◌||◌, Option, none, some, List, [], ◌∷◌,
  ◌++◌, ltb, leb, ◌==◌, if◌then◌else◌, length, Text, Result, ok, err, ◌>>=◌, ◌>>◌, refuse_if,
  list_eq, codes,
}
use eh_bot.Prelude.Int.{ℤ}
use eh_bot.Prelude.Decimal.{decimal, str_int, py_int, is_digit}

abbrev pub max_torrent_bytes : ℕ
max_torrent_bytes = 4 * 1024 * 1024

-- The values that a document can hold. `Fields` is a dict in its order.
mutual
  pub data Value : Type 0 where
    int : ℤ → Value
    bytes : Text → Value
    list : Items → Value
    dict : Fields → Value

  pub data Items : Type 0 where
    no_items : Items
    item : Value → Items → Items

  pub data Fields : Type 0 where
    no_fields : Fields
    field : Text → Value → Fields → Fields

-- `invalid` is `TorrentError("TORRENT_FILE_INVALID", ...)`, `value_error` a `ValueError` that the
-- source does not catch; `out_of_fuel` has no counterpart in the source.
pub data Failure : Type 0 where
  invalid value_error out_of_fuel : Failure

abbrev pub Parsed : Type 0 → Type 0
Parsed A = Result Failure (A × Text)

-- Lexicographic `<` on `bytes`.
pub bytes_lt : Text → Text → Bool
bytes_lt [] [] = false
bytes_lt [] (y ∷ ys) = true
bytes_lt (x ∷ xs) [] = false
bytes_lt (x ∷ xs) (y ∷ ys) = ltb x y || (x == y) && bytes_lt xs ys

-- `data.find(mark)`: what stands before the first mark and behind it
pub find_mark : ℕ → Text → Option (Text × Text)
find_mark mark [] = none
find_mark mark (c ∷ s) =
    let rest = find_mark mark s in
    if c == mark then some ([], s) else elim rest [ none ↦ none | some p ↦ some (c ∷ p.0, p.1) ]

pub is_ascii : Text → Bool
is_ascii [] = true
is_ascii (c ∷ s) = ltb c 128 && is_ascii s

-- `text.lstrip("-")`
drop_dashes : Text → Text
drop_dashes [] = []
drop_dashes (c ∷ s) = if c == b'-' then drop_dashes s else c ∷ s

starts_with_zero : Text → Bool
starts_with_zero [] = false
starts_with_zero (c ∷ s) = c == b'0'

-- The texts that the source refuses before it calls `int`.
pub malformed : Text → Bool
unfolding drop_dashes starts_with_zero
malformed text =
    list_eq text []
    || list_eq text (b'-' ∷ [])
    || list_eq text (b'-' ∷ b'0' ∷ [])
    || starts_with_zero (drop_dashes text) && not (list_eq (drop_dashes text) (b'0' ∷ []))

or_raise : {A : Type 0} → Failure → Option A → Result Failure A
or_raise e none = err e
or_raise e (some a) = ok a

-- The rest of an integer, behind its `i`.
pub parse_int : Text → Parsed Value
unfolding find_mark is_ascii malformed or_raise
parse_int s = do
  (text, rest) ← or_raise invalid (find_mark b'e' s)
  refuse_if (not (is_ascii text)) invalid
  refuse_if (malformed text) invalid
  n ← or_raise value_error (py_int text)
  ok (int n, rest)

-- The first `n` bytes and what follows them; `none` where there are fewer.
split_at : ℕ → Text → Option (Text × Text)
split_at zero s = some ([], s)
split_at (suc n) [] = none
split_at (suc n) (c ∷ s) = elim (split_at n s) [ none ↦ none | some p ↦ some (c ∷ p.0, p.1) ]

-- A length that `int` reads off text which begins with a digit is not negative.
abbrev natural : ℤ → Option ℕ
natural (ℤ.pos n) = some n
natural (ℤ.negsuc n) = none

-- A byte string, with the digit that it begins with.
parse_bytes : Text → Parsed Text
unfolding find_mark or_raise split_at
parse_bytes s = do
  (text, rest) ← or_raise invalid (find_mark b':' s)
  z ← or_raise invalid (py_int text)
  n ← or_raise invalid (natural z)
  or_raise invalid (split_at n rest)

-- A dict's key has to be a byte string.
as_key : Value → Result Failure Text
as_key (bytes k) = ok k
as_key _ = err invalid

-- `previous is not None and key <= previous`
pub out_of_order : Option Text → Text → Bool
unfolding bytes_lt
out_of_order none key = false
out_of_order (some previous) key = not (bytes_lt previous key)

pub starts : ℕ → Text → Bool
starts mark [] = false
starts mark (c ∷ s) = c == mark

abbrev tail : Text → Text
tail [] = []
tail (c ∷ s) = s

-- `_decode`, its list loop and its dict loop. What a call leaves is no structural part of the
-- input, so each call costs a unit of fuel.
mutual
  pub parse_value : ℕ → Text → Parsed Value
  parse_value zero s = err out_of_fuel
  parse_value (suc f) [] = err invalid
  parse_value (suc f) (marker ∷ s) =
      let listed = (do (xs, rest) ← parse_items f s; ok (list xs, rest)) in
      let mapped = (do (fs, rest) ← parse_fields f none s; ok (dict fs, rest)) in
      if marker == b'i'
      then parse_int s
      else if marker == b'l'
      then listed
      else if marker == b'd'
      then mapped
      else if is_digit marker
      then (do (b, rest) ← parse_bytes (marker ∷ s); ok (bytes b, rest))
      else err invalid

  pub parse_items : ℕ → Text → Parsed Items
  parse_items zero s = err out_of_fuel
  parse_items (suc f) s =
      let more = (do (v, s₁) ← parse_value f s; (xs, s₂) ← parse_items f s₁; ok (item v xs, s₂)) in
      if starts b'e' s then ok (no_items, tail s) else more

  pub parse_fields : ℕ → Option Text → Text → Parsed Fields
  parse_fields zero previous s = err out_of_fuel
  parse_fields (suc f) previous s =
      let more = (do
        (k, s₁) ← parse_value f s
        key ← as_key k
        refuse_if (out_of_order previous key) invalid
        (v, s₂) ← parse_value f s₁
        (fs, s₃) ← parse_fields f (some key) s₂
        ok (field key v fs, s₃)) in
      if starts b'e' s then ok (no_fields, tail s) else more

abbrev whole : Parsed Value → Result Failure Value
whole r = do (v, rest) ← r; refuse_if (not (list_eq rest [])) invalid; ok v

pub decode : Text → Result Failure Value
decode content = do
  refuse_if (list_eq content []) invalid
  refuse_if (ltb max_torrent_bytes (length content)) invalid
  whole (parse_value (2 * length content + 1) content)

-- `encode(key)`, and `str(len(value)).encode() + b":" + value`
pub encode_bytes : Text → Text
encode_bytes b = decimal (length b) ++ b':' ∷ b

-- `sorted(value)`, carrying what each key is encoded to
insert_part : Text → Text → List (Text × Text) → List (Text × Text)
insert_part k part [] = (k, part) ∷ []
insert_part k part ((j, other) ∷ rest) =
    if bytes_lt j k then (j, other) ∷ insert_part k part rest else (k, part) ∷ (j, other) ∷ rest

pub join_parts : List (Text × Text) → Text
join_parts [] = []
join_parts ((k, part) ∷ rest) = part ++ join_parts rest

-- `encode`, over the values that `_decode` produces: the branches of the source that refuse a
-- Boolean, a key that is no byte string or another type are about values that are not among them.
mutual
  unfolding insert_part

  pub encode : Value → Text
  encode (int n) = b'i' ∷ (str_int n ++ b'e' ∷ [])
  encode (bytes b) = encode_bytes b
  encode (list xs) = b'l' ∷ (encode_items xs ++ b'e' ∷ [])
  encode (dict fs) = b'd' ∷ (join_parts (sorted_parts fs) ++ b'e' ∷ [])

  pub encode_items : Items → Text
  encode_items no_items = []
  encode_items (item v xs) = encode v ++ encode_items xs

  pub sorted_parts : Fields → List (Text × Text)
  sorted_parts no_fields = []
  sorted_parts (field k v fs) = insert_part k (encode_bytes k ++ encode v) (sorted_parts fs)

-- `document.get(key)`
pub get_field : Text → Fields → Option Value
get_field key no_fields = none
get_field key (field k v fs) = if list_eq k key then some v else get_field key fs

as_info : Option Value → Option Fields
as_info (some (dict fs)) = some fs
as_info _ = none

-- `infohash`, over the hash function that `hashlib` provides
pub infohash : {Digest : Type 0} → (Text → Digest) → Text → Result Failure Digest
unfolding as_info or_raise
infohash sha1 content = do
  document ← decode content
  fields ← or_raise invalid (as_info (some document))
  info ← or_raise invalid (as_info (get_field (codes "info") fields))
  ok (sha1 (encode (dict info)))
