-- ===== src/Bencode/Order.antt =====
-- Dicts whose keys rise, as the reader demands: `encode` writes them in their own order.
use eh_bot.Prelude.{
  ◌≡◌, refl, true, false, Option, none, some, List, [], ◌∷◌, ◌++◌, arith, Text, append_assoc,
}
use eh_bot.Bencode.{
  Value, Items, Fields, int, bytes, list, dict, no_items, item, no_fields, field, bytes_lt, encode,
  encode_bytes, insert_part, join_parts, sorted_parts,
}

-- The key comes after the one before it, if there is one.
abbrev pub Follows : Option Text → Text → Type 0
Follows none key = Unit
Follows (some previous) key = bytes_lt previous key ≡ true

-- In every dict of the value the keys rise strictly.
abbrev mutual
  pub IsOrdered : Value → Type 0
  IsOrdered (int n) = Unit
  IsOrdered (bytes b) = Unit
  IsOrdered (list xs) = ItemsOrdered xs
  IsOrdered (dict fs) = FieldsOrdered fs none

  pub ItemsOrdered : Items → Type 0
  ItemsOrdered no_items = Unit
  ItemsOrdered (item v xs) = IsOrdered v × ItemsOrdered xs

  pub FieldsOrdered : Fields → Option Text → Type 0
  FieldsOrdered no_fields previous = Unit
  FieldsOrdered (field k v fs) previous =
      Follows previous k × IsOrdered v × FieldsOrdered fs (some k)

bytes_lt_asymm : (a b : Text) → bytes_lt a b ≡ true → bytes_lt b a ≡ false
unfolding bytes_lt
bytes_lt_asymm [] [] h = refl
bytes_lt_asymm [] (y ∷ b) h = refl
bytes_lt_asymm (x ∷ a) [] h = cc
bytes_lt_asymm (x ∷ a) (y ∷ b) h = ground (arith, bytes_lt_asymm a b)

-- The fields in the dict's own order.
unfoldable pub encode_fields : Fields → Text
encode_fields no_fields = []
encode_fields (field k v fs) = encode_bytes k ++ (encode v ++ encode_fields fs)

parts : Fields → List (Text × Text)
parts no_fields = []
parts (field k v fs) = (k, encode_bytes k ++ encode v) ∷ parts fs

insert_part-parts :
    (k part : Text) (fs : Fields)
    → FieldsOrdered fs (some k)
    → insert_part k part (parts fs) ≡ (k, part) ∷ parts fs
unfolding insert_part parts
insert_part-parts k part no_fields h = refl
insert_part-parts k part (field j v fs) h = rw (bytes_lt_asymm k j h.0)

sorted_parts-parts :
    (fs : Fields) (previous : Option Text) → FieldsOrdered fs previous → sorted_parts fs ≡ parts fs
unfolding sorted_parts parts
sorted_parts-parts no_fields previous h = refl
sorted_parts-parts (field k v fs) previous h =
    rw (sorted_parts-parts fs (some k) h.2)
      (insert_part-parts k (encode_bytes k ++ encode v) fs h.2)

join_parts-parts : (fs : Fields) → join_parts (parts fs) ≡ encode_fields fs
unfolding join_parts parts encode_fields
join_parts-parts no_fields = refl
join_parts-parts (field k v fs) =
    rw (join_parts-parts fs) (append_assoc (encode_bytes k) (encode v) _)

-- Sorting changes nothing of an ordered dict.
pub encode-dict :
    (fs : Fields) (previous : Option Text)
    → FieldsOrdered fs previous
    → join_parts (sorted_parts fs) ≡ encode_fields fs
encode-dict fs previous h = rw (sorted_parts-parts fs previous h) (join_parts-parts fs)
