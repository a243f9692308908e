-- ===== src/Bencode/Samples.antt =====
-- Runs of the reader.
use eh_bot.Prelude.{[], arith, ◌≡◌, ◌≢◌, refl, Text, codes, ok, err}
use eh_bot.Prelude.Int.{pos, negsuc}
use eh_bot.Prelude.Decimal.{py_int, str_int, decimal, is_digit}
use eh_bot.Bencode.{
  Value, int, bytes, list, dict, no_items, item, no_fields, field, invalid, value_error,
  out_of_fuel, decode, encode, encode_bytes, parse_value, parse_int, parse_bytes, as_key,
  out_of_order, starts, join_parts, bytes_lt, Fields,
}
use eh_bot.Bencode.Order.{IsOrdered}
use eh_bot.Bencode.RoundTrip.{decode-encode}
use eh_bot.Bencode.Sound.{decode-ne-out_of_fuel, decode-IsOrdered}

abbrev metainfo : Text
metainfo = codes "d4:infod6:lengthi-12e4:name1:xe4:listl0:i0eee"

abbrev info : Fields
info = field (codes "length") (int (negsuc 11)) (field (codes "name") (bytes (codes "x")) no_fields)

abbrev top : Fields
top =
    field (codes "info") (dict info)
      (field (codes "list") (list (item (bytes []) (item (int (pos 0)) no_items))) no_fields)

abbrev document : Value
document = dict top

decode-metainfo : decode metainfo ≡ ok document
unfolding decode parse_value parse_int parse_bytes as_key out_of_order starts py_int is_digit
decode-metainfo = refl

encode-document : encode document ≡ metainfo
unfolding encode encode_bytes join_parts bytes_lt str_int decimal
encode-document = refl

two_dashes : decode (codes "i--5e") ≡ err value_error
unfolding decode parse_value parse_int py_int
two_dashes = refl

unsorted : decode (codes "d1:b0:1:a0:e") ≡ err invalid
unfolding decode parse_value parse_int parse_bytes as_key out_of_order starts py_int is_digit
unsorted = refl

document-IsOrdered : IsOrdered document
unfolding bytes_lt
document-IsOrdered = (tt, (tt, tt, (refl, tt, tt)), (refl, (tt, (tt, tt)), tt))

decode-encode_example : decode (encode document) ≡ ok document
unfolding decode
decode-encode_example = decode-encode document document-IsOrdered (rw encode-document (omega arith))

decode-ne-out_of_fuel_example : decode metainfo ≢ err out_of_fuel
decode-ne-out_of_fuel_example = decode-ne-out_of_fuel metainfo

decode-IsOrdered_example : IsOrdered document
decode-IsOrdered_example = decode-IsOrdered metainfo document decode-metainfo
