-- ===== src/Prelude/Decimal.antt =====
-- Python's `str` of an integer and `int` of an ASCII text.
mod Print
mod Read
unfoldable pub use Print.{decimal, str_int}
pub use Print.{IsDigit, Leads, decimal-IsDigit, decimal-Leads}
unfoldable pub use Read.{is_digit, is_space, strip, py_int}
pub use Read.{
  py_int-decimal, py_int-plus_decimal, py_int-padded, py_int-dashes, py_int-str_int, of_decimal,
}
