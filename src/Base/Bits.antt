-- ===== src/Base/Bits.antt =====
-- Laws of `&`, `|` and `^` at variables: each acts on a high and a low field apart.
mod Fields
mod Masks
mod Digits
pub use Fields.{
  IsDigitwise, bit_or-IsDigitwise, bit_and-IsDigitwise, bit_xor-IsDigitwise, zero-or, zero-and,
  zero-xor, op_fields,
}
pub use Masks.*
unfoldable pub use Digits.*
