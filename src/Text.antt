-- ===== src/Text.antt =====
-- Go strings: sequences of bytes, with the operations of Go's `strings` and `unicode/utf8` that
-- the program calls. A byte is a number below 256.
mod Defs
pub mod Utf8
pub mod Base64
pub mod Cut
pub mod Decimal
unfoldable pub use Defs.*
