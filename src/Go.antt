-- ===== src/Go.antt =====
-- What the program uses of Go and its standard library: errors, texts, decimals, and functions that
-- change a state and return a value or an error.
pub mod Errors
pub mod Effects
pub mod Text
pub mod Decimal
pub mod Channel
unfoldable pub use Errors.*
pub use Effects.*
