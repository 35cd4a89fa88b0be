-- ===== src/Go.antt =====
-- What the driver uses of Go: errors as values, calls that change state, decimal numbers.
mod Errors
mod Effects
pub mod Text
pub mod Os
pub mod Path
pub mod Preserves
pub mod Keeps
pub mod Inversion
pub mod Decimal
pub use Errors.*
pub use Effects.*
