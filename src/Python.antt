-- ===== src/Python.antt =====
-- What the program uses of Python itself: numbers, exceptions, JSON values and dictionaries.
mod Numbers
pub mod Integers
mod Exceptions
mod Json
pub mod Text
mod Dates
pub mod Extrema
pub use Numbers.*
pub use Dates.*
unfoldable pub use Exceptions.*
unfoldable pub use Json.*
