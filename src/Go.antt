-- ===== src/Go.antt =====
-- The functions of Go's standard library that the program calls, over texts as lists of code points.
pub mod Strings
pub mod Decimal
pub mod Duration
pub mod FilePath
pub mod PathMatch
