-- ===== src/Text.antt =====
-- What the program uses of Go's `strings`, `bytes`, `unicode` and `unicode/utf8` packages, over byte
-- lists.
pub mod Search
pub mod Replace
pub mod Trim
pub mod Utf8
pub mod Unicode
pub mod Fields
pub mod Base64
