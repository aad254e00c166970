-- ===== src/Text.antt =====
-- What the program uses of the package `strings`.
pub mod Trim
pub mod Case
pub mod Affix
pub mod Order
pub mod Struct
pub mod Digits
