-- ===== src/Text.antt =====
-- Go's strings, as sequences of bytes, and the functions of `strings` that the program calls.
pub mod Bytes
pub mod Split
pub mod Decimal
pub mod Replace
pub mod Sort
