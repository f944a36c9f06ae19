-- ===== src/Text.antt =====
-- The C library's text functions that the program calls, over lists of character codes: a C string
-- is the list of its bytes before the terminator. `Format` is the conversions of snprintf,
-- `Scan` is sscanf and strtol, `Radix` strtol in other bases, `Float` strtof.
pub mod Format
pub mod Scan
pub mod Radix
pub mod Numerals
pub mod Digits
pub mod Literal
pub mod Float
