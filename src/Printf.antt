-- ===== src/Printf.antt =====
-- libc/src/printf.c: formatted output through a function that takes one character.
pub mod Output
pub mod Integer
pub mod Format
pub mod Double
pub mod Convert
