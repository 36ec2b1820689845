-- ===== src/Stdio.antt =====
-- libc/src/stdio.c: buffered files. `Types` has the structures and the kernel's side of a file
-- descriptor, `Output` the functions that write and `Input` those that read.
pub mod Types
pub mod Output
pub mod Input
pub mod Formatted
mod Tests
