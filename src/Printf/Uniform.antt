-- ===== src/Printf/Uniform.antt =====
-- The functions of common/libc/vsnprintf.c put out a text that does not depend on the buffer.
pub mod Parts
pub mod Pointers
pub mod Reads
pub mod Loop
use xtf.Base.{ℕ}
