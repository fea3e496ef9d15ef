-- ===== src/Printf.antt =====
-- common/libc/vsnprintf.c, the formatted output of the framework.
pub mod Out
pub mod Number
pub mod Writer
pub mod Str
pub mod Pointer
pub mod Parse
pub mod Format
pub mod Uniform
pub mod Buffer
pub mod Contract
