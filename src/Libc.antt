-- ===== src/Libc.antt =====
-- common/linux/linux_libc_support.cc: the replacements for libc functions that the crashing
-- process calls. Memory at a pointer is the list of its bytes up to the end of the object, so that
-- a read past the end is `none`. `c_string` is what a C string at such a pointer holds.
pub mod Text
pub mod Number
pub mod Copy
mod Runs
