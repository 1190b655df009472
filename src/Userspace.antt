-- ===== src/Userspace.antt =====
-- userspace/: programs and their small C library.
pub mod Grep
pub mod Base64
pub mod Shell
