-- ===== src/Kernel/Fs/Blocks/Release.antt =====
-- `bfree` of kernel/fs.c on the bitmap of free blocks.
use base_system.Kernel.Fs.{Fs}
