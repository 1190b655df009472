-- ===== src/Kernel.antt =====
-- kernel/: the parts of the kernel that are modelled.
pub mod Action
pub mod Pipe
pub mod Bio
pub mod Log
pub mod Proc
pub mod Path
pub mod Text
pub mod Pages
pub mod Spinlock
pub mod Fs
pub mod Sysfile
pub mod Syscall
pub mod File
pub mod Vm
pub mod Tty
pub mod Descriptors
