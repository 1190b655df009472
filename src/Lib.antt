-- ===== src/Lib.antt =====
-- Verification of base-system, a small Unix-like kernel for x86 with its user programs.
--
-- The kernel (kernel/) keeps a table of processes, a list of free pages, a cache of disk buffers, a
-- redo log over it, and a file system on the log; pipes and system calls connect it with the
-- programs of userspace/. This library models these parts, as functions from a state to a state:
--
-- Kernel/Action: a computation on a state that returns, panics, or sleeps (`panic` and `sleep`). The
-- state that it made so far is kept.
-- Kernel/Pipe: kernel/pipe.c. `Pipe` is `struct pipe`, with its two `uint` counters that wrap around
-- at 2^32. The children Fifo and Transfer relate it to a queue.
-- Kernel/Bio: kernel/bio.c, and kernel/memdisk.c below it. `Cache` is `bcache` in the order of the
-- LRU list; a pointer to a buffer in use is its device and sector. The disk is the sequence of the
-- sector writes over an image, so that a crash is a suffix of it (Kernel/Log/Replay).
-- Kernel/Log: kernel/log.c over Kernel/Bio. `Log` is `struct log` with its header. The children
-- follow the calls: Header (the header's layout), Copy and Install (`install_trans`), Commit
-- (`commit_trans`), Recover (`recover_from_log`), Writes (what both write, word by word), Boot (the
-- state at a restart), Atomic (a crash in between).
-- Kernel/Proc: kernel/proc.c. `Table` is `ptable`, `nextpid` and `initproc`; a pid is the 32 bits of
-- its `int`, and a pointer to a process is its index. `Step` is any call on the table and `Reach` a sequence of calls.
-- Kernel/Fs: kernel/fs.c on the logical blocks of a transaction whose log has room for what is
-- written. `Fs` is the disks and `icache`. The
-- children follow its layers: Blocks (the bitmap), Inodes (on the disk and in the cache), Content
-- (`bmap` to `writei`), Dirs (directories and path walks).
-- Kernel/Path: `skipelem` of kernel/fs.c. Kernel/Text: the string functions of kernel/string.c, on a
-- memory of bytes. Kernel/Pages: kernel/kalloc.c.
-- Kernel/File: kernel/file.c, over Kernel/Fs and Kernel/Pipe. `Files` is `ftable` and what its files
-- are open on.
-- Kernel/Sysfile: the calls of kernel/sysfile.c that change directories, over Kernel/Fs.
-- Kernel/Syscall: the arguments of system calls in kernel/syscall.c.
-- Kernel/Spinlock: kernel/spinlock.c. `Step` is one access of a CPU to a lock in `acquire` or
-- `release`.
-- Kernel/Vm: the page tables of kernel/vm.c, in the memory of bytes. Space has the memory of a
-- process; Tree says what the tables map and when they are well-formed, and the other children
-- follow the calls.
-- Kernel/Descriptors: the calls of kernel/sysfile.c on descriptors, over Kernel/File and
-- Kernel/Syscall. `Task` is the table of open files with one process; Sharing has pipes, `fork` and
-- `exit`.
-- Kernel/Tty: kernel/tty.c. `Input` is `input`, and what happens on the screen is a list of events;
-- Window and Editor relate the ring to the lines of an editor (Lines), Reads and Typed a reader to
-- them, and Printf has `cprintf`.
-- Mkfs: mkfs/mkfs.c. `Image` is the disk image with the three counters; it uses the layout of
-- Kernel/Fs.
-- Userspace/Grep: the matcher of userspace/grep.c, against the language of its patterns.
-- Userspace/Shell: the parser of userspace/sh.c, against a printer of commands (Shell/Print).
-- Userspace/Base64: the encoder of userspace/base64.c, against a decoder.
-- Base: what they share.
--
-- Numbers: a `uint` is a number below 2^32 and its wrap-around is written out where the code can
-- reach it. An `int` that the code reads from the disk (`n` of the log's header) is its word, and
-- counts as negative from 2^31 on. Loops are structural recursion on a number of rounds or on a
-- list. These run on fuel: the loop of `freerange` (a round for every page and one more are enough),
-- the shell's parser (a round for every character and one more), the loops of `readi`, `writei` and
-- `filewrite` (one for every byte), those over a directory (one for every entry and one more) and
-- over a path (one for every character), the loops of kernel/vm.c over pages (one for every page of
-- the size and one more), the copying to user memory (one for every byte), kill line (one for every
-- character that is edited) and `iappend` (one for every byte).
--
-- The other modules leave locks and interrupts out: a function that holds its lock from its start to
-- its end is one step. `fork` holds `ptable.lock` only while it takes a slot; later it works on a
-- slot in the state EMBRYO, and it is one step too.
--
-- Not modelled: in Kernel/Fs and what is over it, the panics of `log_write` outside of a transaction
-- and in a full log, and the sleep and the panic of `bread`, since the calls there are taken to be in
-- a transaction with room, whose blocks are at hand; trap frames, registers, the dispatch of system calls, `exec` with `loaduvm`,
-- interrupts and the devices, since they are assembly or port input and output, or are left for
-- later; of the shell, what runs a command; of the terminal, the loop of `consputc` after a panic.
-- What the kernel's other parts return to a function here (a page, a page table) is one of its
-- arguments.
pub mod Base
pub mod Kernel
pub mod Mkfs
pub mod Userspace
