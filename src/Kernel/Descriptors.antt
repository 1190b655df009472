-- ===== src/Kernel/Descriptors.antt =====
-- kernel/sysfile.c: the system calls on file descriptors, with the fetching of their arguments, over
-- the table of open files of Kernel/File; `pipealloc` of kernel/pipe.c; and the loops over the
-- descriptors in `fork` and `exit` of kernel/proc.c. An `int` is its 32 bits. `devices` and `stack`
-- are as in Kernel/Sysfile.
pub mod Sharing
pub mod References
pub mod Calls
pub mod Opens
mod Tests
use base_system.Base.{
  ℕ, zero, suc, ◌+◌, ◌-◌, ◌*◌, ◌/◌, ◌%◌, ◌^◌, Bool, true, false, not, ◌&&◌, ◌||◌, Option, none,
  some, List, [], ◌∷◌, ◌++◌, ◌==◌, leb, ltb, if◌then◌else◌, get_or, set, length, ℤ, pos, minus_one,
}
use base_system.Kernel.Action.{Action, ok, panic, ◌>>=◌, ◌>>◌, pure, gets, modify, panic_if}
use base_system.Kernel.Text.{Memory}
use base_system.Kernel.Syscall.{User, argint, argptr, argstr}
use base_system.Kernel.Pipe.{pipealloc_init, returned, asleep, Outcome}
use base_system.Kernel.Fs.{Fs}
use base_system.Kernel.Fs.Inodes.{inode_at, ilock, iunlock}
use base_system.Kernel.Fs.Content.{
  Stat, t_dir, t_file, t_dev, moved, iunlockput, uint_sum, write_bytes,
}
use base_system.Kernel.Fs.Dirs.{namei}
use base_system.Kernel.Sysfile.{Caller, create}
use base_system.Kernel.File.{
  File, Files, fd_pipe, fd_inode, no_file, file_at, on_file, on_fs, filealloc, filedup, fileclose,
  filestat, FileRead, unreadable, from_pipe, from_inode, fileread, FileWrite, filewrite,
  filewrite_negative,
}

abbrev pub nofile : ℕ
nofile = 16

-- The table of open files, and a process: `ofile`, its memory and registers, and who it is.
pub record Task : Type 0 where
  pub files : Files
  pub ofile : List (Option ℕ)
  pub user : User
  pub caller : Caller

abbrev pub on_files : {A : Type 0} → Action Files A → Action Task A
on_files m t = ((m t.files).0, record t { files = (m t.files).1 })

-- `argfd`: the descriptor and the file.
unfoldable pub argfd : ℕ → Task → Option (ℕ × ℕ)
argfd n t = elim (argint t.user n) [
  | none ↦ none
  | some fd ↦
      (if leb (2 ^ 31) fd || leb nofile fd
        then none
        else elim (get_or t.ofile fd none) [ none ↦ none | some f ↦ some (fd, f) ])
]

-- The loop of `fdalloc` from the descriptor `fd` on.
unfoldable pub free_descriptor : ℕ → List (Option ℕ) → Option ℕ
free_descriptor fd [] = none
free_descriptor fd (none ∷ ofile) = some fd
free_descriptor fd (some f ∷ ofile) = free_descriptor (fd + 1) ofile

abbrev pub put_descriptor : ℕ → Option ℕ → Task → Task
put_descriptor fd f t = record t { ofile = set t.ofile fd f }

abbrev pub descriptor_for : ℕ → Option ℕ → Action Task (Option ℕ)
descriptor_for f none t = (ok none, t)
descriptor_for f (some fd) t = (ok (some fd), put_descriptor fd (some f) t)

unfoldable pub fdalloc : ℕ → Action Task (Option ℕ)
fdalloc f t = descriptor_for f (free_descriptor 0 t.ofile) t

-- `sys_dup` of the file `f`.
unfoldable pub dup_file : ℕ → Action Task ℤ
dup_file f = do
  fd ← fdalloc f
  elim fd [ none ↦ pure minus_one | some n ↦ (do on_files (filedup f); pure (pos n)) ]

unfoldable pub sys_dup : Action Task ℤ
sys_dup t = elim (argfd 0 t) [ none ↦ (ok minus_one, t) | some (fd, f) ↦ dup_file f t ]

-- The three arguments of `sys_read` and `sys_write`: the file, the address and the count.
abbrev pub argbuf : Task → Option (ℕ × ℕ × ℕ)
argbuf t = elim (argfd 0 t) [
  | none ↦ none
  | some (fd, f) ↦ elim (argint t.user 2) [
    | none ↦ none
    | some n ↦ elim (argptr t.user 1 n) [ none ↦ none | some p ↦ some (f, p, n) ]
  ]
]

-- The bytes that a read copies out. A device writes to memory by itself.
abbrev pub received : FileRead → List ℕ
received (from_pipe (returned r bytes p woken)) = bytes
received (from_inode (moved bytes)) = bytes
received r = []

abbrev pub store_bytes : ℕ → List ℕ → Task → Task
store_bytes p bytes t = record t {
  user = record (t.user) { memory = write_bytes bytes p t.user.memory };
}

unfoldable pub read_file : (ℕ → Option ℕ) → Bool → ℕ → ℕ → ℕ → Action Task FileRead
read_file devices killed f p n = do
  r ← on_files (fileread devices killed f n)
  modify (store_bytes p (received r))
  pure r

-- `sys_read`; `unreadable` is the result -1.
unfoldable pub sys_read : (ℕ → Option ℕ) → Bool → Action Task FileRead
sys_read devices killed t = elim (argbuf t) [
  | none ↦ (ok unreadable, t)
  | some (f, p, n) ↦ read_file devices killed f p n t
]

-- The `n` bytes at an address.
abbrev pub bytes_at : Memory → ℕ → ℕ → List ℕ
bytes_at m p zero = []
bytes_at m p (suc n) = m p ∷ bytes_at m (p + 1) n

-- `filewrite` of the `n` bytes at `p`, where `n` is the 32 bits of an `int`.
unfoldable pub write_file : (ℕ → Option ℕ) → Bool → ℕ → Memory → ℕ → ℕ → Action Files FileWrite
write_file devices killed f m p n =
    if leb (2 ^ 31) n then filewrite_negative f n else filewrite devices killed f (bytes_at m p n)

-- `sys_write`; none is the result -1.
unfoldable pub sys_write : (ℕ → Option ℕ) → Bool → Action Task (Option FileWrite)
sys_write devices killed t = elim (argbuf t) [
  | none ↦ (ok none, t)
  | some (f, p, n) ↦
      (do r ← on_files (write_file devices killed f t.user.memory p n); pure (some r)) t
]

-- `sys_lseek` after its arguments; another `base` changes nothing.
abbrev pub seek : ℕ → ℕ → File → File
seek offset base x =
    if base == 0
    then record x { off = offset }
    else if base == 1
    then record x { off = uint_sum x.off offset }
    else x

unfoldable pub sys_lseek : Action Task ℤ
sys_lseek t = elim (argfd 0 t) [
  | none ↦ (ok minus_one, t)
  | some (fd, f) ↦ elim (argint t.user 1) [
    | none ↦ (ok minus_one, t)
    | some offset ↦ elim (argint t.user 2) [
      | none ↦ (ok minus_one, t)
      | some base ↦ (ok (pos 0), record t { files = on_file (seek offset base) f t.files })
    ]
  ]
]

unfoldable pub close_descriptor : ℕ → ℕ → Action Task ℤ
close_descriptor fd f = do modify (put_descriptor fd none); on_files (fileclose f); pure (pos 0)

unfoldable pub sys_close : Action Task ℤ
sys_close t = elim (argfd 0 t) [ none ↦ (ok minus_one, t) | some (fd, f) ↦ close_descriptor fd f t ]

-- `sys_fstat`: what goes to the address, if any. A `struct stat` has 20 bytes.
unfoldable pub sys_fstat : Action Task (Option (ℕ × Stat))
sys_fstat t = elim (argfd 0 t) [
  | none ↦ (ok none, t)
  | some (fd, f) ↦ elim (argptr t.user 1 20) [
    | none ↦ (ok none, t)
    | some p ↦
        (do st ← on_files (filestat f); pure (elim st [ none ↦ none | some x ↦ some (p, x) ])) t
  ]
]

-- `filealloc` and `fdalloc` of `sys_open`, and the `fileclose` if the second fails.
abbrev pub descriptor_or_close : ℕ → Option ℕ → Action Task (Option (ℕ × ℕ))
descriptor_or_close f none = do on_files (fileclose f); pure none
descriptor_or_close f (some fd) = pure (some (fd, f))

abbrev pub descriptor_of : Option ℕ → Action Task (Option (ℕ × ℕ))
descriptor_of none = pure none
descriptor_of (some f) = fdalloc f >>= descriptor_or_close f

unfoldable pub open_file : Action Task (Option (ℕ × ℕ))
open_file = on_files filealloc >>= descriptor_of

-- `O_CREAT`, `O_WRONLY` and `O_RDWR`
abbrev pub o_creat : ℕ → Bool
o_creat omode = omode / 256 % 2 == 1

abbrev pub o_wronly : ℕ → Bool
o_wronly omode = omode % 2 == 1

abbrev pub o_rdwr : ℕ → Bool
o_rdwr omode = omode / 2 % 2 == 1

-- The fields of the file that `sys_open` sets: `owned` is that the user is root or owns the inode.
abbrev pub opened : ℕ → ℕ → Bool → File → File
opened i omode owned x = record x {
  type = fd_inode;
  ip = i;
  off = 0;
  readable = not (o_wronly omode);
  writable = (o_wronly omode || o_rdwr omode) && owned;
}

-- The end of `sys_open` of the locked inode `i`.
abbrev pub open_end : ℕ → ℕ → Option (ℕ × ℕ) → Action Task ℤ
open_end i omode none = do on_files (on_fs (iunlockput i)); pure minus_one
open_end i omode (some (fd, f)) = do
  on_files (on_fs (iunlock i))
  modify (λ t.
      let ip = inode_at t.files.fs i in
      record t {
        files = on_file (opened i omode (t.caller.uid == 0 || ip.uid == t.caller.uid)) f t.files;
      })
  pure (pos fd)

unfoldable pub open_inode : ℕ → ℕ → Action Task ℤ
open_inode omode i = open_file >>= open_end i omode

-- The first look at the path: a device is not created.
unfoldable pub creat_mode : ℕ → Option ℕ → Action Fs ℕ
creat_mode omode none = pure omode
creat_mode omode (some i) = do
  ilock i
  ip ← gets (λ s. inode_at s i)
  iunlockput i
  pure (if ip.type == t_dev && o_creat omode then omode - 256 else omode)

-- The inode that `sys_open` opens, locked; none is the result -1.
unfoldable pub lock_found : ℕ → Option ℕ → Action Fs (Option ℕ)
lock_found omode none = pure none
lock_found omode (some i) = do
  ilock i
  ip ← gets (λ s. inode_at s i)
  if ip.type == t_dir && not (omode == 0) then (do iunlockput i; pure none) else pure (some i)

unfoldable pub inode_to_open :
    (ℕ → Option ℕ) → Caller → List ℕ → ℕ → List ℕ → Action Fs (Option ℕ × ℕ)
inode_to_open devices caller path omode0 stack = do
  first ← namei devices caller.cwd path stack
  omode ← creat_mode omode0 first
  i ←
      if o_creat omode
      then create devices caller path t_file 0 0 stack
      else namei devices caller.cwd path stack >>= lock_found omode
  pure (i, omode)

-- `sys_open` after its arguments.
abbrev pub open_found : Option ℕ × ℕ → Action Task ℤ
open_found (none, omode) = pure minus_one
open_found (some i, omode) = open_inode omode i

unfoldable pub open_path : (ℕ → Option ℕ) → List ℕ → ℕ → List ℕ → Action Task ℤ
open_path devices path omode stack = do
  caller ← gets (λ t. t.caller)
  found ← on_files (on_fs (inode_to_open devices caller path omode stack))
  open_found found

unfoldable pub sys_open : (ℕ → Option ℕ) → List ℕ → Action Task ℤ
sys_open devices stack t = elim (argstr t.user 0) [
  | none ↦ (ok minus_one, t)
  | some (p, len) ↦ elim (argint t.user 1) [
    | none ↦ (ok minus_one, t)
    | some omode ↦ open_path devices (bytes_at t.user.memory p len) omode stack t
  ]
]
