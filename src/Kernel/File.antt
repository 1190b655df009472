-- ===== src/Kernel/File.antt =====
-- kernel/file.c: the table of open files, over the inodes and the pipes. `ftable.lock` makes each change of
-- the table one step; what follows it in `fileclose` works on a copy of the file.
pub mod Counts
mod Tests
use base_system.Base.{
  ℕ, zero, suc, ◌+◌, ◌-◌, ◌*◌, ◌/◌, ◌%◌, ◌^◌, ℤ, pos, negsuc, minus_one, Bool, true, false, not,
  ◌&&◌, ◌||◌, Option, none, some, List, [], ◌∷◌, ◌==◌, leb, ltb, if◌then◌else◌, get_or, set, length,
  take, drop, min,
}
use base_system.Kernel.Action.{Action, ok, panic, ◌>>=◌, ◌>>◌, pure, gets, modify, panic_if}
use base_system.Kernel.Pipe.{
  Pipe, pipealloc_init, pipeclose, Outcome, returned, on_nread, piperead, pipewrite,
}
use base_system.Kernel.Pipe.Fifo.{pipe_of}
use base_system.Kernel.Fs.{Fs}
use base_system.Kernel.Fs.Inodes.{inode_at, ilock, iunlock}
use base_system.Kernel.Fs.Content.{
  Stat, stati, Io, refused, device, moved, readi, writei, iput, uint_sum,
}

-- The type of a file.
pub data FileType : Type 0 where
  fd_none fd_pipe fd_inode : FileType

-- `struct file`; the pointers are indices.
pub record File : Type 0 where
  pub type : FileType
  pub ref : ℕ
  pub readable : Bool
  pub writable : Bool
  pub pipe : ℕ
  pub ip : ℕ
  pub off : ℕ

-- `ftable.file`, and what its files are open on.
pub record Files : Type 0 where
  pub fs : Fs
  pub pipes : List Pipe
  pub table : List File

abbrev pub no_file : File
no_file = record {
  type = fd_none;
  ref = 0;
  readable = false;
  writable = false;
  pipe = 0;
  ip = 0;
  off = 0;
}

abbrev pub file_at : Files → ℕ → File
file_at t f = get_or t.table f no_file

abbrev pub on_file : (File → File) → ℕ → Files → Files
on_file g f t = record t { table = set t.table f (g (file_at t f)) }

-- A call of the file system.
abbrev pub on_fs : {A : Type 0} → Action Fs A → Action Files A
on_fs m t = ((m t.fs).0, record t { fs = (m t.fs).1 })

-- The loop of `filealloc` from index `f` on.
unfoldable pub unused_file : ℕ → List File → Option ℕ
unused_file f [] = none
unused_file f (x ∷ table) =
    let rest = unused_file (f + 1) table in if x.ref == 0 then some f else rest

unfoldable pub filealloc : Action Files (Option ℕ)
filealloc t = elim (unused_file 0 t.table) [
  | none ↦ (ok none, t)
  | some f ↦ (ok (some f), on_file (λ x. record x { ref = 1 }) f t)
]

unfoldable pub filedup : ℕ → Action Files ℕ
filedup f = do
  x ← gets (λ t. file_at t f)
  panic_if (ltb x.ref 1)
  modify (on_file (λ y. record y { ref = y.ref + 1 }) f)
  pure f

-- `pipeclose` of a file's pipe.
abbrev pub close_pipe : File → Files → Files
close_pipe x t = record t {
  pipes = set t.pipes x.pipe (pipeclose (get_or t.pipes x.pipe pipealloc_init) x.writable).0;
}

-- What `fileclose` does with the copy `ff`.
abbrev pub close_last : File → FileType → Action Files (Unit {0})
close_last x fd_none = pure tt
close_last x fd_pipe = modify (close_pipe x)
close_last x fd_inode = on_fs (iput x.ip)

unfoldable pub fileclose : ℕ → Action Files (Unit {0})
fileclose f = do
  x ← gets (λ t. file_at t f)
  panic_if (ltb x.ref 1)
  modify (on_file (λ y. record y { ref = y.ref - 1 }) f)
  if ltb 0 (x.ref - 1)
      then pure tt
      else (do modify (on_file (λ y. record y { ref = 0; type = fd_none }) f); close_last x x.type)

-- `filestat`; none is the result -1.
abbrev pub stat_of : File → FileType → Action Files (Option Stat)
stat_of x fd_none = pure none
stat_of x fd_pipe = pure none
stat_of x fd_inode = do
  on_fs (ilock x.ip)
  st ← gets (λ t. stati (inode_at t.fs x.ip))
  on_fs (iunlock x.ip)
  pure (some st)

unfoldable pub filestat : ℕ → Action Files (Option Stat)
filestat f = do x ← gets (λ t. file_at t f); stat_of x x.type

-- What `fileread` returns: -1, what the pipe answers, or what `readi` returns.
pub data FileRead : Type 0 where
  unreadable : FileRead
  from_pipe : Outcome → FileRead
  from_inode : Io (List ℕ) → FileRead

-- An `int` from its 32 bits, 0 for a negative one: how far a result moves the offset, or a count of bytes.
abbrev pub step_of : ℕ → ℕ
step_of r = if ltb r (2 ^ 31) then r else 0

abbrev pub read_step : Io (List ℕ) → ℕ
read_step refused = 0
read_step (device r) = step_of r
read_step (moved bytes) = step_of (length bytes)

abbrev pub read_of : (ℕ → Option ℕ) → Bool → ℕ → File → ℕ → FileType → Action Files FileRead
read_of devices killed f x n fd_none = λ t. (panic, t)
read_of devices killed f x n fd_pipe = do
  o ← gets (λ t. piperead killed (get_or t.pipes x.pipe pipealloc_init) (step_of n))
  modify (λ t. record t { pipes = set t.pipes x.pipe (pipe_of o) })
  pure (from_pipe o)
read_of devices killed f x n fd_inode = do
  on_fs (ilock x.ip)
  r ← on_fs (readi devices x.ip x.off n)
  modify (on_file (λ y. record y { off = uint_sum y.off (read_step r) }) f)
  on_fs (iunlock x.ip)
  pure (from_inode r)

-- `fileread`; `n` is the 32 bits of the count. A pipe that is asleep goes on with the call when it is
-- woken.
unfoldable pub fileread : (ℕ → Option ℕ) → Bool → ℕ → ℕ → Action Files FileRead
fileread devices killed f n = do
  x ← gets (λ t. file_at t f)
  if x.readable then read_of devices killed f x n x.type else pure unreadable

-- `max`, the bytes of a transaction: `(LOGSIZE-1-1-2) / 2 * 512`
abbrev pub max_write : ℕ
max_write = (10 - 1 - 1 - 2) / 2 * 512

-- The result `r` of `writei`, none if it is negative.
abbrev pub written : Io ℕ → Option ℕ
written refused = none
written (device r) = if ltb r (2 ^ 31) then some r else none
written (moved n) = some n

abbrev pub get_some : Option ℕ → ℕ
get_some none = 0
get_some (some r) = r

-- The end of a round of `filewrite` for `n1` bytes: whether the loop goes on.
abbrev pub end_round : ℕ → Option ℕ → Action Files Bool
end_round n1 none t = (ok false, t)
end_round n1 (some r) t = if r == n1 then (ok true, t) else (panic, t)

-- The loop of `filewrite`: whether it wrote all the bytes. A round writes one of them at least.
unfoldable pub write_loop : ℕ → (ℕ → Option ℕ) → ℕ → ℕ → List ℕ → Action Files Bool
write_loop zero devices f ip src = pure true
write_loop (suc k) devices f ip src =
    let now = take max_write src in
    let rest = write_loop k devices f ip (drop max_write src) in
    if length src == 0 then pure true else (do
      on_fs (ilock ip)
      x ← gets (λ t. file_at t f)
      r ← on_fs (writei devices ip now x.off)
      modify (on_file (λ y. record y { off = uint_sum y.off (get_some (written r)) }) f)
      on_fs (iunlock ip)
      more ← end_round (length now) (written r)
      if more then rest else pure false)

-- What `filewrite` returns.
pub data FileWrite : Type 0 where
  wrote : ℤ → FileWrite
  into_pipe : Outcome → FileWrite

abbrev pub write_of : (ℕ → Option ℕ) → Bool → ℕ → File → List ℕ → FileType → Action Files FileWrite
write_of devices killed f x src fd_none = λ t. (panic, t)
write_of devices killed f x src fd_pipe = do
  o ← gets (λ t. pipewrite killed (get_or t.pipes x.pipe pipealloc_init) src)
  modify (λ t. record t { pipes = set t.pipes x.pipe (pipe_of o) })
  pure (into_pipe o)
write_of devices killed f x src fd_inode = do
  all ← write_loop (length src) devices f x.ip src
  pure (wrote (if all then pos (length src) else minus_one))

-- `filewrite` of a count that is negative, as its 32 bits: no byte is written. A pipe returns the count
-- and wakes its readers.
unfoldable pub filewrite_negative : ℕ → ℕ → Action Files FileWrite
filewrite_negative f n t =
    let x = file_at t f in
    let p = get_or t.pipes x.pipe pipealloc_init in
    (
      if x.writable
          then elim x.type [
            | fd_none ↦ panic
            | fd_pipe ↦ ok (into_pipe (returned (negsuc (2 ^ 32 - 1 - n)) [] p (on_nread ∷ [])))
            | fd_inode ↦ ok (wrote minus_one)
          ]
          else ok (wrote minus_one),
      t,
    )

-- `filewrite` of the bytes `src`, whose count is not negative.
unfoldable pub filewrite : (ℕ → Option ℕ) → Bool → ℕ → List ℕ → Action Files FileWrite
filewrite devices killed f src = do
  x ← gets (λ t. file_at t f)
  if x.writable then write_of devices killed f x src x.type else pure (wrote minus_one)
