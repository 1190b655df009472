-- ===== src/Kernel/Descriptors/Sharing.antt =====
-- Descriptors that come in pairs or all together: `sys_pipe` of kernel/sysfile.c with `pipealloc` of
-- kernel/pipe.c, and the loops of `fork` and `exit` of kernel/proc.c over the descriptors.
use base_system.Base.{
  ℕ, ◌+◌, Bool, true, false, Option, none, some, List, [], ◌∷◌, ◌++◌, if◌then◌else◌, length, ℤ, pos,
  minus_one,
}
use base_system.Kernel.Action.{Action, ok, ◌>>=◌, ◌>>◌, pure, modify}
use base_system.Kernel.Syscall.{argptr}
use base_system.Kernel.Pipe.{pipealloc_init}
use base_system.Kernel.Fs.{put_uint}
use base_system.Kernel.File.{File, Files, fd_pipe, on_file, filealloc, filedup, fileclose}
use base_system.Kernel.Descriptors.{Task, on_files, put_descriptor, fdalloc}

-- An end of the pipe `p`.
abbrev pub pipe_end : ℕ → Bool → Bool → File → File
pipe_end p readable writable x = record x {
  type = fd_pipe;
  readable = readable;
  writable = writable;
  pipe = p;
}

abbrev pub make_pipe : ℕ → ℕ → Files → Files
make_pipe f0 f1 t =
    let p = length t.pipes in
    record (on_file (pipe_end p false true) f1 (on_file (pipe_end p true false) f0 t)) {
      pipes = t.pipes ++ pipealloc_init ∷ [];
    }

-- `pipealloc` with both files; `page` is whether `kalloc` has one.
abbrev pub pipe_of_two : Bool → ℕ → Option ℕ → Action Files (Option (ℕ × ℕ))
pipe_of_two page f0 none = do fileclose f0; pure none
pipe_of_two page f0 (some f1) =
    if page
    then (do modify (make_pipe f0 f1); pure (some (f0, f1)))
    else (do fileclose f0; fileclose f1; pure none)

abbrev pub pipe_of_one : Bool → Option ℕ → Action Files (Option (ℕ × ℕ))
pipe_of_one page none = pure none
pipe_of_one page (some f0) = filealloc >>= pipe_of_two page f0

unfoldable pub pipealloc : Bool → Action Files (Option (ℕ × ℕ))
pipealloc page = filealloc >>= pipe_of_one page

-- `sys_pipe` where a descriptor is missing.
unfoldable pub close_both : ℕ → ℕ → Action Task (Option (ℕ × ℕ))
close_both rf wf = do on_files (fileclose rf); on_files (fileclose wf); pure none

abbrev pub second_descriptor : ℕ → ℕ → ℕ → Option ℕ → Action Task (Option (ℕ × ℕ))
second_descriptor rf wf fd0 none = do modify (put_descriptor fd0 none); close_both rf wf
second_descriptor rf wf fd0 (some fd1) = pure (some (fd0, fd1))

abbrev pub first_descriptor : ℕ → ℕ → Option ℕ → Action Task (Option (ℕ × ℕ))
first_descriptor rf wf none = close_both rf wf
first_descriptor rf wf (some fd0) = fdalloc wf >>= second_descriptor rf wf fd0

abbrev pub two_descriptors : Option (ℕ × ℕ) → Action Task (Option (ℕ × ℕ))
two_descriptors none = pure none
two_descriptors (some (rf, wf)) = fdalloc rf >>= first_descriptor rf wf

-- `fd[0]` and `fd[1]`
abbrev pub store_pair : ℕ → Option (ℕ × ℕ) → Action Task ℤ
store_pair p none = pure minus_one
store_pair p (some (fd0, fd1)) = do
  modify (λ t. record t {
    user = record (t.user) { memory = put_uint (p + 4) fd1 (put_uint p fd0 t.user.memory) };
  })
  pure (pos 0)

unfoldable pub open_pipe : Bool → Action Task (Option (ℕ × ℕ))
open_pipe page = on_files (pipealloc page) >>= two_descriptors

unfoldable pub sys_pipe : Bool → Action Task ℤ
sys_pipe page t = elim (argptr t.user 0 8) [
  | none ↦ (ok minus_one, t)
  | some p ↦ (open_pipe page >>= store_pair p) t
]

-- The loop of `fork` over the descriptors: the second list is the child's `ofile`, and so is the result.
unfoldable pub dup_all : List (Option ℕ) → List (Option ℕ) → Action Files (List (Option ℕ))
dup_all (none ∷ ofile) (g ∷ child) = do rest ← dup_all ofile child; pure (g ∷ rest)
dup_all (some f ∷ ofile) (g ∷ child) = do
  filedup f
  rest ← dup_all ofile child
  pure (some f ∷ rest)
dup_all _ child = pure child

-- The loop of `exit` over the descriptors, each of which is null afterwards.
unfoldable pub close_all : List (Option ℕ) → Action Files (Unit {0})
close_all [] = pure tt
close_all (none ∷ ofile) = close_all ofile
close_all (some f ∷ ofile) = do fileclose f; close_all ofile
