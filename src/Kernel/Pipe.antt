-- ===== src/Kernel/Pipe.antt =====
-- kernel/pipe.c: a byte pipe between a reading and a writing file.
pub mod Fifo
pub mod Transfer
mod Tests
use base_system.Base.{
  ℕ, zero, suc, ◌+◌, ◌-◌, ◌%◌, ◌^◌, ℤ, pos, minus_one, Bool, true, false, not, ◌&&◌, ◌||◌, List, [],
  ◌∷◌, ◌==◌, if◌then◌else◌, get_or, set, replicate, length,
}

abbrev pub pipesize : ℕ
pipesize = 512

-- `uint` counters wrap.
abbrev pub uint_mod : ℕ
uint_mod = 2 ^ 32

-- `struct pipe`. Its lock is held from the start of each function to its end or its sleep, so each
-- function below is one atomic step.
pub record Pipe : Type 0 where
  pub bytes : List ℕ
  pub nread : ℕ
  pub nwrite : ℕ
  pub readopen : Bool
  pub writeopen : Bool

-- The wait channels `&p->nread` and `&p->nwrite`.
pub data Chan : Type 0 where
  on_nread on_nwrite : Chan

-- How a call leaves the pipe: it returned an `int`, having copied out the bytes; or it went to sleep
-- on a channel, having copied `i` bytes in, and goes on from there when woken. The last field lists
-- the channels that it woke.
pub data Outcome : Type 0 where
  returned : ℤ → List ℕ → Pipe → List Chan → Outcome
  asleep : Chan → ℕ → Pipe → List Chan → Outcome

-- The fields that `pipealloc` sets in a new page, whose bytes `kfree` filled with ones.
pub pipealloc_init : Pipe
pipealloc_init = record {
  bytes = replicate pipesize 1;
  nread = 0;
  nwrite = 0;
  readopen = true;
  writeopen = true;
}

-- `p->data[p->nwrite++ % PIPESIZE] = addr[i]`
pub put : Pipe → ℕ → Pipe
put p x = record p {
  bytes = set p.bytes (p.nwrite % pipesize) x;
  nwrite = (p.nwrite + 1) % uint_mod;
}

-- `p->nwrite == p->nread + PIPESIZE`
pub is_full : Pipe → Bool
is_full p = p.nwrite == (p.nread + pipesize) % uint_mod

-- The loop of `pipewrite` at index `i`, with `addr[i..n)` left to write. `killed` is `proc->killed`.
pub pipewrite_from : Bool → ℕ → Pipe → List ℕ → Outcome
pipewrite_from killed i p [] = returned (pos i) [] p (on_nread ∷ [])
pipewrite_from killed i p (x ∷ xs) =
    let rest = pipewrite_from killed (i + 1) (put p x) xs in
    if is_full p
    then if not p.readopen || killed
      then returned minus_one [] p []
      else asleep on_nwrite i p (on_nread ∷ [])
    else rest

pub pipewrite : Bool → Pipe → List ℕ → Outcome
unfolding pipewrite_from put is_full
pipewrite killed p addr = pipewrite_from killed 0 p addr

-- The copy loop of `piperead`: the bytes copied and the pipe after it.
pub piperead_copy : ℕ → Pipe → List ℕ × Pipe
piperead_copy zero p = ([], p)
piperead_copy (suc n) p =
    let rest = piperead_copy n (record p { nread = (p.nread + 1) % uint_mod }) in
    if p.nread == p.nwrite
    then ([], p)
    else (get_or p.bytes (p.nread % pipesize) 0 ∷ rest.0, rest.1)

-- `n` is the requested length; for a negative one the loop copies nothing, as for 0.
pub piperead : Bool → Pipe → ℕ → Outcome
unfolding piperead_copy
piperead killed p n =
    let copied = piperead_copy n p in
    if p.nread == p.nwrite && p.writeopen
    then if killed then returned minus_one [] p [] else asleep on_nread 0 p []
    else returned (pos (length copied.0)) copied.0 copied.1 (on_nwrite ∷ [])

-- The pipe after `pipeclose`, the channels woken, and whether its page is freed.
pub pipeclose : Pipe → Bool → Pipe × List Chan × Bool
pipeclose p writable =
    let p' = if writable then record p { writeopen = false } else record p { readopen = false } in
    (p', if writable then on_nread ∷ [] else on_nwrite ∷ [], not p'.readopen && not p'.writeopen)
