-- ===== src/Kernel/Pipe/Transfer.antt =====
-- `pipewrite`, `piperead` and sequences of calls of kernel/pipe.c, on the queue in the pipe.
use base_system.Base.{
  ℕ, ◌-◌, min, ◌≡◌, refl, Bool, true, false, not, ◌&&◌, List, [], ◌∷◌, ◌++◌, append_assoc, arith,
  if◌then◌else◌, length, take, pos, minus_one, ◌==◌,
}
use base_system.Kernel.Pipe.{
  Pipe, Outcome, returned, asleep, on_nread, on_nwrite, pipesize, pipewrite, piperead, pipeclose,
  pipealloc_init,
}
use base_system.Kernel.Pipe.Fifo.{
  IsValid, used, contents, pipe_of, write_answer, pipewrite_from-Wrote, piperead_copy-Copied,
  contents-empty,
}

-- `pipewrite` appends as many of the bytes as fit to the queue and nothing else. It returns the
-- count if all fit, fails if the queue fills up and the reader is gone or the process killed, and
-- otherwise sleeps at the index of the first byte that does not fit.
pub pipewrite_transfer :
    (killed : Bool) (p : Pipe) (src : List ℕ)
    → IsValid p
    → let o = pipewrite killed p src in
      let room = pipesize - used p in
      IsValid (pipe_of o)
      × (contents (pipe_of o) ≡ contents p ++ take room src)
      × (o ≡ write_answer killed 0 (length src) room (pipe_of o))
unfolding pipewrite
pipewrite_transfer killed p src v =
    let w = pipewrite_from-Wrote killed 0 p src v in (w.valid, w.bytes, w.answer)

abbrev pub bytes_of : Outcome → List ℕ
bytes_of (returned r bs p woken) = bs
bytes_of (asleep ch i p woken) = []

-- What `piperead` answers when it takes the bytes `bs` from a queue of `k` bytes.
abbrev pub read_answer : Bool → ℕ → Pipe → List ℕ → Pipe → Outcome
read_answer killed k p bs p' =
    if k == 0 && p.writeopen
    then if killed then returned minus_one [] p' [] else asleep on_nread 0 p' []
    else returned (pos (length bs)) bs p' (on_nwrite ∷ [])

empty_used : (p : Pipe) → IsValid p → (p.nread == p.nwrite) ≡ (used p == 0)
empty_used p v = ground arith

-- `piperead` takes a prefix of the queue, of the length asked for or the whole queue; it sleeps, or
-- fails if killed, exactly when the queue is empty and the writer still there.
pub piperead_transfer :
    (killed : Bool) (p : Pipe) (n : ℕ)
    → IsValid p
    → let o = piperead killed p n in
      IsValid (pipe_of o)
      × (contents p ≡ bytes_of o ++ contents (pipe_of o))
      × (length (bytes_of o) ≡ min n (used p))
      × (o ≡ read_answer killed (used p) p (bytes_of o) (pipe_of o))
unfolding piperead
piperead_transfer killed p n v =
    ground (arith, piperead_copy-Copied n p v, contents-empty p v.nread_in, empty_used p v)

-- The calls that any number of processes make on one pipe, in the order in which they get its lock.
-- A sleeper that goes on is a new call with the bytes that it has left.
pub data Call : Type 0 where
  write : Bool → List ℕ → Call
  read : Bool → ℕ → Call
  close : Bool → Call

-- The pipe after the calls, the bytes that went in and those that came out.
pub record Traffic : Type 0 where
  pub pipe : Pipe
  pub accepted : List ℕ
  pub delivered : List ℕ

abbrev serve : Traffic → Call → Traffic
serve t (write killed src) = record {
  pipe = pipe_of (pipewrite killed t.pipe src);
  accepted = t.accepted ++ take (pipesize - used t.pipe) src;
  delivered = t.delivered;
}
serve t (read killed n) = record {
  pipe = pipe_of (piperead killed t.pipe n);
  accepted = t.accepted;
  delivered = t.delivered ++ bytes_of (piperead killed t.pipe n);
}
serve t (close writable) = record t { pipe = (pipeclose t.pipe writable).0 }

unfoldable pub run : Traffic → List Call → Traffic
run t [] = t
run t (c ∷ cs) = run (serve t c) cs

abbrev pub start : Traffic
start = record { pipe = pipealloc_init; accepted = []; delivered = [] }

pub record InOrder (t : Traffic) : Type 0 where
  pub valid : IsValid t.pipe
  pub order : t.accepted ≡ t.delivered ++ contents t.pipe

serve-InOrder : (t : Traffic) (c : Call) → InOrder t → InOrder (serve t c)
serve-InOrder t (write killed src) h =
    let w = pipewrite_transfer killed t.pipe src h.valid in
    record { valid = w.0; order = rw (w.1, h.order, append_assoc) }
serve-InOrder t (read killed n) h =
    let r = piperead_transfer killed t.pipe n h.valid in
    record { valid = r.0; order = rw (h.order, append_assoc, ← r.1) }
serve-InOrder t (close true) h =
    unfold pipeclose in record { valid = ground arith; order = h.order }
serve-InOrder t (close false) h =
    unfold pipeclose in record { valid = ground arith; order = h.order }

run-InOrder : (cs : List Call) (t : Traffic) → InOrder t → InOrder (run t cs)
unfolding run
run-InOrder [] t h = h
run-InOrder (c ∷ cs) t h = run-InOrder cs (serve t c) (serve-InOrder t c h)

start-InOrder : InOrder start
unfolding pipealloc_init
start-InOrder = record { valid = omega arith; order = refl }

-- For every sequence of calls on a new pipe, the bytes that came out followed by those still in the
-- pipe are the bytes that went in, in order, also after the counters have wrapped.
pub run_fifo :
    (cs : List Call) → let t = run start cs in t.accepted ≡ t.delivered ++ contents t.pipe
run_fifo cs = (run-InOrder cs start start-InOrder).order

-- `pipeclose` frees the page exactly when the call closes the last open end, and wakes the other end.
pub pipeclose_lem :
    (p : Pipe) (writable : Bool)
    → let (p', woken, freed) = pipeclose p writable in
      (p'.readopen ≡ (p.readopen && writable))
      × (p'.writeopen ≡ (p.writeopen && not writable))
      × (freed ≡ (not p'.readopen && not p'.writeopen))
      × (contents p' ≡ contents p)
      × (woken ≡ (if writable then on_nread ∷ [] else on_nwrite ∷ []))
unfolding pipeclose
pipeclose_lem p writable = ground arith
