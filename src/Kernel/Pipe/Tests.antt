-- ===== src/Kernel/Pipe/Tests.antt =====
-- Runs of kernel/pipe.c at concrete inputs.
use base_system.Base.{◌≡◌, refl, true, false, List, [], ◌∷◌, ◌++◌, arith, replicate, pos}
use base_system.Kernel.Pipe.{
  Pipe, returned, on_nread, pipewrite, piperead, pipeclose, pipealloc_init,
}
use base_system.Kernel.Pipe.Fifo.{IsValid, contents}
use base_system.Kernel.Pipe.Transfer.{Call, write, read, close, run, start, run_fifo}

-- Two bytes, 7 and 8, in a pipe whose write counter is about to wrap.
abbrev wrapping : Pipe
wrapping = record {
  bytes = replicate 510 0 ++ 7 ∷ 8 ∷ [];
  nread = 4294967294;
  nwrite = 0;
  readopen = true;
  writeopen = true;
}

wrapping-IsValid : IsValid wrapping
wrapping-IsValid = record {
  storage = refl;
  nread_in = omega arith;
  nwrite_in = omega arith;
  used_in = omega arith;
}

contents-wrapping : contents wrapping ≡ 7 ∷ 8 ∷ []
contents-wrapping = refl

write_wraps :
    pipewrite false wrapping (9 ∷ [])
    ≡ returned
        (pos 1)
        []
        (record wrapping { bytes = 9 ∷ replicate 509 0 ++ 7 ∷ 8 ∷ []; nwrite = 1 })
        (on_nread ∷ [])
unfolding pipewrite
write_wraps = refl

abbrev calls : List Call
calls = write false (1 ∷ 2 ∷ 3 ∷ []) ∷ read false 2 ∷ close true ∷ read false 9 ∷ []

run_fifo_example : let t = run start calls in t.accepted ≡ t.delivered ++ contents t.pipe
run_fifo_example = run_fifo calls

delivered_all : (run start calls).delivered ≡ 1 ∷ 2 ∷ 3 ∷ []
unfolding run pipewrite piperead pipeclose pipealloc_init
delivered_all = refl
