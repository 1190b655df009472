-- ===== src/Kernel/Pipe/Fifo.antt =====
-- The pipe of kernel/pipe.c seen as a queue of bytes, with its wrapping counters.
use base_system.Base.{
  ℕ, zero, suc, ◌+◌, ◌-◌, ◌%◌, ◌≤◌, ◌<◌, min, ◌≡◌, refl, ap, ap₂, ◌≢◌, Bool, true, false, List, [],
  ◌∷◌, ◌++◌, ◌||◌, not, leb, ◌==◌, if◌then◌else◌, minus_one, append-nil, append_assoc, arith,
  Bool-cases, inl, inr, length, get_or, set, take, take-nil, take-cons, length-set, get_or-set_self,
  get_or-set_ne, pos,
}
use native.Mathlib.Decide.{ℕ_discrete}
use base_system.Kernel.Pipe.{
  Pipe, Outcome, returned, asleep, on_nread, on_nwrite, pipesize, uint_mod, put, is_full,
  pipewrite_from, piperead_copy,
}

-- The number of bytes in the pipe, by the wrapping difference of the counters.
abbrev pub used : Pipe → ℕ
used p = (p.nwrite + uint_mod - p.nread) % uint_mod

pub record IsValid (p : Pipe) : Type 0 where
  pub storage : length p.bytes ≡ pipesize
  pub nread_in : p.nread < uint_mod
  pub nwrite_in : p.nwrite < uint_mod
  pub used_in : used p ≤ pipesize

-- The `n` bytes from counter `r` on.
abbrev pub window : List ℕ → ℕ → ℕ → List ℕ
window bytes r zero = []
window bytes r (suc n) = get_or bytes (r % pipesize) 0 ∷ window bytes ((r + 1) % uint_mod) n

-- The abstract queue, oldest byte first.
abbrev pub contents : Pipe → List ℕ
contents p = window p.bytes p.nread (used p)

length-window : (bytes : List ℕ) (r n : ℕ) → length (window bytes r n) ≡ n
length-window bytes r zero = refl
length-window bytes r (suc n) = ap suc (length-window bytes ((r + 1) % uint_mod) n)

pub length-contents : (p : Pipe) → length (contents p) ≡ used p
length-contents p = length-window p.bytes p.nread (used p)

window_of_ne_zero :
    (bytes : List ℕ) (r n : ℕ)
    → n ≢ 0
    → window bytes r n ≡ get_or bytes (r % pipesize) 0 ∷ window bytes ((r + 1) % uint_mod) (n - 1)
window_of_ne_zero bytes r zero h = absurd (h refl)
window_of_ne_zero bytes r (suc n) h = ap (λ k. window bytes r (suc k)) (omega arith)

window-set :
    (bytes : List ℕ) (x n r w : ℕ)
    → length bytes ≡ pipesize
    → r < uint_mod
    → n < pipesize
    → w ≡ (r + n) % uint_mod
    → window (set bytes (w % pipesize) x) r (suc n) ≡ window bytes r n ++ x ∷ []
window-set bytes x zero r w hs hr hn e =
    let same : w % pipesize ≡ r % pipesize = omega arith in
    rw same (ap (λ b. b ∷ []) (get_or-set_self bytes (r % pipesize) x 0 (omega arith)))
window-set bytes x (suc n) r w hs hr hn e =
    ap₂ ◌∷◌ (get_or-set_ne bytes (w % pipesize) (r % pipesize) x 0 (omega arith))
      (window-set bytes x n ((r + 1) % uint_mod) w hs (omega arith) (omega arith) (omega arith))

put-IsValid : (p : Pipe) (x : ℕ) → IsValid p → is_full p ≡ false → IsValid (put p x)
unfolding put is_full
put-IsValid p x v h = ground (arith, length-set p.bytes (p.nwrite % pipesize) x)

used-put : (p : Pipe) (x : ℕ) → IsValid p → is_full p ≡ false → used (put p x) ≡ suc (used p)
unfolding put is_full
used-put p x v h = ground arith

contents-put :
    (p : Pipe) (x : ℕ) → IsValid p → is_full p ≡ false → contents (put p x) ≡ contents p ++ x ∷ []
contents-put p x v h = rw (used-put p x v h) (
    unfold put in
    window-set p.bytes x (used p) p.nread p.nwrite v.storage v.nread_in
      (unfold is_full in ground arith) (omega arith))

-- `pipewrite` finds the pipe full exactly when it holds `pipesize` bytes.
is_full-used : (p : Pipe) → IsValid p → is_full p ≡ (used p == pipesize)
unfolding is_full
is_full-used p v = ground arith

abbrev pub pipe_of : Outcome → Pipe
pipe_of (returned r bs p woken) = p
pipe_of (asleep ch i p woken) = p

-- What `pipewrite` answers for `n` bytes from index `i` on, with room for `room` of them.
abbrev pub write_answer : Bool → ℕ → ℕ → ℕ → Pipe → Outcome
write_answer killed i n room p =
    if leb n room
    then returned (pos (i + n)) [] p (on_nread ∷ [])
    else if not p.readopen || killed
    then returned minus_one [] p []
    else asleep on_nwrite (i + room) p (on_nread ∷ [])

pub record Wrote (killed : Bool) (i : ℕ) (p : Pipe) (src : List ℕ) (o : Outcome) : Type 0 where
  pub valid : IsValid (pipe_of o)
  pub bytes : contents (pipe_of o) ≡ contents p ++ take (pipesize - used p) src
  pub answer : o ≡ write_answer killed i (length src) (pipesize - used p) (pipe_of o)

room_of_full : (p : Pipe) → IsValid p → is_full p ≡ true → pipesize - used p ≡ 0
room_of_full p v h = ground (arith, is_full-used p v)

pipewrite_full :
    (killed : Bool) (i : ℕ) (p : Pipe) (x : ℕ) (xs : List ℕ)
    → IsValid p
    → is_full p ≡ true
    → Wrote killed i p (x ∷ xs) (pipewrite_from killed i p (x ∷ xs))
unfolding pipewrite_from
pipewrite_full killed i p x xs v h = elim (Bool-cases (not p.readopen || killed)) [
  | inl gone ↦
      rw (h, gone)
        (record {
          valid = v;
          bytes = rw (room_of_full p v h, append-nil);
          answer = rw (room_of_full p v h, gone) (ground arith);
        })
  | inr open_end ↦
      rw (h, open_end)
        (record {
          valid = v;
          bytes = rw (room_of_full p v h, append-nil);
          answer = rw (room_of_full p v h, open_end) (ground arith);
        })
]

readopen-put : (p : Pipe) (x : ℕ) → (put p x).readopen ≡ p.readopen
unfolding put
readopen-put p x = refl

pub readopen-from :
    (killed : Bool) (i : ℕ) (p : Pipe) (src : List ℕ)
    → (pipe_of (pipewrite_from killed i p src)).readopen ≡ p.readopen
unfolding pipewrite_from
readopen-from killed i p [] = refl
readopen-from killed i p (x ∷ xs) =
    ground (arith, readopen-put p x, readopen-from killed (i + 1) (put p x) xs)

pipewrite_room :
    (killed : Bool) (i : ℕ) (p : Pipe) (x : ℕ) (xs : List ℕ)
    → IsValid p
    → is_full p ≡ false
    → Wrote killed (i + 1) (put p x) xs (pipewrite_from killed (i + 1) (put p x) xs)
    → Wrote killed i p (x ∷ xs) (pipewrite_from killed i p (x ∷ xs))
unfolding pipewrite_from
pipewrite_room killed i p x xs v h w = ground (
  arith,
  w,
  is_full-used p v,
  used-put p x v h,
  contents-put p x v h,
  take-cons (pipesize - used p) x xs,
  append_assoc (contents p) (x ∷ []) (take (pipesize - used p - 1) xs),
  readopen-put p x,
  readopen-from killed (i + 1) (put p x) xs,
)

pub pipewrite_from-Wrote :
    (killed : Bool) (i : ℕ) (p : Pipe) (src : List ℕ)
    → IsValid p
    → Wrote killed i p src (pipewrite_from killed i p src)
pipewrite_from-Wrote killed i p [] v =
    unfold pipewrite_from in
    record { valid = v; bytes = rw (take-nil, append-nil); answer = ground arith }
pipewrite_from-Wrote killed i p (x ∷ xs) v = elim (Bool-cases (is_full p)) [
  | inl h ↦ pipewrite_full killed i p x xs v h
  | inr h ↦
      pipewrite_room killed i p x xs v h
        (pipewrite_from-Wrote killed (i + 1) (put p x) xs (put-IsValid p x v h))
]

pub record Copied (n : ℕ) (p : Pipe) (out : List ℕ × Pipe) : Type 0 where
  pub valid : IsValid out.1
  pub bytes : contents p ≡ out.0 ++ contents out.1
  pub count : length out.0 ≡ min n (used p)
  pub flag : out.1.writeopen ≡ p.writeopen

abbrev skip : Pipe → Pipe
skip p = record p { nread = (p.nread + 1) % uint_mod }

skip-IsValid : (p : Pipe) → IsValid p → p.nread ≢ p.nwrite → IsValid (skip p)
skip-IsValid p v h = ground arith

used-skip : (p : Pipe) → IsValid p → p.nread ≢ p.nwrite → suc (used (skip p)) ≡ used p
used-skip p v h = ground arith

contents-skip :
    (p : Pipe)
    → IsValid p
    → p.nread ≢ p.nwrite
    → contents p ≡ get_or p.bytes (p.nread % pipesize) 0 ∷ contents (skip p)
contents-skip p v h = rw (← used-skip p v h) refl

pub contents-empty : (p : Pipe) → p.nread < uint_mod → p.nread ≡ p.nwrite → contents p ≡ []
contents-empty p b h = let e : used p ≡ 0 = omega arith in ap (λ k. window p.bytes p.nread k) e

pub piperead_copy-Copied : (n : ℕ) (p : Pipe) → IsValid p → Copied n p (piperead_copy n p)
unfolding piperead_copy
piperead_copy-Copied zero p v = record { valid = v; bytes = refl; count = omega arith; flag = refl }
piperead_copy-Copied (suc n) p v = elim (ℕ_discrete p.nread p.nwrite) [
  | yes e ↦ ground (arith, contents-empty p v.nread_in e)
  | no ne ↦ ground (
    arith,
    used-skip p v ne,
    contents-skip p v ne,
    piperead_copy-Copied n (skip p) (skip-IsValid p v ne),
  )
]
