-- ===== src/Kernel/Proc/Slots.antt =====
-- Slots of the process table: what an assignment, a search and a wakeup do at each index.
use base_system.Base.{
  drop, ◌-◌, ℕ, zero, suc, ◌+◌, ◌≤◌, ◌<◌, ◌≡◌, refl, Bool, true, false, none, some, List, [], ◌∷◌,
  map, arith, ◌==◌, if◌then◌else◌, get_or, length, Bool-cases, inl, inr,
}
use base_system.Kernel.Proc.{Proc, Table, Chan, find_from, assign, proc_at, wake, no_proc}

pub get_or-assign :
    (f : Proc → Proc) (i j : ℕ) (ps : List Proc)
    → i < length ps
    → get_or (assign f i ps) j no_proc
      ≡ (if i == j then f (get_or ps j no_proc) else get_or ps j no_proc)
unfolding assign
get_or-assign f i j [] h = absurd (omega arith)
get_or-assign f zero zero (p ∷ ps) h = refl
get_or-assign f zero (suc j) (p ∷ ps) h = ground arith
get_or-assign f (suc i) zero (p ∷ ps) h = ground arith
get_or-assign f (suc i) (suc j) (p ∷ ps) h = ground (arith, get_or-assign f i j ps)

pub length-assign : (f : Proc → Proc) (i : ℕ) (ps : List Proc) → length (assign f i ps) ≡ length ps
unfolding assign
length-assign f i [] = refl
length-assign f zero (p ∷ ps) = refl
length-assign f (suc i) (p ∷ ps) = omega (arith, length-assign f i ps)

pub get_or-wake :
    (c : Chan) (j : ℕ) (ps : List Proc)
    → get_or (map (wake c) ps) j no_proc ≡ wake c (get_or ps j no_proc)
get_or-wake c j [] = refl
get_or-wake c zero (p ∷ ps) = refl
get_or-wake c (suc j) (p ∷ ps) = get_or-wake c j ps

pub length-wake : (c : Chan) (ps : List Proc) → length (map (wake c) ps) ≡ length ps
length-wake c [] = refl
length-wake c (p ∷ ps) = omega (arith, length-wake c ps)

-- A search that finds an index finds a slot that passes the test.
pub find_from_lem :
    (test : Proc → Bool) (k i : ℕ) (ps : List Proc)
    → find_from test k ps ≡ some i
    → (k ≤ i) × (i < k + length ps) × (test (get_or ps (i - k) no_proc) ≡ true)
unfolding find_from
find_from_lem test k i [] e = cc
find_from_lem test k i (p ∷ ps) e = elim (Bool-cases (test p)) [
  | inl here ↦
      let e' : k ≡ i = ground arith in
      rw (← e') (omega arith, omega arith, let z : k - k ≡ 0 = omega arith in rw z here)
  | inr there ↦
      let r = find_from_lem test (k + 1) i ps (rw there at e) in
      (
        omega (arith, r),
        omega (arith, r),
        let z : i - k ≡ suc (i - (k + 1)) = omega (arith, r) in rw z (r.2),
      )
]

-- The same for a search of the whole table.
pub found_slot :
    (test : Proc → Bool) (t : Table) (i : ℕ)
    → find_from test 0 t.procs ≡ some i
    → (i < length t.procs) × (test (proc_at t i) ≡ true)
found_slot test t i e =
    let r = find_from_lem test 0 i t.procs e in
    (omega (arith, r), let z : i - 0 ≡ i = omega arith in rw z at (r.2))

-- A search that fails has no slot that passes.
pub find_from-none :
    (test : Proc → Bool) (k j : ℕ) (ps : List Proc)
    → find_from test k ps ≡ none
    → j < length ps
    → test (get_or ps j no_proc) ≡ false
unfolding find_from
find_from-none test k j [] e h = absurd (omega arith)
find_from-none test k zero (p ∷ ps) e h = ground arith
find_from-none test k (suc j) (p ∷ ps) e h = ground (arith, find_from-none test (k + 1) j ps)

pub get_or-drop :
    (i j : ℕ) (ps : List Proc) → get_or (drop i ps) j no_proc ≡ get_or ps (i + j) no_proc
get_or-drop zero j ps = let z : 0 + j ≡ j = omega arith in rw z refl
get_or-drop (suc i) j [] = refl
get_or-drop (suc i) j (p ∷ ps) =
    let z : suc i + j ≡ suc (i + j) = omega arith in rw z (get_or-drop i j ps)

pub length-drop : (i : ℕ) (ps : List Proc) → length (drop i ps) ≡ length ps - i
length-drop zero ps = omega arith
length-drop (suc i) [] = omega arith
length-drop (suc i) (p ∷ ps) = omega (arith, length-drop i ps)

-- The slot that the scheduler finds at or above the index `i`.
pub found_above :
    (test : Proc → Bool) (t : Table) (i j : ℕ)
    → find_from test i (drop i t.procs) ≡ some j
    → (j < length t.procs) × (test (proc_at t j) ≡ true)
found_above test t i j e =
    let r = find_from_lem test i j (drop i t.procs) e in
    let z : i + (j - i) ≡ j = omega (arith, r) in
    (
      omega (arith, r, length-drop i t.procs),
      (let at : get_or t.procs (i + (j - i)) no_proc ≡ proc_at t j = rw z refl in
          rw (get_or-drop i (j - i) t.procs, at) at (r.2)),
    )

-- A slot beyond the table reads as unused.
pub get_or-beyond : (ps : List Proc) (j : ℕ) → length ps ≤ j → get_or ps j no_proc ≡ no_proc
get_or-beyond [] j h = refl
get_or-beyond (p ∷ ps) zero h = absurd (omega arith)
get_or-beyond (p ∷ ps) (suc j) h = get_or-beyond ps j (omega arith)
