-- ===== src/Kernel/Log/Header.antt =====
-- The log header on disk: `write_head` and `read_head` of kernel/log.c.
use native.Mathlib.Decide.{ℕ_discrete}
use base_system.Base.{
  ◌∙◌, ℕ, zero, suc, ◌+◌, ◌≤◌, ◌<◌, ◌≡◌, refl, List, arith, length, get_or, set, length-set,
  get_or-set_self, get_or-set_ne,
}
use base_system.Kernel.Bio.{Block}
use base_system.Kernel.Log.{logsize, rounds, head_sectors, put_sectors, put_head}

length-put_sectors :
    (sector : List ℕ) (k i : ℕ) (hb : Block) → length (put_sectors sector k i hb) ≡ length hb
unfolding put_sectors
length-put_sectors sector zero i hb = refl
length-put_sectors sector (suc k) i hb = ground (
  arith,
  length-put_sectors sector k (i + 1) (set hb (i + 1) (get_or sector i 0)),
  length-set hb (i + 1) (get_or sector i 0),
)

-- Words up to `i` stay.
put_sectors-below :
    (sector : List ℕ) (k i j : ℕ) (hb : Block)
    → j ≤ i
    → get_or (put_sectors sector k i hb) j 0 ≡ get_or hb j 0
unfolding put_sectors
put_sectors-below sector zero i j hb h = refl
put_sectors-below sector (suc k) i j hb h = ground (
  arith,
  put_sectors-below sector k (i + 1) j (set hb (i + 1) (get_or sector i 0)),
  get_or-set_ne hb (i + 1) j (get_or sector i 0) 0,
)

put_sectors-at :
    (sector : List ℕ) (k i j : ℕ) (hb : Block)
    → i ≤ j
    → j < i + k
    → i + k < length hb
    → get_or (put_sectors sector k i hb) (j + 1) 0 ≡ get_or sector j 0
unfolding put_sectors
put_sectors-at sector zero i j hb l h b = absurd (omega arith)
put_sectors-at sector (suc k) i j hb l h b =
    let hb' = set hb (i + 1) (get_or sector i 0) in
    elim (ℕ_discrete j i) [
      | yes e ↦ rw e (
          put_sectors-below sector k (i + 1) (i + 1) hb' (omega arith)
          ∙ get_or-set_self hb (i + 1) (get_or sector i 0) 0 (omega arith))
      | no ne ↦
          put_sectors-at sector k (i + 1) j hb' (omega arith) (omega arith)
            (omega (arith, length-set hb (i + 1) (get_or sector i 0)))
    ]

head_sectors-below :
    (lh : Block) (k i j : ℕ) (sector : List ℕ)
    → j < i
    → get_or (head_sectors lh k i sector) j 0 ≡ get_or sector j 0
unfolding head_sectors
head_sectors-below lh zero i j sector h = refl
head_sectors-below lh (suc k) i j sector h = ground (
  arith,
  head_sectors-below lh k (i + 1) j (set sector i (get_or lh (i + 1) 0)),
  get_or-set_ne sector i j (get_or lh (i + 1) 0) 0,
)

pub head_sectors-at :
    (lh : Block) (k i j : ℕ) (sector : List ℕ)
    → i ≤ j
    → j < i + k
    → i + k ≤ length sector
    → get_or (head_sectors lh k i sector) j 0 ≡ get_or lh (j + 1) 0
unfolding head_sectors
head_sectors-at lh zero i j sector l h b = absurd (omega arith)
head_sectors-at lh (suc k) i j sector l h b =
    let sector' = set sector i (get_or lh (i + 1) 0) in
    elim (ℕ_discrete j i) [
      | yes e ↦ rw e (
          head_sectors-below lh k (i + 1) i sector' (omega arith)
          ∙ get_or-set_self sector i (get_or lh (i + 1) 0) 0 (omega arith))
      | no ne ↦
          head_sectors-at lh k (i + 1) j sector' (omega arith) (omega arith)
            (omega (arith, length-set sector i (get_or lh (i + 1) 0)))
    ]

-- The number of entries comes back.
pub put_head-n :
    (n : ℕ) (sector : List ℕ) (hb : Block) → 0 < length hb → get_or (put_head n sector hb) 0 0 ≡ n
unfolding put_head
put_head-n n sector hb h =
    put_sectors-below sector (rounds n) 0 0 (set hb 0 n) (omega arith) ∙ get_or-set_self hb 0 n 0 h

pub length-put_head :
    (n : ℕ) (sector : List ℕ) (hb : Block) → length (put_head n sector hb) ≡ length hb
unfolding put_head
length-put_head n sector hb =
    length-put_sectors sector (rounds n) 0 (set hb 0 n) ∙ length-set hb 0 n

-- The entries are the words after it.
pub put_head-sectors :
    (n : ℕ) (sector : List ℕ) (hb : Block) (j : ℕ)
    → n ≤ logsize
    → length hb ≡ 128
    → j < n
    → get_or (put_head n sector hb) (j + 1) 0 ≡ get_or sector j 0
unfolding put_head
put_head-sectors n sector hb j h lb jn =
    let r : rounds n ≡ n = ground arith in
    rw r (
      put_sectors-at sector n 0 j (set hb 0 n) (omega arith) (omega arith)
        (omega (arith, length-set hb 0 n)))

-- The sector numbers that `read_head` reads are those that `write_head` wrote.
pub head_roundtrip :
    (n : ℕ) (sector old : List ℕ) (hb : Block) (j : ℕ)
    → n ≤ logsize
    → length old ≡ logsize
    → length hb ≡ 128
    → j < n
    → get_or (head_sectors (put_head n sector hb) (rounds n) 0 old) j 0 ≡ get_or sector j 0
head_roundtrip n sector old hb j h lo lb jn =
    let r : rounds n ≡ n = ground arith in
    rw r (
      head_sectors-at (put_head n sector hb) n 0 j old (omega arith) (omega arith) (omega arith)
      ∙ put_head-sectors n sector hb j h lb jn)
