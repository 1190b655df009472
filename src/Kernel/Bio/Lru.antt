-- ===== src/Kernel/Bio/Lru.antt =====
-- The list operations that change the order or the keys of the buffers: `recycle` and `unlink`.
use base_system.Base.{
  ℕ, suc, ◌≤◌, ◌≡◌, refl, ◌≢◌, ◌⊎◌, inl, inr, true, false, none, some, List, [], ◌∷◌, arith,
  Bool-cases, Option-cases,
}
use base_system.Kernel.Bio.{Buf, holds, find_buf, is_free, recycle, unlink}
use base_system.Kernel.Bio.Bufs.{All, Unique, free_count}

-- A buffer given to sector `s` of disk 1.
abbrev pub given : ℕ → Buf → Buf
given s b = record b { dev = 1; sector = s; busy = true; valid = false; dirty = false }

pub recycle_total :
    (s : ℕ) (bs : List Buf) → 1 ≤ free_count bs → (bs' : List Buf) × (recycle 1 s bs ≡ some bs')
unfolding recycle free_count
recycle_total s [] h = absurd (omega arith)
recycle_total s (b ∷ bs) h = elim (Option-cases (recycle 1 s bs)) [
  | inr (r, e) ↦ (b ∷ r, rw (e, recycle))
  | inl e ↦ elim (Bool-cases (is_free b)) [
    | inl f ↦ (given s b ∷ bs, rw (e, f, recycle))
    | inr f ↦ let (r, e') = recycle_total s bs (rw f at h) in absurd (cc)
  ]
]

recycle-nil : (s : ℕ) (bs' : List Buf) → recycle 1 s [] ≡ some bs' → ⊥
unfolding recycle
recycle-nil s bs' e = cc

-- One step of the recursion of `recycle`, as cases.
recycle_cases :
    (s : ℕ) (b : Buf) (bs bs' : List Buf)
    → recycle 1 s (b ∷ bs) ≡ some bs'
    → ((r : List Buf) × (recycle 1 s bs ≡ some r) × (bs' ≡ b ∷ r))
      ⊎ ((is_free b ≡ true) × (bs' ≡ given s b ∷ bs))
unfolding recycle
recycle_cases s b bs bs' e = elim (Option-cases (recycle 1 s bs)) [
  | inr (r, e') ↦ inl (r, e', ground arith)
  | inl e' ↦ inr (ground arith, ground arith)
]

pub All-recycle :
    (P : Buf → Type 0) (s : ℕ) (bs bs' : List Buf)
    → ((b : Buf) → P b → P (given s b))
    → All P bs
    → recycle 1 s bs ≡ some bs'
    → All P bs'
All-recycle P s [] bs' p h e = absurd (recycle-nil s bs' e)
All-recycle P s (b ∷ bs) bs' p h e = elim (recycle_cases s b bs bs' e) [
  | inl (r, e1, e2) ↦ rw e2 (h.0, All-recycle P s bs r p h.1 e1)
  | inr (f, e2) ↦ rw e2 (p b h.0, h.1)
]

pub find-recycle-none :
    (s t : ℕ) (bs bs' : List Buf)
    → t ≢ s
    → find_buf 1 t bs ≡ none
    → recycle 1 s bs ≡ some bs'
    → find_buf 1 t bs' ≡ none
unfolding find_buf
find-recycle-none s t [] bs' ne n e = absurd (recycle-nil s bs' e)
find-recycle-none s t (b ∷ bs) bs' ne n e = elim (recycle_cases s b bs bs' e) [
  | inl (r, e1, e2) ↦ rw e2 (ground (arith, find-recycle-none s t bs r ne))
  | inr (f, e2) ↦ rw e2 (ground arith)
]

pub Unique-recycle :
    (s : ℕ) (bs bs' : List Buf)
    → Unique bs
    → find_buf 1 s bs ≡ none
    → recycle 1 s bs ≡ some bs'
    → Unique bs'
unfolding find_buf
Unique-recycle s [] bs' u n e = absurd (recycle-nil s bs' e)
Unique-recycle s (b ∷ bs) bs' u n e = elim (recycle_cases s b bs bs' e) [
  | inl (r, e1, e2) ↦ rw e2 (
    λ d. find-recycle-none s b.sector bs r (ground arith) (u.0 d) e1,
    Unique-recycle s bs r u.1 (ground arith) e1,
  )
  | inr (f, e2) ↦ rw e2 (λ d. ground arith, u.1)
]

-- The buffer that the sector got.
pub find-recycle_self :
    (s : ℕ) (bs bs' : List Buf)
    → find_buf 1 s bs ≡ none
    → recycle 1 s bs ≡ some bs'
    → (b : Buf) × (find_buf 1 s bs' ≡ some (given s b))
unfolding find_buf
find-recycle_self s [] bs' n e = absurd (recycle-nil s bs' e)
find-recycle_self s (b ∷ bs) bs' n e = elim (recycle_cases s b bs bs' e) [
  | inl (r, e1, e2) ↦
      let (x, e3) = find-recycle_self s bs r (ground arith) e1 in (x, rw e2 (ground arith))
  | inr (f, e2) ↦ (b, rw e2 (ground arith))
]

-- A sector other than `s` keeps its buffer, or loses one that was free.
pub find-recycle_ne :
    (s t : ℕ) (bs bs' : List Buf)
    → t ≢ s
    → Unique bs
    → recycle 1 s bs ≡ some bs'
    → (find_buf 1 t bs' ≡ find_buf 1 t bs)
      ⊎ ((find_buf 1 t bs' ≡ none) × ((b : Buf) × (find_buf 1 t bs ≡ some b) × (is_free b ≡ true)))
unfolding find_buf
find-recycle_ne s t [] bs' ne u e = absurd (recycle-nil s bs' e)
find-recycle_ne s t (b ∷ bs) bs' ne u e = elim (recycle_cases s b bs bs' e) [
  | inl (r, e1, e2) ↦ rw e2 (elim (Bool-cases (holds 1 t b)) [
    | inl here ↦ inl (rw here)
    | inr there ↦ rw there (find-recycle_ne s t bs r ne u.1 e1)
  ])
  | inr (f, e2) ↦ rw e2 (elim (Bool-cases (holds 1 t b)) [
    | inl here ↦
        let e3 : b.sector ≡ t = ground arith in
        inr (ground (arith, rw e3 at (u.0 (ground arith))), (b, ground arith, f))
    | inr there ↦ inl (ground arith)
  ])
]

pub free_count-recycle :
    (s : ℕ) (bs bs' : List Buf) → recycle 1 s bs ≡ some bs' → free_count bs ≡ suc (free_count bs')
unfolding free_count
free_count-recycle s [] bs' e = absurd (recycle-nil s bs' e)
free_count-recycle s (b ∷ bs) bs' e = elim (recycle_cases s b bs bs' e) [
  | inl (r, e1, e2) ↦ rw e2 (ground (arith, free_count-recycle s bs r))
  | inr (f, e2) ↦ rw e2 (ground arith)
]

module _ (s : ℕ) where
  pub find-unlink_ne :
      (t : ℕ) (bs : List Buf) → t ≢ s → find_buf 1 t (unlink 1 s bs) ≡ find_buf 1 t bs
  unfolding find_buf unlink
  find-unlink_ne t [] h = refl
  find-unlink_ne t (b ∷ bs) h = ground (arith, find-unlink_ne t bs)

  find-unlink-none :
      (t : ℕ) (bs : List Buf) → find_buf 1 t bs ≡ none → find_buf 1 t (unlink 1 s bs) ≡ none
  unfolding find_buf unlink
  find-unlink-none t [] h = refl
  find-unlink-none t (b ∷ bs) h = ground (arith, find-unlink-none t bs)

  pub find-unlink_self : (bs : List Buf) → Unique bs → find_buf 1 s (unlink 1 s bs) ≡ none
  unfolding find_buf unlink
  find-unlink_self [] u = refl
  find-unlink_self (b ∷ bs) u = elim (Bool-cases (holds 1 s b)) [
    | inl here ↦ let e : b.sector ≡ s = ground arith in rw here (rw (← e) (u.0 (ground arith)))
    | inr there ↦ rw (there, find_buf) (rw there (find-unlink_self bs u.1))
  ]

  pub Unique-unlink : (bs : List Buf) → Unique bs → Unique (unlink 1 s bs)
  unfolding unlink
  Unique-unlink [] u = u
  Unique-unlink (b ∷ bs) u = elim (Bool-cases (holds 1 s b)) [
    | inl here ↦ rw here u.1
    | inr there ↦ rw there (λ d. find-unlink-none b.sector bs (u.0 d), Unique-unlink bs u.1)
  ]

  pub All-unlink : (P : Buf → Type 0) (bs : List Buf) → All P bs → All P (unlink 1 s bs)
  unfolding unlink
  All-unlink P [] h = h
  All-unlink P (b ∷ bs) h = elim (Bool-cases (holds 1 s b)) [
    | inl here ↦ rw here h.1
    | inr there ↦ rw there (h.0, All-unlink P bs h.1)
  ]

  pub free_count-unlink :
      (bs : List Buf) (b : Buf)
      → find_buf 1 s bs ≡ some b
      → b.busy ≡ true
      → free_count (unlink 1 s bs) ≡ free_count bs
  unfolding find_buf unlink free_count
  free_count-unlink [] b e h = refl
  free_count-unlink (x ∷ bs) b e h = ground (arith, free_count-unlink bs b)
