-- ===== src/Kernel/Fs/Inodes/Gets.antt =====
-- `iget` of kernel/fs.c: what its loop finds, and what becomes of the cache.
use base_system.Base.{
  ℕ, zero, suc, ◌+◌, ◌<◌, ◌≡◌, ◌≢◌, ◌⊎◌, refl, sym, ap, ◌∙◌, true, false, Option, none, some, List,
  [], ◌∷◌, arith, ◌==◌, length, get_or, set, get_or-set_self, inl, inr, Bool-cases,
}
use base_system.Kernel.Action.{Result, ok, panic, sleeps, Keeps}
use base_system.Kernel.Fs.{Inode, Fs}
use base_system.Kernel.Fs.Inodes.{
  no_inode, inode_at, Slot, cached, vacant, full, is_cached, look_from, iget,
}
use base_system.Kernel.Fs.Inodes.Cache.{IsUnique, set_cases, set-IsUnique}

-- No entry in use is for the inode.
abbrev pub IsAbsent : ℕ → ℕ → List Inode → Type 0
IsAbsent dev inum ips = (j : ℕ) → is_cached dev inum (get_or ips j no_inode) ≡ false

-- What the loop finds from index `i` on with the free entry `empty`.
abbrev pub Looked : ℕ → ℕ → ℕ → Option ℕ → List Inode → Slot → Type 0
Looked dev inum i empty ips (cached k) =
    (j : ℕ) × (k ≡ i + j) × (is_cached dev inum (get_or ips j no_inode) ≡ true)
Looked dev inum i empty ips (vacant k) =
    IsAbsent dev inum ips
    × ((empty ≡ some k)
        ⊎ ((j : ℕ) × (k ≡ i + j) × (j < length ips) × ((get_or ips j no_inode).ref ≡ 0)))
Looked dev inum i empty ips full =
    (empty ≡ none)
    × IsAbsent dev inum ips
    × ((j : ℕ) → j < length ips → (get_or ips j no_inode).ref ≢ 0)

IsAbsent-cons :
    (dev inum : ℕ) (ip : Inode) (ips : List Inode)
    → is_cached dev inum ip ≡ false
    → IsAbsent dev inum ips
    → IsAbsent dev inum (ip ∷ ips)
IsAbsent-cons dev inum ip ips h w zero = h
IsAbsent-cons dev inum ip ips h w (suc j) = w j

used_cons :
    (ip : Inode) (ips : List Inode)
    → ip.ref ≢ 0
    → ((j : ℕ) → j < length ips → (get_or ips j no_inode).ref ≢ 0)
    → (j : ℕ) → j < suc (length ips)
    → (get_or (ip ∷ ips) j no_inode).ref ≢ 0
used_cons ip ips h w zero l = h
used_cons ip ips h w (suc j) l = w j (omega arith)

-- The entry `ip` is passed, with the same free entry behind it.
passed_same :
    (dev inum i : ℕ) (empty : Option ℕ) (ip : Inode) (ips : List Inode) (r : Slot)
    → is_cached dev inum ip ≡ false
    → (ip.ref ≡ 0 → empty ≢ none)
    → Looked dev inum (i + 1) empty ips r
    → Looked dev inum i empty (ip ∷ ips) r
passed_same dev inum i empty ip ips (cached k) h g (j, e, c) = (suc j, omega arith, c)
passed_same dev inum i empty ip ips (vacant k) h g (a, inl e) =
    (IsAbsent-cons dev inum ip ips h a, inl e)
passed_same dev inum i empty ip ips (vacant k) h g (a, inr (j, e, l, z)) =
    (IsAbsent-cons dev inum ip ips h a, inr (suc j, omega arith, omega arith, z))
passed_same dev inum i empty ip ips full h g (n, a, f) =
    (n, IsAbsent-cons dev inum ip ips h a, used_cons ip ips (λ z. g z n) f)

-- It is the first free entry.
passed_free :
    (dev inum i : ℕ) (ip : Inode) (ips : List Inode) (r : Slot)
    → is_cached dev inum ip ≡ false
    → ip.ref ≡ 0
    → Looked dev inum (i + 1) (some i) ips r
    → Looked dev inum i none (ip ∷ ips) r
passed_free dev inum i ip ips (cached k) h z (j, e, c) = (suc j, omega arith, c)
passed_free dev inum i ip ips (vacant k) h z (a, inl e) =
    let same : i ≡ k = cc in
    (IsAbsent-cons dev inum ip ips h a, inr (0, omega arith, omega arith, z))
passed_free dev inum i ip ips (vacant k) h z (a, inr (j, e, l, y)) =
    (IsAbsent-cons dev inum ip ips h a, inr (suc j, omega arith, omega arith, y))
passed_free dev inum i ip ips full h z (n, a, f) = absurd (cc)

look_from_lem :
    (dev inum i : ℕ) (empty : Option ℕ) (ips : List Inode)
    → Looked dev inum i empty ips (look_from dev inum i empty ips)
unfolding look_from
look_from_lem dev inum i none [] = (refl, (λ j. refl), λ j l. absurd (omega arith))
look_from_lem dev inum i (some k) [] = ((λ j. refl), inl refl)
look_from_lem dev inum i (some e) (ip ∷ ips) = elim (Bool-cases (is_cached dev inum ip)) [
  | inl c ↦ rw c (0, omega arith, c)
  | inr c ↦ rw c (
      passed_same dev inum i (some e) ip ips _ c (λ _ h. absurd (cc))
        (look_from_lem dev inum (i + 1) (some e) ips))
]
look_from_lem dev inum i none (ip ∷ ips) = elim (Bool-cases (is_cached dev inum ip)) [
  | inl c ↦ rw c (0, omega arith, c)
  | inr c ↦ elim (Bool-cases (ip.ref == 0)) [
    | inl z ↦ rw c (
        rw z (
          passed_free dev inum i ip ips _ c (ground arith)
            (look_from_lem dev inum (i + 1) (some i) ips)))
    | inr z ↦ rw c (
        rw z (
          passed_same dev inum i none ip ips _ c (λ e _. ground (arith, e))
            (look_from_lem dev inum (i + 1) none ips)))
  ]
]

is_cached_lem :
    (dev inum : ℕ) (ip : Inode)
    → is_cached dev inum ip ≡ true
    → (0 < ip.ref) × (ip.dev ≡ dev) × (ip.inum ≡ inum)
is_cached_lem dev inum ip h = (ground arith, ground arith, ground arith)

-- An inode that no entry in use is for gets one: the entries stay unique.
vacant-IsUnique :
    (dev inum k : ℕ) (s : Fs)
    → IsUnique s
    → IsAbsent dev inum s.icache
    → (ip : Inode) → ip.dev ≡ dev
    → ip.inum ≡ inum
    → IsUnique (record s { icache = set s.icache k ip })
unfolding IsUnique
vacant-IsUnique dev inum k s w a ip d n i j = elim (set_cases k i ip s.icache) [
  | inl e ↦ elim (set_cases k j ip s.icache) [
    | inl f ↦ rw e (rw f (w i j))
    | inr (q, f) ↦ rw e (rw f (λ u _ v x. let c = a i in absurd (ground (arith, c, u, v, x, d, n))))
  ]
  | inr (p, e) ↦ elim (set_cases k j ip s.icache) [
    | inl f ↦ rw e (rw f (λ _ u v x. let c = a j in absurd (ground (arith, c, u, v, x, d, n))))
    | inr (q, f) ↦ λ _ _ _ _. p ∙ sym q
  ]
]

-- What `iget` does on each result of its loop.
abbrev pub Got : ℕ → ℕ → Fs → Result ℕ → Fs → Type 0
Got dev inum s (ok k) s' =
    ((inode_at s' k).dev ≡ dev)
    × ((inode_at s' k).inum ≡ inum)
    × (((is_cached dev inum (inode_at s k) ≡ true) × ((inode_at s' k).ref ≡ (inode_at s k).ref + 1))
        ⊎ (IsAbsent dev inum s.icache
            × ((inode_at s k).ref ≡ 0)
            × ((inode_at s' k).ref ≡ 1)
            × ((inode_at s' k).valid ≡ false)))
Got dev inum s panic s' =
    (s' ≡ s) × IsAbsent dev inum s.icache × ((j : ℕ) → j < length s.icache → (inode_at s j).ref ≢ 0)
Got dev inum s sleeps s' = ⊥

in_use : (ips : List Inode) (k : ℕ) → 0 < (get_or ips k no_inode).ref → k < length ips
in_use [] k h = absurd (omega arith)
in_use (ip ∷ ips) zero h = omega arith
in_use (ip ∷ ips) (suc k) h = omega (arith, in_use ips k h)

-- The inode at `k` after a change of it.
changed :
    (k : ℕ) (ip : Inode) (s : Fs)
    → k < length s.icache
    → inode_at (record s { icache = set s.icache k ip }) k ≡ ip
changed k ip s l = get_or-set_self s.icache k ip no_inode l

-- The result by what the loop finds.
iget_by :
    (dev inum : ℕ) (s : Fs) (r : Slot)
    → IsUnique s
    → look_from dev inum 0 none s.icache ≡ r
    → Looked dev inum 0 none s.icache r
    → let (res, s') = iget dev inum s in Got dev inum s res s' × IsUnique s'
unfolding iget
iget_by dev inum s (cached k) w e (j, p, c) =
    let at : j ≡ k = omega arith in
    let c1 : is_cached dev inum (inode_at s k) ≡ true =
      ap (λ x. is_cached dev inum (inode_at s x)) (sym at) ∙ c in
    let (used, d, n) = is_cached_lem dev inum (inode_at s k) c1 in
    let new =
      changed k (record (inode_at s k) { ref = (inode_at s k).ref + 1 }) s
        (in_use s.icache k used) in
    rw (e, iget) (rw new (d, n, inl (c1, refl)), set-IsUnique k _ s w refl refl (λ _. used))
iget_by dev inum s (vacant k) w e (a, inl none_is) = absurd (cc)
iget_by dev inum s (vacant k) w e (a, inr (j, p, l, z)) =
    let at : j ≡ k = omega arith in
    let new =
      changed k
        (record (inode_at s k) { dev = dev; inum = inum; ref = 1; busy = false; valid = false }) s
        (omega arith) in
    let free : (inode_at s k).ref ≡ 0 = ap (λ x. (inode_at s x).ref) (sym at) ∙ z in
    rw (e, iget)
      (rw new (refl, refl, inr (a, free, refl, refl)), vacant-IsUnique dev inum k s w a _ refl refl)
iget_by dev inum s full w e (_, a, f) = rw (e, iget) ((refl, a, f), w)

-- Where an inode has one entry in use at most, `iget` keeps that. It returns the entry that is in use
-- for the inode, with its count one higher; or, where there is none, an unused entry, which is the
-- inode's then, with the count 1, and is not valid; or, where no entry is unused either, it panics and
-- changes nothing.
pub iget_lem :
    (dev inum : ℕ) (s : Fs)
    → IsUnique s
    → let (res, s') = iget dev inum s in Got dev inum s res s' × IsUnique s'
iget_lem dev inum s w =
    iget_by dev inum s (look_from dev inum 0 none s.icache) w refl
      (look_from_lem dev inum 0 none s.icache)

pub iget-IsUnique : (dev inum : ℕ) → Keeps IsUnique (iget dev inum)
iget-IsUnique dev inum s w = (iget_lem dev inum s w).1
