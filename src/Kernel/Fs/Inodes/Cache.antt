-- ===== src/Kernel/Fs/Inodes/Cache.antt =====
-- The cache of inodes of kernel/fs.c: an inode of a disk has one entry in use at most.
use native.Mathlib.Decide.{ℕ_discrete}
use base_system.Base.{
  ℕ, zero, suc, ◌≤◌, ◌<◌, ◌≡◌, ◌⊎◌, refl, sym, ap, ◌∙◌, not, ◌||◌, List, [], ◌∷◌, arith, ltb,
  if◌then◌else◌, length, get_or, set, get_or-set_self, get_or-set_ne, inl, inr, Bool-cases,
}
use base_system.Kernel.Action.{
  Action, sleeps, pure, panic_if, Keeps, keeps_then, keeps_if, Keeps-panic_if,
}
use base_system.Kernel.Fs.{Inode, Fs}
use base_system.Kernel.Fs.Inodes.{no_inode, inode_at, load_dinode, idup, ilock, iunlock, iupdate}

-- Two entries in use are for different inodes.
unfoldable pub IsUnique : Fs → Type 0
IsUnique s =
    (i j : ℕ)
    → 0 < (inode_at s i).ref
    → 0 < (inode_at s j).ref
    → (inode_at s i).dev ≡ (inode_at s j).dev
    → (inode_at s i).inum ≡ (inode_at s j).inum
    → i ≡ j

set_out : (ips : List Inode) (k : ℕ) (v : Inode) → length ips ≤ k → set ips k v ≡ ips
set_out [] k v h = refl
set_out (ip ∷ ips) zero v h = absurd (omega arith)
set_out (ip ∷ ips) (suc k) v h = ap (λ x. ip ∷ x) (set_out ips k v (omega arith))

-- The inodes after a change of one.
pub set_cases :
    (k i : ℕ) (ip : Inode) (ips : List Inode)
    → (get_or (set ips k ip) i no_inode ≡ get_or ips i no_inode)
      ⊎ ((i ≡ k) × (get_or (set ips k ip) i no_inode ≡ ip))
set_cases k i ip ips = elim (ℕ_discrete k i) [
  | yes e ↦ elim (Bool-cases (ltb k (length ips))) [
    | inl b ↦
        let here = get_or-set_self ips k ip no_inode (ground arith) in
        inr (sym e, ap (λ x. get_or (set ips k ip) x no_inode) (sym e) ∙ here)
    | inr b ↦ inl (ap (λ x. get_or x i no_inode) (set_out ips k ip (ground arith)))
  ]
  | no ne ↦ inl (get_or-set_ne ips k i ip no_inode ne)
]

-- A change of other fields, or one that does not begin a use, keeps the entries unique.
pub set-IsUnique :
    (k : ℕ) (ip : Inode) (s : Fs)
    → IsUnique s
    → ip.dev ≡ (inode_at s k).dev
    → ip.inum ≡ (inode_at s k).inum
    → (0 < ip.ref → 0 < (inode_at s k).ref)
    → IsUnique (record s { icache = set s.icache k ip })
unfolding IsUnique
set-IsUnique k ip s w d n r i j =
    let ips = set s.icache k ip in
    let same : (x : ℕ)
        → (0 < (get_or ips x no_inode).ref → 0 < (inode_at s x).ref)
          × ((get_or ips x no_inode).dev ≡ (inode_at s x).dev)
          × ((get_or ips x no_inode).inum ≡ (inode_at s x).inum) =
      λ x. elim (set_cases k x ip s.icache) [
        | inl e ↦ rw e (λ h. h, refl, refl)
        | inr (e, g) ↦ rw g (rw e (r, d, n))
      ] in
    let (ri, di, ni) = same i in
    let (rj, dj, nj) = same j in λ a b c e. w i j (ri a) (rj b) (sym di ∙ c ∙ dj) (sym ni ∙ e ∙ nj)

-- Another disk, the same cache.
pub disk-IsUnique : (s s' : Fs) → s'.icache ≡ s.icache → IsUnique s → IsUnique s'
unfolding IsUnique
disk-IsUnique s s' e w = rw e w

pub idup-IsUnique : (i : ℕ) (s : Fs) → 0 < (inode_at s i).ref → IsUnique s → IsUnique (idup i s).1
unfolding idup
idup-IsUnique i s h w = set-IsUnique i _ s w refl refl (λ _. h)

pub iunlock-IsUnique : (i : ℕ) → Keeps IsUnique (iunlock i)
unfolding iunlock
iunlock-IsUnique i s w =
    keeps_then IsUnique (panic_if (not (inode_at s i).busy || ltb (inode_at s i).ref 1)) _ s w
      (Keeps-panic_if IsUnique _) (λ _ s1 w1. set-IsUnique i _ s1 w1 refl refl (λ h. h))

pub iupdate-IsUnique : (i : ℕ) → Keeps IsUnique (iupdate i)
unfolding iupdate
iupdate-IsUnique i s w = disk-IsUnique s _ refl w

pub ilock-IsUnique : (i : ℕ) → Keeps IsUnique (ilock i)
unfolding ilock load_dinode
ilock-IsUnique i s w =
    let sleeping : Action Fs (Unit {0}) = λ t. (sleeps, t) in
    let ip = inode_at s i in
    keeps_then IsUnique (panic_if (ltb ip.ref 1)) _ s w (Keeps-panic_if IsUnique _) (λ _ s1 w1.
      keeps_then IsUnique (if ip.busy then sleeping else pure tt) _ s1 w1
        (λ t h. keeps_if IsUnique ip.busy sleeping (pure tt) t h h)
        (λ _ s2 w2.
          let w3 = set-IsUnique i _ s2 w2 refl refl (λ h. h) in
          elim (Bool-cases ip.valid) [
            | inl e ↦ rw e w3
            | inr e ↦ rw e (Keeps-panic_if IsUnique _ _ (set-IsUnique i _ _ w3 refl refl (λ h. h)))
          ]))
