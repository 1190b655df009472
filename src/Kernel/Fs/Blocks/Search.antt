-- ===== src/Kernel/Fs/Blocks/Search.antt =====
-- The loops of `balloc` of kernel/fs.c.
use native.Mathlib.Decide.{ℕ_discrete}
use base_system.Base.{
  ℕ, zero, suc, ◌+◌, ◌-◌, ◌*◌, ◌%◌, ◌≤◌, ◌<◌, ◌≡◌, refl, ◌∙◌, true, false, none, some, arith, leb,
  ltb, Bool-cases, Option-cases, inl, inr,
}
use base_system.Kernel.Action.{panic}
use base_system.Kernel.Text.{Memory}
use base_system.Kernel.Fs.{Fs, bpb, bblock, SuperBlock}
use base_system.Kernel.Fs.Blocks.{is_clear, scan, take_block, balloc_from}

scan-some :
    (k : ℕ) (m : Memory) (b size bi c : ℕ)
    → scan k m b size bi ≡ some c
    → (bi ≤ c) × (c < bi + k) × (b + c < size) × (is_clear m c ≡ true)
unfolding scan
scan-some zero m b size bi c e = absurd (cc)
scan-some (suc k) m b size bi c e = ground (arith, scan-some k m b size (bi + 1) c)

scan-none :
    (k : ℕ) (m : Memory) (b size bi c : ℕ)
    → scan k m b size bi ≡ none
    → bi ≤ c
    → c < bi + k
    → b + c < size
    → is_clear m c ≡ false
unfolding scan
scan-none zero m b size bi c e l h g = absurd (omega arith)
scan-none (suc k) m b size bi c e l h g = elim (ℕ_discrete c bi) [
  | yes eq ↦ rw eq (ground (arith, eq))
  | no ne ↦ scan-none k m b size (bi + 1) c (ground arith) (omega arith) (omega arith) g
]

balloc_from_next :
    (k dev : ℕ) (sb : SuperBlock) (b : ℕ) (s : Fs)
    → ltb b sb.size ≡ true
    → scan bpb (s.disks dev (bblock b sb.ninodes)) b sb.size 0 ≡ none
    → balloc_from (suc k) dev sb b s ≡ balloc_from k dev sb (b + bpb) s
unfolding balloc_from
balloc_from_next k dev sb b s h e = rw (h, e) refl

-- With a free block in reach the loop of `balloc` takes a block that is free.
pub balloc_from_some :
    (k dev : ℕ) (sb : SuperBlock) (b f : ℕ) (s : Fs)
    → b % bpb ≡ 0
    → b ≤ f
    → f < sb.size
    → f < b + k * bpb
    → is_clear (s.disks dev (bblock f sb.ninodes)) (f % bpb) ≡ true
    → (c : ℕ) × (balloc_from k dev sb b s ≡ take_block dev (bblock c sb.ninodes) (c % bpb) c s)
      × (c < sb.size)
      × (is_clear (s.disks dev (bblock c sb.ninodes)) (c % bpb) ≡ true)
balloc_from_some zero dev sb b f s al l h g free = absurd (omega arith)
balloc_from_some (suc k) dev sb b f s al l h g free =
    let bno = bblock b sb.ninodes in
    let m = s.disks dev bno in
    let below : ltb b sb.size ≡ true = ground arith in
    elim (Option-cases (scan bpb m b sb.size 0)) [
      | inr (bi, e) ↦
          let (_, u, v, w) = scan-some bpb m b sb.size 0 bi e in
          let at : bblock (b + bi) sb.ninodes ≡ bno = omega arith in
          let r : (b + bi) % bpb ≡ bi = omega arith in
          (b + bi, rw (at, r) (unfold balloc_from in rw (below, e) refl), v, rw (at, r) w)
      | inl e ↦
          let away : b + bpb ≤ f = elim (Bool-cases (leb (b + bpb) f)) [
            | inl y ↦ ground arith
            | inr n ↦
                let near : f < b + bpb = ground arith in
                let at : bblock f sb.ninodes ≡ bno = omega arith in
                let r : f % bpb ≡ f - b = omega arith in
                let no =
                  scan-none bpb m b sb.size 0 (f - b) e (omega arith) (omega arith) (omega arith) in
                let yes_free = rw (at, r) at free in absurd (cc)
          ] in
          let (c, eq, lt, ok_free) =
            balloc_from_some k dev sb (b + bpb) f s (omega arith) away h (omega arith) free in
          (c, balloc_from_next k dev sb b s below e ∙ eq, lt, ok_free)
    ]

pub balloc_from_none :
    (k dev : ℕ) (sb : SuperBlock) (b : ℕ) (s : Fs)
    → b % bpb ≡ 0
    → ((f : ℕ) → f < sb.size → is_clear (s.disks dev (bblock f sb.ninodes)) (f % bpb) ≡ false)
    → balloc_from k dev sb b s ≡ (panic, s)
unfolding balloc_from
balloc_from_none zero dev sb b s al full = refl
balloc_from_none (suc k) dev sb b s al full = elim (Bool-cases (ltb b sb.size)) [
  | inr h ↦ rw h refl
  | inl h ↦ elim (Option-cases (scan bpb (s.disks dev (bblock b sb.ninodes)) b sb.size 0)) [
    | inl e ↦ rw (h, e) (balloc_from_none k dev sb (b + bpb) s (omega arith) full)
    | inr (bi, e) ↦
        let (_, u, v, w) = scan-some bpb (s.disks dev (bblock b sb.ninodes)) b sb.size 0 bi e in
        let at : bblock (b + bi) sb.ninodes ≡ bblock b sb.ninodes = omega arith in
        let r : (b + bi) % bpb ≡ bi = omega arith in
        let no = rw (at, r) at (full (b + bi) v) in absurd (cc)
  ]
]
