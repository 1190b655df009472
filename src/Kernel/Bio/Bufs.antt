-- ===== src/Kernel/Bio/Bufs.antt =====
-- The list of buffers as a map from sectors of disk 1 to buffers: how each list operation changes it.
use base_system.Base.{
  ℕ, suc, ◌+◌, ◌≡◌, refl, ◌≢◌, inl, inr, Bool, true, false, none, some, List, [], ◌∷◌, arith,
  if◌then◌else◌, Bool-cases,
}
use base_system.Kernel.Bio.{Buf, holds, find_buf, update_buf, is_free}

abbrev pub All : (Buf → Type 0) → List Buf → Type 0
All P [] = Unit
All P (b ∷ bs) = P b × All P bs

-- No two buffers stand for one sector of disk 1.
abbrev pub Unique : List Buf → Type 0
Unique [] = Unit
Unique (b ∷ bs) = (b.dev ≡ 1 → find_buf 1 b.sector bs ≡ none) × Unique bs

unfoldable pub free_count : List Buf → ℕ
free_count [] = 0
free_count (b ∷ bs) = if is_free b then suc (free_count bs) else free_count bs

pub find-All :
    (P : Buf → Type 0) (s : ℕ) (bs : List Buf) (b : Buf)
    → All P bs
    → find_buf 1 s bs ≡ some b
    → P b × (b.dev ≡ 1) × (b.sector ≡ s)
unfolding find_buf
find-All P s [] b h e = cc
find-All P s (x ∷ bs) b h e = elim (Bool-cases (holds 1 s x)) [
  | inl here ↦ let e' : x ≡ b = ground arith in rw (← e') (h.0, ground arith, ground arith)
  | inr there ↦ find-All P s bs b h.1 (rw there at e)
]

-- An update that keeps a buffer's place in the map.
pub record KeepsKey (f : Buf → Buf) : Type 0 where
  pub dev : (b : Buf) → (f b).dev ≡ b.dev
  pub sector : (b : Buf) → (f b).sector ≡ b.sector

pub find-update_self :
    (f : Buf → Buf) (s : ℕ) (bs : List Buf) (b : Buf)
    → KeepsKey f
    → find_buf 1 s bs ≡ some b
    → find_buf 1 s (update_buf f 1 s bs) ≡ some (f b)
unfolding find_buf update_buf
find-update_self f s [] b k e = cc
find-update_self f s (x ∷ bs) b k e =
    ground (arith, k.dev x, k.sector x, find-update_self f s bs b k)

pub find-update_ne :
    (f : Buf → Buf) (s t : ℕ) (bs : List Buf)
    → KeepsKey f
    → t ≢ s
    → find_buf 1 t (update_buf f 1 s bs) ≡ find_buf 1 t bs
unfolding find_buf update_buf
find-update_ne f s t [] k e = refl
find-update_ne f s t (x ∷ bs) k e = ground (arith, k.dev x, k.sector x, find-update_ne f s t bs k)

pub All-update :
    (P : Buf → Type 0) (f : Buf → Buf) (s : ℕ) (bs : List Buf) (b : Buf)
    → All P bs
    → find_buf 1 s bs ≡ some b
    → P (f b)
    → All P (update_buf f 1 s bs)
unfolding find_buf update_buf
All-update P f s [] b h e p = h
All-update P f s (x ∷ bs) b h e p = elim (Bool-cases (holds 1 s x)) [
  | inl here ↦ let e' : b ≡ x = ground arith in rw here (rw e' at p, h.1)
  | inr there ↦ rw there (h.0, All-update P f s bs b h.1 (rw there at e) p)
]

find-update_none :
    (f : Buf → Buf) (s t : ℕ) (bs : List Buf)
    → KeepsKey f
    → find_buf 1 t bs ≡ none
    → find_buf 1 t (update_buf f 1 s bs) ≡ none
unfolding find_buf update_buf
find-update_none f s t [] k e = refl
find-update_none f s t (x ∷ bs) k e =
    ground (arith, k.dev x, k.sector x, find-update_none f s t bs k)

pub Unique-update :
    (f : Buf → Buf) (s : ℕ) (bs : List Buf) → KeepsKey f → Unique bs → Unique (update_buf f 1 s bs)
unfolding update_buf
Unique-update f s [] k u = u
Unique-update f s (x ∷ bs) k u = elim (Bool-cases (holds 1 s x)) [
  | inl here ↦ rw (here, k.dev x, k.sector x) u
  | inr there ↦
      rw there (λ d. find-update_none f s x.sector bs k (u.0 d), Unique-update f s bs k u.1)
]

abbrev pub one_if : Bool → ℕ
one_if true = 1
one_if false = 0

pub free_count-update :
    (f : Buf → Buf) (s : ℕ) (bs : List Buf) (b : Buf)
    → find_buf 1 s bs ≡ some b
    → free_count bs + one_if (is_free (f b)) ≡ free_count (update_buf f 1 s bs) + one_if (is_free b)
unfolding find_buf update_buf free_count
free_count-update f s [] b e = cc
free_count-update f s (x ∷ bs) b e = elim (Bool-cases (holds 1 s x)) [
  | inl here ↦ let e' : x ≡ b = ground arith in rw (here, e') (ground arith)
  | inr there ↦ rw there (ground (arith, free_count-update f s bs b))
]

pub update-update :
    (f g : Buf → Buf) (s : ℕ) (bs : List Buf)
    → KeepsKey f
    → update_buf g 1 s (update_buf f 1 s bs) ≡ update_buf (λ b. g (f b)) 1 s bs
unfolding update_buf
update-update f g s [] k = refl
update-update f g s (x ∷ bs) k = ground (arith, k.dev x, k.sector x, update-update f g s bs k)
