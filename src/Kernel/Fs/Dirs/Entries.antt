-- ===== src/Kernel/Fs/Dirs/Entries.antt =====
-- The names in the entries of directories of kernel/fs.c, and the entries that `dirlink` writes.
use base_system.Base.{
  ℕ, zero, suc, ◌+◌, ◌-◌, ◌<◌, ◌≡◌, refl, sym, ap, ◌∙◌, ◌↔◌, true, false, ◌&&◌, List, [], ◌∷◌,
  arith, ◌==◌, ltb, leb, get_or, take, pos, Bool-cases, inl, inr,
}
use base_system.Kernel.Text.{Memory, strncpy}
use base_system.Kernel.Text.Strings.{c_text, strncmp_iff, strncpy_lem}
use base_system.Kernel.Path.{dirsiz}
use base_system.Kernel.Path.Elements.{text}
use base_system.Kernel.Fs.Content.{bytes_at}
use base_system.Kernel.Fs.Dirs.{name_pair, namecmp, inum_of, name_of, dirent_bytes}

-- The name that the bytes of an entry, or a longer buffer, stand for.
abbrev pub entry_name : List ℕ → List ℕ
entry_name bytes = text (take dirsiz bytes)

c_text_lem :
    (n p : ℕ) (m : Memory) (bytes : List ℕ)
    → ((i : ℕ) → i < n → m (p + i) ≡ get_or bytes i 0)
    → c_text n m p ≡ text (take n bytes)
unfolding c_text text
c_text_lem zero p m bytes h = refl
c_text_lem (suc n) p m [] h = let e : m p ≡ 0 = ap m (omega arith) ∙ h 0 (omega arith) in rw e refl
c_text_lem (suc n) p m (b ∷ bytes) h =
    let e : m p ≡ b = ap m (omega arith) ∙ h 0 (omega arith) in
    let ih = c_text_lem n (p + 1) m bytes (λ i l. ap m (omega arith) ∙ h (suc i) (omega arith)) in
    rw (e, ih) refl

first_name : (s t : List ℕ) (i : ℕ) → i < dirsiz → name_pair s t (0 + i) ≡ get_or s i 0
first_name s t i l =
    let a : ltb (0 + i) dirsiz ≡ true = ground arith in
    let b : 0 + i ≡ i = omega arith in rw a (rw b refl)

second_name : (s t : List ℕ) (i : ℕ) → i < dirsiz → name_pair s t (dirsiz + i) ≡ get_or t i 0
second_name s t i l =
    let a : ltb (dirsiz + i) dirsiz ≡ false = ground arith in
    let b : dirsiz + i - dirsiz ≡ i = omega arith in rw a (rw b refl)

-- `namecmp` answers 0 exactly if the two names are the same.
pub namecmp_iff : (s t : List ℕ) → (namecmp s t ≡ pos 0) ↔ (entry_name s ≡ entry_name t)
unfolding namecmp
namecmp_iff s t =
    let m = name_pair s t in
    let a = c_text_lem dirsiz 0 m s (first_name s t) in
    let b = c_text_lem dirsiz dirsiz m t (second_name s t) in
    let both = strncmp_iff m 0 dirsiz dirsiz in
    (λ h. sym a ∙ both.0 h ∙ b, λ h. both.1 (a ∙ h ∙ sym b))

get_or-bytes_at : (n : ℕ) (m : Memory) (p i : ℕ) → i < n → get_or (bytes_at n m p) i 0 ≡ m (p + i)
unfolding bytes_at
get_or-bytes_at zero m p i l = absurd (omega arith)
get_or-bytes_at (suc n) m p zero l = ap m (omega arith)
get_or-bytes_at (suc n) m p (suc i) l =
    get_or-bytes_at n m (p + 1) i (omega arith) ∙ ap m (omega arith)

text_again : (n : ℕ) (s : List ℕ) → text (take n (text (take n s))) ≡ text (take n s)
unfolding text
text_again zero s = refl
text_again (suc n) [] = refl
text_again (suc n) (c ∷ s) = elim (Bool-cases (c == 0)) [
  | inl e ↦ rw e refl
  | inr e ↦ rw e (rw e (ap (λ r. c ∷ r) (text_again n s)))
]

-- The entry that `dirlink` writes has the inode number, a 16-bit one, and the name that it was given.
pub dirent_bytes_lem :
    (name : List ℕ) (inum : ℕ)
    → inum < 65536
    → (inum_of (dirent_bytes name inum) ≡ inum)
      × (entry_name (name_of (dirent_bytes name inum)) ≡ entry_name name)
unfolding dirent_bytes
dirent_bytes_lem name inum l =
    let m = name_pair name [] in
    let copied = strncpy dirsiz 0 dirsiz m in
    let a : c_text dirsiz m 0 ≡ entry_name name = c_text_lem dirsiz 0 m name (first_name name []) in
    let at : (i : ℕ) → i < dirsiz → copied (dirsiz + i) ≡ get_or (entry_name name) i 0 = λ i h.
      let e = strncpy_lem dirsiz 0 dirsiz m (dirsiz + i) (ground arith) in
      let b : leb dirsiz (dirsiz + i) && ltb (dirsiz + i) (dirsiz + dirsiz) ≡ true = ground arith in
      let c : dirsiz + i - dirsiz ≡ i = omega arith in e ∙ rw b (rw c (ap (λ x. get_or x i 0) a)) in
    let new = bytes_at dirsiz copied dirsiz in
    let b = c_text_lem dirsiz dirsiz copied (entry_name name) at in
    let c =
      c_text_lem dirsiz dirsiz copied new (λ i h. sym (get_or-bytes_at dirsiz copied dirsiz i h)) in
    (omega arith, sym c ∙ b ∙ text_again dirsiz name)
