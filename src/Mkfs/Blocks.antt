-- ===== src/Mkfs/Blocks.antt =====
-- The blocks that mkfs/mkfs.c gives out, and the bitmap of the image that it leaves.
use base_system.Base.{
  ℕ, zero, suc, ◌+◌, ◌-◌, ◌*◌, ◌/◌, ◌<◌, ◌≡◌, refl, ap, ◌∙◌, inl, inr, not, List, [], ◌∷◌, arith,
  ◌==◌, ltb, leb, Bool-cases, length, drop, get_or, codes,
}
use base_system.Kernel.Action.{
  Action, Result, continue, ok, panic, sleeps, ◌>>=◌, pure, gets, panic_if, Keeps, keeps_then,
  Keeps-panic_if,
}
use base_system.Kernel.Fs.{Inode, uint_at, iblock}
use base_system.Kernel.Fs.Inodes.{ndirect, nindirect, dinode_offset, load_dinode, no_inode}
use base_system.Kernel.Fs.Content.{t_dir, t_file}
use base_system.Kernel.Fs.Blocks.{is_clear}
use base_system.Mkfs.{
  Image, winode, rinode, ialloc, next_block, address, indirect, sector_of, piece, append_from,
  iappend, dirent, adddir, balloc, empty_image, Places, make_root, make_usr, make_dirs, place,
  HostFile, append_reads, add_file, add_files, round_root, fill_image, mkfs,
}
use base_system.Mkfs.Bitmap.{bitmap_sector, balloc_lem}

-- `usedblocks` is what `freeblock` is.
abbrev pub IsEven : Image → Type 0
IsEven s = s.usedblocks ≡ s.freeblock

Keeps-address : (i : ℕ) (ip : Inode) → Keeps IsEven (address i ip)
unfolding address next_block
Keeps-address i ip s w = elim (Bool-cases (get_or ip.addrs i 0 == 0)) [
  | inl e ↦ rw e (ap (λ n. n + 1) w)
  | inr e ↦ rw e w
]

Keeps-indirect : (b i : ℕ) → Keeps IsEven (indirect b i)
unfolding indirect next_block
Keeps-indirect b i s w = elim (Bool-cases (uint_at (s.sectors b) (i * 4) == 0)) [
  | inl e ↦ rw e (ap (λ n. n + 1) w)
  | inr e ↦ rw e w
]

Keeps-sector_of : (fbn : ℕ) (ip : Inode) → Keeps IsEven (sector_of fbn ip)
unfolding sector_of
Keeps-sector_of fbn ip s w = elim (Bool-cases (ltb fbn ndirect)) [
  | inl e ↦ rw e (keeps_then IsEven (address fbn ip) _ s w (Keeps-address fbn ip) (λ din s1 w1. w1))
  | inr e ↦ rw e (
      keeps_then IsEven (address ndirect ip)
        (λ din. indirect (get_or din.addrs ndirect 0) (fbn - ndirect) >>= λ x. pure (din, x)) s w
        (Keeps-address ndirect ip)
        (λ din s1 w1.
          keeps_then IsEven (indirect (get_or din.addrs ndirect 0) (fbn - ndirect)) _ s1 w1
            (Keeps-indirect (get_or din.addrs ndirect 0) (fbn - ndirect)) (λ x s2 w2. w2)))
]

Keeps-append_from : (k off : ℕ) (ip : Inode) (p : List ℕ) → Keeps IsEven (append_from k off ip p)
unfolding append_from
Keeps-append_from zero off ip p s w = w
Keeps-append_from (suc k) off ip p s w =
    let n1 = piece (length p) off in
    elim (Bool-cases (length p == 0)) [
      | inl e ↦ rw e w
      | inr e ↦ rw e (
          keeps_then IsEven (panic_if (leb (ndirect + nindirect) (off / 512))) _ s w
            (Keeps-panic_if IsEven (leb (ndirect + nindirect) (off / 512)))
            (λ _ s1 w1.
              keeps_then IsEven (sector_of (off / 512) ip) _ s1 w1 (Keeps-sector_of (off / 512) ip)
                (λ (din, x) s2 w2. Keeps-append_from k (off + n1) din (drop n1 p) _ w2)))
    ]

Keeps-iappend : (inum : ℕ) (p : List ℕ) → Keeps IsEven (iappend inum p)
unfolding iappend rinode winode
Keeps-iappend inum p s w =
    let ip = load_dinode (s.sectors (iblock inum)) (dinode_offset inum) no_inode in
    keeps_then IsEven (append_from (length p) ip.size ip p) _ s w
      (Keeps-append_from (length p) ip.size ip p) (λ din s1 w1. w1)

Keeps-ialloc : (type : ℕ) → Keeps IsEven (ialloc type)
unfolding ialloc winode
Keeps-ialloc type s w = w

-- An entry in a directory, and what follows.
then_iappend :
    {B : Type 0} (inum : ℕ) (p : List ℕ) (f : Unit {0} → Action Image B) (s : Image)
    → IsEven s
    → Keeps IsEven (f tt)
    → IsEven ((iappend inum p >>= f) s).1
then_iappend inum p f s w h =
    keeps_then IsEven (iappend inum p) f s w (Keeps-iappend inum p) (λ _. h)

Keeps-adddir : (name : List ℕ) (parino : ℕ) → Keeps IsEven (adddir name parino)
unfolding adddir
Keeps-adddir name parino s w =
    keeps_then IsEven (ialloc t_dir) _ s w (Keeps-ialloc t_dir) (λ inum s1 w1.
      then_iappend parino (dirent inum name) _ s1 w1 (λ s2 w2.
        then_iappend inum (dirent inum (codes ".")) _ s2 w2
          (λ s3 w3. then_iappend inum (dirent parino (codes "..")) _ s3 w3 (λ s4 w4. w4))))

Keeps-make_root : Keeps IsEven make_root
unfolding make_root
Keeps-make_root s w = keeps_then IsEven (ialloc t_dir) _ s w (Keeps-ialloc t_dir) (λ root s1 w1.
    keeps_then IsEven (panic_if (not (root == 1))) _ s1 w1 (Keeps-panic_if IsEven (not (root == 1)))
      (λ _ s2 w2.
        then_iappend root (dirent root (codes ".")) _ s2 w2
          (λ s3 w3. then_iappend root (dirent root (codes "..")) _ s3 w3 (λ s4 w4. w4))))

then_adddir :
    {B : Type 0} (name : List ℕ) (parino : ℕ) (f : ℕ → Action Image B) (s : Image)
    → IsEven s
    → ((i : ℕ) → Keeps IsEven (f i))
    → IsEven ((adddir name parino >>= f) s).1
then_adddir name parino f s w h =
    keeps_then IsEven (adddir name parino) f s w (Keeps-adddir name parino) h

Keeps-make_usr : (root : ℕ) → Keeps IsEven (make_usr root)
unfolding make_usr
Keeps-make_usr root s w = then_adddir (codes "usr") root _ s w (λ usr s1 w1.
    then_adddir (codes "bin") usr _ s1 w1 (λ _ s2 w2.
      then_adddir (codes "share") usr _ s2 w2 (λ _ s3 w3.
        then_adddir (codes "local") usr _ s3 w3 (λ local s4 w4.
          then_adddir (codes "bin") local _ s4 w4 (λ _ s5 w5.
            then_adddir (codes "sbin") usr _ s5 w5
              (λ _ s6 w6. then_adddir (codes "sbin") local _ s6 w6 (λ _ s7 w7. w7)))))))

Keeps-make_dirs : (root : ℕ) → Keeps IsEven (make_dirs root)
unfolding make_dirs
Keeps-make_dirs root s w = then_adddir (codes "bin") root _ s w (λ bin s1 w1.
    then_adddir (codes "dev") root _ s1 w1 (λ _ s2 w2.
      then_adddir (codes "etc") root _ s2 w2 (λ etc s3 w3.
        then_adddir (codes "root") root _ s3 w3 (λ home s4 w4.
          then_adddir (codes "proc") root _ s4 w4 (λ _ s5 w5.
            then_adddir (codes "sbin") root _ s5 w5 (λ sbin s6 w6.
              keeps_then IsEven (make_usr root) _ s6 w6 (Keeps-make_usr root) (λ _ s7 w7. w7)))))))

Keeps-append_reads : (inum : ℕ) (reads : List (List ℕ)) → Keeps IsEven (append_reads inum reads)
unfolding append_reads
Keeps-append_reads inum [] s w = w
Keeps-append_reads inum (bytes ∷ reads) s w =
    then_iappend inum bytes (λ _. append_reads inum reads) s w (Keeps-append_reads inum reads)

Keeps-add_file : (d : Places) (f : HostFile) → Keeps IsEven (add_file d f)
unfolding add_file
Keeps-add_file d f s w =
    keeps_then IsEven (ialloc t_file) _ s w (Keeps-ialloc t_file) (λ inum s1 w1.
      then_iappend (place d f.name).0 (dirent inum (place d f.name).1)
        (λ _. append_reads inum f.reads) s1 w1 (Keeps-append_reads inum f.reads))

Keeps-add_files : (d : Places) (fs : List HostFile) → Keeps IsEven (add_files d fs)
unfolding add_files
Keeps-add_files d [] s w = w
Keeps-add_files d (f ∷ fs) s w =
    keeps_then IsEven (add_file d f) (λ _. add_files d fs) s w (Keeps-add_file d f)
      (λ _. Keeps-add_files d fs)

Keeps-fill_image : (files : List HostFile) → Keeps IsEven (fill_image files)
unfolding fill_image round_root rinode winode
Keeps-fill_image files s w = keeps_then IsEven make_root _ s w Keeps-make_root (λ root s1 w1.
    keeps_then IsEven (make_dirs root) _ s1 w1 (Keeps-make_dirs root) (λ d s2 w2.
      keeps_then IsEven (add_files d files) _ s2 w2 (Keeps-add_files d files) (λ _ s3 w3. w3)))

-- The end of `mkfs` behind the result of what fills the image.
marked :
    (r : Result (Unit {0})) (s : Image) (j : ℕ)
    → IsEven s
    → (continue r (λ _. gets (λ t. t.usedblocks) >>= balloc) s).0 ≡ ok tt
    → let t = (continue r (λ _. gets (λ t. t.usedblocks) >>= balloc) s).1 in
      (is_clear (t.sectors bitmap_sector) j ≡ leb t.freeblock j) × (t.freeblock < 4096)
unfolding balloc
marked panic s j w h = absurd (cc)
marked sleeps s j w h = absurd (cc)
marked (ok a) s j w h = elim (Bool-cases (leb 4096 s.usedblocks)) [
  | inl e ↦ absurd (let k = rw (e, balloc) at h in cc)
  | inr e ↦
      let l : s.usedblocks < 4096 = ground arith in
      let (_, c, f) = balloc_lem s.usedblocks j s l in
      rw f (c ∙ ap (λ n. leb n j) w, omega (arith, w, l))
]

-- If `mkfs` returns, without an assertion that fails, then in the bitmap that it leaves bit `j` is
-- clear exactly if `j` is not below the next block that it would have given out, whatever the files,
-- and that is below 4096, the bits of a sector.
pub mkfs_lem :
    (files : List HostFile) (j : ℕ)
    → (mkfs files empty_image).0 ≡ ok tt
    → (is_clear ((mkfs files empty_image).1.sectors bitmap_sector) j
        ≡ leb (mkfs files empty_image).1.freeblock j)
      × ((mkfs files empty_image).1.freeblock < 4096)
unfolding mkfs
mkfs_lem files j h =
    marked (fill_image files empty_image).0 (fill_image files empty_image).1 j
      (Keeps-fill_image files empty_image refl) h
