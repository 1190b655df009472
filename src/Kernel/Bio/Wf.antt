-- ===== src/Kernel/Bio/Wf.antt =====
-- When the buffer cache is coherent with the disk, and what the calls of kernel/bio.c leave alone.
use base_system.Base.{
  ℕ, suc, ◌+◌, ◌≤◌, ◌≡◌, ◌≢◌, ◌⊎◌, Bool, true, false, none, some, ◌∷◌, arith, if◌then◌else◌,
}
use base_system.Kernel.Action.{Result, ok}
use base_system.Kernel.Bio.{Block, Buf, Disk, Cache, disk_read, find_buf, is_free}
use base_system.Kernel.Bio.Bufs.{All, Unique, free_count}

-- A valid buffer that is not dirty has the contents of its sector, and a dirty one is valid.
pub record Good (d : Disk) (b : Buf) : Type 0 where
  pub clean : b.valid ≡ true → b.dirty ≡ false → b.contents ≡ disk_read d b.sector
  pub pinned : b.dirty ≡ true → b.valid ≡ true
  pub on_disk : b.valid ≡ true → b.dev ≡ 1

pub record IsCoherent (c : Cache) : Type 0 where
  pub good : All (Good c.disk) c.bufs
  pub unique : Unique c.bufs

abbrev pub busy_at : Cache → ℕ → Bool
busy_at c s = elim (find_buf 1 s c.bufs) [ some b ↦ b.busy | none ↦ false ]

abbrev pub dirty_at : Cache → ℕ → Bool
dirty_at c s = elim (find_buf 1 s c.bufs) [ some b ↦ b.dirty | none ↦ false ]

-- Every sector but `s` keeps its buffer, or loses one that was neither busy nor dirty.
pub record Frame (s : ℕ) (c c' : Cache) : Type 0 where
  pub others :
      (t : ℕ)
      → t ≢ s
      → (find_buf 1 t c'.bufs ≡ find_buf 1 t c.bufs)
        ⊎ ((find_buf 1 t c'.bufs ≡ none)
            × ((b : Buf) × (find_buf 1 t c.bufs ≡ some b) × (is_free b ≡ true)))

pub Frame-busy : (s t : ℕ) (c c' : Cache) → Frame s c c' → t ≢ s → busy_at c' t ≡ busy_at c t
Frame-busy s t c c' f ne = ground (arith, f.others t ne)

pub Frame-dirty : (s t : ℕ) (c c' : Cache) → Frame s c c' → t ≢ s → dirty_at c' t ≡ dirty_at c t
Frame-dirty s t c c' f ne = ground (arith, f.others t ne)

-- A buffer in use stays where it is.
pub Frame-held :
    (s t : ℕ) (c c' : Cache) (b : Buf)
    → Frame s c c'
    → t ≢ s
    → find_buf 1 t c.bufs ≡ some b
    → b.busy ≡ true
    → find_buf 1 t c'.bufs ≡ some b
Frame-held s t c c' b f ne e h = ground (arith, f.others t ne)

-- `bread` returned the buffer of `s`, in use and valid, with the disk's contents unless it is dirty.
pub record BreadDone (s : ℕ) (c : Cache) (out : Result (Unit {0}) × Cache) : Type 0 where
  pub buf : Buf
  pub returned : out.0 ≡ ok tt
  pub found : find_buf 1 s out.1.bufs ≡ some buf
  pub busy : buf.busy ≡ true
  pub valid : buf.valid ≡ true
  pub dirty : buf.dirty ≡ dirty_at c s
  pub contents : buf.dirty ≡ false → buf.contents ≡ disk_read c.disk s
  pub coherent : IsCoherent out.1
  pub disk : out.1.disk ≡ c.disk
  pub free : free_count c.bufs ≤ suc (free_count out.1.bufs)
  pub frame : Frame s c out.1

-- Filling a buffer in use and `bwrite` wrote the sector through to the disk.
pub record BwriteDone (s : ℕ) (v : Block) (c : Cache) (out : Result (Unit {0}) × Cache)
    : Type 0 where
  pub buf : Buf
  pub returned : out.0 ≡ ok tt
  pub found : find_buf 1 s out.1.bufs ≡ some buf
  pub busy : buf.busy ≡ true
  pub dirty : buf.dirty ≡ false
  pub coherent : IsCoherent out.1
  pub disk : out.1.disk ≡ record c.disk { writes = (s, v) ∷ c.disk.writes }
  pub free : free_count c.bufs ≡ free_count out.1.bufs
  pub frame : Frame s c out.1

-- `brelse` gave the buffer back, without a change to what it holds.
pub record BrelseDone (s : ℕ) (b : Buf) (c : Cache) (out : Result (Unit {0}) × Cache) : Type 0 where
  pub returned : out.0 ≡ ok tt
  pub found : find_buf 1 s out.1.bufs ≡ some (record b { busy = false })
  pub coherent : IsCoherent out.1
  pub disk : out.1.disk ≡ c.disk
  pub free : free_count c.bufs + (if b.dirty then 0 else 1) ≡ free_count out.1.bufs
  pub frame : Frame s c out.1
