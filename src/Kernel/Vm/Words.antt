-- ===== src/Kernel/Vm/Words.antt =====
-- The words of a page table: kernel/vm.c joins an address and flags by `|`.
use Prim.Native.Nat.{max, digits, bit_or, bit_or-bitwise}
use base_system.Base.{
  ℕ, zero, suc, ◌+◌, ◌*◌, ◌/◌, ◌%◌, ◌^◌, ◌≤◌, ◌<◌, ◌≡◌, ◌≢◌, refl, sym, inl, inr, true, false, ◌&&◌,
  arith, ltb, leb, Bool-cases,
}
use base_system.Kernel.Text.{Memory}
use base_system.Kernel.Pages.{pgsize}
use base_system.Kernel.Fs.{uint_at, put_uint}
use base_system.Kernel.Fs.Inodes.Layout.{uint_same, put_uint_apart}
use base_system.Kernel.Vm.{pte_addr, pte_flags, is_present, entry_for, fill_page}

abbrev or_digits : ℕ → ℕ → ℕ → ℕ
or_digits n a b = digits (λ c. c) max n a b

or_digits_fuel : (n m a b : ℕ) → a ≤ n → a ≤ m → or_digits n a b ≡ or_digits m a b
or_digits_fuel zero zero a b p q = refl
or_digits_fuel zero (suc m) zero b p q = refl
or_digits_fuel zero (suc m) (suc a) b p q = absurd (omega arith)
or_digits_fuel (suc n) zero zero b p q = refl
or_digits_fuel (suc n) zero (suc a) b p q = absurd (omega arith)
or_digits_fuel (suc n) (suc m) zero b p q = refl
or_digits_fuel (suc n) (suc m) (suc a) b p q =
    omega (arith, or_digits_fuel n m (suc a / 2) (b / 2) (omega arith) (omega arith))

zero-bit_or : (b : ℕ) → bit_or 0 b ≡ b
zero-bit_or b = bit_or-bitwise 0 b

bit_or_step : (a b : ℕ) → bit_or a b ≡ bit_or (a / 2) (b / 2) * 2 + max (a % 2) (b % 2)
bit_or_step zero b = omega (arith, zero-bit_or b, zero-bit_or (b / 2))
bit_or_step (suc a) b = omega (
  arith,
  bit_or-bitwise (suc a) b,
  bit_or-bitwise (suc a / 2) (b / 2),
  or_digits_fuel a (suc a / 2) (suc a / 2) (b / 2) (omega arith) (omega arith),
)

bit_or-zero_fuel : (n a : ℕ) → a ≤ n → bit_or a 0 ≡ a
bit_or-zero_fuel n zero h = refl
bit_or-zero_fuel zero (suc a) h = absurd (omega arith)
bit_or-zero_fuel (suc n) (suc a) h =
    omega (arith, bit_or_step (suc a) 0, bit_or-zero_fuel n (suc a / 2) (omega arith))

bit_or-zero : (a : ℕ) → bit_or a 0 ≡ a
bit_or-zero a = bit_or-zero_fuel a a (omega arith)

-- The digits of `u` do not meet those of numbers below `t`.
abbrev IsHigh : ℕ → ℕ → Type 0
IsHigh u t = (a b : ℕ) → a < t → b < t → bit_or (u + a) b ≡ u + bit_or a b

one_IsHigh : (u : ℕ) → IsHigh u 1
one_IsHigh u a b p q =
    let za : a ≡ 0 = omega arith in
    let zb : b ≡ 0 = omega arith in
    let e : u + 0 ≡ u = omega arith in rw (za, zb, e) (omega (arith, bit_or-zero u))

double_IsHigh : (u t : ℕ) → IsHigh u t → IsHigh (u * 2) (t * 2)
double_IsHigh u t h a b p q =
    let e : (u * 2 + a) / 2 ≡ u + a / 2 = omega arith in
    let s = rw e at (bit_or_step (u * 2 + a) b) in
    let halves = h (a / 2) (b / 2) (omega arith) (omega arith) in
    omega (arith, s, halves, bit_or_step a b)

abbrev doubled : ℕ → ℕ → ℕ
doubled zero q = q
doubled (suc n) q = doubled n q * 2

doubled-IsHigh : (n q : ℕ) → IsHigh (doubled n q) (doubled n 1)
doubled-IsHigh zero q = one_IsHigh q
doubled-IsHigh (suc n) q = double_IsHigh (doubled n q) (doubled n 1) (doubled-IsHigh n q)

page-bit_or : (q b : ℕ) → b < 4096 → bit_or (q * 4096) b ≡ q * 4096 + b
page-bit_or q b l =
    let h : bit_or (doubled 12 q + 0) b ≡ doubled 12 q + bit_or 0 b =
      doubled-IsHigh 12 q 0 b (omega arith) l in
    let e : doubled 12 q + 0 ≡ q * 4096 = omega arith in
    let k = rw e at h in omega (arith, k, zero-bit_or b)

bit_or-one : (a : ℕ) → bit_or a 1 ≡ a / 2 * 2 + 1
bit_or-one a = omega (arith, bit_or_step a 1, bit_or-zero (a / 2))

pub entry_for_lem :
    (pa perm : ℕ) → pa % 4096 ≡ 0 → perm < 4096 → entry_for pa perm ≡ pa + perm / 2 * 2 + 1
entry_for_lem pa perm al l =
    let e : pa ≡ pa / 4096 * 4096 = omega arith in
    let o = page-bit_or (pa / 4096) perm l in
    let k = rw (sym e) at o in omega (arith, k, bit_or-one (bit_or pa perm))

-- The entry of the page at an aligned address of 32 bits with flags below 4096 fits in 32 bits and is
-- present; `PTE_ADDR` gives the address back, and `PTE_FLAGS` the flags with `PTE_P`.
pub entry_roundtrip :
    (pa perm : ℕ)
    → pa % 4096 ≡ 0
    → pa < 2 ^ 32
    → perm < 4096
    → (entry_for pa perm < 2 ^ 32)
      × (is_present (entry_for pa perm) ≡ true)
      × (pte_addr (entry_for pa perm) ≡ pa)
      × (pte_flags (entry_for pa perm) ≡ perm / 2 * 2 + 1)
entry_roundtrip pa perm al w l =
    let e = entry_for_lem pa perm al l in
    (omega (arith, e), ground (arith, e), omega (arith, e), omega (arith, e))

-- Words at different places.
pub uint_apart :
    (p q v : ℕ) (m : Memory)
    → p % 4 ≡ 0
    → q % 4 ≡ 0
    → p ≢ q
    → uint_at (put_uint p v m) q ≡ uint_at m q
uint_apart p q v m a b n = uint_same q m (put_uint p v m) (λ i l u.
    put_uint_apart p v i m (elim (Bool-cases (ltb q p)) [
      | inl e ↦ inl (ground arith)
      | inr e ↦ elim (Bool-cases (ltb p q)) [
        | inl f ↦ inr (ground arith)
        | inr f ↦ absurd (n (ground arith))
      ]
    ]))

pub fill_apart :
    (v b q : ℕ) (m : Memory)
    → v % 4096 ≡ 0
    → q % 4 ≡ 0
    → q / 4096 * 4096 ≢ v
    → uint_at (fill_page v b m) q ≡ uint_at m q
fill_apart v b q m a al n = uint_same q m (fill_page v b m) (λ i l u.
    let out : leb v i && ltb i (v + pgsize) ≡ false = elim (Bool-cases (ltb q v)) [
      | inl e ↦ ground arith
      | inr e ↦ elim (Bool-cases (ltb q (v + 4096))) [
        | inl f ↦ absurd (n (ground arith))
        | inr f ↦ ground arith
      ]
    ] in
    rw out refl)

pub fill_zero : (v i : ℕ) (m : Memory) → i < 1024 → uint_at (fill_page v 0 m) (v + i * 4) ≡ 0
fill_zero v i m l =
    uint_same (v + i * 4) (λ _. 0) (fill_page v 0 m)
      (λ j a u. let inside : leb v j && ltb j (v + pgsize) ≡ true = ground arith in rw inside refl)
