-- ===== src/Kernel/Action.antt =====
-- Kernel code that reads and writes global state, and that may panic or go to sleep. The state comes
-- back on every path: what was written before a panic stays written.
use base_system.Base.{Bool, true, false, if◌then◌else◌}

pub data Result {ℓ} (A : Type ℓ) : Type ℓ where
  ok : A → Result A
  panic : Result A
  sleeps : Result A

abbrev pub Action {ℓ} : Type ℓ → Type ℓ → Type ℓ
Action S A = S → Result A × S

abbrev pub continue {ℓ} : {S A B : Type ℓ} → Result A → (A → Action S B) → Action S B
continue (ok a) f s = f a s
continue panic f s = (panic, s)
continue sleeps f s = (sleeps, s)

infixl 10 ◌>>=◌ ◌>>◌
abbrev pub ◌>>=◌ {ℓ} : {S A B : Type ℓ} → Action S A → (A → Action S B) → Action S B
◌>>=◌ m f s = continue (m s).0 f (m s).1

abbrev pub ◌>>◌ {ℓ} : {S A B : Type ℓ} → Action S A → Action S B → Action S B
m >> k = m >>= λ _. k

abbrev pub pure {ℓ} : {S A : Type ℓ} → A → Action S A
pure a s = (ok a, s)

abbrev pub gets {ℓ} : {S A : Type ℓ} → (S → A) → Action S A
gets f s = (ok (f s), s)

abbrev pub modify : {S : Type 0} → (S → S) → Action S (Unit {0})
modify f s = (ok tt, f s)

-- `if(bad) panic(...)`
abbrev pub panic_if : {S : Type 0} → Bool → Action S (Unit {0})
panic_if true s = (panic, s)
panic_if false s = (ok tt, s)

-- A predicate on states that code keeps, whatever it returns.
abbrev pub Keeps : {S A : Type 0} → (S → Type 0) → Action S A → Type 0
Keeps {S} P m = (s : S) → P s → P (m s).1

module _ {S A B : Type 0} (P : S → Type 0) where
  pub keeps_continue :
      (r : Result A) (f : A → Action S B) (s : S)
      → P s
      → ((a : A) → Keeps P (f a))
      → P (continue r f s).1
  keeps_continue (ok a) f s w h = h a s w
  keeps_continue panic f s w h = w
  keeps_continue sleeps f s w h = w

  -- A predicate is kept if a step and all that may follow it keep it.
  pub keeps_then :
      (m : Action S A) (f : A → Action S B) (s : S)
      → P s
      → Keeps P m
      → ((a : A) → Keeps P (f a))
      → P ((m >>= f) s).1
  keeps_then m f s w p h = keeps_continue (m s).0 f (m s).1 (p s w) h

module _ {S A : Type 0} (P : S → Type 0) where
  pub keeps_if :
      (b : Bool) (m n : Action S A) (s : S) → P (m s).1 → P (n s).1 → P ((if b then m else n) s).1
  keeps_if true m n s h k = h
  keeps_if false m n s h k = k

pub Keeps-panic_if : {S : Type 0} (P : S → Type 0) (b : Bool) → Keeps P (panic_if b)
Keeps-panic_if P true s w = w
Keeps-panic_if P false s w = w
