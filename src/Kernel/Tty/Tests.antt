-- ===== src/Kernel/Tty/Tests.antt =====
-- The terminal at its start, and at indices that wrap around.
use base_system.Base.{
  ℕ, ◌-◌, ◌^◌, ◌≤◌, ◌≡◌, refl, pos, true, false, List, [], ◌∷◌, arith, length, replicate, codes,
}
use base_system.Kernel.Tty.{Input, ttyintr, ttyread, returned, key}
use base_system.Kernel.Tty.Window.{IsInput, committed, edited}
use base_system.Kernel.Tty.Lines.{lines_of, edit_all}
use base_system.Kernel.Tty.Editor.{ttyintr_lem}
use base_system.Kernel.Tty.Typed.{typed_line, typed_roundtrip}
use base_system.Kernel.Tty.Reads.{IsRead, ttyread_lem}
use base_system.Kernel.Tty.Printf.{printint, cprintf, cprintf_from, put_back, digits_from}
use base_system.Kernel.Tty.Numbers.{read_int, int_of, printint_roundtrip}

abbrev wrapping : Input
wrapping = record { buf = replicate 128 0; r = 2 ^ 32 - 2; w = 2 ^ 32 - 2; e = 2 ^ 32 - 2 }

wrapping-IsInput : IsInput wrapping
wrapping-IsInput = record {
  storage = refl;
  r_in = omega arith;
  w_in = omega arith;
  e_in = omega arith;
  room = omega arith;
  line = tt;
}

-- "ab", backspace, "c", return
abbrev keys : List ℕ
keys = 97 ∷ 98 ∷ 8 ∷ 99 ∷ 13 ∷ []

edits_a_line : committed (ttyintr keys wrapping).1 ≡ 97 ∷ 99 ∷ 10 ∷ []
unfolding ttyintr key
edits_a_line = refl

-- ^D alone is not committed.
keeps_end_of_file : committed (ttyintr (4 ∷ []) wrapping).1 ≡ []
unfolding ttyintr key
keeps_end_of_file = refl

ttyintr_lem_example :
    IsInput (ttyintr keys wrapping).1
    × (lines_of (ttyintr keys wrapping).1 ≡ edit_all keys (lines_of wrapping))
ttyintr_lem_example = ttyintr_lem keys wrapping wrapping-IsInput

ttyread_lem_example : IsRead false 5 wrapping (ttyread false 5 wrapping)
ttyread_lem_example = ttyread_lem false 5 wrapping wrapping-IsInput

typed_roundtrip_example :
    (u : Input) × (ttyread false 9 (typed_line (97 ∷ 98 ∷ 99 ∷ []) wrapping)
      ≡ returned (97 ∷ 98 ∷ 99 ∷ 10 ∷ []) u)
    × IsInput u
    × (committed u ≡ [])
    × (edited u ≡ [])
typed_roundtrip_example =
    typed_roundtrip false (97 ∷ 98 ∷ 99 ∷ []) 9 wrapping wrapping-IsInput refl refl
      (refl, (refl, (refl, tt))) (omega arith) (omega arith)

prints_the_lowest : printint (2 ^ 31) 10 true ≡ codes "-2147483648"
unfolding printint put_back digits_from
prints_the_lowest = refl

prints_formats : cprintf (λ _. 0x2a) (λ _. []) (codes "%d %x%%") ≡ codes "42 2a%"
unfolding cprintf_from printint put_back digits_from
prints_formats = refl

printint_roundtrip_example :
    (read_int 10 (printint (2 ^ 31) 10 true) ≡ int_of (2 ^ 31))
    × (read_int 10 (printint (2 ^ 31) 10 false) ≡ pos (2 ^ 31))
    × (length (printint (2 ^ 31) 10 true) ≤ 11)
    × (length (printint (2 ^ 31) 10 false) ≤ 11)
printint_roundtrip_example =
    printint_roundtrip (2 ^ 31) 10 (omega arith) (omega arith) (omega arith)
