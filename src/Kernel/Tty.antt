-- ===== src/Kernel/Tty.antt =====
-- kernel/tty.c: the line editor of the terminal behind `ttyintr` and `ttyread`, and the console's
-- output. What the code does outside the input buffer is a list of events. `input.lock` makes a key,
-- and a read up to its end or its sleep, one step.
pub mod Window
pub mod Lines
pub mod Insert
pub mod Editor
pub mod Reads
pub mod Typed
pub mod Printf
pub mod Numbers
mod Tests
use base_system.Base.{
  ℕ, zero, suc, ◌+◌, ◌-◌, ◌*◌, ◌/◌, ◌%◌, ◌^◌, ℤ, pos, minus_one, Bool, true, false, not, ◌&&◌, ◌||◌,
  List, [], ◌∷◌, ◌++◌, ◌==◌, ltb, leb, if◌then◌else◌, get_or, set, length,
}

abbrev pub input_buf : ℕ
input_buf = 128

abbrev pub uint_mod : ℕ
uint_mod = 2 ^ 32

-- `BACKSPACE`, a code beside the characters.
abbrev pub backspace : ℕ
backspace = 0x100

-- `input`: the indices to read, to the end of what is committed, and to edit.
pub record Input : Type 0 where
  pub buf : List ℕ
  pub r : ℕ
  pub w : ℕ
  pub e : ℕ

-- `consputc`, `procdump`, `killcur`, and `wakeup(&input.r)`
pub data Event : Type 0 where
  shows : ℕ → Event
  dumps kills wakes : Event

-- What `consputc` sends to the serial port.
abbrev pub uart_bytes : ℕ → List ℕ
uart_bytes c = if c == backspace then 8 ∷ 32 ∷ 8 ∷ [] else c ∷ []

-- `input.e--`
abbrev pub edit_back : Input → Input
edit_back t = record t { e = (t.e + uint_mod - 1) % uint_mod }

-- The loop of kill line; it goes from the edit index to the write index at most.
unfoldable pub kill_line : ℕ → Input → List Event × Input
kill_line zero t = ([], t)
kill_line (suc k) t =
    let rest = kill_line k (edit_back t) in
    if t.e == t.w || get_or t.buf ((t.e + uint_mod - 1) % uint_mod % input_buf) 0 == 10
    then ([], t)
    else (shows backspace ∷ rest.0, rest.1)

-- `input.buf[input.e++ % INPUT_BUF] = c`
abbrev pub store_key : ℕ → Input → Input
store_key c t = record t { buf = set t.buf (t.e % input_buf) c; e = (t.e + 1) % uint_mod }

-- `input.w = input.e`
abbrev pub commit_line : Input → Input
commit_line t = record t { w = t.e }

-- The character that is stored for a key.
abbrev pub char_of : ℕ → ℕ
char_of c = if c == 13 then 10 else c

-- The default case, with room.
abbrev pub insert_key : ℕ → Input → List Event × Input
insert_key c t =
    let t1 = store_key c t in
    if c == 10 || c == 3 || t1.e == (t1.r + input_buf) % uint_mod
    then (shows c ∷ wakes ∷ [], commit_line t1)
    else (shows c ∷ [], t1)

-- The body of the loop of `ttyintr` for the key `c`.
unfoldable pub key : ℕ → Input → List Event × Input
key c t =
    if c == 16
    then (dumps ∷ [], t)
    else if c == 23
    then kill_line ((t.e + uint_mod - t.w) % uint_mod) t
    else if c == 8 || c == 127
    then (if t.e == t.w then ([], t) else (shows backspace ∷ [], edit_back t))
    else if c == 3
    then (kills ∷ [], t)
    else if not (c == 0) && ltb ((t.e + uint_mod - t.r) % uint_mod) input_buf
    then insert_key (char_of c) t
    else ([], t)

-- `ttyintr` for the keys that `getc` gives before it has no more.
unfoldable pub ttyintr : List ℕ → Input → List Event × Input
ttyintr [] t = ([], t)
ttyintr (c ∷ cs) t = let rest = ttyintr cs (key c t).1 in ((key c t).0 ++ rest.0, rest.1)

-- How `ttyread` leaves: it returned the number of the bytes copied, it returned -1 since the process
-- was killed, or it sleeps, with bytes copied and `n` still wanted.
pub data Reading : Type 0 where
  returned : List ℕ → Input → Reading
  interrupted : List ℕ → Input → Reading
  asleep : List ℕ → ℕ → Input → Reading

abbrev pub copied : ℕ → Reading → Reading
copied c (returned bytes t) = returned (c ∷ bytes) t
copied c (interrupted bytes t) = interrupted (c ∷ bytes) t
copied c (asleep bytes n t) = asleep (c ∷ bytes) n t

-- The loop of `ttyread` for `n` bytes; a sleeping reader goes on here with what it still wants.
unfoldable pub ttyread : Bool → ℕ → Input → Reading
ttyread killed zero t = returned [] t
ttyread killed (suc n) t =
    let c = get_or t.buf (t.r % input_buf) 0 in
    let t1 = record t { r = (t.r + 1) % uint_mod } in
    let rest = ttyread killed n t1 in
    if t.r == t.w
    then (if killed then interrupted [] t else asleep [] (suc n) t)
    else if c == 4
    then returned [] t1
    else if c == 10
    then returned (c ∷ []) t1
    else copied c rest

-- `ttywrite`: the characters that it puts out, and its result.
abbrev pub ttywrite : List ℕ → List Event × ℕ
ttywrite [] = ([], 0)
ttywrite (c ∷ cs) = (shows c ∷ (ttywrite cs).0, suc (ttywrite cs).1)

-- The screen of the console: its 16-bit cells and the cursor.
pub record Screen : Type 0 where
  pub cells : ℕ → ℕ
  pub pos : ℕ

-- `crt[pos] = ' ' | (15 << 8)`
abbrev pub put_cell : ℕ → ℕ → Screen → Screen
put_cell p v s = record s { cells = λ i. if i == p then v else s.cells i }

-- Where `cgaputc` writes and moves the cursor.
abbrev pub advance : ℕ → Screen → Screen
advance c s =
    if c == 10
    then record s { pos = s.pos + (80 - s.pos % 80) }
    else if c == backspace
    then record s { pos = s.pos - 1 }
    else record (put_cell s.pos (15 * 256 + c % 256) s) { pos = s.pos + 1 }

-- `cgaputc` as it is compiled without `LEGACY_FB`; the cursor's registers keep 16 bits.
unfoldable pub cgaputc : ℕ → Screen → Screen
cgaputc c s =
    let s1 = advance c s in record (put_cell s1.pos (15 * 256 + 32) s1) { pos = s1.pos % 2 ^ 16 }

-- `clear`
abbrev pub clear : Screen → Screen
clear s = record { cells = λ i. if ltb i 2000 then 0 else s.cells i; pos = 0 }
