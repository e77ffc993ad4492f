-- ===== src/Console.antt =====
-- The console of console.c: the line discipline on the ring of typed characters, the text screen, and
-- number printing. A function of the line discipline runs under `input.lock` up to where it returns
-- or sleeps. What goes to the screen is a list of the characters given to `consputc`.
pub mod Ring
pub mod Edits
pub mod Typing
pub mod Session
pub mod Lines
pub mod Display
mod Tests
use rain_os.Common.{
  ℕ, zero, suc, ◌+◌, ◌-◌, ◌*◌, ◌/◌, ◌%◌, Bool, true, false, not, ◌||◌, ◌&&◌, List, [], ◌∷◌, ◌++◌,
  ◌==◌, ltb, leb, if◌then◌else◌, update, add_word, sub_word,
}

abbrev pub input_buf : ℕ
input_buf = 128

-- `BACKSPACE`, and the control characters that the code names.
abbrev pub backspace : ℕ
backspace = 256

abbrev pub ctrl_d : ℕ
ctrl_d = 4

abbrev pub newline : ℕ
newline = 10

-- `input`, without its lock.
pub record Input : Type 0 where
  pub buf : ℕ → ℕ
  pub r : ℕ
  pub w : ℕ
  pub e : ℕ

-- The loop of control-U: at most as many rounds as there are characters to edit.
pub kill_line : ℕ → Input → Input × List ℕ
kill_line zero s = (s, [])
kill_line (suc k) s =
    let (s', out) = kill_line k (record s { e = sub_word s.e 1 }) in
    if not (s.e == s.w) && not (s.buf (sub_word s.e 1 % input_buf) == newline)
    then (s', backspace ∷ out)
    else (s, [])

-- A character is stored.
pub store : ℕ → Input → Input
store c s = record s { buf = update s.buf (s.e % input_buf) (c % 256); e = add_word s.e 1 }

-- A character is stored, and the line is handed to the readers if it is complete.
pub insert : ℕ → Input → Input × List ℕ
unfolding store
insert c s =
    let s' = store c s in
    if c == newline || (c == ctrl_d || s'.e == add_word s'.r input_buf)
    then (record s' { w = s'.e }, c ∷ [])
    else (s', c ∷ [])

-- A round of `consoleintr`, with what it sends to the screen; control-P only lists the processes.
pub key : ℕ → Input → Input × List ℕ
unfolding kill_line insert
key c s =
    if c == 16
    then (s, [])
    else if c == 21
    then kill_line (sub_word s.e s.w) s
    else if c == 8 || c == 127
    then if not (s.e == s.w) then (record s { e = sub_word s.e 1 }, backspace ∷ []) else (s, [])
    else if not (c == 0) && ltb (sub_word s.e s.r) input_buf
    then insert (if c == 13 then newline else c) s
    else (s, [])

-- `consoleintr` with what `getc` returns up to the first negative number.
pub consoleintr : List ℕ → Input → Input × List ℕ
unfolding key
consoleintr [] s = (s, [])
consoleintr (c ∷ cs) s =
    let (s1, out) = key c s in let (s2, more) = consoleintr cs s1 in (s2, out ++ more)

-- `returned`: the bytes put at `dst`; their number is returned. `interrupted`: returns -1. `sleeping`:
-- sleeps on `&input.r`, with so many bytes to go.
pub data Read (S : Type 0) : Type 0 where
  returned : List ℕ → S → Read S
  interrupted : List ℕ → S → Read S
  sleeping : List ℕ → ℕ → S → Read S

abbrev pub after : {S : Type 0} → ℕ → Read S → Read S
after x (returned xs s) = returned (x ∷ xs) s
after x (interrupted xs s) = interrupted (x ∷ xs) s
after x (sleeping xs n s) = sleeping (x ∷ xs) n s

-- The loop of `consoleread` with `n` bytes to go of `target`; at the start, and after a sleep, it is
-- called again. `killed` is `proc->killed`.
pub read_from : (killed : Bool) (target n : ℕ) → Input → Read Input
read_from killed target zero s = returned [] s
read_from killed target (suc n) s =
    let c = s.buf (s.r % input_buf) in
    let s' = record s { r = add_word s.r 1 } in
    let rest = read_from killed target n s' in
    if s.r == s.w
    then if killed then interrupted [] s else sleeping [] (suc n) s
    else if c == ctrl_d
    then if ltb (suc n) target
      then returned [] (record s' { r = sub_word s'.r 1 })
      else returned [] s'
    else if c == newline
    then returned (c ∷ []) s'
    else after c rest

pub consoleread : (killed : Bool) (n : ℕ) → Input → Read Input
unfolding read_from
consoleread killed n s = read_from killed n n s

-- The screen's cells, and the cursor's position, which the hardware keeps.
pub record Screen : Type 0 where
  pub crt : ℕ → ℕ
  pub pos : ℕ

abbrev pub cell : ℕ → ℕ
cell c = c % 256 + 0x700

-- The text moves up by a line: `memmove`, then `memset`.
abbrev pub scroll_up : (ℕ → ℕ) → (pos : ℕ) → ℕ → ℕ
scroll_up crt pos a =
    let moved : ℕ = if ltb a (23 * 80) then crt (a + 80) else crt a in
    if leb pos a && ltb a (24 * 80) then 0 else moved

pub cgaputc : ℕ → Screen → Screen
cgaputc c s =
    let s1 : Screen =
      if c == newline
      then record s { pos = s.pos + (80 - s.pos % 80) }
      else if c == backspace
      then if ltb 0 s.pos then record s { pos = s.pos - 1 } else s
      else record { crt = update s.crt s.pos (cell c); pos = s.pos + 1 } in
    let s2 : Screen =
      if leb 24 (s1.pos / 80)
      then record { crt = scroll_up s1.crt (s1.pos - 80); pos = s1.pos - 80 }
      else s1 in
    record s2 { crt = update s2.crt s2.pos (cell 32) }

-- What `consputc` sends to the serial port.
pub uart_output : ℕ → List ℕ
uart_output c = if c == backspace then 8 ∷ 32 ∷ 8 ∷ [] else c ∷ []

-- The loop of `consolewrite`.
pub consolewrite : List ℕ → Screen → Screen
unfolding cgaputc
consolewrite [] s = s
consolewrite (x ∷ xs) s = consolewrite xs (cgaputc (x % 256) s)
