-- ===== src/Console/Tests.antt =====
-- A console just after start, and one that reads "hi".
use rain_os.Common.{ℕ, ◌≤◌, ◌<◌, ◌≡◌, refl, false, arith, List, [], ◌∷◌, ◌++◌}
use rain_os.Console.{
  Input, Screen, newline, consoleintr, consoleread, read_from, returned, consolewrite,
}
use rain_os.Console.Ring.{ready, IsValid}
use rain_os.Console.Edits.{abstract}
use rain_os.Console.Session.{Event, typing, reading, run, run_lines, run_lem, with_input}
use rain_os.Console.Lines.{IsPlain, consoleread-consoleintr}
use rain_os.Console.Display.{screen_size, consolewrite_lem}

-- The indices are about to wrap around.
abbrev fresh : Input
fresh = record { buf = λ i. 0; r = 0xffff_ffff; w = 0xffff_ffff; e = 0xffff_ffff }

fresh-IsValid : IsValid fresh
fresh-IsValid = record {
  read_word = omega arith;
  write_word = omega arith;
  edit_word = omega arith;
  fits = omega arith;
  one_line = tt;
}

-- "ha", a backspace, "i" and return; a read of one byte, and one of up to ten.
abbrev events : List Event
events = typing (104 ∷ 97 ∷ 8 ∷ 105 ∷ 13 ∷ []) ∷ reading false 1 1 ∷ reading false 10 10 ∷ []

run_lem_example :
    IsValid (run fresh events).0
    × (abstract (run fresh events).0 ≡ (run_lines (abstract fresh) events).0)
    × ((run fresh events).1 ≡ (run_lines (abstract fresh) events).1)
run_lem_example = run_lem fresh events fresh-IsValid (omega arith, (tt, (tt, tt)))

events-outputs :
    (run fresh events).1 ≡ returned (104 ∷ []) (105 ∷ 10 ∷ []) ∷ returned (105 ∷ 10 ∷ []) [] ∷ []
unfolding run consoleintr read_from
events-outputs = refl

plain : (c : ℕ) → 96 < c → c < 123 → IsPlain c
plain c lo hi = record {
  byte = omega arith;
  not_nul = λ q. absurd (omega arith);
  not_eof = λ q. absurd (omega arith);
  not_backspace = λ q. absurd (omega arith);
  not_newline = λ q. absurd (omega arith);
  not_return = λ q. absurd (omega arith);
  not_list = λ q. absurd (omega arith);
  not_kill = λ q. absurd (omega arith);
  not_delete = λ q. absurd (omega arith);
}

abbrev text : List ℕ
text = 104 ∷ 105 ∷ []

consoleread-consoleintr_example :
    with_input ready (consoleread false 10 (consoleintr (text ++ (newline ∷ [])) fresh).0)
    ≡ returned (text ++ (newline ∷ [])) []
consoleread-consoleintr_example =
    consoleread-consoleintr fresh false 10 text fresh-IsValid refl refl
      (plain 104 (omega arith) (omega arith), (plain 105 (omega arith) (omega arith), tt))
      (omega arith) (omega arith)

abbrev screen : Screen
screen = record { crt = λ a. 0; pos = 1919 }

consolewrite_lem_example :
    ((consolewrite (104 ∷ 10 ∷ []) screen).pos < screen_size)
    × ((a : ℕ) → screen_size ≤ a → (consolewrite (104 ∷ 10 ∷ []) screen).crt a ≡ 0)
consolewrite_lem_example = consolewrite_lem (104 ∷ 10 ∷ []) screen (omega arith)
