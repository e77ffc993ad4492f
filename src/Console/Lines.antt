-- ===== src/Console/Lines.antt =====
-- A line that is typed without control characters is what the next read returns.
use rain_os.Common.{
  ℕ, zero, suc, ◌+◌, ◌<◌, ◌≡◌, ◌≢◌, refl, ◌∙◌, ap, ap₂, Bool, false, ◌==◌, ==_false, leb, List, [],
  ◌∷◌, ◌++◌, append_assoc, arith, length, length-append, All,
}
use rain_os.Console.{
  Input, input_buf, newline, ctrl_d, consoleintr, consoleread, read_from, returned,
}
use rain_os.Console.Ring.{ready, edit, IsValid, All-append}
use rain_os.Console.Edits.{Line, abstract, insert_line, type_key}
use rain_os.Console.Typing.{type_keys, keys_lem}
use rain_os.Console.Session.{take_line, read_lem, with_input, ready_of, with_ready}

-- A character that is neither NUL nor one that the console treats in its own way.
pub record IsPlain (c : ℕ) : Type 0 where
  pub byte : c < 256
  pub not_nul : c ≢ 0
  pub not_eof : c ≢ ctrl_d
  pub not_backspace : c ≢ 8
  pub not_newline : c ≢ newline
  pub not_return : c ≢ 13
  pub not_list : c ≢ 16
  pub not_kill : c ≢ 21
  pub not_delete : c ≢ 127

type_plain :
    (c : ℕ) (xs : List ℕ)
    → IsPlain c
    → length xs + 1 < input_buf
    → type_key c (record { ready = []; edit = xs }) ≡ record { ready = []; edit = xs ++ (c ∷ []) }
unfolding type_key insert_line
type_plain c xs p lt =
    let room : leb input_buf (0 + length xs) ≡ false = ground arith in
    let open_line : (0 + length xs + 1 == input_buf) ≡ false = ground arith in
    rw (
      ==_false c 16 p.not_list,
      ==_false c 21 p.not_kill,
      ==_false c 8 p.not_backspace,
      ==_false c 127 p.not_delete,
      ==_false c 0 p.not_nul,
      room,
      ==_false c 13 p.not_return,
      ==_false c newline p.not_newline,
      ==_false c ctrl_d p.not_eof,
      open_line,
    )

type_newline :
    (xs : List ℕ)
    → length xs < input_buf
    → type_key newline (record { ready = []; edit = xs })
      ≡ record { ready = xs ++ (newline ∷ []); edit = [] }
unfolding type_key insert_line
type_newline xs lt = let room : leb input_buf (0 + length xs) ≡ false = ground arith in rw room

type_text :
    (text xs : List ℕ)
    → All IsPlain text
    → length xs + length text < input_buf
    → type_keys (text ++ (newline ∷ [])) (record { ready = []; edit = xs })
      ≡ record { ready = xs ++ (text ++ (newline ∷ [])); edit = [] }
unfolding type_keys
type_text [] xs h lt = type_newline xs (omega arith)
type_text (c ∷ text) xs h lt =
    ap (type_keys (text ++ (newline ∷ []))) (type_plain c xs h.0 (omega arith))
    ∙ type_text text (xs ++ (c ∷ [])) h.1 (omega (arith, length-append {0} xs (c ∷ [])))
    ∙ ap (λ (ys : List ℕ). record { ready = ys; edit = [] })
        (append_assoc xs (c ∷ []) (text ++ (newline ∷ [])))

take_text :
    (killed : Bool) (target n : ℕ) (text : List ℕ)
    → All IsPlain text
    → length text < n
    → take_line killed target n (text ++ (newline ∷ [])) ≡ returned (text ++ (newline ∷ [])) []
unfolding take_line
take_text killed target zero text h lt = absurd (omega arith)
take_text killed target (suc n) [] h lt = refl
take_text killed target (suc n) (c ∷ text) h lt = rw (
  ==_false c ctrl_d h.0.not_eof,
  ==_false c newline h.0.not_newline,
  take_text killed target n text h.1 (omega arith),
)

All-bytes : (text : List ℕ) → All IsPlain text → All (λ c. c < 256) text
All-bytes [] h = tt
All-bytes (c ∷ text) h = (h.0.byte, All-bytes text h.1)

-- On a console where nothing is left, a line of plain characters and its newline, together no longer
-- than the buffer, are typed. Then a read of at least as many bytes does not sleep and returns exactly
-- the line with its newline, and again nothing is left to read.
pub consoleread-consoleintr :
    (s : Input) (killed : Bool) (n : ℕ) (text : List ℕ)
    → IsValid s
    → ready s ≡ []
    → edit s ≡ []
    → All IsPlain text
    → length text < input_buf
    → length text < n
    → with_input ready (consoleread killed n (consoleintr (text ++ (newline ∷ [])) s).0)
      ≡ returned (text ++ (newline ∷ [])) []
unfolding consoleread abstract
consoleread-consoleintr s killed n text v nr ne plain short le =
    let bytes =
      All-append (λ c. c < 256) text (newline ∷ []) (All-bytes text plain) (omega arith, tt) in
    let (v1, e) = keys_lem s (text ++ (newline ∷ [])) v bytes in
    let s' = (consoleintr (text ++ (newline ∷ [])) s).0 in
    let start : abstract s ≡ record { ready = []; edit = [] } =
      ap₂ (λ (a b : List ℕ). record { ready = a; edit = b }) nr ne in
    let typed : ready s' ≡ text ++ (newline ∷ []) =
      ap Line.ready (
        e
        ∙ ap (type_keys (text ++ (newline ∷ []))) start
        ∙ type_text text [] plain (omega arith)) in
    let (v2, r) = read_lem killed n n s' v1 in
    with_ready (read_from killed n n s')
    ∙ ap (with_input Line.ready) r
    ∙ ready_of (take_line killed n n (ready s')) (edit s')
    ∙ ap (take_line killed n n) typed
    ∙ take_text killed n n text plain le
