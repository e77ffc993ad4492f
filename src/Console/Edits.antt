-- ===== src/Console/Edits.antt =====
-- The ring of typed characters as two lists: the characters that can be read, and the line being
-- edited; and the steps of a key on them.
use rain_os.Common.{
  ℕ, zero, suc, ◌+◌, ◌%◌, ◌<◌, ◌≡◌, ◌≢◌, refl, sym, ◌∙◌, ap, ap₂, subst, ◌||◌, ◌==◌, ==_false, leb,
  if◌then◌else◌, List, [], ◌∷◌, ◌++◌, arith, length, All, sub_word,
}
use rain_os.Console.{Input, input_buf, newline, ctrl_d, store, kill_line}
use rain_os.Console.Ring.{
  window, ready, edit, ready_count, edit_count, IsValid, IsText, length-window, without_last,
  without_last-append, erased-IsValid, edit-erased, last-text, edit-store, ready-store,
  edit-committed, ready-committed, committed-IsValid, store-IsValid,
}

pub record Line : Type 0 where
  pub ready : List ℕ
  pub edit : List ℕ

unfoldable pub abstract : Input → Line
abstract s = record { ready = ready s; edit = edit s }

unfoldable pub insert_line : ℕ → Line → Line
insert_line c l =
    let line = l.edit ++ (c ∷ []) in
    if c == newline || (c == ctrl_d || length l.ready + length l.edit + 1 == input_buf)
    then record { ready = l.ready ++ line; edit = [] }
    else record l { edit = line }

-- What a key does: control-U drops the line, backspace and DEL its last character; any other
-- character but NUL is appended while there is room, carriage return as newline; and a newline, a
-- control-D and the last character that there is room for hand the line to the readers.
unfoldable pub type_key : ℕ → Line → Line
unfolding insert_line
type_key c l =
    if c == 16
    then l
    else if c == 21
    then record l { edit = [] }
    else if c == 8 || c == 127
    then record l { edit = without_last l.edit }
    else if c == 0 || leb input_buf (length l.ready + length l.edit)
    then l
    else insert_line (if c == 13 then newline else c) l

-- Control-U removes the whole line: it holds no newline to stop at.
pub same_counts : (s : Input) → IsValid s → s.e ≡ s.w → edit_count s ≡ 0
same_counts s v q = omega (arith, v.write_word)

pub kill_line_lem :
    (k : ℕ) (s : Input) → IsValid s → k ≡ edit_count s → (kill_line k s).0 ≡ record s { e = s.w }
unfolding kill_line
kill_line_lem zero s v q =
    let e : s.e ≡ s.w = omega (arith, v.write_word, v.edit_word, q) in
    ap (λ (i : ℕ). record s { e = i }) e
kill_line_lem (suc k) s v q =
    let ne : s.e ≢ s.w = λ z. absurd (omega (arith, q, same_counts s v z)) in
    rw
      (
        ==_false s.e s.w ne,
        ==_false (s.buf (sub_word s.e 1 % input_buf)) newline (last-text s v ne),
      )
      (kill_line_lem k (record s { e = sub_word s.e 1 }) (erased-IsValid s v ne)
        (omega (arith, q, v.write_word, v.edit_word)))

abbrev pub Refines : Input → Input → Line → Type 0
Refines s s' l = IsValid s' × (abstract s' ≡ l)

pub line_eq :
    (xs xs' ys ys' : List ℕ)
    → xs ≡ xs'
    → ys ≡ ys'
    → Path Line (record { ready = xs; edit = ys }) (record { ready = xs'; edit = ys' })
line_eq xs xs' ys ys' p q = ap₂ (λ (a b : List ℕ). record { ready = a; edit = b }) p q

pub killed_line :
    (s : Input) → IsValid s → Refines s (record s { e = s.w }) (record (abstract s) { edit = [] })
unfolding abstract
killed_line s v =
    let z : sub_word s.w s.w ≡ 0 = omega (arith, v.write_word) in
    let none_left = ap (window s.buf s.w) z in
    (
      record {
        read_word = v.read_word;
        write_word = v.write_word;
        edit_word = v.write_word;
        fits = omega (arith, v.fits, z);
        one_line = subst (All IsText) (sym none_left) tt;
      },
      line_eq (ready s) (ready s) (window s.buf s.w (sub_word s.w s.w)) [] refl none_left,
    )

pub erased_line :
    (s : Input)
    → IsValid s
    → s.e ≢ s.w
    → Refines s
        (record s { e = sub_word s.e 1 })
        (record (abstract s) { edit = without_last (edit s) })
unfolding abstract
erased_line s v ne =
    let s' = record s { e = sub_word s.e 1 } in
    (
      erased-IsValid s v ne,
      line_eq (ready s) (ready s) (edit s') (without_last (edit s)) refl (
          sym (
            ap without_last (edit-erased s v ne)
            ∙ without_last-append (edit s') (s.buf (sub_word s.e 1 % input_buf)))),
    )

pub nothing_erased :
    (s : Input)
    → IsValid s
    → s.e ≡ s.w
    → Refines s s (record (abstract s) { edit = without_last (edit s) })
unfolding abstract without_last
nothing_erased s v q =
    let e : edit s ≡ [] = ap (window s.buf s.w) (same_counts s v q) in
    (v, line_eq (ready s) (ready s) (edit s) (without_last (edit s)) refl (rw e refl))

pub stored_line :
    (s : Input) (c : ℕ)
    → IsValid s
    → c < 256
    → c ≢ newline
    → sub_word s.e s.r < input_buf
    → Refines s (store c s) (record (abstract s) { edit = edit s ++ (c ∷ []) })
unfolding abstract
stored_line s c v lt text room =
    let m : c % 256 ≡ c = omega arith in
    (
      store-IsValid s v c room (rw m text),
      line_eq (ready (store c s)) (ready s) (edit (store c s)) (edit s ++ (c ∷ []))
          (ready-store s v c room) (edit-store s v c room ∙ ap (λ (x : ℕ). edit s ++ (x ∷ [])) m),
    )

pub committed_line :
    (s : Input) (c : ℕ)
    → IsValid s
    → c < 256
    → sub_word s.e s.r < input_buf
    → Refines s
        (record (store c s) { w = (store c s).e })
        (record { ready = ready s ++ (edit s ++ (c ∷ [])); edit = [] })
unfolding abstract
committed_line s c v lt room =
    let m : c % 256 ≡ c = omega arith in
    let s' = record (store c s) { w = (store c s).e } in
    (
      committed-IsValid s v c room,
      line_eq (ready s') (ready s ++ (edit s ++ (c ∷ []))) (edit s') []
          (ready-committed s v c room ∙ ap (λ (x : ℕ). ready s ++ (edit s ++ (x ∷ []))) m)
          (edit-committed s v c room),
    )

-- The characters held are those between the read index and the edit index.
pub lengths : (s : Input) → IsValid s → length (ready s) + length (edit s) ≡ sub_word s.e s.r
lengths s v =
    let a = length-window s.buf s.r (ready_count s) in
    let b = length-window s.buf s.w (edit_count s) in
    omega (arith, a, b, v.read_word, v.write_word, v.edit_word, v.fits)
