-- ===== src/Console/Ring.antt =====
-- The characters in the ring of `input`: those that can be read, and those that can still be edited.
use rain_os.Common.{
  ℕ, zero, suc, ◌+◌, ◌-◌, ◌%◌, ◌≤◌, ◌<◌, ◌≡◌, ◌≢◌, refl, sym, ◌∙◌, ap, ap₂, subst, List, [], ◌∷◌,
  ◌++◌, arith, length, All, update, update_self, update_ne, word, add_word, sub_word,
}
use rain_os.Console.{Input, input_buf, newline, store}

abbrev pub window : (ℕ → ℕ) → ℕ → ℕ → List ℕ
window buf r zero = []
window buf r (suc n) = buf (r % input_buf) ∷ window buf (add_word r 1) n

abbrev pub ready_count : Input → ℕ
ready_count s = sub_word s.w s.r

abbrev pub edit_count : Input → ℕ
edit_count s = sub_word s.e s.w

abbrev pub ready : Input → List ℕ
ready s = window s.buf s.r (ready_count s)

abbrev pub edit : Input → List ℕ
edit s = window s.buf s.w (edit_count s)

abbrev pub IsText : ℕ → Type 0
IsText c = c ≢ newline

pub record IsValid (s : Input) : Type 0 where
  pub read_word : s.r < word
  pub write_word : s.w < word
  pub edit_word : s.e < word
  pub fits : ready_count s + edit_count s ≤ input_buf
  pub one_line : All IsText (edit s)

pub length-window : (buf : ℕ → ℕ) (r n : ℕ) → length (window buf r n) ≡ n
length-window buf r zero = refl
length-window buf r (suc n) = ap suc (length-window buf (add_word r 1) n)

pub window-append :
    (buf : ℕ → ℕ) (r a b : ℕ)
    → r < word
    → window buf r (a + b) ≡ window buf r a ++ window buf (add_word r a) b
window-append buf r zero b h =
    let e : 0 + b ≡ b = omega arith in
    let q : add_word r 0 ≡ r = omega arith in
    ap (window buf r) e ∙ ap (λ (x : ℕ). window buf x b) (sym q)
window-append buf r (suc a) b h =
    let e : suc a + b ≡ suc (a + b) = omega arith in
    let q : add_word (add_word r 1) a ≡ add_word r (suc a) = omega arith in
    ap (window buf r) e
    ∙ ap (λ (xs : List ℕ). buf (r % input_buf) ∷ xs)
        (window-append buf (add_word r 1) a b (omega arith)
          ∙ ap (λ (x : ℕ). window buf (add_word r 1) a ++ window buf x b) q)

-- A place behind the window, less than a round away, is not in it.
pub window-update_other :
    (buf : ℕ → ℕ) (x r n k : ℕ)
    → r < word
    → n ≤ k
    → k < input_buf
    → window (update buf (add_word r k % input_buf) x) r n ≡ window buf r n
window-update_other buf x r zero k h le lt = refl
window-update_other buf x r (suc n) k h le lt =
    let q : add_word r k ≡ add_word (add_word r 1) (k - 1) = omega arith in
    ap₂ (λ (y : ℕ) (ys : List ℕ). y ∷ ys)
      (update_ne buf (add_word r k % input_buf) (r % input_buf) x (omega arith))
      (ap (λ (i : ℕ). window (update buf (i % input_buf) x) (add_word r 1) n) q
        ∙ window-update_other buf x (add_word r 1) n (k - 1) (omega arith) (omega arith)
            (omega arith))

-- A place at the window's end extends it.
pub window-update_end :
    (buf : ℕ → ℕ) (x r n : ℕ)
    → r < word
    → n < input_buf
    → window (update buf (add_word r n % input_buf) x) r (n + 1) ≡ window buf r n ++ (x ∷ [])
window-update_end buf x r n h lt =
    window-append (update buf (add_word r n % input_buf) x) r n 1 h
    ∙ ap₂ (λ (xs ys : List ℕ). xs ++ ys) (window-update_other buf x r n n h (omega arith) lt)
        (ap (λ (y : ℕ). y ∷ []) (update_self buf (add_word r n % input_buf) x))

unfoldable pub without_last : List ℕ → List ℕ
without_last [] = []
without_last (x ∷ []) = []
without_last (x ∷ (y ∷ ys)) = x ∷ without_last (y ∷ ys)

pub without_last-append : (xs : List ℕ) (x : ℕ) → without_last (xs ++ (x ∷ [])) ≡ xs
unfolding without_last
without_last-append [] x = refl
without_last-append (y ∷ []) x = refl
without_last-append (y ∷ (z ∷ zs)) x = ap (λ (ws : List ℕ). y ∷ ws) (without_last-append (z ∷ zs) x)

pub All-append : (P : ℕ → Type 0) (xs ys : List ℕ) → All P xs → All P ys → All P (xs ++ ys)
All-append P [] ys h k = k
All-append P (x ∷ xs) ys h k = (h.0, All-append P xs ys h.1 k)

pub All-split : (P : ℕ → Type 0) (xs ys : List ℕ) → All P (xs ++ ys) → All P xs × All P ys
All-split P [] ys h = (tt, h)
All-split P (x ∷ xs) ys h = let r = All-split P xs ys h.1 in ((h.0, r.0), r.1)

-- The edited characters when there are some: all but the last, and the last.
module _ (s : Input) (v : IsValid s) (some_edit : s.e ≢ s.w) where
  abbrev last : ℕ
  last = s.buf (sub_word s.e 1 % input_buf)

  abbrev erased : Input
  erased = record s { e = sub_word s.e 1 }

  edit_count-erased : edit_count s ≡ edit_count erased + 1
  edit_count-erased = omega (arith, v.write_word, v.edit_word)

  pub edit-erased : edit s ≡ edit erased ++ (last ∷ [])
  edit-erased =
      let q : add_word s.w (edit_count erased) ≡ sub_word s.e 1 =
        omega (arith, v.write_word, v.edit_word) in
      ap (window s.buf s.w) edit_count-erased
      ∙ window-append s.buf s.w (edit_count erased) 1 v.write_word
      ∙ ap (λ (i : ℕ). edit erased ++ (s.buf (i % input_buf) ∷ [])) q

  split_edit : All IsText (edit erased) × All IsText (last ∷ [])
  split_edit =
      All-split IsText (edit erased) (last ∷ []) (subst (All IsText) edit-erased v.one_line)

  pub erased-IsValid : IsValid erased
  erased-IsValid =
      let n = edit_count-erased in
      record {
        read_word = v.read_word;
        write_word = v.write_word;
        edit_word = omega arith;
        fits = omega (arith, n, v.fits);
        one_line = split_edit.0;
      }

  pub last-text : last ≢ newline
  last-text = split_edit.1.0

-- A stored character comes at the end.
module _ (s : Input) (v : IsValid s) (c : ℕ) (room : sub_word s.e s.r < input_buf) where
  total : sub_word s.e s.r ≡ ready_count s + edit_count s
  total = omega (arith, v.read_word, v.write_word, v.edit_word, v.fits)

  count_edit : edit_count (store c s) ≡ edit_count s + 1
  unfolding store
  count_edit = omega (arith, v.read_word, v.write_word, v.edit_word, v.fits, total)

  end_of_edit : add_word s.w (edit_count s) ≡ s.e
  end_of_edit = omega (arith, v.write_word, v.edit_word)

  pub edit-store : edit (store c s) ≡ edit s ++ ((c % 256) ∷ [])
  unfolding store
  edit-store =
      ap (window (store c s).buf s.w) count_edit
      ∙ ap (λ (i : ℕ). window (update s.buf (i % input_buf) (c % 256)) s.w (edit_count s + 1))
          (sym end_of_edit)
      ∙ window-update_end s.buf (c % 256) s.w (edit_count s) v.write_word
          (omega (arith, v.fits, total))

  pub ready-store : ready (store c s) ≡ ready s
  unfolding store
  ready-store =
      let q : add_word s.r (ready_count s + edit_count s) ≡ s.e =
        omega (arith, v.read_word, v.write_word, v.edit_word, v.fits) in
      ap (λ (i : ℕ). window (update s.buf (i % input_buf) (c % 256)) s.r (ready_count s)) (sym q)
      ∙ window-update_other s.buf (c % 256) s.r (ready_count s) (ready_count s + edit_count s)
          v.read_word (omega arith) (omega (arith, total))

  -- With the stored line handed to the readers.
  abbrev committed : Input
  committed = record (store c s) { w = (store c s).e }

  zero_count : sub_word (store c s).e (store c s).e ≡ 0
  unfolding store
  zero_count = omega arith

  pub edit-committed : edit committed ≡ []
  edit-committed = ap (window (store c s).buf (store c s).e) zero_count

  counts : sub_word (store c s).e s.r ≡ ready_count s + edit_count (store c s)
  unfolding store
  counts = omega (arith, count_edit, total, v.read_word, v.write_word, v.edit_word, room)

  pub ready-committed : ready committed ≡ ready s ++ (edit s ++ ((c % 256) ∷ []))
  unfolding store
  ready-committed =
      let start : add_word s.r (ready_count s) ≡ s.w = omega (arith, v.read_word, v.write_word) in
      ap (window (store c s).buf s.r) counts
      ∙ window-append (store c s).buf s.r (ready_count s) (edit_count (store c s)) v.read_word
      ∙ ap (λ (i : ℕ). ready (store c s) ++ window (store c s).buf i (edit_count (store c s))) start
      ∙ ap₂ (λ (xs ys : List ℕ). xs ++ ys) ready-store edit-store

  word_e : (store c s).e < word
  unfolding store
  word_e = omega arith

  pub committed-IsValid : IsValid committed
  unfolding store
  committed-IsValid = record {
    read_word = v.read_word;
    write_word = word_e;
    edit_word = word_e;
    fits = omega (arith, zero_count, counts, count_edit, total);
    one_line = subst (All IsText) (sym edit-committed) tt;
  }

  pub store-IsValid : c % 256 ≢ newline → IsValid (store c s)
  unfolding store
  store-IsValid text = record {
    read_word = v.read_word;
    write_word = v.write_word;
    edit_word = omega arith;
    fits = omega (arith, count_edit, total);
    one_line =
        subst (All IsText) (sym edit-store)
          (All-append IsText (edit s) ((c % 256) ∷ []) v.one_line (text, tt));
  }
