-- ===== src/Pipe/Ring.antt =====
-- The bytes that a pipe holds, oldest first, and how a single write or read changes them.
use rain_os.Common.{
  ℕ, zero, suc, ◌%◌, ◌≤◌, ◌<◌, ◌≡◌, ◌↔◌, refl, ◌∙◌, ap, ap₂, List, [], ◌∷◌, ◌++◌, arith, length,
  update, update_self, update_ne, word, add_word, sub_word,
}
use rain_os.Pipe.{Pipe, pipe_size, put, init}

-- The bytes in the pipe.
abbrev pub count : Pipe → ℕ
count p = sub_word p.nwrite p.nread

pub record IsValid (p : Pipe) : Type 0 where
  pub read_word : p.nread < word
  pub write_word : p.nwrite < word
  pub fits : count p ≤ pipe_size

abbrev pub window : (ℕ → ℕ) → ℕ → ℕ → List ℕ
window bytes r zero = []
window bytes r (suc n) = bytes (r % pipe_size) ∷ window bytes (add_word r 1) n

abbrev pub contents : Pipe → List ℕ
contents p = window p.bytes p.nread (count p)

pub length-window : (bytes : ℕ → ℕ) (r n : ℕ) → length (window bytes r n) ≡ n
length-window bytes r zero = refl
length-window bytes r (suc n) = ap suc (length-window bytes (add_word r 1) n)

-- Both 2^32 and the counters' steps are multiples of the ring's size apart, so a write past the
-- window touches no byte of it.
window-update :
    (bytes : ℕ → ℕ) (x r n w : ℕ)
    → n < pipe_size
    → r < word
    → w ≡ add_word r n
    → window (update bytes (w % pipe_size) x) r (suc n) ≡ window bytes r n ++ (x ∷ [])
window-update bytes x r zero w h hr e =
    let same : r % pipe_size ≡ w % pipe_size = omega arith in
    rw same (ap (λ y. y ∷ []) (update_self bytes (w % pipe_size) x))
window-update bytes x r (suc n) w h hr e =
    ap₂ ◌∷◌ (update_ne bytes (w % pipe_size) (r % pipe_size) x (omega arith))
      (window-update bytes x (add_word r 1) n w (omega arith) (omega arith) (omega arith))

module _ (p : Pipe) (x : ℕ) (v : IsValid p) (room : count p < pipe_size) where
  pub count-put : count (put p x) ≡ suc (count p)
  unfolding put
  count-put = omega (arith, v.read_word, v.write_word)

  pub put-IsValid : IsValid (put p x)
  unfolding put
  put-IsValid = omega (arith, v.read_word, v.write_word)

  written : window (put p x).bytes (put p x).nread (suc (count p)) ≡ contents p ++ (x ∷ [])
  unfolding put
  written =
      window-update p.bytes x p.nread (count p) p.nwrite room v.read_word
        (omega (arith, v.read_word, v.write_word))

  -- A write appends its byte.
  pub contents-put : contents (put p x) ≡ contents p ++ (x ∷ [])
  contents-put = ap (window (put p x).bytes (put p x).nread) count-put ∙ written

-- The test of `pipewrite` for a full ring.
pub full_iff :
    (p : Pipe) → IsValid p → (p.nwrite ≡ add_word p.nread pipe_size) ↔ (count p ≡ pipe_size)
full_iff p v =
    (λ h. omega (arith, v.read_word, v.write_word), λ h. omega (arith, v.read_word, v.write_word))

-- The test of `piperead` for an empty one.
pub empty_iff : (p : Pipe) → IsValid p → (p.nread ≡ p.nwrite) ↔ (count p ≡ 0)
empty_iff p v =
    (λ h. omega (arith, v.read_word, v.write_word), λ h. omega (arith, v.read_word, v.write_word))

-- A fresh pipe is empty.
pub init-IsValid : (page : ℕ → ℕ) → IsValid (init page) × (contents (init page) ≡ [])
unfolding init
init-IsValid page = (omega arith, refl)
