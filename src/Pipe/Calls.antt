-- ===== src/Pipe/Calls.antt =====
-- Whole calls of `pipewrite` and `piperead`, up to where they return or sleep.
use rain_os.Common.{
  ℕ, zero, suc, ◌-◌, ◌%◌, ◌<◌, ◌≡◌, ◌≢◌, refl, ◌∙◌, ap, List, [], ◌∷◌, ◌++◌, arith, append-nil,
  append_assoc, take-nil, Bool, false, not, ◌||◌, ◌&&◌, length, take, drop, ◌==◌, leb,
  if◌then◌else◌, add_word, Bool-cases, ne_of_==, inl, inr,
}
use rain_os.Pipe.{
  Pipe, pipe_size, put, Write, wrote, failed, waits, pipewrite, Read, got, denied, blocked,
  copy_out, piperead,
}
use rain_os.Pipe.Ring.{
  IsValid, count, contents, window, put-IsValid, count-put, contents-put, full_iff, empty_iff,
}

-- The bytes that the ring has room for.
abbrev pub room : Pipe → ℕ
room p = pipe_size - count p

-- How a write of `xs` ends, given the pipe that it leaves.
abbrev pub write_end : Bool → Pipe → List ℕ → Pipe → Write
write_end killed p xs p' =
    if leb (length xs) (room p)
    then wrote p'
    else if not p.readopen || killed
    then failed p'
    else waits p' (drop (room p) xs)

not_full :
    (p : Pipe) → IsValid p → (p.nwrite == add_word p.nread pipe_size) ≡ false → count p < pipe_size
not_full p v h = ground (arith, full_iff p v, v.fits)

write_end-suc :
    (killed : Bool) (p : Pipe) (x : ℕ) (xs : List ℕ) (p' : Pipe)
    → room p ≡ suc (room (put p x))
    → write_end killed (put p x) xs p' ≡ write_end killed p (x ∷ xs) p'
unfolding put
write_end-suc killed p x xs p' k = rw k (ground arith)

-- A write puts as many of its bytes as fit behind those in the pipe, in order. It returns if all
-- fitted; otherwise it fails if the read end is closed or the process is killed, and if not, it
-- sleeps with exactly the bytes that did not fit left to go. The other end's counter and the open
-- flags stay.
pub pipewrite_lem :
    (killed : Bool) (p : Pipe) (xs : List ℕ)
    → IsValid p
    → (p' : Pipe) × (pipewrite killed p xs ≡ write_end killed p xs p')
      × (contents p' ≡ contents p ++ take (room p) xs)
      × IsValid p'
      × (p'.nread ≡ p.nread)
      × (p'.readopen ≡ p.readopen)
      × (p'.writeopen ≡ p.writeopen)
unfolding pipewrite
pipewrite_lem killed p [] v =
    (p, ground arith, rw (take-nil ℕ (room p), append-nil), v, refl, refl, refl)
pipewrite_lem killed p (x ∷ xs) v = elim (Bool-cases (p.nwrite == add_word p.nread pipe_size)) [
  | inl full ↦
      let c : count p ≡ pipe_size = (full_iff p v).0 (ground arith) in
      let none_fit : room p ≡ 0 = omega arith in
      (p, rw (full, none_fit) (ground arith), rw (none_fit, append-nil), v, refl, refl, refl)
  | inr space ↦
      let c : count p < pipe_size = not_full p v space in
      let (p', e, held, v', nr, ro, wo) = pipewrite_lem killed (put p x) xs (put-IsValid p x v c) in
      let k : room p ≡ suc (room (put p x)) = omega (arith, count-put p x v c) in
      (
        p',
        rw space (e ∙ write_end-suc killed p x xs p' k),
        held
            ∙ ap (λ ys. ys ++ take (room (put p x)) xs) (contents-put p x v c)
            ∙ append_assoc (contents p) (x ∷ []) (take (room (put p x)) xs)
            ∙ rw k refl,
        v',
        nr,
        ro,
        wo,
      )
]

-- The pipe after one byte is taken.
abbrev next : Pipe → Pipe
next p = record p { nread = add_word p.nread 1 }

module _ (p : Pipe) (v : IsValid p) (some_left : count p ≢ 0) where
  count-next : count p ≡ suc (count (next p))
  count-next = omega (arith, v.read_word, v.write_word)

  next-IsValid : IsValid (next p)
  next-IsValid = omega (arith, v.read_word, v.write_word)

  contents-next : contents p ≡ p.bytes (p.nread % pipe_size) ∷ contents (next p)
  contents-next = ap (window p.bytes p.nread) count-next

-- The copying loop takes the `n` oldest bytes, or all there are.
copy_out_lem :
    (n : ℕ) (p : Pipe)
    → IsValid p
    → let (xs, p') = copy_out n p in
      (xs ≡ take n (contents p))
      × (contents p' ≡ drop n (contents p))
      × IsValid p'
      × (p'.readopen ≡ p.readopen)
      × (p'.writeopen ≡ p.writeopen)
unfolding copy_out
copy_out_lem zero p v = (refl, refl, v, refl, refl)
copy_out_lem (suc n) p v = elim (Bool-cases (p.nread == p.nwrite)) [
  | inl empty ↦
      let c : count p ≡ 0 = (empty_iff p v).0 (ground arith) in
      let e : contents p ≡ [] = ap (window p.bytes p.nread) c in
      rw (empty, e) (refl, refl, v, refl, refl)
  | inr more ↦
      let c : count p ≢ 0 = λ h. absurd (ne_of_== p.nread p.nwrite more ((empty_iff p v).1 h)) in
      let ih = copy_out_lem n (next p) (next-IsValid p v c) in
      rw (more, contents-next p v c)
        (ap (λ ys. p.bytes (p.nread % pipe_size) ∷ ys) ih.0, ih.1, ih.2, ih.3, ih.4)
]

-- How a read of `n` bytes ends, given the pipe that it leaves.
abbrev pub read_end : Bool → Pipe → ℕ → Pipe → Read
read_end killed p n p' =
    if (count p == 0) && p.writeopen
    then if killed then denied p else blocked p
    else got (take n (contents p)) p'

-- A read takes the `n` oldest bytes, or all there are, and leaves the rest in order. It sleeps, or
-- fails if the process is killed, only where the pipe is empty and its write end open. The open
-- flags stay.
pub piperead_lem :
    (killed : Bool) (p : Pipe) (n : ℕ)
    → IsValid p
    → (p' : Pipe) × (piperead killed p n ≡ read_end killed p n p')
      × (contents p' ≡ drop n (contents p))
      × IsValid p'
      × (p'.readopen ≡ p.readopen)
      × (p'.writeopen ≡ p.writeopen)
unfolding piperead
piperead_lem killed p n v =
    let c = copy_out_lem n p v in
    let same : (p.nread == p.nwrite) ≡ (count p == 0) = ground (arith, empty_iff p v) in
    ((copy_out n p).1, rw (same, c.0) refl, c.1, c.2, c.3, c.4)
