-- ===== src/Pipe/Stream.antt =====
-- The two ends of a pipe together: a reader and a writer in any order of calls.
use rain_os.Common.{
  ℕ, suc, ◌≤◌, ◌<◌, ◌≡◌, ◌≢◌, refl, sym, ◌∙◌, ap, List, [], ◌∷◌, ◌++◌, arith, append_assoc, Bool,
  true, false, ◌&&◌, length, take, drop, ◌==◌, take-append-drop, Bool-cases, inl, inr, ◌↔◌,
  length-append, length-take, length-drop,
}
use rain_os.Pipe.{
  Pipe, pipe_size, Write, wrote, failed, waits, pipewrite, Read, got, denied, blocked, piperead,
  pipeclose, init,
}
use rain_os.Pipe.Ring.{IsValid, count, contents, init-IsValid, length-window, window}
use rain_os.Pipe.Calls.{room, write_end, read_end, pipewrite_lem, piperead_lem}

-- A pipe with the bytes that have gone in and come out since it was made.
pub record Conn : Type 0 where
  pub pipe : Pipe
  pub sent : List ℕ
  pub received : List ℕ

pub data Op : Type 0 where
  write : Bool → List ℕ → Op
  read : Bool → ℕ → Op
  close : Bool → Op

-- The pipe that a stretch of a write leaves. It has taken the bytes that there was room for; a
-- writer that sleeps goes on later with a `write` of the others.
abbrev pub left_by : Write → Pipe
left_by (wrote p) = p
left_by (failed p) = p
left_by (waits p xs) = p

abbrev pub taken_by : Conn → Read → Conn
taken_by c (got xs p) = record c { pipe = p; received = c.received ++ xs }
taken_by c (denied p) = record c { pipe = p }
taken_by c (blocked p) = record c { pipe = p }

step : Conn → Op → Conn
step c (write killed xs) = record c {
  pipe = left_by (pipewrite killed c.pipe xs);
  sent = c.sent ++ take (room c.pipe) xs;
}
step c (read killed n) = taken_by c (piperead killed c.pipe n)
step c (close writable) = record c { pipe = (pipeclose c.pipe writable).0 }

unfoldable pub run : Conn → List Op → Conn
unfolding step
run c [] = c
run c (o ∷ ops) = run (step c o) ops

pub record IsStream (c : Conn) : Type 0 where
  pub valid : IsValid c.pipe
  pub order : c.sent ≡ c.received ++ contents c.pipe

left_by-write_end :
    (killed : Bool) (p : Pipe) (xs : List ℕ) (p' : Pipe) → left_by (write_end killed p xs p') ≡ p'
left_by-write_end killed p xs p' = ground arith

step-write :
    (c : Conn) (killed : Bool) (xs : List ℕ) → IsStream c → IsStream (step c (write killed xs))
unfolding step
step-write c killed xs v =
    let (p, e, held, v', nr, ro, wo) = pipewrite_lem killed c.pipe xs v.valid in
    rw (e, left_by-write_end killed c.pipe xs p)
      (record {
        valid = v';
        order =
            ap (λ ys. ys ++ take (room c.pipe) xs) v.order
            ∙ append_assoc c.received (contents c.pipe) (take (room c.pipe) xs)
            ∙ ap (λ ys. c.received ++ ys) (sym held);
      })

-- The bytes of a pipe move from its front to the reader.
got-IsStream :
    (c : Conn) (n : ℕ) (p : Pipe)
    → IsStream c
    → IsValid p
    → contents p ≡ drop n (contents c.pipe)
    → IsStream (taken_by c (got (take n (contents c.pipe)) p))
got-IsStream c n p v v' held = record {
  valid = v';
  order =
      v.order
      ∙ ap (λ ys. c.received ++ ys)
          (sym (take-append-drop n (contents c.pipe))
            ∙ ap (λ ys. take n (contents c.pipe) ++ ys) (sym held))
      ∙ sym (append_assoc c.received (take n (contents c.pipe)) (contents p));
}

step-read : (c : Conn) (killed : Bool) (n : ℕ) → IsStream c → IsStream (step c (read killed n))
unfolding step
step-read c killed n v =
    let (p, e, held, v', ro, wo) = piperead_lem killed c.pipe n v.valid in
    rw e (elim (Bool-cases ((count c.pipe == 0) && c.pipe.writeopen)) [
      | inr go ↦ rw go (got-IsStream c n p v v' held)
      | inl stop ↦ rw stop (elim (Bool-cases killed) [ inl k ↦ rw k v | inr k ↦ rw k v ])
    ])

step-close : (c : Conn) (writable : Bool) → IsStream c → IsStream (step c (close writable))
unfolding step pipeclose
step-close c true v = record { valid = omega arith; order = v.order }
step-close c false v = record { valid = omega arith; order = v.order }

run-IsStream : (ops : List Op) (c : Conn) → IsStream c → IsStream (run c ops)
unfolding run
run-IsStream [] c v = v
run-IsStream (write killed xs ∷ ops) c v = run-IsStream ops _ (step-write c killed xs v)
run-IsStream (read killed n ∷ ops) c v = run-IsStream ops _ (step-read c killed n v)
run-IsStream (close writable ∷ ops) c v = run-IsStream ops _ (step-close c writable v)

-- Whatever calls the two ends of a fresh pipe make, in any order, the bytes that have come out,
-- followed by those still in the pipe, are exactly the bytes that have gone in, in order; and the
-- pipe never holds more than 512.
pub run-fifo :
    (page : ℕ → ℕ) (ops : List Op)
    → let c = run (record { pipe = init page; sent = []; received = [] }) ops in
      (c.sent ≡ c.received ++ contents c.pipe) × (length (contents c.pipe) ≤ pipe_size)
run-fifo page ops =
    let (v, e) = init-IsValid page in
    let s =
      run-IsStream ops (record { pipe = init page; sent = []; received = [] })
        (record { valid = v; order = sym e }) in
    (
      s.order,
      omega (
        arith,
        length-window (run (record { pipe = init page; sent = []; received = [] }) ops).pipe.bytes
            (run (record { pipe = init page; sent = []; received = [] }) ops).pipe.nread
            (count (run (record { pipe = init page; sent = []; received = [] }) ops).pipe),
        s.valid.fits,
      ),
    )

nil_of_take : (n : ℕ) (xs : List ℕ) → take (suc n) xs ≡ [] → xs ≡ []
nil_of_take n [] h = refl
nil_of_take n (x ∷ xs) h = cc

count_of_nil : (p : Pipe) → contents p ≡ [] → count p ≡ 0
count_of_nil p h = sym (length-window p.bytes p.nread (count p)) ∙ ap (length {0}) h

nil_of_count : (p : Pipe) → count p ≡ 0 → contents p ≡ []
nil_of_count p h = ap (window p.bytes p.nread) h

got_of_end :
    (killed : Bool) (p q p' : Pipe) (n : ℕ)
    → read_end killed p (suc n) q ≡ got [] p'
    → (take (suc n) (contents p) ≡ []) × (((count p == 0) && p.writeopen) ≡ false)
got_of_end killed p q p' n h = elim (Bool-cases ((count p == 0) && p.writeopen)) [
  | inr go ↦ (ap bytes_of (rw go at h), go)
  | inl stop ↦ elim (Bool-cases killed) [
    | inl k ↦ let e = rw (stop, k) at h in cc
    | inr k ↦ let e = rw (stop, k) at h in cc
  ]
]
  where
    bytes_of : Read → List ℕ
    bytes_of (got xs r) = xs
    bytes_of r = []

waits_of_end :
    (killed : Bool) (p q p' : Pipe) (xs rest : List ℕ)
    → write_end killed p xs q ≡ waits p' rest
    → (p' ≡ q)
      × (room p < length xs)
      × (rest ≡ drop (room p) xs)
      × (p.readopen ≡ true)
      × (killed ≡ false)
waits_of_end killed p q p' xs rest h = ground arith

-- A reader gets end of file, no bytes although it asked for some, exactly where the pipe is empty
-- and its write end is closed.
pub piperead-eof :
    (killed : Bool) (p : Pipe) (n : ℕ)
    → IsValid p
    → ((p' : Pipe) × (piperead killed p (suc n) ≡ got [] p'))
      ↔ ((contents p ≡ []) × (p.writeopen ≡ false))
piperead-eof killed p n v =
    let (q, e, held, v', ro, wo) = piperead_lem killed p (suc n) v in
    (
      λ (p', h).
          let (t, go) = got_of_end killed p q p' n (sym e ∙ h) in
          let nil = nil_of_take n (contents p) t in (nil, ground (arith, count_of_nil p nil)),
      λ (nil, closed).
          (q, e ∙ ended q (count_of_nil p nil) closed ∙ ap (λ l. got (take (suc n) l) q) nil),
    )
  where
    ended :
        (q : Pipe)
        → count p ≡ 0
        → p.writeopen ≡ false
        → read_end killed p (suc n) q ≡ got (take (suc n) (contents p)) q
    ended q c closed = ground arith

-- A writer that sleeps leaves a full ring, whose read end is open, and it holds on to exactly the
-- bytes that the ring did not take.
pub pipewrite-waits :
    (killed : Bool) (p p' : Pipe) (xs rest : List ℕ)
    → IsValid p
    → pipewrite killed p xs ≡ waits p' rest
    → (length (contents p') ≡ pipe_size)
      × (contents p' ++ rest ≡ contents p ++ xs)
      × (rest ≢ [])
      × (p'.readopen ≡ true)
      × (killed ≡ false)
pipewrite-waits killed p p' xs rest v h =
    let (q, e, held, v', nr, ro, wo) = pipewrite_lem killed p xs v in
    let (same, more, tail, open_end, alive) = waits_of_end killed p q p' xs rest (sym e ∙ h) in
    let held' = ap contents same ∙ held in
    (
      ap (length {0}) held'
          ∙ omega (
            arith,
            length-append {0} (contents p) (take (room p) xs),
            length-take (room p) xs,
            length-window p.bytes p.nread (count p),
            v.fits,
          ),
      ap (λ ys. ys ++ rest) held'
          ∙ append_assoc (contents p) (take (room p) xs) rest
          ∙ ap (λ ys. contents p ++ (take (room p) xs ++ ys)) tail
          ∙ ap (λ ys. contents p ++ ys) (take-append-drop (room p) xs),
      λ nil. absurd (omega (arith, length-drop (room p) xs, ap (length {0}) (sym tail ∙ nil))),
      ap (λ (r : Pipe). r.readopen) same ∙ ro ∙ open_end,
      alive,
    )
