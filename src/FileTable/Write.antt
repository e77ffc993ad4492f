-- ===== src/FileTable/Write.antt =====
-- The loop of `filewrite`, for any `writei`.
use rain_os.Common.{
  ℕ, zero, suc, ◌+◌, ◌-◌, ◌%◌, ◌≤◌, ◌<◌, ◌≡◌, ◌≢◌, ◌⊎◌, inl, inr, refl, ◌∙◌, ap, true, Option, none,
  some, arith, ◌==◌, ltb, if◌then◌else◌, Bool-cases, add_word, word,
}
use rain_os.FileTable.{
  fd_inode, File, max_chunk, chunk, round, Written, stopped, short, write_from, value, panics,
  filewrite,
}

chunk_lem : (n i : ℕ) → i < n → (0 < chunk n i) × (chunk n i ≤ max_chunk) × (i + chunk n i ≤ n)
chunk_lem n i lt = ground arith

module _ {W : Type 0} (writei : W → ℕ → ℕ → ℕ → Option ℕ × W) (P : ℕ → W → Type 0) (n : ℕ) where
  -- `P i w` is kept by every write of a chunk, after `i` of the `n` bytes.
  pub record IsKept : Type 0 where
    pub whole :
        (w w' : W) (i off m : ℕ)
        → P i w
        → 0 < m
        → m ≤ max_chunk
        → i + m ≤ n
        → writei w i off m ≡ (some m, w')
        → P (i + m) w'
    pub none_written : (w w' : W) (i off m : ℕ) → P i w → writei w i off m ≡ (none, w') → P i w'

  -- What the loop leaves when it starts at `i` and `off`.
  pub record IsStopped (i off j off' : ℕ) (w' : W) : Type 0 where
    pub kept : P j w'
    pub lower : i ≤ j
    pub upper : j ≤ n
    pub moved : off' % word ≡ (off + (j - i)) % word
    pub because : (j ≡ n) ⊎ ((j < n) × (w : W) × (m : ℕ) × (writei w j off' m ≡ (none, w')))

  -- A write after `j` of the bytes that took another number of bytes than it was given.
  abbrev pub IsShort : Type 0
  IsShort =
      (j off r : ℕ) × (w w' : W) × P j w
      × (j < n)
      × (writei w j off (chunk n j) ≡ (some r, w'))
      × (r ≢ chunk n j)

  -- How the loop may end when it starts at `i` and `off`.
  abbrev pub Ends : (i off : ℕ) → Written W → Type 0
  Ends i off res =
      ((res ≡ short) × IsShort)
      ⊎ ((j off' : ℕ) × (w' : W) × (res ≡ stopped j off' w') × IsStopped i off j off' w')

  Ends-later : (i off m : ℕ) (res : Written W) → Ends (i + m) (add_word off m) res → Ends i off res
  Ends-later i off m res (inl a) = inl a
  Ends-later i off m res (inr (j, off', w', a, f)) = inr (
    j,
    off',
    w',
    a,
    record {
      kept = f.kept;
      lower = omega (arith, f.lower);
      upper = f.upper;
      moved = f.moved ∙ omega (arith, f.lower);
      because = f.because;
    },
  )

  round-Ends :
      (rest : ℕ → W → Written W) (i off : ℕ) (w : W) (r : Option ℕ × W)
      → IsKept
      → P i w
      → i < n
      → writei w i off (chunk n i) ≡ r
      → ((m : ℕ) (w' : W)
          → 0 < m
          → i + m ≤ n
          → P (i + m) w'
          → Ends (i + m) (add_word off m) (rest m w'))
      → Ends i off (round n i off rest r)
  round-Ends rest i off w (none, w') k p lt h next = inr (
    i,
    off,
    w',
    refl,
    record {
      kept = k.none_written w w' i off (chunk n i) p h;
      lower = omega arith;
      upper = omega arith;
      moved = ap (λ (x : ℕ). x % word) (omega arith);
      because = inr (lt, w, chunk n i, h);
    },
  )
  round-Ends rest i off w (some m, w') k p lt h next = elim (Bool-cases (m == chunk n i)) [
    | inr q ↦ inl (rw q, (i, off, m, w, w', p, lt, h, λ e. absurd (ground arith)))
    | inl q ↦
        let r : chunk n i ≡ m = ground arith in
        let (pos, small, fits) = rw r at (chunk_lem n i lt) in
        rw q (
          Ends-later i off m (rest m w')
            (next m w' pos fits (k.whole w w' i off m p pos small fits (rw r at h))))
  ]

  write_from-Ends :
      (fuel i off : ℕ) (w : W)
      → IsKept
      → P i w
      → i ≤ n
      → n < fuel + i
      → Ends i off (write_from writei fuel n i off w)
  unfolding write_from
  write_from-Ends zero i off w k p le lt = absurd (omega arith)
  write_from-Ends (suc fuel) i off w k p le lt = elim (Bool-cases (ltb i n)) [
    | inr e ↦
        let q : i ≡ n = ground arith in
        inr (
          i,
          off,
          w,
          rw e,
          record {
            kept = p;
            lower = omega arith;
            upper = le;
            moved = ap (λ (x : ℕ). x % word) (omega arith);
            because = inl q;
          },
        )
    | inl e ↦
        let rest : ℕ → W → Written W =
          λ r w'. write_from writei fuel n (i + r) (add_word off r) w' in
        rw e (
          round-Ends rest i off w (writei w i off (chunk n i)) k p (ground arith) refl
            (λ m w' pos fits p'.
              write_from-Ends fuel (i + m) (add_word off m) w' k p' fits (omega arith)))
  ]

-- What `filewrite` gives back where it has not panicked: the file with its offset `j` bytes further,
-- and n, or -1 if a write failed after `j` bytes.
pub record IsWritten {W : Type 0} (writei : W → ℕ → ℕ → ℕ → Option ℕ × W) (P : ℕ → W → Type 0)
    (n : ℕ) (f : File) (v : Option ℕ) (f' : File) (w' : W) : Type 0 where
  pub bytes : ℕ
  pub off' : ℕ
  pub file : f' ≡ record f { off = off' }
  pub moved : off' % word ≡ (f.off + bytes) % word
  pub kept : P bytes w'
  pub result :
      ((v ≡ some n) × (bytes ≡ n))
      ⊎ ((v ≡ none) × (bytes < n) × ((w : W) × (m : ℕ) × (writei w bytes off' m ≡ (none, w'))))

-- `filewrite` of `n` bytes to an inode ends. It panics only where a write of a chunk, after some of the
-- chunks, wrote another number of bytes than the chunk has; otherwise it returns n after writing all `n` bytes, or -1 where a write failed, the offset counting the bytes written.
-- What every write of at most `max_chunk` bytes keeps, `filewrite` keeps.
pub filewrite_lem :
    {W : Type 0} (writei : W → ℕ → ℕ → ℕ → Option ℕ × W) (P : ℕ → W → Type 0) (f : File) (n : ℕ)
    (w : W)
    → IsKept writei P n
    → P 0 w
    → f.writable ≡ true
    → f.kind ≡ fd_inode
    → ((filewrite writei f n w ≡ panics) × IsShort writei P n)
      ⊎ ((v : Option ℕ) × (f' : File) × (w' : W) × (filewrite writei f n w ≡ value v f' w')
          × IsWritten writei P n f v f' w')
unfolding filewrite
filewrite_lem writei P f n w k p wr ino =
    elim (write_from-Ends writei P n (n + 1) 0 f.off w k p (omega arith) (omega arith)) [
      | inl (e, s) ↦ inl (simp (wr, ino, e), s)
      | inr (j, off', w', e, s) ↦
          let back : Option ℕ = if j == n then some n else none in
          inr (
            back,
            record f { off = off' },
            w',
            simp (wr, ino, e),
            record {
              bytes = j;
              off' = off';
              file = refl;
              moved = s.moved ∙ omega arith;
              kept = s.kept;
              result = elim s.because [
                | inl q ↦ inl (ground (arith, q), q)
                | inr (lt, u, m, h) ↦ inr (ground (arith, lt), lt, (u, m, h))
              ];
            },
          )
    ]
