-- ===== src/FileTable/MakePipe.antt =====
-- Making a pipe: both files or neither.
use rain_os.Common.{
  ℕ, ◌<◌, ◌≡◌, ◌≢◌, ◌⊎◌, inl, inr, refl, sym, ◌∙◌, ap, true, false, none, some, arith, ok, ◌==◌,
  update, update_self, update_ne, fun_ext,
}
use native.Mathlib.Decide.{ℕ_discrete}
use rain_os.FileTable.{
  nfile, fd_none, File, Ftable, filealloc, made, unmade, pipe_end, pipealloc, with_file, with_first,
  close_one,
}
use rain_os.FileTable.Undo.{
  Took, close_one-last, IsCleared, cleared-same, close_one-Took, filealloc-Took,
}

-- With no page, both new files are closed again.
pipealloc-nopage :
    (t u v : Ftable) (i j : ℕ)
    → IsCleared t
    → filealloc t ≡ (some i, u)
    → Took t i u
    → filealloc u ≡ (some j, v)
    → Took u j v
    → pipealloc 0 t ≡ unmade t
unfolding pipealloc with_file with_first
pipealloc-nopage t u v i j c e k e' k' =
    ap (with_file 0) e ∙ ap (with_first 0 i) e' ∙ rw (first, second) refl
  where
    ne : i ≢ j
    ne q = absurd (ground (arith, k'.was_free, ap (λ (f : File). f.ref) k.one, q))

    at_i : v i ≡ record (t i) { ref = 1 }
    at_i = k'.others i ne ∙ k.one

    -- The table with the second file alone.
    w : Ftable
    w = update t j (record (t j) { ref = 1 })

    took : Took t j w
    took = record {
      lt = k'.lt;
      was_free = ap (λ (f : File). f.ref) (sym (k.others j (λ q. ne (sym q)))) ∙ k'.was_free;
      one = update_self t j (record (t j) { ref = 1 });
      others = λ m n. update_ne t j m (record (t j) { ref = 1 }) n;
    }

    first : close_one i v ≡ ok w
    first =
        close_one-last i v (ap (λ (f : File). f.ref) at_i)
        ∙ ap ok (
            fun_ext λ m. elim (ℕ_discrete m i) [
              | yes r ↦ rw r (
                  update_self v i (record (v i) { ref = 0; kind = fd_none })
                  ∙ ap (λ (f : File). record f { ref = 0; kind = fd_none }) at_i
                  ∙ cleared-same t i c k.was_free
                  ∙ sym (update_ne t j i (record (t j) { ref = 1 }) ne))
              | no r ↦
                  update_ne v i m (record (v i) { ref = 0; kind = fd_none }) r
                  ∙ elim (ℕ_discrete m j) [
                    | yes q ↦ rw q (
                        k'.one
                        ∙ ap (λ (f : File). record f { ref = 1 }) (k.others j (λ q. ne (sym q)))
                        ∙ sym (update_self t j (record (t j) { ref = 1 })))
                    | no q ↦
                        k'.others m q
                        ∙ k.others m r
                        ∙ sym (update_ne t j m (record (t j) { ref = 1 }) q)
                  ]
            ])

    second : close_one j w ≡ ok t
    second = close_one-Took j t w c took

-- With one free slot, the file made there is closed again.
pipealloc-single :
    (page : ℕ) (t u : Ftable) (i : ℕ)
    → IsCleared t
    → filealloc t ≡ (some i, u)
    → Took t i u
    → filealloc u ≡ (none, u)
    → pipealloc page t ≡ unmade t
unfolding pipealloc with_file with_first
pipealloc-single page t u i c e k e' =
    ap (with_file page) e
    ∙ ap (with_first page i) e'
    ∙ rw (close_one-Took i t u c k, with_first) refl

pipealloc-pair :
    (page : ℕ) (t u v : Ftable) (i j : ℕ)
    → 0 < page
    → filealloc t ≡ (some i, u)
    → filealloc u ≡ (some j, v)
    → (w : Ftable) × (w ≡ update v i (pipe_end (v i) true page))
      × (pipealloc page t ≡ made i j (update w j (pipe_end (w j) false page)))
unfolding pipealloc with_file with_first
pipealloc-pair page t u v i j pos e e' =
    let z : (page == 0) ≡ false = ground arith in
    (
      update v i (pipe_end (v i) true page),
      refl,
      ap (with_file page) e ∙ ap (with_first page i) e' ∙ rw z refl,
    )

-- The two ends of a new pipe, and a table that has nothing else new.
pub record IsPiped (page : ℕ) (t : Ftable) (i j : ℕ) (u : Ftable) : Type 0 where
  pub distinct : i ≢ j
  pub bounds : (i < nfile) × (j < nfile)
  pub free : ((t i).ref ≡ 0) × ((t j).ref ≡ 0)
  pub read_end : u i ≡ record (pipe_end (t i) true page) { ref = 1 }
  pub write_end : u j ≡ record (pipe_end (t j) false page) { ref = 1 }
  pub others : (m : ℕ) → m ≢ i → m ≢ j → u m ≡ t m

piped :
    (page : ℕ) (t u v w : Ftable) (i j : ℕ)
    → Took t i u
    → Took u j v
    → w ≡ update v i (pipe_end (v i) true page)
    → IsPiped page t i j (update w j (pipe_end (w j) false page))
piped page t u v w i j k k' q = record {
  distinct = ne;
  bounds = (k.lt, k'.lt);
  free = (k.was_free, ap (λ (f : File). f.ref) (sym (k.others j en)) ∙ k'.was_free);
  read_end =
      update_ne w j i (pipe_end (w j) false page) ne
      ∙ ap (λ (g : Ftable). g i) q
      ∙ update_self v i (pipe_end (v i) true page)
      ∙ ap (λ (f : File). pipe_end f true page) (k'.others i ne ∙ k.one);
  write_end =
      update_self w j (pipe_end (w j) false page)
      ∙ ap (λ (f : File). pipe_end f false page)
          (ap (λ (g : Ftable). g j) q
            ∙ update_ne v i j (pipe_end (v i) true page) en
            ∙ k'.one
            ∙ ap (λ (f : File). record f { ref = 1 }) (k.others j en));
  others = λ m a b.
      update_ne w j m (pipe_end (w j) false page) b
      ∙ ap (λ (g : Ftable). g m) q
      ∙ update_ne v i m (pipe_end (v i) true page) a
      ∙ k'.others m b
      ∙ k.others m a;
}
  where
    ne : i ≢ j
    ne r = absurd (ground (arith, k'.was_free, ap (λ (f : File). f.ref) k.one, r))

    en : j ≢ i
    en r = ne (sym r)

-- `pipealloc` on a table whose free slots are of no kind makes both ends of a pipe, in two slots
-- that were free, one readable and one writable with a reference each, and changes no other slot;
-- or it returns -1 with the table as it was, and then there is no page or there are no two free
-- slots. It never panics.
pub pipealloc_lem :
    (page : ℕ) (t : Ftable)
    → IsCleared t
    → ((i j : ℕ) × (u : Ftable) × (pipealloc page t ≡ made i j u) × IsPiped page t i j u)
      ⊎ ((pipealloc page t ≡ unmade t)
          × ((page ≡ 0)
              ⊎ ((i j : ℕ) → i < nfile → j < nfile → (t i).ref ≡ 0 → (t j).ref ≡ 0 → i ≡ j)))
unfolding pipealloc with_file
pipealloc_lem page t c = elim (filealloc-Took t) [
  | inr (e, full) ↦
      inr (ap (with_file page) e, inr (λ i j lt _ h _. absurd (ground (arith, full i lt, h))))
  | inl (i, u, e, k) ↦ elim (filealloc-Took u) [
    | inr (e', full) ↦
        inr (pipealloc-single page t u i c e k e', inr (λ a b. only t u i a b k full))
    | inl (j, v, e', k') ↦ elim (ℕ_discrete page 0) [
      | yes z ↦ inr (rw z (pipealloc-nopage t u v i j c e k e' k'), inl z)
      | no z ↦
          let (w, q, r) = pipealloc-pair page t u v i j (omega arith) e e' in
          inl (i, j, update w j (pipe_end (w j) false page), r, piped page t u v w i j k k' q)
    ]
  ]
]
  where
    only :
        (t u : Ftable) (i a b : ℕ)
        → Took t i u
        → ((m : ℕ) → m < nfile → 0 < (u m).ref)
        → a < nfile
        → b < nfile
        → (t a).ref ≡ 0
        → (t b).ref ≡ 0
        → a ≡ b
    only t u i a b k full la lb za zb = at_i a la za ∙ sym (at_i b lb zb)
      where
        at_i : (m : ℕ) → m < nfile → (t m).ref ≡ 0 → m ≡ i
        at_i m lt h = elim (ℕ_discrete m i) [
          | yes q ↦ q
          | no q ↦ absurd (ground (arith, full m lt, ap (λ (f : File). f.ref) (k.others m q), h))
        ]
