-- ===== src/Descriptors/MakePipe.antt =====
-- `sys_pipe`: the files of `pipealloc`, the two descriptors and the caller's memory together.
use rain_os.Common.{
  ℕ, ◌+◌, ◌≤◌, ◌<◌, ◌≡◌, ◌≢◌, ◌⊎◌, inl, inr, refl, sym, ◌∙◌, ap, true, false, none, some, List, [],
  ◌∷◌, arith, Outcome, ok, update, Option-cases, int_at, put_int, int_at-put_int, put_int-outside,
  int_at-same,
}
use native.Mathlib.Decide.{ℕ_discrete}
use rain_os.Proc.{nofile}
use rain_os.FileTable.{nfile, Ftable, Closing, close_pipe}
use rain_os.FileTable.Undo.{IsCleared}
use rain_os.FileTable.MakePipe.{IsPiped, pipealloc_lem}
use rain_os.Syscall.{argptr}
use rain_os.Syscall.Args.{IsUser, argptr-bounds}
use rain_os.Descriptors.{Ofile, Caller, PipeResult, fdalloc, piped, refused, store_ends, sys_pipe}
use rain_os.Descriptors.Slots.{Gave, holds_given, others_kept, restored, IsFull, fdalloc_lem}
use rain_os.Descriptors.DropEnds.{IsUnused, after_drop, after_drop-IsUnused, drop_ends_lem}

-- `p` is the address of the two words that `sys_pipe` has filled.
pub record IsGiven (page p : ℕ) (s s' : Caller) (rf wf fd0 fd1 : ℕ) : Type 0 where
  pub ends : IsPiped page s.files rf wf s'.files
  pub distinct : fd0 ≢ fd1
  pub bounds : (fd0 < nofile) × (fd1 < nofile)
  pub free : (s.ofile fd0 ≡ none) × (s.ofile fd1 ≡ none)
  pub holds : (s'.ofile fd0 ≡ some rf) × (s'.ofile fd1 ≡ some wf)
  pub others : (fd : ℕ) → fd ≢ fd0 → fd ≢ fd1 → s'.ofile fd ≡ s.ofile fd
  pub within : p + 8 ≤ s.user.sz
  pub words : (int_at s'.user.mem p ≡ fd0) × (int_at s'.user.mem (p + 4) ≡ fd1)
  pub outside : (a : ℕ) → (a < p) ⊎ (p + 8 ≤ a) → s'.user.mem a ≡ s.user.mem a

-- Why `sys_pipe` gives up, and what the files it closes leave to do.
pub data IsRefused (page : ℕ) (s : Caller) : List Closing → Type 0 where
  bad_pointer : argptr s.user 0 8 ≡ none → IsRefused page s []
  no_page : page ≡ 0 → IsRefused page s []
  no_files :
      ((i j : ℕ) → i < nfile → j < nfile → (s.files i).ref ≡ 0 → (s.files j).ref ≡ 0 → i ≡ j)
      → IsRefused page s []
  no_descriptors :
      ((a b : ℕ) → a < nofile → b < nofile → s.ofile a ≡ none → s.ofile b ≡ none → a ≡ b)
      → IsRefused page s (close_pipe page false ∷ close_pipe page true ∷ [])

both : (m : ℕ → ℕ) (p a b : ℕ) → ℕ → ℕ
both m p a b = put_int (put_int m p a) (p + 4) b

both-words :
    (m : ℕ → ℕ) (p a b : ℕ)
    → a < nofile
    → b < nofile
    → (int_at (both m p a b) p ≡ a) × (int_at (both m p a b) (p + 4) ≡ b)
unfolding both
both-words m p a b la lb = (
  int_at-same (put_int m p a) (both m p a b) p
        (λ c lo hi. put_int-outside (put_int m p a) (p + 4) b c (inl (omega arith)))
      ∙ int_at-put_int m p a (omega arith),
  int_at-put_int (put_int m p a) (p + 4) b (omega arith),
)

both-outside : (m : ℕ → ℕ) (p a b c : ℕ) → (c < p) ⊎ (p + 8 ≤ c) → both m p a b c ≡ m c
unfolding both
both-outside m p a b c h =
    put_int-outside (put_int m p a) (p + 4) b c (ground arith)
    ∙ put_int-outside m p a c (ground arith)

-- Another free descriptor than `fd` is still free in `o`.
only_free :
    (o o' : Ofile) (f fd a : ℕ) → Gave f o fd o' → IsFull o' → a < nofile → o a ≡ none → a ≡ fd
only_free o o' f fd a g full lt h = elim (ℕ_discrete a fd) [
  | yes q ↦ q
  | no q ↦ absurd (full a lt (others_kept f o o' fd g a q ∙ h))
]

abbrev IsOutcome : (page p : ℕ) (s : Caller) → Outcome PipeResult → Type 0
IsOutcome page p s r =
    ((s' : Caller) × (rf wf fd0 fd1 : ℕ) × (r ≡ ok (piped s')) × IsGiven page p s s' rf wf fd0 fd1)
    ⊎ ((cs : List Closing) × (t : Ftable) × (r ≡ ok (refused cs (record s { files = t })))
        × IsUnused s.files t
        × IsRefused page s cs)

module _ (page p : ℕ) (s : Caller) (u : Ftable) (rf wf : ℕ) (d : IsPiped page s.files rf wf u)
    (c : IsCleared s.files) (fits : p + 8 ≤ s.user.sz) where
  -- The caller after `sys_pipe` returned 0.
  filled : (fd0 fd1 : ℕ) → Ofile → Caller
  filled fd0 fd1 o = record {
    user = record (s.user) { mem = both s.user.mem p fd0 fd1 };
    ofile = o;
    files = u;
  }

  apart : (fd0 fd1 : ℕ) (o o' : Ofile) → Gave rf s.ofile fd0 o → Gave wf o fd1 o' → fd0 ≢ fd1
  apart fd0 fd1 o o' g g' q =
      let h : o fd1 ≡ some rf = rw (← q) (holds_given rf s.ofile o fd0 g) in
      let z : o fd1 ≡ none = g'.was_null in absurd (cc)

  given :
      (fd0 fd1 : ℕ) (o o' : Ofile)
      → Gave rf s.ofile fd0 o
      → Gave wf o fd1 o'
      → IsGiven page p s (filled fd0 fd1 o') rf wf fd0 fd1
  unfolding filled
  given fd0 fd1 o o' g g' =
      let ne : fd0 ≢ fd1 = apart fd0 fd1 o o' g g' in
      record {
        ends = d;
        distinct = ne;
        bounds = (g.lt, g'.lt);
        free =
            (g.was_null, sym (others_kept rf s.ofile o fd0 g fd1 (λ q. ne (sym q))) ∙ g'.was_null);
        holds = (
          others_kept wf o o' fd1 g' fd0 ne ∙ holds_given rf s.ofile o fd0 g,
          holds_given wf o o' fd1 g',
        );
        others = λ fd a b. others_kept wf o o' fd1 g' fd b ∙ others_kept rf s.ofile o fd0 g fd a;
        within = fits;
        words = both-words s.user.mem p fd0 fd1 g.lt g'.lt;
        outside = λ a h. both-outside s.user.mem p fd0 fd1 a h;
      }

  store_ends_lem :
      IsOutcome page p s (store_ends p rf wf (fdalloc rf s.ofile) (record s { files = u }))
  unfolding store_ends filled both
  store_ends_lem = elim (fdalloc_lem rf s.ofile) [
    | inr (e, full) ↦ inr (
      close_pipe page false ∷ close_pipe page true ∷ [],
      after_drop u rf wf,
      rw (e, store_ends) (drop_ends_lem page s.files u rf wf d s.ofile s),
      after_drop-IsUnused page s.files u rf wf d c,
      no_descriptors (λ a b la lb za zb. absurd (full a la za)),
    )
    | inl (fd0, o, e, g) ↦ elim (fdalloc_lem wf o) [
      | inr (e', full) ↦ inr (
        close_pipe page false ∷ close_pipe page true ∷ [],
        after_drop u rf wf,
        rw (e, store_ends, e', e')
            (drop_ends_lem page s.files u rf wf d (update o fd0 none) s
              ∙ ap
                  (λ (x : Ofile). ok (
                    refused (close_pipe page false ∷ close_pipe page true ∷ [])
                      (record s { ofile = x; files = after_drop u rf wf })))
                  (restored rf s.ofile o fd0 g)),
        after_drop-IsUnused page s.files u rf wf d c,
        no_descriptors (λ a b la lb za zb.
            only_free s.ofile o rf fd0 a g full la za
            ∙ sym (only_free s.ofile o rf fd0 b g full lb zb)),
      )
      | inl (fd1, o', e', g') ↦
          inl (
            filled fd0 fd1 o',
            rf,
            wf,
            fd0,
            fd1,
            rw (e, store_ends, e', e'),
            given fd0 fd1 o o' g g',
          )
    ]
  ]

-- `sys_pipe`, for a process in user memory and a table whose free slots are of no kind, returns 0
-- with two descriptors that were free, stored in the two words at its argument, the first for the
-- reading end of a new pipe and the second for the writing end, and changes no other descriptor, file
-- or byte; or it returns -1, and then no descriptor, no file in use and no byte has changed, and the
-- pointer is bad, there is no page, there are no two free files, or there are no two free
-- descriptors, where alone a pipe was made: both its ends are closed. It never panics.
pub sys_pipe_lem :
    (page : ℕ) (s : Caller)
    → IsUser s.user
    → IsCleared s.files
    → ((s' : Caller) × (p rf wf fd0 fd1 : ℕ) × (argptr s.user 0 8 ≡ some p)
        × (sys_pipe page s ≡ ok (piped s'))
        × IsGiven page p s s' rf wf fd0 fd1)
      ⊎ ((cs : List Closing) × (t : Ftable) × (sys_pipe page s
            ≡ ok (refused cs (record s { files = t })))
          × IsUnused s.files t
          × IsRefused page s cs)
unfolding sys_pipe
sys_pipe_lem page s v c = elim (Option-cases (argptr s.user 0 8)) [
  | inl e ↦ inr ([], s.files, rw (e, sys_pipe), same, bad_pointer e)
  | inr (p, e) ↦
      let fits = (argptr-bounds s.user 0 8 p v (omega arith) e).1 in
      elim (pipealloc_lem page s.files c) [
        | inl (i, j, u, q, d) ↦ elim (store_ends_lem page p s u i j d c fits) [
          | inl (s', rf, wf, fd0, fd1, r, h) ↦
              inl (s', p, rf, wf, fd0, fd1, e, rw (e, sys_pipe, q) r, h)
          | inr (cs, t, r, h, w) ↦ inr (cs, t, rw (e, sys_pipe, q) r, h, w)
        ]
        | inr (q, why) ↦ inr (
          [],
          s.files,
          rw (e, sys_pipe, q),
          same,
          elim why [ inl z ↦ no_page z | inr z ↦ no_files z ],
        )
      ]
]
  where
    same : IsUnused s.files s.files
    same m = (λ h. refl, λ h. (h, c m h))
