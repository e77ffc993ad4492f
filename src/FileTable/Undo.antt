-- ===== src/FileTable/Undo.antt =====
-- An allocated file and the close that undoes the allocation.
use rain_os.Common.{
  ℕ, ◌-◌, ◌<◌, ◌≡◌, ◌≢◌, ◌⊎◌, inl, inr, sym, ◌∙◌, ap, false, none, some, arith, ok, ltb, update,
  update_self, update_ne, fun_ext,
}
use native.Mathlib.Decide.{ℕ_discrete}
use rain_os.FileTable.{nfile, Kind, fd_none, File, Ftable, filealloc, closing, fileclose, close_one}
use rain_os.FileTable.Refs.{filealloc_lem}

pub fileclose-last :
    (i : ℕ) (t : Ftable)
    → (t i).ref ≡ 1
    → fileclose i t
      ≡ ok (closing (t i) (t i).kind, update t i (record (t i) { ref = 0; kind = fd_none }))
unfolding fileclose
fileclose-last i t h =
    let a : ltb (t i).ref 1 ≡ false = ground arith in
    let b : ltb 0 ((t i).ref - 1) ≡ false = ground arith in rw (a, b)

pub close_one-last :
    (i : ℕ) (t : Ftable)
    → (t i).ref ≡ 1
    → close_one i t ≡ ok (update t i (record (t i) { ref = 0; kind = fd_none }))
close_one-last i t h = rw (fileclose-last i t h, close_one)

-- A free slot is of no kind.
abbrev pub IsCleared : Ftable → Type 0
IsCleared t = (i : ℕ) → (t i).ref ≡ 0 → (t i).kind ≡ fd_none

-- `u` is `t` after slot `i`, free in `t`, has been allocated.
pub record Took (t : Ftable) (i : ℕ) (u : Ftable) : Type 0 where
  pub lt : i < nfile
  pub was_free : (t i).ref ≡ 0
  pub one : u i ≡ record (t i) { ref = 1 }
  pub others : (j : ℕ) → j ≢ i → u j ≡ t j

pub cleared-same :
    (t : Ftable) (i : ℕ)
    → IsCleared t
    → (t i).ref ≡ 0
    → record (t i) { ref = 0; kind = fd_none } ≡ t i
cleared-same t i c h =
    ap (λ (n : ℕ). record (t i) { ref = n; kind = fd_none }) (sym h)
    ∙ ap (λ (d : Kind). record (t i) { kind = d }) (sym (c i h))

-- Closing a file that has just been allocated undoes the allocation.
pub close_one-Took : (i : ℕ) (t u : Ftable) → IsCleared t → Took t i u → close_one i u ≡ ok t
close_one-Took i t u c k =
    let gone : File = record (u i) { ref = 0; kind = fd_none } in
    close_one-last i u (ap (λ (f : File). f.ref) k.one)
    ∙ ap ok (
        fun_ext λ j. elim (ℕ_discrete j i) [
          | yes r ↦ rw r (
              update_self u i gone
              ∙ ap (λ (f : File). record f { ref = 0; kind = fd_none }) k.one
              ∙ cleared-same t i c k.was_free)
          | no r ↦ update_ne u i j gone r ∙ k.others j r
        ])

pub filealloc-Took :
    (t : Ftable)
    → ((i : ℕ) × (u : Ftable) × (filealloc t ≡ (some i, u)) × Took t i u)
      ⊎ ((filealloc t ≡ (none, t)) × ((i : ℕ) → i < nfile → 0 < (t i).ref))
filealloc-Took t = elim (filealloc_lem t) [
  | inl (i, u, e, f, s, o) ↦ inl (
    i,
    u,
    e,
    record { lt = omega (arith, f.upper); was_free = ground (arith, f.hit); one = s; others = o },
  )
  | inr r ↦ inr r
]
