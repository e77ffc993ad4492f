-- ===== src/FileTable/Refs.antt =====
-- The life of a slot: allocation, duplication and close.
use rain_os.Common.{
  ℕ, ◌+◌, ◌-◌, ◌<◌, ◌≡◌, ◌≢◌, ◌⊎◌, inl, inr, ◌∙◌, ap, true, false, none, some, arith, Outcome, ok,
  panic, ltb, update, update_self, update_ne, Bool-cases, Option-cases, fun_ext, find_index,
  IsFirst, find_index-some, find_index-none,
}
use native.Mathlib.Decide.{ℕ_discrete}
use rain_os.FileTable.{
  nfile, fd_none, File, Ftable, is_free, filealloc, filedup, nothing, closing, fileclose,
}

-- `filealloc` returns the first free slot, with one reference to it, or null where every slot is
-- referenced; no other slot changes.
pub filealloc_lem :
    (t : Ftable)
    → ((i : ℕ) × (t' : Ftable) × (filealloc t ≡ (some i, t'))
        × IsFirst (is_free t) nfile 0 i
        × (t' i ≡ record (t i) { ref = 1 })
        × ((j : ℕ) → j ≢ i → t' j ≡ t j))
      ⊎ ((filealloc t ≡ (none, t)) × ((i : ℕ) → i < nfile → 0 < (t i).ref))
unfolding filealloc
filealloc_lem t = elim (Option-cases (find_index (is_free t) nfile 0)) [
  | inr (i, e) ↦
      let n : File = record (t i) { ref = 1 } in
      inl (
        i,
        update t i n,
        rw (e, filealloc),
        find_index-some (is_free t) nfile 0 i e,
        update_self t i n,
        λ j ne. update_ne t i j n ne,
      )
  | inl e ↦ inr (rw (e, filealloc), λ i lt. used i lt e)
]
  where
    used : (i : ℕ) → i < nfile → find_index (is_free t) nfile 0 ≡ none → 0 < (t i).ref
    used i lt e = ground (arith, find_index-none (is_free t) nfile 0 e i)

-- As many closes as there are references free a slot, and only the last of them does: it alone
-- hands the pipe or the inode on to be closed.
pub fileclose_lem :
    (i : ℕ) (t : Ftable)
    → ((t i).ref ≡ 0 → fileclose i t ≡ panic)
      × (1 < (t i).ref
          → (t' : Ftable) × (fileclose i t ≡ ok (nothing, t'))
            × (t' i ≡ record (t i) { ref = (t i).ref - 1 })
            × ((j : ℕ) → j ≢ i → t' j ≡ t j))
      × ((t i).ref ≡ 1
          → (t' : Ftable) × (fileclose i t ≡ ok (closing (t i) (t i).kind, t'))
            × (t' i ≡ record (t i) { ref = 0; kind = fd_none })
            × ((j : ℕ) → j ≢ i → t' j ≡ t j))
unfolding fileclose
fileclose_lem i t =
    let fewer : File = record (t i) { ref = (t i).ref - 1 } in
    let gone : File = record (t i) { ref = 0; kind = fd_none } in
    (
      λ h. ground arith,
      λ h.
          let a : ltb (t i).ref 1 ≡ false = ground arith in
          let b : ltb 0 ((t i).ref - 1) ≡ true = ground arith in
          (update t i fewer, rw (a, b), update_self t i fewer, λ j ne. update_ne t i j fewer ne),
      λ h.
          let a : ltb (t i).ref 1 ≡ false = ground arith in
          let b : ltb 0 ((t i).ref - 1) ≡ false = ground arith in
          (update t i gone, rw (a, b), update_self t i gone, λ j ne. update_ne t i j gone ne),
    )

-- A duplicate and a close of it leave the table as it was.
pub fileclose-filedup :
    (i : ℕ) (t t' : Ftable) → filedup i t ≡ ok t' → fileclose i t' ≡ ok (nothing, t)
unfolding filedup
fileclose-filedup i t t' h = elim (Bool-cases (ltb (t i).ref 1)) [
  | inl e ↦ let q = rw e at h in cc
  | inr e ↦
      let more : File = record (t i) { ref = (t i).ref + 1 } in
      let q : t' ≡ update t i more = made_of (update t i more) t' (rw e at h) in
      let at_i : t' i ≡ more = ap (λ (u : Ftable). u i) q ∙ update_self t i more in
      let w = (fileclose_lem i t').1 (rw at_i (ground arith)) in
      w.1
      ∙ ap (λ (u : Ftable). ok (nothing, u))
          (fun_ext λ j. elim (ℕ_discrete j i) [
            | yes r ↦ rw r (
                w.2
                ∙ ap (λ (f : File). record f { ref = f.ref - 1 }) at_i
                ∙ ap (λ (n : ℕ). record (t i) { ref = n }) (omega arith))
            | no r ↦ w.3 j r ∙ ap (λ (u : Ftable). u j) q ∙ update_ne t i j more r
          ])
]
  where
    made_of : (u v : Ftable) → ◌≡◌ {A = Outcome Ftable} (ok u) (ok v) → v ≡ u
    made_of u v e = cc
