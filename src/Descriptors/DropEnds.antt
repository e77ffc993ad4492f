-- ===== src/Descriptors/DropEnds.antt =====
-- The close of both ends of a new pipe, where `sys_pipe` gives up.
use rain_os.Common.{
  ℕ, ◌<◌, ◌≡◌, sym, ◌∙◌, ap, true, false, [], ◌∷◌, arith, ok, update, update_self, update_ne,
}
use native.Mathlib.Decide.{ℕ_discrete}
use rain_os.FileTable.{fd_none, File, Ftable, close_pipe, closing, fileclose}
use rain_os.FileTable.Undo.{IsCleared, fileclose-last}
use rain_os.FileTable.MakePipe.{IsPiped}
use rain_os.Descriptors.{Ofile, Caller, refused, drop_ends}

-- No file in use has changed, and the free slots are still free.
abbrev pub IsUnused : Ftable → Ftable → Type 0
IsUnused t t' =
    (m : ℕ)
    → (0 < (t m).ref → t' m ≡ t m) × ((t m).ref ≡ 0 → ((t' m).ref ≡ 0) × ((t' m).kind ≡ fd_none))

pub gone : File → File
gone f = record f { ref = 0; kind = fd_none }

-- The table after both ends of a new pipe have been closed.
pub after_drop : Ftable → (i j : ℕ) → Ftable
after_drop u i j = let w = update u i (gone (u i)) in update w j (gone (w j))

pub still_free :
    (t x : Ftable) (m : ℕ) (g : File)
    → (t m).ref ≡ 0
    → x m ≡ gone g
    → (0 < (t m).ref → x m ≡ t m) × ((t m).ref ≡ 0 → ((x m).ref ≡ 0) × ((x m).kind ≡ fd_none))
unfolding gone
still_free t x m g z e = (
  λ h. absurd (omega (arith, h, z)),
  λ h. (ap (λ (f : File). f.ref) e, ap (λ (f : File). f.kind) e),
)

module _ (page : ℕ) (t u : Ftable) (i j : ℕ) (p : IsPiped page t i j u) where
  at_j : update u i (gone (u i)) j ≡ u j
  at_j = update_ne u i j (gone (u i)) (λ q. p.distinct (sym q))

  close_first : fileclose i u ≡ ok (close_pipe page false, update u i (gone (u i)))
  unfolding closing gone
  close_first =
      fileclose-last i u (ap (λ (f : File). f.ref) p.read_end)
      ∙ ap (λ (f : File). ok (closing f f.kind, update u i (gone (u i)))) p.read_end

  close_second : fileclose j (update u i (gone (u i))) ≡ ok (close_pipe page true, after_drop u i j)
  unfolding closing gone after_drop
  close_second =
      fileclose-last j (update u i (gone (u i))) (ap (λ (f : File). f.ref) (at_j ∙ p.write_end))
      ∙ ap (λ (f : File). ok (closing f f.kind, after_drop u i j)) (at_j ∙ p.write_end)

  pub after_drop-IsUnused : IsCleared t → IsUnused t (after_drop u i j)
  unfolding after_drop
  after_drop-IsUnused c m = elim (ℕ_discrete m j) [
    | yes q ↦
        still_free t (after_drop u i j) m (w j) (rw q (p.free.1))
          (rw q (update_self w j (gone (w j))))
    | no q ↦ elim (ℕ_discrete m i) [
      | yes r ↦
          still_free t (after_drop u i j) m (u i) (rw r (p.free.0))
            (rw r (update_ne w j i (gone (w j)) p.distinct ∙ update_self u i (gone (u i))))
      | no r ↦
          let e : after_drop u i j m ≡ t m =
            update_ne w j m (gone (w j)) q ∙ update_ne u i m (gone (u i)) r ∙ p.others m r q in
          (λ h. e, λ h. (ap (λ (f : File). f.ref) e ∙ h, ap (λ (f : File). f.kind) e ∙ c m h))
    ]
  ]
    where
      w : Ftable
      w = update u i (gone (u i))

  pub drop_ends_lem :
      (o : Ofile) (s : Caller)
      → drop_ends i j o (record s { files = u })
        ≡ ok (
            refused
              (close_pipe page false ∷ close_pipe page true ∷ [])
              (record s { ofile = o; files = after_drop u i j }))
  unfolding drop_ends
  drop_ends_lem o s = rw (drop_ends, close_first, close_second)
