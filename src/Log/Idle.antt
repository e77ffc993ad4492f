-- ===== src/Log/Idle.antt =====
-- The log after a commit that keeps its power: empty, with no buffer dirty, and every read unchanged.
use rain_os.Common.{ℕ, zero, suc, ◌+◌, ◌<◌, ◌≡◌, ◌⊎◌, inl, inr, sym, ◌∙◌, ap, subst, none, arith}
use native.Mathlib.Decide.{ℕ_discrete}
use rain_os.Disk.{Store, bread, bwrite}
use rain_os.Disk.Writes.{dirty-bwrite_self, dirty-bwrite-none, bread-clean}
use rain_os.Log.{Log, Sys, clear, write_head, install_from, write_log_from, commit}
use rain_os.Log.Install.{Home}
use rain_os.Log.Commit.{IsReady, write_log_from-clean}
use rain_os.Log.Stopped.{commit-zero, commit-eq, store-commit, commit-Settled, start-commit}

-- Installing a block leaves its home's buffer clean.
install_from-clean :
    (lg : Log) (k tail e : ℕ) (st : Store) (t : ℕ)
    → tail + k ≡ e
    → (st.dirty t ≡ none) ⊎ Home lg.lh.sector tail e t
    → (install_from lg k tail st).dirty t ≡ none
unfolding install_from
install_from-clean lg zero tail e st t p (inl q) = q
install_from-clean lg zero tail e st t p (inr (j, lo, hi, q)) = absurd (omega arith)
install_from-clean lg (suc k) tail e st t p (inl q) =
    install_from-clean lg k (tail + 1) e
      (bwrite st (lg.lh.sector tail) (bread st (lg.start + tail + 1))) t (omega arith)
      (inl (dirty-bwrite-none st _ _ t q))
install_from-clean lg (suc k) tail e st t p (inr (j, lo, hi, q)) =
    install_from-clean lg k (tail + 1) e
      (bwrite st (lg.lh.sector tail) (bread st (lg.start + tail + 1))) t (omega arith)
      (elim (ℕ_discrete j tail) [
        | yes r ↦ inl (
            subst
              (λ a. (bwrite st (lg.lh.sector tail) (bread st (lg.start + tail + 1))).dirty a ≡ none)
              (ap lg.lh.sector (sym r) ∙ q) (dirty-bwrite_self st (lg.lh.sector tail) _))
        | no r ↦ inr (j, omega arith, hi, q)
      ])

write_head-clean :
    (lg : Log) (st : Store) (t : ℕ) → st.dirty t ≡ none → (write_head lg st).dirty t ≡ none
unfolding write_head
write_head-clean lg st t h = dirty-bwrite-none st lg.start _ t h

module _ (s : Sys) (v : IsReady s) where
  abbrev n : ℕ
  n = s.log.lh.n

  -- Until the home sectors are installed, a dirty buffer stays one of a logged sector.
  headed-pinned :
      (t : ℕ)
      → ((write_head s.log (write_log_from s.log n 0 s.store)).dirty t ≡ none)
        ⊎ Home s.log.lh.sector 0 n t
  unfolding write_head
  headed-pinned t = pick (v.pinned t)
    where
      pick :
          (s.store.dirty t ≡ none) ⊎ Home s.log.lh.sector 0 n t
          → ((write_head s.log (write_log_from s.log n 0 s.store)).dirty t ≡ none)
            ⊎ Home s.log.lh.sector 0 n t
      pick (inl e) =
          inl (dirty-bwrite-none _ s.log.start _ t (write_log_from-clean s.log n 0 s.store t e))
      pick (inr q) = inr q

  pub commit-clean : (t : ℕ) → (commit s).store.dirty t ≡ none
  commit-clean t = elim (ℕ_discrete n 0) [
    | yes e ↦ rw (commit-zero s v e) (empty e (v.pinned t))
    | no ne ↦
        ap (λ (st : Store). st.dirty t) (store-commit s v (omega arith))
        ∙ dirty-head _ (install_from-clean s.log n 0 n _ t (omega arith) (headed-pinned t))
  ]
    where
      empty : n ≡ 0 → (s.store.dirty t ≡ none) ⊎ Home s.log.lh.sector 0 n t → s.store.dirty t ≡ none
      empty e (inl q) = q
      empty e (inr (j, lo, hi, q)) = absurd (omega arith)

      dirty-head : (st : Store) → st.dirty t ≡ none → (write_head (clear s.log) st).dirty t ≡ none
      dirty-head st h = write_head-clean (clear s.log) st t h

  n-commit : (commit s).log.lh.n ≡ 0
  n-commit = elim (ℕ_discrete n 0) [
    | yes e ↦ ap (λ (t : Sys). t.log.lh.n) (commit-zero s v e) ∙ e
    | no ne ↦ ap (λ (t : Sys). t.log.lh.n) (commit-eq s v (omega arith))
  ]

  module _ (pow : n + n + 1 < s.store.power) where
    -- A commit with power for its disk writes leaves an empty log, on the disk too, and no buffer
    -- dirty.
    pub commit-IsReady : IsReady (commit s) × ((commit s).log.lh.n ≡ 0)
    commit-IsReady = (
      record {
        bounded = omega (arith, n-commit);
        low = λ i h. absurd (omega (arith, n-commit));
        pinned = λ t. inl (commit-clean t);
        empty =
            subst (λ a. (commit s).store.disk a 0 ≡ 0) (sym (start-commit s v))
              (commit-Settled s v pow).empty;
      },
      n-commit,
    )

    -- What a read of a home sector returns is the same before a commit and after it.
    pub bread-commit : (t : ℕ) → t < s.log.start → bread (commit s).store t ≡ bread s.store t
    bread-commit t h =
        bread-clean (commit s).store t (commit-clean t) ∙ (commit-Settled s v pow).home t h
