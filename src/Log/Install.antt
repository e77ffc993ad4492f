-- ===== src/Log/Install.antt =====
-- What the copying loops of log.c leave on the disk, however many of their writes reach it.
use rain_os.Common.{
  ℕ, zero, suc, ◌+◌, ◌-◌, ◌≤◌, ◌<◌, ◌≡◌, ◌≢◌, ◌⊎◌, inl, inr, refl, sym, ◌∙◌, arith,
}
use native.Mathlib.Decide.{ℕ_discrete}
use rain_os.Disk.{Block, Store, bread, bwrite}
use rain_os.Disk.Writes.{
  disk-bwrite_ne, disk-bwrite_self, disk-bwrite_dead, power-bwrite, bread-bwrite_ne,
  dirty-bwrite_ne,
}
use rain_os.Log.{Log, install_from}

-- `s` is the home of one of the log's blocks `tail`, …, `e - 1`.
abbrev pub Home : (ℕ → ℕ) → ℕ → ℕ → ℕ → Type 0
Home sec tail e s = (j : ℕ) × (tail ≤ j) × (j < e) × (sec j ≡ s)

module _ (lg : Log) where
  -- Without power nothing reaches the disk.
  pub install_from-dead :
      (k tail : ℕ) (st : Store) (s : ℕ)
      → st.power ≡ 0
      → (install_from lg k tail st).disk s ≡ st.disk s
  unfolding install_from
  install_from-dead zero tail st s h = refl
  install_from-dead (suc k) tail st s h =
      let st' = bwrite st (lg.lh.sector tail) (bread st (lg.start + tail + 1)) in
      install_from-dead k (tail + 1) st' s
        (omega (arith, power-bwrite st (lg.lh.sector tail) (bread st (lg.start + tail + 1))))
      ∙ disk-bwrite_dead st _ _ s h

  pub install_from-power :
      (k tail : ℕ) (st : Store) → (install_from lg k tail st).power ≡ st.power - k
  unfolding install_from
  install_from-power zero tail st = omega arith
  install_from-power (suc k) tail st =
      let b = bread st (lg.start + tail + 1) in
      omega (
        arith,
        install_from-power k (tail + 1) (bwrite st (lg.lh.sector tail) b),
        power-bwrite st (lg.lh.sector tail) b,
      )

  -- A sector that is no home of a logged block keeps its contents.
  pub install_from-other :
      (k tail e : ℕ) (st : Store) (s : ℕ)
      → tail + k ≡ e
      → ((i : ℕ) → i < e → lg.lh.sector i ≢ s)
      → ((install_from lg k tail st).disk s ≡ st.disk s)
        × ((install_from lg k tail st).dirty s ≡ st.dirty s)
  unfolding install_from
  install_from-other zero tail e st s p h = (refl, refl)
  install_from-other (suc k) tail e st s p h =
      let b = bread st (lg.start + tail + 1) in
      let ne : s ≢ lg.lh.sector tail = λ q. h tail (omega arith) (sym q) in
      let ih =
        install_from-other k (tail + 1) e (bwrite st (lg.lh.sector tail) b) s (omega arith) h in
      (ih.0 ∙ disk-bwrite_ne st _ b s ne, ih.1 ∙ dirty-bwrite_ne st _ b s ne)

-- The installing loop where each log block holds what `f` gives for its home.
module _ (lg : Log) (f : ℕ → Block) (e : ℕ)
    (low : (i : ℕ) → i < e → lg.lh.sector i < lg.start) where
  abbrev pub Holds : Store → Type 0
  Holds st = (i : ℕ) → i < e → bread st (lg.start + i + 1) ≡ f (lg.lh.sector i)

  Holds-bwrite :
      (st : Store) (i : ℕ) (b : Block) → i < e → Holds st → Holds (bwrite st (lg.lh.sector i) b)
  Holds-bwrite st i b h hold j hj =
      bread-bwrite_ne st _ b (lg.start + j + 1) (λ q. absurd (omega (arith, low i h))) ∙ hold j hj

  -- A home that already has its contents keeps them.
  pub install_from-keep :
      (k tail : ℕ) (st : Store) (s : ℕ)
      → tail + k ≡ e
      → Holds st
      → st.disk s ≡ f s
      → (install_from lg k tail st).disk s ≡ f s
  unfolding install_from
  install_from-keep zero tail st s p hold d = d
  install_from-keep (suc k) tail st s p hold d =
      let t = lg.lh.sector tail in
      let b = bread st (lg.start + tail + 1) in
      let st' = bwrite st t b in
      install_from-keep k (tail + 1) st' s (omega arith) (Holds-bwrite st tail b (omega arith) hold)
        (elim (ℕ_discrete s t) [
          | yes q ↦ elim (ℕ_discrete st.power 0) [
            | yes z ↦ disk-bwrite_dead st t b s z ∙ d
            | no z ↦ rw q (disk-bwrite_self st t b (omega arith) ∙ hold tail (omega arith))
          ]
          | no q ↦ disk-bwrite_ne st t b s q ∙ d
        ])

  -- With power for every round each home gets its contents.
  pub install_from-all :
      (k tail : ℕ) (st : Store) (s : ℕ)
      → tail + k ≡ e
      → Holds st
      → k ≤ st.power
      → (st.disk s ≡ f s) ⊎ Home lg.lh.sector tail e s
      → (install_from lg k tail st).disk s ≡ f s
  unfolding install_from
  install_from-all zero tail st s p hold pow (inl d) = d
  install_from-all zero tail st s p hold pow (inr (j, lo, hi, q)) = absurd (omega arith)
  install_from-all (suc k) tail st s p hold pow (inl d) =
      unfold install_from in install_from-keep (suc k) tail st s p hold d
  install_from-all (suc k) tail st s p hold pow (inr (j, lo, hi, q)) =
      let t = lg.lh.sector tail in
      let b = bread st (lg.start + tail + 1) in
      install_from-all k (tail + 1) (bwrite st t b) s (omega arith)
        (Holds-bwrite st tail b (omega arith) hold) (omega (arith, power-bwrite st t b))
        (elim (ℕ_discrete j tail) [
          | yes r ↦
              inl (rw (← q, r) (disk-bwrite_self st t b (omega arith) ∙ hold tail (omega arith)))
          | no r ↦ inr (j, omega arith, hi, q)
        ])
