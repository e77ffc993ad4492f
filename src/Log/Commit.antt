-- ===== src/Log/Commit.antt =====
-- `commit` under a crash at any of its disk writes.
use rain_os.Common.{ℕ, zero, suc, ◌+◌, ◌-◌, ◌≤◌, ◌<◌, ◌≡◌, ◌≢◌, ◌⊎◌, refl, ◌∙◌, none, arith}
use native.Mathlib.Decide.{ℕ_discrete}
use rain_os.Disk.{Block, Store, bread, bwrite}
use rain_os.Disk.Writes.{
  disk-bwrite_ne, disk-bwrite_self, dirty-bwrite_ne, power-bwrite, bread-bwrite_ne,
  dirty-bwrite-none,
}
use rain_os.Log.{Log, Sys, log_size, put_sectors, write_log_from}
use rain_os.Log.Install.{Home}

-- The state of the log between operations: the logged sectors are home sectors, every dirty
-- buffer is logged, and the log on the disk is empty.
pub record IsReady (s : Sys) : Type 0 where
  pub bounded : s.log.lh.n ≤ log_size
  pub low : (i : ℕ) → i < s.log.lh.n → s.log.lh.sector i < s.log.start
  pub pinned : (t : ℕ) → (s.store.dirty t ≡ none) ⊎ Home s.log.lh.sector 0 s.log.lh.n t
  pub empty : s.store.disk s.log.start 0 ≡ 0

module _ (lg : Log) where
  pub write_log_from-power :
      (k tail : ℕ) (st : Store) → (write_log_from lg k tail st).power ≡ st.power - k
  unfolding write_log_from
  write_log_from-power zero tail st = omega arith
  write_log_from-power (suc k) tail st =
      let b = bread st (lg.lh.sector tail) in
      let t = lg.start + tail + 1 in
      omega (arith, write_log_from-power k (tail + 1) (bwrite st t b), power-bwrite st t b)

  -- `write_log` writes to the log's own blocks only.
  pub write_log_from-other :
      (k tail : ℕ) (st : Store) (s : ℕ)
      → ((i : ℕ) → tail ≤ i → s ≢ lg.start + i + 1)
      → ((write_log_from lg k tail st).disk s ≡ st.disk s)
        × ((write_log_from lg k tail st).dirty s ≡ st.dirty s)
  unfolding write_log_from
  write_log_from-other zero tail st s h = (refl, refl)
  write_log_from-other (suc k) tail st s h =
      let b = bread st (lg.lh.sector tail) in
      let ne = h tail (omega arith) in
      let ih =
        write_log_from-other k (tail + 1) (bwrite st (lg.start + tail + 1) b) s
          (λ i lo. h i (omega arith)) in
      (ih.0 ∙ disk-bwrite_ne st _ b s ne, ih.1 ∙ dirty-bwrite_ne st _ b s ne)

  pub write_log_from-clean :
      (k tail : ℕ) (st : Store) (s : ℕ)
      → st.dirty s ≡ none
      → (write_log_from lg k tail st).dirty s ≡ none
  unfolding write_log_from
  write_log_from-clean zero tail st s h = h
  write_log_from-clean (suc k) tail st s h =
      write_log_from-clean k (tail + 1)
        (bwrite st (lg.start + tail + 1) (bread st (lg.lh.sector tail))) s
        (dirty-bwrite-none st _ _ s h)

  -- With power for every round the log's blocks hold the new contents of their homes.
  pub write_log_from-blocks :
      (f : ℕ → Block) (k tail e : ℕ) (st : Store)
      → tail + k ≡ e
      → ((i : ℕ) → i < e → lg.lh.sector i < lg.start)
      → ((i : ℕ) → i < e → bread st (lg.lh.sector i) ≡ f (lg.lh.sector i))
      → k ≤ st.power
      → (j : ℕ) → tail ≤ j
      → j < e
      → (write_log_from lg k tail st).disk (lg.start + j + 1) ≡ f (lg.lh.sector j)
  unfolding write_log_from
  write_log_from-blocks f zero tail e st p low hold pow j lo hi = absurd (omega arith)
  write_log_from-blocks f (suc k) tail e st p low hold pow j lo hi =
      let b = bread st (lg.lh.sector tail) in
      let t = lg.start + tail + 1 in
      elim (ℕ_discrete j tail) [
        | yes q ↦ rw q (
            (write_log_from-other k (tail + 1) (bwrite st t b) t (λ i h. absurd_of i h)).0
            ∙ disk-bwrite_self st t b (omega arith)
            ∙ hold tail (omega arith))
        | no q ↦
            write_log_from-blocks f k (tail + 1) e (bwrite st t b) (omega arith) low
              (λ i h. bread-bwrite_ne st t b _ (λ r. absurd (omega (arith, low i h))) ∙ hold i h)
              (omega (arith, power-bwrite st t b)) j (omega arith) hi
      ]
    where
      absurd_of : (i : ℕ) → tail + 1 ≤ i → lg.start + tail + 1 ≢ lg.start + i + 1
      absurd_of i h = omega arith

-- The header, written.
pub put_sectors-head : (k : ℕ) (sec : ℕ → ℕ) (b : Block) → put_sectors k sec b 0 ≡ b 0
unfolding put_sectors
put_sectors-head zero sec b = refl
put_sectors-head (suc k) sec b = ground (arith, put_sectors-head k sec b)

pub put_sectors-eq :
    (k : ℕ) (sec : ℕ → ℕ) (b : Block) (i : ℕ) → i < k → put_sectors k sec b (suc i) ≡ sec i
unfolding put_sectors
put_sectors-eq zero sec b i h = absurd (omega arith)
put_sectors-eq (suc k) sec b i h = ground (arith, put_sectors-eq k sec b i)
