-- ===== src/Log/Recorded.antt =====
-- The state that `log_write` makes of a block: its sector is logged once, and its buffer is dirty.
use rain_os.Common.{
  ℕ, zero, suc, ◌+◌, ◌≤◌, ◌<◌, ◌^◌, ◌≡◌, ◌≢◌, ◌⊎◌, inl, inr, sym, ◌∙◌, none, some, arith, update,
  update_self, update_ne, ok, ◌==◌, Bool-cases, if◌then◌else◌,
}
use native.Mathlib.Decide.{ℕ_discrete}
use rain_os.Disk.{Block}
use rain_os.Log.{Sys, log_size, find_sector, log_write}
use rain_os.Log.Install.{Home}
use rain_os.Log.Commit.{IsReady}

pub find_sector-le : (sec : ℕ → ℕ) (k i t : ℕ) → find_sector sec k i t ≤ i + k
unfolding find_sector
find_sector-le sec zero i t = omega arith
find_sector-le sec (suc k) i t = ground (arith, find_sector-le sec k (i + 1) t)

pub find_sector-hit :
    (sec : ℕ → ℕ) (k i t : ℕ) → find_sector sec k i t < i + k → sec (find_sector sec k i t) ≡ t
unfolding find_sector
find_sector-hit sec zero i t h = absurd (omega arith)
find_sector-hit sec (suc k) i t h = elim (Bool-cases (sec i == t)) [
  | inl e ↦ rw e (ground arith)
  | inr e ↦ rw e (find_sector-hit sec k (i + 1) t (ground arith))
]

-- The state that `log_write` makes, with `i` the index that its search found.
abbrev pub recorded : Sys → ℕ → Block → ℕ → ℕ → Sys
recorded s t b i m = record {
  log = record (s.log) { lh = record { n = m; sector = update s.log.lh.sector i t } };
  store = record (s.store) { dirty = update s.store.dirty t (some b) };
}

module _ (s : Sys) (t i m : ℕ) (b : Block) (v : IsReady s) (room : m ≤ log_size)
    (home : t < s.log.start) (le : i ≤ s.log.lh.n) (lt : i < m) (grown : m ≤ s.log.lh.n + 1)
    (kept : s.log.lh.n ≤ m) (old : m ≢ s.log.lh.n → i ≡ s.log.lh.n)
    (hit : i < s.log.lh.n → s.log.lh.sector i ≡ t) where
  sector-recorded : (j : ℕ) → j < s.log.lh.n → update s.log.lh.sector i t j ≡ s.log.lh.sector j
  sector-recorded j h = elim (ℕ_discrete j i) [
    | yes q ↦ rw q (update_self s.log.lh.sector i t ∙ sym (hit (omega arith)))
    | no q ↦ update_ne s.log.lh.sector i j t q
  ]

  pub recorded-IsReady : IsReady (recorded s t b i m)
  recorded-IsReady = record {
    bounded = room;
    low = λ j h. elim (ℕ_discrete j i) [
      | yes q ↦ rw q (rw (update_self s.log.lh.sector i t) home)
      | no q ↦
          let hj : j < s.log.lh.n = elim (ℕ_discrete m s.log.lh.n) [
            | yes e ↦ omega arith
            | no e ↦ omega (arith, old e)
          ] in
          rw (update_ne s.log.lh.sector i j t q) (v.low j hj)
    ];
    pinned = λ u. elim (ℕ_discrete u t) [
      | yes q ↦ inr (i, omega arith, lt, update_self s.log.lh.sector i t ∙ sym q)
      | no q ↦ rw (update_ne s.store.dirty t u (some b) q) (pick u (v.pinned u))
    ];
    empty = v.empty;
  }
    where
      pick :
          (u : ℕ)
          → (s.store.dirty u ≡ none) ⊎ Home s.log.lh.sector 0 s.log.lh.n u
          → (s.store.dirty u ≡ none) ⊎ Home (update s.log.lh.sector i t) 0 m u
      pick u (inl e) = inl e
      pick u (inr (j, lo, hi, e)) = inr (j, lo, omega arith, sector-recorded j hi ∙ e)

pub log_write-eq :
    (s : Sys) (t : ℕ) (b : Block)
    → s.log.lh.n < log_size
    → s.log.lh.n + 1 < s.log.size
    → s.log.size < 2 ^ 31
    → 0 < s.log.outstanding
    → s.log.outstanding ≤ 3
    → let i = find_sector s.log.lh.sector s.log.lh.n 0 t in
      log_write s t b
      ≡ ok (recorded s t b i (if i == s.log.lh.n then s.log.lh.n + 1 else s.log.lh.n))
unfolding log_write
log_write-eq s t b room big small some_op few = ground arith
