-- ===== src/Log/Stopped.antt =====
-- A commit that loses power at any of its disk writes: where the transaction then stands on the disk.
use rain_os.Common.{
  ℕ, suc, ◌+◌, ◌-◌, ◌≤◌, ◌<◌, ◌≡◌, ◌≢◌, ◌⊎◌, inl, inr, refl, sym, ◌∙◌, ap, fun_ext, none, arith,
  true, rounds, lt_int,
}
use native.Mathlib.Decide.{ℕ_discrete, dec_lt}
use rain_os.Disk.{Block, Store, bread}
use rain_os.Disk.Writes.{
  disk-bwrite_ne, disk-bwrite_self, dirty-bwrite-none, power-bwrite, bread-clean,
}
use rain_os.Log.{
  Log, Sys, clear, put_sectors, write_head, install_from, install_trans, write_log_from, write_log,
  commit,
}
use rain_os.Log.Install.{Home, install_from-power, install_from-dead}
use rain_os.Log.Recovery.{
  Settled, Committed, install_from-Committed, install_from-home, write_head-Settled,
  write_head-dead,
}
use rain_os.Log.Commit.{
  IsReady, write_log_from-power, write_log_from-other, write_log_from-clean, write_log_from-blocks,
  put_sectors-head, put_sectors-eq,
}

-- Where a transaction from `old` to `new` may stand on the disk `d`.
pub data Stopped (d : ℕ → Block) (start : ℕ) (old new : ℕ → Block) (n : ℕ) (sec : ℕ → ℕ)
    : Type 0 where
  before : Settled d start old → Stopped d start old new n sec
  during : Committed d start new n sec → Stopped d start old new n sec
  after : Settled d start new → Stopped d start old new n sec

module _ (s : Sys) (v : IsReady s) where
  abbrev pub lg : Log
  lg = s.log

  abbrev pub n : ℕ
  n = s.log.lh.n

  -- The contents that the operations of the transaction see.
  abbrev pub new : ℕ → Block
  new = bread s.store

  abbrev pub logged : Store
  logged = write_log_from lg n 0 s.store

  abbrev pub headed : Store
  headed = write_head lg logged

  abbrev pub placed : Store
  placed = install_from lg n 0 headed

  clean_of : (t : ℕ) → lg.start ≤ t → s.store.dirty t ≡ none
  clean_of t h = pick (v.pinned t)
    where
      pick : (s.store.dirty t ≡ none) ⊎ Home lg.lh.sector 0 n t → s.store.dirty t ≡ none
      pick (inl e) = e
      pick (inr (j, lo, hi, q)) = absurd (omega (arith, v.low j hi))

  -- The home sectors and the header are untouched while the log's blocks are written.
  logged-Settled : Settled logged.disk lg.start s.store.disk
  logged-Settled = record {
    empty = ap (λ (b : Block). b 0) (same lg.start (λ i lo. omega arith)) ∙ v.empty;
    home = λ t h. same t (λ i lo. omega arith);
  }
    where
      same : (t : ℕ) → ((i : ℕ) → 0 ≤ i → t ≢ lg.start + i + 1) → logged.disk t ≡ s.store.disk t
      same t h = (write_log_from-other lg n 0 s.store t h).0

  headed-clean : (t : ℕ) → lg.start ≤ t → bread headed t ≡ headed.disk t
  unfolding write_head
  headed-clean t h =
      bread-clean headed t (
        dirty-bwrite-none logged lg.start _ t
          (write_log_from-clean lg n 0 s.store t (clean_of t h)))

  headed-disk :
      n < s.store.power
      → (headed.disk lg.start 0 ≡ n)
        × ((i : ℕ) → i < n → headed.disk lg.start (suc i) ≡ lg.lh.sector i)
  unfolding write_head
  headed-disk pow =
      let p : 0 < logged.power = omega (arith, write_log_from-power lg n 0 s.store) in
      let r : rounds n ≡ n = ground (arith, v.bounded) in
      let w = disk-bwrite_self logged lg.start _ p in
      (
        ap (λ (b : Block). b 0) w ∙ put_sectors-head (rounds n) lg.lh.sector _,
        λ i h.
            ap (λ (b : Block). b (suc i)) w ∙ put_sectors-eq (rounds n) lg.lh.sector _ i (rw r h),
      )

  headed-other : (t : ℕ) → t ≢ lg.start → headed.disk t ≡ logged.disk t
  unfolding write_head
  headed-other t h = disk-bwrite_ne logged lg.start _ t h

  -- Once the header is written, the transaction is committed.
  headed-Committed : n < s.store.power → Committed headed.disk lg.start new n lg.lh.sector
  headed-Committed pow = record {
    bounded = omega (arith, v.bounded);
    count = (headed-disk pow).0;
    heads = (headed-disk pow).1;
    low = v.low;
    blocks = λ i h.
        headed-other (lg.start + i + 1) (λ q. absurd (omega arith))
        ∙ write_log_from-blocks lg new n 0 n s.store (omega arith) v.low (λ j hj. refl)
            (omega arith) i (omega arith) h;
    home = λ t h. kept t h (v.pinned t);
  }
    where
      kept :
          (t : ℕ)
          → t < lg.start
          → (s.store.dirty t ≡ none) ⊎ Home lg.lh.sector 0 n t
          → (headed.disk t ≡ new t) ⊎ Home lg.lh.sector 0 n t
      kept t h (inl e) = inl (
          headed-other t (λ q. absurd (omega arith))
          ∙ logged-Settled.home t h
          ∙ sym (bread-clean s.store t e))
      kept t h (inr q) = inr q

  rounds-n : rounds n ≡ n
  rounds-n = ground (arith, v.bounded)

  pub commit-zero : n ≡ 0 → commit s ≡ s
  unfolding commit
  commit-zero e = ground arith

  pub commit-eq : 0 < n → commit s ≡ record { log = clear lg; store = write_head (clear lg) placed }
  unfolding commit write_log install_trans
  commit-eq h = let go : lt_int 0 n ≡ true = ground (arith, v.bounded) in rw (go, rounds-n)

  headed-power : headed.power ≡ s.store.power - n - 1
  unfolding write_head
  headed-power = omega (
    arith,
    power-bwrite logged lg.start (put_sectors (rounds n) lg.lh.sector _),
    write_log_from-power lg n 0 s.store,
  )

  -- Out of power before the header: everything after is lost.
  dead : s.store.power ≤ n → (write_head (clear lg) placed).disk ≡ logged.disk
  dead h =
      let z : headed.power ≡ 0 = omega (arith, headed-power) in
      write_head-dead (clear lg) placed (omega (arith, install_from-power lg n 0 headed))
      ∙ fun_ext (λ t. install_from-dead lg n 0 headed t z)
      ∙ write_head-dead lg logged (omega (arith, write_log_from-power lg n 0 s.store))

  pub store-commit : 0 < n → (commit s).store ≡ write_head (clear lg) placed
  store-commit h = ap (λ (t : Sys). t.store) (commit-eq h)

  pub start-commit : (commit s).log.start ≡ s.log.start
  start-commit = elim (ℕ_discrete n 0) [
    | yes e ↦ ap (λ (t : Sys). t.log.start) (commit-zero e)
    | no ne ↦ ap (λ (t : Sys). t.log.start) (commit-eq (omega arith))
  ]

  -- With nothing logged nothing is dirty, so old and new agree.
  new-old : n ≡ 0 → (t : ℕ) → s.store.disk t ≡ new t
  new-old e t = pick (v.pinned t)
    where
      pick : (s.store.dirty t ≡ none) ⊎ Home lg.lh.sector 0 n t → s.store.disk t ≡ new t
      pick (inl q) = sym (bread-clean s.store t q)
      pick (inr (j, lo, hi, q)) = absurd (omega arith)

  -- Power for the log's blocks, the header, the home sectors and the header again.
  pub commit-Settled : n + n + 1 < s.store.power → Settled (commit s).store.disk lg.start new
  commit-Settled pow = elim (ℕ_discrete n 0) [
    | yes e ↦ rw (commit-zero e) (record { empty = v.empty; home = λ t h. new-old e t })
    | no ne ↦ rw (store-commit (omega arith)) (
        write_head-Settled lg placed new
          (omega (arith, install_from-power lg n 0 headed, headed-power))
          (install_from-home lg new n lg.lh.sector (λ i h. refl) headed headed-clean
            (headed-Committed (omega arith)) (omega (arith, headed-power))))
  ]

  pub commit-Stopped : Stopped (commit s).store.disk lg.start s.store.disk new n lg.lh.sector
  commit-Stopped = elim (ℕ_discrete n 0) [
    | yes e ↦ rw (commit-zero e) (before (record { empty = v.empty; home = λ t h. refl }))
    | no ne ↦ rw (store-commit (omega arith)) (elim (dec_lt n s.store.power) [
      | no few ↦ rw (dead (omega arith)) (before logged-Settled)
      | yes more ↦
          let c = headed-Committed more in
          elim (ℕ_discrete placed.power 0) [
            | yes z ↦ rw (write_head-dead (clear lg) placed z) (
                during (
                  install_from-Committed lg new n lg.lh.sector (λ i h. refl) headed headed-clean c))
            | no p ↦ after (
                write_head-Settled lg placed new (omega arith) (
                  install_from-home lg new n lg.lh.sector (λ i h. refl) headed headed-clean c
                    (omega (arith, install_from-power lg n 0 headed))))
          ]
    ])
  ]
