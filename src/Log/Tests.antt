-- ===== src/Log/Tests.antt =====
-- The log's functions and theorems at a transaction of one block, 7 in every word, for sector 5.
use rain_os.Common.{
  ℕ, ◌+◌, ◌≤◌, ◌<◌, ◌≡◌, ◌≢◌, ◌⊎◌, inl, inr, refl, sym, none, some, arith, false, List, panic, [],
  ◌∷◌, ok, update, update_ne,
}
use native.Mathlib.Decide.{ℕ_discrete}
use rain_os.Disk.{Block, Store, bread, bwrite, reboot}
use rain_os.Log.{
  Log, Sys, begin_op, end_op, log_write, commit, recover_from_log, write_log, write_log_from,
  install_trans, install_from, read_head, write_head, get_sectors, put_sectors,
}
use rain_os.Log.Commit.{IsReady}
use rain_os.Log.Recovery.{Settled}
use rain_os.Log.Crash.{restart, restarts, crash_atomic}
use rain_os.Log.Reserved.{IsReserved}
use rain_os.Log.Ops.{begin_op-IsReserved, log_write-IsReserved, end_op-IsReserved}

abbrev sevens : Block
sevens = λ w. 7

abbrev store : Store
store = record { disk = λ t w. 0; dirty = update (λ t. none) 5 (some sevens); power = 100 }

abbrev log : ℕ → ℕ → Log
log size n = record {
  start = 100;
  size = size;
  outstanding = 1;
  committing = false;
  lh = record { n = n; sector = λ i. 5 };
}

abbrev one_block : Sys
one_block = record { log = log 30 1; store = store }

one_block-IsReady : IsReady one_block
one_block-IsReady = record {
  bounded = omega arith;
  low = λ i h. omega arith;
  pinned = λ t. pick t;
  empty = refl;
}
  where
    pick : (t : ℕ) → (one_block.store.dirty t ≡ none) ⊎ ((j : ℕ) × (0 ≤ j) × (j < 1) × (5 ≡ t))
    pick t = elim (ℕ_discrete t 5) [
      | yes q ↦ inr (0, omega arith, omega arith, sym q)
      | no q ↦ inl (update_ne (λ u. none) 5 t (some sevens) q)
    ]

-- A crash after the header, then one during the recovery, then a whole recovery.
crash_atomic_example :
    let d = (restart (restarts (commit one_block) (1 ∷ [])) 31).store.disk in
    Settled d 100 one_block.store.disk ⊎ Settled d 100 (bread one_block.store)
crash_atomic_example = crash_atomic one_block (1 ∷ []) 31 one_block-IsReady (omega arith)

one_block-IsReserved : IsReserved one_block (3 ∷ [])
one_block-IsReserved = record {
  ready = one_block-IsReady;
  count = refl;
  few = omega arith;
  each = omega arith;
  fits = omega arith;
  idle = refl;
}

abbrev two_ops : Log
two_ops = record (one_block.log) { outstanding = 2 }

begin_op-IsReserved_example : IsReserved (record one_block { log = two_ops }) (10 ∷ 3 ∷ [])
unfolding begin_op
begin_op-IsReserved_example =
    begin_op-IsReserved one_block (3 ∷ []) two_ops one_block-IsReserved refl

log_write-IsReserved_example :
    (1 + 1 < 30
      → (s : Sys) × (log_write one_block 9 sevens ≡ ok s)
        × IsReserved s (2 ∷ [])
        × (bread s.store 9 ≡ sevens)
        × ((u : ℕ) → u ≢ 9 → bread s.store u ≡ bread one_block.store u))
    × (30 ≤ 1 + 1 → (log_write one_block 9 sevens ≡ panic) × (1 + 1 ≡ 30) × (0 + 2 + 0 ≡ 0))
log_write-IsReserved_example =
    log_write-IsReserved one_block [] [] 2 9 sevens one_block-IsReserved (omega arith) (omega arith)
      (omega arith)

end_op-IsReserved_example :
    (s : Sys) × (end_op one_block ≡ ok s)
    × IsReserved s []
    × (◌≡◌ {A = List ℕ} [] [] → s.log.lh.n ≡ 0)
    × (s.log.start ≡ 100)
    × ((u : ℕ) → u < 100 → bread s.store u ≡ bread one_block.store u)
end_op-IsReserved_example = end_op-IsReserved one_block [] [] 3 one_block-IsReserved (omega arith)

-- 29 blocks are logged, as many as an area of 30 holds, and one more is reserved.
abbrev full : Sys
full = record {
  log = record (log 30 29) { lh = record { n = 29; sector = λ i. 5 } };
  store = store;
}

full-IsReserved : IsReserved full (1 ∷ [])
full-IsReserved = record {
  ready = record {
    bounded = omega arith;
    low = λ i h. omega arith;
    pinned = λ t. pick t;
    empty = refl;
  };
  count = refl;
  few = omega arith;
  each = omega arith;
  fits = omega arith;
  idle = refl;
}
  where
    pick : (t : ℕ) → (full.store.dirty t ≡ none) ⊎ ((j : ℕ) × (0 ≤ j) × (j < 29) × (5 ≡ t))
    pick t = elim (ℕ_discrete t 5) [
      | yes q ↦ inr (0, omega arith, omega arith, sym q)
      | no q ↦ inl (update_ne (λ u. none) 5 t (some sevens) q)
    ]

-- The block that is reserved does not fit beside the header.
full-panics : log_write full 9 sevens ≡ panic
unfolding log_write
full-panics = refl

-- Cut off after the log's block and the header, the commit is made good by the next start.
abbrev weak : Sys
weak = record one_block { store = record (one_block.store) { power = 2 } }

restart_runs : ((commit weak).store.disk 5 0 ≡ 0) × ((restart (commit weak) 9).store.disk 5 0 ≡ 7)
unfolding restart commit recover_from_log write_log write_log_from install_trans install_from
    read_head write_head get_sectors put_sectors bread bwrite reboot
restart_runs = (refl, refl)
