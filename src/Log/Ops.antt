-- ===== src/Log/Ops.antt =====
-- `begin_op`, `log_write` and `end_op`: the reservation of log space by the operations under way.
use rain_os.Common.{
  ℕ, suc, ◌+◌, ◌-◌, ◌*◌, ◌≤◌, ◌<◌, ◌^◌, ◌≡◌, ◌≢◌, refl, ap, some, arith, true, false, List, [], ◌∷◌,
  ◌++◌, length, length-append, update_self, update_ne, ok, panic, ◌==◌, if◌then◌else◌,
}
use native.Mathlib.Decide.{ℕ_discrete}
use rain_os.Disk.{Block, newest, bread}
use rain_os.Log.{
  Log, Sys, log_size, max_op_blocks, started, sleeping, begin_op, end_op, find_sector, log_write,
  commit,
}
use rain_os.Log.Stopped.{start-commit}
use rain_os.Log.Idle.{commit-IsReady, bread-commit}
use rain_os.Log.Reserved.{
  sum, IsReserved, IsReady-counts, length-drop, sum-append, sum-le, All-split, All-drop,
  length-zero,
}
use rain_os.Log.Recorded.{find_sector-le, find_sector-hit, recorded, recorded-IsReady, log_write-eq}

begin_op-started :
    (lg lg' : Log)
    → lg.outstanding ≤ 3
    → lg.lh.n ≤ log_size
    → begin_op lg ≡ started lg'
    → (lg.lh.n + (lg.outstanding + 1) * max_op_blocks ≤ log_size)
      × (lg' ≡ record lg { outstanding = lg.outstanding + 1 })
unfolding begin_op
begin_op-started lg lg' o m h = ground arith

-- A started operation has its `max_op_blocks` blocks reserved beside those of the others.
pub begin_op-IsReserved :
    (s : Sys) (budgets : List ℕ) (lg : Log)
    → IsReserved s budgets
    → begin_op s.log ≡ started lg
    → IsReserved (record s { log = lg }) (max_op_blocks ∷ budgets)
begin_op-IsReserved s budgets lg v h =
    let r = begin_op-started s.log lg (omega arith) v.ready.bounded h in
    rw r.1 (record {
      ready = IsReady-counts s (s.log.outstanding + 1) s.log.committing v.ready;
      count = omega arith;
      few = omega arith;
      each = (omega arith, v.each);
      fits = omega (arith, sum-le budgets v.each);
      idle = v.idle;
    })

-- An operation waits only if a commit is under way, or if its blocks would not fit.
pub begin_op-sleeping :
    (s : Sys) (budgets : List ℕ)
    → IsReserved s budgets
    → begin_op s.log ≡ sleeping
    → log_size < s.log.lh.n + (length budgets + 1) * max_op_blocks
unfolding begin_op
begin_op-sleeping s budgets v h = ground (arith, v.count, v.few, v.ready.bounded, v.idle)

-- With a block of the area left.
logged_lem :
    (s : Sys) (xs ys : List ℕ) (c t : ℕ) (b : Block)
    → IsReserved s (xs ++ (suc c ∷ ys))
    → s.log.lh.n + 1 < s.log.size
    → s.log.size < 2 ^ 31
    → t < s.log.start
    → (s' : Sys) × (log_write s t b ≡ ok s')
      × IsReserved s' (xs ++ (c ∷ ys))
      × (bread s'.store t ≡ b)
      × ((u : ℕ) → u ≢ t → bread s'.store u ≡ bread s.store u)
unfolding bread
logged_lem s xs ys c t b v space small home =
    let n = s.log.lh.n in
    let i = find_sector s.log.lh.sector n 0 t in
    let m = if i == n then n + 1 else n in
    let room : n < log_size = omega (arith, sum-append xs (suc c ∷ ys)) in
    let le : i ≤ n = omega (arith, find_sector-le s.log.lh.sector n 0 t) in
    let grown : (n ≤ m) × (m ≤ n + 1) × (i < m) = ground arith in
    let old : m ≢ n → i ≡ n = λ q. ground arith in
    (
      recorded s t b i m,
      log_write-eq s t b room space small (omega (arith, length-append {0} xs (suc c ∷ ys)))
          (omega arith),
      record {
        ready =
            recorded-IsReady s t i m b v.ready (omega arith) home le grown.2 grown.1 grown.0 old
              (λ h. find_sector-hit s.log.lh.sector n 0 t (omega arith));
        count = omega (arith, length-append {0} xs (suc c ∷ ys), length-append {0} xs (c ∷ ys));
        few = omega (arith, length-append {0} xs (suc c ∷ ys), length-append {0} xs (c ∷ ys));
        each =
            All-split (λ x. x ≤ max_op_blocks) xs ys (suc c) c v.each
              (omega (arith, (All-drop (λ x. x ≤ max_op_blocks) xs ys (suc c) v.each).0));
        fits = omega (arith, sum-append xs (suc c ∷ ys), sum-append xs (c ∷ ys));
        idle = v.idle;
      },
      ap (λ o. newest o (s.store.disk t)) (update_self s.store.dirty t (some b)),
      λ u q. ap (λ o. newest o (s.store.disk u)) (update_ne s.store.dirty t u (some b) q),
    )

full_lem :
    (s : Sys) (t : ℕ) (b : Block)
    → 0 < s.log.size
    → s.log.lh.n < 2 ^ 31
    → s.log.size ≤ s.log.lh.n + 1
    → log_write s t b ≡ panic
unfolding log_write
full_lem s t b pos small full = ground arith

-- An operation with a block left in its budget logs a home sector, in a log area of at least the
-- `log_size` blocks that mkfs gives it. While the area has a block for it beside the header,
-- `log_write` does not panic, spends at most one block of the budget, and later reads of the sector
-- return what it wrote, those of the others what they did. Otherwise it panics, and then this block
-- would be the last of all that are reserved, the `log_size`th of the log.
pub log_write-IsReserved :
    (s : Sys) (xs ys : List ℕ) (c t : ℕ) (b : Block)
    → IsReserved s (xs ++ (suc c ∷ ys))
    → log_size ≤ s.log.size
    → s.log.size < 2 ^ 31
    → t < s.log.start
    → (s.log.lh.n + 1 < s.log.size
        → (s' : Sys) × (log_write s t b ≡ ok s')
          × IsReserved s' (xs ++ (c ∷ ys))
          × (bread s'.store t ≡ b)
          × ((u : ℕ) → u ≢ t → bread s'.store u ≡ bread s.store u))
      × (s.log.size ≤ s.log.lh.n + 1
          → (log_write s t b ≡ panic) × (s.log.lh.n + 1 ≡ log_size) × (sum xs + c + sum ys ≡ 0))
log_write-IsReserved s xs ys c t b v big small home = (
  λ space. logged_lem s xs ys c t b v space small home,
  λ none_left.
      let budget = sum-append xs (suc c ∷ ys) in
      (
        full_lem s t b (omega arith) (omega (arith, v.fits, budget)) (omega arith),
        omega (arith, v.fits, budget),
        omega (arith, v.fits, budget),
      ),
)

kept-commit :
    (s : Sys)
    → ((commit s).log.outstanding ≡ s.log.outstanding)
      × ((commit s).log.committing ≡ s.log.committing)
unfolding commit
kept-commit s = ground arith

end_op-last :
    (s : Sys)
    → s.log.outstanding ≡ 1
    → s.log.committing ≡ false
    → let quiet = record s { log = record (s.log) { outstanding = 0; committing = true } } in
      end_op s
      ≡ ok (record (commit quiet) { log = record ((commit quiet).log) { committing = false } })
unfolding end_op
end_op-last s o h = rw (o, h)

end_op-more :
    (s : Sys)
    → 1 < s.log.outstanding
    → s.log.outstanding ≤ 3
    → s.log.committing ≡ false
    → end_op s ≡ ok (record s { log = record (s.log) { outstanding = s.log.outstanding - 1 } })
unfolding end_op
end_op-more s o few h = ground arith

-- What the end of an operation leaves to those in `left`.
abbrev IsEnded : (s : Sys) (left : List ℕ) → Sys → Type 0
IsEnded s left s' =
    (end_op s ≡ ok s')
    × IsReserved s' left
    × (left ≡ [] → s'.log.lh.n ≡ 0)
    × (s'.log.start ≡ s.log.start)
    × ((u : ℕ) → u < s.log.start → bread s'.store u ≡ bread s.store u)

-- The last operation commits.
last_lem :
    (s : Sys) (xs ys : List ℕ) (c : ℕ)
    → IsReserved s (xs ++ (c ∷ ys))
    → 2 * log_size + 1 < s.store.power
    → s.log.outstanding ≡ 1
    → (s' : Sys) × IsEnded s (xs ++ ys) s'
last_lem s xs ys c v pow one =
    let none_left = length-zero (xs ++ ys) (omega (arith, length-drop xs ys c)) in
    let quiet : Sys = record s { log = record (s.log) { outstanding = 0; committing = true } } in
    let ready = IsReady-counts s 0 true v.ready in
    let p : quiet.log.lh.n + quiet.log.lh.n + 1 < quiet.store.power =
      omega (arith, v.ready.bounded) in
    let (done, n0) = commit-IsReady quiet ready p in
    (
      record (commit quiet) { log = record ((commit quiet).log) { committing = false } },
      (
        end_op-last s one v.idle,
        rw none_left (record {
          ready = IsReady-counts (commit quiet) (commit quiet).log.outstanding false done;
          count = (kept-commit quiet).0;
          few = omega arith;
          each = tt;
          fits = omega arith;
          idle = refl;
        }),
        λ e. n0,
        start-commit quiet ready,
        λ u h. bread-commit quiet ready p u h,
      ),
    )

-- Any other operation leaves the log alone.
more_lem :
    (s : Sys) (xs ys : List ℕ) (c : ℕ)
    → IsReserved s (xs ++ (c ∷ ys))
    → s.log.outstanding ≢ 1
    → (s' : Sys) × IsEnded s (xs ++ ys) s'
more_lem s xs ys c v other =
    let l = length-drop xs ys c in
    (
      record s { log = record (s.log) { outstanding = s.log.outstanding - 1 } },
      (
        end_op-more s (omega arith) (omega arith) v.idle,
        record {
          ready = IsReady-counts s (s.log.outstanding - 1) s.log.committing v.ready;
          count = omega arith;
          few = omega arith;
          each = (All-drop (λ x. x ≤ max_op_blocks) xs ys c v.each).1;
          fits = omega (arith, sum-append xs (c ∷ ys), sum-append xs ys);
          idle = v.idle;
        },
        λ e. absurd (omega (arith, ap (length {0}) e)),
        refl,
        λ u h. refl,
      ),
    )

ended_lem :
    (s : Sys) (xs ys : List ℕ) (c : ℕ)
    → IsReserved s (xs ++ (c ∷ ys))
    → 2 * log_size + 1 < s.store.power
    → (s' : Sys) × IsEnded s (xs ++ ys) s'
ended_lem s xs ys c v pow = elim (ℕ_discrete s.log.outstanding 1) [
  | yes one ↦ last_lem s xs ys c v pow one
  | no other ↦ more_lem s xs ys c v other
]

-- The end of any operation gives its budget back. If it was the last one under way, the
-- transaction is committed: the log is empty again. The machine has power.
pub end_op-IsReserved :
    (s : Sys) (xs ys : List ℕ) (c : ℕ)
    → IsReserved s (xs ++ (c ∷ ys))
    → 2 * log_size + 1 < s.store.power
    → (s' : Sys) × (end_op s ≡ ok s')
      × IsReserved s' (xs ++ ys)
      × (xs ++ ys ≡ [] → s'.log.lh.n ≡ 0)
      × (s'.log.start ≡ s.log.start)
      × ((u : ℕ) → u < s.log.start → bread s'.store u ≡ bread s.store u)
end_op-IsReserved s xs ys c v pow =
    let (s', e) = ended_lem s xs ys c v pow in (s', e.0, e.1, e.2, e.3, e.4)
