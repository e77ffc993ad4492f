-- ===== src/Log.antt =====
-- The redo log of log.c: groups of block writes that reach their home sectors together.
-- The functions that only read `struct log` take it beside the store; `Sys` is both together.
-- An array is a function from its index. What `sleep` waits for is a result of its own.
pub mod Install
pub mod Recovery
pub mod Commit
pub mod Stopped
pub mod Crash
pub mod Idle
pub mod Reserved
pub mod Recorded
pub mod Ops
mod Tests
use rain_os.Common.{
  ℕ, zero, suc, ◌+◌, ◌*◌, ◌%◌, Bool, true, false, not, ◌||◌, some, Outcome, ok, panic, ◌==◌,
  if◌then◌else◌, update, rounds, word, add_word, sub_word, lt_int,
}
use rain_os.Disk.{Block, Store, bread, bwrite}

abbrev pub log_size : ℕ
log_size = 30

abbrev pub max_op_blocks : ℕ
max_op_blocks = 10

-- `struct logheader`.
pub record LogHeader : Type 0 where
  pub n : ℕ
  pub sector : ℕ → ℕ

-- `struct log`, without its lock: the functions below that change it run while it is held, or
-- while `committing` keeps the others out.
pub record Log : Type 0 where
  pub start : ℕ
  pub size : ℕ
  pub outstanding : ℕ
  pub committing : Bool
  pub lh : LogHeader

pub record Sys : Type 0 where
  pub log : Log
  pub store : Store

-- The loop of `install_trans`, with `k` rounds left at `tail`.
pub install_from : Log → ℕ → ℕ → Store → Store
install_from lg zero tail st = st
install_from lg (suc k) tail st =
    install_from lg k (tail + 1) (bwrite st (lg.lh.sector tail) (bread st (lg.start + tail + 1)))

pub install_trans : Log → Store → Store
install_trans lg st = install_from lg (rounds lg.lh.n) 0 st

-- The loop of `read_head` over the words of the header block.
pub get_sectors : ℕ → Block → (ℕ → ℕ) → ℕ → ℕ
get_sectors zero b sector = sector
get_sectors (suc k) b sector = update (get_sectors k b sector) k (b (suc k))

pub read_head : Log → Store → LogHeader
unfolding get_sectors
read_head lg st =
    let b = bread st lg.start in
    record { n = b 0; sector = get_sectors (rounds (b 0)) b lg.lh.sector }

-- The loop of `write_head` over the words of the header block.
pub put_sectors : ℕ → (ℕ → ℕ) → Block → Block
put_sectors zero sector b = b
put_sectors (suc k) sector b = update (put_sectors k sector b) (suc k) (sector k)

pub write_head : Log → Store → Store
unfolding put_sectors
write_head lg st =
    bwrite st lg.start
      (put_sectors (rounds lg.lh.n) lg.lh.sector (update (bread st lg.start) 0 lg.lh.n))

-- `log.lh.n = 0`.
abbrev pub clear : Log → Log
clear lg = record lg { lh = record (lg.lh) { n = 0 } }

pub recover_from_log : Sys → Sys
recover_from_log s =
    let lg = record (s.log) { lh = read_head s.log s.store } in
    let st = install_trans lg s.store in record { log = clear lg; store = write_head (clear lg) st }

-- `readsb` reads `size` and `nlog` from words 0 and 3 of block 1.
pub initlog : Sys → Sys
initlog s =
    let sb = bread s.store 1 in
    recover_from_log
      (record s { log = record (s.log) { start = sub_word (sb 0) (sb 3); size = sb 3 } })

-- One pass of the loop of `begin_op`: `sleeping` where it waits on `&log`.
pub data Begun : Type 0 where
  started : Log → Begun
  sleeping : Begun

pub begin_op : Log → Begun
begin_op lg =
    if lg.committing
    then sleeping
    else if lt_int log_size ((lg.lh.n + add_word lg.outstanding 1 * max_op_blocks) % word)
    then sleeping
    else started (record lg { outstanding = add_word lg.outstanding 1 })

-- The loop of `write_log`, with `k` rounds left at `tail`.
pub write_log_from : Log → ℕ → ℕ → Store → Store
write_log_from lg zero tail st = st
write_log_from lg (suc k) tail st =
    write_log_from lg k (tail + 1) (bwrite st (lg.start + tail + 1) (bread st (lg.lh.sector tail)))

pub write_log : Log → Store → Store
write_log lg st = write_log_from lg (rounds lg.lh.n) 0 st

pub commit : Sys → Sys
commit s =
    if lt_int 0 s.log.lh.n
    then record {
      log = clear s.log;
      store =
          write_head (clear s.log)
            (install_trans s.log (write_head s.log (write_log s.log s.store)));
    }
    else s

-- `end_op`, with the commit that the last operation makes. Where it returns, it has called
-- `wakeup(&log)`, on either branch.
pub end_op : Sys → Outcome Sys
end_op s =
    let lg = record (s.log) { outstanding = sub_word s.log.outstanding 1 } in
    if lg.committing
    then panic
    else if lg.outstanding == 0
    then (let done = commit (record s { log = record lg { committing = true } }) in
        ok (record done { log = record (done.log) { committing = false } }))
    else ok (record s { log = lg })

-- The search loop of `log_write`, with `k` rounds left at `i`: the index where it stops.
pub find_sector : (ℕ → ℕ) → ℕ → ℕ → ℕ → ℕ
find_sector sector zero i t = i
find_sector sector (suc k) i t =
    let rest = find_sector sector k (i + 1) t in if sector i == t then i else rest

-- `log_write` of the buffer of sector `t`, whose data the caller has changed to `b`.
pub log_write : Sys → ℕ → Block → Outcome Sys
unfolding find_sector
log_write s t b =
    if not (lt_int s.log.lh.n log_size) || not (lt_int s.log.lh.n (sub_word s.log.size 1))
    then panic
    else if lt_int s.log.outstanding 1
    then panic
    else (let n = s.log.lh.n in
        let i = find_sector s.log.lh.sector (rounds n) 0 t in
        let lh : LogHeader = record {
          n = if i == n then add_word n 1 else n;
          sector = update s.log.lh.sector i t;
        } in
        ok (record {
          log = record (s.log) { lh = lh };
          store = record (s.store) { dirty = update s.store.dirty t (some b) };
        }))
