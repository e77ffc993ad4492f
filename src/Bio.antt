-- ===== src/Bio.antt =====
-- The block cache of bio.c: its buffers, numbered, in a ring through `prev` and `next` whose head is
-- one more node. A function runs with `bcache.lock` held up to where it returns or sleeps; the loops
-- along the ring run on fuel. The driver's `iderw` is the argument `sync`: what it leaves of a buffer
-- and of the disk, which has the type `D`.
pub mod Ring
pub mod Release
pub mod Search
pub mod Get
mod Tests
use rain_os.Common.{
  ℕ, zero, suc, ◌+◌, ◌-◌, Bool, true, false, not, ◌&&◌, Option, none, some, Outcome, ok, panic,
  ◌==◌, if◌then◌else◌, update, word,
}

abbrev pub nbuf : ℕ
nbuf = 30

-- The node `bcache.head`.
abbrev pub head : ℕ
head = 30

-- `struct buf`, with its flags; the links are in the cache.
pub record Buf : Type 0 where
  pub dev : ℕ
  pub sector : ℕ
  pub busy : Bool
  pub valid : Bool
  pub dirty : Bool
  pub bytes : ℕ → ℕ

pub record Bcache : Type 0 where
  pub buf : ℕ → Buf
  pub next : ℕ → ℕ
  pub prev : ℕ → ℕ

-- A node is put behind the head: the last four writes of a round of `binit`, and of `brelse`.
pub push : ℕ → Bcache → Bcache
push b c =
    let n1 = update c.next b (c.next head) in
    let p1 = update c.prev b head in
    let p2 = update p1 (n1 head) b in record c { next = update n1 head b; prev = p2 }

-- The loop of `binit` with `k` rounds left at `b`.
pub init_from : (k b : ℕ) → Bcache → Bcache
unfolding push
init_from zero b c = c
init_from (suc k) b c =
    init_from k (b + 1)
      (push b (record c { buf = update c.buf b (record (c.buf b) { dev = word - 1 }) }))

pub binit : Bcache → Bcache
unfolding init_from
binit c =
    init_from nbuf 0 (record c { next = update c.next head head; prev = update c.prev head head })

-- A loop of `bget` along `link` from `b`: the first buffer that passes the test, or none at the
-- head. The outer none means that the fuel ran out.
pub follow : (link : ℕ → ℕ) (test : ℕ → Bool) → (fuel b : ℕ) → Option (Option ℕ)
follow link test zero b = none
follow link test (suc fuel) b =
    let rest = follow link test fuel (link b) in
    if b == head then some none else if test b then some (some b) else rest

abbrev pub holds : (dev sector : ℕ) → Bcache → ℕ → Bool
holds dev sector c b = (c.buf b).dev == dev && (c.buf b).sector == sector

abbrev pub is_idle : Bcache → ℕ → Bool
is_idle c b = not (c.buf b).busy && not (c.buf b).dirty

-- One pass of `bget` from `loop`. `asleep`: sleeps on the buffer.
pub data Bget : Type 0 where
  taken : ℕ → Bcache → Bget
  asleep : ℕ → Bget
  no_buffers lost : Bget

abbrev pub with_buf : Bcache → ℕ → Buf → Bcache
with_buf c b x = record c { buf = update c.buf b x }

pub bget : (fuel dev sector : ℕ) → Bcache → Bget
unfolding follow
bget fuel dev sector c = elim (follow c.next (holds dev sector c) fuel (c.next head)) [
  | none ↦ lost
  | some (some b) ↦
      if (c.buf b).busy then asleep b else taken b (with_buf c b (record (c.buf b) { busy = true }))
  | some none ↦ elim (follow c.prev (is_idle c) fuel (c.prev head)) [
    | none ↦ lost
    | some none ↦ no_buffers
    | some (some b) ↦ taken b (
        with_buf c b (record (c.buf b) {
          dev = dev;
          sector = sector;
          busy = true;
          valid = false;
          dirty = false;
        }))
  ]
]

-- `bread` after `bget` has returned `b`.
pub fill : {D : Type 0} (sync : Buf → D → Buf × D) → ℕ → Bcache → D → Bcache × D
fill sync b c d =
    let (x, d') = sync (c.buf b) d in if (c.buf b).valid then (c, d) else (with_buf c b x, d')

pub bwrite : {D : Type 0} (sync : Buf → D → Buf × D) → ℕ → Bcache → D → Outcome (Bcache × D)
bwrite sync b c d =
    let (x, d') = sync (record (c.buf b) { dirty = true }) d in
    if not (c.buf b).busy then panic else ok (with_buf c b x, d')

pub unlink : ℕ → Bcache → Bcache
unlink b c =
    let p = update c.prev (c.next b) (c.prev b) in
    record c { prev = p; next = update c.next (p b) (c.next b) }

-- Its result is the buffer that it wakes the sleepers on, and the cache.
pub brelse : ℕ → Bcache → Outcome (ℕ × Bcache)
unfolding unlink push
brelse b c =
    if not (c.buf b).busy
    then panic
    else (let c' = push b (unlink b c) in
        ok (b, with_buf c' b (record (c'.buf b) { busy = false })))
