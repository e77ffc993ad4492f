-- ===== src/Spinlock.antt =====
-- The spin locks of spinlock.c, on several processors that interleave at every access to the lock. A
-- processor is its number. The call stack that a lock keeps for debugging is left out.
pub mod Nesting
pub mod Fits
pub mod Exclusion
mod Tests
use rain_os.Common.{
  ℕ, zero, suc, ◌+◌, ◌-◌, Bool, true, false, not, ◌&&◌, Option, none, some, List, [], ◌∷◌, Outcome,
  ok, panic, ◌==◌, if◌then◌else◌, update,
}

-- `struct cpu`: the interrupt flag of its processor with `ncli` and `intena`.
pub record Cpu : Type 0 where
  pub enabled : Bool
  pub ncli : ℕ
  pub intena : Bool

pub record Lock : Type 0 where
  pub locked : Bool
  pub cpu : Option ℕ

pub pushcli : Cpu → Cpu
pushcli c = record {
  enabled = false;
  ncli = c.ncli + 1;
  intena = if c.ncli == 0 then c.enabled else c.intena;
}

pub popcli : Cpu → Outcome Cpu
popcli c =
    if c.enabled
    then panic
    else if c.ncli == 0
    then panic
    else ok (record c { ncli = c.ncli - 1; enabled = c.ncli - 1 == 0 && c.intena })

pub initlock : Lock
initlock = record { locked = false; cpu = none }

abbrev pub is_cpu : Option ℕ → ℕ → Bool
is_cpu none i = false
is_cpu (some j) i = j == i

-- Where a processor stands between two accesses to the lock. In `acquire`: `pushed` after `pushcli`,
-- `looked` after `holding` has read `locked` as set, `spinning` in the loop, `got` after the `xchg`
-- that found the lock free. In `release`: `found` after `holding` has read `locked` as set, `checked`
-- after `holding`, `cleared` after the write of `cpu`, `unlocked` after the `xchg`.
pub data Phase : Type 0 where
  outside pushed looked spinning got critical found checked cleared unlocked panicked : Phase

-- The next step of `acquire` by the processor `i`, at most one access to the lock.
pub acquire : (i : ℕ) → Phase → Cpu → Lock → Phase × Cpu × Lock
unfolding pushcli
acquire i outside c lk = (pushed, pushcli c, lk)
acquire i pushed c lk = (if lk.locked then looked else spinning, c, lk)
acquire i looked c lk = (if is_cpu lk.cpu i then panicked else spinning, c, lk)
acquire i spinning c lk = (if lk.locked then spinning else got, c, record lk { locked = true })
acquire i got c lk = (critical, c, record lk { cpu = some i })
acquire i p c lk = (p, c, lk)

-- The next step of `release`.
pub release : (i : ℕ) → Phase → Cpu → Lock → Phase × Cpu × Lock
unfolding popcli
release i critical c lk = (if lk.locked then found else panicked, c, lk)
release i found c lk = (if is_cpu lk.cpu i then checked else panicked, c, lk)
release i checked c lk = (cleared, c, record lk { cpu = none })
release i cleared c lk = (unlocked, c, record lk { locked = false })
release i unlocked c lk = elim (popcli c) [ panic ↦ (panicked, c, lk) | ok c' ↦ (outside, c', lk) ]
release i p c lk = (p, c, lk)

abbrev pub is_releasing : Phase → Bool
is_releasing critical = true
is_releasing found = true
is_releasing checked = true
is_releasing cleared = true
is_releasing unlocked = true
is_releasing _ = false

-- One lock, and processors that call `acquire` and `release` in turn.
pub record Machine : Type 0 where
  pub cpus : ℕ → Cpu
  pub lock : Lock
  pub phase : ℕ → Phase

-- The processor `i` takes its next step.
pub step : ℕ → Machine → Machine
unfolding acquire release
step i s =
    let p = s.phase i in
    let (p', c, lk) =
      if is_releasing p then release i p (s.cpus i) s.lock else acquire i p (s.cpus i) s.lock in
    record { cpus = update s.cpus i c; lock = lk; phase = update s.phase i p' }

-- The processors take steps in the order of the list.
pub run : List ℕ → Machine → Machine
unfolding step
run [] s = s
run (i ∷ is) s = run is (step i s)
