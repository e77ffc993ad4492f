-- ===== src/Proc/Tests.antt =====
-- The table's functions and theorems on a shell in slot 1, its dead child in slot 2 and its
-- running child in slot 3.
use rain_os.Common.{
  ℕ, ◌<◌, ◌≡◌, ◌≢◌, ◌⊎◌, ◌∙◌, ap, sym, Bool, List, ◌==◌, ==_false, if◌then◌else◌, refl, true, false,
  none, some, Option, [], arith, ok, IsFirst, zero, suc,
}
use rain_os.Proc.{
  ProcState, unused, sleeping, running, zombie, nowhere, on_proc, Proc, Table, nproc, is_zombie,
  is_child_of, fork, forked, unforked, exit, wait, reaped,
}
use rain_os.Proc.{nofile}
use rain_os.Proc.Files.{count, entries}
use rain_os.Proc.Wakeup.{sleeps_on}
use rain_os.Proc.Fork.{is_free}
use rain_os.Proc.Child.{IsClean, IsChild, IsRefused, fork_lem}
use native.Mathlib.Decide.{ℕ_discrete}
use rain_os.Proc.Exit.{exit_lem}
use rain_os.Proc.Wait.{is_dead_child, exit-wait}
use rain_os.Proc.Kill.{has_pid}

abbrev process : ProcState → ℕ → Option ℕ → Proc
process s pid parent = record {
  sz = 4096;
  pgdir = 0x8040_0000;
  kstack = 0x8050_0000;
  state = s;
  pid = pid;
  parent = parent;
  tf = record { eax = 1; others = λ i. 0 };
  eip = 0;
  above = 0;
  chan = nowhere;
  killed = false;
  ofile = λ fd. 0;
  cwd = 0x8011_0000;
  name = [];
  kind = 0;
}

abbrev procs : ℕ → Proc
procs zero = process sleeping 1 none
procs (suc zero) = process running 2 (some 0)
procs (suc (suc zero)) = process zombie 3 (some 1)
procs (suc (suc (suc zero))) = process running 4 (some 1)
procs (suc (suc (suc (suc i)))) = process unused 0 none

abbrev table : Table
table = record { procs = procs; nextpid = 5 }

four_is_free : IsFirst (is_free table) nproc 0 4
four_is_free = record {
  lower = omega arith;
  upper = omega arith;
  hit = refl;
  first = λ m lo hi. below m hi;
}
  where
    below : (m : ℕ) → m < 4 → is_free table m ≡ false
    below zero h = refl
    below (suc zero) h = refl
    below (suc (suc zero)) h = refl
    below (suc (suc (suc zero))) h = refl
    below (suc (suc (suc (suc m)))) h = absurd (omega arith)

four_has_no_pid : IsFirst (has_pid 0 table) nproc 0 4
four_has_no_pid = record {
  lower = omega arith;
  upper = omega arith;
  hit = refl;
  first = λ m lo hi. below m hi;
}
  where
    below : (m : ℕ) → m < 4 → has_pid 0 table m ≡ false
    below zero h = refl
    below (suc zero) h = refl
    below (suc (suc zero)) h = refl
    below (suc (suc (suc zero))) h = refl
    below (suc (suc (suc (suc m)))) h = absurd (omega arith)

two_is_dead : IsFirst (is_dead_child 1 table) nproc 0 2
two_is_dead = record {
  lower = omega arith;
  upper = omega arith;
  hit = refl;
  first = λ m lo hi. below m hi;
}
  where
    below : (m : ℕ) → m < 2 → is_dead_child 1 table m ≡ false
    below zero h = refl
    below (suc zero) h = refl
    below (suc (suc m)) h = absurd (omega arith)

-- The shell has a file at descriptor 1.
abbrev opened : Table
opened = record {
  procs =
      λ i. if i == 1 then record (procs 1) { ofile = λ fd. if fd == 1 then 7 else 0 } else procs i;
  nextpid = 5;
}

procs-closed : (j fd : ℕ) → (procs j).ofile fd ≡ 0
procs-closed zero fd = refl
procs-closed (suc zero) fd = refl
procs-closed (suc (suc zero)) fd = refl
procs-closed (suc (suc (suc zero))) fd = refl
procs-closed (suc (suc (suc (suc j)))) fd = refl

opened-IsClean : IsClean opened
opened-IsClean j h fd lt = elim (ℕ_discrete j 1) [
  | yes q ↦ absurd (let r = sym (ap (is_free opened) q) ∙ h in cc)
  | no q ↦ rw (==_false j 1 q) (procs-closed j fd)
]

fork_lem_example :
    ((i : ℕ) × (files : List ℕ) × (t' : Table) × (fork 100 200 0x8060_0000 0x8061_0000 1 opened
        ≡ forked 5 files 0x8011_0000 t')
      × IsFirst (is_free opened) nproc 0 i
      × IsChild 100 200 0x8060_0000 0x8061_0000 1 5 (opened.procs 1) (t'.procs i) files
      × ((j : ℕ) → j ≢ i → t'.procs j ≡ opened.procs j)
      × IsClean t')
    ⊎ ((freed : Bool) × (t' : Table) × (fork 100 200 0x8060_0000 0x8061_0000 1 opened
          ≡ unforked freed t')
        × IsRefused opened t'
        × (((freed ≡ false)
              × (((j : ℕ) → j < nproc → is_free opened j ≡ false) ⊎ (◌≡◌ {A = ℕ} 0x8060_0000 0)))
            ⊎ ((freed ≡ true) × (◌≢◌ {A = ℕ} 0x8060_0000 0) × (◌≡◌ {A = ℕ} 0x8061_0000 0))))
fork_lem_example = fork_lem 100 200 0x8060_0000 0x8061_0000 1 opened refl opened-IsClean

exit_lem_example :
    (files : List ℕ) × (t : Table) × (exit 3 0 table ≡ ok (files, 0x8011_0000, t))
    × ((f : ℕ) → f ≢ 0 → count f files ≡ entries nofile 0 (table.procs 3).ofile f)
    × ((t.procs 3).state ≡ zombie)
    × ((fd : ℕ) → fd < nofile → (t.procs 3).ofile fd ≡ 0)
    × ((t.procs 3).cwd ≡ 0)
    × ((i : ℕ) → i < nproc → is_child_of 3 (t.procs i) ≡ false)
    × ((p : ℕ)
        → p ≢ 3
        → (table.procs 3).parent ≡ some p
        → sleeps_on (on_proc p) (t.procs p) ≡ false)
    × ((i : ℕ)
        → i < nproc
        → i ≢ 3
        → is_child_of 3 (table.procs i) ≡ true
        → is_zombie (table.procs i).state ≡ true
        → sleeps_on (on_proc 0) (t.procs 0) ≡ false)
    × ((i : ℕ)
        → is_child_of 3 (table.procs i) ≡ false
        → (t.procs i).parent ≡ (table.procs i).parent)
exit_lem_example = exit_lem 3 0 table (omega arith)

-- `init` has a child, and it is alive.
init_has_no_dead : (i : ℕ) → i < nproc → is_dead_child 0 table i ≡ false
init_has_no_dead zero h = refl
init_has_no_dead (suc zero) h = refl
init_has_no_dead (suc (suc zero)) h = refl
init_has_no_dead (suc (suc (suc zero))) h = refl
init_has_no_dead (suc (suc (suc (suc i)))) h = refl

exit-wait_example :
    (files : List ℕ) × (t : Table) × (exit 3 0 table ≡ ok (files, 0x8011_0000, t))
    × (sleeps_on (on_proc 1) (t.procs 1) ≡ false)
    × (pid kstack pgdir : ℕ) × (t2 : Table) × (wait 1 t ≡ reaped pid kstack pgdir t2)
exit-wait_example = exit-wait 1 3 0 table (omega arith) (omega arith) (omega arith) refl

-- Slot 0 sleeps on its own channel.
abbrev waiting : ℕ → Proc
waiting i = record (procs i) { chan = on_proc i }
