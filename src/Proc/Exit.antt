-- ===== src/Proc/Exit.antt =====
-- `exit`: what the process leaves behind in the table.
use rain_os.Common.{
  ℕ, ◌<◌, ◌≡◌, ◌≢◌, refl, sym, ◌∙◌, ap, subst, Bool, true, false, List, Option, none, some, arith,
  ok, panic, ◌==◌, ==_refl, ==_false, update, update_self, update_ne,
}
use native.Mathlib.Decide.{ℕ_discrete}
use rain_os.Proc.{
  ProcState, zombie, on_proc, Proc, Table, nproc, nofile, close_files, is_zombie, is_child_of,
  adopt, wake_parent, exit, set_state, wakeup1,
}
use rain_os.Proc.Files.{count, entries, close_files-count, close_files-entry}
use rain_os.Proc.Wakeup.{
  sleeps_on, wakeup1_lem, wakeup1-parent, wakeup1-same, adopt-same, adopt-awake, adopt-parent,
  adopt-no_child, adopt-wakes,
}

module _ (cur init : ℕ) (t : Table) (ne : cur ≢ init) where
  abbrev pub emptied : ℕ → ℕ
  emptied = (close_files nofile 0 (t.procs cur).ofile).1

  abbrev pub closed : ℕ → Proc
  closed = update t.procs cur (record (t.procs cur) { ofile = emptied; cwd = 0 })

  abbrev pub woken : ℕ → Proc
  woken = wake_parent (t.procs cur).parent closed

  abbrev pub left : Table
  left = record t { procs = set_state (adopt cur init nproc 0 woken) cur zombie }

  pub exit-ok :
      exit cur init t ≡ ok ((close_files nofile 0 (t.procs cur).ofile).0, (t.procs cur).cwd, left)
  unfolding exit
  exit-ok = rw (==_false cur init ne)

  pub left-other : (i : ℕ) → i ≢ cur → left.procs i ≡ adopt cur init nproc 0 woken i
  left-other i h = update_ne (adopt cur init nproc 0 woken) cur i _ h

  closed-parent : (i : ℕ) → (closed i).parent ≡ (t.procs i).parent
  closed-parent i = elim (ℕ_discrete i cur) [
    | yes q ↦ rw (q, ==_refl cur) refl
    | no q ↦ rw (==_false i cur q) refl
  ]

  pub woken-parent : (i : ℕ) → (woken i).parent ≡ (t.procs i).parent
  unfolding wake_parent
  woken-parent i = by_parent (t.procs cur).parent
    where
      by_parent : (o : Option ℕ) → (wake_parent o closed i).parent ≡ (t.procs i).parent
      by_parent none = closed-parent i
      by_parent (some j) = wakeup1-parent (on_proc j) closed i ∙ closed-parent i

  -- A process that is asleep on its own slot's channel is woken if it is the parent.
  woken-awake : (p : ℕ) → (t.procs cur).parent ≡ some p → sleeps_on (on_proc p) (woken p) ≡ false
  unfolding wake_parent
  woken-awake p h =
      subst (λ o. sleeps_on (on_proc p) (wake_parent o closed p) ≡ false) (sym h)
        (wakeup1_lem (on_proc p) closed p).0

  left-parent : (i : ℕ) → (left.procs i).parent ≡ (adopt cur init nproc 0 woken i).parent
  left-parent i = elim (ℕ_discrete i cur) [
    | yes q ↦ rw (q, ==_refl cur) refl
    | no q ↦ rw (==_false i cur q) refl
  ]

  child_of_parent : (p q : Proc) → p.parent ≡ q.parent → is_child_of cur p ≡ is_child_of cur q
  child_of_parent p q h = ap (λ o. elim o as (λ x. Bool) [ none ↦ false | some j ↦ j == cur ]) h

  adopt-closed-zombie :
      (i : ℕ) → i ≢ cur → is_zombie (t.procs i).state ≡ true → is_zombie (woken i).state ≡ true
  unfolding wake_parent wakeup1
  adopt-closed-zombie i ni z = by_parent (t.procs cur).parent
    where
      kept : is_zombie (closed i).state ≡ true
      kept = rw (==_false i cur ni) z

      by_parent : (o : Option ℕ) → is_zombie (wake_parent o closed i).state ≡ true
      by_parent none = kept
      by_parent (some j) = ground (arith, kept)

  -- What neither a wakeup nor the passing on of children changes in the process that exits.
  left-closed {ℓ} :
      {A : Type ℓ} (f : Proc → A)
      → ((p : Proc) (o : Option ℕ) → f (record p { parent = o }) ≡ f p)
      → ((p : Proc) (s : ProcState) → f (record p { state = s }) ≡ f p)
      → f (left.procs cur) ≡ f (closed cur)
  unfolding wake_parent
  left-closed f h g =
      ap f (
        update_self (adopt cur init nproc 0 woken) cur
          (record (adopt cur init nproc 0 woken cur) { state = zombie }))
      ∙ g (adopt cur init nproc 0 woken cur) zombie
      ∙ adopt-same cur init f nproc 0 cur woken h g
      ∙ by_parent (t.procs cur).parent
    where
      by_parent : (o : Option ℕ) → f (wake_parent o closed cur) ≡ f (closed cur)
      by_parent none = refl
      by_parent (some j) = wakeup1-same f (on_proc j) closed cur g

  -- A process other than `init` that exits closes each file once for each of its descriptors that
  -- hold it, gives its directory up, and becomes a zombie with no open file and no directory; no
  -- process has it as parent any more; its parent is not left sleeping in `wait`; and if one of its
  -- children was a zombie, `init` is not left sleeping in `wait` either. The parents of the other
  -- processes stay.
  pub exit_lem :
      (files : List ℕ) × (t' : Table) × (exit cur init t ≡ ok (files, (t.procs cur).cwd, t'))
      × ((f : ℕ) → f ≢ 0 → count f files ≡ entries nofile 0 (t.procs cur).ofile f)
      × ((t'.procs cur).state ≡ zombie)
      × ((fd : ℕ) → fd < nofile → (t'.procs cur).ofile fd ≡ 0)
      × ((t'.procs cur).cwd ≡ 0)
      × ((i : ℕ) → i < nproc → is_child_of cur (t'.procs i) ≡ false)
      × ((p : ℕ)
          → p ≢ cur
          → (t.procs cur).parent ≡ some p
          → sleeps_on (on_proc p) (t'.procs p) ≡ false)
      × ((i : ℕ)
          → i < nproc
          → i ≢ cur
          → is_child_of cur (t.procs i) ≡ true
          → is_zombie (t.procs i).state ≡ true
          → sleeps_on (on_proc init) (t'.procs init) ≡ false)
      × ((i : ℕ) → is_child_of cur (t.procs i) ≡ false → (t'.procs i).parent ≡ (t.procs i).parent)
  exit_lem = (
    (close_files nofile 0 (t.procs cur).ofile).0,
    left,
    exit-ok,
    λ f nz. close_files-count nofile 0 (t.procs cur).ofile f nz,
    rw (==_refl cur) refl,
    λ fd lt.
        left-closed (λ (p : Proc). p.ofile fd) (λ p o. refl) (λ p s. refl)
        ∙ ap (λ (p : Proc). p.ofile fd) at_cur
        ∙ close_files-entry nofile 0 (t.procs cur).ofile fd (omega arith) (omega arith),
    left-closed (λ (p : Proc). p.cwd) (λ p o. refl) (λ p s. refl) ∙ ap (λ (p : Proc). p.cwd) at_cur,
    λ i h.
        child_of_parent (left.procs i) (adopt cur init nproc 0 woken i) (left-parent i)
        ∙ adopt-no_child cur init nproc 0 i woken ne (omega arith) (omega arith),
    λ p np h.
        rw (left-other p np) (adopt-awake cur init (on_proc p) nproc 0 p woken (woken-awake p h)),
    λ i h ni c z. rw (left-other init (λ q. ne (sym q))) (
        adopt-wakes cur init nproc 0 i woken (omega arith) (omega arith)
          (child_of_parent (woken i) (t.procs i) (woken-parent i) ∙ c)
          (adopt-closed-zombie i ni z)),
    λ i h.
        left-parent i
        ∙ adopt-parent cur init nproc 0 i woken
            (child_of_parent (woken i) (t.procs i) (woken-parent i) ∙ h)
        ∙ woken-parent i,
  )
    where
      at_cur : closed cur ≡ record (t.procs cur) { ofile = emptied; cwd = 0 }
      at_cur = update_self t.procs cur (record (t.procs cur) { ofile = emptied; cwd = 0 })

-- `init` may not exit.
pub exit-init : (init : ℕ) (t : Table) → exit init init t ≡ panic
unfolding exit
exit-init init t = rw (==_refl init)
