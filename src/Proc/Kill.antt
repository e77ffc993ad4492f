-- ===== src/Proc/Kill.antt =====
-- `kill`: the process that it marks, and what it does to a slot that is not in use.
use rain_os.Common.{
  ℕ, ◌<◌, ◌≡◌, ◌≢◌, refl, ◌∙◌, ap, Bool, true, false, arith, ◌==◌, ==_refl, ==_false, if◌then◌else◌,
  update, update_ne, Bool-clash, Option-cases, inl, inr, find_index, IsFirst, find_index-some,
  find_index-first, List,
}
use native.Mathlib.Decide.{ℕ_discrete}
use rain_os.Proc.{
  ProcState, runnable, Proc, Table, nproc, is_unused, is_sleeping, kill, nofile, dup_files, forked,
  fork,
}
use rain_os.Proc.Fork.{is_free, fork-child}

abbrev pub has_pid : ℕ → Table → ℕ → Bool
has_pid pid t i = (t.procs i).pid == pid

abbrev marked : Proc → Proc
marked p = record p { killed = true; state = if is_sleeping p.state then runnable else p.state }

-- `kill` marks the first slot with the pid, wakes its process if it sleeps, and changes no other
-- slot. Without such a slot it changes nothing and returns -1.
pub kill_lem :
    (pid : ℕ) (t : Table)
    → ((i : ℕ)
        → IsFirst (has_pid pid t) nproc 0 i
        → (t' : Table) × (kill pid t ≡ (true, t'))
          × ((t'.procs i).killed ≡ true)
          × (is_sleeping (t'.procs i).state ≡ false)
          × ((j : ℕ) → j ≢ i → t'.procs j ≡ t.procs j))
      × (((i : ℕ) → i < nproc → has_pid pid t i ≡ false) → kill pid t ≡ (false, t))
unfolding kill
kill_lem pid t = (
  λ i f. (
    record t { procs = update t.procs i (marked (t.procs i)) },
    rw (find_index-first (has_pid pid t) nproc 0 i f, kill),
    rw (==_refl i) refl,
    rw (==_refl i) (awake (t.procs i).state),
    λ j ne. update_ne t.procs i j (marked (t.procs i)) ne,
  ),
  λ h. elim (Option-cases (find_index (has_pid pid t) nproc 0)) [
    | inl e ↦ rw (e, kill)
    | inr (i, e) ↦
        let f = find_index-some (has_pid pid t) nproc 0 i e in
        absurd (Bool-clash (has_pid pid t i) f.hit (h i (omega (arith, f.upper))))
  ],
)
  where
    awake : (s : ProcState) → is_sleeping (if is_sleeping s then runnable else s) ≡ false
    awake s = ground arith

-- Where the first slot that is not in use is also the first with pid 0, `kill(0)` succeeds and
-- marks it; the next `fork` makes its child there and does not clear the mark: the child is born
-- killed.
pub kill-fork :
    (forkret trapret kstack pgdir cur i : ℕ) (t : Table)
    → IsFirst (has_pid 0 t) nproc 0 i
    → IsFirst (is_free t) nproc 0 i
    → i ≢ cur
    → kstack ≢ 0
    → pgdir ≢ 0
    → (t1 t2 : Table) × (files : List ℕ) × (dir : ℕ) × (kill 0 t ≡ (true, t1))
      × (fork forkret trapret kstack pgdir cur t1 ≡ forked t.nextpid files dir t2)
      × ((t2.procs i).state ≡ runnable)
      × ((t2.procs i).killed ≡ true)
unfolding kill
kill-fork forkret trapret kstack pgdir cur i t f g ne nk np =
    let t1 : Table = record t { procs = update t.procs i (marked (t.procs i)) } in
    let same : (j : ℕ) → is_free t1 j ≡ is_free t j = λ j. elim (ℕ_discrete j i) [
      | yes q ↦ rw (q, ==_refl i) (kept (t.procs i).state)
      | no q ↦ rw (==_false j i q) refl
    ] in
    let w =
      fork-child forkret trapret kstack pgdir cur t1 i
        (record {
          lower = g.lower;
          upper = g.upper;
          hit = same i ∙ g.hit;
          first = λ m lo hi. same m ∙ g.first m lo hi;
        })
        ne nk np in
    (
      t1,
      w.0,
      (dup_files nofile 0 (t1.procs cur).ofile (t1.procs i).ofile).0,
      (t1.procs cur).cwd,
      rw (find_index-first (has_pid 0 t) nproc 0 i f, kill),
      w.1,
      ap (λ (p : Proc). p.state) w.2,
      ap (λ (p : Proc). p.killed) w.2 ∙ rw (==_refl i) refl,
    )
  where
    kept : (s : ProcState) → is_unused (if is_sleeping s then runnable else s) ≡ is_unused s
    kept s = ground arith
