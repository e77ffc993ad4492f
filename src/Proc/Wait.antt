-- ===== src/Proc/Wait.antt =====
-- `wait`: which child it reaps, when it sleeps, and why its sleep ends.
use rain_os.Common.{
  List, ℕ, ◌<◌, ◌≡◌, ◌≢◌, [], refl, sym, ◌∙◌, ap, Bool, true, false, ◌&&◌, none, some, arith, ok,
  ◌==◌, ==_refl, ==_false, update, update_ne, Bool-cases, Bool-clash, Option-cases, inl, inr, ◌⊎◌,
  find_index, IsFirst, find_index-some, find_index-none, find_index-first,
}
use rain_os.Proc.{
  unused, zombie, on_proc, Proc, Table, nproc, is_zombie, is_child_of, exit, wait, reaped,
  no_children, asleep, sleep,
}
use rain_os.Proc.Wakeup.{sleeps_on}
use rain_os.Proc.Exit.{exit_lem}

abbrev pub is_dead_child : ℕ → Table → ℕ → Bool
is_dead_child cur t i = is_child_of cur (t.procs i) && is_zombie (t.procs i).state

abbrev freed : Proc → Proc
freed p = record p { kstack = 0; state = unused; pid = 0; parent = none; name = []; killed = false }

-- `wait` reaps the first zombie child if there is one: it returns its pid, hands back its stack
-- and page directory, and empties its slot and no other.
pub wait-reaps :
    (cur i : ℕ) (t : Table)
    → IsFirst (is_dead_child cur t) nproc 0 i
    → (t' : Table) × (wait cur t ≡ reaped (t.procs i).pid (t.procs i).kstack (t.procs i).pgdir t')
      × ((t'.procs i).state ≡ unused)
      × ((t'.procs i).parent ≡ none)
      × ((t'.procs i).killed ≡ false)
      × ((j : ℕ) → j ≢ i → t'.procs j ≡ t.procs j)
unfolding wait
wait-reaps cur i t f =
    let e = find_index-first (is_dead_child cur t) nproc 0 i f in
    (
      record t { procs = update t.procs i (freed (t.procs i)) },
      rw (e, wait),
      rw (==_refl i) refl,
      rw (==_refl i) refl,
      rw (==_refl i) refl,
      λ j ne. update_ne t.procs i j (freed (t.procs i)) ne,
    )

-- Without a zombie child `wait` sleeps on the process's own slot if it has a child and is not
-- killed, and returns -1 otherwise.
pub wait-waits :
    (cur : ℕ) (t : Table)
    → ((i : ℕ) → i < nproc → is_dead_child cur t i ≡ false)
    → ((wait cur t ≡ asleep (sleep cur (on_proc cur) t))
        × ((t.procs cur).killed ≡ false)
        × ((i : ℕ) × (i < nproc) × (is_child_of cur (t.procs i) ≡ true)))
      ⊎ ((wait cur t ≡ no_children)
          × (((t.procs cur).killed ≡ true)
              ⊎ ((i : ℕ) → i < nproc → is_child_of cur (t.procs i) ≡ false)))
unfolding wait
wait-waits cur t h = elim (Option-cases (find_index (is_dead_child cur t) nproc 0)) [
  | inr (i, e) ↦
      let f = find_index-some (is_dead_child cur t) nproc 0 i e in
      absurd (Bool-clash (is_dead_child cur t i) f.hit (h i (omega (arith, f.upper))))
  | inl e ↦ elim (Option-cases (find_index (λ i. is_child_of cur (t.procs i)) nproc 0)) [
    | inl none_at ↦ inr (
      rw (e, none_at, wait),
      inr (λ i lt.
          find_index-none (λ j. is_child_of cur (t.procs j)) nproc 0 none_at i (omega arith)
            (omega arith)),
    )
    | inr (i, at) ↦
        let f = find_index-some (λ j. is_child_of cur (t.procs j)) nproc 0 i at in
        elim (Bool-cases (t.procs cur).killed) [
          | inl k ↦ inr (rw (e, at, k, wait), inl k)
          | inr k ↦ inl (rw (e, at, k, wait), k, (i, omega (arith, f.upper), f.hit))
        ]
  ]
]

-- When a child other than `init` exits, its parent is not left asleep in `wait`, and the parent's
-- next pass of `wait` reaps a child.
pub exit-wait :
    (p c init : ℕ) (t : Table)
    → c ≢ init
    → c ≢ p
    → c < nproc
    → (t.procs c).parent ≡ some p
    → (files : List ℕ) × (t' : Table) × (exit c init t ≡ ok (files, (t.procs c).cwd, t'))
      × (sleeps_on (on_proc p) (t'.procs p) ≡ false)
      × (pid kstack pgdir : ℕ) × (t2 : Table) × (wait p t' ≡ reaped pid kstack pgdir t2)
exit-wait p c init t ni np lt h =
    let (files, t', e, counts, z, closed, dir, orphans, awake_parent, awake_init, kept) =
      exit_lem c init t ni in
    let q = kept c (not_own (t.procs c) h) ∙ h in
    let (i, f) = found t' (child t' q z) in
    let w = wait-reaps p i t' f in
    (
      files,
      t',
      e,
      awake_parent p (λ q'. np (sym q')) h,
      (t'.procs i).pid,
      (t'.procs i).kstack,
      (t'.procs i).pgdir,
      w.0,
      w.1,
    )
  where
    not_own : (p' : Proc) → p'.parent ≡ some p → is_child_of c p' ≡ false
    not_own p' w =
        ap (λ o. elim o as (λ x. Bool) [ none ↦ false | some j ↦ j == c ]) w
        ∙ ==_false p c (λ w'. np (sym w'))

    child :
        (u : Table)
        → (u.procs c).parent ≡ some p
        → (u.procs c).state ≡ zombie
        → is_dead_child p u c ≡ true
    child u q z = rw (q, z) (ground (arith, ==_refl p))

    found :
        (u : Table) → is_dead_child p u c ≡ true → (i : ℕ) × IsFirst (is_dead_child p u) nproc 0 i
    found u d = elim (Option-cases (find_index (is_dead_child p u) nproc 0)) [
      | inr (i, e) ↦ (i, find_index-some (is_dead_child p u) nproc 0 i e)
      | inl e ↦
          let n = find_index-none (is_dead_child p u) nproc 0 e c (omega arith) (omega arith) in
          absurd (Bool-clash (is_dead_child p u c) d n)
    ]
