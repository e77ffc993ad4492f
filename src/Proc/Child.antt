-- ===== src/Proc/Child.antt =====
-- `fork` on every branch: the child, or the reason why there is none.
use rain_os.Common.{
  ℕ, ◌<◌, ◌≡◌, ◌≢◌, ◌⊎◌, inl, inr, refl, sym, ◌∙◌, ap, Bool, true, false, Option-cases, some, none,
  List, arith, ◌==◌, ==_false, if◌then◌else◌, update, update_self, update_ne, IsFirst, find_index,
  find_index-some, find_index-none, add_word,
}
use native.Mathlib.Decide.{ℕ_discrete}
use rain_os.Proc.{
  unused, embryo, runnable, Proc, Table, nproc, nofile, is_unused, allocproc, dup_files, forked,
  unforked, fill_child, fork,
}
use rain_os.Proc.Files.{count, entries, entries-same, dup_files-count, dup_files-entry}
use rain_os.Proc.Fork.{is_free, child, fork-child}

-- No slot that is not in use has an open file.
abbrev pub IsClean : Table → Type 0
IsClean t = (j : ℕ) → is_free t j ≡ true → (fd : ℕ) → fd < nofile → (t.procs j).ofile fd ≡ 0

-- The child `c` of the process `p` in slot `cur`, and the files that were duplicated for it.
pub record IsChild (forkret trapret kstack pgdir cur pid : ℕ) (p c : Proc) (files : List ℕ)
    : Type 0 where
  pub ready : c.state ≡ runnable
  pub number : c.pid ≡ pid
  pub parent : c.parent ≡ some cur
  pub memory : (c.pgdir ≡ pgdir) × (c.sz ≡ p.sz)
  pub start : (c.kstack ≡ kstack) × (c.eip ≡ forkret) × (c.above ≡ trapret)
  pub registers : (c.tf.eax ≡ 0) × (c.tf.others ≡ p.tf.others)
  pub ofile : (fd : ℕ) → fd < nofile → c.ofile fd ≡ p.ofile fd
  pub counted : (f : ℕ) → f ≢ 0 → count f files ≡ entries nofile 0 c.ofile f
  pub place : (c.cwd ≡ p.cwd) × (c.name ≡ p.name)

-- What a failed `fork` leaves.
pub record IsRefused (t t' : Table) : Type 0 where
  pub used : (j : ℕ) → is_free t j ≡ false → t'.procs j ≡ t.procs j
  pub free : (j : ℕ) → is_free t j ≡ true → is_free t' j ≡ true
  pub clean : IsClean t'

-- One free slot may have changed, but is still free and has the same files.
refused_lem :
    (i : ℕ) (t t' : Table)
    → is_free t i ≡ true
    → IsClean t
    → ((j : ℕ) → j ≢ i → t'.procs j ≡ t.procs j)
    → (t'.procs i).state ≡ unused
    → (t'.procs i).ofile ≡ (t.procs i).ofile
    → IsRefused t t'
refused_lem i t t' f v same s o = record {
  used = λ j h. elim (ℕ_discrete j i) [
    | yes q ↦ absurd (let r = sym f ∙ ap (is_free t) (sym q) ∙ h in cc)
    | no q ↦ same j q
  ];
  free = λ j h. elim (ℕ_discrete j i) [
    | yes q ↦ ap (λ (k : ℕ). is_free t' k) q ∙ ap is_unused s
    | no q ↦ ap (λ (p : Proc). is_unused p.state) (same j q) ∙ h
  ];
  clean = λ j h fd lt. elim (ℕ_discrete j i) [
    | yes q ↦ ap (λ (k : ℕ). (t'.procs k).ofile fd) q ∙ ap (λ (x : ℕ → ℕ). x fd) o ∙ v i f fd lt
    | no q ↦
        ap (λ (p : Proc). p.ofile fd) (same j q)
        ∙ v j (ap (λ (p : Proc). is_unused p.state) (sym (same j q)) ∙ h) fd lt
  ];
}

module _ (forkret trapret kstack pgdir cur : ℕ) (t : Table) where
  -- What the child made in slot `i` is.
  child-IsChild :
      (i : ℕ)
      → is_free t i ≡ true
      → IsClean t
      → IsChild forkret trapret kstack pgdir cur t.nextpid
          (t.procs cur)
          (child forkret trapret kstack pgdir cur i t)
          (dup_files nofile 0 (t.procs cur).ofile (t.procs i).ofile).0
  child-IsChild i f v = record {
    ready = refl;
    number = refl;
    parent = refl;
    memory = (refl, refl);
    start = (refl, refl, refl);
    registers = (refl, refl);
    ofile = files;
    counted = λ g nz.
        dup_files-count nofile 0 from (t.procs i).ofile g nz
        ∙ entries-same nofile 0 from made g (λ fd lo hi. sym (files fd (omega arith)));
    place = (refl, refl);
  }
    where
      from : ℕ → ℕ
      from = (t.procs cur).ofile

      made : ℕ → ℕ
      made = (dup_files nofile 0 (t.procs cur).ofile (t.procs i).ofile).1

      closed : (x y : ℕ) → y ≡ 0 → (if x == 0 then y else x) ≡ x
      closed x y z = ground arith

      files :
          (fd : ℕ)
          → fd < nofile
          → (dup_files nofile 0 (t.procs cur).ofile (t.procs i).ofile).1 fd ≡ (t.procs cur).ofile fd
      files fd lt =
          dup_files-entry nofile 0 (t.procs cur).ofile (t.procs i).ofile fd (omega arith)
            (omega arith)
          ∙ closed ((t.procs cur).ofile fd) ((t.procs i).ofile fd) (v i f fd lt)

  abbrev Made : Type 0
  Made =
      (i : ℕ) × (files : List ℕ) × (t' : Table) × (fork forkret trapret kstack pgdir cur t
        ≡ forked t.nextpid files (t.procs cur).cwd t')
      × IsFirst (is_free t) nproc 0 i
      × IsChild forkret trapret kstack pgdir cur t.nextpid (t.procs cur) (t'.procs i) files
      × ((j : ℕ) → j ≢ i → t'.procs j ≡ t.procs j)
      × IsClean t'

  made_lem :
      (i : ℕ)
      → IsFirst (is_free t) nproc 0 i
      → is_free t cur ≡ false
      → IsClean t
      → kstack ≢ 0
      → pgdir ≢ 0
      → Made
  made_lem i f used v nk np =
      let apart : i ≢ cur = λ q. absurd (let r = sym f.hit ∙ ap (is_free t) q ∙ used in cc) in
      let (t', e, c, same) = fork-child forkret trapret kstack pgdir cur t i f apart nk np in
      (
        i,
        (dup_files nofile 0 (t.procs cur).ofile (t.procs i).ofile).0,
        t',
        e,
        f,
        rw c (child-IsChild i f.hit v),
        same,
        λ j h fd lt. elim (ℕ_discrete j i) [
          | yes q ↦
              absurd
                (let r = sym h ∙ ap (is_free t') q ∙ ap (λ (p : Proc). is_unused p.state) c in cc)
          | no q ↦
              ap (λ (p : Proc). p.ofile fd) (same j q)
              ∙ v j (ap (λ (p : Proc). is_unused p.state) (sym (same j q)) ∙ h) fd lt
        ],
      )

  -- Why there is no child, and whether the stack was given back.
  abbrev Reason : Bool → Type 0
  Reason freed =
      ((freed ≡ false) × (((j : ℕ) → j < nproc → is_free t j ≡ false) ⊎ (kstack ≡ 0)))
      ⊎ ((freed ≡ true) × (kstack ≢ 0) × (pgdir ≡ 0))

  abbrev Refused : Type 0
  Refused =
      (freed : Bool) × (t' : Table) × (fork forkret trapret kstack pgdir cur t ≡ unforked freed t')
      × IsRefused t t'
      × Reason freed

  full_lem : IsClean t → find_index (is_free t) nproc 0 ≡ none → Refused
  unfolding fork allocproc fill_child
  full_lem v e = (
    false,
    t,
    rw (e, fork, allocproc),
    record { used = λ j h. refl; free = λ j h. h; clean = v },
    inl (refl, inl (λ j lt. find_index-none (is_free t) nproc 0 e j (omega arith) (omega arith))),
  )

  no_stack_lem :
      (i : ℕ) → IsClean t → find_index (is_free t) nproc 0 ≡ some i → kstack ≡ 0 → Refused
  unfolding fork allocproc fill_child
  no_stack_lem i v e z =
      let f = find_index-some (is_free t) nproc 0 i e in
      let k : (kstack == 0) ≡ true = ground arith in
      let q : Proc = record (t.procs i) { state = unused; pid = t.nextpid; kstack = kstack } in
      let t' : Table = record { procs = update t.procs i q; nextpid = add_word t.nextpid 1 } in
      (
        false,
        t',
        rw (e, fork, allocproc, k) refl,
        refused_lem i t t' f.hit v (λ j ne. update_ne t.procs i j q ne)
            (ap (λ (p : Proc). p.state) (update_self t.procs i q))
            (ap (λ (p : Proc). p.ofile) (update_self t.procs i q)),
        inl (refl, inr z),
      )

  no_memory_lem :
      (i : ℕ)
      → IsClean t
      → find_index (is_free t) nproc 0 ≡ some i
      → kstack ≢ 0
      → pgdir ≡ 0
      → Refused
  unfolding fork allocproc fill_child
  no_memory_lem i v e nk z =
      let f = find_index-some (is_free t) nproc 0 i e in
      let k : (kstack == 0) ≡ false = ==_false kstack 0 nk in
      let d : (pgdir == 0) ≡ true = ground arith in
      let p : Proc = record (t.procs i) {
        state = embryo;
        pid = t.nextpid;
        kstack = kstack;
        eip = forkret;
        above = trapret;
      } in
      let ps = update t.procs i p in
      let q : Proc = record (ps i) { pgdir = 0; kstack = 0; state = unused } in
      let t' : Table = record { procs = update ps i q; nextpid = add_word t.nextpid 1 } in
      (
        true,
        t',
        rw (e, fork, allocproc, k, d) refl,
        refused_lem i t t' f.hit v (λ j ne. update_ne ps i j q ne ∙ update_ne t.procs i j p ne)
            (ap (λ (x : Proc). x.state) (update_self ps i q))
            (ap (λ (x : Proc). x.ofile) (update_self ps i q)
              ∙ ap (λ (x : Proc). x.ofile) (update_self t.procs i p)),
        inr (refl, nk, z),
      )

  -- `fork` by a process in use, in a table whose slots not in use have no open files. It returns the
  -- next pid and makes the child in the first such slot: runnable, with the parent's size, files,
  -- directory, name and registers, but 0 for the system call's result; every file has been
  -- duplicated once for each of the child's descriptors that hold it, and the directory once. Or it
  -- returns -1, and then there was no free slot, no stack or no copy of the memory, where alone a
  -- stack is given back; what is in use is as before, and what is free is still free. Both keep that
  -- the slots not in use have no open files.
  pub fork_lem :
      is_free t cur ≡ false
      → IsClean t
      → ((i : ℕ) × (files : List ℕ) × (t' : Table) × (fork forkret trapret kstack pgdir cur t
            ≡ forked t.nextpid files (t.procs cur).cwd t')
          × IsFirst (is_free t) nproc 0 i
          × IsChild forkret trapret kstack pgdir cur t.nextpid (t.procs cur) (t'.procs i) files
          × ((j : ℕ) → j ≢ i → t'.procs j ≡ t.procs j)
          × IsClean t')
        ⊎ ((freed : Bool) × (t' : Table) × (fork forkret trapret kstack pgdir cur t
              ≡ unforked freed t')
            × IsRefused t t'
            × (((freed ≡ false) × (((j : ℕ) → j < nproc → is_free t j ≡ false) ⊎ (kstack ≡ 0)))
                ⊎ ((freed ≡ true) × (kstack ≢ 0) × (pgdir ≡ 0))))
  fork_lem used v = elim (Option-cases (find_index (is_free t) nproc 0)) [
    | inl e ↦ inr (full_lem v e)
    | inr (i, e) ↦ elim (ℕ_discrete kstack 0) [
      | yes z ↦ inr (no_stack_lem i v e z)
      | no nk ↦ elim (ℕ_discrete pgdir 0) [
        | yes z ↦ inr (no_memory_lem i v e nk z)
        | no np ↦ inl (made_lem i (find_index-some (is_free t) nproc 0 i e) used v nk np)
      ]
    ]
  ]
