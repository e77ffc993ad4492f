-- ===== src/Proc/Fork.antt =====
-- `allocproc` and `fork`: the child and the failures.
use rain_os.Common.{
  ℕ, ◌≡◌, ◌≢◌, refl, sym, ◌∙◌, ap, Bool, some, ==_refl, ==_false, update, update_self, update_ne,
  IsFirst, find_index-first, add_word,
}
use rain_os.Proc.{
  embryo, runnable, Proc, Table, nproc, is_unused, nofile, allocproc, dup_files, forked, fill_child,
  fork,
}

abbrev pub is_free : Table → ℕ → Bool
is_free t i = is_unused (t.procs i).state

-- The child that `fork` makes in slot `i`.
abbrev pub child : (forkret trapret kstack pgdir cur i : ℕ) → Table → Proc
child forkret trapret kstack pgdir cur i t = record (t.procs i) {
  pgdir = pgdir;
  kstack = kstack;
  pid = t.nextpid;
  eip = forkret;
  above = trapret;
  sz = (t.procs cur).sz;
  parent = some cur;
  tf = record ((t.procs cur).tf) { eax = 0 };
  ofile = (dup_files nofile 0 (t.procs cur).ofile (t.procs i).ofile).1;
  cwd = (t.procs cur).cwd;
  name = (t.procs cur).name;
  state = runnable;
}

abbrev taken : (forkret trapret kstack i : ℕ) → Table → Proc
taken forkret trapret kstack i t = record (t.procs i) {
  state = embryo;
  pid = t.nextpid;
  kstack = kstack;
  eip = forkret;
  above = trapret;
}

abbrev with_slot : ℕ → Proc → Table → Table
with_slot i p t = record { procs = update t.procs i p; nextpid = add_word t.nextpid 1 }

module _ (forkret trapret kstack pgdir cur : ℕ) (t : Table) where
  allocproc-some :
      (i : ℕ)
      → IsFirst (is_free t) nproc 0 i
      → kstack ≢ 0
      → allocproc forkret trapret kstack t
        ≡ (some i, with_slot i (taken forkret trapret kstack i t) t)
  unfolding allocproc
  allocproc-some i f nk =
      let e = find_index-first (is_free t) nproc 0 i f in rw (e, allocproc, ==_false kstack 0 nk)

  filled :
      (i : ℕ)
      → i ≢ cur
      → pgdir ≢ 0
      → fill_child pgdir cur (some i, with_slot i (taken forkret trapret kstack i t) t)
        ≡ forked t.nextpid
            (dup_files nofile 0 (t.procs cur).ofile (t.procs i).ofile).0
            (t.procs cur).cwd
            (record {
              procs =
                  update
                    (update t.procs i (taken forkret trapret kstack i t))
                    i
                    (child forkret trapret kstack pgdir cur i t);
              nextpid = add_word t.nextpid 1;
            })
  unfolding fill_child
  filled i ne np = rw (==_false pgdir 0 np) (rw (==_refl i, ==_false cur i (λ q. ne (sym q))) refl)

  -- The child in the first free slot, as a record.
  pub fork-child :
      (i : ℕ)
      → IsFirst (is_free t) nproc 0 i
      → i ≢ cur
      → kstack ≢ 0
      → pgdir ≢ 0
      → (t' : Table) × (fork forkret trapret kstack pgdir cur t
          ≡ forked t.nextpid
              (dup_files nofile 0 (t.procs cur).ofile (t.procs i).ofile).0
              (t.procs cur).cwd
              t')
        × (t'.procs i ≡ child forkret trapret kstack pgdir cur i t)
        × ((j : ℕ) → j ≢ i → t'.procs j ≡ t.procs j)
  unfolding fork
  fork-child i f ne nk np =
      let ps = update t.procs i (taken forkret trapret kstack i t) in
      let c = child forkret trapret kstack pgdir cur i t in
      (
        record { procs = update ps i c; nextpid = add_word t.nextpid 1 },
        ap (fill_child pgdir cur) (allocproc-some i f nk) ∙ filled i ne np,
        update_self ps i c,
        λ j nj. update_ne ps i j c nj ∙ update_ne t.procs i j (taken forkret trapret kstack i t) nj,
      )
