-- ===== src/Proc.antt =====
-- The process table of proc.c. Every function here runs with `ptable.lock` held from one call of
-- `sched` to the next, so it is a step on the table. What the table's functions take from other
-- parts of the kernel (a stack from `kalloc`, a page directory from `copyuvm`) is an argument, 0
-- for a failure; what they give back or duplicate is a result.
-- A process is its slot in the table; slots from `nproc` on do not exist and no search reaches
-- them.
pub mod Wakeup
pub mod Files
pub mod Fork
pub mod Child
pub mod Exit
pub mod Wait
pub mod Kill
mod Tests
use rain_os.Common.{
  ℕ, zero, suc, ◌+◌, Bool, true, false, not, ◌&&◌, ◌||◌, Option, none, some, List, [], ◌∷◌, Outcome,
  ok, panic, ◌==◌, if◌then◌else◌, update, add_word, find_index,
}

abbrev pub nproc : ℕ
nproc = 64

abbrev pub nofile : ℕ
nofile = 16

-- `enum procstate`.
pub data ProcState : Type 0 where
  unused embryo sleeping runnable running zombie : ProcState

-- What a process sleeps on: nothing, the `struct proc` of a slot, or another address.
pub data Chan : Type 0 where
  nowhere : Chan
  on_proc : ℕ → Chan
  on : ℕ → Chan

-- `struct trapframe`: the register that holds a system call's result, and the other words.
pub record Trapframe : Type 0 where
  pub eax : ℕ
  pub others : ℕ → ℕ

-- `struct proc`. `eip` is where its saved context resumes, `above` the word above that context.
-- A null file, directory or stack is 0; the name is the bytes before the NUL.
pub record Proc : Type 0 where
  pub sz : ℕ
  pub pgdir : ℕ
  pub kstack : ℕ
  pub state : ProcState
  pub pid : ℕ
  pub parent : Option ℕ
  pub tf : Trapframe
  pub eip : ℕ
  pub above : ℕ
  pub chan : Chan
  pub killed : Bool
  pub ofile : ℕ → ℕ
  pub cwd : ℕ
  pub name : List ℕ
  pub kind : ℕ

pub record Table : Type 0 where
  pub procs : ℕ → Proc
  pub nextpid : ℕ

abbrev pub is_unused : ProcState → Bool
is_unused unused = true
is_unused _ = false

abbrev pub is_sleeping : ProcState → Bool
is_sleeping sleeping = true
is_sleeping _ = false

abbrev pub is_zombie : ProcState → Bool
is_zombie zombie = true
is_zombie _ = false

abbrev pub is_runnable : ProcState → Bool
is_runnable runnable = true
is_runnable _ = false

abbrev pub same_chan : Chan → Chan → Bool
same_chan nowhere nowhere = true
same_chan (on_proc a) (on_proc b) = a == b
same_chan (on a) (on b) = a == b
same_chan _ _ = false

abbrev pub is_child_of : ℕ → Proc → Bool
is_child_of i p = elim (p.parent) [ none ↦ false | some j ↦ j == i ]

abbrev pub set_state : (ℕ → Proc) → ℕ → ProcState → ℕ → Proc
set_state ps i s = update ps i (record (ps i) { state = s })

-- `allocproc`, given what `kalloc` returns; `forkret` and `trapret` are those functions' addresses.
pub allocproc : (forkret trapret kstack : ℕ) → Table → Option ℕ × Table
allocproc forkret trapret kstack t = elim (find_index (λ i. is_unused (t.procs i).state) nproc 0) [
  | none ↦ (none, t)
  | some i ↦
      let taken = record (t.procs i) { state = embryo; pid = t.nextpid; kstack = kstack } in
      let next = add_word t.nextpid 1 in
      if kstack == 0
      then (
        none,
        record { procs = update t.procs i (record taken { state = unused }); nextpid = next },
      )
      else (
        some i,
        record {
          procs = update t.procs i (record taken { eip = forkret; above = trapret });
          nextpid = next;
        },
      )
]

-- The loop of `fork` over the open files, with `k` rounds left at `i`: the files that `filedup` is
-- called on, and the slot's entries, of which only those of the parent's open files are overwritten.
pub dup_files : (k i : ℕ) → (from to : ℕ → ℕ) → List ℕ × (ℕ → ℕ)
dup_files zero i from to = ([], to)
dup_files (suc k) i from to = elim (from i == 0) [
  | true ↦ dup_files k (i + 1) from to
  | false ↦
      let (files, to') = dup_files k (i + 1) from (update to i (from i)) in (from i ∷ files, to')
]

-- `forked`: returns the child's pid, after `filedup` on the files and `idup` on the directory.
-- `unforked`: returns -1; where `freed`, the new stack goes back to `kfree`.
pub data Forked : Type 0 where
  forked : (pid : ℕ) (files : List ℕ) (dir : ℕ) → Table → Forked
  unforked : (freed : Bool) → Table → Forked

-- `fork` by the process of slot `cur` after `allocproc`, given what `copyuvm` returns.
pub fill_child : (pgdir cur : ℕ) → Option ℕ × Table → Forked
unfolding dup_files
fill_child pgdir cur (none, t) = unforked false t
fill_child pgdir cur (some i, t) =
    let np = t.procs i in
    let p = t.procs cur in
    let (files, ofile) = dup_files nofile 0 p.ofile np.ofile in
    if pgdir == 0
    then unforked true (record t {
      procs = update t.procs i (record np { pgdir = 0; kstack = 0; state = unused });
    })
    else forked np.pid files p.cwd (record t {
      procs = update t.procs i (record np {
        pgdir = pgdir;
        sz = p.sz;
        parent = some cur;
        tf = record (p.tf) { eax = 0 };
        ofile = ofile;
        cwd = p.cwd;
        name = p.name;
        state = runnable;
      });
    })

pub fork : (forkret trapret kstack pgdir cur : ℕ) → Table → Forked
unfolding allocproc fill_child
fork forkret trapret kstack pgdir cur t = fill_child pgdir cur (allocproc forkret trapret kstack t)

-- `wakeup1`: each entry is treated on its own.
pub wakeup1 : Chan → (ℕ → Proc) → ℕ → Proc
wakeup1 c ps i =
    if is_sleeping (ps i).state && same_chan (ps i).chan c
    then record (ps i) { state = runnable }
    else ps i

-- `exit`'s loop that passes the children of `cur` to `init`, with `k` rounds left at `i`.
pub adopt : (cur init : ℕ) → ℕ → ℕ → (ℕ → Proc) → ℕ → Proc
unfolding wakeup1
adopt cur init zero i ps = ps
adopt cur init (suc k) i ps =
    let given = update ps i (record (ps i) { parent = some init }) in
    adopt cur init k (i + 1) (
      if is_child_of cur (ps i)
      then if is_zombie (ps i).state then wakeup1 (on_proc init) given else given
      else ps)

-- `wakeup1(proc->parent)`; no process sleeps on a null parent.
pub wake_parent : Option ℕ → (ℕ → Proc) → ℕ → Proc
wake_parent none ps i = ps i
wake_parent (some j) ps i = wakeup1 (on_proc j) ps i

-- The loop of `exit` over the open files, with `k` rounds left at `i`: the files that `fileclose` is
-- called on, and the entries afterwards.
pub close_files : (k i : ℕ) → (ℕ → ℕ) → List ℕ × (ℕ → ℕ)
close_files zero i o = ([], o)
close_files (suc k) i o = elim (o i == 0) [
  | true ↦ close_files k (i + 1) o
  | false ↦ let (files, o') = close_files k (i + 1) (update o i 0) in (o i ∷ files, o')
]

-- `exit` by the process of slot `cur`, up to `sched`, which never returns to it: the files that it
-- closes, the directory that it gives to `iput`, and the table.
pub exit : (cur init : ℕ) → Table → Outcome (List ℕ × ℕ × Table)
unfolding close_files adopt wake_parent
exit cur init t =
    let p = t.procs cur in
    let (files, ofile) = close_files nofile 0 p.ofile in
    if cur == init
    then panic
    else (let closed = update t.procs cur (record p { ofile = ofile; cwd = 0 }) in
        let woken = wake_parent p.parent closed in
        ok (files, p.cwd, record t { procs = set_state (adopt cur init nproc 0 woken) cur zombie }))

-- `reaped`: returns the pid; the stack and the page directory go back to their allocators.
-- `no_children`: returns -1. `asleep`: waits for a child to exit.
pub data Waited : Type 0 where
  reaped : (pid kstack pgdir : ℕ) → Table → Waited
  no_children : Waited
  asleep : Table → Waited

-- `sleep` on `c` by the process of slot `cur`, up to `sched`.
pub sleep : ℕ → Chan → Table → Table
sleep cur c t = record t {
  procs = update t.procs cur (record (t.procs cur) { chan = c; state = sleeping });
}

-- `sleep` after `sched` returns.
pub awake : ℕ → Table → Table
awake cur t = record t { procs = update t.procs cur (record (t.procs cur) { chan = nowhere }) }

-- One pass of `wait`.
pub wait : ℕ → Table → Waited
unfolding sleep
wait cur t =
    elim (find_index (λ i. is_child_of cur (t.procs i) && is_zombie (t.procs i).state) nproc 0) [
      | some i ↦
          let p = t.procs i in
          reaped p.pid p.kstack p.pgdir (record t {
            procs = update t.procs i (record p {
              kstack = 0;
              state = unused;
              pid = 0;
              parent = none;
              name = [];
              killed = false;
            });
          })
      | none ↦ elim (find_index (λ i. is_child_of cur (t.procs i)) nproc 0) [
        | none ↦ no_children
        | some _ ↦ if (t.procs cur).killed then no_children else asleep (sleep cur (on_proc cur) t)
      ]
    ]

-- `kill`: true for the result 0, false for -1.
pub kill : ℕ → Table → Bool × Table
kill pid t = elim (find_index (λ i. (t.procs i).pid == pid) nproc 0) [
  | none ↦ (false, t)
  | some i ↦
      let p = t.procs i in
      (
        true,
        record t {
          procs = update t.procs i (record p {
            killed = true;
            state = if is_sleeping p.state then runnable else p.state;
          });
        },
      )
]

-- `yield`, up to `sched`.
pub yield : ℕ → Table → Table
yield cur t = record t { procs = set_state t.procs cur runnable }

-- The scheduler's step at slot `i` of its loop.
pub schedule : ℕ → Table → Option Table
schedule i t =
    if is_runnable (t.procs i).state
    then some (record t { procs = set_state t.procs i running })
    else none
