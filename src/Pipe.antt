-- ===== src/Pipe.antt =====
-- The pipes of pipe.c: a ring of 512 bytes under two free-running 32-bit counters.
-- Each function here runs under the pipe's lock from one point where the process can sleep to the
-- next, so a sleep is a result that holds what the call has left to do. `killed` is
-- `proc->killed`. A byte is any number, since the code only moves bytes.
pub mod Ring
pub mod Calls
pub mod Stream
mod Tests
use rain_os.Common.{
  ℕ, zero, suc, ◌%◌, Bool, true, false, not, ◌&&◌, ◌||◌, List, [], ◌∷◌, ◌==◌, if◌then◌else◌, update,
  add_word,
}

abbrev pub pipe_size : ℕ
pipe_size = 512

-- `struct pipe`, without its lock.
pub record Pipe : Type 0 where
  pub bytes : ℕ → ℕ
  pub nread : ℕ
  pub nwrite : ℕ
  pub readopen : Bool
  pub writeopen : Bool

-- What `pipealloc` sets up in a fresh page.
unfoldable pub init : (ℕ → ℕ) → Pipe
init page = record { bytes = page; nread = 0; nwrite = 0; readopen = true; writeopen = true }

-- `wrote`: returns n. `failed`: returns -1. `waits`: has called `wakeup(&p->nread)` and sleeps on
-- `&p->nwrite` with these bytes to go.
pub data Write : Type 0 where
  wrote failed : Pipe → Write
  waits : Pipe → List ℕ → Write

-- `p->data[p->nwrite++ % PIPESIZE] = x`.
pub put : Pipe → ℕ → Pipe
put p x = record p { bytes = update p.bytes (p.nwrite % pipe_size) x; nwrite = add_word p.nwrite 1 }

-- `pipewrite` of the bytes `addr[i]`, …, `addr[n - 1]`.
unfoldable pub pipewrite : Bool → Pipe → List ℕ → Write
unfolding put
pipewrite killed p [] = wrote p
pipewrite killed p (x ∷ xs) =
    let rest = pipewrite killed (put p x) xs in
    if p.nwrite == add_word p.nread pipe_size
    then if not p.readopen || killed then failed p else waits p (x ∷ xs)
    else rest

-- `got`: the bytes that were copied to `addr`. `denied`: returns -1. `blocked`: sleeps on
-- `&p->nread`.
pub data Read : Type 0 where
  got : List ℕ → Pipe → Read
  denied blocked : Pipe → Read

-- The copying loop of `piperead`, with `n` rounds left.
pub copy_out : ℕ → Pipe → List ℕ × Pipe
copy_out zero p = ([], p)
copy_out (suc n) p =
    let (xs, p') = copy_out n (record p { nread = add_word p.nread 1 }) in
    if p.nread == p.nwrite then ([], p) else (p.bytes (p.nread % pipe_size) ∷ xs, p')

unfoldable pub piperead : Bool → Pipe → ℕ → Read
unfolding copy_out
piperead killed p n =
    if p.nread == p.nwrite && p.writeopen
    then if killed then denied p else blocked p
    else (let (xs, p') = copy_out n p in got xs p')

-- `pipeclose`: the pipe, and whether its page goes back to `kfree`.
pub pipeclose : Pipe → Bool → Pipe × Bool
pipeclose p writable =
    let p' : Pipe =
      if writable then record p { writeopen = false } else record p { readopen = false } in
    (p', not p'.readopen && not p'.writeopen)
