-- ===== src/Pipe/Tests.antt =====
-- The pipe's functions and theorems on a pipe whose counters are about to wrap.
use rain_os.Common.{◌-◌, ◌≤◌, ◌^◌, ◌≡◌, [], ◌∷◌, ◌++◌, arith, true, false, length}
use rain_os.Pipe.{Pipe, init}
use rain_os.Pipe.Ring.{IsValid, contents}
use rain_os.Pipe.Stream.{write, read, close, run, run-fifo}

abbrev late : Pipe
late = record {
  bytes = λ i. 7;
  nread = 2 ^ 32 - 2;
  nwrite = 2 ^ 32 - 1;
  readopen = true;
  writeopen = true;
}

late-IsValid : IsValid late
late-IsValid = omega arith

run-fifo_example :
    let c =
      run
        (record { pipe = init (λ i. 0); sent = []; received = [] })
        (write false (1 ∷ 2 ∷ []) ∷ read false 1 ∷ close true ∷ []) in
    (c.sent ≡ c.received ++ contents c.pipe) × (length (contents c.pipe) ≤ 512)
run-fifo_example = run-fifo (λ i. 0) (write false (1 ∷ 2 ∷ []) ∷ read false 1 ∷ close true ∷ [])

-- A full ring: one more byte makes the writer sleep.
abbrev full : Pipe
full = record late { nwrite = 510 }

full-IsValid : IsValid full
full-IsValid = omega arith
