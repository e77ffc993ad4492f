-- ===== src/Spinlock/Tests.antt =====
-- The spin locks at concrete inputs.
use rain_os.Common.{ℕ, ◌≡◌, ◌≢◌, refl, true, false, arith, List, [], ◌∷◌, ◌++◌}
use rain_os.Spinlock.{
  Cpu, initlock, outside, spinning, critical, cleared, panicked, Machine, pushcli, popcli, acquire,
  release, step, run,
}
use rain_os.Spinlock.Nesting.{IsNested}
use rain_os.Spinlock.Fits.{apart, role}
use rain_os.Spinlock.Exclusion.{mutual_exclusion}

abbrev fresh : Cpu
fresh = record { enabled = true; ncli = 0; intena = false }

fresh-IsNested : IsNested fresh
fresh-IsNested lt = absurd (omega arith)

-- All processors are outside.
abbrev start : Machine
start = record { cpus = λ i. fresh; lock = initlock; phase = λ i. outside }

-- Processor 2 finds the lock taken and spins, while processor 1 takes it and gives it back.
abbrev turns : List ℕ
turns = 1 ∷ 2 ∷ 1 ∷ 2 ∷ 1 ∷ 2 ∷ 1 ∷ 1 ∷ 1 ∷ 1 ∷ []

turns-got : ((run turns start).phase 1 ≡ cleared) × ((run turns start).phase 2 ≡ spinning)
unfolding run step acquire release pushcli initlock
turns-got = (refl, refl)

-- Then processor 1 gives the lock back, and processor 2 gets it before the `popcli` of 1.
abbrev later : List ℕ
later = turns ++ (1 ∷ 2 ∷ 2 ∷ 1 ∷ [])

later-critical : ((run later start).phase 1 ≡ outside) × ((run later start).phase 2 ≡ critical)
unfolding run step acquire release pushcli popcli initlock
later-critical = (refl, refl)

mutual_exclusion_example :
    ((i j : ℕ)
      → role ((run later start).phase i) ≢ apart
      → role ((run later start).phase j) ≢ apart
      → j ≡ i)
    × ((i : ℕ) → (run later start).phase i ≢ outside → ((run later start).cpus i).enabled ≡ false)
    × ((i : ℕ) → (run later start).phase i ≢ panicked)
mutual_exclusion_example = mutual_exclusion start later (λ i. refl) refl
