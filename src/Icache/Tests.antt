-- ===== src/Icache/Tests.antt =====
-- The cache's functions and theorems with inode 7 of device 1 in slot 0, referenced once.
use rain_os.Common.{ℕ, zero, suc, ◌<◌, ◌≡◌, ◌≢◌, refl, Bool, false, [], ◌∷◌, arith}
use rain_os.Icache.{ninode, Dinode, Inode, Icache, iput, freed}
use rain_os.Icache.Get.{IsUnique}
use rain_os.Icache.Flags.{IsGuarded, lock, unlock, run, run-not_freed}

-- A file without links.
abbrev unlinked : Dinode
unlinked = record { kind = 2; major = 0; minor = 0; nlink = 0; size = 512; addrs = λ k. 90 }

abbrev slot : (ref : ℕ) → Bool → Inode
slot ref held = record { dev = 1; inum = 7; ref = ref; busy = held; valid = held; copy = unlinked }

abbrev cache : Bool → Icache
cache held zero = slot 1 held
cache held (suc i) = slot 0 false

cache-IsUnique : IsUnique (cache false)
cache-IsUnique = record { one_slot = λ i j. same i j }
  where
    same :
        (i j : ℕ)
        → i < ninode
        → j < ninode
        → 0 < (cache false i).ref
        → 0 < (cache false j).ref
        → (cache false i).dev ≡ (cache false j).dev
        → (cache false i).inum ≡ (cache false j).inum
        → i ≡ j
    same zero zero li lj ri rj d m = refl
    same (suc i) j li lj ri rj d m = absurd (omega arith)
    same zero (suc j) li lj ri rj d m = absurd (omega arith)

cache-IsGuarded : IsGuarded (cache false)
cache-IsGuarded zero h = cc
cache-IsGuarded (suc i) h = cc

none_valid : (j : ℕ) → (cache false j).valid ≡ false
none_valid zero = refl
none_valid (suc j) = refl

-- A process opens the file, another unlinks it, and it is closed: it is never freed.
run-not_freed_example :
    iput 0 (run (λ d i. unlinked) (cache false) (lock 0 ∷ unlock 0 ∷ [])) ≢ freed (cache false)
run-not_freed_example =
    run-not_freed (λ d i. unlinked) (cache false) (lock 0 ∷ unlock 0 ∷ []) 0 (cache false)
      none_valid
