-- ===== src/Icache/Flags.antt =====
-- The flags I_BUSY and I_VALID: who may hold an inode, and when its copy is read or dropped.
use rain_os.Common.{
  ℕ, ◌+◌, ◌-◌, ◌<◌, ◌≡◌, ◌≢◌, refl, ◌∙◌, ap, true, false, not, ◌&&◌, ◌||◌, arith, List, [], ◌∷◌,
  Outcome, ok, panic, ◌==◌, ltb, ==_refl, ==_false, if◌then◌else◌, update, update_self, update_ne,
  Bool-cases, Bool-clash, Option-cases, inl, inr, find_index,
}
use native.Mathlib.Decide.{ℕ_discrete}
use rain_os.Icache.{
  ninode, Dinode, Inode, Icache, is_cached, is_empty, iget, idup, Lock, locked, sleeping, failed,
  ilock, iunlock, Put, dropped, freed, crashed, iput, iunlockput,
}

-- Only a locked inode's copy is valid.
abbrev pub IsGuarded : Icache → Type 0
IsGuarded c = (i : ℕ) → (c i).valid ≡ true → (c i).busy ≡ true

-- Calls of the cache's functions, by any processes.
pub data Call : Type 0 where
  get : (dev inum : ℕ) → Call
  dup lock unlock put : ℕ → Call

-- The cache after a call; one that sleeps or panics leaves it as it is.
abbrev pub after_get : Icache → Outcome (ℕ × Icache) → Icache
after_get c (ok (i, c')) = c'
after_get c panic = c

abbrev pub after_lock : Icache → Lock → Icache
after_lock c (locked c') = c'
after_lock c sleeping = c
after_lock c failed = c

abbrev pub after_unlock : Icache → Outcome Icache → Icache
after_unlock c (ok c') = c'
after_unlock c panic = c

abbrev pub after_put : Icache → Put → Icache
after_put c (dropped c') = c'
after_put c (freed c') = c'
after_put c crashed = c

module _ (on_disk : ℕ → ℕ → Dinode) where
  step : Icache → Call → Icache
  step c (get dev inum) = after_get c (iget dev inum c)
  step c (dup i) = idup i c
  step c (lock i) = after_lock c (ilock on_disk i c)
  step c (unlock i) = after_unlock c (iunlock i c)
  step c (put i) = after_put c (iput i c)

  unfoldable pub run : Icache → List Call → Icache
  unfolding step
  run c [] = c
  run c (x ∷ xs) = run (step c x) xs

-- A written slot keeps the flags guarded if it does so itself.
IsGuarded-update :
    (c : Icache) (i : ℕ) (n : Inode)
    → IsGuarded c
    → (n.valid ≡ true → n.busy ≡ true)
    → IsGuarded (update c i n)
IsGuarded-update c i n g h j = elim (ℕ_discrete j i) [
  | yes q ↦ rw (q, ==_refl i) h
  | no q ↦ rw (==_false j i q) (g j)
]

module _ (on_disk : ℕ → ℕ → Dinode) (c : Icache) (g : IsGuarded c) where
  get-IsGuarded : (dev inum : ℕ) → IsGuarded (after_get c (iget dev inum c))
  unfolding iget
  get-IsGuarded dev inum = elim (Option-cases (find_index (is_cached dev inum c) ninode 0)) [
    | inr (i, e) ↦ rw (e, iget) (IsGuarded-update c i _ g (g i))
    | inl e ↦ elim (Option-cases (find_index (is_empty c) ninode 0)) [
      | inr (i, e2) ↦
          rw (e, e2, iget)
            (IsGuarded-update c i
              (record (c i) { dev = dev; inum = inum; ref = 1; busy = false; valid = false }) g
              (λ h. cc))
      | inl e2 ↦ rw (e, e2, iget) g
    ]
  ]

  not_valid : (i : ℕ) → (c i).busy ≡ false → (c i).valid ≡ false
  not_valid i h = ground (arith, g i)

  -- The inode with its flags set and its copy read from the disk.
  abbrev pub fetched : ℕ → Inode
  fetched i = record (c i) { busy = true; valid = true; copy = on_disk (c i).dev (c i).inum }

  ilock-failed : (i : ℕ) → ltb (c i).ref 1 ≡ true → ilock on_disk i c ≡ failed
  unfolding ilock
  ilock-failed i h = rw h

  ilock-sleeping :
      (i : ℕ) → ltb (c i).ref 1 ≡ false → (c i).busy ≡ true → ilock on_disk i c ≡ sleeping
  unfolding ilock
  ilock-sleeping i h b = rw (h, b)

  ilock-free :
      (i : ℕ)
      → ltb (c i).ref 1 ≡ false
      → (c i).busy ≡ false
      → ilock on_disk i c ≡ (
          if (on_disk (c i).dev (c i).inum).kind == 0
          then failed
          else locked (update c i (fetched i)))
  unfolding ilock
  ilock-free i h b = rw (h, b, not_valid i b)

  lock-IsGuarded : (i : ℕ) → IsGuarded (after_lock c (ilock on_disk i c))
  lock-IsGuarded i = elim (Bool-cases (ltb (c i).ref 1)) [
    | inl e ↦ rw (ilock-failed i e) g
    | inr e ↦ elim (Bool-cases (c i).busy) [
      | inl b ↦ rw (ilock-sleeping i e b) g
      | inr b ↦
          rw (ilock-free i e b) (elim (Bool-cases ((on_disk (c i).dev (c i).inum).kind == 0)) [
            | inl k ↦ rw k g
            | inr k ↦ rw k (IsGuarded-update c i (fetched i) g (λ h. refl))
          ])
    ]
  ]

  -- Where nobody holds a referenced inode, `ilock` takes it and always reads its copy from the
  -- disk, or panics if the disk has no such inode; where somebody holds it, `ilock` sleeps. No
  -- other slot changes.
  pub ilock_lem :
      (i : ℕ)
      → 0 < (c i).ref
      → ((c i).busy ≡ true → ilock on_disk i c ≡ sleeping)
        × ((c i).busy ≡ false
            → (on_disk (c i).dev (c i).inum).kind ≢ 0
            → (c' : Icache) × (ilock on_disk i c ≡ locked c')
              × (c' i ≡ fetched i)
              × ((j : ℕ) → j ≢ i → c' j ≡ c j))
        × ((c i).busy ≡ false
            → (on_disk (c i).dev (c i).inum).kind ≡ 0
            → ilock on_disk i c ≡ failed)
  ilock_lem i r =
      let e : ltb (c i).ref 1 ≡ false = ground arith in
      (
        λ b. ilock-sleeping i e b,
        λ b k. (
          update c i (fetched i),
          ilock-free i e b ∙ rw (==_false (on_disk (c i).dev (c i).inum).kind 0 k) refl,
          update_self c i (fetched i),
          λ j ne. update_ne c i j (fetched i) ne,
        ),
        λ b k. ilock-free i e b ∙ rw k refl,
      )

  unlock-IsGuarded : (i : ℕ) → IsGuarded (after_unlock c (iunlock i c))
  unfolding iunlock
  unlock-IsGuarded i = elim (Bool-cases (not (c i).busy || ltb (c i).ref 1)) [
    | inl e ↦ rw e g
    | inr e ↦ rw e (IsGuarded-update c i (record (c i) { busy = false; valid = false }) g (λ h. cc))
  ]

  put-not_freed : (i : ℕ) (c' : Icache) → iput i c ≢ freed c'
  unfolding iput
  put-not_freed i c' = elim (Bool-cases (c i).valid) [
    | inr v ↦ rw v (ground arith)
    | inl v ↦ rw (g i v) (ground arith)
  ]

  put-IsGuarded : (i : ℕ) → IsGuarded (after_put c (iput i c))
  unfolding iput
  put-IsGuarded i = elim (Bool-cases ((c i).ref == 1 && ((c i).valid && (c i).copy.nlink == 0))) [
    | inr e ↦ rw e (IsGuarded-update c i (record (c i) { ref = (c i).ref - 1 }) g (g i))
    | inl e ↦ elim (Bool-cases (c i).busy) [
      | inl b ↦ rw (e, b) g
      | inr b ↦
          let v : (c i).valid ≡ true = ground arith in absurd (Bool-clash (c i).busy (g i v) b)
    ]
  ]

step-IsGuarded :
    (on_disk : ℕ → ℕ → Dinode) (c : Icache) (x : Call) → IsGuarded c → IsGuarded (step on_disk c x)
unfolding step
step-IsGuarded on_disk c (get dev inum) g = get-IsGuarded on_disk c g dev inum
step-IsGuarded on_disk c (dup i) g =
    unfold idup in IsGuarded-update c i (record (c i) { ref = (c i).ref + 1 }) g (g i)
step-IsGuarded on_disk c (lock i) g = lock-IsGuarded on_disk c g i
step-IsGuarded on_disk c (unlock i) g = unlock-IsGuarded on_disk c g i
step-IsGuarded on_disk c (put i) g = put-IsGuarded on_disk c g i

run-IsGuarded :
    (on_disk : ℕ → ℕ → Dinode) (xs : List Call) (c : Icache)
    → IsGuarded c
    → IsGuarded (run on_disk c xs)
unfolding run
run-IsGuarded on_disk [] c g = g
run-IsGuarded on_disk (x ∷ xs) c g =
    run-IsGuarded on_disk xs (step on_disk c x) (step-IsGuarded on_disk c x g)

-- From a cache in which no copy is valid, whatever calls are made, and whatever the disk holds
-- then, `iput` never frees an inode, not even one without links whose last reference is given up.
pub run-not_freed :
    (on_disk : ℕ → ℕ → Dinode) (c : Icache) (xs : List Call) (i : ℕ) (c' : Icache)
    → ((j : ℕ) → (c j).valid ≡ false)
    → iput i (run on_disk c xs) ≢ freed c'
run-not_freed on_disk c xs i c' h =
    put-not_freed on_disk (run on_disk c xs)
      (run-IsGuarded on_disk xs c (λ j v. absurd (Bool-clash (c j).valid v (h j)))) i c'

iunlock-ok :
    (c : Icache) (i : ℕ)
    → (c i).busy ≡ true
    → 0 < (c i).ref
    → iunlock i c ≡ ok (update c i (record (c i) { busy = false; valid = false }))
unfolding iunlock
iunlock-ok c i b r = let e : ltb (c i).ref 1 ≡ false = ground arith in rw (b, e)

iput-dropped :
    (c : Icache) (i : ℕ)
    → (c i).valid ≡ false
    → iput i c ≡ dropped (update c i (record (c i) { ref = (c i).ref - 1 }))
unfolding iput
iput-dropped c i v = rw v (ground arith)

-- `iunlockput` of a held inode gives up one reference, unlocks it and drops its copy; the number
-- of its links does not matter.
pub iunlockput_lem :
    (c : Icache) (i : ℕ)
    → (c i).busy ≡ true
    → 0 < (c i).ref
    → (c' : Icache) × (iunlockput i c ≡ dropped c')
      × (c' i ≡ record (c i) { ref = (c i).ref - 1; busy = false; valid = false })
      × ((j : ℕ) → j ≢ i → c' j ≡ c j)
unfolding iunlockput
iunlockput_lem c i b r =
    let open_slot : Inode = record (c i) { busy = false; valid = false } in
    let n : Inode = record (c i) { ref = (c i).ref - 1; busy = false; valid = false } in
    let c1 = update c i open_slot in
    (
      update c1 i n,
      rw (iunlock-ok c i b r, iunlockput)
          (iput-dropped c1 i (ap (λ (p : Inode). p.valid) (update_self c i open_slot))
            ∙ ap (λ (p : Inode). dropped (update c1 i (record p { ref = p.ref - 1 })))
                (update_self c i open_slot)),
      update_self c1 i n,
      λ j ne. update_ne c1 i j n ne ∙ update_ne c i j open_slot ne,
    )
