-- ===== src/Proc/Wakeup.antt =====
-- `wakeup1`, and the loop of `exit` that passes children on and wakes `init`.
use rain_os.Common.{
  ℕ, zero, suc, ◌+◌, ◌≤◌, ◌<◌, ◌≡◌, ◌≢◌, inl, inr, refl, sym, ◌∙◌, ap, Bool, true, false, ◌&&◌,
  Option, none, some, arith, ◌==◌, ==_refl, ==_false, if◌then◌else◌, update, update_ne, Bool-cases,
}
use native.Mathlib.Decide.{ℕ_discrete}
use rain_os.Proc.{
  ProcState, runnable, Chan, nowhere, on_proc, on, Proc, Table, is_sleeping, is_zombie, same_chan,
  is_child_of, wakeup1, adopt, sleep,
}

pub same_chan_refl : (c : Chan) → same_chan c c ≡ true
same_chan_refl nowhere = refl
same_chan_refl (on_proc a) = ==_refl a
same_chan_refl (on a) = ==_refl a

abbrev pub sleeps_on : Chan → Proc → Bool
sleeps_on c p = is_sleeping p.state && same_chan p.chan c

-- After a wakeup nobody sleeps on the channel; whoever slept on it can run, and is otherwise as
-- before; and a process that did not sleep on it is untouched.
pub wakeup1_lem :
    (c : Chan) (ps : ℕ → Proc) (i : ℕ)
    → (sleeps_on c (wakeup1 c ps i) ≡ false)
      × (sleeps_on c (ps i) ≡ true → wakeup1 c ps i ≡ record (ps i) { state = runnable })
      × (sleeps_on c (ps i) ≡ false → wakeup1 c ps i ≡ ps i)
unfolding wakeup1
wakeup1_lem c ps i = elim (Bool-cases (sleeps_on c (ps i))) [
  | inl s ↦ rw s (refl, λ h. refl, λ h. cc)
  | inr n ↦ rw n (n, λ h. cc, λ h. refl)
]

-- A process that has gone to sleep on a channel is made runnable by a wakeup on it, whatever
-- state the others are in.
pub wakeup1-sleep :
    (cur : ℕ) (c : Chan) (t : Table) → (wakeup1 c (sleep cur c t).procs cur).state ≡ runnable
unfolding wakeup1 sleep
wakeup1-sleep cur c t = rw (==_refl cur, same_chan_refl c)

-- A wakeup changes nothing but states, and only from sleeping to runnable.
pub wakeup1-parent : (c : Chan) (ps : ℕ → Proc) (i : ℕ) → (wakeup1 c ps i).parent ≡ (ps i).parent
unfolding wakeup1
wakeup1-parent c ps i = ground arith

pub wakeup1-awake :
    (c d : Chan) (ps : ℕ → Proc) (i : ℕ)
    → sleeps_on d (ps i) ≡ false
    → sleeps_on d (wakeup1 c ps i) ≡ false
unfolding wakeup1
wakeup1-awake c d ps i h = elim (Bool-cases (sleeps_on c (ps i))) [ inl e ↦ rw e | inr e ↦ rw e h ]

pub wakeup1-state :
    (c : Chan) (ps : ℕ → Proc) (i : ℕ) → is_sleeping (ps i).state ≡ false → wakeup1 c ps i ≡ ps i
unfolding wakeup1
wakeup1-state c ps i h = rw h

-- It changes nothing but states: not what `f` reads.
pub wakeup1-same {ℓ} :
    {A : Type ℓ} (f : Proc → A) (c : Chan) (ps : ℕ → Proc) (i : ℕ)
    → ((p : Proc) (s : ProcState) → f (record p { state = s }) ≡ f p)
    → f (wakeup1 c ps i) ≡ f (ps i)
unfolding wakeup1
wakeup1-same f c ps i h = elim (Bool-cases (sleeps_on c (ps i))) [
  | inl s ↦ rw s (h (ps i) runnable)
  | inr n ↦ rw n
]

module _ (cur init : ℕ) where
  -- One round of the loop at slot `i`.
  abbrev pub round : ℕ → (ℕ → Proc) → ℕ → Proc
  round i ps =
      if is_child_of cur (ps i)
      then (if is_zombie (ps i).state
          then wakeup1 (on_proc init) (update ps i (record (ps i) { parent = some init }))
          else update ps i (record (ps i) { parent = some init }))
      else ps

  given-awake :
      (d : Chan) (ps : ℕ → Proc) (i j : ℕ)
      → sleeps_on d (ps j) ≡ false
      → sleeps_on d (update ps i (record (ps i) { parent = some init }) j) ≡ false
  given-awake d ps i j h = elim (ℕ_discrete j i) [
    | yes q ↦ rw (q, ==_refl i) (rw q at h)
    | no q ↦ rw (==_false j i q) h
  ]

  round-awake :
      (d : Chan) (ps : ℕ → Proc) (i j : ℕ)
      → sleeps_on d (ps j) ≡ false
      → sleeps_on d (round i ps j) ≡ false
  round-awake d ps i j h = elim (Bool-cases (is_child_of cur (ps i))) [
    | inr n ↦ rw n h
    | inl c ↦ elim (Bool-cases (is_zombie (ps i).state)) [
      | inl z ↦
          rw (c, z)
            (wakeup1-awake (on_proc init) d (update ps i (record (ps i) { parent = some init })) j
              (given-awake d ps i j h))
      | inr z ↦ rw (c, z) (given-awake d ps i j h)
    ]
  ]

  abbrev given : ℕ → (ℕ → Proc) → ℕ → Proc
  given i ps = update ps i (record (ps i) { parent = some init })

  round-parent_ne : (ps : ℕ → Proc) (i j : ℕ) → j ≢ i → (round i ps j).parent ≡ (ps j).parent
  round-parent_ne ps i j ne =
      let e =
        ap (λ (p : Proc). p.parent) (update_ne ps i j (record (ps i) { parent = some init }) ne) in
      elim (Bool-cases (is_child_of cur (ps i))) [
        | inr n ↦ rw n refl
        | inl c ↦ elim (Bool-cases (is_zombie (ps i).state)) [
          | inl z ↦ rw (c, z) (wakeup1-parent (on_proc init) (given i ps) j ∙ e)
          | inr z ↦ rw (c, z) e
        ]
      ]

  round-parent :
      (ps : ℕ → Proc) (i j : ℕ)
      → is_child_of cur (ps j) ≡ false
      → (round i ps j).parent ≡ (ps j).parent
  round-parent ps i j h = elim (ℕ_discrete j i) [
    | yes q ↦ let e : is_child_of cur (ps i) ≡ false = rw (← q) h in rw (q, e) refl
    | no q ↦ round-parent_ne ps i j q
  ]

  child_of_parent : (p q : Proc) → p.parent ≡ q.parent → is_child_of cur p ≡ is_child_of cur q
  child_of_parent p q h = ap (λ o. elim o as (λ x. Bool) [ none ↦ false | some j ↦ j == cur ]) h

  round-given : (ps : ℕ → Proc) (i : ℕ) → cur ≢ init → is_child_of cur (round i ps i) ≡ false
  round-given ps i ne = elim (Bool-cases (is_child_of cur (ps i))) [
    | inr n ↦ rw n n
    | inl c ↦ elim (Bool-cases (is_zombie (ps i).state)) [
      | inl z ↦
          rw (c, z)
            (child_of_parent (wakeup1 (on_proc init) (given i ps) i) (given i ps i)
                (wakeup1-parent (on_proc init) (given i ps) i)
              ∙ to_init)
      | inr z ↦ rw (c, z) to_init
    ]
  ]
    where
      to_init : is_child_of cur (given i ps i) ≡ false
      to_init = rw (==_refl i) (==_false init cur (λ q. ne (sym q)))

  round-zombie :
      (ps : ℕ → Proc) (i j : ℕ)
      → is_zombie (ps j).state ≡ true
      → is_zombie (round i ps j).state ≡ true
  round-zombie ps i j h = elim (Bool-cases (is_child_of cur (ps i))) [
    | inr n ↦ rw n h
    | inl c ↦ elim (Bool-cases (is_zombie (ps i).state)) [
      | inl z ↦
          rw (c, z)
            (rw (wakeup1-state (on_proc init) (given i ps) j (up (given i ps j).state kept)) kept)
      | inr z ↦ rw (c, z) kept
    ]
  ]
    where
      kept : is_zombie (given i ps j).state ≡ true
      kept = elim (ℕ_discrete j i) [
        | yes q ↦ rw (q, ==_refl i) (rw q at h)
        | no q ↦ rw (==_false j i q) h
      ]

      up : (s : ProcState) → is_zombie s ≡ true → is_sleeping s ≡ false
      up s h = ground arith

  pub adopt-awake :
      (d : Chan) (k i j : ℕ) (ps : ℕ → Proc)
      → sleeps_on d (ps j) ≡ false
      → sleeps_on d (adopt cur init k i ps j) ≡ false
  unfolding adopt
  adopt-awake d zero i j ps h = h
  adopt-awake d (suc k) i j ps h = adopt-awake d k (i + 1) j (round i ps) (round-awake d ps i j h)

  pub adopt-parent :
      (k i j : ℕ) (ps : ℕ → Proc)
      → is_child_of cur (ps j) ≡ false
      → (adopt cur init k i ps j).parent ≡ (ps j).parent
  unfolding adopt
  adopt-parent zero i j ps h = refl
  adopt-parent (suc k) i j ps h =
      let e = round-parent ps i j h in
      adopt-parent k (i + 1) j (round i ps) (child_of_parent (round i ps j) (ps j) e ∙ h) ∙ e

  pub adopt-no_child :
      (k i j : ℕ) (ps : ℕ → Proc)
      → cur ≢ init
      → i ≤ j
      → j < i + k
      → is_child_of cur (adopt cur init k i ps j) ≡ false
  unfolding adopt
  adopt-no_child zero i j ps ne lo hi = absurd (omega arith)
  adopt-no_child (suc k) i j ps ne lo hi = elim (ℕ_discrete j i) [
    | yes q ↦ rw q (orphan k i (round i ps) (round-given ps i ne))
    | no q ↦ adopt-no_child k (i + 1) j (round i ps) ne (omega arith) (omega arith)
  ]
    where
      orphan :
          (k i : ℕ) (qs : ℕ → Proc)
          → is_child_of cur (qs i) ≡ false
          → is_child_of cur (adopt cur init k (i + 1) qs i) ≡ false
      orphan k i qs h =
          child_of_parent (adopt cur init k (i + 1) qs i) (qs i) (adopt-parent k (i + 1) i qs h) ∙ h

  -- The loop changes nothing but parents and states: not what `f` reads.
  given-same {ℓ} :
      {A : Type ℓ} (f : Proc → A) (ps : ℕ → Proc) (i j : ℕ)
      → ((p : Proc) (o : Option ℕ) → f (record p { parent = o }) ≡ f p)
      → f (given i ps j) ≡ f (ps j)
  given-same f ps i j h = elim (ℕ_discrete j i) [
    | yes q ↦ rw (q, ==_refl i) (h (ps i) (some init))
    | no q ↦ rw (==_false j i q) refl
  ]

  pub adopt-same {ℓ} :
      {A : Type ℓ} (f : Proc → A) (k i j : ℕ) (ps : ℕ → Proc)
      → ((p : Proc) (o : Option ℕ) → f (record p { parent = o }) ≡ f p)
      → ((p : Proc) (s : ProcState) → f (record p { state = s }) ≡ f p)
      → f (adopt cur init k i ps j) ≡ f (ps j)
  unfolding adopt
  adopt-same f zero i j ps h g = refl
  adopt-same f (suc k) i j ps h g = adopt-same f k (i + 1) j (round i ps) h g ∙ once
    where
      once : f (round i ps j) ≡ f (ps j)
      once = elim (Bool-cases (is_child_of cur (ps i))) [
        | inr n ↦ rw n refl
        | inl c ↦ elim (Bool-cases (is_zombie (ps i).state)) [
          | inl z ↦
              rw (c, z) (wakeup1-same f (on_proc init) (given i ps) j g ∙ given-same f ps i j h)
          | inr z ↦ rw (c, z) (given-same f ps i j h)
        ]
      ]

  -- If a child that is passed on is a zombie, `init` does not sleep on its own `struct proc`.
  pub adopt-wakes :
      (k i j : ℕ) (ps : ℕ → Proc)
      → i ≤ j
      → j < i + k
      → is_child_of cur (ps j) ≡ true
      → is_zombie (ps j).state ≡ true
      → sleeps_on (on_proc init) (adopt cur init k i ps init) ≡ false
  unfolding adopt
  adopt-wakes zero i j ps lo hi c z = absurd (omega arith)
  adopt-wakes (suc k) i j ps lo hi c z = elim (ℕ_discrete j i) [
    | yes q ↦
        adopt-awake (on_proc init) k (i + 1) init (round i ps)
          (rw (rw q at c, rw q at z) (wakeup1_lem (on_proc init) (given i ps) init).0)
    | no q ↦
        adopt-wakes k (i + 1) j (round i ps) (omega arith) (omega arith)
          (child_of_parent (round i ps j) (ps j) (round-parent_ne ps i j q) ∙ c)
          (round-zombie ps i j z)
  ]
