-- ===== src/Spinlock/Exclusion.antt =====
-- One lock and any number of processors, whose steps in `acquire` and `release` interleave.
use rain_os.Common.{
  ℕ, ◌-◌, ◌<◌, ◌≡◌, ◌⊎◌, inl, inr, ◌≢◌, refl, sym, ◌∙◌, ap, subst, Bool, true, false, none, some,
  List, [], ◌∷◌, Outcome, ok, panic, ◌==◌, arith, ==_refl, ◌&&◌, if◌then◌else◌, Bool-cases, update,
  update_self, update_ne,
}
use native.Mathlib.Decide.{ℕ_discrete}
use rain_os.Spinlock.{
  Cpu, Lock, pushcli, popcli, initlock, is_cpu, Phase, outside, pushed, looked, spinning, got,
  critical, found, checked, cleared, unlocked, panicked, is_releasing, Machine, acquire, release,
  step, run,
}
use rain_os.Spinlock.Fits.{
  apart, holds, named, role, Fits, Fits-same, Fits-free, Fits-holds, Fits-named, Fits-apart,
  Fits-alone,
}

-- Between `pushcli` and `popcli`.
abbrev IsOff : Phase → Cpu → Type 0
IsOff p c = p ≢ outside → (c.enabled ≡ false) × (0 < c.ncli)

record IsExclusive (s : Machine) : Type 0 where
  fits : Fits s.lock (λ i. role (s.phase i))
  off : (i : ℕ) → IsOff (s.phase i) (s.cpus i)
  safe : (i : ℕ) → s.phase i ≢ panicked

-- The next step of a processor in phase `p`.
abbrev next : (i : ℕ) → Phase → Cpu → Lock → Phase × Cpu × Lock
next i p c lk = if is_releasing p then release i p c lk else acquire i p c lk

pushcli-off : (c : Cpu) → ((pushcli c).enabled ≡ false) × (0 < (pushcli c).ncli)
unfolding pushcli
pushcli-off c = (refl, omega arith)

-- The first `popcli` after a `pushcli` does not panic.
popcli-ok : (c : Cpu) → c.enabled ≡ false → 0 < c.ncli → (c' : Cpu) × (popcli c ≡ ok c')
unfolding popcli
popcli-ok c e pos =
    let z : (c.ncli == 0) ≡ false = ground arith in
    (record c { ncli = c.ncli - 1; enabled = c.ncli - 1 == 0 && c.intena }, simp (e, z))

module _ (s : Machine) (v : IsExclusive s) (i : ℕ) where
  -- What holds after the step to `p`.
  abbrev After : Phase × Cpu × Lock → Type 0
  After (p, c, lk) = Fits lk (λ j. role (update s.phase i p j)) × IsOff p c × (p ≢ panicked)

  others : (p : Phase) (j : ℕ) → j ≢ i → role (update s.phase i p j) ≡ role (s.phase j)
  others p j ne = ap role (update_ne s.phase i j p ne)

  mine : (p : Phase) → role (update s.phase i p i) ≡ role p
  mine p = ap role (update_self s.phase i p)

  -- A step that leaves the lock and the processor's part in it.
  stay : (p : Phase) → role p ≡ role (s.phase i) → Fits s.lock (λ j. role (update s.phase i p j))
  stay p e =
      Fits-same s.lock (λ j. role (s.phase j)) (λ j. role (update s.phase i p j))
        (λ j. elim (ℕ_discrete j i) [
          | yes q ↦
              ap (λ (k : ℕ). role (update s.phase i p k)) q
              ∙ mine p
              ∙ e
              ∙ ap (λ (k : ℕ). role (s.phase k)) (sym q)
          | no ne ↦ others p j ne
        ])
        v.fits

  kept-IsOff : (p : Phase) → s.phase i ≡ p → p ≢ outside → (q : Phase) → IsOff q (s.cpus i)
  kept-IsOff p e ne q h = v.off i (λ w. ne (sym e ∙ w))

  -- A step from `p` to `q` that reads the lock only.
  reads :
      (p q : Phase)
      → s.phase i ≡ p
      → p ≢ outside
      → role q ≡ role p
      → q ≢ panicked
      → After (q, s.cpus i, s.lock)
  reads p q e ne same safe = (stay q (same ∙ sym (ap role e)), kept-IsOff p e ne q, safe)

  -- The step to `p` takes the lock or names the processor in it, where the others have nothing.
  takes :
      (p : Phase) (lk : Lock)
      → ((j : ℕ) → j ≢ i → role (s.phase j) ≡ apart)
      → ((role p ≡ holds) × (lk ≡ record { locked = true; cpu = none }))
        ⊎ ((role p ≡ named) × (lk ≡ record { locked = true; cpu = some i }))
      → Fits lk (λ j. role (update s.phase i p j))
  takes p lk alone (inl (a, q)) = inr (i, λ j ne. others p j ne ∙ alone j ne, inl (mine p ∙ a, q))
  takes p lk alone (inr (a, q)) = inr (i, λ j ne. others p j ne ∙ alone j ne, inr (mine p ∙ a, q))

  next_lem : (p : Phase) → s.phase i ≡ p → After (next i p (s.cpus i) s.lock)
  unfolding acquire release
  next_lem outside e =
      (stay pushed (sym (ap role e)), λ h. pushcli-off (s.cpus i), λ q. absurd (cc))
  next_lem pushed e = elim (Bool-cases s.lock.locked) [
    | inl l ↦
        subst (λ (b : Bool). After (if b then looked else spinning, s.cpus i, s.lock)) (sym l)
          (reads pushed looked e (λ q. absurd (cc)) refl (λ q. absurd (cc)))
    | inr l ↦
        subst (λ (b : Bool). After (if b then looked else spinning, s.cpus i, s.lock)) (sym l)
          (reads pushed spinning e (λ q. absurd (cc)) refl (λ q. absurd (cc)))
  ]
  next_lem looked e =
      subst (λ (b : Bool). After (if b then panicked else spinning, s.cpus i, s.lock))
        (sym (Fits-apart s.lock (λ j. role (s.phase j)) i v.fits (ap role e)))
        (reads looked spinning e (λ q. absurd (cc)) refl (λ q. absurd (cc)))
  next_lem spinning e = elim (Bool-cases s.lock.locked) [
    | inl l ↦
        let same : s.lock ≡ record (s.lock) { locked = true } =
          ap (λ (b : Bool). record (s.lock) { locked = b }) l in
        subst
          (λ (b : Bool).
            After (if b then spinning else got, s.cpus i, record (s.lock) { locked = true }))
          (sym l)
          (subst (λ (k : Lock). After (spinning, s.cpus i, k)) same
            (reads spinning spinning e (λ q. absurd (cc)) refl (λ q. absurd (cc))))
    | inr l ↦
        let (q, none_has) = Fits-free s.lock (λ j. role (s.phase j)) v.fits l in
        subst
          (λ (b : Bool).
            After (if b then spinning else got, s.cpus i, record (s.lock) { locked = true }))
          (sym l)
          (
            takes got (record (s.lock) { locked = true }) (λ j ne. none_has j)
                (inl (refl, ap (λ (k : Lock). record k { locked = true }) q)),
            kept-IsOff spinning e (λ w. absurd (cc)) got,
            λ w. absurd (cc),
          )
  ]
  next_lem got e =
      let (q, alone) = Fits-holds s.lock (λ j. role (s.phase j)) i v.fits (ap role e) in
      (
        takes critical (record (s.lock) { cpu = some i }) alone
            (inr (refl, ap (λ (k : Lock). record k { cpu = some i }) q)),
        kept-IsOff got e (λ w. absurd (cc)) critical,
        λ w. absurd (cc),
      )
  next_lem critical e =
      let (q, alone) = Fits-named s.lock (λ j. role (s.phase j)) i v.fits (ap role e) in
      subst (λ (b : Bool). After (if b then found else panicked, s.cpus i, s.lock))
        (sym (ap (λ (k : Lock). k.locked) q))
        (reads critical found e (λ w. absurd (cc)) refl (λ w. absurd (cc)))
  next_lem found e =
      let (q, alone) = Fits-named s.lock (λ j. role (s.phase j)) i v.fits (ap role e) in
      subst (λ (b : Bool). After (if b then checked else panicked, s.cpus i, s.lock))
        (sym (ap (λ (k : Lock). is_cpu k.cpu i) q ∙ ==_refl i))
        (reads found checked e (λ w. absurd (cc)) refl (λ w. absurd (cc)))
  next_lem checked e =
      let (q, alone) = Fits-named s.lock (λ j. role (s.phase j)) i v.fits (ap role e) in
      (
        takes cleared (record (s.lock) { cpu = none }) alone
            (inl (refl, ap (λ (k : Lock). record k { cpu = none }) q)),
        kept-IsOff checked e (λ w. absurd (cc)) cleared,
        λ w. absurd (cc),
      )
  next_lem cleared e =
      let (q, alone) = Fits-holds s.lock (λ j. role (s.phase j)) i v.fits (ap role e) in
      (
        inl (
          ap (λ (k : Lock). record k { locked = false }) q,
          λ j. elim (ℕ_discrete j i) [
            | yes z ↦ ap (λ (k : ℕ). role (update s.phase i unlocked k)) z ∙ mine unlocked
            | no ne ↦ others unlocked j ne ∙ alone j ne
          ],
        ),
        kept-IsOff cleared e (λ w. absurd (cc)) unlocked,
        λ w. absurd (cc),
      )
  next_lem unlocked e =
      let (x, y) = v.off i (λ w. absurd (let z = sym e ∙ w in cc)) in
      let (c', q) = popcli-ok (s.cpus i) x y in
      subst
        (λ (o : Outcome Cpu). After (elim o as (λ r. Phase × Cpu × Lock) [
          | panic ↦ (panicked, s.cpus i, s.lock)
          | ok d ↦ (outside, d, s.lock)
        ]))
        (sym q) (stay outside (sym (ap role e)), λ h. absurd (h refl), λ w. absurd (cc))
  next_lem panicked e = absurd (v.safe i e)

  -- The other processors' phases and flags stay.
  step-IsExclusive : IsExclusive (step i s)
  unfolding step
  step-IsExclusive =
      let (f, o, n) = next_lem (s.phase i) refl in
      let r = next i (s.phase i) (s.cpus i) s.lock in
      record {
        fits = f;
        off = λ j. elim (ℕ_discrete j i) [
          | yes q ↦ rw (q, update_self s.phase i r.0, update_self s.cpus i r.1) o
          | no ne ↦ rw (update_ne s.phase i j r.0 ne, update_ne s.cpus i j r.1 ne) (v.off j)
        ];
        safe = λ j. elim (ℕ_discrete j i) [
          | yes q ↦ rw (q, update_self s.phase i r.0) n
          | no ne ↦ rw (update_ne s.phase i j r.0 ne) (v.safe j)
        ];
      }

run-IsExclusive : (is : List ℕ) (s : Machine) → IsExclusive s → IsExclusive (run is s)
unfolding run
run-IsExclusive [] s v = v
run-IsExclusive (i ∷ is) s v = run-IsExclusive is (step i s) (step-IsExclusive s v i)

-- Processors that are all outside take steps in any order, on a lock that `initlock` has made. Then
-- at most one of them is between the `xchg` with which `acquire` takes the lock and the one with which
-- `release` gives it back; whoever is between `pushcli` and `popcli` runs without interrupts; and no
-- `acquire`, `release` or `popcli` has panicked.
pub mutual_exclusion :
    (s : Machine) (is : List ℕ)
    → ((i : ℕ) → s.phase i ≡ outside)
    → s.lock ≡ initlock
    → ((i j : ℕ) → role ((run is s).phase i) ≢ apart → role ((run is s).phase j) ≢ apart → j ≡ i)
      × ((i : ℕ) → (run is s).phase i ≢ outside → ((run is s).cpus i).enabled ≡ false)
      × ((i : ℕ) → (run is s).phase i ≢ panicked)
unfolding initlock
mutual_exclusion s is h l =
    let start : IsExclusive s = record {
      fits = inl (l, λ i. ap role (h i));
      off = λ i ne. absurd (ne (h i));
      safe = λ i q. absurd (let w = sym (h i) ∙ q in cc);
    } in
    let v = run-IsExclusive is s start in
    (
      λ i j a b. Fits-alone (run is s).lock (λ k. role ((run is s).phase k)) i j v.fits a b,
      λ i ne. (v.off i ne).0,
      λ i. v.safe i,
    )
