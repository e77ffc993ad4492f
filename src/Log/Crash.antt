-- ===== src/Log/Crash.antt =====
-- The restarts after a crash during `commit`, each of which may lose power again.
use rain_os.Common.{ℕ, ◌<◌, ◌≡◌, ◌⊎◌, inl, inr, refl, sym, ◌∙◌, subst, arith, List, [], ◌∷◌}
use rain_os.Disk.{Block, bread, reboot}
use rain_os.Log.{Sys, log_size, commit, recover_from_log}
use rain_os.Log.Install.{Home}
use rain_os.Log.Recovery.{Settled, Committed, recover-outcome, recover-Settled}
use rain_os.Log.Commit.{IsReady}
use rain_os.Log.Stopped.{Stopped, before, during, after, start-commit, commit-Stopped}

-- The machine starts again and recovers, with power for `p` disk writes.
unfoldable pub restart : Sys → ℕ → Sys
restart s p = recover_from_log (record s { store = reboot s.store p })

unfoldable pub restarts : Sys → List ℕ → Sys
restarts s [] = s
restarts s (p ∷ ps) = restarts (restart s p) ps

Committed-Settled :
    {d : ℕ → Block} {start : ℕ} {f : ℕ → Block} (sec : ℕ → ℕ)
    → Settled d start f
    → Committed d start f 0 sec
Committed-Settled sec c = record {
  bounded = omega arith;
  count = c.empty;
  heads = λ i h. elim h [ ];
  low = λ i h. elim h [ ];
  blocks = λ i h. elim h [ ];
  home = λ t h. inl (c.home t h);
}

Settled-Committed :
    {d : ℕ → Block} {start : ℕ} {f : ℕ → Block} {sec : ℕ → ℕ}
    → Committed d start f 0 sec
    → Settled d start f
Settled-Committed {d} {start} {f} {sec} c = record {
  empty = c.count;
  home = λ t h. pick t (c.home t h);
}
  where
    pick : (t : ℕ) → (d t ≡ f t) ⊎ Home sec 0 0 t → d t ≡ f t
    pick t (inl e) = e
    pick t (inr (j, lo, hi, q)) = absurd (omega arith)

start-restart : (s : Sys) (p : ℕ) → (restart s p).log.start ≡ s.log.start
unfolding restart recover_from_log
start-restart s p = refl

module _ (old new : ℕ → Block) (n : ℕ) (sec : ℕ → ℕ) where
  restart-Settled :
      (s : Sys) (p : ℕ) (f : ℕ → Block)
      → Settled s.store.disk s.log.start f
      → Settled (restart s p).store.disk s.log.start f
  unfolding restart reboot bread
  restart-Settled s p f c = pick (
      recover-outcome (record s { store = reboot s.store p }) f 0 sec (λ t. refl)
        (Committed-Settled sec c))
    where
      pick :
          Committed (restart s p).store.disk s.log.start f 0 sec
            ⊎ Settled (restart s p).store.disk s.log.start f
          → Settled (restart s p).store.disk s.log.start f
      pick (inl q) = Settled-Committed q
      pick (inr q) = q

  restart-Stopped :
      (s : Sys) (p : ℕ)
      → Stopped s.store.disk s.log.start old new n sec
      → Stopped (restart s p).store.disk s.log.start old new n sec
  unfolding restart reboot bread
  restart-Stopped s p (before c) = before (restart-Settled s p old c)
  restart-Stopped s p (after c) = after (restart-Settled s p new c)
  restart-Stopped s p (during c) =
      pick (recover-outcome (record s { store = reboot s.store p }) new n sec (λ t. refl) c)
    where
      pick :
          Committed (restart s p).store.disk s.log.start new n sec
            ⊎ Settled (restart s p).store.disk s.log.start new
          → Stopped (restart s p).store.disk s.log.start old new n sec
      pick (inl q) = during q
      pick (inr q) = after q

  restarts-Stopped :
      (ps : List ℕ) (s : Sys)
      → Stopped s.store.disk s.log.start old new n sec
      → Stopped (restarts s ps).store.disk (restarts s ps).log.start old new n sec
        × ((restarts s ps).log.start ≡ s.log.start)
  unfolding restarts
  restarts-Stopped [] s c = (c, refl)
  restarts-Stopped (p ∷ ps) s c =
      let e = start-restart s p in
      let ih = restarts-Stopped ps (restart s p) (
        subst (λ a. Stopped (restart s p).store.disk a old new n sec) (sym e)
          (restart-Stopped s p c)) in
      (ih.0, ih.1 ∙ e)

  restart-whole :
      (s : Sys) (p : ℕ)
      → n < p
      → Stopped s.store.disk s.log.start old new n sec
      → Settled (restart s p).store.disk s.log.start old
        ⊎ Settled (restart s p).store.disk s.log.start new
  unfolding restart reboot bread
  restart-whole s p h (before c) = inl (restart-Settled s p old c)
  restart-whole s p h (after c) = inr (restart-Settled s p new c)
  restart-whole s p h (during c) =
      inr (recover-Settled (record s { store = reboot s.store p }) new n sec (λ t. refl) c h)

-- Let a transaction commit while the machine may lose power at any of its disk writes, let it
-- restart any number of times, losing power during the recoveries too, and let a last restart
-- have power for the log's blocks and its header. Then every sector before the log holds what it
-- held before the commit, or every one holds the transaction's contents; and the log is empty.
pub crash_atomic :
    (s : Sys) (ps : List ℕ) (p : ℕ)
    → IsReady s
    → log_size < p
    → let d = (restart (restarts (commit s) ps) p).store.disk in
      Settled d s.log.start s.store.disk ⊎ Settled d s.log.start (bread s.store)
crash_atomic s ps p v h =
    let m = s.log.lh.n in
    let sec = s.log.lh.sector in
    let old = s.store.disk in
    let new = bread s.store in
    let go = restarts-Stopped old new m sec ps (commit s) (
      subst (λ a. Stopped (commit s).store.disk a old new m sec) (sym (start-commit s v))
        (commit-Stopped s v)) in
    let s' = restarts (commit s) ps in
    subst (λ a. Settled (restart s' p).store.disk a old ⊎ Settled (restart s' p).store.disk a new)
      (go.1 ∙ start-commit s v) (restart-whole old new m sec s' p (omega (arith, v.bounded)) go.0)
