-- ===== src/Log/Recovery.antt =====
-- `recover_from_log` after a crash, and after crashes during recovery itself.
use rain_os.Common.{
  ℕ, zero, suc, ◌+◌, ◌≤◌, ◌<◌, ◌^◌, ◌≡◌, ◌⊎◌, inl, inr, sym, ◌∙◌, ap, arith, update_self, update_ne,
  rounds,
}
use native.Mathlib.Decide.{ℕ_discrete}
use rain_os.Disk.{Block, Store, bread, bwrite}
use rain_os.Disk.Writes.{disk-bwrite_ne, disk-bwrite_self}
use rain_os.Log.{
  Log, Sys, clear, get_sectors, put_sectors, read_head, write_head, install_from, install_trans,
  recover_from_log,
}
use rain_os.Log.Install.{
  Home, install_from-power, install_from-other, install_from-keep, install_from-all,
}

pub get_sectors-eq :
    (k : ℕ) (b : Block) (old : ℕ → ℕ) (i : ℕ) → i < k → get_sectors k b old i ≡ b (suc i)
unfolding get_sectors
get_sectors-eq zero b old i h = absurd (omega arith)
get_sectors-eq (suc k) b old i h = elim (ℕ_discrete i k) [
  | yes q ↦ rw q (update_self (get_sectors k b old) k (b (suc k)))
  | no q ↦
      update_ne (get_sectors k b old) k i (b (suc k)) q ∙ get_sectors-eq k b old i (omega arith)
]

-- The home sectors, those before the log, hold `f`, and the log is empty.
pub record Settled (d : ℕ → Block) (start : ℕ) (f : ℕ → Block) : Type 0 where
  pub empty : d start 0 ≡ 0
  pub home : (s : ℕ) → s < start → d s ≡ f s

-- The log on the disk holds `n` blocks for the sectors `sec`, which together with the home
-- sectors that are already right make up `f`.
pub record Committed (d : ℕ → Block) (start : ℕ) (f : ℕ → Block) (n : ℕ) (sec : ℕ → ℕ)
    : Type 0 where
  pub bounded : n < 2 ^ 31
  pub count : d start 0 ≡ n
  pub heads : (i : ℕ) → i < n → d start (suc i) ≡ sec i
  pub low : (i : ℕ) → i < n → sec i < start
  pub blocks : (i : ℕ) → i < n → d (start + i + 1) ≡ f (sec i)
  pub home : (s : ℕ) → s < start → (d s ≡ f s) ⊎ Home sec 0 n s

-- Installing, cut off anywhere, keeps a committed disk committed.
module _ (lg : Log) (f : ℕ → Block) (n : ℕ) (sec : ℕ → ℕ)
    (agree : (i : ℕ) → i < n → lg.lh.sector i ≡ sec i) where
  low_of :
      (st : Store)
      → Committed st.disk lg.start f n sec
      → (i : ℕ) → i < n
      → lg.lh.sector i < lg.start
  low_of st c i h = rw (agree i h) (c.low i h)

  Home-agree : (s : ℕ) → Home sec 0 n s → Home lg.lh.sector 0 n s
  Home-agree s (j, lo, hi, q) = (j, lo, hi, agree j hi ∙ q)

  Holds_of :
      (st : Store)
      → ((s : ℕ) → lg.start ≤ s → bread st s ≡ st.disk s)
      → Committed st.disk lg.start f n sec
      → (i : ℕ) → i < n
      → bread st (lg.start + i + 1) ≡ f (lg.lh.sector i)
  Holds_of st clean c i h =
      clean (lg.start + i + 1) (omega arith) ∙ c.blocks i h ∙ ap f (sym (agree i h))

  pub install_from-Committed :
      (st : Store)
      → ((s : ℕ) → lg.start ≤ s → bread st s ≡ st.disk s)
      → Committed st.disk lg.start f n sec
      → Committed (install_from lg n 0 st).disk lg.start f n sec
  install_from-Committed st clean c = record {
    bounded = c.bounded;
    count = ap (λ (b : Block). b 0) (same lg.start (omega arith)) ∙ c.count;
    heads = λ i h. ap (λ (b : Block). b (suc i)) (same lg.start (omega arith)) ∙ c.heads i h;
    low = c.low;
    blocks = λ i h. same (lg.start + i + 1) (omega arith) ∙ c.blocks i h;
    home = λ s h. kept s (c.home s h);
  }
    where
      same : (s : ℕ) → lg.start ≤ s → (install_from lg n 0 st).disk s ≡ st.disk s
      same s h =
          (install_from-other lg n 0 n st s (omega arith)
            (λ i hi q. absurd (omega (arith, low_of st c i hi)))).0

      kept :
          (s : ℕ)
          → (st.disk s ≡ f s) ⊎ Home sec 0 n s
          → ((install_from lg n 0 st).disk s ≡ f s) ⊎ Home sec 0 n s
      kept s (inl d) =
          inl
            (install_from-keep lg f n (low_of st c) n 0 st s (omega arith) (Holds_of st clean c) d)
      kept s (inr h) = inr h

  pub install_from-home :
      (st : Store)
      → ((s : ℕ) → lg.start ≤ s → bread st s ≡ st.disk s)
      → Committed st.disk lg.start f n sec
      → n ≤ st.power
      → (s : ℕ) → s < lg.start
      → (install_from lg n 0 st).disk s ≡ f s
  install_from-home st clean c pow s h =
      install_from-all lg f n (low_of st c) n 0 st s (omega arith) (Holds_of st clean c) pow
        (side (c.home s h))
    where
      side : (st.disk s ≡ f s) ⊎ Home sec 0 n s → (st.disk s ≡ f s) ⊎ Home lg.lh.sector 0 n s
      side (inl d) = inl d
      side (inr q) = inr (Home-agree s q)

-- Clearing the log: with power left it settles what is installed.
pub write_head-Settled :
    (lg : Log) (st : Store) (f : ℕ → Block)
    → 0 < st.power
    → ((s : ℕ) → s < lg.start → st.disk s ≡ f s)
    → Settled (write_head (clear lg) st).disk lg.start f
unfolding write_head put_sectors
write_head-Settled lg st f pow home = record {
  empty = ap (λ (b : Block). b 0) (disk-bwrite_self st lg.start _ pow);
  home = λ s h. disk-bwrite_ne st lg.start _ s (λ q. absurd (omega arith)) ∙ home s h;
}

pub write_head-dead : (lg : Log) (st : Store) → st.power ≡ 0 → (write_head lg st).disk ≡ st.disk
unfolding write_head bwrite
write_head-dead lg st h = rw h

-- The `struct log` with the header that recovery has read.
abbrev loaded : Sys → Log
loaded s = record (s.log) { lh = read_head s.log s.store }

module _ (s : Sys) (f : ℕ → Block) (n : ℕ) (sec : ℕ → ℕ)
    (clean : (t : ℕ) → bread s.store t ≡ s.store.disk t)
    (c : Committed s.store.disk s.log.start f n sec) where
  read-count : (read_head s.log s.store).n ≡ n
  unfolding read_head
  read-count = ap (λ (b : Block). b 0) (clean s.log.start) ∙ c.count

  read-rounds : rounds (loaded s).lh.n ≡ n
  read-rounds = ground (arith, read-count, c.bounded)

  read-agree : (i : ℕ) → i < n → (read_head s.log s.store).sector i ≡ sec i
  unfolding read_head
  read-agree i h =
      let w : rounds (bread s.store s.log.start 0) ≡ n = unfold read_head in read-rounds in
      get_sectors-eq (rounds (bread s.store s.log.start 0)) (bread s.store s.log.start)
        s.log.lh.sector i (rw w h)
      ∙ ap (λ (b : Block). b (suc i)) (clean s.log.start)
      ∙ c.heads i h

  installed : (install_trans (loaded s) s.store) ≡ install_from (loaded s) n 0 s.store
  unfolding install_trans
  installed = ap (λ k. install_from (loaded s) k 0 s.store) read-rounds

  -- Recovery from a committed disk, cut off anywhere, leaves it committed or settled.
  pub recover-outcome :
      Committed (recover_from_log s).store.disk s.log.start f n sec
      ⊎ Settled (recover_from_log s).store.disk s.log.start f
  unfolding recover_from_log
  recover-outcome = rw installed (elim (ℕ_discrete st.power 0) [
    | yes z ↦ inl (
        rw (write_head-dead (clear (loaded s)) st z)
          (install_from-Committed (loaded s) f n sec read-agree s.store (λ t h. clean t) c))
    | no z ↦ inr (
        write_head-Settled (loaded s) st f (omega arith) (
          install_from-home (loaded s) f n sec read-agree s.store (λ t h. clean t) c
            (omega (arith, install_from-power (loaded s) n 0 s.store))))
  ])
    where
      st : Store
      st = install_from (loaded s) n 0 s.store

  -- With power for the log's blocks and the header it settles the disk.
  pub recover-Settled : n < s.store.power → Settled (recover_from_log s).store.disk s.log.start f
  unfolding recover_from_log
  recover-Settled pow = rw installed (
      write_head-Settled (loaded s) (install_from (loaded s) n 0 s.store) f
        (omega (arith, install_from-power (loaded s) n 0 s.store))
        (install_from-home (loaded s) f n sec read-agree s.store (λ t h. clean t) c (omega arith)))
