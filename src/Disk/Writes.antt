-- ===== src/Disk/Writes.antt =====
-- How a write is seen by later reads, of the same sector and of others.
use rain_os.Common.{ℕ, ◌-◌, ◌<◌, ◌≡◌, ◌≢◌, refl, ap, ap₂, none, arith, ==_refl, ==_false}
use rain_os.Disk.{Block, Store, newest, bread, bwrite}

module _ (st : Store) (t : ℕ) (b : Block) where
  pub disk-bwrite_ne : (s : ℕ) → s ≢ t → (bwrite st t b).disk s ≡ st.disk s
  unfolding bwrite
  disk-bwrite_ne s h = ground (arith, ==_false s t h)

  pub dirty-bwrite_ne : (s : ℕ) → s ≢ t → (bwrite st t b).dirty s ≡ st.dirty s
  unfolding bwrite
  dirty-bwrite_ne s h = rw (==_false s t h)

  pub dirty-bwrite_self : (bwrite st t b).dirty t ≡ none
  unfolding bwrite
  dirty-bwrite_self = rw (==_refl t)

  pub dirty-bwrite-none : (s : ℕ) → st.dirty s ≡ none → (bwrite st t b).dirty s ≡ none
  unfolding bwrite
  dirty-bwrite-none s h = ground arith

  pub disk-bwrite_self : 0 < st.power → (bwrite st t b).disk t ≡ b
  unfolding bwrite
  disk-bwrite_self h = ground (arith, ==_refl t)

  pub disk-bwrite_dead : (s : ℕ) → st.power ≡ 0 → (bwrite st t b).disk s ≡ st.disk s
  unfolding bwrite
  disk-bwrite_dead s h = rw h

  pub power-bwrite : (bwrite st t b).power ≡ st.power - 1
  unfolding bwrite
  power-bwrite = refl

  pub bread-bwrite_ne : (s : ℕ) → s ≢ t → bread (bwrite st t b) s ≡ bread st s
  unfolding bread
  bread-bwrite_ne s h = ap₂ newest (dirty-bwrite_ne s h) (disk-bwrite_ne s h)

  pub bread-bwrite_self : 0 < st.power → bread (bwrite st t b) t ≡ b
  unfolding bread
  bread-bwrite_self h = ap₂ newest dirty-bwrite_self (disk-bwrite_self h)

pub bread-clean : (st : Store) (t : ℕ) → st.dirty t ≡ none → bread st t ≡ st.disk t
unfolding bread
bread-clean st t h = ap (λ o. newest o (st.disk t)) h
