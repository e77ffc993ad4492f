-- ===== src/Bio/Tests.antt =====
-- A ring of two buffers, of which 0 holds sector 7 of device 1 and is the most recently used.
use rain_os.Common.{
  ℕ, ◌-◌, ◌≡◌, ◌≢◌, ◌⊎◌, refl, true, false, arith, ◌==◌, if◌then◌else◌, [], ◌∷◌, none, ok, panic,
  word,
}
use rain_os.Bio.{Bcache, head, holds, is_idle, taken, asleep, no_buffers, bget, brelse, binit}
use rain_os.Bio.Ring.{IsRing}
use rain_os.Bio.Release.{brelse_lem}
use rain_os.Bio.Search.{In, find_last}
use rain_os.Bio.Get.{IsCache, IsTaken, bget_lem}

abbrev cache : Bcache
cache = record {
  buf = λ i. record {
    dev = if i == 0 then 1 else word - 1;
    sector = 7;
    busy = i == 1;
    valid = true;
    dirty = false;
    bytes = λ k. 0;
  };
  next = λ i. if i == head then 0 else if i == 0 then 1 else head;
  prev = λ i. if i == head then 1 else if i == 0 then head else 0;
}

cache-IsRing : IsRing cache (0 ∷ 1 ∷ [])
cache-IsRing = record {
  linked = (refl, refl, (refl, refl, (refl, refl)));
  distinct = ((λ q. absurd (omega arith), tt), (tt, tt));
  buffers = (omega arith, (omega arith, tt));
}

cache-IsCache : IsCache cache (0 ∷ 1 ∷ [])
unfolding In
cache-IsCache = record { ring = cache-IsRing; once = λ i j hi hj nd e f. same i j hi hj nd e }
  where
    same :
        (i j : ℕ)
        → In i (0 ∷ 1 ∷ [])
        → In j (0 ∷ 1 ∷ [])
        → (cache.buf i).dev ≢ word - 1
        → (cache.buf i).dev ≡ (cache.buf j).dev
        → i ≡ j
    same i j hi hj nd e = ground arith

bget_lem_example :
    ((b : ℕ) × (c' : Bcache) × (bget 3 1 9 cache ≡ taken b c')
      × IsCache c' (0 ∷ 1 ∷ [])
      × IsTaken 1 9 cache (0 ∷ 1 ∷ []) b c')
    ⊎ (((b : ℕ) × (bget 3 1 9 cache ≡ asleep b)
          × In b (0 ∷ 1 ∷ [])
          × (holds 1 9 cache b ≡ true)
          × ((cache.buf b).busy ≡ true))
        ⊎ ((bget 3 1 9 cache ≡ no_buffers)
            × ((i : ℕ) → In i (0 ∷ 1 ∷ []) → holds 1 9 cache i ≡ false)
            × (find_last (is_idle cache) (0 ∷ 1 ∷ []) ≡ none)))
bget_lem_example = bget_lem 3 1 9 cache (0 ∷ 1 ∷ []) cache-IsCache (omega arith)

brelse_lem_example :
    ((cache.buf 1).busy ≡ false → brelse 1 cache ≡ panic)
    × ((cache.buf 1).busy ≡ true
        → (c' : Bcache) × (brelse 1 cache ≡ ok (1, c'))
          × IsRing c' (1 ∷ 0 ∷ [])
          × (c'.buf 1 ≡ record (cache.buf 1) { busy = false })
          × ((i : ℕ) → i ≢ 1 → c'.buf i ≡ cache.buf i))
brelse_lem_example = brelse_lem cache 1 (0 ∷ []) [] cache-IsRing

-- After `binit` the last buffer comes first.
binit-first : (binit cache).next head ≡ 29
unfolding binit
binit-first = refl
