-- ===== src/Links/Entries.antt =====
-- What changing an inode and adding an entry leave of the references and locks.
use rain_os.Common.{
  ℕ, ◌+◌, ◌<◌, ◌≡◌, refl, subst, ◌∙◌, arith, Bool, true, false, Option, none, some, ◌==◌,
}
use rain_os.String.{Memory}
use rain_os.Icache.{Dinode}
use rain_os.Directory.{Link, linked, impossible, endless_link, add_entry}
use rain_os.Directory.Fuel.{IsAdded, add_entry-IsAdded}
use rain_os.Path.{World, Step, Action, ◌>>◌, pure, put, lookup}
use rain_os.Path.Ensures.{Ensures, ensures_then, IsAt, IsAt-same, only, plus, minus, Leaves}
use rain_os.Path.Refs.{put_any, with_found, with_copy-IsAt, lookup_lem}
use rain_os.Links.{change, entered, add, dirlink}

-- A second postcondition of memory: what was the memory before.
same_mem :
    {A : Type 0} (r : A → ℕ → ℕ) (l : ℕ → Bool) (m m' : Memory) (x : Step A)
    → m' ≡ m
    → Ensures x (λ a w. Leaves (r a) l m' w)
    → Ensures x (λ a w. Leaves (r a) l m w)
same_mem {A} r l m m' x e h = subst (λ (k : Memory). Ensures x (λ a w. Leaves (r a) l k w)) e h

pub change_lem :
    (f : Dinode → Dinode) (i : ℕ) (r : ℕ → ℕ) (l : ℕ → Bool) (w : World)
    → IsAt r l w.cache
    → Ensures (change f i w) (λ _ w'. Leaves r l w.mem w')
unfolding change
change_lem f i r l w v = (with_copy-IsAt r l w.cache i (f (w.cache i).copy) v, refl)

pub minus-plus_any : (r : ℕ → ℕ) (j k : ℕ) → minus (plus r j) j k ≡ r k
minus-plus_any r j k = ground arith

held_twice : (r : ℕ → ℕ) (i j : ℕ) → 0 < r i → (j == i) ≡ true → 1 < plus r j j
held_twice r i j pos h = let q : j ≡ i = ground (arith, h) in rw q (ground arith)

module _ (has_read has_write : ℕ → Bool) (de elem inum i : ℕ) (r : ℕ → ℕ) (w : World) where
  add_lem :
      IsAt r (only i) w.cache
      → Ensures (add has_read has_write de elem inum i w) (λ _ w'. Leaves r (only i) w.mem w')
  unfolding add
  add_lem v =
      let dp = (w.cache i).copy in
      go (add_entry has_read has_write (dp.size + 1) (w.cache i).inum elem inum de dp w.disk w.mem)
        (add_entry-IsAdded has_read has_write (w.cache i).inum elem inum de dp w.disk w.mem) v
    where
      go :
          (x : Link)
          → IsAdded x
          → IsAt r (only i) w.cache
          → Ensures (entered i w x) (λ _ w'. Leaves r (only i) w.mem w')
      go (linked dp d) h v = (with_copy-IsAt r (only i) w.cache i dp v, refl)
      go impossible h v = tt
      go endless_link h v = h

-- `dirlink` gives back the reference to an entry that is already there.
pub dirlink_lem :
    (has_read has_write : ℕ → Bool) (de elem inum i : ℕ) (r : ℕ → ℕ) (w : World)
    → IsAt r (only i) w.cache
    → 0 < r i
    → Ensures (dirlink has_read has_write de elem inum i w) (λ _ w'. Leaves r (only i) w.mem w')
unfolding dirlink
dirlink_lem has_read has_write de elem inum i r w v pos =
    ensures_then (lookup has_read elem de i w) on
      (λ f w1. Leaves (with_found r f) (only i) w.mem w1) (λ _ w'. Leaves r (only i) w.mem w')
      (lookup_lem has_read elem de i r w v) finish
  where
    on : Option (ℕ × ℕ) → Action Bool
    on f = elim f [
      | none ↦ add has_read has_write de elem inum i
      | some (j, _) ↦ (do put j; pure false)
    ]

    finish :
        (f : Option (ℕ × ℕ)) (w1 : World)
        → Leaves (with_found r f) (only i) w.mem w1
        → Ensures (on f w1) (λ _ w'. Leaves r (only i) w.mem w')
    finish none w1 (v1, q) =
        same_mem (λ _. r) (only i) w.mem w1.mem (add has_read has_write de elem inum i w1) q
          (add_lem has_read has_write de elem inum i r w1 v1)
    finish (some (j, x)) w1 (v1, q) =
        ensures_then (put j w1) (λ _. pure false)
          (λ _ w2. Leaves (minus (plus r j) j) (only i) w1.mem w2)
          (λ _ w'. Leaves r (only i) w.mem w')
          (put_any (plus r j) w1 j (only i) v1 (λ h. held_twice r i j pos h))
          (λ _ w2 h.
            (IsAt-same (minus (plus r j) j) r (only i) w2.cache (minus-plus_any r j) h.0, h.1 ∙ q))
