-- ===== src/Path/Walk.antt =====
-- The walk along a path: it ends, and keeps a reference to the inode it returns and to no other.
use rain_os.Common.{
  ℕ, ◌+◌, ◌≤◌, ◌<◌, ◌≡◌, ◌⊎◌, inl, inr, refl, sym, subst, ap, Bool, false, Bool-cases,
}
use rain_os.String.{Memory}
use rain_os.Icache.{Icache}
use rain_os.Directory.{dirsiz, is_slash}
use rain_os.Path.{World, get, dup, walk, namex}
use rain_os.Path.Ensures.{Ensures, ensures_then, IsAt, no_lock, plus, Leaves}
use rain_os.Path.Refs.{get_lem, dup_lem}
use rain_os.Path.Loop.{Walked, walk_lem}

-- No inode is locked, and no copy is valid.
abbrev pub IsQuiet : Icache → Type 0
IsQuiet c = (j : ℕ) → ((c j).busy ≡ false) × ((c j).valid ≡ false)

pub IsQuiet-IsAt : (w : World) → IsQuiet w.cache → IsAt (λ j. (w.cache j).ref) no_lock w.cache
IsQuiet-IsAt w quiet = record {
  refs = λ j. refl;
  busy = λ j. (quiet j).0;
  valid = λ j. (quiet j).1;
  live = λ j h. absurd (cc);
}

-- `namex` from references `r`.
pub namex_at :
    (has_read : ℕ → Bool) (fuel : ℕ) (parent : Bool) (cwd path n name de : ℕ) (r : ℕ → ℕ)
    (w : World)
    → IsAt r no_lock w.cache
    → w.mem (path + n) ≡ 0
    → (path + n < name) ⊎ (name + dirsiz ≤ path)
    → n < fuel
    → Ensures (namex has_read fuel parent cwd path name de w) (Walked r name w.mem)
unfolding namex
namex_at has_read fuel parent cwd path n name de r w at z far lt =
    elim (Bool-cases (is_slash (w.mem path))) [
      | inl e ↦
          rw (namex, e)
            (ensures_then (get 1 1 w) (λ ip. walk has_read fuel fuel parent name de path ip)
              (λ ip w1. Leaves (plus r ip) no_lock w.mem w1) (Walked r name w.mem)
              (get_lem r no_lock w at 1 1) (λ ip w1 h. on ip w1 h))
      | inr e ↦
          rw (namex, e)
            (ensures_then (dup cwd w) (λ ip. walk has_read fuel fuel parent name de path ip)
              (λ ip w1. (ip ≡ cwd) × Leaves (plus r cwd) no_lock w.mem w1) (Walked r name w.mem)
              (dup_lem r no_lock w at cwd)
              (λ ip w1 h.
                on ip w1 (subst (λ (k : ℕ). Leaves (plus r k) no_lock w.mem w1) (sym (h.0)) (h.1))))
    ]
  where
    on :
        (ip : ℕ) (w1 : World)
        → Leaves (plus r ip) no_lock w.mem w1
        → Ensures (walk has_read fuel fuel parent name de path ip w1) (Walked r name w.mem)
    on ip w1 h =
        walk_lem has_read r name w.mem fuel fuel parent de path n ip w1 h.0
          (λ a o. ap (λ (m : Memory). m a) h.1) z far lt lt

-- `namex` with no inode locked, on a path that ends with a zero after `n` bytes and does not overlap
-- with the name's buffer. It neither sleeps nor loops for ever: more fuel than `n` is enough. Where it
-- does not panic, no inode is locked when it returns, the slot of the inode that it returns has one
-- reference more than before and every other slot as many as before; where it returns 0, all slots
-- have as many as before. Of the memory it changes only the name's buffer.
pub namex_lem :
    (has_read : ℕ → Bool) (fuel : ℕ) (parent : Bool) (cwd path n name de : ℕ) (w : World)
    → IsQuiet w.cache
    → w.mem (path + n) ≡ 0
    → (path + n < name) ⊎ (name + dirsiz ≤ path)
    → n < fuel
    → Ensures
        (namex has_read fuel parent cwd path name de w)
        (Walked (λ j. (w.cache j).ref) name w.mem)
namex_lem has_read fuel parent cwd path n name de w quiet z far lt =
    namex_at has_read fuel parent cwd path n name de (λ j. (w.cache j).ref) w (IsQuiet-IsAt w quiet)
      z far lt
