-- ===== src/Links/Enter.antt =====
-- The end of `sys_link`: the locked directory and the file are given back, whether the entry is made
-- or not.
use rain_os.Common.{
  ℕ, ◌<◌, ◌≡◌, inl, inr, refl, sym, subst, ◌∙◌, Bool, true, false, Bool-cases, ◌==◌, if◌then◌else◌,
}
use rain_os.String.{Memory}
use rain_os.Path.{
  World, Step, done, sleeps, panics, endless, ◌>>=◌, ◌>>◌, pure, lock, put, unlock_put,
}
use rain_os.Path.Ensures.{Ensures, ensures_then, IsAt, IsAt-same, no_lock, only, minus, Leaves}
use rain_os.Path.Refs.{lock_lem, put_lem, unlock_put_lem}
use rain_os.Path.Loop.{IsOutside}
use rain_os.Links.Entries.{change_lem, dirlink_lem}
use rain_os.Links.{change, relink, down, undo_link, try_link, close_link, link_in}

-- A reference to slot `i` is given up, no inode is locked, and the memory is `m` outside of the name.
abbrev pub Ends : (r : ℕ → ℕ) (name : ℕ) (m : Memory) → Bool → World → Type 0
Ends r name m _ w = IsAt r no_lock w.cache × IsOutside name m w.mem

pub Ends-same :
    (r r' : ℕ → ℕ) (name : ℕ) (m : Memory) (x : Step Bool)
    → ((j : ℕ) → r j ≡ r' j)
    → Ensures x (Ends r name m)
    → Ensures x (Ends r' name m)
Ends-same r r' name m (done b w) e (v, o) = (IsAt-same r r' no_lock w.cache e v, o)
Ends-same r r' name m sleeps e h = h
Ends-same r r' name m panics e h = h
Ends-same r r' name m endless e h = h

pub after-same : (name : ℕ) (m m1 m2 : Memory) → m2 ≡ m1 → IsOutside name m m1 → IsOutside name m m2
after-same name m m1 m2 e o = subst (IsOutside name m) (sym e) o

module _ (has_read has_write : ℕ → Bool) (fuel sz esp cwd name de : ℕ) (m : Memory) where
  -- A locked inode is given up, and the call ends.
  pub leave_lem :
      (b : Bool) (ip : ℕ) (r : ℕ → ℕ) (w : World)
      → IsAt r (only ip) w.cache
      → 0 < r ip
      → IsOutside name m w.mem
      → Ensures ((unlock_put ip >> pure b) w) (Ends (minus r ip) name m)
  leave_lem b ip r w v pos o =
      ensures_then (unlock_put ip w) (λ _. pure b) (λ _ w1. Leaves (minus r ip) no_lock w.mem w1)
        (Ends (minus r ip) name m) (unlock_put_lem r w ip v pos)
        (λ _ w1 h. (h.0, after-same name m w.mem w1.mem h.1 o))

  pub undo_link_lem :
      (ip : ℕ) (r : ℕ → ℕ) (w : World)
      → IsAt r no_lock w.cache
      → 0 < r ip
      → IsOutside name m w.mem
      → Ensures
          (undo_link has_read has_write fuel sz esp cwd name de ip w)
          (Ends (minus r ip) name m)
  unfolding undo_link
  undo_link_lem ip r w v pos o =
      ensures_then (lock ip w) (λ _. change (relink down) ip >> (unlock_put ip >> pure false))
        (λ _ w1. Leaves r (only ip) w.mem w1) (Ends (minus r ip) name m) (lock_lem r w ip v pos)
        (λ _ w1 h1.
          ensures_then (change (relink down) ip w1) (λ _. unlock_put ip >> pure false)
            (λ _ w2. Leaves r (only ip) w1.mem w2) (Ends (minus r ip) name m)
            (change_lem (relink down) ip r (only ip) w1 h1.0)
            (λ _ w2 h2.
              leave_lem false ip r w2 h2.0 pos (after-same name m w.mem w2.mem (h2.1 ∙ h1.1) o)))

  try_link_lem :
      (ip dp : ℕ) (r : ℕ → ℕ) (w : World)
      → IsAt r (only dp) w.cache
      → 0 < r dp
      → Ensures
          (try_link has_read has_write fuel sz esp cwd name de ip dp w)
          (λ _ w1. Leaves r (only dp) w.mem w1)
  unfolding try_link
  try_link_lem ip dp r w v pos = elim (Bool-cases ((w.cache dp).dev == (w.cache ip).dev)) [
    | inr e ↦ rw (try_link, e) (v, refl)
    | inl e ↦
        rw (try_link, e) (dirlink_lem has_read has_write de name (w.cache ip).inum dp r w v pos)
  ]

  close_link_lem :
      (made : Bool) (ip dp : ℕ) (r : ℕ → ℕ) (w : World)
      → IsAt r (only dp) w.cache
      → 0 < r dp
      → 0 < minus r dp ip
      → IsOutside name m w.mem
      → Ensures
          (close_link has_read has_write fuel sz esp cwd name de ip dp made w)
          (Ends (minus (minus r dp) ip) name m)
  unfolding close_link
  close_link_lem made ip dp r w v pos left o =
      ensures_then (unlock_put dp w)
        (λ _.
          if made
          then put ip >> pure true
          else undo_link has_read has_write fuel sz esp cwd name de ip)
        (λ _ w1. Leaves (minus r dp) no_lock w.mem w1) (Ends (minus (minus r dp) ip) name m)
        (unlock_put_lem r w dp v pos)
        (λ _ w1 h. finish made w1 h.0 (after-same name m w.mem w1.mem h.1 o))
    where
      finish :
          (made : Bool) (w1 : World)
          → IsAt (minus r dp) no_lock w1.cache
          → IsOutside name m w1.mem
          → Ensures
              ((if made
                  then put ip >> pure true
                  else undo_link has_read has_write fuel sz esp cwd name de ip)
                w1)
              (Ends (minus (minus r dp) ip) name m)
      finish false w1 v1 o1 = undo_link_lem ip (minus r dp) w1 v1 left o1
      finish true w1 v1 o1 =
          ensures_then (put ip w1) (λ _. pure true)
            (λ _ w2. Leaves (minus (minus r dp) ip) no_lock w1.mem w2)
            (Ends (minus (minus r dp) ip) name m) (put_lem (minus r dp) w1 ip v1)
            (λ _ w2 h. (h.0, after-same name m w1.mem w2.mem h.1 o1))

  pub link_in_lem :
      (ip dp : ℕ) (r : ℕ → ℕ) (w : World)
      → IsAt r no_lock w.cache
      → 0 < r dp
      → 0 < minus r dp ip
      → IsOutside name m w.mem
      → Ensures
          (link_in has_read has_write fuel sz esp cwd name de ip dp w)
          (Ends (minus (minus r dp) ip) name m)
  unfolding link_in
  link_in_lem ip dp r w v pos left o =
      let try = try_link has_read has_write fuel sz esp cwd name de ip dp in
      let close = close_link has_read has_write fuel sz esp cwd name de ip dp in
      ensures_then (lock dp w) (λ _. try >>= close) (λ _ w1. Leaves r (only dp) w.mem w1)
        (Ends (minus (minus r dp) ip) name m) (lock_lem r w dp v pos)
        (λ _ w1 h1.
          ensures_then (try w1) close (λ _ w2. Leaves r (only dp) w1.mem w2)
            (Ends (minus (minus r dp) ip) name m) (try_link_lem ip dp r w1 h1.0 pos)
            (λ made w2 h2.
              close_link_lem made ip dp r w2 h2.0 pos left
                (after-same name m w.mem w2.mem (h2.1 ∙ h1.1) o)))
