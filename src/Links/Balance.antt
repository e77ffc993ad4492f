-- ===== src/Links/Balance.antt =====
-- The references and locks that `sys_link` takes on its way are all given back.
use rain_os.Common.{
  ℕ, ◌+◌, ◌≤◌, ◌<◌, ◌≡◌, inl, inr, refl, ap, ◌∙◌, arith, Bool, true, false, Bool-cases, Option,
  none, some, Option-cases,
}
use rain_os.String.{Memory}
use rain_os.Syscall.{User, argstr}
use rain_os.Syscall.Args.{IsString, argstr_lem}
use rain_os.Directory.{t_dir}
use rain_os.Path.{World, Action, ◌>>◌, pure, lock, unlock, namei, nameiparent}
use rain_os.Path.Ensures.{Ensures, ensures_then, IsAt, no_lock, only, plus, minus, Leaves}
use rain_os.Path.Refs.{lock_lem, unlock_lem}
use rain_os.Path.Loop.{IsOutside, Walked}
use rain_os.Path.Walk.{namex_at, IsQuiet, IsQuiet-IsAt}
use rain_os.Links.Entries.{change_lem, minus-plus_any}
use rain_os.Links.{
  change, relink, up, has_kind, undo_link, link_in, enter_new, link_file, link_to, link_paths,
  with_path, sys_link,
}
use rain_os.Links.Enter.{Ends, Ends-same, after-same, leave_lem, undo_link_lem, link_in_lem}

swapped : (r : ℕ → ℕ) (i k j : ℕ) → minus (minus (plus r k) k) i j ≡ minus r i j
swapped r i k j = ground arith

module _ (has_read has_write : ℕ → Bool) (fuel sz esp cwd name de : ℕ) (m : Memory) where
  enter_new_lem :
      (new n ip : ℕ) (r : ℕ → ℕ) (w : World)
      → IsAt r no_lock w.cache
      → 0 < r ip
      → IsOutside name m w.mem
      → m (new + n) ≡ 0
      → new + n < name
      → n < fuel
      → Ensures
          (enter_new has_read has_write fuel sz esp cwd name de new ip w)
          (Ends (minus r ip) name m)
  unfolding enter_new nameiparent
  enter_new_lem new n ip r w v pos o z far lt =
      ensures_then (nameiparent has_read fuel cwd new name de w) on (Walked r name w.mem)
        (Ends (minus r ip) name m)
        (namex_at has_read fuel true cwd new n name de r w v (o (new + n) (inl far) ∙ z) (inl far)
          lt)
        finish
    where
      on : Option ℕ → Action Bool
      on f = elim f [
        | none ↦ undo_link has_read has_write fuel sz esp cwd name de ip
        | some dp ↦ link_in has_read has_write fuel sz esp cwd name de ip dp
      ]

      finish :
          (f : Option ℕ) (w1 : World)
          → Walked r name w.mem f w1
          → Ensures (on f w1) (Ends (minus r ip) name m)
      finish none w1 (v1, o1) =
          undo_link_lem has_read has_write fuel sz esp cwd name de m ip r w1 v1 pos
            (λ a h. o1 a h ∙ o a h)
      finish (some dp) w1 (v1, o1) =
          Ends-same (minus (minus (plus r dp) dp) ip) (minus r ip) name m
            (link_in has_read has_write fuel sz esp cwd name de ip dp w1) (swapped r ip dp)
            (link_in_lem has_read has_write fuel sz esp cwd name de m ip dp (plus r dp) w1 v1
              (ground arith) (ground arith) (λ a h. o1 a h ∙ o a h))

  link_to_lem :
      (new n ip : ℕ) (r : ℕ → ℕ) (w : World)
      → IsAt r no_lock w.cache
      → 0 < r ip
      → IsOutside name m w.mem
      → m (new + n) ≡ 0
      → new + n < name
      → n < fuel
      → Ensures
          (link_to has_read has_write fuel sz esp cwd name de new ip w)
          (Ends (minus r ip) name m)
  unfolding link_to link_file
  link_to_lem new n ip r w v pos o z far lt =
      let file = link_file has_read has_write fuel sz esp cwd name de new ip in
      let enter = enter_new has_read has_write fuel sz esp cwd name de new ip in
      ensures_then (lock ip w) (λ _. file) (λ _ w1. Leaves r (only ip) w.mem w1)
        (Ends (minus r ip) name m) (lock_lem r w ip v pos)
        (λ _ w1 h1.
          let o1 = after-same name m w.mem w1.mem h1.1 o in
          elim (Bool-cases (has_kind t_dir ip w1)) [
            | inl e ↦
                rw (link_file, e)
                  (leave_lem has_read has_write fuel sz esp cwd name de m false ip r w1 h1.0 pos o1)
            | inr e ↦
                rw (link_file, e)
                  (ensures_then (change (relink up) ip w1) (λ _. unlock ip >> enter)
                    (λ _ w2. Leaves r (only ip) w1.mem w2) (Ends (minus r ip) name m)
                    (change_lem (relink up) ip r (only ip) w1 h1.0)
                    (λ _ w2 h2.
                      ensures_then (unlock ip w2) (λ _. enter) (λ _ w3. Leaves r no_lock w2.mem w3)
                        (Ends (minus r ip) name m) (unlock_lem r w2 ip h2.0 pos)
                        (λ _ w3 h3.
                          enter_new_lem new n ip r w3 h3.0 pos
                            (after-same name m w1.mem w3.mem (h3.1 ∙ h2.1) o1) z far lt)))
          ])

  link_paths_lem :
      (old k new n : ℕ) (r : ℕ → ℕ) (w : World)
      → IsAt r no_lock w.cache
      → w.mem ≡ m
      → (m (old + k) ≡ 0) × (m (new + n) ≡ 0)
      → (old + k < name) × (new + n < name)
      → (k < fuel) × (n < fuel)
      → Ensures (link_paths has_read has_write fuel sz esp cwd name de old new w) (Ends r name m)
  unfolding link_paths namei
  link_paths_lem old k new n r w v q z far lt =
      ensures_then (namei has_read fuel cwd old name de w) on (Walked r name w.mem) (Ends r name m)
        (namex_at has_read fuel false cwd old k name de r w v
          (ap (λ (x : Memory). x (old + k)) q ∙ z.0) (inl (far.0)) (lt.0))
        finish
    where
      on : Option ℕ → Action Bool
      on f = elim f [
        | none ↦ pure false
        | some ip ↦ link_to has_read has_write fuel sz esp cwd name de new ip
      ]

      finish :
          (f : Option ℕ) (w1 : World) → Walked r name w.mem f w1 → Ensures (on f w1) (Ends r name m)
      finish none w1 (v1, o1) = (v1, λ a h. o1 a h ∙ ap (λ (x : Memory). x a) q)
      finish (some ip) w1 (v1, o1) =
          Ends-same (minus (plus r ip) ip) r name m
            (link_to has_read has_write fuel sz esp cwd name de new ip w1) (minus-plus_any r ip)
            (link_to_lem new n ip (plus r ip) w1 v1 (ground arith)
              (λ a h. o1 a h ∙ ap (λ (x : Memory). x a) q) (z.1) (far.1) (lt.1))

  -- A call that needs a path: without it the call ends at once.
  with_path_lem :
      (n : ℕ) (k : ℕ → Action Bool) (w : World) (P : Bool → World → Type 0)
      → P false w
      → ((path len : ℕ)
          → IsString (record { sz = sz; esp = esp; mem = w.mem }) path len
          → Ensures (k path w) P)
      → Ensures (with_path has_read has_write fuel sz esp cwd name de n k w) P
  with_path_lem n k w P stop go =
      let u : User = record { sz = sz; esp = esp; mem = w.mem } in
      elim (Option-cases (argstr u n)) [
        | inl e ↦ rw (Ensures, e) stop
        | inr ((path, len), e) ↦ rw (Ensures, e) (go path len (argstr_lem u n path len e))
      ]

-- `sys_link` with no inode locked, by a process whose memory lies below the kernel's buffer for the
-- name. It neither sleeps nor loops for ever: as much fuel as the process has memory is enough. Where
-- it does not panic, whether it returns 0 or -1, no inode is locked and every slot of the cache has
-- as many references as before, and of the memory it has changed only the name's buffer.
pub sys_link_lem :
    (has_read has_write : ℕ → Bool) (fuel sz esp cwd name de : ℕ) (w : World)
    → IsQuiet w.cache
    → sz ≤ name
    → sz ≤ fuel
    → Ensures
        (sys_link has_read has_write fuel sz esp cwd name de w)
        (Ends (λ j. (w.cache j).ref) name w.mem)
unfolding sys_link
sys_link_lem has_read has_write fuel sz esp cwd name de w quiet below enough =
    let P = Ends (λ j. (w.cache j).ref) name w.mem in
    let paths = link_paths has_read has_write fuel sz esp cwd name de in
    let at = IsQuiet-IsAt w quiet in
    let with_new =
      λ (old : ℕ). with_path has_read has_write fuel sz esp cwd name de 1 (paths old) in
    with_path_lem has_read has_write fuel sz esp cwd name de w.mem 0 with_new w P (at, λ a h. refl)
      (λ old k so.
        with_path_lem has_read has_write fuel sz esp cwd name de w.mem 1 (paths old) w P
          (at, λ a h. refl)
          (λ new n sn.
            link_paths_lem has_read has_write fuel sz esp cwd name de w.mem old k new n
              (λ j. (w.cache j).ref) w at refl (so.end, sn.end)
              (omega (arith, so.within), omega (arith, sn.within))
              (omega (arith, so.within), omega (arith, sn.within))))
