-- ===== src/Directory/Entries.antt =====
-- The search of a directory's entries.
use rain_os.Common.{
  ℕ, zero, suc, ◌+◌, ◌-◌, ◌*◌, ◌/◌, ◌%◌, ◌≤◌, ◌<◌, ◌≡◌, ◌⊎◌, inl, inr, refl, sym, ap, ◌∙◌, fun_ext,
  arith, Bool, true, false, Bool-cases, not, ◌&&◌, if◌then◌else◌, Option, none, some, List, length,
  ◌==◌, ltb, leb, add_word, short_at, find_index, min,
}
use rain_os.String.{Memory}
use rain_os.Bitmap.{Blocks}
use rain_os.Icache.{Dinode}
use rain_os.Content.{readi, slice, splice, done}
use rain_os.Content.Read.{byte_at, IsFile, readi_lem}
use rain_os.Content.Step.{splice_lem}
use rain_os.Directory.{Scan, hit, missed, find_entry, namecmp, dirent_size}

-- A second write of as many bytes at the same place hides the first.
splice_again :
    (o : ℕ) (xs ys : List ℕ) (m : Memory)
    → length xs ≡ length ys
    → splice o xs (splice o ys m) ≡ splice o xs m
splice_again o xs ys m e = fun_ext (λ a. at a)
  where
    inside : (j : ℕ) → j < length xs → splice o xs (splice o ys m) (o + j) ≡ splice o xs m (o + j)
    inside j lt = (splice_lem o xs (splice o ys m)).0 j lt ∙ sym ((splice_lem o xs m).0 j lt)

    outside :
        (a : ℕ) → (a < o) ⊎ (o + length xs ≤ a) → splice o xs (splice o ys m) a ≡ splice o xs m a
    outside a h =
        (splice_lem o xs (splice o ys m)).1 a h
        ∙ (splice_lem o ys m).1 a (ground (arith, h, e))
        ∙ sym ((splice_lem o xs m).1 a h)

    within : (a : ℕ) → o ≤ a → a < o + length xs → splice o xs (splice o ys m) a ≡ splice o xs m a
    within a lo hi =
        let q : o + (a - o) ≡ a = omega arith in
        ap (splice o xs (splice o ys m)) (sym q)
        ∙ inside (a - o) (omega arith)
        ∙ ap (splice o xs m) q

    at : (a : ℕ) → splice o xs (splice o ys m) a ≡ splice o xs m a
    at a = elim (Bool-cases (leb o a && ltb a (o + length xs))) [
      | inl t ↦ within a (ground (arith, t)) (ground (arith, t))
      | inr f ↦ outside a (ground (arith, f))
    ]

length-slice : (n o : ℕ) (f : ℕ → ℕ) → length (slice n o f) ≡ n
unfolding slice
length-slice zero o f = refl
length-slice (suc n) o f = ap suc (length-slice n (o + 1) f)

-- The memory once the directory's entry `i` is in the buffer at `de`.
unfoldable pub loaded : (de : ℕ) → Dinode → Blocks → Memory → ℕ → Memory
loaded de dp d m i = splice de (slice dirent_size (dirent_size * i) (byte_at dp d)) m

-- Entry `i` is in use and has the name, if `l` is the memory with each entry loaded.
unfoldable pub is_named : (name de : ℕ) (l : ℕ → Memory) → ℕ → Bool
is_named name de l i = not (short_at (l i) de == 0) && namecmp name (de + 2) (l i) == 0

-- What the search returns for the index of the first such entry.
pub scanned : (de : ℕ) → Dinode → Blocks → (l : ℕ → Memory) → Option ℕ → Scan
scanned de dp d l none = missed dp d
scanned de dp d l (some i) = hit (short_at (l i) de) (dirent_size * i) dp d

loaded_again :
    (de : ℕ) (dp : Dinode) (d : Blocks) (m : Memory) (i : ℕ)
    → loaded de dp d (loaded de dp d m i) ≡ loaded de dp d m
unfolding loaded
loaded_again de dp d m i = fun_ext (λ j.
    splice_again de (slice dirent_size (dirent_size * j) (byte_at dp d))
      (slice dirent_size (dirent_size * i) (byte_at dp d)) m
      (length-slice dirent_size (dirent_size * j) (byte_at dp d)
        ∙ sym (length-slice dirent_size (dirent_size * i) (byte_at dp d))))

module _ (has_read : ℕ → Bool) (name de : ℕ) (dp : Dinode) (d : Blocks) (v : IsFile dp d) where
  read_entry :
      (i : ℕ)
      → dirent_size * (i + 1) ≤ dp.size
      → readi has_read dp (dirent_size * i) dirent_size d
        ≡ done (slice dirent_size (dirent_size * i) (byte_at dp d)) dp d
  read_entry i le =
      let b = v.bounded in
      let n : min dirent_size (dp.size - dirent_size * i) ≡ dirent_size = omega arith in
      (readi_lem has_read dp (dirent_size * i) dirent_size d v (omega (arith, b)) (omega arith)).0
        (omega arith) (omega (arith, b))
      ∙ ap (λ (x : ℕ). done (slice x (dirent_size * i) (byte_at dp d)) dp d) n

  end_of_entries :
      (fuel off : ℕ) (m : Memory)
      → dp.size ≤ off
      → find_entry has_read (suc fuel) name de off dp d m ≡ missed dp d
  unfolding find_entry
  end_of_entries fuel off m le = let e : leb dp.size off ≡ true = ground arith in rw e refl

  next_entry :
      (fuel i : ℕ) (m : Memory)
      → dirent_size * (i + 1) ≤ dp.size
      → find_entry has_read (suc fuel) name de (dirent_size * i) dp d m ≡ (
          if is_named name de (loaded de dp d m) i
          then scanned de dp d (loaded de dp d m) (some i)
          else find_entry has_read fuel name de (dirent_size * (i + 1)) dp d (loaded de dp d m i))
  unfolding find_entry is_named scanned loaded slice
  next_entry fuel i m le =
      let e : leb dp.size (dirent_size * i) ≡ false = ground arith in
      let b = v.bounded in
      let q : add_word (dirent_size * i) dirent_size ≡ dirent_size * (i + 1) = omega (arith, b) in
      let bs = slice dirent_size (dirent_size * i) (byte_at dp d) in
      rw (e, read_entry i le, q)
        (elim (Bool-cases (short_at (splice de bs m) de == 0)) [
          | inl t ↦ rw t refl
          | inr t ↦ elim (Bool-cases (namecmp name (de + 2) (splice de bs m) == 0)) [
            | inl u ↦ rw (t, u) refl
            | inr u ↦ rw (t, u) refl
          ]
        ])

  scan_from :
      (k fuel i : ℕ) (m : Memory)
      → dirent_size * (i + k) ≡ dp.size
      → k < fuel
      → find_entry has_read fuel name de (dirent_size * i) dp d m
        ≡ scanned de dp d (loaded de dp d m) (find_index (is_named name de (loaded de dp d m)) k i)
  unfolding find_index scanned
  scan_from k zero i m e lt = absurd (omega arith)
  scan_from zero (suc fuel) i m e lt = end_of_entries fuel (dirent_size * i) m (omega arith)
  scan_from (suc k) (suc fuel) i m e lt =
      next_entry fuel i m (omega arith)
      ∙ elim (Bool-cases (is_named name de (loaded de dp d m) i)) [
        | inl t ↦ rw t refl
        | inr t ↦ rw t (
            scan_from k fuel (i + 1) (loaded de dp d m i) (omega arith) (omega arith)
            ∙ ap (λ (l : ℕ → Memory). scanned de dp d l (find_index (is_named name de l) k (i + 1)))
                (loaded_again de dp d m i))
      ]

-- The search of `dirlookup`, in a directory of whole entries, finds the first entry that is in use
-- and whose name `namecmp` takes for the one asked for, and returns its inode number and its offset;
-- without such an entry it returns that there is none. It never panics, it changes neither the
-- directory nor the disk, and more rounds than there are entries are enough.
pub find_entry_lem :
    (has_read : ℕ → Bool) (fuel name de : ℕ) (dp : Dinode) (d : Blocks) (m : Memory)
    → IsFile dp d
    → dp.size % dirent_size ≡ 0
    → dp.size / dirent_size < fuel
    → find_entry has_read fuel name de 0 dp d m
      ≡ scanned de dp d
          (loaded de dp d m)
          (find_index (is_named name de (loaded de dp d m)) (dp.size / dirent_size) 0)
find_entry_lem has_read fuel name de dp d m v al lt =
    scan_from has_read name de dp d v (dp.size / dirent_size) fuel 0 m (omega arith) lt
