-- ===== src/Content/RoundTrip.antt =====
-- What is written is what is read.
use rain_os.Common.{
  ℕ, suc, ◌+◌, ◌-◌, ◌≤◌, ◌<◌, ◌≡◌, ◌⊎◌, inl, inr, refl, ◌∙◌, ap, ap₂, arith, Bool, List, [], ◌∷◌,
  length, get_or, min,
}
use rain_os.Bitmap.{Blocks, readsb}
use rain_os.Icache.{Dinode}
use rain_os.Content.{max_size, slice, done, readi, written, broken, writei}
use rain_os.Content.Read.{byte_at, IsFile, readi_lem}
use rain_os.Content.Write.{writei_lem}

slice-bytes :
    (bs : List ℕ) (o : ℕ) (f : ℕ → ℕ)
    → ((j : ℕ) → j < length bs → f (o + j) ≡ get_or bs j 0)
    → slice (length bs) o f ≡ bs
unfolding slice
slice-bytes [] o f h = refl
slice-bytes (x ∷ bs) o f h =
    ap₂ (λ (y : ℕ) (ys : List ℕ). y ∷ ys) (ap f (omega arith) ∙ h 0 (omega arith))
      (slice-bytes bs (o + 1) f (λ j lt. ap f (omega arith) ∙ h (suc j) (omega arith)))

-- Where `writei` of `bs` succeeds, `readi` of as many bytes from the same offset then returns `bs`.
pub readi-writei :
    (has_read has_write : ℕ → Bool) (inum : ℕ) (ip : Dinode) (off : ℕ) (bs : List ℕ) (d : Blocks)
    → IsFile ip d
    → inum < (readsb d).ninodes
    → off ≤ ip.size
    → off + length bs ≤ max_size
    → ((ip' : Dinode) × (d' : Blocks) × (writei has_write inum ip off bs d ≡ written ip' d')
        × (readi has_read ip' off (length bs) d' ≡ done bs ip' d'))
      ⊎ (writei has_write inum ip off bs d ≡ broken)
readi-writei has_read has_write inum ip off bs d v inside le fits =
    elim ((writei_lem has_write inum ip off bs d v inside (omega (arith, v.bounded))
        (omega arith)).0
      le fits) [
        | inr (p, full) ↦ inr p
        | inl (ip', d', p, w) ↦
            let size : (off ≤ ip'.size) × (off + length bs ≤ ip'.size) = ground (arith, w.size) in
            let n : min (length bs) (ip'.size - off) ≡ length bs = omega arith in
            inl (
              ip',
              d',
              p,
              (readi_lem has_read ip' off (length bs) d' w.file (omega arith) (omega arith)).0
                    (size.0) (omega arith)
                  ∙ ap (λ (x : ℕ). done (slice x off (byte_at ip' d')) ip' d') n
                  ∙ ap (λ (xs : List ℕ). done xs ip' d')
                      (slice-bytes bs off (byte_at ip' d') w.bytes),
            )
      ]
