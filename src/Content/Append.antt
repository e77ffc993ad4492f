-- ===== src/Content/Append.antt =====
-- Two writes in a row as one.
use rain_os.Common.{
  ℕ, zero, suc, ◌+◌, ◌-◌, ◌*◌, ◌/◌, ◌≤◌, ◌<◌, ◌≡◌, inl, refl, sym, ◌∙◌, ap, arith, List, [], ◌∷◌,
  ◌++◌, length, length-append, get_or,
}
use native.Mathlib.Decide.{dec_lt}
use rain_os.Bitmap.{Blocks}
use rain_os.Bitmap.Alloc.{IsLaidOut}
use rain_os.Icache.{Dinode}
use rain_os.Content.{bsize, max_size}
use rain_os.Content.Map.{slot, slot_of, IsOwned}
use rain_os.Content.Read.{byte_at}
use rain_os.Content.Step.{IsWritten, slot_of-lt}

get_or-append :
    (xs ys : List ℕ) (j : ℕ)
    → (j < length xs → get_or (xs ++ ys) j 0 ≡ get_or xs j 0)
      × (length xs ≤ j → get_or (xs ++ ys) j 0 ≡ get_or ys (j - length xs) 0)
get_or-append [] ys j =
    (λ lt. absurd (omega arith), λ le. ap (λ (i : ℕ). get_or ys i 0) (omega arith))
get_or-append (x ∷ xs) ys zero = (λ lt. refl, λ le. absurd (omega arith))
get_or-append (x ∷ xs) ys (suc j) =
    let (a, b) = get_or-append xs ys j in
    let e : j - length xs ≡ suc j - suc (length xs) = omega arith in
    (λ lt. a (omega arith), λ le. b (omega arith) ∙ ap (λ (i : ℕ). get_or ys i 0) e)

-- A write and the write of what follows are the write of both.
pub IsWritten-append :
    (off : ℕ) (xs ys : List ℕ) (ip ip1 ip2 : Dinode) (d d1 d2 : Blocks)
    → 0 < length xs
    → off + length xs + length ys ≤ max_size
    → IsWritten off xs ip d ip1 d1
    → IsWritten (off + length xs) ys ip1 d1 ip2 d2
    → IsWritten off (xs ++ ys) ip d ip2 d2
IsWritten-append off xs ys ip ip1 ip2 d d1 d2 some_xs big g h =
    let len = length-append xs ys in
    record {
      owned = h.owned;
      laid = h.laid;
      super = h.super ∙ g.super;
      fields = h.fields ∙ ap (λ (j : Dinode). record j { addrs = ip2.addrs }) g.fields;
      old = λ k hk w. h.old k hk (λ q. w (sym (g.old k hk w) ∙ q)) ∙ g.old k hk w;
      mapped = λ n pos hn lo hi. elim (dec_lt (n * bsize) (off + length xs)) [
        | yes p ↦
            let w = g.mapped n some_xs hn lo p in
            λ q. w (sym (h.old (slot_of n) (slot_of-lt n hn) w) ∙ q)
        | no p ↦ h.mapped n (omega arith) hn (omega arith) (omega arith)
      ];
      bytes = λ j lt. elim (dec_lt j (length xs)) [
        | yes p ↦
            h.kept (off + j) (omega arith)
              (g.mapped ((off + j) / bsize) (omega arith) (omega arith) (omega arith) (omega arith))
              (inl (omega arith))
            ∙ g.bytes j p
            ∙ sym ((get_or-append xs ys j).0 p)
        | no p ↦
            let e : off + j ≡ off + length xs + (j - length xs) = omega arith in
            ap (byte_at ip2 d2) e
            ∙ h.bytes (j - length xs) (omega arith)
            ∙ sym ((get_or-append xs ys j).1 (omega arith))
      ];
      kept = λ o lt w far.
          let k = slot_of (o / bsize) in
          let there = g.old k (slot_of-lt (o / bsize) (omega arith)) w in
          h.kept o lt (λ q. w (sym there ∙ q)) (omega arith) ∙ g.kept o lt w (omega arith);
      foreign =
          λ x f. let (f1, e1) = g.foreign x f in let (f2, e2) = h.foreign x f1 in (f2, e2 ∙ e1);
    }

pub IsWritten-nil :
    (off : ℕ) (ip : Dinode) (d : Blocks)
    → IsOwned (slot ip d) d
    → IsLaidOut d
    → IsWritten off [] ip d ip d
IsWritten-nil off ip d o v = record {
  owned = o;
  laid = v;
  super = refl;
  fields = refl;
  old = λ k hk w. refl;
  mapped = λ n pos hn lo hi. absurd (omega arith);
  bytes = λ j lt. absurd (omega arith);
  kept = λ o' lt w far. refl;
  foreign = λ x f. (f, refl);
}
