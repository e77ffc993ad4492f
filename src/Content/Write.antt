-- ===== src/Content/Write.antt =====
-- `writei` writes the bytes that it is given, and nothing else of the file or of the disk.
use rain_os.Common.{
  ℕ, ◌+◌, ◌*◌, ◌/◌, ◌≤◌, ◌<◌, ◌≡◌, ◌⊎◌, inl, inr, refl, sym, ◌∙◌, ap, Bool, true, false, ◌&&◌, ◌||◌,
  arith, ◌==◌, ltb, ==_false, if◌then◌else◌, ok, Bool-cases, List, length, ◌++◌, length-append,
  get_or, word, add_word,
}
use native.Mathlib.Decide.{dec_lt}
use rain_os.Bitmap.{Blocks, Superblock, readsb, bblock}
use rain_os.Bitmap.Alloc.{last_meta}
use rain_os.Icache.{Dinode}
use rain_os.Inodes.{iupdate}
use rain_os.Content.{bsize, write_from, max_size, t_dev, Writei, broken, refused, written, writei}
use rain_os.Content.Map.{slots, slot, slot_of, IsOwned-same, IsLaidOut-same}
use rain_os.Content.Read.{byte_at, IsFile}
use rain_os.Content.Step.{IsForeign, IsWritten}
use rain_os.Content.Update.{iupdate-other, usage-iupdate, slot-iupdate, byte-iupdate}
use rain_os.Content.Full.{IsFullBut}
use rain_os.Content.Loop.{IsStopped, write_from-Ends}
use rain_os.Content.Map.{SameUsage, size-same}

-- The file after `writei` of `bs` at `off`, on the disk and in the cached inode.
pub record IsStored (off : ℕ) (bs : List ℕ) (ip : Dinode) (d : Blocks) (ip' : Dinode) (d' : Blocks)
    : Type 0 where
  pub file : IsFile ip' d'
  pub size : ip'.size ≡ (if ltb ip.size (off + length bs) then off + length bs else ip.size)
  pub bytes : (j : ℕ) → j < length bs → byte_at ip' d' (off + j) ≡ get_or bs j 0
  pub kept :
      (o : ℕ) → o < ip.size → (o < off) ⊎ (off + length bs ≤ o) → byte_at ip' d' o ≡ byte_at ip d o
  pub foreign : (x : ℕ) → IsForeign ip d x → d' x ≡ d x

-- The bytes of the loop's result, under an inode that differs in its size.
stored :
    (off : ℕ) (bs : List ℕ) (ip ip' : Dinode) (d d' : Blocks) (size : ℕ)
    → IsFile ip d
    → IsWritten off bs ip d ip' d'
    → off ≤ ip.size
    → off + length bs ≤ max_size
    → size ≡ (if ltb ip.size (off + length bs) then off + length bs else ip.size)
    → IsStored off bs ip d (record ip' { size = size }) d'
stored off bs ip ip' d d' size v w le fits e = record {
  file = record {
    regular = λ q. v.regular (sym (ap (λ (j : Dinode). j.kind) w.fields) ∙ q);
    owned = w.owned;
    laid = w.laid;
    bounded = ground (arith, v.bounded);
    whole = λ n lt. elim (dec_lt (n * bsize) ip.size) [
      | yes p ↦
          let hk = v.whole n p in
          λ q. hk (sym (w.old (slot_of n) (in_slots n (omega (arith, v.bounded))) hk) ∙ q)
      | no p ↦ w.mapped n (ground arith) (ground arith) (ground arith) (ground arith)
    ];
  };
  size = e;
  bytes = w.bytes;
  kept = λ o lt far. w.kept o (omega (arith, v.bounded)) (v.whole (o / bsize) (omega arith)) far;
  foreign = λ x f. (w.foreign x f).1;
}
  where
    in_slots : (n : ℕ) → n < 140 → slot_of n < slots
    in_slots n lt = ground arith

IsStored-iupdate :
    (inum off : ℕ) (bs : List ℕ) (ip ip' rec : Dinode) (d d' : Blocks)
    → inum < (readsb d').ninodes
    → last_meta d' ≡ last_meta d
    → off ≤ ip.size
    → IsStored off bs ip d ip' d'
    → IsStored off bs ip d ip' (iupdate inum rec d')
IsStored-iupdate inum off bs ip ip' rec d d' inside m le w =
    let d1 = iupdate inum rec d' in
    let u = usage-iupdate inum rec ip' d' inside in
    let same = byte-iupdate inum rec ip' d' inside w.file in
    let long : (o : ℕ) → (o < ip.size) ⊎ (o < off + length bs) → o < ip'.size =
      λ o lt. larger o (omega (arith, w.size)) lt in
    record {
      file = record {
        regular = w.file.regular;
        owned =
            IsOwned-same (slot ip' d') (slot ip' d1) d' d1 u
              (λ k hk. slot-iupdate inum rec ip' d' inside w.file.owned k) w.file.owned;
        laid = IsLaidOut-same d' d1 u w.file.laid;
        bounded = w.file.bounded;
        whole = λ n lt q.
            w.file.whole n lt
              (sym (slot-iupdate inum rec ip' d' inside w.file.owned (slot_of n)) ∙ q);
      };
      size = w.size;
      bytes = λ j lt. same (off + j) (long (off + j) (inr (omega arith))) ∙ w.bytes j lt;
      kept = λ o lt far. same o (long o (inl lt)) ∙ w.kept o lt far;
      foreign =
          λ x f. iupdate-other inum rec ip' d' inside x (omega (arith, f.lower)) ∙ w.foreign x f;
    }
  where
    larger :
        (o : ℕ)
        → ip'.size ≡ (if ltb ip.size (off + length bs) then off + length bs else ip.size)
        → (o < ip.size) ⊎ (o < off + length bs)
        → o < ip'.size
    larger o e h = ground arith

-- `writei` has no block for the byte after the first ones, `before`: a `writei` of these succeeds and
-- leaves a file without that block, and at most one free block on the disk.
pub record IsFull (has_write : ℕ → Bool) (inum : ℕ) (ip : Dinode) (off : ℕ) (bs : List ℕ)
    (d : Blocks) : Type 0 where
  pub before : List ℕ
  pub left : List ℕ
  pub split : bs ≡ before ++ left
  pub more : 0 < length left
  pub ip' : Dinode
  pub d' : Blocks
  pub run : writei has_write inum ip off before d ≡ written ip' d'
  pub missing : slot ip' d' (slot_of ((off + length before) / bsize)) ≡ 0
  pub full : (a : ℕ) × IsFullBut a d'

-- What a `writei` whose loop ends makes of the file that the loop leaves.
record IsSaved (off : ℕ) (bs : List ℕ) (ip : Dinode) (d : Blocks) (ip1 : Dinode) (d1 : Blocks)
    (r : Writei) : Type 0 where
  ip' : Dinode
  d' : Blocks
  run : r ≡ written ip' d'
  stored : IsStored off bs ip d ip' d'
  slots_same : (k : ℕ) → slot ip' d' k ≡ slot ip1 d1 k
  usage_same : SameUsage d1 d'

module _ (has_write : ℕ → Bool) (inum : ℕ) (ip : Dinode) (off : ℕ) (d : Blocks) (v : IsFile ip d)
    (inside : inum < (readsb d).ninodes) (ho : off < word) (le : off ≤ ip.size) where
  saved_lem :
      (bs : List ℕ) (ip1 : Dinode) (d1 : Blocks)
      → off + length bs ≤ max_size
      → write_from (length bs) bs off ip d ≡ ok (ip1, d1)
      → IsWritten off bs ip d ip1 d1
      → IsSaved off bs ip d ip1 d1 (writei has_write inum ip off bs d)
  unfolding writei
  saved_lem bs ip1 d1 fits p w =
      let file : (ip.kind == t_dev) ≡ false = ==_false ip.kind t_dev v.regular in
      let e : (ltb ip.size off || ltb (add_word off (length bs)) off) ≡ false = ground arith in
      let f : ltb max_size (add_word off (length bs)) ≡ false = ground arith in
      let size : ip1.size ≡ ip.size = ap (λ (j : Dinode). j.size) w.fields in
      let nin : (readsb d1).ninodes ≡ (readsb d).ninodes =
        ap (λ (s : Superblock). s.ninodes) w.super in
      let m : last_meta d1 ≡ last_meta d =
        ap (λ (s : Superblock). bblock s.size s.ninodes) w.super in
      elim (Bool-cases (ltb 0 (length bs) && ltb ip1.size (off + length bs))) [
        | inl t ↦
            let ip2 : Dinode = record ip1 { size = off + length bs } in
            record {
              ip' = ip2;
              d' = iupdate inum ip2 d1;
              run = rw (file, e, f, p, t);
              stored =
                  IsStored-iupdate inum off bs ip ip2 ip2 d d1 (omega arith) m le
                    (stored off bs ip ip1 d d1 (off + length bs) v w le fits (ground arith));
              slots_same = slot-iupdate inum ip2 ip1 d1 (omega arith) w.owned;
              usage_same = usage-iupdate inum ip2 ip1 d1 (omega arith);
            }
        | inr t ↦ record {
          ip' = ip1;
          d' = d1;
          run = rw (file, e, f, p, t);
          stored = stored off bs ip ip1 d d1 ip1.size v w le fits (ground arith);
          slots_same = λ k. refl;
          usage_same = record { super = refl; usages = λ c h. refl };
        }
      ]

  -- A stop of the loop.
  full_lem :
      (bs : List ℕ)
      → off + length bs ≤ max_size
      → IsStopped off bs ip d
      → IsFull has_write inum ip off bs d
  full_lem bs fits s =
      let short : length bs ≡ length s.before + length s.left =
        ap (length {0}) s.split ∙ length-append s.before s.left in
      let w =
        saved_lem s.before s.ip' s.d' (omega arith) (s.run (length s.before) (omega arith))
          s.kept in
      let z = size-same s.d' w.d' w.usage_same.super in
      let (a, full) = s.full in
      record {
        before = s.before;
        left = s.left;
        split = s.split;
        more = s.more;
        ip' = w.ip';
        d' = w.d';
        run = w.run;
        missing = w.slots_same (slot_of ((off + length s.before) / bsize)) ∙ s.missing;
        full = (a, λ c lt ne. w.usage_same.usages c (omega arith) ∙ full c (omega arith) ne);
      }

pub writei_lem :
    (has_write : ℕ → Bool) (inum : ℕ) (ip : Dinode) (off : ℕ) (bs : List ℕ) (d : Blocks)
    → IsFile ip d
    → inum < (readsb d).ninodes
    → off < word
    → length bs < word
    → (off ≤ ip.size
        → off + length bs ≤ max_size
        → ((ip' : Dinode) × (d' : Blocks) × (writei has_write inum ip off bs d ≡ written ip' d')
            × IsStored off bs ip d ip' d')
          ⊎ ((writei has_write inum ip off bs d ≡ broken) × IsFull has_write inum ip off bs d))
      × ((ip.size < off) ⊎ (max_size < off + length bs)
          → writei has_write inum ip off bs d ≡ refused)
unfolding writei
writei_lem has_write inum ip off bs d v inside ho hn =
    let file : (ip.kind == t_dev) ≡ false = ==_false ip.kind t_dev v.regular in
    (
      λ le fits.
          let e : (ltb ip.size off || ltb (add_word off (length bs)) off) ≡ false = ground arith in
          let f : ltb max_size (add_word off (length bs)) ≡ false = ground arith in
          elim (write_from-Ends (length bs) bs off ip d (omega arith) fits v.owned v.laid) [
            | inr (p, s) ↦
                inr (rw (file, e, f, p), full_lem has_write inum ip off d v inside ho le bs fits s)
            | inl (ip1, d1, p, w) ↦
                let r = saved_lem has_write inum ip off d v inside ho le bs ip1 d1 fits p w in
                inl (r.ip', r.d', r.run, r.stored)
          ],
      λ bad. elim (Bool-cases (ltb ip.size off || ltb (add_word off (length bs)) off)) [
        | inl e ↦ rw (file, e)
        | inr e ↦
            let f : ltb max_size (add_word off (length bs)) ≡ true = ground arith in rw (file, e, f)
      ],
    )
