-- ===== src/Bitmap/Bits.antt =====
-- The bitmap as a set of block numbers.
use rain_os.Common.{
  ℕ, ◌+◌, ◌-◌, ◌/◌, ◌%◌, ◌^◌, ◌<◌, ◌≡◌, ◌≢◌, sym, ◌∙◌, ap, arith, update, update_self, update_ne,
  int_at, bit, bit-add_self, bit-add_ne, bit-sub_self, bit-sub_ne,
}
use native.Mathlib.Decide.{ℕ_discrete}
use rain_os.Bitmap.{
  Blocks, bpb, Superblock, readsb, bblock, bzero, test_bit, set_bit, clear_bit, mark,
}

-- 1 for a block in use, 0 for a free one.
abbrev pub usage : Blocks → ℕ → ℕ
usage d c = test_bit (d (bblock c (readsb d).ninodes)) (c % bpb)

pub test-set_self : (b : ℕ → ℕ) (i : ℕ) → test_bit b i ≡ 0 → test_bit (set_bit b i) i ≡ 1
unfolding set_bit
test-set_self b i h =
    ap (λ (x : ℕ). bit x (i % 8)) (update_self b (i / 8) (b (i / 8) + 2 ^ (i % 8)))
    ∙ bit-add_self (b (i / 8)) (i % 8) h

pub test-set_ne :
    (b : ℕ → ℕ) (i j : ℕ) → test_bit b i ≡ 0 → j ≢ i → test_bit (set_bit b i) j ≡ test_bit b j
unfolding set_bit
test-set_ne b i j h ne = elim (ℕ_discrete (j / 8) (i / 8)) [
  | yes q ↦ rw q (
      ap (λ (x : ℕ). bit x (j % 8)) (update_self b (i / 8) (b (i / 8) + 2 ^ (i % 8)))
      ∙ bit-add_ne (b (i / 8)) (i % 8) (j % 8) h (λ r. ne (omega arith)))
  | no q ↦ ap (λ (x : ℕ). bit x (j % 8)) (update_ne b (i / 8) (j / 8) (b (i / 8) + 2 ^ (i % 8)) q)
]

pub test-clear_self : (b : ℕ → ℕ) (i : ℕ) → test_bit b i ≡ 1 → test_bit (clear_bit b i) i ≡ 0
unfolding clear_bit
test-clear_self b i h =
    ap (λ (x : ℕ). bit x (i % 8)) (update_self b (i / 8) (b (i / 8) - 2 ^ (i % 8)))
    ∙ bit-sub_self (b (i / 8)) (i % 8) h

pub test-clear_ne :
    (b : ℕ → ℕ) (i j : ℕ) → test_bit b i ≡ 1 → j ≢ i → test_bit (clear_bit b i) j ≡ test_bit b j
unfolding clear_bit
test-clear_ne b i j h ne = elim (ℕ_discrete (j / 8) (i / 8)) [
  | yes q ↦ rw q (
      ap (λ (x : ℕ). bit x (j % 8)) (update_self b (i / 8) (b (i / 8) - 2 ^ (i % 8)))
      ∙ bit-sub_ne (b (i / 8)) (i % 8) (j % 8) h (λ r. ne (omega arith)))
  | no q ↦ ap (λ (x : ℕ). bit x (j % 8)) (update_ne b (i / 8) (j / 8) (b (i / 8) - 2 ^ (i % 8)) q)
]

-- The superblock is in block 1.
pub readsb-update :
    (x : ℕ) (bytes : ℕ → ℕ) (d : Blocks) → 1 < x → readsb (update d x bytes) ≡ readsb d
unfolding readsb
readsb-update x bytes d lt =
    ap
      (λ (b : ℕ → ℕ). record {
        size = int_at b 0;
        nblocks = int_at b 4;
        ninodes = int_at b 8;
        nlog = int_at b 12;
      })
      (update_ne d x 1 bytes (λ q. absurd (omega arith)))

pub readsb-mark :
    (bytes : ℕ → ℕ) (c n : ℕ) (d : Blocks) → readsb (mark bytes (bblock c n) d) ≡ readsb d
readsb-mark bytes c n d = readsb-update (bblock c n) bytes d (omega arith)

pub readsb-bzero : (a : ℕ) (d : Blocks) → 1 < a → readsb (bzero a d) ≡ readsb d
unfolding bzero
readsb-bzero a d lt = readsb-update a (λ i. 0) d lt

module _ (bytes : ℕ → ℕ) (a : ℕ) (d : Blocks) where
  abbrev marked : Blocks
  marked = mark bytes (bblock a (readsb d).ninodes) d

  inodes_marked : (readsb marked).ninodes ≡ (readsb d).ninodes
  inodes_marked = ap (λ (s : Superblock). s.ninodes) (readsb-mark bytes a (readsb d).ninodes d)

  pub usage-mark_self : usage marked a ≡ test_bit bytes (a % bpb)
  usage-mark_self =
      ap (λ (n : ℕ). test_bit (marked (bblock a n)) (a % bpb)) inodes_marked
      ∙ ap (λ (b : ℕ → ℕ). test_bit b (a % bpb)) (update_self d (bblock a (readsb d).ninodes) bytes)

  pub usage-mark_ne :
      ((j : ℕ) → j ≢ a % bpb → test_bit bytes j ≡ test_bit (d (bblock a (readsb d).ninodes)) j)
      → (c : ℕ) → c ≢ a
      → usage marked c ≡ usage d c
  usage-mark_ne same c ne =
      ap (λ (n : ℕ). test_bit (marked (bblock c n)) (c % bpb)) inodes_marked
      ∙ elim (ℕ_discrete (c / bpb) (a / bpb)) [
        | yes q ↦
            let e : bblock c (readsb d).ninodes ≡ bblock a (readsb d).ninodes = omega arith in
            ap (λ (x : ℕ). test_bit (marked x) (c % bpb)) e
            ∙ ap (λ (b : ℕ → ℕ). test_bit b (c % bpb))
                (update_self d (bblock a (readsb d).ninodes) bytes)
            ∙ same (c % bpb) (λ r. ne (omega arith))
            ∙ ap (λ (x : ℕ). test_bit (d x) (c % bpb)) (sym e)
        | no q ↦
            ap (λ (b : ℕ → ℕ). test_bit b (c % bpb))
              (update_ne d (bblock a (readsb d).ninodes) (bblock c (readsb d).ninodes) bytes
                (λ r. q (omega arith)))
      ]

-- A change of another block than the bit's and the superblock.
pub usage-update_ne :
    (x c : ℕ) (bytes : ℕ → ℕ) (d : Blocks)
    → 1 < x
    → bblock c (readsb d).ninodes ≢ x
    → usage (update d x bytes) c ≡ usage d c
usage-update_ne x c bytes d lt ne =
    ap (λ (s : Superblock). test_bit (update d x bytes (bblock c s.ninodes)) (c % bpb))
      (readsb-update x bytes d lt)
    ∙ ap (λ (b : ℕ → ℕ). test_bit b (c % bpb))
        (update_ne d x (bblock c (readsb d).ninodes) bytes ne)

pub usage-update :
    (x c : ℕ) (bytes : ℕ → ℕ) (d : Blocks)
    → bblock c (readsb d).ninodes < x
    → usage (update d x bytes) c ≡ usage d c
usage-update x c bytes d lt = usage-update_ne x c bytes d (omega arith) (λ q. absurd (omega arith))

pub usage-bzero :
    (a c : ℕ) (d : Blocks) → bblock c (readsb d).ninodes < a → usage (bzero a d) c ≡ usage d c
unfolding bzero
usage-bzero a c d lt = usage-update a c (λ i. 0) d lt
