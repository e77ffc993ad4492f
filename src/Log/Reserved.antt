-- ===== src/Log/Reserved.antt =====
-- The reservation of log space as a list of budgets, one for each operation under way.
use rain_os.Common.{
  ℕ, ◌+◌, ◌*◌, ◌≤◌, ◌≡◌, refl, arith, Bool, false, List, [], ◌∷◌, ◌++◌, All, length, length-append,
}
use rain_os.Log.{Sys, log_size, max_op_blocks}
use rain_os.Log.Commit.{IsReady}

abbrev pub sum : List ℕ → ℕ
sum [] = 0
sum (x ∷ xs) = x + sum xs

-- `budgets` holds, for each operation under way, how many more blocks it may log.
-- Together with the blocks that are logged they fit into `log_size`.
pub record IsReserved (s : Sys) (budgets : List ℕ) : Type 0 where
  pub ready : IsReady s
  pub count : s.log.outstanding ≡ length budgets
  pub few : length budgets ≤ 3
  pub each : All (λ b. b ≤ max_op_blocks) budgets
  pub fits : s.log.lh.n + sum budgets ≤ log_size
  pub idle : s.log.committing ≡ false

pub sum-append : (xs ys : List ℕ) → sum (xs ++ ys) ≡ sum xs + sum ys
sum-append [] ys = omega arith
sum-append (x ∷ xs) ys = omega (arith, sum-append xs ys)

pub sum-le : (xs : List ℕ) → All (λ b. b ≤ max_op_blocks) xs → sum xs ≤ length xs * max_op_blocks
sum-le [] h = omega arith
sum-le (x ∷ xs) h = omega (arith, sum-le xs h.1, h.0)

pub All-split {κ} :
    (P : ℕ → Type κ) (xs ys : List ℕ) (x y : ℕ)
    → All P (xs ++ (x ∷ ys))
    → P y
    → All P (xs ++ (y ∷ ys))
All-split P [] ys x y h q = (q, h.1)
All-split P (z ∷ xs) ys x y h q = (h.0, All-split P xs ys x y h.1 q)

pub All-drop {κ} :
    (P : ℕ → Type κ) (xs ys : List ℕ) (x : ℕ) → All P (xs ++ (x ∷ ys)) → (P x × All P (xs ++ ys))
All-drop P [] ys x h = h
All-drop P (z ∷ xs) ys x h = let (a, r) = All-drop P xs ys x h.1 in (a, (h.0, r))

pub length-zero {ℓ} : {A : Type ℓ} (xs : List A) → length xs ≡ 0 → xs ≡ []
length-zero [] h = refl
length-zero (x ∷ xs) h = absurd (omega arith)

pub length-drop : (xs ys : List ℕ) (c : ℕ) → length (xs ++ (c ∷ ys)) ≡ length (xs ++ ys) + 1
length-drop xs ys c = omega (arith, length-append {0} xs (c ∷ ys), length-append {0} xs ys)

-- The number of operations and the mark of a commit do not matter to the log's blocks.
pub IsReady-counts :
    (s : Sys) (o : ℕ) (c : Bool)
    → IsReady s
    → IsReady (record s { log = record (s.log) { outstanding = o; committing = c } })
IsReady-counts s o c v = record {
  bounded = v.bounded;
  low = v.low;
  pinned = v.pinned;
  empty = v.empty;
}
