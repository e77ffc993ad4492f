-- ===== src/Shell/Shape.antt =====
-- What the parser returns: a command whose words are not empty and lie in the line.
use rain_os.Common.{
  ℕ, ◌≤◌, ◌<◌, ◌≡◌, ◌⊎◌, inl, inr, refl, ◌∙◌, arith, Bool-cases, ◌==◌, ◌||◌, List, [], ◌∷◌, ◌++◌,
  update, update_ne,
}
use rain_os.String.{Memory}
use rain_os.Shell.{
  Cmd, exec_cmd, redir_cmd, pipe_cmd, list_cmd, back_cmd, Parsed, parsed, syntax, lost, next_to,
  redirect, with_args, terminate_args, nulterminate,
}

-- The bytes from `q` to `eq` are a word of the line from `lo` to `es`.
abbrev pub IsWord : (lo es q eq : ℕ) → Type 0
IsWord lo es q eq = (lo ≤ q) × (q < eq) × (eq ≤ es)

abbrev pub AreWords : (lo es : ℕ) → List (ℕ × ℕ) → Type 0
AreWords lo es [] = Unit
AreWords lo es ((q, eq) ∷ args) = IsWord lo es q eq × AreWords lo es args

pub AreWords-append :
    (lo es : ℕ) (args : List (ℕ × ℕ)) (q eq : ℕ)
    → AreWords lo es args
    → IsWord lo es q eq
    → AreWords lo es (args ++ ((q, eq) ∷ []))
AreWords-append lo es [] q eq h w = (w, tt)
AreWords-append lo es ((p, ep) ∷ args) q eq h w = (h.0, AreWords-append lo es args q eq h.1 w)

abbrev pub IsWithin : (lo es : ℕ) → Cmd → Type 0
IsWithin lo es (exec_cmd args) = AreWords lo es args
IsWithin lo es (redir_cmd c q eq mode fd) = IsWithin lo es c × IsWord lo es q eq
IsWithin lo es (pipe_cmd c d) = IsWithin lo es c × IsWithin lo es d
IsWithin lo es (list_cmd c d) = IsWithin lo es c × IsWithin lo es d
IsWithin lo es (back_cmd c) = IsWithin lo es c

pub redirect-IsWithin :
    (lo es kind : ℕ) (c : Cmd) (q eq : ℕ)
    → IsWithin lo es c
    → IsWord lo es q eq
    → IsWithin lo es (redirect kind c q eq)
unfolding redirect
redirect-IsWithin lo es kind c q eq h w = elim (Bool-cases (kind == b'<')) [
  | inl t ↦ rw t (h, w)
  | inr t ↦ elim (Bool-cases (kind == b'>' || kind == b'+')) [
    | inl u ↦ rw (t, u) (h, w)
    | inr u ↦ rw (t, u) h
  ]
]

pub with_args-IsWithin :
    (lo es : ℕ) (args : List (ℕ × ℕ)) (c : Cmd)
    → AreWords lo es args
    → IsWithin lo es c
    → IsWithin lo es (with_args args c)
with_args-IsWithin lo es args (redir_cmd c q eq mode fd) a h =
    (with_args-IsWithin lo es args c a h.0, h.1)
with_args-IsWithin lo es args (exec_cmd _) a h = a
with_args-IsWithin lo es args (pipe_cmd c d) a h = h
with_args-IsWithin lo es args (list_cmd c d) a h = h
with_args-IsWithin lo es args (back_cmd c) a h = h

-- The fuel was enough, and the parser stopped between `s` and `es`; the line begins at `lo`.
abbrev pub Ends : (lo es s : ℕ) → Parsed → Type 0
Ends lo es s lost = ⊥
Ends lo es s syntax = Unit
Ends lo es s (parsed c s') = (s ≤ s') × (s' ≤ es) × IsWithin lo es c

pub Ends-le : (lo es s s' : ℕ) (p : Parsed) → s ≤ s' → Ends lo es s' p → Ends lo es s p
Ends-le lo es s s' lost le h = h
Ends-le lo es s s' syntax le h = tt
Ends-le lo es s s' (parsed c t) le h = (omega arith, h.1, h.2)

pub Ends-next_to :
    (lo es s : ℕ) (p : Parsed) (f : Cmd → ℕ → Parsed)
    → Ends lo es s p
    → ((c : Cmd) (s' : ℕ) → s ≤ s' → s' ≤ es → IsWithin lo es c → Ends lo es s' (f c s'))
    → Ends lo es s (next_to p f)
Ends-next_to lo es s lost f h k = h
Ends-next_to lo es s syntax f h k = tt
Ends-next_to lo es s (parsed c s') f h k = Ends-le lo es s s' (f c s') h.0 (k c s' h.0 h.1 h.2)

-- `nulterminate` writes only in the line, and behind a word's start.
terminate-outside :
    (lo es : ℕ) (args : List (ℕ × ℕ)) (m : Memory) (a : ℕ)
    → AreWords lo es args
    → (a ≤ lo) ⊎ (es < a)
    → terminate_args args m a ≡ m a
unfolding terminate_args
terminate-outside lo es [] m a h o = refl
terminate-outside lo es ((q, eq) ∷ args) m a h o =
    terminate-outside lo es args (update m eq 0) a h.1 o
    ∙ update_ne m eq a 0 (λ e. absurd (omega (arith, e, o, h)))

pub nulterminate-outside :
    (lo es : ℕ) (c : Cmd) (m : Memory) (a : ℕ)
    → IsWithin lo es c
    → (a ≤ lo) ⊎ (es < a)
    → nulterminate c m a ≡ m a
unfolding nulterminate
nulterminate-outside lo es (exec_cmd args) m a h o = terminate-outside lo es args m a h o
nulterminate-outside lo es (redir_cmd c q eq mode fd) m a h o =
    update_ne (nulterminate c m) eq a 0 (λ e. absurd (omega (arith, e, o, h.1)))
    ∙ nulterminate-outside lo es c m a h.0 o
nulterminate-outside lo es (pipe_cmd c d) m a h o =
    nulterminate-outside lo es d (nulterminate c m) a h.1 o ∙ nulterminate-outside lo es c m a h.0 o
nulterminate-outside lo es (list_cmd c d) m a h o =
    nulterminate-outside lo es d (nulterminate c m) a h.1 o ∙ nulterminate-outside lo es c m a h.0 o
nulterminate-outside lo es (back_cmd c) m a h o = nulterminate-outside lo es c m a h o
