-- ===== src/Shell.antt =====
-- The parser of the shell, sh.c, on the line that was read, in a memory of bytes. Pointers are
-- addresses in the line, which `es` ends. The recursive functions run on fuel. A node that `malloc`
-- makes is a value; an exec node's arguments are put in when its last one is known.
pub mod Tokens
pub mod Shape
pub mod Loops
pub mod Parsing
mod Tests
use rain_os.Common.{
  ℕ, zero, suc, ◌+◌, ◌-◌, Bool, true, false, not, ◌||◌, ◌&&◌, List, [], ◌∷◌, ◌++◌, length, Option,
  none, some, ◌==◌, ltb, leb, if◌then◌else◌, update,
}
use rain_os.String.{Memory}
use rain_os.Ulib.{length_from}

-- The strings `whitespace` and `symbols`.
abbrev pub is_space : ℕ → Bool
is_space c = c == 32 || (c == 9 || (c == 13 || (c == 10 || c == 11)))

-- The symbols that are a token by themselves.
abbrev pub is_single : ℕ → Bool
is_single c = c == b'|' || (c == b'(' || (c == b')' || (c == b';' || (c == b'&' || c == b'<'))))

abbrev pub is_symbol : ℕ → Bool
is_symbol c = is_single c || c == b'>'

abbrev pub in_word : ℕ → Bool
in_word c = not (is_space c) && not (is_symbol c)

-- `while(s < es && test(*s)) s++;` with `k` bytes up to `es`.
pub skip : (test : ℕ → Bool) (k s : ℕ) → Memory → ℕ
skip test zero s m = s
skip test (suc k) s m = let rest = skip test k (s + 1) m in if test (m s) then rest else s

-- What `gettoken` returns, and what it stores at `q`, `eq` and `ps`.
pub record Token : Type 0 where
  pub kind : ℕ
  pub q : ℕ
  pub eq : ℕ
  pub next : ℕ

-- The switch of `gettoken` at `q`: the kind and the token's end.
pub token_at : (es q : ℕ) → Memory → ℕ × ℕ
unfolding skip
token_at es q m =
    let c = m q in
    if c == 0
    then (0, q)
    else if is_single c
    then (c, q + 1)
    else if c == b'>'
    then if m (q + 1) == b'>' then (b'+', q + 2) else (c, q + 1)
    else (b'a', skip in_word (es - q) q m)

pub gettoken : (es s : ℕ) → Memory → Token
unfolding token_at skip
gettoken es s m =
    let q = skip is_space (es - s) s m in
    let (kind, eq) = token_at es q m in
    record { kind = kind; q = q; eq = eq; next = skip is_space (es - eq) eq m }

-- `peek`: the pointer that it stores, and whether one of `toks` is there.
pub peek : (toks : ℕ → Bool) (es s : ℕ) → Memory → ℕ × Bool
unfolding skip
peek toks es s m = let s' = skip is_space (es - s) s m in (s', not (m s' == 0) && toks (m s'))

pub data Cmd : Type 0 where
  exec_cmd : (argv : List (ℕ × ℕ)) → Cmd
  redir_cmd : Cmd → (file efile mode fd : ℕ) → Cmd
  pipe_cmd list_cmd : (left right : Cmd) → Cmd
  back_cmd : Cmd → Cmd

-- The functions that make the nodes; `malloc` is taken not to fail, as the code does not test it.
abbrev pub execcmd : Cmd
execcmd = exec_cmd []

abbrev pub redircmd : Cmd → (file efile mode fd : ℕ) → Cmd
redircmd c file efile mode fd = redir_cmd c file efile mode fd

abbrev pub pipecmd : Cmd → Cmd → Cmd
pipecmd left right = pipe_cmd left right

abbrev pub listcmd : Cmd → Cmd → Cmd
listcmd left right = list_cmd left right

abbrev pub backcmd : Cmd → Cmd
backcmd c = back_cmd c

-- `syntax`: the shell panics. `lost`: the fuel ran out.
pub data Parsed : Type 0 where
  parsed : Cmd → (s : ℕ) → Parsed
  syntax lost : Parsed

abbrev pub next_to : Parsed → (Cmd → ℕ → Parsed) → Parsed
next_to (parsed c s) f = f c s
next_to syntax f = syntax
next_to lost f = lost

-- `O_WRONLY|O_CREATE`.
abbrev pub wronly_create : ℕ
wronly_create = 0x201

pub redirect : (kind : ℕ) → Cmd → (q eq : ℕ) → Cmd
redirect kind c q eq =
    if kind == b'<'
    then redircmd c q eq 0 0
    else if kind == b'>' || kind == b'+'
    then redircmd c q eq wronly_create 1
    else c

pub parseredirs : (fuel es : ℕ) → Cmd → (s : ℕ) → Memory → Parsed
unfolding redirect
parseredirs zero es c s m = lost
parseredirs (suc f) es c s m =
    let (s1, more) = peek (λ x. x == b'<' || x == b'>') es s m in
    let tok = gettoken es s1 m in
    let file = gettoken es tok.next m in
    let rest = parseredirs f es (redirect tok.kind c file.q file.eq) file.next m in
    if not more then parsed c s1 else if not (file.kind == b'a') then syntax else rest

abbrev pub max_args : ℕ
max_args = 10

-- The exec node at the bottom of the redirections gets its arguments.
abbrev pub with_args : List (ℕ × ℕ) → Cmd → Cmd
with_args args (redir_cmd c q eq mode fd) = redir_cmd (with_args args c) q eq mode fd
with_args args (exec_cmd _) = exec_cmd args
with_args args (pipe_cmd c d) = pipe_cmd c d
with_args args (list_cmd c d) = list_cmd c d
with_args args (back_cmd c) = back_cmd c

-- The loop of `parseexec`, with the arguments so far.
pub parse_args : (fuel es : ℕ) (args : List (ℕ × ℕ)) → Cmd → (s : ℕ) → Memory → Parsed
unfolding parseredirs
parse_args zero es args ret s m = lost
parse_args (suc f) es args ret s m =
    let (s1, stop) = peek (λ x. x == b'|' || (x == b')' || (x == b'&' || x == b';'))) es s m in
    let tok = gettoken es s1 m in
    let args' = args ++ ((tok.q, tok.eq) ∷ []) in
    let rest =
      next_to (parseredirs f es ret tok.next m) (λ ret' s2. parse_args f es args' ret' s2 m) in
    if stop
    then parsed (with_args args ret) s1
    else if tok.kind == 0
    then parsed (with_args args ret) tok.next
    else if not (tok.kind == b'a')
    then syntax
    else if leb max_args (length args')
    then syntax
    else rest

-- The loop of `parseline` over `&`.
pub parse_back : (fuel es : ℕ) → Cmd → (s : ℕ) → Memory → Parsed
parse_back zero es c s m = lost
parse_back (suc f) es c s m =
    let (s1, more) = peek (λ x. x == b'&') es s m in
    let rest = parse_back f es (backcmd c) (gettoken es s1 m).next m in
    if more then rest else parsed c s1

-- The end of `parseline` and of `parsepipe`: where the separator stands, the function calls itself
-- behind it.
pub right_side :
    (separator : ℕ) (join : Cmd → Cmd → Cmd) (again : ℕ → Parsed) (es : ℕ)
    → Cmd
    → (s : ℕ) → Memory
    → Parsed
right_side separator join again es c s m =
    let (s1, more) = peek (λ x. x == separator) es s m in
    let rest = next_to (again (gettoken es s1 m).next) (λ d s2. parsed (join c d) s2) in
    if more then rest else parsed c s1

-- The end of `parseblock`.
pub close_block : (fuel es : ℕ) → Cmd → (s : ℕ) → Memory → Parsed
unfolding parseredirs
close_block fuel es c s m =
    let (s1, close) = peek (λ x. x == b')') es s m in
    if not close then syntax else parseredirs fuel es c (gettoken es s1 m).next m

mutual
  pub parseline : (fuel es s : ℕ) → Memory → Parsed
  parseline zero es s m = lost
  parseline (suc f) es s m = next_to (parsepipe f es s m) (λ c s1.
      next_to (parse_back f es c s1 m)
        (λ c' s2. right_side b';' listcmd (λ t. parseline f es t m) es c' s2 m))

  pub parsepipe : (fuel es s : ℕ) → Memory → Parsed
  parsepipe zero es s m = lost
  parsepipe (suc f) es s m =
      next_to (parseexec f es s m)
        (λ c s1. right_side b'|' pipecmd (λ t. parsepipe f es t m) es c s1 m)

  pub parseexec : (fuel es s : ℕ) → Memory → Parsed
  parseexec zero es s m = lost
  parseexec (suc f) es s m =
      let (s1, open_paren) = peek (λ x. x == b'(') es s m in
      let block = parseblock f es s1 m in
      let plain = next_to (parseredirs f es execcmd s1 m) (λ ret s2. parse_args f es [] ret s2 m) in
      if open_paren then block else plain

  pub parseblock : (fuel es s : ℕ) → Memory → Parsed
  parseblock zero es s m = lost
  parseblock (suc f) es s m =
      let (s1, open_paren) = peek (λ x. x == b'(') es s m in
      let rest =
        next_to (parseline f es (gettoken es s1 m).next m) (λ c s2. close_block f es c s2 m) in
      if not open_paren then syntax else rest

-- The loop over the arguments of an exec node, which are not null.
pub terminate_args : List (ℕ × ℕ) → Memory → Memory
terminate_args [] m = m
terminate_args ((q, eq) ∷ args) m = terminate_args args (update m eq 0)

pub nulterminate : Cmd → Memory → Memory
unfolding terminate_args
nulterminate (exec_cmd args) m = terminate_args args m
nulterminate (redir_cmd c q eq mode fd) m = update (nulterminate c m) eq 0
nulterminate (pipe_cmd c d) m = nulterminate d (nulterminate c m)
nulterminate (list_cmd c d) m = nulterminate d (nulterminate c m)
nulterminate (back_cmd c) m = nulterminate c m

pub data Command : Type 0 where
  command : Cmd → Memory → Command
  rejected unfinished : Command

-- The end of `parsecmd`: nothing may be left over.
pub finish : (es : ℕ) → Parsed → Memory → Command
unfolding nulterminate
finish es lost m = unfinished
finish es syntax m = rejected
finish es (parsed c s) m =
    if not ((peek (λ x. false) es s m).0 == es) then rejected else command c (nulterminate c m)

-- `parsecmd` of a line whose end `strlen` has found.
pub parse_between : (fuel s es : ℕ) → Memory → Command
parse_between fuel s es m = finish es (parseline fuel es s m) m

pub parsecmd : (fuel s : ℕ) → Memory → Command
unfolding parse_between
parsecmd fuel s m = elim (length_from fuel s 0 m) [
  | none ↦ unfinished
  | some n ↦ parse_between fuel s (s + n) m
]
