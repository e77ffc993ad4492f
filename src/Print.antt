-- ===== src/Print.antt =====
-- Formatted output: `printint` and `cprintf` of console.c, and the user programs' `printint` and
-- `printf` of printf.c. A format is the list of its bytes up to the NUL, `args` the words on the stack
-- behind it, and `string_at` the bytes up to the NUL at an address. The output is what goes to
-- `consputc` or `putc`.
pub mod Digits
pub mod Format
mod Tests
use rain_os.Common.{
  ℕ, zero, suc, ◌+◌, ◌-◌, ◌*◌, ◌/◌, ◌%◌, Bool, true, false, not, ◌||◌, ◌&&◌, List, [], ◌∷◌, ◌++◌,
  Option, none, some, ◌==◌, ltb, leb, if◌then◌else◌, sub_word, is_negative, length,
}

-- The size of `buf` in `printint`.
abbrev pub buf_size : ℕ
buf_size = 16

-- `"0123456789abcdef"[d]`, and the upper-case table of printf.c.
abbrev pub digit : (upper : Bool) → ℕ → ℕ
digit upper d = if ltb d 10 then 48 + d else if upper then 55 + d else 87 + d

abbrev pub behind : ℕ → Option (List ℕ) → Option (List ℕ)
behind d none = none
behind d (some ds) = some (d ∷ ds)

-- The do loop of `printint` with `room` bytes left in `buf`; none is a write behind it.
pub digits_from : (upper : Bool) (room base x : ℕ) → Option (List ℕ)
digits_from upper zero base x = none
digits_from upper (suc room) base x =
    let rest = behind (digit upper (x % base)) (digits_from upper room base (x / base)) in
    if x / base == 0 then some (digit upper (x % base) ∷ []) else rest

-- The loop that prints `buf` from its end.
abbrev pub backwards : List ℕ → List ℕ
backwards [] = []
backwards (x ∷ xs) = backwards xs ++ (x ∷ [])

abbrev pub signed : Bool → List ℕ → Option (List ℕ)
signed true ds = if ltb (length ds) buf_size then some (backwards (ds ++ (45 ∷ []))) else none
signed false ds = some (backwards ds)

abbrev pub finish : Bool → Option (List ℕ) → Option (List ℕ)
finish neg none = none
finish neg (some ds) = signed neg ds

-- `printint` of console.c with the lower-case table.
pub printint : (upper : Bool) (xx base : ℕ) (sign : Bool) → Option (List ℕ)
printint upper xx base sign =
    let neg = sign && is_negative xx in
    let x = if neg then sub_word 0 xx else xx in finish neg (digits_from upper buf_size base x)

-- `printint` of printf.c, which differs in the table.
abbrev pub user_printint : (xx base : ℕ) (sgn : Bool) → Option (List ℕ)
user_printint xx base sgn = printint true xx base sgn

-- "(null)"
abbrev pub null_text : List ℕ
null_text = 40 ∷ 110 ∷ 117 ∷ 108 ∷ 108 ∷ 41 ∷ []

abbrev pub string_arg : (ℕ → List ℕ) → ℕ → List ℕ
string_arg string_at a = if a == 0 then null_text else string_at a

-- What a directive prints, if the next argument is `a`, and how many arguments it uses.
abbrev pub Directive : Type 0
Directive = Option (List ℕ) × ℕ

pub kernel_directive : (string_at : ℕ → List ℕ) (a c : ℕ) → Directive
kernel_directive string_at a c =
    if c == b'd'
    then (printint false a 10 true, 1)
    else if c == b'x' || c == b'p'
    then (printint false a 16 false, 1)
    else if c == b's'
    then (some (string_arg string_at a), 1)
    else if c == b'%'
    then (some (b'%' ∷ []), 0)
    else (some (b'%' ∷ (c ∷ [])), 0)

pub user_directive : (string_at : ℕ → List ℕ) (a c : ℕ) → Directive
user_directive string_at a c =
    if c == b'd'
    then (user_printint a 10 true, 1)
    else if c == b'x' || c == b'p'
    then (user_printint a 16 false, 1)
    else if c == b's'
    then (some (string_arg string_at a), 1)
    else if c == b'c'
    then (some (a % 256 ∷ []), 1)
    else if c == b'%'
    then (some (c ∷ []), 0)
    else (some (b'%' ∷ (c ∷ [])), 0)

abbrev pub join : Option (List ℕ) → Option (List ℕ) → Option (List ℕ)
join none y = none
join (some xs) none = none
join (some xs) (some ys) = some (xs ++ ys)

-- The loop of `cprintf`, with the arguments from `k` on unused.
pub cprintf_from : (string_at : ℕ → List ℕ) (args : ℕ → ℕ) (k : ℕ) → List ℕ → Option (List ℕ)
cprintf_from string_at args k [] = some []
cprintf_from string_at args k (c ∷ []) = if not (c == b'%') then some (c ∷ []) else some []
cprintf_from string_at args k (c ∷ (d ∷ fmt)) =
    let (out, used) = kernel_directive string_at (args k) d in
    let plain = join (some (c ∷ [])) (cprintf_from string_at args k (d ∷ fmt)) in
    let directive = join out (cprintf_from string_at args (k + used) fmt) in
    if not (c == b'%') then plain else directive

pub cprintf : (string_at : ℕ → List ℕ) (args : ℕ → ℕ) → List ℕ → Option (List ℕ)
cprintf string_at args fmt = cprintf_from string_at args 0 fmt

-- The loop of `printf`; `percent` is its state.
pub printf_from :
    (string_at : ℕ → List ℕ) (args : ℕ → ℕ) (k : ℕ) (percent : Bool) → List ℕ → Option (List ℕ)
printf_from string_at args k percent [] = some []
printf_from string_at args k percent (c ∷ fmt) =
    let (out, used) = user_directive string_at (args k) c in
    let plain = join (some (c ∷ [])) (printf_from string_at args k false fmt) in
    let begun = printf_from string_at args k true fmt in
    let directive = join out (printf_from string_at args (k + used) false fmt) in
    if percent then directive else if c == b'%' then begun else plain

pub printf : (string_at : ℕ → List ℕ) (args : ℕ → ℕ) → List ℕ → Option (List ℕ)
printf string_at args fmt = printf_from string_at args 0 false fmt
