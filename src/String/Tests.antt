-- ===== src/String/Tests.antt =====
-- The byte functions at concrete inputs.
use rain_os.Common.{◌≡◌, refl, arith, update, ◌==◌, if◌then◌else◌, some}
use rain_os.String.{Memory, memmove, strlen}
use rain_os.String.Compare.{IsBytes}

-- Each byte is its own address.
abbrev numbered : Memory
numbered a = a

memmove-numbered : memmove 6 4 5 numbered 10 ≡ 8
unfolding memmove
memmove-numbered = refl

-- The string at 100 has two bytes.
abbrev text : Memory
text = update numbered 102 0

-- Two strings that agree up to their zeros, and differ behind them.
abbrev pair : Memory
pair a = if a == 10 then 65 else if a == 20 then 65 else if a == 22 then 66 else 0

pair-IsBytes : IsBytes pair
pair-IsBytes a = ground arith

strlen-pair : strlen 5 10 pair ≡ some 1
unfolding strlen
strlen-pair = refl
