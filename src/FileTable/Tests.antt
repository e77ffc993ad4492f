-- ===== src/FileTable/Tests.antt =====
-- The file table at concrete inputs.
use rain_os.Common.{
  ℕ, zero, suc, ◌≡◌, ◌⊎◌, refl, true, false, none, some, arith, ok, ◌==◌, ltb, if◌then◌else◌,
  update,
}
use rain_os.FileTable.{fd_none, fd_pipe, File, Ftable, filedup, filewrite, value, panics}
use rain_os.FileTable.Undo.{IsCleared}
use rain_os.FileTable.Write.{IsKept, IsShort, IsWritten, filewrite_lem}
use rain_os.Common.{Option, ◌+◌}
use rain_os.FileTable.{fd_inode}

abbrev blank : File
blank = record {
  kind = fd_none;
  ref = 0;
  readable = false;
  writable = false;
  pipe = 0;
  ip = 0;
  off = 0;
}

-- Slot 0 is the writing end of a pipe, held once; the others are free.
abbrev table : Ftable
table i =
    if i == 0 then record blank { kind = fd_pipe; ref = 1; writable = true; pipe = 4096 } else blank

abbrev doubled : Ftable
doubled = update table 0 (record (table 0) { ref = 2 })

filedup-table : filedup 0 table ≡ ok doubled
unfolding filedup
filedup-table = refl

table-IsCleared : IsCleared table
table-IsCleared zero h = absurd (ground arith)
table-IsCleared (suc i) h = ground arith

-- A disk that counts the bytes written and refuses to hold more than 9000.
abbrev bounded : ℕ → ℕ → ℕ → ℕ → Option ℕ × ℕ
bounded w i off m = if ltb 9000 (w + m) then (none, w) else (some m, w + m)

abbrev Counts : ℕ → ℕ → Type 0
Counts i w = w ≡ i

bounded-IsKept : IsKept bounded Counts 10000
bounded-IsKept = record {
  whole = λ w w' i off m p pos small fits h. ground (arith, p, h);
  none_written = λ w w' i off m p h. ground (arith, p, h);
}

abbrev regular : File
regular = record blank { kind = fd_inode; ref = 1; writable = true; ip = 3 }

-- Two transactions: the first writes 6656 bytes and the second fails.
filewrite-bounded :
    filewrite bounded regular 10000 0 ≡ value none (record regular { off = 6656 }) 6656
unfolding filewrite
filewrite-bounded = refl

filewrite_lem_example :
    ((filewrite bounded regular 10000 0 ≡ panics) × IsShort bounded Counts 10000)
    ⊎ ((v : Option ℕ) × (f' : File) × (w' : ℕ) × (filewrite bounded regular 10000 0 ≡ value v f' w')
        × IsWritten bounded Counts 10000 regular v f' w')
filewrite_lem_example = filewrite_lem bounded Counts regular 10000 0 bounded-IsKept refl refl refl
