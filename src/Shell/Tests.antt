-- ===== src/Shell/Tests.antt =====
-- The line "a>b" at 10.
use rain_os.Common.{ℕ, ◌≡◌, refl, arith, ◌==◌, if◌then◌else◌, [], ◌∷◌, Option, none, some}
use rain_os.String.{Memory}
use rain_os.Ulib.{length_from}
use rain_os.Shell.{
  parsecmd, Command, command, rejected, unfinished, Cmd, exec_cmd, redir_cmd, parseline,
  parse_between, finish, peek, skip, token_at, gettoken, redirect, parseredirs, parse_args,
  parse_back, right_side, close_block, nulterminate, terminate_args,
}
use rain_os.Shell.Parsing.{IsString, IsCommand, parsecmd_lem}

abbrev line : Memory
line a = if a == 10 then b'a' else if a == 11 then b'>' else if a == 12 then b'b' else 0

line-IsString : IsString 10 3 line
line-IsString = record { bytes = λ j lt q. ground arith; ended = refl }

parsecmd_lem_example : IsCommand 10 3 line (parsecmd 16 10 line)
parsecmd_lem_example = parsecmd_lem 16 10 3 line line-IsString (omega arith)

abbrev outcome : Command → Option (Cmd × ℕ × ℕ)
outcome (command c m) = some (c, m 11, m 13)
outcome rejected = none
outcome unfinished = none

-- The `>` is overwritten by the NUL behind the first word.
parsecmd-redirection :
    outcome (parsecmd 16 10 line) ≡ some (redir_cmd (exec_cmd ((10, 11) ∷ [])) 12 13 0x201 1, 0, 0)
unfolding parsecmd length_from parse_between finish parseline peek skip gettoken token_at redirect
    parseredirs parse_args parse_back right_side close_block nulterminate terminate_args
parsecmd-redirection = refl
