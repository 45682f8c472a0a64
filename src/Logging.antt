-- ===== src/Logging.antt =====
-- logging.h and logging.c: messages on `stderr` up to a level. A message is the text that `vfprintf` makes
-- of it.
pub mod Reader
mod Tests
use umsftpd.Prelude.{ℕ, Bool, List, [], ◌∷◌, ◌++◌, Bytes, codes, leb, if◌then◌else◌}

-- `enum loglevel_t`
pub data LogLevel : Type 0 where
  critical error warn info debug trace : LogLevel

-- The value of a level.
abbrev pub level_value : LogLevel → ℕ
level_value critical = 0
level_value error = 1
level_value warn = 2
level_value info = 3
level_value debug = 4
level_value trace = 5

-- `level_str`, whose strings have one character.
abbrev pub level_char : LogLevel → ℕ
level_char critical = b'C'
level_char error = b'E'
level_char warn = b'W'
level_char info = b'I'
level_char debug = b'D'
level_char trace = b'T'

-- `logmsg`, with `current_llvl`.
unfoldable pub logmsg : LogLevel → LogLevel → Bytes → Bytes
logmsg current_llvl llvl msg =
    if leb (level_value llvl) (level_value current_llvl)
    then b'[' ∷ level_char llvl ∷ (codes "]: " ++ msg ++ codes "\n")
    else []

-- The calls of a program: `llvl_set` and `logmsg`.
pub data LogCall : Type 0 where
  llvl_set : LogLevel → LogCall
  message : LogLevel → Bytes → LogCall

-- What stands on `stderr` after the calls, and `llvl_get` then.
unfoldable pub run_calls : LogLevel → List LogCall → LogLevel × Bytes
unfolding logmsg
run_calls current_llvl [] = (current_llvl, [])
run_calls current_llvl (llvl_set loglevel ∷ calls) = run_calls loglevel calls
run_calls current_llvl (message llvl msg ∷ calls) =
    let (last, text) = run_calls current_llvl calls in (last, logmsg current_llvl llvl msg ++ text)
