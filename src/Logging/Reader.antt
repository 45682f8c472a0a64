-- ===== src/Logging/Reader.antt =====
-- The text that logging.c writes, read back line by line.
use mathlib.Core.List.{map}
use umsftpd.Prelude.{
  ℕ, ◌≡◌, ◌≢◌, refl, ap, ◌∙◌, Bool, true, false, List, [], ◌∷◌, ◌++◌, append_assoc, Bytes, All,
  codes, char_at, drop, leb, ◌==◌, ◌||◌, Option, none, some, if◌then◌else◌, arith,
}
use umsftpd.Logging.{
  LogLevel, level_value, level_char, logmsg, LogCall, llvl_set, message, run_calls,
}

abbrev push : ℕ → List Bytes → List Bytes
push c [] = (c ∷ []) ∷ []
push c (line ∷ lines) = (c ∷ line) ∷ lines

-- The lines of a text, each of which a newline ends.
abbrev pub lines_of : Bytes → List Bytes
lines_of [] = []
lines_of (c ∷ s) = let rest = lines_of s in if c == b'\n' then [] ∷ rest else push c rest

-- The level that a letter stands for.
abbrev pub read_level : ℕ → Option LogLevel
read_level letter =
    if letter == b'C'
    then some LogLevel.critical
    else if letter == b'E'
    then some LogLevel.error
    else if letter == b'W'
    then some LogLevel.warn
    else if letter == b'I'
    then some LogLevel.info
    else if letter == b'D'
    then some LogLevel.debug
    else if letter == b'T'
    then some LogLevel.trace
    else none

-- The level of a line, and the message.
abbrev pub read_entry : Bytes → Option LogLevel × Bytes
read_entry line = (read_level (char_at line 1), drop 5 line)

abbrev pub read_log : Bytes → List (Option LogLevel × Bytes)
read_log text = map read_entry (lines_of text)

-- The levels that are written while a level is set, the more severe ones and itself.
abbrev pub written_at : LogLevel → List LogLevel
written_at LogLevel.critical = LogLevel.critical ∷ []
written_at LogLevel.error = LogLevel.critical ∷ LogLevel.error ∷ []
written_at LogLevel.warn = LogLevel.critical ∷ LogLevel.error ∷ LogLevel.warn ∷ []
written_at LogLevel.info = LogLevel.critical ∷ LogLevel.error ∷ LogLevel.warn ∷ LogLevel.info ∷ []
written_at LogLevel.debug =
    LogLevel.critical ∷ LogLevel.error ∷ LogLevel.warn ∷ LogLevel.info ∷ LogLevel.debug ∷ []
written_at LogLevel.trace =
    LogLevel.critical ∷ LogLevel.error ∷ LogLevel.warn ∷ LogLevel.info ∷ LogLevel.debug
    ∷ LogLevel.trace ∷ []

abbrev pub same_level : LogLevel → LogLevel → Bool
same_level LogLevel.critical LogLevel.critical = true
same_level LogLevel.error LogLevel.error = true
same_level LogLevel.warn LogLevel.warn = true
same_level LogLevel.info LogLevel.info = true
same_level LogLevel.debug LogLevel.debug = true
same_level LogLevel.trace LogLevel.trace = true
same_level _ _ = false

abbrev pub among : LogLevel → List LogLevel → Bool
among llvl [] = false
among llvl (l ∷ levels) = same_level llvl l || among llvl levels

-- The messages of the calls that are at most at the level that was set last before them.
abbrev pub admitted : LogLevel → List LogCall → List (Option LogLevel × Bytes)
admitted current_llvl [] = []
admitted current_llvl (llvl_set loglevel ∷ calls) = admitted loglevel calls
admitted current_llvl (message llvl msg ∷ calls) =
    let rest = admitted current_llvl calls in
    if among llvl (written_at current_llvl) then (some llvl, msg) ∷ rest else rest

abbrev pub IsLine : Bytes → Type 0
IsLine s = All (λ (c : ℕ). c ≢ b'\n') s

abbrev pub HasLine : LogCall → Type 0
HasLine (llvl_set loglevel) = Unit
HasLine (message llvl msg) = IsLine msg

not_newline : (c : ℕ) → c ≢ b'\n' → (c == b'\n') ≡ false
not_newline c h = ground arith

lines_of-append : (line s : Bytes) → IsLine line → lines_of (line ++ b'\n' ∷ s) ≡ line ∷ lines_of s
lines_of-append [] s h = refl
lines_of-append (c ∷ line) s (a, h) =
    ap (λ b. if b then [] ∷ lines_of (line ++ b'\n' ∷ s) else push c (lines_of (line ++ b'\n' ∷ s)))
      (not_newline c a)
    ∙ ap (push c) (lines_of-append line s h)

read_level-level_char : (llvl : LogLevel) → read_level (level_char llvl) ≡ some llvl
read_level-level_char LogLevel.critical = refl
read_level-level_char LogLevel.error = refl
read_level-level_char LogLevel.warn = refl
read_level-level_char LogLevel.info = refl
read_level-level_char LogLevel.debug = refl
read_level-level_char LogLevel.trace = refl

every_level :
    (P : LogLevel → Type 0)
    → P LogLevel.critical
    → P LogLevel.error
    → P LogLevel.warn
    → P LogLevel.info
    → P LogLevel.debug
    → P LogLevel.trace
    → (llvl : LogLevel) → P llvl
every_level P c e w i d t LogLevel.critical = c
every_level P c e w i d t LogLevel.error = e
every_level P c e w i d t LogLevel.warn = w
every_level P c e w i d t LogLevel.info = i
every_level P c e w i d t LogLevel.debug = d
every_level P c e w i d t LogLevel.trace = t

abbrev Orders : LogLevel → LogLevel → Type 0
Orders current llvl = leb (level_value llvl) (level_value current) ≡ among llvl (written_at current)

-- The order of the values is that of the levels.
among-level_value :
    (llvl current : LogLevel)
    → leb (level_value llvl) (level_value current) ≡ among llvl (written_at current)
among-level_value llvl LogLevel.critical =
    every_level (Orders LogLevel.critical) refl refl refl refl refl refl llvl
among-level_value llvl LogLevel.error =
    every_level (Orders LogLevel.error) refl refl refl refl refl refl llvl
among-level_value llvl LogLevel.warn =
    every_level (Orders LogLevel.warn) refl refl refl refl refl refl llvl
among-level_value llvl LogLevel.info =
    every_level (Orders LogLevel.info) refl refl refl refl refl refl llvl
among-level_value llvl LogLevel.debug =
    every_level (Orders LogLevel.debug) refl refl refl refl refl refl llvl
among-level_value llvl LogLevel.trace =
    every_level (Orders LogLevel.trace) refl refl refl refl refl refl llvl

char-IsLine : (llvl : LogLevel) → level_char llvl ≢ b'\n'
char-IsLine LogLevel.critical = λ e. ground arith
char-IsLine LogLevel.error = λ e. ground arith
char-IsLine LogLevel.warn = λ e. ground arith
char-IsLine LogLevel.info = λ e. ground arith
char-IsLine LogLevel.debug = λ e. ground arith
char-IsLine LogLevel.trace = λ e. ground arith

read_log-line :
    (llvl : LogLevel) (msg text : Bytes)
    → IsLine msg
    → read_log ((b'[' ∷ level_char llvl ∷ (codes "]: " ++ msg ++ codes "\n")) ++ text)
      ≡ (some llvl, msg) ∷ read_log text
read_log-line llvl msg text h =
    let front = b'[' ∷ level_char llvl ∷ (codes "]: " ++ msg) in
    let apart : IsLine front = (
      (λ e. ground arith),
      (char-IsLine llvl, ((λ e. ground arith), ((λ e. ground arith), ((λ e. ground arith), h)))),
    ) in
    ap read_log (append_assoc front (codes "\n") text)
    ∙ ap (map read_entry) (lines_of-append front text apart)
    ∙ ap (λ l. (l, msg) ∷ read_log text) (read_level-level_char llvl)

-- What is written is read back: for each message that is at most at the level that was set last before it,
-- in their order, its level and its text, and nothing else. The levels are known by their initials, and
-- stand in the order critical, error, warn, info, debug, trace. The messages have no newline.
pub read_log-run_calls :
    (current_llvl : LogLevel) (calls : List LogCall)
    → All HasLine calls
    → read_log (run_calls current_llvl calls).1 ≡ admitted current_llvl calls
unfolding run_calls logmsg
read_log-run_calls current_llvl [] h = refl
read_log-run_calls current_llvl (llvl_set loglevel ∷ calls) (_, h) =
    read_log-run_calls loglevel calls h
read_log-run_calls current_llvl (message llvl msg ∷ calls) (line, h) =
    let rest = (run_calls current_llvl calls).1 in
    let ih = read_log-run_calls current_llvl calls h in
    by_level (leb (level_value llvl) (level_value current_llvl)) rest ih
      (read_log-line llvl msg rest line)
    ∙ ap
        (λ b.
          if b then (some llvl, msg) ∷ admitted current_llvl calls else admitted current_llvl calls)
        (among-level_value llvl current_llvl)
  where
    by_level :
        (b : Bool) (rest : Bytes)
        → read_log rest ≡ admitted current_llvl calls
        → read_log ((b'[' ∷ level_char llvl ∷ (codes "]: " ++ msg ++ codes "\n")) ++ rest)
          ≡ (some llvl, msg) ∷ read_log rest
        → read_log (
            (if b then b'[' ∷ level_char llvl ∷ (codes "]: " ++ msg ++ codes "\n") else []) ++ rest)
          ≡ (if b
              then (some llvl, msg) ∷ admitted current_llvl calls
              else admitted current_llvl calls)
    by_level true rest ih e = e ∙ ap (λ es. (some llvl, msg) ∷ es) ih
    by_level false rest ih e = ih
