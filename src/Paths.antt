-- ===== src/Paths.antt =====
-- strings.c: the functions on paths and strings. A string is the list of its bytes without the
-- NUL, so `strlen` is `length`. The proofs are in the modules below this one.
pub mod Names
mod Tests
pub mod Parts
pub mod Buffer
pub mod Split
pub mod Compare
pub mod Sanitize
pub mod Checks
use mathlib.Core.List.{reverse}
use umsftpd.Prelude.{
  ℕ, zero, suc, ◌+◌, ◌-◌, Bool, true, false, ◌&&◌, not, List, [], ◌∷◌, ◌++◌, Option, none, some,
  Bytes, length, char_at, get_or, take, drop, strn_eq, codes, ltb, ◌==◌, if◌then◌else◌, Outcome,
  done, undefined, ◌>>=◌,
}

abbrev pub slash : ℕ
slash = b'/'

abbrev pub is_nil : Bytes → Bool
is_nil [] = true
is_nil (c ∷ s) = false

-- `is_absolute_path`
unfoldable pub is_absolute_path : Bytes → Bool
is_absolute_path path = char_at path 0 == slash

-- `is_valid_path`
unfoldable pub is_valid_path : Bytes → Bool
is_valid_path path =
    ltb 0 (length path)
    && (char_at path 0 == slash)
    && not (char_at path (length path - 1) == slash)

-- `path[len - 1] == '/'` behind the test `len`
abbrev pub ends_in_slash : Bytes → Bool
ends_in_slash path = ltb 0 (length path) && (char_at path (length path - 1) == slash)

-- `pathcmp`: equal but for one slash at the end of either.
unfoldable pub pathcmp : Bytes → Bytes → Bool
pathcmp path1 path2 =
    let len1 = if ends_in_slash path1 then length path1 - 1 else length path1 in
    let len2 = if ends_in_slash path2 then length path2 - 1 else length path2 in
    if len1 == len2 then strn_eq len1 path1 path2 else false

-- `truncate_trailing_slash`, whose loop runs on the length: `truncated path len` is the final `len`.
unfoldable pub truncated : Bytes → ℕ → ℕ
truncated path zero = zero
truncated path (suc len) = elim (char_at path len == slash) [
  | true ↦ truncated path len
  | false ↦ suc len
]

unfoldable pub truncate_trailing_slash : Bytes → Bytes
unfolding truncated
truncate_trailing_slash path = take (truncated path (length path)) path

-- The loop of `path_split_mutable`: `pre` holds the bytes before index `i`, the list the bytes
-- from `i` on. The callback takes the prefix and `is_full_path`, and returns whether to go on.
module _ {ℓ} {S : Type ℓ} (callback : Bytes → Bool → S → S × Bool) where
  pub visit : Bytes → ℕ → Bool → S → S × Bool
  visit pre c is_full_path ctx =
      if c == slash
      then (if is_nil pre
          then callback (c ∷ []) is_full_path ctx
          else callback pre is_full_path ctx)
      else if is_full_path
      then ((callback (pre ++ c ∷ []) is_full_path ctx).0, true)
      else (ctx, true)

  pub split_from : Bytes → Bytes → S → S
  split_from pre [] ctx = ctx
  split_from pre (c ∷ rest) ctx =
      let (ctx', do_continue) = visit pre c (is_nil rest) ctx in
      elim do_continue [ true ↦ split_from (pre ++ c ∷ []) rest ctx' | false ↦ ctx' ]

  -- `path_split`, which calls `path_split_mutable` on a copy.
  unfoldable pub path_split : Bytes → S → S
  unfolding split_from visit
  path_split path ctx = split_from [] path ctx

-- The buffer of `sanitize_absolute_path`: the bytes below `result_len`, the last one first. A
-- write at or behind `cap` is undefined.
pub put : ℕ → ℕ → Bytes → Outcome Bytes
put cap b result = if ltb (length result) cap then done (b ∷ result) else undefined

pub copy_in : ℕ → Bytes → Bytes → Outcome Bytes
copy_in cap [] result = done result
copy_in cap (b ∷ token) result = do r ← put cap b result; copy_in cap token r

-- `while ((result_len > 1) && (result[result_len - 1] != '/')) result_len--;`
pub strip_name : Bytes → Bytes
strip_name [] = []
strip_name (b ∷ []) = b ∷ []
strip_name (b ∷ c ∷ result) = elim (b == slash) [
  | true ↦ b ∷ c ∷ result
  | false ↦ strip_name (c ∷ result)
]

-- One byte less; at length 0 the length goes back to 1, and byte 0 is still the first slash.
pub drop_slash : Bytes → Bytes
drop_slash [] = slash ∷ []
drop_slash (b ∷ []) = slash ∷ []
drop_slash (b ∷ c ∷ result) = c ∷ result

pub backtrack : Bytes → Bytes
backtrack result = drop_slash (strip_name result)

-- What a token that a slash or the end closes does to the buffer.
pub sanitize_token : ℕ → Bytes → Bytes → Outcome Bytes
unfolding copy_in put backtrack strip_name drop_slash
sanitize_token cap token result =
    if is_nil token
    then done result
    else if strn_eq (length token) token (codes ".")
    then done result
    else if strn_eq (length token) token (codes "..")
    then done (backtrack result)
    else (do
      r ← (if get_or result 0 0 == slash then done result else put cap slash result)
      copy_in cap token r)

-- The `for` loop, over the bytes from index `i` on and the NUL behind them.
pub sanitize_loop : ℕ → Bytes → Bytes → Bytes → Outcome Bytes
unfolding sanitize_token
sanitize_loop cap [] token result = sanitize_token cap token result
sanitize_loop cap (c ∷ rest) token result = elim (c == slash) [
  | true ↦ sanitize_token cap token result >>= λ r. sanitize_loop cap rest [] r
  | false ↦ sanitize_loop cap rest (token ++ c ∷ []) result
]

-- `sanitize_absolute_path`; the flag says whether `malloc` succeeds, and `none` is NULL.
unfoldable pub sanitize_absolute_path : Bool → Bytes → Outcome (Option Bytes)
unfolding sanitize_loop is_absolute_path
sanitize_absolute_path malloc_ok path =
    if not (is_absolute_path path) then done none else if not malloc_ok then done none else (do
      result ← sanitize_loop (length path + 1) (drop 1 path) [] (slash ∷ [])
      terminated ← put (length path + 1) 0 result
      done (some (reverse result)))

-- `sanitize_path`
unfoldable pub sanitize_path : Bool → Bytes → Bytes → Outcome (Option Bytes)
sanitize_path malloc_ok cwd path =
    if not (is_absolute_path path)
    then sanitize_absolute_path malloc_ok (cwd ++ slash ∷ path)
    else sanitize_absolute_path malloc_ok path
