-- ===== src/Paths/Checks.antt =====
-- strings.c: `path_contains_hidden`, the symbolic link check, `strip_crlf` and `const_basename`.
pub mod Laws
use umsftpd.Prelude.{
  ℕ, ◌-◌, Bool, true, false, ◌&&◌, ◌||◌, not, List, [], ◌∷◌, Option, none, some, Bytes, length,
  take, char_at, ltb, ◌==◌, if◌then◌else◌, Outcome, done, undefined,
}
use umsftpd.Paths.{slash, path_split}

-- The loop of `path_contains_hidden`, with its `seen_slash`.
hidden_from : Bool → Bytes → Bool
hidden_from seen_slash [] = false
hidden_from seen_slash (c ∷ path) = elim (c == slash) [
  | true ↦ hidden_from true path
  | false ↦ elim (seen_slash && (c == b'.')) [ true ↦ true | false ↦ hidden_from false path ]
]

unfoldable pub path_contains_hidden : Bytes → Bool
unfolding hidden_from
path_contains_hidden path = hidden_from true path

-- What `lstat` says of a path: `ENOENT`, another error, a symbolic link, or another node.
pub data LstatResult : Type 0 where
  enoent : LstatResult
  failed : LstatResult
  link : LstatResult
  node : LstatResult

-- `struct symlink_check_response_t`
pub record SymlinkCheck : Type 0 where
  pub critical_error : Bool
  pub file_not_found : Bool
  pub contains_symlink : Bool

-- `path_contains_symlink_callback`; the file system is the function `lstat`.
unfoldable pub path_contains_symlink_callback :
    (Bytes → LstatResult) → Bytes → Bool → SymlinkCheck → SymlinkCheck × Bool
path_contains_symlink_callback lstat path is_full_path ctx =
    let ctx' : SymlinkCheck = elim (lstat path) [
      | enoent ↦ record ctx { file_not_found = true }
      | failed ↦ record ctx { critical_error = true }
      | link ↦ record ctx { contains_symlink = true }
      | node ↦ ctx
    ] in
    (ctx', not ctx'.file_not_found && not ctx'.critical_error && not ctx'.contains_symlink)

abbrev pub unchecked : SymlinkCheck
unchecked = record { critical_error = false; file_not_found = false; contains_symlink = false }

unfoldable pub path_contains_symlink : (Bytes → LstatResult) → Bytes → SymlinkCheck
path_contains_symlink lstat path = path_split (path_contains_symlink_callback lstat) path unchecked

-- One byte at the end goes if it is `b`.
strip_byte : ℕ → Bytes → Bytes
strip_byte b s =
    if ltb 0 (length s) && (char_at s (length s - 1) == b) then take (length s - 1) s else s

unfoldable pub strip_crlf : Bytes → Bytes
unfolding strip_byte
strip_crlf s = strip_byte b'\r' (strip_byte b'\n' s)

-- What stands behind the last slash: `strrchr(path, '/') + 1`.
behind_last : Bytes → Option Bytes
behind_last [] = none
behind_last (c ∷ path) = elim (behind_last path) [
  | some s ↦ some s
  | none ↦ (if c == slash then some path else none)
]

-- `const_basename`; with no slash it adds to a NULL pointer.
unfoldable pub const_basename : Bytes → Outcome Bytes
unfolding behind_last
const_basename path = elim (behind_last path) [ some s ↦ done s | none ↦ undefined ]
