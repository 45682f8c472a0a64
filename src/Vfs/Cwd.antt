-- ===== src/Vfs/Cwd.antt =====
-- The working directory of vfs.c: `vfs_set_cwd` and what it keeps.
use umsftpd.Prelude.{
  ℕ, ◌+◌, ◌≤◌, ◌≡◌, refl, Bool, true, false, not, List, [], ◌∷◌, Bytes, All, arith, length, ltb,
  if◌then◌else◌, if-cases,
}
use umsftpd.Paths.{is_absolute_path, truncate_trailing_slash}
use umsftpd.Paths.Names.{IsName, render, show}
use umsftpd.Paths.Compare.{truncate-show}
use umsftpd.Vfs.{Vfs, Memory, Site, InternalError, set_error, set_cwd}

-- The buffer of the working directory holds it and its terminating zero.
abbrev pub FitsBuffer : Vfs → Type 0
FitsBuffer vfs = length vfs.cwd_path + 1 ≤ vfs.cwd_alloced_size

length-truncate :
    (cs : List Bytes)
    → All IsName cs
    → length (truncate_trailing_slash (show cs)) ≤ length (show cs)
length-truncate [] h = rw (truncate-show [] h) (omega arith)
length-truncate (c ∷ cs) h = rw (truncate-show (c ∷ cs) h) (omega arith)

ltb-false : (a b : ℕ) → ltb a b ≡ false → b ≤ a
ltb-false a b e = ground arith

-- What `vfs_set_cwd` may change, and how.
abbrev pub Moved : Vfs → List Bytes → Vfs × Bool → Type 0
Moved vfs cs (vfs', success) =
    (vfs'.inodes ≡ vfs.inodes)
    × (vfs'.frozen ≡ vfs.frozen)
    × (vfs'.cwd_path ≡ (if success then render cs else vfs.cwd_path))
    × (FitsBuffer vfs → FitsBuffer vfs')

-- Changing to a path of names either fails and keeps the directory, or makes it these names; inodes
-- and freezing stay, and a buffer that holds the directory and its terminating zero still does.
pub set_cwd-show :
    (mem : Memory) (vfs : Vfs) (cs : List Bytes)
    → All IsName cs
    → Moved vfs cs (set_cwd mem vfs (show cs))
unfolding set_cwd
set_cwd-show mem vfs cs h =
    let path = truncate_trailing_slash (show cs) in
    let len = length (show cs) in
    let illegal : Vfs × Bool = (set_error vfs InternalError.cwd_illegal, false) in
    let no_memory : Vfs × Bool = (set_error vfs InternalError.cwd_out_of_memory, false) in
    let grown : Vfs × Bool =
      (record vfs { cwd_path = path; cwd_length = len; cwd_alloced_size = len + 1 }, true) in
    let kept : Vfs × Bool = (record vfs { cwd_path = path }, true) in
    let bound : length path ≤ len = length-truncate cs h in
    let small = ltb vfs.cwd_alloced_size (len + 1) in
    let some_memory = mem Site.cwd_buffer (show cs) in
    if-cases (Moved vfs cs) (not (is_absolute_path (show cs))) {x = illegal}
      {y = if small then (if some_memory then grown else no_memory) else kept}
      (λ e. (refl, refl, refl, λ f. f))
      (λ e.
        if-cases (Moved vfs cs) small {x = if some_memory then grown else no_memory} {y = kept}
          (λ less.
            if-cases (Moved vfs cs) some_memory {x = grown} {y = no_memory}
              (λ m. (refl, refl, truncate-show cs h, λ f. omega (arith, bound)))
              (λ m. (refl, refl, refl, λ f. f)))
          (λ less. (
            refl,
            refl,
            truncate-show cs h,
            λ f. omega (arith, bound, ltb-false vfs.cwd_alloced_size (len + 1) less),
          )))
