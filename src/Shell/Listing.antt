-- ===== src/Shell/Listing.antt =====
-- A line of the listing of vfsdebug.c, read back.
use umsftpd.Prelude.{
  ℕ, ◌+◌, ◌-◌, ◌^◌, ◌<◌, ◌≡◌, refl, sym, ap, ◌∙◌, Bool, true, false, not, ◌||◌, [], ◌∷◌, ◌++◌,
  Bytes, codes, length, length-append, take, take-append, drop, drop-append, ◌==◌, if◌then◌else◌,
  arith,
}
use umsftpd.Prelude.Printf.{column}
use umsftpd.Vfs.Stat.{Dirent}
use umsftpd.Shell.Print.{mode_text, dirent_color, escape, print_dirent_color, print_dirent}
use umsftpd.Shell.Reader.{
  Listed, skip, behind, has_x, drop_last, read_name, read_number, read_mode, read_line, may_execute,
  read_number-column, behind-column, read_mode-mode_text, has_x-mode_text,
}

drop_last-append : (s t : Bytes) → drop_last (length t) (s ++ t) ≡ s
drop_last-append s t =
    let kept : length (s ++ t) - length t ≡ length s = omega (arith, length-append s t) in
    ap (λ n. take n (s ++ t)) kept ∙ take-append s t

-- The name is found between the signs of its colour.
read_name-colored :
    (b : Bool) (color : ℕ) (name : Bytes)
    → read_name (not b) (
        (if b then [] else escape (codes "[01;3") ++ (b'0' + color) ∷ codes "m")
        ++ (name ++ ((if b then [] else escape (codes "[0m")) ++ codes "\n")))
      ≡ name
read_name-colored true color name = drop_last-append name (codes "\n")
read_name-colored false color name = drop_last-append name (escape (codes "[0m") ++ codes "\n")

abbrev pub listed : Bool → ℕ → ℕ → ℕ → ℕ → Bytes → Listed
listed is_file permissions uid gid filesize filename = record {
  is_file = is_file;
  permissions = permissions;
  uid = uid;
  gid = gid;
  filesize = filesize;
  filename = filename;
}

listed_same :
    {b : Bool} {p p' u u' g g' z z' : ℕ} {n n' : Bytes}
    → p ≡ p'
    → u ≡ u'
    → g ≡ g'
    → z ≡ z'
    → n ≡ n'
    → listed b p u g z n ≡ listed b p' u' g' z' n'
listed_same hp hu hg hz hn = cc

-- The columns behind the type and the mode.
module _ (uid gid filesize : ℕ) (time tail : Bytes) where
  at_time : Bytes
  at_time = b' ' ∷ b' ' ∷ (time ++ b' ' ∷ b' ' ∷ tail)

  at_size : Bytes
  unfolding at_time
  at_size = b' ' ∷ b' ' ∷ b' ' ∷ (column 8 filesize ++ at_time)

  at_gid : Bytes
  unfolding at_size
  at_gid = b' ' ∷ (column 4 gid ++ at_size)

  abbrev columns : Bytes
  columns = b' ' ∷ b' ' ∷ b' ' ∷ (column 4 uid ++ at_gid)

  to_gid : behind (skip columns) ≡ at_gid
  unfolding at_gid
  to_gid = behind-column 4 uid (column 4 gid ++ at_size)

  to_size : behind (skip (behind (skip columns))) ≡ at_size
  unfolding at_gid at_size
  to_size =
      ap (λ t. behind (skip t)) to_gid
      ∙ behind-column 4 gid (b' ' ∷ b' ' ∷ (column 8 filesize ++ at_time))

  to_time : behind (skip (behind (skip (behind (skip columns))))) ≡ at_time
  unfolding at_size at_time
  to_time =
      ap (λ t. behind (skip t)) to_size
      ∙ behind-column 8 filesize (b' ' ∷ (time ++ b' ' ∷ b' ' ∷ tail))

  to_tail :
      length time ≡ 19
      → drop 2 (drop 19 (drop 2 (behind (skip (behind (skip (behind (skip columns)))))))) ≡ tail
  unfolding at_time
  to_tail h =
      ap (λ t. drop 2 (drop 19 (drop 2 t))) to_time
      ∙ ap (λ n. drop 2 (drop n (time ++ b' ' ∷ b' ' ∷ tail))) (sym h)
      ∙ ap (drop 2) (drop-append time (b' ' ∷ b' ' ∷ tail))

  read_columns :
      (is_file : Bool) (permissions : ℕ) (x : Bool)
      → permissions < 512
      → uid < 2 ^ 64
      → gid < 2 ^ 64
      → filesize < 2 ^ 64
      → length time ≡ 19
      → listed is_file
          (read_mode (mode_text 3 permissions))
          (read_number columns)
          (read_number (behind (skip columns)))
          (read_number (behind (skip (behind (skip columns)))))
          (read_name x
            (drop 2 (drop 19 (drop 2 (behind (skip (behind (skip (behind (skip columns))))))))))
        ≡ listed is_file permissions uid gid filesize (read_name x tail)
  unfolding at_gid at_size at_time
  read_columns is_file permissions x hp hu hg hz ht =
      listed_same (read_mode-mode_text permissions hp)
        (read_number-column 4 uid (column 4 gid ++ at_size) hu)
        (ap read_number to_gid
          ∙ read_number-column 4 gid (b' ' ∷ b' ' ∷ (column 8 filesize ++ at_time)) hg)
        (ap read_number to_size
          ∙ read_number-column 8 filesize (b' ' ∷ (time ++ b' ' ∷ b' ' ∷ tail)) hz)
        (ap (read_name x) (to_tail ht))

color_shown :
    (is_file x : Bool)
    → (not is_file || x) ≡ not ((if not is_file then 4 else if x then 2 else 0) == 0)
color_shown true true = refl
color_shown true false = refl
color_shown false x = refl

-- What a line of the listing shows is read back: the type and the permissions of the entry, its owner and
-- group, its size, and its name, whatever characters this has. The permissions have nine bits, the
-- numbers fit their types, and the text of the time has 19 characters.
pub read_line-print_dirent :
    (time_text : ℕ → Bytes) (d : Dirent)
    → d.permissions < 512
    → d.uid < 2 ^ 16
    → d.gid < 2 ^ 16
    → d.filesize < 2 ^ 64
    → length (time_text d.mtime) ≡ 19
    → read_line (print_dirent time_text d)
      ≡ listed d.is_file d.permissions d.uid d.gid d.filesize d.filename
unfolding print_dirent print_dirent_color at_gid at_size at_time
read_line-print_dirent time_text d hp hu hg hz ht =
    by_type d.is_file
    ∙ read_columns d.uid d.gid d.filesize (time_text d.mtime) tail d.is_file d.permissions
        (not d.is_file || has_x (mode_text 3 d.permissions)) hp (omega arith) (omega arith) hz ht
    ∙ ap (listed d.is_file d.permissions d.uid d.gid d.filesize) name
  where
    tail : Bytes
    tail = print_dirent_color d true ++ (d.filename ++ (print_dirent_color d false ++ codes "\n"))

    by_type :
        (b : Bool)
        → read_line (
            (if b then codes "-" else codes "d")
            ++ (mode_text 3 d.permissions
                ++ columns d.uid d.gid d.filesize (time_text d.mtime) tail))
          ≡ listed b
              (read_mode (mode_text 3 d.permissions))
              (read_number (columns d.uid d.gid d.filesize (time_text d.mtime) tail))
              (read_number
                (behind (skip (columns d.uid d.gid d.filesize (time_text d.mtime) tail))))
              (read_number (
                behind
                  (skip (behind (skip (columns d.uid d.gid d.filesize (time_text d.mtime) tail))))))
              (read_name (not b || has_x (mode_text 3 d.permissions)) (
                drop 2 (
                  drop 19 (
                    drop 2 (
                      behind (
                        skip (
                          behind (
                            skip (
                              behind (
                                skip (
                                  columns d.uid d.gid d.filesize (time_text d.mtime) tail)))))))))))
    by_type true = refl
    by_type false = refl

    color : (not d.is_file || has_x (mode_text 3 d.permissions)) ≡ not (dirent_color d == 0)
    color =
        ap (λ x. not d.is_file || x) (has_x-mode_text d.permissions hp)
        ∙ color_shown d.is_file (may_execute d.permissions)

    name : read_name (not d.is_file || has_x (mode_text 3 d.permissions)) tail ≡ d.filename
    name =
        ap (λ x. read_name x tail) color
        ∙ read_name-colored (dirent_color d == 0) (dirent_color d) d.filename
