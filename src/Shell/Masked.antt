-- ===== src/Shell/Masked.antt =====
-- The permissions that the listing of vfsdebug.c shows for the entries of vfs.c.
use umsftpd.Prelude.{
  ℕ, ◌-◌, ◌%◌, ◌^◌, ◌<◌, ◌≡◌, refl, ap, ◌∙◌, Bool, true, false, [], ◌∷◌, Bytes, codes, all_below,
  all_below_sound, str_eq, str_eq→eq, ◌==◌, bit_and, if◌then◌else◌, arith,
}
use umsftpd.Prelude.Bits.{bit_and_mask}
use umsftpd.Vfs.{has_flag, flag_read_only}
use umsftpd.Vfs.System.{Stat}
use umsftpd.Vfs.Stat.{stat_statbuf, stat_virtual_directory}
use umsftpd.Shell.Print.{mode_text}

-- A mode without its permissions to write.
abbrev pub mask_w : Bytes → Bytes
mask_w [] = []
mask_w (c ∷ s) = (if c == b'w' then b'-' else c) ∷ mask_w s

mask_table :
    all_below 512
      (λ p. str_eq (mode_text 3 (bit_and p (2 ^ 16 - 1 - 146))) (mask_w (mode_text 3 p)))
    ≡ true
mask_table = refl

masked : (p : ℕ) → p < 512 → mode_text 3 (bit_and p (2 ^ 16 - 1 - 146)) ≡ mask_w (mode_text 3 p)
masked p h = str_eq→eq (mode_text 3 (bit_and p (2 ^ 16 - 1 - 146))) (mask_w (mode_text 3 p)) (
    all_below_sound 512
      (λ p. str_eq (mode_text 3 (bit_and p (2 ^ 16 - 1 - 146))) (mask_w (mode_text 3 p))) p
      mask_table h)

-- The mode that is shown for a file of the host is its own, and one for a virtual directory is
-- "rwxr-xr-x"; where the flags say read-only, each of them is shown without its permissions to write.
pub mode_text-stat :
    (s : Stat) (name : Bytes) (flags : ℕ)
    → (mode_text 3 (stat_statbuf s name flags).permissions ≡ (
        if has_flag flags flag_read_only
        then mask_w (mode_text 3 (s.st_mode % 512))
        else mode_text 3 (s.st_mode % 512)))
      × (mode_text 3 (stat_virtual_directory name flags).permissions ≡ (
          if has_flag flags flag_read_only then mask_w (codes "rwxr-xr-x") else codes "rwxr-xr-x"))
unfolding stat_statbuf stat_virtual_directory
mode_text-stat s name flags =
    let m : bit_and s.st_mode 511 ≡ s.st_mode % 512 = bit_and_mask 9 s.st_mode in
    let small : s.st_mode % 512 < 512 = omega arith in
    let shown =
      ap (λ p. mode_text 3 (bit_and p (2 ^ 16 - 1 - 146))) m ∙ masked (s.st_mode % 512) small in
    (
      by_flag (has_flag flags flag_read_only) (bit_and (bit_and s.st_mode 511) (2 ^ 16 - 1 - 146))
          (bit_and s.st_mode 511) shown (ap (mode_text 3) m),
      by_kind (has_flag flags flag_read_only),
    )
  where
    by_flag :
        (b : Bool) (p q : ℕ) {x y : Bytes}
        → mode_text 3 p ≡ x
        → mode_text 3 q ≡ y
        → mode_text 3 (if b then p else q) ≡ (if b then x else y)
    by_flag true p q e f = e
    by_flag false p q e f = f

    by_kind :
        (b : Bool)
        → mode_text 3 (if b then 365 else 493)
          ≡ (if b then mask_w (codes "rwxr-xr-x") else codes "rwxr-xr-x")
    by_kind true = refl
    by_kind false = refl
