-- ===== src/Paths/Tests.antt =====
-- strings.c and its theorems on concrete paths.
use umsftpd.Prelude.{
  ◌≡◌, ◌↔◌, ◌⊎◌, refl, true, false, List, [], ◌∷◌, ◌++◌, none, some, Bytes, All, codes, arith, done,
}
use mathlib.Core.List.{reverse, foldl}
use umsftpd.Paths.{
  slash, is_absolute_path, pathcmp, path_split, sanitize_absolute_path, sanitize_path,
}
use umsftpd.Paths.Names.{IsName, IsClean, render, show, parts}
use umsftpd.Paths.Buffer.{walk, step}
use umsftpd.Paths.Split.{prefixes, run_until, path_split-show}
use umsftpd.Paths.Compare.{pathcmp-render}
use umsftpd.Paths.Sanitize.{
  sanitize_absolute_path_lem, sanitize_absolute_path_cases, sanitize_path-relative, resolve,
}
use umsftpd.Paths.Checks.{
  LstatResult, path_contains_hidden, path_contains_symlink, path_contains_symlink_callback,
  unchecked,
}
use umsftpd.Paths.Checks.Laws.{
  path_contains_hidden-show, path_contains_symlink-LinkFree, LinkFree, accepted, any_dotted,
}

abbrev two_names : List Bytes
two_names = codes "a" ∷ codes "bc" ∷ []

abbrev dotted_names : List Bytes
dotted_names = codes "a" ∷ codes ".b" ∷ []

a-IsClean : IsClean (codes "a")
a-IsClean = (((λ e. cc), (omega arith, tt)), (λ e. cc), (λ e. cc))

bc-IsClean : IsClean (codes "bc")
bc-IsClean = (((λ e. cc), (omega arith, (omega arith, tt))), (λ e. cc), (λ e. cc))

dotted-IsName : IsName (codes ".b")
dotted-IsName = ((λ e. cc), (omega arith, (omega arith, tt)))

two-IsClean : All IsClean two_names
two-IsClean = (a-IsClean, (bc-IsClean, tt))

two-IsName : All IsName two_names
two-IsName = (a-IsClean.0, (bc-IsClean.0, tt))

sanitize_absolute_path_lem_example :
    sanitize_absolute_path true (slash ∷ codes "a/../bc//.")
    ≡ done (some (show (reverse (walk (codes "a/../bc//.")))))
sanitize_absolute_path_lem_example = sanitize_absolute_path_lem (codes "a/../bc//.")

-- The path of that example in full.
walk_test : show (reverse (walk (codes "a/../bc//."))) ≡ codes "/bc"
walk_test = refl

sanitize_absolute_path_cases_example :
    (((is_absolute_path (codes "/a/..") ≡ false) ⊎ (true ≡ false))
      × (sanitize_absolute_path true (codes "/a/..") ≡ done none))
    ⊎ ((s : Bytes) × (codes "/a/.." ≡ slash ∷ s)
        × (sanitize_absolute_path true (codes "/a/..") ≡ done (some (show (resolve s)))))
sanitize_absolute_path_cases_example = sanitize_absolute_path_cases true (codes "/a/..")

relative_test : is_absolute_path (codes "../x") ≡ false
unfolding is_absolute_path
relative_test = refl

sanitize_path-relative_example :
    sanitize_path true (render two_names) (codes "../x")
    ≡ done (some (show (reverse (foldl step (reverse two_names) (parts [] (codes "../x"))))))
sanitize_path-relative_example =
    sanitize_path-relative two_names (codes "../x") two-IsClean relative_test

path_split-show_example :
    path_split (path_contains_symlink_callback (λ p. LstatResult.node)) (show two_names) unchecked
    ≡ run_until
        (path_contains_symlink_callback (λ p. LstatResult.node))
        unchecked
        (prefixes two_names)
path_split-show_example =
    path_split-show (path_contains_symlink_callback (λ p. LstatResult.node)) two_names unchecked
      two-IsName

pathcmp-render_example :
    ((pathcmp (render two_names) (show two_names) ≡ true) ↔ (two_names ≡ two_names))
    × ((pathcmp (render two_names) (render two_names ++ slash ∷ []) ≡ true)
        ↔ (two_names ≡ two_names))
pathcmp-render_example = pathcmp-render two_names two_names two-IsName two-IsName

path_contains_hidden-show_example :
    path_contains_hidden (show dotted_names) ≡ any_dotted dotted_names
path_contains_hidden-show_example =
    path_contains_hidden-show dotted_names (a-IsClean.0, (dotted-IsName, tt))

path_contains_symlink-LinkFree_example :
    (accepted (path_contains_symlink (λ p. LstatResult.node) (show two_names)) ≡ true)
    ↔ LinkFree (λ p. LstatResult.node) (prefixes two_names)
path_contains_symlink-LinkFree_example =
    path_contains_symlink-LinkFree (λ p. LstatResult.node) two_names two-IsName
