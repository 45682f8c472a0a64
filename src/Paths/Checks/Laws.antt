-- ===== src/Paths/Checks/Laws.antt =====
-- What the checks of strings.c find on the path of a list of names.
use umsftpd.Prelude.{
  Option-cases, Bool, true, false, ◌&&◌, ◌||◌, not, ◌↔◌, ◌≡◌, ◌≢◌, refl, List, [], ◌∷◌, ◌++◌, none,
  some, Bytes, All, arith, ◌==◌, done, append-nil, ◌⊎◌, inl, inr,
}
use umsftpd.Paths.{slash}
use umsftpd.Paths.Names.{Lacks, IsName, render, show}
use umsftpd.Paths.Split.{prefixes, run_until, path_split-show}
use umsftpd.Paths.Checks.{
  hidden_from, path_contains_hidden, LstatResult, enoent, failed, link, node, SymlinkCheck,
  path_contains_symlink_callback, unchecked, path_contains_symlink, behind_last, const_basename,
}

-- A name that begins with a dot.
abbrev pub dotted : Bytes → Bool
dotted [] = false
dotted (b ∷ c) = b == b'.'

abbrev pub any_dotted : List Bytes → Bool
any_dotted [] = false
any_dotted (c ∷ cs) = dotted c || any_dotted cs

skip_rest : (c r : Bytes) → Lacks c → hidden_from false (c ++ slash ∷ r) ≡ hidden_from true r
unfolding hidden_from
skip_rest [] r h = refl
skip_rest (b ∷ c) r h = ground (arith, skip_rest c r h.1)

hidden_last : (c : Bytes) → Lacks c → hidden_from false c ≡ false
unfolding hidden_from
hidden_last [] h = refl
hidden_last (b ∷ c) h = ground (arith, hidden_last c h.1)

hidden-render : (cs : List Bytes) → All IsName cs → hidden_from true (render cs) ≡ any_dotted cs
unfolding hidden_from
hidden-render [] h = refl
hidden-render ([] ∷ cs) h = absurd (h.0.0 refl)
hidden-render ((b ∷ c) ∷ []) h = rw append-nil (ground (arith, hidden_last c h.0.1.1))
hidden-render ((b ∷ c) ∷ d ∷ cs) h =
    ground (arith, skip_rest c (d ++ render cs) h.0.1.1, hidden-render (d ∷ cs) h.1)

-- A path contains a hidden element exactly when one of its names begins with a dot.
pub path_contains_hidden-show :
    (cs : List Bytes) → All IsName cs → path_contains_hidden (show cs) ≡ any_dotted cs
unfolding path_contains_hidden
path_contains_hidden-show [] h = refl
path_contains_hidden-show (c ∷ cs) h = hidden-render (c ∷ cs) h

-- What the prefixes of a path are, up to the first that is missing, a link or cannot be examined.
abbrev pub survey : (Bytes → LstatResult) → List (Bytes × Bool) → SymlinkCheck
survey lstat [] = unchecked
survey lstat ((path, full) ∷ rest) = elim (lstat path) [
  | enoent ↦ record unchecked { file_not_found = true }
  | failed ↦ record unchecked { critical_error = true }
  | link ↦ record unchecked { contains_symlink = true }
  | node ↦ survey lstat rest
]

run_until-survey :
    (lstat : Bytes → LstatResult) (ps : List (Bytes × Bool))
    → run_until (path_contains_symlink_callback lstat) unchecked ps ≡ survey lstat ps
unfolding path_contains_symlink_callback run_until
run_until-survey lstat [] = refl
run_until-survey lstat ((p, f) ∷ ps) = ground (arith, run_until-survey lstat ps)

-- No prefix is a symbolic link or unreadable, up to the first that does not exist.
abbrev pub LinkFree : (Bytes → LstatResult) → List (Bytes × Bool) → Type 0
LinkFree lstat [] = Unit
LinkFree lstat ((path, full) ∷ rest) =
    (lstat path ≡ enoent) ⊎ ((lstat path ≡ node) × LinkFree lstat rest)

abbrev pub accepted : SymlinkCheck → Bool
accepted r = not r.critical_error && not r.contains_symlink

survey_node :
    (lstat : Bytes → LstatResult) (p : Bytes) (f : Bool) (ps : List (Bytes × Bool))
    → lstat p ≡ node
    → (accepted (survey lstat ps) ≡ true) ↔ LinkFree lstat ps
    → (accepted (survey lstat ((p, f) ∷ ps)) ≡ true) ↔ LinkFree lstat ((p, f) ∷ ps)
survey_node lstat p f ps e (there, back) = (
  λ h. inr (e, there (ground arith)),
  λ h. elim h [ inl absent ↦ cc | inr (plain, rest) ↦ rw (e, survey) (back rest) ],
)

survey_stop :
    (lstat : Bytes → LstatResult) (p : Bytes) (f : Bool) (ps : List (Bytes × Bool))
    (r : LstatResult)
    → lstat p ≡ r
    → r ≢ node
    → (accepted (survey lstat ((p, f) ∷ ps)) ≡ true) ↔ LinkFree lstat ((p, f) ∷ ps)
survey_stop lstat p f ps enoent e ne = (λ h. inl e, λ h. ground arith)
survey_stop lstat p f ps failed e ne = (λ h. ground arith, λ h. ground arith)
survey_stop lstat p f ps link e ne = (λ h. ground arith, λ h. ground arith)
survey_stop lstat p f ps node e ne = absurd (ne refl)

LstatResult-discrete : Discrete LstatResult
LstatResult-discrete = hlevel

survey-LinkFree :
    (lstat : Bytes → LstatResult) (ps : List (Bytes × Bool))
    → (accepted (survey lstat ps) ≡ true) ↔ LinkFree lstat ps
survey-LinkFree lstat [] = (λ e. tt, λ e. refl)
survey-LinkFree lstat ((p, f) ∷ ps) = elim (LstatResult-discrete (lstat p) node) [
  | yes e ↦ survey_node lstat p f ps e (survey-LinkFree lstat ps)
  | no ne ↦ survey_stop lstat p f ps (lstat p) refl ne
]

-- The check accepts the path of a list of names exactly when none of its prefixes is a symbolic
-- link or fails to be examined, up to the first prefix that does not exist.
pub path_contains_symlink-LinkFree :
    (lstat : Bytes → LstatResult) (cs : List Bytes)
    → All IsName cs
    → (accepted (path_contains_symlink lstat (show cs)) ≡ true) ↔ LinkFree lstat (prefixes cs)
unfolding path_contains_symlink
path_contains_symlink-LinkFree lstat cs h =
    rw (path_split-show (path_contains_symlink_callback lstat) cs unchecked h)
      (rw (run_until-survey lstat (prefixes cs)) (survey-LinkFree lstat (prefixes cs)))

behind_last_name : (c : Bytes) → Lacks c → behind_last c ≡ none
unfolding behind_last
behind_last_name [] h = refl
behind_last_name (b ∷ c) h = ground (arith, behind_last_name c h.1)

behind_last-append : (x : Bytes) (c : Bytes) → Lacks c → behind_last (x ++ slash ∷ c) ≡ some c
unfolding behind_last
behind_last-append [] c h = ground (arith, behind_last_name c h)
behind_last-append (b ∷ x) c h = ground (arith, behind_last-append x c h)

-- The base name of a path is its last name.
pub const_basename-append : (x c : Bytes) → Lacks c → const_basename (x ++ slash ∷ c) ≡ done c
unfolding const_basename
const_basename-append x c h = rw (behind_last-append x c h, const_basename)

-- An absolute path has a base name.
pub const_basename-slash : (s : Bytes) → (name : Bytes) × (const_basename (slash ∷ s) ≡ done name)
unfolding const_basename behind_last
const_basename-slash s = elim (Option-cases (behind_last s)) [
  | inl e ↦ (s, rw (e, const_basename) refl)
  | inr (name, e) ↦ (name, rw (e, const_basename) refl)
]
