-- ===== src/Paths/Names.antt =====
-- Paths as lists of names: what the byte-level functions of strings.c are compared with.
use umsftpd.Prelude.{◌≡◌, refl, true, false, ◌≢◌, List, [], ◌∷◌, ◌++◌, Bytes, All, codes, ◌==◌}
use umsftpd.Paths.{is_absolute_path, slash}

-- No slash among the bytes.
abbrev pub Lacks : Bytes → Type 0
Lacks = All (λ c. c ≢ slash)

-- A name that can stand between slashes.
abbrev pub IsName : Bytes → Type 0
IsName c = (c ≢ []) × Lacks c

-- A name that is neither the directory itself nor its parent.
abbrev pub IsClean : Bytes → Type 0
IsClean c = IsName c × (c ≢ codes ".") × (c ≢ codes "..")

-- The names of a path, a slash before each.
abbrev pub render : List Bytes → Bytes
render [] = []
render (c ∷ cs) = slash ∷ (c ++ render cs)

-- The path of a list of names; the empty one is the root.
abbrev pub show : List Bytes → Bytes
show [] = slash ∷ []
show (c ∷ cs) = render (c ∷ cs)

-- The parts of a text between slashes, empty ones included; the first argument is the part begun.
abbrev pub parts : Bytes → Bytes → List Bytes
parts cur [] = cur ∷ []
parts cur (c ∷ s) = elim (c == slash) [ true ↦ cur ∷ parts [] s | false ↦ parts (cur ++ c ∷ []) s ]

pub is_absolute_path-show : (cs : List Bytes) → is_absolute_path (show cs) ≡ true
unfolding is_absolute_path
is_absolute_path-show [] = refl
is_absolute_path-show (c ∷ cs) = refl
