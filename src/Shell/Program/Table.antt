-- ===== src/Shell/Program/Table.antt =====
-- The file system that `main` of vfsdebug.c sets up.
use mathlib.Core.List.{map}
use mathlib.Core.Path.{subst}
use umsftpd.Prelude.{
  ℕ, ◌≡◌, refl, ap, ◌∙◌, Bool, true, false, not, ◌&&◌, ◌||◌, ◌==◌, str_eq, List, [], ◌∷◌, ◌++◌,
  Option, none, some, Bytes, All, codes, arith, Outcome, done, undefined, ◌>>=◌,
}
use umsftpd.Paths.{slash, is_absolute_path, truncate_trailing_slash, truncated}
use umsftpd.Paths.Names.{IsName, show}
use umsftpd.Vfs.{Inode, Vfs, Memory, Site, zeroed, set_cwd, init, find_in}
use umsftpd.Vfs.Lookup.{freeze_inodes, freeze_now}
use umsftpd.Vfs.Node.Mapped.{IsVfs}
use umsftpd.Vfs.Keep.{freeze-IsVfs}
use umsftpd.Vfs.Freeze.{SortsUp, freeze_inodes_lem}
use umsftpd.Vfs.Table.{Entry, entries, or_else}
use umsftpd.Vfs.Insert.{given_relative}
use umsftpd.Vfs.Insert.Step.{IsTable, Granted, new_entry}
use umsftpd.Vfs.Insert.Grown.{grown}
use umsftpd.Vfs.Insert.Refine.{add_inode_refines}
use umsftpd.Vfs.Insert.Distinct.{add_inode-IsDistinct}
use umsftpd.Vfs.Unique.{IfDone, paths, IsDistinct}
use umsftpd.Shell.Program.{Mount, mount, mounts, add_mounts, set_up}

-- A mount by the names of its path.
pub record Named : Type 0 where
  pub names : List Bytes
  pub target : Option Bytes
  pub set : ℕ
  pub reset : ℕ

abbrev pub named : List Bytes → Option Bytes → ℕ → ℕ → Named
named names target set reset = record { names = names; target = target; set = set; reset = reset }

abbrev mount_of : Named → Mount
mount_of n = mount (show n.names) n.target n.set n.reset

abbrev virt : List Bytes → List Bytes
virt names = codes "virt" ∷ names

abbrev pub incoming : Bytes
incoming = codes "incoming"

-- The mounts for reading only, and the last one.
abbrev pub read_only : List Named
read_only =
    named [] (some (codes "/tmp")) 1 0
    ∷ named (virt []) none 1 0
    ∷ named (virt (codes "sub1" ∷ [])) none 1 0
    ∷ named (virt (codes "sub2" ∷ [])) none 1 0
    ∷ named (virt (codes "abcd" ∷ [])) none 1 0
    ∷ named (codes "b" ∷ []) (some (codes "/bin")) 1 0
    ∷ []

abbrev pub writable : Named
writable = named (incoming ∷ []) (some (codes "/tmp/incoming")) 0 1

abbrev all_named : List Named
all_named = read_only ++ writable ∷ []

mounts_named : mounts ≡ map mount_of all_named
mounts_named = refl

-- The map with some more mounts.
abbrev pub with_mount : (List Bytes → Option Entry) → Named → List Bytes → Option Entry
with_mount e n es = or_else (e es) (grown n.names (new_entry n.target n.set n.reset) es)

abbrev pub with_mounts : (List Bytes → Option Entry) → List Named → List Bytes → Option Entry
with_mounts e [] = e
with_mounts e (n ∷ ns) = with_mounts (with_mount e n) ns

-- Each mount finds its place free.
abbrev AreFree : (List Bytes → Option Entry) → List Named → Type 0
AreFree e [] = Unit
AreFree e (n ∷ ns) =
    (given_relative n.target ≡ false)
    × ((e n.names ≡ none) × (All IsName n.names × AreFree (with_mount e n) ns))

abbrev pub Is : List Inode → (List Bytes → Option Entry) → Type 0
Is ns e = (es : List Bytes) → All IsName es → entries ns es ≡ e es

add_mounts_lem :
    (mem : Memory) (vfs : Vfs) (e : List Bytes → Option Entry) (named : List Named)
    → Granted mem
    → IsTable vfs.inodes
    → IsDistinct (paths vfs.inodes)
    → Is vfs.inodes e
    → AreFree e named
    → (ns : List Inode) × (add_mounts mem vfs (map mount_of named)
        ≡ done (record vfs { inodes = ns }))
      × IsTable ns
      × IsDistinct (paths ns)
      × Is ns (with_mounts e named)
unfolding add_mounts
add_mounts_lem mem vfs e [] g t d same free = (vfs.inodes, refl, t, d, same)
add_mounts_lem mem vfs e (n ∷ named) g t d same (given, (empty, (h, free))) =
    let (ns, added, t', same') =
      add_inode_refines mem vfs n.names n.target n.set n.reset g t h given
        (same n.names h ∙ empty) in
    let d' : IsDistinct (paths ns) =
      subst (IfDone (λ (r : Vfs × Bool). IsDistinct (paths r.0.inodes))) added
        (add_inode-IsDistinct mem vfs n.names n.target n.set n.reset h d) in
    let vfs' : Vfs = record vfs { inodes = ns } in
    let (ms, run, t'', d'', same'') =
      add_mounts_lem mem vfs' (with_mount e n) named g t' d'
        (λ es k.
          same' es k
          ∙ ap (λ o. or_else o (grown n.names (new_entry n.target n.set n.reset) es)) (same es k))
        free in
    (
      ms,
      ap
            (λ (o : Outcome (Vfs × Bool)).
              o >>= (λ (v, success). add_mounts mem v (map mount_of named)))
            added
          ∙ run,
      t'',
      d'',
      same'',
    )

-- Names that are written out are names.
abbrev name_test : Bytes → Bool
name_test [] = false
name_test (b ∷ s) = not (b == slash) && (str_eq s [] || name_test s)

name_test-IsName : (s : Bytes) → name_test s ≡ true → IsName s
name_test-IsName [] h = cc
name_test-IsName (b ∷ []) h = ((λ e. cc), (ground arith, tt))
name_test-IsName (b ∷ c ∷ s) h =
    let rest = name_test-IsName (c ∷ s) in
    let more : name_test (c ∷ s) ≡ true = ground arith in ((λ e. cc), (ground arith, (rest more).1))

-- What `vfs_init` makes.
abbrev started : Vfs
started = record zeroed { cwd_path = []; cwd_length = 1; cwd_alloced_size = 2; max_count = 10 }

init-Granted : (mem : Memory) → Granted mem → init mem ≡ some started
unfolding init set_cwd truncate_trailing_slash truncated is_absolute_path
init-Granted mem g = rw (g Site.vfs_memory [], g Site.cwd_buffer (codes "/")) refl

-- The map of the program's mounts.
abbrev pub mounted_map : List Bytes → Option Entry
mounted_map = with_mounts (λ es. none) all_named

all_named-AreFree : AreFree (λ es. none) all_named
unfolding is_absolute_path
all_named-AreFree =
    let v = name_test-IsName (codes "virt") refl in
    let below : (s : Bytes) → name_test s ≡ true → All IsName (virt (s ∷ [])) =
      λ s h. (v, (name_test-IsName s h, tt)) in
    (
      refl,
      (
        refl,
        (
          tt,
          (
            refl,
            (
              refl,
              (
                (v, tt),
                (
                  refl,
                  (
                    refl,
                    (
                      below (codes "sub1") refl,
                      (
                        refl,
                        (
                          refl,
                          (
                            below (codes "sub2") refl,
                            (
                              refl,
                              (
                                refl,
                                (
                                  below (codes "abcd") refl,
                                  (
                                    refl,
                                    (
                                      refl,
                                      (
                                        (name_test-IsName (codes "b") refl, tt),
                                        (refl, (refl, ((name_test-IsName incoming refl, tt), tt))),
                                      ),
                                    ),
                                  ),
                                ),
                              ),
                            ),
                          ),
                        ),
                      ),
                    ),
                  ),
                ),
              ),
            ),
          ),
        ),
      ),
    )

-- A file system as the program sets it up.
pub record IsProgram (vfs : Vfs) : Type 0 where
  pub well_formed : IsVfs vfs
  pub frozen : vfs.frozen ≡ true
  pub no_flags : vfs.base_flags ≡ 0
  pub mounted : Is vfs.inodes mounted_map

pub set_up_lem :
    (mem : Memory) (qsort : List Inode → List Inode)
    → Granted mem
    → SortsUp qsort
    → (vfs : Vfs) × (set_up mem qsort ≡ done vfs) × IsProgram vfs
unfolding set_up freeze_inodes freeze_now find_in
set_up_lem mem qsort g s =
    let (ns, run, t, d, same) =
      add_mounts_lem mem started (λ es. none) all_named g tt tt (λ es k. refl) all_named-AreFree in
    let vfs : Vfs = record started { inodes = ns } in
    let v : IsVfs vfs = record { table = t; cwd_names = []; cwd_clean = tt; cwd = refl } in
    let (f, kept, up) = freeze_inodes_lem qsort vfs s t d in
    (
      freeze_inodes qsort vfs,
      ap
            (λ (o : Option Vfs). elim o [
              | none ↦ undefined
              | some w ↦ add_mounts mem w mounts >>= (λ w'. done (freeze_inodes qsort w'))
            ])
            (init-Granted mem g)
          ∙ ap (λ (o : Outcome Vfs). o >>= (λ w'. done (freeze_inodes qsort w'))) run,
      record {
        well_formed = freeze-IsVfs qsort vfs s.0 v;
        frozen = f;
        no_flags = refl;
        mounted = λ es k. kept es k ∙ same es k;
      },
    )
