-- ===== src/Vfs/Fixture.antt =====
-- A small file system, and an operating system for it, for the tests.
use mathlib.Core.List.Permᴰ
use umsftpd.Prelude.{
  refl, Bool, true, false, List, [], ◌∷◌, Option, none, some, Bytes, All, codes, arith,
}
use umsftpd.Paths.Names.{IsName, IsClean, render, show}
use umsftpd.Paths.Checks.{LstatResult}
use umsftpd.StringList.{StringList, empty}
use umsftpd.StringList.Sort.{elem}
use umsftpd.Vfs.Node.{Handle, HandleType}
use umsftpd.Vfs.{Inode, Vfs, Memory, zeroed}
use umsftpd.Vfs.Insert.Step.{Granted}
use umsftpd.Vfs.System.{StatResult, stat_failed, Errno, FopenResult, fopen_done}
use umsftpd.Vfs.Node.Mapped.{IsVfs}
use umsftpd.Vfs.Keep.{Sorts}

abbrev pub granted : Memory
granted site path = true

abbrev pub present : Bytes → LstatResult
present path = LstatResult.node

abbrev pub missing : Option Bytes → StatResult
missing path = stat_failed Errno.enoent

abbrev pub opens : Option Bytes → Bytes → FopenResult
opens path mode = fopen_done 3

abbrev pub same_order : List Inode → List Inode
same_order ns = ns

pub granted-Granted : Granted granted
granted-Granted site path = refl

pub same_order-Sorts : Sorts same_order
same_order-Sorts ns = Permᴰ.refl ns

abbrev pub a_names : List Bytes
a_names = codes "a" ∷ []

abbrev pub ab_names : List Bytes
ab_names = codes "a" ∷ codes "b" ∷ []

pub ab-IsClean : All IsClean ab_names
ab-IsClean = (
  (((λ e. cc), (omega arith, tt)), (λ e. cc), (λ e. cc)),
  ((((λ e. cc), (omega arith, tt)), (λ e. cc), (λ e. cc)), tt),
)

pub a-IsName : All IsName a_names
a-IsName = (ab-IsClean.0.0, tt)

pub ab-IsName : All IsName ab_names
ab-IsName = (ab-IsClean.0.0, (ab-IsClean.1.0.0, tt))

-- "/a" mounted on "/t".
abbrev pub a_node : Inode
a_node = record {
  id = 0;
  parent = none;
  flags_set = 0;
  flags_reset = 0;
  virtual_path = render a_names;
  target_path = some (codes "/t");
  vlen = 2;
  tlen = 2;
  virtual_subdirs = some empty;
}

abbrev pub mounted : Vfs
mounted = record zeroed { inodes = a_node ∷ []; frozen = true; max_count = 10 }

pub mounted-IsVfs : IsVfs mounted
mounted-IsVfs = record {
  table = (
    record {
      names = a_names;
      named = a-IsName;
      path = refl;
      measured = refl;
      target_measured = refl;
      list = empty;
      listed = refl;
    },
    tt,
  );
  cwd_names = [];
  cwd_clean = tt;
  cwd = refl;
}

-- A list below "/a", and a handle of the directory.
abbrev pub b_list : StringList
b_list = record { strings = codes "b" ∷ []; sorted = false }

abbrev pub hides_b : Bytes → Bool
hides_b name = elem name (codes "b" ∷ [])

abbrev pub a_handle : Handle
a_handle = record {
  type = HandleType.dir_handle (some 3) 0;
  virtual_path = show a_names;
  mapped_path = some (codes "/t");
  inode = some a_node;
  flags = 0;
}
