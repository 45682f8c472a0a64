-- ===== src/Vfs/Release.antt =====
-- vfs.c: `vfs_free`, with `stringlist_free` of stringlist.c. What is released is a list of blocks of
-- memory, in the order of the calls of `free`; `free(NULL)` releases nothing.
pub mod Fields
pub mod Once
use mathlib.Core.List.{map}
use umsftpd.Prelude.{
  ℕ, ◌+◌, Bool, true, false, not, ◌&&◌, List, [], ◌∷◌, ◌++◌, Option, none, some, Bytes, length, ltb,
  ◌==◌, str_eq, if◌then◌else◌, Outcome, done, undefined, ◌>>=◌,
}
use umsftpd.StringList.{StringList}
use umsftpd.Vfs.{Inode, Vfs}

-- The blocks of memory of an inode: the fields that point to one, those of its list, and itself.
pub data Field : Type 0 where
  virtual_path target_path inode_struct list_struct list_array : Field
  list_string : ℕ → Field

-- The blocks of a file system. Those of an inode are named by its virtual path.
pub data Block : Type 0 where
  vfs_struct cwd_path inode_array : Block
  of_inode : Bytes → Field → Block

-- The loop of `stringlist_free`, from an index.
unfoldable pub free_strings : ℕ → List Bytes → List Field
free_strings i [] = []
free_strings i (s ∷ strings) = Field.list_string i ∷ free_strings (i + 1) strings

-- The array of the strings is NULL until the first string is inserted.
abbrev pub strings_block : List Bytes → List Field
strings_block [] = []
strings_block (s ∷ strings) = Field.list_array ∷ []

-- `stringlist_free`, which dereferences its argument.
unfoldable pub stringlist_free : Option StringList → Outcome (List Field)
unfolding free_strings
stringlist_free none = undefined
stringlist_free (some list) =
    done (free_strings 0 list.strings ++ strings_block list.strings ++ Field.list_struct ∷ [])

abbrev pub target_block : Option Bytes → List Field
target_block none = []
target_block (some t) = Field.target_path ∷ []

-- One turn of the loop of `vfs_free`.
unfoldable pub free_inode : Inode → Outcome (List Field)
unfolding stringlist_free
free_inode n = do
  list ← stringlist_free n.virtual_subdirs
  done (Field.virtual_path ∷ target_block n.target_path ++ list ++ Field.inode_struct ∷ [])

-- The loop of `vfs_free`.
unfoldable pub free_inodes : List Inode → Outcome (List Block)
unfolding free_inode
free_inodes [] = done []
free_inodes (n ∷ inodes) = do
  fields ← free_inode n
  blocks ← free_inodes inodes
  done (map (Block.of_inode n.virtual_path) fields ++ blocks)

-- The array of the inodes is NULL until the first is added.
abbrev pub array_block : List Inode → List Block
array_block [] = []
array_block (n ∷ inodes) = Block.inode_array ∷ []

-- `vfs_free`. The working directory is NULL while no memory is allocated for it.
unfoldable pub free : Option Vfs → Outcome (List Block)
unfolding free_inodes
free none = done []
free (some vfs) = do
  blocks ← free_inodes vfs.inodes
  done (
      (if vfs.cwd_alloced_size == 0 then [] else Block.cwd_path ∷ [])
      ++ blocks
      ++ array_block vfs.inodes
      ++ Block.vfs_struct ∷ [])
