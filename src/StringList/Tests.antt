-- ===== src/StringList/Tests.antt =====
-- stringlist.c and its theorems on concrete lists.
use mathlib.Core.List.{Perm}
use umsftpd.Prelude.{◌≡◌, true, false, ◌&&◌, ◌||◌, [], ◌∷◌, codes, str_eq}
use umsftpd.StringList.{StringList, insert, contains}
use umsftpd.StringList.Sort.{elem}
use umsftpd.StringList.Search.{IsOrdered, contains-elem, contains-insert}

abbrev unsorted : StringList
unsorted = record { strings = codes "c" ∷ codes "a" ∷ codes "b" ∷ []; sorted = false }

unsorted-IsOrdered : IsOrdered unsorted
unsorted-IsOrdered = λ e. cc

contains-elem_example :
    ((contains unsorted (codes "a")).1 ≡ elem (codes "a") unsorted.strings)
    × Perm (contains unsorted (codes "a")).0.strings unsorted.strings
    × IsOrdered (contains unsorted (codes "a")).0
contains-elem_example = contains-elem unsorted (codes "a") unsorted-IsOrdered

contains-insert_example :
    ((insert true true unsorted (codes "d")).1 ≡ true && true)
    × ((contains (insert true true unsorted (codes "d")).0 (codes "d")).1
        ≡ (contains unsorted (codes "d")).1
          || ((insert true true unsorted (codes "d")).1 && str_eq (codes "d") (codes "d")))
contains-insert_example =
    contains-insert true true unsorted (codes "d") (codes "d") unsorted-IsOrdered
