-- ===== src/CString/Tests.antt =====
-- The string functions on small arrays.
use bin_os_c.Base.{◌⊎◌, ◌<◌, ◌≤◌, ◌≡◌, ◌↔◌, refl, none, some, arith}
use bin_os_c.Base.Int.{ℤ, pos, negsuc}
use bin_os_c.CString.{Buffer, load, strcmp, strcpy, strncpy, strncmp, memcmp}
use bin_os_c.Terminal.{literal, codes}
use bin_os_c.Terminal.Laws.{literal-IsString}
use bin_os_c.CString.Laws.{IsString, SameFrom, strcmp-Compares}
use bin_os_c.CString.Copy.{Padded, CopiedFrom, strcpy_lem, strncpy-Padded}

abbrev ls : Buffer
ls = literal (codes "ls")

abbrev cat : Buffer
cat = literal (codes "cat")

ls-IsString : IsString ls 2
ls-IsString = literal-IsString (codes "ls") refl

cat-IsString : IsString cat 3
cat-IsString = literal-IsString (codes "cat") refl

strncmp_run : strncmp (some ls) (some cat) 1 ≡ some (pos 9)
unfolding strncmp load literal
strncmp_run = refl

memcmp_run : memcmp cat ls 3 ≡ some (negsuc 0)
unfolding memcmp load literal
memcmp_run = refl

strcmp-Compares_example :
    (r : ℤ) × (strcmp (some ls) (some cat) ≡ some r) × ((r ≡ pos 0) ↔ SameFrom ls cat 0 2 3)
strcmp-Compares_example = strcmp-Compares ls cat 2 3 ls-IsString cat-IsString

strcpy_lem_example :
    (3 < ls.size)
      × ((d : Buffer) × (strcpy (some ls) (some cat) ≡ some (some d)) × CopiedFrom ls cat d 0 3)
    ⊎ (ls.size ≤ 3) × (strcpy (some ls) (some cat) ≡ none)
strcpy_lem_example = strcpy_lem ls cat 3 cat-IsString

strncpy-Padded_example :
    (d : Buffer) × (strncpy (some cat) (some ls) 4 ≡ some (some d)) × Padded cat ls 0 2 4 d
unfolding literal
strncpy-Padded_example = strncpy-Padded cat ls 2 4 ls-IsString (omega arith)
