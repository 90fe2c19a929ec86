-- ===== src/Path/Tests.antt =====
-- Runs of `vfs_abspath`, and the theorems at concrete paths.
use Prim.Native.String.{String}
use Prim.Native.Char.{code}
use sifar_os.Common.{◌<◌, ◌≡◌, ◌≢◌, refl, List, [], ◌∷◌, some, none, arith, length}
use sifar_os.Str.{Bytes, strlen, strlcpy, strrchr}
use sifar_os.Path.{
  abspath, abspath_loop, start_stack, finish, push_segment, take_segment, skip_slashes, path_max,
}
use sifar_os.Path.Loop.{components}
use sifar_os.Path.Names.{AreNames, raw, render, resolve, enter, drop_last}
use sifar_os.Path.Resolve.{origin, abspath-resolve}
use sifar_os.Path.Total.{abspath_total, abspath_idempotent, abspath_double_slash}

abbrev bytes : String → Bytes
bytes String.[] = []
bytes (String.◌∷◌ c s) = code c ∷ bytes s

-- /tmp/ktest
abbrev work : List Bytes
work = bytes "tmp" ∷ bytes "ktest" ∷ []

work-AreNames : AreNames work
work-AreNames = ((refl, omega arith, refl, refl), ((refl, omega arith, refl, refl), tt))

abspath-messy :
    abspath (bytes "/tmp/ktest") (bytes "../../etc/../tmp") path_max ≡ some (bytes "/tmp")
unfolding abspath abspath_loop start_stack finish push_segment take_segment skip_slashes strlcpy
    strlen strrchr
abspath-messy = refl

abspath_small : abspath [] (bytes "/tmp/x") 6 ≡ none
unfolding abspath abspath_loop start_stack finish push_segment take_segment skip_slashes strlcpy
    strlen strrchr
abspath_small = refl

abspath-resolve_example :
    (bytes "/etc"
      ≡ render (resolve (origin work (bytes "../../etc")) (components (bytes "../../etc"))))
    × AreNames (resolve (origin work (bytes "../../etc")) (components (bytes "../../etc")))
    × (length (bytes "/etc") < path_max)
unfolding raw abspath abspath_loop start_stack finish push_segment take_segment skip_slashes strlcpy
    strlen strrchr
abspath-resolve_example =
    abspath-resolve work (bytes "../../etc") path_max (bytes "/etc") work-AreNames refl

abspath_total_example :
    abspath (bytes "/tmp/ktest") (bytes "..//a/./b") path_max ≡ some (bytes "/tmp/a/b")
unfolding raw render resolve enter drop_last components
abspath_total_example =
    abspath_total work (bytes "..//a/./b") path_max work-AreNames (omega arith) (omega arith)

abspath_idempotent_example : abspath [] (bytes "/etc") path_max ≡ some (bytes "/etc")
unfolding raw abspath abspath_loop start_stack finish push_segment take_segment skip_slashes strlcpy
    strlen strrchr
abspath_idempotent_example =
    abspath_idempotent work (bytes "../../etc") (bytes "/etc") work-AreNames refl

abspath_double_slash_example :
    (abspath (bytes "/") (bytes "tmp") path_max ≡ some (bytes "//tmp"))
    × (abspath (bytes "/") (bytes "tmp") path_max ≢ some (render (bytes "tmp" ∷ [])))
abspath_double_slash_example =
    abspath_double_slash (bytes "tmp") (refl, omega arith, refl, refl) (omega arith)
