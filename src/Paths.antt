-- ===== src/Paths.antt =====
-- Package path/filepath of Go, on Unix.
use zvm_extra.Base.{
  ◌+◌, Bool, false, none, some, take, drop, List, [], ◌∷◌, ◌++◌, ◌||◌, if◌then◌else◌, ◌==◌, reverse,
}
use zvm_extra.Bytes.{Bytes, codes, bytes_eq, split, join, last_index}

-- filepath.IsAbs
unfoldable pub is_abs : Bytes → Bool
is_abs [] = false
is_abs (c ∷ s) = c == b'/'

-- What stands before the last element, for "..": at the root it is dropped.
step_up : Bool → List Bytes → List Bytes
step_up rooted [] = if rooted then [] else codes ".." ∷ []
step_up rooted (p ∷ ps) = if bytes_eq p (codes "..") then codes ".." ∷ p ∷ ps else ps

-- The elements of the path so far, the last one first.
unfoldable pub clean_parts : Bool → List Bytes → List Bytes → List Bytes
unfolding step_up
clean_parts rooted done [] = done
clean_parts rooted done (p ∷ ps) =
    if bytes_eq p [] || bytes_eq p (codes ".")
    then clean_parts rooted done ps
    else if bytes_eq p (codes "..")
    then clean_parts rooted (step_up rooted done) ps
    else clean_parts rooted (p ∷ done) ps

-- filepath.Clean
unfoldable pub clean : Bytes → Bytes
clean p =
    let parts = reverse (clean_parts (is_abs p) [] (split p b'/')) in
    if is_abs p
    then b'/' ∷ join parts (codes "/")
    else elim parts [ [] ↦ codes "." | q ∷ qs ↦ join (q ∷ qs) (codes "/") ]

-- filepath.Join of two elements.
unfoldable pub join_path : Bytes → Bytes → Bytes
unfolding clean
join_path a b =
    if bytes_eq a []
    then if bytes_eq b [] then [] else clean b
    else if bytes_eq b []
    then clean a
    else clean (a ++ b'/' ∷ b)

trim_slashes : Bytes → Bytes
trim_slashes [] = []
trim_slashes (c ∷ s) = elim (trim_slashes s) [
  | [] ↦ if c == b'/' then [] else c ∷ []
  | d ∷ t ↦ c ∷ d ∷ t
]

-- What stands behind the last slash, and what stands before it with that slash.
after_slash : Bytes → Bytes
after_slash s = elim (last_index s b'/') [ none ↦ s | some i ↦ drop (i + 1) s ]

through_slash : Bytes → Bytes
through_slash s = elim (last_index s b'/') [ none ↦ [] | some i ↦ take (i + 1) s ]

-- filepath.Base
unfoldable pub base : Bytes → Bytes
unfolding trim_slashes after_slash
base p =
    if bytes_eq p []
    then codes "."
    else if bytes_eq (trim_slashes p) []
    then codes "/"
    else after_slash (trim_slashes p)

-- filepath.Dir
unfoldable pub dir : Bytes → Bytes
unfolding through_slash clean
dir p = clean (through_slash p)
