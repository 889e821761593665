-- ===== src/Paths.antt =====
-- The file paths of tsync/restore.go and tsync/storage.go: `filepath.Clean`, `filepath.Join` and
-- `filepath.Rel` on a system with slashes, and `safeJoin`. A path is cleaned into its elements.
pub mod Inside
mod Tests
use t_sync_sdk_go.Base.{
  ℕ, zero, suc, ◌≡◌, Bool, true, false, ◌&&◌, ◌||◌, not, Option, none, some, List, [], ◌∷◌, ◌++◌,
  ◌==◌, bytes_eq, if◌then◌else◌, eqb,
}
use t_sync_sdk_go.Base.Bytes.{Bytes, codes, slash, split, join}
use t_sync_sdk_go.Errors.{GoError, sentinel, wrap, unsafe_path, Result, ok, err}

-- A clean path: whether it starts at the root, and its elements.
pub record CleanPath : Type 0 where
  pub rooted : Bool
  pub parts : List Bytes

abbrev pub dot_dot : Bytes
dot_dot = codes ".."

abbrev pub is_rooted : Bytes → Bool
is_rooted [] = false
is_rooted (x ∷ s) = eqb x slash

-- An element ".." on the elements before it, the last one first.
abbrev pub go_up : Bool → List Bytes → List Bytes
go_up rooted [] = if rooted then [] else dot_dot ∷ []
go_up rooted (top ∷ stack) = if top == dot_dot then dot_dot ∷ top ∷ stack else stack

abbrev pub clean_step : Bool → List Bytes → Bytes → List Bytes
clean_step rooted stack part =
    if part == [] || part == codes "."
    then stack
    else if part == dot_dot
    then go_up rooted stack
    else part ∷ stack

unfoldable pub clean_onto : Bool → List Bytes → List Bytes → List Bytes
clean_onto rooted stack [] = stack
clean_onto rooted stack (part ∷ parts) = clean_onto rooted (clean_step rooted stack part) parts

-- The elements in order, from those with the last one first.
unfoldable pub reverse_onto : List Bytes → List Bytes → List Bytes
reverse_onto [] parts = parts
reverse_onto (part ∷ stack) parts = reverse_onto stack (part ∷ parts)

-- `filepath.Clean`
unfoldable pub clean : Bytes → CleanPath
unfolding clean_onto reverse_onto
clean path = record {
  rooted = is_rooted path;
  parts = reverse_onto (clean_onto (is_rooted path) [] (split slash path)) [];
}

-- A clean path as a string.
unfoldable pub render : CleanPath → Bytes
render p =
    if p.rooted
    then slash ∷ join p.parts
    else elim p.parts [ [] ↦ codes "." | (part ∷ parts) ↦ join (part ∷ parts) ]

abbrev init : List Bytes → List Bytes
init [] = []
init (p ∷ []) = []
init (p ∷ q ∷ ps) = p ∷ init (q ∷ ps)

-- `filepath.Dir` of a clean path: without its last element.
unfoldable pub without_last : CleanPath → CleanPath
without_last p = record { rooted = p.rooted; parts = init p.parts }

-- `filepath.Join` of two paths, of which the first is not empty: `Clean` of both with a slash
-- between them.
abbrev pub join_raw : Bytes → Bytes → Bytes
join_raw [] path = path
join_raw (x ∷ base) [] = x ∷ base
join_raw (x ∷ base) (y ∷ path) = x ∷ base ++ slash ∷ y ∷ path

unfoldable ups : List Bytes → List Bytes → List Bytes
ups [] rest = rest
ups (part ∷ parts) rest = dot_dot ∷ ups parts rest

-- The elements that lead from `base` to `target` after their common elements, if `Rel` can tell.
unfoldable pub rel_parts : List Bytes → List Bytes → Option (List Bytes)
unfolding ups
rel_parts [] target = some target
rel_parts (b ∷ base) [] = if b == dot_dot then none else some (ups (b ∷ base) [])
rel_parts (b ∷ base) (t ∷ target) =
    let rest = rel_parts base target in
    if b == t then rest else if b == dot_dot then none else some (ups (b ∷ base) (t ∷ target))

-- `relEscapesBase`, on the elements of the relative path.
unfoldable pub rel_escapes_base : List Bytes → Bool
rel_escapes_base [] = false
rel_escapes_base (part ∷ parts) = part == dot_dot

-- The test of `safeJoin` on what `Rel` gives; no elements are the path ".".
abbrev pub is_unsafe : Option (List Bytes) → Bool
is_unsafe none = true
is_unsafe (some []) = true
is_unsafe (some (part ∷ parts)) = rel_escapes_base (part ∷ parts)

abbrev pub same_root : Bool → Bool → Bool
same_root true b = b
same_root false b = not b

-- `safeJoin`, before the path is made a string.
unfoldable pub safe_path : Bytes → Bytes → Result CleanPath
unfolding clean rel_parts rel_escapes_base
safe_path base archive_path =
    let from = clean base in
    let to = clean (join_raw base archive_path) in
    if not (same_root from.rooted to.rooted) || is_unsafe (rel_parts from.parts to.parts)
    then err (wrap (sentinel unsafe_path))
    else ok to

abbrev rendered : Result CleanPath → Result Bytes
rendered (ok p) = ok (render p)
rendered (err e) = err e

-- `safeJoin`
unfoldable pub safe_join : Bytes → Bytes → Result Bytes
unfolding safe_path render
safe_join base archive_path = rendered (safe_path base archive_path)
