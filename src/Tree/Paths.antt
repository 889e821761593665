-- ===== src/Tree/Paths.antt =====
-- The files of a directory tree by their paths.
use mathlib.Core.List.{List-discrete}
use t_sync_sdk_go.Base.{
  ◌≡◌, refl, false, Option, none, some, List, [], ◌∷◌, arith, Eq, ◌==◌, bytes_eq, Bytes-discrete,
  if◌then◌else◌, inl, inr,
}
use t_sync_sdk_go.Base.Bytes.{Bytes}
use t_sync_sdk_go.Base.Dict
use t_sync_sdk_go.Errors.{ok, Result-cases}
use t_sync_sdk_go.Metadata.{FileLeaf}
use t_sync_sdk_go.Tree.{
  DirNode, dir, Subdirs, nil, cons, new_dir, get_sub, put_sub, sub_or_new, add_dir, add_file,
}

unfoldable pub Path-discrete : Discrete (List Bytes)
Path-discrete = List-discrete Bytes-discrete

instance abbrev pub path_eq : Eq (List Bytes)
path_eq = record { dec = Path-discrete }

-- The file at a path, given by its parts.
unfoldable pub find_file : List Bytes → DirNode → Option FileLeaf
find_file [] d = none
find_file (x ∷ []) (dir fs ss) = Dict.lookup x fs
find_file (x ∷ y ∷ p) (dir fs ss) = elim (get_sub x ss) [
  | none ↦ none
  | some d ↦ find_file (y ∷ p) d
]

pub find_new : (p : List Bytes) → find_file p new_dir ≡ none
unfolding find_file Dict.lookup get_sub
find_new [] = refl
find_new (x ∷ []) = refl
find_new (x ∷ y ∷ p) = refl

pub get_sub-put_sub :
    (x y : Bytes) (d : DirNode) (ss : Subdirs)
    → get_sub x (put_sub y d ss) ≡ (if x == y then some d else get_sub x ss)
unfolding get_sub put_sub
get_sub-put_sub x y d nil = refl
get_sub-put_sub x y d (cons z e ss) = ground (arith, get_sub-put_sub x y d ss)

-- Making the folders of a path changes no file.
pub find_file-add_dir : (q p : List Bytes) (d : DirNode) → find_file q (add_dir p d) ≡ find_file q d
unfolding find_file add_dir
find_file-add_dir [] p d = refl
find_file-add_dir (x ∷ q) [] d = refl
find_file-add_dir (x ∷ []) (part ∷ rest) (dir fs ss) = refl
find_file-add_dir (x ∷ y ∷ q) (part ∷ rest) (dir fs ss) =
    let sub = sub_or_new (get_sub part ss) in
    ground (
      arith,
      get_sub-put_sub x part (add_dir rest sub) ss,
      find_file-add_dir (y ∷ q) rest sub,
      find_new (y ∷ q),
    )

pub add_file-last :
    (part : Bytes) (leaf : FileLeaf) (fs : Dict.Dict Bytes FileLeaf) (ss : Subdirs) (d' : DirNode)
    → add_file (part ∷ []) leaf (dir fs ss) ≡ ok d'
    → (get_sub part ss ≡ none) × (d' ≡ dir (Dict.insert part leaf fs) ss)
unfolding add_file
add_file-last part leaf fs ss d' h = ground arith

pub add_file-below :
    (part next : Bytes) (rest : List Bytes) (leaf : FileLeaf) (fs : Dict.Dict Bytes FileLeaf)
    (ss : Subdirs) (d' : DirNode)
    → add_file (part ∷ next ∷ rest) leaf (dir fs ss) ≡ ok d'
    → (d : DirNode) × (add_file (next ∷ rest) leaf (sub_or_new (get_sub part ss)) ≡ ok d)
      × (Dict.has part fs ≡ false)
      × (d' ≡ dir fs (put_sub part d ss))
unfolding add_file
add_file-below part next rest leaf fs ss d' h =
    elim (Result-cases (add_file (next ∷ rest) leaf (sub_or_new (get_sub part ss)))) [
      | inl (d, e) ↦ (d, e, ground arith, ground arith)
      | inr (x, e) ↦ absurd (ground arith)
    ]

-- Once a file is added without a collision, it is found at its path, and every other path has the
-- file that it had.
pub find_file-add_file :
    (q : List Bytes) (part : Bytes) (rest : List Bytes) (leaf : FileLeaf) (d d' : DirNode)
    → add_file (part ∷ rest) leaf d ≡ ok d'
    → find_file q d' ≡ (if q == part ∷ rest then some leaf else find_file q d)
unfolding find_file
find_file-add_file [] part rest leaf d d' h = ground arith
find_file-add_file (x ∷ []) part [] leaf (dir fs ss) d' h =
    rw (add_file-last part leaf fs ss d' h).1 (ground (arith, Dict.lookup-insert x part leaf fs))
find_file-add_file (x ∷ y ∷ q) part [] leaf (dir fs ss) d' h =
    rw (add_file-last part leaf fs ss d' h).1 (ground arith)
find_file-add_file (x ∷ []) part (next ∷ rest) leaf (dir fs ss) d' h =
    let (d, e, no_file, same) = add_file-below part next rest leaf fs ss d' h in
    rw same (ground arith)
find_file-add_file (x ∷ y ∷ q) part (next ∷ rest) leaf (dir fs ss) d' h =
    let (d, e, no_file, same) = add_file-below part next rest leaf fs ss d' h in
    rw same (
      ground (
        arith,
        get_sub-put_sub x part d ss,
        find_file-add_file (y ∷ q) next rest leaf (sub_or_new (get_sub part ss)) d e,
        find_new (y ∷ q),
      ))
