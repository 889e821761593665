-- ===== src/Tree/Shape.antt =====
-- The directory trees that `RunBackup` builds: in a folder no two names are equal, and no name is
-- both a file and a folder.
use t_sync_sdk_go.Base.{
  ◌≡◌, refl, subst, ap, true, none, some, List, [], ◌∷◌, arith, bytes_eq, eq→==, ne→==,
  Option-cases, inl, inr,
}
use t_sync_sdk_go.Base.Bytes.{Bytes}
use t_sync_sdk_go.Base.Dict
use t_sync_sdk_go.Errors.{ok}
use t_sync_sdk_go.Metadata.{FileLeaf}
use t_sync_sdk_go.Tree.{
  DirNode, dir, Subdirs, nil, cons, new_dir, get_sub, put_sub, sub_or_new, add_dir, add_file,
}
use t_sync_sdk_go.Tree.Paths.{get_sub-put_sub, add_file-last, add_file-below}

unfoldable mutual
  pub IsTree : DirNode → Type 0
  IsTree (dir fs ss) =
      Dict.NodupKeys fs × ((x : Bytes) → Dict.has x fs ≡ true → get_sub x ss ≡ none) × AllTrees ss

  pub AllTrees : Subdirs → Type 0
  AllTrees nil = Unit
  AllTrees (cons x d ss) = (get_sub x ss ≡ none) × IsTree d × AllTrees ss

pub IsTree-new : IsTree new_dir
unfolding IsTree Dict.has
IsTree-new = (tt, λ x h. absurd (ground arith), tt)

pub get_sub-IsTree :
    (x : Bytes) (ss : Subdirs) (d : DirNode) → AllTrees ss → get_sub x ss ≡ some d → IsTree d
unfolding IsTree get_sub
get_sub-IsTree x nil d a h = absurd (ground arith)
get_sub-IsTree x (cons y e ss) d (fresh, t, a) h = elim (bytes_eq.dec x y) [
  | yes same ↦ let e' : e ≡ d = ground arith in subst IsTree e' t
  | no other ↦ get_sub-IsTree x ss d a (ground arith)
]

sub_or_new-IsTree : (x : Bytes) (ss : Subdirs) → AllTrees ss → IsTree (sub_or_new (get_sub x ss))
sub_or_new-IsTree x ss a = elim (Option-cases (get_sub x ss)) [
  | inl e ↦ rw e IsTree-new
  | inr (d, e) ↦ rw e (get_sub-IsTree x ss d a e)
]

put_sub-AllTrees :
    (x : Bytes) (d : DirNode) (ss : Subdirs) → AllTrees ss → IsTree d → AllTrees (put_sub x d ss)
unfolding IsTree get_sub put_sub
put_sub-AllTrees x d nil a t = (refl, t, tt)
put_sub-AllTrees x d (cons y e ss) (fresh, t', a) t = elim (bytes_eq.dec x y) [
  | yes same ↦ rw (eq→== x y same) (fresh, t, a)
  | no other ↦
      rw (ne→== x y other)
        (ground (arith, get_sub-put_sub y x d ss), t', put_sub-AllTrees x d ss a t)
]

-- Adding a file keeps the shape.
pub add_file-IsTree :
    (part : Bytes) (rest : List Bytes) (leaf : FileLeaf) (d d' : DirNode)
    → IsTree d
    → add_file (part ∷ rest) leaf d ≡ ok d'
    → IsTree d'
unfolding IsTree
add_file-IsTree part [] leaf (dir fs ss) d' (nodup, apart, a) h =
    let (no_sub, same) = add_file-last part leaf fs ss d' h in
    rw same (
      Dict.insert-NodupKeys part leaf fs nodup,
      λ x has_x. ground (arith, apart x, Dict.has-insert x part leaf fs),
      a,
    )
add_file-IsTree part (next ∷ rest) leaf (dir fs ss) d' (nodup, apart, a) h =
    let (d, e, no_file, same) = add_file-below part next rest leaf fs ss d' h in
    rw same (
      nodup,
      λ x has_x. rw get_sub-put_sub (ground (arith, apart x)),
      put_sub-AllTrees part d ss a
          (add_file-IsTree next rest leaf _ d (sub_or_new-IsTree part ss a) e),
    )

-- A tree of folders only.
unfoldable mutual
  pub OnlyFolders : DirNode → Type 0
  OnlyFolders (dir fs ss) = (fs ≡ []) × AllFolders ss

  AllFolders : Subdirs → Type 0
  AllFolders nil = Unit
  AllFolders (cons x d ss) = OnlyFolders d × AllFolders ss

get_sub-OnlyFolders :
    (x : Bytes) (ss : Subdirs) → AllFolders ss → OnlyFolders (sub_or_new (get_sub x ss))
unfolding OnlyFolders get_sub
get_sub-OnlyFolders x nil a = (refl, tt)
get_sub-OnlyFolders x (cons y d ss) (o, a) = elim (bytes_eq.dec x y) [
  | yes same ↦ rw (eq→== x y same) o
  | no other ↦ rw (ne→== x y other) (get_sub-OnlyFolders x ss a)
]

put_sub-AllFolders :
    (x : Bytes) (d : DirNode) (ss : Subdirs)
    → AllFolders ss
    → OnlyFolders d
    → AllFolders (put_sub x d ss)
unfolding OnlyFolders put_sub
put_sub-AllFolders x d nil a o = (o, tt)
put_sub-AllFolders x d (cons y e ss) (o', a) o = elim (bytes_eq.dec x y) [
  | yes same ↦ rw (eq→== x y same) (o, a)
  | no other ↦ rw (ne→== x y other) (o', put_sub-AllFolders x d ss a o)
]

-- The folders of the first phase keep the shape, and add no file.
pub add_dir-IsTree :
    (p : List Bytes) (d : DirNode)
    → IsTree d
    → OnlyFolders d
    → IsTree (add_dir p d) × OnlyFolders (add_dir p d)
unfolding IsTree OnlyFolders add_dir Dict.has
add_dir-IsTree [] d t o = (t, o)
add_dir-IsTree (part ∷ rest) (dir fs ss) (nodup, apart, a) (none_here, folders) =
    let (t', o') =
      add_dir-IsTree rest (sub_or_new (get_sub part ss)) (sub_or_new-IsTree part ss a)
        (get_sub-OnlyFolders part ss folders) in
    (
      (
        nodup,
        λ x has_x. absurd (ground (arith, ap (Dict.has x) none_here)),
        put_sub-AllTrees part _ ss a t',
      ),
      (none_here, put_sub-AllFolders part _ ss folders o'),
    )
