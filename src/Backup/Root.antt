-- ===== src/Backup/Root.antt =====
-- The directory tree of a run: every gathered path has its file, and no other path has one.
use t_sync_sdk_go.Base.{
  ◌≡◌, ◌≢◌, refl, ◌∙◌, sym, ap, subst, inl, inr, Option, none, some, List, [], ◌∷◌, arith,
  if◌then◌else◌, Bool-cases, Option-cases, ◌==◌, bytes_eq,
}
use t_sync_sdk_go.Base.Bytes.{split-cons, join-split, Bytes, split, join, slash}
use t_sync_sdk_go.Base.Dict
use t_sync_sdk_go.Base.Dict.{Dict, NodupKeys}
use t_sync_sdk_go.Errors.{ok, Result-cases}
use t_sync_sdk_go.Metadata.{FileLeaf, FileRecord}
use t_sync_sdk_go.Tree.{DirNode, new_dir, add_dir, add_file}
use t_sync_sdk_go.Tree.Paths.{find_file, find_new, find_file-add_dir, find_file-add_file, path_eq}
use t_sync_sdk_go.Tree.Shape.{IsTree, IsTree-new, OnlyFolders, add_file-IsTree, add_dir-IsTree}
use t_sync_sdk_go.Backup.Options.{is_set}
use t_sync_sdk_go.Backup.Gather.{Gathered, leaf_of, add_dirs, add_files, make_root}

split-differs : (p q : Bytes) → p ≢ q → split slash p ≢ split slash q
split-differs p q differ e = differ (sym (join-split p) ∙ ap join e ∙ join-split q)

add_file-split :
    (p q : Bytes) (leaf : FileLeaf) (d d' : DirNode)
    → add_file (split slash p) leaf d ≡ ok d'
    → (find_file (split slash q) d' ≡ (if q == p then some leaf else find_file (split slash q) d))
      × (IsTree d → IsTree d')
add_file-split p q leaf d d' h =
    let (part, rest, e) = split-cons p in
    let h' = subst (λ ps. add_file ps leaf d ≡ ok d') e h in
    let found = find_file-add_file (split slash q) part rest leaf d d' h' in
    (
      elim (bytes_eq.dec q p) [
        | yes same ↦ ground (arith, found, ap (split slash) same ∙ e)
        | no other ↦
            let differs : split slash q ≢ part ∷ rest = λ z. split-differs q p other (z ∙ sym e) in
            ground (arith, found, differs)
      ],
      λ t. add_file-IsTree part rest leaf d d' t h',
    )

-- What a run has gathered for a path.
abbrev pub leaf_at : Bytes → Dict Bytes Bytes → Dict Bytes FileRecord → Option FileLeaf
leaf_at p paths pool = elim (Dict.lookup p paths) [
  | none ↦ none
  | some key ↦ elim (Dict.lookup key pool) [ none ↦ none | some rec ↦ some (leaf_of rec) ]
]

abbrev leaf_or : Option FileLeaf → Option FileLeaf → Option FileLeaf
leaf_or none other = other
leaf_or (some leaf) other = some leaf

add_files-find_file :
    (paths : Dict Bytes Bytes) (pool : Dict Bytes FileRecord) (d d' : DirNode) (q : Bytes)
    → NodupKeys paths
    → add_files paths pool d ≡ ok d'
    → find_file (split slash q) d' ≡ leaf_or (leaf_at q paths pool) (find_file (split slash q) d)
unfolding add_files Dict.lookup
add_files-find_file [] pool d d' q u h = ground arith
add_files-find_file ((p, key) ∷ paths) pool d d' q (fresh, u) h =
    elim (Option-cases (Dict.lookup key pool)) [
      | inl e ↦ absurd (ground arith)
      | inr (rec, e) ↦ elim (Result-cases (add_file (split slash p) (leaf_of rec) d)) [
        | inr (x, f) ↦ absurd (ground arith)
        | inl (d1, f) ↦
            let (found, shape) = add_file-split p q (leaf_of rec) d d1 f in
            let rest = add_files-find_file paths pool d1 d' q u (ground arith) in
            elim (bytes_eq.dec q p) [
              | yes same ↦ ground (arith, rest, found, e, ap (λ z. Dict.lookup z paths) same, fresh)
              | no other ↦ ground (arith, rest, found)
            ]
      ]
    ]

add_files-IsTree :
    (paths : Dict Bytes Bytes) (pool : Dict Bytes FileRecord) (d d' : DirNode)
    → IsTree d
    → add_files paths pool d ≡ ok d'
    → IsTree d'
unfolding add_files
add_files-IsTree [] pool d d' t h = let e : d ≡ d' = ground arith in subst IsTree e t
add_files-IsTree ((p, key) ∷ paths) pool d d' t h = elim (Option-cases (Dict.lookup key pool)) [
  | inl e ↦ absurd (ground arith)
  | inr (rec, e) ↦ elim (Result-cases (add_file (split slash p) (leaf_of rec) d)) [
    | inr (x, f) ↦ absurd (ground arith)
    | inl (d1, f) ↦
        add_files-IsTree paths pool d1 d' ((add_file-split p p (leaf_of rec) d d1 f).1 t)
          (ground arith)
  ]
]

-- The folders alone: no file, and the shape of a tree.
add_dirs-empty :
    (ds : List Bytes) (d : DirNode)
    → IsTree d
    → OnlyFolders d
    → IsTree (add_dirs ds d) × ((q : List Bytes) → find_file q (add_dirs ds d) ≡ find_file q d)
unfolding add_dirs
add_dirs-empty [] d t o = (t, λ q. refl)
add_dirs-empty (x ∷ ds) d t o = elim (Bool-cases (is_set x)) [
  | inr e ↦ rw (e, add_dirs) (add_dirs-empty ds d t o)
  | inl e ↦
      let (t', o') = add_dir-IsTree (split slash x) d t o in
      let (shape, same) = add_dirs-empty ds (add_dir (split slash x) d) t' o' in
      rw (e, add_dirs) (shape, λ q. same q ∙ find_file-add_dir q (split slash x) d)
]

-- The directory tree that a run makes of its results has the shape of a tree, and at every path it
-- has the file of the path's record, and no file where no path was gathered.
pub make_root-find_file :
    (g : Gathered) (root : DirNode)
    → NodupKeys g.path_to_file_key
    → make_root g ≡ ok root
    → IsTree root
      × ((q : Bytes) → find_file (split slash q) root ≡ leaf_at q g.path_to_file_key g.files_pool)
unfolding make_root OnlyFolders
make_root-find_file g root u h =
    let (t, same) = add_dirs-empty g.dir_paths new_dir IsTree-new (refl, tt) in
    (
      add_files-IsTree g.path_to_file_key g.files_pool (add_dirs g.dir_paths new_dir) root t h,
      λ q.
          let found =
            add_files-find_file g.path_to_file_key g.files_pool (add_dirs g.dir_paths new_dir) root
              q u h in
          ground (arith, found, same (split slash q), find_new (split slash q)),
    )
