-- ===== src/Tree.antt =====
-- Directory trees: the temporary nodes that `RunBackup` builds (tsync/backup.go), their hashing
-- into tree nodes, and the two walks over stored nodes, `walkTree` (tsync/restore.go) and
-- `walkCollect` (tsync/client.go).
pub mod Order
pub mod Paths
pub mod Shape
pub mod Store
pub mod Resolve
pub mod Collect
pub mod Held
pub mod Listed
pub mod Restorable
mod Tests
use t_sync_sdk_go.Base.{
  ℕ, zero, suc, ◌≡◌, Bool, true, false, ◌&&◌, not, Option, none, some, List, [], ◌∷◌, ◌++◌, ◌==◌,
  bytes_eq, contains, if◌then◌else◌,
}
use t_sync_sdk_go.Base.Bytes.{Bytes, less, slash}
use t_sync_sdk_go.Base.Dict
use t_sync_sdk_go.Base.Dict.{Dict}
use t_sync_sdk_go.Errors.{
  GoError, sentinel, plain, wrap, both, corrupt_metadata, path_collision, Result, ok, err, ◌>>=◌,
}
use t_sync_sdk_go.Metadata.{
  FileLeaf, EntryNode, file, subtree, unset, TreeEntry, TreeNode, Codec, tree_hash, corrupt,
}
use t_sync_sdk_go.Names.{validate_name, file_key_for}

-- `tempDirNode`: the files and the folders of a folder, by name.
mutual
  pub data DirNode : Type 0 where
    dir : Dict Bytes FileLeaf → Subdirs → DirNode

  pub data Subdirs : Type 0 where
    nil : Subdirs
    cons : Bytes → DirNode → Subdirs → Subdirs

-- `newTempDirNode`
abbrev pub new_dir : DirNode
new_dir = dir [] nil

unfoldable pub get_sub : Bytes → Subdirs → Option DirNode
get_sub x nil = none
get_sub x (cons y d ss) = if x == y then some d else get_sub x ss

unfoldable pub put_sub : Bytes → DirNode → Subdirs → Subdirs
put_sub x d nil = cons x d nil
put_sub x d (cons y e ss) = if x == y then cons y d ss else cons y e (put_sub x d ss)

abbrev pub sub_or_new : Option DirNode → DirNode
sub_or_new none = new_dir
sub_or_new (some d) = d

-- The walk of `RunBackup` along the parts of a folder's path, which makes what is missing.
unfoldable pub add_dir : List Bytes → DirNode → DirNode
add_dir [] d = d
add_dir (part ∷ rest) (dir fs ss) =
    dir fs (put_sub part (add_dir rest (sub_or_new (get_sub part ss))) ss)

abbrev pub collision : GoError
collision = wrap (sentinel path_collision)

abbrev pub is_some {ℓ} : {A : Type ℓ} → Option A → Bool
is_some none = false
is_some (some a) = true

-- The walk along the parts of a file's path. A file and a folder of one path collide.
unfoldable pub add_file : List Bytes → FileLeaf → DirNode → Result DirNode
add_file [] leaf d = ok d
add_file (part ∷ []) leaf (dir fs ss) =
    if is_some (get_sub part ss) then err collision else ok (dir (Dict.insert part leaf fs) ss)
add_file (part ∷ next ∷ rest) leaf (dir fs ss) =
    let below = add_file (next ∷ rest) leaf (sub_or_new (get_sub part ss)) in
    if Dict.has part fs then err collision else (do d ← below; ok (dir fs (put_sub part d ss)))

-- `sort.Slice` by name; the names of the entries of a folder differ, so the order is determined.
unfoldable pub insert_entry : TreeEntry → List TreeEntry → List TreeEntry
insert_entry e [] = e ∷ []
insert_entry e (f ∷ es) = if less f.name e.name then f ∷ insert_entry e es else e ∷ f ∷ es

unfoldable pub sort_entries : List TreeEntry → List TreeEntry
sort_entries [] = []
sort_entries (e ∷ es) = insert_entry e (sort_entries es)

unfoldable pub file_entries : Dict Bytes FileLeaf → List TreeEntry
file_entries [] = []
file_entries ((name, leaf) ∷ fs) = record { name = name; node = file (some leaf) } ∷ file_entries fs

abbrev pub Trees : Type 0
Trees = Dict Bytes TreeNode

abbrev pub of_hash : Option Bytes → Result Bytes
of_hash none = err plain
of_hash (some h) = ok h

module _ (codec : Codec) where
  -- `buildAndHash`: the hash of the folder, and the trees with its nodes added.
  unfoldable mutual
    pub build : DirNode → Trees → Result (Bytes × Trees)
    build (dir fs ss) trees = do
      built ← build_subdirs ss trees
      let node : TreeNode = record { entries = sort_entries (file_entries fs ++ built.0) }
      h ← of_hash (tree_hash codec node)
      ok (h, Dict.insert h node built.1)

    pub build_subdirs : Subdirs → Trees → Result (List TreeEntry × Trees)
    build_subdirs nil trees = ok ([], trees)
    build_subdirs (cons name d ss) trees = do
      built ← build d trees
      rest ← build_subdirs ss built.1
      ok (record { name = name; node = subtree built.0 } ∷ rest.0, rest.1)

-- The order check of both walks: every name comes after the one before it.
unfoldable pub is_sorted : List TreeEntry → Bool
is_sorted [] = true
is_sorted (e ∷ []) = true
is_sorted (e ∷ f ∷ es) = less e.name f.name && is_sorted (f ∷ es)

-- The check of a node against its key: present, encodable, of the right hash.
pub data Checked : Type 0 where
  good : TreeNode → Checked
  bad : Checked

unfoldable pub check_node : Codec → Trees → Bytes → Checked
check_node codec trees h = elim (Dict.lookup h trees) [
  | none ↦ bad
  | some node ↦ elim (tree_hash codec node) [
    | none ↦ bad
    | some k ↦ if k == h then good node else bad
  ]
]

-- How a walk ends: with what it has gathered, with an error, or deeper than the fuel allows.
pub data Walk (A : Type 0) : Type 0 where
  walked : A → Walk A
  failed : GoError → Walk A
  too_deep : Walk A

abbrev pub then_walk : {A B : Type 0} → Walk A → (A → Walk B) → Walk B
then_walk (walked a) f = f a
then_walk (failed e) f = failed e
then_walk too_deep f = too_deep

-- `filesResult` and `dirsResult`.
pub record Resolved : Type 0 where
  pub files : Dict Bytes Bytes
  pub dirs : List Bytes

abbrev pub full_path : Bytes → Bytes → Bytes
full_path [] name = name
full_path (c ∷ prefix) name = (c ∷ prefix) ++ slash ∷ name

abbrev is_root : Bytes → Bool
is_root [] = true
is_root (c ∷ prefix) = false

abbrev no_entries : List TreeEntry → Bool
no_entries [] = true
no_entries (e ∷ es) = false

abbrev pub leaf_key : FileLeaf → Bytes
leaf_key leaf = file_key_for leaf.crc32 leaf.uncompressed_size

-- `walkTree`; `skip` is `skipValidationErrors`, which turns a refusal into a warning.
module _ (codec : Codec) (trees : Trees) (skip : Bool) where
  abbrev refuse : GoError → Resolved → Walk Resolved
  refuse e acc = if skip then walked acc else failed e

  module _ (walk : Bytes → Bytes → Resolved → Walk Resolved) where
    abbrev walk_node : EntryNode → Bytes → Resolved → Walk Resolved
    walk_node (file none) path acc = refuse corrupt acc
    walk_node (file (some leaf)) path acc =
        walked (record acc { files = Dict.insert path (leaf_key leaf) acc.files })
    walk_node (subtree []) path acc = refuse corrupt acc
    walk_node (subtree (c ∷ h)) path acc = walk (c ∷ h) path acc
    walk_node unset path acc = refuse corrupt acc

    unfoldable pub walk_entry : TreeEntry → Bytes → Resolved → Walk Resolved
    walk_entry e prefix acc = elim (validate_name e.name) [
      | err x ↦ refuse (both (sentinel corrupt_metadata) x) acc
      | ok _ ↦ walk_node e.node (full_path prefix e.name) acc
    ]

    unfoldable pub walk_entries : List TreeEntry → Bytes → Resolved → Walk Resolved
    walk_entries [] prefix acc = walked acc
    walk_entries (e ∷ es) prefix acc =
        then_walk (walk_entry e prefix acc) (λ acc'. walk_entries es prefix acc')

  unfoldable pub walk_tree : ℕ → Bytes → Bytes → Resolved → Walk Resolved
  walk_tree zero h prefix acc = too_deep
  walk_tree (suc fuel) h prefix acc = elim (check_node codec trees h) [
    | bad ↦ refuse corrupt acc
    | good node ↦
        if not (is_sorted node.entries) && not skip
        then failed corrupt
        else if no_entries node.entries && not (is_root prefix)
        then walked (record acc { dirs = acc.dirs ++ prefix ∷ [] })
        else walk_entries (walk_tree fuel) node.entries prefix acc
  ]

-- `liveTrees` and `liveFiles`.
pub record Live : Type 0 where
  pub trees : List Bytes
  pub files : List Bytes

-- `walkCollect`
module _ (codec : Codec) (trees : Trees) where
  module _ (collect_below : Bytes → Live → Walk Live) where
    abbrev pub collect_node : EntryNode → Live → Walk Live
    collect_node (file none) acc = failed corrupt
    collect_node (file (some leaf)) acc = walked (record acc { files = leaf_key leaf ∷ acc.files })
    collect_node (subtree []) acc = failed corrupt
    collect_node (subtree (c ∷ h)) acc = collect_below (c ∷ h) acc
    collect_node unset acc = failed corrupt

    unfoldable pub collect_entry : TreeEntry → Live → Walk Live
    collect_entry e acc = elim (validate_name e.name) [
      | err x ↦ failed (both (sentinel corrupt_metadata) x)
      | ok _ ↦ collect_node e.node acc
    ]

    unfoldable pub collect_entries : List TreeEntry → Live → Walk Live
    collect_entries [] acc = walked acc
    collect_entries (e ∷ es) acc = then_walk (collect_entry e acc) (λ acc'. collect_entries es acc')

  unfoldable pub collect : ℕ → Bytes → Live → Walk Live
  collect zero h acc = too_deep
  collect (suc fuel) h acc = elim (contains acc.trees h) [
    | true ↦ walked acc
    | false ↦ elim (check_node codec trees h) [
      | bad ↦ failed corrupt
      | good node ↦
          if is_sorted node.entries
          then collect_entries (collect fuel) node.entries (record acc { trees = h ∷ acc.trees })
          else failed corrupt
    ]
  ]
