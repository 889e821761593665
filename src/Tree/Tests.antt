-- ===== src/Tree/Tests.antt =====
-- Tests of the directory trees.
use t_sync_sdk_go.Base.{
  suc, ◌≡◌, ◌≢◌, refl, false, some, List, [], ◌∷◌, arith, bytes_eq, length, Bytes-discrete,
  decide_lists,
}
use native.Mathlib.Decide.{ℕ_discrete}
use t_sync_sdk_go.Base.Bytes.{Bytes, codes}
use t_sync_sdk_go.Base.Dict
use t_sync_sdk_go.Base.Dict.{Dict}
use t_sync_sdk_go.Errors.{ok, err}
use t_sync_sdk_go.Metadata.{subtree}
use t_sync_sdk_go.Names.{
  validate_name, has_bad_byte, file_key_for, hex, hex_digit, decimal_int, decimal, decimal_fuel,
}
use t_sync_sdk_go.Tree.{
  DirNode, dir, nil, cons, new_dir, add_file, get_sub, put_sub, collision, build, sort_entries,
  insert_entry, file_entries, is_sorted, check_node, Trees, walked, collect, too_deep, walk_tree,
  walk_entries, walk_entry,
}
use t_sync_sdk_go.Tree.Paths.{find_file, path_eq}
use t_sync_sdk_go.Tree.Shape.{IsTree, IsTree-new, add_file-IsTree}
use t_sync_sdk_go.Tree.Store.{resolve, IsSound, Extends}
use t_sync_sdk_go.Tree.Resolve.{build-resolve}
use t_sync_sdk_go.Tree.Collect.Total.{collect_ends}
use t_sync_sdk_go.Base.Bytes.{split, slash}
use t_sync_sdk_go.Tree.Listed.{key_of, walk_tree-resolve}
use t_sync_sdk_go.Metadata.{tree_hash, TreeNode}
use t_sync_sdk_go.Tree.{Resolved}
use t_sync_sdk_go.Tree.Restorable.{IsNamed, depth, walk_tree_ends}
use t_sync_sdk_go.Sample.{
  TreeNode-discrete, outer_node, inner_node, leaf_one, sample_codec, sample_trees,
  sample-IsCollisionFree, encode_node,
}

-- The folder "d" with the file "a".
abbrev one_file : DirNode
one_file = dir [] (cons (codes "d") (dir ((codes "a", leaf_one) ∷ []) nil) nil)

abbrev path_da : List Bytes
path_da = codes "d" ∷ codes "a" ∷ []

adds_file : add_file path_da leaf_one new_dir ≡ ok one_file
unfolding add_file get_sub put_sub Dict.has Dict.insert Bytes-discrete
adds_file = refl

-- A file where a folder is collides.
adds_collision : add_file (codes "d" ∷ []) leaf_one one_file ≡ err collision
unfolding add_file get_sub Dict.has Bytes-discrete
adds_collision = refl

one_file-IsTree : IsTree one_file
one_file-IsTree =
    add_file-IsTree (codes "d") (codes "a" ∷ []) leaf_one new_dir one_file IsTree-new adds_file

builds : build (sample_codec []) one_file [] ≡ ok (codes "outer", sample_trees)
unfolding build sort_entries insert_entry file_entries Dict.insert Bytes-discrete encode_node
    decide_lists ℕ_discrete
builds = refl

-- The walk of a restore finds the file and its key.
walks :
    walk_tree
      (sample_codec [])
      sample_trees
      false
      3
      (codes "outer")
      []
      (record { files = []; dirs = [] })
    ≡ walked (record { files = (codes "d/a", codes "00000005_3") ∷ []; dirs = [] })
unfolding walk_tree walk_entries walk_entry check_node is_sorted validate_name has_bad_byte
    Dict.lookup Dict.insert Bytes-discrete encode_node decide_lists ℕ_discrete file_key_for hex
    hex_digit decimal_int decimal decimal_fuel
walks = refl

no_trees-IsSound : IsSound (sample_codec []) []
unfolding Dict.lookup
no_trees-IsSound h n e = absurd (ground arith)

build-resolve_example :
    ((p : List Bytes) → resolve sample_trees (codes "outer") p ≡ find_file p one_file)
    × IsSound (sample_codec []) sample_trees
    × Extends (sample_codec []) [] sample_trees
build-resolve_example =
    build-resolve (sample_codec []) one_file [] sample_trees (codes "outer")
      (sample-IsCollisionFree []) no_trees-IsSound one_file-IsTree builds

-- A folder that contains itself.
abbrev looped : Trees
looped =
    (
      codes "inner",
      record { entries = record { name = codes "x"; node = subtree (codes "inner") } ∷ [] },
    )
    ∷ []

collect_ends_example :
    collect
      (sample_codec [])
      looped
      (suc (length looped))
      (codes "inner")
      (record { trees = []; files = [] })
    ≢ too_deep
collect_ends_example =
    collect_ends (sample_codec []) looped (codes "inner") (record { trees = []; files = [] })

walk_tree-resolve_example :
    Dict.lookup (codes "d/a") ((codes "d/a", codes "00000005_3") ∷ [])
    ≡ key_of (resolve sample_trees (codes "outer") (split slash (codes "d/a")))
walk_tree-resolve_example =
    walk_tree-resolve (sample_codec []) sample_trees 3 (codes "outer")
      (record { files = (codes "d/a", codes "00000005_3") ∷ []; dirs = [] }) walks (codes "d/a")

hash_set : (n : TreeNode) (k : Bytes) → tree_hash (sample_codec []) n ≡ some k → k ≢ []
unfolding encode_node
hash_set n k h e = elim (TreeNode-discrete inner_node n) [
  | yes inner ↦ absurd (ground arith)
  | no other ↦ elim (TreeNode-discrete outer_node n) [
    | yes outer ↦ absurd (ground arith)
    | no neither ↦ absurd (ground arith)
  ]
]

one_file-IsNamed : IsNamed one_file
unfolding IsNamed validate_name has_bad_byte Bytes-discrete
one_file-IsNamed = (tt, (refl, ((refl, tt), tt), tt))

walk_tree_ends_example :
    (r : Resolved) × (walk_tree
        (sample_codec [])
        sample_trees
        false
        (depth one_file)
        (codes "outer")
        []
        (record { files = []; dirs = [] })
      ≡ walked r)
walk_tree_ends_example =
    walk_tree_ends (sample_codec []) one_file [] sample_trees (codes "outer")
      (sample-IsCollisionFree []) hash_set no_trees-IsSound one_file-IsTree one_file-IsNamed builds
