-- ===== src/Tree/Restorable.antt =====
-- `walkTree` of tsync/restore.go succeeds on what `buildAndHash` of tsync/backup.go has stored.
use t_sync_sdk_go.Base.{
  ℕ, zero, suc, max, ◌≤◌, ◌≡◌, refl, ◌≢◌, inl, inr, false, ◌&&◌, not, some, List, [], ◌∷◌, ◌++◌,
  arith, ==_self, bytes_eq, Bool-cases, All, All-append,
}
use t_sync_sdk_go.Base.Bytes.{Bytes, less}
use t_sync_sdk_go.Base.Dict
use t_sync_sdk_go.Base.Dict.{Dict}
use t_sync_sdk_go.Errors.{ok}
use t_sync_sdk_go.Metadata.{FileLeaf, subtree, TreeEntry, TreeNode, Codec, tree_hash}
use t_sync_sdk_go.Names.{validate_name}
use t_sync_sdk_go.Tree.{
  DirNode, dir, Subdirs, nil, cons, Trees, Walk, walked, Resolved, full_path, leaf_key, check_node,
  walk_node, walk_entry, walk_entries, walk_tree, is_root, no_entries, insert_entry, sort_entries,
  file_entries, build,
}
use t_sync_sdk_go.Tree.Order.{is_sorted-sort_entries}
use t_sync_sdk_go.Tree.Shape.{IsTree, AllTrees}
use t_sync_sdk_go.Tree.Store.{Stored, StoredSubs, node_of, IsCollisionFree, IsSound, build-Stored}
use t_sync_sdk_go.Tree.Resolve.{Unique-stored}

abbrev IsName : Bytes → Type 0
IsName name = validate_name name ≡ ok tt

-- Every name in the directory tree is valid.
unfoldable mutual
  pub IsNamed : DirNode → Type 0
  IsNamed (dir fs ss) = All (λ (name, leaf). IsName name) fs × AllNamed ss

  pub AllNamed : Subdirs → Type 0
  AllNamed nil = Unit
  AllNamed (cons name d ss) = IsName name × IsNamed d × AllNamed ss

-- The number of levels of a directory tree.
unfoldable mutual
  pub depth : DirNode → ℕ
  depth (dir fs ss) = suc (depth_below ss)

  pub depth_below : Subdirs → ℕ
  depth_below nil = 0
  depth_below (cons name d ss) = max (depth d) (depth_below ss)

insert_entry-All :
    (P : TreeEntry → Type 0) (e : TreeEntry) (es : List TreeEntry)
    → P e
    → All P es
    → All P (insert_entry e es)
unfolding insert_entry
insert_entry-All P e [] h hs = (h, tt)
insert_entry-All P e (f ∷ es) h (k, hs) = elim (Bool-cases (less f.name e.name)) [
  | inl lt ↦ rw (lt, insert_entry) (k, insert_entry-All P e es h hs)
  | inr ge ↦ rw (ge, insert_entry) (h, (k, hs))
]

sort_entries-All :
    (P : TreeEntry → Type 0) (es : List TreeEntry) → All P es → All P (sort_entries es)
unfolding sort_entries
sort_entries-All P [] hs = tt
sort_entries-All P (e ∷ es) (h, hs) =
    insert_entry-All P e (sort_entries es) h (sort_entries-All P es hs)

module _ (codec : Codec) (trees : Trees) where
  abbrev Ends : (Resolved → Walk Resolved) → Type 0
  Ends step = (acc : Resolved) → (r : Resolved) × (step acc ≡ walked r)

  module _ (walk : Bytes → Bytes → Resolved → Walk Resolved) where
    -- An entry with a valid name, whose node the walk gets through at every path.
    abbrev IsPassed : TreeEntry → Type 0
    IsPassed e =
        IsName e.name × ((path : Bytes) → Ends (walk_node codec trees false walk e.node path))

    entries-Ends :
        (es : List TreeEntry) (prefix : Bytes)
        → All IsPassed es
        → Ends (walk_entries codec trees false walk es prefix)
    unfolding walk_entries walk_entry
    entries-Ends [] prefix hs acc = (acc, refl)
    entries-Ends (e ∷ es) prefix ((named, ends), hs) acc =
        let (next, w) = ends (full_path prefix e.name) acc in
        let (r, rest) = entries-Ends es prefix hs next in (r, ground (arith, named, w, rest))

    files-IsPassed :
        (fs : Dict Bytes FileLeaf)
        → All (λ (name, leaf). IsName name) fs
        → All IsPassed (file_entries fs)
    unfolding file_entries
    files-IsPassed [] hs = tt
    files-IsPassed ((name, leaf) ∷ fs) (h, hs) = (
      (h, λ path acc. (record acc { files = Dict.insert path (leaf_key leaf) acc.files }, refl)),
      files-IsPassed fs hs,
    )

    subtree-Ends :
        (k path : Bytes)
        → k ≢ []
        → Ends (walk k path)
        → Ends (walk_node codec trees false walk (subtree k) path)
    subtree-Ends [] path some_hash ends acc = absurd (some_hash refl)
    subtree-Ends (c ∷ k) path some_hash ends acc = ends acc

  module _ (set : (n : TreeNode) (h : Bytes) → tree_hash codec n ≡ some h → h ≢ []) where
    Stored-set : (d : DirNode) (k : Bytes) → Stored codec trees d k → k ≢ []
    unfolding Stored
    Stored-set (dir fs ss) k (es, subs, here, hash) = set (node_of fs es) k hash

    mutual
      unfolding Stored IsTree IsNamed depth walk_tree check_node

      walk_tree-Ends :
          (d : DirNode) (h : Bytes) (fuel : ℕ) (prefix : Bytes)
          → depth d ≤ fuel
          → IsTree d
          → IsNamed d
          → Stored codec trees d h
          → Ends (walk_tree codec trees false fuel h prefix)
      walk_tree-Ends (dir fs ss) h zero prefix enough t named stored acc = absurd (omega arith)
      walk_tree-Ends (dir fs ss) h (suc fuel) prefix enough t (fs_named, ss_named)
            (es, subs, here, hash) acc =
          let node = node_of fs es in
          let sorted =
            is_sorted-sort_entries (file_entries fs ++ es)
              (Unique-stored codec trees fs ss es t subs) in
          let passed =
            sort_entries-All (IsPassed (walk_tree codec trees false fuel)) (file_entries fs ++ es) (
              All-append (IsPassed (walk_tree codec trees false fuel)) (file_entries fs) es
                (files-IsPassed (walk_tree codec trees false fuel) fs fs_named)
                (subs-IsPassed ss es fuel (omega arith) t.2 ss_named subs)) in
          let (r, w) =
            entries-Ends (walk_tree codec trees false fuel) node.entries prefix passed acc in
          elim (Bool-cases (no_entries node.entries && not (is_root prefix))) [
            | inl empty ↦ (
              record acc { dirs = acc.dirs ++ prefix ∷ [] },
              ground (arith, ==_self h, here, hash, sorted),
            )
            | inr full ↦ (r, ground (arith, ==_self h, here, hash, sorted, w))
          ]

      subs-IsPassed :
          (ss : Subdirs) (es : List TreeEntry) (fuel : ℕ)
          → depth_below ss ≤ fuel
          → AllTrees ss
          → AllNamed ss
          → StoredSubs codec trees ss es
          → All (IsPassed (walk_tree codec trees false fuel)) es
      subs-IsPassed nil es fuel enough t named e = rw e tt
      subs-IsPassed (cons name d ss) es fuel enough (fresh, t, ts) (n, d_named, ss_named)
            (k, more, e, stored, subs) =
          rw e (
            (
              n,
              λ path.
                  subtree-Ends (walk_tree codec trees false fuel) k path (Stored-set d k stored)
                    (walk_tree-Ends d k fuel path (omega arith) t d_named stored),
            ),
            subs-IsPassed ss more fuel (omega arith) ts ss_named subs,
          )

-- If no two tree nodes have one hash, no hash is empty, and every node of the store stands under its
-- hash, then what `buildAndHash` stores of a directory tree with valid names can be walked: from the
-- root hash that it returns, `walkTree` reports no problem, with fuel for the levels of the tree.
pub walk_tree_ends :
    (codec : Codec) (d : DirNode) (trees trees' : Trees) (h : Bytes)
    → IsCollisionFree codec
    → ((n : TreeNode) (k : Bytes) → tree_hash codec n ≡ some k → k ≢ [])
    → IsSound codec trees
    → IsTree d
    → IsNamed d
    → build codec d trees ≡ ok (h, trees')
    → (r : Resolved) × (walk_tree codec trees' false
          (depth d)
          h
          []
          (record { files = []; dirs = [] })
        ≡ walked r)
walk_tree_ends codec d trees trees' h free set sound t named e =
    let (sound', more, stored) = build-Stored codec free d trees trees' h sound e in
    walk_tree-Ends codec trees' set d h (depth d) [] (omega arith) t named stored
      (record { files = []; dirs = [] })
