-- ===== src/Tree/Collect/Keep.antt =====
-- Dropping from the store what was not gathered changes no gathered tree.
use t_sync_sdk_go.Base.{
  ◌≡◌, refl, ap, subst, ◌⊎◌, inl, inr, Bool, true, none, some, List, [], ◌∷◌, arith, bytes_eq,
  contains, Option-cases, All,
}
use t_sync_sdk_go.Base.Bytes.{Bytes}
use t_sync_sdk_go.Base.Dict
use t_sync_sdk_go.Metadata.{FileLeaf, EntryNode, file, subtree, TreeEntry, TreeNode}
use t_sync_sdk_go.Tree.{Trees, leaf_key, Live}
use t_sync_sdk_go.Tree.Order.{find_entry}
use t_sync_sdk_go.Tree.Store.{entry_at, leaf_of, hash_of, resolve}
use t_sync_sdk_go.Tree.Collect.{Covered, Covers}

-- A set of hashes and keys that is closed in the store.
pub record IsClosed (trees : Trees) (live : Live) : Type 0 where
  pub closed :
      (h : Bytes)
      → contains live.trees h ≡ true
      → (node : TreeNode) × (Dict.lookup h trees ≡ some node) × (All (Covers live) node.entries)

Covers-find_entry :
    (live : Live) (x : Bytes) (es : List TreeEntry) (n : EntryNode)
    → All (Covers live) es
    → find_entry x es ≡ some n
    → Covered live n
unfolding find_entry
Covers-find_entry live x [] n c e = absurd (ground arith)
Covers-find_entry live x (f ∷ es) n c e = elim (bytes_eq.dec x f.name) [
  | yes same ↦ let same_n : f.node ≡ n = ground arith in subst (Covered live) same_n c.0
  | no other ↦ Covers-find_entry live x es n c.1 (ground arith)
]

module _ (trees : Trees) (live : Live) (c : IsClosed trees live) where
  abbrev pub kept : Trees
  kept = Dict.keep (λ h. contains live.trees h) trees

  entry_at-Covered :
      (h x : Bytes) (n : EntryNode)
      → contains live.trees h ≡ true
      → entry_at trees h x ≡ some n
      → Covered live n
  unfolding entry_at
  entry_at-Covered h x n in_live e =
      let (node, here, covers) = c.closed h in_live in
      Covers-find_entry live x node.entries n covers (ground arith)

  entry_at-kept :
      (h x : Bytes) → contains live.trees h ≡ true → entry_at kept h x ≡ entry_at trees h x
  unfolding entry_at
  entry_at-kept h x in_live =
      let p : Bytes → Bool = λ h. contains live.trees h in
      ground (arith, Dict.lookup-keep h p trees)

  -- Below a gathered hash every path resolves as before, and the keys of the files are gathered.
  pub resolve-kept :
      (p : List Bytes) (h : Bytes)
      → contains live.trees h ≡ true
      → (resolve kept h p ≡ resolve trees h p)
        × ((leaf : FileLeaf)
            → resolve trees h p ≡ some leaf
            → contains live.files (leaf_key leaf) ≡ true)
  unfolding resolve
  resolve-kept [] h in_live = (refl, λ leaf e. absurd (ground arith))
  resolve-kept (x ∷ []) h in_live = (
    ap leaf_of (entry_at-kept h x in_live),
    λ leaf e. found leaf (Option-cases (entry_at trees h x)) e,
  )
    where
      found :
          (leaf : FileLeaf)
          → (entry_at trees h x ≡ none) ⊎ ((n : EntryNode) × (entry_at trees h x ≡ some n))
          → leaf_of (entry_at trees h x) ≡ some leaf
          → contains live.files (leaf_key leaf) ≡ true
      found leaf (inl e) h' = absurd (ground arith)
      found leaf (inr (n, e)) h' =
          let same : n ≡ file (some leaf) = ground arith in
          subst (Covered live) same (entry_at-Covered h x n in_live e)
  resolve-kept (x ∷ y ∷ p) h in_live = elim (Option-cases (hash_of (entry_at trees h x))) [
    | inl e ↦ (ground (arith, entry_at-kept h x in_live), λ leaf f. absurd (ground arith))
    | inr (k, e) ↦
        let at : entry_at trees h x ≡ some (subtree k) = ground arith in
        let (same, keys) = resolve-kept (y ∷ p) k (entry_at-Covered h x (subtree k) in_live at) in
        (ground (arith, entry_at-kept h x in_live, same), λ leaf f. keys leaf (ground arith))
  ]
