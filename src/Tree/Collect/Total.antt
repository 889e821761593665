-- ===== src/Tree/Collect/Total.antt =====
-- `walkCollect` ends on every metadata, also where trees refer to one another in a circle.
use t_sync_sdk_go.Base.{
  ℕ, zero, suc, ◌+◌, ◌≤◌, ◌<◌, ◌≡◌, ◌≢◌, ap, inl, inr, true, false, none, some, List, [], ◌∷◌,
  arith, bytes_eq, contains, if◌then◌else◌, Bool-cases, length,
}
use t_sync_sdk_go.Base.Bytes.{Bytes}
use t_sync_sdk_go.Base.Dict
use t_sync_sdk_go.Errors.{Result-cases}
use t_sync_sdk_go.Metadata.{EntryNode, file, subtree, unset, TreeEntry, TreeNode, Codec}
use t_sync_sdk_go.Names.{validate_name}
use t_sync_sdk_go.Tree.{
  Trees, Live, Walk, too_deep, check_node, is_sorted, collect_node, collect_entry, collect_entries,
  collect,
}
use t_sync_sdk_go.Tree.Collect.{
  collect_entry-Gathers, collect-Gathers, Walk-cases, Checked-cases, check_node-good,
}

-- The number of stored nodes that have not been visited.
unfoldable pub unvisited : List Bytes → Trees → ℕ
unvisited seen [] = 0
unvisited seen ((h, node) ∷ trees) = (if contains seen h then 0 else 1) + unvisited seen trees

unvisited-le : (seen : List Bytes) (trees : Trees) → unvisited seen trees ≤ length trees
unfolding unvisited
unvisited-le seen [] = omega arith
unvisited-le seen ((h, node) ∷ trees) = ground (arith, unvisited-le seen trees)

unvisited_mono :
    (a b : List Bytes) (trees : Trees)
    → ((h : Bytes) → contains a h ≡ true → contains b h ≡ true)
    → unvisited b trees ≤ unvisited a trees
unfolding unvisited
unvisited_mono a b [] g = omega arith
unvisited_mono a b ((h, node) ∷ trees) g = ground (arith, g h, unvisited_mono a b trees g)

-- A visit of a stored node leaves fewer to visit.
unvisited-visit :
    (seen : List Bytes) (h : Bytes) (node : TreeNode) (trees : Trees)
    → Dict.lookup h trees ≡ some node
    → contains seen h ≡ false
    → unvisited (h ∷ seen) trees < unvisited seen trees
unfolding unvisited Dict.lookup
unvisited-visit seen h node [] here new = absurd (ground arith)
unvisited-visit seen h node ((k, other) ∷ trees) here new = elim (bytes_eq.dec h k) [
  | yes same ↦
      let less = unvisited_mono seen (h ∷ seen) trees (λ j x. ground arith) in
      ground (arith, less, ap (contains seen) same)
  | no differ ↦ ground (arith, unvisited-visit seen h node trees)
]

module _ (codec : Codec) (trees : Trees) where
  abbrev Ends : ℕ → (Bytes → Live → Walk Live) → Type 0
  Ends fuel below = (h : Bytes) (a : Live) → unvisited a.trees trees < fuel → below h a ≢ too_deep

  module _ (fuel : ℕ) (ih : Ends fuel (collect codec trees fuel)) where
    collect_node-ends :
        (n : EntryNode) (a : Live)
        → unvisited a.trees trees < fuel
        → collect_node codec trees (collect codec trees fuel) n a ≢ too_deep
    collect_node-ends (file none) a m e = absurd (ground arith)
    collect_node-ends (file (some leaf)) a m e = absurd (ground arith)
    collect_node-ends (subtree []) a m e = absurd (ground arith)
    collect_node-ends (subtree (c ∷ h)) a m e = ih (c ∷ h) a m e
    collect_node-ends unset a m e = absurd (ground arith)

    collect_entry-ends :
        (e : TreeEntry) (a : Live)
        → unvisited a.trees trees < fuel
        → collect_entry codec trees (collect codec trees fuel) e a ≢ too_deep
    unfolding collect_entry
    collect_entry-ends e a m h = elim (Result-cases (validate_name e.name)) [
      | inl (u, fine) ↦ collect_node-ends e.node a m (ground arith)
      | inr (x, bad_one) ↦ absurd (ground arith)
    ]

    collect_entries-ends :
        (es : List TreeEntry) (a : Live)
        → unvisited a.trees trees < fuel
        → collect_entries codec trees (collect codec trees fuel) es a ≢ too_deep
    unfolding collect_entries
    collect_entries-ends [] a m h = absurd (ground arith)
    collect_entries-ends (e ∷ es) a m h =
        elim (Walk-cases (collect_entry codec trees (collect codec trees fuel) e a)) [
          | inl (c, w) ↦
              let (g, cover) =
                collect_entry-Gathers codec trees (collect codec trees fuel)
                  (collect-Gathers codec trees fuel) e a c w in
              collect_entries-ends es c
                (omega (arith, unvisited_mono a.trees c.trees trees g.keeps_trees)) (ground arith)
          | inr (inl (x, w)) ↦ absurd (ground arith)
          | inr (inr w) ↦ collect_entry-ends e a m w
        ]

  collect-Ends : (fuel : ℕ) → Ends fuel (collect codec trees fuel)
  unfolding collect
  collect-Ends zero h a m e = absurd (omega arith)
  collect-Ends (suc fuel) h a m e = elim (Bool-cases (contains a.trees h)) [
    | inl visited ↦ absurd (ground arith)
    | inr new ↦ elim (Checked-cases (check_node codec trees h)) [
      | inr wrong ↦ absurd (ground arith)
      | inl (node, right) ↦
          let smaller =
            unvisited-visit a.trees h node trees (check_node-good codec trees h node right) new in
          let below =
            collect_entries-ends fuel (collect-Ends fuel) node.entries
              (record a { trees = h ∷ a.trees }) (omega arith) in
          elim (Bool-cases (is_sorted node.entries)) [
            | inl sorted ↦ below (ground arith)
            | inr unsorted ↦ absurd (ground arith)
          ]
    ]
  ]

-- Fuel for one more level than there are stored nodes is enough, whatever the trees are: every
-- level below the first visits a node that was not visited before.
pub collect_ends :
    (codec : Codec) (trees : Trees) (h : Bytes) (a : Live)
    → collect codec trees (suc (length trees)) h a ≢ too_deep
collect_ends codec trees h a =
    collect-Ends codec trees (suc (length trees)) h a (omega (arith, unvisited-le a.trees trees))
