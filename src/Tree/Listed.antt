-- ===== src/Tree/Listed.antt =====
-- `walkTree` of tsync/restore.go gathers every file that the stored trees hold.
use t_sync_sdk_go.Base.{
  ℕ, zero, suc, ◌≡◌, refl, ◌∙◌, sym, ap, subst, inl, inr, true, false, ◌&&◌, not, Option, none,
  some, List, [], ◌∷◌, ◌++◌, arith, bytes_eq, Bool-cases, Option-cases,
}
use t_sync_sdk_go.Base.Bytes.{Bytes, slash, join}
use t_sync_sdk_go.Base.Dict
use t_sync_sdk_go.Base.Dict.{lookup-insert}
use t_sync_sdk_go.Errors.{Result-cases}
use t_sync_sdk_go.Metadata.{FileLeaf, EntryNode, file, subtree, unset, TreeEntry, TreeNode, Codec}
use t_sync_sdk_go.Names.{validate_name}
use t_sync_sdk_go.Tree.{
  Trees, is_sorted, Walk, walked, Resolved, full_path, leaf_key, check_node, walk_node, walk_entry,
  walk_entries, walk_tree, is_root, no_entries,
}
use t_sync_sdk_go.Tree.Order.{find_entry}
use t_sync_sdk_go.Tree.Store.{resolve, entry_at}
use t_sync_sdk_go.Tree.Collect.{Walk-cases, Checked-cases, check_node-good}
use t_sync_sdk_go.Tree.Store.{leaf_of, hash_of}
use t_sync_sdk_go.Tree.Held.{path_of, path_of-cons, validate_name-cons, IsHeld, walk_tree-IsHeld}
use t_sync_sdk_go.Base.Dict.{has-insert, has-lookup}
use t_sync_sdk_go.Base.Bytes.{split, split-cons, join-split, split-join}

resolve-nil : (codec : Codec) (trees : Trees) (root : Bytes) → resolve trees root [] ≡ none
unfolding resolve
resolve-nil codec trees root = refl

-- No file that has been listed is dropped.
abbrev Grows : Resolved → Resolved → Type 0
Grows a b = (p : Bytes) → Dict.has p a.files ≡ true → Dict.has p b.files ≡ true

find_entry-no_entries :
    (x : Bytes) (es : List TreeEntry) → no_entries es ≡ true → find_entry x es ≡ none
unfolding find_entry
find_entry-no_entries x [] h = refl
find_entry-no_entries x (e ∷ es) h = absurd (ground arith)

module _ (codec : Codec) (trees : Trees) where
  -- What a path leads to after its first name, from the node of that name's entry.
  abbrev leads : EntryNode → List Bytes → Option FileLeaf
  leads n [] = leaf_of (some n)
  leads n (y ∷ rest) = elim (hash_of (some n)) [ none ↦ none | some k ↦ resolve trees k (y ∷ rest) ]

  resolve-leads :
      (h : Bytes) (node : TreeNode) (x : Bytes) (rest : List Bytes) (leaf : FileLeaf)
      → Dict.lookup h trees ≡ some node
      → resolve trees h (x ∷ rest) ≡ some leaf
      → (n : EntryNode) × (find_entry x node.entries ≡ some n) × (leads n rest ≡ some leaf)
  unfolding entry_at resolve
  resolve-leads h node x [] leaf here e = elim (Option-cases (find_entry x node.entries)) [
    | inl absent ↦ absurd (ground arith)
    | inr (n, found) ↦ (n, found, ground arith)
  ]
  resolve-leads h node x (y ∷ rest) leaf here e = elim (Option-cases (find_entry x node.entries)) [
    | inl absent ↦ absurd (ground arith)
    | inr (n, found) ↦ (n, found, ground arith)
  ]

  module _ (walk : Bytes → Bytes → Resolved → Walk Resolved) where
    abbrev AllGrow : Type 0
    AllGrow = (h prefix : Bytes) (acc r : Resolved) → walk h prefix acc ≡ walked r → Grows acc r

    abbrev AllListed : Type 0
    AllListed =
        (h prefix : Bytes) (acc r : Resolved) (x : Bytes) (rest : List Bytes) (leaf : FileLeaf)
        → walk h prefix acc ≡ walked r
        → resolve trees h (x ∷ rest) ≡ some leaf
        → Dict.has (path_of prefix (x ∷ rest)) r.files ≡ true

    module _ (grow : AllGrow) (prefix : Bytes) where
      node-Grows :
          (n : EntryNode) (path : Bytes) (acc r : Resolved)
          → walk_node codec trees false walk n path acc ≡ walked r
          → Grows acc r
      node-Grows (file none) path acc r e p h = absurd (ground arith)
      node-Grows (file (some leaf)) path acc r e p h =
          let same : record acc { files = Dict.insert path (leaf_key leaf) acc.files } ≡ r =
            ground arith in
          subst (λ z. Dict.has p z.files ≡ true) same
            (ground (arith, has-insert p path (leaf_key leaf) acc.files))
      node-Grows (subtree []) path acc r e p h = absurd (ground arith)
      node-Grows (subtree (d ∷ k)) path acc r e p h = grow (d ∷ k) path acc r e p h
      node-Grows unset path acc r e p h = absurd (ground arith)

      entry-Grows :
          (e : TreeEntry) (acc r : Resolved)
          → walk_entry codec trees false walk e prefix acc ≡ walked r
          → Grows acc r
      unfolding walk_entry
      entry-Grows e acc r w p h = elim (Result-cases (validate_name e.name)) [
        | inr (x, v) ↦ absurd (ground arith)
        | inl (u, v) ↦ node-Grows e.node (full_path prefix e.name) acc r (ground arith) p h
      ]

      entries-Grows :
          (es : List TreeEntry) (acc r : Resolved)
          → walk_entries codec trees false walk es prefix acc ≡ walked r
          → Grows acc r
      unfolding walk_entries
      entries-Grows [] acc r w p h =
          let same : acc ≡ r = ground arith in subst (λ z. Dict.has p z.files ≡ true) same h
      entries-Grows (e ∷ es) acc r w p h =
          elim (Walk-cases (walk_entry codec trees false walk e prefix acc)) [
            | inl (next, v) ↦
                entries-Grows es next r (ground arith) p (entry-Grows e acc next v p h)
            | inr (inl (x, v)) ↦ absurd (ground arith)
            | inr (inr v) ↦ absurd (ground arith)
          ]

      module _ (listed : AllListed) where
        node-Listed :
            (c : ℕ) (name : Bytes) (n : EntryNode) (rest : List Bytes) (leaf : FileLeaf)
            (acc r : Resolved)
            → leads n rest ≡ some leaf
            → walk_node codec trees false walk n (full_path prefix (c ∷ name)) acc ≡ walked r
            → Dict.has (path_of prefix ((c ∷ name) ∷ rest)) r.files ≡ true
        unfolding join
        node-Listed c name (file none) rest leaf acc r l e = absurd (ground arith)
        node-Listed c name (file (some f)) [] leaf acc r l e =
            let path = full_path prefix (c ∷ name) in
            let same : record acc { files = Dict.insert path (leaf_key f) acc.files } ≡ r =
              ground arith in
            subst (λ z. Dict.has path z.files ≡ true) same
              (ground (arith, has-insert path path (leaf_key f) acc.files))
        node-Listed c name (file (some f)) (y ∷ rest) leaf acc r l e = absurd (ground arith)
        node-Listed c name (subtree []) rest leaf acc r l e = absurd (ground arith)
        node-Listed c name (subtree (d ∷ k)) [] leaf acc r l e = absurd (ground arith)
        node-Listed c name (subtree (d ∷ k)) (y ∷ rest) leaf acc r l e =
            subst (λ z. Dict.has z r.files ≡ true) (path_of-cons prefix c name y rest)
              (listed (d ∷ k) (full_path prefix (c ∷ name)) acc r y rest leaf e l)
        node-Listed c name unset rest leaf acc r l e = absurd (ground arith)

        entry-Listed :
            (e : TreeEntry) (rest : List Bytes) (leaf : FileLeaf) (acc r : Resolved)
            → leads e.node rest ≡ some leaf
            → walk_entry codec trees false walk e prefix acc ≡ walked r
            → Dict.has (path_of prefix (e.name ∷ rest)) r.files ≡ true
        unfolding walk_entry
        entry-Listed e rest leaf acc r l w = elim (Result-cases (validate_name e.name)) [
          | inr (x, v) ↦ absurd (ground arith)
          | inl (u, v) ↦
              let (c, name, same, clean) = validate_name-cons e.name v in
              subst (λ z. Dict.has (path_of prefix (z ∷ rest)) r.files ≡ true) (sym same)
                (node-Listed c name e.node rest leaf acc r l (
                  subst
                    (λ z.
                      walk_node codec trees false walk e.node (full_path prefix z) acc ≡ walked r)
                    same (ground arith)))
        ]

        entries-Listed :
            (es : List TreeEntry) (x : Bytes) (n : EntryNode) (rest : List Bytes) (leaf : FileLeaf)
            (acc r : Resolved)
            → find_entry x es ≡ some n
            → leads n rest ≡ some leaf
            → walk_entries codec trees false walk es prefix acc ≡ walked r
            → Dict.has (path_of prefix (x ∷ rest)) r.files ≡ true
        unfolding walk_entries find_entry
        entries-Listed [] x n rest leaf acc r found l w = absurd (ground arith)
        entries-Listed (e ∷ es) x n rest leaf acc r found l w =
            elim (Walk-cases (walk_entry codec trees false walk e prefix acc)) [
              | inr (inl (y, v)) ↦ absurd (ground arith)
              | inr (inr v) ↦ absurd (ground arith)
              | inl (next, v) ↦ elim (bytes_eq.dec x e.name) [
                | no other ↦ entries-Listed es x n rest leaf next r (ground arith) l (ground arith)
                | yes same ↦
                    let same_n : n ≡ e.node = ground arith in
                    let here =
                      entry-Listed e rest leaf acc next
                        (subst (λ z. leads z rest ≡ some leaf) same_n l) v in
                    entries-Grows es next r (ground arith) (path_of prefix (x ∷ rest)) (
                      subst (λ z. Dict.has (path_of prefix (z ∷ rest)) next.files ≡ true) (sym same)
                        here)
              ]
            ]

  walk_tree-Grows : (fuel : ℕ) → AllGrow (walk_tree codec trees false fuel)
  unfolding walk_tree
  walk_tree-Grows zero h prefix acc r w p has_p = absurd (ground arith)
  walk_tree-Grows (suc fuel) h prefix acc r w p has_p =
      elim (Checked-cases (check_node codec trees h)) [
        | inr b ↦ absurd (ground arith)
        | inl (node, g) ↦ elim (Bool-cases (is_sorted node.entries)) [
          | inr unsorted ↦ absurd (ground arith)
          | inl sorted ↦ elim (Bool-cases (no_entries node.entries && not (is_root prefix))) [
            | inl empty ↦
                let same : record acc { dirs = acc.dirs ++ prefix ∷ [] } ≡ r = ground arith in
                subst (λ z. Dict.has p z.files ≡ true) same has_p
            | inr full ↦
                entries-Grows (walk_tree codec trees false fuel) (walk_tree-Grows fuel) prefix
                  node.entries acc r (ground arith) p has_p
          ]
        ]
      ]

  walk_tree-Listed : (fuel : ℕ) → AllListed (walk_tree codec trees false fuel)
  unfolding walk_tree entry_at resolve
  walk_tree-Listed zero h prefix acc r x rest leaf w e = absurd (ground arith)
  walk_tree-Listed (suc fuel) h prefix acc r x rest leaf w e =
      elim (Checked-cases (check_node codec trees h)) [
        | inr b ↦ absurd (ground arith)
        | inl (node, g) ↦ elim (Bool-cases (is_sorted node.entries)) [
          | inr unsorted ↦ absurd (ground arith)
          | inl sorted ↦
              let here = check_node-good codec trees h node g in
              let (n, found, l) = resolve-leads h node x rest leaf here e in
              elim (Bool-cases (no_entries node.entries && not (is_root prefix))) [
                | inl empty ↦ absurd (ground (arith, find_entry-no_entries x node.entries))
                | inr full ↦
                    entries-Listed (walk_tree codec trees false fuel) (walk_tree-Grows fuel) prefix
                      (walk_tree-Listed fuel) node.entries x n rest leaf acc r found l
                      (ground arith)
              ]
        ]
      ]

abbrev pub key_of : Option FileLeaf → Option Bytes
key_of none = none
key_of (some leaf) = some (leaf_key leaf)

-- Where `walkTree` of a root reports no problem, the map that it returns is the version's: it gives
-- to every path the key of the file to which the path, split into names, resolves below the root,
-- and nothing to a path that resolves to no file. So a restore misses no file and adds none.
pub walk_tree-resolve :
    (codec : Codec) (trees : Trees) (fuel : ℕ) (root : Bytes) (r : Resolved)
    → walk_tree codec trees false fuel root [] (record { files = []; dirs = [] }) ≡ walked r
    → (q : Bytes) → Dict.lookup q r.files ≡ key_of (resolve trees root (split slash q))
walk_tree-resolve codec trees fuel root r w q = elim (Option-cases (Dict.lookup q r.files)) [
  | inr (key, found) ↦
      let (leaf, e, same) =
        held_resolves key (walk_tree-IsHeld codec trees fuel root r w q key found) in
      ground (arith, e, same)
  | inl absent ↦ elim (Option-cases (resolve trees root (split slash q))) [
    | inl e ↦ ground arith
    | inr (leaf, e) ↦
        let (x, rest, parts) = split-cons q in
        let has_it =
          walk_tree-Listed codec trees fuel root [] (record { files = []; dirs = [] }) r x rest leaf
            w (subst (λ z. resolve trees root z ≡ some leaf) parts e) in
        let at_q : Dict.has q r.files ≡ true =
          subst (λ z. Dict.has z r.files ≡ true) (ap join (sym parts) ∙ join-split q) has_it in
        absurd (ground (arith, has-lookup q r.files))
  ]
]
  where
    held_resolves :
        (key : Bytes)
        → IsHeld codec trees root q key
        → (leaf : FileLeaf) × (resolve trees root (split slash q) ≡ some leaf)
          × (key ≡ leaf_key leaf)
    held_resolves key ([], leaf, same, e, k, clean) =
        absurd (ground (arith, resolve-nil codec trees root))
    held_resolves key (p ∷ ps, leaf, same, e, k, clean) =
        (leaf, ap (resolve trees root) (ap (split slash) same ∙ split-join p ps clean) ∙ e, k)
