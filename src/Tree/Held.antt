-- ===== src/Tree/Held.antt =====
-- `walkTree` of tsync/restore.go gathers nothing that the stored trees do not hold.
use mathlib.Core.List.{append_assoc}
use t_sync_sdk_go.Base.{
  ℕ, zero, suc, ◌≡◌, refl, ◌∙◌, ap, subst, inl, inr, true, false, ◌&&◌, not, none, some, List, [],
  ◌∷◌, ◌++◌, arith, bytes_eq, Bool-cases, All,
}
use t_sync_sdk_go.Base.Bytes.{Bytes, less, less_irrefl, less_trans, slash, join, no_slash}
use t_sync_sdk_go.Base.Dict
use t_sync_sdk_go.Base.Dict.{lookup-insert}
use t_sync_sdk_go.Errors.{ok, Result-cases}
use t_sync_sdk_go.Metadata.{FileLeaf, EntryNode, file, subtree, unset, TreeEntry, TreeNode, Codec}
use t_sync_sdk_go.Names.{validate_name, has_bad_byte}
use t_sync_sdk_go.Tree.{
  Trees, is_sorted, Walk, walked, Resolved, full_path, leaf_key, check_node, walk_node, walk_entry,
  walk_entries, walk_tree, is_root, no_entries,
}
use t_sync_sdk_go.Tree.Order.{find_entry}
use t_sync_sdk_go.Tree.Store.{resolve, entry_at}
use t_sync_sdk_go.Tree.Collect.{Walk-cases, Checked-cases, check_node-good}

-- In sorted entries, a name before the first is found nowhere.
find_entry-below :
    (x : Bytes) (e : TreeEntry) (es : List TreeEntry)
    → less x e.name ≡ true
    → is_sorted (e ∷ es) ≡ true
    → find_entry x (e ∷ es) ≡ none
unfolding find_entry is_sorted
find_entry-below x e [] h s = ground (arith, less_irrefl x)
find_entry-below x e (f ∷ es) h s =
    ground
      (arith, less_irrefl x, find_entry-below x f es (less_trans x e.name f.name h (ground arith)))

abbrev FoundIn : List TreeEntry → TreeEntry → Type 0
FoundIn all e = find_entry e.name all ≡ some e.node

FoundIn-cons :
    (e : TreeEntry) (es fs : List TreeEntry)
    → All (λ f. less e.name f.name ≡ true) fs
    → All (FoundIn es) fs
    → All (FoundIn (e ∷ es)) fs
unfolding find_entry
FoundIn-cons e es [] a h = tt
FoundIn-cons e es (f ∷ fs) (lt, a) (here, h) =
    (ground (arith, less_irrefl f.name), FoundIn-cons e es fs a h)

All-above :
    (x : Bytes) (e : TreeEntry) (es : List TreeEntry)
    → less x e.name ≡ true
    → is_sorted (e ∷ es) ≡ true
    → All (λ f. less x f.name ≡ true) (e ∷ es)
unfolding is_sorted
All-above x e [] h s = (h, tt)
All-above x e (f ∷ es) h s =
    (h, All-above x f es (less_trans x e.name f.name h (ground arith)) (ground arith))

-- Every entry of a sorted node is found under its name.
is_sorted-FoundIn : (es : List TreeEntry) → is_sorted es ≡ true → All (FoundIn es) es
unfolding is_sorted find_entry
is_sorted-FoundIn [] s = tt
is_sorted-FoundIn (e ∷ []) s = (ground arith, tt)
is_sorted-FoundIn (e ∷ f ∷ es) s = (
  ground arith,
  FoundIn-cons e (f ∷ es) (f ∷ es) (All-above e.name f es (ground arith) (ground arith))
      (is_sorted-FoundIn (f ∷ es) (ground arith)),
)

abbrev pub path_of : Bytes → List Bytes → Bytes
path_of prefix parts = full_path prefix (join parts)

pub path_of-cons :
    (prefix : Bytes) (c : ℕ) (x : Bytes) (y : Bytes) (rest : List Bytes)
    → path_of (full_path prefix (c ∷ x)) (y ∷ rest) ≡ path_of prefix ((c ∷ x) ∷ y ∷ rest)
unfolding join
path_of-cons [] c x y rest = refl
path_of-cons (p ∷ prefix) c x y rest =
    ap (λ z. p ∷ z) (append_assoc prefix (slash ∷ c ∷ x) (slash ∷ join (y ∷ rest)))

abbrev pub IsClean : Bytes → Type 0
IsClean name = no_slash name ≡ true

has_bad_byte-no_slash : (name : Bytes) → has_bad_byte name ≡ false → no_slash name ≡ true
unfolding has_bad_byte no_slash
has_bad_byte-no_slash [] h = refl
has_bad_byte-no_slash (c ∷ name) h = ground (arith, has_bad_byte-no_slash name)

-- A valid name is not empty and has no slash.
pub validate_name-cons :
    (name : Bytes) {u : Unit {0}}
    → validate_name name ≡ ok u
    → (c : ℕ) × (rest : Bytes) × (name ≡ c ∷ rest) × IsClean name
unfolding validate_name
validate_name-cons [] v = absurd (ground arith)
validate_name-cons (c ∷ rest) v = (c, rest, refl, ground (arith, has_bad_byte-no_slash (c ∷ rest)))

module _ (codec : Codec) (trees : Trees) (root : Bytes) where
  -- The path stands for a file that resolves below the root, and the key is that file's.
  abbrev pub IsHeld : Bytes → Bytes → Type 0
  IsHeld path key =
      (parts : List Bytes) × (leaf : FileLeaf) × (path ≡ join parts)
      × (resolve trees root parts ≡ some leaf)
      × (key ≡ leaf_key leaf)
      × All IsClean parts

  abbrev AllHeld : Resolved → Type 0
  AllHeld r = (path key : Bytes) → Dict.lookup path r.files ≡ some key → IsHeld path key

  -- What lies below a node at a prefix lies below the root.
  abbrev Stands : Bytes → Bytes → Type 0
  Stands h prefix =
      (x : Bytes) (rest : List Bytes) (leaf : FileLeaf)
      → resolve trees h (x ∷ rest) ≡ some leaf
      → (parts : List Bytes) × (path_of prefix (x ∷ rest) ≡ join parts)
        × (resolve trees root parts ≡ some leaf)
        × (All IsClean (x ∷ rest) → All IsClean parts)

  module _ (walk : Bytes → Bytes → Resolved → Walk Resolved) where
    abbrev Keeps : Type 0
    Keeps =
        (h prefix : Bytes) (acc r : Resolved)
        → Stands h prefix
        → AllHeld acc
        → walk h prefix acc ≡ walked r
        → AllHeld r

    module _ (keeps : Keeps) (h prefix : Bytes) (node : TreeNode)
        (here : Dict.lookup h trees ≡ some node) (stands : Stands h prefix) where
      file-AllHeld :
          (name : Bytes) (leaf : FileLeaf) (acc : Resolved)
          → find_entry name node.entries ≡ some (file (some leaf))
          → IsClean name
          → AllHeld acc
          → AllHeld
              (record acc { files = Dict.insert (full_path prefix name) (leaf_key leaf) acc.files })
      unfolding resolve entry_at join
      file-AllHeld name leaf acc found clean held path key at =
          elim (bytes_eq.dec path (full_path prefix name)) [
            | no other ↦ held path key (
                ground
                  (arith, lookup-insert path (full_path prefix name) (leaf_key leaf) acc.files))
            | yes same ↦
                let (parts, e, resolves, cleans) =
                  stands name [] leaf (ground (arith, here, found)) in
                (
                  parts,
                  leaf,
                  same ∙ e,
                  resolves,
                  ground
                      (arith, lookup-insert path (full_path prefix name) (leaf_key leaf) acc.files),
                  cleans (clean, tt),
                )
          ]

      child-Stands :
          (c : ℕ) (name k : Bytes)
          → find_entry (c ∷ name) node.entries ≡ some (subtree k)
          → IsClean (c ∷ name)
          → Stands k (full_path prefix (c ∷ name))
      unfolding resolve entry_at
      child-Stands c name k found clean x rest leaf e =
          let (parts, same, resolves, cleans) =
            stands (c ∷ name) (x ∷ rest) leaf (ground (arith, here, found)) in
          (parts, path_of-cons prefix c name x rest ∙ same, resolves, λ all. cleans (clean, all))

      node-AllHeld :
          (c : ℕ) (name : Bytes) (n : EntryNode) (acc r : Resolved)
          → find_entry (c ∷ name) node.entries ≡ some n
          → IsClean (c ∷ name)
          → AllHeld acc
          → walk_node codec trees false walk n (full_path prefix (c ∷ name)) acc ≡ walked r
          → AllHeld r
      node-AllHeld c name (file none) acc r found clean held e = absurd (ground arith)
      node-AllHeld c name (file (some leaf)) acc r found clean held e =
          let same : record acc {
            files = Dict.insert (full_path prefix (c ∷ name)) (leaf_key leaf) acc.files;
          }
              ≡ r =
            ground arith in
          subst AllHeld same (file-AllHeld (c ∷ name) leaf acc found clean held)
      node-AllHeld c name (subtree []) acc r found clean held e = absurd (ground arith)
      node-AllHeld c name (subtree (d ∷ k)) acc r found clean held e =
          keeps (d ∷ k) (full_path prefix (c ∷ name)) acc r
            (child-Stands c name (d ∷ k) found clean) held e
      node-AllHeld c name unset acc r found clean held e = absurd (ground arith)

      entry-AllHeld :
          (e : TreeEntry) (acc r : Resolved)
          → FoundIn node.entries e
          → AllHeld acc
          → walk_entry codec trees false walk e prefix acc ≡ walked r
          → AllHeld r
      unfolding walk_entry
      entry-AllHeld e acc r found held w = elim (Result-cases (validate_name e.name)) [
        | inr (x, v) ↦ absurd (ground arith)
        | inl (u, v) ↦
            let (c, name, same, clean) = validate_name-cons e.name v in
            let found' = subst (λ z. find_entry z node.entries ≡ some e.node) same found in
            node-AllHeld c name e.node acc r found' (subst IsClean same clean) held (
              subst
                (λ z. walk_node codec trees false walk e.node (full_path prefix z) acc ≡ walked r)
                same (ground arith))
      ]

      entries-AllHeld :
          (es : List TreeEntry) (acc r : Resolved)
          → All (FoundIn node.entries) es
          → AllHeld acc
          → walk_entries codec trees false walk es prefix acc ≡ walked r
          → AllHeld r
      unfolding walk_entries
      entries-AllHeld [] acc r found held w =
          let same : acc ≡ r = ground arith in subst AllHeld same held
      entries-AllHeld (e ∷ es) acc r (found, more) held w =
          elim (Walk-cases (walk_entry codec trees false walk e prefix acc)) [
            | inl (next, v) ↦
                entries-AllHeld es next r more (entry-AllHeld e acc next found held v)
                  (ground arith)
            | inr (inl (x, v)) ↦ absurd (ground arith)
            | inr (inr v) ↦ absurd (ground arith)
          ]

  walk_tree-AllHeld : (fuel : ℕ) → Keeps (walk_tree codec trees false fuel)
  unfolding walk_tree
  walk_tree-AllHeld zero h prefix acc r stands held w = absurd (ground arith)
  walk_tree-AllHeld (suc fuel) h prefix acc r stands held w =
      elim (Checked-cases (check_node codec trees h)) [
        | inr b ↦ absurd (ground arith)
        | inl (node, g) ↦
            let here = check_node-good codec trees h node g in
            elim (Bool-cases (is_sorted node.entries)) [
              | inr unsorted ↦ absurd (ground arith)
              | inl sorted ↦ elim (Bool-cases (no_entries node.entries && not (is_root prefix))) [
                | inl empty ↦
                    let same : record acc { dirs = acc.dirs ++ prefix ∷ [] } ≡ r = ground arith in
                    subst AllHeld same held
                | inr full ↦
                    entries-AllHeld (walk_tree codec trees false fuel) (walk_tree-AllHeld fuel) h
                      prefix node here stands node.entries acc r
                      (is_sorted-FoundIn node.entries sorted) held (ground arith)
              ]
            ]
      ]

-- Where `walkTree` of a root reports no problem, every file that it lists is one that the stored
-- trees hold: the path, split into names, resolves below the root to a file with the listed key.
-- So a restore writes no path and takes no part that the version does not have.
pub walk_tree-IsHeld :
    (codec : Codec) (trees : Trees) (fuel : ℕ) (root : Bytes) (r : Resolved)
    → walk_tree codec trees false fuel root [] (record { files = []; dirs = [] }) ≡ walked r
    → (path key : Bytes) → Dict.lookup path r.files ≡ some key
    → IsHeld codec trees root path key
unfolding Dict.lookup
walk_tree-IsHeld codec trees fuel root r w path key found =
    walk_tree-AllHeld codec trees root fuel root [] (record { files = []; dirs = [] }) r
      (λ x rest leaf e. (x ∷ rest, refl, e, λ clean. clean)) (λ p k e. absurd (ground arith)) w path
      key found
