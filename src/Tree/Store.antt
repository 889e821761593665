-- ===== src/Tree/Store.antt =====
-- Stored trees: `buildAndHash` stores a directory tree so that every path resolves to its file.
use t_sync_sdk_go.Base.{
  ◌≡◌, subst, Option, none, some, List, [], ◌∷◌, ◌++◌, arith, bytes_eq, Option-cases, inl, inr,
}
use mathlib.Core.Path.{subst₂}
use t_sync_sdk_go.Base.Bytes.{Bytes}
use t_sync_sdk_go.Base.Dict
use t_sync_sdk_go.Errors.{ok, Result-cases}
use t_sync_sdk_go.Metadata.{
  FileLeaf, EntryNode, file, subtree, TreeEntry, TreeNode, Codec, tree_hash,
}
use t_sync_sdk_go.Tree.{
  DirNode, dir, Subdirs, nil, cons, sort_entries, file_entries, Trees, build, build_subdirs,
}
use t_sync_sdk_go.Tree.Order.{find_entry}

-- The entry of a name in the stored node of a hash.
unfoldable pub entry_at : Trees → Bytes → Bytes → Option EntryNode
entry_at trees h x = elim (Dict.lookup h trees) [
  | none ↦ none
  | some node ↦ find_entry x node.entries
]

abbrev pub leaf_of : Option EntryNode → Option FileLeaf
leaf_of (some (file leaf)) = leaf
leaf_of _ = none

abbrev pub hash_of : Option EntryNode → Option Bytes
hash_of (some (subtree k)) = some k
hash_of _ = none

-- The file at a path below the stored node of a hash.
unfoldable pub resolve : Trees → Bytes → List Bytes → Option FileLeaf
resolve trees h [] = none
resolve trees h (x ∷ []) = leaf_of (entry_at trees h x)
resolve trees h (x ∷ y ∷ p) = elim (hash_of (entry_at trees h x)) [
  | none ↦ none
  | some k ↦ resolve trees k (y ∷ p)
]

abbrev pub node_of : Dict.Dict Bytes FileLeaf → List TreeEntry → TreeNode
node_of fs es = record { entries = sort_entries (file_entries fs ++ es) }

-- A directory tree is stored under a hash.
module _ (codec : Codec) where
  unfoldable mutual
    pub Stored : Trees → DirNode → Bytes → Type 0
    Stored trees (dir fs ss) h =
        (es : List TreeEntry) × (StoredSubs trees ss es)
        × (Dict.lookup h trees ≡ some (node_of fs es))
        × (tree_hash codec (node_of fs es) ≡ some h)

    pub StoredSubs : Trees → Subdirs → List TreeEntry → Type 0
    StoredSubs trees nil es = es ≡ []
    StoredSubs trees (cons x d ss) es =
        (k : Bytes) × (more : List TreeEntry) × (es ≡ record { name = x; node = subtree k } ∷ more)
        × (Stored trees d k)
        × (StoredSubs trees ss more)

  -- Two nodes with one hash are equal.
  abbrev pub IsCollisionFree : Type 0
  IsCollisionFree =
      (m n : TreeNode) (h : Bytes) → tree_hash codec m ≡ some h → tree_hash codec n ≡ some h → m ≡ n

  -- Every node stands under its hash.
  abbrev pub IsSound : Trees → Type 0
  IsSound trees =
      (h : Bytes) (n : TreeNode) → Dict.lookup h trees ≡ some n → tree_hash codec n ≡ some h

  abbrev pub Extends : Trees → Trees → Type 0
  Extends trees more =
      (h : Bytes) (n : TreeNode) → Dict.lookup h trees ≡ some n → Dict.lookup h more ≡ some n

  mutual
    unfolding Stored

    pub Stored-Extends :
        (d : DirNode) (t u : Trees) (h : Bytes) → Extends t u → Stored t d h → Stored u d h
    Stored-Extends (dir fs ss) t u h x (es, subs, here, hash) =
        (es, StoredSubs-Extends ss t u es x subs, x h (node_of fs es) here, hash)

    StoredSubs-Extends :
        (ss : Subdirs) (t u : Trees) (es : List TreeEntry)
        → Extends t u
        → StoredSubs t ss es
        → StoredSubs u ss es
    StoredSubs-Extends nil t u es x e = e
    StoredSubs-Extends (cons y d ss) t u es x (k, more, e, stored, subs) =
        (k, more, e, Stored-Extends d t u k x stored, StoredSubs-Extends ss t u more x subs)

  module _ (free : IsCollisionFree) where
    pub insert-Extends :
        (h : Bytes) (n : TreeNode) (t : Trees)
        → IsSound t
        → tree_hash codec n ≡ some h
        → Extends t (Dict.insert h n t)
    insert-Extends h n t sound hash k m found = rw Dict.lookup-insert (elim (bytes_eq.dec k h) [
      | yes same ↦
          ground (
            arith,
            free n m h hash (subst (λ j. tree_hash codec m ≡ some j) same (sound k m found)),
          )
      | no other ↦ ground arith
    ])

    pub insert-IsSound :
        (h : Bytes) (n : TreeNode) (t : Trees)
        → IsSound t
        → tree_hash codec n ≡ some h
        → IsSound (Dict.insert h n t)
    insert-IsSound h n t sound hash k m found =
        ground (arith, sound k m, Dict.lookup-insert k h n t)

    Stored-here :
        (fs : Dict.Dict Bytes FileLeaf) (ss : Subdirs) (es : List TreeEntry) (v : Trees) (k : Bytes)
        → IsSound v
        → StoredSubs v ss es
        → tree_hash codec (node_of fs es) ≡ some k
        → let u = Dict.insert k (node_of fs es) v in
          IsSound u × Extends v u × Stored u (dir fs ss) k
    unfolding Stored
    Stored-here fs ss es v k sound subs hash =
        let x = insert-Extends k (node_of fs es) v sound hash in
        (
          insert-IsSound k (node_of fs es) v sound hash,
          x,
          (
            es,
            StoredSubs-Extends ss v (Dict.insert k (node_of fs es) v) es x subs,
            ground (arith, Dict.lookup-insert k k (node_of fs es) v),
            hash,
          ),
        )

    mutual
      unfolding Stored build

      pub build-Stored :
          (d : DirNode) (t u : Trees) (h : Bytes)
          → IsSound t
          → build codec d t ≡ ok (h, u)
          → IsSound u × Extends t u × Stored u d h
      build-Stored (dir fs ss) t u h sound e = elim (Result-cases (build_subdirs codec ss t)) [
        | inr (x, b) ↦ absurd (ground arith)
        | inl ((es, v), b) ↦ elim (Option-cases (tree_hash codec (node_of fs es))) [
          | inl no_hash ↦ absurd (ground arith)
          | inr (k, hash) ↦
              let (sv, xv, subs) = build_subdirs-Stored ss t v es sound b in
              let (su, xu, stored) = Stored-here fs ss es v k sv subs hash in
              let same_h : k ≡ h = ground arith in
              let same_u : Dict.insert k (node_of fs es) v ≡ u = ground arith in
              subst₂ (λ j w. IsSound w × Extends t w × Stored w (dir fs ss) j) same_h same_u
                (su, λ j n found. xu j n (xv j n found), stored)
        ]
      ]

      build_subdirs-Stored :
          (ss : Subdirs) (t u : Trees) (es : List TreeEntry)
          → IsSound t
          → build_subdirs codec ss t ≡ ok (es, u)
          → IsSound u × Extends t u × StoredSubs u ss es
      build_subdirs-Stored nil t u es sound e =
          let same : t ≡ u = ground arith in
          subst (λ w. IsSound w × Extends t w × (es ≡ [])) same
            (sound, λ j n found. found, ground arith)
      build_subdirs-Stored (cons x d ss) t u es sound e = elim (Result-cases (build codec d t)) [
        | inr (y, b) ↦ absurd (ground arith)
        | inl ((k, v), b) ↦ elim (Result-cases (build_subdirs codec ss v)) [
          | inr (y, c) ↦ absurd (ground arith)
          | inl ((more, w), c) ↦
              let (sv, xv, stored) = build-Stored d t v k sound b in
              let (sw, xw, subs) = build_subdirs-Stored ss v w more sv c in
              let same_u : w ≡ u = ground arith in
              subst (λ z. IsSound z × Extends t z × StoredSubs z (cons x d ss) es) same_u
                (
                  sw,
                  λ j n found. xw j n (xv j n found),
                  (k, more, ground arith, Stored-Extends d v w k xw stored, subs),
                )
        ]
      ]
