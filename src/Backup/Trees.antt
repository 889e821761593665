-- ===== src/Backup/Trees.antt =====
-- The new trees of a run among the old ones.
use t_sync_sdk_go.Base.{◌≡◌, subst, inl, inr, some, List, [], ◌∷◌, arith, Option-cases, bytes_eq}
use t_sync_sdk_go.Base.Bytes.{Bytes}
use t_sync_sdk_go.Base.Dict
use t_sync_sdk_go.Base.Dict.{Dict, NodupKeys, insert-NodupKeys, lookup-copy}
use t_sync_sdk_go.Errors.{ok, Result-cases}
use t_sync_sdk_go.Metadata.{TreeEntry, FileLeaf, Codec, tree_hash}
use t_sync_sdk_go.Tree.{DirNode, dir, Subdirs, nil, cons, Trees, build, build_subdirs}
use t_sync_sdk_go.Tree.Store.{
  IsCollisionFree, IsSound, Extends, node_of, resolve, entry_at, hash_of,
}
use t_sync_sdk_go.Tree.Order.{find_entry}

module _ (codec : Codec) where
  mutual
    unfolding build

    pub build-NodupKeys :
        (d : DirNode) (t u : Trees) (h : Bytes)
        → NodupKeys t
        → build codec d t ≡ ok (h, u)
        → NodupKeys u
    build-NodupKeys (dir fs ss) t u h n e = elim (Result-cases (build_subdirs codec ss t)) [
      | inr (x, b) ↦ absurd (ground arith)
      | inl ((es, v), b) ↦ elim (Option-cases (tree_hash codec (node_of fs es))) [
        | inl no_hash ↦ absurd (ground arith)
        | inr (k, hash) ↦
            let same : Dict.insert k (node_of fs es) v ≡ u = ground arith in
            subst NodupKeys same
              (insert-NodupKeys k (node_of fs es) v (build_subdirs-NodupKeys ss t v es n b))
      ]
    ]

    build_subdirs-NodupKeys :
        (ss : Subdirs) (t u : Trees) (es : List TreeEntry)
        → NodupKeys t
        → build_subdirs codec ss t ≡ ok (es, u)
        → NodupKeys u
    build_subdirs-NodupKeys nil t u es n e =
        let same : t ≡ u = ground arith in subst NodupKeys same n
    build_subdirs-NodupKeys (cons x d ss) t u es n e = elim (Result-cases (build codec d t)) [
      | inr (y, b) ↦ absurd (ground arith)
      | inl ((k, v), b) ↦ elim (Result-cases (build_subdirs codec ss v)) [
        | inr (y, c) ↦ absurd (ground arith)
        | inl ((more, w), c) ↦
            let same : w ≡ u = ground arith in
            subst NodupKeys same
              (build_subdirs-NodupKeys ss v w more (build-NodupKeys d t v k n b) c)
      ]
    ]

  -- Trees under their hashes do not clash: the copy has both the old and the new ones.
  pub copy-Extends :
      (old new : Trees)
      → IsCollisionFree codec
      → IsSound codec old
      → IsSound codec new
      → NodupKeys new
      → Extends codec old (Dict.copy old new) × Extends codec new (Dict.copy old new)
  copy-Extends old new free old_sound new_sound u = (
    λ h n found. elim (Option-cases (Dict.lookup h new)) [
      | inl absent ↦ ground (arith, lookup-copy h old new u)
      | inr (m, there) ↦
          ground
            (arith, lookup-copy h old new u, free m n h (new_sound h m there) (old_sound h n found))
    ],
    λ h n found. ground (arith, lookup-copy h old new u),
  )

  -- A path that resolves to a file does so among more trees.
  pub resolve-Extends :
      (t u : Trees) (h : Bytes) (p : List Bytes) (leaf : FileLeaf)
      → Extends codec t u
      → resolve t h p ≡ some leaf
      → resolve u h p ≡ some leaf
  unfolding resolve entry_at
  resolve-Extends t u h [] leaf x e = absurd (ground arith)
  resolve-Extends t u h (part ∷ []) leaf x e = elim (Option-cases (Dict.lookup h t)) [
    | inl no_node ↦ absurd (ground arith)
    | inr (n, found) ↦ ground (arith, x h n found)
  ]
  resolve-Extends t u h (part ∷ next ∷ p) leaf x e = elim (Option-cases (Dict.lookup h t)) [
    | inl no_node ↦ absurd (ground arith)
    | inr (n, found) ↦ elim (Option-cases (hash_of (find_entry part n.entries))) [
      | inl no_hash ↦ absurd (ground arith)
      | inr (k, below) ↦
          let rest = resolve-Extends t u k (next ∷ p) leaf x (ground arith) in
          ground (arith, x h n found, below, rest)
    ]
  ]
