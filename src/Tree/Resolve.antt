-- ===== src/Tree/Resolve.antt =====
-- Every path of a stored directory tree resolves to its file, and the stored nodes are in order.
use t_sync_sdk_go.Base.{
  ◌≡◌, refl, ◌∙◌, subst, true, Option, none, some, List, [], ◌∷◌, ◌++◌, arith, bytes_eq, ==_self,
  Option-cases, inl, inr,
}
use t_sync_sdk_go.Base.Bytes.{Bytes}
use t_sync_sdk_go.Base.Dict
use t_sync_sdk_go.Errors.{ok}
use t_sync_sdk_go.Metadata.{FileLeaf, EntryNode, file, subtree, TreeEntry, TreeNode, Codec}
use t_sync_sdk_go.Tree.{
  DirNode, dir, Subdirs, nil, cons, get_sub, file_entries, Trees, build, is_sorted, check_node,
  good,
}
use t_sync_sdk_go.Tree.Order.{find_entry, Unique, find_entry-sort_entries, is_sorted-sort_entries}
use t_sync_sdk_go.Tree.Paths.{find_file}
use t_sync_sdk_go.Tree.Shape.{IsTree, AllTrees, get_sub-IsTree}
use t_sync_sdk_go.Tree.Store.{
  entry_at, resolve, node_of, Stored, StoredSubs, IsCollisionFree, IsSound, Extends, build-Stored,
}

abbrev file_or : Option FileLeaf → Option EntryNode → Option EntryNode
file_or none other = other
file_or (some leaf) other = some (file (some leaf))

find_entry-file_entries :
    (x : Bytes) (fs : Dict.Dict Bytes FileLeaf) (es : List TreeEntry)
    → find_entry x (file_entries fs ++ es) ≡ file_or (Dict.lookup x fs) (find_entry x es)
unfolding find_entry file_entries Dict.lookup
find_entry-file_entries x [] es = refl
find_entry-file_entries x ((y, leaf) ∷ fs) es = ground (arith, find_entry-file_entries x fs es)

module _ (codec : Codec) (trees : Trees) where
  find_entry-no_sub :
      (x : Bytes) (ss : Subdirs) (es : List TreeEntry)
      → StoredSubs codec trees ss es
      → get_sub x ss ≡ none
      → find_entry x es ≡ none
  unfolding Stored get_sub find_entry
  find_entry-no_sub x nil es e h = rw e refl
  find_entry-no_sub x (cons y d ss) es (k, more, e, stored, subs) h =
      rw e (ground (arith, find_entry-no_sub x ss more subs))

  find_entry-sub :
      (x : Bytes) (ss : Subdirs) (es : List TreeEntry) (d : DirNode)
      → StoredSubs codec trees ss es
      → get_sub x ss ≡ some d
      → (k : Bytes) × (find_entry x es ≡ some (subtree k)) × (Stored codec trees d k)
  unfolding Stored get_sub find_entry
  find_entry-sub x nil es d e h = absurd (ground arith)
  find_entry-sub x (cons y d' ss) es d (k, more, e, stored, subs) h = elim (bytes_eq.dec x y) [
    | yes same ↦
        let same_d : d' ≡ d = ground arith in
        (k, rw e (ground arith), subst (λ z. Stored codec trees z k) same_d stored)
    | no other ↦
        let (j, found, stored') = find_entry-sub x ss more d subs (ground arith) in
        (j, rw e (ground arith), stored')
  ]

  Unique-subs :
      (ss : Subdirs) (es : List TreeEntry) → AllTrees ss → StoredSubs codec trees ss es → Unique es
  unfolding Stored IsTree
  Unique-subs nil es a e = rw e tt
  Unique-subs (cons x d ss) es (fresh, t, a) (k, more, e, stored, subs) =
      rw e (find_entry-no_sub x ss more subs fresh, Unique-subs ss more a subs)

  Unique-entries :
      (fs : Dict.Dict Bytes FileLeaf) (es : List TreeEntry)
      → Dict.NodupKeys fs
      → Unique es
      → ((x : Bytes) → Dict.has x fs ≡ true → find_entry x es ≡ none)
      → Unique (file_entries fs ++ es)
  unfolding file_entries Dict.has
  Unique-entries [] es nodup u apart = u
  Unique-entries ((x, leaf) ∷ fs) es (fresh, nodup) u apart = (
    find_entry-file_entries x fs es ∙ ground (arith, fresh, apart x),
    Unique-entries fs es nodup u (λ y h. apart y (ground arith)),
  )

  -- The entries of a stored folder have different names.
  pub Unique-stored :
      (fs : Dict.Dict Bytes FileLeaf) (ss : Subdirs) (es : List TreeEntry)
      → IsTree (dir fs ss)
      → StoredSubs codec trees ss es
      → Unique (file_entries fs ++ es)
  unfolding IsTree
  Unique-stored fs ss es (nodup, apart, a) subs =
      Unique-entries fs es nodup (Unique-subs ss es a subs)
        (λ x h. find_entry-no_sub x ss es subs (apart x h))

  entry_at-stored :
      (fs : Dict.Dict Bytes FileLeaf) (ss : Subdirs) (es : List TreeEntry) (h x : Bytes)
      → IsTree (dir fs ss)
      → StoredSubs codec trees ss es
      → Dict.lookup h trees ≡ some (node_of fs es)
      → entry_at trees h x ≡ file_or (Dict.lookup x fs) (find_entry x es)
  unfolding entry_at
  entry_at-stored fs ss es h x t subs here =
      rw (here, entry_at)
        (find_entry-sort_entries x (file_entries fs ++ es) (Unique-stored fs ss es t subs)
          ∙ find_entry-file_entries x fs es)

  pub resolve-Stored :
      (p : List Bytes) (d : DirNode) (h : Bytes)
      → IsTree d
      → Stored codec trees d h
      → resolve trees h p ≡ find_file p d
  unfolding resolve find_file Stored IsTree
  resolve-Stored [] d h t stored = refl
  resolve-Stored (x ∷ []) (dir fs ss) h t (es, subs, here, hash) =
      let at = entry_at-stored fs ss es h x t subs here in
      elim (Option-cases (get_sub x ss)) [
        | inl no_sub ↦ ground (arith, at, find_entry-no_sub x ss es subs no_sub)
        | inr (d, e) ↦
            let (k, found, stored) = find_entry-sub x ss es d subs e in ground (arith, at, found)
      ]
  resolve-Stored (x ∷ y ∷ p) (dir fs ss) h t (es, subs, here, hash) =
      let at = entry_at-stored fs ss es h x t subs here in
      elim (Option-cases (get_sub x ss)) [
        | inl no_sub ↦ ground (arith, at, find_entry-no_sub x ss es subs no_sub)
        | inr (d, e) ↦
            let (k, found, stored) = find_entry-sub x ss es d subs e in
            let below = resolve-Stored (y ∷ p) d k (get_sub-IsTree x ss d t.2 e) stored in
            ground (arith, at, found, below, Dict.has-lookup x fs, t.1 x)
      ]

  -- The node of a stored folder stands under its own hash and passes the order check.
  pub check_node-Stored :
      (fs : Dict.Dict Bytes FileLeaf) (ss : Subdirs) (h : Bytes)
      → IsTree (dir fs ss)
      → Stored codec trees (dir fs ss) h
      → (node : TreeNode) × (check_node codec trees h ≡ good node) × (is_sorted node.entries ≡ true)
  unfolding Stored check_node
  check_node-Stored fs ss h t (es, subs, here, hash) = (
    node_of fs es,
    ground (arith, ==_self h),
    is_sorted-sort_entries (file_entries fs ++ es) (Unique-stored fs ss es t subs),
  )

-- If no two tree nodes have one hash and every node of the store stands under its hash, then after
-- `buildAndHash` every path resolves, below the root hash that it returns, to the file that the
-- directory tree has there, and to nothing where it has none; every node stands under its hash
-- still, and no node that was stored before is lost.
pub build-resolve :
    (codec : Codec) (d : DirNode) (trees trees' : Trees) (h : Bytes)
    → IsCollisionFree codec
    → IsSound codec trees
    → IsTree d
    → build codec d trees ≡ ok (h, trees')
    → ((p : List Bytes) → resolve trees' h p ≡ find_file p d)
      × IsSound codec trees'
      × Extends codec trees trees'
build-resolve codec d trees trees' h free sound t e =
    let (sound', more, stored) = build-Stored codec free d trees trees' h sound e in
    (λ p. resolve-Stored codec trees' p d h t stored, sound', more)
