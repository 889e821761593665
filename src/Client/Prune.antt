-- ===== src/Client/Prune.antt =====
-- What `DeleteVersion` and `GC` drop from the metadata is needed by no version that stays.
use t_sync_sdk_go.Base.{
  suc, ◌≡◌, ◌≢◌, subst, inl, inr, Bool, true, some, List, [], ◌∷◌, arith, bytes_eq, contains,
  length,
}
use t_sync_sdk_go.Base.Bytes.{Bytes}
use t_sync_sdk_go.Base.Dict
use t_sync_sdk_go.Base.Dict.{Dict}
use t_sync_sdk_go.Metadata.{BackupMetadata, Version, FileLeaf, Codec}
use t_sync_sdk_go.Tree.{Trees, Live, walked, too_deep, leaf_key, collect}
use t_sync_sdk_go.Tree.Store.{resolve}
use t_sync_sdk_go.Tree.Collect.{Gathers, Gathers-refl, Gathers-trans, collect-Gathers, Walk-cases}
use t_sync_sdk_go.Tree.Collect.Keep.{IsClosed, resolve-kept}
use t_sync_sdk_go.Tree.Collect.Total.{collect_ends}
use t_sync_sdk_go.Client.{collect_versions, nothing_live, prune}

module _ (codec : Codec) (trees : Trees) where
  abbrev HasRoots : Live → Dict Bytes Version → Type 0
  HasRoots live versions =
      (k : Bytes) (v : Version)
      → Dict.lookup k versions ≡ some v
      → contains live.trees v.root_tree_hash ≡ true

  collect_versions-Gathers :
      (versions : Dict Bytes Version) (a b : Live)
      → collect_versions codec trees versions a ≡ walked b
      → Gathers codec trees a b × HasRoots b versions
  unfolding collect_versions Dict.lookup
  collect_versions-Gathers [] a b h =
      let same : a ≡ b = ground arith in
      (
        subst (Gathers codec trees a) same (Gathers-refl codec trees a),
        λ k v e. absurd (ground arith),
      )
  collect_versions-Gathers ((j, w) ∷ versions) a b h =
      elim (Walk-cases (collect codec trees (suc (length trees)) w.root_tree_hash a)) [
        | inr (inl (x, c)) ↦ absurd (ground arith)
        | inr (inr c) ↦ absurd (ground arith)
        | inl (m, c) ↦
            let (g, here) =
              collect-Gathers codec trees (suc (length trees)) w.root_tree_hash a m c in
            let (k, roots) = collect_versions-Gathers versions m b (ground arith) in
            (
              Gathers-trans codec trees a m b g k,
              λ i v e. elim (bytes_eq.dec i j) [
                | yes same ↦
                    let same_v : w ≡ v = ground arith in
                    subst (λ u. contains b.trees u.root_tree_hash ≡ true) same_v
                      (k.keeps_trees w.root_tree_hash here)
                | no other ↦ roots i v (ground arith)
              ],
            )
      ]

  -- The collection ends on every metadata.
  pub collect_versions_ends :
      (versions : Dict Bytes Version) (a : Live)
      → collect_versions codec trees versions a ≢ too_deep
  unfolding collect_versions
  collect_versions_ends [] a h = absurd (ground arith)
  collect_versions_ends ((j, w) ∷ versions) a h =
      elim (Walk-cases (collect codec trees (suc (length trees)) w.root_tree_hash a)) [
        | inl (m, c) ↦ collect_versions_ends versions m (ground arith)
        | inr (inl (x, c)) ↦ absurd (ground arith)
        | inr (inr c) ↦ collect_ends codec trees w.root_tree_hash a c
      ]

  pub collect_versions-IsClosed :
      (versions : Dict Bytes Version) (live : Live)
      → collect_versions codec trees versions nothing_live ≡ walked live
      → IsClosed trees live × HasRoots live versions
  collect_versions-IsClosed versions live h =
      let (g, roots) = collect_versions-Gathers versions nothing_live live h in
      (
        record {
          closed = λ k x. elim (g.closed k x) [
            | inr found ↦ found
            | inl impossible ↦ absurd (ground arith)
          ];
        },
        roots,
      )

-- A version reads the same from two metadata: every path below its root resolves alike, and the
-- record of every file found there is the same.
pub record SameReading (md md' : BackupMetadata) (root : Bytes) : Type 0 where
  pub paths : (p : List Bytes) → resolve md'.trees root p ≡ resolve md.trees root p
  pub records :
      (p : List Bytes) (leaf : FileLeaf)
      → resolve md.trees root p ≡ some leaf
      → Dict.lookup (leaf_key leaf) md'.files ≡ Dict.lookup (leaf_key leaf) md.files

-- For every version that the collection started from, dropping what was not collected changes
-- neither a path of the version nor the record of a file of it.
pub prune-SameReading :
    (codec : Codec) (md : BackupMetadata) (live : Live) (k : Bytes) (v : Version)
    → collect_versions codec md.trees md.versions nothing_live ≡ walked live
    → Dict.lookup k md.versions ≡ some v
    → SameReading md (prune live md) v.root_tree_hash
unfolding prune
prune-SameReading codec md live k v h e =
    let (c, roots) = collect_versions-IsClosed codec md.trees md.versions live h in
    let in_live = roots k v e in
    record {
      paths = λ p. (resolve-kept md.trees live c p v.root_tree_hash in_live).0;
      records = λ p leaf found.
          let kept = (resolve-kept md.trees live c p v.root_tree_hash in_live).1 leaf found in
          let test : Bytes → Bool = λ j. contains live.files j in
          ground (arith, Dict.lookup-keep (leaf_key leaf) test md.files, kept);
    }
