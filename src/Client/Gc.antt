-- ===== src/Client/Gc.antt =====
-- `GC` on a store: every version can still be restored.
use t_sync_sdk_go.Base.{
  ℕ, ◌≡◌, ◌≢◌, refl, ◌∙◌, sym, ap, subst, inl, inr, Bool, true, false, ◌&&◌, not, none, some, List,
  [], ◌∷◌, arith, bytes_eq, contains, Bool-cases, Option-cases,
}
use t_sync_sdk_go.Base.Bytes.{Bytes}
use t_sync_sdk_go.Base.Dict
use t_sync_sdk_go.Base.Dict.{Dict}
use t_sync_sdk_go.Errors.{ok, Result-cases}
use t_sync_sdk_go.Metadata.{
  BackupMetadata, Version, FileRecord, FileLeaf, Codec, Storage, names_of, IsLawful, RoundTrips,
  metadata_path, load_metadata,
}
use t_sync_sdk_go.Base.Bytes.{is_relative}
use t_sync_sdk_go.Client.Delete.{
  part_key_regex-is_relative, metadata_path-is_relative, part_key_for-is_relative,
}
use t_sync_sdk_go.Names.{file_key_regex, part_key_regex, part_key_for, base, is_valid_file_key}
use t_sync_sdk_go.Names.Keys.{is_valid_file_key-regex}
use t_sync_sdk_go.Tree.{Live, walked, leaf_key}
use t_sync_sdk_go.Tree.Store.{resolve}
use t_sync_sdk_go.Tree.Collect.{Walk-cases}
use t_sync_sdk_go.Tree.Collect.Keep.{resolve-kept}
use t_sync_sdk_go.Client.{
  collect_versions, nothing_live, prune, has_orphans, save, sweep, gc_collected, gc,
}
use t_sync_sdk_go.Client.Prune.{SameReading, prune-SameReading, collect_versions-IsClosed}
use t_sync_sdk_go.Client.Delete.{
  regex-part_key, metadata_path-not_part, metadata_path-ne-part, save-read, load_metadata-read,
  schema_of-load,
}

SameReading-refl : (md : BackupMetadata) (root : Bytes) → SameReading md md root
SameReading-refl md root = record { paths = λ p. refl; records = λ p leaf e. refl }

module _ (codec : Codec) (S : Storage) (lawful : IsLawful S) where
  -- The sweep leaves an object alone that is no part, or whose key has a record.
  read-sweep :
      (files : Dict Bytes FileRecord) (names : List Bytes) (s : S.State) (q : Bytes)
      → is_relative q ≡ true
      → (part_key_regex q && not (Dict.has (base q) files)) ≡ false
      → S.read (sweep codec S files names s) q ≡ S.read s q
  unfolding sweep
  read-sweep files [] s q rel h = refl
  read-sweep files (name ∷ names) s q rel h =
      elim (Bool-cases (part_key_regex name && not (Dict.has (base name) files))) [
        | inl orphan ↦ rw orphan (
            read-sweep files names (S.delete s name).0 q rel h
            ∙ lawful.read-delete_other s name q (part_key_regex-is_relative name (ground arith)) rel
                (λ e.
                  ground (arith, ap (λ z. part_key_regex z && not (Dict.has (base z) files)) e)))
        | inr kept ↦ rw kept (read-sweep files names s q rel h)
      ]

  spared :
      (files : Dict Bytes FileRecord) (k : Bytes)
      → file_key_regex k ≡ true
      → Dict.has k files ≡ true
      → (part_key_regex (part_key_for k) && not (Dict.has (base (part_key_for k)) files)) ≡ false
  spared files k valid recorded =
      let (matches, back) = regex-part_key k valid in rw (matches, back, recorded) refl

  sweep-loads :
      (files : Dict Bytes FileRecord) (names : List Bytes) (t : S.State)
      → load_metadata codec S (sweep codec S files names t) ≡ load_metadata codec S t
  sweep-loads files names t = load_metadata-read codec S lawful (sweep codec S files names t) t (
      read-sweep files names t metadata_path metadata_path-is_relative
        (ground (arith, metadata_path-not_part)))

-- What is asked of the store after a collection: the metadata reads back with the same versions,
-- every version reads as before, and so does the part of each of its files whose key is valid and
-- has a record.
pub record Collected (codec : Codec) (S : Storage) (md : BackupMetadata) (s s' : S.State)
    : Type 0 where
  pub left : BackupMetadata
  pub loads : load_metadata codec S s' ≡ ok left
  pub versions : left.versions ≡ md.versions
  pub readings :
      (k : Bytes) (v : Version)
      → Dict.lookup k md.versions ≡ some v
      → SameReading md left v.root_tree_hash
  pub parts :
      (k : Bytes) (v : Version) (p : List Bytes) (leaf : FileLeaf)
      → Dict.lookup k md.versions ≡ some v
      → resolve md.trees v.root_tree_hash p ≡ some leaf
      → is_valid_file_key (leaf_key leaf) ≡ true
      → Dict.has (leaf_key leaf) md.files ≡ true
      → S.read s' (part_key_for (leaf_key leaf)) ≡ S.read s (part_key_for (leaf_key leaf))

module _ (codec : Codec) (S : Storage) (lawful : IsLawful S) (trips : RoundTrips codec) where
  -- A collection whose saved state is `t`, with the metadata `left`.
  finish :
      (md left : BackupMetadata) (live : Live) (s t : S.State) (names : List Bytes)
      → collect_versions codec md.trees md.versions nothing_live ≡ walked live
      → load_metadata codec S t ≡ ok left
      → ((q : Bytes) → is_relative q ≡ true → q ≢ metadata_path → S.read t q ≡ S.read s q)
      → left.versions ≡ md.versions
      → ((k : Bytes) (v : Version)
          → Dict.lookup k md.versions ≡ some v
          → SameReading md left v.root_tree_hash)
      → Collected codec S md s (sweep codec S (prune live md).files names t)
  unfolding prune
  finish md left live s t names c loads others versions readings =
      let (closed, roots) = collect_versions-IsClosed codec md.trees md.versions live c in
      record {
        left = left;
        loads = sweep-loads codec S lawful (prune live md).files names t ∙ loads;
        versions = versions;
        readings = readings;
        parts = λ k v p leaf e found valid recorded.
            let key = leaf_key leaf in
            let valid' : file_key_regex key ≡ true = sym (is_valid_file_key-regex key) ∙ valid in
            let kept =
              (resolve-kept md.trees live closed p v.root_tree_hash (roots k v e)).1 leaf found in
            let test : Bytes → Bool = λ j. contains live.files j in
            let has_it : Dict.has key (prune live md).files ≡ true = ground (
              arith,
              Dict.has-lookup key (prune live md).files,
              Dict.has-lookup key md.files,
              Dict.lookup-keep key test md.files,
              kept,
              recorded,
            ) in
            read-sweep codec S lawful (prune live md).files names t (part_key_for key)
              (part_key_for-is_relative key valid')
              (spared codec S lawful (prune live md).files key valid' has_it)
            ∙ others (part_key_for key) (part_key_for-is_relative key valid')
                (λ e. metadata_path-ne-part key valid' (sym e));
      }

  -- If the store keeps the promises of `Storage` and the codec reads back what it writes, then a `GC`
  -- that returns no error changes no version: the metadata lists the same versions, and each has the
  -- same paths and the same file records; and for each file of a version whose key is valid and has a
  -- record in the metadata, the part is as before. Nothing is said of the part of a file without a
  -- record.
  pub gc-Collected :
      (now : ℕ) (md : BackupMetadata) (s s' : S.State)
      → load_metadata codec S s ≡ ok md
      → gc codec S now s ≡ (s', none)
      → Collected codec S md s s'
  unfolding gc gc_collected prune
  gc-Collected now md s s' loaded h =
      elim (Walk-cases (collect_versions codec md.trees md.versions nothing_live)) [
        | inr (inl (x, c)) ↦ absurd (ground arith)
        | inr (inr c) ↦ absurd (ground arith)
        | inl (live, c) ↦ elim (Bool-cases (has_orphans live md)) [
          | inr clean ↦ elim (Result-cases (S.list s [])) [
            | inr (x, l) ↦ absurd (ground arith)
            | inl (names, l) ↦
                let same : sweep codec S (prune live md).files (names_of names) s ≡ s' =
                  ground arith in
                subst (Collected codec S md s) same (
                  finish md md live s s (names_of names) c loaded (λ q rel o. refl) refl
                    (λ k v e. SameReading-refl md v.root_tree_hash))
          ]
          | inl dirty ↦
              let left : BackupMetadata = record (prune live md) { last_updated = now } in
              let t = (save codec S left s).0 in
              elim (Option-cases (save codec S left s).1) [
                | inr (x, e) ↦ absurd (ground arith)
                | inl fine ↦ elim (Result-cases (S.list t [])) [
                  | inr (x, l) ↦ absurd (ground arith)
                  | inl (names, l) ↦
                      let saved : save codec S left s ≡ (t, none) = ground arith in
                      let (loads, others) =
                        save-read codec S lawful left s t trips (schema_of-load codec S s md loaded)
                          saved in
                      let same : sweep codec S (prune live md).files (names_of names) t ≡ s' =
                        ground arith in
                      subst (Collected codec S md s) same (
                        finish md left live s t (names_of names) c loads others refl (λ k v e.
                          let r = prune-SameReading codec md live k v c e in
                          record { paths = r.paths; records = r.records }))
                ]
              ]
        ]
      ]
