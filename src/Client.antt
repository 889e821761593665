-- ===== src/Client.antt =====
-- tsync/client.go: the client's operations on a store: the queries, `DeleteVersion` and `GC`.
pub mod Prune
pub mod Delete
pub mod Gc
mod Tests
use t_sync_sdk_go.Base.{
  ℕ, zero, suc, Bool, true, false, ◌&&◌, ◌||◌, not, Option, none, some, List, [], ◌∷◌, ◌++◌, ◌==◌,
  bytes_eq, contains, if◌then◌else◌, eqb, ltb, length,
}
use t_sync_sdk_go.Base.Bytes.{Bytes, ends_in_slash, slash}
use t_sync_sdk_go.Base.Dict
use t_sync_sdk_go.Base.Dict.{Dict}
use t_sync_sdk_go.Errors.{
  GoError, sentinel, wrap, plain, is, not_found, version_not_found, Result, ok, err, ◌>>=◌,
}
use t_sync_sdk_go.Metadata.{
  BackupMetadata, Version, FileRecord, Codec, Storage, names_of, metadata_path, load_metadata,
}
use t_sync_sdk_go.Names.{decimal, file_key_regex, part_key_regex, part_key_for, base}
use t_sync_sdk_go.Tree.{
  Trees, Resolved, Live, Walk, walked, failed, too_deep, then_walk, walk_tree, collect,
}

abbrev values : {A : Type 0} → Dict Bytes A → List A
values [] = []
values ((k, v) ∷ d) = v ∷ values d

-- `ListVersions`
unfoldable pub list_versions : Codec → (S : Storage) → S.State → Result (List Version)
list_versions codec S s = elim (load_metadata codec S s) [
  | ok md ↦ ok (values md.versions)
  | err e ↦ if is e not_found then ok [] else err e
]

-- `ResolveVersionTree` of tsync/restore.go, with fuel for the depth of the trees.
unfoldable pub resolve_version_tree : Codec → ℕ → BackupMetadata → ℕ → Bool → Walk Resolved
resolve_version_tree codec fuel md version_id skip =
    elim (Dict.lookup (decimal version_id) md.versions) [
      | none ↦ failed (wrap (sentinel version_not_found))
      | some v ↦
          walk_tree codec md.trees skip fuel v.root_tree_hash [] (record { files = []; dirs = [] })
    ]

abbrev with_slash : Bytes → Bytes
with_slash d = if ends_in_slash d then d else d ++ slash ∷ []

abbrev with_slashes : List Bytes → List Bytes
with_slashes [] = []
with_slashes (d ∷ ds) = with_slash d ∷ with_slashes ds

-- `ListFiles`: the file paths, then the empty folders, each with a slash at its end.
unfoldable pub list_files : Codec → ℕ → (S : Storage) → ℕ → S.State → Walk (List Bytes)
unfolding resolve_version_tree
list_files codec fuel S version_id s = elim (load_metadata codec S s) [
  | err e ↦ failed e
  | ok md ↦
      then_walk (resolve_version_tree codec fuel md version_id false)
        (λ r. walked (Dict.keys r.files ++ with_slashes r.dirs))
]

-- The loop over the versions in `DeleteVersion` and `GC`; as every walk ends with fuel for the
-- number of the trees, it has that.
unfoldable pub collect_versions : Codec → Trees → Dict Bytes Version → Live → Walk Live
collect_versions codec trees [] live = walked live
collect_versions codec trees ((k, v) ∷ versions) live =
    then_walk (collect codec trees (suc (length trees)) v.root_tree_hash live)
      (λ live'. collect_versions codec trees versions live')

abbrev pub nothing_live : Live
nothing_live = record { trees = []; files = [] }

-- The metadata without the trees and the file records that are not live.
unfoldable pub prune : Live → BackupMetadata → BackupMetadata
prune live md = record md {
  trees = Dict.keep (λ h. contains live.trees h) md.trees;
  files = Dict.keep (λ k. contains live.files k) md.files;
}

-- `keysToDelete`
unfoldable pub orphans : {A : Type 0} → List Bytes → Dict Bytes A → List Bytes
orphans live [] = []
orphans live ((k, v) ∷ d) = let rest = orphans live d in if contains live k then rest else k ∷ rest

-- `metadataChanged`
abbrev pub has_orphans : Live → BackupMetadata → Bool
has_orphans live md = elim (orphans live.trees md.trees) [
  | (h ∷ hs) ↦ true
  | [] ↦ elim (orphans live.files md.files) [ (k ∷ ks) ↦ true | [] ↦ false ]
]

module _ (codec : Codec) (S : Storage) where
  -- The deletion of the parts, which ignores failures and skips malformed keys.
  unfoldable pub delete_parts : List Bytes → S.State → S.State
  delete_parts [] s = s
  delete_parts (k ∷ ks) s =
      delete_parts ks (if file_key_regex k then (S.delete s (part_key_for k)).0 else s)

  -- The saving of the metadata.
  unfoldable pub save : BackupMetadata → S.State → S.State × Option GoError
  save md s = elim (codec.marshal md) [
    | none ↦ (s, some plain)
    | some bytes ↦
        let (s', e) = S.write s metadata_path bytes in
        (s', elim e [ none ↦ none | some x ↦ some (wrap x) ])
  ]

  -- `DeleteVersion` from the collection on.
  unfoldable pub delete_collected : Live → BackupMetadata → S.State → S.State × Option GoError
  delete_collected live md s =
      let (s', e) = save (prune live md) s in
      elim e [
        | some x ↦ (s', some x)
        | none ↦ (delete_parts (orphans live.files md.files) s', none)
      ]

  -- `DeleteVersion`, at the time `now`.
  unfoldable pub delete_version : ℕ → ℕ → S.State → S.State × Option GoError
  delete_version now version_id s = elim (load_metadata codec S s) [
    | err e ↦ (s, some e)
    | ok md ↦
        if not (Dict.has (decimal version_id) md.versions)
        then (s, some (wrap (sentinel version_not_found)))
        else (let md' : BackupMetadata = record md {
          versions = Dict.erase (decimal version_id) md.versions;
          last_updated = now;
        } in
            elim (collect_versions codec md'.trees md'.versions nothing_live) [
              | failed e ↦ (s, some (wrap e))
              | too_deep ↦ (s, some plain)
              | walked live ↦ delete_collected live md' s
            ])
  ]

  -- The loop of `GC` over the listed names.
  unfoldable pub sweep : Dict Bytes FileRecord → List Bytes → S.State → S.State
  sweep files [] s = s
  sweep files (name ∷ names) s =
      sweep files names
        (if part_key_regex name && not (Dict.has (base name) files) then (S.delete s name).0 else s)

  -- `GC` from the collection on.
  unfoldable pub gc_collected : ℕ → Live → BackupMetadata → S.State → S.State × Option GoError
  gc_collected now live md s =
      let pruned = prune live md in
      let (s', e) =
        if has_orphans live md then save (record pruned { last_updated = now }) s else (s, none) in
      elim e [
        | some x ↦ (s', some x)
        | none ↦ elim (S.list s' []) [
          | err x ↦ (s', some (wrap x))
          | ok names ↦ (sweep pruned.files (names_of names) s', none)
        ]
      ]

  -- `GC`
  unfoldable pub gc : ℕ → S.State → S.State × Option GoError
  gc now s = elim (load_metadata codec S s) [
    | err e ↦ (s, some e)
    | ok md ↦ elim (collect_versions codec md.trees md.versions nothing_live) [
      | failed e ↦ (s, some (wrap e))
      | too_deep ↦ (s, some plain)
      | walked live ↦ gc_collected now live md s
    ]
  ]

-- `StoreMetadata.LatestVersion`: the first of the latest, in the order of the map.
abbrev later_of : Option Version → Version → Option Version
later_of none v = some v
later_of (some best) v = if ltb best.backup_timestamp v.backup_timestamp then some v else some best

unfoldable pub latest_from : Option Version → List Version → Option Version
latest_from best [] = best
latest_from best (v ∷ vs) = latest_from (later_of best v) vs

unfoldable pub store_latest_version : BackupMetadata → Option Version
unfolding latest_from
store_latest_version md = latest_from none (values md.versions)

-- `StoreMetadata.Versions`: by timestamp, the latest first.
unfoldable pub insert_version : Version → List Version → List Version
insert_version v [] = v ∷ []
insert_version v (w ∷ ws) =
    if ltb v.backup_timestamp w.backup_timestamp then w ∷ insert_version v ws else v ∷ w ∷ ws

unfoldable pub sort_versions : List Version → List Version
sort_versions [] = []
sort_versions (v ∷ vs) = insert_version v (sort_versions vs)

unfoldable pub store_versions : BackupMetadata → List Version
unfolding sort_versions
store_versions md = sort_versions (values md.versions)

-- `StoreMetadata.HasVersion`
unfoldable pub has_version : BackupMetadata → ℕ → Bool
has_version md version_id = Dict.has (decimal version_id) md.versions

-- `StoreMetadata.GetFileRecord`
unfoldable pub get_file_record : BackupMetadata → Bytes → Option FileRecord
get_file_record md key = Dict.lookup key md.files
