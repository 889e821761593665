-- ===== src/Client/Delete.antt =====
-- `DeleteVersion` and `GC` on a store: what is left can still be restored.
use t_sync_sdk_go.Base.{
  ℕ, ◌≡◌, ◌≢◌, refl, ◌∙◌, sym, ap, subst, inl, inr, true, false, none, some, List, [], ◌∷◌, arith,
  ◌==◌, bytes_eq, contains, if◌then◌else◌, Bool-cases, Option-cases,
}
use t_sync_sdk_go.Base.Bytes.{Bytes}
use t_sync_sdk_go.Base.Dict
use t_sync_sdk_go.Base.Dict.{Dict}
use t_sync_sdk_go.Errors.{ok, Result-cases}
use t_sync_sdk_go.Metadata.{
  BackupMetadata, Version, FileLeaf, Codec, Storage, IsLawful, RoundTrips, metadata_path,
  parse_metadata, load_metadata,
}
use t_sync_sdk_go.Base.Bytes.{is_relative}
use t_sync_sdk_go.Names.{hex_then, is_hex_digit, is_digit}
use t_sync_sdk_go.Names.{
  decimal, file_key_regex, part_key_regex, part_key_for, base, is_valid_file_key,
}
use t_sync_sdk_go.Names.Keys.{part_key_regex-part_key_for, is_valid_file_key-regex}
use t_sync_sdk_go.Tree.{Live, leaf_key}
use t_sync_sdk_go.Tree.Store.{resolve}
use t_sync_sdk_go.Tree.Collect.{Walk-cases}
use t_sync_sdk_go.Tree.Collect.Keep.{resolve-kept}
use t_sync_sdk_go.Client.{
  collect_versions, nothing_live, prune, orphans, delete_parts, save, delete_collected,
  delete_version,
}
use t_sync_sdk_go.Client.Prune.{SameReading, prune-SameReading, collect_versions-IsClosed}

contains-orphans :
    {A : Type 0} (live : List Bytes) (d : Dict Bytes A) (k : Bytes)
    → contains (orphans live d) k ≡ true
    → contains live k ≡ false
unfolding orphans
contains-orphans live [] k h = absurd (ground arith)
contains-orphans live ((j, v) ∷ d) k h = ground (arith, contains-orphans live d k)

pub regex-part_key :
    (k : Bytes)
    → file_key_regex k ≡ true
    → (part_key_regex (part_key_for k) ≡ true) × (base (part_key_for k) ≡ k)
regex-part_key k h = part_key_regex-part_key_for k (is_valid_file_key-regex k ∙ h)

pub metadata_path-not_part : part_key_regex metadata_path ≡ false
unfolding part_key_regex
metadata_path-not_part = refl

pub metadata_path-ne-part : (k : Bytes) → file_key_regex k ≡ true → metadata_path ≢ part_key_for k
metadata_path-ne-part k h e =
    ground (arith, metadata_path-not_part, (regex-part_key k h).0, ap part_key_regex e)

-- Part paths and the metadata's path are relative.
pub part_key_regex-is_relative : (p : Bytes) → part_key_regex p ≡ true → is_relative p ≡ true
unfolding part_key_regex hex_then is_hex_digit is_digit is_relative
part_key_regex-is_relative [] h = refl
part_key_regex-is_relative (c ∷ p) h = ground arith

pub metadata_path-is_relative : is_relative metadata_path ≡ true
unfolding is_relative
metadata_path-is_relative = refl

pub part_key_for-is_relative :
    (k : Bytes) → file_key_regex k ≡ true → is_relative (part_key_for k) ≡ true
part_key_for-is_relative k h = part_key_regex-is_relative (part_key_for k) (regex-part_key k h).0

-- Two valid keys with one part key are equal.
part_key_for_injective :
    (j k : Bytes)
    → file_key_regex j ≡ true
    → file_key_regex k ≡ true
    → part_key_for j ≡ part_key_for k
    → j ≡ k
part_key_for_injective j k hj hk e =
    sym (regex-part_key j hj).1 ∙ ap base e ∙ (regex-part_key k hk).1

module _ (codec : Codec) (S : Storage) (lawful : IsLawful S) where
  read-delete_parts :
      (ks : List Bytes) (s : S.State) (q : Bytes)
      → is_relative q ≡ true
      → ((k : Bytes) → contains ks k ≡ true → file_key_regex k ≡ true → q ≢ part_key_for k)
      → S.read (delete_parts codec S ks s) q ≡ S.read s q
  unfolding delete_parts
  read-delete_parts [] s q rel h = refl
  read-delete_parts (k ∷ ks) s q rel h = elim (Bool-cases (file_key_regex k)) [
    | inl valid ↦ rw valid (
        read-delete_parts ks (S.delete s (part_key_for k)).0 q rel (λ j m. h j (ground arith))
        ∙ lawful.read-delete_other s (part_key_for k) q (part_key_for-is_relative k valid) rel
            (h k (ground arith) valid))
    | inr invalid ↦ rw invalid (read-delete_parts ks s q rel (λ j m. h j (ground arith)))
  ]

  -- After a `save` without error the metadata is read back, and every other object is as it was.
  pub save-read :
      (md : BackupMetadata) (s s' : S.State)
      → RoundTrips codec
      → md.schema_version ≡ 2
      → save codec S md s ≡ (s', none)
      → (load_metadata codec S s' ≡ ok md)
        × ((q : Bytes) → is_relative q ≡ true → q ≢ metadata_path → S.read s' q ≡ S.read s q)
  unfolding save load_metadata parse_metadata
  save-read md s s' trips two h = elim (Option-cases (codec.marshal md)) [
    | inl no_bytes ↦ absurd (ground arith)
    | inr (b, m) ↦
        let same : (S.write s metadata_path b).0 ≡ s' = ground arith in
        let fine : (S.write s metadata_path b).1 ≡ none = ground arith in
        let read : S.read s' metadata_path ≡ ok b =
          ap (λ z. S.read z metadata_path) (sym same) ∙ lawful.read-write s metadata_path b fine in
        (
          ground (arith, read, trips md b m, two),
          λ q rel other.
              ap (λ z. S.read z q) (sym same)
              ∙ lawful.read-write_other s metadata_path q b metadata_path-is_relative rel other,
        )
  ]

  pub load_metadata-read :
      (s t : S.State)
      → S.read s metadata_path ≡ S.read t metadata_path
      → load_metadata codec S s ≡ load_metadata codec S t
  unfolding load_metadata
  load_metadata-read s t e = ground (arith, e)

  -- The rest of `DeleteVersion` leaves the pruned metadata, and every part whose key is live.
  delete_collected-leaves :
      (live : Live) (md : BackupMetadata) (s s' : S.State)
      → RoundTrips codec
      → md.schema_version ≡ 2
      → delete_collected codec S live md s ≡ (s', none)
      → (load_metadata codec S s' ≡ ok (prune live md))
        × ((k : Bytes)
            → contains live.files k ≡ true
            → file_key_regex k ≡ true
            → S.read s' (part_key_for k) ≡ S.read s (part_key_for k))
  unfolding delete_collected prune
  delete_collected-leaves live md s s' trips two h =
      let t = (save codec S (prune live md) s).0 in
      let dead = orphans live.files md.files in
      let saved : save codec S (prune live md) s ≡ (t, none) = ground arith in
      let same : delete_parts codec S dead t ≡ s' = ground arith in
      let (loaded, others) = save-read (prune live md) s t trips two saved in
      (
        subst (λ z. load_metadata codec S z ≡ ok (prune live md)) same
            (load_metadata-read (delete_parts codec S dead t) t (
                read-delete_parts dead t metadata_path metadata_path-is_relative
                  (λ k m valid. metadata_path-ne-part k valid))
              ∙ loaded),
        λ k kept valid.
            subst (λ z. S.read z (part_key_for k) ≡ S.read s (part_key_for k)) same
              (read-delete_parts dead t (part_key_for k) (part_key_for-is_relative k valid)
                  (λ j m valid_j e.
                    live_not_dead live md k j kept m (part_key_for_injective k j valid valid_j e))
                ∙ others (part_key_for k) (part_key_for-is_relative k valid)
                    (λ e. metadata_path-ne-part k valid (sym e))),
      )
    where
      live_not_dead :
          (live : Live) (md : BackupMetadata) (k j : Bytes)
          → contains live.files k ≡ true
          → contains (orphans live.files md.files) j ≡ true
          → k ≡ j
          → ⊥
      live_not_dead live md k j kept dead e =
          ground (arith, contains-orphans live.files md.files j dead, ap (contains live.files) e)

-- What is asked of the store after a version has been deleted: the metadata reads back without
-- that version, every other version reads as before, and so does the part of each of its files.
pub record Deleted (codec : Codec) (S : Storage) (version_id : ℕ) (md : BackupMetadata)
    (s s' : S.State) : Type 0 where
  pub left : BackupMetadata
  pub loads : load_metadata codec S s' ≡ ok left
  pub versions :
      (k : Bytes)
      → Dict.lookup k left.versions
        ≡ (if k == decimal version_id then none else Dict.lookup k md.versions)
  pub readings :
      (k : Bytes) (v : Version)
      → Dict.lookup k left.versions ≡ some v
      → SameReading md left v.root_tree_hash
  pub parts :
      (k : Bytes) (v : Version) (p : List Bytes) (leaf : FileLeaf)
      → Dict.lookup k left.versions ≡ some v
      → resolve md.trees v.root_tree_hash p ≡ some leaf
      → is_valid_file_key (leaf_key leaf) ≡ true
      → S.read s' (part_key_for (leaf_key leaf)) ≡ S.read s (part_key_for (leaf_key leaf))

pub schema_of-load :
    (codec : Codec) (S : Storage) (s : S.State) (md : BackupMetadata)
    → load_metadata codec S s ≡ ok md
    → md.schema_version ≡ 2
unfolding load_metadata parse_metadata
schema_of-load codec S s md h = elim (Result-cases (S.read s metadata_path)) [
  | inr (x, r) ↦ absurd (ground arith)
  | inl (b, r) ↦ elim (Option-cases (codec.unmarshal b)) [
    | inl u ↦ absurd (ground arith)
    | inr (md', u) ↦
        let same : md' ≡ md = ground arith in subst (λ m. m.schema_version ≡ 2) same (ground arith)
  ]
]

-- On a store that keeps the promises of the `Storage` interface, with a codec that reads back what
-- it writes, a `DeleteVersion` that returns no error leaves a store in which the version is gone,
-- and in which every other version has the same paths, the same file records and the same parts.
pub delete_version-Deleted :
    (codec : Codec) (S : Storage) (now version_id : ℕ) (md : BackupMetadata) (s s' : S.State)
    → IsLawful S
    → RoundTrips codec
    → load_metadata codec S s ≡ ok md
    → delete_version codec S now version_id s ≡ (s', none)
    → Deleted codec S version_id md s s'
unfolding delete_version prune
delete_version-Deleted codec S now version_id md s s' lawful trips loaded h =
    let md' : BackupMetadata = record md {
      versions = Dict.erase (decimal version_id) md.versions;
      last_updated = now;
    } in
    elim (Walk-cases (collect_versions codec md'.trees md'.versions nothing_live)) [
      | inr (inl (x, c)) ↦ absurd (ground arith)
      | inr (inr c) ↦ absurd (ground arith)
      | inl (live, c) ↦
          let rest : delete_collected codec S live md' s ≡ (s', none) = ground arith in
          let (loads, parts) =
            delete_collected-leaves codec S lawful live md' s s' trips
              (schema_of-load codec S s md loaded) rest in
          let (closed, roots) = collect_versions-IsClosed codec md'.trees md'.versions live c in
          record {
            left = prune live md';
            loads = loads;
            versions = λ k. Dict.lookup-erase k (decimal version_id) md.versions;
            readings = λ k v e.
                let r = prune-SameReading codec md' live k v c e in
                record { paths = r.paths; records = r.records };
            parts = λ k v p leaf e found valid.
                parts (leaf_key leaf)
                  ((resolve-kept md'.trees live closed p v.root_tree_hash (roots k v e)).1 leaf
                    found)
                  (sym (is_valid_file_key-regex (leaf_key leaf)) ∙ valid);
          }
    ]
