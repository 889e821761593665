-- ===== src/Backup/Commit.antt =====
-- tsync/backup.go: the new version of `RunBackup`, the metadata that names it, and its commit.
use t_sync_sdk_go.Base.{
  ℕ, Bool, ◌&&◌, ◌||◌, not, Option, none, some, List, [], ◌∷◌, bytes_eq, if◌then◌else◌, eqb,
}
use t_sync_sdk_go.Base.Bytes.{Bytes}
use t_sync_sdk_go.Base.Dict
use t_sync_sdk_go.Base.Dict.{Dict}
use t_sync_sdk_go.Errors.{plain, Result, ok, err}
use t_sync_sdk_go.Metadata.{FileRecord, Version, BackupMetadata, Codec, Storage}
use t_sync_sdk_go.Names.{is_valid_file_key, part_key_for, decimal}
use t_sync_sdk_go.Tree.{Trees}
use t_sync_sdk_go.Client.{save}
use t_sync_sdk_go.Backup.Options.{BackupOptions, latest_version, generate_version_id}

abbrev preceding : Option Version → ℕ
preceding none = 0
preceding (some v) = v.snowflake_id

abbrev pub new_version_id : BackupOptions → List ℕ → BackupMetadata → Result ℕ
new_version_id opts hashes md =
    if eqb opts.custom_version_id 0
    then (elim (generate_version_id hashes md.versions) [ none ↦ err plain | some id ↦ ok id ])
    else ok opts.custom_version_id

unfoldable pub new_version : BackupOptions → ℕ → BackupMetadata → ℕ → Bytes → Version
new_version opts now md id root_hash = record {
  snowflake_id = id;
  backup_timestamp =
      if eqb opts.custom_backup_timestamp 0 then now else opts.custom_backup_timestamp;
  root_tree_hash = root_hash;
  preceding_version_id = preceding (latest_version md);
  label = opts.label;
}

-- What is kept of the old metadata.
abbrev pub unless_single : {A : Type 0} → BackupOptions → Dict Bytes A → Dict Bytes A
unless_single opts d = if opts.single_version_mode then [] else d

-- The metadata to commit.
unfoldable pub final_metadata :
    BackupOptions → ℕ → BackupMetadata → Version → Trees → Dict Bytes FileRecord → BackupMetadata
final_metadata opts now md v trees pool = record {
  versions = Dict.insert (decimal v.snowflake_id) v (unless_single opts md.versions);
  trees = Dict.copy (unless_single opts md.trees) trees;
  files = Dict.copy (unless_single opts md.files) pool;
  public_keys = md.public_keys;
  schema_version = 2;
  last_updated = now;
}

module _ (codec : Codec) (S : Storage) where
  -- The deletion of the parts that the new metadata does not name.
  unfoldable pub clean_up : Dict Bytes FileRecord → Dict Bytes FileRecord → S.State → S.State
  clean_up [] files s = s
  clean_up ((k, rec) ∷ old) files s =
      clean_up old files (
        if Dict.has k files || not (is_valid_file_key k)
        then s
        else (S.delete s (part_key_for k)).0)

  unfoldable pub commit :
      BackupOptions
      → Bool
      → BackupMetadata
      → BackupMetadata
      → Version
      → S.State
      → S.State × Result Version
  commit opts had_metadata old md v s =
      let (s', e) = save codec S md s in
      elim e [
        | some x ↦ (s', err x)
        | none ↦ (
          if opts.single_version_mode && had_metadata then clean_up old.files md.files s' else s',
          ok v,
        )
      ]
