-- ===== src/Backup/Options.antt =====
-- tsync/backup.go: `BackupOptions` and its validation, the latest version, the ids of versions.
use t_sync_sdk_go.Base.{
  ℕ, ◌+◌, ◌%◌, ◌^◌, ◌*◌, Bool, true, false, ◌&&◌, ◌||◌, not, Option, none, some, List, [], ◌∷◌,
  if◌then◌else◌, eqb, ltb, length, ℤ, bytes_eq,
}
use t_sync_sdk_go.Base.Bytes.{Bytes}
use t_sync_sdk_go.Base.Dict
use t_sync_sdk_go.Base.Dict.{Dict}
use t_sync_sdk_go.Errors.{
  sentinel, wrap, invalid_options, key_not_found, timestamp_in_future, timestamp_equals_latest,
  timestamp_before_latest, version_id_exists, Result, ok, fail_if, ◌>>=◌, ◌>>◌,
}
use t_sync_sdk_go.Metadata.{Version, BackupMetadata}
use t_sync_sdk_go.Names.{decimal, resolve_compression}

-- `BackupOptions` without `Concurrency` and `OnProgress`; empty or zero is not set, as in Go.
pub record BackupOptions : Type 0 where
  pub label : Bytes
  pub single_version_mode : Bool
  pub filter_func : Option (Bytes → Result Bool)
  pub key_id : Bytes
  pub public_keys : Dict Bytes Bytes
  pub eph_public_key : Bytes
  pub encrypted_password : Bytes
  pub compression_level : Option ℤ
  pub get_compression_level : Option (Bytes → Option ℤ)
  pub custom_version_id : ℕ
  pub custom_backup_timestamp : ℕ

-- `futureTimestampTolerance`: an hour, in nanoseconds.
abbrev pub future_timestamp_tolerance : ℕ
future_timestamp_tolerance = 3600 * 10 ^ 9

abbrev pub is_set : Bytes → Bool
is_set [] = false
is_set (c ∷ s) = true

abbrev any_keys : Dict Bytes Bytes → Bool
any_keys [] = false
any_keys (k ∷ d) = true

-- The loop over the public keys.
unfoldable pub has_bad_key : Dict Bytes Bytes → Bool
has_bad_key [] = false
has_bad_key ((k, pk) ∷ d) = not (eqb (length pk) 32) || has_bad_key d

abbrev check_level : Option ℤ → Result (Unit {0})
check_level none = ok tt
check_level (some lvl) = resolve_compression lvl >>= λ _. ok tt

-- `validateBackupOptions`, at the time `now`.
unfoldable pub validate_backup_options : ℕ → BackupOptions → Result (Unit {0})
validate_backup_options now opts = do
  fail_if (has_bad_key opts.public_keys) (wrap (sentinel invalid_options))
  fail_if (is_set opts.eph_public_key && not (eqb (length opts.eph_public_key) 32))
      (wrap (sentinel invalid_options))
  fail_if (is_set opts.encrypted_password && ltb (length opts.encrypted_password) 40)
      (wrap (sentinel invalid_options))
  fail_if
      (is_set opts.key_id
        && any_keys opts.public_keys
        && not (Dict.has opts.key_id opts.public_keys))
      (wrap (sentinel key_not_found))
  fail_if (not (ltb opts.custom_version_id (2 ^ 63))) (wrap (sentinel invalid_options))
  fail_if
      (not (eqb opts.custom_backup_timestamp 0)
        && ltb (now + future_timestamp_tolerance) opts.custom_backup_timestamp)
      (wrap (sentinel timestamp_in_future))
  check_level opts.compression_level

-- The test of the loop in `latestVersion`.
unfoldable pub is_later : Version → Version → Bool
is_later best v =
    ltb best.backup_timestamp v.backup_timestamp
    || (eqb v.backup_timestamp best.backup_timestamp && ltb best.snowflake_id v.snowflake_id)

abbrev pub later_of : Option Version → Version → Option Version
later_of none v = some v
later_of (some best) v = if is_later best v then some v else some best

unfoldable pub latest_of : Option Version → Dict Bytes Version → Option Version
latest_of best [] = best
latest_of best ((k, v) ∷ versions) = latest_of (later_of best v) versions

-- `latestVersion`
unfoldable pub latest_version : BackupMetadata → Option Version
unfolding latest_of
latest_version md = latest_of none md.versions

-- `generateVersionID`, from the hashes that it draws in turn. It has no result where all of them
-- are refused, and Go would go on drawing.
unfoldable pub generate_version_id : List ℕ → Dict Bytes Version → Option ℕ
generate_version_id [] existing = none
generate_version_id (hash ∷ hashes) existing =
    let later = generate_version_id hashes existing in
    let id = hash % 2 ^ 63 in if eqb id 0 || Dict.has (decimal id) existing then later else some id

abbrev check_timestamp : ℕ → Option Version → Result (Unit {0})
check_timestamp custom none = ok tt
check_timestamp custom (some latest) = do
  fail_if (not (eqb custom 0) && eqb custom latest.backup_timestamp)
      (wrap (sentinel timestamp_equals_latest))
  fail_if (not (eqb custom 0) && ltb custom latest.backup_timestamp)
      (wrap (sentinel timestamp_before_latest))

-- The checks of `RunBackup` before it touches the source.
unfoldable pub check_order : BackupOptions → BackupMetadata → Result (Unit {0})
check_order opts md = do
  fail_if
      (not (eqb opts.custom_version_id 0) && Dict.has (decimal opts.custom_version_id) md.versions)
      (wrap (sentinel version_id_exists))
  check_timestamp opts.custom_backup_timestamp (latest_version md)
