-- ===== src/Restore.antt =====
-- tsync/restore.go: what `RunRestore` selects, and how the failures of one part are classified.
pub mod Failures
pub mod Extract
pub mod Folder
pub mod Zipped
mod Tests
use t_sync_sdk_go.Base.{
  ℕ, ◌/◌, ◌%◌, Bool, true, false, ◌&&◌, ◌||◌, not, Option, none, some, List, [], ◌∷◌, ◌++◌,
  bytes_eq, contains, if◌then◌else◌, eqb, length,
}
use t_sync_sdk_go.Base.Bytes.{Bytes, slash, trim_slash}
use t_sync_sdk_go.Base.Dict
use t_sync_sdk_go.Base.Dict.{Dict}
use t_sync_sdk_go.Errors.{
  GoError, sentinel, wrap, both, is, canceled, deadline_exceeded, decryption_failed, corrupt_part,
  private_key_required, unsupported_method, zip_password, incomplete_run, invalid_options, Result,
  ok, err, fail_if, ◌>>◌,
}
use t_sync_sdk_go.Metadata.{FileRecord, BackupMetadata, Codec, Storage, load_metadata}
use t_sync_sdk_go.Names.{zip_store, zip_deflate}
use t_sync_sdk_go.Tree.{Resolved, Walk, walked, failed, too_deep}
use t_sync_sdk_go.Client.{resolve_version_tree}
use t_sync_sdk_go.Crypto.{Box, decrypt_password}

-- `isSkippableRestoreError`
unfoldable pub is_skippable_restore_error : GoError → Bool
is_skippable_restore_error e =
    if is e canceled || is e deadline_exceeded
    then false
    else is e decryption_failed
      || is e corrupt_part
      || is e private_key_required
      || is e unsupported_method

abbrev key_failure : GoError → GoError
key_failure e = if is e decryption_failed then wrap e else both (sentinel decryption_failed) e

abbrev decrypted : Result Bytes → Result Bytes
decrypted (ok password) = ok password
decrypted (err e) = err (key_failure e)

-- `decryptPartPassword`
unfoldable pub decrypt_part_password : Box → FileRecord → Bytes → Result Bytes
decrypt_part_password box rec private_key =
    if eqb (length rec.encrypted_zip_password) 0
    then ok []
    else if eqb (length private_key) 0
    then err (wrap (sentinel private_key_required))
    else decrypted
        (decrypt_password box rec.encrypted_zip_password rec.ephemeral_public_key private_key)

-- The fields of a part's `zip.FileHeader` that restore looks at.
pub record PartHeader : Type 0 where
  pub method : ℕ
  pub flags : ℕ

-- `checkPartHeader`; bit 6 is strong encryption, bit 0 encryption.
unfoldable pub check_part_header : PartHeader → Bytes → Result (Unit {0})
check_part_header fh password = do
  fail_if (not (eqb fh.method zip_store) && not (eqb fh.method zip_deflate))
      (wrap (sentinel unsupported_method))
  fail_if (eqb (fh.flags / 64 % 2) 1) (wrap (sentinel unsupported_method))
  fail_if (eqb (fh.flags % 2) 1 && eqb (length password) 0) (wrap (sentinel decryption_failed))
  ok tt

-- `classifyPartError` of an error, with what the tracked reader and writer have recorded.
unfoldable pub classify_part_error : GoError → Option GoError → Option GoError → GoError
classify_part_error e src (some write_error) = wrap e
classify_part_error e (some read_error) none = wrap e
classify_part_error e none none =
    if is e zip_password
    then both (sentinel decryption_failed) e
    else both (sentinel corrupt_part) e

-- `incompleteRunError`
unfoldable pub incomplete_run_error : Option GoError → GoError
incomplete_run_error none = wrap (sentinel incomplete_run)
incomplete_run_error (some cause) = both (sentinel incomplete_run) cause

-- `RestoreOptions`, as far as the selection of files reads it.
pub record RestoreOptions : Type 0 where
  pub has_target : Bool
  pub private_key : Bytes
  pub skip_validation_errors : Bool
  pub files_to_restore : List Bytes
  pub filter_func : Option (Bytes → Bool)

-- The set of `FilesToRestore`, each with and without a slash at its end.
unfoldable pub targets : List Bytes → List Bytes
targets [] = []
targets (f ∷ files) = f ∷ trim_slash f ∷ targets files

abbrev with_slash : Bytes → Bytes
with_slash d = d ++ slash ∷ []

-- Whether a file's path is selected.
unfoldable pub selects_file : RestoreOptions → Bytes → Bool
selects_file opts path = elim opts.files_to_restore [
  | (f ∷ files) ↦ contains (targets (f ∷ files)) path
  | [] ↦ elim opts.filter_func [ none ↦ true | some f ↦ f path ]
]

-- Whether an empty folder is selected.
unfoldable pub selects_dir : RestoreOptions → Bytes → Bool
selects_dir opts path = elim opts.files_to_restore [
  | (f ∷ files) ↦
      contains (targets (f ∷ files)) path || contains (targets (f ∷ files)) (with_slash path)
  | [] ↦ elim opts.filter_func [ none ↦ true | some f ↦ f path || f (with_slash path) ]
]

unfoldable pub select_dirs : RestoreOptions → List Bytes → List Bytes
select_dirs opts [] = []
select_dirs opts (d ∷ ds) =
    let rest = select_dirs opts ds in if selects_dir opts d then d ∷ rest else rest

abbrev selected : RestoreOptions → Walk Resolved → Walk Resolved
selected opts (walked r) =
    walked
      (record { files = Dict.keep (selects_file opts) r.files; dirs = select_dirs opts r.dirs })
selected opts (failed e) = failed (wrap e)
selected opts too_deep = too_deep

abbrev bad_key_length : Bytes → Bool
bad_key_length key = not (eqb (length key) 0) && not (eqb (length key) 32)

-- `RunRestore` up to the extraction: the files and the empty folders to restore.
unfoldable pub select_restore :
    Codec → ℕ → (S : Storage) → ℕ → RestoreOptions → S.State → Walk Resolved
select_restore codec fuel S version_id opts s =
    if not opts.has_target || bad_key_length opts.private_key
    then failed (wrap (sentinel invalid_options))
    else elim (load_metadata codec S s) [
      | err e ↦ failed e
      | ok md ↦
          selected opts (resolve_version_tree codec fuel md version_id opts.skip_validation_errors)
    ]
