-- ===== src/Backup/Secrets.antt =====
-- tsync/backup.go: what `RunBackup` settles from its options and the source before any upload: the
-- metadata to start from, the entries, and the keys and the password of the pass.
use t_sync_sdk_go.Base.{
  Bool, true, false, ◌&&◌, ◌||◌, not, Option, none, some, List, [], ◌∷◌, bytes_eq, if◌then◌else◌,
}
use t_sync_sdk_go.Base.Bytes.{Bytes, split, slash, trim_slash, less}
use t_sync_sdk_go.Base.Dict
use t_sync_sdk_go.Base.Dict.{Dict}
use t_sync_sdk_go.Errors.{
  sentinel, wrap, is, invalid_options, invalid_name, key_not_found, not_found,
  store_not_initialized, Result, ok, err, fail_if, ◌>>=◌, ◌>>◌,
}
use t_sync_sdk_go.Metadata.{BackupMetadata}
use t_sync_sdk_go.Names.{validate_name}
use t_sync_sdk_go.Crypto.{Draws, Box, generate_zip_crypto_password, encrypt_password}
use t_sync_sdk_go.Backup.Options.{BackupOptions, is_set}
use t_sync_sdk_go.Backup.Part.{SourceEntry}
use t_sync_sdk_go.Backup.Upload.{is_dir_entry}

abbrev no_keys : Dict Bytes Bytes → Bool
no_keys [] = true
no_keys (k ∷ d) = false

-- The first step: the metadata of the store, or of a new store, and whether it was there.
unfoldable pub initial_metadata :
    Dict Bytes Bytes → Result BackupMetadata → Result (BackupMetadata × Bool)
initial_metadata public_keys (ok md) = ok (md, true)
initial_metadata public_keys (err e) =
    if not (is e not_found)
    then err e
    else if no_keys public_keys
    then err (wrap (sentinel store_not_initialized))
    else ok (
      record {
        versions = [];
        trees = [];
        files = [];
        public_keys = public_keys;
        schema_version = 2;
        last_updated = 0;
      },
      false,
    )

-- The names of a path are checked one by one.
unfoldable pub validate_parts : List Bytes → Result (Unit {0})
validate_parts [] = ok tt
validate_parts (part ∷ parts) = elim (validate_name part) [
  | err e ↦ err (wrap e)
  | ok _ ↦ validate_parts parts
]

abbrev pub filtered : Option (Bytes → Result Bool) → Bytes → Result Bool
filtered none path = ok true
filtered (some f) path = elim (f path) [ err e ↦ err (wrap e) | ok keep ↦ ok keep ]

-- The filter and the check of the paths.
unfoldable pub prepare_entries :
    Option (Bytes → Result Bool) → List SourceEntry → Result (List SourceEntry)
prepare_entries filter [] = ok []
prepare_entries filter (entry ∷ entries) =
    let rest = prepare_entries filter entries in
    elim (filtered filter entry.path) [
      | err e ↦ err e
      | ok false ↦ rest
      | ok true ↦ do
        fail_if (not (is_set entry.path)) (wrap (sentinel invalid_name))
        validate_parts (split slash (trim_slash entry.path))
        es ← rest
        ok (entry ∷ es)
    ]

unfoldable pub has_raw : List SourceEntry → Bool
has_raw [] = false
has_raw (e ∷ es) = (not (is_dir_entry e) && e.is_encrypted_raw) || has_raw es

unfoldable pub has_plain : List SourceEntry → Bool
has_plain [] = false
has_plain (e ∷ es) = (not (is_dir_entry e) && not e.is_encrypted_raw) || has_plain es

-- The lexicographically first key ID, in the loop of `RunBackup`.
unfoldable pub first_key : Bytes → Dict Bytes Bytes → Bytes
first_key selected [] = selected
first_key selected ((k, pk) ∷ d) =
    first_key (if not (is_set selected) || less k selected then k else selected) d

-- The keys and the password of the pass.
pub record Secrets : Type 0 where
  pub eph_pub_key : Bytes
  pub encrypted_zip_pass : Bytes
  pub clear_zip_pass : Bytes
  pub key_id : Bytes

abbrev known_key : Bytes → Dict Bytes Bytes → Result Bytes
known_key k keys = elim (Dict.lookup k keys) [
  | none ↦ err (wrap (sentinel key_not_found))
  | some pk ↦ ok pk
]

-- A pass that makes a password of its own, for the selected key.
unfoldable pub own_secrets : Box → Draws → Result Bytes → Bytes → Dict Bytes Bytes → Result Secrets
own_secrets box draws random key_id keys = do
  fail_if (no_keys keys) (wrap (sentinel key_not_found))
  let selected = if is_set key_id then key_id else first_key [] keys
  pk ← known_key selected keys
  clear ← generate_zip_crypto_password random
  sealed ← encrypt_password box draws clear pk
  ok (record {
    eph_pub_key = sealed.0;
    encrypted_zip_pass = sealed.1;
    clear_zip_pass = clear;
    key_id = selected;
  })

unfoldable pub select_secrets :
    Box
    → Draws
    → Result Bytes
    → BackupOptions
    → Dict Bytes Bytes
    → List SourceEntry
    → Result Secrets
select_secrets box draws random opts keys entries =
    if has_raw entries || is_set opts.encrypted_password || is_set opts.eph_public_key
    then (do
      fail_if (not (is_set opts.eph_public_key) || not (is_set opts.encrypted_password))
          (wrap (sentinel invalid_options))
      fail_if (has_plain entries) (wrap (sentinel invalid_options))
      ok (record {
        eph_pub_key = opts.eph_public_key;
        encrypted_zip_pass = opts.encrypted_password;
        clear_zip_pass = [];
        key_id = opts.key_id;
      }))
    else own_secrets box draws random opts.key_id keys
