-- ===== src/Backup/Tests.antt =====
-- Tests of the backup, on an empty store.
use native.Mathlib.Decide.{ℕ_discrete}
use mathlib.Core.List.{Perm}
use t_sync_sdk_go.Base.{
  ℕ, ◌<◌, ◌%◌, ◌^◌, ◌≡◌, ◌≢◌, refl, ap, true, false, none, some, List, [], ◌∷◌, ◌++◌, arith, pos,
  negsuc, All, Bytes-discrete, decide_lists, bytes_eq,
}
use t_sync_sdk_go.Base.Bytes.{Bytes, codes, split, trim_slash, ends_in_slash, less}
use t_sync_sdk_go.Base.Dict
use t_sync_sdk_go.Base.Dict.{Dict}
use t_sync_sdk_go.Errors.{sentinel, canceled, incomplete_run, both, ok, err, is, Sentinel-discrete}
use t_sync_sdk_go.Metadata.{
  FileRecord, Version, BackupMetadata, Codec, load_metadata, metadata_path,
}
use t_sync_sdk_go.Names.{
  validate_name, has_bad_byte, file_key_for, hex, hex_digit, decimal_int, decimal, decimal_fuel,
  part_key_for, base, last_part_of, zip_deflate,
}
use t_sync_sdk_go.Tree.{
  DirNode, dir, nil, cons, add_dir, add_file, get_sub, put_sub, build, sort_entries, insert_entry,
  file_entries,
}
use t_sync_sdk_go.Tree.Store.{IsSound}
use t_sync_sdk_go.Client.{save}
use t_sync_sdk_go.Crypto.{generate_zip_crypto_password, encrypt_password, byte_at}
use t_sync_sdk_go.Backup.Options.{
  BackupOptions, has_bad_key, validate_backup_options, latest_of, latest_version,
  generate_version_id, check_order,
}
use t_sync_sdk_go.Backup.Part.{
  SourceEntry, write_compressed_part, write_zip, crc32_ieee, crc_update, crc_bits, bit_xor,
}
use t_sync_sdk_go.Backup.Upload.{
  Pass, compression_for, open_entry, is_dir_entry, fill_part, check_key, settle, write_part,
  upload_part, undisturbed, RunState, upload_once, key_of, process_file, process,
}
use t_sync_sdk_go.Backup.Secrets.{
  initial_metadata, validate_parts, prepare_entries, has_raw, first_key, own_secrets,
  select_secrets,
}
use t_sync_sdk_go.Backup.Gather.{
  Turn, takes, cancels, pick, left_over, events_of, work, Gathered, gather, gather_one, run_error,
  add_dirs, add_files, make_root,
}
use t_sync_sdk_go.Backup.Commit.{new_version, final_metadata, commit}
use t_sync_sdk_go.Backup.Run.{
  Plan, Surroundings, plan_backup, make_version, was_cancelled, run_workers, execute, run_backup,
}
use t_sync_sdk_go.Backup.Latest.{IsAtMost, latest_version-greatest, generate_version_id-fresh}
use t_sync_sdk_go.Backup.Frame.{metadata_path-ne-part_key_for}
use t_sync_sdk_go.Backup.Keyed.{HasKey}
use t_sync_sdk_go.Backup.Safety.{run_backup-fails}
use t_sync_sdk_go.Backup.Success.{IsBackedUp, run_backup-IsBackedUp}
use t_sync_sdk_go.Backup.Complete.{HasPath, taken, run_workers_complete}
use t_sync_sdk_go.Backup.Once.{IsRepeat, upload_once-again}
use t_sync_sdk_go.Sample.{
  leaf_one, two_versions, version_seven, sample_trees, sample_codec, encode_in, encode_in-decode_in,
  encode_node, sample-IsCollisionFree, Objects, sample_store, sample_store-IsLawful,
  sample_store-KeepsOnFailure, sample_writers, sample_writers-IsPrivate, sample_zip, sample_box,
}

-- The check value of CRC-32.
crc_check : crc32_ieee (codes "123456789") ≡ 3421780262
unfolding crc32_ieee crc_update crc_bits bit_xor
crc_check = refl

abbrev key_bytes : Bytes
key_bytes = codes "0123456789abcdef0123456789abcdef"

abbrev nonce_bytes : Bytes
nonce_bytes = codes "0123456789abcdef01234567"

abbrev options : BackupOptions
options = record {
  label = [];
  single_version_mode = false;
  filter_func = none;
  key_id = [];
  public_keys = (codes "k", key_bytes) ∷ [];
  eph_public_key = [];
  encrypted_password = [];
  compression_level = none;
  get_compression_level = none;
  custom_version_id = 7;
  custom_backup_timestamp = 0;
}

abbrev file_entry : SourceEntry
file_entry = record {
  path = codes "d/a";
  is_dir = false;
  size = pos 3;
  crc32 = 5;
  compressed_size = pos 0;
  compression_method = 0;
  last_modified = 1;
  is_encrypted_raw = false;
  open_content = some (λ purpose. ok (record { content = codes "abc"; failure = none }));
  open_raw = none;
  open_raw_compressed = none;
}

abbrev dir_entry : SourceEntry
dir_entry = record file_entry {
  path = codes "d/";
  is_dir = true;
  crc32 = 0;
  size = pos 0;
  open_content = none;
}

abbrev entries : List SourceEntry
entries = dir_entry ∷ file_entry ∷ []

-- The file is taken before the folder.
abbrev file_first : List Turn
file_first = takes 1 undisturbed ∷ []

-- The caller cancels between the two.
abbrev cut_short : List Turn
cut_short = takes 0 undisturbed ∷ cancels (sentinel canceled) ∷ []

abbrev around : List Turn → Surroundings
around turns = record {
  now = 100;
  hashes = [];
  box = sample_box;
  draws = record { key_pair = ok (key_bytes, key_bytes); nonce = ok nonce_bytes };
  random = ok (0 ∷ 1 ∷ 76 ∷ []);
  listed = ok entries;
  schedule = turns;
}

abbrev new_store : BackupMetadata
new_store = record {
  versions = [];
  trees = [];
  files = [];
  public_keys = (codes "k", key_bytes) ∷ [];
  schema_version = 2;
  last_updated = 0;
}

abbrev sealed : Bytes
sealed = nonce_bytes ++ codes "0123456789abcdefaba"

abbrev pass : Pass
pass = record {
  get_compression_level = none;
  comp_method = zip_deflate;
  comp_level = negsuc 0;
  eph_pub_key = key_bytes;
  encrypted_zip_pass = sealed;
  clear_zip_pass = codes "aba";
  key_id = codes "k";
  existing = [];
}

abbrev plan : Plan
plan = record { metadata = new_store; had_metadata = false; entries = entries; pass = pass }

abbrev file_record : FileRecord
file_record = record {
  ephemeral_public_key = key_bytes;
  encrypted_zip_password = sealed;
  crc32 = 5;
  compressed_size = pos 3;
  uncompressed_size = pos 3;
  last_modified = 1;
  key_id = some (codes "k");
}

abbrev gathered : Gathered
gathered = record {
  path_to_file_key = (codes "d/a", codes "00000005_3") ∷ [];
  files_pool = (codes "00000005_3", file_record) ∷ [];
  dir_paths = codes "d" ∷ [];
  first_err = none;
  done_count = 2;
}

abbrev version : Version
version = record version_seven { preceding_version_id = 0 }

abbrev backed_up : BackupMetadata
backed_up = record new_store {
  versions = (codes "7", version) ∷ [];
  trees = sample_trees;
  files = (codes "00000005_3", file_record) ∷ [];
  last_updated = 100;
}

abbrev codec : Codec
codec = sample_codec (backed_up ∷ [])

abbrev empty_store : Objects
empty_store = ([], [])

abbrev after_workers : Objects
after_workers = ((codes "00/00000005_3", codes "abc") ∷ [], [])

abbrev final_store : Objects
final_store = ((codes "00/00000005_3", codes "abc") ∷ (codes ".tsync", codes "M") ∷ [], [])

plans :
    plan_backup options (around file_first) (load_metadata codec sample_store empty_store) ≡ ok plan
unfolding plan_backup validate_backup_options has_bad_key load_metadata initial_metadata check_order
    latest_version prepare_entries validate_parts validate_name has_bad_byte split trim_slash
    select_secrets has_raw own_secrets first_key generate_zip_crypto_password encrypt_password
    byte_at is_dir_entry ends_in_slash is Sentinel-discrete Dict.lookup Dict.has Bytes-discrete less
plans = refl

uploads :
    upload_part sample_store sample_writers sample_zip pass
      (codes "00000005_3")
      file_entry
      empty_store
    ≡ (after_workers, ok file_record)
unfolding upload_part write_part fill_part write_compressed_part write_zip check_key settle
    compression_for open_entry part_key_for base last_part_of split Dict.lookup Dict.insert
    Dict.erase Bytes-discrete file_key_for hex hex_digit decimal_int decimal decimal_fuel
uploads = refl

works :
    run_workers codec sample_store sample_writers sample_zip plan file_first empty_store
    ≡ (after_workers, ok gathered)
unfolding run_workers events_of pick left_over work process process_file upload_once key_of
    is_dir_entry ends_in_slash upload_part write_part fill_part write_compressed_part write_zip
    check_key settle compression_for open_entry part_key_for base last_part_of split trim_slash
    gather gather_one run_error was_cancelled Dict.lookup Dict.insert Dict.erase Bytes-discrete
    file_key_for hex hex_digit decimal_int decimal decimal_fuel
works = refl

backs_up :
    run_backup codec sample_store sample_writers sample_zip options (around file_first) empty_store
    ≡ (final_store, ok version)
unfolding plan_backup validate_backup_options has_bad_key load_metadata initial_metadata check_order
    latest_version latest_of prepare_entries validate_parts validate_name has_bad_byte split
    trim_slash select_secrets has_raw own_secrets first_key generate_zip_crypto_password
    encrypt_password byte_at is_dir_entry ends_in_slash is Sentinel-discrete Dict.has less
    run_workers events_of pick left_over work process process_file upload_once key_of upload_part
    write_part fill_part write_compressed_part write_zip check_key settle compression_for open_entry
    part_key_for base last_part_of gather gather_one run_error was_cancelled Dict.lookup Dict.insert
    Dict.erase Bytes-discrete file_key_for hex hex_digit decimal_int decimal decimal_fuel run_backup
    execute make_version make_root add_dirs add_dir add_files add_file get_sub put_sub build
    sort_entries insert_entry file_entries new_version final_metadata Dict.copy commit save
    encode_in encode_node decide_lists ℕ_discrete
backs_up = refl

-- A run that the caller cuts short uploads nothing more and fails.
cut :
    run_backup codec sample_store sample_writers sample_zip options (around cut_short) empty_store
    ≡ (empty_store, err (both (sentinel incomplete_run) (sentinel canceled)))
unfolding plan_backup validate_backup_options has_bad_key load_metadata initial_metadata check_order
    latest_version latest_of prepare_entries validate_parts validate_name has_bad_byte split
    trim_slash select_secrets has_raw own_secrets first_key generate_zip_crypto_password
    encrypt_password byte_at is_dir_entry ends_in_slash is Sentinel-discrete Dict.has less
    run_workers events_of pick left_over work process gather gather_one run_error was_cancelled
    Dict.lookup Bytes-discrete run_backup execute
cut = refl

two_nodup : Dict.NodupKeys two_versions.versions
unfolding Dict.lookup Bytes-discrete
two_nodup = (refl, (refl, tt))

two_listed : two_versions.versions ≢ []
two_listed e = absurd (ground arith)

no_records :
    (key : Bytes) (rec : FileRecord) → Dict.lookup key pass.existing ≡ some rec → HasKey key rec
unfolding Dict.lookup
no_records key rec e = absurd (ground arith)

no_old_trees : IsSound codec plan.metadata.trees
unfolding Dict.lookup
no_old_trees h n e = absurd (ground arith)

one_path : Dict.NodupKeys gathered.path_to_file_key
unfolding Dict.lookup
one_path = (refl, tt)

abbrev new_root : DirNode
new_root = dir [] (cons (codes "d") (dir ((codes "a", leaf_one) ∷ []) nil) nil)

makes_root : make_root gathered ≡ ok new_root
unfolding make_root add_dirs add_dir add_files add_file get_sub put_sub split Dict.lookup Dict.has
    Dict.insert Bytes-discrete
makes_root = refl

latest_version-greatest_example :
    (best : Version) × (latest_version two_versions ≡ some best)
    × ((k : Bytes) × (Dict.lookup k two_versions.versions ≡ some best))
    × ((k : Bytes) (v : Version) → Dict.lookup k two_versions.versions ≡ some v → IsAtMost v best)
latest_version-greatest_example = latest_version-greatest two_versions two_nodup two_listed

generate_version_id-fresh_example :
    ((id : ℕ)
      → generate_version_id (7 ∷ 2 ^ 63 ∷ 9 ∷ []) two_versions.versions ≡ some id
      → (id ≢ 0) × (id < 2 ^ 63) × (Dict.has (decimal id) two_versions.versions ≡ false))
    × ((before after : List ℕ) (hash : ℕ)
        → 7 ∷ 2 ^ 63 ∷ 9 ∷ [] ≡ before ++ hash ∷ after
        → hash % 2 ^ 63 ≢ 0
        → Dict.has (decimal (hash % 2 ^ 63)) two_versions.versions ≡ false
        → generate_version_id (7 ∷ 2 ^ 63 ∷ 9 ∷ []) two_versions.versions ≢ none)
generate_version_id-fresh_example =
    generate_version_id-fresh (7 ∷ 2 ^ 63 ∷ 9 ∷ []) two_versions.versions

abbrev start : RunState sample_store sample_writers sample_zip pass
start = record { store = empty_store; flights = []; cause = none }

metadata_path-IsSpared :
    (k : Bytes) → Dict.lookup k pass.existing ≡ none → metadata_path ≢ part_key_for k
metadata_path-IsSpared k e = metadata_path-ne-part_key_for k

uploaded :
    (upload_part sample_store sample_writers sample_zip pass
      (codes "00000005_3")
      file_entry
      empty_store).1
    ≡ ok file_record
uploaded = ap (λ r. r.1) uploads

worked :
    (run_workers codec sample_store sample_writers sample_zip plan file_first empty_store).1
    ≡ ok gathered
worked = ap (λ r. r.1) works

cut_fails :
    (run_backup codec sample_store sample_writers sample_zip options
      (around cut_short)
      empty_store).1
    ≡ err (both (sentinel incomplete_run) (sentinel canceled))
cut_fails = ap (λ r. r.1) cut

run_workers_complete_example :
    Perm (taken (events_of file_first plan.entries)) plan.entries
    × All (HasPath gathered) plan.entries
run_workers_complete_example =
    run_workers_complete codec sample_store sample_writers sample_zip plan file_first empty_store
      gathered worked

run_backup-fails_example :
    load_metadata codec sample_store
      (run_backup codec sample_store sample_writers sample_zip options
        (around cut_short)
        empty_store).0
    ≡ load_metadata codec sample_store empty_store
run_backup-fails_example =
    run_backup-fails codec sample_store sample_writers sample_zip sample_writers-IsPrivate
      sample_store-KeepsOnFailure options (around cut_short) empty_store
      (both (sentinel incomplete_run) (sentinel canceled)) cut_fails

run_backup-IsBackedUp_example :
    (t : Objects) × (g : Gathered) × (run_workers codec sample_store sample_writers sample_zip plan
        file_first empty_store
      ≡ (t, ok g))
    × IsBackedUp codec sample_store options new_store g version t final_store
run_backup-IsBackedUp_example =
    run_backup-IsBackedUp codec sample_store sample_store-IsLawful
      (encode_in-decode_in (backed_up ∷ [])) (sample-IsCollisionFree (backed_up ∷ []))
      sample_writers sample_zip options (around file_first) plan empty_store final_store version
      plans no_old_trees no_records backs_up

prepares : prepare_entries none entries ≡ ok entries
unfolding prepare_entries validate_parts validate_name has_bad_byte split trim_slash Bytes-discrete
prepares = refl

no_flight : Dict.lookup (codes "00000005_3") start.flights ≡ none
unfolding Dict.lookup
no_flight = refl

upload_once-again_example :
    IsRepeat sample_store sample_writers sample_zip pass
      (upload_part sample_store sample_writers sample_zip pass
        (codes "00000005_3")
        file_entry
        start.store).1
      true
      (work sample_store sample_writers sample_zip pass
        (events_of cut_short entries)
        (upload_once sample_store sample_writers sample_zip pass
          (codes "00000005_3")
          file_entry
          false
          start).0).0
      (upload_once sample_store sample_writers sample_zip pass
        (codes "00000005_3")
        dir_entry
        true
        (work sample_store sample_writers sample_zip pass
          (events_of cut_short entries)
          (upload_once sample_store sample_writers sample_zip pass
            (codes "00000005_3")
            file_entry
            false
            start).0).0)
upload_once-again_example =
    upload_once-again sample_store sample_writers sample_zip pass (codes "00000005_3") file_entry
      dir_entry false true (events_of cut_short entries) start no_flight
