-- ===== src/Restore/Zipped/Tests.antt =====
-- Tests of the restore to a zip file.
use t_sync_sdk_go.Base.{◌≡◌, refl, false, none, List, [], ◌∷◌, Bytes-discrete}
use t_sync_sdk_go.Base.Bytes.{codes, ends_in_slash}
use t_sync_sdk_go.Base.Dict
use t_sync_sdk_go.Errors.{ok}
use t_sync_sdk_go.Streams.{whole}
use t_sync_sdk_go.Metadata.{BackupMetadata}
use t_sync_sdk_go.Names.{part_key_for}
use t_sync_sdk_go.Restore.{decrypt_part_password, check_part_header}
use t_sync_sdk_go.Restore.Zipped.{
  ZipCall, copied, folder, finished, ZipOutput, ZipOptions, ZipTask, folder_name, is_valid_trailing,
  after_copy, read_checked, open_checked, copy_one, copy_all, add_folders, restore_to_zip,
}
use t_sync_sdk_go.Restore.Zipped.Whole.{IsZipped, restore_to_zip-IsZipped}
use t_sync_sdk_go.Sample.{Objects, sample_box, sample_store, record_one, two_versions}

abbrev metadata : BackupMetadata
metadata = record two_versions { files = (codes "k", record_one) ∷ [] }

-- A library that takes three bytes of every part.
abbrev output : ZipOutput
output = record {
  read_header = λ rc. ok (record { method = 0; flags = 0 }, 0);
  stream_failure = λ rc. rc.failure;
  probe = λ fh password b. none;
  copy = λ calls c. record { consumed = 3; failure = none; read_error = none; write_error = none };
  create = λ calls c. none;
  finish = λ calls. none;
}

abbrev options : ZipOptions
options = record { private_key = []; new_password = codes "pw"; skip_decryption_errors = false }

abbrev parts_store : Objects
parts_store = ((part_key_for (codes "k"), codes "abc") ∷ [], [])

abbrev task : ZipTask sample_store
task = record {
  path = codes "a";
  key = codes "k";
  store = parts_store;
  before = none;
  after = none;
}

abbrev all_calls : List ZipCall
all_calls =
    copied (codes "a") [] (codes "pw") (whole (codes "abc")) ∷ folder (codes "d/") ∷ finished ∷ []

zips :
    restore_to_zip sample_store sample_box output options metadata (task ∷ []) (codes "d" ∷ []) none
    ≡ (all_calls, none)
unfolding restore_to_zip copy_all copy_one open_checked read_checked after_copy is_valid_trailing
    add_folders folder_name decrypt_part_password check_part_header part_key_for Dict.lookup
    ends_in_slash Bytes-discrete
zips = refl

restore_to_zip-IsZipped_example :
    IsZipped sample_store sample_box output options metadata (task ∷ []) (codes "d" ∷ []) (
      restore_to_zip sample_store sample_box output options metadata
        (task ∷ [])
        (codes "d" ∷ [])
        none)
restore_to_zip-IsZipped_example =
    restore_to_zip-IsZipped sample_store sample_box output options metadata (task ∷ [])
      (codes "d" ∷ []) none refl
