-- ===== src/Restore/Folder/Tests.antt =====
-- Tests of the restore to a folder.
use native.Mathlib.Decide.{ℕ_discrete}
use t_sync_sdk_go.Base.{
  ◌≡◌, refl, subst, true, false, none, some, [], ◌∷◌, arith, All, decide_lists, Bytes-discrete,
}
use t_sync_sdk_go.Base.Bytes.{Bytes, codes, split, join, has_prefix, no_slash}
use t_sync_sdk_go.Base.Dict
use t_sync_sdk_go.Base.Dict.{Dict}
use t_sync_sdk_go.Errors.{ok}
use t_sync_sdk_go.Metadata.{FileRecord, BackupMetadata}
use t_sync_sdk_go.Names.{base, last_part_of, part_key_for}
use t_sync_sdk_go.Paths.{
  CleanPath, clean, clean_onto, reverse_onto, render, without_last, rel_parts, rel_escapes_base,
  safe_path, safe_join,
}
use t_sync_sdk_go.Backup.Part.{bit_xor, crc_bits, crc_update, crc32_ieee}
use t_sync_sdk_go.Restore.{decrypt_part_password, check_part_header}
use t_sync_sdk_go.Restore.Extract.{
  PartReader, restore_temp, check_content, is_identical, is_skipped, read_part, open_part,
  plan_file, write_file, extract_one,
}
use t_sync_sdk_go.Restore.Extract.Verified.{IsExtracted, IsRestored, extract_one-IsExtracted}
use t_sync_sdk_go.Restore.Folder.{
  FolderOptions, largest, check_space, Task, do_task, do_tasks, count_done, first_failure, outcome,
  make_dirs, sync_dirs, restore_files, restore_to_dir,
}
use t_sync_sdk_go.Restore.Folder.Complete.{restore_to_dir-IsRestored}
use t_sync_sdk_go.Sample.{Objects, sample_box, sample_store, record_one, two_versions}
use t_sync_sdk_go.Sample.System.{disk, disk-KeepsFiles}

-- The record of the file "abc", which is not encrypted.
abbrev plain_record : FileRecord
plain_record = record record_one { crc32 = 0x352441c2 }

abbrev metadata : BackupMetadata
metadata = record two_versions { files = (codes "k", plain_record) ∷ [] }

-- Parts without a header, whose payload is the content.
abbrev stored_parts : PartReader
stored_parts = record {
  read_header = λ rc. ok (record { method = 0; flags = 0 }, 0);
  stream_failure = λ rc. rc.failure;
  decode = λ fh password comp. comp;
}

abbrev options : FolderOptions
options = record {
  extraction = record { extract_dir = codes "/out"; no_overwrite = false; private_key = [] };
  skip_decryption_errors = false;
  skip_validation_errors = false;
}

abbrev parts_store : Objects
parts_store = ((part_key_for (codes "k"), codes "abc") ∷ [], [])

abbrev task : Task sample_store
task = record { path = codes "a"; key = codes "k"; store = parts_store; during = none }

abbrev old_disk : Dict Bytes Bytes
old_disk = (codes "/out/a", codes "old") ∷ []

abbrev place : CleanPath
place = record { rooted = true; parts = codes "out" ∷ codes "a" ∷ [] }

placed_a : safe_path (codes "/out") (codes "a") ≡ ok place
unfolding safe_path clean clean_onto reverse_onto rel_parts rel_escapes_base split Bytes-discrete
    decide_lists ℕ_discrete
placed_a = refl

plain_place : has_prefix (base (render place)) restore_temp ≡ false
unfolding render split join base last_part_of has_prefix
plain_place = refl

plain_task :
    (out : CleanPath)
    → safe_path (codes "/out") (codes "a") ≡ ok out
    → has_prefix (base (render out)) restore_temp ≡ false
plain_task out placed =
    let same : place ≡ out = ground (arith, placed_a, placed) in
    subst (λ p. has_prefix (base (render p)) restore_temp ≡ false) same plain_place

restores :
    (restore_to_dir disk sample_store sample_box stored_parts options metadata
      (some 1000)
      ((codes "a", codes "k") ∷ [])
      (codes "d" ∷ [])
      (task ∷ [])
      none
      old_disk).1
    ≡ none
unfolding restore_to_dir check_space largest restore_files do_tasks do_task extract_one plan_file
    write_file open_part read_part is_skipped is_identical check_content decrypt_part_password
    check_part_header part_key_for outcome count_done first_failure make_dirs sync_dirs safe_join
    safe_path clean clean_onto reverse_onto rel_parts rel_escapes_base render without_last split
    join crc32_ieee crc_update crc_bits bit_xor Dict.lookup Dict.insert Dict.erase Bytes-discrete
    decide_lists ℕ_discrete no_slash
restores = refl

extract_one-IsExtracted_example :
    IsExtracted disk sample_store sample_box stored_parts options.extraction metadata
      (codes "a")
      (codes "k")
      old_disk
      (extract_one disk sample_store sample_box stored_parts options.extraction metadata parts_store
        (codes "a")
        (codes "k")
        old_disk)
extract_one-IsExtracted_example =
    extract_one-IsExtracted disk sample_store sample_box stored_parts options.extraction metadata
      parts_store (codes "a") (codes "k") old_disk disk-KeepsFiles plain_task

restore_to_dir-IsRestored_example :
    All
      (λ (path, key).
        IsRestored disk sample_store sample_box stored_parts options.extraction metadata path key
          (restore_to_dir disk sample_store sample_box stored_parts options metadata
            (some 1000)
            ((codes "a", codes "k") ∷ [])
            (codes "d" ∷ [])
            (task ∷ [])
            none
            old_disk).0)
      ((codes "a", codes "k") ∷ [])
restore_to_dir-IsRestored_example =
    restore_to_dir-IsRestored disk sample_store sample_box stored_parts options metadata (some 1000)
      ((codes "a", codes "k") ∷ []) (codes "d" ∷ []) (task ∷ []) none old_disk disk-KeepsFiles refl
      (plain_task, tt) (tt, tt) refl refl restores
