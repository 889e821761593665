-- ===== src/Restore/Folder.antt =====
-- tsync/restore.go: `restoreToDir`, the restore to a folder. The workers are a schedule: the tasks in
-- the order in which they are done, one at a time, each with the store as it finds it and with the
-- caller's cancellation, if it comes while the task is done.

pub mod Steps
pub mod Complete
mod Tests
use t_sync_sdk_go.Base.{
  ℕ, zero, suc, ◌+◌, Bool, true, false, ◌&&◌, ◌||◌, not, Option, none, some, List, [], ◌∷◌, ◌++◌,
  if◌then◌else◌, eqb, ltb, ltz, ℤ, pos, as_uint64, length, bytes_eq, contains,
}
use t_sync_sdk_go.Base.Bytes.{Bytes}
use t_sync_sdk_go.Base.Dict
use t_sync_sdk_go.Base.Dict.{Dict}
use t_sync_sdk_go.Errors.{
  GoError, sentinel, wrap, is, canceled, insufficient_disk_space, Result, ok, err,
}
use t_sync_sdk_go.Metadata.{FileRecord, BackupMetadata, Storage}
use t_sync_sdk_go.Paths.{safe_join}
use t_sync_sdk_go.Files.{FileSystem, and_also}
use t_sync_sdk_go.Crypto.{Box}
use t_sync_sdk_go.Backup.Part.{first_error}
use t_sync_sdk_go.Restore.{is_skippable_restore_error, incomplete_run_error}
use t_sync_sdk_go.Restore.Extract.{PartReader, Extraction, extract_one}

-- The options that `restoreToDir` reads.
pub record FolderOptions : Type 0 where
  pub extraction : Extraction
  pub skip_decryption_errors : Bool
  pub skip_validation_errors : Bool

-- `maxUncompressedSize`
unfoldable pub largest : BackupMetadata → Dict Bytes Bytes → ℤ → ℤ
largest md [] most = most
largest md ((path, key) ∷ files) most = elim (Dict.lookup key md.files) [
  | none ↦ largest md files most
  | some rec ↦
      largest md files (if ltz most rec.uncompressed_size then rec.uncompressed_size else most)
]

-- The check of the disk space, where the system tells it.
unfoldable pub check_space : Option ℕ → BackupMetadata → Dict Bytes Bytes → Option GoError
unfolding largest
check_space none md files = none
check_space (some free) md files =
    if ltb free (as_uint64 (largest md files (pos 0)))
    then some (wrap (sentinel insufficient_disk_space))
    else none

-- `restoreTask`
pub record Task (S : Storage) : Type 0 where
  pub path : Bytes
  pub key : Bytes
  pub store : S.State
  pub during : Option GoError

-- `restoreResult`
pub record TaskResult : Type 0 where
  pub failure : Option GoError
  pub cancelled : Bool

abbrev pub is_present : Option GoError → Bool
is_present none = false
is_present (some e) = true

module _ (F : FileSystem) where
  -- The file system, why the workers are to stop, what the caller's context says, and the folders to
  -- sync.
  pub record Progress : Type 0 where
    pub files : F.State
    pub cause : Option GoError
    pub caller : Option GoError
    pub touched : List Bytes

  abbrev pub touch : Option Bytes → List Bytes → List Bytes
  touch none dirs = dirs
  touch (some d) dirs = if contains dirs d then dirs else d ∷ dirs

  module _ (S : Storage) (box : Box) (parts : PartReader) (opts : FolderOptions)
      (md : BackupMetadata) where
    -- A worker's answer to what `extractOne` has returned.
    abbrev pub settle_task :
        Progress → Option GoError → F.State × Result (Option Bytes) → Progress × TaskResult
    settle_task p during (s, ok dir) = (
      record {
        files = s;
        cause = during;
        caller = first_error p.caller during;
        touched = touch dir p.touched;
      },
      record { failure = none; cancelled = false },
    )
    settle_task p during (s, err e) =
        if opts.skip_decryption_errors && is_skippable_restore_error e
        then (
          record {
            files = s;
            cause = during;
            caller = first_error p.caller during;
            touched = p.touched;
          },
          record { failure = none; cancelled = false },
        )
        else (
          record {
            files = s;
            cause = first_error during (some (sentinel canceled));
            caller = first_error p.caller during;
            touched = p.touched;
          },
          record { failure = some e; cancelled = is_present during && is e canceled },
        )

    -- A worker's round.
    unfoldable pub do_task : Task S → Progress → Progress × TaskResult
    unfolding is_skippable_restore_error
    do_task t p = elim p.cause [
      | some e ↦ (
        record p { caller = first_error p.caller t.during },
        record { failure = some e; cancelled = true },
      )
      | none ↦
          settle_task p t.during
            (extract_one F S box parts opts.extraction md t.store t.path t.key p.files)
    ]

    unfoldable pub do_tasks : List (Task S) → Progress → Progress × List TaskResult
    unfolding do_task
    do_tasks [] p = (p, [])
    do_tasks (t ∷ ts) p = let (p1, r) = do_task t p in let (p2, rs) = do_tasks ts p1 in (p2, r ∷ rs)

    -- `done`, and `firstErr`.
    unfoldable pub count_done : List TaskResult → ℕ
    count_done [] = 0
    count_done (r ∷ rs) = if is_present r.failure then count_done rs else suc (count_done rs)

    unfoldable pub first_failure : List TaskResult → Option GoError
    first_failure [] = none
    first_failure (r ∷ rs) =
        if is_present r.failure && not r.cancelled then r.failure else first_failure rs

    abbrev stopped : Option GoError → Option GoError
    stopped none = none
    stopped (some e) = some (incomplete_run_error (some e))

    -- The error of the run after all results have been drained.
    unfoldable pub outcome : ℕ → Option GoError → List TaskResult → Option GoError
    unfolding count_done first_failure incomplete_run_error
    outcome total caller rs =
        first_error (first_error (stopped caller) (first_failure rs))
          (if eqb (count_done rs) total then none else some (incomplete_run_error none))

    abbrev pub made_dir : F.State → Result Bytes → F.State × Option GoError
    made_dir s (err e) = (s, some e)
    made_dir s (ok path) = F.mkdir_all s path

    abbrev pub after_dir :
        F.State × Option GoError → (F.State → F.State × Option GoError) → F.State × Option GoError
    after_dir (s, none) rest = rest s
    after_dir (s, some e) rest = if opts.skip_validation_errors then rest s else (s, some (wrap e))

    -- The empty folders.
    unfoldable pub make_dirs : List Bytes → F.State → F.State × Option GoError
    unfolding safe_join
    make_dirs [] s = (s, none)
    make_dirs (d ∷ ds) s =
        after_dir (made_dir s (safe_join opts.extraction.extract_dir d)) (λ s'. make_dirs ds s')

    abbrev wrap_dir : F.State × Option GoError → F.State × Option GoError
    wrap_dir (s, none) = (s, none)
    wrap_dir (s, some e) = (s, some (wrap e))

    -- The folders of the restored files.
    unfoldable pub sync_dirs : List Bytes → F.State → F.State × Option GoError
    sync_dirs [] s = (s, none)
    sync_dirs (d ∷ ds) s = and_also (wrap_dir (F.sync_dir s d)) (λ s'. sync_dirs ds s')

    -- `restoreToDir` after the check of the space, where the caller's context says `caller`.
    unfoldable pub restore_files :
        ℕ → List Bytes → List (Task S) → Option GoError → F.State → F.State × Option GoError
    unfolding do_tasks outcome make_dirs sync_dirs
    restore_files total empty_dirs tasks caller s =
        let start : Progress = record {
          files = s;
          cause = caller;
          caller = caller;
          touched = [];
        } in
        let (p, rs) = do_tasks tasks start in
        and_also (p.files, outcome total p.caller rs)
          (λ s1. and_also (make_dirs empty_dirs s1) (λ s2. sync_dirs p.touched s2))

    -- `restoreToDir`
    unfoldable pub restore_to_dir :
        Option ℕ
        → Dict Bytes Bytes
        → List Bytes
        → List (Task S)
        → Option GoError
        → F.State
        → F.State × Option GoError
    unfolding check_space restore_files
    restore_to_dir free files empty_dirs tasks caller s = elim (check_space free md files) [
      | some e ↦ (s, some e)
      | none ↦ restore_files (length files) empty_dirs tasks caller s
    ]
