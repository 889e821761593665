-- ===== src/Backup/Run.antt =====
-- tsync/backup.go: `RunBackup`, composed of its phases.
use t_sync_sdk_go.Base.{
  ℕ, Bool, true, false, ◌||◌, Option, none, some, List, [], ◌∷◌, bytes_eq, if◌then◌else◌, length, ℤ,
  negsuc,
}
use t_sync_sdk_go.Base.Bytes.{Bytes}
use t_sync_sdk_go.Base.Dict
use t_sync_sdk_go.Base.Dict.{Dict}
use t_sync_sdk_go.Errors.{GoError, wrap, Result, ok, err, ◌>>=◌, ◌>>◌}
use t_sync_sdk_go.Metadata.{Version, BackupMetadata, Codec, Storage, load_metadata}
use t_sync_sdk_go.Names.{resolve_compression, zip_deflate}
use t_sync_sdk_go.Tree.{build}
use t_sync_sdk_go.Crypto.{Draws, Box}
use t_sync_sdk_go.Backup.Options.{BackupOptions, validate_backup_options, check_order}
use t_sync_sdk_go.Backup.Part.{SourceEntry, Zip, Writers}
use t_sync_sdk_go.Backup.Upload.{Pass}
use t_sync_sdk_go.Backup.Secrets.{initial_metadata, prepare_entries, Secrets, select_secrets}
use t_sync_sdk_go.Backup.Gather.{
  Event, take_entry, caller_cancels, Turn, events_of, work, Gathered, nothing_gathered, gather,
  run_error, make_root,
}
use t_sync_sdk_go.Backup.Commit.{new_version, final_metadata, commit, new_version_id}

abbrev default_level : Option ℤ → ℕ × ℤ
default_level none = (zip_deflate, negsuc 0)
default_level (some lvl) = elim (resolve_compression lvl) [
  | ok r ↦ r
  | err e ↦ (zip_deflate, negsuc 0)
]

-- The options' public keys are merged into those of a store that was there.
abbrev merged : BackupOptions → BackupMetadata → Bool → BackupMetadata
merged opts md had_metadata =
    if had_metadata
    then record md { public_keys = Dict.copy md.public_keys opts.public_keys }
    else md

-- What a run has settled before its workers start.
pub record Plan : Type 0 where
  pub metadata : BackupMetadata
  pub had_metadata : Bool
  pub entries : List SourceEntry
  pub pass : Pass

abbrev pass_of : BackupOptions → BackupMetadata → Secrets → Pass
pass_of opts md secrets =
    let level = default_level opts.compression_level in
    record {
      get_compression_level = opts.get_compression_level;
      comp_method = level.0;
      comp_level = level.1;
      eph_pub_key = secrets.eph_pub_key;
      encrypted_zip_pass = secrets.encrypted_zip_pass;
      clear_zip_pass = secrets.clear_zip_pass;
      key_id = secrets.key_id;
      existing = md.files;
    }

-- What `RunBackup` takes from its surroundings: the clock, the random numbers, the source.
pub record Surroundings : Type 0 where
  pub now : ℕ
  pub hashes : List ℕ
  pub box : Box
  pub draws : Draws
  pub random : Result Bytes
  pub listed : Result (List SourceEntry)
  -- The order in which the workers take the entries, and the caller's cancellations.
  pub schedule : List Turn

-- `RunBackup` up to the workers, on the metadata that it has loaded.
unfoldable pub plan_backup : BackupOptions → Surroundings → Result BackupMetadata → Result Plan
plan_backup opts env loaded = do
  validate_backup_options env.now opts
  start ← initial_metadata opts.public_keys loaded
  check_order opts start.0
  let md = merged opts start.0 start.1
  all_entries ← elim env.listed [ err e ↦ err (wrap e) | ok es ↦ ok es ]
  entries ← prepare_entries opts.filter_func all_entries
  secrets ← select_secrets env.box env.draws env.random opts md.public_keys entries
  ok (record {
    metadata = md;
    had_metadata = start.1;
    entries = entries;
    pass = pass_of opts md secrets;
  })

-- The new version and the metadata that names it.
unfoldable pub make_version :
    Codec
    → BackupOptions
    → Surroundings
    → BackupMetadata
    → Gathered
    → Result (BackupMetadata × Version)
make_version codec opts env md g = do
  root ← make_root g
  built ← build codec root []
  id ← new_version_id opts env.hashes md
  let v = new_version opts env.now md id built.0
  ok (final_metadata opts env.now md v built.1 g.files_pool, v)

abbrev is_set_error : Option GoError → Bool
is_set_error none = false
is_set_error (some e) = true

unfoldable pub was_cancelled : List Event → Bool
was_cancelled [] = false
was_cancelled (take_entry entry m ∷ events) = is_set_error m.cancels || was_cancelled events
was_cancelled (caller_cancels e ∷ events) = true

module _ (codec : Codec) (S : Storage) (W : Writers S) (zip : Zip) where
  -- The workers and the gathering: the store after them, and the results unless the run stopped.
  unfoldable pub run_workers : Plan → List Turn → S.State → S.State × Result Gathered
  unfolding events_of
  run_workers plan turns s =
      let events = events_of turns plan.entries in
      let (st, outcomes) =
        work S W zip plan.pass events (record { store = s; flights = []; cause = none }) in
      let g = gather outcomes nothing_gathered in
      (
        st.store,
        elim (run_error (was_cancelled events) st.cause g.first_err g.done_count
            (length plan.entries)) [ some e ↦ err e | none ↦ ok g ],
      )

  -- `RunBackup` from the workers on.
  unfoldable pub execute : BackupOptions → Surroundings → Plan → S.State → S.State × Result Version
  execute opts env plan s =
      let (s', gathered) = run_workers plan env.schedule s in
      elim gathered [
        | err e ↦ (s', err e)
        | ok g ↦ elim (make_version codec opts env plan.metadata g) [
          | err e ↦ (s', err e)
          | ok made ↦ commit codec S opts plan.had_metadata plan.metadata made.0 made.1 s'
        ]
      ]

  -- `RunBackup`
  unfoldable pub run_backup : BackupOptions → Surroundings → S.State → S.State × Result Version
  run_backup opts env s = elim (plan_backup opts env (load_metadata codec S s)) [
    | err e ↦ (s, err e)
    | ok plan ↦ execute opts env plan s
  ]
