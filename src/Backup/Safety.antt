-- ===== src/Backup/Safety.antt =====
-- `RunBackup` as a whole: what a failed run leaves, and what a successful one makes.
use t_sync_sdk_go.Base.{
  ◌≡◌, refl, inl, inr, Bool, none, some, List, [], arith, Option-cases, bytes_eq,
}
use t_sync_sdk_go.Base.Bytes.{Bytes}
use t_sync_sdk_go.Errors.{GoError, err, Result-cases}
use t_sync_sdk_go.Metadata.{Version, BackupMetadata, Codec, Storage, metadata_path, load_metadata}
use t_sync_sdk_go.Client.{save}
use t_sync_sdk_go.Backup.Options.{BackupOptions}
use t_sync_sdk_go.Backup.Part.{Zip, Writers}
use t_sync_sdk_go.Backup.Gather.{Turn, events_of}
use t_sync_sdk_go.Backup.Commit.{commit}
use t_sync_sdk_go.Backup.Run.{
  Plan, Surroundings, plan_backup, make_version, run_workers, execute, run_backup,
}
use t_sync_sdk_go.Backup.Frame.{IsPrivate, metadata_path-ne-part_key_for, read-work}

-- "All-or-nothing": a write that fails leaves the object as it was.
abbrev pub KeepsOnFailure : Storage → Type 0
KeepsOnFailure S =
    (s : S.State) (p d : Bytes) (e : GoError)
    → (S.write s p d).1 ≡ some e
    → S.read (S.write s p d).0 p ≡ S.read s p

module _ (codec : Codec) (S : Storage) (W : Writers S) (zip : Zip) where
  module _ (private : IsPrivate S W) where
    -- The workers leave the metadata alone.
    run_workers-read :
        (plan : Plan) (turns : List Turn) (s : S.State)
        → S.read (run_workers codec S W zip plan turns s).0 metadata_path ≡ S.read s metadata_path
    unfolding run_workers
    run_workers-read plan turns s =
        read-work S W private zip plan.pass (events_of turns plan.entries)
          (record { store = s; flights = []; cause = none }) metadata_path
          (λ k e. metadata_path-ne-part_key_for k)

    module _ (keeps : KeepsOnFailure S) where
      save-fails :
          (md : BackupMetadata) (s : S.State) (e : GoError)
          → (save codec S md s).1 ≡ some e
          → S.read (save codec S md s).0 metadata_path ≡ S.read s metadata_path
      unfolding save
      save-fails md s e h = elim (Option-cases (codec.marshal md)) [
        | inl m ↦ rw (m, save) refl
        | inr (b, m) ↦ elim (Option-cases (S.write s metadata_path b).1) [
          | inl w ↦ absurd (ground arith)
          | inr (x, w) ↦ rw (m, save) (keeps s metadata_path b x w)
        ]
      ]

      commit-fails :
          (opts : BackupOptions) (had : Bool) (old md : BackupMetadata) (v : Version) (s : S.State)
          (e : GoError)
          → (commit codec S opts had old md v s).1 ≡ err e
          → S.read (commit codec S opts had old md v s).0 metadata_path ≡ S.read s metadata_path
      unfolding commit
      commit-fails opts had old md v s e h = elim (Option-cases (save codec S md s).1) [
        | inl f ↦ absurd (ground arith)
        | inr (x, f) ↦ rw (f, commit) (save-fails md s x f)
      ]

      -- If writers show nothing before `Close`, touch only their own path, and a failed write leaves
      -- the object as it was, then a `RunBackup` that returns an error, for whatever reason and after
      -- whatever schedule of its workers, leaves the metadata as it was.
      pub run_backup-fails :
          (opts : BackupOptions) (env : Surroundings) (s : S.State) (e : GoError)
          → (run_backup codec S W zip opts env s).1 ≡ err e
          → load_metadata codec S (run_backup codec S W zip opts env s).0 ≡ load_metadata codec S s
      unfolding run_backup execute load_metadata
      run_backup-fails opts env s e h =
          elim (Result-cases (plan_backup opts env (load_metadata codec S s))) [
            | inr (x, p) ↦ rw (p, run_backup) refl
            | inl (plan, p) ↦
                let after = run_workers-read plan env.schedule s in
                elim (Result-cases (run_workers codec S W zip plan env.schedule s).1) [
                  | inr (x, w) ↦ ground (arith, p, w, after)
                  | inl (g, w) ↦ elim (Result-cases (make_version codec opts env plan.metadata g)) [
                    | inr (x, m) ↦ ground (arith, p, w, m, after)
                    | inl ((md, v), m) ↦
                        let t = (run_workers codec S W zip plan env.schedule s).0 in
                        let fails = commit-fails opts plan.had_metadata plan.metadata md v t e in
                        ground (arith, p, w, m, after, fails)
                  ]
                ]
          ]
