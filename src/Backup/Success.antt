-- ===== src/Backup/Success.antt =====
-- `RunBackup` as a whole: what a successful run makes.
use t_sync_sdk_go.Base.{
  ℕ, ◌≡◌, ◌≢◌, refl, ◌∙◌, sym, ap, subst, inl, inr, Bool, true, false, not, ◌&&◌, ◌||◌, none, some,
  List, [], ◌∷◌, arith, if◌then◌else◌, Bool-cases, Option-cases, bytes_eq, length,
}
use t_sync_sdk_go.Base.Bytes.{Bytes, split, slash}
use t_sync_sdk_go.Base.Dict
use t_sync_sdk_go.Base.Dict.{Dict, NodupKeys, lookup-insert}
use t_sync_sdk_go.Errors.{ok, Result-cases}
use t_sync_sdk_go.Metadata.{
  FileLeaf, FileRecord, Version, BackupMetadata, Codec, Storage, IsLawful, RoundTrips,
  metadata_path, load_metadata,
}
use t_sync_sdk_go.Names.{decimal, is_valid_file_key, part_key_for}
use t_sync_sdk_go.Tree.{DirNode, Trees, build}
use t_sync_sdk_go.Tree.Store.{
  resolve, IsCollisionFree, IsSound, Extends, build-Stored, Stored-Extends,
}
use t_sync_sdk_go.Tree.Resolve.{resolve-Stored}
use t_sync_sdk_go.Client.{save}
use t_sync_sdk_go.Client.Delete.{save-read, load_metadata-read}
use t_sync_sdk_go.Backup.Options.{BackupOptions}
use t_sync_sdk_go.Backup.Part.{Zip, Writers}
use t_sync_sdk_go.Backup.Gather.{
  Gathered, Turn, events_of, work, nothing_gathered, gather, run_error, make_root,
}
use t_sync_sdk_go.Backup.Commit.{
  new_version, new_version_id, final_metadata, unless_single, clean_up, commit,
}
use t_sync_sdk_go.Backup.Run.{
  Plan, Surroundings, plan_backup, make_version, was_cancelled, run_workers, execute, run_backup,
}
use t_sync_sdk_go.Base.Bytes.{is_relative}
use t_sync_sdk_go.Names.Keys.{is_valid_file_key-regex}
use t_sync_sdk_go.Client.Delete.{metadata_path-is_relative, part_key_for-is_relative}
use t_sync_sdk_go.Backup.Frame.{metadata_path-ne-part_key_for}
use t_sync_sdk_go.Backup.Root.{leaf_at, make_root-find_file}
use t_sync_sdk_go.Backup.Keyed.{IsKeyed, IsGathered, work-IsGathered}
use t_sync_sdk_go.Backup.Trees.{build-NodupKeys, copy-Extends, resolve-Extends}
use t_sync_sdk_go.Backup.Frame.{part_key_for-injective}
use t_sync_sdk_go.Base.Dict.{lookup-copy, has-lookup}

module _ (codec : Codec) (S : Storage) (lawful : IsLawful S) where
  -- The clean-up touches only the parts of old keys that the new metadata does not name.
  read-clean_up :
      (old files : Dict Bytes FileRecord) (s : S.State) (q : Bytes)
      → is_relative q ≡ true
      → ((k : Bytes) → Dict.has k files ≡ false → q ≢ part_key_for k)
      → S.read (clean_up codec S old files s) q ≡ S.read s q
  unfolding clean_up
  read-clean_up [] files s q rel spared = refl
  read-clean_up ((k, rec) ∷ old) files s q rel spared =
      elim (Bool-cases (Dict.has k files || not (is_valid_file_key k))) [
        | inl kept ↦ rw (kept, clean_up) (read-clean_up old files s q rel spared)
        | inr dead ↦
            rw (dead, clean_up)
              (read-clean_up old files (S.delete s (part_key_for k)).0 q rel spared
                ∙ lawful.read-delete_other s (part_key_for k) q
                    (part_key_for-is_relative k (sym (is_valid_file_key-regex k) ∙ ground arith))
                    rel (spared k (ground arith)))
      ]

-- What is asked of a successful commit of the results `g` on the metadata `old`: from the state `t`
-- before it to the state `s`, with the new version `v`.
pub record IsBackedUp (codec : Codec) (S : Storage) (opts : BackupOptions) (old : BackupMetadata)
    (g : Gathered) (v : Version) (t s : S.State) : Type 0 where
  pub left : BackupMetadata
  pub loads : load_metadata codec S s ≡ ok left
  pub listed : Dict.lookup (decimal v.snowflake_id) left.versions ≡ some v
  pub others :
      opts.single_version_mode ≡ false
      → (k : Bytes) → k ≢ decimal v.snowflake_id
      → Dict.lookup k left.versions ≡ Dict.lookup k old.versions
  pub paths :
      (q : Bytes)
      → resolve left.trees v.root_tree_hash (split slash q)
        ≡ leaf_at q g.path_to_file_key g.files_pool
  pub records :
      (p key : Bytes)
      → Dict.lookup p g.path_to_file_key ≡ some key
      → Dict.lookup key left.files ≡ Dict.lookup key g.files_pool
  pub readings :
      opts.single_version_mode ≡ false
      → (root : Bytes) (p : List Bytes) (leaf : FileLeaf) → resolve old.trees root p ≡ some leaf
      → resolve left.trees root p ≡ some leaf
  pub parts :
      (k : Bytes)
      → Dict.has k left.files ≡ true
      → is_relative (part_key_for k) ≡ true
      → S.read s (part_key_for k) ≡ S.read t (part_key_for k)

module _ (codec : Codec) (opts : BackupOptions) (free : IsCollisionFree codec) where
  unless_single-IsSound : (t : Trees) → IsSound codec t → IsSound codec (unless_single opts t)
  unfolding Dict.lookup
  unless_single-IsSound t sound = elim (Bool-cases opts.single_version_mode) [
    | inl single ↦ rw single (λ h n found. absurd (ground arith))
    | inr many ↦ rw many sound
  ]

  -- The trees of the new metadata.
  final_trees :
      (g : Gathered) (root : DirNode) (old new : Trees) (h : Bytes)
      → IsGathered g
      → IsSound codec old
      → make_root g ≡ ok root
      → build codec root [] ≡ ok (h, new)
      → ((q : Bytes)
          → resolve (Dict.copy (unless_single opts old) new) h (split slash q)
            ≡ leaf_at q g.path_to_file_key g.files_pool)
        × Extends codec (unless_single opts old) (Dict.copy (unless_single opts old) new)
  unfolding Dict.lookup
  final_trees g root old new h good sound made built =
      let (t, found) = make_root-find_file g root good.nodup made in
      let (new_sound, more, stored) =
        build-Stored codec free root [] new h (λ k n e. absurd (ground arith)) built in
      let nodup = build-NodupKeys codec root [] new h tt built in
      let (keeps_old, keeps_new) =
        copy-Extends codec (unless_single opts old) new free (unless_single-IsSound old sound)
          new_sound nodup in
      (
        λ q.
            resolve-Stored codec (Dict.copy (unless_single opts old) new) (split slash q) root h t (
              Stored-Extends codec root new (Dict.copy (unless_single opts old) new) h keeps_new
                stored)
            ∙ found q,
        keeps_old,
      )

-- What `make_version` has made its result of.
make_version-made :
    (codec : Codec) (opts : BackupOptions) (env : Surroundings) (old md : BackupMetadata)
    (g : Gathered) (v : Version)
    → make_version codec opts env old g ≡ ok (md, v)
    → (root : DirNode) × (new : Trees) × (make_root g ≡ ok root)
      × (build codec root [] ≡ ok (v.root_tree_hash, new))
      × (md ≡ final_metadata opts env.now old v new g.files_pool)
unfolding make_version new_version
make_version-made codec opts env old md g v e = elim (Result-cases (make_root g)) [
  | inr (x, m) ↦ absurd (ground arith)
  | inl (root, m) ↦ elim (Result-cases (build codec root [])) [
    | inr (x, b) ↦ absurd (ground arith)
    | inl ((h, new), b) ↦ elim (Result-cases (new_version_id opts env.hashes old)) [
      | inr (x, i) ↦ absurd (ground arith)
      | inl (id, i) ↦
          let same : new_version opts env.now old id h ≡ v = ground arith in
          (root, new, m, ground (arith, b, ap (λ z. z.root_tree_hash) same), ground (arith, same))
    ]
  ]
]

module _ (codec : Codec) (S : Storage) (lawful : IsLawful S) (trips : RoundTrips codec)
    (free : IsCollisionFree codec) where
  -- The clean-up after the commit, if there is one.
  read-swept :
      (b : Bool) (old files : Dict Bytes FileRecord) (u s : S.State) (q : Bytes)
      → (if b then clean_up codec S old files u else u) ≡ s
      → is_relative q ≡ true
      → ((k : Bytes) → Dict.has k files ≡ false → q ≢ part_key_for k)
      → S.read s q ≡ S.read u q
  read-swept true old files u s q e rel spared =
      ap (λ z. S.read z q) (sym e) ∙ read-clean_up codec S lawful old files u q rel spared
  read-swept false old files u s q e rel spared = ap (λ z. S.read z q) (sym e)

  commit_final-IsBackedUp :
      (opts : BackupOptions) (now : ℕ) (had : Bool) (old : BackupMetadata) (g : Gathered)
      (v w : Version) (root : DirNode) (new : Trees) (t s : S.State)
      → IsGathered g
      → IsSound codec old.trees
      → make_root g ≡ ok root
      → build codec root [] ≡ ok (v.root_tree_hash, new)
      → commit codec S opts had old (final_metadata opts now old v new g.files_pool) v t ≡ (s, ok w)
      → IsBackedUp codec S opts old g v t s
  unfolding commit final_metadata
  commit_final-IsBackedUp opts now had old g v w root new t s good sound rooted built h =
      let md = final_metadata opts now old v new g.files_pool in
      let (paths, keeps) =
        final_trees codec opts free g root old.trees new v.root_tree_hash good sound rooted built in
      elim (Option-cases (save codec S md t).1) [
        | inr (x, f) ↦ absurd (ground arith)
        | inl f ↦
            let u = (save codec S md t).0 in
            let saved : save codec S md t ≡ (u, none) = ground arith in
            let (loads, others) = save-read codec S lawful md t u trips refl saved in
            let same_s : (if opts.single_version_mode && had
                  then clean_up codec S old.files md.files u
                  else u)
                ≡ s =
              ground arith in
            let spared = read-swept (opts.single_version_mode && had) old.files md.files u s in
            record {
              left = md;
              loads =
                  load_metadata-read codec S lawful s u (
                    spared metadata_path same_s metadata_path-is_relative
                      (λ k e. metadata_path-ne-part_key_for k))
                  ∙ loads;
              listed = ground (
                arith,
                lookup-insert (decimal v.snowflake_id) (decimal v.snowflake_id) v
                    (unless_single opts old.versions),
              );
              others = λ many k other.
                  rw many (ground (arith, lookup-insert k (decimal v.snowflake_id) v old.versions));
              paths = paths;
              records = λ p key e.
                  let (rec, there) = good.recorded p key e in
                  ground (
                    arith,
                    lookup-copy key (unless_single opts old.files) g.files_pool good.nodup_pool,
                  );
              readings = λ many hash p leaf e.
                  resolve-Extends codec old.trees md.trees hash p leaf
                    (λ k n found. keeps k n (rw many found)) e;
              parts = λ k has_it rel.
                  spared (part_key_for k) same_s rel (λ j none_there e.
                    ground (arith, ap (λ z. Dict.has z md.files) (part_key_for-injective k j e)))
                  ∙ others (part_key_for k) rel (λ e. metadata_path-ne-part_key_for k (sym e));
            }
      ]

  commit-version :
      (opts : BackupOptions) (had : Bool) (old md : BackupMetadata) (w v : Version) (t s : S.State)
      → commit codec S opts had old md w t ≡ (s, ok v)
      → w ≡ v
  unfolding commit
  commit-version opts had old md w v t s h = elim (Option-cases (save codec S md t).1) [
    | inr (x, f) ↦ absurd (ground arith)
    | inl f ↦ ground arith
  ]

  run_workers-IsGathered :
      (W : Writers S) (zip : Zip) (plan : Plan) (turns : List Turn) (s : S.State) (g : Gathered)
      → IsKeyed plan.pass.existing
      → (run_workers codec S W zip plan turns s).1 ≡ ok g
      → IsGathered g
  unfolding run_workers
  run_workers-IsGathered W zip plan turns s g keyed h =
      let events = events_of turns plan.entries in
      let worked =
        work S W zip plan.pass events (record { store = s; flights = []; cause = none }) in
      let all = gather worked.1 nothing_gathered in
      elim (Option-cases (
        run_error (was_cancelled events) worked.0.cause all.first_err all.done_count
          (length plan.entries))) [
            | inr (x, e) ↦ absurd (ground arith)
            | inl e ↦
                let same : all ≡ g = ground arith in
                subst IsGathered same (work-IsGathered S W zip plan.pass events s keyed)
          ]

  -- If the store keeps the promises of `Storage`, the codec reads back what it writes, no two tree
  -- nodes have one hash, the loaded trees stand under their hashes and the loaded records under
  -- their keys, then a `RunBackup` that returns a version has, after its workers, gathered results
  -- with which the store is backed up: the metadata reads back, it lists the new version, every
  -- path resolves below the version's root to the leaf gathered for it and to nothing where none
  -- was gathered, every gathered key has its record and no part of a record, where its path does not
  -- start with a slash, was deleted; and unless in single version mode every other listed version
  -- and every path of the old trees is as before.
  pub run_backup-IsBackedUp :
      (W : Writers S) (zip : Zip) (opts : BackupOptions) (env : Surroundings) (plan : Plan)
      (s s' : S.State) (v : Version)
      → plan_backup opts env (load_metadata codec S s) ≡ ok plan
      → IsSound codec plan.metadata.trees
      → IsKeyed plan.pass.existing
      → run_backup codec S W zip opts env s ≡ (s', ok v)
      → (t : S.State) × (g : Gathered) × (run_workers codec S W zip plan env.schedule s ≡ (t, ok g))
        × IsBackedUp codec S opts plan.metadata g v t s'
  unfolding run_backup execute
  run_backup-IsBackedUp W zip opts env plan s s' v planned sound keyed h =
      let t = (run_workers codec S W zip plan env.schedule s).0 in
      elim (Result-cases (run_workers codec S W zip plan env.schedule s).1) [
        | inr (x, r) ↦ absurd (ground arith)
        | inl (g, r) ↦ elim (Result-cases (make_version codec opts env plan.metadata g)) [
          | inr (x, m) ↦ absurd (ground arith)
          | inl ((md, w), m) ↦
              let (root, new, rooted, built, same_md) =
                make_version-made codec opts env plan.metadata md g w m in
              let committed : commit codec S opts plan.had_metadata plan.metadata
                    (final_metadata opts env.now plan.metadata w new g.files_pool) w t
                  ≡ (s', ok v) =
                subst (λ z. commit codec S opts plan.had_metadata plan.metadata z w t ≡ (s', ok v))
                  same_md (ground arith) in
              let good = run_workers-IsGathered W zip plan env.schedule s g keyed r in
              let same_v =
                commit-version opts plan.had_metadata plan.metadata
                  (final_metadata opts env.now plan.metadata w new g.files_pool) w v t s'
                  committed in
              (
                t,
                g,
                ground (arith, r),
                subst (λ z. IsBackedUp codec S opts plan.metadata g z t s') same_v
                    (commit_final-IsBackedUp opts env.now plan.had_metadata plan.metadata g w v root
                      new t s' good sound rooted built committed),
              )
        ]
      ]
