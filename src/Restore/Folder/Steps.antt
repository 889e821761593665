-- ===== src/Restore/Folder/Steps.antt =====
-- What the last steps of a restore to a folder leave as it is.
use t_sync_sdk_go.Base.{
  ℕ, ◌≡◌, refl, ◌∙◌, inl, inr, Option, none, some, List, [], ◌∷◌, arith, All, Bool-cases,
  Option-cases, eqb, bytes_eq, if◌then◌else◌,
}
use t_sync_sdk_go.Base.Bytes.{Bytes}
use t_sync_sdk_go.Errors.{GoError, Result, ok, err}
use t_sync_sdk_go.Metadata.{BackupMetadata, Storage}
use t_sync_sdk_go.Paths.{safe_join, render}
use t_sync_sdk_go.Files.{FileSystem, KeepsFiles, and_also}
use t_sync_sdk_go.Crypto.{Box}
use t_sync_sdk_go.Backup.Part.{first_error}
use t_sync_sdk_go.Restore.{incomplete_run_error}
use t_sync_sdk_go.Restore.Extract.{PartReader}
use t_sync_sdk_go.Restore.Extract.Verified.{IsRestored}
use t_sync_sdk_go.Restore.Folder.{
  FolderOptions, Task, TaskResult, count_done, outcome, made_dir, after_dir, make_dirs, sync_dirs,
}

module _ (F : FileSystem) (S : Storage) (box : Box) (parts : PartReader) (opts : FolderOptions)
    (md : BackupMetadata) (keeps : KeepsFiles F) where
  first_error-none : (x y : Option GoError) → first_error x y ≡ none → y ≡ none
  first_error-none none y h = h
  first_error-none (some e) y h = absurd (ground arith)

  pub outcome-none :
      (total : ℕ) (caller : Option GoError) (rs : List TaskResult)
      → outcome F S box parts opts md total caller rs ≡ none
      → count_done F S box parts opts md rs ≡ total
  unfolding outcome
  outcome-none total caller rs h =
      let counted : (if eqb (count_done F S box parts opts md rs) total
            then none
            else some (incomplete_run_error none))
          ≡ none =
        first_error-none _ _ h in
      elim (Bool-cases (eqb (count_done F S box parts opts md rs) total)) [
        | inl all ↦ ground arith
        | inr some_left ↦ absurd (ground arith)
      ]

  made_dir-read :
      (s : F.State) (r : Result Bytes) (q : Bytes)
      → F.read_file (made_dir F S box parts opts md s r).0 q ≡ F.read_file s q
  made_dir-read s (ok path) q = keeps.read-mkdir s path q
  made_dir-read s (err e) q = refl

  after_dir-read :
      (t : F.State × Option GoError) (rest : F.State → F.State × Option GoError) (q : Bytes)
      → ((s : F.State) → F.read_file (rest s).0 q ≡ F.read_file s q)
      → F.read_file (after_dir F S box parts opts md t rest).0 q ≡ F.read_file t.0 q
  after_dir-read (s, none) rest q same = same s
  after_dir-read (s, some e) rest q same = elim (Bool-cases opts.skip_validation_errors) [
    | inl skip ↦ rw skip (same s)
    | inr strict ↦ rw strict refl
  ]

  make_dirs-read :
      (ds : List Bytes) (s : F.State) (q : Bytes)
      → F.read_file (make_dirs F S box parts opts md ds s).0 q ≡ F.read_file s q
  unfolding make_dirs
  make_dirs-read [] s q = refl
  make_dirs-read (d ∷ ds) s q =
      let made = made_dir F S box parts opts md s (safe_join opts.extraction.extract_dir d) in
      after_dir-read made (λ s'. make_dirs F S box parts opts md ds s') q
        (λ s'. make_dirs-read ds s' q)
      ∙ made_dir-read s (safe_join opts.extraction.extract_dir d) q

  sync_dirs-read :
      (ds : List Bytes) (s : F.State) (q : Bytes)
      → F.read_file (sync_dirs F S box parts opts md ds s).0 q ≡ F.read_file s q
  unfolding sync_dirs
  sync_dirs-read [] s q = refl
  sync_dirs-read (d ∷ ds) s q = elim (Option-cases (F.sync_dir s d).1) [
    | inr (e, failed) ↦ rw (failed, sync_dirs) (keeps.read-sync_dir s d q)
    | inl fine ↦
        rw (fine, sync_dirs) (sync_dirs-read ds (F.sync_dir s d).0 q ∙ keeps.read-sync_dir s d q)
  ]

  -- The files stay as they are after the tasks.
  pub last_steps :
      (t : F.State × Option GoError) (dirs touched : List Bytes) (q : Bytes)
      → F.read_file
          (and_also t (λ s1.
            and_also
              (make_dirs F S box parts opts md dirs s1)
              (λ s2. sync_dirs F S box parts opts md touched s2))).0
          q
        ≡ F.read_file t.0 q
  last_steps (s, some e) dirs touched q = refl
  last_steps (s, none) dirs touched q =
      ended (make_dirs F S box parts opts md dirs s) ∙ make_dirs-read dirs s q
    where
      ended :
          (u : F.State × Option GoError)
          → F.read_file (and_also u (λ s2. sync_dirs F S box parts opts md touched s2)).0 q
            ≡ F.read_file u.0 q
      ended (v, none) = sync_dirs-read touched v q
      ended (v, some e) = refl

  pub and_also-first :
      (t : F.State × Option GoError) (rest : F.State → F.State × Option GoError)
      → (and_also t rest).1 ≡ none
      → t.1 ≡ none
  and_also-first (s, none) rest h = refl
  and_also-first (s, some e) rest h = absurd (ground arith)

  moved :
      (s s' : F.State)
      → ((q : Bytes) → F.read_file s' q ≡ F.read_file s q)
      → (path key : Bytes) → IsRestored F S box parts opts.extraction md path key s
      → IsRestored F S box parts opts.extraction md path key s'
  moved s s' same path key r = record {
    out = r.out;
    rec = r.rec;
    content = r.content;
    placed = r.placed;
    recorded = r.recorded;
    present = same (render r.out) ∙ r.present;
    matches = r.matches;
  }

  pub moved-All :
      (s s' : F.State) (ts : List (Task S))
      → ((q : Bytes) → F.read_file s' q ≡ F.read_file s q)
      → All (λ t. IsRestored F S box parts opts.extraction md t.path t.key s) ts
      → All (λ t. IsRestored F S box parts opts.extraction md t.path t.key s') ts
  moved-All s s' [] same h = tt
  moved-All s s' (t ∷ ts) same (h, hs) = (moved s s' same t.path t.key h, moved-All s s' ts same hs)
