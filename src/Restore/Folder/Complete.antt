-- ===== src/Restore/Folder/Complete.antt =====
-- A restore to a folder that returns no error has restored every file.
use t_sync_sdk_go.Base.{
  ℕ, suc, ◌≡◌, ◌≢◌, ◌≤◌, refl, sym, ap, ◌∙◌, subst, inl, inr, false, ◌&&◌, Option, none, List, [],
  ◌∷◌, arith, All, Bool-cases, Option-cases, length, map, bytes_eq,
}
use t_sync_sdk_go.Base.Bytes.{Bytes, has_prefix}
use t_sync_sdk_go.Base.Dict.{Dict}
use t_sync_sdk_go.Errors.{GoError, Result, ok, err}
use t_sync_sdk_go.Metadata.{BackupMetadata, Storage}
use t_sync_sdk_go.Names.{base}
use t_sync_sdk_go.Paths.{CleanPath, safe_path, render}
use t_sync_sdk_go.Files.{FileSystem, KeepsFiles, and_also}
use t_sync_sdk_go.Crypto.{Box}
use t_sync_sdk_go.Restore.{is_skippable_restore_error}
use t_sync_sdk_go.Restore.Extract.{PartReader, restore_temp, extract_one}
use t_sync_sdk_go.Restore.Extract.Verified.{IsRestored, extract_one-IsExtracted}
use t_sync_sdk_go.Restore.Folder.{
  FolderOptions, check_space, Task, TaskResult, Progress, settle_task, do_task, do_tasks,
  count_done, outcome, make_dirs, sync_dirs, restore_files, restore_to_dir,
}
use t_sync_sdk_go.Restore.Folder.Steps.{outcome-none, and_also-first, last_steps, moved-All}

module _ (F : FileSystem) (S : Storage) (box : Box) (parts : PartReader) (opts : FolderOptions)
    (md : BackupMetadata) (keeps : KeepsFiles F) where
  -- The place of a task's file has not the name of a temporary file.
  abbrev pub IsPlain : Task S → Type 0
  IsPlain t =
      (out : CleanPath)
      → safe_path opts.extraction.extract_dir t.path ≡ ok out
      → has_prefix (base (render out)) restore_temp ≡ false

  -- Two tasks have different places.
  abbrev pub AreApart : Task S → Task S → Type 0
  AreApart t u =
      (a b : CleanPath)
      → safe_path opts.extraction.extract_dir t.path ≡ ok a
      → safe_path opts.extraction.extract_dir u.path ≡ ok b
      → render a ≢ render b

  abbrev pub AllApart : List (Task S) → Type 0
  AllApart [] = Unit
  AllApart (t ∷ ts) = All (AreApart t) ts × AllApart ts

  -- Whether a file is none that a task restores.
  abbrev IsAside : Bytes → Task S → Type 0
  IsAside q t =
      (out : CleanPath) → safe_path opts.extraction.extract_dir t.path ≡ ok out → q ≢ render out

  settle_task-files :
      (p : Progress F) (during : Option GoError) (s : F.State) (r : Result (Option Bytes))
      → (settle_task F S box parts opts md p during (s, r)).0.files ≡ s
  settle_task-files p during s (ok dir) = refl
  settle_task-files p during s (err e) =
      elim (Bool-cases (opts.skip_decryption_errors && is_skippable_restore_error e)) [
        | inl skip ↦ rw skip refl
        | inr fail ↦ rw fail refl
      ]

  settle_task-done :
      (p : Progress F) (during : Option GoError) (s : F.State) (r : Result (Option Bytes))
      → opts.skip_decryption_errors ≡ false
      → (settle_task F S box parts opts md p during (s, r)).1.failure ≡ none
      → (x : Option Bytes) × (r ≡ ok x)
  settle_task-done p during s (ok dir) strict h = (dir, refl)
  settle_task-done p during s (err e) strict h = absurd (ground (arith, strict))

  do_task-aside :
      (t : Task S) (p : Progress F) (q : Bytes)
      → IsPlain t
      → has_prefix (base q) restore_temp ≡ false
      → IsAside q t
      → F.read_file (do_task F S box parts opts md t p).0.files q ≡ F.read_file p.files q
  unfolding do_task
  do_task-aside t p q plain plain_q aside = elim (Option-cases p.cause) [
    | inr (e, stopped) ↦ rw (stopped, do_task) refl
    | inl going ↦
        let x = extract_one F S box parts opts.extraction md t.store t.path t.key p.files in
        let r =
          extract_one-IsExtracted F S box parts opts.extraction md t.store t.path t.key p.files
            keeps plain in
        rw (going, do_task)
          (ap (λ s. F.read_file s q) (settle_task-files p t.during x.0 x.1)
            ∙ r.others q plain_q aside)
  ]

  do_task-IsRestored :
      (t : Task S) (p : Progress F)
      → IsPlain t
      → opts.skip_decryption_errors ≡ false
      → opts.extraction.no_overwrite ≡ false
      → (do_task F S box parts opts md t p).1.failure ≡ none
      → IsRestored F S box parts opts.extraction md t.path t.key
          (do_task F S box parts opts md t p).0.files
  unfolding do_task
  do_task-IsRestored t p plain strict overwrite h = elim (Option-cases p.cause) [
    | inr (e, stopped) ↦ absurd (ground (arith, stopped))
    | inl going ↦
        let x = extract_one F S box parts opts.extraction md t.store t.path t.key p.files in
        let r =
          extract_one-IsExtracted F S box parts opts.extraction md t.store t.path t.key p.files
            keeps plain in
        let settled : do_task F S box parts opts md t p
            ≡ settle_task F S box parts opts md p t.during x =
          rw (going, do_task) refl in
        let (dir, fine) =
          settle_task-done p t.during x.0 x.1 strict (sym (ap (λ z. z.1.failure) settled) ∙ h) in
        subst (IsRestored F S box parts opts.extraction md t.path t.key)
          (sym (ap (λ z. z.0.files) settled ∙ settle_task-files p t.during x.0 x.1))
          (r.restored dir fine overwrite)
  ]

  do_tasks-aside :
      (ts : List (Task S)) (p : Progress F) (q : Bytes)
      → All IsPlain ts
      → has_prefix (base q) restore_temp ≡ false
      → All (IsAside q) ts
      → F.read_file (do_tasks F S box parts opts md ts p).0.files q ≡ F.read_file p.files q
  unfolding do_tasks
  do_tasks-aside [] p q plain plain_q aside = refl
  do_tasks-aside (t ∷ ts) p q (plain, plains) plain_q (aside, asides) =
      do_tasks-aside ts (do_task F S box parts opts md t p).0 q plains plain_q asides
      ∙ do_task-aside t p q plain plain_q aside

  -- The results of tasks that have all been done.
  abbrev AllDone : List TaskResult → Type 0
  AllDone = All (λ r. r.failure ≡ none)

  apart-IsAside :
      (t : Task S) (out : CleanPath) (ts : List (Task S))
      → safe_path opts.extraction.extract_dir t.path ≡ ok out
      → All (AreApart t) ts
      → All (IsAside (render out)) ts
  apart-IsAside t out [] placed apart = tt
  apart-IsAside t out (u ∷ ts) placed (here, more) =
      ((λ b placed_b. here out b placed placed_b), apart-IsAside t out ts placed more)

  do_tasks-IsRestored :
      (ts : List (Task S)) (p : Progress F)
      → All IsPlain ts
      → AllApart ts
      → opts.skip_decryption_errors ≡ false
      → opts.extraction.no_overwrite ≡ false
      → AllDone (do_tasks F S box parts opts md ts p).1
      → All
          (λ t.
            IsRestored F S box parts opts.extraction md t.path t.key
              (do_tasks F S box parts opts md ts p).0.files)
          ts
  unfolding do_tasks
  do_tasks-IsRestored [] p plain apart strict overwrite done = tt
  do_tasks-IsRestored (t ∷ ts) p (plain, plains) (here, more) strict overwrite (fine, done) =
      let p1 = (do_task F S box parts opts md t p).0 in
      let r = do_task-IsRestored t p plain strict overwrite fine in
      let stays =
        do_tasks-aside ts p1 (render r.out) plains (plain r.out r.placed)
          (apart-IsAside t r.out ts r.placed here) in
      (
        record {
          out = r.out;
          rec = r.rec;
          content = r.content;
          placed = r.placed;
          recorded = r.recorded;
          present = stays ∙ r.present;
          matches = r.matches;
        },
        do_tasks-IsRestored ts p1 plains more strict overwrite done,
      )

  length-do_tasks :
      (ts : List (Task S)) (p : Progress F)
      → length (do_tasks F S box parts opts md ts p).1 ≡ length ts
  unfolding do_tasks
  length-do_tasks [] p = refl
  length-do_tasks (t ∷ ts) p = ap suc (length-do_tasks ts (do_task F S box parts opts md t p).0)

  count_done-le : (rs : List TaskResult) → count_done F S box parts opts md rs ≤ length rs
  unfolding count_done
  count_done-le [] = omega arith
  count_done-le (r ∷ rs) = ground (arith, count_done-le rs)

  count_done-all :
      (rs : List TaskResult) → count_done F S box parts opts md rs ≡ length rs → AllDone rs
  unfolding count_done
  count_done-all [] h = tt
  count_done-all (r ∷ rs) h = elim (Option-cases r.failure) [
    | inr (e, failed) ↦ absurd (ground (arith, failed, count_done-le rs))
    | inl fine ↦ (fine, count_done-all rs (ground (arith, fine)))
  ]

  restore_files-IsRestored :
      (dirs : List Bytes) (ts : List (Task S)) (caller : Option GoError) (s : F.State)
      → All IsPlain ts
      → AllApart ts
      → opts.skip_decryption_errors ≡ false
      → opts.extraction.no_overwrite ≡ false
      → (restore_files F S box parts opts md (length ts) dirs ts caller s).1 ≡ none
      → All
          (λ t.
            IsRestored F S box parts opts.extraction md t.path t.key
              (restore_files F S box parts opts md (length ts) dirs ts caller s).0)
          ts
  unfolding restore_files
  restore_files-IsRestored dirs ts caller s plain apart strict overwrite h =
      let start : Progress F = record {
        files = s;
        cause = caller;
        caller = caller;
        touched = [];
      } in
      let (p, rs) = do_tasks F S box parts opts md ts start in
      let ended : F.State × Option GoError =
        (p.files, outcome F S box parts opts md (length ts) p.caller rs) in
      let counted = outcome-none F S box parts opts md keeps (length ts) p.caller rs (
        and_also-first F S box parts opts md keeps ended
          (λ s1.
            and_also (make_dirs F S box parts opts md dirs s1)
              (λ s2. sync_dirs F S box parts opts md p.touched s2))
          h) in
      let done = count_done-all rs (counted ∙ sym (length-do_tasks ts start)) in
      moved-All F S box parts opts md keeps p.files
        (restore_files F S box parts opts md (length ts) dirs ts caller s).0 ts
        (λ q. last_steps F S box parts opts md keeps ended dirs p.touched q)
        (do_tasks-IsRestored ts start plain apart strict overwrite done)

abbrev pub files_of : {S : Storage} → List (Task S) → Dict Bytes Bytes
files_of = map (λ t. (t.path, t.key))

length-files_of : {S : Storage} (ts : List (Task S)) → length (files_of ts) ≡ length ts
length-files_of [] = refl
length-files_of (t ∷ ts) = ap suc (length-files_of ts)

All-files_of :
    {S : Storage} (P : Bytes → Bytes → Type 0) (ts : List (Task S))
    → All (λ t. P t.path t.key) ts
    → All (λ (path, key). P path key) (files_of ts)
All-files_of P [] h = tt
All-files_of P (t ∷ ts) (h, hs) = (h, All-files_of P ts hs)

-- If the operating system keeps its promises, no place has the name of a temporary file and no two
-- files have one place, then a `restoreToDir` that returns no error, and was not told to skip failed
-- parts or existing files, has restored every file that it was given: each stands at its own place
-- below the folder with the size and the CRC-32 of its record, whatever the order of the tasks, the
-- cancellations, the store's answers and the files that were there before.
pub restore_to_dir-IsRestored :
    (F : FileSystem) (S : Storage) (box : Box) (parts : PartReader) (opts : FolderOptions)
    (md : BackupMetadata) (free : Option ℕ) (files : Dict Bytes Bytes) (dirs : List Bytes)
    (ts : List (Task S)) (caller : Option GoError) (s : F.State)
    → (keeps : KeepsFiles F) → files_of ts ≡ files
    → All (IsPlain F S box parts opts md keeps) ts
    → AllApart F S box parts opts md keeps ts
    → opts.skip_decryption_errors ≡ false
    → opts.extraction.no_overwrite ≡ false
    → (restore_to_dir F S box parts opts md free files dirs ts caller s).1 ≡ none
    → All
        (λ (path, key).
          IsRestored F S box parts opts.extraction md path key
            (restore_to_dir F S box parts opts md free files dirs ts caller s).0)
        files
unfolding restore_to_dir
restore_to_dir-IsRestored F S box parts opts md free files dirs ts caller s keeps given plain apart
      strict overwrite h =
    elim (Option-cases (check_space free md files)) [
      | inr (e, full) ↦ absurd (ground (arith, full))
      | inl enough ↦
          let same : restore_to_dir F S box parts opts md free files dirs ts caller s
              ≡ restore_files F S box parts opts md (length ts) dirs ts caller s =
            rw (enough, restore_to_dir)
              (ap (λ n. restore_files F S box parts opts md n dirs ts caller s)
                (ap length (sym given) ∙ length-files_of ts)) in
          let IsDone : F.State → Bytes → Bytes → Type 0 =
            λ t path key. IsRestored F S box parts opts.extraction md path key t in
          let all =
            restore_files-IsRestored F S box parts opts md keeps dirs ts caller s plain apart strict
              overwrite (ap (λ t. t.1) (sym same) ∙ h) in
          let at_end = (restore_files F S box parts opts md (length ts) dirs ts caller s).0 in
          subst (λ t. All (λ (path, key). IsDone t.0 path key) files) (sym same)
            (subst (λ fs. All (λ (path, key). IsDone at_end path key) fs) given
              (All-files_of (IsDone at_end) ts all))
    ]
