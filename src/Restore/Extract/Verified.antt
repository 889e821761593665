-- ===== src/Restore/Extract/Verified.antt =====
-- What `extractOne` leaves in the file system.
use t_sync_sdk_go.Base.{
  ℕ, ◌≡◌, ◌≢◌, refl, subst, inl, inr, true, false, Option, none, some, arith, ℤ, pos, negsuc,
  length, bytes_eq,
}
use t_sync_sdk_go.Base.Bytes.{Bytes, has_prefix}
use t_sync_sdk_go.Base.Dict
use t_sync_sdk_go.Errors.{GoError, Result, ok, err, Result-cases}
use t_sync_sdk_go.Metadata.{FileRecord, BackupMetadata, Storage}
use t_sync_sdk_go.Names.{base}
use t_sync_sdk_go.Paths.{CleanPath, safe_path, render}
use t_sync_sdk_go.Files.{FileSystem, KeepsFiles}
use t_sync_sdk_go.Restore.Extract.Writes.{Matches, Wrote, write_file-Wrote}
use t_sync_sdk_go.Restore.Extract.Planned.{IsPlanOf, skipped, planned_for}
use t_sync_sdk_go.Crypto.{Box}
use t_sync_sdk_go.Backup.Part.{crc32_ieee}
use t_sync_sdk_go.Restore.Extract.{
  PartReader, Extraction, restore_temp, is_length, same_size, is_identical, is_skipped, Plan,
  plan_file, write_file, extract_one,
}

module _ (F : FileSystem) (S : Storage) (box : Box) (parts : PartReader) (opts : Extraction)
    (md : BackupMetadata) where
  -- What is asked of a restored file: it stands at its place below the folder, and its content has
  -- the size and the CRC-32 of its record.
  pub record IsRestored (path key : Bytes) (s : F.State) : Type 0 where
    pub out : CleanPath
    pub rec : FileRecord
    pub content : Bytes
    pub placed : safe_path opts.extract_dir path ≡ ok out
    pub recorded : Dict.lookup key md.files ≡ some rec
    pub present : F.read_file s (render out) ≡ ok content
    pub matches : Matches rec content

  same_size-is_length : (a b : ℤ) (n : ℕ) → same_size a b ≡ true → a ≡ pos n → is_length b n ≡ true
  same_size-is_length (pos m) (pos k) n h e = ground arith
  same_size-is_length (pos m) (negsuc k) n h e = absurd (ground arith)
  same_size-is_length (negsuc m) (pos k) n h e = absurd (ground arith)
  same_size-is_length (negsuc m) (negsuc k) n h e = absurd (ground arith)

  identical-Matches :
      (keeps : KeepsFiles F) (s : F.State) (path : Bytes) (rec : FileRecord)
      → opts.no_overwrite ≡ false
      → is_skipped F opts s path rec ≡ true
      → (d : Bytes) × (F.read_file s path ≡ ok d) × Matches rec d
  unfolding is_skipped is_identical
  identical-Matches keeps s path rec overwrite h = elim (Result-cases (F.stat s path)) [
    | inr (e, failed) ↦ absurd (ground (arith, failed))
    | inl (st, there) ↦ elim (Result-cases (F.read_file s path)) [
      | inr (e, failed) ↦ absurd (ground (arith, there, failed))
      | inl (d, got) ↦
          let size : same_size st.size rec.uncompressed_size ≡ true = ground (arith, there, got) in
          let crc : crc32_ieee d ≡ rec.crc32 = ground (arith, there, got) in
          (
            d,
            got,
            (
              same_size-is_length st.size rec.uncompressed_size (length d) size
                  (keeps.stat_size s path d st there got),
              crc,
            ),
          )
    ]
  ]

  -- What is asked of the restore of one file, from the state `s` to the result `t`.
  pub record IsExtracted (path key : Bytes) (s : F.State) (t : F.State × Result (Option Bytes))
      : Type 0 where
    pub restored :
        (x : Option Bytes) → t.1 ≡ ok x → opts.no_overwrite ≡ false → IsRestored path key t.0
    pub kept :
        (e : GoError) (out : CleanPath)
        → t.1 ≡ err e
        → safe_path opts.extract_dir path ≡ ok out
        → F.read_file t.0 (render out) ≡ F.read_file s (render out)
    pub others :
        (q : Bytes)
        → has_prefix (base q) restore_temp ≡ false
        → ((out : CleanPath) → safe_path opts.extract_dir path ≡ ok out → q ≢ render out)
        → F.read_file t.0 q ≡ F.read_file s q

  untouched :
      (path key : Bytes) (s : F.State) (r : Result (Option Bytes))
      → ((x : Option Bytes) → r ≡ ok x → opts.no_overwrite ≡ false → IsRestored path key s)
      → IsExtracted path key s (s, r)
  untouched path key s r restored = record {
    restored = restored;
    kept = λ e out h placed. refl;
    others = λ q plain other. refl;
  }

  Wrote-IsExtracted :
      (path key : Bytes) (s : F.State) (plan : Plan F) (t : F.State × Result (Option Bytes))
      → IsPlanOf F S box parts opts md path key plan
      → Wrote F S box parts opts md s plan t
      → IsExtracted path key s t
  Wrote-IsExtracted path key s plan t right w = record {
    restored = λ x h overwrite. record {
      out = plan.out;
      rec = plan.rec;
      content = plan.decoded.content;
      placed = right.placed;
      recorded = right.recorded;
      present = (w.done x h).0;
      matches = (w.done x h).1;
    };
    kept = λ e out h placed.
        let same : plan.out ≡ out = ground (arith, right.placed, placed) in
        subst (λ p. F.read_file t.0 (render p) ≡ F.read_file s (render p)) same (w.kept e h);
    others = λ q plain other. w.others q plain (other plan.out right.placed);
  }

  -- If the operating system keeps its promises, and the place of the file has not the name of a
  -- temporary file, then `extractOne` is all or nothing: where it returns no error, and is not told
  -- to leave existing files alone, the file stands at its place below the folder with exactly the
  -- size and the CRC-32 of its record, whatever the part, the zip library and the password gave;
  -- where it returns an error, its place is as it was; and no other file changes, but for temporary
  -- ones.
  pub extract_one-IsExtracted :
      (store : S.State) (path key : Bytes) (s : F.State)
      → KeepsFiles F
      → ((out : CleanPath)
          → safe_path opts.extract_dir path ≡ ok out
          → has_prefix (base (render out)) restore_temp ≡ false)
      → IsExtracted path key s (extract_one F S box parts opts md store path key s)
  unfolding extract_one
  extract_one-IsExtracted store path key s keeps plain =
      elim (Result-cases (plan_file F S box parts opts md store s path key)) [
        | inr (e, failed) ↦
            rw (failed, extract_one) (untouched path key s (err e) (λ x h o. absurd (ground arith)))
        | inl (none, idle) ↦
            let (out, rec, placed, recorded, skip) =
              skipped F S box parts opts md store s path key idle in
            rw (idle, extract_one)
              (untouched path key s (ok none) (λ x h overwrite.
                let (d, there, right) = identical-Matches keeps s (render out) rec overwrite skip in
                record {
                  out = out;
                  rec = rec;
                  content = d;
                  placed = placed;
                  recorded = recorded;
                  present = there;
                  matches = right;
                }))
        | inl (some plan, planned) ↦
            let right = planned_for F S box parts opts md store s path key plan planned in
            rw (planned, extract_one)
              (Wrote-IsExtracted path key s plan (write_file F S box parts opts md plan s) right
                (write_file-Wrote F S box parts opts md keeps plan (plain plan.out right.placed) s))
      ]
