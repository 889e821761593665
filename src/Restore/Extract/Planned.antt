-- ===== src/Restore/Extract/Planned.antt =====
-- What `extractOne` does before it writes.
use t_sync_sdk_go.Base.{
  ◌≡◌, sym, ap, ◌∙◌, subst, inl, inr, true, none, some, arith, Bool-cases, Option-cases, bytes_eq,
}
use t_sync_sdk_go.Base.Bytes.{Bytes}
use t_sync_sdk_go.Base.Dict
use t_sync_sdk_go.Errors.{ok, Result-cases}
use t_sync_sdk_go.Streams.{Reader}
use t_sync_sdk_go.Metadata.{FileRecord, BackupMetadata, Storage}
use t_sync_sdk_go.Paths.{CleanPath, safe_path, render}
use t_sync_sdk_go.Files.{FileSystem}
use t_sync_sdk_go.Crypto.{Box}
use t_sync_sdk_go.Restore.{check_part_header, decrypt_part_password}
use t_sync_sdk_go.Names.{part_key_for}
use t_sync_sdk_go.Restore.Extract.{
  PartReader, Extraction, is_skipped, Plan, read_part, open_part, plan_file,
}

module _ (F : FileSystem) (S : Storage) (box : Box) (parts : PartReader) (opts : Extraction)
    (md : BackupMetadata) where
  -- What a plan is for.
  pub record IsPlanOf (path key : Bytes) (plan : Plan F) : Type 0 where
    pub placed : safe_path opts.extract_dir path ≡ ok plan.out
    pub recorded : Dict.lookup key md.files ≡ some plan.rec

  read_part-plan :
      (out : CleanPath) (rec : FileRecord) (password : Bytes) (rc : Reader) (plan : Plan F)
      → read_part F S box parts opts md out rec password rc ≡ ok plan
      → (plan.out ≡ out) × (plan.rec ≡ rec)
  unfolding read_part
  read_part-plan out rec password rc plan h = elim (Result-cases (parts.read_header rc)) [
    | inr (e, failed) ↦ absurd (ground (arith, failed))
    | inl ((fh, used), got) ↦ elim (Result-cases (check_part_header fh password)) [
      | inr (e, failed) ↦ absurd (ground (arith, got, failed))
      | inl (passed, fine) ↦ (ground (arith, got, fine), ground (arith, got, fine))
    ]
  ]

  open_part-plan :
      (store : S.State) (out : CleanPath) (rec : FileRecord) (key : Bytes) (plan : Plan F)
      → open_part F S box parts opts md store out rec key ≡ ok plan
      → (plan.out ≡ out) × (plan.rec ≡ rec)
  unfolding open_part
  open_part-plan store out rec key plan h =
      elim (Result-cases (decrypt_part_password box rec opts.private_key)) [
        | inr (e, failed) ↦ absurd (ground (arith, failed))
        | inl (password, got) ↦ elim (Result-cases (S.open_reader store (part_key_for key))) [
          | inr (e, failed) ↦ absurd (ground (arith, got, failed))
          | inl (rc, opened) ↦ read_part-plan out rec password rc plan (ground (arith, got, opened))
        ]
      ]

  -- What a result without a plan says.
  pub skipped :
      (store : S.State) (s : F.State) (path key : Bytes)
      → plan_file F S box parts opts md store s path key ≡ ok none
      → (out : CleanPath) × (rec : FileRecord) × (safe_path opts.extract_dir path ≡ ok out)
        × (Dict.lookup key md.files ≡ some rec)
        × (is_skipped F opts s (render out) rec ≡ true)
  unfolding plan_file
  skipped store s path key h = elim (Result-cases (safe_path opts.extract_dir path)) [
    | inr (e, failed) ↦ absurd (ground (arith, failed))
    | inl (out, placed) ↦ elim (Option-cases (Dict.lookup key md.files)) [
      | inl missing ↦ absurd (ground (arith, placed, missing))
      | inr (rec, found) ↦ elim (Bool-cases (is_skipped F opts s (render out) rec)) [
        | inl skip ↦ (out, rec, placed, found, skip)
        | inr go ↦ elim (Result-cases (open_part F S box parts opts md store out rec key)) [
          | inl (plan, opened) ↦ absurd (ground (arith, placed, found, go, opened))
          | inr (e, failed) ↦ absurd (ground (arith, placed, found, go, failed))
        ]
      ]
    ]
  ]

  pub planned_for :
      (store : S.State) (s : F.State) (path key : Bytes) (plan : Plan F)
      → plan_file F S box parts opts md store s path key ≡ ok (some plan)
      → IsPlanOf path key plan
  unfolding plan_file
  planned_for store s path key plan h = elim (Result-cases (safe_path opts.extract_dir path)) [
    | inr (e, failed) ↦ absurd (ground (arith, failed))
    | inl (out, placed) ↦ elim (Option-cases (Dict.lookup key md.files)) [
      | inl missing ↦ absurd (ground (arith, placed, missing))
      | inr (rec, found) ↦ elim (Bool-cases (is_skipped F opts s (render out) rec)) [
        | inl skip ↦ absurd (ground (arith, placed, found, skip))
        | inr go ↦ elim (Result-cases (open_part F S box parts opts md store out rec key)) [
          | inl (plan', opened) ↦
              let (same_out, same_rec) = open_part-plan store out rec key plan' opened in
              let same : plan' ≡ plan = ground (arith, placed, found, go, opened) in
              subst (IsPlanOf path key) same (record {
                placed = placed ∙ ap ok (sym same_out);
                recorded = found ∙ ap some (sym same_rec);
              })
          | inr (e, failed) ↦ absurd (ground (arith, placed, found, go, failed))
        ]
      ]
    ]
  ]
