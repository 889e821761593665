-- ===== src/Restore/Extract.antt =====
-- tsync/restore.go: `extractOne`, the restore of one file to a folder.
pub mod Writes
pub mod Planned
pub mod Verified
use t_sync_sdk_go.Base.{
  ℕ, ◌-◌, ◌%◌, ◌^◌, ◌≡◌, Bool, true, false, ◌&&◌, ◌||◌, not, Option, none, some, List, [], ◌∷◌,
  ◌++◌, if◌then◌else◌, eqb, ltb, leb, ℤ, pos, negsuc, length, take, drop, bytes_eq,
}
use t_sync_sdk_go.Base.Bytes.{Bytes, codes, slash}
use t_sync_sdk_go.Base.Dict
use t_sync_sdk_go.Base.Dict.{Dict}
use t_sync_sdk_go.Errors.{GoError, sentinel, wrap, corrupt_metadata, corrupt_part, Result, ok, err}
use t_sync_sdk_go.Streams.{Reader}
use t_sync_sdk_go.Metadata.{FileRecord, BackupMetadata, Storage}
use t_sync_sdk_go.Names.{part_key_for}
use t_sync_sdk_go.Paths.{CleanPath, safe_path, render, without_last}
use t_sync_sdk_go.Files.{FileSystem, FileStat, and_also, publish}
use t_sync_sdk_go.Crypto.{Box}
use t_sync_sdk_go.Backup.Part.{crc32_ieee, first_error}
use t_sync_sdk_go.Restore.{
  PartHeader, check_part_header, decrypt_part_password, classify_part_error,
}

-- What restore takes from the zip library: `ReadLocalFileHeader`, with the number of bytes that it
-- takes, whether a failure of it is one of the stream, and the decryption and decompression of a
-- payload.
pub record PartReader : Type 0 where
  pub read_header : Reader → Result (PartHeader × ℕ)
  pub stream_failure : Reader → Option GoError
  pub decode : PartHeader → Bytes → Reader → Reader

-- The options that `extractOne` reads.
pub record Extraction : Type 0 where
  pub extract_dir : Bytes
  pub no_overwrite : Bool
  pub private_key : Bytes

abbrev pub restore_temp : Bytes
restore_temp = codes ".tsync-restore-tmp-"

-- Whether an `int64` is a length.
abbrev pub is_length : ℤ → ℕ → Bool
is_length (pos n) m = eqb n m
is_length (negsuc n) m = false

abbrev same_size : ℤ → ℤ → Bool
same_size (pos m) (pos n) = eqb m n
same_size (negsuc m) (negsuc n) = eqb m n
same_size (pos m) (negsuc n) = false
same_size (negsuc m) (pos n) = false

abbrev pub wrap_error : {T : Type 0} → T × Option GoError → T × Option GoError
wrap_error (s, none) = (s, none)
wrap_error (s, some e) = (s, some (wrap e))

-- `io.LimitReader` on what follows the header of a part.
abbrev pub payload : ℤ → ℕ → Reader → Reader
payload (pos n) used rc =
    if leb n (length (drop used rc.content))
    then record { content = take n (drop used rc.content); failure = none }
    else record { content = drop used rc.content; failure = rc.failure }
payload (negsuc n) used rc = record { content = []; failure = none }

-- The checks on a content that has been decoded, after `comp` bytes of compressed data.
unfoldable pub check_content : FileRecord → ℕ → Bytes → Option GoError
check_content rec comp content =
    if not (is_length rec.compressed_size comp)
    then some (wrap (sentinel corrupt_part))
    else if not (is_length rec.uncompressed_size (length content))
        || not (eqb (crc32_ieee content) rec.crc32)
    then some (wrap (sentinel corrupt_part))
    else none

module _ (F : FileSystem) where
  -- Whether the file is there already, with the record's size and CRC-32.
  unfoldable pub is_identical : F.State → Bytes → FileRecord → FileStat → Bool
  is_identical s path rec st = elim (F.read_file s path) [
    | err e ↦ false
    | ok b ↦
        st.is_regular && same_size st.size rec.uncompressed_size && eqb (crc32_ieee b) rec.crc32
  ]

  -- Whether an existing file is left as it is.
  unfoldable pub is_skipped : Extraction → F.State → Bytes → FileRecord → Bool
  unfolding is_identical
  is_skipped opts s path rec = elim (F.stat s path) [
    | err e ↦ false
    | ok st ↦ opts.no_overwrite || is_identical s path rec st
  ]

  abbrev pub copied : FileRecord → Reader → Reader → Option GoError → Option GoError
  copied rec comp decoded write_error =
      elim (first_error (first_error write_error decoded.failure) comp.failure) [
        | some e ↦ some (wrap (classify_part_error e comp.failure write_error))
        | none ↦ check_content rec (length comp.content) decoded.content
      ]

  -- The copy of the decoded payload into the temporary file, and the checks.
  abbrev pub fill_temp :
      F.Handle → FileRecord → Reader → Reader → F.State → F.State × Option GoError
  fill_temp w rec comp decoded s =
      let (s', e) = F.write s w decoded.content in (s', copied rec comp decoded e)

  -- `Chmod` and `Sync` after it.
  abbrev pub seal_temp : F.Handle → F.State × Option GoError → F.State × Option GoError
  seal_temp w t =
      and_also (and_also t (λ s. wrap_error (F.chmod s w))) (λ s. wrap_error (F.sync s w))

  -- The part of `extractOne` with the temporary file.
  abbrev pub replace_file :
      FileRecord → Bytes → Reader → Reader → F.State × Result F.Handle → F.State × Option GoError
  replace_file rec path comp decoded (s, err e) = (s, some (wrap e))
  replace_file rec path comp decoded (s, ok w) =
      publish F wrap w path (seal_temp w (fill_temp w rec comp decoded s))

  -- What `extractOne` is to do after it has looked at everything and before it writes.
  pub record Plan : Type 0 where
    pub out : CleanPath
    pub rec : FileRecord
    pub comp : Reader
    pub decoded : Reader

  module _ (S : Storage) (box : Box) (parts : PartReader) (opts : Extraction)
      (md : BackupMetadata) where
    -- The header of an opened part, and the readers of its payload.
    unfoldable pub read_part : CleanPath → FileRecord → Bytes → Reader → Result Plan
    unfolding check_part_header classify_part_error
    read_part out rec password rc = elim (parts.read_header rc) [
      | err e ↦ err (wrap (classify_part_error e (parts.stream_failure rc) none))
      | ok (fh, used) ↦
          let comp = payload rec.compressed_size used rc in
          elim (check_part_header fh password) [
            | err e ↦ err (wrap e)
            | ok passed ↦ ok (record {
              out = out;
              rec = rec;
              comp = comp;
              decoded = parts.decode fh password comp;
            })
          ]
    ]

    -- The password and the part of a record.
    unfoldable pub open_part : S.State → CleanPath → FileRecord → Bytes → Result Plan
    unfolding read_part decrypt_part_password
    open_part store out rec key = elim (decrypt_part_password box rec opts.private_key) [
      | err e ↦ err (wrap e)
      | ok password ↦ elim (S.open_reader store (part_key_for key)) [
        | err e ↦ err (wrap e)
        | ok rc ↦ read_part out rec password rc
      ]
    ]

    abbrev pub planned : Result Plan → Result (Option Plan)
    planned (ok plan) = ok (some plan)
    planned (err e) = err e

    -- `extractOne` up to where it writes; no plan if the file is to be left as it is.
    unfoldable pub plan_file : S.State → F.State → Bytes → Bytes → Result (Option Plan)
    unfolding open_part is_skipped safe_path render
    plan_file store s path key = elim (safe_path opts.extract_dir path) [
      | err e ↦ err e
      | ok out ↦ elim (Dict.lookup key md.files) [
        | none ↦ err (wrap (sentinel corrupt_metadata))
        | some rec ↦
            if is_skipped opts s (render out) rec
            then ok none
            else planned (open_part store out rec key)
      ]
    ]

    abbrev pub dir_of : Plan → Bytes
    dir_of plan = render (without_last plan.out)

    abbrev pub answered : Plan → F.State × Option GoError → F.State × Result (Option Bytes)
    answered plan (s, some e) = (s, err e)
    answered plan (s, none) = (s, ok (some (dir_of plan)))

    abbrev pub after_mkdir : Plan → F.State × Option GoError → F.State × Result (Option Bytes)
    after_mkdir plan (s, some e) = (s, err (wrap e))
    after_mkdir plan (s, none) = answered plan (
        replace_file plan.rec (render plan.out) plan.comp plan.decoded
          (F.create_temp s (dir_of plan) restore_temp))

    -- The writing of a planned file, and the folder that it has touched.
    unfoldable pub write_file : Plan → F.State → F.State × Result (Option Bytes)
    unfolding without_last render check_content
    write_file plan s = after_mkdir plan (F.mkdir_all s (dir_of plan))

    -- `extractOne`
    unfoldable pub extract_one : S.State → Bytes → Bytes → F.State → F.State × Result (Option Bytes)
    unfolding plan_file write_file
    extract_one store path key s = elim (plan_file store s path key) [
      | err e ↦ (s, err e)
      | ok none ↦ (s, ok none)
      | ok (some plan) ↦ write_file plan s
    ]
