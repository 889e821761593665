-- ===== src/Restore/Zipped.antt =====
-- tsync/restore.go: `restoreToZip`, the restore to one zip file. The zip library's writer is a
-- parameter, which answers as a function of the calls that it has seen.
pub mod Whole
mod Tests
use t_sync_sdk_go.Base.{
  ℕ, ◌+◌, ◌/◌, ◌%◌, Bool, true, false, ◌&&◌, ◌||◌, not, Option, none, some, List, [], ◌∷◌, ◌++◌,
  if◌then◌else◌, eqb, ℤ, pos, sub_int64, drop, bytes_eq,
}
use t_sync_sdk_go.Base.Bytes.{Bytes, ends_in_slash, slash}
use t_sync_sdk_go.Base.Dict
use t_sync_sdk_go.Base.Dict.{Dict}
use t_sync_sdk_go.Errors.{
  GoError, sentinel, wrap, both, corrupt_metadata, corrupt_part, Result, ok, err,
}
use t_sync_sdk_go.Streams.{Reader, read_full}
use t_sync_sdk_go.Metadata.{FileRecord, BackupMetadata, Storage}
use t_sync_sdk_go.Names.{part_key_for}
use t_sync_sdk_go.Files.{and_also}
use t_sync_sdk_go.Crypto.{Box}
use t_sync_sdk_go.Restore.{
  PartHeader, check_part_header, decrypt_part_password, classify_part_error,
  is_skippable_restore_error, incomplete_run_error,
}
use t_sync_sdk_go.Restore.Extract.{is_length}

-- A call of the output's `zip.Writer`: `CopyRawPart` of a part under a path, from a password to a
-- new one; `Create` of a folder's entry, with its `Close`; and `Close`.
pub data ZipCall : Type 0 where
  copied : Bytes → Bytes → Bytes → Reader → ZipCall
  folder : Bytes → ZipCall
  finished : ZipCall

-- How a `CopyRawPart` ends: how many bytes it has taken from the part beyond what was read before,
-- its error, and the errors of the stream and of the output.
pub record CopyAnswer : Type 0 where
  pub consumed : ℕ
  pub failure : Option GoError
  pub read_error : Option GoError
  pub write_error : Option GoError

-- What the restore takes from the zip library.
pub record ZipOutput : Type 0 where
  pub read_header : Reader → Result (PartHeader × ℕ)
  pub stream_failure : Reader → Option GoError
  pub probe : PartHeader → Bytes → Bytes → Option GoError
  pub copy : List ZipCall → ZipCall → CopyAnswer
  pub create : List ZipCall → ZipCall → Option GoError
  pub finish : List ZipCall → Option GoError

-- The options that `restoreToZip` reads.
pub record ZipOptions : Type 0 where
  pub private_key : Bytes
  pub new_password : Bytes
  pub skip_decryption_errors : Bool

abbrev is_encrypted : PartHeader → Bool
is_encrypted fh = eqb (fh.flags % 2) 1

-- A part whose headers have been read and checked.
pub record Checked : Type 0 where
  pub password : Bytes
  pub header : PartHeader
  pub part : Reader

-- The name of a folder's entry.
unfoldable pub folder_name : Bytes → Bytes
unfolding ends_in_slash
folder_name d = if ends_in_slash d then d else d ++ slash ∷ []

-- The bytes of a part beyond its header and the declared size: none, or those of a data descriptor.
unfoldable pub is_valid_trailing : PartHeader → ℤ → Bool
is_valid_trailing fh trailing =
    if eqb (fh.flags / 8 % 2) 1
    then is_length trailing 12
      || is_length trailing 16
      || is_length trailing 20
      || is_length trailing 24
    else is_length trailing 0

-- The error of a copy that has ended.
unfoldable pub after_copy : FileRecord → Checked → CopyAnswer → Option GoError
unfolding is_valid_trailing classify_part_error
after_copy rec src a =
    let taken = (if is_encrypted src.header then 12 else 0) + a.consumed in
    elim a.failure [
      | some e ↦ some (wrap (classify_part_error e a.read_error a.write_error))
      | none ↦
          if is_valid_trailing src.header (sub_int64 (pos taken) rec.compressed_size)
          then none
          else some (wrap (sentinel corrupt_part))
    ]

-- The outcome of `copyOne`: the calls so far, whether anything may have been written, and the error.
pub record Copy : Type 0 where
  pub calls : List ZipCall
  pub started : Bool
  pub failure : Option GoError

-- A file to restore, with the store as it is found, and what the context says before its copy and
-- after a failure of it.
pub record ZipTask (S : Storage) : Type 0 where
  pub path : Bytes
  pub key : Bytes
  pub store : S.State
  pub before : Option GoError
  pub after : Option GoError

module _ (S : Storage) (box : Box) (out : ZipOutput) (opts : ZipOptions) (md : BackupMetadata) where
  -- The check of the password against the encryption header.
  abbrev probed : PartHeader → Bytes → Reader → Bytes × Option GoError → Option GoError
  probed fh password rest (b, some e) = some (wrap (classify_part_error e rest.failure none))
  probed fh password rest (b, none) = elim (out.probe fh password b) [
    | none ↦ none
    | some e ↦ some (wrap (classify_part_error e none none))
  ]

  abbrev rest_of : ℕ → Reader → Reader
  rest_of used rc = record { content = drop used rc.content; failure = rc.failure }

  -- The headers of an opened part.
  unfoldable pub read_checked : Bytes → Reader → Result Checked
  unfolding check_part_header classify_part_error
  read_checked password rc = elim (out.read_header rc) [
    | err e ↦ err (wrap (classify_part_error e (out.stream_failure rc) none))
    | ok (fh, used) ↦ elim (check_part_header fh password) [
      | err e ↦ err (wrap e)
      | ok passed ↦
          let rest = rest_of used rc in
          elim (if is_encrypted fh then probed fh password rest (read_full 12 rest) else none) [
            | some e ↦ err e
            | none ↦ ok (record { password = password; header = fh; part = rc })
          ]
    ]
  ]

  -- `copyOne` up to where it writes.
  unfoldable pub open_checked : S.State → Bytes → Result (FileRecord × Checked)
  unfolding read_checked decrypt_part_password
  open_checked store key = elim (Dict.lookup key md.files) [
    | none ↦ err (wrap (sentinel corrupt_metadata))
    | some rec ↦ elim (decrypt_part_password box rec opts.private_key) [
      | err e ↦ err (wrap e)
      | ok password ↦ elim (S.open_reader store (part_key_for key)) [
        | err e ↦ err (wrap e)
        | ok rc ↦ elim (read_checked password rc) [ err e ↦ err e | ok src ↦ ok (rec, src) ]
      ]
    ]
  ]

  abbrev pub copy_checked : Bytes → List ZipCall → Result (FileRecord × Checked) → Copy
  copy_checked path calls (err e) = record { calls = calls; started = false; failure = some e }
  copy_checked path calls (ok (rec, src)) =
      let call = copied path src.password opts.new_password src.part in
      record {
        calls = calls ++ call ∷ [];
        started = true;
        failure = after_copy rec src (out.copy calls call);
      }

  -- `copyOne`
  unfoldable pub copy_one : ZipTask S → List ZipCall → Copy
  unfolding open_checked after_copy
  copy_one t calls = copy_checked t.path calls (open_checked t.store t.key)

  abbrev cut_short : Option GoError → GoError → GoError
  cut_short none e = e
  cut_short (some x) e = incomplete_run_error (some (both x e))

  -- What the loop does after a copy, where `rest` is the rest of it.
  abbrev pub settle_copy :
      ZipTask S → Copy → List ZipCall × Option GoError → List ZipCall × Option GoError
  settle_copy t c rest = elim c.failure [
    | none ↦ rest
    | some e ↦
        if not c.started && opts.skip_decryption_errors && is_skippable_restore_error e
        then rest
        else (c.calls, some (cut_short t.after e))
  ]

  -- The loop over the files.
  unfoldable pub copy_all : List (ZipTask S) → List ZipCall → List ZipCall × Option GoError
  unfolding copy_one is_skippable_restore_error incomplete_run_error
  copy_all [] calls = (calls, none)
  copy_all (t ∷ ts) calls =
      let c = copy_one t calls in
      let rest = copy_all ts c.calls in
      elim t.before [
        | some e ↦ (calls, some (incomplete_run_error (some e)))
        | none ↦ settle_copy t c rest
      ]

  -- The empty folders.
  unfoldable pub add_folders : List Bytes → List ZipCall → List ZipCall × Option GoError
  unfolding folder_name
  add_folders [] calls = (calls, none)
  add_folders (d ∷ ds) calls =
      let rest = add_folders ds (calls ++ folder (folder_name d) ∷ []) in
      elim (out.create calls (folder (folder_name d))) [
        | some e ↦ (calls ++ folder (folder_name d) ∷ [], some (wrap e))
        | none ↦ rest
      ]

  abbrev wrapped : Option GoError → Option GoError
  wrapped none = none
  wrapped (some e) = some (wrap e)

  abbrev pub close_output : List ZipCall → List ZipCall × Option GoError
  close_output calls = (calls ++ finished ∷ [], wrapped (out.finish calls))

  abbrev pub stopped : Option GoError → Option GoError
  stopped none = none
  stopped (some e) = some (incomplete_run_error (some e))

  -- `restoreToZip`, where the context says `caller` after the last file.
  unfoldable pub restore_to_zip :
      List (ZipTask S) → List Bytes → Option GoError → List ZipCall × Option GoError
  unfolding copy_all add_folders
  restore_to_zip tasks dirs caller = and_also (copy_all tasks []) (λ calls.
      and_also (calls, stopped caller) (λ calls1. and_also (add_folders dirs calls1) close_output))
