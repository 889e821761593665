-- ===== src/Backup/Upload.antt =====
-- tsync/backup.go: the upload of one entry (`uploadPart`, `uploadOnce`, `processFile`, `process`)
-- in a run of `RunBackup`.
use t_sync_sdk_go.Base.{
  ℕ, Bool, true, false, ◌||◌, not, Option, none, some, [], ◌∷◌, ◌==◌, bytes_eq, if◌then◌else◌, eqb,
  length, ℤ, pos, negsuc,
}
use t_sync_sdk_go.Base.Bytes.{Bytes, ends_in_slash}
use t_sync_sdk_go.Base.Dict
use t_sync_sdk_go.Base.Dict.{Dict}
use t_sync_sdk_go.Errors.{
  GoError, sentinel, wrap, both, invalid_options, source_changed, Result, ok, err,
}
use t_sync_sdk_go.Metadata.{FileRecord, Storage}
use t_sync_sdk_go.Names.{file_key_for, part_key_for, resolve_compression}
use t_sync_sdk_go.Streams.{Reader}
use t_sync_sdk_go.Backup.Part.{
  Purpose, hashing, uploading, SourceEntry, Zip, Writers, crc32_ieee, copy_raw_part,
  write_raw_compressed_part, write_compressed_part, abort_writer,
}

-- The read-only part of `backupRun`.
pub record Pass : Type 0 where
  pub get_compression_level : Option (Bytes → Option ℤ)
  pub comp_method : ℕ
  pub comp_level : ℤ
  pub eph_pub_key : Bytes
  pub encrypted_zip_pass : Bytes
  pub clear_zip_pass : Bytes
  pub key_id : Bytes
  pub existing : Dict Bytes FileRecord

abbrev pub bad_options : GoError
bad_options = wrap (sentinel invalid_options)

abbrev level_for : Option (Bytes → Option ℤ) → Bytes → Option ℤ
level_for none path = none
level_for (some f) path = f path

-- `compressionFor`
unfoldable pub compression_for : Pass → Bytes → Result (ℕ × ℤ)
compression_for pass path = elim (level_for pass.get_compression_level path) [
  | none ↦ ok (pass.comp_method, pass.comp_level)
  | some lvl ↦ elim (resolve_compression lvl) [ err x ↦ err (wrap x) | ok r ↦ ok r ]
]

abbrev plain_open : Option (Purpose → Result Reader) → Result Reader
plain_open none = err bad_options
plain_open (some f) = f uploading

abbrev compressed_open : Option (Result Reader) → Result Reader → Result Reader
compressed_open none other = other
compressed_open (some r) other = r

abbrev raw_open : Option (Result Reader) → Result Reader
raw_open none = err bad_options
raw_open (some r) = r

-- The choice of the closure in `uploadPart`, and its call.
unfoldable pub open_entry : SourceEntry → Result Reader
open_entry entry =
    if entry.is_encrypted_raw
    then raw_open entry.open_raw
    else compressed_open entry.open_raw_compressed (plain_open entry.open_content)

-- The CRC, the uncompressed and the compressed size of a part.
abbrev Sizes : Type 0
Sizes = ℕ × ℤ × ℤ

abbrev key_id_of : Bytes → Option Bytes
key_id_of [] = none
key_id_of (c ∷ s) = some (c ∷ s)

abbrev record_of : Pass → SourceEntry → Sizes → FileRecord
record_of pass entry (crc, uncompressed, compressed) = record {
  ephemeral_public_key = pass.eph_pub_key;
  encrypted_zip_password = pass.encrypted_zip_pass;
  crc32 = crc;
  compressed_size = compressed;
  uncompressed_size = uncompressed;
  last_modified = entry.last_modified;
  key_id = key_id_of pass.key_id;
}

abbrev is_present : {A : Type 0} → Option A → Bool
is_present none = false
is_present (some a) = true

-- `errors.Join(err, abortWriter(w))`
abbrev joined : GoError → Option GoError → GoError
joined e none = wrap e
joined e (some f) = both e f

-- `isDirEntry`
unfoldable pub is_dir_entry : SourceEntry → Bool
is_dir_entry entry = entry.is_dir || ends_in_slash entry.path

-- The result of `process`: `backupResult` in its three shapes.
pub data Outcome : Type 0 where
  folder : Bytes → Outcome
  stored : Bytes → Bytes → FileRecord → Outcome
  stopped : Bytes → GoError → Outcome

-- What happens while a worker processes an entry, after its look at the context: whether the caller
-- cancels, and whether a `select` on an upload that is done and a context that has ended takes the
-- latter.
pub record Meanwhile : Type 0 where
  pub cancels : Option GoError
  pub notices : Bool

abbrev pub undisturbed : Meanwhile
undisturbed = record { cancels = none; notices = false }

-- What comes of the `select` in `uploadOnce`.
abbrev pub waited : Bool → Option GoError → Result FileRecord → Result FileRecord
waited true (some c) result = err c
waited true none result = result
waited false cause result = result

module _ (S : Storage) (W : Writers S) (zip : Zip) (pass : Pass) where
  -- The three ways in which `uploadPart` fills the part.
  unfoldable pub fill_part :
      ℕ × ℤ → W.Handle → Reader → SourceEntry → S.State → S.State × Result Sizes
  fill_part (method, level) w rc entry s =
      if entry.is_encrypted_raw
      then (let (s', e) = copy_raw_part S W w rc entry s in
          (
            s',
            elim e [ some x ↦ err x | none ↦ ok (entry.crc32, entry.size, entry.compressed_size) ],
          ))
      else if is_present entry.open_raw_compressed
      then (let (s', r) = write_raw_compressed_part S W zip pass.clear_zip_pass w rc entry s in
          (s', elim r [ err x ↦ err x | ok n ↦ ok (entry.crc32, entry.size, n) ]))
      else write_compressed_part S W zip pass.clear_zip_pass method level w rc entry s

  -- The check of the content against the key.
  unfoldable pub check_key : Bytes → Result Sizes → Result Sizes
  check_key key (err e) = err e
  check_key key (ok sizes) =
      if file_key_for sizes.0 sizes.1 == key then ok sizes else err (wrap (sentinel source_changed))

  -- `uploadPart` from the writer on: what has been written is committed or discarded.
  unfoldable pub settle :
      W.Handle → SourceEntry → Result Sizes → S.State → S.State × Result FileRecord
  settle w entry (err e) s = let (s', f) = abort_writer S W w s in (s', err (joined e f))
  settle w entry (ok sizes) s =
      let (s', e) = W.close s w in
      (s', elim e [ some x ↦ err (wrap x) | none ↦ ok (record_of pass entry sizes) ])

  unfoldable pub write_part :
      ℕ × ℤ → Bytes → Reader → SourceEntry → S.State → S.State × Result FileRecord
  write_part comp key rc entry s =
      let (s', opened) = W.open_writer s (part_key_for key) in
      elim opened [
        | err e ↦ (s', err (wrap e))
        | ok w ↦
            let (s'', sizes) = fill_part comp w rc entry s' in
            settle w entry (check_key key sizes) s''
      ]

  -- `uploadPart`
  unfoldable pub upload_part : Bytes → SourceEntry → S.State → S.State × Result FileRecord
  upload_part key entry s = elim (compression_for pass entry.path) [
    | err e ↦ (s, err e)
    | ok comp ↦ elim (open_entry entry) [
      | err e ↦ (s, err (wrap e))
      | ok rc ↦ write_part comp key rc entry s
    ]
  ]

  -- The shared state of a run: the store, the uploads so far by key, each with its result, and the
  -- cause of the run context's cancellation.
  pub record RunState : Type 0 where
    pub store : S.State
    pub flights : Dict Bytes (Result FileRecord)
    pub cause : Option GoError

  -- `uploadOnce`: the first caller of a key uploads it, every other waits for the first's result; if
  -- the context has ended by then, the `select` may take that branch, as `notices` says.
  unfoldable pub upload_once : Bytes → SourceEntry → Bool → RunState → RunState × Result FileRecord
  upload_once key entry notices st = elim (Dict.lookup key st.flights) [
    | some result ↦ (st, waited notices st.cause result)
    | none ↦
        let (s', result) = upload_part key entry st.store in
        (record st { store = s'; flights = Dict.insert key result st.flights }, result)
  ]

  abbrev hash_content : Reader → Result Bytes
  hash_content rc = elim rc.failure [
    | some e ↦ err (wrap e)
    | none ↦ ok (file_key_for (crc32_ieee rc.content) (pos (length rc.content)))
  ]

  abbrev is_zero : ℤ → Bool
  is_zero (pos n) = eqb n 0
  is_zero (negsuc n) = false

  abbrev hashed_key : Option (Purpose → Result Reader) → Result Bytes
  hashed_key none = err bad_options
  hashed_key (some f) = elim (f hashing) [ err e ↦ err (wrap e) | ok rc ↦ hash_content rc ]

  -- The key of an entry in `processFile`.
  unfoldable pub key_of : SourceEntry → Result Bytes
  key_of entry =
      if entry.is_encrypted_raw
      then (if is_present entry.open_raw
          then ok (file_key_for entry.crc32 entry.size)
          else err bad_options)
      else if not (eqb entry.crc32 0) || is_zero entry.size
      then ok (file_key_for entry.crc32 entry.size)
      else hashed_key entry.open_content

  -- `processFile`
  unfoldable pub process_file :
      SourceEntry → Bool → RunState → RunState × Result (Bytes × FileRecord)
  process_file entry notices st = elim (key_of entry) [
    | err e ↦ (st, err e)
    | ok key ↦ elim (Dict.lookup key pass.existing) [
      | some rec ↦ (st, ok (key, rec))
      | none ↦
          let (st', result) = upload_once key entry notices st in
          (st', elim result [ err e ↦ err e | ok rec ↦ ok (key, rec) ])
    ]
  ]

  -- The run context's cause stays the first.
  abbrev pub cancel_with : Option GoError → RunState → RunState
  cancel_with o st = record st { cause = elim st.cause [ some c ↦ some c | none ↦ o ] }

  abbrev pub cancel : GoError → RunState → RunState
  cancel e st = cancel_with (some e) st

  -- `process`, with what the caller does meanwhile.
  unfoldable pub process : SourceEntry → Meanwhile → RunState → RunState × Outcome
  process entry m st = elim st.cause [
    | some c ↦ (st, stopped entry.path c)
    | none ↦
        if is_dir_entry entry
        then (cancel_with m.cancels st, folder entry.path)
        else let (st', result) = process_file entry m.notices (cancel_with m.cancels st) in
          elim result [
            | err e ↦ (cancel e st', stopped entry.path e)
            | ok pair ↦ (st', stored entry.path pair.0 pair.1)
          ]
  ]
