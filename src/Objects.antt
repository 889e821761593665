-- ===== src/Objects.antt =====
-- tsync/storage.go: `ObjectStorage`, the storage over a client of an object store, and
-- `StorageReaderAt`; the interface `ObjectStorageClient` of storage_clients/registry.go.
pub mod Keys
pub mod Ranges
mod Tests
use t_sync_sdk_go.Base.{
  ℕ, zero, ◌+◌, ◌≡◌, ◌≢◌, ◌≤◌, ◌<◌, Bool, true, false, ◌&&◌, not, Option, none, some, List, [], ◌∷◌,
  ◌++◌, if◌then◌else◌, eqb, ltz, ℤ, pos, negsuc, add_int64, length, take,
}
use t_sync_sdk_go.Base.Bytes.{Bytes, slash, ends_in_slash, trim_leading_slash, trim_prefix}
use t_sync_sdk_go.Errors.{
  GoError, sentinel, is, not_found, eof, unexpected_eof, Result, ok, err, ◌>>=◌, sentinel_eq,
}
use t_sync_sdk_go.Streams.{Reader, whole, read_all, read_full, ReaderAt}
use t_sync_sdk_go.Metadata.{FileInfo, Storage}

-- `ObjectInfo`
pub record ObjectInfo : Type 0 where
  pub name : Bytes
  pub size : ℤ

-- `ObjectStorageClient`, without the calls that only the buffered writer makes and those that the
-- storage does not make.
pub record ObjectClient : Type 1 where
  pub State : Type 0
  pub list_objects : State → Bytes → Bytes → Result (List ObjectInfo)
  pub get_object_size : State → Bytes → Bytes → Result ℤ
  pub get_object_range : State → Bytes → Bytes → ℤ → ℤ → Result Reader
  pub put_object : State → Bytes → Bytes → Bytes → State × Option GoError
  pub delete_object : State → Bytes → Bytes → State × Option GoError

-- `ObjectStorage`, beside its client.
pub record ObjectStorage : Type 0 where
  pub bucket : Bytes
  pub prefix : Bytes

abbrev is_empty : Bytes → Bool
is_empty [] = true
is_empty (x ∷ s) = false

-- `NewObjectStorage`
unfoldable pub new_object_storage : Bytes → Bytes → ObjectStorage
new_object_storage bucket prefix = record {
  bucket = bucket;
  prefix =
      if not (is_empty prefix) && not (ends_in_slash prefix) then prefix ++ slash ∷ [] else prefix;
}

-- `resolveKey`
unfoldable pub resolve_key : ObjectStorage → Bytes → Bytes
resolve_key o path = o.prefix ++ trim_leading_slash path

module _ (C : ObjectClient) (o : ObjectStorage) where
  abbrev found : Result ℤ → Result Bool
  found (ok n) = ok true
  found (err e) = if is e not_found then ok false else err e

  -- `ObjectStorage.Exists`
  unfoldable pub exists : C.State → Bytes → Result Bool
  exists s path = found (C.get_object_size s o.bucket (resolve_key o path))

  -- `ObjectStorage.OpenReader`
  unfoldable pub open_reader : C.State → Bytes → Result Reader
  open_reader s path = C.get_object_range s o.bucket (resolve_key o path) (pos 0) (negsuc 0)

  -- `ObjectStorage.Read`
  unfoldable pub read : C.State → Bytes → Result Bytes
  read s path = do
    rc ← C.get_object_range s o.bucket (resolve_key o path) (pos 0) (negsuc 0)
    read_all rc

  -- `ObjectStorage.Write`
  unfoldable pub write : C.State → Bytes → Bytes → C.State × Option GoError
  write s path b = C.put_object s o.bucket (resolve_key o path) b

  abbrev unless_missing : Option GoError → Option GoError
  unless_missing none = none
  unless_missing (some e) = if is e not_found then none else some e

  -- `ObjectStorage.Delete`
  unfoldable pub delete : C.State → Bytes → C.State × Option GoError
  delete s path =
      let (s', e) = C.delete_object s o.bucket (resolve_key o path) in (s', unless_missing e)

  -- The loop of `List`, at the time `now`.
  unfoldable pub file_infos : ℕ → List ObjectInfo → List FileInfo
  file_infos now [] = []
  file_infos now (obj ∷ objs) =
      record { name = trim_prefix obj.name o.prefix; size = obj.size; last_modified = now }
      ∷ file_infos now objs

  -- `ObjectStorage.List`
  unfoldable pub list : ℕ → C.State → Bytes → Result (List FileInfo)
  unfolding file_infos
  list now s prefix = do
    objs ← C.list_objects s o.bucket (resolve_key o prefix)
    ok (file_infos now objs)

  -- `ObjectStorage.Size`
  unfoldable pub size : C.State → Bytes → Result ℤ
  size s path = C.get_object_size s o.bucket (resolve_key o path)

  -- `endByte` of `ReadRange`
  abbrev pub end_byte : ℤ → ℤ → ℤ
  end_byte start len =
      if ltz (pos 0) len then add_int64 (add_int64 start len) (negsuc 0) else negsuc 0

  abbrev is_zero : ℤ → Bool
  is_zero (pos n) = eqb n 0
  is_zero (negsuc n) = false

  -- `ObjectStorage.ReadRange`
  unfoldable pub read_range : C.State → Bytes → ℤ → ℤ → Result Reader
  read_range s path start len =
      if is_zero len
      then ok (whole [])
      else C.get_object_range s o.bucket (resolve_key o path) start (end_byte start len)

  -- `ObjectStorage` as a `Storage`; its listings are made at the time `now`.
  abbrev pub object_store : ℕ → Storage
  object_store now = record {
    State = C.State;
    read = read;
    write = write;
    delete = delete;
    list = list now;
    exists = exists;
    open_reader = open_reader;
    size = size;
    read_range = read_range;
  }

-- io.ErrUnexpectedEOF becomes io.EOF.
abbrev end_of_input : Option GoError → Option GoError
end_of_input (some (sentinel unexpected_eof)) = some (sentinel eof)
end_of_input e = e

abbrev pub at_end : Bytes × Option GoError → Bytes × Option GoError
at_end (b, e) = (b, end_of_input e)

-- `StorageReaderAt.ReadAt`
unfoldable pub storage_read_at : (S : Storage) → S.State → Bytes → ReaderAt
storage_read_at S s path n start =
    if eqb n 0 then ([], none) else elim (S.read_range s path start (pos n)) [
      | err e ↦ ([], some e)
      | ok rc ↦ at_end (read_full n rc)
    ]
