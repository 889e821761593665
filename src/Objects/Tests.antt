-- ===== src/Objects/Tests.antt =====
-- Tests of the object storage adapter.
use native.Mathlib.Decide.{ℕ_discrete}
use t_sync_sdk_go.Base.{
  ◌+◌, ◌-◌, refl, Option, none, some, List, [], ◌∷◌, arith, ℤ, pos, negsuc, length, take, drop,
  Bytes-discrete, decide_lists, bytes_eq,
}
use t_sync_sdk_go.Base.Bytes.{Bytes, codes, trim_leading_slash, ends_in_slash}
use t_sync_sdk_go.Base.Dict
use t_sync_sdk_go.Base.Dict.{Dict, lookup-insert, lookup-erase}
use t_sync_sdk_go.Errors.{sentinel, not_found, Result, ok, err}
use t_sync_sdk_go.Streams.{Reader, whole, ReadsAt}
use t_sync_sdk_go.Metadata.{IsLawful}
use t_sync_sdk_go.Objects.{
  ObjectInfo, ObjectClient, ObjectStorage, new_object_storage, resolve_key, object_store,
  storage_read_at,
}
use t_sync_sdk_go.Objects.Keys.{KeepsObjects, object_store-IsLawful}
use t_sync_sdk_go.Objects.Ranges.{ServesRanges, read_at-ReadsAt}

abbrev span : ℤ → ℤ → Bytes → Bytes
span (pos start) (pos end) b = take (end + 1 - start) (drop start b)
span (pos start) (negsuc n) b = drop start b
span (negsuc start) end b = b

abbrev ranged : ℤ → ℤ → Option Bytes → Result Reader
ranged start end none = err (sentinel not_found)
ranged start end (some b) = ok (whole (span start end b))

abbrev object_infos : Dict Bytes Bytes → List ObjectInfo
object_infos [] = []
object_infos ((k, b) ∷ d) = record { name = k; size = pos (length b) } ∷ object_infos d

-- A client with one bucket.
abbrev client : ObjectClient
client = record {
  State = Dict Bytes Bytes;
  list_objects = λ s b prefix. ok (object_infos s);
  get_object_size = λ s b k. err (sentinel not_found);
  get_object_range = λ s b k start end. ranged start end (Dict.lookup k s);
  put_object = λ s b k d. (Dict.insert k d s, none);
  delete_object = λ s b k. (Dict.erase k s, none);
}

client-KeepsObjects : KeepsObjects client
client-KeepsObjects = record {
  get-put = λ s b k d fine. ground (arith, lookup-insert k k d s);
  get-put_other = λ s b k j d start end other. ground (arith, lookup-insert j k d s);
  get-delete_other = λ s b k j start end other. ground (arith, lookup-erase j k s);
}

abbrev store : ObjectStorage
store = new_object_storage (codes "bucket") (codes "backups")

abbrev objects : Dict Bytes Bytes
objects = (codes "backups/.tsync", codes "metadata") ∷ []

object_store-IsLawful_example : IsLawful (object_store client store 9)
object_store-IsLawful_example = object_store-IsLawful client store 9 client-KeepsObjects

serves :
    ServesRanges client objects
      (codes "bucket")
      (resolve_key store (codes ".tsync"))
      (codes "metadata")
unfolding resolve_key new_object_storage ends_in_slash trim_leading_slash Dict.lookup Bytes-discrete
    decide_lists ℕ_discrete
serves start end ordered inside = refl

read_at-ReadsAt_example :
    ReadsAt
      (storage_read_at (object_store client store 9) objects (codes ".tsync"))
      (codes "metadata")
unfolding new_object_storage
read_at-ReadsAt_example =
    read_at-ReadsAt client store 9 objects (codes ".tsync") (codes "metadata") serves
