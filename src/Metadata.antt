-- ===== src/Metadata.antt =====
-- The messages of gen/go/com/github/abyii/tsync/v2/metadata.pb.go, as tsync/ uses them, and
-- `loadMetadata` of tsync/client.go. An instant is a number of nanoseconds from Go's zero time.
use t_sync_sdk_go.Base.{ℕ, Bool, true, ◌≡◌, ◌≢◌, Option, none, some, List, if◌then◌else◌, eqb, ℤ}
use mathlib.Core.Option
use mathlib.Core.List
use t_sync_sdk_go.Streams.{Reader}
use t_sync_sdk_go.Base.Bytes.{Bytes, codes, is_relative}
use t_sync_sdk_go.Base.Dict.{Dict}
use t_sync_sdk_go.Errors.{GoError, sentinel, corrupt_metadata, schema, wrap, Result, ok, err, ◌>>=◌}

pub record FileLeaf : Type 0 where
  pub crc32 : ℕ
  pub uncompressed_size : ℤ

-- The `node` of a tree entry: a file (whose leaf may be nil), a subtree, or not set.
pub data EntryNode : Type 0 where
  file : Option FileLeaf → EntryNode
  subtree : Bytes → EntryNode
  unset : EntryNode

pub record TreeEntry : Type 0 where
  pub name : Bytes
  pub node : EntryNode

pub record TreeNode : Type 0 where
  pub entries : List TreeEntry

pub record FileRecord : Type 0 where
  pub ephemeral_public_key : Bytes
  pub encrypted_zip_password : Bytes
  pub crc32 : ℕ
  pub compressed_size : ℤ
  pub uncompressed_size : ℤ
  pub last_modified : ℕ
  pub key_id : Option Bytes

pub record Version : Type 0 where
  pub snowflake_id : ℕ
  pub backup_timestamp : ℕ
  pub root_tree_hash : Bytes
  pub preceding_version_id : ℕ
  pub label : Bytes

pub record BackupMetadata : Type 0 where
  pub versions : Dict Bytes Version
  pub trees : Dict Bytes TreeNode
  pub files : Dict Bytes FileRecord
  pub public_keys : Dict Bytes Bytes
  pub schema_version : ℕ
  pub last_updated : ℕ

-- What the SDK takes from the protobuf library and from SHA-256: the deterministic encoding of a
-- tree node, the digest of its bytes in hexadecimal, and the coding of the whole metadata.
pub record Codec : Type 0 where
  pub marshal_node : TreeNode → Option Bytes
  pub digest : Bytes → Bytes
  pub marshal : BackupMetadata → Option Bytes
  pub unmarshal : Bytes → Option BackupMetadata

-- The hash of a tree node, unless it cannot be encoded.
abbrev pub tree_hash : Codec → TreeNode → Option Bytes
tree_hash codec node = Option.map codec.digest (codec.marshal_node node)

-- `FileInfo`
pub record FileInfo : Type 0 where
  pub name : Bytes
  pub size : ℤ
  pub last_modified : ℕ

abbrev pub names_of : List FileInfo → List Bytes
names_of = List.map (λ f. f.name)

-- The store of the `Storage` interface, as a state and its operations.
pub record Storage : Type 1 where
  pub State : Type 0
  pub read : State → Bytes → Result Bytes
  pub write : State → Bytes → Bytes → State × Option GoError
  pub delete : State → Bytes → State × Option GoError
  pub list : State → Bytes → Result (List FileInfo)
  pub exists : State → Bytes → Result Bool
  pub open_reader : State → Bytes → Result Reader
  pub size : State → Bytes → Result ℤ
  pub read_range : State → Bytes → ℤ → ℤ → Result Reader

-- What the comments on the interface promise: a write is all or nothing, and neither a write nor a
-- delete touches another object. Paths are relative: "/a" and "a" may name one object.
pub record IsLawful (S : Storage) : Type 0 where
  pub read-write :
      (s : S.State) (p d : Bytes) → (S.write s p d).1 ≡ none → S.read (S.write s p d).0 p ≡ ok d
  pub read-write_other :
      (s : S.State) (p q d : Bytes)
      → is_relative p ≡ true
      → is_relative q ≡ true
      → q ≢ p
      → S.read (S.write s p d).0 q ≡ S.read s q
  pub read-delete_other :
      (s : S.State) (p q : Bytes)
      → is_relative p ≡ true
      → is_relative q ≡ true
      → q ≢ p
      → S.read (S.delete s p).0 q ≡ S.read s q

-- The protobuf library reads back what it has written.
abbrev pub RoundTrips : Codec → Type 0
RoundTrips codec =
    (md : BackupMetadata) (b : Bytes) → codec.marshal md ≡ some b → codec.unmarshal b ≡ some md

abbrev pub metadata_path : Bytes
metadata_path = codes ".tsync"

abbrev pub corrupt : GoError
corrupt = wrap (sentinel corrupt_metadata)

-- The parsing of the bytes in `loadMetadata`.
unfoldable pub parse_metadata : Codec → Bytes → Result BackupMetadata
parse_metadata codec bytes = elim (codec.unmarshal bytes) [
  | none ↦ err corrupt
  | some md ↦ if eqb md.schema_version 2 then ok md else err (schema md.schema_version)
]

abbrev wrap_error : {A : Type 0} → Result A → Result A
wrap_error (ok a) = ok a
wrap_error (err e) = err (wrap e)

-- `loadMetadata`
unfoldable pub load_metadata : Codec → (S : Storage) → S.State → Result BackupMetadata
load_metadata codec S s = do bytes ← wrap_error (S.read s metadata_path); parse_metadata codec bytes
