-- ===== src/Sample.antt =====
-- Concrete stand-ins for what the SDK takes from elsewhere, for the tests: a store and its writers,
-- a codec, a zip library and a box, each with its documented behaviour proved.
pub mod System
use native.Mathlib.Decide.{ℕ_discrete}
use t_sync_sdk_go.Base.{
  decide_lists, ◌≡◌, refl, sym, ap, Option, none, some, List, [], ◌∷◌, ◌++◌, arith, ◌==◌, bytes_eq,
  if◌then◌else◌, ℤ, pos, negsuc, length, take, drop, Option-cases, inl, inr,
}
use t_sync_sdk_go.Base.Bytes.{Bytes, codes}
use t_sync_sdk_go.Base.Dict
use t_sync_sdk_go.Base.Dict.{Dict, lookup-insert, lookup-erase}
use t_sync_sdk_go.Errors.{GoError, sentinel, not_found, Result, ok, err}
use t_sync_sdk_go.Metadata.{
  FileLeaf, file, subtree, TreeNode, FileRecord, Version, BackupMetadata, Codec, Storage, FileInfo,
  IsLawful,
}
use mathlib.Core.Option
use t_sync_sdk_go.Streams.{Reader, whole}
use t_sync_sdk_go.Tree.Store.{IsCollisionFree}
use t_sync_sdk_go.Crypto.{Box}
use t_sync_sdk_go.Crypto.Envelope.{Opens}
use t_sync_sdk_go.Backup.Part.{Zip, Writers}
use t_sync_sdk_go.Backup.Frame.{IsPrivate}
use t_sync_sdk_go.Backup.Safety.{KeepsOnFailure}

abbrev pub ℤ-discrete : Discrete ℤ
ℤ-discrete = hlevel (ℕ_discrete)

abbrev pub TreeNode-discrete : Discrete TreeNode
TreeNode-discrete = hlevel (ℕ_discrete, ℤ-discrete, decide_lists)

abbrev pub BackupMetadata-discrete : Discrete BackupMetadata
BackupMetadata-discrete = hlevel (ℕ_discrete, ℤ-discrete, decide_lists)

abbrev pub leaf_one : FileLeaf
leaf_one = record { crc32 = 5; uncompressed_size = pos 3 }

-- A folder with one file "a", and the root above it, where the folder is "d".
abbrev pub inner_node : TreeNode
inner_node = record { entries = record { name = codes "a"; node = file (some leaf_one) } ∷ [] }

abbrev pub outer_node : TreeNode
outer_node = record { entries = record { name = codes "d"; node = subtree (codes "inner") } ∷ [] }

abbrev pub record_one : FileRecord
record_one = record {
  ephemeral_public_key = [];
  encrypted_zip_password = [];
  crc32 = 5;
  compressed_size = pos 3;
  uncompressed_size = pos 3;
  last_modified = 1;
  key_id = none;
}

abbrev pub version_seven : Version
version_seven = record {
  snowflake_id = 7;
  backup_timestamp = 100;
  root_tree_hash = codes "outer";
  preceding_version_id = 0;
  label = [];
}

abbrev pub version_eight : Version
version_eight = record {
  snowflake_id = 8;
  backup_timestamp = 200;
  root_tree_hash = codes "inner";
  preceding_version_id = 7;
  label = [];
}

abbrev pub sample_trees : Dict Bytes TreeNode
sample_trees = (codes "inner", inner_node) ∷ (codes "outer", outer_node) ∷ []

abbrev pub sample_files : Dict Bytes FileRecord
sample_files = (codes "00000005_3", record_one) ∷ []

-- Two versions over the two trees.
abbrev pub two_versions : BackupMetadata
two_versions = record {
  versions = (codes "7", version_seven) ∷ (codes "8", version_eight) ∷ [];
  trees = sample_trees;
  files = sample_files;
  public_keys = (codes "k", []) ∷ [];
  schema_version = 2;
  last_updated = 0;
}

-- A codec that encodes the metadata of a list, by their places in it.
unfoldable pub encode_in : List BackupMetadata → BackupMetadata → Option Bytes
encode_in [] md = none
encode_in (m ∷ ms) md = elim (BackupMetadata-discrete m md) [
  | yes same ↦ some (codes "M")
  | no other ↦ (elim (encode_in ms md) [ none ↦ none | some b ↦ some (1 ∷ b) ])
]

unfoldable pub decode_in : List BackupMetadata → Bytes → Option BackupMetadata
decode_in [] b = none
decode_in (m ∷ ms) [] = none
decode_in (m ∷ ms) (c ∷ b) = if (c ∷ b) == codes "M" then some m else decode_in ms b

unfoldable pub encode_node : TreeNode → Option Bytes
encode_node n = elim (TreeNode-discrete inner_node n) [
  | yes inner ↦ some (codes "inner")
  | no other ↦ (elim (TreeNode-discrete outer_node n) [
    | yes outer ↦ some (codes "outer")
    | no neither ↦ none
  ])
]

abbrev pub sample_codec : List BackupMetadata → Codec
sample_codec ms = record {
  marshal_node = encode_node;
  digest = λ b. b;
  marshal = encode_in ms;
  unmarshal = decode_in ms;
}

pub encode_in-decode_in :
    (ms : List BackupMetadata) (md : BackupMetadata) (b : Bytes)
    → encode_in ms md ≡ some b
    → decode_in ms b ≡ some md
unfolding encode_in decode_in
encode_in-decode_in [] md b h = absurd (ground arith)
encode_in-decode_in (m ∷ ms) md b h = elim (BackupMetadata-discrete m md) [
  | yes same ↦ ground (arith, same)
  | no other ↦ elim (Option-cases (encode_in ms md)) [
    | inl absent ↦ absurd (ground arith)
    | inr (rest, e) ↦ ground (arith, encode_in-decode_in ms md rest e)
  ]
]

pub sample-IsCollisionFree : (ms : List BackupMetadata) → IsCollisionFree (sample_codec ms)
unfolding encode_node
sample-IsCollisionFree ms m n h hm hn = elim (TreeNode-discrete inner_node m) [
  | yes a ↦ elim (TreeNode-discrete inner_node n) [
    | yes b ↦ ground arith
    | no nb ↦ elim (TreeNode-discrete outer_node n) [
      | yes c ↦ absurd (ground arith)
      | no nc ↦ absurd (ground arith)
    ]
  ]
  | no na ↦ elim (TreeNode-discrete outer_node m) [
    | no nc ↦ absurd (ground arith)
    | yes c ↦ elim (TreeNode-discrete inner_node n) [
      | yes b ↦ absurd (ground arith)
      | no nb ↦ elim (TreeNode-discrete outer_node n) [
        | yes d ↦ ground arith
        | no nd ↦ absurd (ground arith)
      ]
    ]
  ]
]

-- A store of objects, and the parts that are being written.
abbrev pub Objects : Type 0
Objects = Dict Bytes Bytes × Dict Bytes Bytes

abbrev read_object : Option Bytes → Result Bytes
read_object none = err (sentinel not_found)
read_object (some b) = ok b

abbrev open_object : Option Bytes → Result Reader
open_object none = err (sentinel not_found)
open_object (some b) = ok (whole b)

abbrev size_of_object : Option Bytes → Result ℤ
size_of_object none = err (sentinel not_found)
size_of_object (some b) = ok (pos (length b))

abbrev pub slice : ℤ → ℤ → Bytes → Bytes
slice (pos start) (pos n) b = take n (drop start b)
slice (pos start) (negsuc n) b = drop start b
slice (negsuc start) n b = []

abbrev infos : Dict Bytes Bytes → List FileInfo
infos [] = []
infos ((k, b) ∷ d) = record { name = k; size = pos (length b); last_modified = 1 } ∷ infos d

abbrev pub sample_store : Storage
sample_store = record {
  State = Objects;
  read = λ s p. read_object (Dict.lookup p s.0);
  write = λ s p d. ((Dict.insert p d s.0, s.1), none);
  delete = λ s p. ((Dict.erase p s.0, s.1), none);
  list = λ s prefix. ok (infos s.0);
  exists = λ s p. ok (Dict.has p s.0);
  open_reader = λ s p. open_object (Dict.lookup p s.0);
  size = λ s p. size_of_object (Dict.lookup p s.0);
  read_range = λ s p start n. open_object (Option.map (slice start n) (Dict.lookup p s.0));
}

pub sample_store-IsLawful : IsLawful sample_store
sample_store-IsLawful = record {
  read-write = λ s p d e. ground (arith, lookup-insert p p d s.0);
  read-write_other = λ s p q d hp hq other. ground (arith, lookup-insert q p d s.0);
  read-delete_other = λ s p q hp hq other. ground (arith, lookup-erase q p s.0);
}

pub sample_store-KeepsOnFailure : KeepsOnFailure sample_store
sample_store-KeepsOnFailure s p d e h = absurd (ground arith)

abbrev pending : Bytes → Dict Bytes Bytes → Bytes
pending p d = elim (Dict.lookup p d) [ none ↦ [] | some b ↦ b ]

abbrev pub sample_writers : Writers sample_store
sample_writers = record {
  Handle = Bytes;
  open_writer = λ s p. ((s.0, Dict.insert p [] s.1), ok p);
  write = λ s w b. ((s.0, Dict.insert w (pending w s.1 ++ b) s.1), none);
  close = λ s w. ((Dict.insert w (pending w s.1) s.0, Dict.erase w s.1), none);
  abort = some (λ s w. ((s.0, Dict.erase w s.1), none));
}

abbrev aborted : Option (Objects → Bytes → Objects × Option GoError) → Objects → Bytes → Objects
aborted none s w = s
aborted (some f) s w = (f s w).0

pub sample_writers-IsPrivate : IsPrivate sample_store sample_writers
sample_writers-IsPrivate = record {
  path_of = λ w. w;
  opened_at = λ s p w e. ground arith;
  read-open = λ s p q. refl;
  read-write = λ s w b q. refl;
  read-close = λ s w q other. ground (arith, lookup-insert q w (pending w s.1) s.0);
  read-abort = λ f e s w q. ap (λ o. sample_store.read (aborted o s w) q) (sym e);
}

-- A zip library that stores contents as they are; its CRC is 5.
abbrev pub sample_zip : Zip
sample_zip = record {
  raw_part = λ fh content. (content, ok (record fh { compressed_size64 = length content }));
  file_part = λ fh content. (
    content,
    ok (record fh {
      crc32 = 5;
      compressed_size64 = length content;
      uncompressed_size64 = length content;
    }),
  );
}

abbrev tag : Bytes
tag = codes "0123456789abcdef"

-- A box that puts the tag before the message.
abbrev pub sample_box : Box
sample_box = record {
  seal = λ message nonce public private. tag ++ message;
  unseal = λ sealed nonce public private. some (drop 16 sealed);
}

pub sample_box-Opens : (a b c d : Bytes) → Opens sample_box a b c d
sample_box-Opens a b c d = record {
  opens = λ message nonce. refl;
  tagged = λ message nonce. omega arith;
}
