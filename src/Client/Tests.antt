-- ===== src/Client/Tests.antt =====
-- Tests of the client's operations on a store.
use native.Mathlib.Decide.{ℕ_discrete}
use t_sync_sdk_go.Base.{◌≡◌, refl, none, some, [], ◌∷◌, Bytes-discrete, decide_lists, bytes_eq}
use t_sync_sdk_go.Base.Bytes.{Bytes, codes, split}
use t_sync_sdk_go.Base.Dict
use t_sync_sdk_go.Base.Dict.{Dict}
use t_sync_sdk_go.Errors.{ok}
use t_sync_sdk_go.Metadata.{BackupMetadata, Codec, load_metadata, parse_metadata}
use t_sync_sdk_go.Names.{
  validate_name, has_bad_byte, file_key_for, hex, hex_digit, decimal_int, decimal, decimal_fuel,
  file_key_regex, part_key_regex, part_key_for, hex_then, every, is_digit, is_hex_digit, base,
  last_part_of,
}
use t_sync_sdk_go.Tree.{
  Live, walked, collect, collect_entries, collect_entry, check_node, is_sorted,
}
use t_sync_sdk_go.Client.{
  collect_versions, nothing_live, prune, orphans, save, delete_parts, delete_collected,
  delete_version, sweep, gc_collected, gc,
}
use t_sync_sdk_go.Client.Delete.{Deleted, delete_version-Deleted}
use t_sync_sdk_go.Client.Gc.{Collected, gc-Collected}
use t_sync_sdk_go.Sample.{
  two_versions, version_seven, version_eight, record_one, sample_codec, encode_in-decode_in,
  encode_in, decode_in, encode_node, Objects, sample_store, sample_store-IsLawful,
}

-- The store with a file record that no version needs.
abbrev with_orphan : BackupMetadata
with_orphan = record two_versions {
  files = (codes "00000006_1", record_one) ∷ (codes "00000005_3", record_one) ∷ [];
}

abbrev after_gc : BackupMetadata
after_gc = record two_versions { last_updated = 9 }

abbrev after_delete : BackupMetadata
after_delete = record two_versions { versions = (codes "7", version_seven) ∷ []; last_updated = 9 }

abbrev codec : Codec
codec = sample_codec (with_orphan ∷ after_gc ∷ after_delete ∷ [])

abbrev orphan_part : Bytes
orphan_part = codes "00/00000006_1"

abbrev live_part : Bytes
live_part = codes "00/00000005_3"

abbrev store : Objects
store = ((codes ".tsync", codes "M") ∷ (live_part, codes "abc") ∷ (orphan_part, codes "x") ∷ [], [])

abbrev live_all : Live
live_all = record { trees = codes "inner" ∷ codes "outer" ∷ []; files = codes "00000005_3" ∷ [] }

loads : load_metadata codec sample_store store ≡ ok with_orphan
unfolding load_metadata parse_metadata Dict.lookup decode_in Bytes-discrete
loads = refl

collects :
    collect_versions codec with_orphan.trees with_orphan.versions nothing_live ≡ walked live_all
unfolding collect_versions collect collect_entries collect_entry check_node is_sorted validate_name
    has_bad_byte Dict.lookup Bytes-discrete encode_node decide_lists ℕ_discrete file_key_for hex
    hex_digit decimal_int decimal decimal_fuel
collects = refl

abbrev gone : Objects
gone = ((codes ".tsync", 1 ∷ 1 ∷ codes "M") ∷ (live_part, codes "abc") ∷ [], [])

abbrev swept : Objects
swept = ((codes ".tsync", 1 ∷ codes "M") ∷ (live_part, codes "abc") ∷ [], [])

deletes : delete_version codec sample_store 9 8 store ≡ (gone, none)
unfolding delete_version delete_collected save prune orphans delete_parts load_metadata
    parse_metadata collect_versions collect collect_entries collect_entry check_node is_sorted
    validate_name has_bad_byte Dict.lookup Dict.has Dict.erase Dict.insert Dict.keep Bytes-discrete
    encode_node encode_in decode_in decide_lists ℕ_discrete file_key_for hex hex_digit decimal_int
    decimal decimal_fuel file_key_regex hex_then every is_digit is_hex_digit part_key_for
deletes = refl

collects_garbage : gc codec sample_store 9 store ≡ (swept, none)
unfolding gc gc_collected sweep save prune orphans load_metadata parse_metadata collect_versions
    collect collect_entries collect_entry check_node is_sorted validate_name has_bad_byte
    Dict.lookup Dict.has Dict.erase Dict.insert Dict.keep Dict.keys Bytes-discrete encode_node
    encode_in decode_in decide_lists ℕ_discrete file_key_for hex hex_digit decimal_int decimal
    decimal_fuel part_key_regex hex_then every is_digit is_hex_digit base last_part_of split
collects_garbage = refl

eight_listed : Dict.lookup (codes "8") with_orphan.versions ≡ some version_eight
unfolding Dict.lookup Bytes-discrete
eight_listed = refl

delete_version-Deleted_example : Deleted codec sample_store 8 with_orphan store gone
delete_version-Deleted_example =
    delete_version-Deleted codec sample_store 9 8 with_orphan store gone sample_store-IsLawful
      (encode_in-decode_in (with_orphan ∷ after_gc ∷ after_delete ∷ [])) loads deletes

gc-Collected_example : Collected codec sample_store with_orphan store swept
gc-Collected_example =
    gc-Collected codec sample_store sample_store-IsLawful
      (encode_in-decode_in (with_orphan ∷ after_gc ∷ after_delete ∷ [])) 9 with_orphan store swept
      loads collects_garbage
