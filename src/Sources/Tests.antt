-- ===== src/Sources/Tests.antt =====
-- Tests of the sources.
use t_sync_sdk_go.Base.{
  ◌-◌, ◌^◌, ◌≡◌, refl, true, Option, none, some, List, [], ◌∷◌, ◌++◌, arith, if◌then◌else◌, ltb,
  pos, length, take, drop, Bytes-discrete,
}
use t_sync_sdk_go.Base.Bytes.{Bytes, codes, ends_in_slash}
use t_sync_sdk_go.Base.Dict
use t_sync_sdk_go.Base.Dict.{Dict}
use t_sync_sdk_go.Errors.{GoError, sentinel, eof, ok}
use t_sync_sdk_go.Streams.{whole}
use t_sync_sdk_go.Objects.Ranges.{ReadsRanges}
use t_sync_sdk_go.Archive.{little_endian}
use t_sync_sdk_go.Archive.Parts.{ZipFile, ZipPartRange}
use t_sync_sdk_go.Backup.Part.{bit_xor, crc_bits, crc_update}
use t_sync_sdk_go.Sources.{
  is_ae2_loop, is_winzip_ae2, Library, entry_body, read_entry, read_stream, open_zip_entry_stream,
  raw_entry, zip_entry, zip_entries,
}
use t_sync_sdk_go.Sources.Stream.{IsDeclared, ReadsToTheEnd, open_zip_entry_stream-IsDeclared}
use t_sync_sdk_go.Sources.Extra.{ExtraField, encode_fields, first_aes, is_winzip_ae2-first_aes}
use t_sync_sdk_go.Sources.Raw.{AreRaw, joined, zip_entries-AreRaw}
use t_sync_sdk_go.Sample.{Objects, sample_store}

abbrev ended_by : Option GoError → GoError
ended_by none = sentinel eof
ended_by (some e) = e

-- A reader is read at once, if that is possible.
abbrev fitting : Bytes → Bytes
fitting b = if ltb (length b) (2 ^ 64) then b else []

abbrev library : Library
library = record {
  parse = λ r n. ok [];
  inflate = λ rc. rc;
  date = λ m. m.year;
  reads = λ rc. (fitting rc.content, some (ended_by rc.failure)) ∷ [];
}

library-ReadsToTheEnd : ReadsToTheEnd library
library-ReadsToTheEnd = record {
  drained = λ rc h. absurd (ground arith);
  countable = λ rc. ground arith;
}

-- The extra data of an AES entry of version 2.
abbrev fields : List ExtraField
fields = (5, codes "x") ∷ (0x9901, 2 ∷ 0 ∷ codes "AE") ∷ []

-- A stored file "abc".
abbrev stored : ZipFile
stored = record {
  name = codes "a";
  header_offset = pos 0;
  flags = 0;
  method = 0;
  modified_date = 0;
  modified_time = 0;
  crc32 = 0x352441c2;
  compressed_size64 = 3;
  uncompressed_size64 = 3;
  extra = [];
  open_content = ok (whole (codes "abc"));
}

abbrev local_part : Bytes
local_part =
    0x50
    ∷ 0x4b
    ∷ 3
    ∷ 4
    ∷ 0
    ∷ 0
    ∷ 0
    ∷ 0
    ∷ 0
    ∷ 0
    ∷ 0
    ∷ 0
    ∷ 0
    ∷ 0
    ∷ 0
    ∷ 0
    ∷ 0
    ∷ 0
    ∷ 0
    ∷ 0
    ∷ 0
    ∷ 0
    ∷ 0
    ∷ 0
    ∷ 0
    ∷ 0
    ∷ 0
    ∷ 0
    ∷ 0
    ∷ 0
    ∷ codes "abc"

abbrev zip_store_state : Objects
zip_store_state = ((codes "z", local_part) ∷ [], [])

abbrev part : ZipPartRange
part = record { name = codes "a"; start_offset = 0; end_offset = 33; file = stored }

opens :
    open_zip_entry_stream library sample_store zip_store_state (codes "z") part
    ≡ ok (whole (codes "abc"))
unfolding open_zip_entry_stream entry_body read_stream read_entry crc_update crc_bits bit_xor
    little_endian Dict.lookup Bytes-discrete
opens = refl

reads_ranges : ReadsRanges sample_store zip_store_state (codes "z") local_part
unfolding Dict.lookup Bytes-discrete
reads_ranges start n fits inside = refl

makes_entries :
    zip_entries library sample_store zip_store_state (codes "z") true (part ∷ [])
    ≡ ok (raw_entry library sample_store zip_store_state (codes "z") part ∷ [])
unfolding zip_entries zip_entry is_winzip_ae2 is_ae2_loop ends_in_slash
makes_entries = refl

open_zip_entry_stream-IsDeclared_example : IsDeclared stored (codes "abc")
open_zip_entry_stream-IsDeclared_example =
    open_zip_entry_stream-IsDeclared library sample_store zip_store_state (codes "z") part
      (whole (codes "abc")) library-ReadsToTheEnd opens refl

is_winzip_ae2-first_aes_example :
    is_winzip_ae2 (record stored { extra = encode_fields fields ++ codes "abc" }) ≡ first_aes fields
is_winzip_ae2-first_aes_example =
    is_winzip_ae2-first_aes (record stored { extra = encode_fields fields ++ codes "abc" }) fields
      (codes "abc") (omega arith, omega arith, (omega arith, omega arith, tt)) (omega arith) refl

zip_entries-AreRaw_example :
    AreRaw local_part
      (raw_entry library sample_store zip_store_state (codes "z") part ∷ [])
      (part ∷ [])
    × (joined local_part (part ∷ []) ≡ take (33 - 0) (drop 0 local_part))
zip_entries-AreRaw_example =
    zip_entries-AreRaw library sample_store zip_store_state (codes "z") local_part reads_ranges
      (omega arith) part [] (raw_entry library sample_store zip_store_state (codes "z") part ∷ [])
      33 (omega arith, refl) (omega arith) makes_entries
