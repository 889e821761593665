-- ===== src/Archive/Tests.antt =====
-- Tests of the readers of zip directories.
use t_sync_sdk_go.Base.{
  ◌+◌, ◌-◌, ◌^◌, ◌≡◌, ◌≤◌, ◌<◌, ◌↔◌, refl, none, some, [], ◌∷◌, ◌++◌, arith, All, if◌then◌else◌,
  leb, ltb, pos, negsuc, length, take, drop,
}
use t_sync_sdk_go.Base.Bytes.{Bytes, codes}
use t_sync_sdk_go.Errors.{sentinel, eof, ok}
use t_sync_sdk_go.Streams.{ReaderAt, ReadsAt, whole}
use t_sync_sdk_go.Archive.{
  returns, panics, little_endian, ZipDirectory, zeros, buffer, ends_at, scan, read_tail,
  plain_directory, read_at_cached, read_zip64, read_locator, check_directory, read_zip_directory,
}
use t_sync_sdk_go.Archive.Zip64.{read_zip64-panics}
use t_sync_sdk_go.Archive.Offsets.{IsDirectory, read_zip_directory-IsDirectory}
use t_sync_sdk_go.Archive.Parts.{
  ZipFile, ZipPartRange, ZipParser, local_offsets, insert_file, sort_files, ranges_of, fill_cache,
  parse_parts, get_zip_part_ranges,
}
use t_sync_sdk_go.Archive.Parts.Presented.{ArePartRanges, get_zip_part_ranges-ArePartRanges}

-- A reader of a content.
abbrev reader_of : Bytes → ReaderAt
reader_of s n (pos start) =
    if ltb start (length s)
    then (take n (drop start s), if leb (start + n) (length s) then none else some (sentinel eof))
    else ([], some (sentinel eof))
reader_of s n (negsuc start) = ([], some (sentinel eof))

reader_of-ReadsAt : (s : Bytes) → ReadsAt (reader_of s) s
reader_of-ReadsAt s n start fits inside = ground (arith, inside)

-- Two bytes of data, a directory of one byte, and an end record with a comment of one byte.
abbrev archive : Bytes
archive =
    codes "ab"
    ++ codes "c"
    ++ 0x50 ∷ 0x4b ∷ 5 ∷ 6 ∷ 0 ∷ 0 ∷ 0 ∷ 0 ∷ 1 ∷ 0 ∷ 1 ∷ 0 ∷ 1 ∷ 0 ∷ 0 ∷ 0 ∷ 2 ∷ 0 ∷ 0 ∷ 0 ∷ 1 ∷ 0
      ∷ 7 ∷ []

abbrev found : ZipDirectory
found = record {
  eocd_offset = 3;
  cd_offset = pos 2;
  cd_size = pos 1;
  records = 1;
  tail_offset = 0;
  tail = archive;
}

finds : read_zip_directory (reader_of archive) (length archive) ≡ returns (ok found)
unfolding read_zip_directory read_tail plain_directory read_locator check_directory scan buffer
    zeros ends_at little_endian
finds = refl

abbrev file_one : ZipFile
file_one = record {
  name = codes "a";
  header_offset = pos 0;
  flags = 0;
  method = 0;
  modified_date = 0;
  modified_time = 0;
  crc32 = 0;
  compressed_size64 = 2;
  uncompressed_size64 = 2;
  extra = [];
  open_content = ok (whole (codes "ab"));
}

-- A library that finds one file.
abbrev one_file : ZipParser
one_file r n = ok (file_one ∷ [])

abbrev range_one : ZipPartRange
range_one = record { name = codes "a"; start_offset = 0; end_offset = 2; file = file_one }

finds_range :
    get_zip_part_ranges one_file (reader_of archive) (length archive)
    ≡ returns (ok (range_one ∷ []))
unfolding get_zip_part_ranges parse_parts read_zip_directory read_tail plain_directory read_locator
    check_directory scan buffer zeros ends_at little_endian local_offsets insert_file sort_files
    ranges_of fill_cache
finds_range = refl

small_bytes : All (λ x. x < 256) archive
small_bytes = ground arith

-- An archive whose locator gives the greatest offset for the zip64 end record.
abbrev crafted : Bytes
crafted =
    0x50 ∷ 0x4b ∷ 6 ∷ 7 ∷ 0 ∷ 0 ∷ 0 ∷ 0 ∷ 255 ∷ 255 ∷ 255 ∷ 255 ∷ 255 ∷ 255 ∷ 255 ∷ 127 ∷ 1 ∷ 0 ∷ 0
    ∷ 0 ∷ 0x50 ∷ 0x4b ∷ 5 ∷ 6 ∷ zeros_after
  where
    zeros_after : Bytes
    zeros_after = 0 ∷ 0 ∷ 0 ∷ 0 ∷ 0 ∷ 0 ∷ 0 ∷ 0 ∷ 0 ∷ 0 ∷ 0 ∷ 0 ∷ 0 ∷ 0 ∷ 0 ∷ 0 ∷ 0 ∷ 0 ∷ []

crafted_panics : read_zip_directory (reader_of crafted) (length crafted) ≡ panics
unfolding read_zip_directory read_tail plain_directory read_locator check_directory scan buffer
    zeros ends_at little_endian read_zip64 read_at_cached
crafted_panics = refl

abbrev crafted_directory : ZipDirectory
crafted_directory = record {
  eocd_offset = 20;
  cd_offset = pos 0;
  cd_size = pos 0;
  records = 0;
  tail_offset = 0;
  tail = crafted;
}

read_zip_directory-IsDirectory_example : IsDirectory archive found
read_zip_directory-IsDirectory_example =
    read_zip_directory-IsDirectory (reader_of archive) archive found (reader_of-ReadsAt archive)
      (omega arith) small_bytes finds

get_zip_part_ranges-ArePartRanges_example : ArePartRanges one_file archive (range_one ∷ [])
get_zip_part_ranges-ArePartRanges_example =
    get_zip_part_ranges-ArePartRanges one_file (reader_of archive) archive (range_one ∷ [])
      (reader_of-ReadsAt archive) (omega arith) small_bytes finds_range

read_zip64-panics_example :
    (read_zip64 (reader_of crafted) crafted_directory (2 ^ 63 - 1) ≡ panics)
    ↔ ((2 ^ 63 - 56 ≤ 2 ^ 63 - 1) × (2 ^ 63 - 1 < 2 ^ 63))
read_zip64-panics_example =
    read_zip64-panics (reader_of crafted) crafted_directory (2 ^ 63 - 1)
      (omega arith, omega arith, omega arith)
