-- ===== src/Archive/Parts.antt =====
-- tsync/zip_utils.go: `cachedTailReaderAt` and `GetZipPartRanges`.
pub mod Tiles
pub mod Cached
pub mod Presented
use t_sync_sdk_go.Base.{
  ℕ, zero, ◌+◌, ◌-◌, min, Bool, true, false, ◌&&◌, ◌||◌, not, Option, none, some, List, [], ◌∷◌,
  ◌++◌, if◌then◌else◌, eqb, ltb, leb, ◌%◌, ◌^◌, ℤ, pos, negsuc, length, take, drop,
}
use t_sync_sdk_go.Base.Bytes.{Bytes}
use t_sync_sdk_go.Errors.{
  GoError, sentinel, wrap, both, eof, unexpected_eof, corrupt_zip, Result, ok, err, fail_if, ◌>>◌,
  ◌>>=◌,
}
use t_sync_sdk_go.Streams.{Reader, ReaderAt}
use t_sync_sdk_go.Archive.{
  MayPanic, returns, panics, and_then, eocd_len, ZipDirectory, buffer, read_failure,
  read_zip_directory,
}

-- The part of `ReadAt` of `cachedTailReaderAt` that the cache serves, from the place `s` in it.
unfoldable pub from_cache : Bytes → ℕ → ℕ → Bytes × Option GoError
from_cache cache n s = if leb (length cache) s then ([], some (sentinel eof)) else (
  take n (drop s cache),
  if ltb (length (take n (drop s cache))) n then some (sentinel eof) else none,
)

-- The rest of a read that starts before the cache, after its `head` bytes.
abbrev after_head : Bytes → ℕ → ℕ → Bytes × Option GoError → Bytes × Option GoError
after_head cache n head (b, some e) = (b, some e)
after_head cache n head (b, none) =
    let (c, e) = from_cache cache (n - head) 0 in
    if ltb (length b) head
    then (b, some (sentinel unexpected_eof))
    else if eqb head n
    then (b, none)
    else (b ++ c, e)

-- `cachedTailReaderAt.ReadAt`
unfoldable pub cached_read_at : ReaderAt → ℕ → Bytes → ReaderAt
unfolding from_cache
cached_read_at r cache_offset cache n (negsuc start) = ([], some (wrap (sentinel corrupt_zip)))
cached_read_at r cache_offset cache n (pos start) =
    let head = min n (cache_offset - start) in
    if leb cache_offset start
    then from_cache cache n (start - cache_offset)
    else after_head cache n head (r head (pos start))

-- `zip.File`, as far as the SDK reads it.
pub record ZipFile : Type 0 where
  pub name : Bytes
  pub header_offset : ℤ
  pub flags : ℕ
  pub method : ℕ
  pub modified_date : ℕ
  pub modified_time : ℕ
  pub crc32 : ℕ
  pub compressed_size64 : ℕ
  pub uncompressed_size64 : ℕ
  pub extra : Bytes
  pub open_content : Result Reader

-- `ZipPartRange`
pub record ZipPartRange : Type 0 where
  pub name : Bytes
  pub start_offset : ℕ
  pub end_offset : ℕ
  pub file : ZipFile

-- `zip.NewReader`, on a reader and the size of the archive.
abbrev pub ZipParser : Type 0
ZipParser = ReaderAt → ℕ → Result (List ZipFile)

abbrev pub corrupt : {A : Type 0} → Result A
corrupt = err (wrap (sentinel corrupt_zip))

-- The offsets of the local headers, all in the data area [0, cd_offset).
unfoldable pub local_offsets : ℕ → List ZipFile → Result (List (ZipFile × ℕ))
local_offsets cd_offset [] = ok []
local_offsets cd_offset (f ∷ fs) =
    let rest = local_offsets cd_offset fs in
    elim f.header_offset [
      | negsuc n ↦ corrupt
      | pos n ↦ if leb cd_offset n then corrupt else rest >>= (λ os. ok ((f, n) ∷ os))
    ]

-- `sort.Slice` by offset. Two equal offsets are refused afterwards, so their order does not matter.
unfoldable pub insert_file : ZipFile × ℕ → List (ZipFile × ℕ) → List (ZipFile × ℕ)
insert_file (f, n) [] = (f, n) ∷ []
insert_file (f, n) ((g, m) ∷ fs) =
    let rest = insert_file (f, n) fs in if ltb m n then (g, m) ∷ rest else (f, n) ∷ (g, m) ∷ fs

unfoldable pub sort_files : List (ZipFile × ℕ) → List (ZipFile × ℕ)
unfolding insert_file
sort_files [] = []
sort_files (f ∷ fs) = insert_file f (sort_files fs)

abbrev range_of : ZipFile → ℕ → ℕ → ZipPartRange
range_of f start end = record { name = f.name; start_offset = start; end_offset = end; file = f }

-- The ranges: each part ends where the next one starts, and the last one at the directory.
unfoldable pub ranges_of : ℕ → List (ZipFile × ℕ) → Result (List ZipPartRange)
ranges_of cd_offset [] = ok []
ranges_of cd_offset ((f, n) ∷ []) =
    if leb cd_offset n then corrupt else ok (range_of f n cd_offset ∷ [])
ranges_of cd_offset ((f, n) ∷ (g, m) ∷ fs) =
    let rest = ranges_of cd_offset ((g, m) ∷ fs) in
    if leb m n then corrupt else rest >>= (λ rs. ok (range_of f n m ∷ rs))

-- The offset of the directory, which `readZipDirectory` has found not to be negative.
abbrev pub directory_offset : ZipDirectory → ℕ
directory_offset d = elim d.cd_offset [ pos n ↦ n | negsuc n ↦ 0 ]

-- The cache after a read of the `n` bytes from `start` on, which stand before the tail.
abbrev pub with_head : ℕ → ℕ → Bytes → Bytes × Option GoError → Result (ℕ × Bytes)
with_head start n tail (b, e) = elim (read_failure n (b, e)) [
  | some x ↦ err x
  | none ↦ ok (start, buffer n b ++ tail)
]

-- The cache of `GetZipPartRanges`, and its offset: the tail, and the directory where it starts
-- before the tail.
unfoldable pub fill_cache : ReaderAt → ZipDirectory → Result (ℕ × Bytes)
unfolding buffer
fill_cache r d =
    let start = directory_offset d in
    let n = d.tail_offset - start in
    if ltb start d.tail_offset
    then with_head start n d.tail (r n (pos start))
    else ok (d.tail_offset, d.tail)

-- `binary.LittleEndian.PutUint16(b[i:], 0)`
unfoldable pub clear_uint16 : ℕ → Bytes → Bytes
clear_uint16 i b = take i b ++ 0 ∷ 0 ∷ drop (i + 2) b

-- The cache as the zip library is to see it: up to the end record, with an empty comment.
unfoldable pub without_comment : ZipDirectory → ℕ → Bytes → Bytes
unfolding clear_uint16
without_comment d cache_offset cache =
    clear_uint16 (d.eocd_offset - cache_offset + 20)
      (take (d.eocd_offset + eocd_len - cache_offset) cache)

abbrev pub parsed : Result (List ZipFile) → Result (List ZipFile)
parsed (ok files) = ok files
parsed (err e) = err (both (sentinel corrupt_zip) e)

-- The ranges of the files that the library has found, whose number is compared in 16 bits.
abbrev pub part_ranges : ZipDirectory → List ZipFile → Result (List ZipPartRange)
part_ranges d files =
    fail_if (not (eqb (length files % 2 ^ 16) (d.records % 2 ^ 16))) (wrap (sentinel corrupt_zip))
    >> (local_offsets (directory_offset d) files
        >>= (λ os. ranges_of (directory_offset d) (sort_files os)))

abbrev pub parse_cache :
    ZipParser → ReaderAt → ZipDirectory → ℕ × Bytes → Result (List ZipPartRange)
parse_cache parse r d (cache_offset, cache) =
    parsed (
      parse (cached_read_at r cache_offset (without_comment d cache_offset cache))
        (d.eocd_offset + eocd_len))
    >>= part_ranges d

-- `GetZipPartRanges` after the directory has been found.
unfoldable pub parse_parts : ZipParser → ReaderAt → ZipDirectory → Result (List ZipPartRange)
unfolding fill_cache without_comment cached_read_at local_offsets sort_files ranges_of
parse_parts parse r d = fill_cache r d >>= parse_cache parse r d

-- `GetZipPartRanges`
unfoldable pub get_zip_part_ranges : ZipParser → ReaderAt → ℕ → MayPanic (List ZipPartRange)
unfolding read_zip_directory parse_parts
get_zip_part_ranges parse r size =
    and_then (read_zip_directory r size) (λ d. returns (parse_parts parse r d))
