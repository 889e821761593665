-- ===== src/Sources.antt =====
-- tsync/source.go: the entries of a folder and of a zip file, and the stream of one entry of a zip
-- file. The zip library, its decompressor and the calendar are parameters.
pub mod Stream
pub mod Extra
pub mod Raw
mod Tests
use t_sync_sdk_go.Base.{
  ℕ, zero, suc, ◌+◌, ◌-◌, ◌*◌, ◌%◌, ◌^◌, Bool, true, false, ◌&&◌, ◌||◌, not, Option, none, some,
  List, [], ◌∷◌, ◌++◌, if◌then◌else◌, eqb, ltb, leb, ℤ, pos, negsuc, as_int64, length, take, drop,
  map,
}
use t_sync_sdk_go.Base.Bytes.{Bytes, ends_in_slash}
use t_sync_sdk_go.Errors.{
  GoError, sentinel, wrap, both, eof, unexpected_eof, not_zip, corrupt_zip, zip_checksum,
  unsupported_encryption, Result, ok, err, ◌>>=◌,
}
use t_sync_sdk_go.Streams.{Reader, ReaderAt, is_eof, read_full}
use t_sync_sdk_go.Metadata.{FileInfo, Storage}
use t_sync_sdk_go.Names.{zip_store, zip_deflate}
use t_sync_sdk_go.Objects.{storage_read_at}
use t_sync_sdk_go.Archive.{MayPanic, returns, panics, and_then, wrap_failure, little_endian, field}
use t_sync_sdk_go.Archive.Time.{Moment, ms_dos_time_to_time}
use t_sync_sdk_go.Archive.Parts.{ZipFile, ZipPartRange, ZipParser, get_zip_part_ranges}
use t_sync_sdk_go.Backup.Part.{SourceEntry, Purpose, bit_xor, crc_update}

-- An entry of a folder.
abbrev folder_entry : (S : Storage) → S.State → FileInfo → SourceEntry
folder_entry S s f = record {
  path = f.name;
  is_dir = ends_in_slash f.name;
  size = f.size;
  crc32 = 0;
  compressed_size = pos 0;
  compression_method = 0;
  last_modified = f.last_modified;
  is_encrypted_raw = false;
  open_content = if ends_in_slash f.name then none else some (λ purpose. S.open_reader s f.name);
  open_raw = none;
  open_raw_compressed = none;
}

-- `FolderSource.ListEntries`, of the folder `prefix`.
unfoldable pub list_folder : (S : Storage) → S.State → Bytes → Result (List SourceEntry)
list_folder S s prefix = elim (S.list s prefix) [
  | err e ↦ err (wrap e)
  | ok files ↦ ok (map (folder_entry S s) files)
]

abbrev pub winzip_aes_extra_id : ℕ
winzip_aes_extra_id = 0x9901

-- The loop of `isWinZipAE2`, with fuel for its rounds.
unfoldable pub is_ae2_loop : ℕ → Bytes → Bool
unfolding little_endian
is_ae2_loop zero b = false
is_ae2_loop (suc fuel) b =
    let tag = field 2 0 b in
    let size = field 2 2 b in
    let body = drop 4 b in
    let rest = is_ae2_loop fuel (drop size body) in
    if ltb (length b) 4
    then false
    else if ltb (length body) size
    then false
    else if eqb tag winzip_aes_extra_id && leb 2 size
    then eqb (field 2 0 body) 2
    else rest

-- `isWinZipAE2`; every round takes 4 bytes at least.
unfoldable pub is_winzip_ae2 : ZipFile → Bool
unfolding is_ae2_loop
is_winzip_ae2 f = is_ae2_loop (length f.extra) f.extra

-- `zipEntryStream`, beside the reader that it reads from: the CRC state, the number of bytes, and
-- the error that it stays in.
pub record EntryStream : Type 0 where
  pub hash : ℕ
  pub n : ℕ
  pub failure : Option GoError

abbrev pub new_stream : EntryStream
new_stream = record { hash = 2 ^ 32 - 1; n = 0; failure = none }

-- The error of a read that the underlying reader has ended with `e`, where `n` bytes have come so
-- far.
abbrev pub at_end_of : ZipFile → ℕ → ℕ → Option GoError → Option GoError
at_end_of f n hash e =
    if is_eof e
    then (if not (eqb n f.uncompressed_size64)
        then some (both (sentinel corrupt_zip) (sentinel unexpected_eof))
        else if not (eqb (bit_xor 32 hash (2 ^ 32 - 1)) f.crc32)
        then some (both (sentinel corrupt_zip) (sentinel zip_checksum))
        else e)
    else e

-- The error after a read.
abbrev pub verdict : ZipFile → ℕ → ℕ → Option GoError → Option GoError
verdict f n hash e =
    if ltb f.uncompressed_size64 n then some (wrap (sentinel corrupt_zip)) else at_end_of f n hash e

-- `zipEntryStream.Read`, where the underlying reader gives `chunk` and `e`.
unfoldable pub read_entry :
    ZipFile → EntryStream → Bytes → Option GoError → EntryStream × Bytes × Option GoError
unfolding crc_update
read_entry f z chunk e =
    let hash = crc_update z.hash chunk in
    let n = (z.n + length chunk) % 2 ^ 64 in
    let e' = verdict f n hash e in
    elim z.failure [
      | some x ↦ (z, [], some x)
      | none ↦ (record { hash = hash; n = n; failure = e' }, chunk, e')
    ]

abbrev pub continued : Bytes → Option GoError → Bytes × Option GoError → Bytes × Option GoError
continued b (some e) rest = (b, some e)
continued b none (more, e) = (b ++ more, e)

-- Reading until an error, or as long as the underlying reader is asked: what has been read, and the
-- error. Each item is what one read of the underlying reader gives.
unfoldable pub read_stream :
    ZipFile → EntryStream → List (Bytes × Option GoError) → Bytes × Option GoError
unfolding read_entry
read_stream f z [] = ([], none)
read_stream f z ((chunk, e) ∷ chunks) =
    let (z', b, e') = read_entry f z chunk e in continued b e' (read_stream f z' chunks)

-- What the sources take from elsewhere: the zip library's directory parser, the decompressor,
-- `time.Date`, and how the reads of a reader divide its content.
pub record Library : Type 0 where
  pub parse : ZipParser
  pub inflate : Reader → Reader
  pub date : Moment → ℕ
  pub reads : Reader → List (Bytes × Option GoError)

-- `io.LimitReader`
abbrev pub limit_reader : ℤ → Reader → Reader
limit_reader (pos n) rc =
    if leb n (length rc.content) then record { content = take n rc.content; failure = none } else rc
limit_reader (negsuc n) rc = record { content = []; failure = none }

-- The error of a reader that ends too early.
abbrev ending : Reader → GoError
ending rc = elim rc.failure [ some e ↦ e | none ↦ sentinel eof ]

abbrev pub local_file_header_len : ℕ
local_file_header_len = 30

abbrev pub local_file_header_sig : ℕ
local_file_header_sig = 0x04034b50

-- The compressed bytes of an entry: what follows its local header, whose bytes are `lfh`.
unfoldable pub entry_body : ZipFile → Bytes → Reader → Result Reader
unfolding little_endian
entry_body f lfh rest =
    let skip = field 2 26 lfh + field 2 28 lfh in
    if not (eqb (field 4 0 lfh) local_file_header_sig)
    then err (wrap (sentinel corrupt_zip))
    else if ltb (length rest.content) skip
    then err (both (sentinel corrupt_zip) (ending rest))
    else ok (
        limit_reader (as_int64 f.compressed_size64)
          (record { content = drop skip rest.content; failure = rest.failure }))

abbrev pub after_header : ZipFile → Reader → Bytes × Option GoError → Result Reader
after_header f rc (lfh, some e) = err (both (sentinel corrupt_zip) e)
after_header f rc (lfh, none) =
    entry_body f lfh
      (record { content = drop local_file_header_len rc.content; failure = rc.failure })

-- The whole of a stream, as a reader.
abbrev pub as_reader : Bytes × Option GoError → Reader
as_reader (b, e) = record { content = b; failure = if is_eof e then none else e }

-- What is read of the compressed bytes of an entry.
abbrev pub streamed : Library → ZipFile → Reader → Reader
streamed lib f body = as_reader (
    read_stream f new_stream
      (lib.reads (if eqb f.method zip_deflate then lib.inflate body else body)))

-- The stream of an entry whose local header and payload `rc` reads.
abbrev pub stream_of : Library → ZipFile → Reader → Result Reader
stream_of lib f rc =
    after_header f rc (read_full local_file_header_len rc) >>= (λ body. ok (streamed lib f body))

module _ (lib : Library) (S : Storage) (s : S.State) (zip_path : Bytes) where
  -- `openZipEntryStream`
  unfoldable pub open_zip_entry_stream : ZipPartRange → Result Reader
  unfolding entry_body read_stream
  open_zip_entry_stream pr =
      S.read_range s zip_path (pos pr.start_offset) (pos (pr.end_offset - pr.start_offset))
      >>= stream_of lib pr.file

  -- An entry before its readers are set.
  abbrev pub bare_entry : ZipPartRange → SourceEntry
  bare_entry pr = record {
    path = pr.name;
    is_dir = ends_in_slash pr.name;
    size = as_int64 pr.file.uncompressed_size64;
    crc32 = pr.file.crc32;
    compressed_size = as_int64 pr.file.compressed_size64;
    compression_method = 0;
    last_modified = lib.date (ms_dos_time_to_time pr.file.modified_date pr.file.modified_time);
    is_encrypted_raw = false;
    open_content = none;
    open_raw = none;
    open_raw_compressed = none;
  }

  abbrev pub raw_entry : ZipPartRange → SourceEntry
  raw_entry pr = record (bare_entry pr) {
    is_encrypted_raw = true;
    open_raw =
        some
          (S.read_range s zip_path (pos pr.start_offset) (pos (pr.end_offset - pr.start_offset)));
  }

  -- Whether the SDK reads the content itself, with one ranged read.
  abbrev is_streamed : ZipFile → Bool
  is_streamed f = eqb (f.flags % 2) 0 && (eqb f.method zip_store || eqb f.method zip_deflate)

  -- The entry of one range, in an encrypted archive or in another.
  unfoldable pub zip_entry : Bool → ZipPartRange → Result SourceEntry
  unfolding open_zip_entry_stream is_winzip_ae2 ms_dos_time_to_time
  zip_entry is_encrypted pr =
      if ends_in_slash pr.name
      then ok (bare_entry pr)
      else if is_encrypted
      then (if is_winzip_ae2 pr.file
          then err (wrap (sentinel unsupported_encryption))
          else ok (raw_entry pr))
      else ok (record (bare_entry pr) {
        compression_method = pr.file.method;
        open_content = some (λ purpose.
            if is_streamed pr.file then open_zip_entry_stream pr else pr.file.open_content);
      })

  -- The loop of `ListEntries`.
  unfoldable pub zip_entries : Bool → List ZipPartRange → Result (List SourceEntry)
  unfolding zip_entry
  zip_entries is_encrypted [] = ok []
  zip_entries is_encrypted (pr ∷ prs) = do
    entry ← zip_entry is_encrypted pr
    entries ← zip_entries is_encrypted prs
    ok (entry ∷ entries)

  -- `GetZipPartRanges`, of a size that may be negative.
  abbrev part_ranges_of : ℤ → MayPanic (List ZipPartRange)
  part_ranges_of (pos n) = get_zip_part_ranges lib.parse (storage_read_at S s zip_path) n
  part_ranges_of (negsuc n) = returns (err (wrap (sentinel not_zip)))

  abbrev size_or_error : Result ℤ → MayPanic ℤ
  size_or_error r = wrap_failure (returns r)

  -- `ZipFileSource.ListEntries`
  unfoldable pub list_zip : Bool → MayPanic (List SourceEntry)
  unfolding zip_entries get_zip_part_ranges storage_read_at
  list_zip is_encrypted = and_then (size_or_error (S.size s zip_path)) (λ size.
      and_then (wrap_failure (part_ranges_of size))
        (λ ranges. returns (zip_entries is_encrypted ranges)))
