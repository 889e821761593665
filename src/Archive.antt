-- ===== src/Archive.antt =====
-- tsync/zip_utils.go: where the central directory of a zip file lies, and the bytes of its parts.
-- The parsing of the directory itself is the zip library's. Offsets are `int64`: `as_int64` of the
-- bits where the file gives them, and natural numbers where the code has found them non-negative.
pub mod Parts
pub mod Scan
pub mod Zip64
pub mod Fields
pub mod Records
pub mod Offsets
pub mod Time
mod Tests
use t_sync_sdk_go.Base.{
  ℕ, zero, suc, ◌+◌, ◌-◌, ◌*◌, ◌/◌, ◌%◌, ◌^◌, min, Bool, true, false, ◌&&◌, ◌||◌, not, Option, none,
  some, List, [], ◌∷◌, ◌++◌, if◌then◌else◌, eqb, ltb, leb, ltz, ℤ, pos, negsuc, as_int64, add_int64,
  length, take, drop,
}
use t_sync_sdk_go.Base.Bytes.{Bytes}
use t_sync_sdk_go.Errors.{
  GoError, sentinel, wrap, both, eof, unexpected_eof, not_zip, corrupt_zip, Result, ok, err,
  fail_if, ◌>>◌, ◌>>=◌,
}
use t_sync_sdk_go.Streams.{ReaderAt, is_eof}

-- What a call comes to: Go panics where a slice expression is out of range.
pub data MayPanic {ℓ} (A : Type ℓ) : Type ℓ where
  returns : Result A → MayPanic A
  panics : MayPanic A

-- The call that follows, unless an error or a panic ends the function.
abbrev pub and_then {ℓ κ} : {A : Type ℓ} {B : Type κ} → MayPanic A → (A → MayPanic B) → MayPanic B
and_then (returns (ok a)) rest = rest a
and_then (returns (err e)) rest = returns (err e)
and_then panics rest = panics

-- `%w` of the error of a call.
abbrev pub wrap_failure {ℓ} : {A : Type ℓ} → MayPanic A → MayPanic A
wrap_failure (returns (ok a)) = returns (ok a)
wrap_failure (returns (err e)) = returns (err (wrap e))
wrap_failure panics = panics

abbrev pub eocd_len : ℕ
eocd_len = 22

abbrev pub eocd_signature : ℕ
eocd_signature = 0x06054b50

abbrev pub zip64_locator_len : ℕ
zip64_locator_len = 20

abbrev pub zip64_locator_sig : ℕ
zip64_locator_sig = 0x07064b50

abbrev pub zip64_eocd_len : ℕ
zip64_eocd_len = 56

abbrev pub zip64_eocd_signature : ℕ
zip64_eocd_signature = 0x06064b50

-- `binary.LittleEndian` on the first `n` bytes.
unfoldable pub little_endian : ℕ → Bytes → ℕ
little_endian zero b = 0
little_endian (suc n) [] = 0
little_endian (suc n) (x ∷ b) = x + 256 * little_endian n b

-- The number of `n` bytes at an offset.
abbrev pub field : ℕ → ℕ → Bytes → ℕ
field n start b = little_endian n (drop start b)

-- `zipDirectory`
pub record ZipDirectory : Type 0 where
  pub eocd_offset : ℕ
  pub cd_offset : ℤ
  pub cd_size : ℤ
  pub records : ℕ
  pub tail_offset : ℕ
  pub tail : Bytes

-- `tailLen`
abbrev pub tail_len : ℕ → ℕ
tail_len size = min (66 * 1024) size

-- The bytes of a buffer that a read has not filled.
unfoldable pub zeros : ℕ → Bytes
zeros zero = []
zeros (suc n) = 0 ∷ zeros n

-- A buffer of `n` bytes after a read of `b` into it.
unfoldable pub buffer : ℕ → Bytes → Bytes
unfolding zeros
buffer n b = b ++ zeros (n - length b)

-- The error of a read that must fill its buffer, `n` bytes long.
abbrev pub read_failure : ℕ → Bytes × Option GoError → Option GoError
read_failure n (b, none) = none
read_failure n (b, some e) = if is_eof (some e) && eqb (length b) n then none else some (wrap e)

-- Whether an end record stands at `i`, with a comment up to the end of the tail.
unfoldable pub ends_at : Bytes → ℕ → Bool
ends_at tail i =
    eqb (field 4 i tail) eocd_signature && eqb (i + eocd_len + field 2 (i + 20) tail) (length tail)

-- The backward scan, over the places before `n`.
unfoldable pub scan : Bytes → ℕ → Option ℕ
scan tail zero = none
scan tail (suc i) = let rest = scan tail i in if ends_at tail i then some i else rest

abbrev pub located : Bytes → Option ℕ → Result (Bytes × ℕ)
located tail none = err (wrap (sentinel not_zip))
located tail (some i) = ok (tail, i)

-- The search for the end record after the tail of `n` bytes has been read.
abbrev pub search_tail : ℕ → Bytes × Option GoError → Result (Bytes × ℕ)
search_tail n (b, e) = elim (read_failure n (b, e)) [
  | some x ↦ err x
  | none ↦ let tail = buffer n b in located tail (scan tail (n + 1 - eocd_len))
]

-- The start of `readZipDirectory`: the tail, and the place of the end record in it.
unfoldable pub read_tail : ReaderAt → ℕ → Result (Bytes × ℕ)
unfolding scan buffer
read_tail r size =
    if ltb size eocd_len
    then err (wrap (sentinel not_zip))
    else search_tail (tail_len size) (r (tail_len size) (pos (size - tail_len size)))

-- The fields of the 32-bit end record at `i`.
unfoldable pub plain_directory : ℕ → Bytes → ℕ → ZipDirectory
unfolding little_endian
plain_directory tail_offset tail i = record {
  eocd_offset = tail_offset + i;
  cd_offset = pos (field 4 (i + 16) tail);
  cd_size = pos (field 4 (i + 12) tail);
  records = field 2 (i + 10) tail;
  tail_offset = tail_offset;
  tail = tail;
}

abbrev pub filled : ℕ → Bytes × Option GoError → Result Bytes
filled n (b, none) = ok (buffer n b)
filled n (b, some e) = if is_eof (some e) then ok (buffer n b) else err e

-- `readAtCached`, at an offset that is not negative.
unfoldable pub read_at_cached : ReaderAt → ZipDirectory → ℕ → ℕ → MayPanic Bytes
unfolding buffer
read_at_cached r d start n =
    let s = start - d.tail_offset in
    if leb d.tail_offset start
      && not (ltz (pos (d.tail_offset + length d.tail)) (add_int64 (pos start) (pos n)))
    then (if leb (s + n) (length d.tail) then returns (ok (take n (drop s d.tail))) else panics)
    else returns (filled n (r n (pos start)))

-- The check on the offset of the zip64 end record, whose bits are `start`.
abbrev pub out_of_range : ZipDirectory → ℕ → Bool
out_of_range d start =
    leb (2 ^ 63) start
    || ltz (pos (d.eocd_offset - zip64_locator_len)) (add_int64 (pos start) (pos zip64_eocd_len))

-- What the zip64 end record `rec` says; and `dirEnd`.
abbrev pub take_record : ZipDirectory → ℕ → Bytes → MayPanic (ZipDirectory × ℕ)
take_record d start rec =
    if eqb (field 4 0 rec) zip64_eocd_signature
    then returns (
        ok (
          record d {
            records = field 8 32 rec;
            cd_size = as_int64 (field 8 40 rec);
            cd_offset = as_int64 (field 8 48 rec);
          },
          start,
        ))
    else returns (err (wrap (sentinel corrupt_zip)))

-- The part of `readZipDirectory` on the zip64 end record.
unfoldable pub read_zip64 : ReaderAt → ZipDirectory → ℕ → MayPanic (ZipDirectory × ℕ)
unfolding read_at_cached little_endian
read_zip64 r d start =
    if out_of_range d start
    then returns (err (wrap (sentinel corrupt_zip)))
    else and_then (wrap_failure (read_at_cached r d start zip64_eocd_len)) (take_record d start)

abbrev pub after_locator : ReaderAt → ZipDirectory → Bytes → MayPanic (ZipDirectory × ℕ)
after_locator r d loc =
    if eqb (field 4 0 loc) zip64_locator_sig
    then read_zip64 r d (field 8 8 loc)
    else returns (ok (d, d.eocd_offset))

-- The zip64 locator, which stands right before the end record.
unfoldable pub read_locator : ReaderAt → ZipDirectory → MayPanic (ZipDirectory × ℕ)
unfolding read_at_cached little_endian read_zip64
read_locator r d =
    if ltb d.eocd_offset zip64_locator_len
    then returns (ok (d, d.eocd_offset))
    else and_then
        (wrap_failure (read_at_cached r d (d.eocd_offset - zip64_locator_len) zip64_locator_len))
        (after_locator r d)

-- The last check of `readZipDirectory`.
unfoldable pub check_directory : ZipDirectory → ℕ → Result ZipDirectory
check_directory d dir_end =
    if ltz d.cd_offset (pos 0)
      || ltz d.cd_size (pos 0)
      || ltz (pos dir_end) (add_int64 d.cd_offset d.cd_size)
    then err (wrap (sentinel corrupt_zip))
    else ok d

abbrev pub check_end : ZipDirectory × ℕ → MayPanic ZipDirectory
check_end (d, dir_end) = returns (check_directory d dir_end)

abbrev pub after_search : ReaderAt → ℕ → Bytes × ℕ → MayPanic ZipDirectory
after_search r tail_offset (tail, i) =
    and_then (read_locator r (plain_directory tail_offset tail i)) check_end

-- `readZipDirectory`
unfoldable pub read_zip_directory : ReaderAt → ℕ → MayPanic ZipDirectory
unfolding read_tail plain_directory read_locator check_directory
read_zip_directory r size =
    and_then (returns (read_tail r size)) (after_search r (size - tail_len size))

-- `FindEOCD`
unfoldable pub find_eocd : ReaderAt → ℕ → MayPanic ℕ
unfolding read_zip_directory
find_eocd r size = and_then (read_zip_directory r size) (λ d. returns (ok d.eocd_offset))

-- `GetCentralDirectoryOffset`
unfoldable pub get_central_directory_offset : ReaderAt → ℕ → MayPanic ℤ
unfolding read_zip_directory
get_central_directory_offset r size =
    and_then (read_zip_directory r size) (λ d. returns (ok d.cd_offset))

-- `ZipEntryCount`
unfoldable pub zip_entry_count : ReaderAt → ℕ → MayPanic ℕ
unfolding read_zip_directory
zip_entry_count r size = and_then (read_zip_directory r size) (λ d. returns (ok d.records))
