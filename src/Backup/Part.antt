-- ===== src/Backup/Part.antt =====
-- tsync/backup.go: the writing of one part (`copyRawPart`, `writeRawCompressedPart`,
-- `writeCompressedPart`), with the zip library and the storage's writers as parameters; the
-- entries of tsync/source.go; and the CRC-32 of Go's hash/crc32.
use t_sync_sdk_go.Base.{
  ℕ, zero, suc, ◌+◌, ◌-◌, ◌*◌, ◌/◌, ◌%◌, ◌^◌, Bool, false, Option, none, some, [], ◌∷◌,
  if◌then◌else◌, eqb, ltb, length, ℤ, pos, negsuc,
}
use t_sync_sdk_go.Base.Bytes.{Bytes}
use t_sync_sdk_go.Errors.{GoError, sentinel, wrap, corrupt_zip, Result, ok, err}
use t_sync_sdk_go.Streams.{Reader}
use t_sync_sdk_go.Base.{as_int64, as_uint64}
use t_sync_sdk_go.Metadata.{Storage}
use t_sync_sdk_go.Names.{base}

-- `Open` (here `open_content`) of an entry may be called twice, and may give other bytes the second time.
pub data Purpose : Type 0 where
  hashing uploading : Purpose

-- `SourceEntry`; a nil closure is absent.
pub record SourceEntry : Type 0 where
  pub path : Bytes
  pub is_dir : Bool
  pub size : ℤ
  pub crc32 : ℕ
  pub compressed_size : ℤ
  pub compression_method : ℕ
  pub last_modified : ℕ
  pub is_encrypted_raw : Bool
  pub open_content : Option (Purpose → Result Reader)
  pub open_raw : Option (Result Reader)
  pub open_raw_compressed : Option (Result Reader)

-- `zip.FileHeader`, as far as the SDK sets and reads it; an empty password sets no encryption.
pub record FileHeader : Type 0 where
  pub name : Bytes
  pub method : ℕ
  pub compression_level : ℤ
  pub crc32 : ℕ
  pub compressed_size64 : ℕ
  pub uncompressed_size64 : ℕ
  pub modified : ℕ
  pub password : Bytes

-- `CreateRawFileParts` and `CreateFileParts` of the zip library, with the copy of a content into
-- the part and `Close`: the bytes for the underlying writer, and the header as it is after that.
pub record Zip : Type 0 where
  pub raw_part : FileHeader → Bytes → Bytes × Result FileHeader
  pub file_part : FileHeader → Bytes → Bytes × Result FileHeader

-- The writers that `Storage.OpenWriter` gives. `abort` is absent for writers that are no
-- `AbortableWriter`.
pub record Writers (S : Storage) : Type 1 where
  pub Handle : Type 0
  pub open_writer : S.State → Bytes → S.State × Result Handle
  pub write : S.State → Handle → Bytes → S.State × Option GoError
  pub close : S.State → Handle → S.State × Option GoError
  pub abort : Option (S.State → Handle → S.State × Option GoError)

-- The bits of `crc ^ x`, the lowest `n` of them.
unfoldable pub bit_xor : ℕ → ℕ → ℕ → ℕ
bit_xor zero a b = 0
bit_xor (suc n) a b = (a + b) % 2 + 2 * bit_xor n (a / 2) (b / 2)

-- One bit of the reflected polynomial 0xEDB88320.
unfoldable pub crc_bits : ℕ → ℕ → ℕ
crc_bits zero c = c
crc_bits (suc n) c = crc_bits n (if eqb (c % 2) 1 then bit_xor 32 (c / 2) 3988292384 else c / 2)

unfoldable pub crc_update : ℕ → Bytes → ℕ
crc_update c [] = c
crc_update c (x ∷ s) = crc_update (crc_bits 8 (bit_xor 32 c x)) s

-- `crc32.NewIEEE`, written to and summed.
unfoldable pub crc32_ieee : Bytes → ℕ
unfolding crc_update
crc32_ieee s = bit_xor 32 (crc_update (2 ^ 32 - 1) s) (2 ^ 32 - 1)

-- The first error of two.
abbrev pub first_error : Option GoError → Option GoError → Option GoError
first_error none e = e
first_error (some x) e = some x

abbrev pub failure_of : {A : Type 0} → Result A → Option GoError
failure_of (ok a) = none
failure_of (err e) = some e

abbrev pub wrapped : Option GoError → Option GoError
wrapped none = none
wrapped (some e) = some (wrap e)

-- Whether `n < limit`, for an `int64` limit.
abbrev pub shorter : ℕ → ℤ → Bool
shorter n (pos limit) = ltb n limit
shorter n (negsuc limit) = false

module _ (S : Storage) (W : Writers S) where
  -- `copyRawPart`
  unfoldable pub copy_raw_part :
      W.Handle → Reader → SourceEntry → S.State → S.State × Option GoError
  copy_raw_part w rc entry s =
      let (s', e) = W.write s w rc.content in
      (
        s',
        elim (first_error e rc.failure) [
          | some x ↦ some (wrap x)
          | none ↦
              if shorter (length rc.content) entry.compressed_size
              then some (wrap (sentinel corrupt_zip))
              else none
        ],
      )

  -- A part that the zip library makes: the header it leaves, unless the writing, the reading or
  -- the closing fails.
  unfoldable pub write_zip :
      W.Handle → Reader → Bytes × Result FileHeader → S.State → S.State × Result FileHeader
  write_zip w rc made s =
      let (s', e) = W.write s w made.0 in
      (
        s',
        elim (first_error e (first_error rc.failure (failure_of made.1))) [
          | some x ↦ err (wrap x)
          | none ↦ made.1
        ],
      )

  -- `writeRawCompressedPart`: the compressed size, as written.
  unfoldable pub write_raw_compressed_part :
      Zip → Bytes → W.Handle → Reader → SourceEntry → S.State → S.State × Result ℤ
  write_raw_compressed_part zip password w rc entry s =
      let fh : FileHeader = record {
        name = base entry.path;
        method = entry.compression_method;
        compression_level = pos 0;
        crc32 = entry.crc32;
        compressed_size64 = as_uint64 entry.compressed_size;
        uncompressed_size64 = as_uint64 entry.size;
        modified = entry.last_modified;
        password = password;
      } in
      let (s', made) = write_zip w rc (zip.raw_part fh rc.content) s in
      (s', elim made [ err x ↦ err x | ok h ↦ ok (as_int64 h.compressed_size64) ])

  -- `writeCompressedPart`: the CRC, the uncompressed and the compressed size.
  unfoldable pub write_compressed_part :
      Zip → Bytes → ℕ → ℤ → W.Handle → Reader → SourceEntry → S.State → S.State × Result (ℕ × ℤ × ℤ)
  write_compressed_part zip password method level w rc entry s =
      let fh : FileHeader = record {
        name = base entry.path;
        method = method;
        compression_level = level;
        crc32 = 0;
        compressed_size64 = 0;
        uncompressed_size64 = 0;
        modified = 0;
        password = password;
      } in
      let (s', made) = write_zip w rc (zip.file_part fh rc.content) s in
      (
        s',
        elim made [
          | err x ↦ err x
          | ok h ↦ ok (h.crc32, as_int64 h.uncompressed_size64, as_int64 h.compressed_size64)
        ],
      )

  -- `abortWriter`
  unfoldable pub abort_writer : W.Handle → S.State → S.State × Option GoError
  abort_writer w s = elim W.abort [ some f ↦ f s w | none ↦ W.close s w ]
