-- ===== src/Streams.antt =====
-- Go's readers, as the SDK uses them: `io.Reader`, `io.ReaderAt`, `io.ReadAll`, `io.ReadFull`; and
-- `StorageReaderAt` of tsync/storage.go.
use t_sync_sdk_go.Base.{
  ℕ, Bool, true, false, Option, none, some, [], ◌∷◌, if◌then◌else◌, leb, ℤ, length, take, drop, ◌+◌,
  ◌^◌, ◌≡◌, ◌<◌, pos,
}
use t_sync_sdk_go.Base.Bytes.{Bytes}
use t_sync_sdk_go.Errors.{GoError, sentinel, eof, unexpected_eof, Result, ok, err, sentinel_eq}

-- What a reader gives until its end, or until the error that cuts it off.
pub record Reader : Type 0 where
  pub content : Bytes
  pub failure : Option GoError

-- A reader of the whole of a content.
abbrev pub whole : Bytes → Reader
whole b = record { content = b; failure = none }

-- `io.ReadAll`
abbrev pub read_all : Reader → Result Bytes
read_all r = elim r.failure [ none ↦ ok r.content | some e ↦ err e ]

-- The error of a read that the end of the content cuts short.
abbrev pub short_read : Bytes → GoError
short_read [] = sentinel eof
short_read (x ∷ s) = sentinel unexpected_eof

-- `io.ReadFull` into `n` bytes: what has been read, and the error.
abbrev pub read_full : ℕ → Reader → Bytes × Option GoError
read_full n r =
    if leb n (length r.content)
    then (take n r.content, none)
    else (r.content, elim r.failure [ some e ↦ some e | none ↦ some (short_read r.content) ])

-- `ReadAt` into `n` bytes, from an offset: what has been read, and the error.
abbrev pub ReaderAt : Type 0
ReaderAt = ℕ → ℤ → Bytes × Option GoError

-- A reader at offsets that reads the content `d`: in full, or as far as it goes, and then with
-- io.EOF.
abbrev pub ReadsAt : ReaderAt → Bytes → Type 0
ReadsAt ra d =
    (n start : ℕ)
    → start + n < 2 ^ 63
    → start < length d
    → ra n (pos start)
      ≡ (take n (drop start d), if leb (start + n) (length d) then none else some (sentinel eof))

-- `err == io.EOF`
abbrev pub is_eof : Option GoError → Bool
is_eof (some (sentinel eof)) = true
is_eof e = false
