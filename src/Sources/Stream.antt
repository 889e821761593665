-- ===== src/Sources/Stream.antt =====
-- A stream that ends without an error has given the content that the central directory declares.
use mathlib.Core.List.{append_assoc}
use t_sync_sdk_go.Base.{
  ℕ, ◌+◌, ◌-◌, ◌%◌, ◌^◌, ◌≡◌, ◌≢◌, ◌<◌, refl, sym, ap, ◌∙◌, subst, inl, inr, true, Option, none,
  some, List, [], ◌∷◌, ◌++◌, arith, Bool-cases, Option-cases, eqb, ltb, pos, length, length-append,
  if◌then◌else◌,
}
use t_sync_sdk_go.Base.Bytes.{Bytes}
use t_sync_sdk_go.Errors.{GoError, ok, bind_ok}
use t_sync_sdk_go.Streams.{Reader, is_eof, read_full}
use t_sync_sdk_go.Metadata.{Storage}
use t_sync_sdk_go.Names.{zip_deflate}
use t_sync_sdk_go.Archive.Parts.{ZipFile, ZipPartRange}
use t_sync_sdk_go.Backup.Part.{bit_xor, crc_bits, crc_update, crc32_ieee}
use t_sync_sdk_go.Sources.{
  EntryStream, new_stream, verdict, continued, read_entry, read_stream, Library, as_reader,
  streamed, stream_of, after_header, local_file_header_len, open_zip_entry_stream,
}

crc_update-append :
    (a : Bytes) (c : ℕ) (b : Bytes) → crc_update c (a ++ b) ≡ crc_update (crc_update c a) b
unfolding crc_update
crc_update-append [] c b = refl
crc_update-append (x ∷ a) c b = crc_update-append a (crc_bits 8 (bit_xor 32 c x)) b

-- The number of bytes that the reads give.
abbrev pub total : List (Bytes × Option GoError) → ℕ
total [] = 0
total ((b, e) ∷ chunks) = length b + total chunks

-- The reads of a reader up to its end: the last one gives an error, io.EOF or another.
abbrev pub IsDrained : List (Bytes × Option GoError) → Type 0
IsDrained [] = ⊥
IsDrained ((b, e) ∷ []) = e ≢ none
IsDrained ((b, e) ∷ c ∷ chunks) = IsDrained (c ∷ chunks)

-- What the stream keeps: the sum and the number of the bytes that it has given.
record HasSeen (z : EntryStream) (seen : Bytes) : Type 0 where
  hash_eq : z.hash ≡ crc_update (2 ^ 32 - 1) seen
  n_eq : z.n ≡ length seen
  alive : z.failure ≡ none

-- What is asked of a content that has been read without error.
pub record IsDeclared (f : ZipFile) (b : Bytes) : Type 0 where
  pub size_eq : length b ≡ f.uncompressed_size64
  pub crc_eq : crc32_ieee b ≡ f.crc32

verdict-eof :
    (f : ZipFile) (n hash : ℕ) (e : Option GoError)
    → is_eof (verdict f n hash e) ≡ true
    → (n ≡ f.uncompressed_size64) × (bit_xor 32 hash (2 ^ 32 - 1) ≡ f.crc32)
verdict-eof f n hash e h = elim (Bool-cases (ltb f.uncompressed_size64 n)) [
  | inl beyond ↦ absurd (ground arith)
  | inr within ↦ elim (Bool-cases (is_eof e)) [
    | inr other ↦ absurd (ground arith)
    | inl ended ↦ elim (Bool-cases (eqb n f.uncompressed_size64)) [
      | inr short ↦ absurd (ground arith)
      | inl full ↦ elim (Bool-cases (eqb (bit_xor 32 hash (2 ^ 32 - 1)) f.crc32)) [
        | inr changed ↦ absurd (ground arith)
        | inl right ↦ (ground arith, ground arith)
      ]
    ]
  ]
]

-- A read of a stream without an error so far.
read_entry-alive :
    (f : ZipFile) (z : EntryStream) (chunk : Bytes) (e : Option GoError)
    → z.failure ≡ none
    → let hash = crc_update z.hash chunk in
      let n = (z.n + length chunk) % 2 ^ 64 in
      let e' = verdict f n hash e in
      Path
        (EntryStream × Bytes × Option GoError)
        (read_entry f z chunk e)
        (record { hash = hash; n = n; failure = e' }, chunk, e')
unfolding read_entry
read_entry-alive f z chunk e alive = rw alive refl

crc_of :
    (hash : ℕ) (b : Bytes)
    → hash ≡ crc_update (2 ^ 32 - 1) b
    → crc32_ieee b ≡ bit_xor 32 hash (2 ^ 32 - 1)
unfolding crc32_ieee
crc_of hash b h = ap (λ c. bit_xor 32 c (2 ^ 32 - 1)) (sym h)

module _ (f : ZipFile) where
  read_on :
      (z : EntryStream) (seen chunk : Bytes) (hash n : ℕ)
      → HasSeen z seen
      → length seen + length chunk < 2 ^ 64
      → hash ≡ crc_update z.hash chunk
      → n ≡ (z.n + length chunk) % 2 ^ 64
      → (hash ≡ crc_update (2 ^ 32 - 1) (seen ++ chunk)) × (n ≡ length (seen ++ chunk))
  read_on z seen chunk hash n has few eh en = (
    eh ∙ ap (λ c. crc_update c chunk) has.hash_eq ∙ sym (crc_update-append seen (2 ^ 32 - 1) chunk),
    omega (arith, length-append seen chunk, has.n_eq),
  )

  read_stream-IsDeclared :
      (chunks : List (Bytes × Option GoError)) (z : EntryStream) (seen : Bytes)
      → HasSeen z seen
      → length seen + total chunks < 2 ^ 64
      → is_eof (read_stream f z chunks).1 ≡ true
      → IsDeclared f (seen ++ (read_stream f z chunks).0)
  unfolding read_stream
  read_stream-IsDeclared [] z seen has few h = absurd (ground arith)
  read_stream-IsDeclared ((chunk, e) ∷ chunks) z seen has few h =
      let hash = crc_update z.hash chunk in
      let n = (z.n + length chunk) % 2 ^ 64 in
      let e' = verdict f n hash e in
      let (hash', n') = read_on z seen chunk hash n has (omega arith) refl refl in
      let z' : EntryStream = record { hash = hash; n = n; failure = e' } in
      let step : Path (EntryStream × Bytes × Option GoError) (read_entry f z chunk e)
          (z', chunk, e') =
        read_entry-alive f z chunk e has.alive in
      let whole : read_stream f z ((chunk, e) ∷ chunks)
          ≡ continued chunk e' (read_stream f z' chunks) =
        ap (λ (a, b, x). continued b x (read_stream f a chunks)) step in
      elim (Option-cases e') [
        | inr (y, ended) ↦
            let last = whole ∙ ap (λ x. continued chunk x (read_stream f z' chunks)) ended in
            let clean : is_eof e' ≡ true = ap is_eof ended ∙ sym (ap (λ t. is_eof t.1) last) ∙ h in
            let (full, right) = verdict-eof f n hash e clean in
            subst (λ t. IsDeclared f (seen ++ t.0)) (sym last)
              (record {
                size_eq = sym n' ∙ full;
                crc_eq = crc_of hash (seen ++ chunk) hash' ∙ right;
              })
        | inl more ↦
            let rest = read_stream f z' chunks in
            let next : read_stream f z ((chunk, e) ∷ chunks) ≡ (chunk ++ rest.0, rest.1) =
              whole ∙ ap (λ x. continued chunk x rest) more in
            let ih =
              read_stream-IsDeclared chunks z' (seen ++ chunk)
                (record { hash_eq = hash'; n_eq = n'; alive = more })
                (omega (arith, length-append seen chunk)) (sym (ap (λ t. is_eof t.1) next) ∙ h) in
            subst (λ t. IsDeclared f (seen ++ t.0)) (sym next)
              (subst (IsDeclared f) (append_assoc seen chunk rest.0) ih)
      ]

start_sum : 2 ^ 32 - 1 ≡ crc_update (2 ^ 32 - 1) []
unfolding crc_update
start_sum = refl

module _ (lib : Library) where
  -- What `io.Reader` promises of the reads of a reader: they come to its end, and their number of
  -- bytes is one that a 64-bit number can hold.
  pub record ReadsToTheEnd : Type 0 where
    pub drained : (rc : Reader) → IsDrained (lib.reads rc)
    pub countable : (rc : Reader) → total (lib.reads rc) < 2 ^ 64

verdict_ends :
    (f : ZipFile) (n hash : ℕ) (e : Option GoError) → e ≢ none → verdict f n hash e ≢ none
verdict_ends f n hash none some_error h = some_error refl
verdict_ends f n hash (some x) some_error h = elim (Bool-cases (ltb f.uncompressed_size64 n)) [
  | inl beyond ↦ absurd (ground arith)
  | inr within ↦ elim (Bool-cases (is_eof (some x))) [
    | inr other ↦ absurd (ground arith)
    | inl ended ↦ elim (Bool-cases (eqb n f.uncompressed_size64)) [
      | inr short ↦ absurd (ground arith)
      | inl full ↦ absurd (ground arith)
    ]
  ]
]

continued-none :
    (b : Bytes) (e : Option GoError) (rest : Bytes × Option GoError)
    → (continued b e rest).1 ≡ none
    → (e ≡ none) × (rest.1 ≡ none)
continued-none b none rest h = (refl, h)
continued-none b (some x) rest h = absurd (ground arith)

last_read :
    (f : ZipFile) (z : EntryStream) (chunk : Bytes) (e : Option GoError)
    → e ≢ none
    → (read_entry f z chunk e).2 ≢ none
unfolding read_entry
last_read f z chunk e some_error h = elim (Option-cases z.failure) [
  | inr (x, failed) ↦ absurd (ground (arith, failed))
  | inl alive ↦
      verdict_ends f ((z.n + length chunk) % 2 ^ 64) (crc_update z.hash chunk) e some_error
        (ground (arith, alive))
]

drained_ends :
    (f : ZipFile) (chunks : List (Bytes × Option GoError)) (z : EntryStream)
    → IsDrained chunks
    → (read_stream f z chunks).1 ≢ none
unfolding read_stream
drained_ends f [] z d h = d
drained_ends f ((chunk, e) ∷ []) z d h =
    let (z', b, x) = read_entry f z chunk e in
    last_read f z chunk e d (continued-none b x (read_stream f z' []) h).0
drained_ends f ((chunk, e) ∷ next ∷ chunks) z d h =
    let (z', b, x) = read_entry f z chunk e in
    drained_ends f (next ∷ chunks) z' d (continued-none b x (read_stream f z' (next ∷ chunks)) h).1

clean_end :
    (t : Bytes × Option GoError) → t.1 ≢ none → (as_reader t).failure ≡ none → is_eof t.1 ≡ true
clean_end (b, none) some_error h = absurd (some_error refl)
clean_end (b, some e) some_error h = ground arith

streamed-IsDeclared :
    (lib : Library) (f : ZipFile) (body : Reader)
    → ReadsToTheEnd lib
    → (streamed lib f body).failure ≡ none
    → IsDeclared f (streamed lib f body).content
streamed-IsDeclared lib f body reads clean =
    let source = if eqb f.method zip_deflate then lib.inflate body else body in
    let chunks = lib.reads source in
    let fresh : HasSeen new_stream [] = record { hash_eq = start_sum; n_eq = refl; alive = refl } in
    read_stream-IsDeclared f chunks new_stream [] fresh (omega (arith, reads.countable source)) (
      clean_end (read_stream f new_stream chunks)
        (drained_ends f chunks new_stream (reads.drained source)) clean)

-- A stream that `openZipEntryStream` opens and that ends without an error has given exactly a
-- content of the size and the CRC-32 that the central directory declares for the entry, whatever
-- the archive's bytes, the decompressor and the sizes of the reads are: a corrupt entry is not
-- taken for its content.
pub open_zip_entry_stream-IsDeclared :
    (lib : Library) (S : Storage) (s : S.State) (path : Bytes) (pr : ZipPartRange) (rc : Reader)
    → ReadsToTheEnd lib
    → open_zip_entry_stream lib S s path pr ≡ ok rc
    → rc.failure ≡ none
    → IsDeclared pr.file rc.content
unfolding open_zip_entry_stream
open_zip_entry_stream-IsDeclared lib S s path pr rc reads h clean =
    let f = pr.file in
    let (raw, opened, rest) =
      bind_ok (S.read_range s path (pos pr.start_offset) (pos (pr.end_offset - pr.start_offset)))
        (stream_of lib f) rc h in
    let (body, found, last) =
      bind_ok (after_header f raw (read_full local_file_header_len raw))
        (λ body. ok (streamed lib f body)) rc rest in
    let same : streamed lib f body ≡ rc = ground (arith, last) in
    subst (λ x. IsDeclared f x.content) same
      (streamed-IsDeclared lib f body reads (ap (λ x. x.failure) same ∙ clean))
