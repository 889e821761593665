-- ===== src/Archive/Parts/Presented.antt =====
-- `GetZipPartRanges` as a whole: what the zip library is given, and what is made of its answer.
use mathlib.Core.List.{append_assoc}
use t_sync_sdk_go.Base.{
  ℕ, ◌+◌, ◌-◌, ◌%◌, ◌^◌, ◌≡◌, ◌≤◌, ◌<◌, refl, sym, ap, ◌∙◌, subst, inl, inr, true, none, List, [],
  ◌∷◌, ◌++◌, arith, All, Bool-cases, eqb, ltb, leb, pos, length, length-take, length-drop, take,
  drop, drop_all, drop-drop, take-append-drop, take-take-min, take-take-drop, min,
}
use t_sync_sdk_go.Base.Bytes.{Bytes}
use t_sync_sdk_go.Errors.{Result, ok, err, ◌>>=◌, bind_ok}
use t_sync_sdk_go.Streams.{ReaderAt, ReadsAt}
use t_sync_sdk_go.Archive.{returns, eocd_len, ZipDirectory, buffer, read_zip_directory}
use t_sync_sdk_go.Archive.Scan.{near_the_end, buffer-full}
use t_sync_sdk_go.Archive.Zip64.{and_then-ok}
use t_sync_sdk_go.Archive.Offsets.{IsDirectory, read_zip_directory-IsDirectory}
use t_sync_sdk_go.Archive.Records.{IsOfRecords, read_zip_directory-IsOfRecords}
use t_sync_sdk_go.Archive.Parts.{
  cached_read_at, ZipFile, ZipPartRange, ZipParser, local_offsets, sort_files, ranges_of,
  directory_offset, with_head, fill_cache, clear_uint16, without_comment, parsed, part_ranges,
  parse_cache, parse_parts, get_zip_part_ranges,
}
use t_sync_sdk_go.Archive.Parts.Tiles.{ArePartsOf, ranges_of-ArePartsOf}
use t_sync_sdk_go.Archive.Parts.Cached.{cached_read_at-ReadsAt}

-- The file up to the end record, whose comment is declared empty.
abbrev pub uncommented : Bytes → ℕ → Bytes
uncommented s eocd = take (eocd + 20) s ++ 0 ∷ 0 ∷ []

least : (e c : ℕ) → c ≤ e → min (e - c + 20) (e + 22 - c) ≡ e - c + 20
least e c low = omega arith

sum_up : (e c : ℕ) → c ≤ e → c + (e - c + 20) ≡ e + 20
sum_up e c low = omega arith

module _ (r : ReaderAt) (s : Bytes) (reads : ReadsAt r s) (d : ZipDirectory)
    (right : IsDirectory s d) (bytes : All (λ x. x < 256) s) (fits : length s ≤ 2 ^ 62) where
  offset_right : directory_offset d ≡ right.cd_start
  offset_right = ground (arith, right.offset_eq)

  room : d.eocd_offset + 22 ≤ length s
  room = (near_the_end s d.eocd_offset bytes right.end_record.stands).0

  directory_read :
      (start n : ℕ) → start + n ≡ d.tail_offset → r n (pos start) ≡ (take n (drop start s), none)
  directory_read start n sum =
      let inside : d.tail_offset ≤ d.eocd_offset = right.inside.0 in
      let enough : leb (start + n) (length s) ≡ true = ground (arith, inside, room) in
      reads n start (omega (arith, inside, room)) (omega (arith, inside, room)) ∙ rw enough refl

  with_head-drop :
      (start n c : ℕ) (cache : Bytes)
      → start + n ≡ d.tail_offset
      → with_head start n d.tail (take n (drop start s), none) ≡ ok (c, cache)
      → (c ≤ d.eocd_offset) × (cache ≡ drop c s)
  with_head-drop start n c cache sum h =
      let inside : d.tail_offset ≤ d.eocd_offset = right.inside.0 in
      let full : buffer n (take n (drop start s)) ≡ take n (drop start s) =
        buffer-full n (take n (drop start s))
          (omega (arith, length-take n (drop start s), length-drop start s, inside, room)) in
      let tail : drop n (drop start s) ≡ d.tail =
        drop-drop n start s ∙ ap (λ k. drop k s) sum ∙ sym right.tail_eq in
      let all : buffer n (take n (drop start s)) ++ d.tail ≡ drop start s =
        ap (λ z. z ++ d.tail) full
        ∙ ap (λ z. take n (drop start s) ++ z) (sym tail)
        ∙ take-append-drop n (drop start s) in
      let same : start ≡ c = ground arith in
      let content : buffer n (take n (drop start s)) ++ d.tail ≡ cache = ground arith in
      (omega (arith, inside), sym content ∙ all ∙ ap (λ k. drop k s) same)

  -- The cache is the file from its offset on.
  fill_cache-drop :
      (c : ℕ) (cache : Bytes)
      → fill_cache r d ≡ ok (c, cache)
      → (c ≤ d.eocd_offset) × (cache ≡ drop c s)
  unfolding fill_cache
  fill_cache-drop c cache h = elim (Bool-cases (ltb (directory_offset d) d.tail_offset)) [
    | inr within ↦
        let inside : d.tail_offset ≤ d.eocd_offset = right.inside.0 in
        let same : d.tail_offset ≡ c = ground arith in
        let content : d.tail ≡ cache = ground arith in
        (omega (arith, inside), sym content ∙ right.tail_eq ∙ ap (λ k. drop k s) same)
    | inl before ↦
        let start = directory_offset d in
        let n = d.tail_offset - start in
        let sum : start + n ≡ d.tail_offset = ground arith in
        with_head-drop start n c cache sum
          (sym (ap (with_head start n d.tail) (directory_read start n sum)) ∙ ground arith)
  ]

  -- The cut and the cleared comment length, on a file that starts at `c`.
  uncommented-split :
      (c e : ℕ)
      → c ≤ e
      → e + 22 ≤ length s
      → take c s ++ clear_uint16 (e - c + 20) (take (e + 22 - c) (drop c s)) ≡ uncommented s e
  unfolding clear_uint16
  uncommented-split c e low high =
      let cut = take (e + 22 - c) (drop c s) in
      let short : length cut ≤ e - c + 20 + 2 =
        omega (arith, length-take (e + 22 - c) (drop c s)) in
      let front : take (e - c + 20) cut ≡ take (e - c + 20) (drop c s) =
        take-take-min (e - c + 20) (e + 22 - c) (drop c s)
        ∙ ap (λ k. take k (drop c s)) (least e c low) in
      ap (λ z. take c s ++ (take (e - c + 20) cut ++ 0 ∷ 0 ∷ z))
        (drop_all (e - c + 20 + 2) cut short)
      ∙ ap (λ z. take c s ++ (z ++ 0 ∷ 0 ∷ [])) front
      ∙ sym (append_assoc (take c s) (take (e - c + 20) (drop c s)) (0 ∷ 0 ∷ []))
      ∙ ap (λ z. z ++ 0 ∷ 0 ∷ []) (take-take-drop c (e - c + 20) s)
      ∙ ap (λ k. take k s ++ 0 ∷ 0 ∷ []) (sum_up e c low)

  -- What the zip library is given to read.
  presented-ReadsAt :
      (c : ℕ) (cache : Bytes)
      → fill_cache r d ≡ ok (c, cache)
      → ReadsAt (cached_read_at r c (without_comment d c cache)) (uncommented s d.eocd_offset)
  unfolding without_comment
  presented-ReadsAt c cache h =
      let (low, same) = fill_cache-drop c cache h in
      let e = d.eocd_offset in
      let content : take c s ++ without_comment d c cache ≡ uncommented s e =
        ap (λ z. take c s ++ clear_uint16 (e - c + 20) (take (e + 22 - c) z)) same
        ∙ uncommented-split c e low room in
      subst (ReadsAt (cached_read_at r c (without_comment d c cache))) content
        (cached_read_at-ReadsAt r s reads c (omega (arith, low, room)) (without_comment d c cache))

-- What is asked of the ranges that `GetZipPartRanges` returns for the file `s`.
pub record ArePartRanges (parse : ZipParser) (s : Bytes) (ranges : List ZipPartRange) : Type 0 where
  pub directory : ZipDirectory
  pub right : IsDirectory s directory
  pub of_records : IsOfRecords s directory
  pub reader : ReaderAt
  pub sees : ReadsAt reader (uncommented s directory.eocd_offset)
  pub files : List ZipFile
  pub found : parse reader (directory.eocd_offset + 22) ≡ ok files
  pub counted : length files % 2 ^ 16 ≡ directory.records % 2 ^ 16
  pub parts : ArePartsOf files right.cd_start ranges

parsed-ok : (x : Result (List ZipFile)) (files : List ZipFile) → parsed x ≡ ok files → x ≡ ok files
parsed-ok (ok fs) files h = h
parsed-ok (err e) files h = absurd (ground arith)

part_ranges-counted :
    (d : ZipDirectory) (files : List ZipFile) (ranges : List ZipPartRange)
    → part_ranges d files ≡ ok ranges
    → (length files % 2 ^ 16 ≡ d.records % 2 ^ 16)
      × ((local_offsets (directory_offset d) files
            >>= (λ os. ranges_of (directory_offset d) (sort_files os)))
          ≡ ok ranges)
part_ranges-counted d files ranges h =
    elim (Bool-cases (eqb (length files % 2 ^ 16) (d.records % 2 ^ 16))) [
      | inl same ↦ (ground arith, ground arith)
      | inr other ↦ absurd (ground arith)
    ]

-- If the reader reads the file `s`, then the ranges that `GetZipPartRanges` returns are those of the
-- directory that the file's own end records give, byte by byte: its number of entries, its size and
-- its offset are the fields of the last end record of the file, or those of the zip64 end record,
-- where a locator stands right before the last end record and points to it. The files of the ranges
-- are an answer of the zip library, given a reader of exactly the file up to its last end record,
-- with the comment's length cleared there. Their number agrees with the number of entries in 16
-- bits. And the ranges are the parts of those files: one for each, from its local header on, without
-- overlap and without a gap up to the directory.
pub get_zip_part_ranges-ArePartRanges :
    (parse : ZipParser) (r : ReaderAt) (s : Bytes) (ranges : List ZipPartRange)
    → ReadsAt r s
    → length s ≤ 2 ^ 62
    → All (λ x. x < 256) s
    → get_zip_part_ranges parse r (length s) ≡ returns (ok ranges)
    → ArePartRanges parse s ranges
unfolding get_zip_part_ranges parse_parts
get_zip_part_ranges-ArePartRanges parse r s ranges reads fits bytes h =
    let (d, found, rest) =
      and_then-ok (read_zip_directory r (length s)) (λ d. returns (parse_parts parse r d)) ranges
        h in
    let right = read_zip_directory-IsDirectory r s d reads fits bytes found in
    let ((c, cache), filled, after) =
      bind_ok (fill_cache r d) (parse_cache parse r d) ranges (ground (arith, rest)) in
    let reader = cached_read_at r c (without_comment d c cache) in
    let (files, got, ranged) =
      bind_ok (parsed (parse reader (d.eocd_offset + eocd_len))) (part_ranges d) ranges after in
    let (counted, ranged') = part_ranges-counted d files ranges ranged in
    record {
      directory = d;
      right = right;
      of_records = read_zip_directory-IsOfRecords r s d reads fits bytes found;
      reader = reader;
      sees = presented-ReadsAt r s reads d right bytes fits c cache filled;
      files = files;
      found = parsed-ok (parse reader (d.eocd_offset + eocd_len)) files got;
      counted = counted;
      parts =
          subst (λ k. ArePartsOf files k ranges) (offset_right r s reads d right bytes fits)
            (ranges_of-ArePartsOf (directory_offset d) files ranges ranged');
    }
