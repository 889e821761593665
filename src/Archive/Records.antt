-- ===== src/Archive/Records.antt =====
-- The end records of a zip file, and the directory that `readZipDirectory` takes from them.
use t_sync_sdk_go.Base.{
  ℕ, ◌+◌, ◌-◌, ◌^◌, ◌≡◌, ◌≤◌, ◌<◌, ◌≢◌, ◌⊎◌, sym, ap, ◌∙◌, subst, inl, inr, false, arith,
  Bool-cases, eqb, ltb, pos, as_int64, length, length-drop, take, drop, All,
}
use t_sync_sdk_go.Base.Bytes.{Bytes}
use t_sync_sdk_go.Errors.{ok}
use t_sync_sdk_go.Streams.{ReaderAt, ReadsAt}
use t_sync_sdk_go.Archive.{
  returns, and_then, wrap_failure, zip64_locator_len, zip64_locator_sig, zip64_eocd_len,
  zip64_eocd_signature, field, ZipDirectory, read_at_cached, out_of_range, take_record, read_zip64,
  after_locator, read_locator, tail_len, read_tail, plain_directory, check_directory, check_end,
  after_search, read_zip_directory,
}
use t_sync_sdk_go.Archive.Fields.{field-drop, field-read, read_at_cached-take}
use t_sync_sdk_go.Archive.Scan.{read_tail-last, near_the_end}
use t_sync_sdk_go.Archive.Offsets.{read_zip64-passed, read_zip64-refused, below_locator}
use t_sync_sdk_go.Archive.Zip64.{and_then-ok, wrap_failure-ok, IsSmall}

-- The directory of the 32-bit end record at `d.eocd_offset` of the file `s`.
pub record IsPlain (s : Bytes) (d : ZipDirectory) : Type 0 where
  pub records_eq : d.records ≡ field 2 (d.eocd_offset + 10) s
  pub size_eq : d.cd_size ≡ pos (field 4 (d.eocd_offset + 12) s)
  pub offset_eq : d.cd_offset ≡ pos (field 4 (d.eocd_offset + 16) s)

-- No zip64 locator stands right before the end record.
abbrev pub HasNoLocator : Bytes → ZipDirectory → Type 0
HasNoLocator s d =
    (d.eocd_offset < zip64_locator_len)
    ⊎ (field 4 (d.eocd_offset - zip64_locator_len) s ≢ zip64_locator_sig)

-- The directory of the zip64 end record of the file, to which the locator points that stands right
-- before the end record.
pub record IsZip64 (s : Bytes) (d : ZipDirectory) : Type 0 where
  pub locator : field 4 (d.eocd_offset - zip64_locator_len) s ≡ zip64_locator_sig
  pub start : ℕ
  pub start_eq : start ≡ field 8 (d.eocd_offset - zip64_locator_len + 8) s
  pub signature : field 4 start s ≡ zip64_eocd_signature
  pub records_eq : d.records ≡ field 8 (start + 32) s
  pub size_eq : d.cd_size ≡ as_int64 (field 8 (start + 40) s)
  pub offset_eq : d.cd_offset ≡ as_int64 (field 8 (start + 48) s)

-- What the file's end records say of its directory.
abbrev pub IsOfRecords : Bytes → ZipDirectory → Type 0
IsOfRecords s d = (HasNoLocator s d × IsPlain s d) ⊎ IsZip64 s d

not_below : (m n : ℕ) → ltb m n ≡ false → n ≤ m
not_below m n h = ground (arith, h)

module _ (r : ReaderAt) (s : Bytes) (reads : ReadsAt r s) (fits : length s ≤ 2 ^ 62) where
  take_record-IsZip64 :
      (d d' : ZipDirectory) (start dir_end : ℕ) (rec : Bytes)
      → rec ≡ take zip64_eocd_len (drop start s)
      → field 4 (d.eocd_offset - zip64_locator_len) s ≡ zip64_locator_sig
      → start ≡ field 8 (d.eocd_offset - zip64_locator_len + 8) s
      → take_record d start rec ≡ returns (ok (d', dir_end))
      → IsZip64 s d'
  take_record-IsZip64 d d' start dir_end rec got locator start_eq h =
      elim (Bool-cases (eqb (field 4 0 rec) zip64_eocd_signature)) [
        | inr bad ↦ absurd (ground (arith, bad))
        | inl good ↦
            let made : ZipDirectory = record d {
              records = field 8 32 rec;
              cd_size = as_int64 (field 8 40 rec);
              cd_offset = as_int64 (field 8 48 rec);
            } in
            let same : made ≡ d' = ground (arith, good) in
            let signed : field 4 0 rec ≡ zip64_eocd_signature = ground (arith, good) in
            subst (IsZip64 s) same (record {
              locator = locator;
              start = start;
              start_eq = start_eq;
              signature =
                  ap (λ k. field 4 k s) (omega arith) ∙ sym (place 4 0 (omega arith)) ∙ signed;
              records_eq = place 8 32 (omega arith);
              size_eq = ap as_int64 (place 8 40 (omega arith));
              offset_eq = ap as_int64 (place 8 48 (omega arith));
            })
      ]
    where
      place : (k i : ℕ) → i + k ≤ 56 → field k i rec ≡ field k (start + i) s
      place k i low = ap (field k i) got ∙ field-read k i zip64_eocd_len start s low

  module _ (d : ZipDirectory) (small : IsSmall d) (tail : d.tail ≡ drop d.tail_offset s)
      (room : d.eocd_offset ≤ length s) where
    read_zip64-IsZip64 :
        (d' : ZipDirectory) (start dir_end : ℕ)
        → field 4 (d.eocd_offset - zip64_locator_len) s ≡ zip64_locator_sig
        → start ≡ field 8 (d.eocd_offset - zip64_locator_len + 8) s
        → read_zip64 r d start ≡ returns (ok (d', dir_end))
        → IsZip64 s d'
    read_zip64-IsZip64 d' start dir_end locator start_eq h =
        elim (Bool-cases (out_of_range d start)) [
          | inl refused ↦ absurd (read_zip64-refused r d start (d', dir_end) refused h)
          | inr passed ↦
              let (rec, got, taken) =
                and_then-ok (wrap_failure (read_at_cached r d start zip64_eocd_len))
                  (take_record d start) (d', dir_end)
                  (sym (read_zip64-passed r d start passed) ∙ h) in
              let fine = wrap_failure-ok (read_at_cached r d start zip64_eocd_len) rec got in
              let below = below_locator r d start rec small passed fine in
              take_record-IsZip64 d d' start dir_end rec
                (read_at_cached-take r s reads fits d start zip64_eocd_len rec tail (omega arith)
                  (omega (arith, below, room)) fine)
                locator start_eq taken
        ]

    after_locator-IsOfRecords :
        (d' : ZipDirectory) (dir_end : ℕ) (loc : Bytes)
        → IsPlain s d
        → loc ≡ take zip64_locator_len (drop (d.eocd_offset - zip64_locator_len) s)
        → after_locator r d loc ≡ returns (ok (d', dir_end))
        → IsOfRecords s d'
    after_locator-IsOfRecords d' dir_end loc plain got h =
        elim (Bool-cases (eqb (field 4 0 loc) zip64_locator_sig)) [
          | inl there ↦
              let signed : field 4 0 loc ≡ zip64_locator_sig = ground (arith, there) in
              inr (
                read_zip64-IsZip64 d' (field 8 8 loc) dir_end
                  (sym (first 4 0 (omega arith)) ∙ signed) (place 8 8 (omega arith))
                  (ground (arith, there)))
          | inr absent ↦
              let same : d ≡ d' = ground (arith, absent) in
              let unsigned : field 4 0 loc ≢ zip64_locator_sig = λ e. ground (arith, absent, e) in
              subst (IsOfRecords s) same
                (inl (inr (λ e. unsigned (first 4 0 (omega arith) ∙ e)), plain))
        ]
      where
        place :
            (k i : ℕ)
            → i + k ≤ 20
            → field k i loc ≡ field k (d.eocd_offset - zip64_locator_len + i) s
        place k i low =
            ap (field k i) got
            ∙ field-read k i zip64_locator_len (d.eocd_offset - zip64_locator_len) s low

        first :
            (k i : ℕ) → i + k ≤ 20 → field k 0 loc ≡ field k (d.eocd_offset - zip64_locator_len) s
        first k i low =
            let start = d.eocd_offset - zip64_locator_len in
            let same : start + 0 ≡ start = omega arith in
            ap (field k 0) got
            ∙ field-read k 0 zip64_locator_len start s (omega arith)
            ∙ ap (λ n. field k n s) same

    read_locator-IsOfRecords :
        (d' : ZipDirectory) (dir_end : ℕ)
        → IsPlain s d
        → read_locator r d ≡ returns (ok (d', dir_end))
        → IsOfRecords s d'
    unfolding read_locator
    read_locator-IsOfRecords d' dir_end plain h =
        elim (Bool-cases (ltb d.eocd_offset zip64_locator_len)) [
          | inl early ↦
              let same : d ≡ d' = ground (arith, early) in
              let low : d.eocd_offset < zip64_locator_len = ground (arith, early) in
              subst (IsOfRecords s) same (inl (inl low, plain))
          | inr late ↦
              let start = d.eocd_offset - zip64_locator_len in
              let passed : and_then (wrap_failure (read_at_cached r d start zip64_locator_len))
                    (after_locator r d)
                  ≡ returns (ok (d', dir_end)) =
                ground (arith, late) in
              let below = not_below d.eocd_offset zip64_locator_len late in
              let (loc, got, rest) =
                and_then-ok (wrap_failure (read_at_cached r d start zip64_locator_len))
                  (after_locator r d) (d', dir_end) passed in
              let fine = wrap_failure-ok (read_at_cached r d start zip64_locator_len) loc got in
              after_locator-IsOfRecords d' dir_end loc plain
                (read_at_cached-take r s reads fits d start zip64_locator_len loc tail (omega arith)
                  (omega (arith, below, room)) fine)
                rest
        ]

-- The fields that the search for the end record has read.
plain_directory-IsPlain :
    (start i : ℕ) (s tail : Bytes) → tail ≡ drop start s → IsPlain s (plain_directory start tail i)
unfolding plain_directory
plain_directory-IsPlain start i s tail same = record {
  records_eq = place 2 10;
  size_eq = ap pos (place 4 12);
  offset_eq = ap pos (place 4 16);
}
  where
    place : (k j : ℕ) → field k (i + j) tail ≡ field k (start + i + j) s
    place k j =
        let sum : start + (i + j) ≡ start + i + j = omega arith in
        ap (field k (i + j)) same ∙ field-drop k (i + j) start s ∙ ap (λ n. field k n s) sum

checked-same : (x : ZipDirectory × ℕ) (d : ZipDirectory) → check_end x ≡ returns (ok d) → x.0 ≡ d
unfolding check_directory
checked-same x d h = ground arith

-- The directory that `readZipDirectory` returns for the file `s` is the one that its end records
-- give, byte by byte.
pub read_zip_directory-IsOfRecords :
    (r : ReaderAt) (s : Bytes) (d : ZipDirectory)
    → ReadsAt r s
    → length s ≤ 2 ^ 62
    → All (λ x. x < 256) s
    → read_zip_directory r (length s) ≡ returns (ok d)
    → IsOfRecords s d
unfolding read_zip_directory plain_directory
read_zip_directory-IsOfRecords r s d reads fits bytes h =
    let size = length s in
    let start = size - tail_len size in
    let ((tail, i), found, rest) =
      and_then-ok (returns (read_tail r size)) (after_search r start) d h in
    let (same, last) =
      read_tail-last r s reads (omega arith) bytes tail i (ground (arith, found)) in
    let (room, near) = near_the_end s (start + i) bytes last.stands in
    let first = plain_directory start tail i in
    let len : length tail ≡ length s - start = ap length same ∙ length-drop start s in
    let low : start ≤ length s = omega arith in
    let small : IsSmall first =
      (omega (arith, len, room), omega (arith, len, low, room), omega (arith, len, low)) in
    let ((e, dir_end), got, after) = and_then-ok (read_locator r first) check_end d rest in
    subst (IsOfRecords s) (checked-same (e, dir_end) d after) (
      read_locator-IsOfRecords r s reads fits first small same (omega (arith, room)) e dir_end
        (plain_directory-IsPlain start i s tail same) got)
