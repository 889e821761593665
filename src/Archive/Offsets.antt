-- ===== src/Archive/Offsets.antt =====
-- What `readZipDirectory` has checked when it returns.
use t_sync_sdk_go.Base.{
  ℕ, ◌+◌, ◌-◌, ◌^◌, ◌≡◌, ◌≤◌, ◌<◌, ◌≢◌, refl, sym, ap, ◌∙◌, subst, inl, inr, true, false, arith,
  All, Bool-cases, eqb, ltb, leb, ltz, ℤ, pos, negsuc, add_int64, length, length-drop, drop,
}
use t_sync_sdk_go.Base.Bytes.{Bytes}
use t_sync_sdk_go.Errors.{ok}
use t_sync_sdk_go.Streams.{ReaderAt, ReadsAt}
use t_sync_sdk_go.Archive.{
  returns, and_then, wrap_failure, zip64_locator_len, zip64_locator_sig, zip64_eocd_len,
  zip64_eocd_signature, field, ZipDirectory, tail_len, read_tail, plain_directory, read_at_cached,
  out_of_range, take_record, read_zip64, after_locator, read_locator, check_directory, check_end,
  after_search, read_zip_directory,
}
use t_sync_sdk_go.Archive.Scan.{IsLastEnd, read_tail-last, near_the_end}
use t_sync_sdk_go.Archive.Zip64.{and_then-ok, wrap_failure-ok, read_at_cached-panics, IsSmall}

-- What `readZipDirectory` keeps of the directory that it starts from, while it looks for the zip64
-- records.
record Keeps (d d' : ZipDirectory) (dir_end : ℕ) : Type 0 where
  eocd : d'.eocd_offset ≡ d.eocd_offset
  tail_start : d'.tail_offset ≡ d.tail_offset
  tail : d'.tail ≡ d.tail
  before : dir_end ≤ d.eocd_offset

take_record-Keeps :
    (d d' : ZipDirectory) (start dir_end : ℕ) (rec : Bytes)
    → start ≤ d.eocd_offset
    → take_record d start rec ≡ returns (ok (d', dir_end))
    → Keeps d d' dir_end
take_record-Keeps d d' start dir_end rec low h =
    elim (Bool-cases (eqb (field 4 0 rec) zip64_eocd_signature)) [
      | inr bad ↦ absurd (ground arith)
      | inl good ↦
          let same : dir_end ≡ start = ground arith in
          record {
            eocd = ground arith;
            tail_start = ground arith;
            tail = ground arith;
            before = omega arith;
          }
    ]

pub read_zip64-passed :
    (r : ReaderAt) (d : ZipDirectory) (start : ℕ)
    → out_of_range d start ≡ false
    → read_zip64 r d start
      ≡ and_then (wrap_failure (read_at_cached r d start zip64_eocd_len)) (take_record d start)
unfolding read_zip64
read_zip64-passed r d start h = rw h refl

pub read_zip64-refused :
    (r : ReaderAt) (d : ZipDirectory) (start : ℕ) (x : ZipDirectory × ℕ)
    → out_of_range d start ≡ true
    → read_zip64 r d start ≢ returns (ok x)
unfolding read_zip64
read_zip64-refused r d start x h = rw h (λ e. ground arith)

-- Where it does not panic, the record lies before the locator.
pub below_locator :
    (r : ReaderAt) (d : ZipDirectory) (start : ℕ) (rec : Bytes)
    → IsSmall d
    → out_of_range d start ≡ false
    → read_at_cached r d start zip64_eocd_len ≡ returns (ok rec)
    → start + zip64_eocd_len ≤ d.eocd_offset
below_locator r d start rec small passed fine =
    let at = read_at_cached-panics r d start zip64_eocd_len small (ground arith) (omega arith) in
    elim (Bool-cases (leb (2 ^ 63) (start + zip64_eocd_len))) [
      | inl wraps ↦ absurd (ground (arith, at.1 (ground arith)))
      | inr fits ↦ ground arith
    ]

read_zip64-Keeps :
    (r : ReaderAt) (d d' : ZipDirectory) (start dir_end : ℕ)
    → IsSmall d
    → read_zip64 r d start ≡ returns (ok (d', dir_end))
    → Keeps d d' dir_end
read_zip64-Keeps r d d' start dir_end small h = elim (Bool-cases (out_of_range d start)) [
  | inl refused ↦ absurd (read_zip64-refused r d start (d', dir_end) refused h)
  | inr passed ↦
      let (rec, got, taken) =
        and_then-ok (wrap_failure (read_at_cached r d start zip64_eocd_len)) (take_record d start)
          (d', dir_end) (sym (read_zip64-passed r d start passed) ∙ h) in
      let fine = wrap_failure-ok (read_at_cached r d start zip64_eocd_len) rec got in
      let below = below_locator r d start rec small passed fine in
      take_record-Keeps d d' start dir_end rec (omega (arith, below)) taken
]

unchanged-Keeps :
    (d d' : ZipDirectory) (dir_end : ℕ) → d ≡ d' → d.eocd_offset ≡ dir_end → Keeps d d' dir_end
unchanged-Keeps d d' dir_end same at_end = record {
  eocd = ap (λ x. x.eocd_offset) (sym same);
  tail_start = ap (λ x. x.tail_offset) (sym same);
  tail = ap (λ x. x.tail) (sym same);
  before = omega arith;
}

after_locator-Keeps :
    (r : ReaderAt) (d d' : ZipDirectory) (dir_end : ℕ) (loc : Bytes)
    → IsSmall d
    → after_locator r d loc ≡ returns (ok (d', dir_end))
    → Keeps d d' dir_end
after_locator-Keeps r d d' dir_end loc small h =
    elim (Bool-cases (eqb (field 4 0 loc) zip64_locator_sig)) [
      | inl there ↦ read_zip64-Keeps r d d' (field 8 8 loc) dir_end small (ground arith)
      | inr absent ↦ unchanged-Keeps d d' dir_end (ground arith) (ground arith)
    ]

read_locator-Keeps :
    (r : ReaderAt) (d d' : ZipDirectory) (dir_end : ℕ)
    → IsSmall d
    → read_locator r d ≡ returns (ok (d', dir_end))
    → Keeps d d' dir_end
unfolding read_locator
read_locator-Keeps r d d' dir_end small h =
    elim (Bool-cases (ltb d.eocd_offset zip64_locator_len)) [
      | inl early ↦ unchanged-Keeps d d' dir_end (ground arith) (ground arith)
      | inr room ↦
          let place = d.eocd_offset - zip64_locator_len in
          let passed : and_then (wrap_failure (read_at_cached r d place zip64_locator_len))
                (after_locator r d)
              ≡ returns (ok (d', dir_end)) =
            ground arith in
          let (loc, got, rest) =
            and_then-ok (wrap_failure (read_at_cached r d place zip64_locator_len))
              (after_locator r d) (d', dir_end) passed in
          after_locator-Keeps r d d' dir_end loc small rest
    ]

-- What `readZipDirectory` has found out about the file `s` when it returns a directory: where the
-- last end record stands, and a directory that does not reach past that record, if the sum of its
-- offset and its size does not wrap around.
pub record IsDirectory (s : Bytes) (d : ZipDirectory) : Type 0 where
  pub end_record : IsLastEnd s d.eocd_offset
  pub tail_eq : d.tail ≡ drop d.tail_offset s
  pub inside : IsSmall d
  pub cd_start : ℕ
  pub cd_bytes : ℕ
  pub offset_eq : d.cd_offset ≡ pos cd_start
  pub size_eq : d.cd_size ≡ pos cd_bytes
  pub within : cd_start + cd_bytes < 2 ^ 63 → cd_start + cd_bytes ≤ d.eocd_offset

not_negative : (z : ℤ) → ltz z (pos 0) ≡ false → (m : ℕ) × (z ≡ pos m)
not_negative (pos m) h = (m, refl)
not_negative (negsuc m) h = absurd (ground arith)

add_int64_bound :
    (dir_end m n : ℕ)
    → ltz (pos dir_end) (add_int64 (pos m) (pos n)) ≡ false
    → m + n < 2 ^ 63
    → m + n ≤ dir_end
add_int64_bound dir_end m n h fits = ground arith

checked :
    (d d' : ZipDirectory) (dir_end : ℕ)
    → check_directory d dir_end ≡ ok d'
    → (d ≡ d')
      × (m : ℕ) × (n : ℕ) × (d.cd_offset ≡ pos m)
      × (d.cd_size ≡ pos n)
      × (m + n < 2 ^ 63 → m + n ≤ dir_end)
unfolding check_directory
checked d d' dir_end h =
    let (m, em) = not_negative d.cd_offset (ground arith) in
    let (n, en) = not_negative d.cd_size (ground arith) in
    let low : ltz (pos dir_end) (add_int64 d.cd_offset d.cd_size) ≡ false = ground arith in
    let low' : ltz (pos dir_end) (add_int64 (pos m) (pos n)) ≡ false =
      subst (λ z. ltz (pos dir_end) (add_int64 z (pos n)) ≡ false) em
        (subst (λ z. ltz (pos dir_end) (add_int64 d.cd_offset z) ≡ false) en low) in
    (ground arith, m, n, em, en, add_int64_bound dir_end m n low')

after_tail :
    (r : ReaderAt) (s tail : Bytes) (d : ZipDirectory) (start i : ℕ)
    → start ≤ length s
    → length s ≤ 2 ^ 62
    → tail ≡ drop start s
    → IsLastEnd s (start + i)
    → start + i + 22 ≤ length s
    → and_then (read_locator r (plain_directory start tail i)) check_end ≡ returns (ok d)
    → IsDirectory s d
unfolding plain_directory
after_tail r s tail d start i low small same last room h =
    let first = plain_directory start tail i in
    let len : length tail ≡ length s - start = ap length same ∙ length-drop start s in
    let fits : IsSmall first = (omega arith, omega arith, omega arith) in
    let ((e, dir_end), found, rest) = and_then-ok (read_locator r first) check_end d h in
    let keeps = read_locator-Keeps r first e dir_end fits found in
    let (eq, m, n, em, en, bound) = checked e d dir_end (ground (arith, rest)) in
    let len' : length e.tail ≡ length tail = ap length keeps.tail in
    subst (IsDirectory s) eq (record {
      end_record = subst (IsLastEnd s) (sym keeps.eocd) last;
      tail_eq = keeps.tail ∙ same ∙ ap (λ t. drop t s) (sym keeps.tail_start);
      inside = (
        omega (arith, keeps.eocd, keeps.tail_start),
        omega (arith, keeps.eocd, keeps.tail_start, len'),
        omega (arith, keeps.tail_start, len'),
      );
      cd_start = m;
      cd_bytes = n;
      offset_eq = em;
      size_eq = en;
      within = λ f. omega (arith, bound f, keeps.before, keeps.eocd);
    })

-- If the reader reads the file `s`, then a directory that `readZipDirectory` returns belongs to it:
-- its end record stands in the file, with a comment that reaches exactly to the end, and it is the
-- last such record of the whole file, not only of the tail that was read; the tail is the file's;
-- the directory's offset and size are not negative; and the directory does not reach past the end
-- record, unless the sum of the two wraps around.
pub read_zip_directory-IsDirectory :
    (r : ReaderAt) (s : Bytes) (d : ZipDirectory)
    → ReadsAt r s
    → length s ≤ 2 ^ 62
    → All (λ x. x < 256) s
    → read_zip_directory r (length s) ≡ returns (ok d)
    → IsDirectory s d
unfolding read_zip_directory
read_zip_directory-IsDirectory r s d reads small bytes h =
    let size = length s in
    let start = size - tail_len size in
    let ((tail, i), found, rest) =
      and_then-ok (returns (read_tail r size)) (after_search r start) d h in
    let (same, last) =
      read_tail-last r s reads (omega arith) bytes tail i (ground (arith, found)) in
    let (room, near) = near_the_end s (start + i) bytes last.stands in
    after_tail r s tail d start i (omega arith) small same last room rest
