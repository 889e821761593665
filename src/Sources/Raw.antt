-- ===== src/Sources/Raw.antt =====
-- The raw bytes of the parts of an archive.
use mathlib.Core.List.{append-nil}
use t_sync_sdk_go.Base.{
  ℕ, ◌+◌, ◌-◌, ◌^◌, ◌≡◌, ◌≤◌, ◌<◌, refl, sym, ap, ◌∙◌, List, [], ◌∷◌, ◌++◌, arith, length, take,
  drop, drop-drop, take-take-drop,
}
use t_sync_sdk_go.Base.Bytes.{Bytes}
use t_sync_sdk_go.Base.{Bool-cases, inl, inr, some, true, false, pos, subst}
use t_sync_sdk_go.Base.Bytes.{ends_in_slash}
use t_sync_sdk_go.Errors.{ok, ◌>>=◌, bind_ok}
use t_sync_sdk_go.Streams.{whole}
use t_sync_sdk_go.Metadata.{Storage}
use t_sync_sdk_go.Objects.Ranges.{ReadsRanges}
use t_sync_sdk_go.Backup.Part.{SourceEntry}
use t_sync_sdk_go.Sources.{Library, is_winzip_ae2, bare_entry, raw_entry, zip_entry, zip_entries}
use t_sync_sdk_go.Archive.Parts.{ZipPartRange}
use t_sync_sdk_go.Archive.Parts.Tiles.{Tiles}

-- The bytes of the file in a range.
abbrev pub bytes_of : Bytes → ZipPartRange → Bytes
bytes_of s p = take (p.end_offset - p.start_offset) (drop p.start_offset s)

abbrev pub joined : Bytes → List ZipPartRange → Bytes
joined s [] = []
joined s (p ∷ ps) = bytes_of s p ++ joined s ps

-- Ranges that cover an area give its bytes, one after the other.
pub joined-Tiles :
    (s : Bytes) (p : ZipPartRange) (ps : List ZipPartRange) (cd_offset : ℕ)
    → Tiles (p ∷ ps) cd_offset
    → (p.start_offset < cd_offset)
      × (joined s (p ∷ ps) ≡ take (cd_offset - p.start_offset) (drop p.start_offset s))
joined-Tiles s p [] cd (some_bytes, last) = (
  omega arith,
  append-nil (bytes_of s p) ∙ ap (λ k. take (k - p.start_offset) (drop p.start_offset s)) last,
)
joined-Tiles s p (q ∷ ps) cd (some_bytes, next, tiles) =
    let (low, ih) = joined-Tiles s q ps cd tiles in
    let n = p.end_offset - p.start_offset in
    let m = cd - q.start_offset in
    let from : p.start_offset + n ≡ q.start_offset = omega arith in
    let sum : n + m ≡ cd - p.start_offset = omega arith in
    let rest : drop q.start_offset s ≡ drop n (drop p.start_offset s) =
      ap (λ k. drop k s) (sym from) ∙ sym (drop-drop n p.start_offset s) in
    (
      omega arith,
      ap (λ z. bytes_of s p ++ z) (ih ∙ ap (take m) rest)
          ∙ take-take-drop n m (drop p.start_offset s)
          ∙ ap (λ k. take k (drop p.start_offset s)) sum,
    )

-- The entries of the ranges of an encrypted archive with the bytes `s`: in the same order, under the
-- names of the ranges, and each that is no folder with the range's bytes, and only with those.
abbrev pub AreRaw : Bytes → List SourceEntry → List ZipPartRange → Type 0
AreRaw s [] [] = Unit
AreRaw s [] (p ∷ ps) = ⊥
AreRaw s (e ∷ es) [] = ⊥
AreRaw s (e ∷ es) (p ∷ ps) =
    (e.path ≡ p.name)
    × (e.is_dir ≡ false
        → (e.is_encrypted_raw ≡ true) × (e.open_raw ≡ some (ok (whole (bytes_of s p)))))
    × AreRaw s es ps

first_tile :
    (p : ZipPartRange) (ps : List ZipPartRange) (cd_offset : ℕ)
    → Tiles (p ∷ ps) cd_offset
    → (p.start_offset < p.end_offset) × (p.end_offset ≤ cd_offset) × Tiles ps cd_offset
first_tile p [] cd (some_bytes, last) = (some_bytes, omega arith, tt)
first_tile p (q ∷ ps) cd (some_bytes, next, tiles) =
    let (below, rest, more) = first_tile q ps cd tiles in (some_bytes, omega arith, tiles)

module _ (lib : Library) (S : Storage) (t : S.State) (path : Bytes) (s : Bytes)
    (reads : ReadsRanges S t path s) (fits : length s < 2 ^ 63) where
  -- What is asked of the entry of one range.
  abbrev IsRaw : ZipPartRange → SourceEntry → Type 0
  IsRaw p e =
      (e.path ≡ p.name)
      × (e.is_dir ≡ false
          → (e.is_encrypted_raw ≡ true) × (e.open_raw ≡ some (ok (whole (bytes_of s p)))))

  zip_entry-IsRaw :
      (p : ZipPartRange) (e : SourceEntry)
      → p.start_offset < p.end_offset
      → p.end_offset ≤ length s
      → zip_entry lib S t path true p ≡ ok e
      → IsRaw p e
  unfolding zip_entry
  zip_entry-IsRaw p e some_bytes inside h =
      let n = p.end_offset - p.start_offset in
      let got : S.read_range t path (pos p.start_offset) (pos n) ≡ ok (whole (bytes_of s p)) =
        reads p.start_offset n (omega arith) (omega arith) in
      elim (Bool-cases (ends_in_slash p.name)) [
        | inl folder ↦
            let same : bare_entry lib S t path p ≡ e = ground arith in
            subst (IsRaw p) same (refl, λ file. absurd (ground arith))
        | inr file ↦ elim (Bool-cases (is_winzip_ae2 p.file)) [
          | inl ae2 ↦ absurd (ground arith)
          | inr fine ↦
              let same : raw_entry lib S t path p ≡ e = ground arith in
              subst (IsRaw p) same (refl, λ file. (refl, ap some got))
        ]
      ]

  entries_raw :
      (ps : List ZipPartRange) (es : List SourceEntry) (cd_offset : ℕ)
      → Tiles ps cd_offset
      → cd_offset ≤ length s
      → zip_entries lib S t path true ps ≡ ok es
      → AreRaw s es ps
  unfolding zip_entries
  entries_raw [] es cd tiles inside h =
      let nothing : [] ≡ es = ground arith in subst (λ z. AreRaw s z []) nothing tt
  entries_raw (p ∷ ps) es cd tiles inside h =
      let (e, got, rest) =
        bind_ok (zip_entry lib S t path true p)
          (λ e. zip_entries lib S t path true ps >>= (λ more. ok (e ∷ more))) es h in
      let (more, others, last) =
        bind_ok (zip_entries lib S t path true ps) (λ more. ok (e ∷ more)) es rest in
      let same : e ∷ more ≡ es = ground (arith, last) in
      let (some_bytes, before, tiles') = first_tile p ps cd tiles in
      let (named, raw) = zip_entry-IsRaw p e some_bytes (omega arith) got in
      subst (λ z. AreRaw s z (p ∷ ps)) same
        (named, raw, entries_raw ps more cd tiles' inside others)

  -- If the storage reads ranges of the archive with the bytes `s`, and the ranges cover the area up
  -- to an offset inside it, then the entries that `ListEntries` makes of them in an encrypted
  -- archive are those of the ranges, in order; each that is no folder gives, raw, exactly the bytes
  -- of its range; and all the ranges' bytes, one after the other, are the area from the first
  -- range's start on, so that no byte of it is lost or read twice.
  pub zip_entries-AreRaw :
      (p : ZipPartRange) (ps : List ZipPartRange) (es : List SourceEntry) (cd_offset : ℕ)
      → Tiles (p ∷ ps) cd_offset
      → cd_offset ≤ length s
      → zip_entries lib S t path true (p ∷ ps) ≡ ok es
      → AreRaw s es (p ∷ ps)
        × (joined s (p ∷ ps) ≡ take (cd_offset - p.start_offset) (drop p.start_offset s))
  zip_entries-AreRaw p ps es cd tiles inside h =
      (entries_raw (p ∷ ps) es cd tiles inside h, (joined-Tiles s p ps cd tiles).1)
