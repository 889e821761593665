-- ===== src/Archive/Zip64.antt =====
-- The zip64 end record: the offsets at which its reading panics.
use t_sync_sdk_go.Base.{
  ℕ, ◌+◌, ◌-◌, ◌^◌, ◌≡◌, ◌≤◌, ◌<◌, ◌↔◌, ◌⊎◌, refl, inl, inr, arith, Bool-cases, eqb, length,
}
use t_sync_sdk_go.Base.Bytes.{Bytes}
use t_sync_sdk_go.Errors.{GoError, Result, ok, err}
use t_sync_sdk_go.Streams.{ReaderAt}
use t_sync_sdk_go.Archive.{
  MayPanic, returns, panics, and_then, wrap_failure, eocd_len, zip64_eocd_len, zip64_eocd_signature,
  field, ZipDirectory, read_at_cached, out_of_range, take_record, read_zip64,
}

module _ {ℓ κ} {A : Type ℓ} {B : Type κ} where
  -- What has returned when a sequence of two calls has.
  pub and_then-ok :
      (o : MayPanic A) (rest : A → MayPanic B) (b : B)
      → and_then o rest ≡ returns (ok b)
      → (a : A) × (o ≡ returns (ok a)) × (rest a ≡ returns (ok b))
  and_then-ok (returns (ok a)) rest b h = (a, refl, h)
  and_then-ok (returns (err e)) rest b h = absurd (ground arith)
  and_then-ok panics rest b h = absurd (ground arith)

pub wrap_failure-ok {ℓ} :
    {A : Type ℓ} (o : MayPanic A) (a : A) → wrap_failure o ≡ returns (ok a) → o ≡ returns (ok a)
wrap_failure-ok (returns (ok b)) a h = h
wrap_failure-ok (returns (err e)) a h = absurd (ground arith)
wrap_failure-ok panics a h = absurd (ground arith)

MayPanic-cases {ℓ} :
    {A : Type ℓ} (o : MayPanic A)
    → ((a : A) × (o ≡ returns (ok a))) ⊎ ((e : GoError) × (o ≡ returns (err e))) ⊎ (o ≡ panics)
MayPanic-cases (returns (ok a)) = inl (a, refl)
MayPanic-cases (returns (err e)) = inr (inl (e, refl))
MayPanic-cases panics = inr (inr refl)

-- A file of at most 2 ^ 62 bytes.
abbrev pub IsSmall : ZipDirectory → Type 0
IsSmall d =
    (d.tail_offset ≤ d.eocd_offset)
    × (d.eocd_offset + eocd_len ≤ d.tail_offset + length d.tail)
    × (d.tail_offset + length d.tail ≤ 2 ^ 62)

-- The slice expression of `readAtCached` is out of range exactly where the sum of the offset and
-- the length wraps around.
pub read_at_cached-panics :
    (r : ReaderAt) (d : ZipDirectory) (start n : ℕ)
    → IsSmall d
    → start < 2 ^ 63
    → n ≤ 56
    → (read_at_cached r d start n ≡ panics) ↔ (2 ^ 63 ≤ start + n)
unfolding read_at_cached
read_at_cached-panics r d start n small low short = ground arith

take_record-returns :
    (d : ZipDirectory) (start : ℕ) (rec : Bytes)
    → (x : Result (ZipDirectory × ℕ)) × (take_record d start rec ≡ returns x)
take_record-returns d start rec = elim (Bool-cases (eqb (field 4 0 rec) zip64_eocd_signature)) [
  | inl good ↦ rw good (_, refl)
  | inr bad ↦ rw bad (_, refl)
]

-- The reading of the zip64 end record panics exactly if the offset that the locator gives for it is
-- one of the 56 greatest of `int64`: the check that should refuse the offset adds 56 to it, which
-- wraps around, and the slice expression that follows is then out of range.
pub read_zip64-panics :
    (r : ReaderAt) (d : ZipDirectory) (start : ℕ)
    → IsSmall d
    → (read_zip64 r d start ≡ panics) ↔ ((2 ^ 63 - 56 ≤ start) × (start < 2 ^ 63))
unfolding read_zip64
read_zip64-panics r d start small = elim (Bool-cases (out_of_range d start)) [
  | inl refused ↦ rw refused ((λ h. absurd (ground arith)), λ h. absurd (ground arith))
  | inr passed ↦ rw passed (
      let at = read_at_cached-panics r d start zip64_eocd_len small (ground arith) (omega arith) in
      elim (MayPanic-cases (read_at_cached r d start zip64_eocd_len)) [
        | inr (inr p) ↦ rw p ((λ h. ground (arith, at.0 p)), λ h. refl)
        | inr (inl (e, p)) ↦
            rw p ((λ h. absurd (ground arith)), λ h. absurd (ground (arith, at.1 (omega arith))))
        | inl (rec, p) ↦ rw p (
          (λ h. let (x, e) = take_record-returns d start rec in absurd (ground (arith, e))),
          λ h. absurd (ground (arith, at.1 (omega arith))),
        )
      ])
]
