-- ===== src/Sources/Extra.antt =====
-- `isWinZipAE2` on extra fields that are well formed.
use mathlib.Core.List.{append_assoc}
use t_sync_sdk_go.Base.{
  ℕ, zero, suc, ◌/◌, ◌%◌, ◌^◌, ◌≡◌, ◌≤◌, ◌<◌, refl, ap, ◌∙◌, Bool, false, ◌&&◌, List, [], ◌∷◌, ◌++◌,
  arith, eqb, leb, length, length-append, if◌then◌else◌,
}
use t_sync_sdk_go.Base.Bytes.{Bytes, drop-length_append}
use t_sync_sdk_go.Archive.{little_endian, field}
use t_sync_sdk_go.Archive.Parts.{ZipFile}
use t_sync_sdk_go.Sources.{winzip_aes_extra_id, is_ae2_loop, is_winzip_ae2}

-- An extra field: its tag and its body.
abbrev pub ExtraField : Type 0
ExtraField = ℕ × Bytes

-- Two bytes for the tag, two for the length, and the body.
abbrev pub encode_field : ExtraField → Bytes
encode_field (tag, body) = tag % 256 ∷ tag / 256 ∷ length body % 256 ∷ length body / 256 ∷ body

abbrev pub encode_fields : List ExtraField → Bytes
encode_fields [] = []
encode_fields (x ∷ xs) = encode_field x ++ encode_fields xs

abbrev pub FitsExtra : List ExtraField → Type 0
FitsExtra [] = Unit
FitsExtra ((tag, body) ∷ xs) = (tag < 2 ^ 16) × (length body < 2 ^ 16) × FitsExtra xs

-- The first AES field that can hold a version decides.
abbrev pub first_aes : List ExtraField → Bool
first_aes [] = false
first_aes ((tag, body) ∷ xs) =
    if eqb tag winzip_aes_extra_id && leb 2 (length body)
    then eqb (field 2 0 body) 2
    else first_aes xs

two_bytes : (n : ℕ) (s : Bytes) → n < 2 ^ 16 → little_endian 2 (n % 256 ∷ n / 256 ∷ s) ≡ n
unfolding little_endian
two_bytes n s h = omega arith

-- Two bytes are read alike where there are two.
field-append : (a b : Bytes) → 2 ≤ length a → field 2 0 (a ++ b) ≡ field 2 0 a
unfolding little_endian
field-append [] b h = absurd (omega arith)
field-append (x ∷ []) b h = absurd (omega arith)
field-append (x ∷ y ∷ a) b h = refl

-- One round on a field and what follows it.
is_ae2_round :
    (fuel tag : ℕ) (body rest : Bytes)
    → tag < 2 ^ 16
    → length body < 2 ^ 16
    → is_ae2_loop (suc fuel) (encode_field (tag, body) ++ rest) ≡ (
        if eqb tag winzip_aes_extra_id && leb 2 (length body)
        then eqb (field 2 0 body) 2
        else is_ae2_loop fuel rest)
unfolding is_ae2_loop
is_ae2_round fuel tag body rest ht hb = ground (
  arith,
  two_bytes tag (length body % 256 ∷ length body / 256 ∷ (body ++ rest)) ht,
  two_bytes (length body) (body ++ rest) hb,
  length-append body rest,
  drop-length_append body rest,
  field-append body rest,
)

ae2_short : (fuel : ℕ) (t : Bytes) → length t < 4 → is_ae2_loop fuel t ≡ false
unfolding is_ae2_loop
ae2_short zero t short = refl
ae2_short (suc fuel) t short = ground arith

is_ae2_loop-first_aes :
    (xs : List ExtraField) (t : Bytes) (fuel : ℕ)
    → FitsExtra xs
    → length t < 4
    → length (encode_fields xs ++ t) ≤ fuel
    → is_ae2_loop fuel (encode_fields xs ++ t) ≡ first_aes xs
is_ae2_loop-first_aes [] t zero fits short enough = ae2_short zero t short
is_ae2_loop-first_aes [] t (suc fuel) fits short enough = ae2_short (suc fuel) t short
is_ae2_loop-first_aes ((tag, body) ∷ xs) t zero fits short enough = absurd (omega arith)
is_ae2_loop-first_aes ((tag, body) ∷ xs) t (suc fuel) (ht, hb, hs) short enough =
    let rest = encode_fields xs ++ t in
    let split : encode_fields ((tag, body) ∷ xs) ++ t ≡ encode_field (tag, body) ++ rest =
      append_assoc (encode_field (tag, body)) (encode_fields xs) t in
    let fewer : length rest ≤ fuel =
      omega (arith, ap length split, length-append (encode_field (tag, body)) rest) in
    ap (is_ae2_loop (suc fuel)) split
    ∙ is_ae2_round fuel tag body rest ht hb
    ∙ ap
        (λ z.
          if eqb tag winzip_aes_extra_id && leb 2 (length body) then eqb (field 2 0 body) 2 else z)
        (is_ae2_loop-first_aes xs t fuel hs short fewer)

-- On the extra data of well formed fields, with up to three bytes after them, `isWinZipAE2` answers
-- what the first AES field says that is long enough for a version: whether that is 2. Without such
-- a field it answers false.
pub is_winzip_ae2-first_aes :
    (f : ZipFile) (xs : List ExtraField) (t : Bytes)
    → FitsExtra xs
    → length t < 4
    → f.extra ≡ encode_fields xs ++ t
    → is_winzip_ae2 f ≡ first_aes xs
unfolding is_winzip_ae2
is_winzip_ae2-first_aes f xs t fits short e =
    ap (λ b. is_ae2_loop (length b) b) e
    ∙ is_ae2_loop-first_aes xs t (length (encode_fields xs ++ t)) fits short (omega arith)
