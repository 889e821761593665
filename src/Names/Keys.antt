-- ===== src/Names/Keys.antt =====
-- File keys and part keys.
use t_sync_sdk_go.Base.{
  ℕ, zero, suc, ◌+◌, ◌^◌, ◌<◌, ◌≡◌, refl, ap, ◌∙◌, sym, Bool, true, false, ◌&&◌, ◌||◌, not, [], ◌∷◌,
  ◌++◌, arith, if◌then◌else◌, ltb, length, length-append, take, drop, ℤ, pos, negsuc,
}
use t_sync_sdk_go.Base.Bytes.{Bytes, slash, split}
use t_sync_sdk_go.Names.{
  hex, decimal, decimal_int, file_key_for, is_digit, is_hex_digit, every, starts_with_underscore,
  is_valid_file_key, part_key_for, size_to_end, hex_then, file_key_regex, slash_then,
  part_key_regex, last_part_of, base,
}
use t_sync_sdk_go.Names.Format.{
  hex_injective, length-hex, every-hex, every-decimal, decimal-pos, decimal_int_injective,
}

take-append : (n : ℕ) (s t : Bytes) → length s ≡ n → take n (s ++ t) ≡ s
take-append zero [] t h = refl
take-append zero (x ∷ s) t h = absurd (omega arith)
take-append (suc n) [] t h = absurd (omega arith)
take-append (suc n) (x ∷ s) t h = ap (λ r. x ∷ r) (take-append n s t (omega arith))

drop-append : (n : ℕ) (s t : Bytes) → length s ≡ n → drop n (s ++ t) ≡ t
drop-append zero [] t h = refl
drop-append zero (x ∷ s) t h = absurd (omega arith)
drop-append (suc n) [] t h = absurd (omega arith)
drop-append (suc n) (x ∷ s) t h = drop-append n s t (omega arith)

drop_one_more : (n : ℕ) (s t : Bytes) (c : ℕ) → length s ≡ n → drop (suc n) (s ++ c ∷ t) ≡ t
drop_one_more zero [] t c h = refl
drop_one_more zero (x ∷ s) t c h = absurd (omega arith)
drop_one_more (suc n) [] t c h = absurd (omega arith)
drop_one_more (suc n) (x ∷ s) t c h = drop_one_more n s t c (omega arith)

-- The keys of two pairs of a CRC and a size are equal only if the pairs are: distinct contents, as
-- far as CRC and size tell them apart, have distinct keys.
pub file_key_for_injective :
    (c d : ℕ) (a b : ℤ)
    → c < 2 ^ 32
    → d < 2 ^ 32
    → file_key_for c a ≡ file_key_for d b
    → (c ≡ d) × (a ≡ b)
unfolding file_key_for
file_key_for_injective c d a b hc hd e =
    let heads : hex 8 c ≡ hex 8 d =
      sym (take-append 8 (hex 8 c) (b'_' ∷ decimal_int a) (length-hex 8 c))
      ∙ ap (take 8) e
      ∙ take-append 8 (hex 8 d) (b'_' ∷ decimal_int b) (length-hex 8 d) in
    let tails : decimal_int a ≡ decimal_int b =
      sym (drop_one_more 8 (hex 8 c) (decimal_int a) b'_' (length-hex 8 c))
      ∙ ap (drop 9) e
      ∙ drop_one_more 8 (hex 8 d) (decimal_int b) b'_' (length-hex 8 d) in
    (hex_injective 8 c d (omega arith) (omega arith) heads, decimal_int_injective a b tails)

valid_parts :
    (h s : Bytes)
    → length h ≡ 8
    → 0 < length s
    → is_valid_file_key (h ++ b'_' ∷ s) ≡ (every is_hex_digit h && every is_digit s)
unfolding is_valid_file_key
valid_parts h s eight some_digit =
    rw
      (
        take-append 8 h (b'_' ∷ s) eight,
        drop-append 8 h (b'_' ∷ s) eight,
        drop_one_more 8 h s b'_' eight,
      )
      (ground (arith, length-append h (b'_' ∷ s)))

-- The key of a content whose size is not negative is a valid file key, and the key of a negative
-- size is not.
pub is_valid_file_key-file_key_for :
    (crc n : ℕ)
    → (is_valid_file_key (file_key_for crc (pos n)) ≡ true)
      × (is_valid_file_key (file_key_for crc (negsuc n)) ≡ false)
unfolding file_key_for decimal_int every is_digit
is_valid_file_key-file_key_for crc n = (
  valid_parts (hex 8 crc) (decimal n) (length-hex 8 crc) (decimal-pos n)
      ∙ ground (arith, every-hex 8 crc, every-decimal n),
  valid_parts (hex 8 crc) (b'-' ∷ decimal (suc n)) (length-hex 8 crc) (omega arith)
      ∙ ground (arith, every-hex 8 crc),
)

abbrev valid_after : ℕ → Bytes → Bool
valid_after n k =
    if ltb (length k) (n + 2) || not (starts_with_underscore (drop n k))
    then false
    else every is_hex_digit (take n k) && every is_digit (drop (suc n) k)

valid_after-hex_then : (n : ℕ) (k : Bytes) → valid_after n k ≡ hex_then n size_to_end k
unfolding hex_then every
valid_after-hex_then zero [] = ground arith
valid_after-hex_then zero (c ∷ []) = ground arith
valid_after-hex_then zero (c ∷ d ∷ s) = ground arith
valid_after-hex_then (suc n) [] = ground arith
valid_after-hex_then (suc n) (c ∷ s) = ground (arith, valid_after-hex_then n s)

-- The hand-written loops of `isValidFileKey` (backup.go) accept exactly the texts that the regular
-- expression `fileKeyRegex` (client.go) matches.
pub is_valid_file_key-regex : (k : Bytes) → is_valid_file_key k ≡ file_key_regex k
unfolding is_valid_file_key file_key_regex
is_valid_file_key-regex k = valid_after-hex_then 8 k

-- No byte of a valid key is a slash.
digits-split : (s : Bytes) → every is_digit s ≡ true → split slash s ≡ s ∷ []
unfolding split every is_digit
digits-split [] h = refl
digits-split (c ∷ s) h = ground (arith, digits-split s)

hex_then-split : (n : ℕ) (k : Bytes) → hex_then n size_to_end k ≡ true → split slash k ≡ k ∷ []
unfolding split hex_then is_hex_digit
hex_then-split zero [] h = absurd (ground arith)
hex_then-split zero (c ∷ []) h = absurd (ground arith)
hex_then-split zero (c ∷ d ∷ s) h = ground (arith, digits-split (d ∷ s))
hex_then-split (suc n) [] h = absurd (ground arith)
hex_then-split (suc n) (c ∷ k) h = ground (arith, hex_then-split n k)

two_hex-part_key :
    (k : Bytes)
    → hex_then 8 size_to_end k ≡ true
    → (hex_then 2 (slash_then (hex_then 8 size_to_end)) (part_key_for k) ≡ true)
      × (base (part_key_for k) ≡ k)
unfolding hex_then part_key_for base split last_part_of is_hex_digit
two_hex-part_key [] h = absurd (ground arith)
two_hex-part_key (a ∷ []) h = absurd (ground arith)
two_hex-part_key (a ∷ b ∷ k) h = ground (arith, hex_then-split 6 k)

-- The part key of a valid file key matches the pattern by which GC recognises parts, and GC reads
-- the file key back from it: no part of the store escapes the collector or is taken for another.
pub part_key_regex-part_key_for :
    (k : Bytes)
    → is_valid_file_key k ≡ true
    → (part_key_regex (part_key_for k) ≡ true) × (base (part_key_for k) ≡ k)
unfolding part_key_regex file_key_regex
part_key_regex-part_key_for k h = two_hex-part_key k (sym (is_valid_file_key-regex k) ∙ h)
