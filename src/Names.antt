-- ===== src/Names.antt =====
-- Names and keys: `validateName`, `fileKeyFor`, `isValidFileKey`, `partKeyFor` and
-- `resolveCompression` of tsync/backup.go, the key patterns of tsync/client.go.
pub mod Format
pub mod Keys
mod Tests
use t_sync_sdk_go.Base.{
  ℕ, zero, suc, ◌+◌, ◌-◌, ◌*◌, ◌/◌, ◌%◌, ◌^◌, Bool, true, false, ◌&&◌, ◌||◌, not, List, [], ◌∷◌,
  ◌++◌, ◌==◌, bytes_eq, if◌then◌else◌, eqb, ltb, leb, length, take, drop, ℤ, pos, negsuc,
}
use t_sync_sdk_go.Base.Bytes.{Bytes, codes, slash, split}
use t_sync_sdk_go.Errors.{
  GoError, sentinel, wrap, invalid_name, invalid_options, Result, ok, err, fail_if, ◌>>=◌, ◌>>◌,
}

-- The loop of `validateName` over the bytes.
unfoldable pub has_bad_byte : Bytes → Bool
has_bad_byte [] = false
has_bad_byte (c ∷ s) = eqb c slash || eqb c 0 || has_bad_byte s

abbrev pub bad_name : GoError
bad_name = wrap (sentinel invalid_name)

-- `validateName`: each of its refusals wraps ErrInvalidName.
unfoldable pub validate_name : Bytes → Result (Unit {0})
validate_name name = do
  fail_if (eqb (length name) 0) bad_name
  fail_if (ltb 255 (length name)) bad_name
  fail_if (has_bad_byte name) bad_name
  fail_if (name == codes "." || name == codes "..") bad_name
  ok tt

-- A digit below 16, as `%x` prints it.
unfoldable pub hex_digit : ℕ → ℕ
hex_digit d = if ltb d 10 then b'0' + d else b'a' + (d - 10)

-- The last `n` hexadecimal digits: `%08x` of a `uint32` is `hex 8`.
unfoldable pub hex : ℕ → ℕ → Bytes
hex zero x = []
hex (suc n) x = hex n (x / 16) ++ hex_digit (x % 16) ∷ []

-- `%d` of a number, with fuel for its digits.
unfoldable pub decimal_fuel : ℕ → ℕ → Bytes
decimal_fuel zero n = []
decimal_fuel (suc fuel) n = elim (ltb n 10) [
  | true ↦ (b'0' + n) ∷ []
  | false ↦ decimal_fuel fuel (n / 10) ++ (b'0' + n % 10) ∷ []
]

unfoldable pub decimal : ℕ → Bytes
decimal n = decimal_fuel (suc n) n

-- `%d` of an `int64`
unfoldable pub decimal_int : ℤ → Bytes
decimal_int (pos n) = decimal n
decimal_int (negsuc n) = b'-' ∷ decimal (suc n)

-- `fileKeyFor`: "%08x_%d"
unfoldable pub file_key_for : ℕ → ℤ → Bytes
file_key_for crc size = hex 8 crc ++ b'_' ∷ decimal_int size

unfoldable pub is_digit : ℕ → Bool
is_digit c = leb b'0' c && leb c b'9'

unfoldable pub is_hex_digit : ℕ → Bool
is_hex_digit c = (leb b'0' c && leb c b'9') || (leb b'a' c && leb c b'f')

unfoldable pub every : (ℕ → Bool) → Bytes → Bool
every p [] = true
every p (c ∷ s) = p c && every p s

abbrev starts_with_underscore : Bytes → Bool
starts_with_underscore [] = false
starts_with_underscore (c ∷ s) = eqb c b'_'

-- `isValidFileKey`: the length and the byte at 8 are tested first, then the two loops run.
unfoldable pub is_valid_file_key : Bytes → Bool
is_valid_file_key k =
    if ltb (length k) 10 || not (starts_with_underscore (drop 8 k))
    then false
    else every is_hex_digit (take 8 k) && every is_digit (drop 9 k)

-- `partKeyFor`: the first two bytes of the key name its folder.
unfoldable pub part_key_for : Bytes → Bytes
part_key_for key = take 2 key ++ slash ∷ key

-- A match of `[0-9]+$`.
abbrev digits_to_end : Bytes → Bool
digits_to_end [] = false
digits_to_end (c ∷ s) = every is_digit (c ∷ s)

-- A match of `_[0-9]+$`.
abbrev size_to_end : Bytes → Bool
size_to_end [] = false
size_to_end (c ∷ s) = eqb c b'_' && digits_to_end s

-- A match of `[0-9a-f]{n}` followed by a match of the rest.
unfoldable pub hex_then : ℕ → (Bytes → Bool) → Bytes → Bool
hex_then zero rest s = rest s
hex_then (suc n) rest [] = false
hex_then (suc n) rest (c ∷ s) = is_hex_digit c && hex_then n rest s

-- `fileKeyRegex.MatchString`: ^[0-9a-f]{8}_[0-9]+$
unfoldable pub file_key_regex : Bytes → Bool
unfolding hex_then is_hex_digit every is_digit
file_key_regex = hex_then 8 size_to_end

abbrev slash_then : (Bytes → Bool) → Bytes → Bool
slash_then rest [] = false
slash_then rest (c ∷ s) = eqb c slash && rest s

-- `partKeyRegex.MatchString`: ^[0-9a-f]{2}/[0-9a-f]{8}_[0-9]+$
unfoldable pub part_key_regex : Bytes → Bool
unfolding hex_then is_hex_digit every is_digit
part_key_regex = hex_then 2 (slash_then (hex_then 8 size_to_end))

-- The last element of a list, and "." for none, as in `path.Base`.
unfoldable pub last_part_of : List Bytes → Bytes
last_part_of [] = codes "."
last_part_of (p ∷ []) = p
last_part_of (p ∷ q ∷ ps) = last_part_of (q ∷ ps)

-- `path.Base` of a path that does not end in a slash.
unfoldable pub base : Bytes → Bytes
base p = last_part_of (split slash p)

abbrev pub zip_store : ℕ
zip_store = 0

abbrev pub zip_deflate : ℕ
zip_deflate = 8

-- `resolveCompression`
unfoldable pub resolve_compression : ℤ → Result (ℕ × ℤ)
resolve_compression (pos zero) = ok (zip_store, pos 0)
resolve_compression (pos (suc n)) =
    if leb (suc n) 9 then ok (zip_deflate, pos (suc n)) else err (wrap (sentinel invalid_options))
resolve_compression (negsuc zero) = ok (zip_deflate, negsuc 0)
resolve_compression (negsuc (suc n)) = err (wrap (sentinel invalid_options))
