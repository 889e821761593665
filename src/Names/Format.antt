-- ===== src/Names/Format.antt =====
-- The texts of numbers: `%08x` and `%d`.
use t_sync_sdk_go.Base.{
  ℕ, zero, suc, ◌+◌, ◌-◌, ◌*◌, ◌/◌, ◌%◌, ◌^◌, ◌<◌, ◌≡◌, refl, ap, ◌∙◌, sym, Bool, true, ◌&&◌, [],
  ◌∷◌, ◌++◌, arith, if◌then◌else◌, ltb, length, length-append, ℤ, pos, negsuc, ◌≢◌, Bool-cases, inl,
  inr,
}
use native.Mathlib.Nat.{pow-suc}
use t_sync_sdk_go.Base.Bytes.{Bytes}
use t_sync_sdk_go.Names.{
  hex_digit, hex, decimal_fuel, decimal, decimal_int, is_digit, is_hex_digit, every,
}

unfoldable pub hex_digit_value : ℕ → ℕ
hex_digit_value c = if ltb c b'a' then c - b'0' else c - b'a' + 10

hex_digit_value-hex_digit : (d : ℕ) → d < 16 → hex_digit_value (hex_digit d) ≡ d
unfolding hex_digit_value hex_digit
hex_digit_value-hex_digit d h = ground arith

-- The number that digits of a base stand for, the last digit the lowest.
unfoldable pub value_from : (ℕ → ℕ) → ℕ → ℕ → Bytes → ℕ
value_from digit radix acc [] = acc
value_from digit radix acc (c ∷ s) = value_from digit radix (acc * radix + digit c) s

value_from-append :
    (digit : ℕ → ℕ) (radix acc : ℕ) (s : Bytes) (c : ℕ)
    → value_from digit radix acc (s ++ c ∷ []) ≡ value_from digit radix acc s * radix + digit c
unfolding value_from
value_from-append digit radix acc [] c = refl
value_from-append digit radix acc (x ∷ s) c =
    value_from-append digit radix (acc * radix + digit x) s c

value_from-hex : (n x : ℕ) → x < 16 ^ n → value_from hex_digit_value 16 0 (hex n x) ≡ x
unfolding hex value_from
value_from-hex zero x h = omega arith
value_from-hex (suc n) x h =
    let bound : x < 16 ^ n * 16 = subst_lt x (16 ^ suc n) (16 ^ n * 16) (pow-suc 16 n) h in
    rw value_from-append
      (omega (arith, value_from-hex n (x / 16) (omega arith), hex_digit_value-hex_digit (x % 16)))
  where
    subst_lt : (x a b : ℕ) → a ≡ b → x < a → x < b
    subst_lt x a b e h = omega arith

-- Two numbers of n hexadecimal digits that are printed alike are equal.
pub hex_injective : (n x y : ℕ) → x < 16 ^ n → y < 16 ^ n → hex n x ≡ hex n y → x ≡ y
hex_injective n x y hx hy e =
    sym (value_from-hex n x hx) ∙ ap (value_from hex_digit_value 16 0) e ∙ value_from-hex n y hy

pub length-hex : (n x : ℕ) → length (hex n x) ≡ n
unfolding hex
length-hex zero x = refl
length-hex (suc n) x =
    omega (arith, length-append (hex n (x / 16)) (hex_digit (x % 16) ∷ []), length-hex n (x / 16))

pub every-append : (p : ℕ → Bool) (s t : Bytes) → every p (s ++ t) ≡ (every p s && every p t)
unfolding every
every-append p [] t = refl
every-append p (c ∷ s) t = ground (arith, every-append p s t)

is_hex_digit-hex_digit : (d : ℕ) → d < 16 → is_hex_digit (hex_digit d) ≡ true
unfolding is_hex_digit hex_digit
is_hex_digit-hex_digit d h = ground arith

pub every-hex : (n x : ℕ) → every is_hex_digit (hex n x) ≡ true
unfolding hex every
every-hex zero x = refl
every-hex (suc n) x =
    rw (every-append, every-hex n (x / 16))
      (ground (arith, is_hex_digit-hex_digit (x % 16) (omega arith)))

abbrev digit_value : ℕ → ℕ
digit_value c = c - b'0'

value_from-decimal_fuel :
    (fuel n : ℕ) → n < fuel → value_from digit_value 10 0 (decimal_fuel fuel n) ≡ n
unfolding decimal_fuel value_from
value_from-decimal_fuel zero n h = absurd (omega arith)
value_from-decimal_fuel (suc fuel) n h = elim (Bool-cases (ltb n 10)) [
  | inl small ↦ rw (small, decimal_fuel) (ground arith)
  | inr large ↦
      rw (large, decimal_fuel)
        (rw value_from-append
          (ground (arith, value_from-decimal_fuel fuel (n / 10) (ground arith))))
]

pub decimal_injective : (m n : ℕ) → decimal m ≡ decimal n → m ≡ n
unfolding decimal
decimal_injective m n e =
    sym (value_from-decimal_fuel (suc m) m (omega arith))
    ∙ ap (value_from digit_value 10 0) e
    ∙ value_from-decimal_fuel (suc n) n (omega arith)

every-decimal_fuel : (fuel n : ℕ) → every is_digit (decimal_fuel fuel n) ≡ true
unfolding decimal_fuel every is_digit
every-decimal_fuel zero n = refl
every-decimal_fuel (suc fuel) n = elim (Bool-cases (ltb n 10)) [
  | inl small ↦ rw (small, decimal_fuel) (ground arith)
  | inr large ↦
      rw (large, decimal_fuel) (rw every-append (ground (arith, every-decimal_fuel fuel (n / 10))))
]

-- `%d` of a number prints digits only, and at least one.
pub every-decimal : (n : ℕ) → every is_digit (decimal n) ≡ true
unfolding decimal
every-decimal n = every-decimal_fuel (suc n) n

pub decimal-pos : (n : ℕ) → 0 < length (decimal n)
unfolding decimal decimal_fuel
decimal-pos n = elim (Bool-cases (ltb n 10)) [
  | inl small ↦ rw (small, decimal_fuel) (omega arith)
  | inr large ↦
      rw (large, decimal_fuel)
        (omega (arith, length-append (decimal_fuel n (n / 10)) ((b'0' + n % 10) ∷ [])))
]

-- A decimal text has no sign.
pub decimal-ne-minus : (n : ℕ) (s : Bytes) → decimal n ≢ b'-' ∷ s
unfolding every is_digit
decimal-ne-minus n s e = absurd (ground (arith, ap (every is_digit) e, every-decimal n))

pub decimal_int_injective : (a b : ℤ) → decimal_int a ≡ decimal_int b → a ≡ b
unfolding decimal_int
decimal_int_injective (pos m) (pos n) e = ap pos (decimal_injective m n e)
decimal_int_injective (pos m) (negsuc n) e = absurd (decimal-ne-minus m (decimal (suc n)) e)
decimal_int_injective (negsuc m) (pos n) e = absurd (decimal-ne-minus n (decimal (suc m)) (sym e))
decimal_int_injective (negsuc m) (negsuc n) e =
    let same : decimal (suc m) ≡ decimal (suc n) = cc in
    ap negsuc (omega (arith, decimal_injective (suc m) (suc n) same))
