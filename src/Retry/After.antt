-- ===== src/Retry/After.antt =====
-- storage_clients/retry.go: `ParseRetryAfter`. `http.ParseTime`, with the difference to the present,
-- is a parameter.
use t_sync_sdk_go.Base.{
  ℕ, zero, suc, ◌+◌, ◌-◌, ◌*◌, ◌^◌, ◌≡◌, ◌≤◌, ◌⊎◌, inl, inr, refl, Option, none, some, [], ◌∷◌,
  arith, if◌then◌else◌, eqb, ltb, ℤ, pos, negsuc,
}
use t_sync_sdk_go.Base.Bytes.{Bytes, trim_space}
use t_sync_sdk_go.Names.{every, is_digit}

abbrev digits_value : ℕ → Bytes → ℕ
digits_value acc [] = acc
digits_value acc (c ∷ s) = digits_value (acc * 10 + (c - b'0')) s

-- The number of a text of digits.
abbrev natural : Bytes → Option ℕ
natural [] = none
natural (c ∷ s) = if every is_digit (c ∷ s) then some (digits_value 0 (c ∷ s)) else none

abbrev in_range : Option ℕ → Option ℤ
in_range none = none
in_range (some n) = if ltb n (2 ^ 63) then some (pos n) else none

-- The value of "-n", for n up to 2 ^ 63.
abbrev negated : Option ℕ → Option ℤ
negated none = none
negated (some zero) = some (pos 0)
negated (some (suc n)) = if ltb n (2 ^ 63) then some (negsuc n) else none

-- `strconv.ParseInt(s, 10, 64)`
unfoldable pub parse_int : Bytes → Option ℤ
unfolding every is_digit
parse_int [] = none
parse_int (c ∷ s) =
    if eqb c b'+'
    then in_range (natural s)
    else if eqb c b'-'
    then negated (natural s)
    else in_range (natural (c ∷ s))

abbrev pub second : ℕ
second = 10 ^ 9

abbrev pub most_seconds : ℕ
most_seconds = 86400

-- A number of seconds, as a duration of at most a day.
abbrev pub seconds_capped : ℤ → ℕ
seconds_capped (negsuc n) = 0
seconds_capped (pos n) = (if ltb most_seconds n then most_seconds else n) * second

abbrev pub positive : Option ℤ → ℕ
positive none = 0
positive (some (negsuc n)) = 0
positive (some (pos n)) = n

abbrev pub or_date : (Bytes → Option ℤ) → Bytes → Option ℤ → ℕ
or_date until v (some n) = seconds_capped n
or_date until v none = positive (until v)

-- The hint of a trimmed text.
unfoldable pub hint_of : (Bytes → Option ℤ) → Bytes → ℕ
unfolding parse_int
hint_of until [] = 0
hint_of until (c ∷ s) = or_date until (c ∷ s) (parse_int (c ∷ s))

-- `ParseRetryAfter`, where `until` reads a date and says how far it is ahead.
unfoldable pub parse_retry_after : (Bytes → Option ℤ) → Bytes → ℕ
unfolding hint_of trim_space
parse_retry_after until v = hint_of until (trim_space v)

-- What is asked of the hint that a header gives.
abbrev pub IsHint : (Bytes → Option ℤ) → Bytes → ℕ → Type 0
IsHint until v hint =
    (hint ≤ most_seconds * second) ⊎ ((parse_int v ≡ none) × (until v ≡ some (pos hint)))

seconds_capped_bound : (z : ℤ) → seconds_capped z ≤ most_seconds * second
seconds_capped_bound (negsuc n) = omega arith
seconds_capped_bound (pos n) = ground arith

date_hint : (o : Option ℤ) → (positive o ≤ most_seconds * second) ⊎ (o ≡ some (pos (positive o)))
date_hint none = inl (omega arith)
date_hint (some (negsuc n)) = inl (omega arith)
date_hint (some (pos n)) = inr refl

or_date-IsHint :
    (until : Bytes → Option ℤ) (v : Bytes) (o : Option ℤ)
    → parse_int v ≡ o
    → IsHint until v (or_date until v o)
or_date-IsHint until v (some n) e = inl (seconds_capped_bound n)
or_date-IsHint until v none e = elim (date_hint (until v)) [
  | inl small ↦ inl small
  | inr ahead ↦ inr (e, ahead)
]

hint_of-IsHint : (until : Bytes → Option ℤ) (v : Bytes) → IsHint until v (hint_of until v)
unfolding hint_of
hint_of-IsHint until [] = inl (omega arith)
hint_of-IsHint until (c ∷ s) = or_date-IsHint until (c ∷ s) (parse_int (c ∷ s)) refl

-- The hint of a Retry-After header is never more than a day, unless the header is no number but a
-- date, which is then that far ahead; so a number of seconds cannot make the client wait longer,
-- and cannot overflow.
pub parse_retry_after-IsHint :
    (until : Bytes → Option ℤ) (v : Bytes) → IsHint until (trim_space v) (parse_retry_after until v)
unfolding parse_retry_after
parse_retry_after-IsHint until v = hint_of-IsHint until (trim_space v)
