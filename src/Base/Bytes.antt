-- ===== src/Base/Bytes.antt =====
-- Go strings and byte slices: lists of byte values, with the functions of Go's `strings` package
-- that the SDK calls.
use Prim.Native.Char.{code}
use Prim.Native.String.{String}
use t_sync_sdk_go.Base.{
  All, Bool-cases, inl, inr, sym, ap, ◌∙◌, ℕ, ◌≡◌, refl, Bool, true, false, ◌&&◌, not, List, [],
  ◌∷◌, ◌++◌, arith, bytes_eq, if◌then◌else◌, eqb, ltb, leb, ◌||◌, ◌+◌, length, drop,
}

abbrev pub Bytes : Type 0
Bytes = List ℕ

-- The bytes of an ASCII text.
abbrev pub codes : String → Bytes
codes String.[] = []
codes (String.◌∷◌ c s) = code c ∷ codes s

abbrev pub slash : ℕ
slash = b'/'

-- `s < t`: byte order, a proper prefix first.
unfoldable pub less : Bytes → Bytes → Bool
less [] [] = false
less [] (y ∷ t) = true
less (x ∷ s) [] = false
less (x ∷ s) (y ∷ t) = if ltb x y then true else (if eqb x y then less s t else false)

-- `strings.HasPrefix(s, p)`
unfoldable pub has_prefix : Bytes → Bytes → Bool
has_prefix s [] = true
has_prefix [] (c ∷ p) = false
has_prefix (x ∷ s) (c ∷ p) = eqb x c && has_prefix s p

-- `strings.TrimPrefix(s, p)`
unfoldable pub trim_prefix : Bytes → Bytes → Bytes
trim_prefix s p = if has_prefix s p then drop (length p) s else s

pub has_prefix-append : (p s : Bytes) → has_prefix (p ++ s) p ≡ true
unfolding has_prefix
has_prefix-append [] s = refl
has_prefix-append (c ∷ p) s = ground (arith, has_prefix-append p s)

pub drop-length_append : (p s : Bytes) → drop (length p) (p ++ s) ≡ s
drop-length_append [] s = refl
drop-length_append (c ∷ p) s = drop-length_append p s

-- What has been put before a text is taken off.
pub trim_prefix-append : (p s : Bytes) → trim_prefix (p ++ s) p ≡ s
unfolding trim_prefix
trim_prefix-append p s = rw (has_prefix-append p s) (drop-length_append p s)

pub append-cancel : (p s t : Bytes) → p ++ s ≡ p ++ t → s ≡ t
append-cancel p s t e =
    sym (drop-length_append p s) ∙ ap (drop (length p)) e ∙ drop-length_append p t

-- `strings.HasSuffix(s, "/")`
unfoldable pub ends_in_slash : Bytes → Bool
ends_in_slash [] = false
ends_in_slash (x ∷ []) = eqb x slash
ends_in_slash (x ∷ y ∷ s) = ends_in_slash (y ∷ s)

-- `strings.TrimSuffix(s, "/")`
unfoldable pub trim_slash : Bytes → Bytes
trim_slash [] = []
trim_slash (x ∷ []) = if eqb x slash then [] else x ∷ []
trim_slash (x ∷ y ∷ s) = x ∷ trim_slash (y ∷ s)

-- `strings.TrimPrefix(s, "/")`
unfoldable pub trim_leading_slash : Bytes → Bytes
trim_leading_slash [] = []
trim_leading_slash (x ∷ s) = if eqb x slash then s else x ∷ s

-- Whether a path does not start with a slash.
unfoldable pub is_relative : Bytes → Bool
is_relative [] = true
is_relative (x ∷ s) = not (eqb x slash)

-- `strings.TrimPrefix` leaves such a path as it is.
pub trim_leading_slash-is_relative : (s : Bytes) → is_relative s ≡ true → trim_leading_slash s ≡ s
unfolding trim_leading_slash is_relative
trim_leading_slash-is_relative [] h = refl
trim_leading_slash-is_relative (x ∷ s) h = ground arith

abbrev push : ℕ → List Bytes → List Bytes
push x [] = (x ∷ []) ∷ []
push x (p ∷ ps) = (x ∷ p) ∷ ps

-- The white space of ASCII.
abbrev pub is_space : ℕ → Bool
is_space c = eqb c 32 || (leb 9 c && leb c 13)

unfoldable pub trim_start : Bytes → Bytes
trim_start [] = []
trim_start (x ∷ s) = if is_space x then trim_start s else x ∷ s

abbrev put_back : ℕ → Bytes → Bytes
put_back x [] = if is_space x then [] else x ∷ []
put_back x (y ∷ s) = x ∷ y ∷ s

unfoldable pub trim_end : Bytes → Bytes
trim_end [] = []
trim_end (x ∷ s) = put_back x (trim_end s)

-- `strings.TrimSpace` of an ASCII text.
unfoldable pub trim_space : Bytes → Bytes
unfolding trim_start trim_end
trim_space s = trim_end (trim_start s)

-- `strings.ToLower` of an ASCII text.
unfoldable pub to_lower : Bytes → Bytes
to_lower [] = []
to_lower (x ∷ s) = (if leb b'A' x && leb x b'Z' then x + 32 else x) ∷ to_lower s

-- `strings.Split(s, sep)` for a separator of one byte: always at least one part.
unfoldable pub split : ℕ → Bytes → List Bytes
split sep [] = [] ∷ []
split sep (x ∷ s) = if eqb x sep then [] ∷ split sep s else push x (split sep s)

-- `strings.Join(ps, "/")`
unfoldable pub join : List Bytes → Bytes
join [] = []
join (p ∷ []) = p
join (p ∷ q ∷ ps) = p ++ slash ∷ join (q ∷ ps)

pub less_irrefl : (s : Bytes) → less s s ≡ false
unfolding less
less_irrefl [] = refl
less_irrefl (x ∷ s) = ground (arith, less_irrefl s)

pub less_trans : (s t u : Bytes) → less s t ≡ true → less t u ≡ true → less s u ≡ true
unfolding less
less_trans [] [] u h k = ground arith
less_trans [] (y ∷ t) [] h k = ground arith
less_trans [] (y ∷ t) (z ∷ u) h k = refl
less_trans (x ∷ s) [] u h k = ground arith
less_trans (x ∷ s) (y ∷ t) [] h k = ground arith
less_trans (x ∷ s) (y ∷ t) (z ∷ u) h k = ground (arith, less_trans s t u)

-- Two different strings are in order one way or the other.
pub less_total : (s t : Bytes) → less s t ≡ false → less t s ≡ false → s ≡ t
unfolding less
less_total [] [] h k = refl
less_total [] (y ∷ t) h k = ground arith
less_total (x ∷ s) [] h k = ground arith
less_total (x ∷ s) (y ∷ t) h k = ground (arith, less_total s t)

-- No byte of the string is a slash.
unfoldable pub no_slash : Bytes → Bool
no_slash [] = true
no_slash (x ∷ s) = if eqb x slash then false else no_slash s

pub split-no_slash : (p : Bytes) → no_slash p ≡ true → split slash p ≡ p ∷ []
unfolding split no_slash
split-no_slash [] h = refl
split-no_slash (x ∷ p) h = ground (arith, split-no_slash p)

pub split-join_cons :
    (p rest : Bytes) → no_slash p ≡ true → split slash (p ++ slash ∷ rest) ≡ p ∷ split slash rest
unfolding split no_slash
split-join_cons [] rest h = refl
split-join_cons (x ∷ p) rest h = ground (arith, split-join_cons p rest)

-- A split has a first part.
pub split-cons : (s : Bytes) → (part : Bytes) × (rest : List Bytes) × (split slash s ≡ part ∷ rest)
unfolding split
split-cons [] = ([], [], refl)
split-cons (x ∷ s) = elim (Bool-cases (eqb x slash)) [
  | inl sep ↦ ([], split slash s, rw (sep, split) refl)
  | inr other ↦ let (part, rest, e) = split-cons s in (x ∷ part, rest, rw (other, e, split) refl)
]

join-cons : (x : ℕ) (p : Bytes) (ps : List Bytes) → join ((x ∷ p) ∷ ps) ≡ x ∷ join (p ∷ ps)
unfolding join
join-cons x p [] = refl
join-cons x p (q ∷ ps) = refl

join-nil_cons : (p : Bytes) (ps : List Bytes) → join ([] ∷ p ∷ ps) ≡ slash ∷ join (p ∷ ps)
unfolding join
join-nil_cons p ps = refl

join-nil : join ([] ∷ []) ≡ []
unfolding join
join-nil = refl

-- `strings.Join` undoes `strings.Split`.
pub join-split : (s : Bytes) → join (split slash s) ≡ s
unfolding split
join-split [] = join-nil
join-split (x ∷ s) =
    let (part, rest, e) = split-cons s in
    let ih : join (part ∷ rest) ≡ s = ap join (sym e) ∙ join-split s in
    elim (Bool-cases (eqb x slash)) [
      | inl sep ↦ rw (sep, split, e) (join-nil_cons part rest ∙ ground (arith, ih))
      | inr other ↦ rw (other, split, e) (join-cons x part rest ∙ ground (arith, ih))
    ]

-- `strings.Split` undoes `strings.Join` on parts without a slash.
pub split-join :
    (p : Bytes) (ps : List Bytes)
    → All (λ q. no_slash q ≡ true) (p ∷ ps)
    → split slash (join (p ∷ ps)) ≡ p ∷ ps
unfolding join
split-join p [] (clean, rest) = split-no_slash p clean
split-join p (q ∷ ps) (clean, rest) =
    split-join_cons p (join (q ∷ ps)) clean ∙ ap (λ z. p ∷ z) (split-join q ps rest)
