-- ===== src/Auth.antt =====
-- storage_clients/auth.go: `ParseAuthString`. `strings.TrimSpace` and `strings.ToLower`, which go by
-- the tables of package unicode, are parameters; on ASCII texts they are `trim_space` and `to_lower`.
pub mod Given
mod Tests
use t_sync_sdk_go.Base.{
  ℕ, ◌+◌, ◌-◌, ◌≡◌, ◌≢◌, subst, inl, inr, Bool, true, false, ◌&&◌, not, Option, none, some, List,
  [], ◌∷◌, arith, All, Bool-cases, ◌==◌, bytes_eq, contains, if◌then◌else◌, eqb,
}
use t_sync_sdk_go.Base.Bytes.{Bytes, split, trim_space, to_lower}
use t_sync_sdk_go.Base.Dict
use t_sync_sdk_go.Base.Dict.{Dict, NodupKeys}
use t_sync_sdk_go.Errors.{sentinel, wrap, invalid_config, Result, ok, err, Result-cases}

abbrev before : ℕ → Bytes × Option Bytes → Bytes × Option Bytes
before x (base, rest) = (x ∷ base, rest)

-- The scan for the first ';' outside brackets: what stands before it, and what follows.
unfoldable pub scan_base : ℕ → Bytes → Bytes × Option Bytes
scan_base depth [] = ([], none)
scan_base depth (x ∷ s) =
    let deeper = before x (scan_base (depth + 1) s) in
    let higher = before x (scan_base (depth - 1) s) in
    let same = before x (scan_base depth s) in
    if eqb x b'['
    then deeper
    else if eqb x b']'
    then higher
    else if eqb x b';' && eqb depth 0
    then ([], some s)
    else same

abbrev before_cut : ℕ → Option (Bytes × Bytes) → Option (Bytes × Bytes)
before_cut x none = none
before_cut x (some (k, v)) = some (x ∷ k, v)

-- `strings.Cut(s, "=")`
unfoldable pub cut : Bytes → Option (Bytes × Bytes)
cut [] = none
cut (x ∷ s) = let rest = before_cut x (cut s) in if eqb x b'=' then some ([], s) else rest

abbrev malformed : {A : Type 0} → Result A
malformed = err (wrap (sentinel invalid_config))

abbrev pub is_empty : Bytes → Bool
is_empty [] = true
is_empty (x ∷ s) = false

-- An option that is well formed, with its key in lower case and both parts trimmed.
unfoldable pub add_option :
    List Bytes → Dict Bytes Bytes → Bytes → Bytes → Result (Dict Bytes Bytes)
add_option allowed opts k v =
    if is_empty k
    then malformed
    else if not (contains allowed k)
    then malformed
    else if Dict.has k opts
    then malformed
    else ok (Dict.insert k v opts)

-- The two functions on texts that hang on the tables of package unicode.
pub record Text : Type 0 where
  pub trim : Bytes → Bytes
  pub lower : Bytes → Bytes

-- The two functions on ASCII texts.
abbrev pub ascii : Text
ascii = record { trim = trim_space; lower = to_lower }

module _ (text : Text) where
  abbrev pub add_cut :
      List Bytes → Dict Bytes Bytes → Option (Bytes × Bytes) → Result (Dict Bytes Bytes)
  add_cut allowed opts none = malformed
  add_cut allowed opts (some (k, v)) =
      add_option allowed opts (text.lower (text.trim k)) (text.trim v)

  -- One segment, trimmed; an empty one is skipped.
  abbrev pub add_segment : List Bytes → Dict Bytes Bytes → Bytes → Result (Dict Bytes Bytes)
  add_segment allowed opts seg = if is_empty seg then ok opts else add_cut allowed opts (cut seg)

  unfoldable pub add_segments :
      List Bytes → Dict Bytes Bytes → List Bytes → Result (Dict Bytes Bytes)
  unfolding add_option cut
  add_segments allowed opts [] = ok opts
  add_segments allowed opts (seg ∷ segs) = elim (add_segment allowed opts (text.trim seg)) [
    | err e ↦ err e
    | ok opts' ↦ add_segments allowed opts' segs
  ]

  abbrev with_base : Bytes → Result (Dict Bytes Bytes) → Result (Bytes × Dict Bytes Bytes)
  with_base base (ok opts) = ok (base, opts)
  with_base base (err e) = err e

  abbrev pub options_of : List Bytes → Bytes × Option Bytes → Result (Bytes × Dict Bytes Bytes)
  options_of allowed (base, none) = ok (text.trim base, [])
  options_of allowed (base, some rest) =
      with_base (text.trim base) (add_segments allowed [] (split b';' rest))

  -- `ParseAuthString`
  unfoldable pub parse_auth_string : Bytes → List Bytes → Result (Bytes × Dict Bytes Bytes)
  unfolding scan_base add_segments
  parse_auth_string auth allowed = options_of allowed (scan_base 0 auth)
