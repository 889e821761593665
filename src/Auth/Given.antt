-- ===== src/Auth/Given.antt =====
-- What `ParseAuthString` has made of the options that a text gives.
use t_sync_sdk_go.Base.{
  ◌≡◌, ◌≢◌, true, Option, none, some, List, [], ◌∷◌, bytes_eq, contains, if◌then◌else◌, ◌++◌,
}
use t_sync_sdk_go.Base.Bytes.{Bytes, split}
use t_sync_sdk_go.Base.Dict
use t_sync_sdk_go.Base.Dict.{Dict, NodupKeys, lookup-insert}
use t_sync_sdk_go.Auth.{cut, is_empty, Text}

-- The segments that are not blank.
abbrev pub filled : Text → List Bytes → List Bytes
filled text [] = []
filled text (seg ∷ segs) =
    if is_empty (text.trim seg) then filled text segs else text.trim seg ∷ filled text segs

-- The options that a text gives: the segments after the first ';' outside brackets, without the blank
-- ones.
abbrev pub segments_of : Text → Option Bytes → List Bytes
segments_of text none = []
segments_of text (some rest) = filled text (split b';' rest)

-- What is asked of a segment and an option: the segment is a key, '=' and a value, and the option is
-- the two trimmed, with the key in lower case, not empty and one of the allowed.
pub record IsGiven (text : Text) (allowed : List Bytes) (seg k v : Bytes) : Type 0 where
  pub key : Bytes
  pub value : Bytes
  pub cut_eq : cut seg ≡ some (key, value)
  pub key_eq : text.lower (text.trim key) ≡ k
  pub value_eq : text.trim value ≡ v
  pub some_key : k ≢ []
  pub known : contains allowed k ≡ true

-- The options are those that the segments give, one for each segment.
abbrev pub AreGiven : Text → List Bytes → List Bytes → Dict Bytes Bytes → Type 0
AreGiven text allowed [] [] = Unit
AreGiven text allowed [] (o ∷ opts) = ⊥
AreGiven text allowed (seg ∷ segs) [] = ⊥
AreGiven text allowed (seg ∷ segs) ((k, v) ∷ opts) =
    IsGiven text allowed seg k v × AreGiven text allowed segs opts

-- What is asked of the options of a text with the given segments.
pub record AreOptions (text : Text) (allowed segs : List Bytes) (opts : Dict Bytes Bytes)
    : Type 0 where
  pub nodup : NodupKeys opts
  pub given : AreGiven text allowed segs opts

-- What a segment that is not blank has done to the options.
record IsAdded (text : Text) (allowed : List Bytes) (opts opts' : Dict Bytes Bytes) (seg : Bytes)
    : Type 0 where
  key : Bytes
  value : Bytes
  is_given : IsGiven text allowed seg key value
  after : opts' ≡ opts ++ (key, value) ∷ []
  nodup : NodupKeys opts → NodupKeys opts'

-- What all the segments have done to the options.
record AreAdded (text : Text) (allowed : List Bytes) (opts opts' : Dict Bytes Bytes)
    (segs : List Bytes) : Type 0 where
  more : Dict Bytes Bytes
  are_given : AreGiven text allowed segs more
  after : opts' ≡ opts ++ more
  nodup : NodupKeys opts → NodupKeys opts'
