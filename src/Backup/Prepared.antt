-- ===== src/Backup/Prepared.antt =====
-- The entries that `RunBackup` goes on with.
use t_sync_sdk_go.Base.{
  ◌≡◌, ◌∙◌, ap, subst, inl, inr, Bool, true, Option, List, [], ◌∷◌, arith, Bool-cases, All,
}
use t_sync_sdk_go.Base.Bytes.{Bytes, split, slash, trim_slash}
use t_sync_sdk_go.Errors.{Result, ok, Result-cases}
use t_sync_sdk_go.Names.{validate_name}
use t_sync_sdk_go.Backup.Options.{is_set}
use t_sync_sdk_go.Backup.Part.{SourceEntry}
use t_sync_sdk_go.Backup.Secrets.{validate_parts, filtered, prepare_entries}

abbrev IsName : Bytes → Type 0
IsName part = validate_name part ≡ ok tt

validate_parts-IsName : (parts : List Bytes) → validate_parts parts ≡ ok tt → All IsName parts
unfolding validate_parts
validate_parts-IsName [] h = tt
validate_parts-IsName (part ∷ parts) h = elim (Result-cases (validate_name part)) [
  | inr (x, e) ↦ absurd (ground arith)
  | inl (u, e) ↦ (e, validate_parts-IsName parts (ground arith))
]

-- An entry that the filter wants and whose path is made of valid names.
abbrev pub IsPrepared : Option (Bytes → Result Bool) → SourceEntry → Type 0
IsPrepared filter entry =
    (filtered filter entry.path ≡ ok true)
    × (is_set entry.path ≡ true)
    × All IsName (split slash (trim_slash entry.path))

-- The entries that `RunBackup` goes on with are those that the filter wants, and every component of
-- each of their paths, which is not empty, is a valid name.
pub prepare_entries-IsPrepared :
    (filter : Option (Bytes → Result Bool)) (entries kept : List SourceEntry)
    → prepare_entries filter entries ≡ ok kept
    → All (IsPrepared filter) kept
unfolding prepare_entries
prepare_entries-IsPrepared filter [] kept h =
    let same : [] ≡ kept = ground arith in subst (All (IsPrepared filter)) same tt
prepare_entries-IsPrepared filter (entry ∷ entries) kept h =
    elim (Result-cases (filtered filter entry.path)) [
      | inr (x, f) ↦ absurd (ground arith)
      | inl (wanted, f) ↦ elim (Bool-cases wanted) [
        | inr skip ↦ prepare_entries-IsPrepared filter entries kept (ground arith)
        | inl keep ↦ elim (Bool-cases (is_set entry.path)) [
          | inr unset ↦ absurd (ground arith)
          | inl set ↦ elim (Result-cases (validate_parts (split slash (trim_slash entry.path)))) [
            | inr (x, v) ↦ absurd (ground arith)
            | inl (u, v) ↦ elim (Result-cases (prepare_entries filter entries)) [
              | inr (x, r) ↦ absurd (ground arith)
              | inl (rest, r) ↦
                  let same : entry ∷ rest ≡ kept = ground arith in
                  subst (All (IsPrepared filter)) same (
                    (
                      f ∙ ap ok keep,
                      set,
                      validate_parts-IsName (split slash (trim_slash entry.path)) v,
                    ),
                    prepare_entries-IsPrepared filter entries rest r,
                  )
            ]
          ]
        ]
      ]
    ]
