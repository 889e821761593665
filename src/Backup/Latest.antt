-- ===== src/Backup/Latest.antt =====
-- The latest version and the new version's id.
use t_sync_sdk_go.Base.{
  ℕ, ◌%◌, ◌^◌, ◌<◌, ◌≡◌, ◌≢◌, refl, subst, ap, ◌++◌, ◌⊎◌, inl, inr, true, false, ◌||◌, none, some,
  List, [], ◌∷◌, arith, eqb, ltb, ◌≤◌, Bool-cases, bytes_eq,
}
use t_sync_sdk_go.Base.Bytes.{Bytes}
use t_sync_sdk_go.Base.Dict
use t_sync_sdk_go.Base.Dict.{Dict, NodupKeys}
use t_sync_sdk_go.Metadata.{Version, BackupMetadata}
use t_sync_sdk_go.Names.{decimal}
use t_sync_sdk_go.Backup.Options.{is_later, latest_of, latest_version, generate_version_id}

is_later_irrefl : (a : Version) → is_later a a ≡ false
unfolding is_later
is_later_irrefl a = ground arith

not_later_trans :
    (a b c : Version) → is_later a b ≡ false → is_later b c ≡ false → is_later a c ≡ false
unfolding is_later
not_later_trans a b c h k = ground arith

later_not_later : (a b : Version) → is_later a b ≡ true → is_later b a ≡ false
unfolding is_later
later_not_later a b h = ground arith

-- What the loop over `d` makes of the version `b`.
abbrev IsGreatest : Version → Dict Bytes Version → Version → Type 0
IsGreatest b d r =
    (is_later r b ≡ false)
    × ((k : Bytes) (v : Version) → Dict.lookup k d ≡ some v → is_later r v ≡ false)
    × ((r ≡ b) ⊎ ((k : Bytes) × (Dict.lookup k d ≡ some r)))

later_above :
    (r : Version) (d : Dict Bytes Version) (j : Bytes) (w : Version)
    → ((k : Bytes) (v : Version) → Dict.lookup k d ≡ some v → is_later r v ≡ false)
    → is_later r w ≡ false
    → (k : Bytes) (v : Version) → Dict.lookup k ((j, w) ∷ d) ≡ some v
    → is_later r v ≡ false
unfolding Dict.lookup
later_above r d j w all h k v found = elim (bytes_eq.dec k j) [
  | yes same ↦ let e : w ≡ v = ground arith in subst (λ z. is_later r z ≡ false) e h
  | no other ↦ all k v (ground arith)
]

found_below :
    (d : Dict Bytes Version) (j : Bytes) (w : Version)
    → Dict.lookup j d ≡ none
    → (k : Bytes) (r : Version) → Dict.lookup k d ≡ some r
    → Dict.lookup k ((j, w) ∷ d) ≡ some r
unfolding Dict.lookup
found_below d j w fresh k r at = elim (bytes_eq.dec k j) [
  | yes same ↦ absurd (ground (arith, ap (λ z. Dict.lookup z d) same))
  | no other ↦ ground arith
]

latest_of-IsGreatest :
    (b : Version) (d : Dict Bytes Version)
    → NodupKeys d
    → (r : Version) × (latest_of (some b) d ≡ some r) × IsGreatest b d r
unfolding latest_of Dict.lookup
latest_of-IsGreatest b [] u =
    (b, refl, (is_later_irrefl b, λ k v e. absurd (ground arith), inl refl))
latest_of-IsGreatest b ((j, w) ∷ d) (fresh, u) = elim (Bool-cases (is_later b w)) [
  | inl later ↦
      let (r, e, (h, all, here)) = latest_of-IsGreatest w d u in
      (
        r,
        rw later e,
        (
          not_later_trans r w b h (later_not_later b w later),
          λ k v found. later_above r d j w all h k v found,
          inr (elim here [
            | inl same ↦ (j, ground (arith, same))
            | inr (k, at) ↦ (k, found_below d j w fresh k r at)
          ]),
        ),
      )
  | inr earlier ↦
      let (r, e, (h, all, here)) = latest_of-IsGreatest b d u in
      (
        r,
        rw earlier e,
        (
          h,
          λ k v found. later_above r d j w all (not_later_trans r b w h earlier) k v found,
          elim here [ inl same ↦ inl same | inr (k, at) ↦ inr (k, found_below d j w fresh k r at) ],
        ),
      )
]

latest_of-none :
    (d : Dict Bytes Version)
    → NodupKeys d
    → d ≢ []
    → (best : Version) × (latest_of none d ≡ some best)
      × ((k : Bytes) × (Dict.lookup k d ≡ some best))
      × ((k : Bytes) (v : Version) → Dict.lookup k d ≡ some v → is_later best v ≡ false)
unfolding latest_of Dict.lookup
latest_of-none [] u some_there = absurd (some_there refl)
latest_of-none ((j, w) ∷ d) (fresh, u) some_there =
    let (r, e, (h, all, here)) = latest_of-IsGreatest w d u in
    (
      r,
      e,
      elim here [
        | inl same ↦ (j, ground (arith, same))
        | inr (k, at) ↦ (k, found_below d j w fresh k r at)
      ],
      λ k v found. later_above r d j w all h k v found,
    )

-- What "latest" means: by timestamp, and by id where the timestamps are equal.
abbrev pub IsAtMost : Version → Version → Type 0
IsAtMost v best =
    (v.backup_timestamp < best.backup_timestamp)
    ⊎ ((v.backup_timestamp ≡ best.backup_timestamp) × (v.snowflake_id ≤ best.snowflake_id))

not_later-IsAtMost : (best v : Version) → is_later best v ≡ false → IsAtMost v best
unfolding is_later
not_later-IsAtMost best v h = elim (Bool-cases (ltb v.backup_timestamp best.backup_timestamp)) [
  | inl before ↦ inl (ground arith)
  | inr after ↦ inr (ground arith, ground arith)
]

-- `latestVersion` of a metadata that lists at least one version is one of those it lists, whatever
-- the order in which Go visits the map, and every listed version has a smaller timestamp, or the
-- same one and an id that is not greater.
pub latest_version-greatest :
    (md : BackupMetadata)
    → NodupKeys md.versions
    → md.versions ≢ []
    → (best : Version) × (latest_version md ≡ some best)
      × ((k : Bytes) × (Dict.lookup k md.versions ≡ some best))
      × ((k : Bytes) (v : Version) → Dict.lookup k md.versions ≡ some v → IsAtMost v best)
unfolding latest_version latest_of Dict.lookup
latest_version-greatest md u some_there =
    let (best, e, here, all) = latest_of-none md.versions u some_there in
    (best, e, here, λ k v found. not_later-IsAtMost best v (all k v found))

generate_version_id_sound :
    (hashes : List ℕ) (existing : Dict Bytes Version) (id : ℕ)
    → generate_version_id hashes existing ≡ some id
    → (id ≢ 0) × (id < 2 ^ 63) × (Dict.has (decimal id) existing ≡ false)
unfolding generate_version_id
generate_version_id_sound [] existing id e = absurd (ground arith)
generate_version_id_sound (hash ∷ hashes) existing id e =
    elim (Bool-cases (eqb (hash % 2 ^ 63) 0 || Dict.has (decimal (hash % 2 ^ 63)) existing)) [
      | inl refused ↦ generate_version_id_sound hashes existing id (ground arith)
      | inr taken ↦
          let same : hash % 2 ^ 63 ≡ id = ground arith in
          (
            ground arith,
            omega arith,
            subst (λ i. Dict.has (decimal i) existing ≡ false) same (ground arith),
          )
    ]

generate_version_id_finds :
    (hashes : List ℕ) (existing : Dict Bytes Version) (before after : List ℕ) (hash : ℕ)
    → hashes ≡ before ++ hash ∷ after
    → hash % 2 ^ 63 ≢ 0
    → Dict.has (decimal (hash % 2 ^ 63)) existing ≡ false
    → generate_version_id hashes existing ≢ none
unfolding generate_version_id
generate_version_id_finds hashes existing [] after hash e nonzero new =
    rw e (λ x. absurd (ground arith))
generate_version_id_finds hashes existing (other ∷ before) after hash e nonzero new = rw e (λ x.
    generate_version_id_finds (before ++ hash ∷ after) existing before after hash refl nonzero new
      (ground arith))

-- An id that `generateVersionID` gives is not zero, fits an `int64`, and is no listed version's;
-- and it gives one as soon as one of the hashes that it draws is such an id without its top bit.
pub generate_version_id-fresh :
    (hashes : List ℕ) (existing : Dict Bytes Version)
    → ((id : ℕ)
        → generate_version_id hashes existing ≡ some id
        → (id ≢ 0) × (id < 2 ^ 63) × (Dict.has (decimal id) existing ≡ false))
      × ((before after : List ℕ) (hash : ℕ)
          → hashes ≡ before ++ hash ∷ after
          → hash % 2 ^ 63 ≢ 0
          → Dict.has (decimal (hash % 2 ^ 63)) existing ≡ false
          → generate_version_id hashes existing ≢ none)
generate_version_id-fresh hashes existing =
    (generate_version_id_sound hashes existing, generate_version_id_finds hashes existing)
