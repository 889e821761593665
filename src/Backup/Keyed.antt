-- ===== src/Backup/Keyed.antt =====
-- The records of a run stand under the keys of their contents.
use t_sync_sdk_go.Base.{
  Bool, ◌∙◌, ap, true, false, Option, ℕ, ◌≡◌, sym, subst, inl, inr, none, some, List, [], ◌∷◌,
  arith, Bool-cases, Option-cases, bytes_eq, ℤ, All,
}
use t_sync_sdk_go.Base.Bytes.{Bytes}
use t_sync_sdk_go.Base.Dict
use t_sync_sdk_go.Base.Dict.{Dict, NodupKeys, lookup-insert, insert-NodupKeys}
use t_sync_sdk_go.Errors.{GoError, Result, ok, err, Result-cases}
use t_sync_sdk_go.Metadata.{Storage, FileRecord}
use t_sync_sdk_go.Names.{file_key_for, part_key_for}
use t_sync_sdk_go.Backup.Part.{SourceEntry, Zip, Writers}
use t_sync_sdk_go.Backup.Upload.{
  Pass, compression_for, open_entry, is_dir_entry, Outcome, folder, stored, stopped, fill_part,
  check_key, settle, write_part, upload_part, RunState, Meanwhile, waited, cancel_with, upload_once,
  key_of, process_file, process, cancel,
}
use t_sync_sdk_go.Backup.Gather.{
  Event, take_entry, caller_cancels, work, Gathered, nothing_gathered, gather_one, gather,
}

abbrev pub HasKey : Bytes → FileRecord → Type 0
HasKey key rec = file_key_for rec.crc32 rec.uncompressed_size ≡ key

-- Every record stands under the key of its CRC and its size.
abbrev pub IsKeyed : Dict Bytes FileRecord → Type 0
IsKeyed d = (key : Bytes) (rec : FileRecord) → Dict.lookup key d ≡ some rec → HasKey key rec

module _ (S : Storage) (W : Writers S) (zip : Zip) (pass : Pass) where
  settle-HasKey :
      (w : W.Handle) (entry : SourceEntry) (key : Bytes) (r : Result (ℕ × ℤ × ℤ)) (s : S.State)
      (rec : FileRecord)
      → (settle S W zip pass w entry (check_key S W zip pass key r) s).1 ≡ ok rec
      → HasKey key rec
  unfolding settle check_key
  settle-HasKey w entry key (err e) s rec h = absurd (ground arith)
  settle-HasKey w entry key (ok (crc, size, packed)) s rec h =
      elim (bytes_eq.dec (file_key_for crc size) key) [
        | no differ ↦ absurd (ground arith)
        | yes same ↦ elim (Option-cases (W.close s w).1) [
          | inr (x, c) ↦ absurd (ground arith)
          | inl c ↦ ground (arith, same)
        ]
      ]

  -- An upload that succeeds gives a record of the key it was asked for, whichever of the three
  -- sources of the content it used.
  pub upload_part-HasKey :
      (key : Bytes) (entry : SourceEntry) (s : S.State) (rec : FileRecord)
      → (upload_part S W zip pass key entry s).1 ≡ ok rec
      → HasKey key rec
  unfolding upload_part write_part
  upload_part-HasKey key entry s rec h = elim (Result-cases (compression_for pass entry.path)) [
    | inr (x, e) ↦ absurd (ground arith)
    | inl (comp, e) ↦ elim (Result-cases (open_entry entry)) [
      | inr (x, o) ↦ absurd (ground arith)
      | inl (rc, o) ↦ elim (Result-cases (W.open_writer s (part_key_for key)).1) [
        | inr (x, w) ↦ absurd (ground arith)
        | inl (w, opened) ↦
            let t = fill_part S W zip pass comp w rc entry (W.open_writer s (part_key_for key)).0 in
            settle-HasKey w entry key t.1 t.0 rec (ground arith)
      ]
    ]
  ]

  waited-ok :
      (notices : Bool) (cause : Option GoError) (r : Result FileRecord) (rec : FileRecord)
      → waited notices cause r ≡ ok rec
      → r ≡ ok rec
  waited-ok true (some c) r rec h = absurd (ground arith)
  waited-ok true none r rec h = h
  waited-ok false cause r rec h = h

  -- The finished uploads of a run are of their keys.
  abbrev FlightsKeyed : RunState S W zip pass → Type 0
  FlightsKeyed st =
      (key : Bytes) (rec : FileRecord) → Dict.lookup key st.flights ≡ some (ok rec) → HasKey key rec

  upload_once-HasKey :
      (key : Bytes) (entry : SourceEntry) (notices : Bool) (st : RunState S W zip pass)
      → FlightsKeyed st
      → FlightsKeyed (upload_once S W zip pass key entry notices st).0
        × ((rec : FileRecord)
            → (upload_once S W zip pass key entry notices st).1 ≡ ok rec
            → HasKey key rec)
  unfolding upload_once
  upload_once-HasKey key entry notices st keyed = elim (Option-cases (Dict.lookup key st.flights)) [
    | inr (r, e) ↦
        rw (e, upload_once)
          (keyed, λ rec h. keyed key rec (e ∙ ap some (waited-ok notices st.cause r rec h)))
    | inl e ↦
        rw (e, upload_once)
          (
            λ j rec found. elim (bytes_eq.dec j key) [
              | yes same ↦
                  subst (λ i. HasKey i rec) (sym same)
                    (upload_part-HasKey key entry st.store rec (
                      ground (
                        arith,
                        lookup-insert j key (upload_part S W zip pass key entry st.store).1
                            st.flights,
                      )))
              | no other ↦ keyed j rec (
                  ground (
                    arith,
                    lookup-insert j key (upload_part S W zip pass key entry st.store).1 st.flights,
                  ))
            ],
            λ rec h. upload_part-HasKey key entry st.store rec h,
          )
  ]

  abbrev OutcomeKeyed : Outcome → Type 0
  OutcomeKeyed (folder path) = Unit
  OutcomeKeyed (stored path key rec) = HasKey key rec
  OutcomeKeyed (stopped path e) = Unit

  module _ (existing-IsKeyed : IsKeyed pass.existing) where
    process_file-HasKey :
        (entry : SourceEntry) (notices : Bool) (st : RunState S W zip pass)
        → FlightsKeyed st
        → FlightsKeyed (process_file S W zip pass entry notices st).0
          × ((pair : Bytes × FileRecord)
              → (process_file S W zip pass entry notices st).1 ≡ ok pair
              → HasKey pair.0 pair.1)
    unfolding process_file
    process_file-HasKey entry notices st keyed = elim (Result-cases (key_of S W zip pass entry)) [
      | inr (x, e) ↦ rw (e, process_file) (keyed, λ pair h. absurd (ground arith))
      | inl (key, e) ↦ elim (Option-cases (Dict.lookup key pass.existing)) [
        | inr (rec, f) ↦
            rw (e, f, process_file) (keyed, λ pair h. ground (arith, existing-IsKeyed key rec f))
        | inl f ↦
            let (keyed', of_key) = upload_once-HasKey key entry notices st keyed in
            elim (Result-cases (upload_once S W zip pass key entry notices st).1) [
              | inr (x, u) ↦ rw (e, f, u, process_file) (keyed', λ pair h. absurd (ground arith))
              | inl (rec, u) ↦
                  rw (e, f, u, process_file) (keyed', λ pair h. ground (arith, of_key rec u))
            ]
      ]
    ]

    process-Keyed :
        (entry : SourceEntry) (m : Meanwhile) (st : RunState S W zip pass)
        → FlightsKeyed st
        → FlightsKeyed (process S W zip pass entry m st).0
          × OutcomeKeyed (process S W zip pass entry m st).1
    unfolding process
    process-Keyed entry m st keyed = elim (Option-cases st.cause) [
      | inr (c, e) ↦ rw (e, process) (keyed, tt)
      | inl e ↦ elim (Bool-cases (is_dir_entry entry)) [
        | inl d ↦ rw (e, d, process) (keyed, tt)
        | inr d ↦
            let st1 = cancel_with S W zip pass m.cancels st in
            let (keyed', of_key) = process_file-HasKey entry m.notices st1 keyed in
            elim (Result-cases (process_file S W zip pass entry m.notices st1).1) [
              | inr (x, f) ↦ rw (e, d, f, process) (keyed', tt)
              | inl (pair, f) ↦ rw (e, d, f, process) (keyed', of_key pair f)
            ]
      ]
    ]

    work-Keyed :
        (events : List Event) (st : RunState S W zip pass)
        → FlightsKeyed st
        → All OutcomeKeyed (work S W zip pass events st).1
    unfolding work
    work-Keyed [] st keyed = tt
    work-Keyed (take_entry entry m ∷ events) st keyed =
        let (keyed', here) = process-Keyed entry m st keyed in
        (here, work-Keyed events (process S W zip pass entry m st).0 keyed')
    work-Keyed (caller_cancels e ∷ events) st keyed =
        work-Keyed events (cancel S W zip pass e st) keyed

-- What is asked of the gathered results: records under their keys, and a record for every path.
pub record IsGathered (g : Gathered) : Type 0 where
  pub keyed : IsKeyed g.files_pool
  pub recorded :
      (p key : Bytes)
      → Dict.lookup p g.path_to_file_key ≡ some key
      → (rec : FileRecord) × (Dict.lookup key g.files_pool ≡ some rec)
  pub nodup : NodupKeys g.path_to_file_key
  pub nodup_pool : NodupKeys g.files_pool

nothing-IsGathered : IsGathered nothing_gathered
unfolding Dict.lookup
nothing-IsGathered = record {
  keyed = λ key rec e. absurd (ground arith);
  recorded = λ p key e. absurd (ground arith);
  nodup = tt;
  nodup_pool = tt;
}

module _ (g : Gathered) (good : IsGathered g) (path key : Bytes) (rec : FileRecord) where
  insert-recorded :
      (p k : Bytes)
      → Dict.lookup p (Dict.insert path key g.path_to_file_key) ≡ some k
      → (r : FileRecord) × (Dict.lookup k (Dict.insert key rec g.files_pool) ≡ some r)
  insert-recorded p k found = elim (bytes_eq.dec k key) [
    | yes same ↦ (rec, ground (arith, lookup-insert k key rec g.files_pool))
    | no other ↦ elim (bytes_eq.dec p path) [
      | yes here ↦ absurd (other (ground (arith, lookup-insert p path key g.path_to_file_key)))
      | no there ↦
          let (r, e) =
            good.recorded p k (ground (arith, lookup-insert p path key g.path_to_file_key)) in
          (r, ground (arith, lookup-insert k key rec g.files_pool))
    ]
  ]

  insert-IsKeyed : HasKey key rec → IsKeyed (Dict.insert key rec g.files_pool)
  insert-IsKeyed h k r found = elim (bytes_eq.dec k key) [
    | yes same ↦ ground (arith, lookup-insert k key rec g.files_pool)
    | no other ↦ good.keyed k r (ground (arith, lookup-insert k key rec g.files_pool))
  ]

gather_one-IsGathered :
    (S : Storage) (W : Writers S) (zip : Zip) (pass : Pass) (o : Outcome) (g : Gathered)
    → OutcomeKeyed S W zip pass o
    → IsGathered g
    → IsGathered (gather_one o g)
unfolding gather_one
gather_one-IsGathered S W zip pass (stopped path e) g h good = record {
  keyed = good.keyed;
  recorded = good.recorded;
  nodup = good.nodup;
  nodup_pool = good.nodup_pool;
}
gather_one-IsGathered S W zip pass (folder path) g h good = elim (Option-cases g.first_err) [
  | inr (x, e) ↦ rw (e, gather_one) good
  | inl e ↦
      rw (e, gather_one)
        (record {
          keyed = good.keyed;
          recorded = good.recorded;
          nodup = good.nodup;
          nodup_pool = good.nodup_pool;
        })
]
gather_one-IsGathered S W zip pass (stored path key rec) g h good =
    elim (Option-cases g.first_err) [
      | inr (x, e) ↦ rw (e, gather_one) good
      | inl e ↦
          rw (e, gather_one)
            (record {
              keyed = insert-IsKeyed g good path key rec h;
              recorded = insert-recorded g good path key rec;
              nodup = insert-NodupKeys path key g.path_to_file_key good.nodup;
              nodup_pool = insert-NodupKeys key rec g.files_pool good.nodup_pool;
            })
    ]

gather-IsGathered :
    (S : Storage) (W : Writers S) (zip : Zip) (pass : Pass) (os : List Outcome) (g : Gathered)
    → All (OutcomeKeyed S W zip pass) os
    → IsGathered g
    → IsGathered (gather os g)
unfolding gather
gather-IsGathered S W zip pass [] g h good = good
gather-IsGathered S W zip pass (o ∷ os) g (h, hs) good =
    gather-IsGathered S W zip pass os (gather_one o g) hs
      (gather_one-IsGathered S W zip pass o g h good)

-- If every record of the loaded metadata stands under the key of its CRC and size, then after any
-- schedule of the workers so does every record that the run has gathered, and every file path that
-- it has gathered has a record.
pub work-IsGathered :
    (S : Storage) (W : Writers S) (zip : Zip) (pass : Pass) (events : List Event) (s : S.State)
    → IsKeyed pass.existing
    → IsGathered (
        gather
          (work S W zip pass events (record { store = s; flights = []; cause = none })).1
          nothing_gathered)
unfolding Dict.lookup
work-IsGathered S W zip pass events s existing =
    gather-IsGathered S W zip pass _ nothing_gathered
      (work-Keyed S W zip pass existing events _ (λ key rec e. absurd (ground arith)))
      nothing-IsGathered
