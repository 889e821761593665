-- ===== src/Backup/Once.antt =====
-- A part is uploaded at most once in a run.
use t_sync_sdk_go.Base.{
  ◌≡◌, refl, subst, ◌⊎◌, ap, sym, inl, inr, Bool, true, false, none, some, List, [], ◌∷◌, arith,
  Bool-cases, Option-cases, bytes_eq, ==_self,
}
use t_sync_sdk_go.Base.Bytes.{Bytes}
use t_sync_sdk_go.Base.Dict
use t_sync_sdk_go.Base.Dict.{lookup-insert}
use t_sync_sdk_go.Errors.{GoError, Result, err, Result-cases}
use t_sync_sdk_go.Metadata.{Storage, FileRecord}
use t_sync_sdk_go.Backup.Part.{SourceEntry, Zip, Writers}
use t_sync_sdk_go.Backup.Upload.{
  Pass, is_dir_entry, Meanwhile, waited, RunState, cancel_with, cancel, upload_part, upload_once,
  key_of, process_file, process,
}
use t_sync_sdk_go.Backup.Gather.{Event, take_entry, caller_cancels, work}

module _ (S : Storage) (W : Writers S) (zip : Zip) (pass : Pass) where
  -- The result of an upload that has been made.
  abbrev HasFlight : Bytes → Result FileRecord → RunState S W zip pass → Type 0
  HasFlight key r st = Dict.lookup key st.flights ≡ some r

  upload_once-hit :
      (key : Bytes) (entry : SourceEntry) (notices : Bool) (st : RunState S W zip pass)
      (r : Result FileRecord)
      → HasFlight key r st
      → upload_once S W zip pass key entry notices st ≡ (st, waited notices st.cause r)
  unfolding upload_once
  upload_once-hit key entry notices st r h = rw (h, upload_once) refl

  -- The first upload of a key is recorded with its result.
  upload_once_recorded :
      (key : Bytes) (entry : SourceEntry) (notices : Bool) (st : RunState S W zip pass)
      → Dict.lookup key st.flights ≡ none
      → HasFlight key
          (upload_part S W zip pass key entry st.store).1
          (upload_once S W zip pass key entry notices st).0
  unfolding upload_once
  upload_once_recorded key entry notices st fresh =
      let result = (upload_part S W zip pass key entry st.store).1 in
      rw (fresh, upload_once) (ground (arith, lookup-insert key key result st.flights, ==_self key))

  upload_once-HasFlight :
      (key : Bytes) (r : Result FileRecord) (j : Bytes) (entry : SourceEntry) (notices : Bool)
      (st : RunState S W zip pass)
      → HasFlight key r st
      → HasFlight key r (upload_once S W zip pass j entry notices st).0
  unfolding upload_once
  upload_once-HasFlight key r j entry notices st h =
      elim (Option-cases (Dict.lookup j st.flights)) [
        | inr (q, e) ↦ rw (e, upload_once) h
        | inl fresh ↦
            let result = (upload_part S W zip pass j entry st.store).1 in
            rw (fresh, upload_once)
              (elim (bytes_eq.dec key j) [
                | yes same ↦
                    absurd (ground (arith, ap (λ z. Dict.lookup z st.flights) same, h, fresh))
                | no other ↦ ground (arith, lookup-insert key j result st.flights, h)
              ])
      ]

  process_file-HasFlight :
      (key : Bytes) (r : Result FileRecord) (entry : SourceEntry) (notices : Bool)
      (st : RunState S W zip pass)
      → HasFlight key r st
      → HasFlight key r (process_file S W zip pass entry notices st).0
  unfolding process_file
  process_file-HasFlight key r entry notices st h =
      elim (Result-cases (key_of S W zip pass entry)) [
        | inr (x, e) ↦ rw (e, process_file) h
        | inl (j, e) ↦ elim (Option-cases (Dict.lookup j pass.existing)) [
          | inr (rec, f) ↦ rw (e, f, process_file) h
          | inl f ↦ rw (e, f, process_file) (upload_once-HasFlight key r j entry notices st h)
        ]
      ]

  process-HasFlight :
      (key : Bytes) (r : Result FileRecord) (entry : SourceEntry) (m : Meanwhile)
      (st : RunState S W zip pass)
      → HasFlight key r st
      → HasFlight key r (process S W zip pass entry m st).0
  unfolding process
  process-HasFlight key r entry m st h = elim (Option-cases st.cause) [
    | inr (c, e) ↦ rw (e, process) h
    | inl e ↦ elim (Bool-cases (is_dir_entry entry)) [
      | inl d ↦ rw (e, d, process) h
      | inr d ↦
          let st1 = cancel_with S W zip pass m.cancels st in
          let kept = process_file-HasFlight key r entry m.notices st1 h in
          elim (Result-cases (process_file S W zip pass entry m.notices st1).1) [
            | inr (x, f) ↦ rw (e, d, f, process) kept
            | inl (pair, f) ↦ rw (e, d, f, process) kept
          ]
    ]
  ]

  work-HasFlight :
      (key : Bytes) (r : Result FileRecord) (events : List Event) (st : RunState S W zip pass)
      → HasFlight key r st
      → HasFlight key r (work S W zip pass events st).0
  unfolding work
  work-HasFlight key r [] st h = h
  work-HasFlight key r (take_entry entry m ∷ events) st h =
      work-HasFlight key r events (process S W zip pass entry m st).0
        (process-HasFlight key r entry m st h)
  work-HasFlight key r (caller_cancels e ∷ events) st h =
      work-HasFlight key r events (cancel S W zip pass e st) h

-- What is asked of a further `uploadOnce` of a key, in the state `st`, with the first upload's
-- result `r`: it leaves the state alone, and gives `r`, unless the context has been cancelled with a
-- cause and the `select` notices that, when it gives the cause.
pub record IsRepeat (S : Storage) (W : Writers S) (zip : Zip) (pass : Pass) (r : Result FileRecord)
    (notices : Bool) (st : RunState S W zip pass) (t : RunState S W zip pass × Result FileRecord)
    : Type 0 where
  pub untouched : t.0 ≡ st
  pub same : (st.cause ≡ none) ⊎ (notices ≡ false) → t.1 ≡ r
  pub stopped : (c : GoError) → st.cause ≡ some c → notices ≡ true → t.1 ≡ err c

waited-IsRepeat :
    (S : Storage) (W : Writers S) (zip : Zip) (pass : Pass) (r : Result FileRecord) (notices : Bool)
    (st : RunState S W zip pass)
    → IsRepeat S W zip pass r notices st (st, waited notices st.cause r)
waited-IsRepeat S W zip pass r notices st = record {
  untouched = refl;
  same = λ quiet. elim quiet [
    | inl going ↦ rw going (still notices)
    | inr unnoticed ↦ rw unnoticed refl
  ];
  stopped = λ c ended noticed. rw (ended, noticed) refl;
}
  where
    still : (b : Bool) → waited b none r ≡ r
    still true = refl
    still false = refl

-- Once a key has been uploaded in a run, whether that succeeded or failed, and whatever the workers
-- have done since, a further `uploadOnce` of the key leaves the run's state, and so the store, as it
-- is, and gives the first upload's result; unless the run's context has been cancelled and the
-- `select` notices that, when it gives the cause of that.
pub upload_once-again :
    (S : Storage) (W : Writers S) (zip : Zip) (pass : Pass) (key : Bytes)
    (first second : SourceEntry) (notices_first notices : Bool) (events : List Event)
    (st : RunState S W zip pass)
    → Dict.lookup key st.flights ≡ none
    → IsRepeat S W zip pass
        (upload_part S W zip pass key first st.store).1
        notices
        (work S W zip pass events (upload_once S W zip pass key first notices_first st).0).0
        (upload_once S W zip pass key second notices
          (work S W zip pass events (upload_once S W zip pass key first notices_first st).0).0)
upload_once-again S W zip pass key first second notices_first notices events st fresh =
    let after = (upload_once S W zip pass key first notices_first st).0 in
    let later = (work S W zip pass events after).0 in
    let r = (upload_part S W zip pass key first st.store).1 in
    let hit = upload_once-hit S W zip pass key second notices later r (
      work-HasFlight S W zip pass key r events after
        (upload_once_recorded S W zip pass key first notices_first st fresh)) in
    subst (IsRepeat S W zip pass r notices later) (sym hit)
      (waited-IsRepeat S W zip pass r notices later)
