-- ===== src/Backup/Complete.antt =====
-- A run that returns its results has gathered every entry that its workers have taken.
use mathlib.Core.List.{Perm}
use mathlib.Core.List.Perm
use t_sync_sdk_go.Base.{
  zero, sym, ap, ℕ, suc, ◌+◌, ◌≡◌, refl, ◌↔◌, subst, inl, inr, Bool, true, false, Option, none,
  some, List, [], ◌∷◌, arith, Bool-cases, Option-cases, bytes_eq, All, length,
}
use t_sync_sdk_go.Base.Bytes.{Bytes}
use t_sync_sdk_go.Base.Dict
use t_sync_sdk_go.Base.Dict.{Dict, has-insert}
use t_sync_sdk_go.Errors.{GoError, ok, Result-cases}
use t_sync_sdk_go.Metadata.{Codec, Storage}
use t_sync_sdk_go.Backup.Part.{SourceEntry, Zip, Writers}
use t_sync_sdk_go.Backup.Upload.{
  Pass, is_dir_entry, Outcome, folder, stored, stopped, RunState, Meanwhile, cancel_with,
  process_file, process, cancel,
}
use t_sync_sdk_go.Backup.Gather.{
  Event, take_entry, caller_cancels, Turn, takes, cancels, pick, left_over, events_of, work,
  Gathered, nothing_gathered, gather_one, gather, run_error,
}
use t_sync_sdk_go.Backup.Run.{Plan, was_cancelled, run_workers}

-- The entries that the workers take.
unfoldable pub taken : List Event → List SourceEntry
taken [] = []
taken (take_entry entry m ∷ events) = entry ∷ taken events
taken (caller_cancels e ∷ events) = taken events

-- An error stays the first error.
gather-failed :
    (os : List Outcome) (g : Gathered) (x : GoError)
    → g.first_err ≡ some x
    → (gather os g).first_err ≡ some x
unfolding gather gather_one
gather-failed [] g x h = h
gather-failed (folder p ∷ os) g x h = rw (h, gather, gather_one) (gather-failed os g x h)
gather-failed (stored p k r ∷ os) g x h = rw (h, gather, gather_one) (gather-failed os g x h)
gather-failed (stopped p e ∷ os) g x h =
    gather-failed os (gather_one (stopped p e) g) x (rw (h, gather_one) refl)

-- The paths of a step stay.
gather_one-has :
    (o : Outcome) (g : Gathered) (p : Bytes)
    → Dict.has p g.path_to_file_key ≡ true
    → Dict.has p (gather_one o g).path_to_file_key ≡ true
unfolding gather_one
gather_one-has (folder q) g p h = elim (Option-cases g.first_err) [
  | inl e ↦ rw (e, gather_one) h
  | inr (x, e) ↦ rw (e, gather_one) h
]
gather_one-has (stopped q e) g p h = h
gather_one-has (stored q k r) g p h = elim (Option-cases g.first_err) [
  | inl e ↦ rw (e, gather_one) (ground (arith, has-insert p q k g.path_to_file_key))
  | inr (x, e) ↦ rw (e, gather_one) h
]

gather-has :
    (os : List Outcome) (g : Gathered) (p : Bytes)
    → Dict.has p g.path_to_file_key ≡ true
    → Dict.has p (gather os g).path_to_file_key ≡ true
unfolding gather
gather-has [] g p h = h
gather-has (o ∷ os) g p h = gather-has os (gather_one o g) p (gather_one-has o g p h)

-- What an outcome is for the entry that it is of.
abbrev IsOf : SourceEntry → Outcome → Type 0
IsOf entry (folder p) = is_dir_entry entry ≡ true
IsOf entry (stored p k r) = p ≡ entry.path
IsOf entry (stopped p e) = Unit

module _ (S : Storage) (W : Writers S) (zip : Zip) (pass : Pass) where
  process-IsOf :
      (entry : SourceEntry) (m : Meanwhile) (st : RunState S W zip pass)
      → IsOf entry (process S W zip pass entry m st).1
  unfolding process
  process-IsOf entry m st = elim (Option-cases st.cause) [
    | inr (c, e) ↦ rw (e, process) tt
    | inl e ↦ elim (Bool-cases (is_dir_entry entry)) [
      | inl d ↦ rw (e, d, process) d
      | inr d ↦
          elim (Result-cases
            (process_file S W zip pass entry m.notices (cancel_with S W zip pass m.cancels st)).1) [
              | inr (x, f) ↦ rw (e, d, f, process) tt
              | inl (pair, f) ↦ rw (e, d, f, process) refl
            ]
    ]
  ]

-- A round without an error counts, and has the path of its file.
gather_one-IsOf :
    (entry : SourceEntry) (o : Outcome) (os : List Outcome) (g : Gathered)
    → IsOf entry o
    → (gather os (gather_one o g)).first_err ≡ none
    → ((gather_one o g).done_count ≡ suc g.done_count)
      × (is_dir_entry entry ≡ false → Dict.has entry.path (gather_one o g).path_to_file_key ≡ true)
unfolding gather_one
gather_one-IsOf entry o os g of_entry fine = elim (Option-cases (gather_one o g).first_err) [
  | inr (x, e) ↦ absurd (ground (arith, gather-failed os (gather_one o g) x e))
  | inl e ↦ no_error o of_entry e
]
  where
    no_error :
        (o : Outcome)
        → IsOf entry o
        → (gather_one o g).first_err ≡ none
        → ((gather_one o g).done_count ≡ suc g.done_count)
          × (is_dir_entry entry ≡ false
              → Dict.has entry.path (gather_one o g).path_to_file_key ≡ true)
    no_error (folder p) of_entry e = elim (Option-cases g.first_err) [
      | inr (x, f) ↦ absurd (ground arith)
      | inl f ↦ rw (f, gather_one) (refl, λ no_dir. absurd (ground arith))
    ]
    no_error (stopped p x) of_entry e = elim (Option-cases g.first_err) [
      | inr (y, f) ↦ absurd (ground arith)
      | inl f ↦ absurd (ground arith)
    ]
    no_error (stored p k r) of_entry e = elim (Option-cases g.first_err) [
      | inr (x, f) ↦ absurd (ground arith)
      | inl f ↦
          rw (f, gather_one)
            (refl, λ no_dir. ground (arith, has-insert entry.path p k g.path_to_file_key, of_entry))
    ]

abbrev pub HasPath : Gathered → SourceEntry → Type 0
HasPath g entry = is_dir_entry entry ≡ false → Dict.has entry.path g.path_to_file_key ≡ true

work_complete :
    (S : Storage) (W : Writers S) (zip : Zip) (pass : Pass) (events : List Event)
    (st : RunState S W zip pass) (g : Gathered)
    → (gather (work S W zip pass events st).1 g).first_err ≡ none
    → ((gather (work S W zip pass events st).1 g).done_count ≡ g.done_count + length (taken events))
      × All (HasPath (gather (work S W zip pass events st).1 g)) (taken events)
unfolding work gather taken
work_complete S W zip pass [] st g fine = (ground arith, tt)
work_complete S W zip pass (caller_cancels e ∷ events) st g fine =
    work_complete S W zip pass events (cancel S W zip pass e st) g fine
work_complete S W zip pass (take_entry entry m ∷ events) st g fine =
    let (st', o) = process S W zip pass entry m st in
    let os = (work S W zip pass events st').1 in
    let (counted, here) =
      gather_one-IsOf entry o os g (process-IsOf S W zip pass entry m st) fine in
    let (count, rest) = work_complete S W zip pass events st' (gather_one o g) fine in
    (
      ground (arith, count, counted),
      (λ no_dir. gather-has os (gather_one o g) entry.path (here no_dir), rest),
    )

-- A run has no error exactly if nothing has cancelled it, no result was an error, and as many
-- results as entries have come in; whether the caller has cancelled makes no difference to that.
pub run_error-none :
    (parent_done : Bool) (cause first_err : Option GoError) (done total : ℕ)
    → (run_error parent_done cause first_err done total ≡ none)
      ↔ ((cause ≡ none) × (first_err ≡ none) × (done ≡ total))
unfolding run_error
run_error-none parent_done cause first_err done total = (
  λ h. elim (Option-cases cause) [
    | inr (c, e) ↦ absurd (ground arith)
    | inl e ↦ elim (Option-cases first_err) [
      | inr (x, f) ↦ absurd (ground arith)
      | inl f ↦ (e, f, ground arith)
    ]
  ],
  λ (e, f, same). ground arith,
)

pick-Perm {ℓ} :
    {A : Type ℓ} (n : ℕ) (e : A) (es : List A) → Perm ((pick n e es).0 ∷ (pick n e es).1) (e ∷ es)
unfolding pick
pick-Perm zero e es = Perm.refl (e ∷ es)
pick-Perm (suc n) e [] = Perm.refl (e ∷ [])
pick-Perm (suc n) e (f ∷ es) =
    Perm.trans (Perm.swap e (pick n f es).0 (pick n f es).1) (Perm.cons e (pick-Perm n f es))

taken-left_over : (es : List SourceEntry) → taken (left_over es) ≡ es
unfolding taken left_over
taken-left_over [] = refl
taken-left_over (e ∷ es) = ap (λ z. e ∷ z) (taken-left_over es)

-- Whatever the turns are, every entry is taken once.
taken-events_of : (turns : List Turn) (es : List SourceEntry) → Perm (taken (events_of turns es)) es
unfolding taken events_of
taken-events_of [] es = subst (λ z. Perm z es) (sym (taken-left_over es)) (Perm.refl es)
taken-events_of (cancels e ∷ turns) es = taken-events_of turns es
taken-events_of (takes n m ∷ turns) [] = taken-events_of turns []
taken-events_of (takes n m ∷ turns) (e ∷ es) =
    let (x, rest) = pick n e es in
    Perm.trans (Perm.cons x (taken-events_of turns rest)) (pick-Perm n e es)

All-pick {ℓ κ} :
    {A : Type ℓ} (P : A → Type κ) (n : ℕ) (e : A) (es : List A)
    → P (pick n e es).0
    → All P (pick n e es).1
    → All P (e ∷ es)
unfolding pick
All-pick P zero e es here rest = (here, rest)
All-pick P (suc n) e [] here rest = (here, rest)
All-pick P (suc n) e (f ∷ es) here (first, rest) = (first, All-pick P n f es here rest)

-- What holds of the entries taken holds of all entries.
All-events_of :
    (P : SourceEntry → Type 0) (turns : List Turn) (es : List SourceEntry)
    → All P (taken (events_of turns es))
    → All P es
unfolding taken events_of
All-events_of P [] es all = subst (All P) (taken-left_over es) all
All-events_of P (cancels e ∷ turns) es all = All-events_of P turns es all
All-events_of P (takes n m ∷ turns) [] all = tt
All-events_of P (takes n m ∷ turns) (e ∷ es) (here, rest) =
    All-pick P n e es here (All-events_of P turns (pick n e es).1 rest)

-- If the worker phase returns its results, then the workers have taken every entry once, and every
-- entry that is not a folder is among the gathered paths: no file is left out in silence, in
-- whatever order the entries are taken and whenever the caller cancels.
pub run_workers_complete :
    (codec : Codec) (S : Storage) (W : Writers S) (zip : Zip) (plan : Plan) (turns : List Turn)
    (s : S.State) (g : Gathered)
    → (run_workers codec S W zip plan turns s).1 ≡ ok g
    → Perm (taken (events_of turns plan.entries)) plan.entries × All (HasPath g) plan.entries
unfolding run_workers
run_workers_complete codec S W zip plan turns s g h =
    let events = events_of turns plan.entries in
    let start : RunState S W zip plan.pass = record { store = s; flights = []; cause = none } in
    let (st, os) = work S W zip plan.pass events start in
    let all = gather os nothing_gathered in
    let complete = work_complete S W zip plan.pass events start nothing_gathered in
    let each = taken-events_of turns plan.entries in
    elim (Option-cases (
      run_error (was_cancelled events) st.cause all.first_err all.done_count
        (length plan.entries))) [
          | inr (x, e) ↦ absurd (ground arith)
          | inl e ↦
              let same : all ≡ g = ground arith in
              let (_, no_error, full) =
                (run_error-none (was_cancelled events) st.cause all.first_err all.done_count
                    (length plan.entries)).0
                  e in
              let has_paths = (complete no_error).1 in
              (
                each,
                All-events_of (HasPath g) turns plan.entries
                    (subst (λ z. All (HasPath z) (taken events)) same has_paths),
              )
        ]
