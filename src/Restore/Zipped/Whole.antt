-- ===== src/Restore/Zipped/Whole.antt =====
-- A restore to a zip file is whole, or its output has no central directory.
use mathlib.Core.List.{append-nil, append_assoc}
use t_sync_sdk_go.Base.{
  ◌≡◌, ◌≢◌, refl, sym, ap, ◌∙◌, subst, ◌⊎◌, inl, inr, false, Option, none, some, List, [], ◌∷◌,
  ◌++◌, arith, All, Option-cases, map,
}
use t_sync_sdk_go.Base.Bytes.{Bytes}
use t_sync_sdk_go.Errors.{GoError, ok, Result-cases}
use t_sync_sdk_go.Metadata.{FileRecord, BackupMetadata, Storage}
use t_sync_sdk_go.Files.{and_also}
use t_sync_sdk_go.Crypto.{Box}
use t_sync_sdk_go.Restore.Zipped.{
  ZipCall, copied, folder, finished, ZipOutput, ZipOptions, Checked, folder_name, after_copy, Copy,
  ZipTask, open_checked, copy_checked, copy_one, settle_copy, copy_all, add_folders, stopped,
  close_output, restore_to_zip,
}

abbrev folder_call : Bytes → ZipCall
folder_call d = folder (folder_name d)

module _ (S : Storage) (box : Box) (out : ZipOutput) (opts : ZipOptions) (md : BackupMetadata) where
  -- A call that copies the file of a task: the part under the file's key, which has passed the
  -- checks, to the file's path, after the calls `calls`; and the sizes were right.
  pub record IsCopyOf (t : ZipTask S) (calls : List ZipCall) (c : ZipCall) : Type 0 where
    pub rec : FileRecord
    pub src : Checked
    pub opened : open_checked S box out opts md t.store t.key ≡ ok (rec, src)
    pub call_eq : c ≡ copied t.path src.password opts.new_password src.part
    pub right : after_copy rec src (out.copy calls c) ≡ none

  -- One call for each task, in order, after the calls `calls`.
  abbrev pub AreCopies : List (ZipTask S) → List ZipCall → List ZipCall → Type 0
  AreCopies [] calls [] = Unit
  AreCopies [] calls (c ∷ cs) = ⊥
  AreCopies (t ∷ ts) calls [] = ⊥
  AreCopies (t ∷ ts) calls (c ∷ cs) = IsCopyOf t calls c × AreCopies ts (calls ++ c ∷ []) cs

  abbrev IsOpen : List ZipCall → Type 0
  IsOpen = All (λ c. c ≢ finished)

  IsOpen-append : (xs ys : List ZipCall) → IsOpen xs → IsOpen ys → IsOpen (xs ++ ys)
  IsOpen-append [] ys h k = k
  IsOpen-append (x ∷ xs) ys (h, hs) k = (h, IsOpen-append xs ys hs k)

  copied-ok :
      (t : ZipTask S) (calls : List ZipCall)
      → (copy_one S box out opts md t calls).failure ≡ none
      → (c : ZipCall) × ((copy_one S box out opts md t calls).calls ≡ calls ++ c ∷ [])
        × IsCopyOf t calls c
  unfolding copy_one
  copied-ok t calls h = elim (Result-cases (open_checked S box out opts md t.store t.key)) [
    | inr (e, failed) ↦ absurd (ground (arith, failed))
    | inl ((rec, src), fine) ↦
        let c = copied t.path src.password opts.new_password src.part in
        (
          c,
          ap (λ z. (copy_checked S box out opts md t.path calls z).calls) fine,
          record {
            rec = rec;
            src = src;
            opened = fine;
            call_eq = refl;
            right =
                sym (ap (λ z. (copy_checked S box out opts md t.path calls z).failure) fine) ∙ h;
          },
        )
  ]

  copy_one-IsOpen :
      (t : ZipTask S) (calls : List ZipCall)
      → IsOpen calls
      → IsOpen (copy_one S box out opts md t calls).calls
  unfolding copy_one
  copy_one-IsOpen t calls h = elim (Result-cases (open_checked S box out opts md t.store t.key)) [
    | inr (e, failed) ↦ rw (failed, copy_one) h
    | inl ((rec, src), fine) ↦
        rw (fine, copy_one) (IsOpen-append calls _ h ((λ same. ground (arith, same)), tt))
  ]

  settled-none :
      (t : ZipTask S) (c : Copy) (rest : List ZipCall × Option GoError)
      → opts.skip_decryption_errors ≡ false
      → (settle_copy S box out opts md t c rest).1 ≡ none
      → (c.failure ≡ none) × (settle_copy S box out opts md t c rest ≡ rest)
  settled-none t c rest strict h = elim (Option-cases c.failure) [
    | inl fine ↦ (fine, rw fine refl)
    | inr (e, failed) ↦ absurd (ground (arith, failed, strict))
  ]

  copy_all-AreCopies :
      (ts : List (ZipTask S)) (calls : List ZipCall)
      → opts.skip_decryption_errors ≡ false
      → (copy_all S box out opts md ts calls).1 ≡ none
      → (cs : List ZipCall) × ((copy_all S box out opts md ts calls).0 ≡ calls ++ cs)
        × AreCopies ts calls cs
  unfolding copy_all
  copy_all-AreCopies [] calls strict h = ([], sym (append-nil calls), tt)
  copy_all-AreCopies (t ∷ ts) calls strict h = elim (Option-cases t.before) [
    | inr (e, ended) ↦ absurd (ground (arith, ended))
    | inl going ↦
        let one = copy_one S box out opts md t calls in
        let rest = copy_all S box out opts md ts one.calls in
        let step : copy_all S box out opts md (t ∷ ts) calls
            ≡ settle_copy S box out opts md t one rest =
          rw (going, copy_all) refl in
        let (fine, same) = settled-none t one rest strict (sym (ap (λ z. z.1) step) ∙ h) in
        let (c, grown, good) = copied-ok t calls fine in
        let (cs, all, goods) =
          copy_all-AreCopies ts one.calls strict (sym (ap (λ z. z.1) (step ∙ same)) ∙ h) in
        (
          c ∷ cs,
          ap (λ z. z.0) (step ∙ same)
              ∙ all
              ∙ ap (λ z. z ++ cs) grown
              ∙ append_assoc calls (c ∷ []) cs,
          (good, subst (λ z. AreCopies ts z cs) grown goods),
        )
  ]

  copy_all-IsOpen :
      (ts : List (ZipTask S)) (calls : List ZipCall)
      → IsOpen calls
      → IsOpen (copy_all S box out opts md ts calls).0
  unfolding copy_all
  copy_all-IsOpen [] calls h = h
  copy_all-IsOpen (t ∷ ts) calls h =
      let one = copy_one S box out opts md t calls in
      let here = copy_one-IsOpen t calls h in
      let rest = copy_all-IsOpen ts one.calls here in
      elim (Option-cases t.before) [
        | inr (e, ended) ↦ rw (ended, copy_all) h
        | inl going ↦
            rw (going, copy_all)
              (settled-IsOpen t one (copy_all S box out opts md ts one.calls) here rest)
      ]
    where
      settled-IsOpen :
          (t : ZipTask S) (c : Copy) (rest : List ZipCall × Option GoError)
          → IsOpen c.calls
          → IsOpen rest.0
          → IsOpen (settle_copy S box out opts md t c rest).0
      settled-IsOpen t c rest h k = ground arith

  add_folders-all :
      (ds : List Bytes) (calls : List ZipCall)
      → (add_folders S box out opts md ds calls).1 ≡ none
      → (add_folders S box out opts md ds calls).0 ≡ calls ++ map folder_call ds
  unfolding add_folders
  add_folders-all [] calls h = sym (append-nil calls)
  add_folders-all (d ∷ ds) calls h = elim (Option-cases (out.create calls (folder_call d))) [
    | inr (e, failed) ↦ absurd (ground (arith, failed))
    | inl fine ↦
        rw (fine, add_folders)
          (add_folders-all ds (calls ++ folder_call d ∷ []) (ground (arith, fine))
            ∙ append_assoc calls (folder_call d ∷ []) (map folder_call ds))
  ]

  add_folders-IsOpen :
      (ds : List Bytes) (calls : List ZipCall)
      → IsOpen calls
      → IsOpen (add_folders S box out opts md ds calls).0
  unfolding add_folders
  add_folders-IsOpen [] calls h = h
  add_folders-IsOpen (d ∷ ds) calls h =
      let here : IsOpen (calls ++ folder_call d ∷ []) =
        IsOpen-append calls _ h ((λ same. ground (arith, same)), tt) in
      elim (Option-cases (out.create calls (folder_call d))) [
        | inr (e, failed) ↦ rw (failed, add_folders) here
        | inl fine ↦
            rw (fine, add_folders) (add_folders-IsOpen ds (calls ++ folder_call d ∷ []) here)
      ]

  -- What is asked of a restore of tasks and empty folders to a zip file, which has made the calls
  -- `r.0` of the output's writer and returned `r.1`.
  pub record IsZipped (ts : List (ZipTask S)) (ds : List Bytes) (r : List ZipCall × Option GoError)
      : Type 0 where
    pub whole :
        r.1 ≡ none
        → (cs : List ZipCall) × AreCopies ts [] cs
          × (r.0 ≡ (cs ++ map folder_call ds) ++ finished ∷ [])
    pub unfinished :
        (e : GoError)
        → r.1 ≡ some e
        → IsOpen r.0
          ⊎ ((calls : List ZipCall) × (x : GoError) × (r.0 ≡ calls ++ finished ∷ [])
              × (out.finish calls ≡ some x))

  left_open :
      (ts : List (ZipTask S)) (ds : List Bytes) (calls : List ZipCall) (e : GoError)
      → IsOpen calls
      → IsZipped ts ds (calls, some e)
  left_open ts ds calls e h = record {
    whole = λ fine. absurd (ground arith);
    unfinished = λ x failed. inl h;
  }

  finished-IsZipped :
      (ts : List (ZipTask S)) (ds : List Bytes) (cs calls : List ZipCall)
      → AreCopies ts [] cs
      → calls ≡ cs ++ map folder_call ds
      → IsZipped ts ds (close_output S box out opts md calls)
  finished-IsZipped ts ds cs calls good all = elim (Option-cases (out.finish calls)) [
    | inl fine ↦ record {
      whole = λ h. (cs, good, ap (λ z. z ++ finished ∷ []) all);
      unfinished = λ e failed. absurd (ground (arith, fine));
    }
    | inr (x, broken) ↦ record {
      whole = λ h. absurd (ground (arith, broken));
      unfinished = λ e failed. inr (calls, x, refl, broken);
    }
  ]

  closed_up :
      (ts : List (ZipTask S)) (ds : List Bytes) (cs : List ZipCall)
      (t : List ZipCall × Option GoError)
      → AreCopies ts [] cs
      → (t.1 ≡ none → t.0 ≡ cs ++ map folder_call ds)
      → IsOpen t.0
      → IsZipped ts ds (and_also t (close_output S box out opts md))
  closed_up ts ds cs (calls, none) good all still_open =
      finished-IsZipped ts ds cs calls good (all refl)
  closed_up ts ds cs (calls, some e) good all still_open = left_open ts ds calls e still_open

  files_done :
      (ts : List (ZipTask S)) (ds : List Bytes) (t : List ZipCall × Option GoError)
      (caller : Option GoError)
      → (t.1 ≡ none → (cs : List ZipCall) × (t.0 ≡ cs) × AreCopies ts [] cs)
      → IsOpen t.0
      → IsZipped ts ds (
          and_also t (λ calls.
            and_also
              (calls, stopped S box out opts md caller)
              (λ calls1.
                and_also
                  (add_folders S box out opts md ds calls1)
                  (close_output S box out opts md))))
  files_done ts ds (calls, some e) caller good still_open = left_open ts ds calls e still_open
  files_done ts ds (calls, none) (some e) good still_open = left_open ts ds calls _ still_open
  files_done ts ds (calls, none) none good still_open =
      let (cs, all, copies) = good refl in
      closed_up ts ds cs (add_folders S box out opts md ds calls) copies
        (λ done. add_folders-all ds calls done ∙ ap (λ z. z ++ map folder_call ds) all)
        (add_folders-IsOpen ds calls still_open)

  -- If failed parts are not to be skipped, then a `restoreToZip` that returns no error has copied,
  -- for each file in turn, the part under the file's key, which has passed the checks of its
  -- headers, to an entry with the file's path; then has made an entry for each empty folder; and
  -- then, last and once, has closed the archive. One that returns an error has not called `Close`
  -- of the archive, unless the error is that of `Close`: so the output has no central directory and
  -- is not taken for a whole archive.
  pub restore_to_zip-IsZipped :
      (ts : List (ZipTask S)) (ds : List Bytes) (caller : Option GoError)
      → opts.skip_decryption_errors ≡ false
      → IsZipped ts ds (restore_to_zip S box out opts md ts ds caller)
  unfolding restore_to_zip
  restore_to_zip-IsZipped ts ds caller strict =
      files_done ts ds (copy_all S box out opts md ts []) caller (copy_all-AreCopies ts [] strict)
        (copy_all-IsOpen ts [] tt)
