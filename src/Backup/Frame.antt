-- ===== src/Backup/Frame.antt =====
-- What a run of `RunBackup` leaves alone in the store.
use t_sync_sdk_go.Base.{
  Bool, ℕ, ◌≡◌, ◌≢◌, refl, ◌∙◌, inl, inr, Option, none, some, List, [], ◌∷◌, arith, Bool-cases,
  Option-cases, bytes_eq, ℤ,
}
use t_sync_sdk_go.Base.Bytes.{Bytes}
use t_sync_sdk_go.Base.Dict
use t_sync_sdk_go.Base.Dict.{Dict}
use t_sync_sdk_go.Errors.{GoError, Result, ok, err, Result-cases}
use t_sync_sdk_go.Metadata.{Storage, metadata_path}
use t_sync_sdk_go.Names.{part_key_for}
use t_sync_sdk_go.Streams.{Reader}
use t_sync_sdk_go.Backup.Part.{
  SourceEntry, Zip, Writers, copy_raw_part, write_zip, write_raw_compressed_part,
  write_compressed_part, abort_writer,
}
use t_sync_sdk_go.Backup.Upload.{
  Pass, compression_for, open_entry, is_dir_entry, fill_part, settle, write_part, upload_part,
  RunState, Meanwhile, cancel_with, upload_once, key_of, process_file, process, cancel,
}
use t_sync_sdk_go.Backup.Gather.{Event, take_entry, caller_cancels, work}

-- What the comments on `OpenWriter` and `AbortableWriter` promise: data becomes visible only by
-- `Close`, only at the writer's path.
pub record IsPrivate (S : Storage) (W : Writers S) : Type 0 where
  pub path_of : W.Handle → Bytes
  pub opened_at :
      (s : S.State) (p : Bytes) (w : W.Handle) → (W.open_writer s p).1 ≡ ok w → path_of w ≡ p
  pub read-open : (s : S.State) (p q : Bytes) → S.read (W.open_writer s p).0 q ≡ S.read s q
  pub read-write :
      (s : S.State) (w : W.Handle) (b q : Bytes) → S.read (W.write s w b).0 q ≡ S.read s q
  pub read-close :
      (s : S.State) (w : W.Handle) (q : Bytes)
      → q ≢ path_of w
      → S.read (W.close s w).0 q ≡ S.read s q
  pub read-abort :
      (f : S.State → W.Handle → S.State × Option GoError)
      → W.abort ≡ some f
      → (s : S.State) (w : W.Handle) (q : Bytes) → S.read (f s w).0 q ≡ S.read s q

-- The metadata's path is no part's path.
pub metadata_path-ne-part_key_for : (k : Bytes) → metadata_path ≢ part_key_for k
unfolding part_key_for
metadata_path-ne-part_key_for [] e = absurd (ground arith)
metadata_path-ne-part_key_for (a ∷ []) e = absurd (ground arith)
metadata_path-ne-part_key_for (a ∷ b ∷ k) e = absurd (ground arith)

pub part_key_for-injective : (j k : Bytes) → part_key_for j ≡ part_key_for k → j ≡ k
unfolding part_key_for
part_key_for-injective [] [] e = refl
part_key_for-injective [] (c ∷ []) e = absurd (ground arith)
part_key_for-injective [] (c ∷ d ∷ k) e = absurd (ground arith)
part_key_for-injective (a ∷ []) [] e = absurd (ground arith)
part_key_for-injective (a ∷ []) (c ∷ []) e = ground arith
part_key_for-injective (a ∷ []) (c ∷ d ∷ k) e = ground arith
part_key_for-injective (a ∷ b ∷ j) [] e = absurd (ground arith)
part_key_for-injective (a ∷ b ∷ j) (c ∷ []) e = ground arith
part_key_for-injective (a ∷ b ∷ j) (c ∷ d ∷ k) e = ground arith

module _ (S : Storage) (W : Writers S) (private : IsPrivate S W) (zip : Zip) (pass : Pass) where
  read-abort_writer :
      (w : W.Handle) (s : S.State) (q : Bytes)
      → q ≢ private.path_of w
      → S.read (abort_writer S W w s).0 q ≡ S.read s q
  unfolding abort_writer
  read-abort_writer w s q other = elim (Option-cases W.abort) [
    | inl e ↦ rw e (private.read-close s w q other)
    | inr (f, e) ↦ rw e (private.read-abort f e s w q)
  ]

  -- Filling a part is one write.
  read-fill_part :
      (comp : ℕ × ℤ) (w : W.Handle) (rc : Reader) (entry : SourceEntry) (s : S.State) (q : Bytes)
      → S.read (fill_part S W zip pass comp w rc entry s).0 q ≡ S.read s q
  unfolding fill_part copy_raw_part write_raw_compressed_part write_compressed_part write_zip
  read-fill_part (m, l) w rc entry s q = elim (Bool-cases entry.is_encrypted_raw) [
    | inl raw ↦ rw raw (private.read-write s w rc.content q)
    | inr cooked ↦ rw cooked (elim (Option-cases entry.open_raw_compressed) [
      | inl e ↦ rw e (private.read-write s w _ q)
      | inr (r, e) ↦ rw e (private.read-write s w _ q)
    ])
  ]

  read-settle :
      (w : W.Handle) (entry : SourceEntry) (r : Result (ℕ × ℤ × ℤ)) (s : S.State) (q : Bytes)
      → q ≢ private.path_of w
      → S.read (settle S W zip pass w entry r s).0 q ≡ S.read s q
  unfolding settle
  read-settle w entry (err e) s q other = read-abort_writer w s q other
  read-settle w entry (ok sizes) s q other = private.read-close s w q other

  read-write_part :
      (comp : ℕ × ℤ) (key : Bytes) (rc : Reader) (entry : SourceEntry) (s : S.State) (q : Bytes)
      → q ≢ part_key_for key
      → S.read (write_part S W zip pass comp key rc entry s).0 q ≡ S.read s q
  unfolding write_part
  read-write_part comp key rc entry s q other =
      elim (Result-cases (W.open_writer s (part_key_for key)).1) [
        | inr (x, w) ↦ rw (w, write_part) (private.read-open s (part_key_for key) q)
        | inl (w, opened) ↦
            rw (opened, write_part)
              (read-settle w entry _ _ q
                  (λ z. other (z ∙ private.opened_at s (part_key_for key) w opened))
                ∙ read-fill_part comp w rc entry _ q
                ∙ private.read-open s (part_key_for key) q)
      ]

  -- An upload touches no object but its own part, whether it succeeds or fails.
  pub read-upload_part :
      (key : Bytes) (entry : SourceEntry) (s : S.State) (q : Bytes)
      → q ≢ part_key_for key
      → S.read (upload_part S W zip pass key entry s).0 q ≡ S.read s q
  unfolding upload_part
  read-upload_part key entry s q other = elim (Result-cases (compression_for pass entry.path)) [
    | inr (x, e) ↦ rw (e, upload_part) refl
    | inl (comp, e) ↦ elim (Result-cases (open_entry entry)) [
      | inr (x, o) ↦ rw (e, o, upload_part) refl
      | inl (rc, o) ↦ rw (e, o, upload_part) (read-write_part comp key rc entry s q other)
    ]
  ]

  -- An object that is no part of a key without a record.
  abbrev pub IsSpared : Bytes → Type 0
  IsSpared q = (k : Bytes) → Dict.lookup k pass.existing ≡ none → q ≢ part_key_for k

  read-upload_once :
      (key : Bytes) (entry : SourceEntry) (notices : Bool) (st : RunState S W zip pass) (q : Bytes)
      → q ≢ part_key_for key
      → S.read (upload_once S W zip pass key entry notices st).0.store q ≡ S.read st.store q
  unfolding upload_once
  read-upload_once key entry notices st q other = elim (Option-cases (Dict.lookup key st.flights)) [
    | inl e ↦ rw (e, upload_once) (read-upload_part key entry st.store q other)
    | inr (r, e) ↦ rw (e, upload_once) refl
  ]

  read-process_file :
      (entry : SourceEntry) (notices : Bool) (st : RunState S W zip pass) (q : Bytes)
      → IsSpared q
      → S.read (process_file S W zip pass entry notices st).0.store q ≡ S.read st.store q
  unfolding process_file
  read-process_file entry notices st q spared = elim (Result-cases (key_of S W zip pass entry)) [
    | inr (x, e) ↦ rw (e, process_file) refl
    | inl (key, e) ↦ elim (Option-cases (Dict.lookup key pass.existing)) [
      | inr (rec, f) ↦ rw (e, f, process_file) refl
      | inl f ↦ rw (e, f, process_file) (read-upload_once key entry notices st q (spared key f))
    ]
  ]

  read-process :
      (entry : SourceEntry) (m : Meanwhile) (st : RunState S W zip pass) (q : Bytes)
      → IsSpared q
      → S.read (process S W zip pass entry m st).0.store q ≡ S.read st.store q
  unfolding process
  read-process entry m st q spared = elim (Option-cases st.cause) [
    | inr (c, e) ↦ rw (e, process) refl
    | inl e ↦ elim (Bool-cases (is_dir_entry entry)) [
      | inl d ↦ rw (e, d, process) refl
      | inr d ↦
          let st1 = cancel_with S W zip pass m.cancels st in
          let same = read-process_file entry m.notices st1 q spared in
          elim (Result-cases (process_file S W zip pass entry m.notices st1).1) [
            | inr (x, f) ↦ rw (e, d, f, process) same
            | inl (pair, f) ↦ rw (e, d, f, process) same
          ]
    ]
  ]

  -- In whatever order the workers take the entries, and however they end, they leave every object
  -- alone that is no part of a key without a record in the metadata that the run has loaded.
  pub read-work :
      (events : List Event) (st : RunState S W zip pass) (q : Bytes)
      → IsSpared q
      → S.read (work S W zip pass events st).0.store q ≡ S.read st.store q
  unfolding work
  read-work [] st q spared = refl
  read-work (take_entry entry m ∷ events) st q spared =
      read-work events (process S W zip pass entry m st).0 q spared
      ∙ read-process entry m st q spared
  read-work (caller_cancels e ∷ events) st q spared =
      read-work events (cancel S W zip pass e st) q spared
