-- ===== src/Writer/Failure.antt =====
-- The error paths of the writer of tsync/storage.go.
use t_sync_sdk_go.Base.{
  ◌≡◌, inl, inr, true, false, none, some, List, [], ◌∷◌, arith, Option-cases, subst,
}
use t_sync_sdk_go.Base.Bytes.{Bytes}
use t_sync_sdk_go.Errors.{GoError, sentinel, wrap, writer_closed}
use t_sync_sdk_go.Writer.{
  Call, abort, complete, Client, Writer, ship, upload_buffered_part, write, abort_upload,
  abort_writer, fail_close, complete_upload, last_part, close_multipart, close,
}
use t_sync_sdk_go.Writer.Content.{is_empty-eq}
use t_sync_sdk_go.Writer.Write.{outcomes}

-- The client has been told last to abort the upload of the writer, if there is one.
pub data Aborted (w : Writer) : Type 0 where
  no_upload : w.upload_id ≡ [] → Aborted w
  told : (before : List Call) → w.calls ≡ abort w.upload_id ∷ before → Aborted w

fail_close-Aborted :
    (client : Client) (e : GoError) (w : Writer) → Aborted (fail_close client e w).0
unfolding fail_close abort_upload
fail_close-Aborted client e w = elim (is_empty-eq w.upload_id) [
  | inl (first, no_id) ↦ no_upload (ground arith)
  | inr (more, some_id) ↦ told w.calls (ground arith)
]

ship-closed : (client : Client) (w : Writer) → (ship client w).0.closed ≡ w.closed
unfolding ship
ship-closed client w = ground arith

upload_buffered_part-closed :
    (client : Client) (w : Writer) → (upload_buffered_part client w).0.closed ≡ w.closed
unfolding upload_buffered_part ship
upload_buffered_part-closed client w = ground arith

abort_upload-closed : (client : Client) (w : Writer) → (abort_upload client w).0.closed ≡ w.closed
unfolding abort_upload
abort_upload-closed client w = ground arith

complete_upload-closed :
    (client : Client) (w : Writer) → (complete_upload client w).0.closed ≡ w.closed
unfolding complete_upload fail_close abort_upload
complete_upload-closed client w = ground arith

close_multipart-closed :
    (client : Client) (w : Writer) → (close_multipart client w).0.closed ≡ w.closed
unfolding close_multipart last_part fail_close
close_multipart-closed client w = elim (outcomes (last_part client w)) [
  | inl (u, l) ↦
      ground (arith, complete_upload-closed client u, upload_buffered_part-closed client w)
  | inr (u, e, l) ↦
      ground (arith, abort_upload-closed client u, upload_buffered_part-closed client w)
]

close-closed : (client : Client) (w : Writer) → (close client w).0.closed ≡ true
unfolding close fail_close
close-closed client w =
    let v = record w { closed = true } in
    ground (arith, close_multipart-closed client v, abort_upload-closed client v)

abort_writer-closed : (client : Client) (w : Writer) → (abort_writer client w).0.closed ≡ true
unfolding abort_writer abort_upload
abort_writer-closed client w = ground arith

-- `Close`, `Abort` and `Write` change nothing and send nothing; `Write` returns ErrWriterClosed.
abbrev pub IsInert : Client → Bytes → Writer → Type 0
IsInert client p w =
    (close client w ≡ (w, none))
    × (abort_writer client w ≡ (w, none))
    × (write client p w ≡ (w, 0, some (sentinel writer_closed)))

closed-IsInert : (client : Client) (w : Writer) (p : Bytes) → w.closed ≡ true → IsInert client p w
unfolding close abort_writer write
closed-IsInert client w p h = (rw (h, close), rw (h, abort_writer), rw (h, write))

-- Once `Close` or `Abort` has been called, whatever it returned, further calls of `Close`, `Abort`
-- and `Write` change nothing and send nothing; `Write` then returns ErrWriterClosed.
pub closed_for_good :
    (client : Client) (w : Writer) (p : Bytes)
    → IsInert client p (close client w).0 × IsInert client p (abort_writer client w).0
closed_for_good client w p = (
  closed-IsInert client (close client w).0 p (close-closed client w),
  closed-IsInert client (abort_writer client w).0 p (abort_writer-closed client w),
)

complete_upload-Aborted :
    (client : Client) (w w' : Writer) (e : GoError)
    → complete_upload client w ≡ (w', some e)
    → Aborted w'
unfolding complete_upload
complete_upload-Aborted client w w' e h =
    let seen = complete w.upload_id w.etags ∷ w.calls in
    elim (Option-cases (client.on_complete seen)) [
      | inl fine ↦ absurd (ground arith)
      | inr (x, failed) ↦
          let after : Writer = (fail_close client (wrap x) (record w { calls = seen })).0 in
          let same : after ≡ w' = ground arith in
          subst Aborted same (fail_close-Aborted client (wrap x) (record w { calls = seen }))
    ]

close_multipart-Aborted :
    (client : Client) (w w' : Writer) (e : GoError)
    → close_multipart client w ≡ (w', some e)
    → Aborted w'
unfolding close_multipart
close_multipart-Aborted client w w' e h = elim (outcomes (last_part client w)) [
  | inl (u, l) ↦ complete_upload-Aborted client u w' e (ground arith)
  | inr (u, x, l) ↦
      let same : (fail_close client (wrap x) u).0 ≡ w' = ground arith in
      subst Aborted same (fail_close-Aborted client (wrap x) u)
]

-- A `Close` of an open writer that fails has sent, as its last call, the abort of the writer's
-- upload, unless no upload was initiated: no upload is left behind.
pub close-Aborted :
    (client : Client) (w w' : Writer) (e : GoError)
    → w.closed ≡ false
    → close client w ≡ (w', some e)
    → Aborted w'
unfolding close
close-Aborted client w w' e open_still h =
    let v : Writer = record w { closed = true } in
    elim (Option-cases w.error) [
      | inr (x, failed) ↦
          let same : (fail_close client x v).0 ≡ w' = ground arith in
          subst Aborted same (fail_close-Aborted client x v)
      | inl fine ↦ elim (is_empty-eq w.upload_id) [
        | inl (first, no_id) ↦ no_upload (ground arith)
        | inr (more, some_id) ↦ close_multipart-Aborted client v w' e (ground arith)
      ]
    ]
