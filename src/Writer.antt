-- ===== src/Writer.antt =====
-- The buffered object writer of tsync/storage.go (`objectStorageWriter`) over any object storage
-- client. The state keeps the calls that the client has seen, the latest first, and the client's
-- answers are a function of them.
pub mod Sizes
pub mod Content
pub mod Write
pub mod Close
pub mod Failure
mod Tests
use t_sync_sdk_go.Base.{
  ℕ, zero, suc, ◌+◌, ◌-◌, ◌*◌, ◌/◌, ◌^◌, min, Bool, true, false, Option, none, some, List, [], ◌∷◌,
  ◌++◌, if◌then◌else◌, eqb, ltb, length, take, drop, nat_eq,
}
use t_sync_sdk_go.Base.Bytes.{Bytes}
use t_sync_sdk_go.Base.Dict
use t_sync_sdk_go.Base.Dict.{Dict}
use t_sync_sdk_go.Errors.{
  GoError, sentinel, wrap, plain, both, is, upload_not_found, writer_closed, Result, ok, err,
}

abbrev pub initial_part_size : ℕ
initial_part_size = 8 * 2 ^ 20

abbrev pub max_part_size : ℕ
max_part_size = 5 * 2 ^ 30

abbrev pub part_size_step : ℕ
part_size_step = 1000

abbrev pub max_multipart_parts : ℕ
max_multipart_parts = 10000

-- The loop of `partSizeFor`.
unfoldable pub doubled : ℕ → ℕ → ℕ
doubled zero size = size
doubled (suc shift) size =
    let rest = doubled shift (size * 2) in if ltb size max_part_size then rest else size

-- `partSizeFor`
unfoldable pub part_size_for : ℕ → ℕ
part_size_for n = min (doubled ((n - 1) / part_size_step) initial_part_size) max_part_size

-- A call of the client, for one bucket and key.
pub data Call : Type 0 where
  initiate : Call
  upload_part : Bytes → ℕ → Bytes → Call
  complete : Bytes → Dict ℕ Bytes → Call
  abort : Bytes → Call
  put_object : Bytes → Call

-- What the client answers to the call at the head of the list.
pub record Client : Type 0 where
  pub on_initiate : List Call → Result Bytes
  pub on_upload : List Call → Result Bytes
  pub on_complete : List Call → Option GoError
  pub on_abort : List Call → Option GoError
  pub on_put : List Call → Option GoError

-- `objectStorageWriter`; an empty upload id means that no upload has been initiated.
pub record Writer : Type 0 where
  pub upload_id : Bytes
  pub part_number : ℕ
  pub buf : Bytes
  pub etags : Dict ℕ Bytes
  pub error : Option GoError
  pub closed : Bool
  pub calls : List Call

-- `newObjectStorageWriter`
abbrev pub new_writer : Writer
new_writer = record {
  upload_id = [];
  part_number = 1;
  buf = [];
  etags = [];
  error = none;
  closed = false;
  calls = [];
}

abbrev see : Call → Writer → Writer
see c w = record w { calls = c ∷ w.calls }

-- The upload of `buf` as one part, in a call of `uploadBufferedPart`.
unfoldable pub ship : Client → Writer → Writer × Option GoError
ship client w =
    let w' = see (upload_part w.upload_id w.part_number w.buf) w in
    elim (client.on_upload w'.calls) [
      | err e ↦ (w', some (wrap e))
      | ok tag ↦ (
        record w' {
          etags = Dict.insert w.part_number tag w.etags;
          part_number = w.part_number + 1;
          buf = [];
        },
        none,
      )
    ]

abbrev is_empty : Bytes → Bool
is_empty [] = true
is_empty (x ∷ s) = false

-- `uploadBufferedPart`
unfoldable pub upload_buffered_part : Client → Writer → Writer × Option GoError
upload_buffered_part client w =
    if ltb max_multipart_parts w.part_number
    then (w, some plain)
    else if is_empty w.upload_id
    then (let w' = see initiate w in
        elim (client.on_initiate w'.calls) [
          | err e ↦ (w', some (wrap e))
          | ok id ↦ ship client (record w' { upload_id = id; etags = [] })
        ])
    else ship client w

-- One round of the loop in `Write`, after the buffer has been shipped if it was full: takes as many
-- bytes as fit, and gives the rest of the input.
unfoldable pub fill : Writer → Bytes → Writer × Bytes
fill w p =
    let n = min (length p) (part_size_for w.part_number - length w.buf) in
    (record w { buf = w.buf ++ take n p }, drop n p)

unfoldable pub make_room : Client → Writer → Writer × Option GoError
make_room client w =
    if eqb (length w.buf) (part_size_for w.part_number)
    then upload_buffered_part client w
    else (w, none)

-- The loop of `Write`, for at most `fuel` rounds. The count is of the bytes left.
unfoldable pub write_loop : Client → ℕ → Bytes → Writer → Writer × ℕ × Option GoError
write_loop client fuel [] w = (w, 0, none)
write_loop client zero (x ∷ p) w = (w, length (x ∷ p), none)
write_loop client (suc fuel) (x ∷ p) w =
    let (w', e) = make_room client w in
    elim e [
      | some e' ↦ (record w' { error = some e' }, length (x ∷ p), some e')
      | none ↦ let (w'', rest) = fill w' (x ∷ p) in write_loop client fuel rest w''
    ]

-- `Write`: every round takes at least one byte, so the length of the input is enough fuel.
unfoldable pub write : Client → Bytes → Writer → Writer × ℕ × Option GoError
write client p w = if w.closed then (w, 0, some (sentinel writer_closed)) else elim w.error [
  | some e ↦ (w, 0, some e)
  | none ↦ let (w', left, e) = write_loop client (length p) p w in (w', length p - left, e)
]

-- `abortUpload`: an upload that the provider does not know counts as aborted.
unfoldable pub abort_upload : Client → Writer → Writer × Option GoError
abort_upload client w =
    if is_empty w.upload_id
    then (w, none)
    else let w' = see (abort w.upload_id) w in
      elim (client.on_abort w'.calls) [
        | none ↦ (w', none)
        | some e ↦ if is e upload_not_found then (w', none) else (w', some (wrap e))
      ]

abbrev released : Writer → Writer
released w = record w { buf = [] }

-- `Abort`
unfoldable pub abort_writer : Client → Writer → Writer × Option GoError
abort_writer client w =
    if w.closed then (w, none) else abort_upload client (released (record w { closed = true }))

-- `errors.Join(e, w.abortUpload())`
abbrev join_errors : GoError → Option GoError → GoError
join_errors e none = wrap e
join_errors e (some f) = both e f

unfoldable pub fail_close : Client → GoError → Writer → Writer × Option GoError
fail_close client e w = let (w', f) = abort_upload client w in (released w', some (join_errors e f))

-- The last step of `Close`.
unfoldable pub complete_upload : Client → Writer → Writer × Option GoError
complete_upload client w =
    let w' = see (complete w.upload_id w.etags) w in
    elim (client.on_complete w'.calls) [
      | none ↦ (released w', none)
      | some e ↦ fail_close client (wrap e) w'
    ]

-- The upload of what is left, in `Close`.
unfoldable pub last_part : Client → Writer → Writer × Option GoError
last_part client w = if is_empty w.buf then (w, none) else upload_buffered_part client w

unfoldable pub close_multipart : Client → Writer → Writer × Option GoError
close_multipart client w =
    let (w', e) = last_part client w in
    elim e [ some e' ↦ fail_close client (wrap e') w' | none ↦ complete_upload client w' ]

-- `Close`
unfoldable pub close : Client → Writer → Writer × Option GoError
close client w =
    if w.closed
    then (w, none)
    else let v = record w { closed = true } in
      elim w.error [
        | some e ↦ fail_close client e v
        | none ↦
            if is_empty w.upload_id
            then (let v' = see (put_object w.buf) v in (released v', client.on_put v'.calls))
            else close_multipart client v
      ]
