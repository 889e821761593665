-- ===== src/Writer/Close.antt =====
-- `Close` of tsync/storage.go commits exactly what the writer holds.
use t_sync_sdk_go.Base.{
  ℕ, zero, suc, ◌+◌, ◌*◌, ◌^◌, ◌-◌, ◌≤◌, ◌≡◌, refl, ◌≢◌, ◌∙◌, ap, sym, subst, true, ◌&&◌, none,
  List, [], ◌∷◌, ◌++◌, arith, ltb, leb, length, nat_eq, length-append, Option-cases, inl, inr,
}
use mathlib.Core.List.{append-nil}
use t_sync_sdk_go.Base.Bytes.{Bytes}
use t_sync_sdk_go.Base.Dict
use t_sync_sdk_go.Writer.{
  part_size_for, max_multipart_parts, Call, initiate, upload_part, complete, abort, put_object,
  Client, Writer, fail_close, complete_upload, last_part, close_multipart, close,
}
use t_sync_sdk_go.Writer.Sizes.{capacity, capacity_over}
use Prim.Native.Nat.add
use native.Mathlib.Decide.{dec_lt}
use t_sync_sdk_go.Writer.Content.{
  Uploaded, sent, Shipped, Holds, tagged_next, Shipped-pos, in_progress, initiated, is_empty-eq,
  upload_buffered_part-ok,
}
use t_sync_sdk_go.Writer.Write.{outcomes}

-- The parts of a completed upload: full parts, and perhaps a shorter last one.
pub data Parts (n : ℕ) (calls : List Call) : Type 0 where
  all_full : Shipped n calls → Parts n calls
  last_short :
      (id : Bytes) (k : ℕ) (d : Bytes) (before : List Call)
      → calls ≡ upload_part id k d ∷ before
      → n ≡ k + 1
      → length d ≤ part_size_for k
      → Shipped k before
      → Parts n calls

-- How an object is committed: in one piece, or by completing an upload whose parts are numbered
-- from 1 without a gap and each have a tag.
pub data Committed (content : Bytes) : List Call → Type 0 where
  in_one : Committed content (put_object content ∷ [])
  in_parts :
      (id : Bytes) (n : ℕ) (tags : Dict.Dict ℕ Bytes) (calls : List Call)
      → sent calls ≡ content
      → Parts n calls
      → ((k : ℕ) → Dict.has k tags ≡ (leb 1 k && ltb k n))
      → Committed content (complete id tags ∷ calls)

-- All of the content has been sent.
record Flushed (content : Bytes) (w : Writer) : Type 0 where
  content_eq : sent w.calls ≡ content
  parts : Parts w.part_number w.calls
  tagged : (k : ℕ) → Dict.has k w.etags ≡ (leb 1 k && ltb k w.part_number)

-- A writer whose `closed` flag `Close` has set.
abbrev shut : Writer → Writer
shut w = record w { closed = true }

last_part-Flushed :
    (client : Client) (content : Bytes) (w u : Writer)
    → Holds content w
    → w.upload_id ≢ []
    → last_part client (shut w) ≡ (u, none)
    → Flushed content u
unfolding last_part sent
last_part-Flushed client content w u h some_id e = elim (is_empty-eq w.buf) [
  | inl (b, nothing) ↦
      let same : shut w ≡ u = ground arith in
      subst (Flushed content) same (record {
        content_eq =
            sym (append-nil (sent w.calls))
            ∙ ap (λ b. sent w.calls ++ b) (sym nothing)
            ∙ h.content_eq;
        parts = all_full h.shipped;
        tagged = h.tagged;
      })
  | inr (b, more) ↦ go (upload_buffered_part-ok client (shut w) u (ground arith)).1
]
  where
    go : Uploaded client (shut w) u → Flushed content u
    go (initiated id tag no_id i same) = absurd (some_id no_id)
    go (in_progress tag _ same) = subst (Flushed content) (sym same) (record {
      content_eq = h.content_eq;
      parts = last_short w.upload_id w.part_number w.buf w.calls refl refl h.buffered h.shipped;
      tagged = λ k.
          rw (Dict.has-insert, h.tagged)
            (tagged_next w.part_number k (Shipped-pos w.part_number w.calls h.shipped));
    })

complete_upload-calls :
    (client : Client) (u w' : Writer)
    → complete_upload client u ≡ (w', none)
    → w'.calls ≡ complete u.upload_id u.etags ∷ u.calls
unfolding complete_upload fail_close
complete_upload-calls client u w' e =
    elim (Option-cases (client.on_complete (complete u.upload_id u.etags ∷ u.calls))) [
      | inl fine ↦ ground arith
      | inr (x, failed) ↦ absurd (ground arith)
    ]

close_multipart-Committed :
    (client : Client) (content : Bytes) (w w' : Writer)
    → Holds content w
    → w.upload_id ≢ []
    → close_multipart client (shut w) ≡ (w', none)
    → Committed content w'.calls
unfolding close_multipart fail_close
close_multipart-Committed client content w w' h some_id e =
    elim (outcomes (last_part client (shut w))) [
      | inr (u, x, l) ↦ absurd (ground arith)
      | inl (u, l) ↦
          let f = last_part-Flushed client content w u h some_id l in
          subst (Committed content) (sym (complete_upload-calls client u w' (ground arith)))
            (in_parts u.upload_id u.part_number u.etags u.calls f.content_eq f.parts f.tagged)
    ]

-- A `Close` that returns no error has committed exactly the bytes that were written: by one
-- PutObject, or by completing an upload whose parts, in number order, make up the content.
pub close-Committed :
    (client : Client) (content : Bytes) (w w' : Writer)
    → Holds content w
    → close client w ≡ (w', none)
    → Committed content w'.calls
unfolding close sent
close-Committed client content w w' h e = elim (is_empty-eq w.upload_id) [
  | inl (first, no_id) ↦
      let (no_calls, _) = h.fresh no_id in
      let content' : w.buf ≡ content = ap (λ c. sent c ++ w.buf) (sym no_calls) ∙ h.content_eq in
      let calls' : w'.calls ≡ put_object w.buf ∷ w.calls = ground (arith, h.is_open, h.no_error) in
      subst (Committed content)
        (ap (λ d. put_object d ∷ []) (sym content')
          ∙ ap (λ c. put_object w.buf ∷ c) (sym no_calls)
          ∙ sym calls')
        in_one
  | inr (more, some_id) ↦
      close_multipart-Committed client content w w' h some_id
        (ground (arith, h.is_open, h.no_error))
]

capacity_mono : (k n : ℕ) → capacity n ≤ capacity (k + n)
unfolding capacity
capacity_mono zero n = rw (add.zero n) (omega arith)
capacity_mono (suc k) n = rw (add.suc k n) (omega (arith, capacity_mono k n))

length-sent : (n : ℕ) (calls : List Call) → Shipped (suc n) calls → length (sent calls) ≡ capacity n
unfolding sent Shipped capacity
length-sent n [] h = let e : n ≡ 0 = omega arith in rw e
length-sent n (initiate ∷ calls) h = length-sent n calls h
length-sent zero (upload_part id k d ∷ calls) h = absurd (omega (arith, Shipped-pos k calls h.2))
length-sent (suc n) (upload_part id k d ∷ calls) h =
    let e : k ≡ suc n = omega arith in
    let full : length d ≡ part_size_for (suc n) = h.1 ∙ ap part_size_for e in
    omega (
      arith,
      length-append (sent calls) d,
      length-sent n calls (subst (λ j. Shipped j calls) e h.2),
    )
length-sent n (complete id tags ∷ calls) h = absurd h
length-sent n (abort id ∷ calls) h = absurd h
length-sent n (put_object d ∷ calls) h = absurd h

too_much :
    (all sent_bytes buffered n : ℕ)
    → sent_bytes ≡ capacity n
    → all ≡ sent_bytes + buffered
    → capacity max_multipart_parts ≤ capacity n
    → all ≤ 5 * 2 ^ 40
    → ⊥
too_much all sent_bytes buffered n s a m small = omega (arith, capacity_over)

-- While a writer holds at most 5 TiB, the largest object of the providers, it is at a part number
-- that they take, so no write or close fails for want of part numbers.
pub part_number-le-max :
    (content : Bytes) (w : Writer)
    → Holds content w
    → length content ≤ 5 * 2 ^ 40
    → w.part_number ≤ max_multipart_parts
part_number-le-max content w h small = elim (dec_lt max_multipart_parts w.part_number) [
  | no fits ↦ omega arith
  | yes over ↦
      let n = w.part_number - 1 in
      let e : w.part_number ≡ suc n = omega arith in
      let s = length-sent n w.calls (subst (λ k. Shipped k w.calls) e h.shipped) in
      let total = length-append (sent w.calls) w.buf in
      let parts = ap length h.content_eq in
      let m = capacity_mono (n - max_multipart_parts) max_multipart_parts in
      let same : n - max_multipart_parts + max_multipart_parts ≡ n = omega arith in
      absurd (
        too_much (length content) (length (sent w.calls)) (length w.buf) n s (sym parts ∙ total)
          (subst (λ k. capacity max_multipart_parts ≤ capacity k) same m) small)
]
