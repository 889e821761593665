-- ===== src/Writer/Content.antt =====
-- What the writer of tsync/storage.go sends: nothing is lost, nothing is sent twice, and the parts
-- are numbered 1, 2, … and full but for the last.
use t_sync_sdk_go.Base.{
  ℕ, ◌+◌, ◌≤◌, ◌≡◌, refl, ◌≢◌, ◌∙◌, ap, sym, subst, true, false, ◌&&◌, none, List, [], ◌∷◌, ◌++◌,
  arith, if◌then◌else◌, ltb, leb, ◌==◌, length, nat_eq, Bool-cases, inl, inr, ◌⊎◌,
}
use mathlib.Core.List.{append-nil}
use t_sync_sdk_go.Base.Bytes.{Bytes}
use t_sync_sdk_go.Base.Dict
use t_sync_sdk_go.Errors.{ok, Result-cases}
use t_sync_sdk_go.Writer.{
  part_size_for, max_multipart_parts, Call, initiate, upload_part, complete, abort, put_object,
  Client, Writer, new_writer, ship, is_empty, upload_buffered_part,
}

-- The bytes of the parts that the client has been sent.
unfoldable pub sent : List Call → Bytes
sent [] = []
sent (upload_part id n d ∷ calls) = sent calls ++ d
sent (_ ∷ calls) = sent calls

-- The calls of an upload in progress, with `n` the next part number: parts 1 to n - 1 in order,
-- each of the size for its number.
unfoldable pub Shipped : ℕ → List Call → Type 0
Shipped n [] = n ≡ 1
Shipped n (initiate ∷ calls) = Shipped n calls
Shipped n (upload_part id k d ∷ calls) =
    (n ≡ k + 1) × (length d ≡ part_size_for k) × Shipped k calls
Shipped n (_ ∷ calls) = ⊥

-- A writer that has accepted `content` and has met no error.
pub record Holds (content : Bytes) (w : Writer) : Type 0 where
  pub is_open : w.closed ≡ false
  pub no_error : w.error ≡ none
  pub content_eq : sent w.calls ++ w.buf ≡ content
  pub buffered : length w.buf ≤ part_size_for w.part_number
  pub fresh : w.upload_id ≡ [] → (w.calls ≡ []) × (w.etags ≡ [])
  pub shipped : Shipped w.part_number w.calls
  pub tagged : (k : ℕ) → Dict.has k w.etags ≡ (leb 1 k && ltb k w.part_number)

-- The provider gives no upload an empty id.
abbrev pub GivesIds : Client → Type 0
GivesIds client = (calls : List Call) → client.on_initiate calls ≢ ok []

pub Holds-new : Holds [] new_writer
unfolding sent Shipped Dict.has
Holds-new = record {
  is_open = refl;
  no_error = refl;
  content_eq = refl;
  buffered = omega arith;
  fresh = λ _. (refl, refl);
  shipped = refl;
  tagged = λ k. ground arith;
}

pub tagged_next :
    (n k : ℕ) → 1 ≤ n → (if k == n then true else (leb 1 k && ltb k n)) ≡ (leb 1 k && ltb k (n + 1))
tagged_next n k h = ground arith

pub Shipped-pos : (n : ℕ) (calls : List Call) → Shipped n calls → 1 ≤ n
unfolding Shipped
Shipped-pos n [] h = omega arith
Shipped-pos n (initiate ∷ calls) h = Shipped-pos n calls h
Shipped-pos n (upload_part id k d ∷ calls) h = omega arith
Shipped-pos n (complete id tags ∷ calls) h = absurd h
Shipped-pos n (abort id ∷ calls) h = absurd h
Shipped-pos n (put_object d ∷ calls) h = absurd h

abbrev after_part : Bytes → Writer → Writer
after_part tag w = record w {
  calls = upload_part w.upload_id w.part_number w.buf ∷ w.calls;
  etags = Dict.insert w.part_number tag w.etags;
  part_number = w.part_number + 1;
  buf = [];
}

abbrev after_initiate : Bytes → Writer → Writer
after_initiate id w = record w { calls = initiate ∷ w.calls; upload_id = id; etags = [] }

ship-ok :
    (client : Client) (w w' : Writer)
    → ship client w ≡ (w', none)
    → (tag : Bytes) × (w' ≡ after_part tag w)
unfolding ship
ship-ok client w w' e =
    elim (Result-cases (client.on_upload (upload_part w.upload_id w.part_number w.buf ∷ w.calls))) [
      | inl (tag, t) ↦ (tag, ground arith)
      | inr (x, t) ↦ absurd (ground arith)
    ]

-- The two ways in which a part is uploaded: in the upload in progress, or in a new one.
pub data Uploaded (client : Client) (w w' : Writer) : Type 0 where
  in_progress : (tag : Bytes) → w.upload_id ≢ [] → w' ≡ after_part tag w → Uploaded client w w'
  initiated :
      (id tag : Bytes)
      → w.upload_id ≡ []
      → client.on_initiate (initiate ∷ w.calls) ≡ ok id
      → w' ≡ after_part tag (after_initiate id w)
      → Uploaded client w w'

pub is_empty-eq : (s : Bytes) → ((is_empty s ≡ true) × (s ≡ [])) ⊎ ((is_empty s ≡ false) × (s ≢ []))
is_empty-eq [] = inl (refl, refl)
is_empty-eq (x ∷ s) = inr (refl, λ e. cc)

pub upload_buffered_part-ok :
    (client : Client) (w w' : Writer)
    → upload_buffered_part client w ≡ (w', none)
    → (w.part_number ≤ max_multipart_parts) × (Uploaded client w w')
unfolding upload_buffered_part
upload_buffered_part-ok client w w' e = elim (Bool-cases (ltb max_multipart_parts w.part_number)) [
  | inl over ↦ absurd (ground arith)
  | inr fits ↦ elim (is_empty-eq w.upload_id) [
    | inr (more, some_id) ↦
        let (tag, t) = ship-ok client w w' (ground arith) in
        (ground arith, in_progress tag some_id t)
    | inl (first, no_id) ↦ elim (Result-cases (client.on_initiate (initiate ∷ w.calls))) [
      | inl (id, i) ↦
          let (tag, t) = ship-ok client (after_initiate id w) w' (ground arith) in
          (ground arith, initiated id tag no_id i t)
      | inr (x, i) ↦ absurd (ground arith)
    ]
  ]
]

module _ (content : Bytes) (w : Writer) (h : Holds content w) where
  -- Shipping a full buffer keeps what the writer holds, and empties the buffer.
  after_part-Holds :
      (tag : Bytes)
      → w.upload_id ≢ []
      → length w.buf ≡ part_size_for w.part_number
      → Holds content (after_part tag w)
  unfolding sent Shipped
  after_part-Holds tag id full = record {
    is_open = h.is_open;
    no_error = h.no_error;
    content_eq = append-nil (sent w.calls ++ w.buf) ∙ h.content_eq;
    buffered = omega arith;
    fresh = λ e. absurd (id e);
    shipped = (refl, full, h.shipped);
    tagged = λ k.
        rw (Dict.has-insert, h.tagged)
          (tagged_next w.part_number k (Shipped-pos w.part_number w.calls h.shipped));
  }

  after_initiate-Holds :
      (id : Bytes) → w.upload_id ≡ [] → id ≢ [] → Holds content (after_initiate id w)
  unfolding sent Shipped
  after_initiate-Holds id none_yet given =
      let (nothing, no_tags) = h.fresh none_yet in
      record {
        is_open = h.is_open;
        no_error = h.no_error;
        content_eq = h.content_eq;
        buffered = h.buffered;
        fresh = λ e. absurd (given e);
        shipped = h.shipped;
        tagged = λ k.
            subst (λ tags. Dict.has k tags ≡ (leb 1 k && ltb k w.part_number)) no_tags (h.tagged k);
      }

pub upload_buffered_part-Holds :
    (client : Client) (content : Bytes) (w w' : Writer)
    → GivesIds client
    → Holds content w
    → length w.buf ≡ part_size_for w.part_number
    → upload_buffered_part client w ≡ (w', none)
    → Holds content w' × (w'.buf ≡ [])
upload_buffered_part-Holds client content w w' given h full e =
    go (upload_buffered_part-ok client w w' e).1
  where
    go : Uploaded client w w' → Holds content w' × (w'.buf ≡ [])
    go (in_progress tag some_id same) = (
      subst (Holds content) (sym same) (after_part-Holds content w h tag some_id full),
      ground arith,
    )
    go (initiated id tag no_id i same) =
        let fresh_id : id ≢ [] = λ e. given (initiate ∷ w.calls) (i ∙ ap ok e) in
        let v = after_initiate-Holds content w h id no_id fresh_id in
        (
          subst (Holds content) (sym same)
              (after_part-Holds content (after_initiate id w) v tag fresh_id full),
          ground arith,
        )
