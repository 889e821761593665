-- ===== src/Writer/Write.antt =====
-- `Write` of tsync/storage.go keeps what the writer holds and adds the input to it.
use t_sync_sdk_go.Base.{
  ℕ, zero, suc, ◌-◌, ◌≤◌, ◌<◌, min, ◌≡◌, refl, ◌∙◌, ap, sym, subst, Option, none, some, [], ◌∷◌,
  ◌++◌, arith, eqb, length, take, drop, nat_eq, length-append, length-take, length-drop,
  take-append-drop, Bool-cases, inl, inr, ◌⊎◌,
}
use mathlib.Core.List.{append-nil, append_assoc}
use t_sync_sdk_go.Base.Bytes.{Bytes}
use t_sync_sdk_go.Errors.{GoError}
use t_sync_sdk_go.Writer.{part_size_for, Client, Writer, fill, make_room, write_loop, write}
use t_sync_sdk_go.Writer.Sizes.{part_size_for_bounds}
use t_sync_sdk_go.Writer.Content.{sent, Holds, GivesIds, upload_buffered_part-Holds}

-- After `make_room` succeeds there is room for a byte.
make_room-Holds :
    (client : Client) (content : Bytes) (w w' : Writer)
    → GivesIds client
    → Holds content w
    → make_room client w ≡ (w', none)
    → Holds content w' × (length w'.buf < part_size_for w'.part_number)
unfolding make_room
make_room-Holds client content w w' given h e =
    elim (Bool-cases (eqb (length w.buf) (part_size_for w.part_number))) [
      | inl full ↦
          let (v, emptied) =
            upload_buffered_part-Holds client content w w' given h (ground arith) (ground arith) in
          (v, rw emptied (omega (arith, part_size_for_bounds w'.part_number)))
      | inr room ↦
          let same : w ≡ w' = ground arith in
          (
            subst (Holds content) same h,
            subst (λ v. length v.buf < part_size_for v.part_number) same
                (ground (arith, h.buffered)),
          )
    ]

-- One round of the loop moves a piece of the input into the buffer.
fill-Holds :
    (content p : Bytes) (w : Writer)
    → Holds content w
    → let n = min (length p) (part_size_for w.part_number - length w.buf) in
      Holds (content ++ take n p) (fill w p).0
unfolding fill
fill-Holds content p w h =
    let n = min (length p) (part_size_for w.part_number - length w.buf) in
    record {
      is_open = h.is_open;
      no_error = h.no_error;
      content_eq =
          sym (append_assoc (sent w.calls) w.buf (take n p)) ∙ ap (λ s. s ++ take n p) h.content_eq;
      buffered = omega (arith, length-append w.buf (take n p), length-take n p, h.buffered);
      fresh = h.fresh;
      shipped = h.shipped;
      tagged = h.tagged;
    }

pub outcomes :
    (x : Writer × Option GoError)
    → ((v : Writer) × (x ≡ (v, none))) ⊎ ((v : Writer) × (e : GoError) × (x ≡ (v, some e)))
outcomes (v, none) = inl (v, refl)
outcomes (v, some e) = inr (v, e, refl)

write_loop-Holds :
    (client : Client) (fuel : ℕ) (content p : Bytes) (w w' : Writer) (left : ℕ)
    → GivesIds client
    → length p ≤ fuel
    → Holds content w
    → write_loop client fuel p w ≡ (w', left, none)
    → (left ≡ 0) × Holds (content ++ p) w'
unfolding write_loop fill
write_loop-Holds client fuel content [] w w' left given enough h e =
    (ground arith, rw append-nil (subst (Holds content) (ground arith) h))
write_loop-Holds client zero content (x ∷ p) w w' left given enough h e = absurd (omega arith)
write_loop-Holds client (suc fuel) content (x ∷ p) w w' left given enough h e =
    elim (outcomes (make_room client w)) [
      | inr (v, e', m) ↦ absurd (ground arith)
      | inl (v, m) ↦
          let (hv, room) = make_room-Holds client content w v given h m in
          let n = min (length (x ∷ p)) (part_size_for v.part_number - length v.buf) in
          let (none_left, done) =
            write_loop-Holds client fuel (content ++ take n (x ∷ p)) (drop n (x ∷ p))
              (fill v (x ∷ p)).0 w' left given (omega (arith, length-drop n (x ∷ p)))
              (fill-Holds content (x ∷ p) v hv) (ground arith) in
          (
            none_left,
            subst (λ s. Holds s w')
                (append_assoc content (take n (x ∷ p)) (drop n (x ∷ p))
                  ∙ ap (λ s. content ++ s) (take-append-drop n (x ∷ p)))
                done,
          )
    ]

-- A `Write` that returns no error has accepted every byte: the writer then holds what it held,
-- followed by the bytes written. So the loop ends within its fuel.
pub write-Holds :
    (client : Client) (content p : Bytes) (w w' : Writer) (n : ℕ)
    → GivesIds client
    → Holds content w
    → write client p w ≡ (w', n, none)
    → (n ≡ length p) × Holds (content ++ p) w'
unfolding write
write-Holds client content p w w' n given h e =
    let (none_left, done) =
      write_loop-Holds client (length p) content p w w' (write_loop client (length p) p w).1 given
        (omega arith) h (ground (arith, h.is_open, h.no_error)) in
    (ground (arith, h.is_open, h.no_error, none_left), done)
