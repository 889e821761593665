-- ===== src/Objects/Ranges.antt =====
-- `ReadRange` and `StorageReaderAt.ReadAt` read the bytes of the object.
use t_sync_sdk_go.Base.{
  ℕ, zero, suc, ◌+◌, ◌-◌, ◌^◌, ◌≡◌, ◌≤◌, ◌<◌, refl, ap, none, some, [], ◌∷◌, arith, pos, length,
  take, drop, length-take, length-drop, take-take, take_all, leb, if◌then◌else◌, Bool-cases, inl,
  inr,
}
use t_sync_sdk_go.Base.Bytes.{Bytes}
use t_sync_sdk_go.Errors.{sentinel, eof, ok}
use t_sync_sdk_go.Streams.{whole, ReadsAt, read_full}
use t_sync_sdk_go.Metadata.{Storage}
use t_sync_sdk_go.Objects.{
  ObjectClient, ObjectStorage, resolve_key, read_range, object_store, storage_read_at, end_byte,
  at_end,
}

-- What the object stores document of a ranged read, from `start` to `end` inclusive, of an object
-- with the content `d`.
abbrev pub ServesRanges : (C : ObjectClient) → C.State → Bytes → Bytes → Bytes → Type 0
ServesRanges C s b k d =
    (start end : ℕ)
    → start ≤ end
    → start < length d
    → C.get_object_range s b k (pos start) (pos end)
      ≡ ok (whole (take (end + 1 - start) (drop start d)))

-- What the comment on `ReadRange` promises, of a path with the content `d`.
abbrev pub ReadsRanges : (S : Storage) → S.State → Bytes → Bytes → Type 0
ReadsRanges S s p d =
    (start n : ℕ)
    → start + n < 2 ^ 63
    → start < length d
    → S.read_range s p (pos start) (pos n) ≡ ok (whole (take n (drop start d)))

one_more : (start n : ℕ) → start + n + 1 - start ≡ suc n
one_more start n = omega arith

end_byte_exact :
    (C : ObjectClient) (o : ObjectStorage) (start n : ℕ)
    → start + suc n < 2 ^ 63
    → end_byte C o (pos start) (pos (suc n)) ≡ pos (start + n)
end_byte_exact C o start n fits = ground arith

-- Where the client serves an object's ranges, `ReadRange` of its path gives the bytes that it is
-- asked for, as far as there are any, and asks the client for no other: the inclusive end that it
-- computes is right, and does not wrap around.
pub read_range-ReadsRanges :
    (C : ObjectClient) (o : ObjectStorage) (now : ℕ) (s : C.State) (p d : Bytes)
    → ServesRanges C s o.bucket (resolve_key o p) d
    → ReadsRanges (object_store C o now) s p d
unfolding read_range
read_range-ReadsRanges C o now s p d serves start zero fits inside = refl
read_range-ReadsRanges C o now s p d serves start (suc n) fits inside = ground (
  arith,
  end_byte_exact C o start n fits,
  serves start (start + n) (omega arith) inside,
  ap (λ k. take k (drop start d)) (one_more start n),
)

cut_short :
    (n : ℕ) (b : Bytes)
    → 0 < length b
    → at_end (read_full n (whole (take n b)))
      ≡ (take n b, if leb n (length b) then none else some (sentinel eof))
cut_short n [] some_byte = absurd (omega arith)
cut_short n (x ∷ b) some_byte = elim (Bool-cases (leb n (length (x ∷ b)))) [
  | inl enough ↦ ground (arith, length-take n (x ∷ b), take-take n (x ∷ b))
  | inr short ↦ rw (take_all n (x ∷ b) (ground arith)) rw short refl
]

-- Where `ReadRange` keeps its promise, `ReadAt` of `StorageReaderAt` is a reader of the content: it
-- reads what it is asked for, and where the content ends before that, all up to the end, with
-- io.EOF.
pub storage_read_at-ReadsAt :
    (S : Storage) (s : S.State) (p d : Bytes)
    → ReadsRanges S s p d
    → ReadsAt (storage_read_at S s p) d
unfolding storage_read_at
storage_read_at-ReadsAt S s p d reads zero start fits inside = ground arith
storage_read_at-ReadsAt S s p d reads (suc n) start fits inside = ground (
  arith,
  reads start (suc n) fits inside,
  cut_short (suc n) (drop start d) (omega (arith, length-drop start d)),
  length-drop start d,
)

-- Where the client serves an object's ranges, `StorageReaderAt` over `ObjectStorage` is a reader of
-- the object at its path: for every length and every offset inside the object, `ReadAt` reads the
-- object's bytes from there on, in full and without error, or up to the object's end with io.EOF.
pub read_at-ReadsAt :
    (C : ObjectClient) (o : ObjectStorage) (now : ℕ) (s : C.State) (p d : Bytes)
    → ServesRanges C s o.bucket (resolve_key o p) d
    → ReadsAt (storage_read_at (object_store C o now) s p) d
read_at-ReadsAt C o now s p d serves =
    storage_read_at-ReadsAt (object_store C o now) s p d
      (read_range-ReadsRanges C o now s p d serves)
