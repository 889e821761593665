-- ===== src/Archive/Scan.antt =====
-- The search for the end record finds the last one of the file, wherever it stands.
use t_sync_sdk_go.Base.{
  ℕ, zero, suc, ◌+◌, ◌-◌, ◌^◌, ◌≡◌, ◌≤◌, ◌<◌, refl, sym, ap, ◌∙◌, subst, inl, inr, true, false,
  Option, none, some, [], ◌∷◌, arith, All, Bool-cases, eqb, ltb, pos, length, drop, length-drop,
  take_all, drop-drop,
}
use mathlib.Core.List.{append-nil}
use t_sync_sdk_go.Base.Bytes.{Bytes}
use t_sync_sdk_go.Errors.{GoError, ok, err}
use t_sync_sdk_go.Streams.{ReaderAt, ReadsAt}
use t_sync_sdk_go.Archive.{
  eocd_len, little_endian, tail_len, zeros, buffer, ends_at, scan, located, read_tail,
}

-- The scan takes the last place before `n` at which an end record stands.
pub scan-last :
    (tail : Bytes) (n i : ℕ)
    → scan tail n ≡ some i
    → (ends_at tail i ≡ true) × ((j : ℕ) → i < j → j < n → ends_at tail j ≡ false)
unfolding scan
scan-last tail zero i h = absurd (ground arith)
scan-last tail (suc n) i h = elim (Bool-cases (ends_at tail n)) [
  | inl here ↦
      let same : n ≡ i = ground arith in
      (subst (λ k. ends_at tail k ≡ true) same here, λ j above below. absurd (omega arith))
  | inr other ↦
      let found : scan tail n ≡ some i = ground arith in
      let (good, last) = scan-last tail n i found in
      (
        good,
        λ j above below. elim (Bool-cases (eqb j n)) [
          | inl at_end ↦ subst (λ k. ends_at tail k ≡ false) (ground arith) other
          | inr before ↦ last j above (ground arith)
        ],
      )
]

pub scan-none :
    (tail : Bytes) (n : ℕ) → scan tail n ≡ none → (j : ℕ) → j < n → ends_at tail j ≡ false
unfolding scan
scan-none tail zero h j below = absurd (omega arith)
scan-none tail (suc n) h j below = elim (Bool-cases (ends_at tail n)) [
  | inl here ↦ absurd (ground arith)
  | inr other ↦ elim (Bool-cases (eqb j n)) [
    | inl at_end ↦ subst (λ k. ends_at tail k ≡ false) (ground arith) other
    | inr before ↦ scan-none tail n (ground arith) j (ground arith)
  ]
]

-- A tail of the file has an end record where the file has it.
pub ends_at-drop : (t i : ℕ) (s : Bytes) → t ≤ length s → ends_at (drop t s) i ≡ ends_at s (t + i)
unfolding ends_at
ends_at-drop t i s h =
    let e : t + (i + 20) ≡ t + i + 20 = omega arith in
    rw (drop-drop i t s, drop-drop (i + 20) t s, e, length-drop t s) (ground arith)

-- The number of `n` bytes is below 256 to the power `n`.
little_endian_bound : (b : Bytes) → All (λ x. x < 256) b → little_endian 2 b < 2 ^ 16
unfolding little_endian
little_endian_bound [] h = omega arith
little_endian_bound (x ∷ []) h = ground arith
little_endian_bound (x ∷ y ∷ b) h = ground arith

All-drop : (n : ℕ) (b : Bytes) → All (λ x. x < 256) b → All (λ x. x < 256) (drop n b)
All-drop zero b h = h
All-drop (suc n) [] h = tt
All-drop (suc n) (x ∷ b) h = All-drop n b h.1

-- An end record stands at most 22 + 65535 bytes before the end.
pub near_the_end :
    (s : Bytes) (i : ℕ)
    → All (λ x. x < 256) s
    → ends_at s i ≡ true
    → (i + 22 ≤ length s) × (length s < i + 22 + 2 ^ 16)
unfolding ends_at
near_the_end s i bytes h =
    ground (arith, little_endian_bound (drop (i + 20) s) (All-drop (i + 20) s bytes))

-- What is asked of the place of the end record of a file: an end record stands there, its comment
-- reaches to the end of the file, and none stands after it.
pub record IsLastEnd (s : Bytes) (i : ℕ) : Type 0 where
  pub stands : ends_at s i ≡ true
  pub last : (j : ℕ) → i < j → ends_at s j ≡ false

pub buffer-full : (n : ℕ) (b : Bytes) → length b ≡ n → buffer n b ≡ b
unfolding buffer zeros
buffer-full n b h = let e : n - length b ≡ 0 = omega arith in rw e (append-nil b)

-- The tail of a file, as it is read.
tail_read :
    (r : ReaderAt) (s : Bytes)
    → ReadsAt r s
    → 22 ≤ length s
    → length s < 2 ^ 63
    → r (tail_len (length s)) (pos (length s - tail_len (length s)))
      ≡ (drop (length s - tail_len (length s)) s, none)
tail_read r s reads some_bytes fits =
    let n = tail_len (length s) in
    let t = length s - n in
    let inside : t < length s = omega arith in
    let sum : t + n < 2 ^ 63 = omega arith in
    let all : length (drop t s) ≤ n = omega (arith, length-drop t s) in
    reads n t sum inside ∙ ground (arith, take_all n (drop t s) all)

located-some :
    (t tail : Bytes) (o : Option ℕ) (i : ℕ) → located t o ≡ ok (tail, i) → (tail ≡ t) × (o ≡ some i)
located-some t tail none i h = absurd (ground arith)
located-some t tail (some j) i h = ground arith

located-none : (t : Bytes) (o : Option ℕ) (e : GoError) → located t o ≡ err e → o ≡ none
located-none t none e h = refl
located-none t (some j) e h = absurd (ground arith)

module _ (r : ReaderAt) (s : Bytes) (reads : ReadsAt r s) (fits : length s < 2 ^ 63)
    (bytes : All (λ x. x < 256) s) where
  -- The tail that is read, and where it starts.
  abbrev start : ℕ
  start = length s - tail_len (length s)

  length-tail : length (drop start s) ≡ tail_len (length s)
  length-tail = omega (arith, length-drop start s)

  read_tail-scan :
      22 ≤ length s
      → read_tail r (length s)
        ≡ located (drop start s) (scan (drop start s) (tail_len (length s) + 1 - eocd_len))
  unfolding read_tail
  read_tail-scan enough =
      let long : ltb (length s) eocd_len ≡ false = ground arith in
      let full = buffer-full (tail_len (length s)) (drop start s) length-tail in
      rw (long, tail_read r s reads enough fits)
        (ap (λ t. located t (scan t (tail_len (length s) + 1 - eocd_len))) full)

  -- A place in the tail at which no record stands, as a place in the file.
  in_tail :
      (j : ℕ)
      → ends_at s j ≡ true
      → (k : ℕ) × (start + k ≡ j)
        × (k < tail_len (length s) + 1 - eocd_len)
        × (ends_at (drop start s) k ≡ true)
  in_tail j here =
      let (low, high) = near_the_end s j bytes here in
      let k = j - start in
      let back : start + k ≡ j = omega arith in
      (k, back, omega arith, ends_at-drop start k s (omega arith) ∙ ap (ends_at s) back ∙ here)

  -- The search after the end record: if it is found, the tail is the file's, and no end record
  -- stands later in the file.
  pub read_tail-last :
      (tail : Bytes) (i : ℕ)
      → read_tail r (length s) ≡ ok (tail, i)
      → (tail ≡ drop start s) × IsLastEnd s (start + i)
  unfolding read_tail
  read_tail-last tail i h = elim (Bool-cases (ltb (length s) 22)) [
    | inl short ↦ absurd (ground arith)
    | inr long ↦
        let n = tail_len (length s) + 1 - eocd_len in
        let (same, found) =
          located-some (drop start s) tail (scan (drop start s) n) i
            (sym (read_tail-scan (ground arith)) ∙ h) in
        let (stands, last) = scan-last (drop start s) n i found in
        (
          same,
          record {
            stands = sym (ends_at-drop start i s (omega arith)) ∙ stands;
            last = λ j above. elim (Bool-cases (ends_at s j)) [
              | inr absent ↦ absent
              | inl here ↦
                  let (k, back, inside, there) = in_tail j here in
                  absurd (ground (arith, last k (omega arith) inside, there))
            ];
          },
        )
  ]

  -- If it is not found, there is none in the file.
  pub read_tail-none :
      (e : GoError) → read_tail r (length s) ≡ err e → (j : ℕ) → ends_at s j ≡ false
  read_tail-none e h j = elim (Bool-cases (ends_at s j)) [
    | inr absent ↦ absent
    | inl here ↦
        let n = tail_len (length s) + 1 - eocd_len in
        let (low, high) = near_the_end s j bytes here in
        let absent =
          located-none (drop start s) (scan (drop start s) n) e
            (sym (read_tail-scan (omega arith)) ∙ h) in
        let (k, back, inside, there) = in_tail j here in
        absurd (ground (arith, scan-none (drop start s) n absent k inside, there))
  ]
