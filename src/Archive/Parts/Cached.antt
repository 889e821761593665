-- ===== src/Archive/Parts/Cached.antt =====
-- `cachedTailReaderAt` reads what stands below its cache, followed by the cache.
use mathlib.Core.List.{append-nil}
use t_sync_sdk_go.Base.{
  ℕ, zero, suc, ◌+◌, ◌-◌, ◌^◌, min, ◌≡◌, ◌≤◌, ◌<◌, refl, sym, ap, ◌∙◌, inl, inr, true, none, some,
  [], ◌∷◌, ◌++◌, arith, Bool-cases, leb, pos, length, length-append, length-take, length-drop, take,
  drop, take-append, drop-append, drop-take, take-take-min, drop_all, if◌then◌else◌,
}
use t_sync_sdk_go.Base.Bytes.{Bytes}
use t_sync_sdk_go.Errors.{sentinel, eof}
use t_sync_sdk_go.Streams.{ReaderAt, ReadsAt}
use t_sync_sdk_go.Archive.Parts.{from_cache, after_head, cached_read_at}

-- The cache, read from the place `k`, of which `n` bytes are wanted.
from_cache_lem :
    (cache : Bytes) (n k : ℕ)
    → k < length cache
    → from_cache cache n k
      ≡ (take n (drop k cache), if leb (k + n) (length cache) then none else some (sentinel eof))
unfolding from_cache
from_cache_lem cache n k h = ground (arith, length-take n (drop k cache), length-drop k cache)

from_cache_start :
    (cache : Bytes) (m : ℕ)
    → 0 < m
    → from_cache cache m 0
      ≡ (take m cache, if leb m (length cache) then none else some (sentinel eof))
unfolding from_cache
from_cache_start cache zero some_byte = absurd (omega arith)
from_cache_start [] (suc m) some_byte = ground arith
from_cache_start (x ∷ cache) (suc m) some_byte = ground (arith, length-take (suc m) (x ∷ cache))

after_head_short :
    (cache b : Bytes) (n : ℕ) → length b ≡ n → after_head cache n n (b, none) ≡ (b, none)
after_head_short cache b n h = ground arith

after_head_long :
    (cache b : Bytes) (n head : ℕ)
    → length b ≡ head
    → head < n
    → after_head cache n head (b, none) ≡ (
      b ++ take (n - head) cache,
      if leb (n - head) (length cache) then none else some (sentinel eof),
    )
after_head_long cache b n head h more =
    ground (arith, from_cache_start cache (n - head) (omega arith))

module _ (r : ReaderAt) (s : Bytes) (reads : ReadsAt r s) (c : ℕ) (below : c ≤ length s)
    (cache : Bytes) where
  -- What the reader presents.
  abbrev presented : Bytes
  presented = take c s ++ cache

  length-presented : length presented ≡ c + length cache
  length-presented = omega (arith, length-append (take c s) cache, length-take c s)

  from_the_cache :
      (n start : ℕ) → c ≤ start → take n (drop start presented) ≡ take n (drop (start - c) cache)
  from_the_cache n start above =
      let len : length (take c s) ≡ c = omega (arith, length-take c s) in
      let gone : drop start (take c s) ≡ [] = drop_all start (take c s) (omega (arith, len)) in
      ap (take n) (drop-append start (take c s) cache)
      ∙ ap (λ z. take n (z ++ drop (start - length (take c s)) cache)) gone
      ∙ ap (λ k. take n (drop (start - k) cache)) len

  -- A read that starts below the cache, as the bytes below it and those in it.
  from_below :
      (n start : ℕ)
      → start < c
      → take n (drop start presented)
        ≡ take (min n (c - start)) (drop start s) ++ take (n - (c - start)) cache
  from_below n start under =
      let len : length (take c s) ≡ c = omega (arith, length-take c s) in
      let rest : length (drop start (take c s)) ≡ c - start =
        omega (arith, length-drop start (take c s), len) in
      let none_cut : start - length (take c s) ≡ 0 = omega (arith, len) in
      ap (take n) (drop-append start (take c s) cache)
      ∙ ap (λ k. take n (drop start (take c s) ++ drop k cache)) none_cut
      ∙ take-append n (drop start (take c s)) cache
      ∙ ap (λ k. take n (drop start (take c s)) ++ take (n - k) cache) rest
      ∙ ap (λ z. take n z ++ take (n - (c - start)) cache) (drop-take start c s)
      ∙ ap (λ z. z ++ take (n - (c - start)) cache) (take-take-min n (c - start) (drop start s))

  head_read :
      (n start : ℕ)
      → start + n < 2 ^ 63
      → start < c
      → r (min n (c - start)) (pos start) ≡ (take (min n (c - start)) (drop start s), none)
  head_read n start fits under =
      let enough : leb (start + min n (c - start)) (length s) ≡ true = ground arith in
      reads (min n (c - start)) start (omega arith) (omega arith) ∙ rw enough refl

  across :
      (n start : ℕ)
      → start < c
      → after_head cache n (min n (c - start)) (take (min n (c - start)) (drop start s), none) ≡ (
        take n (drop start presented),
        if leb (start + n) (length presented) then none else some (sentinel eof),
      )
  across n start under =
      let head = min n (c - start) in
      let b = take head (drop start s) in
      let len : length b ≡ head =
        omega (arith, length-take head (drop start s), length-drop start s) in
      elim (Bool-cases (leb n (c - start))) [
        | inl short ↦
            let all : head ≡ n = ground arith in
            let nothing : n - (c - start) ≡ 0 = ground arith in
            let split : b ++ [] ≡ take n (drop start presented) =
              ap (λ k. b ++ take k cache) (sym nothing) ∙ sym (from_below n start under) in
            let full : after_head cache n head (b, none) ≡ (b, none) =
              ap (λ k. after_head cache n k (b, none)) all
              ∙ after_head_short cache b n (len ∙ all) in
            ground (arith, full, sym (append-nil b) ∙ split, length-presented)
        | inr long ↦
            let part : head ≡ c - start = ground arith in
            let rest : n - head ≡ n - (c - start) = omega arith in
            let split : b ++ take (n - head) cache ≡ take n (drop start presented) =
              ap (λ k. b ++ take k cache) rest ∙ sym (from_below n start under) in
            ground
              (arith, after_head_long cache b n head len (ground arith), split, length-presented)
      ]

  -- If the reader reads a file, then `cachedTailReaderAt` reads what the file has below the cache,
  -- followed by the cache: for every length and offset, across the border too, and with io.EOF
  -- exactly where the cache ends before the bytes that are asked for.
  pub cached_read_at-ReadsAt : ReadsAt (cached_read_at r c cache) presented
  unfolding cached_read_at
  cached_read_at-ReadsAt n start fits inside = elim (Bool-cases (leb c start)) [
    | inl above ↦ rw above (
        from_cache_lem cache n (start - c) (ground (arith, length-presented))
        ∙ ground (arith, from_the_cache n start (ground arith), length-presented))
    | inr under ↦ rw (under, head_read n start fits (ground arith)) (across n start (ground arith))
  ]
