-- ===== src/Archive/Fields.antt =====
-- Numbers in the bytes of a zip file, and what a read of the file through the tail gives.
use t_sync_sdk_go.Base.{
  ℕ, zero, suc, ◌+◌, ◌-◌, ◌*◌, ◌^◌, ◌≡◌, ◌≤◌, ◌<◌, refl, sym, ap, ◌∙◌, inl, inr, true, ◌&&◌, not,
  none, [], ◌∷◌, arith, Bool-cases, leb, ltz, pos, add_int64, length, length-take, length-drop,
  take, drop, drop-drop, drop-take,
}
use t_sync_sdk_go.Base.Bytes.{Bytes}
use t_sync_sdk_go.Errors.{ok}
use t_sync_sdk_go.Streams.{ReaderAt, ReadsAt}
use t_sync_sdk_go.Archive.{
  returns, little_endian, field, ZipDirectory, buffer, filled, read_at_cached,
}
use t_sync_sdk_go.Archive.Scan.{buffer-full}

little_endian-take : (k m : ℕ) (b : Bytes) → k ≤ m → little_endian k (take m b) ≡ little_endian k b
unfolding little_endian
little_endian-take zero m b h = refl
little_endian-take (suc k) zero b h = absurd (omega arith)
little_endian-take (suc k) (suc m) [] h = refl
little_endian-take (suc k) (suc m) (x ∷ b) h =
    ap (λ n. x + 256 * n) (little_endian-take k m b (omega arith))

field-take : (k i n : ℕ) (b : Bytes) → i + k ≤ n → field k i (take n b) ≡ field k i b
field-take k i n b h =
    ap (little_endian k) (drop-take i n b) ∙ little_endian-take k (n - i) (drop i b) (omega arith)

pub field-drop : (k i j : ℕ) (s : Bytes) → field k i (drop j s) ≡ field k (j + i) s
field-drop k i j s = ap (little_endian k) (drop-drop i j s)

-- A number in a record that has been read.
pub field-read :
    (k i n start : ℕ) (s : Bytes)
    → i + k ≤ n
    → field k i (take n (drop start s)) ≡ field k (start + i) s
field-read k i n start s h = field-take k i n (drop start s) h ∙ field-drop k i start s

module _ (r : ReaderAt) (s : Bytes) (reads : ReadsAt r s) (fits : length s ≤ 2 ^ 62) where
  -- What a read gives of the file, from the tail or from the reader.
  pub read_at_cached-take :
      (d : ZipDirectory) (start n : ℕ) (rec : Bytes)
      → d.tail ≡ drop d.tail_offset s
      → 0 < n
      → start + n ≤ length s
      → read_at_cached r d start n ≡ returns (ok rec)
      → rec ≡ take n (drop start s)
  unfolding read_at_cached
  read_at_cached-take d start n rec tail some_bytes inside h =
      elim (Bool-cases (
        leb d.tail_offset start
        && not (ltz (pos (d.tail_offset + length d.tail)) (add_int64 (pos start) (pos n))))) [
          | inl cached ↦
              let i = start - d.tail_offset in
              let low : d.tail_offset ≤ start = ground (arith, cached) in
              let back : d.tail_offset + i ≡ start = omega arith in
              elim (Bool-cases (leb (i + n) (length d.tail))) [
                | inr out ↦ absurd (ground (arith, cached, out))
                | inl good ↦
                    let got : take n (drop i d.tail) ≡ rec = ground (arith, cached, good) in
                    sym got
                    ∙ ap (λ t. take n (drop i t)) tail
                    ∙ ap (take n) (drop-drop i d.tail_offset s ∙ ap (λ k. drop k s) back)
              ]
          | inr direct ↦
              let whole : leb (start + n) (length s) ≡ true = ground arith in
              let given : r n (pos start) ≡ (take n (drop start s), none) =
                reads n start (omega arith) (omega arith) ∙ rw whole refl in
              let len : length (take n (drop start s)) ≡ n =
                omega (arith, length-take n (drop start s), length-drop start s) in
              let got : filled n (take n (drop start s), none) ≡ ok rec =
                ground (arith, direct, given) in
              let same : buffer n (take n (drop start s)) ≡ rec = ground arith in
              sym same ∙ buffer-full n (take n (drop start s)) len
        ]
