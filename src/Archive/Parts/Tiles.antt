-- ===== src/Archive/Parts/Tiles.antt =====
-- The ranges of the parts cover the data area from the first local header on, without overlap.
use mathlib.Core.List.{Perm}
use mathlib.Core.List.Perm
use t_sync_sdk_go.Base.{
  ℕ, ◌≡◌, ◌<◌, refl, sym, ap, subst, inl, inr, List, [], ◌∷◌, arith, All, Bool-cases, ltb, leb,
  ℤ-cases, head_eq, cons_ne_nil, pos, map,
}
use t_sync_sdk_go.Errors.{ok, ◌>>=◌, bind_ok}
use t_sync_sdk_go.Archive.Parts.{
  ZipFile, ZipPartRange, local_offsets, insert_file, sort_files, ranges_of, range_of,
}

-- Every range is not empty and ends where the next one starts, and the last one at `cd_offset`.
abbrev pub Tiles : List ZipPartRange → ℕ → Type 0
Tiles [] cd_offset = Unit
Tiles (p ∷ []) cd_offset = (p.start_offset < p.end_offset) × (p.end_offset ≡ cd_offset)
Tiles (p ∷ q ∷ ps) cd_offset =
    (p.start_offset < p.end_offset) × (p.end_offset ≡ q.start_offset) × Tiles (q ∷ ps) cd_offset

-- A range has the name of its file and starts at its local header.
abbrev pub IsOwn : ZipPartRange → Type 0
IsOwn p = (p.name ≡ p.file.name) × (p.file.header_offset ≡ pos p.start_offset)

-- What is asked of the ranges of the files of an archive: one for each file, and no other, in the
-- order of their local headers, and together the whole area from the first header to the directory.
pub record ArePartsOf (files : List ZipFile) (cd_offset : ℕ) (ranges : List ZipPartRange)
    : Type 0 where
  pub same_files : Perm (map (λ p. p.file) ranges) files
  pub tiles : Tiles ranges cd_offset
  pub own : All IsOwn ranges

abbrev HasOffset : ZipFile × ℕ → Type 0
HasOffset (f, n) = f.header_offset ≡ pos n

abbrev first : ZipFile × ℕ → ZipFile
first (f, n) = f

local_offsets-files :
    (cd : ℕ) (files : List ZipFile) (os : List (ZipFile × ℕ))
    → local_offsets cd files ≡ ok os
    → (map first os ≡ files) × All HasOffset os
unfolding local_offsets
local_offsets-files cd [] os h =
    let none_left : [] ≡ os = ground arith in
    subst (λ z. (map first z ≡ []) × All HasOffset z) none_left (refl, tt)
local_offsets-files cd (f ∷ fs) os h = elim (ℤ-cases f.header_offset) [
  | inr (n, e) ↦ absurd (ground (arith, e))
  | inl (n, e) ↦ elim (Bool-cases (leb cd n)) [
    | inl outside ↦ absurd (ground (arith, e))
    | inr inside ↦
        let rest : (local_offsets cd fs >>= (λ os'. ok ((f, n) ∷ os'))) ≡ ok os =
          ground (arith, e) in
        let (os', got, whole) = bind_ok (local_offsets cd fs) (λ os'. ok ((f, n) ∷ os')) os rest in
        let same : (f, n) ∷ os' ≡ os = ground (arith, whole) in
        let (files, offsets) = local_offsets-files cd fs os' got in
        subst (λ z. (map first z ≡ f ∷ fs) × All HasOffset z) same
          (ap (λ z. f ∷ z) files, (e, offsets))
  ]
]

insert_file-Perm : (f : ZipFile × ℕ) (fs : List (ZipFile × ℕ)) → Perm (insert_file f fs) (f ∷ fs)
unfolding insert_file
insert_file-Perm f [] = Perm.refl (f ∷ [])
insert_file-Perm (f, n) ((g, m) ∷ fs) = elim (Bool-cases (ltb m n)) [
  | inl later ↦
      rw later
        (Perm.trans (Perm.cons (g, m) (insert_file-Perm (f, n) fs)) (Perm.swap (f, n) (g, m) fs))
  | inr before ↦ rw before (Perm.refl ((f, n) ∷ (g, m) ∷ fs))
]

sort_files-Perm : (fs : List (ZipFile × ℕ)) → Perm (sort_files fs) fs
unfolding sort_files
sort_files-Perm [] = Perm.refl []
sort_files-Perm (f ∷ fs) =
    Perm.trans (insert_file-Perm f (sort_files fs)) (Perm.cons f (sort_files-Perm fs))

insert_file-All :
    (f : ZipFile × ℕ) (fs : List (ZipFile × ℕ))
    → HasOffset f
    → All HasOffset fs
    → All HasOffset (insert_file f fs)
unfolding insert_file
insert_file-All f [] h hs = (h, tt)
insert_file-All (f, n) ((g, m) ∷ fs) h hs = ground (arith, insert_file-All (f, n) fs h hs.1)

sort_files-All : (fs : List (ZipFile × ℕ)) → All HasOffset fs → All HasOffset (sort_files fs)
unfolding sort_files
sort_files-All [] h = tt
sort_files-All (f ∷ fs) h = insert_file-All f (sort_files fs) h.0 (sort_files-All fs h.1)

-- What is asked of the ranges of sorted files.
record AreRanges (cd : ℕ) (fs : List (ZipFile × ℕ)) (rs : List ZipPartRange) : Type 0 where
  files : map (λ p. p.file) rs ≡ map first fs
  starts : map (λ p. p.start_offset) rs ≡ map (λ (f, n). n) fs
  tiles : Tiles rs cd
  own : All IsOwn rs

next-AreRanges :
    (cd : ℕ) (f g : ZipFile) (n m : ℕ) (fs : List (ZipFile × ℕ)) (rs : List ZipPartRange)
    → n < m
    → f.header_offset ≡ pos n
    → AreRanges cd ((g, m) ∷ fs) rs
    → AreRanges cd ((f, n) ∷ (g, m) ∷ fs) (range_of f n m ∷ rs)
next-AreRanges cd f g n m fs [] less at r =
    absurd (cons_ne_nil m (map (λ (_, k). k) fs) (sym r.starts))
next-AreRanges cd f g n m fs (q ∷ qs) less at r = record {
  files = ap (λ z. f ∷ z) r.files;
  starts = ap (λ z. n ∷ z) r.starts;
  tiles = (
    less,
    sym (head_eq q.start_offset m (map (λ p. p.start_offset) qs) (map (λ (_, k). k) fs) r.starts),
    r.tiles,
  );
  own = ((refl, at), r.own);
}

ranges_of-AreRanges :
    (cd : ℕ) (fs : List (ZipFile × ℕ)) (rs : List ZipPartRange)
    → All HasOffset fs
    → ranges_of cd fs ≡ ok rs
    → AreRanges cd fs rs
unfolding ranges_of
ranges_of-AreRanges cd [] rs has h =
    let none_left : [] ≡ rs = ground arith in
    subst (AreRanges cd []) none_left (record { files = refl; starts = refl; tiles = tt; own = tt })
ranges_of-AreRanges cd ((f, n) ∷ []) rs has h = elim (Bool-cases (leb cd n)) [
  | inl bad ↦ absurd (ground arith)
  | inr good ↦
      let same : range_of f n cd ∷ [] ≡ rs = ground arith in
      subst (AreRanges cd ((f, n) ∷ [])) same (record {
        files = refl;
        starts = refl;
        tiles = (ground arith, refl);
        own = ((refl, has.0), tt);
      })
]
ranges_of-AreRanges cd ((f, n) ∷ (g, m) ∷ fs) rs has h = elim (Bool-cases (leb m n)) [
  | inl bad ↦ absurd (ground arith)
  | inr good ↦
      let rest : (ranges_of cd ((g, m) ∷ fs) >>= (λ qs. ok (range_of f n m ∷ qs))) ≡ ok rs =
        ground arith in
      let (qs, got, whole) =
        bind_ok (ranges_of cd ((g, m) ∷ fs)) (λ qs. ok (range_of f n m ∷ qs)) rs rest in
      let same : range_of f n m ∷ qs ≡ rs = ground (arith, whole) in
      subst (AreRanges cd ((f, n) ∷ (g, m) ∷ fs)) same (
        next-AreRanges cd f g n m fs qs (ground arith) has.0
          (ranges_of-AreRanges cd ((g, m) ∷ fs) qs has.1 got))
]

-- The ranges that `GetZipPartRanges` computes from the files that the library has found are the
-- parts of the archive: each file has exactly one range, which starts at its local header; no range
-- is empty, none overlaps another, and from the first header to the directory no byte is left out.
pub ranges_of-ArePartsOf :
    (cd : ℕ) (files : List ZipFile) (ranges : List ZipPartRange)
    → (local_offsets cd files >>= (λ os. ranges_of cd (sort_files os))) ≡ ok ranges
    → ArePartsOf files cd ranges
ranges_of-ArePartsOf cd files ranges h =
    let (os, got, ranged) =
      bind_ok (local_offsets cd files) (λ os. ranges_of cd (sort_files os)) ranges h in
    let (same, offsets) = local_offsets-files cd files os got in
    let r = ranges_of-AreRanges cd (sort_files os) ranges (sort_files-All os offsets) ranged in
    record {
      same_files =
          subst (λ z. Perm z files) (sym r.files)
            (subst (Perm (map first (sort_files os))) same (Perm.map first (sort_files-Perm os)));
      tiles = r.tiles;
      own = r.own;
    }
