-- ===== src/Paths/Inside.antt =====
-- A path that `safeJoin` accepts lies inside the base.
use t_sync_sdk_go.Base.{
  ◌≡◌, ◌≢◌, ◌⊎◌, refl, sym, subst, inl, inr, Bool, true, false, some, List, [], ◌∷◌, ◌++◌, arith,
  All, Bool-cases, Option-cases, ◌==◌, bytes_eq, ==→eq, ==_self,
}
use t_sync_sdk_go.Base.Bytes.{Bytes, slash, split}
use t_sync_sdk_go.Errors.{ok}
use t_sync_sdk_go.Paths.{
  CleanPath, dot_dot, is_rooted, clean_step, clean_onto, reverse_onto, clean, join_raw, ups,
  rel_parts, rel_escapes_base, is_unsafe, same_root, safe_path,
}

-- Elements with the last one first, in which no ".." stands above another name.
abbrev IsSettled : List Bytes → Type 0
IsSettled [] = Unit
IsSettled (part ∷ stack) = (part ≡ dot_dot → All (λ p. p ≡ dot_dot) stack) × IsSettled stack

clean_step-IsSettled :
    (rooted : Bool) (stack : List Bytes) (part : Bytes)
    → IsSettled stack
    → IsSettled (clean_step rooted stack part)
clean_step-IsSettled rooted [] part h = ground arith
clean_step-IsSettled rooted (top ∷ stack) part h = ground arith

clean_onto-IsSettled :
    (rooted : Bool) (parts stack : List Bytes)
    → IsSettled stack
    → IsSettled (clean_onto rooted stack parts)
unfolding clean_onto
clean_onto-IsSettled rooted [] stack h = h
clean_onto-IsSettled rooted (part ∷ parts) stack h =
    clean_onto-IsSettled rooted parts (clean_step rooted stack part)
      (clean_step-IsSettled rooted stack part h)

-- Elements in order: after a name there is no "..".
abbrev IsLed : List Bytes → Type 0
IsLed [] = Unit
IsLed (part ∷ parts) = (part ≢ dot_dot → All (λ p. p ≢ dot_dot) parts) × IsLed parts

-- Every ".." among `parts` stands above nothing but "..".
abbrev AreAbove : List Bytes → List Bytes → Type 0
AreAbove stack [] = Unit
AreAbove stack (part ∷ parts) =
    (part ≡ dot_dot → All (λ p. p ≡ dot_dot) stack) × AreAbove stack parts

AreAbove-tail :
    (top : Bytes) (stack parts : List Bytes) → AreAbove (top ∷ stack) parts → AreAbove stack parts
AreAbove-tail top stack [] h = tt
AreAbove-tail top stack (part ∷ parts) (here, more) =
    ((λ e. (here e).1), AreAbove-tail top stack parts more)

AreAbove-names :
    (top : Bytes) (stack parts : List Bytes)
    → AreAbove (top ∷ stack) parts
    → top ≢ dot_dot
    → All (λ p. p ≢ dot_dot) parts
AreAbove-names top stack [] h name = tt
AreAbove-names top stack (part ∷ parts) (here, more) name =
    ((λ e. name (here e).0), AreAbove-names top stack parts more name)

reverse_onto-IsLed :
    (stack parts : List Bytes)
    → IsSettled stack
    → AreAbove stack parts
    → IsLed parts
    → IsLed (reverse_onto stack parts)
unfolding reverse_onto
reverse_onto-IsLed [] parts settled above led = led
reverse_onto-IsLed (top ∷ stack) parts (here, settled) above led =
    reverse_onto-IsLed stack (top ∷ parts) settled (here, AreAbove-tail top stack parts above)
      (AreAbove-names top stack parts above, led)

pub clean-IsLed : (path : Bytes) → IsLed (clean path).parts
unfolding clean
clean-IsLed path =
    reverse_onto-IsLed (clean_onto (is_rooted path) [] (split slash path)) []
      (clean_onto-IsSettled (is_rooted path) (split slash path) [] tt) tt tt

IsLed-suffix : (base parts : List Bytes) → IsLed (base ++ parts) → IsLed parts
IsLed-suffix [] parts h = h
IsLed-suffix (b ∷ base) parts h = IsLed-suffix base parts h.1

-- A relative path either leads down from the base, or starts with "..".
rel_parts_cases :
    (base target rel : List Bytes)
    → rel_parts base target ≡ some rel
    → (target ≡ base ++ rel) ⊎ (rel_escapes_base rel ≡ true)
unfolding rel_parts ups rel_escapes_base
rel_parts_cases [] target rel h = inl (ground arith)
rel_parts_cases (b ∷ base) [] rel h = elim (Bool-cases (b == dot_dot)) [
  | inl up ↦ absurd (ground arith)
  | inr name ↦
      let same : ups (b ∷ base) [] ≡ rel = ground arith in
      inr (subst (λ r. rel_escapes_base r ≡ true) same (==_self dot_dot))
]
rel_parts_cases (b ∷ base) (t ∷ target) rel h = elim (Bool-cases (b == t)) [
  | inl equal ↦ elim (rel_parts_cases base target rel (ground arith)) [
    | inl inside ↦ inl (ground (arith, ==→eq b t equal))
    | inr escapes ↦ inr escapes
  ]
  | inr differ ↦ elim (Bool-cases (b == dot_dot)) [
    | inl up ↦ absurd (ground arith)
    | inr name ↦
        let same : ups (b ∷ base) (t ∷ target) ≡ rel = ground arith in
        inr (subst (λ r. rel_escapes_base r ≡ true) same (==_self dot_dot))
  ]
]

same_root_eq : (a b : Bool) → same_root a b ≡ true → a ≡ b
same_root_eq true b h = sym h
same_root_eq false true h = absurd (ground arith)
same_root_eq false false h = refl

-- What is asked of a path inside a base: it starts with the base's elements, and the elements that
-- follow are one at least and none of them "..".
pub record IsInside (base path : CleanPath) : Type 0 where
  pub same_root : base.rooted ≡ path.rooted
  pub first : Bytes
  pub rest : List Bytes
  pub extends : path.parts ≡ base.parts ++ first ∷ rest
  pub names : All (λ p. p ≢ dot_dot) (first ∷ rest)

IsInside-rel :
    (base path : CleanPath) (rel : List Bytes)
    → base.rooted ≡ path.rooted
    → IsLed path.parts
    → rel_parts base.parts path.parts ≡ some rel
    → is_unsafe (some rel) ≡ false
    → IsInside base path
unfolding rel_escapes_base
IsInside-rel base path [] root led h safe = absurd (ground arith)
IsInside-rel base path (first ∷ rest) root led h safe =
    elim (rel_parts_cases base.parts path.parts (first ∷ rest) h) [
      | inr escapes ↦ absurd (ground arith)
      | inl extends ↦
          let (below, more) = IsLed-suffix base.parts (first ∷ rest) (subst IsLed extends led) in
          let name : first ≢ dot_dot = λ e. ground (arith, e) in
          record {
            same_root = root;
            first = first;
            rest = rest;
            extends = extends;
            names = (name, below name);
          }
    ]

-- A path that `safeJoin` returns lies strictly inside the base, whatever the archive's path is: its
-- elements are the base's, followed by one name at least, and no ".." is among those. So nothing
-- that a backup names is written outside the folder that is restored to, or in its place.
pub safe_path-IsInside :
    (base archive_path : Bytes) (out : CleanPath)
    → safe_path base archive_path ≡ ok out
    → IsInside (clean base) out
unfolding safe_path
safe_path-IsInside base archive_path out h =
    let from = clean base in
    let to = clean (join_raw base archive_path) in
    elim (Bool-cases (same_root from.rooted to.rooted)) [
      | inr other ↦ absurd (ground arith)
      | inl root ↦ elim (Option-cases (rel_parts from.parts to.parts)) [
        | inl none_found ↦ absurd (ground arith)
        | inr (rel, found) ↦ elim (Bool-cases (is_unsafe (some rel))) [
          | inl bad ↦ absurd (ground (arith, found))
          | inr safe ↦
              let same : to ≡ out = ground (arith, found) in
              subst (IsInside from) same (
                IsInside-rel from to rel (same_root_eq from.rooted to.rooted root)
                  (clean-IsLed (join_raw base archive_path)) found safe)
        ]
      ]
    ]
