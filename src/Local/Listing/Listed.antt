-- ===== src/Local/Listing/Listed.antt =====
-- What `LocalStorage.List` makes of the entries of a walk, one by one.
use t_sync_sdk_go.Base.{
  ℕ, ◌≡◌, refl, inl, inr, true, false, Option, none, some, List, [], ◌∷◌, arith, Bool-cases, subst,
  bytes_eq, ℤ,
}
use t_sync_sdk_go.Base.Bytes.{Bytes, has_prefix}
use t_sync_sdk_go.Errors.{GoError, is, file_not_exist, Result, ok, err, ◌>>=◌}
use t_sync_sdk_go.Metadata.{FileInfo}
use t_sync_sdk_go.Files.{FileSystem}
use t_sync_sdk_go.Local.Listing.{
  DirEntry, rel, is_hidden, shown_name, shown, visited, visit, listed, walk_dir, unless_failed,
  after_walk, search_dir, local_list,
}
use t_sync_sdk_go.Local.Listing.Shown.{
  IsFailure, of_walk, of_context, of_path, of_info, IsShown, IsPassed, is_hidden-IsOfKind,
  visible-not_root, is_hidden-IsPassed, shown_name-IsPassed,
}

-- What is asked of the listing of a walk: each entry is listed, or passed over for a reason, in their
-- order, up to the end or to an error that says that a file does not exist.
pub data AreListed (root prefix : Bytes) : List DirEntry → List FileInfo → Type 0 where
  at_end : AreListed root prefix [] []
  gone :
      (e : DirEntry) (es : List DirEntry) (x : GoError)
      → IsFailure root e x
      → is x file_not_exist ≡ true
      → AreListed root prefix (e ∷ es) []
  pass :
      (e : DirEntry) (es : List DirEntry) (infos : List FileInfo)
      → IsPassed root prefix e
      → AreListed root prefix es infos
      → AreListed root prefix (e ∷ es) infos
  show :
      (e : DirEntry) (es : List DirEntry) (f : FileInfo) (infos : List FileInfo)
      → IsShown root prefix e f
      → AreListed root prefix es infos
      → AreListed root prefix (e ∷ es) (f ∷ infos)

-- What the callback has done with an entry.
abbrev IsVisited : Bytes → Bytes → DirEntry → Result (Option FileInfo) → Type 0
IsVisited root prefix e (err x) = IsFailure root e x
IsVisited root prefix e (ok none) = IsPassed root prefix e
IsVisited root prefix e (ok (some f)) = IsShown root prefix e f

shown-IsVisited :
    (root prefix : Bytes) (e : DirEntry) (path : Bytes)
    → rel root e.path ≡ ok path
    → is_hidden e path ≡ false
    → has_prefix (shown_name e path) prefix ≡ true
    → (r : Result (ℤ × ℕ)) → e.info ≡ r
    → IsVisited root prefix e (shown e path r)
shown-IsVisited root prefix e path at visible starts (err x) got = of_info got
shown-IsVisited root prefix e path at visible starts (ok (size, time)) got = record {
  path = path;
  rel_eq = at;
  not_root = visible-not_root e path visible;
  size = size;
  info_eq = got;
  kind = is_hidden-IsOfKind e path size time visible;
  within = starts;
}

visited-IsVisited :
    (root prefix : Bytes) (e : DirEntry) (path : Bytes)
    → rel root e.path ≡ ok path
    → IsVisited root prefix e (visited prefix e path)
visited-IsVisited root prefix e path at = elim (Bool-cases (is_hidden e path)) [
  | inl hidden ↦ rw hidden (is_hidden-IsPassed root prefix e path at hidden)
  | inr visible ↦ elim (Bool-cases (has_prefix (shown_name e path) prefix)) [
    | inr other ↦ rw (visible, other) (shown_name-IsPassed root prefix e path at other)
    | inl starts ↦
        rw (visible, starts) (shown-IsVisited root prefix e path at visible starts e.info refl)
  ]
]

unless_failed-IsVisited :
    (root prefix : Bytes) (e : DirEntry) (o : Option GoError) (r : Result (Option FileInfo))
    → ((x : GoError) → o ≡ some x → IsFailure root e x)
    → IsVisited root prefix e r
    → IsVisited root prefix e (unless_failed o r)
unless_failed-IsVisited root prefix e none r fails good = good
unless_failed-IsVisited root prefix e (some x) r fails good = fails x refl

visited_at-IsVisited :
    (root prefix : Bytes) (e : DirEntry) (r : Result Bytes)
    → rel root e.path ≡ r
    → IsVisited root prefix e (r >>= visited prefix e)
visited_at-IsVisited root prefix e (err x) astray = of_path astray
visited_at-IsVisited root prefix e (ok path) at = visited-IsVisited root prefix e path at

visit-IsVisited :
    (root prefix : Bytes) (e : DirEntry) → IsVisited root prefix e (visit root prefix e)
unfolding visit
visit-IsVisited root prefix e =
    let found = rel root e.path >>= visited prefix e in
    unless_failed-IsVisited root prefix e e.failure (unless_failed e.ctx found)
      (λ x failed. of_walk failed)
      (unless_failed-IsVisited root prefix e e.ctx found (λ x ended. of_context ended)
        (visited_at-IsVisited root prefix e (rel root e.path) refl))

listed-AreListed :
    (root prefix : Bytes) (e : DirEntry) (es : List DirEntry) (r : Result (Option FileInfo))
    (rest : List FileInfo × Option GoError) (infos : List FileInfo)
    → IsVisited root prefix e r
    → ((more : List FileInfo) → after_walk rest ≡ ok more → AreListed root prefix es more)
    → after_walk (listed r rest) ≡ ok infos
    → AreListed root prefix (e ∷ es) infos
listed-AreListed root prefix e es (err x) rest infos failed go_on h =
    elim (Bool-cases (is x file_not_exist)) [
      | inr other ↦ absurd (ground (arith, other))
      | inl missing ↦
          let same : [] ≡ infos = ground (arith, missing) in
          subst (AreListed root prefix (e ∷ es)) same (gone e es x failed missing)
    ]
listed-AreListed root prefix e es (ok none) rest infos passed go_on h =
    pass e es infos passed (go_on infos h)
listed-AreListed root prefix e es (ok (some f)) (files, none) infos shown_file go_on h =
    let same : f ∷ files ≡ infos = ground arith in
    subst (AreListed root prefix (e ∷ es)) same (show e es f files shown_file (go_on files refl))
listed-AreListed root prefix e es (ok (some f)) (files, some x) infos shown_file go_on h =
    elim (Bool-cases (is x file_not_exist)) [
      | inr other ↦ absurd (ground (arith, other))
      | inl missing ↦
          let same : f ∷ files ≡ infos = ground (arith, missing) in
          subst (AreListed root prefix (e ∷ es)) same
            (show e es f files shown_file (go_on files (rw missing refl)))
    ]

walk_dir-AreListed :
    (root prefix : Bytes) (es : List DirEntry) (infos : List FileInfo)
    → after_walk (walk_dir root prefix es) ≡ ok infos
    → AreListed root prefix es infos
unfolding walk_dir
walk_dir-AreListed root prefix [] infos h =
    let same : [] ≡ infos = ground arith in subst (AreListed root prefix []) same at_end
walk_dir-AreListed root prefix (e ∷ es) infos h =
    listed-AreListed root prefix e es (visit root prefix e) (walk_dir root prefix es) infos
      (visit-IsVisited root prefix e) (walk_dir-AreListed root prefix es) h

-- Whatever the walk gives, what `LocalStorage.List` returns is made of the walk's entries one by one,
-- in their order, up to the end or to an error that says that a file does not exist. An entry is
-- listed as a folder, with a slash at its end and the size 0, or as a regular file whose base name is
-- not that of a temporary file of a write, with its size; its name is the entry's path from the root
-- folder and starts with the prefix, and its time is the entry's. Or it is passed over, but only if
-- it is the root folder, neither a folder nor a regular file, such a temporary file, or has a name
-- that does not start with the prefix.
pub local_list-AreListed :
    (F : FileSystem) (root_dir : Bytes) (walk : F.State → Bytes → List DirEntry)
    (ctx : Option GoError) (s : F.State) (prefix : Bytes) (infos : List FileInfo)
    → local_list F root_dir walk ctx s prefix ≡ ok infos
    → AreListed root_dir prefix (walk s (search_dir F root_dir walk prefix)) infos
unfolding local_list
local_list-AreListed F root_dir walk (some x) s prefix infos h = absurd (ground arith)
local_list-AreListed F root_dir walk none s prefix infos h =
    walk_dir-AreListed root_dir prefix (walk s (search_dir F root_dir walk prefix)) infos h
