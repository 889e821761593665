-- ===== src/Local/Listing/Shown.antt =====
-- Which entries of a walk `LocalStorage.List` lists and which it passes over.
use t_sync_sdk_go.Base.{
  ◌≢◌, ◌⊎◌, ap, ◌∙◌, ==_self, ℕ, ◌≡◌, refl, inl, inr, Bool, true, false, some, [], ◌∷◌, ◌++◌, arith,
  Bool-cases, ◌==◌, bytes_eq, ℤ, pos,
}
use t_sync_sdk_go.Base.Bytes.{Bytes, codes, has_prefix, slash}
use t_sync_sdk_go.Errors.{GoError, ok, err}
use t_sync_sdk_go.Metadata.{FileInfo}
use t_sync_sdk_go.Names.{base}
use t_sync_sdk_go.Local.{local_temp_prefix}
use t_sync_sdk_go.Local.Listing.{DirEntry, rel, is_hidden, shown_name, info_of}

-- Whether `f` is the listing of a folder at `path`, or of a regular file there that is no temporary
-- file of a write.
abbrev pub IsOfKind : DirEntry → Bytes → ℤ → FileInfo → Type 0
IsOfKind e path size f =
    ((e.is_dir ≡ true) × (f.name ≡ path ++ slash ∷ []) × (f.size ≡ pos 0))
    ⊎ ((e.is_dir ≡ false)
        × (e.is_regular ≡ true)
        × (has_prefix (base e.path) local_temp_prefix ≡ false)
        × (f.name ≡ path)
        × (f.size ≡ size))

-- What is asked of a file that is listed for an entry: it has the entry's path from the root folder,
-- its size and time, and its name starts with the prefix.
pub record IsShown (root prefix : Bytes) (e : DirEntry) (f : FileInfo) : Type 0 where
  pub path : Bytes
  pub rel_eq : rel root e.path ≡ ok path
  pub not_root : path ≢ codes "."
  pub size : ℤ
  pub info_eq : e.info ≡ ok (size, f.last_modified)
  pub kind : IsOfKind e path size f
  pub within : has_prefix f.name prefix ≡ true

-- Why an entry is passed over: it is the root folder, neither a file nor a folder, a temporary file,
-- or a folder or file whose name does not start with the prefix.
pub data IsPassed (root prefix : Bytes) (e : DirEntry) : Type 0 where
  root_folder :
      (path : Bytes)
      → rel root e.path ≡ ok path
      → (path ≡ codes ".") ⊎ (path ≡ [])
      → IsPassed root prefix e
  other_kind : e.is_regular ≡ false → e.is_dir ≡ false → IsPassed root prefix e
  temporary :
      e.is_dir ≡ false → has_prefix (base e.path) local_temp_prefix ≡ true → IsPassed root prefix e
  folder_outside :
      (path : Bytes)
      → rel root e.path ≡ ok path
      → e.is_dir ≡ true
      → has_prefix (path ++ slash ∷ []) prefix ≡ false
      → IsPassed root prefix e
  file_outside :
      (path : Bytes)
      → rel root e.path ≡ ok path
      → e.is_dir ≡ false
      → has_prefix path prefix ≡ false
      → IsPassed root prefix e

-- An error at an entry: of the walk, of the context, of the path from the root, or of `Info`.
pub data IsFailure (root : Bytes) (e : DirEntry) (x : GoError) : Type 0 where
  of_walk : e.failure ≡ some x → IsFailure root e x
  of_context : e.ctx ≡ some x → IsFailure root e x
  of_path : rel root e.path ≡ err x → IsFailure root e x
  of_info : e.info ≡ err x → IsFailure root e x

pub is_hidden-IsOfKind :
    (e : DirEntry) (path : Bytes) (size : ℤ) (time : ℕ)
    → is_hidden e path ≡ false
    → IsOfKind e path size (info_of e path (size, time))
is_hidden-IsOfKind e path size time h = elim (Bool-cases e.is_dir) [
  | inl dir ↦ inl (dir, rw dir refl, rw dir refl)
  | inr file ↦ inr (file, ground (arith, file), ground (arith, file), rw file refl, rw file refl)
]

pub visible-not_root : (e : DirEntry) (path : Bytes) → is_hidden e path ≡ false → path ≢ codes "."
visible-not_root e path h root =
    let dot : (path == codes ".") ≡ true = ap (λ z. z == codes ".") root ∙ ==_self (codes ".") in
    absurd (bool_clash (is_hidden e path) (rw dot refl) h)
  where
    bool_clash : (b : Bool) → b ≡ true → b ≡ false → ⊥
    bool_clash b x y = ground arith

pub is_hidden-IsPassed :
    (root prefix : Bytes) (e : DirEntry) (path : Bytes)
    → rel root e.path ≡ ok path
    → is_hidden e path ≡ true
    → IsPassed root prefix e
is_hidden-IsPassed root prefix e path at h = elim (bytes_eq.dec path (codes ".")) [
  | yes dot ↦ root_folder path at (inl dot)
  | no named ↦ elim (bytes_eq.dec path []) [
    | yes empty ↦ root_folder path at (inr empty)
    | no some_path ↦ elim (Bool-cases e.is_dir) [
      | inl dir ↦ absurd (ground (arith, dir))
      | inr file ↦ elim (Bool-cases e.is_regular) [
        | inr other ↦ other_kind other file
        | inl regular ↦ temporary file (ground (arith, file, regular))
      ]
    ]
  ]
]

pub shown_name-IsPassed :
    (root prefix : Bytes) (e : DirEntry) (path : Bytes)
    → rel root e.path ≡ ok path
    → has_prefix (shown_name e path) prefix ≡ false
    → IsPassed root prefix e
shown_name-IsPassed root prefix e path at h = elim (Bool-cases e.is_dir) [
  | inl dir ↦ folder_outside path at dir (ground (arith, dir))
  | inr file ↦ file_outside path at file (ground (arith, file))
]
