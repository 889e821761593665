-- ===== src/Local/Listing.antt =====
-- tsync/storage.go: `LocalStorage.List`, `OpenReader` and `OpenWriter`. What `filepath.WalkDir` visits
-- is a parameter: the entries in its order, each with the errors that come with it.
pub mod Shown
pub mod Listed
use mathlib.Core.List.{append_assoc}
use t_sync_sdk_go.Base.{
  ◌≢◌, ◌⊎◌, sym, ap, ◌∙◌, ==_self, ℕ, ◌≡◌, refl, inl, inr, Bool, true, false, ◌&&◌, ◌||◌, not,
  Option, none, some, List, [], ◌∷◌, ◌++◌, arith, All, Bool-cases, ◌==◌, subst, Option-cases,
  bytes_eq, if◌then◌else◌, ℤ, pos,
}
use t_sync_sdk_go.Base.Bytes.{Bytes, codes, has_prefix, ends_in_slash, join, slash}
use t_sync_sdk_go.Errors.{
  GoError, is, plain, file_not_exist, Result, ok, err, ◌>>=◌, bind_ok, Result-cases,
}
use t_sync_sdk_go.Streams.{Reader, whole}
use t_sync_sdk_go.Metadata.{FileInfo}
use t_sync_sdk_go.Names.{base}
use t_sync_sdk_go.Paths.{clean, rel_parts, same_root}
use t_sync_sdk_go.Files.{FileSystem}
use t_sync_sdk_go.Local.{
  local_err, local_temp_prefix, unless_cancelled, resolve_path, dir_of_path, AtomicWriter,
  open_atomic_writer,
}

-- What `WalkDir` gives its callback: the path, what kind of file it is, the error of the walk, what
-- the context says, and `Info`, with the size and the time. The entry's `Name` is the path's base.
pub record DirEntry : Type 0 where
  pub path : Bytes
  pub is_dir : Bool
  pub is_regular : Bool
  pub failure : Option GoError
  pub ctx : Option GoError
  pub info : Result (ℤ × ℕ)

abbrev rel_string : Option (List Bytes) → Result Bytes
rel_string none = err plain
rel_string (some []) = ok (codes ".")
rel_string (some (p ∷ ps)) = ok (join (p ∷ ps))

-- `filepath.Rel`
unfoldable pub rel : Bytes → Bytes → Result Bytes
unfolding clean rel_parts join
rel root path =
    if same_root (clean root).rooted (clean path).rooted
    then rel_string (rel_parts (clean root).parts (clean path).parts)
    else err plain

-- Whether an entry is passed over: the root, what is neither a file nor a folder, and the temporary
-- files of writes.
abbrev pub is_hidden : DirEntry → Bytes → Bool
is_hidden e path =
    (path == codes "." || path == [])
    || (not e.is_regular && not e.is_dir)
    || (not e.is_dir && has_prefix (base e.path) local_temp_prefix)

abbrev pub shown_name : DirEntry → Bytes → Bytes
shown_name e path = if e.is_dir then path ++ slash ∷ [] else path

abbrev pub info_of : DirEntry → Bytes → ℤ × ℕ → FileInfo
info_of e path (size, time) = record {
  name = shown_name e path;
  size = if e.is_dir then pos 0 else size;
  last_modified = time;
}

abbrev pub shown : DirEntry → Bytes → Result (ℤ × ℕ) → Result (Option FileInfo)
shown e path (err x) = err x
shown e path (ok info) = ok (some (info_of e path info))

-- The callback of an entry that has been visited without error: what it lists.
abbrev pub visited : Bytes → DirEntry → Bytes → Result (Option FileInfo)
visited prefix e path =
    if is_hidden e path
    then ok none
    else if has_prefix (shown_name e path) prefix
    then shown e path e.info
    else ok none

abbrev pub unless_failed : {A : Type 0} → Option GoError → Result A → Result A
unless_failed none r = r
unless_failed (some x) r = err x

-- The callback.
unfoldable pub visit : Bytes → Bytes → DirEntry → Result (Option FileInfo)
unfolding rel
visit root prefix e =
    unless_failed e.failure (unless_failed e.ctx (rel root e.path >>= visited prefix e))

abbrev pub listed :
    Result (Option FileInfo) → List FileInfo × Option GoError → List FileInfo × Option GoError
listed (err x) rest = ([], some x)
listed (ok none) rest = rest
listed (ok (some f)) rest = (f ∷ rest.0, rest.1)

-- The walk: the files up to its end or to its first error.
unfoldable pub walk_dir : Bytes → Bytes → List DirEntry → List FileInfo × Option GoError
unfolding visit
walk_dir root prefix [] = ([], none)
walk_dir root prefix (e ∷ es) =
    let rest = walk_dir root prefix es in listed (visit root prefix e) rest

-- A folder that is not there has no files.
abbrev pub after_walk : List FileInfo × Option GoError → Result (List FileInfo)
after_walk (files, none) = ok files
after_walk (files, some x) = if is x file_not_exist then ok files else err x

module _ (F : FileSystem) (root_dir : Bytes) (walk : F.State → Bytes → List DirEntry) where
  -- The folder that is walked.
  unfoldable pub search_dir : Bytes → Bytes
  unfolding resolve_path dir_of_path ends_in_slash
  search_dir prefix =
      if not (ends_in_slash prefix) && not (prefix == [])
      then dir_of_path F root_dir (resolve_path F root_dir prefix)
      else resolve_path F root_dir prefix

  -- `LocalStorage.List`
  unfoldable pub local_list : Option GoError → F.State → Bytes → Result (List FileInfo)
  unfolding search_dir walk_dir
  local_list ctx s prefix =
      unless_cancelled ctx (after_walk (walk_dir root_dir prefix (walk s (search_dir prefix))))

  abbrev opened : Result Bytes → Result Reader
  opened (ok b) = ok (whole b)
  opened (err e) = err (local_err e)

  -- `LocalStorage.OpenReader`
  unfoldable pub local_open_reader : Option GoError → F.State → Bytes → Result Reader
  unfolding resolve_path local_err
  local_open_reader ctx s path =
      unless_cancelled ctx (opened (F.read_file s (resolve_path F root_dir path)))

  -- `LocalStorage.OpenWriter`
  unfoldable pub local_open_writer :
      Option GoError → Bytes → F.State → F.State × Result (AtomicWriter F root_dir)
  unfolding open_atomic_writer
  local_open_writer (some e) path s = (s, err e)
  local_open_writer none path s = open_atomic_writer F root_dir path s
