-- ===== src/Local.antt =====
-- tsync/storage.go: `LocalStorage` and its atomic writer, over the operating system's files. What
-- the context says at a call is an argument of the call.
pub mod Atomic
pub mod Listing
mod Tests
use t_sync_sdk_go.Base.{
  ℕ, ◌≡◌, Bool, true, false, Option, none, some, [], ◌∷◌, ◌++◌, if◌then◌else◌, ℤ, pos, negsuc,
  length, take, drop,
}
use t_sync_sdk_go.Base.Bytes.{Bytes, codes}
use t_sync_sdk_go.Errors.{
  GoError, sentinel, both, is, not_found, writer_closed, file_not_exist, Result, ok, err, ◌>>=◌,
}
use t_sync_sdk_go.Streams.{Reader, whole}
use t_sync_sdk_go.Names.{base}
use t_sync_sdk_go.Paths.{CleanPath, clean, join_raw, render, without_last}
use t_sync_sdk_go.Files.{FileSystem, and_also, publish}

-- `localErr`
unfoldable pub local_err : GoError → GoError
local_err e = if is e file_not_exist then both (sentinel not_found) e else e

abbrev pub local_temp_prefix : Bytes
local_temp_prefix = codes ".tsync-tmp-"

-- The pattern of the temporary files for a path, before its random part.
abbrev pub temp_pattern : Bytes → Bytes
temp_pattern full = local_temp_prefix ++ (base full ++ codes "-")

-- `ctx.Err()` at the start of a call.
abbrev pub unless_cancelled : {A : Type 0} → Option GoError → Result A → Result A
unless_cancelled none rest = rest
unless_cancelled (some e) rest = err e

abbrev pub refuse : {T : Type 0} → T → Option GoError → T × Option GoError → T × Option GoError
refuse s none rest = rest
refuse s (some e) rest = (s, some e)

module _ (F : FileSystem) (root_dir : Bytes) where
  -- `resolvePath`
  unfoldable pub resolve_path : Bytes → Bytes
  unfolding clean render
  resolve_path path = render (clean (join_raw root_dir path))

  -- `filepath.Dir`
  unfoldable pub dir_of_path : Bytes → Bytes
  unfolding clean render without_last
  dir_of_path path = render (without_last (clean path))

  abbrev located : {A : Type 0} → Result A → Result A
  located (ok a) = ok a
  located (err e) = err (local_err e)

  -- `LocalStorage.Exists`
  unfoldable pub local_exists : Option GoError → F.State → Bytes → Result Bool
  unfolding resolve_path
  local_exists ctx s path = unless_cancelled ctx (elim (F.stat s (resolve_path path)) [
    | ok st ↦ ok true
    | err e ↦ if is e file_not_exist then ok false else err e
  ])

  -- `LocalStorage.Read`
  unfoldable pub local_read : Option GoError → F.State → Bytes → Result Bytes
  unfolding resolve_path local_err
  local_read ctx s path = unless_cancelled ctx (located (F.read_file s (resolve_path path)))

  -- `LocalStorage.Size`
  unfoldable pub local_size : Option GoError → F.State → Bytes → Result ℤ
  unfolding resolve_path local_err
  local_size ctx s path =
      unless_cancelled ctx (located (F.stat s (resolve_path path)) >>= (λ st. ok st.size))

  -- The bytes from an offset on, as many as a length says, or all if it is negative.
  abbrev pub cut : ℤ → ℤ → Bytes → Bytes
  cut (pos start) (pos n) b = take n (drop start b)
  cut (pos start) (negsuc n) b = drop start b
  cut (negsuc start) (pos n) b = take n b
  cut (negsuc start) (negsuc m) b = b

  -- `LocalStorage.ReadRange`; only a positive offset is sought.
  unfoldable pub local_read_range : Option GoError → F.State → Bytes → ℤ → ℤ → Result Reader
  unfolding resolve_path local_err
  local_read_range ctx s path start n =
      unless_cancelled ctx
        (located (F.read_file s (resolve_path path)) >>= (λ b. ok (whole (cut start n b))))

  abbrev unless_missing : Option GoError → Option GoError
  unless_missing none = none
  unless_missing (some e) = if is e file_not_exist then none else some e

  -- `LocalStorage.Delete`
  unfoldable pub local_delete : Option GoError → Bytes → F.State → F.State × Option GoError
  unfolding resolve_path
  local_delete ctx path s =
      let (s', e) = F.remove s (resolve_path path) in refuse s ctx (s', unless_missing e)

  -- `localAtomicWriter`
  pub record AtomicWriter : Type 0 where
    pub handle : F.Handle
    pub final_path : Bytes
    pub closed : Bool

  abbrev pub opened : Bytes → F.State × Result F.Handle → F.State × Result AtomicWriter
  opened full (s, err e) = (s, err e)
  opened full (s, ok w) = (s, ok (record { handle = w; final_path = full; closed = false }))

  abbrev pub after_mkdir : Bytes → F.State × Option GoError → F.State × Result AtomicWriter
  after_mkdir path (s, some e) = (s, err e)
  after_mkdir path (s, none) =
      opened (resolve_path path)
        (F.create_temp s (dir_of_path (resolve_path path)) (temp_pattern (resolve_path path)))

  -- `openAtomicWriter`
  unfoldable pub open_atomic_writer : Bytes → F.State → F.State × Result AtomicWriter
  unfolding resolve_path dir_of_path
  open_atomic_writer path s = after_mkdir path (F.mkdir_all s (dir_of_path (resolve_path path)))

  -- `localAtomicWriter.Write`
  unfoldable pub writer_write :
      Option GoError → AtomicWriter → Bytes → F.State → F.State × Option GoError
  writer_write ctx w p s =
      if w.closed then (s, some (sentinel writer_closed)) else refuse s ctx (F.write s w.handle p)

  -- The calls of `Close` before the temporary file is closed.
  abbrev pub before_close : Option GoError → F.Handle → F.State → F.State × Option GoError
  before_close ctx w s = refuse s ctx (F.sync s w)

  -- The sync of the folder after a rename, whose failure does not count.
  abbrev pub dir_synced : Bytes → F.State × Option GoError → F.State × Option GoError
  dir_synced final (s, none) = ((F.sync_dir s (dir_of_path final)).0, none)
  dir_synced final (s, some e) = (s, some e)

  -- `localAtomicWriter.Close`
  unfoldable pub writer_close :
      Option GoError → AtomicWriter → F.State → (F.State × Option GoError) × AtomicWriter
  unfolding dir_of_path
  writer_close ctx w s = if w.closed then ((s, none), w) else (
    dir_synced w.final_path
        (publish F (λ e. e) w.handle w.final_path (before_close ctx w.handle s)),
    record w { closed = true },
  )

  -- `localAtomicWriter.Abort`
  unfoldable pub writer_abort : AtomicWriter → F.State → (F.State × Option GoError) × AtomicWriter
  writer_abort w s =
      let (s1, close_error) = F.close s w.handle in
      let (s2, e) = F.remove s1 (F.name w.handle) in
      if w.closed then ((s, none), w) else (
        (s2, elim (unless_missing e) [ some x ↦ some x | none ↦ close_error ]),
        record w { closed = true },
      )

  abbrev pub written_then_closed :
      Option GoError → AtomicWriter → F.State × Option GoError → F.State × Option GoError
  written_then_closed ctx w (s, some e) = ((writer_abort w s).0.0, some e)
  written_then_closed ctx w (s, none) = (writer_close ctx w s).0

  abbrev pub write_opened :
      Option GoError → Bytes → F.State × Result AtomicWriter → F.State × Option GoError
  write_opened ctx d (s, err e) = (s, some e)
  write_opened ctx d (s, ok w) = written_then_closed ctx w (F.write s w.handle d)

  -- `LocalStorage.Write`, with what the context says at its start and in `Close`.
  unfoldable pub local_write :
      Option GoError → Option GoError → Bytes → Bytes → F.State → F.State × Option GoError
  unfolding open_atomic_writer writer_close writer_abort
  local_write ctx ctx_close path d s =
      refuse s ctx (write_opened ctx_close d (open_atomic_writer path s))
