-- ===== src/Files.antt =====
-- The operating system's files, as tsync/storage.go and tsync/restore.go use them, and the pattern
-- that both follow: a temporary file is filled, synced, closed and renamed into place, or removed.
pub mod Publish
use t_sync_sdk_go.Base.{
  ℕ, ◌≡◌, ◌≢◌, Bool, true, false, Option, none, some, [], ◌∷◌, ◌++◌, ℤ, pos, length,
}
use t_sync_sdk_go.Base.Bytes.{Bytes, has_prefix}
use t_sync_sdk_go.Errors.{GoError, Result, ok, err}
use t_sync_sdk_go.Names.{base}

-- What `os.Stat` tells: whether the file is a regular one, and its size.
pub record FileStat : Type 0 where
  pub is_regular : Bool
  pub size : ℤ

-- The calls of package os, and those of an open file.
pub record FileSystem : Type 1 where
  pub State : Type 0
  pub Handle : Type 0
  pub name : Handle → Bytes
  pub read_file : State → Bytes → Result Bytes
  pub stat : State → Bytes → Result FileStat
  pub mkdir_all : State → Bytes → State × Option GoError
  pub create_temp : State → Bytes → Bytes → State × Result Handle
  pub write : State → Handle → Bytes → State × Option GoError
  pub chmod : State → Handle → State × Option GoError
  pub sync : State → Handle → State × Option GoError
  pub close : State → Handle → State × Option GoError
  pub rename : State → Bytes → Bytes → State × Option GoError
  pub remove : State → Bytes → State × Option GoError
  pub sync_dir : State → Bytes → State × Option GoError

-- `if err != nil { return err }` between two calls.
abbrev pub and_also :
    {T : Type 0} → T × Option GoError → (T → T × Option GoError) → T × Option GoError
and_also (s, none) rest = rest s
and_also (s, some e) rest = (s, some e)

-- `describe` is what the caller makes of an error of `Close` or `Rename`.
module _ (F : FileSystem) (describe : GoError → GoError) where
  -- What is left after an error: the file is removed, whatever comes of that.
  abbrev pub discard_if_failed : F.Handle → F.State × Option GoError → F.State × Option GoError
  discard_if_failed w (s, none) = (s, none)
  discard_if_failed w (s, some e) = ((F.remove s (F.name w)).0, some (describe e))

  -- Close, and rename into place.
  abbrev pub close_and_rename : F.Handle → Bytes → F.State → F.State × Option GoError
  close_and_rename w final s = and_also (F.close s w) (λ s'. F.rename s' (F.name w) final)

  -- The end of a temporary file that is still open, after the calls that prepare it.
  abbrev pub publish : F.Handle → Bytes → F.State × Option GoError → F.State × Option GoError
  publish w final (s, some e) = ((F.remove (F.close s w).0 (F.name w)).0, some e)
  publish w final (s, none) = discard_if_failed w (close_and_rename w final s)

-- What the operating system promises of these calls, as to what `read_file` gives.
pub record KeepsFiles (F : FileSystem) : Type 0 where
  pub read-mkdir : (s : F.State) (d q : Bytes) → F.read_file (F.mkdir_all s d).0 q ≡ F.read_file s q
  pub created_name :
      (s : F.State) (d pattern : Bytes) (w : F.Handle)
      → (F.create_temp s d pattern).1 ≡ ok w
      → has_prefix (base (F.name w)) pattern ≡ true
  pub created_empty :
      (s : F.State) (d pattern : Bytes) (w : F.Handle)
      → (F.create_temp s d pattern).1 ≡ ok w
      → F.read_file (F.create_temp s d pattern).0 (F.name w) ≡ ok []
  pub read-create :
      (s : F.State) (d pattern q : Bytes)
      → has_prefix (base q) pattern ≡ false
      → F.read_file (F.create_temp s d pattern).0 q ≡ F.read_file s q
  pub written :
      (s : F.State) (w : F.Handle) (b old : Bytes)
      → (F.write s w b).1 ≡ none
      → F.read_file s (F.name w) ≡ ok old
      → F.read_file (F.write s w b).0 (F.name w) ≡ ok (old ++ b)
  pub read-write :
      (s : F.State) (w : F.Handle) (b q : Bytes)
      → q ≢ F.name w
      → F.read_file (F.write s w b).0 q ≡ F.read_file s q
  pub read-chmod :
      (s : F.State) (w : F.Handle) (q : Bytes) → F.read_file (F.chmod s w).0 q ≡ F.read_file s q
  pub read-sync :
      (s : F.State) (w : F.Handle) (q : Bytes) → F.read_file (F.sync s w).0 q ≡ F.read_file s q
  pub read-close :
      (s : F.State) (w : F.Handle) (q : Bytes) → F.read_file (F.close s w).0 q ≡ F.read_file s q
  pub renamed :
      (s : F.State) (from to : Bytes)
      → (F.rename s from to).1 ≡ none
      → F.read_file (F.rename s from to).0 to ≡ F.read_file s from
  pub read-rename :
      (s : F.State) (from to q : Bytes)
      → q ≢ from
      → q ≢ to
      → F.read_file (F.rename s from to).0 q ≡ F.read_file s q
  pub not_renamed :
      (s : F.State) (from to q : Bytes) (e : GoError)
      → (F.rename s from to).1 ≡ some e
      → F.read_file (F.rename s from to).0 q ≡ F.read_file s q
  pub read-remove :
      (s : F.State) (p q : Bytes) → q ≢ p → F.read_file (F.remove s p).0 q ≡ F.read_file s q
  pub stat_size :
      (s : F.State) (p b : Bytes) (st : FileStat)
      → F.stat s p ≡ ok st
      → F.read_file s p ≡ ok b
      → st.size ≡ pos (length b)
  pub read-sync_dir :
      (s : F.State) (d q : Bytes) → F.read_file (F.sync_dir s d).0 q ≡ F.read_file s q
