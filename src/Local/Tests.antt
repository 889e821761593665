-- ===== src/Local/Tests.antt =====
-- Tests of the local storage.
use native.Mathlib.Decide.{ℕ_discrete}
use t_sync_sdk_go.Base.{
  ◌≡◌, refl, true, false, none, List, [], ◌∷◌, pos, decide_lists, Bytes-discrete,
}
use t_sync_sdk_go.Base.Bytes.{Bytes, codes, split, join, has_prefix}
use t_sync_sdk_go.Base.Dict.{Dict}
use t_sync_sdk_go.Errors.{ok}
use t_sync_sdk_go.Names.{base, last_part_of}
use t_sync_sdk_go.Paths.{clean, clean_onto, reverse_onto, render, rel_parts}
use t_sync_sdk_go.Local.{resolve_path, local_write}
use t_sync_sdk_go.Local.Atomic.{IsAtomic, IsVisible, local_write-IsAtomic}
use t_sync_sdk_go.Local.Listing.{DirEntry, rel, visit, walk_dir, local_list}
use t_sync_sdk_go.Local.Listing.Listed.{AreListed, local_list-AreListed}
use t_sync_sdk_go.Metadata.{FileInfo}
use t_sync_sdk_go.Sample.System.{disk, disk-KeepsFiles}

abbrev old_disk : Dict Bytes Bytes
old_disk = (codes "/store/a", codes "old") ∷ []

visible : IsVisible (resolve_path disk (codes "/store") (codes "a"))
unfolding resolve_path clean clean_onto reverse_onto render split join base last_part_of has_prefix
    Bytes-discrete decide_lists ℕ_discrete
visible = refl

local_write-IsAtomic_example :
    IsAtomic disk old_disk
      (resolve_path disk (codes "/store") (codes "a"))
      (codes "new")
      (local_write disk (codes "/store") none none (codes "a") (codes "new") old_disk)
local_write-IsAtomic_example =
    local_write-IsAtomic disk (codes "/store") disk-KeepsFiles none none (codes "a") (codes "new")
      old_disk visible

abbrev entry : Bytes → DirEntry
entry path = record {
  path = path;
  is_dir = false;
  is_regular = true;
  failure = none;
  ctx = none;
  info = ok (pos 3, 1);
}

-- A file, and the temporary file of a write to it.
abbrev two_entries : List DirEntry
two_entries = entry (codes "/store/a") ∷ entry (codes "/store/.tsync-tmp-a-1") ∷ []

abbrev file_a : FileInfo
file_a = record { name = codes "a"; size = pos 3; last_modified = 1 }

lists : local_list disk (codes "/store") (λ s d. two_entries) none old_disk [] ≡ ok (file_a ∷ [])
unfolding local_list walk_dir visit rel clean clean_onto reverse_onto rel_parts split join base
    last_part_of has_prefix Bytes-discrete decide_lists ℕ_discrete
lists = refl

local_list-AreListed_example : AreListed (codes "/store") [] two_entries (file_a ∷ [])
local_list-AreListed_example =
    local_list-AreListed disk (codes "/store") (λ s d. two_entries) none old_disk [] (file_a ∷ [])
      lists
