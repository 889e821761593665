-- ===== src/Paths/Tests.antt =====
-- Tests of the paths of a restore.
use native.Mathlib.Decide.{ℕ_discrete}
use t_sync_sdk_go.Base.{◌≡◌, refl, true, [], ◌∷◌, decide_lists, Bytes-discrete}
use t_sync_sdk_go.Base.Bytes.{codes, split}
use t_sync_sdk_go.Errors.{sentinel, wrap, unsafe_path, ok, err}
use t_sync_sdk_go.Paths.{
  CleanPath, clean, clean_onto, reverse_onto, rel_parts, rel_escapes_base, safe_path, safe_join,
}
use t_sync_sdk_go.Paths.Inside.{IsInside, safe_path-IsInside}

abbrev inner : CleanPath
inner = record { rooted = true; parts = codes "out" ∷ codes "b" ∷ [] }

-- A path that climbs and stays inside.
inner_path : safe_path (codes "/out") (codes "a/../b") ≡ ok inner
unfolding safe_path clean clean_onto reverse_onto rel_parts rel_escapes_base split Bytes-discrete
    decide_lists ℕ_discrete
inner_path = refl

-- A path that climbs out.
climbs_out : safe_join (codes "/out") (codes "a/../../b") ≡ err (wrap (sentinel unsafe_path))
unfolding safe_join safe_path clean clean_onto reverse_onto rel_parts rel_escapes_base split
    Bytes-discrete decide_lists ℕ_discrete
climbs_out = refl

safe_path-IsInside_example : IsInside (clean (codes "/out")) inner
safe_path-IsInside_example = safe_path-IsInside (codes "/out") (codes "a/../b") inner inner_path
