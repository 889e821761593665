-- ===== src/Base/Dict.antt =====
-- Go maps as association lists. The list's order is the order in which a `range` loop visits the
-- map, which Go leaves open: a theorem about every such list holds for every visiting order.
use t_sync_sdk_go.Base.{◌≡◌, refl, ap, Bool, true, false, Option, none, some, List, [], ◌∷◌, arith}
use t_sync_sdk_go.Base.{Eq, ◌==◌, if◌then◌else◌}
use mathlib.Core.List

abbrev pub Dict {ℓ κ} : Type ℓ → Type κ → Type (ℓ ⊔ κ)
Dict K V = List (K × V)

unfoldable pub keys {ℓ κ} : {K : Type ℓ} {V : Type κ} → Dict K V → List K
keys = List.map (λ (k, _). k)

module _ {ℓ κ} {K : Type ℓ} {V : Type κ} ⦃e : Eq K⦄ where
  unfoldable pub lookup : K → Dict K V → Option V
  lookup k [] = none
  lookup k ((j, v) ∷ d) = if k == j then some v else lookup k d

  -- `m[k] = v`
  unfoldable pub insert : K → V → Dict K V → Dict K V
  insert k v [] = (k, v) ∷ []
  insert k v ((j, w) ∷ d) = if k == j then (k, v) ∷ d else (j, w) ∷ insert k v d

  -- `delete(m, k)`
  unfoldable pub erase : K → Dict K V → Dict K V
  erase k [] = []
  erase k ((j, w) ∷ d) = let rest = erase k d in if k == j then rest else (j, w) ∷ rest

  -- Whether a key is present: the second result of `v, ok := m[k]`.
  unfoldable pub has : K → Dict K V → Bool
  has k [] = false
  has k ((j, _) ∷ d) = if k == j then true else has k d

  -- The entries whose key passes the test.
  unfoldable pub keep : (K → Bool) → Dict K V → Dict K V
  keep p [] = []
  keep p ((j, w) ∷ d) = let rest = keep p d in if p j then (j, w) ∷ rest else rest

  -- `maps.Copy(dst, src)`
  unfoldable pub copy : Dict K V → Dict K V → Dict K V
  copy dst [] = dst
  copy dst ((k, v) ∷ src) = copy (insert k v dst) src

  abbrev pub NodupKeys : Dict K V → Type κ
  NodupKeys [] = Unit
  NodupKeys ((k, _) ∷ d) = (lookup k d ≡ none) × NodupKeys d

  pub lookup-nil : (k : K) → lookup k [] ≡ none
  unfolding lookup
  lookup-nil k = refl

  pub lookup-cons :
      (j k : K) (v : V) (d : Dict K V)
      → lookup j ((k, v) ∷ d) ≡ (if j == k then some v else lookup j d)
  unfolding lookup
  lookup-cons j k v d = refl

  pub lookup-insert :
      (j k : K) (v : V) (d : Dict K V)
      → lookup j (insert k v d) ≡ (if j == k then some v else lookup j d)
  unfolding insert lookup
  lookup-insert j k v [] = refl
  lookup-insert j k v (_ ∷ d) = ground (arith, lookup-insert j k v d)

  pub lookup-erase :
      (j k : K) (d : Dict K V) → lookup j (erase k d) ≡ (if j == k then none else lookup j d)
  unfolding erase lookup
  lookup-erase j k [] = ground arith
  lookup-erase j k (_ ∷ d) = ground (arith, lookup-erase j k d)

  pub lookup-keep :
      (j : K) (p : K → Bool) (d : Dict K V)
      → lookup j (keep p d) ≡ (if p j then lookup j d else none)
  unfolding keep lookup
  lookup-keep j p [] = ground arith
  lookup-keep j p (_ ∷ d) = ground (arith, lookup-keep j p d)

  pub has-lookup :
      (k : K) (d : Dict K V) → has k d ≡ (elim (lookup k d) [ none ↦ false | some _ ↦ true ])
  unfolding has lookup
  has-lookup k [] = refl
  has-lookup k (_ ∷ d) = ground (arith, has-lookup k d)

  -- A copied entry wins over an older one, and among two copies of one key the later wins.
  pub lookup-copy_absent :
      (j : K) (dst src : Dict K V) → lookup j src ≡ none → lookup j (copy dst src) ≡ lookup j dst
  unfolding copy lookup
  lookup-copy_absent j dst [] h = refl
  lookup-copy_absent j dst ((k, v) ∷ src) h =
      ground (arith, lookup-copy_absent j (insert k v dst) src, lookup-insert j k v dst)

  pub has-insert :
      (j k : K) (v : V) (d : Dict K V) → has j (insert k v d) ≡ (if j == k then true else has j d)
  unfolding has insert
  has-insert j k v [] = refl
  has-insert j k v (_ ∷ d) = ground (arith, has-insert j k v d)

  pub insert-NodupKeys : (k : K) (v : V) (d : Dict K V) → NodupKeys d → NodupKeys (insert k v d)
  unfolding insert
  insert-NodupKeys k v [] _ = (lookup-nil k, tt)
  insert-NodupKeys k v ((j, _) ∷ d) (fresh, u) =
      ground (arith, insert-NodupKeys k v d u, lookup-insert j k v d)

  -- A copied entry wins over an older one.
  pub lookup-copy :
      (j : K) (dst src : Dict K V)
      → NodupKeys src
      → lookup j (copy dst src) ≡ (elim (lookup j src) [ none ↦ lookup j dst | some v ↦ some v ])
  unfolding copy lookup
  lookup-copy j dst [] u = refl
  lookup-copy j dst ((k, v) ∷ src) (fresh, u) = elim (e.dec j k) [
    | yes same ↦ ground (
      arith,
      lookup-copy j (insert k v dst) src u,
      lookup-insert j k v dst,
      ap (λ z. lookup z src) same,
    )
    | no other ↦ ground (arith, lookup-copy j (insert k v dst) src u, lookup-insert j k v dst)
  ]
