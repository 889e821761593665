-- ===== src/Writer/Sizes.antt =====
-- `partSizeFor` and how much fits into the parts that a provider takes.
use t_sync_sdk_go.Base.{
  ℕ, zero, suc, ◌+◌, ◌-◌, ◌*◌, ◌/◌, ◌^◌, ◌≤◌, ◌<◌, min, ◌≡◌, arith, ltb, Bool-cases, inl, inr,
}
use native.Mathlib.Nat.{pow-suc}
use t_sync_sdk_go.Writer.{
  initial_part_size, max_part_size, part_size_step, max_multipart_parts, doubled, part_size_for,
}

power_pos : (k : ℕ) → 1 ≤ 2 ^ k
power_pos zero = omega arith
power_pos (suc k) = rw (pow-suc 2 k) (omega (arith, power_pos k))

le_product : (a b : ℕ) → 1 ≤ b → a ≤ a * 2 * b
le_product a b h = grind arith

min-doubled :
    (shift size : ℕ) → min (doubled shift size) max_part_size ≡ min (size * 2 ^ shift) max_part_size
unfolding doubled
min-doubled zero size = omega arith
min-doubled (suc shift) size =
    let power : 2 ^ suc shift ≡ 2 ^ shift * 2 = pow-suc 2 shift in
    let product : size * 2 ^ suc shift ≡ size * 2 * 2 ^ shift = grind (arith, power) in
    elim (Bool-cases (ltb size max_part_size)) [
      | inl below ↦ rw (below, product) (min-doubled shift (size * 2))
      | inr above ↦ rw above (ground (arith, power_pos shift, product, le_product size (2 ^ shift)))
    ]

-- The part size is 8 MiB, doubled once for each 1,000 parts before, and cut to 5 GiB.
pub part_size_for_lem :
    (n : ℕ)
    → part_size_for n ≡ min (initial_part_size * 2 ^ ((n - 1) / part_size_step)) max_part_size
unfolding part_size_for
part_size_for_lem n = min-doubled ((n - 1) / part_size_step) initial_part_size

doubled-ge : (shift size : ℕ) → size ≤ doubled shift size
unfolding doubled
doubled-ge zero size = omega arith
doubled-ge (suc shift) size = ground (arith, doubled-ge shift (size * 2))

-- Every part size lies between 8 MiB and the provider's limit of 5 GiB.
pub part_size_for_bounds :
    (n : ℕ) → (initial_part_size ≤ part_size_for n) × (part_size_for n ≤ max_part_size)
unfolding part_size_for
part_size_for_bounds n = omega (arith, doubled-ge ((n - 1) / part_size_step) initial_part_size)

-- The bytes in full parts 1 to n.
unfoldable pub capacity : ℕ → ℕ
capacity zero = 0
capacity (suc n) = capacity n + part_size_for (suc n)

-- The parts that a provider takes hold more than an object of 5 TiB, the largest that it takes.
pub capacity_over : 5 * 2 ^ 40 < capacity max_multipart_parts
unfolding capacity part_size_for doubled
capacity_over = omega arith
