-- ===== src/Base/Equality.antt =====
-- Go's `==` on the types whose equality can be decided, the conditional, and membership.
use Prim.Native.Nat.{ℕ}
use mathlib.Core.Path.{◌≡◌, refl}
use mathlib.Core.Logic.{ite, ◌⊎◌, inl, inr}
use mathlib.Core.Bool.{Bool, true, false, cond, ◌||◌}
use mathlib.Core.Option.{Option, none, some}
use mathlib.Core.List.{List, [], ◌∷◌}
use native.Mathlib.Decide.{ℕ_discrete}
use native.Mathlib.Omega.{arith}

infix 1 if◌then◌else◌
abbrev pub if◌then◌else◌ {ℓ} : {A : Type ℓ} → Bool → A → A → A
if b then x else y = cond b x y

pub record Eq {ℓ} (A : Type ℓ) : Type ℓ where
  pub dec : Discrete A

module _ {ℓ} {A : Type ℓ} ⦃e : Eq A⦄ where
  infix 50 ◌==◌
  abbrev pub ◌==◌ : A → A → Bool
  a == b = ite (e.dec a b) true false

  abbrev pub contains : List A → A → Bool
  contains [] a = false
  contains (x ∷ xs) a = x == a || contains xs a

  pub ==→eq : (a b : A) → (a == b) ≡ true → a ≡ b
  ==→eq a b h = ground arith

  pub eq→== : (a b : A) → a ≡ b → (a == b) ≡ true
  eq→== a b h = ground arith

  pub ne→== : (a b : A) → ¬ (a ≡ b) → (a == b) ≡ false
  ne→== a b h = ground arith

  pub ==_self : (a : A) → (a == a) ≡ true
  ==_self a = ground arith

module _ {ℓ} {A : Type ℓ} where
  pub tail_eq : (x y : A) (s t : List A) → x ∷ s ≡ y ∷ t → s ≡ t
  tail_eq x y s t e = ground arith

  pub head_eq : (x y : A) (s t : List A) → x ∷ s ≡ y ∷ t → x ≡ y
  head_eq x y s t e = ground arith

  pub cons_eq : (x y : A) (s t : List A) → x ≡ y → s ≡ t → x ∷ s ≡ y ∷ t
  cons_eq x y s t e f = ground arith

  pub nil_ne_cons : (y : A) (t : List A) → ¬ ([] ≡ y ∷ t)
  nil_ne_cons y t e = ground arith

  pub cons_ne_nil : (x : A) (s : List A) → ¬ (x ∷ s ≡ [])
  cons_ne_nil x s e = ground arith

  -- Equality of lists, as a computation.
  unfoldable pub decide_lists : Discrete A → Discrete (List A)
  decide_lists dec [] [] = yes refl
  decide_lists dec [] (y ∷ t) = no (nil_ne_cons y t)
  decide_lists dec (x ∷ s) [] = no (cons_ne_nil x s)
  decide_lists dec (x ∷ s) (y ∷ t) =
      let rest = decide_lists dec s t in
      elim (dec x y) [
        | no other ↦ no (λ e. other (head_eq x y s t e))
        | yes here ↦ elim rest [
          | no differ ↦ no (λ e. differ (tail_eq x y s t e))
          | yes same ↦ yes (cons_eq x y s t here same)
        ]
      ]

unfoldable pub Bytes-discrete : Discrete (List ℕ)
unfolding decide_lists ℕ_discrete
Bytes-discrete = decide_lists ℕ_discrete

instance abbrev pub nat_eq : Eq ℕ
nat_eq = record { dec = ℕ_discrete }

instance abbrev pub bytes_eq : Eq (List ℕ)
bytes_eq = record { dec = Bytes-discrete }

-- To split on a computed value and keep the equation.
pub Bool-cases : (b : Bool) → (b ≡ true) ⊎ (b ≡ false)
Bool-cases true = inl refl
Bool-cases false = inr refl

pub Option-cases {ℓ} : {A : Type ℓ} (o : Option A) → (o ≡ none) ⊎ ((a : A) × (o ≡ some a))
Option-cases none = inl refl
Option-cases (some a) = inr (a, refl)
