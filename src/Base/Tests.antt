-- ===== src/Base/Tests.antt =====
-- Boolean tests and the conditional, an interface for tests of equality, bits and fixed widths.
use Prim.Native.Nat.{ℕ, ◌/◌, ◌%◌, ◌^◌, compare, Ordering}
use mathlib.Core.Path.{◌≡◌, refl}
use mathlib.Core.Logic.{◌↔◌, ◌⊎◌, inl, inr}
use mathlib.Core.Bool.{Bool, true, false, ◌&&◌}
use mathlib.Core.Option.{Option, none, some}
use mathlib.Core.List.{List, [], ◌∷◌}
use native.Mathlib.Omega.{arith}

abbrev pub ltb : ℕ → ℕ → Bool
ltb a b = elim (compare a b) [ Ordering.lt ↦ true | _ ↦ false ]

abbrev pub leb : ℕ → ℕ → Bool
leb a b = elim (compare a b) [ Ordering.gt ↦ false | _ ↦ true ]

abbrev pub nat_beq : ℕ → ℕ → Bool
nat_beq a b = elim (compare a b) [ Ordering.eq ↦ true | _ ↦ false ]

infix 1 if◌then◌else◌
abbrev pub if◌then◌else◌ {ℓ} : {A : Type ℓ} → Bool → A → A → A
if true then x else y = x
if false then x else y = y

pub nat_beq_iff : (a b : ℕ) → (nat_beq a b ≡ true) ↔ (a ≡ b)
nat_beq_iff a b = ground arith

-- `PartialEq` on the keys and elements that the program compares.
pub record Eq {ℓ} (K : Type ℓ) : Type ℓ where
  pub eq : K → K → Bool
  pub eq_iff : (x y : K) → (eq x y ≡ true) ↔ (x ≡ y)

abbrev pub list_beq {ℓ} : {K : Type ℓ} → (K → K → Bool) → List K → List K → Bool
list_beq eq [] [] = true
list_beq eq [] (y ∷ ys) = false
list_beq eq (x ∷ xs) [] = false
list_beq eq (x ∷ xs) (y ∷ ys) = eq x y && list_beq eq xs ys

pub list_beq_lem {ℓ} :
    {K : Type ℓ} (k : Eq K) (xs ys : List K) → (list_beq k.eq xs ys ≡ true) ↔ (xs ≡ ys)
list_beq_lem k [] [] = (λ _. refl, λ _. refl)
list_beq_lem k [] (y ∷ ys) = (λ h. cc, λ h. cc)
list_beq_lem k (x ∷ xs) [] = (λ h. cc, λ h. cc)
list_beq_lem k (x ∷ xs) (y ∷ ys) = ground (arith, k.eq_iff x y, list_beq_lem k xs ys)

instance abbrev pub list_eq {ℓ} : {K : Type ℓ} ⦃k : Eq K⦄ → Eq (List K)
list_eq ⦃k⦄ = record { eq = list_beq k.eq; eq_iff = list_beq_lem k }

instance abbrev pub nat_eq : Eq ℕ
nat_eq = record { eq_iff = nat_beq_iff; eq = nat_beq }

infix 50 ◌==◌
abbrev pub ◌==◌ {ℓ} : {K : Type ℓ} ⦃k : Eq K⦄ → K → K → Bool
◌==◌ ⦃k⦄ x y = k.eq x y

pub list_beq_iff {ℓ} : {K : Type ℓ} ⦃k : Eq K⦄ (xs ys : List K) → ((xs == ys) ≡ true) ↔ (xs ≡ ys)
list_beq_iff ⦃k⦄ xs ys = list_beq_lem k xs ys

-- Bit `k` of a word.
abbrev pub has_bit : ℕ → ℕ → Bool
has_bit x k = nat_beq ((x / 2 ^ k) % 2) 1

abbrev pub u32 : ℕ → ℕ
u32 n = n % 2 ^ 32

abbrev pub u64 : ℕ → ℕ
u64 n = n % 2 ^ 64

-- To split on a computed value and keep the equation.
pub Bool-cases : (b : Bool) → (b ≡ true) ⊎ (b ≡ false)
Bool-cases true = inl refl
Bool-cases false = inr refl

pub Option-cases {ℓ} : {A : Type ℓ} (o : Option A) → (o ≡ none) ⊎ ((a : A) × (o ≡ some a))
Option-cases none = inl refl
Option-cases (some a) = inr (a, refl)
