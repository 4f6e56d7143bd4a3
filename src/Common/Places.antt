-- ===== src/Common/Places.antt =====
-- Reading a place of a list after a write, or after something was put at the end.
use Prim.Native.Nat.{ℕ, zero, suc}
use mathlib.Core.Path.{◌≡◌, refl, ap}
use mathlib.Core.Logic.{◌≢◌, ◌⊎◌, inl, inr}
use mathlib.Core.Option.{some}
use mathlib.Core.List.{List, [], ◌∷◌, ◌++◌}
use native.Mathlib.Omega.{arith}
use mip_clients.Common.Lists.{get_elem?, set, length}

pub set_same {ℓ} :
    {A : Type ℓ} (xs : List A) (i : ℕ) (a : A) → get_elem? xs i ≡ some a → set xs i a ≡ xs
set_same [] i a e = refl
set_same (x ∷ xs) zero a e = cc
set_same (x ∷ xs) (suc i) a e = ap (λ ys. x ∷ ys) (set_same xs i a e)

pub get_elem?-set_cases {ℓ} :
    {A : Type ℓ} (xs : List A) (k i : ℕ) (d a : A)
    → get_elem? (set xs k d) i ≡ some a
    → ((k ≡ i) × (d ≡ a)) ⊎ ((k ≢ i) × (get_elem? xs i ≡ some a))
get_elem?-set_cases [] k i d a e = cc
get_elem?-set_cases (x ∷ xs) zero zero d a e = inl (refl, cc)
get_elem?-set_cases (x ∷ xs) zero (suc i) d a e = inr (omega arith, e)
get_elem?-set_cases (x ∷ xs) (suc k) zero d a e = inr (omega arith, e)
get_elem?-set_cases (x ∷ xs) (suc k) (suc i) d a e = elim (get_elem?-set_cases xs k i d a e) [
  | inl (p, q) ↦ inl (omega arith, q)
  | inr (p, q) ↦ inr (omega arith, q)
]

pub get_elem?-last_cases {ℓ} :
    {A : Type ℓ} (xs : List A) (i : ℕ) (d a : A)
    → get_elem? (xs ++ (d ∷ [])) i ≡ some a
    → ((length xs ≡ i) × (d ≡ a)) ⊎ ((length xs ≢ i) × (get_elem? xs i ≡ some a))
get_elem?-last_cases [] zero d a e = inl (refl, cc)
get_elem?-last_cases [] (suc i) d a e = cc
get_elem?-last_cases (x ∷ xs) zero d a e = inr (omega arith, e)
get_elem?-last_cases (x ∷ xs) (suc i) d a e = elim (get_elem?-last_cases xs i d a e) [
  | inl (p, q) ↦ inl (omega arith, q)
  | inr (p, q) ↦ inr (omega arith, q)
]
