-- ===== src/Common/Scan.antt =====
-- The loop `for (i = 0; i < n; i++) if (test(xs[i])) { ... break; }`: the index where it stops.
use Prim.Native.Nat.{ℕ, zero, suc, ◌<◌}
use mathlib.Core.Path.{◌≡◌, refl}
use mathlib.Core.Bool.{Bool, true, false}
use mathlib.Core.Logic.{inl, inr}
use mathlib.Core.List.{List, [], ◌∷◌}
use mathlib.Core.Option.{Option, none, some}
use native.Mathlib.Omega.{arith}
use posix_threads.Common.Tests.{if◌then◌else◌, Bool-cases}
use posix_threads.Common.Lists.{get_elem?}

abbrev step_in : Option ℕ → Option ℕ
step_in none = none
step_in (some i) = some (suc i)

step_in-zero : (o : Option ℕ) → ¬ (step_in o ≡ some 0)
step_in-zero none h = cc
step_in-zero (some i) h = absurd (ground arith)

step_in-suc : (o : Option ℕ) (i : ℕ) → step_in o ≡ some (suc i) → o ≡ some i
step_in-suc none i h = cc
step_in-suc (some j) i h = ground arith

step_in-none : (o : Option ℕ) → step_in o ≡ none → o ≡ none
step_in-none none h = refl
step_in-none (some i) h = absurd (ground arith)

module _ {ℓ} {A : Type ℓ} (test : A → Bool) where
  unfoldable pub find_below : ℕ → List A → Option ℕ
  find_below zero xs = none
  find_below (suc n) [] = none
  find_below (suc n) (x ∷ xs) = if test x then some 0 else step_in (find_below n xs)

  pub find_below-lt : (n : ℕ) (xs : List A) (i : ℕ) → find_below n xs ≡ some i → i < n
  unfolding find_below
  find_below-lt zero xs i h = ground arith
  find_below-lt (suc n) [] i h = ground arith
  find_below-lt (suc n) (x ∷ xs) zero h = omega arith
  find_below-lt (suc n) (x ∷ xs) (suc i) h = ground (arith, find_below-lt n xs i)

  -- The element where the loop stops passes the test.
  pub find_below-passes :
      (n : ℕ) (xs : List A) (i : ℕ)
      → find_below n xs ≡ some i
      → (x : A) × (get_elem? xs i ≡ some x) × (test x ≡ true)
  unfolding find_below
  find_below-passes zero xs i h = absurd (ground arith)
  find_below-passes (suc n) [] i h = absurd (ground arith)
  find_below-passes (suc n) (x ∷ xs) zero h = elim (Bool-cases (test x)) [
    | inl e ↦ (x, refl, e)
    | inr e ↦ absurd (ground (arith, step_in-zero (find_below n xs)))
  ]
  find_below-passes (suc n) (x ∷ xs) (suc i) h =
      find_below-passes n xs i (ground (arith, step_in-suc (find_below n xs) i))

  -- A loop that stops nowhere passes the first element by.
  pub find_below-none :
      (n : ℕ) (x : A) (xs : List A)
      → find_below (suc n) (x ∷ xs) ≡ none
      → (test x ≡ false) × (find_below n xs ≡ none)
  unfolding find_below
  find_below-none n x xs h = elim (Bool-cases (test x)) [
    | inl e ↦ absurd (ground arith)
    | inr e ↦ (e, step_in-none (find_below n xs) (rw e at h))
  ]
