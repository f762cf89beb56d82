-- ===== src/Philosophers/Ends.antt =====
-- The meal ends: there are only so many steps.
use posix_threads.Common.{
  ℕ, zero, suc, ◌+◌, ◌-◌, ◌*◌, ◌≤◌, ◌<◌, ◌≡◌, refl, ap, subst, inl, inr, Bool, true, false, Option,
  some, arith, ltb, Bool-cases,
}
use mathlib.Core.Option.{some-injective}
use posix_threads.Philosophers.{
  Place, asking, waiting, reaching, holding, eating, lowering, leaving, finished, Meal, update,
  left_fork, act, move, start, all_food,
}
use posix_threads.Philosophers.Counts.{total, total-update}

-- How many steps are left until the philosopher asks again, and one more.
abbrev pub rank : Place → ℕ
rank finished = 0
rank asking = 1
rank leaving = 2
rank lowering = 3
rank eating = 4
rank holding = 5
rank reaching = 6
rank waiting = 7

abbrev pub steps_left : ℕ → Meal → ℕ
steps_left n s = 8 * s.food + total rank n s.places

-- `count` steps, one after the other.
pub data Course (n : ℕ) : Meal → ℕ → Meal → Type 0 where
  no_step : {s : Meal} → Course n s 0 s
  one_more :
      {s t u : Meal} {k : ℕ} (i : ℕ)
      → Course n s k t
      → i < n
      → move n t i ≡ some u
      → Course n s (suc k) u

module _ (n : ℕ) where
  lowers :
      (s : Meal) (i : ℕ) (p q : Place) (g : ℕ → Bool) (w f : ℕ)
      → i < n
      → s.places i ≡ p
      → 8 * f + rank q < 8 * s.food + rank p
      → steps_left n (record { places = update s.places i q; forks = g; waiter = w; food = f })
        < steps_left n s
  lowers s i p q g w f h at e = omega (arith, e, total-update rank n i s.places q h, ap rank at)

  lowers_same :
      (s u t : Meal)
      → ◌≡◌ {A = Option Meal} (some u) (some t)
      → steps_left n u < steps_left n s
      → steps_left n t < steps_left n s
  lowers_same s u t e h = subst (λ x. steps_left n x < steps_left n s) (some-injective _ _ e) h

  act-lowers :
      (s t : Meal) (i : ℕ) (p : Place)
      → i < n
      → s.places i ≡ p
      → act n s i p ≡ some t
      → steps_left n t < steps_left n s
  unfolding act
  act-lowers s t i asking h at e = elim (Bool-cases (ltb 1 s.food)) [
    | inl g ↦
        lowers_same s _ t (rw g at e)
          (lowers s i asking waiting s.forks s.waiter (s.food - 1) h at (ground arith))
    | inr g ↦
        lowers_same s _ t (rw g at e)
          (lowers s i asking finished s.forks s.waiter (s.food - 1) h at (omega arith))
  ]
  act-lowers s t i waiting h at e = elim (Bool-cases (ltb 0 s.waiter)) [
    | inl g ↦
        lowers_same s _ t (rw g at e)
          (lowers s i waiting reaching s.forks (s.waiter - 1) s.food h at (omega arith))
    | inr g ↦ absurd (ground arith)
  ]
  act-lowers s t i reaching h at e = elim (Bool-cases (s.forks (left_fork n i))) [
    | inl g ↦ absurd (ground arith)
    | inr g ↦ lowers_same s _ t (rw g at e) (
        lowers s i reaching holding (update s.forks (left_fork n i) true) s.waiter s.food h at
          (omega arith))
  ]
  act-lowers s t i holding h at e = elim (Bool-cases (s.forks i)) [
    | inl g ↦ absurd (ground arith)
    | inr g ↦
        lowers_same s _ t (rw g at e)
          (lowers s i holding eating (update s.forks i true) s.waiter s.food h at (omega arith))
  ]
  act-lowers s t i eating h at e = lowers_same s _ t e (
      lowers s i eating lowering (update s.forks (left_fork n i) false) s.waiter s.food h at
        (omega arith))
  act-lowers s t i lowering h at e =
      lowers_same s _ t e
        (lowers s i lowering leaving (update s.forks i false) s.waiter s.food h at (omega arith))
  act-lowers s t i leaving h at e =
      lowers_same s _ t e
        (lowers s i leaving asking s.forks (s.waiter + 1) s.food h at (omega arith))
  act-lowers s t i finished h at e = absurd (ground arith)

  Course-bounded : (s t : Meal) (k : ℕ) → Course n s k t → k + steps_left n t ≤ steps_left n s
  Course-bounded s t zero no_step = omega arith
  Course-bounded s u (suc k) (one_more {t = t} i c h e) =
      omega (arith, Course-bounded s t k c, act-lowers t u i (t.places i) h refl e)

  total-asking : (k : ℕ) → total rank k (λ i. asking) ≡ k
  total-asking zero = refl
  total-asking (suc k) = omega (arith, total-asking k)

  -- Whatever the order of the steps, a run from the start has at most 8 steps for each dish and one more
  -- for each philosopher.
  pub Course-ends : (t : Meal) (k : ℕ) → Course n (start n) k t → k ≤ 8 * all_food + n
  Course-ends t k c = omega (arith, Course-bounded (start n) t k c, total-asking n)
