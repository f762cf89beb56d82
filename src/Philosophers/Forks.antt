-- ===== src/Philosophers/Forks.antt =====
-- Who holds which fork, and how many are at the table.
use posix_threads.Common.{
  ℕ, suc, ◌+◌, ◌-◌, ◌≤◌, ◌<◌, ◌≡◌, refl, ap, subst, ◌∙◌, inl, inr, Bool, true, false, some, arith,
  ltb, ◌==◌, ==_iff, if◌then◌else◌, Bool-cases,
}
use mathlib.Core.Option.{some-injective}
use posix_threads.Philosophers.{
  Place, asking, waiting, reaching, holding, eating, lowering, leaving, finished, Meal, update,
  go_to, set_fork, left_fork, act, start, Reachable, at_start, moved,
}
use posix_threads.Philosophers.Counts.{
  right_of, left_of, seat_of, num, seated, total-update, seated-asking, step_sum,
}

module _ (n : ℕ) where
  -- The philosopher whose left fork is `j`.
  abbrev pub before : ℕ → ℕ
  before j = if j == 0 then n - 1 else j - 1

  pub record IsServed (s : Meal) : Type 0 where
    pub seats : suc (s.waiter + seated n s.places) ≡ n
    pub held :
        (j : ℕ) → j < n → num (s.forks j) ≡ right_of (s.places j) + left_of (s.places (before j))

  pub start-IsServed : 0 < n → IsServed (start n)
  start-IsServed h = record { seats = omega (arith, seated-asking n); held = λ j k. refl }

  pub before-left : (i : ℕ) → i < n → before (left_fork n i) ≡ i
  before-left i h = ground arith

  left-before : (j : ℕ) → j < n → left_fork n (before j) ≡ j
  left-before j h = ground arith

  pub left-lt : (i : ℕ) → i < n → left_fork n i < n
  left-lt i h = ground arith

  before-lt : (j : ℕ) → j < n → before j < n
  before-lt j h = ground arith

  -- What philosopher `i` at the place `p` holds of fork `j`.
  abbrev pub share : ℕ → Place → ℕ → ℕ
  share i p j = (if i == j then right_of p else 0) + (if i == before j then left_of p else 0)

  -- A step of philosopher `i` to the place `q`.
  module _ (s : Meal) (i : ℕ) (inside : i < n) (v : IsServed s) (q : Place) (t : Meal)
      (went : t.places ≡ update s.places i q) where
    step_held :
        (j : ℕ)
        → j < n
        → num (t.forks j) + share i (s.places i) j ≡ num (s.forks j) + share i q j
        → num (t.forks j) ≡ right_of (t.places j) + left_of (t.places (before j))
    step_held j h e =
        rw went
          (step_sum i j (before j) s.places q (num (t.forks j)) (num (s.forks j)) (v.held j h) e)

    step_seats :
        t.waiter + seat_of q ≡ s.waiter + seat_of (s.places i)
        → suc (t.waiter + seated n t.places) ≡ n
    step_seats e = rw went (omega (arith, e, v.seats, total-update seat_of n i s.places q inside))

  -- A fork that is locked or unlocked.
  fork_share :
      (g : ℕ → Bool) (k j : ℕ) (b : Bool) (x y : ℕ)
      → num b + x ≡ num (g k) + y
      → num (update g k b j) + (if k == j then x else 0) ≡ num (g j) + (if k == j then y else 0)
  fork_share g k j b x y e = elim (Bool-cases (k == j)) [
    | inl a ↦ rw a (omega (arith, e, ap num (ap g ((==_iff k j).0 a))))
    | inr a ↦ rw a refl
  ]

  left_iff : (i j : ℕ) → i < n → j < n → (left_fork n i == j) ≡ (i == before j)
  left_iff i j h k = ground arith

  module _ (s : Meal) (i : ℕ) (inside : i < n) (v : IsServed s) (p : Place) (at : s.places i ≡ p)
      (q : Place) where
    -- A step at which the philosopher keeps the forks it holds.
    still-IsServed :
        (w f : ℕ)
        → right_of p ≡ right_of q
        → left_of p ≡ left_of q
        → w + seat_of q ≡ s.waiter + seat_of p
        → IsServed (record { places = update s.places i q; forks = s.forks; waiter = w; food = f })
    still-IsServed w f r l e =
        let t : Meal = record {
          places = update s.places i q;
          forks = s.forks;
          waiter = w;
          food = f;
        } in
        record {
          seats = step_seats s i inside v q t refl (rw at e);
          held = λ j h. step_held s i inside v q t refl j h (
              rw at (
                omega (
                  arith,
                  ap (λ x. if i == j then x else 0) r,
                  ap (λ x. if i == before j then x else 0) l,
                )));
        }

    -- A step at which the left fork is taken or put down.
    left-IsServed :
        (b : Bool)
        → right_of p ≡ right_of q
        → num b + left_of p ≡ num (s.forks (left_fork n i)) + left_of q
        → seat_of p ≡ seat_of q
        → IsServed (go_to (set_fork s (left_fork n i) b) i q)
    left-IsServed b r l e =
        let t = go_to (set_fork s (left_fork n i) b) i q in
        record {
          seats = step_seats s i inside v q t refl (rw at (omega (arith, e)));
          held = λ j h.
              let part = fork_share s.forks (left_fork n i) j b (left_of p) (left_of q) l in
              let moved_part : num (update s.forks (left_fork n i) b j)
                    + (if i == before j then left_of p else 0)
                  ≡ num (s.forks j) + (if i == before j then left_of q else 0) =
                subst
                  (λ c.
                    num (update s.forks (left_fork n i) b j) + (if c then left_of p else 0)
                    ≡ num (s.forks j) + (if c then left_of q else 0))
                  (left_iff i j inside h) part in
              step_held s i inside v q t refl j h
                (rw at (omega (arith, ap (λ x. if i == j then x else 0) r, moved_part)));
        }

    -- A step at which the right fork is taken or put down.
    right-IsServed :
        (b : Bool)
        → left_of p ≡ left_of q
        → num b + right_of p ≡ num (s.forks i) + right_of q
        → seat_of p ≡ seat_of q
        → IsServed (go_to (set_fork s i b) i q)
    right-IsServed b l r e =
        let t = go_to (set_fork s i b) i q in
        record {
          seats = step_seats s i inside v q t refl (rw at (omega (arith, e)));
          held = λ j h.
              let part = fork_share s.forks i j b (right_of p) (right_of q) r in
              step_held s i inside v q t refl j h
                (rw at (omega (arith, ap (λ x. if i == before j then x else 0) l, part)));
        }

  num_le : (b : Bool) → num b ≤ 1
  num_le true = omega arith
  num_le false = omega arith

  -- A fork that a philosopher holds is locked.
  left_taken :
      (s : Meal) (i : ℕ) (p : Place)
      → i < n
      → IsServed s
      → s.places i ≡ p
      → left_of p ≡ 1
      → 1 ≡ num (s.forks (left_fork n i)) + 0
  left_taken s i p h v at l =
      let held = v.held (left_fork n i) (left-lt i h) in
      let mine : left_of (s.places (before (left_fork n i))) ≡ 1 =
        ap (λ k. left_of (s.places k)) (before-left i h) ∙ ap left_of at ∙ l in
      omega (arith, held, mine, num_le (s.forks (left_fork n i)))

  right_taken :
      (s : Meal) (i : ℕ) (p : Place)
      → i < n
      → IsServed s
      → s.places i ≡ p
      → right_of p ≡ 1
      → 1 ≡ num (s.forks i) + 0
  right_taken s i p h v at r = omega (arith, v.held i h, ap right_of at, r, num_le (s.forks i))

  act-IsServed :
      (s t : Meal) (i : ℕ) (p : Place)
      → i < n
      → IsServed s
      → s.places i ≡ p
      → act n s i p ≡ some t
      → IsServed t
  unfolding act
  act-IsServed s t i asking h v at e = elim (Bool-cases (ltb 1 s.food)) [
    | inl g ↦
        subst IsServed (some-injective _ _ (rw g at e))
          (still-IsServed s i h v asking at waiting s.waiter (s.food - 1) refl refl refl)
    | inr g ↦
        subst IsServed (some-injective _ _ (rw g at e))
          (still-IsServed s i h v asking at finished s.waiter (s.food - 1) refl refl refl)
  ]
  act-IsServed s t i waiting h v at e = elim (Bool-cases (ltb 0 s.waiter)) [
    | inl g ↦
        subst IsServed (some-injective _ _ (rw g at e)) (
          still-IsServed s i h v waiting at reaching (s.waiter - 1) s.food refl refl (ground arith))
    | inr g ↦ absurd (ground arith)
  ]
  act-IsServed s t i reaching h v at e = elim (Bool-cases (s.forks (left_fork n i))) [
    | inl g ↦ absurd (ground arith)
    | inr g ↦
        subst IsServed (some-injective _ _ (rw g at e))
          (left-IsServed s i h v reaching at holding true refl (rw g refl) refl)
  ]
  act-IsServed s t i holding h v at e = elim (Bool-cases (s.forks i)) [
    | inl g ↦ absurd (ground arith)
    | inr g ↦
        subst IsServed (some-injective _ _ (rw g at e))
          (right-IsServed s i h v holding at eating true refl (rw g refl) refl)
  ]
  act-IsServed s t i eating h v at e =
      subst IsServed (some-injective _ _ e) (
        left-IsServed s i h v eating at lowering false refl (left_taken s i eating h v at refl)
          refl)
  act-IsServed s t i lowering h v at e = subst IsServed (some-injective _ _ e) (
      right-IsServed s i h v lowering at leaving false refl (right_taken s i lowering h v at refl)
        refl)
  act-IsServed s t i leaving h v at e =
      subst IsServed (some-injective _ _ e)
        (still-IsServed s i h v leaving at asking (s.waiter + 1) s.food refl refl (omega arith))
  act-IsServed s t i finished h v at e = absurd (ground arith)

  -- For at least one philosopher, in every reachable state a fork is locked exactly when one philosopher holds it, and never by
  -- two; and the waiter and those past it are one fewer than the philosophers.
  pub Reachable-IsServed : (s : Meal) → 0 < n → Reachable n s → IsServed s
  Reachable-IsServed s h at_start = start-IsServed h
  Reachable-IsServed t h (moved {s} i r inside e) =
      act-IsServed s t i (s.places i) inside (Reachable-IsServed s h r) refl e
