-- ===== src/Philosophers/Progress.antt =====
-- No deadlock: while a philosopher is not done, one of them can go on.
use posix_threads.Common.{
  ℕ, zero, suc, ◌+◌, ◌-◌, ◌*◌, ◌<◌, ◌≡◌, ◌⊎◌, refl, ap, ◌∙◌, inl, inr, true, none, some, arith,
  ◌==◌, ==_iff, Bool-cases, Option-cases,
}
use posix_threads.Philosophers.{
  Place, asking, waiting, reaching, holding, eating, lowering, leaving, finished, Meal, left_fork,
  act, move, Reachable,
}
use posix_threads.Philosophers.Counts.{right_of, left_of, seat_of, num, seated}
use posix_threads.Philosophers.Forks.{before, before-left, left-lt, IsServed, Reachable-IsServed}

-- Whether some philosopher below `k` can go on.
someone_goes :
    (n k : ℕ) (s : Meal)
    → ((i : ℕ) × (t : Meal) × (i < k) × (move n s i ≡ some t))
      ⊎ ((i : ℕ) → i < k → move n s i ≡ none)
someone_goes n zero s = inr (λ i h. absurd (omega arith))
someone_goes n (suc k) s = elim (Option-cases (move n s k)) [
  | inr (t, e) ↦ inl (k, t, omega arith, e)
  | inl e ↦ elim (someone_goes n k s) [
    | inl (i, t, h, f) ↦ inl (i, t, omega arith, f)
    | inr stuck ↦ inr (λ i h. elim (Bool-cases (i == k)) [
      | inl a ↦ ap (move n s) ((==_iff i k).0 a) ∙ e
      | inr a ↦ stuck i (ground arith)
    ])
  ]
]

-- A philosopher who cannot go on is at one of four places.
data Stuck (n : ℕ) (s : Meal) (i : ℕ) : Type 0 where
  at_waiter : s.places i ≡ waiting → s.waiter ≡ 0 → Stuck n s i
  at_left : s.places i ≡ reaching → s.forks (left_fork n i) ≡ true → Stuck n s i
  at_right : s.places i ≡ holding → s.forks i ≡ true → Stuck n s i
  at_end : s.places i ≡ finished → Stuck n s i

act-Stuck :
    (n : ℕ) (s : Meal) (i : ℕ) (p : Place) → s.places i ≡ p → act n s i p ≡ none → Stuck n s i
unfolding act
act-Stuck n s i asking at e = absurd (ground arith)
act-Stuck n s i waiting at e = at_waiter at (ground arith)
act-Stuck n s i reaching at e = at_left at (ground arith)
act-Stuck n s i holding at e = at_right at (ground arith)
act-Stuck n s i eating at e = absurd (ground arith)
act-Stuck n s i lowering at e = absurd (ground arith)
act-Stuck n s i leaving at e = absurd (ground arith)
act-Stuck n s i finished at e = at_end at

module _ (n : ℕ) (s : Meal) (v : IsServed n s) (stuck : (i : ℕ) → i < n → Stuck n s i) where
  no_right : (i : ℕ) → i < n → right_of (s.places i) ≡ 0
  no_right i h = elim (stuck i h) [
    | at_waiter e f ↦ ap right_of e
    | at_left e f ↦ ap right_of e
    | at_right e f ↦ ap right_of e
    | at_end e ↦ ap right_of e
  ]

  -- Who has a left fork.
  held_left :
      (i : ℕ) → i < n → left_of (s.places i) ≡ 1 → (s.places i ≡ holding) × (s.forks i ≡ true)
  held_left i h l = elim (stuck i h) [
    | at_waiter e f ↦ absurd (omega (arith, l, ap left_of e))
    | at_left e f ↦ absurd (omega (arith, l, ap left_of e))
    | at_right e f ↦ (e, f)
    | at_end e ↦ absurd (omega (arith, l, ap left_of e))
  ]

  -- A locked fork is a left one.
  locked : (j : ℕ) → j < n → s.forks j ≡ true → left_of (s.places (before n j)) ≡ 1
  locked j h e = omega (arith, v.held j h, no_right j h, ap num e)

  down_one : (j : ℕ) → j < n → left_of (s.places j) ≡ 1 → left_of (s.places (before n j)) ≡ 1
  down_one j h l = locked j h (held_left j h l).1

  down_to : (k i : ℕ) → i + k < n → left_of (s.places (i + k)) ≡ 1 → left_of (s.places i) ≡ 1
  down_to zero i h l = ap (λ x. left_of (s.places x)) (omega arith) ∙ l
  down_to (suc k) i h l =
      down_to k i (omega arith)
        (ap (λ x. left_of (s.places x)) (ground arith) ∙ down_one (i + suc k) h l)

  -- One who has a left fork makes all have one.
  all_left : (i : ℕ) → i < n → left_of (s.places i) ≡ 1 → (j : ℕ) → j < n → left_of (s.places j) ≡ 1
  all_left i h l j k =
      let first : left_of (s.places 0) ≡ 1 =
        down_to i 0 (omega arith) (ap (λ x. left_of (s.places x)) (omega arith) ∙ l) in
      let last : left_of (s.places (n - 1)) ≡ 1 = down_one 0 (omega arith) first in
      down_to (n - 1 - j) j (omega arith) (ap (λ x. left_of (s.places x)) (omega arith) ∙ last)

  seat_of_left : (p : Place) → left_of p ≡ 1 → seat_of p ≡ 1
  seat_of_left holding l = refl
  seat_of_left eating l = refl
  seat_of_left asking l = absurd (omega arith)
  seat_of_left waiting l = absurd (omega arith)
  seat_of_left reaching l = absurd (omega arith)
  seat_of_left lowering l = absurd (omega arith)
  seat_of_left leaving l = absurd (omega arith)
  seat_of_left finished l = absurd (omega arith)

  seated_by : (c k : ℕ) → ((j : ℕ) → j < k → seat_of (s.places j) ≡ c) → seated k s.places ≡ k * c
  seated_by c zero h = omega arith
  seated_by c (suc k) h = omega (arith, h k (omega arith), seated_by c k (λ j l. h j (omega arith)))

  no_left : (i : ℕ) → i < n → left_of (s.places i) ≡ 0
  no_left i h = elim (stuck i h) [
    | at_waiter e f ↦ ap left_of e
    | at_left e f ↦ ap left_of e
    | at_right e f ↦
        let all = all_left i h (ap left_of e) in
        absurd (omega (arith, v.seats, seated_by 1 n (λ j l. seat_of_left (s.places j) (all j l))))
    | at_end e ↦ ap left_of e
  ]

  -- No one is past the waiter.
  no_seat : (i : ℕ) → i < n → seat_of (s.places i) ≡ 0
  no_seat i h = elim (stuck i h) [
    | at_waiter e f ↦ ap seat_of e
    | at_left e f ↦
        let k = left_fork n i in
        let mine : left_of (s.places (before n k)) ≡ 0 =
          ap (λ x. left_of (s.places x)) (before-left n i h) ∙ no_left i h in
        absurd (omega (arith, v.held k (left-lt n i h), no_right k (left-lt n i h), mine, ap num f))
    | at_right e f ↦ absurd (omega (arith, no_left i h, ap left_of e))
    | at_end e ↦ ap seat_of e
  ]

  all_finished : 1 < n → (i : ℕ) → i < n → s.places i ≡ finished
  all_finished many i h = elim (stuck i h) [
    | at_waiter e f ↦ absurd (omega (arith, f, v.seats, seated_by 0 n no_seat))
    | at_left e f ↦ absurd (omega (arith, no_seat i h, ap seat_of e))
    | at_right e f ↦ absurd (omega (arith, no_seat i h, ap seat_of e))
    | at_end e ↦ e
  ]

-- For two philosophers or more, in every reachable state: some philosopher can go on, or all are
-- done. So they never all wait for one another.
pub Reachable-progress :
    (n : ℕ) (s : Meal)
    → 1 < n
    → Reachable n s
    → ((i : ℕ) × (t : Meal) × (i < n) × (move n s i ≡ some t))
      ⊎ ((i : ℕ) → i < n → s.places i ≡ finished)
Reachable-progress n s many r = elim (someone_goes n n s) [
  | inl goes ↦ inl goes
  | inr none_goes ↦
      let v = Reachable-IsServed n s (omega arith) r in
      inr (all_finished n s v (λ i h. act-Stuck n s i (s.places i) refl (none_goes i h)) many)
]
