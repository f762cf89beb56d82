-- ===== src/Philosophers/Counts.antt =====
-- Sums over the places of the philosophers: who holds a fork, and who is past the waiter.
use posix_threads.Common.{
  ℕ, zero, suc, ◌+◌, ◌≤◌, ◌<◌, ◌≡◌, refl, sym, ap, inl, inr, Bool, true, false, arith, ◌==◌, ==_iff,
  if◌then◌else◌, Bool-cases,
}
use posix_threads.Philosophers.{
  Place, asking, waiting, reaching, holding, eating, lowering, leaving, finished, update,
}

abbrev pub right_of : Place → ℕ
right_of eating = 1
right_of lowering = 1
right_of asking = 0
right_of waiting = 0
right_of reaching = 0
right_of holding = 0
right_of leaving = 0
right_of finished = 0

abbrev pub left_of : Place → ℕ
left_of holding = 1
left_of eating = 1
left_of asking = 0
left_of waiting = 0
left_of reaching = 0
left_of lowering = 0
left_of leaving = 0
left_of finished = 0

-- Past the waiter.
abbrev pub seat_of : Place → ℕ
seat_of asking = 0
seat_of waiting = 0
seat_of reaching = 1
seat_of holding = 1
seat_of eating = 1
seat_of lowering = 1
seat_of leaving = 1
seat_of finished = 0

abbrev pub num : Bool → ℕ
num true = 1
num false = 0

-- A sum over the places of the philosophers below `k`.
abbrev pub total : (Place → ℕ) → ℕ → (ℕ → Place) → ℕ
total w zero f = 0
total w (suc k) f = w (f k) + total w k f

abbrev pub seated : ℕ → (ℕ → Place) → ℕ
seated = total seat_of

total-above :
    (w : Place → ℕ) (k i : ℕ) (f : ℕ → Place) (q : Place)
    → k ≤ i
    → total w k (update f i q) ≡ total w k f
total-above w zero i f q h = refl
total-above w (suc k) i f q h = ground (arith, total-above w k i f q)

pub total-update :
    (w : Place → ℕ) (k i : ℕ) (f : ℕ → Place) (q : Place)
    → i < k
    → total w k (update f i q) + w (f i) ≡ total w k f + w q
total-update w zero i f q h = absurd (omega arith)
total-update w (suc k) i f q h = elim (Bool-cases (i == k)) [
  | inl e ↦
      let same : i ≡ k = (==_iff i k).0 e in
      rw same (ground (arith, total-above w k k f q (omega arith)))
  | inr e ↦ let less : i < k = ground arith in rw e (omega (arith, total-update w k i f q less))
]

pub seated-asking : (k : ℕ) → seated k (λ i. asking) ≡ 0
seated-asking zero = refl
seated-asking (suc k) = omega (arith, seated-asking k)

same_place : (i j : ℕ) (f : ℕ → Place) → (i == j) ≡ true → f j ≡ f i
same_place i j f a = ap f (sym ((==_iff i j).0 a))

-- The sum of two shares after one place has changed.
pub step_sum :
    (i j k : ℕ) (f : ℕ → Place) (q : Place) (new old : ℕ)
    → old ≡ right_of (f j) + left_of (f k)
    → new + ((if i == j then right_of (f i) else 0) + (if i == k then left_of (f i) else 0))
      ≡ old + ((if i == j then right_of q else 0) + (if i == k then left_of q else 0))
    → new ≡ right_of (update f i q j) + left_of (update f i q k)
step_sum i j k f q new old h e = elim (Bool-cases (i == j)) [
  | inl a ↦ elim (Bool-cases (i == k)) [
    | inl b ↦
        rw (a, b)
          (omega (
            arith,
            rw (a, b) at e,
            ap right_of (same_place i j f a),
            ap left_of (same_place i k f b),
          ))
    | inr b ↦ rw (a, b) (omega (arith, rw (a, b) at e, ap right_of (same_place i j f a)))
  ]
  | inr a ↦ elim (Bool-cases (i == k)) [
    | inl b ↦ rw (a, b) (omega (arith, rw (a, b) at e, ap left_of (same_place i k f b)))
    | inr b ↦ rw (a, b) (omega (arith, rw (a, b) at e))
  ]
]
