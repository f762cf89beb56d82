-- ===== src/Philosophers.antt =====
-- The dining philosophers of arkhipov/10/main.c, any number of them: each waits for the waiter, takes the
-- left fork and then the right one, eats, puts both down and tells the waiter.
pub mod Counts
pub mod Forks
pub mod Progress
pub mod Ends
use posix_threads.Common.{
  ℕ, zero, suc, ◌+◌, ◌-◌, ◌<◌, ◌≡◌, Bool, true, false, Option, none, some, ltb, ◌==◌, if◌then◌else◌,
}

-- Where a philosopher is: before `food_on_table`, before `sem_wait`, before the first `get_fork`, before the
-- second, before the two unlocks of `down_forks`, before its `sem_post`, and past the loop.
pub data Place : Type 0 where
  asking : Place
  waiting : Place
  reaching : Place
  holding : Place
  eating : Place
  lowering : Place
  leaving : Place
  finished : Place

-- `forks j` says whether fork `j` is locked.
pub record Meal : Type 0 where
  pub places : ℕ → Place
  pub forks : ℕ → Bool
  pub waiter : ℕ
  pub food : ℕ

abbrev pub update : {A : Type 0} → (ℕ → A) → ℕ → A → ℕ → A
update f i a j = if i == j then a else f j

abbrev pub go_to : Meal → ℕ → Place → Meal
go_to s i q = record s { places = update s.places i q }

abbrev pub set_fork : Meal → ℕ → Bool → Meal
set_fork s j b = record s { forks = update s.forks j b }

-- `food_on_table` takes a dish, if there is one, and answers how many are left.
abbrev pub take_dish : Meal → Meal
take_dish s = record s { food = s.food - 1 }

-- `FOOD`
abbrev pub all_food : ℕ
all_food = 500

module _ (n : ℕ) where
  abbrev pub left_fork : ℕ → ℕ
  left_fork i = if suc i == n then 0 else suc i

  -- The next step of philosopher `i`, who is at the place; `none` if it has to wait, or is done.
  unfoldable pub act : Meal → ℕ → Place → Option Meal
  act s i asking = some (go_to (take_dish s) i (if ltb 1 s.food then waiting else finished))
  act s i waiting =
      if ltb 0 s.waiter then some (go_to (record s { waiter = s.waiter - 1 }) i reaching) else none
  act s i reaching =
      if s.forks (left_fork i) then none else some (go_to (set_fork s (left_fork i) true) i holding)
  act s i holding = if s.forks i then none else some (go_to (set_fork s i true) i eating)
  act s i eating = some (go_to (set_fork s (left_fork i) false) i lowering)
  act s i lowering = some (go_to (set_fork s i false) i leaving)
  act s i leaving = some (go_to (record s { waiter = s.waiter + 1 }) i asking)
  act s i finished = none

  abbrev pub move : Meal → ℕ → Option Meal
  move s i = act s i (s.places i)

  -- After the initialisations of `main`.
  abbrev pub start : Meal
  start = record { places = λ i. asking; forks = λ j. false; waiter = n - 1; food = all_food }

  pub data Reachable : Meal → Type 0 where
    at_start : Reachable start
    moved : {s t : Meal} (i : ℕ) → Reachable s → i < n → move s i ≡ some t → Reachable t
