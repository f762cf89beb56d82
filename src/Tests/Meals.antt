-- ===== src/Tests/Meals.antt =====
-- The philosophers of arkhipov/10/main.c at small inputs.
use posix_threads.Common.{
  ℕ, ◌+◌, ◌*◌, ◌≤◌, ◌<◌, ◌≡◌, ◌⊎◌, refl, false, some, arith, ◌==◌, if◌then◌else◌,
}
use posix_threads.Philosophers.{
  asking, waiting, finished, Meal, act, move, start, all_food, at_start,
}
use posix_threads.Philosophers.Forks.{IsServed, Reachable-IsServed}
use posix_threads.Philosophers.Progress.{Reachable-progress}
use posix_threads.Philosophers.Ends.{Course, no_step, one_more, Course-ends}

Reachable-IsServed_example : IsServed 2 (start 2)
Reachable-IsServed_example = Reachable-IsServed 2 (start 2) (omega arith) at_start

Reachable-progress_example :
    ((i : ℕ) × (t : Meal) × (i < 2) × (move 2 (start 2) i ≡ some t))
    ⊎ ((i : ℕ) → i < 2 → (start 2).places i ≡ finished)
Reachable-progress_example = Reachable-progress 2 (start 2) (omega arith) at_start

-- The first philosopher has asked for a dish.
abbrev asked : Meal
asked = record {
  places = λ j. if 0 == j then waiting else asking;
  forks = λ j. false;
  waiter = 1;
  food = 499;
}

one_step : Course 2 (start 2) 1 asked
unfolding act
one_step = one_more 0 no_step (omega arith) refl

Course-ends_example : 1 ≤ 8 * all_food + 2
Course-ends_example = Course-ends 2 asked 1 one_step

-- With one dish left a philosopher takes it and goes without eating.
last_dish :
    move 2 (record { places = λ j. asking; forks = λ j. false; waiter = 1; food = 1 }) 0
    ≡ some (record {
      places = λ j. if 0 == j then finished else asking;
      forks = λ j. false;
      waiter = 1;
      food = 0;
    })
unfolding act
last_dish = refl
