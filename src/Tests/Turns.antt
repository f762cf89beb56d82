-- ===== src/Tests/Turns.antt =====
-- Two threads of arkhipov/14/main.c at their first lines.
use posix_threads.Common.{◌⊎◌, ◌≡◌, refl, [], ◌∷◌, arith, length}
use posix_threads.TurnRing.{Step, Ring, Reachable, begins, steps, starts, waits, prints, posts}
use posix_threads.TurnRing.Turns.{upto}
use posix_threads.TurnRing.Progress.{Finished, Reachable-steps}
use posix_threads.TurnRing.Lines.{Reachable-printed}

-- Thread 0 gives the right, prints its line and hands on; thread 1 prints.
two_lines : (s : Ring) × Reachable 2 5 s × (s.printed ≡ 0 ∷ 1 ∷ [])
two_lines = (
  _,
  steps
      (steps
        (steps
          (steps
            (steps (steps begins (starts refl)) (waits 0 0 (omega arith) refl (omega arith) refl))
            (prints 0 (omega arith) refl))
          (posts 0 (omega arith) refl))
        (waits 1 0 (omega arith) refl (omega arith) refl))
      (prints 1 (omega arith) refl),
  refl,
)

Reachable-printed_example : two_lines.0.printed ≡ upto (length two_lines.0.printed)
Reachable-printed_example = Reachable-printed 2 5 two_lines.0 (omega arith) two_lines.1

Reachable-steps_example : Finished 2 5 two_lines.0 ⊎ ((s' : Ring) × Step 2 5 two_lines.0 s')
Reachable-steps_example = Reachable-steps 2 5 two_lines.0 (omega arith) two_lines.1
