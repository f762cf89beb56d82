-- ===== src/TurnRing/Lines.antt =====
-- The threads of arkhipov/14/main.c print in turn, whatever the order of their steps.
use posix_threads.Common.{
  ℕ, zero, suc, ◌+◌, ◌<◌, ◌≡◌, refl, sym, ap, ◌∙◌, [], ◌∷◌, ◌++◌, arith, length, length-append,
  subst,
}
use posix_threads.TurnRing.{
  waiting, printing, posting, Ring, set, neighbour, global_iterator, Step, starts, waits, prints,
  posts, Reachable, begins, steps,
}
use posix_threads.TurnRing.Turns.{
  upto, Right, not_given, taken, used, lines_of, Turn, InTurn, initial-Turn, start-Turn, whose,
  place_right, posted, offered_to, print-Turn, wait-Turn, post-Turn,
}

wait_in :
    (count : ℕ) (s : Ring) (round turn : ℕ) (right : Right)
    → Turn count s round turn right
    → (idx n : ℕ) → idx < count
    → s.places idx ≡ waiting
    → s.sems idx ≡ suc n
    → InTurn count (record s { sems = set s.sems idx n; places = set s.places idx printing })
wait_in count s round turn right t idx n h at v =
    let e = t.sems idx h in
    let (mine, now) = offered_to turn idx n right (sym e ∙ v) in
    subst (λ i. InTurn count (record s { sems = set s.sems i n; places = set s.places i printing }))
      mine
      (
        round,
        turn,
        taken,
        wait-Turn count s round turn n (subst (Turn count s round turn) now t) (ap s.sems mine ∙ v),
      )

print_in :
    (count : ℕ) (s : Ring) (round turn : ℕ) (right : Right)
    → Turn count s round turn right
    → (idx : ℕ) → idx < count
    → s.places idx ≡ printing
    → InTurn count (record s {
      places = set s.places idx posting;
      printed = s.printed ++ global_iterator count s idx ∷ [];
    })
print_in count s round turn right t idx h at =
    let (mine, p) = whose turn idx printing right (sym at ∙ t.places idx h) (λ e. ground arith) in
    subst
      (λ i. InTurn count (record s {
        places = set s.places i posting;
        printed = s.printed ++ global_iterator count s i ∷ [];
      }))
      mine
      (
        round,
        turn,
        used,
        print-Turn count s round turn
            (subst (Turn count s round turn) (place_right right (sym p)) t),
      )

post_in :
    (count : ℕ) (s : Ring) (round turn : ℕ) (right : Right)
    → Turn count s round turn right
    → (idx : ℕ) → idx < count
    → s.places idx ≡ posting
    → InTurn count (record s {
      sems = set s.sems (neighbour count idx) (s.sems (neighbour count idx) + 1);
      places = set s.places idx waiting;
      rounds = set s.rounds idx (s.rounds idx + 1);
    })
post_in count s round turn right t idx h at =
    let (mine, p) = whose turn idx posting right (sym at ∙ t.places idx h) (λ e. ground arith) in
    subst
      (λ i. InTurn count (record s {
        sems = set s.sems (neighbour count i) (s.sems (neighbour count i) + 1);
        places = set s.places i waiting;
        rounds = set s.rounds i (s.rounds i + 1);
      }))
      mine (post-Turn count s round turn (subst (Turn count s round turn) (posted right (sym p)) t))

Step-Turn :
    (count iterations : ℕ) (s s' : Ring) (round turn : ℕ) (right : Right)
    → Turn count s round turn right
    → Step count iterations s s'
    → InTurn count s'
Step-Turn count iterations s s' round turn right t (starts at) =
    start-Turn count s round turn right t at
Step-Turn count iterations s s' round turn right t (waits idx n h at more v) =
    wait_in count s round turn right t idx n h at v
Step-Turn count iterations s s' round turn right t (prints idx h at) =
    print_in count s round turn right t idx h at
Step-Turn count iterations s s' round turn right t (posts idx h at) =
    post_in count s round turn right t idx h at

pub Reachable-InTurn :
    (count iterations : ℕ) (s : Ring) → 0 < count → Reachable count iterations s → InTurn count s
Reachable-InTurn count iterations s room begins = (0, 0, not_given, initial-Turn count room)
Reachable-InTurn count iterations s room (steps {s = s0} r step) =
    let (round, turn, right, t) = Reachable-InTurn count iterations s0 room r in
    Step-Turn count iterations s0 s round turn right t step

length-upto : (n : ℕ) → length (upto n) ≡ n
unfolding upto
length-upto zero = refl
length-upto (suc n) = omega (arith, length-append (upto n) (n ∷ []), length-upto n)

-- For any positive number of threads and any number of iterations, whatever the order of the steps:
-- the numbers printed so far are 0, 1, 2 and so on, in order and without a gap.
pub Reachable-printed :
    (count iterations : ℕ) (s : Ring)
    → 0 < count
    → Reachable count iterations s
    → s.printed ≡ upto (length s.printed)
Reachable-printed count iterations s room r =
    let (round, turn, right, t) = Reachable-InTurn count iterations s room r in
    let long = ap length t.printed ∙ length-upto (lines_of right t.base) in
    t.printed ∙ ap upto (sym long)
