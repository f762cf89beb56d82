-- ===== src/TurnRing/Turns.antt =====
-- Whose turn it is among the threads of arkhipov/14/main.c, and what each step does to it.
use posix_threads.Common.{
  ℕ, zero, suc, ◌+◌, ◌*◌, ◌<◌, ◌≡◌, refl, sym, ◌∙◌, inl, inr, List, [], ◌∷◌, ◌++◌, arith, ◌==◌,
  ==_iff, ltb, if◌then◌else◌, Bool-cases,
}
use posix_threads.TurnRing.{
  Place, starting, waiting, printing, posting, Ring, set, neighbour, global_iterator, initial,
}

-- 0, 1, ..., n - 1.
unfoldable pub upto : ℕ → List ℕ
upto zero = []
upto (suc n) = upto n ++ n ∷ []

-- Where the right to print is: with thread 0 before its first post, in the semaphore of the thread
-- whose turn it is, or with that thread.
pub data Right : Type 0 where
  not_given : Right
  offered : Right
  taken : Right
  used : Right

abbrev pub place_of : Right → Place
place_of not_given = starting
place_of offered = waiting
place_of taken = printing
place_of used = posting

abbrev pub sem_of : Right → ℕ
sem_of offered = 1
sem_of r = 0

abbrev pub lines_of : Right → ℕ → ℕ
lines_of used m = suc m
lines_of r m = m

-- In round `round` it is the turn of thread `turn`, and `right` is where the right to print is.
pub record Turn (count : ℕ) (s : Ring) (round turn : ℕ) (right : Right) : Type 0 where
  pub inside : turn < count
  pub places : (j : ℕ) → j < count → s.places j ≡ (if turn == j then place_of right else waiting)
  pub sems : (j : ℕ) → j < count → s.sems j ≡ (if turn == j then sem_of right else 0)
  pub rounds : (j : ℕ) → j < count → s.rounds j ≡ (if ltb j turn then suc round else round)
  pub base : ℕ
  pub base_is : base ≡ round * count + turn
  pub printed : s.printed ≡ upto (lines_of right base)
  pub first : right ≡ not_given → turn ≡ 0

pub initial-Turn : (count : ℕ) → 0 < count → Turn count initial 0 0 not_given
unfolding upto
initial-Turn count room = record {
  inside = room;
  places = λ j h. ground arith;
  sems = λ j h. ground arith;
  rounds = λ j h. ground arith;
  base = 0;
  base_is = omega arith;
  printed = refl;
  first = λ e. refl;
}

-- A thread that does not wait is the one whose turn it is.
pub whose :
    (turn idx : ℕ) (p : Place) (right : Right)
    → p ≡ (if turn == idx then place_of right else waiting)
    → (p ≡ waiting → ⊥)
    → (turn ≡ idx) × (p ≡ place_of right)
whose turn idx p right e busy = elim (Bool-cases (turn == idx)) [
  | inl h ↦ ((==_iff turn idx).0 h, e ∙ rw h refl)
  | inr h ↦ absurd (busy (e ∙ rw h refl))
]

abbrev pub InTurn : ℕ → Ring → Type 0
InTurn count s = (round : ℕ) × (turn : ℕ) × (right : Right) × Turn count s round turn right

pub start-Turn :
    (count : ℕ) (s : Ring) (round turn : ℕ) (right : Right)
    → Turn count s round turn right
    → s.places 0 ≡ starting
    → InTurn count
        (record s { sems = set s.sems 0 (s.sems 0 + 1); places = set s.places 0 waiting })
start-Turn count s round turn not_given t at =
    let zero_turn = t.first refl in
    (
      round,
      turn,
      offered,
      record {
        inside = t.inside;
        places = λ j h. let e = t.places j h in ground (arith, ==_iff turn j);
        sems = λ j h.
            let e = t.sems j h in
            let none_yet = t.sems 0 (omega (arith, t.inside)) in ground (arith, ==_iff 0 j);
        rounds = t.rounds;
        base = t.base;
        base_is = t.base_is;
        printed = t.printed;
        first = λ e. zero_turn;
      },
    )
start-Turn count s round turn offered t at =
    let e = t.places 0 (omega (arith, t.inside)) in absurd (ground arith)
start-Turn count s round turn taken t at =
    let e = t.places 0 (omega (arith, t.inside)) in absurd (ground arith)
start-Turn count s round turn used t at =
    let e = t.places 0 (omega (arith, t.inside)) in absurd (ground arith)

pub place_right : (right : Right) → place_of right ≡ printing → right ≡ taken
place_right not_given e = ground arith
place_right offered e = ground arith
place_right taken e = refl
place_right used e = ground arith

pub posted : (right : Right) → place_of right ≡ posting → right ≡ used
posted not_given e = ground arith
posted offered e = ground arith
posted taken e = ground arith
posted used e = refl

pub offered_to :
    (turn idx n : ℕ) (right : Right)
    → (if turn == idx then sem_of right else 0) ≡ suc n
    → (turn ≡ idx) × (right ≡ offered)
offered_to turn idx n not_given e = ground arith
offered_to turn idx n offered e = ground (arith, ==_iff turn idx)
offered_to turn idx n taken e = ground arith
offered_to turn idx n used e = ground arith

pub print-Turn :
    (count : ℕ) (s : Ring) (round turn : ℕ)
    → Turn count s round turn taken
    → Turn count
        (record s {
          places = set s.places turn posting;
          printed = s.printed ++ global_iterator count s turn ∷ [];
        })
        round
        turn
        used
unfolding upto
print-Turn count s round turn t = record {
  inside = t.inside;
  places = λ j h. let e = t.places j h in ground (arith, ==_iff turn j);
  sems = λ j h. t.sems j h;
  rounds = t.rounds;
  base = t.base;
  base_is = t.base_is;
  printed =
      let here : s.rounds turn ≡ round = ground (arith, t.rounds turn t.inside) in
      let line : global_iterator count s turn ≡ t.base = rw here (sym t.base_is) in
      rw (line, t.printed) refl;
  first = λ e. ground arith;
}

pub wait-Turn :
    (count : ℕ) (s : Ring) (round turn n : ℕ)
    → Turn count s round turn offered
    → s.sems turn ≡ suc n
    → Turn count
        (record s { sems = set s.sems turn n; places = set s.places turn printing })
        round
        turn
        taken
wait-Turn count s round turn n t v = record {
  inside = t.inside;
  places = λ j h. let e = t.places j h in ground (arith, ==_iff turn j);
  sems =
      λ j h. let e = t.sems j h in let mine = t.sems turn t.inside in ground (arith, ==_iff turn j);
  rounds = t.rounds;
  base = t.base;
  base_is = t.base_is;
  printed = t.printed;
  first = λ e. ground arith;
}

pub post-Turn :
    (count : ℕ) (s : Ring) (round turn : ℕ)
    → Turn count s round turn used
    → InTurn count (record s {
      sems = set s.sems (neighbour count turn) (s.sems (neighbour count turn) + 1);
      places = set s.places turn waiting;
      rounds = set s.rounds turn (s.rounds turn + 1);
    })
post-Turn count s round turn t = elim (Bool-cases ((turn + 1) == count)) [
  | inl last ↦ (
    suc round,
    0,
    offered,
    record {
      inside = ground arith;
      places = λ j h. let e = t.places j h in ground (arith, ==_iff turn j);
      sems = λ j h.
          let e = t.sems j h in
          let zero_sem = t.sems 0 (omega (arith, t.inside)) in rw last (ground (arith, ==_iff 0 j));
      rounds = λ j h. let e = t.rounds j h in ground (arith, ==_iff turn j);
      base = suc t.base;
      base_is = omega (arith, t.base_is, (==_iff (turn + 1) count).0 last);
      printed = t.printed;
      first = λ e. refl;
    },
  )
  | inr more ↦ (
    round,
    suc turn,
    offered,
    record {
      inside = ground (arith, t.inside);
      places = λ j h. let e = t.places j h in ground (arith, ==_iff turn j);
      sems = λ j h.
          let e = t.sems j h in
          let next = t.sems (turn + 1) (ground (arith, t.inside)) in
          rw more (ground (arith, ==_iff (turn + 1) j));
      rounds = λ j h. let e = t.rounds j h in ground (arith, ==_iff turn j);
      base = suc t.base;
      base_is = omega (arith, t.base_is);
      printed = t.printed;
      first = λ e. ground arith;
    },
  )
]
