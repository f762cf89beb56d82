-- ===== src/TurnRing.antt =====
-- arkhipov/14/main.c: threads in a ring that print in turn. Each waits for its own semaphore, prints the
-- number of its line and posts the semaphore of its neighbour.
pub mod Turns
pub mod Lines
pub mod Progress
use posix_threads.Common.{
  ℕ, zero, suc, ◌+◌, ◌*◌, ◌<◌, ◌≡◌, List, [], ◌∷◌, ◌++◌, ◌==◌, if◌then◌else◌,
}

-- Where a thread is in `worker`: before the first post (thread 0 only), at the test of the loop and
-- `sem_wait`, at `printf`, or at `sem_post`.
pub data Place : Type 0 where
  starting : Place
  waiting : Place
  printing : Place
  posting : Place

-- `sems` is `rights_to_print`, `rounds` the `i` of each thread; `printed` are the numbers printed so
-- far.
pub record Ring : Type 0 where
  pub sems : ℕ → ℕ
  pub rounds : ℕ → ℕ
  pub places : ℕ → Place
  pub printed : List ℕ

abbrev pub set {ℓ} : {A : Type ℓ} → (ℕ → A) → ℕ → A → ℕ → A
set f i a j = if i == j then a else f j

-- `(idx + 1) % count` for an index below the count.
abbrev pub neighbour : ℕ → ℕ → ℕ
neighbour count idx = if (idx + 1) == count then 0 else idx + 1

abbrev pub global_iterator : ℕ → Ring → ℕ → ℕ
global_iterator count s idx = s.rounds idx * count + idx

abbrev pub initial : Ring
initial = record {
  sems = λ _. 0;
  rounds = λ _. 0;
  places = λ idx. if idx == 0 then starting else waiting;
  printed = [];
}

-- One step of thread `idx`.
pub data Step (count iterations : ℕ) : Ring → Ring → Type 0 where
  starts :
      {s : Ring}
      → s.places 0 ≡ starting
      → Step count iterations s
          (record s { sems = set s.sems 0 (s.sems 0 + 1); places = set s.places 0 waiting })
  waits :
      {s : Ring} (idx n : ℕ)
      → idx < count
      → s.places idx ≡ waiting
      → s.rounds idx < iterations
      → s.sems idx ≡ suc n
      → Step count iterations s
          (record s { sems = set s.sems idx n; places = set s.places idx printing })
  prints :
      {s : Ring} (idx : ℕ)
      → idx < count
      → s.places idx ≡ printing
      → Step count iterations s (record s {
        places = set s.places idx posting;
        printed = s.printed ++ global_iterator count s idx ∷ [];
      })
  posts :
      {s : Ring} (idx : ℕ)
      → idx < count
      → s.places idx ≡ posting
      → Step count iterations s (record s {
        sems = set s.sems (neighbour count idx) (s.sems (neighbour count idx) + 1);
        places = set s.places idx waiting;
        rounds = set s.rounds idx (s.rounds idx + 1);
      })

pub data Reachable (count iterations : ℕ) : Ring → Type 0 where
  begins : Reachable count iterations initial
  steps :
      {s s' : Ring}
      → Reachable count iterations s
      → Step count iterations s s'
      → Reachable count iterations s'
