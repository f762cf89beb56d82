-- ===== src/TurnRing/Progress.antt =====
-- The threads of arkhipov/14/main.c do not block one another: as long as lines are missing, some
-- thread can go on.
use posix_threads.Common.{
  ℕ, suc, ◌*◌, ◌≤◌, ◌<◌, ◌≡◌, refl, sym, ap, ◌∙◌, inl, inr, ◌⊎◌, false, arith, ◌==◌, ==_iff, ltb,
  ltb→lt, Bool-cases,
}
use posix_threads.TurnRing.{
  printing, posting, Ring, Step, starts, waits, prints, posts, Reachable, begins, steps,
}
use posix_threads.TurnRing.Turns.{upto, Right, not_given, offered, taken, used, Turn, place_of}
use posix_threads.TurnRing.Lines.{Reachable-InTurn}

-- No thread makes more rounds than it should, and one in the body of its loop has a round left.
record Within (iterations : ℕ) (s : Ring) (j : ℕ) : Type 0 where
  most : s.rounds j ≤ iterations
  inside : s.places j ≡ printing → s.rounds j < iterations
  ending : s.places j ≡ posting → s.rounds j < iterations

Step-Within :
    (count iterations : ℕ) (s s' : Ring) (j : ℕ)
    → Within iterations s j
    → Step count iterations s s'
    → Within iterations s' j
Step-Within count iterations s s' j w (starts at) = record {
  most = w.most;
  inside = λ e. w.inside (ground arith);
  ending = λ e. w.ending (ground arith);
}
Step-Within count iterations s s' j w (waits idx n h at more v) = record {
  most = w.most;
  inside = λ e. elim (Bool-cases (idx == j)) [
    | inl same ↦ let equal = (==_iff idx j).0 same in rw (ap s.rounds equal) at more
    | inr other ↦ w.inside (sym (rw other refl) ∙ e)
  ];
  ending = λ e. w.ending (ground arith);
}
Step-Within count iterations s s' j w (prints idx h at) = record {
  most = w.most;
  inside = λ e. w.inside (ground arith);
  ending = λ e. elim (Bool-cases (idx == j)) [
    | inl same ↦ let equal = (==_iff idx j).0 same in w.inside (sym (ap s.places equal) ∙ at)
    | inr other ↦ w.ending (sym (rw other refl) ∙ e)
  ];
}
Step-Within count iterations s s' j w (posts idx h at) = elim (Bool-cases (idx == j)) [
  | inl same ↦
      let equal = (==_iff idx j).0 same in
      let left = w.ending (sym (ap s.places equal) ∙ at) in
      let rounds_same = ap s.rounds equal in
      record {
        most = rw same (omega arith);
        inside = λ e. ground arith;
        ending = λ e. ground arith;
      }
  | inr other ↦ record {
    most = rw other w.most;
    inside = λ e. rw other (w.inside (sym (rw other refl) ∙ e));
    ending = λ e. rw other (w.ending (sym (rw other refl) ∙ e));
  }
]

Reachable-Within :
    (count iterations : ℕ) (s : Ring) (j : ℕ) → Reachable count iterations s → Within iterations s j
Reachable-Within count iterations s j begins = record {
  most = omega arith;
  inside = λ e. ground arith;
  ending = λ e. ground arith;
}
Reachable-Within count iterations s j (steps {s = s0} r step) =
    Step-Within count iterations s0 s j (Reachable-Within count iterations s0 j r) step

-- Every thread has made its rounds, and all lines are printed.
pub record Finished (count iterations : ℕ) (s : Ring) : Type 0 where
  pub rounds : (j : ℕ) → j < count → s.rounds j ≡ iterations
  pub printed : s.printed ≡ upto (iterations * count)

all_made :
    (count iterations : ℕ) (s : Ring) (round turn : ℕ)
    → Turn count s round turn offered
    → ((j : ℕ) → Within iterations s j)
    → ltb (s.rounds turn) iterations ≡ false
    → Finished count iterations s
all_made count iterations s round turn t w over =
    let mine : s.rounds turn ≡ round = ground (arith, t.rounds turn t.inside) in
    let most = (w turn).most in
    let reached : round ≡ iterations = ground arith in
    let zero_turn : turn ≡ 0 = elim (Bool-cases (ltb 0 turn)) [
      | inl later ↦
          let before = t.rounds 0 (ground (arith, t.inside)) in
          let bound = (w 0).most in absurd (ground arith)
      | inr none_before ↦ ground arith
    ] in
    let all : t.base ≡ iterations * count = t.base_is ∙ rw (reached, zero_turn) (omega arith) in
    record {
      rounds = λ j h. let e = t.rounds j h in ground arith;
      printed = t.printed ∙ ap upto all;
    }

right_there :
    (count : ℕ) (s : Ring) (round turn : ℕ) (right : Right)
    → Turn count s round turn right
    → s.places turn ≡ place_of right
right_there count s round turn right t = ground (arith, t.places turn t.inside)

go_on :
    (count iterations : ℕ) (s : Ring) (round turn : ℕ) (right : Right)
    → Turn count s round turn right
    → ((j : ℕ) → Within iterations s j)
    → Finished count iterations s ⊎ ((s' : Ring) × Step count iterations s s')
go_on count iterations s round turn not_given t w =
    inr (_, starts (ap s.places (sym (t.first refl)) ∙ right_there count s round turn not_given t))
go_on count iterations s round turn taken t w =
    inr (_, prints turn t.inside (right_there count s round turn taken t))
go_on count iterations s round turn used t w =
    inr (_, posts turn t.inside (right_there count s round turn used t))
go_on count iterations s round turn offered t w =
    elim (Bool-cases (ltb (s.rounds turn) iterations)) [
      | inr over ↦ inl (all_made count iterations s round turn t w over)
      | inl more ↦
          let one : s.sems turn ≡ suc 0 = ground (arith, t.sems turn t.inside) in
          inr (
            _,
            waits turn 0 t.inside (right_there count s round turn offered t)
                (ltb→lt (s.rounds turn) iterations more) one,
          )
    ]

-- For any positive number of threads, in every reachable state: every thread has made its rounds and the
-- numbers up to iterations times threads are printed, or some thread can make a step.
pub Reachable-steps :
    (count iterations : ℕ) (s : Ring)
    → 0 < count
    → Reachable count iterations s
    → Finished count iterations s ⊎ ((s' : Ring) × Step count iterations s s')
Reachable-steps count iterations s room r =
    let (round, turn, right, t) = Reachable-InTurn count iterations s room r in
    go_on count iterations s round turn right t (λ j. Reachable-Within count iterations s j r)
