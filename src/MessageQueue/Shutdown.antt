-- ===== src/MessageQueue/Shutdown.antt =====
-- After `my_msg_drop` every thread of korneshchuk/25/main.c comes to its end, whatever the order of the
-- steps: the one more that each semaphore then has is handed on from thread to thread.
use posix_threads.Common.{
  ℕ, suc, ◌+◌, ◌<◌, ◌≡◌, refl, sym, subst, ◌∙◌, ap, inl, inr, ◌⊎◌, true, none, List, [], ◌∷◌, ◌++◌,
  arith, Bool-cases, ltb, ltb→lt, Option-cases,
}
use posix_threads.Chain.{Cells}
use posix_threads.MessageQueue.{MyQueue, sem_wait}
use posix_threads.MessageQueue.Threads.{
  Thread, producing, putting, put_ready, consuming, getting, get_ready, done, System, Event, quiet,
  Act, put_starts, put_waits, put_ends, put_leaves, get_starts, get_waits, get_ends, get_leaves,
  Step, acts, drops, Reachable, steps, next_of,
}
use posix_threads.MessageQueue.Invariant.{put_count, get_count, count, count-append, Balanced}
use posix_threads.MessageQueue.Acts.{put_refused, get_refused, same_value}
use posix_threads.MessageQueue.Delivery.{Reachable-Holds}

-- The steps that a thread has left once the queue is dropped.
abbrev pub left : Thread → ℕ
left (putting msg) = 2
left getting = 2
left done = 0
left t = 1

-- Once the queue is dropped an act takes a thread nearer to its end, and the queue stays dropped.
Act-left :
    (q q' : MyQueue) (t t' : Thread) (e : Event)
    → q.dropped ≡ true
    → Act q t q' t' e
    → (suc (left t') ≡ left t) × (q'.dropped ≡ true)
Act-left q q' t t' e over (put_starts live size) = ground arith
Act-left q q' t t' e over (put_waits n w) = (refl, over)
Act-left q q' t t' e over (put_ends f r fresh s) =
    let same = same_value (put_refused q f _ over) s in
    (
      ap (λ x. suc (left (next_of producing x.0))) (sym same),
      ap (λ x. x.1.dropped) (sym same) ∙ over,
    )
Act-left q q' t t' e over (put_leaves _) = (refl, over)
Act-left q q' t t' e over (get_starts live) = ground arith
Act-left q q' t t' e over (get_waits n w) = (refl, over)
Act-left q q' t t' e over (get_ends r text s) =
    let same = same_value (get_refused q over) s in
    (
      ap (λ x. suc (left (next_of consuming x.0))) (sym same),
      ap (λ x. x.2.dropped) (sym same) ∙ over,
    )
Act-left q q' t t' e over (get_leaves _) = (refl, over)

-- Each step after `my_msg_drop` lowers the number of steps that are left in all.
Step-left :
    (s s' : System)
    → s.queue.dropped ≡ true
    → Step s s'
    → (suc (count left s'.threads) ≡ count left s.threads) × (s'.queue.dropped ≡ true)
Step-left s s' over (acts ts us t t' e a) =
    let (nearer, still) = Act-left _ _ t t' e over a in
    (omega (arith, count-append left ts t us, count-append left ts t' us), still)
Step-left s s' over (drops live) = ground arith

-- A list in which something is counted has a thread that counts.
find_counted :
    (c : Thread → ℕ) (ts : List Thread)
    → 0 < count c ts
    → (before : List Thread) × (t : Thread) × (after : List Thread) × (ts ≡ before ++ t ∷ after)
      × (0 < c t)
unfolding count
find_counted c [] some_there = absurd (omega arith)
find_counted c (t ∷ ts) some_there = elim (Bool-cases (ltb 0 (c t))) [
  | inl here ↦ ([], t, ts, refl, ltb→lt 0 (c t) here)
  | inr not_here ↦
      let (before, u, after, same, counts) = find_counted c ts (ground arith) in
      (t ∷ before, u, after, ap (◌∷◌ t) same, counts)
]

module _ (q : MyQueue) (sent received : List (List ℕ)) where
  abbrev state : List Thread → System
  state ts = record { queue = q; threads = ts; sent = sent; received = received }

  abbrev CanStep : List Thread → Type 0
  CanStep ts = (s' : System) × Step (state ts) s'

  Act-there :
      (q' : MyQueue) (ts before after : List Thread) (t t' : Thread) (e : Event)
      → ts ≡ before ++ t ∷ after
      → Act q t q' t' e
      → CanStep ts
  Act-there q' ts before after t t' e same a =
      subst CanStep (sym same) (_, acts before after t t' e a)

  ready_put :
      (t : Thread)
      → 0 < put_count t
      → q.dropped ≡ true
      → (q' : MyQueue) × (t' : Thread) × (e : Event) × Act q t q' t' e
  ready_put (put_ready msg) is over = (_, _, _, put_ends none 0 tt (put_refused q none msg over))
  ready_put producing is over = absurd (omega arith)
  ready_put (putting msg) is over = absurd (omega arith)
  ready_put consuming is over = absurd (omega arith)
  ready_put getting is over = absurd (omega arith)
  ready_put get_ready is over = absurd (omega arith)
  ready_put done is over = absurd (omega arith)

  ready_get :
      (t : Thread)
      → 0 < get_count t
      → q.dropped ≡ true
      → (q' : MyQueue) × (t' : Thread) × (e : Event) × Act q t q' t' e
  ready_get get_ready is over = (_, _, _, get_ends 0 none (get_refused q over))
  ready_get producing is over = absurd (omega arith)
  ready_get (putting msg) is over = absurd (omega arith)
  ready_get (put_ready msg) is over = absurd (omega arith)
  ready_get consuming is over = absurd (omega arith)
  ready_get getting is over = absurd (omega arith)
  ready_get done is over = absurd (omega arith)

  -- A thread past `sem_wait` can go on.
  step_put : (ts : List Thread) → q.dropped ≡ true → 0 < count put_count ts → CanStep ts
  step_put ts over some_there =
      let (before, t, after, same, is) = find_counted put_count ts some_there in
      let (q', t', e, a) = ready_put t is over in Act-there q' ts before after t t' e same a

  step_get : (ts : List Thread) → q.dropped ≡ true → 0 < count get_count ts → CanStep ts
  step_get ts over some_there =
      let (before, t, after, same, is) = find_counted get_count ts some_there in
      let (q', t', e, a) = ready_get t is over in Act-there q' ts before after t t' e same a

  -- A thread that is not at its end can go on, or waits for one that can.
  step_of :
      (cs : Cells (List ℕ)) (ts before after : List Thread) (t : Thread)
      → Balanced q cs (count put_count ts) (count get_count ts)
      → q.dropped ≡ true
      → 0 < left t
      → ts ≡ before ++ t ∷ after
      → CanStep ts
  step_of cs ts before after producing b over is same =
      Act-there q ts before after producing done quiet same (put_leaves over)
  step_of cs ts before after (putting msg) b over is same =
      elim (Option-cases (sem_wait q.full_sem)) [
        | inl none_left ↦ step_put ts over (ground (arith, b.places, b.room))
        | inr (n, w) ↦
            Act-there _ ts before after (putting msg) (put_ready msg) quiet same (put_waits n w)
      ]
  step_of cs ts before after (put_ready msg) b over is same =
      let (q', t', e, a) = ready_put (put_ready msg) (omega arith) over in
      Act-there q' ts before after (put_ready msg) t' e same a
  step_of cs ts before after consuming b over is same =
      Act-there q ts before after consuming done quiet same (get_leaves over)
  step_of cs ts before after getting b over is same = elim (Option-cases (sem_wait q.empty_sem)) [
    | inl none_left ↦ step_get ts over (ground (arith, b.offered))
    | inr (n, w) ↦ Act-there _ ts before after getting get_ready quiet same (get_waits n w)
  ]
  step_of cs ts before after get_ready b over is same =
      let (q', t', e, a) = ready_get get_ready (omega arith) over in
      Act-there q' ts before after get_ready t' e same a
  step_of cs ts before after done b over is same = absurd (omega arith)

-- Every thread is at its end.
unfoldable pub AllDone : List Thread → Type 0
AllDone [] = Unit
AllDone (done ∷ ts) = AllDone ts
AllDone (t ∷ ts) = ⊥

nothing-left : (ts : List Thread) → count left ts ≡ 0 → AllDone ts
unfolding AllDone count
nothing-left [] e = tt
nothing-left (done ∷ ts) e = nothing-left ts (omega arith)
nothing-left (producing ∷ ts) e = absurd (omega arith)
nothing-left (putting msg ∷ ts) e = absurd (omega arith)
nothing-left (put_ready msg ∷ ts) e = absurd (omega arith)
nothing-left (consuming ∷ ts) e = absurd (omega arith)
nothing-left (getting ∷ ts) e = absurd (omega arith)
nothing-left (get_ready ∷ ts) e = absurd (omega arith)

done_or_steps :
    (s : System)
    → Reachable s
    → s.queue.dropped ≡ true
    → AllDone s.threads ⊎ ((s' : System) × Step s s')
done_or_steps s r over = elim (Bool-cases (ltb 0 (count left s.threads))) [
  | inr no_step ↦ inl (nothing-left s.threads (ground arith))
  | inl more ↦
      let (cs, h) = Reachable-Holds s r in
      let (before, t, after, same, is) =
        find_counted left s.threads (ltb→lt 0 (count left s.threads) more) in
      inr (step_of s.queue s.sent s.received cs s.threads before after t h.balanced over is same)
]

-- `n` steps from `s` to `s'`.
pub data Run : ℕ → System → System → Type 0 where
  stays : {s : System} → Run 0 s s
  goes : {n : ℕ} {s s' s'' : System} → Step s s' → Run n s' s'' → Run (suc n) s s''

-- After `my_msg_drop`, in any reachable state, whatever steps are taken: each lowers the number of
-- steps that the threads have left by one, and when no further step can be taken every thread is
-- at its end.
pub Run-ends :
    (n : ℕ) (s s' : System)
    → Reachable s
    → s.queue.dropped ≡ true
    → Run n s s'
    → (n + count left s'.threads ≡ count left s.threads)
      × (AllDone s'.threads ⊎ ((s'' : System) × Step s' s''))
Run-ends n s s' r over stays = (omega arith, done_or_steps s r over)
Run-ends n s s' r over (goes {n = m} {s' = s1} step run) =
    let (fewer, still) = Step-left s s1 over step in
    let (same, ends) = Run-ends m s1 s' (steps r step) still run in (omega arith, ends)
