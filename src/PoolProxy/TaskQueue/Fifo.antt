-- ===== src/PoolProxy/TaskQueue/Fifo.antt =====
-- The task queue is a queue: what is popped is what was submitted, in that order.
use posix_threads.Common.{
  ℕ, ◌≡◌, refl, sym, subst, ◌∙◌, ap, inl, inr, false, Option, none, some, List, [], ◌∷◌, ◌++◌,
  arith, ◌==◌, ℤ, pos, minus_one, Option-cases,
}
use posix_threads.Chain.{Heap, node, write, Cells, start, last, values}
use posix_threads.Chain.Linked.{
  Linked, Linked-write, Linked-append, not-has, values-append, last-append, last-has, start-append,
  last-node, other_address,
}
use posix_threads.PoolProxy.TaskQueue.{TaskQueue, submit_task, pop_from, pop_task}

pub record IsQueue (q : TaskQueue) (cs : Cells ℤ) : Type 0 where
  pub linked : Linked q.heap cs
  pub head : q.head ≡ start cs
  pub tail : q.tail ≡ last cs

-- `submitTask` with memory at hand answers 0 and puts the descriptor behind the others.
pub submit_task-IsQueue :
    (q : TaskQueue) (cs : Cells ℤ) (f : ℕ) (arg : ℤ)
    → IsQueue q cs
    → q.heap f ≡ none
    → (q' : TaskQueue) × (submit_task (some f) q arg ≡ some (pos 0, q'))
      × IsQueue q' (cs ++ (f, arg) ∷ [])
unfolding submit_task
submit_task-IsQueue q [] f arg v fresh = (
  record { heap = write q.heap f (some (node arg none)); head = some f; tail = some f },
  rw v.head,
  record { linked = (ground arith, refl, tt); head = refl; tail = refl },
)
submit_task-IsQueue q ((a, u) ∷ cs) f arg v fresh =
    let h = write q.heap f (some (node arg none)) in
    let out = not-has q.heap ((a, u) ∷ cs) f v.linked fresh in
    let linked = Linked-write q.heap ((a, u) ∷ cs) f (some (node arg none)) v.linked out in
    let (t, w, e, at) = last-node h (a, u) cs linked in
    (
      record { heap = write h t (some (node w (some f))); head = some a; tail = some f },
      (let behind = v.tail ∙ e in ground arith),
      record {
        linked = Linked-append h (a, u) cs t f w arg linked e at (ground arith) out;
        head = sym (start-append (a, u) cs ((f, arg) ∷ []));
        tail = sym (last-append ((a, u) ∷ cs) f arg);
      },
    )

pop_from_more :
    (q : TaskQueue) (a t : ℕ) (v : ℤ) (next : Option ℕ)
    → q.tail ≡ some t
    → (t == a) ≡ false
    → q.heap a ≡ some (node v next)
    → pop_from q (some a) ≡ some (v, record q { heap = write q.heap a none; head = next })
unfolding pop_from
pop_from_more q a t v next behind other at =
    let apart : (a == t) ≡ false = ground arith in simp (behind, apart, at)

-- `popTask` of a queue with tasks answers the first, and the
-- queue then holds the others.
pub pop_task-IsQueue :
    (q : TaskQueue) (a : ℕ) (v : ℤ) (cs : Cells ℤ)
    → IsQueue q ((a, v) ∷ cs)
    → (q' : TaskQueue) × (pop_task q ≡ some (v, q')) × IsQueue q' cs
unfolding pop_task
pop_task-IsQueue q a v [] is = (
  record { heap = write q.heap a none; head = none; tail = none },
  ground arith,
  record { linked = tt; head = refl; tail = refl },
)
pop_task-IsQueue q a v ((b, w) ∷ cs) is =
    let (t, u, e, at) = last-node q.heap (b, w) cs is.linked.2 in
    let other : (t == a) ≡ false =
      other_address t a ((b, w) ∷ cs) (last-has t (b, w) cs e) is.linked.1 in
    let behind = is.tail ∙ e in
    (
      record q { heap = write q.heap a none; head = some b },
      ap (pop_from q) is.head ∙ pop_from_more q a t v (some b) behind other is.linked.0,
      record {
        linked = Linked-write q.heap ((b, w) ∷ cs) a none is.linked.2 is.linked.1;
        head = refl;
        tail = is.tail;
      },
    )

-- `popTask` of an empty queue answers -1.
pub pop_task-empty : (q : TaskQueue) → IsQueue q [] → pop_task q ≡ some (minus_one, q)
unfolding pop_task
pop_task-empty q is = ground arith

-- A client of the queue, and the list that it sees.
pub data Op : Type 0 where
  submit : ℤ → Op
  pop : Op

-- `calloc`: a null pointer, or an address at which nothing is allocated.
pub record Allocator : Type 0 where
  pub fresh : Heap ℤ → Option ℕ
  pub unused : (h : Heap ℤ) (f : ℕ) → fresh h ≡ some f → h f ≡ none

do_op : Allocator → Op → TaskQueue → Option (ℤ × TaskQueue)
do_op m (submit v) q = submit_task (m.fresh q.heap) q v
do_op m pop q = pop_task q

pub run_ops : Allocator → List Op → TaskQueue → Option (List ℤ × TaskQueue)
unfolding do_op
run_ops m [] q = some ([], q)
run_ops m (o ∷ os) q = elim (do_op m o q) [
  | none ↦ none
  | some (r, q') ↦ elim (run_ops m os q') [ none ↦ none | some (rs, q'') ↦ some (r ∷ rs, q'') ]
]

-- `Fifo os vs rs left`: a first-in first-out queue of the values `vs` gives the answers `rs` to `os`
-- and has the values `left` then. A submission may be refused.
pub data Fifo : List Op → List ℤ → List ℤ → List ℤ → Type 0 where
  done : {vs : List ℤ} → Fifo [] vs [] vs
  queued :
      {os : List Op} {v : ℤ} {vs rs left : List ℤ}
      → Fifo os (vs ++ v ∷ []) rs left
      → Fifo (submit v ∷ os) vs (pos 0 ∷ rs) left
  refused :
      {os : List Op} {v : ℤ} {vs rs left : List ℤ}
      → Fifo os vs rs left
      → Fifo (submit v ∷ os) vs (minus_one ∷ rs) left
  taken :
      {os : List Op} {v : ℤ} {vs rs left : List ℤ}
      → Fifo os vs rs left
      → Fifo (pop ∷ os) (v ∷ vs) (v ∷ rs) left
  nothing :
      {os : List Op} {rs left : List ℤ}
      → Fifo os [] rs left
      → Fifo (pop ∷ os) [] (minus_one ∷ rs) left

-- What a sequence of operations comes to.
pub record Ran (m : Allocator) (os : List Op) (q : TaskQueue) (cs : Cells ℤ) : Type 0 where
  pub after : TaskQueue
  pub cells : Cells ℤ
  pub answers : List ℤ
  pub runs : run_ops m os q ≡ some (answers, after)
  pub is_queue : IsQueue after cells
  pub fifo : Fifo os (values cs) answers (values cells)

submit_null : (q : TaskQueue) (v : ℤ) → submit_task none q v ≡ some (minus_one, q)
unfolding submit_task
submit_null q v = refl

-- Any sequence of submissions and removals runs without a bad access, with the answers of a
-- first-in first-out queue, and leaves a well-formed queue with the values of that one.
pub run_ops-fifo :
    (m : Allocator) (os : List Op) (q : TaskQueue) (cs : Cells ℤ) → IsQueue q cs → Ran m os q cs
unfolding run_ops
run_ops-fifo m [] q cs is = record {
  after = q;
  cells = cs;
  answers = [];
  runs = refl;
  is_queue = is;
  fifo = done;
}
run_ops-fifo m (submit v ∷ os) q cs is = elim (Option-cases (m.fresh q.heap)) [
  | inl e ↦
      let r = run_ops-fifo m os q cs is in
      record {
        after = r.after;
        cells = r.cells;
        answers = minus_one ∷ r.answers;
        runs = rw (e, submit_null q v, r.runs, run_ops);
        is_queue = r.is_queue;
        fifo = refused r.fifo;
      }
  | inr (f, e) ↦
      let (q', s, is') = submit_task-IsQueue q cs f v is (m.unused q.heap f e) in
      let r = run_ops-fifo m os q' (cs ++ (f, v) ∷ []) is' in
      record {
        after = r.after;
        cells = r.cells;
        answers = pos 0 ∷ r.answers;
        runs = rw (e, s, r.runs, run_ops);
        is_queue = r.is_queue;
        fifo =
            queued
              (subst (λ vs. Fifo os vs r.answers (values r.cells)) (values-append cs f v) r.fifo);
      }
]
run_ops-fifo m (pop ∷ os) q [] is =
    let r = run_ops-fifo m os q [] is in
    record {
      after = r.after;
      cells = r.cells;
      answers = minus_one ∷ r.answers;
      runs = rw (pop_task-empty q is, r.runs, run_ops);
      is_queue = r.is_queue;
      fifo = nothing r.fifo;
    }
run_ops-fifo m (pop ∷ os) q ((a, v) ∷ cs) is =
    let (q', e, is') = pop_task-IsQueue q a v cs is in
    let r = run_ops-fifo m os q' cs is' in
    record {
      after = r.after;
      cells = r.cells;
      answers = v ∷ r.answers;
      runs = rw (e, r.runs, run_ops);
      is_queue = r.is_queue;
      fifo = taken r.fifo;
    }
