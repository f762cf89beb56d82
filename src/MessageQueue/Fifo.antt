-- ===== src/MessageQueue/Fifo.antt =====
-- The linked queue of korneshchuk/25/thread_safe_queue.c as a list.
use posix_threads.Common.{
  ℕ, ◌≡◌, refl, sym, ◌∙◌, true, Option, none, some, List, [], ◌∷◌, ◌++◌, arith, ◌+◌, ◌≤◌, ◌<◌,
  length, take, take_all, leb, false,
}
use posix_threads.Chain.{node, write, Cells, start, last}
use posix_threads.Chain.Linked.{
  Linked, Linked-write, Linked-append, not-has, last-append, last-node, start-append,
}
use posix_threads.MessageQueue.{
  Queue, push, pop, MyQueue, put_under_lock, get_under_lock, copy_text, buffer_size,
}

-- The tail of an empty queue may be anything.
abbrev TailIs : Option ℕ → Cells (List ℕ) → Type 0
TailIs t [] = Unit
TailIs t (c ∷ cs) = t ≡ last (c ∷ cs)

pub record IsQueue (q : Queue) (cs : Cells (List ℕ)) : Type 0 where
  pub linked : Linked q.heap cs
  pub head : q.head ≡ start cs
  pub tail : TailIs q.tail cs

tail_last :
    (t : Option ℕ) (c : ℕ × List ℕ) (cs : Cells (List ℕ)) → t ≡ last (c ∷ cs) → TailIs t (c ∷ cs)
tail_last t c cs e = e

tail_rest : (t : Option ℕ) (c : ℕ × List ℕ) (cs : Cells (List ℕ)) → TailIs t (c ∷ cs) → TailIs t cs
tail_rest t c [] e = tt
tail_rest t c (d ∷ ds) e = e

-- `push` to a queue, with memory at hand, puts the text behind the others.
pub push-IsQueue :
    (q : Queue) (cs : Cells (List ℕ)) (f : ℕ) (elem : List ℕ)
    → IsQueue q cs
    → q.heap f ≡ none
    → (q' : Queue) × (push true (some f) q elem ≡ some q') × IsQueue q' (cs ++ (f, elem) ∷ [])
unfolding push
push-IsQueue q [] f elem v fresh = (
  record { heap = write q.heap f (some (node elem none)); head = some f; tail = some f },
  rw v.head,
  record { linked = (ground arith, refl, tt); head = refl; tail = refl },
)
push-IsQueue q ((a, u) ∷ cs) f elem v fresh =
    let h = write q.heap f (some (node elem none)) in
    let out = not-has q.heap ((a, u) ∷ cs) f v.linked fresh in
    let linked = Linked-write q.heap ((a, u) ∷ cs) f (some (node elem none)) v.linked out in
    let (t, w, e, at) = last-node h (a, u) cs linked in
    (
      record { heap = write h t (some (node w (some f))); head = some a; tail = some f },
      (let behind = v.tail ∙ e in ground arith),
      record {
        linked = Linked-append h (a, u) cs t f w elem linked e at (ground arith) out;
        head = sym (start-append (a, u) cs ((f, elem) ∷ []));
        tail = tail_last _ (a, u) (cs ++ (f, elem) ∷ []) (sym (last-append ((a, u) ∷ cs) f elem));
      },
    )

-- `pop` of a queue with texts answers the first, and the queue then holds the others.
pub pop-IsQueue :
    (q : Queue) (a : ℕ) (elem : List ℕ) (cs : Cells (List ℕ))
    → IsQueue q ((a, elem) ∷ cs)
    → (q' : Queue) × (pop true q ≡ some (some elem, q')) × IsQueue q' cs
unfolding pop
pop-IsQueue q a elem cs v = (
  record q { heap = write q.heap a none; head = start cs },
  rw (v.head, v.linked.0),
  record {
    linked = Linked-write q.heap cs a none v.linked.2 v.linked.1;
    head = refl;
    tail = tail_rest q.tail (a, elem) cs v.tail;
  },
)

-- A text put into an empty queue in use, with memory at hand, that is shorter than the size with
-- which it is got: `my_msg_put` takes it, and `my_msg_get` then writes outside of it.
pub short_text-faults :
    (q : MyQueue) (f bufsize : ℕ) (msg : List ℕ)
    → IsQueue q.queue []
    → q.dropped ≡ false
    → q.queue.heap f ≡ none
    → length msg ≤ buffer_size
    → length msg < bufsize
    → (q' : MyQueue) × (put_under_lock true true (some f) q msg ≡ some (length msg, q'))
      × (get_under_lock true true q' bufsize ≡ none)
unfolding put_under_lock get_under_lock copy_text
short_text-faults q f bufsize msg is live fresh fits short =
    let (l, e, is') = push-IsQueue q.queue [] f msg is fresh in
    let (l', e', is'') = pop-IsQueue l f msg [] is' in
    let whole : take 80 msg ≡ msg = take_all 80 msg fits in
    let too_short : leb bufsize (length msg) ≡ false = ground arith in
    (
      record q { queue = l; empty_sem = q.empty_sem + 1 },
      simp (live, whole, e),
      simp (live, e', too_short),
    )
