-- ===== src/Tests/Messages.antt =====
-- The message queue of korneshchuk/25 at small inputs.
use posix_threads.Common.{
  ◌==◌, if◌then◌else◌, ℕ, ◌+◌, ◌≡◌, refl, ◌⊎◌, true, false, none, some, List, [], ◌∷◌, ◌++◌,
  replicate,
}
use posix_threads.MessageQueue.{
  Queue, push, MyQueue, my_msg_init, my_msg_drop, put_under_lock, get_under_lock, buffer_size,
}
use posix_threads.Chain.{node}
use posix_threads.MessageQueue.Threads.{
  producing, consuming, done, putting, put_ready, getting, get_ready, System, quiet, took,
  put_starts, put_waits, put_ends, put_leaves, get_starts, get_waits, get_leaves, Step, acts, drops,
  Reachable, starts, steps, Begins,
}
use posix_threads.MessageQueue.Invariant.{count}
use posix_threads.MessageQueue.Delivery.{Delivers, Reachable-Delivers, Reachable-gets}
use posix_threads.MessageQueue.Shutdown.{left, AllDone, Run, stays, goes, Run-ends}

abbrev new_queue : MyQueue
new_queue = record {
  queue = record { heap = λ _. none; head = none; tail = none };
  full_sem = 10;
  empty_sem = 0;
  dropped = false;
}

abbrev two_threads : System
two_threads = record {
  queue = new_queue;
  threads = producing ∷ consuming ∷ [];
  sent = [];
  received = [];
}

two_threads-Reachable : Reachable two_threads
unfolding my_msg_init Begins
two_threads-Reachable = starts (λ _. none) tt

-- `main` drops the queue at once.
abbrev dropped_queue : System
dropped_queue = record two_threads { queue = my_msg_drop new_queue }

dropped_queue-Reachable : Reachable dropped_queue
dropped_queue-Reachable = steps two_threads-Reachable (drops refl)

abbrev ended : System
ended = record dropped_queue { threads = done ∷ done ∷ [] }

both_leave : Run 2 dropped_queue ended
both_leave =
    goes (acts [] (consuming ∷ []) producing done quiet (put_leaves refl))
      (goes (acts (done ∷ []) [] consuming done quiet (get_leaves refl)) stays)

Run-ends_example :
    (2 + count left (done ∷ done ∷ []) ≡ count left (producing ∷ consuming ∷ []))
    × (AllDone (done ∷ done ∷ []) ⊎ ((s'' : System) × Step ended s''))
Run-ends_example = Run-ends 2 dropped_queue ended dropped_queue-Reachable refl both_leave

abbrev line : List ℕ
line = replicate 80 65

-- The producer has put a line, and the consumer has passed its semaphore.
put_line :
    (q : MyQueue) × Reachable (record {
      queue = q;
      threads = (producing ∷ []) ++ get_ready ∷ [];
      sent = line ∷ [];
      received = [];
    })
    × (q.dropped ≡ false)
unfolding put_under_lock push
put_line = (
  _,
  steps
      (steps
        (steps
          (steps
            (steps two_threads-Reachable
              (acts [] (consuming ∷ []) producing (putting line) quiet (put_starts refl refl)))
            (acts [] (consuming ∷ []) (putting line) (put_ready line) quiet (put_waits 9 refl)))
          (acts [] (consuming ∷ []) (put_ready line) producing (took line)
            (put_ends (some 1) 80 refl refl)))
        (acts (producing ∷ []) [] consuming getting quiet (get_starts refl)))
      (acts (producing ∷ []) [] getting get_ready quiet (get_waits 0 refl)),
  refl,
)

Reachable-Delivers_example : Delivers (record {
  queue = put_line.0;
  threads = producing ∷ get_ready ∷ [];
  sent = line ∷ [];
  received = [];
})
Reachable-Delivers_example = Reachable-Delivers _ put_line.1

Reachable-gets_example :
    (text : List ℕ) × (rest : List (List ℕ)) × (q' : MyQueue) × (get_under_lock true true put_line.0
        buffer_size
      ≡ some (80, some text, q'))
    × (line ∷ [] ≡ [] ++ text ∷ rest)
Reachable-gets_example =
    Reachable-gets put_line.0 (producing ∷ []) [] (line ∷ []) [] put_line.1 put_line.2

-- One text at address 1.
abbrev one_text : Queue
one_text = record {
  heap = λ a. if a == 1 then some (node (104 ∷ []) none) else none;
  head = some 1;
  tail = some 1;
}
