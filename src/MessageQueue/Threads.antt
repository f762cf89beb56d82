-- ===== src/MessageQueue/Threads.antt =====
-- The threads of korneshchuk/25/main.c on one message queue: `producer_routine`, `consumer_routine` and
-- the call of `my_msg_drop` by `main`, as steps in any order. Any number of threads may run.
use posix_threads.Common.{
  ℕ, ◌≡◌, true, false, Option, none, some, List, [], ◌∷◌, ◌++◌, ◌==◌, if◌then◌else◌, length,
}
use posix_threads.Chain.{Heap}
use posix_threads.MessageQueue.{
  MyQueue, my_msg_init, my_msg_drop, sem_wait, put_under_lock, get_under_lock, buffer_size,
}

-- Where a thread is: at the test of its `while`, at `sem_wait`, past it, or at its end.
pub data Thread : Type 0 where
  producing : Thread
  putting : List ℕ → Thread
  put_ready : List ℕ → Thread
  consuming : Thread
  getting : Thread
  get_ready : Thread
  done : Thread

-- `sent` and `received` are the texts that `my_msg_put` took and `my_msg_get` gave, in order.
pub record System : Type 0 where
  pub queue : MyQueue
  pub threads : List Thread
  pub sent : List (List ℕ)
  pub received : List (List ℕ)

-- What a step does to the texts that were sent and received.
pub data Event : Type 0 where
  quiet : Event
  took : List ℕ → Event
  gave : List ℕ → Event

-- A thread leaves its loop when the result is 0.
abbrev pub next_of : Thread → ℕ → Thread
next_of t r = if r == 0 then done else t

abbrev pub put_event : ℕ → List ℕ → Event
put_event r msg = if r == 0 then quiet else took msg

abbrev pub get_event : Option (List ℕ) → Event
get_event none = quiet
get_event (some text) = gave text

-- What `malloc` answers: a null pointer, or an address where nothing is allocated.
abbrev pub IsUnused : Heap (List ℕ) → Option ℕ → Type 0
IsUnused h none = Unit
IsUnused h (some f) = h f ≡ none

-- `Act q t q' t' e`: a thread at `t` goes on to `t'`. The mutexes of a queue in use can be locked. A
-- call that has no result (`none`) is no act.
pub data Act : MyQueue → Thread → MyQueue → Thread → Event → Type 0 where
  put_starts :
      {q : MyQueue} {msg : List ℕ}
      → q.dropped ≡ false
      → length msg ≡ buffer_size
      → Act q producing q (putting msg) quiet
  put_waits :
      {q : MyQueue} {msg : List ℕ} (n : ℕ)
      → sem_wait q.full_sem ≡ some n
      → Act q (putting msg) (record q { full_sem = n }) (put_ready msg) quiet
  put_ends :
      {q q' : MyQueue} {msg : List ℕ} (fresh : Option ℕ) (r : ℕ)
      → IsUnused q.queue.heap fresh
      → put_under_lock true true fresh q msg ≡ some (r, q')
      → Act q (put_ready msg) q' (next_of producing r) (put_event r msg)
  put_leaves : {q : MyQueue} → q.dropped ≡ true → Act q producing q done quiet
  get_starts : {q : MyQueue} → q.dropped ≡ false → Act q consuming q getting quiet
  get_waits :
      {q : MyQueue} (n : ℕ)
      → sem_wait q.empty_sem ≡ some n
      → Act q getting (record q { empty_sem = n }) get_ready quiet
  get_ends :
      {q q' : MyQueue} (r : ℕ) (text : Option (List ℕ))
      → get_under_lock true true q buffer_size ≡ some (r, text, q')
      → Act q get_ready q' (next_of consuming r) (get_event text)
  get_leaves : {q : MyQueue} → q.dropped ≡ true → Act q consuming q done quiet

abbrev pub sent_after : Event → List (List ℕ) → List (List ℕ)
sent_after (took msg) sent = sent ++ msg ∷ []
sent_after e sent = sent

abbrev pub received_after : Event → List (List ℕ) → List (List ℕ)
received_after (gave text) received = received ++ text ∷ []
received_after e received = received

-- One of the threads acts, or `main` calls `my_msg_drop`, which it does once.
pub data Step : System → System → Type 0 where
  acts :
      {q q' : MyQueue} {sent received : List (List ℕ)} (ts us : List Thread) (t t' : Thread)
      (e : Event)
      → Act q t q' t' e
      → Step
          (record { queue = q; threads = ts ++ t ∷ us; sent = sent; received = received })
          (record {
            queue = q';
            threads = ts ++ t' ∷ us;
            sent = sent_after e sent;
            received = received_after e received;
          })
  drops :
      {q : MyQueue} {ts : List Thread} {sent received : List (List ℕ)}
      → q.dropped ≡ false
      → Step
          (record { queue = q; threads = ts; sent = sent; received = received })
          (record { queue = my_msg_drop q; threads = ts; sent = sent; received = received })

-- Every thread is at the test of its loop.
unfoldable pub Begins : List Thread → Type 0
Begins [] = Unit
Begins (producing ∷ ts) = Begins ts
Begins (consuming ∷ ts) = Begins ts
Begins (t ∷ ts) = ⊥

pub data Reachable : System → Type 0 where
  starts :
      (heap : Heap (List ℕ)) {ts : List Thread}
      → Begins ts
      → Reachable (record { queue = my_msg_init heap; threads = ts; sent = []; received = [] })
  steps : {s s' : System} → Reachable s → Step s s' → Reachable s'
