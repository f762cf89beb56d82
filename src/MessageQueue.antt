-- ===== src/MessageQueue.antt =====
-- The message queue of korneshchuk/25: the linked queue of thread_safe_queue.c, and the bounded queue
-- of texts of myQueue.c on top of it, with two semaphores and a flag that ends its use. The part of
-- `my_msg_put` and of `my_msg_get` behind `sem_wait` holds the mutex, and is one step.
pub mod Fifo
pub mod Threads
pub mod Invariant
pub mod Acts
pub mod Delivery
pub mod Shutdown
pub mod Destroy
use posix_threads.Common.{
  ℕ, zero, suc, ◌+◌, Bool, true, false, not, Option, none, some, List, leb, if◌then◌else◌, take,
  length,
}
use posix_threads.Chain.{Heap, node, write}

-- `head`, `tail` and the nodes in memory; a text is the list of its characters, without the 0.
pub record Queue : Type 0 where
  pub heap : Heap (List ℕ)
  pub head : Option ℕ
  pub tail : Option ℕ

pub create : Heap (List ℕ) → Queue
create heap = record { heap = heap; head = none; tail = none }

-- `oldTail->next = element; queue->tail = element`; `none` is a write through a bad pointer.
set_next : Queue → ℕ → Option ℕ → Option Queue
set_next q f none = none
set_next q f (some t) = elim (q.heap t) [
  | none ↦ none
  | some n ↦ some (record q { heap = write q.heap t (some (node n.value (some f))); tail = some f })
]

attach : Queue → ℕ → Option ℕ → Option Queue
unfolding set_next
attach q f none = some (record q { head = some f; tail = some f })
attach q f (some a) = set_next q f q.tail

-- `fresh` is what `malloc` answers, which the code does not test; `locks` is whether the mutex can
-- be locked.
unfoldable pub push : (locks : Bool) (fresh : Option ℕ) → Queue → List ℕ → Option Queue
unfolding attach
push locks none q elem = none
push locks (some f) q elem =
    let q' = record q { heap = write q.heap f (some (node elem none)) } in
    if locks then attach q' f q.head else some q'

-- The tail is left as it is.
pop_head : Queue → Option ℕ → Option (Option (List ℕ) × Queue)
pop_head q none = some (none, q)
pop_head q (some a) = elim (q.heap a) [
  | none ↦ none
  | some n ↦ some (some n.value, record q { heap = write q.heap a none; head = n.next })
]

-- The text, or `none` for a null pointer.
pub pop : (locks : Bool) → Queue → Option (Option (List ℕ) × Queue)
unfolding pop_head
pop locks q = if locks then pop_head q q.head else some (none, q)

-- The loop of `destroy`, on fuel; the texts are freed too.
pub destroy : ℕ → Queue → Option Queue
unfolding pop
destroy zero q = none
destroy (suc k) q = elim q.head [
  | none ↦ some q
  | some a ↦ elim (pop true q) [ none ↦ none | some (tmp, q') ↦ destroy k q' ]
]

-- `MyQueue`; a semaphore is its value.
pub record MyQueue : Type 0 where
  pub queue : Queue
  pub full_sem : ℕ
  pub empty_sem : ℕ
  pub dropped : Bool

unfoldable pub my_msg_init : Heap (List ℕ) → MyQueue
unfolding create
my_msg_init heap = record { queue = create heap; full_sem = 10; empty_sem = 0; dropped = false }

abbrev pub my_msg_drop : MyQueue → MyQueue
my_msg_drop q = record q { dropped = true; empty_sem = q.empty_sem + 1; full_sem = q.full_sem + 1 }

-- `none`: the thread waits.
abbrev pub sem_wait : ℕ → Option ℕ
sem_wait zero = none
sem_wait (suc n) = some n

-- The space for a text, and `BUFFER_SIZE` of main.c.
abbrev pub buffer_size : ℕ
buffer_size = 80

-- `my_msg_put` behind `sem_wait(&full_sem)`: its result.
unfoldable pub put_under_lock :
    (locks inner : Bool) (fresh : Option ℕ) → MyQueue → List ℕ → Option (ℕ × MyQueue)
put_under_lock locks inner fresh q msg =
    if not locks
    then some (0, record q { full_sem = q.full_sem + 1 })
    else if q.dropped
    then some (0, record q { full_sem = q.full_sem + 1 })
    else elim (push inner fresh q.queue (take buffer_size msg)) [
      | none ↦ none
      | some l ↦ some (length msg, record q { queue = l; empty_sem = q.empty_sem + 1 })
    ]

-- `tmp[bufsize] = 0; strcpy(buf, tmp)`: outside `tmp` if it is shorter than that.
pub copy_text : ℕ → List ℕ → Option (List ℕ)
copy_text bufsize tmp = if leb bufsize (length tmp) then some (take bufsize tmp) else none

-- `my_msg_get` behind `sem_wait(&empty_sem)`: its result, and what it writes to `buf`.
unfoldable pub get_under_lock :
    (locks inner : Bool) → MyQueue → ℕ → Option (ℕ × Option (List ℕ) × MyQueue)
get_under_lock locks inner q bufsize =
    let refused = some (0, none, record q { empty_sem = q.empty_sem + 1 }) in
    if not locks then refused else if q.dropped then refused else elim (pop inner q.queue) [
      | none ↦ none
      | some (none, l) ↦ some (0, none, record q { queue = l; empty_sem = q.empty_sem + 1 })
      | some (some tmp, l) ↦ elim (copy_text bufsize tmp) [
        | none ↦ none
        | some buf ↦ some (length buf, some buf, record q { queue = l; full_sem = q.full_sem + 1 })
      ]
    ]
