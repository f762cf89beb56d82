-- ===== src/PoolProxy/TaskQueue.antt =====
-- matsko/33_proxy_with_thread_pool/task_queue.c: the queue of accepted descriptors that the main
-- thread fills and the pool threads empty. Each operation holds `queue_mutex` for all of its reads
-- and writes of the queue, so it is one step. The queue pointer is not null here.
pub mod Fifo
pub mod Destroy
use posix_threads.Common.{
  ℕ, zero, suc, Option, none, some, List, [], ◌∷◌, Bool, true, false, ◌==◌, if◌then◌else◌, ℤ, pos,
  minus_one,
}
use posix_threads.Chain.{Node, Heap, node, write}

-- `heap` holds the nodes; `calloc` answers with an address, or with a null pointer.
pub record TaskQueue : Type 0 where
  pub heap : Heap ℤ
  pub head : Option ℕ
  pub tail : Option ℕ

pub init_task_queue : Heap ℤ → TaskQueue
init_task_queue heap = record { heap = heap; head = none; tail = none }

-- `tail->next = new_node; tail = tail->next`; `none` is a read through a bad pointer.
hang : TaskQueue → ℕ → Option ℕ → Option TaskQueue
hang q f none = none
hang q f (some t) = elim (q.heap t) [
  | none ↦ none
  | some n ↦ some (record q { heap = write q.heap t (some (node n.value (some f))); tail = some f })
]

-- The part under the lock, with the new node at `f` in memory.
link : TaskQueue → ℕ → Option ℕ → Option TaskQueue
unfolding hang
link q f none = some (record q { head = some f; tail = some f })
link q f (some a) = hang q f q.tail

pub submit_task : (fresh : Option ℕ) → TaskQueue → ℤ → Option (ℤ × TaskQueue)
unfolding link
submit_task none q arg = some (minus_one, q)
submit_task (some f) q arg =
    let q' = record q { heap = write q.heap f (some (node arg none)) } in
    elim (link q' f q.head) [ none ↦ none | some r ↦ some (pos 0, r) ]

-- `ret = first_node->arg; free(first_node); return ret;`
take_node : TaskQueue → ℕ → Option (ℤ × TaskQueue)
take_node q a = elim (q.heap a) [
  | none ↦ none
  | some n ↦ some (n.value, record q { heap = write q.heap a none })
]

same_pointer : Option ℕ → Option ℕ → Bool
same_pointer none none = true
same_pointer none (some b) = false
same_pointer (some a) none = false
same_pointer (some a) (some b) = a == b

-- `head` is the first argument: with it the tail decides whether this is the only node.
pop_from : TaskQueue → Option ℕ → Option (ℤ × TaskQueue)
unfolding take_node same_pointer
pop_from q none = if same_pointer none q.tail then some (minus_one, q) else none
pop_from q (some a) =
    if same_pointer (some a) q.tail
    then take_node (record q { head = none; tail = none }) a
    else elim (q.heap a) [ none ↦ none | some n ↦ take_node (record q { head = n.next }) a ]

pub pop_task : TaskQueue → Option (ℤ × TaskQueue)
unfolding pop_from
pop_task q = pop_from q q.head

-- The loop of `destroyTaskQueue`, on fuel: `none` is a bad pointer, or that the fuel ran out.
free_nodes : ℕ → Heap ℤ → Option ℕ → Option (Heap ℤ)
free_nodes zero h p = none
free_nodes (suc k) h none = some h
free_nodes (suc k) h (some a) = elim (h a) [
  | none ↦ none
  | some n ↦ free_nodes k (write h a none) n.next
]

pub destroy_task_queue : ℕ → TaskQueue → Option TaskQueue
unfolding free_nodes
destroy_task_queue fuel q = elim (free_nodes fuel q.heap q.head) [
  | none ↦ none
  | some h ↦ some (record { heap = h; head = none; tail = none })
]
