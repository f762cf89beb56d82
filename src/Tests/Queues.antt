-- ===== src/Tests/Queues.antt =====
-- The task queue of matsko/33_proxy_with_thread_pool/task_queue.c at small inputs.
use posix_threads.Common.{
  ℕ, ◌≡◌, refl, none, some, Option, [], ◌∷◌, arith, ℤ, pos, ◌==◌, if◌then◌else◌,
}
use posix_threads.Chain.{Heap, Cells, node}
use posix_threads.PoolProxy.TaskQueue.{TaskQueue}
use posix_threads.PoolProxy.TaskQueue.Fifo.{IsQueue, submit, pop, Allocator, Ran, run_ops-fifo}

abbrev two_tasks : TaskQueue
two_tasks = record {
  heap = λ a.
      if a == 1
      then some (node (pos 40) (some 2))
      else if a == 2
      then some (node (pos 41) none)
      else none;
  head = some 1;
  tail = some 2;
}

abbrev two_cells : Cells ℤ
two_cells = (1, pos 40) ∷ (2, pos 41) ∷ []

two_tasks-IsQueue : IsQueue two_tasks two_cells
two_tasks-IsQueue = record { linked = (refl, refl, (refl, refl, tt)); head = refl; tail = refl }

-- One address, while it is free.
one_address : Heap ℤ → Option ℕ
one_address h = elim (h 3) [ none ↦ some 3 | some n ↦ none ]

one_address_unused : (h : Heap ℤ) (f : ℕ) → one_address h ≡ some f → h f ≡ none
unfolding one_address
one_address_unused h f e = ground arith

abbrev small_memory : Allocator
small_memory = record { fresh = one_address; unused = one_address_unused }

run_ops-fifo_example :
    Ran small_memory (pop ∷ submit (pos 42) ∷ submit (pos 43) ∷ pop ∷ pop ∷ []) two_tasks two_cells
run_ops-fifo_example =
    run_ops-fifo small_memory (pop ∷ submit (pos 42) ∷ submit (pos 43) ∷ pop ∷ pop ∷ []) two_tasks
      two_cells two_tasks-IsQueue
