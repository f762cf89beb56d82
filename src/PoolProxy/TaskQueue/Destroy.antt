-- ===== src/PoolProxy/TaskQueue/Destroy.antt =====
-- `destroyTaskQueue` frees every node, once, and nothing else.
use posix_threads.Common.{
  ℕ, zero, suc, ◌<◌, ◌≡◌, refl, ◌∙◌, ap, none, some, [], ◌∷◌, arith, if◌then◌else◌, length, ℤ,
}
use posix_threads.Chain.{Heap, write, Cells, start, has}
use posix_threads.Chain.Linked.{Linked, Linked-write}
use posix_threads.PoolProxy.TaskQueue.{TaskQueue, free_nodes, destroy_task_queue}
use posix_threads.PoolProxy.TaskQueue.Fifo.{IsQueue}

-- `h` without the nodes of `cs`.
abbrev pub without : Heap ℤ → Cells ℤ → Heap ℤ
without h [] = h
without h ((a, v) ∷ cs) = without (write h a none) cs

free_nodes-without :
    (fuel : ℕ) (h : Heap ℤ) (cs : Cells ℤ)
    → Linked h cs
    → length cs < fuel
    → free_nodes fuel h (start cs) ≡ some (without h cs)
unfolding free_nodes
free_nodes-without zero h cs l enough = absurd (omega arith)
free_nodes-without (suc k) h [] l enough = refl
free_nodes-without (suc k) h ((a, v) ∷ cs) l enough =
    rw (l.0)
      (free_nodes-without k (write h a none) cs (Linked-write h cs a none l.2 l.1) (omega arith))

without_at : (h : Heap ℤ) (cs : Cells ℤ) (b : ℕ) → without h cs b ≡ (if has b cs then none else h b)
without_at h [] b = refl
without_at h ((a, v) ∷ cs) b = without_at (write h a none) cs b ∙ ground arith

-- With one round of fuel more than there are tasks the loop ends: each node of the queue is freed,
-- no freed node is read, and all other memory is as before.
pub destroy_task_queue-frees :
    (fuel : ℕ) (q : TaskQueue) (cs : Cells ℤ)
    → IsQueue q cs
    → length cs < fuel
    → (q' : TaskQueue) × (destroy_task_queue fuel q ≡ some q')
      × IsQueue q' []
      × ((b : ℕ) → q'.heap b ≡ (if has b cs then none else q.heap b))
unfolding destroy_task_queue
destroy_task_queue-frees fuel q cs is enough = (
  record { heap = without q.heap cs; head = none; tail = none },
  rw (
    ap (free_nodes fuel q.heap) is.head ∙ free_nodes-without fuel q.heap cs is.linked enough,
    destroy_task_queue,
  ),
  record { linked = tt; head = refl; tail = refl },
  without_at q.heap cs,
)
