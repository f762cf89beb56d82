-- ===== src/MessageQueue/Destroy.antt =====
-- `destroy` of korneshchuk/25/thread_safe_queue.c.
use posix_threads.Common.{ℕ, zero, suc, ◌<◌, ◌≡◌, refl, some, [], ◌∷◌, List, arith, length}
use posix_threads.Chain.{Cells}
use posix_threads.MessageQueue.{Queue, destroy}
use posix_threads.MessageQueue.Fifo.{IsQueue, pop-IsQueue}

-- With one round of fuel more than there are texts the loop of `destroy` ends, without a bad memory
-- access, with an empty queue.
pub destroy-empties :
    (fuel : ℕ) (q : Queue) (cs : Cells (List ℕ))
    → IsQueue q cs
    → length cs < fuel
    → (q' : Queue) × (destroy fuel q ≡ some q') × IsQueue q' []
unfolding destroy
destroy-empties zero q cs is enough = absurd (omega arith)
destroy-empties (suc k) q [] is enough = (q, rw is.head refl, is)
destroy-empties (suc k) q ((a, v) ∷ cs) is enough =
    let (q1, e, is1) = pop-IsQueue q a v cs is in
    let (q2, e', is2) = destroy-empties k q1 cs is1 (omega arith) in
    (q2, rw (is.head, e, e', destroy) refl, is2)
