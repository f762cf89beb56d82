-- ===== src/PoolProxy/Loop/Accepts.antt =====
-- A descriptor on its way from the queue of tasks to the clients of a thread.
use posix_threads.Common.{
  ℕ, ◌≡◌, refl, ◌∙◌, true, false, none, some, ◌∷◌, arith, ltb, get_elem?, modify, get_elem?-some,
  get_elem?-modify_self, ℤ, minus_one, is_neg, ◌==ℤ◌, ==ℤ_iff,
}
use posix_threads.Chain.{Cells}
use posix_threads.PoolProxy.PollTable.{PollFd, pollin}
use posix_threads.PoolProxy.PollTable.Invariant.{IsValid, watched}
use posix_threads.PoolProxy.PollTable.Refines.{Updated, add_fd-Updated}
use posix_threads.PoolProxy.TaskQueue.Fifo.{IsQueue, pop_task-IsQueue}
use posix_threads.PoolProxy.Slots.{ClientCell, client_fd, find_free_client, find_client_by_fd}
use posix_threads.PoolProxy.Slots.Table.{IsSized, Taken, found_cell}
use posix_threads.PoolProxy.Slots.Refines.{find_free_client-Taken}
use posix_threads.PoolProxy.World.{World}
use posix_threads.PoolProxy.Loop.{PoolThread, put_world, world_of, enter_client, take_task}

-- The descriptor `fd` is new: no client has it, and the table does not poll it.
pub record Newcomer (w : World) (fd : ℤ) : Type 0 where
  pub valid : is_neg fd ≡ false
  pub sized : IsSized w.clients
  pub no_client : find_client_by_fd w.clients fd ≡ minus_one
  pub table : IsValid w.table
  pub not_polled : watched fd w.table ≡ none

-- Some cell inside the array is a client with the descriptor and the eventfd of the thread, and the table polls the
-- descriptor for input and every other as before; servers and records are as they were.
pub record Entered (fd thread_fd : ℤ) (w w' : World) : Type 0 where
  pub index : ℕ
  pub cell : ClientCell
  pub at : get_elem? w'.clients.cells index ≡ some cell
  pub inside : ltb index w'.clients.size ≡ true
  pub fd_of : cell.fd ≡ fd
  pub wakes : cell.thread_fd ≡ thread_fd
  pub polled : Updated fd (some pollin) w.table w'.table
  pub servers : w'.servers ≡ w.servers
  pub records : w'.records ≡ w.records

enter_client-Entered :
    (memory : ℕ → PollFd) (thread_fd : ℤ) (w : World) (fd : ℤ)
    → Newcomer w fd
    → (w' : World) × (enter_client memory thread_fd w fd ≡ some w') × Entered fd thread_fd w w'
unfolding enter_client
enter_client-Entered memory thread_fd w fd a =
    let t : Taken client_fd fd w.clients (find_free_client w.clients fd) =
      find_free_client-Taken w.clients fd a.sized a.valid a.no_client in
    let clients = (find_free_client w.clients fd).1 in
    let j = t.index in
    let itself : (fd ==ℤ fd) ≡ true = (==ℤ_iff fd fd).1 refl in
    let (table, added, polled) =
      add_fd-Updated memory w.table fd pollin a.table a.valid a.not_polled in
    let (c, e) = get_elem?-some clients.cells j (omega (arith, t.inside, t.sized.sized)) in
    (
      record w {
        clients = record clients {
          cells = modify clients.cells j (λ c. record c { thread_fd = thread_fd });
        };
        table = table;
      },
      rw (t.answer, enter_client) (rw added refl),
      record {
        index = j;
        cell = record c { thread_fd = thread_fd };
        at = get_elem?-modify_self clients.cells j _ c e;
        inside = ground (arith, t.inside);
        fd_of = found_cell client_fd clients fd j c (t.finds fd a.valid ∙ rw itself refl) e;
        wakes = refl;
        polled = polled;
        servers = refl;
        records = refl;
      },
    )

-- A thread woken by the pipe with a descriptor in the queue, new to it: the first descriptor of the queue leaves it
-- and becomes a client of this thread, polled for input.
pub take_task-Entered :
    (memory : ℕ → PollFd) (thread_fd : ℤ) (t : PoolThread) (a : ℕ) (fd : ℤ) (cs : Cells ℤ)
    → IsQueue t.queue ((a, fd) ∷ cs)
    → Newcomer (world_of t) fd
    → (t' : PoolThread) × (take_task memory thread_fd t ≡ some t')
      × IsQueue t'.queue cs
      × Entered fd thread_fd (world_of t) (world_of t')
unfolding take_task
take_task-Entered memory thread_fd t a fd cs q n =
    let (q', e, is) = pop_task-IsQueue t.queue a fd cs q in
    let (w', f, entered) = enter_client-Entered memory thread_fd (world_of t) fd n in
    let other : (fd ==ℤ minus_one) ≡ false = ground (arith, n.valid, ==ℤ_iff fd minus_one) in
    (put_world (record t { queue = q' }) w', rw (e, take_task) (rw other (rw f refl)), is, entered)
