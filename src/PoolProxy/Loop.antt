-- ===== src/PoolProxy/Loop.antt =====
-- The loop of a pool thread of matsko/33_proxy_with_thread_pool/proxy.c, `threadFunc`: what it does for
-- the events that `poll` has written to its table, from the start to the end of the thread.
pub mod Wakes
pub mod Accepts
pub mod Stale
use posix_threads.Common.{
  ℕ, zero, suc, ◌+◌, ◌-◌, ◌/◌, ◌%◌, Bool, true, false, not, ◌&&◌, ◌||◌, Option, none, some, List,
  [], ◌∷◌, ltb, leb, ◌==◌, if◌then◌else◌, length, get_elem?, modify, ℤ, pos, negsuc, minus_one,
  is_neg, ◌==ℤ◌,
}
use posix_threads.Chain.{Heap}
use posix_threads.PoolProxy.PollTable.{
  PollFd, PollTable, pollin, pollout, init_poll_fds, add_fd_to_poll_fds, change_event_for_fd,
  destroy_poll_fds,
}
use posix_threads.PoolProxy.TaskQueue.{TaskQueue, pop_task}
use posix_threads.PoolProxy.Slots.{
  Array, ClientCell, init_clients, init_servers, find_free_client, find_client_by_fd,
  find_server_by_fd,
}
use posix_threads.PoolProxy.Record.{Record}
use posix_threads.PoolProxy.World.{World, ◌>>=◌, set_client}
use posix_threads.PoolProxy.Transfer.{
  ReadResult, read_failed, read_bytes, WriteResult, read_from_server, write_to_client,
  write_to_server,
}
use posix_threads.PoolProxy.Cleanup.{destroy_clients, destroy_servers}
use posix_threads.PoolProxy.Admission.{Cached, with_world, Answers}
use posix_threads.PoolProxy.Request.{Parsed, Allocations, read_from_client}

-- What a thread works on, with the queue of tasks and `is_stop`, which all threads share.
pub record PoolThread : Type 0 where
  pub cached : Cached
  pub queue : TaskQueue
  pub is_stop : Bool

abbrev pub put_world : PoolThread → World → PoolThread
put_world t w = record t { cached = with_world t.cached w }

abbrev pub world_of : PoolThread → World
world_of t = t.cached.world

-- `revents & POLLIN` and `revents & POLLOUT`.
abbrev pub can_read : PollFd → Bool
can_read p = (p.revents % 2) == 1

abbrev pub can_write : PollFd → Bool
can_write p = ((p.revents / 4) % 2) == 1

-- What is given from outside while one cell is handled: the results of `read` and `write`, what the
-- parsers and the allocations answer, and what the other threads do while the list of records is
-- unlocked.
pub record Outside : Type 0 where
  pub fuel : ℕ
  pub others : Cached → Cached
  pub read : ReadResult
  pub write : WriteResult
  pub parse_request : Option (List ℕ) → ℕ → Parsed
  pub parse_response : Option (List ℕ) → ℕ → ℕ → ℤ × ℕ
  pub allocations : Allocations
  pub response_ok : Bool
  pub answers : List ℕ → Answers
  pub cells : ℕ → PollFd

-- A new client, in its cell and in the table; `none` is a cell outside an array.
unfoldable pub enter_client : (memory : ℕ → PollFd) → (thread_fd : ℤ) → World → ℤ → Option World
enter_client memory thread_fd w fd =
    let (num, clients) = find_free_client w.clients fd in
    (elim num [ pos j ↦ some j | negsuc j ↦ none ]) >>= λ j.
    add_fd_to_poll_fds memory w.table fd pollin >>= λ table. some (record w {
      clients = record clients {
        cells = modify clients.cells j (λ c. record c { thread_fd = thread_fd });
      };
      table = table;
    })

-- A descriptor of the queue becomes a client, if there is one.
unfoldable pub take_task : (memory : ℕ → PollFd) → (thread_fd : ℤ) → PoolThread → Option PoolThread
unfolding enter_client
take_task memory thread_fd t = pop_task t.queue >>= λ (fd, queue).
    let t' = record t { queue = queue } in
    if fd ==ℤ minus_one
    then some t'
    else (enter_client memory thread_fd (world_of t) fd >>= λ w. some (put_world t' w))

-- The pipe: its end is the signal to stop.
pipe_event : (memory : ℕ → PollFd) → (thread_fd : ℤ) → ReadResult → PoolThread → Option PoolThread
unfolding take_task
pipe_event memory thread_fd read_failed t = some t
pipe_event memory thread_fd (read_bytes []) t = some (record t { is_stop = true })
pipe_event memory thread_fd (read_bytes (b ∷ bytes)) t = take_task memory thread_fd t

-- `response_index > write_response_index` in unsigned numbers, where -1 is the greatest of all.
abbrev pub later : ℕ → ℤ → Bool
later n (pos k) = ltb k n
later n (negsuc k) = false

-- The events of a client whose record has more than the client was given.
-- The record is read under its lock; `none` is a dangling pointer or a lock that is destroyed.
pub wake_cell : (ℕ → Option Record) → ClientCell → PollTable → Option PollTable
wake_cell records c table = if c.fd ==ℤ minus_one then some table else elim c.cache_record [
  | none ↦ some table
  | some p ↦ records p >>= λ r.
      if r.valid_rw_lock
      then some (
          if later r.response_index c.write_response_index
          then change_event_for_fd table c.fd (pollin + pollout)
          else table)
      else none
]

-- The loop over the clients. The test `write_response_index < 0` inside it never holds there.
pub wake_cells : (ℕ → Option Record) → ℕ → List ClientCell → PollTable → Option PollTable
unfolding wake_cell
wake_cells records zero cells table = some table
wake_cells records (suc n) [] table = none
wake_cells records (suc n) (c ∷ cells) table =
    wake_cell records c table >>= wake_cells records n cells

pub wake_clients : World → Option World
unfolding wake_cells
wake_clients w = wake_cells w.records w.clients.size w.clients.cells w.table >>= λ table.
    some (record w { table = table })

-- The handlers for a cell that can be read, then for one that can be written: both are asked of the table
-- as it is then, for the client and server found before.
input_event : Outside → ℤ → ℤ → PoolThread → Option PoolThread
input_event o client_num server_num t =
    if not (client_num ==ℤ minus_one)
    then (read_from_client o.fuel o.others o.parse_request o.allocations o.answers t.cached
          client_num o.read
        >>= λ c. some (record t { cached = c }))
    else if not (server_num ==ℤ minus_one)
    then (read_from_server o.parse_response o.allocations.memory o.response_ok (world_of t)
          server_num o.read
        >>= λ w. some (put_world t w))
    else some t

output_event : Outside → ℤ → ℤ → PoolThread → Option PoolThread
output_event o client_num server_num t =
    if not (client_num ==ℤ minus_one)
    then (write_to_client (world_of t) client_num o.write >>= λ (w, sent). some (put_world t w))
    else if not (server_num ==ℤ minus_one)
    then (write_to_server (world_of t) server_num o.write >>= λ (w, sent). some (put_world t w))
    else some t

-- Whether the cell counts as handled, and the thread afterwards.
serve_cell : Outside → ℕ → PollFd → PoolThread → Option (Bool × PoolThread)
unfolding input_event output_event
serve_cell o i p t =
    let w = world_of t in
    let client_num = find_client_by_fd w.clients p.fd in
    let server_num =
      if client_num ==ℤ minus_one then find_server_by_fd w.servers p.fd else minus_one in
    (if can_read p then input_event o client_num server_num t else some t) >>= λ t'.
    get_elem? (world_of t').table.fds i >>= λ p'.
    (if can_write p' then output_event o client_num server_num t' else some t') >>= λ t''.
    some (can_read p || can_write p', t'')

module _ (outside : ℕ → Outside) (pipe_fd thread_fd : ℤ) where
  handle_cell : ℕ → PoolThread → Option (Bool × PoolThread)
  unfolding pipe_event wake_clients serve_cell
  handle_cell i t = get_elem? (world_of t).table.fds i >>= λ p.
      let o = outside i in
      if (p.fd ==ℤ pipe_fd) && can_read p
      then (pipe_event o.cells thread_fd o.read t >>= λ t'. some (true, t'))
      else if (p.fd ==ℤ thread_fd) && can_read p
      then (wake_clients (world_of t) >>= λ w. some (true, put_world t w))
      else serve_cell o i p t

  -- `while (num_handled_fd < poll_res && i < prev_last_index && !is_stop)`, for the cells from `i` on.
  handle_cells : (rounds i left : ℕ) → PoolThread → Option PoolThread
  unfolding handle_cell
  handle_cells zero i left t = some t
  handle_cells (suc rounds) i left t =
      if (left == 0) || t.is_stop
      then some t
      else (handle_cell i t >>= λ (handled, t').
          handle_cells rounds (i + 1) (if handled then left - 1 else left) t')

-- What `poll` answers: it failed or ran out of time, or it wrote `revents` to so many cells.
pub data PollResult : Type 0 where
  poll_ended : PollResult
  polled : (count : ℕ) → (revents : ℕ → ℕ) → (ℕ → Outside) → PollResult

write_revents : (ℕ → ℕ) → ℕ → List PollFd → List PollFd
write_revents revents i [] = []
write_revents revents i (p ∷ ps) =
    record p { revents = revents i } ∷ write_revents revents (suc i) ps

-- The loop of the thread over what `poll` answers in turn.
pub run_loop : (pipe_fd thread_fd : ℤ) → List PollResult → PoolThread → Option PoolThread
unfolding handle_cells write_revents
run_loop pipe_fd thread_fd [] t = some t
run_loop pipe_fd thread_fd (poll_ended ∷ rest) t = some t
run_loop pipe_fd thread_fd (polled count revents o ∷ rest) t =
    if t.is_stop
    then some t
    else (let w = world_of t in
        let table = record (w.table) { fds = write_revents revents 0 w.table.fds } in
        handle_cells o pipe_fd thread_fd w.table.last 0 count
          (put_world t (record w { table = table }))
        >>= run_loop pipe_fd thread_fd rest)

-- The three tables of a new thread, or which of the allocations failed.
pub start_world :
    (table_ok clients_ok servers_ok : Bool) (memory : ℕ → PollFd) (pipe_fd thread_fd : ℤ)
    → (ℕ → Option Record)
    → Option World
start_world table_ok clients_ok servers_ok memory pipe_fd thread_fd records =
    init_poll_fds table_ok 8 >>= λ table. init_clients clients_ok 8 >>= λ clients.
    init_servers servers_ok 4 >>= λ servers.
    add_fd_to_poll_fds memory table pipe_fd pollin >>= λ t1.
    add_fd_to_poll_fds memory t1 thread_fd pollin >>= λ t2.
    some (record { records = records; clients = clients; servers = servers; table = t2; told = [] })

-- The end: servers, clients, then the table; what is left are the records and the closed descriptors.
pub finish_thread : World → Option ((ℕ → Option Record) × List ℤ)
finish_thread w = destroy_servers w >>= λ w'.
    destroy_clients w' >>= λ w''. some (w''.records, destroy_poll_fds w''.table)
