-- ===== src/EventProxy/Loop.antt =====
-- One round of the loop in `main` of rybalko/31/server.c, after `poll` has written the events, and how the
-- process ends: `CleanUp` with `FreeClients`, `FreeHosts`, `FreeServerFds` and `FreeCache`.
use posix_threads.Common.{
  ℕ, zero, suc, ◌/◌, ◌%◌, Bool, true, false, not, ◌&&◌, Option, none, some, List, [], ◌∷◌, ◌==◌,
  if◌then◌else◌, get_elem?, is_some, ◌>>=◌, ℤ, pos, minus_one, is_neg, ◌==ℤ◌, ltℤ,
}
use posix_threads.PoolProxy.PollTable.{PollFd}
use posix_threads.PoolProxy.Transfer.{ReadResult, WriteResult}
use posix_threads.EventProxy.{Client, Host, CacheItem, Server}
use posix_threads.EventProxy.Descriptors.{delete_from_poll}
use posix_threads.EventProxy.Tables.{get_client_id, get_host_id}
use posix_threads.EventProxy.Requests.{ClientIo, read_from_client, write_to_client, accept_client}
use posix_threads.EventProxy.Responses.{HostIo, read_from_host, write_to_host}

-- What is given from outside while one cell is handled.
pub record Io : Type 0 where
  pub client_io : ClientIo
  pub host_io : HostIo
  pub read : ReadResult
  pub write : ℤ → List ℕ → WriteResult
  pub accepted : ℤ
  pub clients_ok : Bool
  pub fds_ok : Bool

-- `revents & POLLIN` and `revents & POLLOUT`.
abbrev pub can_read : PollFd → Bool
can_read p = (p.revents % 2) == 1

abbrev pub can_write : PollFd → Bool
can_write p = ((p.revents / 4) % 2) == 1

-- The Boolean says whether the cell was handled.
unfoldable pub handle_input :
    Io → (client_idx host_idx : ℤ) → PollFd → Server → Option (Bool × Server)
handle_input io client_idx host_idx cell s =
    if can_read cell
    then ((if not (client_idx ==ℤ minus_one)
          then read_from_client io.client_io client_idx io.read s
          else if not (host_idx ==ℤ minus_one)
          then read_from_host io.host_io host_idx io.read s
          else some s)
        >>= λ s'. some (true, s'))
    else some (false, s)

unfoldable pub handle_output :
    Io → (client_idx host_idx : ℤ) → PollFd → Bool → Server → Option (Bool × Server)
handle_output io client_idx host_idx cell handled s =
    if can_write cell
    then ((if not (client_idx ==ℤ minus_one)
          then write_to_client io.write client_idx s
          else if not (host_idx ==ℤ minus_one)
          then write_to_host io.write host_idx s
          else some s)
        >>= λ s'. some (true, s'))
    else some (handled, s)

-- A descriptor of nobody is no longer polled.
unfoldable pub drop_unknown :
    (stop_fd listen_fd curr_fd client_idx host_idx : ℤ) → Server → Option Server
drop_unknown stop_fd listen_fd curr_fd client_idx host_idx s =
    if not (is_neg curr_fd)
      && (client_idx ==ℤ minus_one)
      && (host_idx ==ℤ minus_one)
      && not (curr_fd ==ℤ stop_fd)
      && not (curr_fd ==ℤ listen_fd)
    then delete_from_poll curr_fd s
    else some s

-- A cell that is neither the pipe's nor the listening socket's. The events of output are looked at again,
-- since the cell may have been cleared.
unfoldable pub handle_cell :
    Io → (stop_fd listen_fd : ℤ) → ℕ → PollFd → Server → Option (Bool × Server)
handle_cell io stop_fd listen_fd i cell s =
    let client_idx = get_client_id cell.fd s in
    let host_idx = get_host_id cell.fd s in
    handle_input io client_idx host_idx cell s >>= λ (handled, s1).
    get_elem? s1.server_fds i >>= λ cell1.
    handle_output io client_idx host_idx cell1 handled s1 >>= λ (handled', s2).
    drop_unknown stop_fd listen_fd cell.fd client_idx host_idx s2 >>= λ s3. some (handled', s3)

pub data Round : Type 0 where
  stopped : Server → Round
  passed : Bool → Server → Round

unfoldable pub handle : Io → (stop_fd listen_fd : ℤ) → ℕ → Server → Option Round
handle io stop_fd listen_fd i s = get_elem? s.server_fds i >>= λ cell.
    if (cell.fd ==ℤ stop_fd) && can_read cell
    then some (stopped s)
    else if (cell.fd ==ℤ listen_fd) && can_read cell
    then (accept_client io.clients_ok io.fds_ok io.accepted s >>= λ s'. some (passed true s'))
    else handle_cell io stop_fd listen_fd i cell s >>= λ (handled, s'). some (passed handled s')

-- `for (i = 0; i < last_fd && handled_fd < res; ++i)`, with `n` cells to go and `res` of them to be handled.
unfoldable pub run_round :
    (io : ℕ → Io) (stop_fd listen_fd : ℤ) → (n i res : ℕ) → Server → Option Round
run_round io stop_fd listen_fd zero i res s = some (passed true s)
run_round io stop_fd listen_fd (suc n) i zero s = some (passed true s)
run_round io stop_fd listen_fd (suc n) i (suc res) s = handle (io i) stop_fd listen_fd i s >>= λ r.
    elim r [
      | stopped s' ↦ some (stopped s')
      | passed handled s' ↦
          run_round io stop_fd listen_fd n (suc i) (if handled then res else suc res) s'
    ]

-- `FreeClients`, up to `free`; a request is freed too, which leaves nothing else behind.
unfoldable pub free_clients : List Client → Server → Option Server
free_clients [] s = some s
free_clients (c ∷ cs) s =
    (if c.fd ==ℤ minus_one then some s else delete_from_poll c.fd s) >>= free_clients cs

unfoldable pub free_hosts : List Host → Server → Option Server
free_hosts [] s = some s
free_hosts (h ∷ hs) s =
    (if h.fd ==ℤ minus_one then some s else delete_from_poll h.fd s) >>= free_hosts hs

-- The descriptors that the loop of `FreeServerFds` closes, the latest first.
unfoldable pub free_server_fds : ℕ → List PollFd → List ℤ → Option (List ℤ)
free_server_fds zero ps closed = some closed
free_server_fds (suc n) [] closed = none
free_server_fds (suc n) (p ∷ ps) closed =
    free_server_fds n ps (if ltℤ (pos 0) p.fd then p.fd ∷ closed else closed)

-- `CleanUp`: the descriptors that are closed in the end.
unfoldable pub clean_up : Server → Option (List ℤ)
clean_up s = free_clients s.clients s >>= free_hosts s.hosts >>= λ s'.
    free_server_fds s'.current s'.server_fds s'.closed

-- `FreeCache`: the requests and responses that it frees, those of the items with subscribers.
unfoldable pub free_cache : List CacheItem → List (Option (List ℕ))
free_cache [] = []
free_cache (it ∷ its) =
    let rest = free_cache its in
    if is_some it.subscribers then it.response ∷ it.request ∷ rest else rest
