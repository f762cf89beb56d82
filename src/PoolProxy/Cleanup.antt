-- ===== src/PoolProxy/Cleanup.antt =====
-- What a pool thread of matsko/33_proxy_with_thread_pool/proxy.c does with its clients and servers at its
-- end: `destroyClients` and `destroyServers`. The cells are reset and freed at once, so what is left
-- to see are the poll table and the records.
pub mod Releases
pub mod Servers
use posix_threads.Common.{
  ℕ, zero, suc, Option, none, some, List, [], ◌∷◌, if◌then◌else◌, minus_one, ◌==ℤ◌,
}
use posix_threads.PoolProxy.PollTable.{PollTable, remove_from_poll_fds}
use posix_threads.PoolProxy.Slots.{ClientCell, ServerCell}
use posix_threads.PoolProxy.World.{World, drop_fd, ◌>>=◌, put_record}

-- The loop over the clients; `none` is a cell outside the array.
pub release_clients : ℕ → List ClientCell → PollTable → Option PollTable
release_clients zero cells t = some t
release_clients (suc n) [] t = none
release_clients (suc n) (c ∷ cells) t = release_clients n cells (drop_fd t c.fd)

pub destroy_clients : World → Option World
unfolding release_clients
destroy_clients w = release_clients w.clients.size w.clients.cells w.table >>= λ t.
    some (record w { clients = record { cells = []; size = 0 }; table = t })

-- One round of the loop over the servers: the record of a connected server is not tested for null.
pub release_server : ServerCell → World → Option World
release_server s w =
    if s.fd ==ℤ minus_one
    then some w
    else (s.cache_record >>= λ p. w.records p >>= λ r. some (
        put_record (record w { table = remove_from_poll_fds w.table s.fd }) p
          (record r { server_index = minus_one })))

pub release_servers : ℕ → List ServerCell → World → Option World
unfolding release_server
release_servers zero cells w = some w
release_servers (suc n) [] w = none
release_servers (suc n) (s ∷ cells) w = release_server s w >>= release_servers n cells

pub destroy_servers : World → Option World
unfolding release_servers
destroy_servers w = release_servers w.servers.size w.servers.cells w >>= λ w'.
    some (record w' { servers = record { cells = []; size = 0 } })
