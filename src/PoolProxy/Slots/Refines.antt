-- ===== src/PoolProxy/Slots/Refines.antt =====
-- The two pairs of functions of proxy.c that the scans of the slot arrays stand for.
use posix_threads.Common.{◌≡◌, refl, false, ℤ, minus_one, is_neg}
use posix_threads.PoolProxy.Slots.{
  Array, ClientCell, ServerCell, client_fd, server_fd, set_client_fd, set_server_fd, empty_client,
  empty_server, find_free_client, find_free_server, find_client_by_fd, find_server_by_fd,
}
use posix_threads.PoolProxy.Slots.Table.{IsSized, Taken, find_free-Taken}

-- `findFreeClient` of a descriptor that no cell holds: the answer is an index inside the array,
-- `findClientByFd` then gives that index for the descriptor and the old answer for every other.
pub find_free_client-Taken :
    (a : Array ClientCell) (fd : ℤ)
    → IsSized a
    → is_neg fd ≡ false
    → find_client_by_fd a fd ≡ minus_one
    → Taken client_fd fd a (find_free_client a fd)
unfolding find_free_client find_client_by_fd
find_free_client-Taken = find_free-Taken client_fd empty_client set_client_fd (λ fd c. refl) refl

-- `findFreeServer` of a descriptor that no cell holds: the same of `findServerByFd`.
pub find_free_server-Taken :
    (a : Array ServerCell) (fd : ℤ)
    → IsSized a
    → is_neg fd ≡ false
    → find_server_by_fd a fd ≡ minus_one
    → Taken server_fd fd a (find_free_server a fd)
unfolding find_free_server find_server_by_fd
find_free_server-Taken = find_free-Taken server_fd empty_server set_server_fd (λ fd c. refl) refl
