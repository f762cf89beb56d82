-- ===== src/EventProxy/Descriptors.antt =====
-- The polled descriptors of rybalko/31/server.c: `server_fds` and the functions on it.
pub mod Polls
pub mod Room
pub mod Appends
use posix_threads.Common.{
  ℕ, zero, suc, ◌+◌, ◌-◌, ◌*◌, Bool, ◌&&◌, Option, none, some, List, [], ◌∷◌, ◌++◌, ltb, leb, ◌==◌,
  if◌then◌else◌, length, modify, take, replicate, ℤ, minus_one, is_neg, find_below,
}
use posix_threads.PoolProxy.PollTable.{PollFd, has_fd, clear_cell, trim}
use posix_threads.EventProxy.{Server, size_max}

-- `InitServerFd`
abbrev pub empty_fd : PollFd
empty_fd = record { fd = minus_one; events = 0; revents = 0 }

abbrev pub set_fd : ℤ → ℕ → PollFd → PollFd
set_fd fd events p = record { fd = fd; events = events; revents = 0 }

-- The loop of `UpdatePollFdsAmount` reads the last of `n` cells first, if it is not the only one; with
-- `SIZE_MAX` cells its `int` counter is negative.
unfoldable pub trim_from : ℕ → Server → Option Server
unfolding trim
trim_from n s =
    if ltb 1 n && ltb (length s.server_fds) n && ltb n size_max
    then none
    else some (record s { current = trim s.server_fds n })

-- `UpdatePollFdsAmount`. With no descriptor at all the subtraction wraps, and the loop, whose `int`
-- counter is then negative, does nothing. `none` is a cell outside the array.
unfoldable pub update_poll_fds_amount : (deleted_idx : ℕ) → Server → Option Server
unfolding trim_from
update_poll_fds_amount deleted_idx s =
    if deleted_idx == s.current
    then (elim s.current [ zero ↦ some (record s { current = size_max }) | suc n ↦ trim_from n s ])
    else trim_from s.current s

-- `DeleteFromPoll`: the search reads all cells that are counted if none has the descriptor.
unfoldable pub delete_from_poll : ℤ → Server → Option Server
unfolding find_below
delete_from_poll fd s =
    if is_neg fd then some s else elim (find_below (has_fd fd) s.current s.server_fds) [
      | none ↦ if leb s.current (length s.server_fds) then update_poll_fds_amount 0 s else none
      | some i ↦
          update_poll_fds_amount i
            (record s { server_fds = modify s.server_fds i clear_cell; closed = fd ∷ s.closed })
    ]

-- `ReallocServerFds`; `none` is the end of the process when `realloc` fails.
unfoldable pub realloc_server_fds : (allocated : Bool) → Server → Option Server
realloc_server_fds allocated s =
    if allocated
    then some (record s {
      server_fds =
          take s.current s.server_fds ++ replicate (s.server_amount * 2 + 2 - s.current) empty_fd;
      server_amount = s.server_amount * 2;
    })
    else none

-- The descriptor behind all the others; `none` is a write outside the array.
unfoldable pub append_to_poll : ℤ → ℕ → Server → Option Server
append_to_poll fd events s =
    if ltb s.current (length s.server_fds)
    then some (record s {
      server_fds = modify s.server_fds s.current (set_fd fd events);
      current = s.current + 1;
    })
    else none

-- `AddFdTOServerFds`. When all cells are counted the free ones among them are not looked for.
unfoldable pub add_fd_to_server_fds : (allocated : Bool) → ℤ → ℕ → Server → Option Server
unfolding find_below realloc_server_fds append_to_poll
add_fd_to_server_fds allocated fd events s =
    if ltb s.current (length s.server_fds)
    then elim (find_below (has_fd minus_one) s.current s.server_fds) [
      | some i ↦ some (record s { server_fds = modify s.server_fds i (set_fd fd events) })
      | none ↦ append_to_poll fd events s
    ]
    else elim (realloc_server_fds allocated s) [
      | none ↦ none
      | some s' ↦ append_to_poll fd events s'
    ]

-- The loop of `SetEventForFd`, which does not stop at the first cell.
unfoldable pub set_events : ℤ → ℕ → ℕ → List PollFd → List PollFd
set_events fd events zero ps = ps
set_events fd events (suc n) [] = []
set_events fd events (suc n) (p ∷ ps) =
    (if has_fd fd p then record p { events = events; revents = 0 } else p)
    ∷ set_events fd events n ps

-- `SetEventForFd`; `none` is a cell outside the array.
unfoldable pub set_event_for_fd : ℤ → ℕ → Server → Option Server
unfolding set_events
set_event_for_fd fd events s =
    if leb s.current (length s.server_fds)
    then some (record s { server_fds = set_events fd events s.current s.server_fds })
    else none

clear_revents : List PollFd → List PollFd
clear_revents [] = []
clear_revents (p ∷ ps) = record p { revents = 0 } ∷ clear_revents ps

-- `UpdateRevents`
pub update_revents : Server → Server
unfolding clear_revents
update_revents s = record s { server_fds = clear_revents s.server_fds }

-- `InitServerFds`; `none` is the end of the process when `malloc` fails.
pub init_server_fds : (allocated : Bool) → (total : ℕ) → Server → Option Server
init_server_fds allocated total s =
    if allocated
    then some (record s { server_fds = replicate total empty_fd; current = 0 })
    else none
