-- ===== src/PoolProxy/PollTable.antt =====
-- The table of descriptors that a thread polls: `poll_fds`, `poll_last_index`, `POLL_TABLE_SIZE` and
-- the functions on them in matsko/33_proxy_with_thread_pool/proxy.c.
pub mod Lookup
pub mod Distinct
pub mod Invariant
pub mod Refines
use posix_threads.Common.{
  ℕ, zero, suc, ◌+◌, ◌-◌, ◌*◌, Bool, false, ◌&&◌, Option, none, some, List, [], ◌∷◌, ◌++◌, ltb, leb,
  ◌==◌, if◌then◌else◌, get_elem?, length, modify, tabulate, ℤ, minus_one, is_neg, pos, negsuc,
  ◌==ℤ◌, find_below,
}

-- `struct pollfd`; `events` and `revents` are sets of bits.
pub record PollFd : Type 0 where
  pub fd : ℤ
  pub events : ℕ
  pub revents : ℕ

-- `last` is `*poll_last_index`, which is not negative from `initPollFds` to `destroyPollFds`;
-- `size` is `POLL_TABLE_SIZE`. `closed` are the descriptors handed to `close`, the latest first.
pub record PollTable : Type 0 where
  pub fds : List PollFd
  pub last : ℕ
  pub size : ℕ
  pub closed : List ℤ

abbrev pub pollin : ℕ
pollin = 1

abbrev pub pollout : ℕ
pollout = 4

abbrev pub has_fd : ℤ → PollFd → Bool
has_fd fd p = p.fd ==ℤ fd

abbrev pub put : ℤ → ℕ → PollFd → PollFd
put fd events p = record p { fd = fd; events = events }

-- A cell as `calloc` or `realloc` left it, with `fd = -1`.
abbrev pub unused : (ℕ → PollFd) → ℕ → PollFd
unused memory i = record (memory i) { fd = minus_one }

abbrev pub zeroed : ℕ → PollFd
zeroed i = record { fd = pos 0; events = 0; revents = 0 }

-- `allocated` says whether `calloc` succeeds.
unfoldable pub init_poll_fds : (allocated : Bool) → ℕ → Option PollTable
init_poll_fds allocated size =
    if allocated
    then some (record { fds = tabulate (unused zeroed) 0 size; last = 0; size = size; closed = [] })
    else none

-- `memory i` is what `realloc` leaves in the new cell `i`. The code does not look at its failure.
pub realloc_poll_fds : (memory : ℕ → PollFd) → PollTable → PollTable
realloc_poll_fds memory t = record t {
  fds = t.fds ++ tabulate (unused memory) t.size t.size;
  size = t.size * 2;
}

-- The cell behind the used part; `none` is a write outside the array.
pub append_fd : PollTable → ℤ → ℕ → Option PollTable
append_fd t fd events =
    if ltb t.last (length t.fds)
    then some (record t { fds = modify t.fds t.last (put fd events); last = t.last + 1 })
    else none

pub add_fd_to_poll_fds : (memory : ℕ → PollFd) → PollTable → ℤ → ℕ → Option PollTable
unfolding find_below realloc_poll_fds append_fd
add_fd_to_poll_fds memory t fd events =
    if is_neg fd then some t else elim (find_below (has_fd minus_one) t.last t.fds) [
      | some i ↦ some (record t { fds = modify t.fds i (put fd events) })
      | none ↦
          if leb t.size t.last
          then append_fd (realloc_poll_fds memory t) fd events
          else append_fd t fd events
    ]

abbrev pub clear_cell : PollFd → PollFd
clear_cell p = record { fd = minus_one; events = 0; revents = 0 }

-- `for (i = last - 1; i > 0; i--)`: gives back the cells at the end that are not in use.
unfoldable pub trim : List PollFd → ℕ → ℕ
trim fds zero = 0
trim fds (suc i) =
    let rest = trim fds i in
    elim (get_elem? fds i) [
      | none ↦ suc i
      | some p ↦ if ltb 0 i && has_fd minus_one p then rest else suc i
    ]

-- The first cell with `fd` is cleared; `i` is its index, or `last` if there is none.
pub clear_fd : PollTable → ℤ → PollTable
clear_fd t fd = elim (find_below (has_fd fd) t.last t.fds) [
  | none ↦ t
  | some i ↦ record t {
    fds = modify t.fds i clear_cell;
    last = if i == t.last - 1 then t.last - 1 else t.last;
    closed = fd ∷ t.closed;
  }
]

unfoldable pub remove_from_poll_fds : PollTable → ℤ → PollTable
unfolding find_below trim clear_fd
remove_from_poll_fds t fd =
    if is_neg fd then t else let t' = clear_fd t fd in record t' { last = trim t'.fds t'.last }

pub change_event_for_fd : PollTable → ℤ → ℕ → PollTable
unfolding find_below
change_event_for_fd t fd new_events =
    if is_neg fd then t else elim (find_below (has_fd fd) t.last t.fds) [
      | none ↦ t
      | some i ↦ record t { fds = modify t.fds i (λ p. record p { events = new_events }) }
    ]

-- The `close` calls of the loop in `destroyPollFds`.
abbrev ltb_zero : ℤ → Bool
ltb_zero (pos n) = ltb 0 n
ltb_zero (negsuc n) = false

close_all : ℕ → List PollFd → List ℤ → List ℤ
close_all zero fds closed = closed
close_all (suc n) [] closed = closed
close_all (suc n) (p ∷ fds) closed =
    close_all n fds (if ltb_zero p.fd then p.fd ∷ closed else closed)

-- After it the table is freed, and `poll_last_index` is -1: what is left are the closed descriptors.
pub destroy_poll_fds : PollTable → List ℤ
unfolding close_all
destroy_poll_fds t = close_all t.last t.fds t.closed
