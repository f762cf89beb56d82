-- ===== src/Tests/PollTables.antt =====
-- The poll table and the slot arrays of matsko/33_proxy_with_thread_pool/proxy.c at small inputs.
use posix_threads.Common.{ℕ, ◌≡◌, refl, inr, none, some, [], ◌∷◌, arith, pos, minus_one}
use posix_threads.PoolProxy.PollTable.{
  PollFd, PollTable, zeroed, add_fd_to_poll_fds, remove_from_poll_fds, pollin, pollout,
}
use posix_threads.PoolProxy.PollTable.Lookup.{watch}
use posix_threads.PoolProxy.PollTable.Invariant.{IsValid, watched}
use posix_threads.PoolProxy.PollTable.Refines.{Updated, add_fd-Updated, remove-Updated}

abbrev polled : ℕ → PollFd
polled fd = record { fd = pos fd; events = pollin; revents = 0 }

-- A full table of two descriptors.
abbrev two_fds : PollTable
two_fds = record { fds = polled 5 ∷ polled 7 ∷ []; last = 2; size = 2; closed = [] }

two_fds-IsValid : IsValid two_fds
unfolding watch
two_fds-IsValid = record {
  sized = refl;
  room = omega arith;
  fits = omega arith;
  distinct = (inr refl, (inr refl, tt));
}

nine_absent : watched (pos 9) two_fds ≡ none
unfolding watch
nine_absent = refl

seven_there : watched (pos 7) two_fds ≡ some pollin
unfolding watch
seven_there = refl

add_fd-Updated_example :
    (u : PollTable) × (add_fd_to_poll_fds zeroed two_fds (pos 9) pollout ≡ some u)
    × Updated (pos 9) (some pollout) two_fds u
add_fd-Updated_example =
    add_fd-Updated zeroed two_fds (pos 9) pollout two_fds-IsValid refl nine_absent

remove-Updated_example : Updated (pos 7) none two_fds (remove_from_poll_fds two_fds (pos 7))
remove-Updated_example = remove-Updated two_fds (pos 7) two_fds-IsValid refl

abbrev unused_cell : PollFd
unused_cell = record { fd = minus_one; events = 0; revents = 0 }

-- Removing the last descriptor gives the cells at the end back, but for the first.
remove_trims : remove_from_poll_fds (remove_from_poll_fds two_fds (pos 5)) (pos 7) ≡ record {
  fds = unused_cell ∷ unused_cell ∷ [];
  last = 1;
  size = 2;
  closed = pos 7 ∷ pos 5 ∷ [];
}
unfolding remove_from_poll_fds
remove_trims = refl
