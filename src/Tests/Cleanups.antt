-- ===== src/Tests/Cleanups.antt =====
-- The end of a pool thread of matsko/33_proxy_with_thread_pool/proxy.c at a small input.
use posix_threads.Common.{ℕ, refl, inl, inr, none, some, [], ◌∷◌, arith, ◌==◌, if◌then◌else◌, pos}
use posix_threads.PoolProxy.PollTable.{PollFd, pollin}
use posix_threads.PoolProxy.PollTable.Lookup.{watch}
use posix_threads.PoolProxy.PollTable.Invariant.{IsValid}
use posix_threads.PoolProxy.Slots.{empty_client, empty_server}
use posix_threads.PoolProxy.Record.{empty_record}
use posix_threads.PoolProxy.World.{World}
use posix_threads.PoolProxy.Cleanup.Servers.{AllServe}

abbrev polled : ℕ → PollFd
polled fd = record { fd = pos fd; events = pollin; revents = 0 }

-- A client at 5, a server at 7 and the record of the server at address 100.
abbrev busy : World
busy = record {
  records = λ p. if p == 100 then some (record empty_record { server_index = pos 0 }) else none;
  clients = record { cells = record empty_client { fd = pos 5 } ∷ empty_client ∷ []; size = 2 };
  servers = record {
    cells = record empty_server { fd = pos 7; cache_record = some 100 } ∷ empty_server ∷ [];
    size = 2;
  };
  table = record { fds = polled 5 ∷ polled 7 ∷ []; last = 2; size = 2; closed = [] };
  told = [];
}

busy-IsValid : IsValid busy.table
unfolding watch
busy-IsValid = record {
  sized = refl;
  room = omega arith;
  fits = omega arith;
  distinct = (inr refl, (inr refl, tt));
}

busy-AllServe : AllServe busy.records busy.servers.cells
unfolding AllServe
busy-AllServe = (inr refl, (inl refl, tt))
