-- ===== src/Tests/Threads.antt =====
-- Requests and events of a pool thread of matsko/33_proxy_with_thread_pool/proxy.c, at small inputs.
use posix_threads.Common.{
  same_chars, ◌≡◌, refl, inl, inr, false, some, none, [], ◌∷◌, arith, ◌==◌, if◌then◌else◌, pos,
  find_below,
}
use posix_threads.Chain.{node, write}
use posix_threads.PoolProxy.PollTable.{PollTable, zeroed, pollin}
use posix_threads.PoolProxy.PollTable.Lookup.{watch}
use posix_threads.PoolProxy.PollTable.Invariant.{IsValid, watched}
use posix_threads.PoolProxy.TaskQueue.{TaskQueue}
use posix_threads.PoolProxy.TaskQueue.Fifo.{IsQueue}
use posix_threads.PoolProxy.Slots.{empty_client, empty_server, find_client_by_fd, find_by_fd}
use posix_threads.PoolProxy.Record.{Record, empty_record}
use posix_threads.PoolProxy.World.{World}
use posix_threads.PoolProxy.Request.{is_get}
use posix_threads.PoolProxy.Transfer.{write_failed, write_to_client}
use posix_threads.PoolProxy.Transfer.Abandon.{Reads}
use posix_threads.PoolProxy.Loop.Stale.{write_to_client-wake_clients}
use posix_threads.PoolProxy.Loop.{PoolThread, take_task, world_of, wake_clients}
use posix_threads.PoolProxy.Loop.Accepts.{Newcomer, Entered, take_task-Entered}
use posix_threads.PoolProxy.Loop.Wakes.{Woken, any_waits, wake_clients-Woken}

-- The method "POST" does not, and a header "Hostile" would pass for the host.
post_fails : is_get (80 ∷ 79 ∷ 83 ∷ 84 ∷ []) ≡ some false
unfolding is_get same_chars
post_fails = refl

-- A client at 5 whose record at 100 has more than it was given.
abbrev woken : World
woken = record {
  records = λ p. if p == 100 then some (record empty_record { response_index = 4 }) else none;
  clients = record {
    cells =
        record empty_client { fd = pos 5; cache_record = some 100; write_response_index = pos 1 }
        ∷ empty_client
        ∷ [];
    size = 2;
  };
  servers = record { cells = empty_server ∷ []; size = 1 };
  table = record {
    fds = record { fd = pos 5; events = pollin; revents = 0 } ∷ zeroed 0 ∷ [];
    last = 1;
    size = 2;
    closed = [];
  };
  told = [];
}

woken-IsValid : IsValid woken.table
unfolding watch
woken-IsValid = record {
  sized = refl;
  room = omega arith;
  fits = omega arith;
  distinct = (inr refl, tt);
}

polled_five : watched (pos 5) woken.table ≡ some pollin
unfolding watch
polled_five = refl

wake_clients-Woken_example :
    (u : PollTable) × (wake_clients woken ≡ some (record woken { table = u }))
    × Woken (λ j. any_waits woken.records j woken.clients.cells) woken.table u
unfolding watch
wake_clients-Woken_example =
    wake_clients-Woken woken refl woken-IsValid
      (inr (record { valid = refl; polled = refl; stored = λ p e. ground arith }), (inl refl, tt))

-- The queue has the descriptor 8.
abbrev one_task : TaskQueue
one_task = record {
  heap = write (λ _. none) 1 (some (node (pos 8) none));
  head = some 1;
  tail = some 1;
}

abbrev one_thread : PoolThread
one_thread = record {
  cached = record { world = woken; nodes = λ _. none; head = none };
  queue = one_task;
  is_stop = false;
}

one_task-IsQueue : IsQueue one_task ((1, pos 8) ∷ [])
one_task-IsQueue = record { linked = (refl, refl, tt); head = refl; tail = refl }

eight-Newcomer : Newcomer woken (pos 8)
unfolding find_client_by_fd find_by_fd find_below watch
eight-Newcomer = record {
  valid = refl;
  sized = record { sized = refl; room = omega arith };
  no_client = refl;
  table = woken-IsValid;
  not_polled = refl;
}

take_task-Entered_example :
    (t' : PoolThread) × (take_task zeroed (pos 9) one_thread ≡ some t')
    × IsQueue t'.queue []
    × Entered (pos 8) (pos 9) woken (world_of t')
take_task-Entered_example =
    take_task-Entered zeroed (pos 9) one_thread 1 (pos 8) [] one_task-IsQueue eight-Newcomer

-- The clients at 5 and 6 read from the record at 100, which has no server and is not full.
abbrev shared : World
shared = record woken {
  clients = record {
    cells =
        record empty_client { fd = pos 5; cache_record = some 100; write_response_index = pos 1 }
        ∷ record empty_client { fd = pos 6; cache_record = some 100; write_response_index = pos 1 }
        ∷ [];
    size = 2;
  };
}

write_to_client-wake_clients_example :
    (w' : World) × (write_to_client shared (pos 0) write_failed ≡ some (w', []))
    × Reads w' 1 100
        (record empty_client { fd = pos 6; cache_record = some 100; write_response_index = pos 1 })
    × ((r' : Record) × (w'.records 100 ≡ some r') × (r'.valid_rw_lock ≡ false))
    × (wake_clients w' ≡ none)
write_to_client-wake_clients_example =
    write_to_client-wake_clients shared 0 1 100
      (record empty_client { fd = pos 5; cache_record = some 100; write_response_index = pos 1 })
      (record empty_client { fd = pos 6; cache_record = some 100; write_response_index = pos 1 })
      (record empty_record { response_index = 4 }) write_failed
      (record { inside = omega arith; cell = refl; connected = refl; points = refl })
      (record { inside = omega arith; cell = refl; connected = refl; points = refl }) refl refl refl
      refl
