-- ===== src/Tests/Relays.antt =====
-- One server and one client of matsko/33_proxy_with_thread_pool/proxy.c on one cache record.
use posix_threads.Common.{
  ℕ, ◌≡◌, refl, inr, true, none, some, Option, List, [], ◌∷◌, arith, ℤ, pos, minus_one, ◌==◌,
  if◌then◌else◌,
}
use posix_threads.PoolProxy.PollTable.{PollTable}
use posix_threads.PoolProxy.PollTable.Lookup.{watch}
use posix_threads.PoolProxy.PollTable.Invariant.{IsValid}
use posix_threads.PoolProxy.PollTable.Refines.{IsWatched}
use posix_threads.PoolProxy.Slots.{ClientCell, ServerCell, empty_client}
use posix_threads.PoolProxy.Record.{Record, empty_record, notify_subscribers, told_cells}
use posix_threads.PoolProxy.World.{World}
use posix_threads.PoolProxy.Transfer.{read_bytes, read_from_server}
use posix_threads.PoolProxy.Transfer.Relay.{Serves, Received, read_from_server-Received}
use posix_threads.PoolProxy.Transfer.Forward.{Expects, Forwarded, forward, forward-Forwarded}
use posix_threads.PoolProxy.Transfer.Deliver.{Awaits, Delivered, deliver, deliver-Delivered}

abbrev server_5 : ServerCell
server_5 = record { cache_record = some 100; write_request_index = pos 0; fd = pos 5 }

abbrev client_7 : ClientCell
client_7 = record empty_client { cache_record = some 100; write_response_index = pos 1; fd = pos 7 }

abbrev started : Record
started = record empty_record { valid = true; server_index = pos 0 }

abbrev finished : Record
finished = record started {
  full = true;
  server_index = minus_one;
  response = some (72 ∷ 84 ∷ 84 ∷ []);
  response_size = 3;
  response_index = 3;
}

-- A client at 7 and a server at 5, polled for input and output.
abbrev table_7 : PollTable
table_7 = record {
  fds =
      record { fd = pos 7; events = 5; revents = 0 }
      ∷ record { fd = pos 5; events = 5; revents = 0 }
      ∷ [];
  last = 2;
  size = 2;
  closed = [];
}

-- The record at address 100 is `r`.
abbrev world : Record → World
world r = record {
  records = λ p. if p == 100 then some r else none;
  clients = record { cells = client_7 ∷ []; size = 1 };
  servers = record { cells = server_5 ∷ []; size = 1 };
  table = table_7;
  told = [];
}

abbrev no_parse : Option (List ℕ) → ℕ → ℕ → ℤ × ℕ
no_parse buf len prev = (minus_one, 0)

nobody : notify_subscribers started ≡ some []
unfolding notify_subscribers told_cells
nobody = refl

Serves-started : Serves (world started) 0 100 server_5 started
Serves-started = record {
  inside = omega arith;
  cell = refl;
  connected = refl;
  points = refl;
  allocated = refl;
}

read_from_server-Received_example :
    (w' : World) × (read_from_server no_parse
        (λ _. 0)
        true
        (world started)
        (pos 0)
        (read_bytes (72 ∷ 84 ∷ []))
      ≡ some w')
    × Received (world started) 100 started (72 ∷ 84 ∷ []) [] w'
read_from_server-Received_example =
    read_from_server-Received no_parse (λ _. 0) (world started) 0 100 server_5 started [] 72
      (84 ∷ []) Serves-started (refl, refl) refl nobody (omega arith)

Awaits-finished : Awaits (world finished) 0 100 client_7 finished 1
Awaits-finished = record {
  inside = omega arith;
  cell = refl;
  connected = refl;
  points = refl;
  allocated = refl;
  alive = refl;
  lock = refl;
  position = refl;
  behind = omega arith;
  held = omega arith;
}

table_7-IsValid : IsValid table_7
unfolding watch
table_7-IsValid = record {
  sized = refl;
  room = omega arith;
  fits = omega arith;
  distinct = (inr refl, (inr refl, tt));
}

seven-IsWatched : IsWatched table_7 (pos 7)
unfolding watch
seven-IsWatched = record { table = table_7-IsValid; known = refl; old = 5; asked = refl }

-- The two bytes that are left, one by one.
deliver-Delivered_example :
    (w' : World) × (deliver (world finished) 0 (1 ∷ 1 ∷ []) ≡ some (w', 84 ∷ 84 ∷ []))
    × Delivered (world finished) 0 client_7 finished 3 w'
deliver-Delivered_example =
    deliver-Delivered (world finished) 0 100 client_7 finished 1 1 (1 ∷ []) Awaits-finished
      seven-IsWatched (omega arith)

-- A request of two bytes.
abbrev asked : Record
asked = record started { request = some (71 ∷ 69 ∷ []); request_size = 2 }

Expects-asked : Expects (world asked) 0 100 server_5 asked 0
Expects-asked = record {
  inside = omega arith;
  cell = refl;
  connected = refl;
  points = refl;
  allocated = refl;
  position = refl;
  behind = omega arith;
  held = omega arith;
}

five-IsWatched : IsWatched table_7 (pos 5)
unfolding watch
five-IsWatched = record { table = table_7-IsValid; known = refl; old = 5; asked = refl }

forward-Forwarded_example :
    (w' : World) × (forward (world asked) 0 (1 ∷ 1 ∷ []) ≡ some (w', 71 ∷ 69 ∷ []))
    × Forwarded (world asked) 0 server_5 asked 2 w'
forward-Forwarded_example =
    forward-Forwarded (world asked) 0 100 server_5 asked 0 1 (1 ∷ []) Expects-asked five-IsWatched
      (omega arith)
