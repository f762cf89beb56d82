-- ===== src/Tests/Admissions.antt =====
-- Requests that join the list of records of matsko/33_proxy_with_thread_pool/proxy.c, at small inputs.
use posix_threads.Common.{
  same_chars, ℕ, ◌≡◌, refl, inr, true, some, none, Option, List, [], ◌∷◌, ◌++◌, arith, ◌==◌,
  if◌then◌else◌, pos, find_below,
}
use posix_threads.Chain.{node, write, Cells}
use posix_threads.PoolProxy.PollTable.{PollTable, zeroed, pollin}
use posix_threads.PoolProxy.PollTable.Lookup.{watch}
use posix_threads.PoolProxy.PollTable.Invariant.{IsValid}
use posix_threads.PoolProxy.PollTable.Refines.{IsWatched}
use posix_threads.PoolProxy.Slots.{
  ClientCell, empty_client, empty_server, find_server_by_fd, find_by_fd,
}
use posix_threads.PoolProxy.Record.{Record, empty_record}
use posix_threads.PoolProxy.World.{World}
use posix_threads.PoolProxy.Admission.{Cached, Answers, new_record, find_and_add_cache_record}
use posix_threads.PoolProxy.Admission.Search.{IsCache, first_with, has_url, same_text}
use posix_threads.PoolProxy.Admission.Joins.{Joined, find_and_add-Joined}
use posix_threads.PoolProxy.Admission.Adds.{Asks, Connects, Started}
use posix_threads.PoolProxy.Admission.Starts.{find_and_add-Started}

-- The urls "/a" and "/b".
abbrev url_a : List ℕ
url_a = 47 ∷ 97 ∷ []

abbrev url_b : List ℕ
url_b = 47 ∷ 98 ∷ []

abbrev asker : ClientCell
asker = record empty_client {
  fd = pos 5;
  thread_fd = pos 9;
  request = some (1 ∷ 2 ∷ 3 ∷ []);
  request_size = 3;
  request_index = 3;
}

-- The descriptor of the client, and a free cell.
abbrev table_five : PollTable
table_five = record {
  fds = record { fd = pos 5; events = pollin; revents = 0 } ∷ zeroed 0 ∷ [];
  last = 1;
  size = 2;
  closed = [];
}

table_five-IsValid : IsValid table_five
unfolding watch
table_five-IsValid = record {
  sized = refl;
  room = omega arith;
  fits = omega arith;
  distinct = (inr refl, tt);
}

five-IsWatched : IsWatched table_five (pos 5)
unfolding watch
five-IsWatched = record { table = table_five-IsValid; known = refl; old = pollin; asked = refl }

-- A record for "/a" that holds four bytes.
abbrev record_a : Record
record_a = record (new_record url_a) {
  response = some (1 ∷ 2 ∷ 3 ∷ 4 ∷ []);
  response_size = 4;
  response_index = 4;
}

abbrev with_records : (ℕ → Option Record) → World
with_records rs = record {
  records = rs;
  clients = record { cells = asker ∷ []; size = 1 };
  servers = record { cells = empty_server ∷ []; size = 1 };
  table = table_five;
  told = [];
}

-- One node at 1, whose record at 100 is for "/a".
abbrev one_record : Cached
one_record = record {
  world = with_records (λ p. if p == 100 then some record_a else none);
  nodes = write (λ _. none) 1 (some (node 100 none));
  head = some 1;
}

abbrev one_cell : Cells ℕ
one_cell = (1, 100) ∷ []

one_record-IsCache : IsCache one_record one_cell
one_record-IsCache = record {
  linked = (refl, refl, tt);
  head = refl;
  known = (
    (record_a, refl, record { text = url_a; live = refl; url = refl; size = refl; fits = refl }),
    tt,
  );
}

abbrev answers : Answers
answers = record {
  node_at = some 2;
  record_at = some 101;
  request_ok = true;
  server_fd = pos 7;
  fcntl_ok = true;
  cells = zeroed;
  subscribers_ok = true;
}

first_a : first_with one_record.world.records url_a one_cell ≡ some 100
unfolding first_with has_url same_text same_chars
first_a = refl

first_b : first_with one_record.world.records url_b one_cell ≡ none
unfolding first_with has_url same_text same_chars
first_b = refl

find_and_add-Joined_example :
    (r : Record) × (one_record.world.records 100 ≡ some r)
    × (c' : Cached) × (find_and_add_cache_record 2 (λ c. c) answers one_record 0 url_a 2 ≡ some c')
    × IsCache c' one_cell
    × Joined one_record 0 100 asker r c'
find_and_add-Joined_example =
    find_and_add-Joined 2 (λ c. c) answers one_record one_cell 0 2 100 url_a asker (λ x. refl)
      (omega arith) one_record-IsCache first_a refl refl five-IsWatched refl

answers-Connects : Connects answers one_record.world.servers table_five
unfolding find_server_by_fd find_by_fd find_below watch
answers-Connects = record {
  fcntl_ok = refl;
  request_ok = refl;
  subscribers_ok = refl;
  valid = refl;
  sized = record { sized = refl; room = omega arith };
  unused = refl;
  table = table_five-IsValid;
  unpolled = refl;
}

asker-Asks : Asks answers one_record 0 2 2 101 asker (1 ∷ 2 ∷ 3 ∷ [])
asker-Asks = record {
  node_at = refl;
  record_at = refl;
  free = refl;
  client = refl;
  wakes = refl;
  request = refl;
  whole = omega arith;
  connects = answers-Connects;
}

find_and_add-Started_example :
    (c' : Cached) × (find_and_add_cache_record 2 (λ c. c) answers one_record 0 url_b 2 ≡ some c')
    × IsCache c' (one_cell ++ (2, 101) ∷ [])
    × Started answers one_record 0 2 101 asker url_b (1 ∷ 2 ∷ 3 ∷ []) c'
find_and_add-Started_example =
    find_and_add-Started 2 (λ c. c) answers one_record one_cell 0 2 2 101 url_b (1 ∷ 2 ∷ 3 ∷ [])
      asker (λ x. refl) (omega arith) one_record-IsCache first_b asker-Asks

-- A record given up at 100, and one for "/a" at 101 behind it.
abbrev stale_list : Cached
stale_list = record {
  world = with_records (λ p.
      if p == 100 then some empty_record else if p == 101 then some (new_record url_a) else none);
  nodes = write (write (λ _. none) 1 (some (node 100 (some 2)))) 2 (some (node 101 none));
  head = some 1;
}

has_a : has_url url_a (some (new_record url_a)) ≡ true
unfolding has_url same_text same_chars
has_a = refl
