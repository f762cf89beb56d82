-- ===== src/Tests/Events.antt =====
-- The proxy of rybalko/31/server.c at small inputs.
use posix_threads.Common.{
  ℕ, ◌+◌, ◌<◌, ◌≤◌, ◌≡◌, ◌≢◌, ◌⊎◌, inr, refl, subst, true, Option, none, some, List, [], ◌∷◌, ◌++◌,
  arith, length, replicate, ℤ, pos, minus_one, find_below,
}
use mathlib.Core.Option.{some-injective}
use posix_threads.PoolProxy.Transfer.{read_bytes, WriteResult, written}
use posix_threads.EventProxy.{
  Client, Host, CacheItem, Server, within, empty_client, empty_host, empty_item,
}
use posix_threads.EventProxy.Subscriptions.{
  put_item, add_sub, delete_sub, drop_from, drop_client, count_cells, subscribe_to, first_subs,
  more_subs, double_subs, store_sub, store_at,
}
use posix_threads.PoolProxy.PollTable.Lookup.{watch}
use posix_threads.EventProxy.Descriptors.{delete_from_poll}
use posix_threads.EventProxy.Descriptors.Room.{Roomy}
use posix_threads.EventProxy.Descriptors.Polls.{IsPolled, Deleted, delete_from_poll-Deleted}
use posix_threads.EventProxy.Endings.{clean_cache_item}
use posix_threads.EventProxy.Eviction.{free_memory, free_bytes, get_oldest_record}
use posix_threads.EventProxy.Eviction.Oldest.{Later, Oldest, get_oldest_record-Oldest}
use posix_threads.EventProxy.Eviction.Frees.{emptied, Thinned, free_memory-Evicted}
use posix_threads.EventProxy.Safe.{Every, Every-cons, IsSound, IsSafe, taken_cells, cores}
use posix_threads.EventProxy.Safe.Emptied.{Cleaned}
use posix_threads.EventProxy.Safe.Clean.{clean_cache_item-Cleaned}
use posix_threads.EventProxy.Safe.Adds.{Subscribed, add_sub-Subscribed}
use posix_threads.EventProxy.Safe.Handlers.{
  Returns, write_to_client-Returns, read_from_host-Returns,
}
use posix_threads.EventProxy.Tables.Caches.{Unknown, add_to_cache-try_to_find}
use posix_threads.EventProxy.Tables.{hash, hash_from, add_to_cache, try_to_find_at_cache}
use posix_threads.EventProxy.Tables.Collisions.{try_to_find-collides}
use posix_threads.EventProxy.Requests.{write_to_client, unsent}
use posix_threads.EventProxy.Responses.{HostIo, read_from_host}

abbrev seven : ℕ
seven = 7

-- A response of 8192 cells, of which one is filled.
abbrev item : CacheItem
item = record empty_item {
  host_idx = pos 0;
  subscribers = some (pos 0 ∷ minus_one ∷ []);
  subs_size = 2;
  curr_subs = 1;
  request = some (71 ∷ 69 ∷ []);
  request_size = 2;
  response = some (replicate 8192 seven);
  response_size = 8192;
  response_idx = 1;
  full_time = pos 3;
  valid = true;
}

abbrev pub client : Client
client = record empty_client { fd = pos 7; cache_idx = pos 0; last_written_idx = pos 0 }

abbrev host : Host
host = record empty_host { fd = pos 8; cache_idx = pos 0; last_written_idx = pos 0 }

abbrev pub small : Server
small = record {
  server_fds =
      record { fd = pos 7; events = 1; revents = 0 }
      ∷ record { fd = pos 8; events = 1; revents = 0 }
      ∷ [];
  current = 2;
  server_amount = 1;
  closed = [];
  clients = client ∷ [];
  hosts = host ∷ [];
  cache = item ∷ [];
  max_cache = 10000;
  current_cache = 9000;
}

nil-Every : {A : Type 0} (P : A → Type 0) → Every P []
nil-Every P j x e = absurd (ground arith)

item-IsSound : IsSound 1 1 item
unfolding taken_cells
item-IsSound = record {
  host = refl;
  null = λ h. absurd (ground arith);
  idle = λ h. absurd (ground arith);
  fits = λ cs h. subst (λ xs. 2 ≤ length xs) (some-injective _ _ h) (omega arith);
  counted = λ cs h. subst (λ xs. taken_cells 2 xs ≤ 1) (some-injective _ _ h) (omega arith);
  subs = λ cs h. subst (Every (λ x. within 1 x ≡ true)) (some-injective _ _ h) (
      Every-cons (λ x. within 1 x ≡ true) (pos 0) (minus_one ∷ []) refl
        (Every-cons (λ x. within 1 x ≡ true) minus_one [] refl
          (nil-Every (λ x. within 1 x ≡ true))));
}

pub small-Roomy : Roomy small
small-Roomy = record {
  counted = omega arith;
  fits = omega arith;
  some_amount = omega arith;
  bounded = omega arith;
}

pub small-IsSafe : IsSafe 1 1 1 small
small-IsSafe = record {
  clients_sized = refl;
  hosts_sized = refl;
  cache_sized = refl;
  clients = Every-cons (λ (c : Client). within 1 c.cache_idx ≡ true) client [] refl (nil-Every _);
  hosts = Every-cons (λ (h : Host). within 1 h.cache_idx ≡ true) host [] refl (nil-Every _);
  items = Every-cons (IsSound 1 1) item [] item-IsSound (nil-Every _);
  polls = small-Roomy;
}

clean_cache_item-Cleaned_example : Cleaned 1 1 1 0 small (clean_cache_item (pos 0) small)
clean_cache_item-Cleaned_example = clean_cache_item-Cleaned 1 1 1 0 small small-IsSafe (omega arith)

abbrev clock : ℕ → ℤ
clock k = pos (5 + k)

free_memory-Evicted_example :
    (r : ℤ) × (after : Server) × (free_memory clock 2000 small ≡ some (r, after))
    × IsSafe 1 1 1 after
    × Thinned (cores small.cache) (cores after.cache)
    × (((r ≡ pos 0) × (2000 < free_bytes after))
        ⊎ ((r ≡ minus_one)
            × ((2000 ≡ free_bytes after)
                ⊎ Every (Later (clock (emptied small after))) after.cache)))
free_memory-Evicted_example = free_memory-Evicted 1 1 1 clock 2000 small small-IsSafe

add_sub-Subscribed_example :
    (jt : CacheItem) × (add_sub true (pos 0) (pos 0) small ≡ some (put_item 0 jt small))
    × IsSafe 1 1 1 (put_item 0 jt small)
    × Subscribed 1 1 0 item jt
add_sub-Subscribed_example =
    add_sub-Subscribed 1 1 1 0 0 small item small-IsSafe (omega arith) refl refl

abbrev io : HostIo
io = record {
  strtol = λ str. (pos 200, []);
  stack = [];
  heap = λ i. 0;
  stored = true;
  grown = true;
  clock = clock;
}

-- An item with all of its response, of two bytes.
abbrev short_item : CacheItem
short_item = record item { response = some (5 ∷ 6 ∷ []); response_size = 2; response_idx = 2 }

abbrev short : Server
short = record small { cache = short_item ∷ [] }

short_item-IsSound : IsSound 1 1 short_item
short_item-IsSound = record {
  host = item-IsSound.host;
  null = item-IsSound.null;
  idle = item-IsSound.idle;
  fits = item-IsSound.fits;
  counted = item-IsSound.counted;
  subs = item-IsSound.subs;
}

short-IsSafe : IsSafe 1 1 1 short
short-IsSafe = record {
  clients_sized = refl;
  hosts_sized = refl;
  cache_sized = refl;
  clients = small-IsSafe.clients;
  hosts = small-IsSafe.hosts;
  items = Every-cons (IsSound 1 1) short_item [] short_item-IsSound (nil-Every _);
  polls = small-Roomy;
}

abbrev one_byte : ℤ → List ℕ → WriteResult
one_byte fd bytes = written 1

short_unsent : unsent (pos 0) short_item ≡ some (5 ∷ 6 ∷ [])
unfolding unsent
short_unsent = refl

write_to_client-Returns_example : Returns 1 1 1 (write_to_client one_byte (pos 0) short)
write_to_client-Returns_example =
    write_to_client-Returns 1 1 1 one_byte 0 0 client short_item (5 ∷ 6 ∷ []) short short-IsSafe
      refl refl refl short_unsent

read_from_host-Returns_example : Returns 1 1 1 (read_from_host io (pos 0) (read_bytes []) small)
read_from_host-Returns_example =
    read_from_host-Returns 1 1 1 io 0 0 host small small-IsSafe refl refl

abbrev pub get : List ℕ
get = 71 ∷ 69 ∷ 84 ∷ 32 ∷ []

-- "GET Ez" and "GET FY".
try_to_find-collides_example :
    (get ++ 69 ∷ 122 ∷ [] ≢ get ++ 70 ∷ 89 ∷ [])
    × (try_to_find_at_cache (pos 9) (get ++ 69 ∷ 122 ∷ []) small
        ≡ try_to_find_at_cache (pos 9) (get ++ 70 ∷ 89 ∷ []) small)
try_to_find-collides_example =
    try_to_find-collides get [] 69 89 (pos 9) small (omega arith) (omega arith)

abbrev fresh : Server
fresh = record small { cache = record empty_item { valid = true } ∷ [] }

abbrev counted_subs : Option Server → Option ℕ
counted_subs none = none
counted_subs (some s) = elim s.cache [ [] ↦ none | it ∷ its ↦ some it.curr_subs ]

abbrev then_delete : Option Server → Option Server
then_delete none = none
then_delete (some s) = delete_sub (pos 0) (pos 0) s

-- A client that comes and goes leaves the count of subscribers one too high.
comes_and_goes : counted_subs (then_delete (add_sub true (pos 0) (pos 0) fresh)) ≡ some 1
unfolding add_sub subscribe_to first_subs more_subs double_subs store_sub store_at find_below
    delete_sub drop_from drop_client count_cells
comes_and_goes = refl

get_oldest_record-Oldest_example :
    ((j : ℕ) × (get_oldest_record (pos 5) small ≡ pos j) × Oldest (pos 5) small.cache j)
    ⊎ ((get_oldest_record (pos 5) small ≡ minus_one) × Every (Later (pos 5)) small.cache)
get_oldest_record-Oldest_example = get_oldest_record-Oldest (pos 5) small

abbrev question : List ℕ
question = 71 ∷ 69 ∷ 84 ∷ 32 ∷ 120 ∷ []

hash-question : hash (some question) ≡ some (hash_from 5381 question)
unfolding hash
hash-question = refl

question-Unknown : Unknown (hash_from 5381 question) small
unfolding hash_from find_below
question-Unknown = refl

-- The cache is full, and its array is doubled.
add_to_cache-try_to_find_example :
    (i : ℕ) × (after : Server) × (add_to_cache true true question small ≡ some (pos i, after))
    × (found : Server) × (try_to_find_at_cache (pos 9) question after ≡ some (pos i, found))
add_to_cache-try_to_find_example =
    add_to_cache-try_to_find question (hash_from 5381 question) (pos 9) small hash-question
      (omega arith) question-Unknown

small-IsPolled : IsPolled small
unfolding watch
small-IsPolled = record {
  fits = omega arith;
  counted = omega arith;
  distinct = (inr refl, (inr refl, tt));
}

delete_from_poll-Deleted_example :
    (t : Server) × (delete_from_poll (pos 8) small ≡ some t) × Deleted (pos 8) small t
delete_from_poll-Deleted_example = delete_from_poll-Deleted (pos 8) small small-IsPolled refl
