-- ===== src/EventProxy/Tables.antt =====
-- The arrays of clients, of hosts and of cached items of rybalko/31/server.c: their cells are initialised,
-- found, taken, and doubled in number when all are in use.
pub mod Collisions
pub mod Finds
pub mod Caches
use posix_threads.Common.{
  ℕ, zero, suc, ◌+◌, ◌-◌, ◌*◌, ◌%◌, Bool, true, false, not, ◌&&◌, Option, none, some, List, [], ◌∷◌,
  ◌++◌, ltb, ◌==◌, if◌then◌else◌, is_some, get_elem?, length, modify, replicate, ◌>>=◌, ℤ, pos,
  minus_one, is_neg, ◌==ℤ◌, find_below,
}
use posix_threads.EventProxy.{
  Client, Host, CacheItem, Server, size_max, empty_client, empty_host, empty_item,
}

-- A character, a byte, as it is added to a `size_t`: from 128 on it is negative.
abbrev pub char_value : ℕ → ℕ
char_value c = if ltb c 128 then c else size_max + 1 + c - 256

-- The loop of `hash`.
unfoldable pub hash_from : ℕ → List ℕ → ℕ
hash_from h [] = h
hash_from h (c ∷ cs) = hash_from ((h * 32 + h + char_value c) % (size_max + 1)) cs

-- `hash` of a text, without the zero at its end; a text that is too long for `tmp` is `none`.
unfoldable pub hash : Option (List ℕ) → Option ℕ
unfolding hash_from
hash none = some size_max
hash (some str) = if ltb (length str) 1024 then some (hash_from 5381 str) else none

-- What `malloc` gives and `InitHosts`, `InitClients` and `InitCache` write; `none` is the end of the process.
abbrev pub init_cells {ℓ} : {A : Type ℓ} → A → (allocated : Bool) → ℕ → Option (List A)
init_cells empty allocated n = if allocated then some (replicate n empty) else none

pub init_hosts : (allocated : Bool) → ℕ → Server → Option Server
init_hosts allocated n s =
    init_cells empty_host allocated n >>= λ hosts. some (record s { hosts = hosts })

pub init_clients : (allocated : Bool) → ℕ → Server → Option Server
init_clients allocated n s =
    init_cells empty_client allocated n >>= λ clients. some (record s { clients = clients })

pub init_cache : (allocated : Bool) → ℕ → Server → Option Server
init_cache allocated n s =
    init_cells empty_item allocated n >>= λ cache. some (record s { cache = cache })

-- As many new cells as there are; `none` is the end of the process.
unfoldable pub realloc_hosts : (allocated : Bool) → Server → Option Server
realloc_hosts allocated s =
    if allocated
    then some (record s { hosts = s.hosts ++ replicate (length s.hosts) empty_host })
    else none

unfoldable pub realloc_clients : (allocated : Bool) → Server → Option Server
realloc_clients allocated s =
    if allocated
    then some (record s { clients = s.clients ++ replicate (length s.clients) empty_client })
    else none

unfoldable pub realloc_cache : (allocated : Bool) → Server → Option Server
realloc_cache allocated s =
    if allocated
    then some (record s { cache = s.cache ++ replicate (length s.cache) empty_item })
    else none

abbrev pub index_or : Option ℕ → ℤ
index_or none = minus_one
index_or (some i) = pos i

abbrev pub host_has : ℤ → Host → Bool
host_has fd h = h.fd ==ℤ fd

abbrev pub client_has : ℤ → Client → Bool
client_has fd c = c.fd ==ℤ fd

unfoldable pub get_host_id : (fd : ℤ) → Server → ℤ
unfolding find_below
get_host_id fd s =
    if is_neg fd then minus_one else index_or (find_below (host_has fd) (length s.hosts) s.hosts)

unfoldable pub get_client_id : (fd : ℤ) → Server → ℤ
unfolding find_below
get_client_id fd s =
    if is_neg fd
    then minus_one
    else index_or (find_below (client_has fd) (length s.clients) s.clients)

abbrev pub set_host_fd : ℤ → Host → Host
set_host_fd fd h = record h { fd = fd }

abbrev pub set_client_fd : ℤ → Client → Client
set_client_fd fd c = record c { fd = fd }

-- The first cell with no descriptor, or the first new one.
unfoldable pub set_for_free_host_id : (allocated : Bool) → (fd : ℤ) → Server → Option (ℤ × Server)
unfolding find_below realloc_hosts
set_for_free_host_id allocated fd s =
    if is_neg fd
    then some (minus_one, s)
    else elim (find_below (host_has minus_one) (length s.hosts) s.hosts) [
      | some i ↦ some (pos i, record s { hosts = modify s.hosts i (set_host_fd fd) })
      | none ↦ realloc_hosts allocated s >>= λ s'. some (
        pos (length s.hosts),
        record s' { hosts = modify s'.hosts (length s.hosts) (set_host_fd fd) },
      )
    ]

unfoldable pub set_for_free_client_id : (allocated : Bool) → (fd : ℤ) → Server → Option (ℤ × Server)
unfolding find_below realloc_clients
set_for_free_client_id allocated fd s =
    if is_neg fd
    then some (minus_one, s)
    else elim (find_below (client_has minus_one) (length s.clients) s.clients) [
      | some i ↦ some (pos i, record s { clients = modify s.clients i (set_client_fd fd) })
      | none ↦ realloc_clients allocated s >>= λ s'. some (
        pos (length s.clients),
        record s' { clients = modify s'.clients (length s.clients) (set_client_fd fd) },
      )
    ]

abbrev pub has_hash : ℕ → CacheItem → Bool
has_hash h it = it.valid && (it.request_hash == h)

abbrev pub touch_item : ℤ → CacheItem → CacheItem
touch_item now it = record it { full_time = now }

-- The first valid item with the hash `h`.
unfoldable pub find_hashed : (now : ℤ) → (h : ℕ) → Server → Option (ℤ × Server)
unfolding find_below
find_hashed now h s = elim (find_below (has_hash h) (length s.cache) s.cache) [
  | none ↦ some (minus_one, s)
  | some i ↦ some (pos i, record s { cache = modify s.cache i (touch_item now) })
]

-- `now` is what `time` returns. Only the hashes of the requests are compared.
unfoldable pub try_to_find_at_cache : (now : ℤ) → (request : List ℕ) → Server → Option (ℤ × Server)
try_to_find_at_cache now request s = hash (some request) >>= λ h. find_hashed now h s

abbrev pub not_valid : CacheItem → Bool
not_valid it = not it.valid

-- The index of an item that is not valid, and the state in which it is one of the array.
unfoldable pub free_item : (allocated : Bool) → Server → Option (ℕ × Server)
unfolding find_below realloc_cache
free_item allocated s = elim (find_below not_valid (length s.cache) s.cache) [
  | some i ↦ some (i, s)
  | none ↦ realloc_cache allocated s >>= λ s'. some (length s.cache, s')
]

unfoldable pub get_free_cache_item_id : (allocated : Bool) → Server → Option (ℤ × Server)
unfolding free_item
get_free_cache_item_id allocated s = free_item allocated s >>= λ r. some (pos (r.0), r.1)

-- What `AddToCache` writes into the item it found, and what it answers. `stored` says whether the `malloc`
-- of the request succeeds.
unfoldable pub fill_item :
    (stored : Bool) → (h : ℕ) → (request : List ℕ) → CacheItem → Bool × CacheItem
fill_item stored h request it =
    let it' = record it { request_hash = h; valid = true } in
    if is_some it.request
    then (true, it')
    else if stored
    then (true, record it' { request_size = length request; request = some request })
    else (false, record it' { request_size = length request; valid = false })

unfoldable pub add_to_cache :
    (allocated stored : Bool) → (request : List ℕ) → Server → Option (ℤ × Server)
unfolding hash free_item fill_item
add_to_cache allocated stored request s = hash (some request) >>= λ h.
    free_item allocated s >>= λ (i, s'). get_elem? s'.cache i >>= λ it.
    let (ready, it') = fill_item stored h request it in
    some (if ready then pos i else minus_one, record s' { cache = modify s'.cache i (λ _. it') })
