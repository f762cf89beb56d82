-- ===== src/EventProxy/Requests.antt =====
-- What moves between the clients and the cache: `ReadFromClient`, `WriteToClient` and `AcceptClient` of
-- rybalko/31/server.c. `none` is the end of the process: it exits, uses a null pointer, or reads or writes
-- outside an array.
use posix_threads.Common.{
  ℕ, ◌-◌, Bool, true, false, not, ◌&&◌, Option, none, some, List, [], ◌∷◌, ◌++◌, ltb, leb, ◌==◌,
  if◌then◌else◌, get_elem?, length, take, drop, tabulate, ◌>>=◌, ℤ, pos, negsuc, minus_one, ◌==ℤ◌,
  ◌+ℤ◌,
}
use posix_threads.PoolProxy.Transfer.{
  ReadResult, read_failed, read_bytes, WriteResult, write_failed, written,
}
use posix_threads.EventProxy.{Client, CacheItem, Server}
use posix_threads.EventProxy.Descriptors.{set_event_for_fd, add_fd_to_server_fds}
use posix_threads.EventProxy.Subscriptions.{put_client, put_host, put_item, both_events, add_sub}
use posix_threads.EventProxy.Endings.{disconnect_client, clean_cache_item}
use posix_threads.EventProxy.Tables.{
  try_to_find_at_cache, add_to_cache, set_for_free_host_id, set_for_free_client_id,
}
use posix_threads.EventProxy.Texts.{c_string, extract_url, parse_full_url}

-- What one call gets from outside: the numbers and texts that `sscanf` reads, what stands in memory that
-- nothing wrote, whether each allocation succeeds, what `time` returns, and what `ConnectToHost`
-- answers for a host and a port.
pub record ClientIo : Type 0 where
  pub sscanf : List ℕ → Option ℤ × Option (List ℕ)
  pub stack : List ℕ
  pub heap : ℕ → ℕ
  pub request_ok : Bool
  pub cache_ok : Bool
  pub stored_ok : Bool
  pub hosts_ok : Bool
  pub subs_ok : Bool
  pub fds_ok : Bool
  pub now : ℤ
  pub connect : List ℕ → ℤ → ℤ

-- `memcpy` to the first cells.
abbrev pub over : List ℕ → List ℕ → List ℕ
over bytes cs = bytes ++ drop (length bytes) cs

-- The bytes are copied to the start of the request of client `p`, which is allocated the first time.
unfoldable pub keep_request : ClientIo → ℕ → List ℕ → Client → Option (Bool × Client)
keep_request io p bytes c =
    if c.request_size == 0
    then some (
        if io.request_ok
        then (
          true,
          record c { request_size = 1024; request = some (over bytes (tabulate io.heap 0 1024)) },
        )
        else (false, record c { request_size = 1024; request = none }))
    else c.request >>= λ cs. some (true, record c { request = some (over bytes cs) })

-- Client `p` takes its response from item `c`, from the start.
unfoldable pub attach : ℕ → ℕ → Server → Option Server
attach p c s = get_elem? s.clients p >>= λ client.
    some (put_client p (record client { cache_idx = pos c; last_written_idx = pos 0 }) s)

-- The request is in the cache, at item `c`.
unfoldable pub serve_cached : ClientIo → ℕ → ℕ → Server → Option Server
serve_cached io p c s = add_sub io.subs_ok (pos p) (pos c) s >>= λ s1. attach p c s1 >>= λ s2.
    get_elem? s2.clients p >>= λ client. get_elem? s2.cache c >>= λ it.
    if it.response_idx == 0 then some s2 else set_event_for_fd client.fd both_events s2

-- A host at `host_fd` is to fill item `c` for client `p`.
unfoldable pub start_host : ClientIo → ℕ → ℕ → (host_fd : ℤ) → Server → Option Server
start_host io p c host_fd s = set_for_free_host_id io.hosts_ok host_fd s >>= λ (host_idx, s1).
    elim host_idx [
      | negsuc n ↦ none
      | pos h ↦ get_elem? s1.hosts h >>= λ d. get_elem? s1.cache c >>= λ it.
          let s2 = put_host h (record d { cache_idx = pos c; last_written_idx = pos 0 }) s1 in
          add_sub io.subs_ok (pos p) (pos c) (put_item c (record it { host_idx = pos h }) s2)
          >>= λ s3. attach p c s3 >>= λ s4. add_fd_to_server_fds io.fds_ok host_fd both_events s4
    ]

-- The request is new to the cache.
unfoldable pub serve_new : ClientIo → ℕ → (text url : List ℕ) → Server → Option Server
serve_new io p text url s = add_to_cache io.cache_ok io.stored_ok text s >>= λ (cache_idx, s1).
    elim cache_idx [
      | negsuc n ↦ disconnect_client (pos p) s1
      | pos c ↦
          let target = parse_full_url io.sscanf io.stack url in
          let host_fd = io.connect target.host target.port in
          if host_fd ==ℤ minus_one
          then (disconnect_client (pos p) s1 >>= λ s2. clean_cache_item (pos c) s2)
          else start_host io p c host_fd s1
    ]

unfoldable pub serve : ClientIo → ℕ → (text url : List ℕ) → Server → Option Server
serve io p text url s = try_to_find_at_cache io.now text s >>= λ (cache_idx, s1). elim cache_idx [
  | pos c ↦ serve_cached io p c s1
  | negsuc n ↦ serve_new io p text url s1
]

-- The bytes of one `read`. The zero behind them is written outside `buf` if they fill it.
unfoldable pub receive_request : ClientIo → ℕ → List ℕ → Server → Option Server
receive_request io p bytes s =
    if ltb (length bytes) 1024
    then (get_elem? s.clients p >>= λ c. keep_request io p bytes c >>= λ (ready, c').
        let s1 = put_client p c' s in
        if ready
        then (extract_url (c_string bytes) >>= λ answer. elim answer [
          | none ↦ disconnect_client (pos p) s1
          | some url ↦ serve io p (c_string bytes) url s1
        ])
        else disconnect_client (pos p) s1)
    else none

unfoldable pub read_request : ClientIo → ℕ → ReadResult → Server → Option Server
read_request io p read_failed s = disconnect_client (pos p) s
read_request io p (read_bytes []) s = disconnect_client (pos p) s
read_request io p (read_bytes (b ∷ bs)) s = receive_request io p (b ∷ bs) s

unfoldable pub read_from_client : ClientIo → (idx : ℤ) → ReadResult → Server → Option Server
read_from_client io (negsuc p) result s = some s
read_from_client io (pos p) result s =
    if ltb (length s.clients) p
    then some s
    else get_elem? s.clients p >>= λ c. read_request io p result s

-- The end of `WriteToClient`: an item that is complete and was not successful is thrown away.
unfoldable pub drop_failed : ℕ → ℕ → Server → Option Server
drop_failed p c s = get_elem? s.cache c >>= λ it.
    if not it.successful_request && it.full
    then (clean_cache_item (pos c) s >>= λ s1. get_elem? s1.clients p >>= λ client.
        some (put_client p (record client { cache_idx = minus_one }) s1))
    else some s

-- After a `write` to client `p`, which is given the response of item `c`.
unfoldable pub note_sent : ℕ → ℕ → Client → CacheItem → WriteResult → Server → Option Server
note_sent p c client it write_failed s = disconnect_client (pos p) s
note_sent p c client it (written n) s =
    let last = client.last_written_idx +ℤ pos n in
    let s1 = put_client p (record client { last_written_idx = last }) s in
    (if last ==ℤ pos it.response_idx then set_event_for_fd client.fd 1 s1 else some s1) >>= λ s2.
    drop_failed p c s2

-- The bytes that the client is not given yet; `none` are bytes outside the array.
unfoldable pub unsent : (last : ℤ) → CacheItem → Option (List ℕ)
unsent (negsuc n) it = none
unsent (pos last) it =
    if last == it.response_idx
    then some []
    else it.response >>= λ cs.
        if ltb last it.response_idx && leb it.response_idx (length cs)
        then some (take (it.response_idx - last) (drop last cs))
        else none

unfoldable pub send_item :
    (write : ℤ → List ℕ → WriteResult) → ℕ → ℕ → Client → Server → Option Server
send_item write p c client s = get_elem? s.cache c >>= λ it.
    if (it.host_idx ==ℤ minus_one) && not it.valid
    then clean_cache_item (pos c) s
    else unsent client.last_written_idx it >>= λ bytes.
        note_sent p c client it (write client.fd bytes) s

-- `write` is given the descriptor and the bytes.
unfoldable pub write_to_client :
    (write : ℤ → List ℕ → WriteResult) → (idx : ℤ) → Server → Option Server
write_to_client write (negsuc p) s = some s
write_to_client write (pos p) s =
    if ltb (length s.clients) p
    then some s
    else get_elem? s.clients p >>= λ client. elim client.cache_idx [
      | negsuc n ↦ none
      | pos c ↦ send_item write p c client s
    ]

-- `new_fd` is what `accept` returns.
unfoldable pub accept_client : (clients_ok fds_ok : Bool) → (new_fd : ℤ) → Server → Option Server
accept_client clients_ok fds_ok new_fd s =
    if new_fd ==ℤ minus_one
    then some s
    else set_for_free_client_id clients_ok new_fd s >>= λ (idx, s').
        add_fd_to_server_fds fds_ok new_fd 1 s'
