-- ===== src/EventProxy/Responses.antt =====
-- What moves between a host and its cached item: `ReadFromHost` and `WriteToHost` of rybalko/31/server.c.
-- `none` is a use of a null pointer, or a read or write outside an array.
pub mod Room
pub mod Receives
use posix_threads.Common.{
  ℕ, zero, suc, ◌+◌, ◌-◌, ◌*◌, ◌%◌, ◌+ℤ◌, or_else, Bool, true, false, not, ◌&&◌, Option, none, some,
  List, [], ◌∷◌, ◌++◌, ltb, leb, ◌==◌, if◌then◌else◌, get_elem?, length, take, drop, tabulate,
  is_some, ◌>>=◌, ℤ, pos, negsuc, minus_one, ◌==ℤ◌, ltℤ,
}
use posix_threads.PoolProxy.Transfer.{
  ReadResult, read_failed, read_bytes, WriteResult, write_failed, written,
}
use posix_threads.EventProxy.{Client, Host, CacheItem, Server, sub_size, size_max}
use posix_threads.EventProxy.Descriptors.{set_event_for_fd}
use posix_threads.EventProxy.Subscriptions.{put_client, put_host, put_item, both_events, notify_sub}
use posix_threads.EventProxy.Endings.{disconnect_client, disconnect_host, clean_cache_item}
use posix_threads.EventProxy.Eviction.{free_memory}
use posix_threads.EventProxy.Texts.{c_string, get_response_lenght, get_response_status}

-- What one call gets from outside: the numbers that `strtol` reads, what stands in memory that nothing
-- wrote, whether `malloc` and `realloc` succeed, and the results of `time`.
pub record HostIo : Type 0 where
  pub strtol : List ℕ → ℤ × List ℕ
  pub stack : List ℕ
  pub heap : ℕ → ℕ
  pub stored : Bool
  pub grown : Bool
  pub clock : ℕ → ℤ

-- `BUFSIZ`
abbrev pub bufsiz : ℕ
bufsiz = 8192

-- The end of the stream.
unfoldable pub finish_response : (clock : ℕ → ℤ) → ℕ → ℕ → CacheItem → Server → Option Server
finish_response clock h c it s =
    notify_sub c both_events (
      put_item c (record it { full = true; full_time = clock 0; response_size = it.response_idx })
        s)
    >>= λ s'. disconnect_host (pos h) s'

-- The first buffer of item `c`, once there is room for `content_len` bytes.
start_buffer : HostIo → ℕ → ℕ → (content_len : ℕ) → Server → Option (Bool × Server)
start_buffer io h c content_len s = get_elem? s.cache c >>= λ it.
    let s1 = record s { current_cache = (s.current_cache + content_len) % (size_max + 1) } in
    if io.stored
    then some (
      true,
      put_item c (record it { response_size = bufsiz; response = some (tabulate io.heap 0 bufsiz) })
          s1,
    )
    else (disconnect_host (pos h)
          (put_item c (record it { response_size = bufsiz; response = none }) s1)
        >>= λ s'. some (false, s'))

-- Room for `content_len` bytes: what the limit leaves, or what is freed.
make_room : HostIo → ℕ → ℕ → (content_len : ℕ) → Server → Option (Bool × Server)
unfolding start_buffer
make_room io h c content_len s =
    if ltb (sub_size s.max_cache s.current_cache) content_len
    then (free_memory io.clock content_len s >>= λ (r, s').
        if r ==ℤ pos 0
        then start_buffer io h c content_len s'
        else disconnect_host (pos h) s' >>= λ s2. some (false, s2))
    else start_buffer io h c content_len s

-- The branch for the first bytes of a response; the Boolean says whether the call goes on.
admit_response : HostIo → ℕ → ℕ → (content_len : ℤ) → Server → Option (Bool × Server)
unfolding make_room
admit_response io h c (pos content_len) s =
    if ltb s.max_cache content_len
    then (clean_cache_item (pos c) s >>= λ s'. some (false, s'))
    else make_room io h c content_len s
admit_response io h c (negsuc zero) s = disconnect_host (pos h) s >>= λ s'. some (false, s')
admit_response io h c (negsuc (suc n)) s = clean_cache_item (pos c) s >>= λ s'. some (false, s')

unfoldable pub begin_response : HostIo → ℕ → ℕ → (header : List ℕ) → Server → Option (Bool × Server)
unfolding admit_response
begin_response io h c header s =
    get_response_lenght io.strtol header >>= λ len. admit_response io h c len s

-- The array of the response after `realloc` has made it twice as large as the item says.
abbrev pub widened : HostIo → CacheItem → CacheItem
widened io it =
    let cs = or_else it.response [] in
    record it {
      response_size = it.response_size * 2;
      response = some (cs ++ tabulate io.heap (length cs) (it.response_size * 2 - length cs));
    }

-- `memcpy` of `bytes` to cell `i`.
unfoldable pub write_at : ℕ → (bytes : List ℕ) → List ℕ → Option (List ℕ)
write_at i bytes cs =
    if leb (i + length bytes) (length cs)
    then some (take i cs ++ bytes ++ drop (i + length bytes) cs)
    else none

-- The first bytes tell whether the request was successful.
unfoldable pub parse_header : HostIo → ℕ → ℕ → (header : List ℕ) → Server → Option Server
parse_header io h c header s = get_elem? s.hosts h >>= λ d.
    if d.header_parsed
    then some s
    else get_response_status io.strtol header >>= λ status. get_elem? s.cache c >>= λ it.
        let s' = put_host h (record d { header_parsed = true }) s in
        some (
          if not (ltℤ status (pos 200)) && ltℤ status (pos 300)
          then put_item c (record it { successful_request = true }) s'
          else s')

-- The bytes behind what the response of `it`, item `c`, holds already.
unfoldable pub store_bytes : HostIo → ℕ → ℕ → List ℕ → CacheItem → Server → Option Server
store_bytes io h c bytes it s = it.response >>= λ cs. write_at it.response_idx bytes cs >>= λ new.
    notify_sub c both_events (
      put_item c (record it { response = some new; response_idx = it.response_idx + length bytes })
        s)
    >>= λ s'. parse_header io h c (c_string (bytes ++ io.stack)) s'

-- First the array is made larger if the bytes would fill it.
unfoldable pub append_bytes : HostIo → ℕ → ℕ → List ℕ → Server → Option Server
append_bytes io h c bytes s = get_elem? s.cache c >>= λ it.
    if leb it.response_size (length bytes + it.response_idx)
    then (if io.grown
        then store_bytes io h c bytes (widened io it) s
        else disconnect_host (pos h)
            (put_item c (record it { response_size = it.response_size * 2; response = none }) s))
    else store_bytes io h c bytes it s

-- The bytes of one `read`, for host `h` and its item `c`.
unfoldable pub receive_bytes : HostIo → ℕ → ℕ → List ℕ → Server → Option Server
receive_bytes io h c bytes s = get_elem? s.cache c >>= λ it.
    if it.response_size == 0
    then (begin_response io h c (c_string (bytes ++ io.stack)) s >>= λ (go, s').
        if go then append_bytes io h c bytes s' else some s')
    else append_bytes io h c bytes s

unfoldable pub read_into : HostIo → ℕ → (cache_idx : ℤ) → ReadResult → Server → Option Server
read_into io h cache_idx read_failed s = some s
read_into io h (negsuc n) (read_bytes bytes) s = none
read_into io h (pos c) (read_bytes []) s =
    get_elem? s.cache c >>= λ it. finish_response io.clock h c it s
read_into io h (pos c) (read_bytes (b ∷ bs)) s = receive_bytes io h c (b ∷ bs) s

unfoldable pub read_from_host : HostIo → (idx : ℤ) → ReadResult → Server → Option Server
read_from_host io (negsuc h) result s = some s
read_from_host io (pos h) result s =
    if ltb (length s.hosts) h
    then some s
    else get_elem? s.hosts h >>= λ d. read_into io h d.cache_idx result s

-- After a `write` to host `h`.
unfoldable pub note_written : ℕ → Host → CacheItem → WriteResult → Server → Option Server
note_written h d it write_failed s = disconnect_host (pos h) s
note_written h d it (written n) s =
    let last = d.last_written_idx +ℤ pos n in
    let s' = put_host h (record d { last_written_idx = last }) s in
    if last ==ℤ pos it.request_size then set_event_for_fd d.fd 1 s' else some s'

-- The bytes of the request that the host is not given yet; a null pointer has none.
abbrev pub left_of : (last : ℕ) → CacheItem → List ℕ
left_of last it = take (it.request_size - last) (drop last (or_else it.request []))

-- `write` is given the descriptor and those bytes.
unfoldable pub write_to_host :
    (write : ℤ → List ℕ → WriteResult) → (idx : ℤ) → Server → Option Server
unfolding note_written
write_to_host write (negsuc h) s = some s
write_to_host write (pos h) s =
    if ltb (length s.hosts) h
    then some s
    else get_elem? s.hosts h >>= λ d. elim d.cache_idx [
      | negsuc n ↦ none
      | pos c ↦ get_elem? s.cache c >>= λ it. elim d.last_written_idx [
        | negsuc n ↦ none
        | pos last ↦ note_written h d it (write d.fd (left_of last it)) s
      ]
    ]
