-- ===== src/EventProxy/Endings.antt =====
-- How connections and cached items end: `DisconnectClient`, `DisconnectHost` and `CleanCacheItem`
-- of rybalko/31/server.c. `none` is a read or write outside an array or through a null pointer.
use posix_threads.Common.{
  ℕ, false, Option, none, some, List, [], ◌∷◌, ltb, if◌then◌else◌, get_elem?, length, is_some,
  ◌>>=◌, ℤ, pos, negsuc, minus_one, ◌==ℤ◌,
}
use posix_threads.EventProxy.{Client, Host, CacheItem, Server}
use posix_threads.EventProxy.Descriptors.{delete_from_poll}
use posix_threads.EventProxy.Subscriptions.{
  put_client, put_host, put_item, sub_cells, both_events, delete_sub, notify_sub,
}

abbrev pub forget_request : Client → Client
forget_request c =
    if is_some c.request
    then record c { request = none; request_size = 0; last_written_idx = pos 0 }
    else c

-- The descriptor of client `p`.
unfoldable pub hang_up : ℕ → Client → Server → Option Server
unfolding delete_from_poll
hang_up p c s =
    if c.fd ==ℤ minus_one
    then some (put_client p c s)
    else delete_from_poll c.fd s >>= λ s'. some (put_client p (record c { fd = minus_one }) s')

-- The last part of `DisconnectClient`, for client `p`, whose cell now holds `c`.
unfoldable pub leave_cache : ℕ → Client → Server → Option Server
unfolding delete_sub
leave_cache p c s =
    if c.cache_idx ==ℤ minus_one
    then some s
    else delete_sub (pos p) c.cache_idx s >>= λ s'.
        some (put_client p (record c { cache_idx = minus_one; last_written_idx = minus_one }) s')

abbrev pub without_fd : Client → Client
without_fd c = if c.fd ==ℤ minus_one then c else record c { fd = minus_one }

unfoldable pub disconnect_client : ℤ → Server → Option Server
unfolding hang_up leave_cache
disconnect_client (negsuc p) s = some s
disconnect_client (pos p) s =
    if ltb (length s.clients) p
    then some s
    else get_elem? s.clients p >>= λ c.
        hang_up p (forget_request c) s >>= λ s'. leave_cache p (without_fd (forget_request c)) s'

-- The part of `DisconnectHost` about the item that the host fills, `cache_idx`.
unfoldable pub leave_item : ℕ → Host → (cache_idx : ℤ) → Server → Option Server
unfolding notify_sub
leave_item h d (negsuc n) s = some (put_host h d s)
leave_item h d (pos c) s = get_elem? s.cache c >>= λ it.
    notify_sub c both_events (put_item c (record it { host_idx = minus_one }) (put_host h d s))
    >>= λ s'. some (put_host h (record d { cache_idx = minus_one }) s')

-- The descriptor of host `h`.
unfoldable pub hang_up_host : ℕ → Server → Option Server
unfolding delete_from_poll
hang_up_host h s = get_elem? s.hosts h >>= λ d.
    if d.fd ==ℤ minus_one
    then some s
    else delete_from_poll d.fd s >>= λ s'. some (put_host h (record d { fd = minus_one }) s')

unfoldable pub disconnect_host : (host_idx : ℤ) → Server → Option Server
unfolding leave_item hang_up_host
disconnect_host (negsuc h) s = some s
disconnect_host (pos h) s =
    if ltb (length s.hosts) h
    then some s
    else get_elem? s.hosts h >>= λ d.
        leave_item h (record d { last_written_idx = minus_one; header_parsed = false }) d.cache_idx
          s
        >>= λ s'. hang_up_host h s'

-- The fields that `CleanCacheItem` resets first.
abbrev pub reset_item : CacheItem → CacheItem
reset_item it = record it {
  full = false;
  full_time = minus_one;
  valid = false;
  successful_request = false;
  request_hash = 18446744073709551615;
  request = none;
  request_size = 0;
  response = none;
  response_size = 0;
  response_idx = 0;
}

unfoldable pub disconnect_all : List ℤ → Server → Option Server
unfolding disconnect_client
disconnect_all [] s = some s
disconnect_all (x ∷ xs) s =
    (if x ==ℤ minus_one then some s else disconnect_client x s) >>= λ s'. disconnect_all xs s'

-- The host of item `c`.
unfoldable pub clean_host : ℕ → Server → Option Server
unfolding disconnect_host
clean_host c s = get_elem? s.cache c >>= λ it.
    if it.host_idx ==ℤ minus_one
    then some s
    else disconnect_host it.host_idx s >>= λ s'.
        get_elem? s'.cache c >>= λ it'. some (put_item c (record it' { host_idx = minus_one }) s')

-- The subscribers of item `c`; each is disconnected when `subs_size` is 0 already.
unfoldable pub clean_cells : ℕ → CacheItem → List ℤ → Server → Option Server
unfolding disconnect_all
clean_cells c it cs s = disconnect_all cs (put_item c (record it { subs_size = 0 }) s) >>= λ s'.
    get_elem? s'.cache c >>= λ it'.
    some (put_item c (record it' { subscribers = none; curr_subs = 0 }) s')

unfoldable pub clean_subs : ℕ → Server → Option Server
unfolding sub_cells clean_cells
clean_subs c s = get_elem? s.cache c >>= λ it.
    if is_some it.subscribers then (sub_cells it >>= λ cs. clean_cells c it cs s) else some s

unfoldable pub clean_cache_item : (cache_idx : ℤ) → Server → Option Server
unfolding clean_host clean_subs
clean_cache_item (negsuc c) s = some s
clean_cache_item (pos c) s =
    if ltb (length s.cache) c
    then some s
    else get_elem? s.cache c >>= λ it.
        clean_host c (put_item c (reset_item it) s) >>= λ s'. clean_subs c s'
