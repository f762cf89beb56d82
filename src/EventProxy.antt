-- ===== src/EventProxy.antt =====
-- The state of the proxy of rybalko/31/server.c, which serves all its clients and hosts from one `poll`
-- loop: its structures, and the cells that its loops initialise.
pub mod Descriptors
pub mod Endings
pub mod Eviction
pub mod Safe
pub mod Subscriptions
pub mod Loop
pub mod Requests
pub mod Responses
pub mod Tables
pub mod Texts
use posix_threads.Common.{
  ℕ, ◌+◌, ◌-◌, Bool, false, Option, none, List, leb, ltb, ◌==◌, if◌then◌else◌, ℤ, pos, negsuc,
  minus_one,
}
use posix_threads.PoolProxy.PollTable.{PollFd}

-- `struct Client`
pub record Client : Type 0 where
  pub fd : ℤ
  pub request : Option (List ℕ)
  pub request_size : ℕ
  pub cache_idx : ℤ
  pub last_written_idx : ℤ

-- `struct Host`
pub record Host : Type 0 where
  pub fd : ℤ
  pub cache_idx : ℤ
  pub last_written_idx : ℤ
  pub header_parsed : Bool

-- `struct Cache`; a null pointer is `none`, and `host_idx`, a `size_t`, is -1 as the code compares it.
pub record CacheItem : Type 0 where
  pub request_hash : ℕ
  pub host_idx : ℤ
  pub subscribers : Option (List ℤ)
  pub subs_size : ℕ
  pub curr_subs : ℕ
  pub request : Option (List ℕ)
  pub request_size : ℕ
  pub response : Option (List ℕ)
  pub response_size : ℕ
  pub response_idx : ℕ
  pub full_time : ℤ
  pub full : Bool
  pub valid : Bool
  pub successful_request : Bool

-- The global variables. `CURRENT_CLIENTS_AMOUNT`, `CURRENT_HOSTS_AMOUNT`, `CACHE_SIZE` and
-- `TOTAL_FDS_AMOUNT` are the lengths of the arrays, which are allocated by them; `current` is
-- `CURRENT_POLL_FDS`. `closed` are the descriptors handed to `close`, the latest first.
pub record Server : Type 0 where
  pub server_fds : List PollFd
  pub current : ℕ
  pub server_amount : ℕ
  pub closed : List ℤ
  pub clients : List Client
  pub hosts : List Host
  pub cache : List CacheItem
  pub max_cache : ℕ
  pub current_cache : ℕ

-- `SIZE_MAX`
abbrev pub size_max : ℕ
size_max = 18446744073709551615

-- `a - b` of `size_t`.
abbrev pub sub_size : ℕ → ℕ → ℕ
sub_size a b = if leb b a then a - b else a + (size_max + 1) - b

-- `InitHost`
abbrev pub empty_host : Host
empty_host = record {
  fd = minus_one;
  cache_idx = minus_one;
  last_written_idx = minus_one;
  header_parsed = false;
}

-- `InitClient`
abbrev pub empty_client : Client
empty_client = record {
  fd = minus_one;
  request = none;
  request_size = 0;
  cache_idx = minus_one;
  last_written_idx = minus_one;
}

-- `InitCacheItem`, which writes all fields.
abbrev pub empty_item : CacheItem
empty_item = record {
  request_hash = size_max;
  host_idx = minus_one;
  subscribers = none;
  subs_size = 0;
  curr_subs = 0;
  request = none;
  request_size = 0;
  response = none;
  response_size = 0;
  response_idx = 0;
  full_time = minus_one;
  full = false;
  valid = false;
  successful_request = false;
}

-- An index that is -1 or inside an array of `n` cells.
abbrev pub within : ℕ → ℤ → Bool
within n (pos i) = ltb i n
within n (negsuc k) = k == 0
