-- ===== src/EventProxy/Eviction.antt =====
-- Which cached response goes when memory is short: `GetOldestRecord` and
-- `FreeMemoryForNewCacheRecord` of rybalko/31/server.c.
pub mod Oldest
pub mod Frees
use posix_threads.Common.{
  ℕ, zero, suc, ◌+◌, Bool, true, false, not, ◌&&◌, Option, none, some, List, [], ◌∷◌, ltb,
  if◌then◌else◌, get_elem?, length, ◌>>=◌, ℤ, pos, negsuc, minus_one, ◌==ℤ◌, ltℤ,
}
use posix_threads.EventProxy.{CacheItem, Server, sub_size}
use posix_threads.EventProxy.Endings.{clean_cache_item}

-- An item with a time.
abbrev pub timed : CacheItem → Bool
timed it = not (it.full_time ==ℤ minus_one)

-- The loop from index `i` on, with its two variables `max_timeout` and `res`, which it returns.
unfoldable pub oldest_from : (i : ℕ) (max_timeout res : ℤ) → List CacheItem → ℤ × ℤ
oldest_from i max_timeout res [] = (max_timeout, res)
oldest_from i max_timeout res (it ∷ its) =
    let older = ltℤ it.full_time max_timeout && timed it in
    oldest_from (suc i) (if older then it.full_time else max_timeout) (if older then pos i else res)
      its

-- `now` is what `time` returns.
unfoldable pub get_oldest_record : (now : ℤ) → Server → ℤ
unfolding oldest_from
get_oldest_record now s = (oldest_from 0 now minus_one s.cache).1

-- One pass of the loop, for the record with index `c`.
unfoldable pub evict_one : ℕ → Server → Option Server
evict_one c s = get_elem? s.cache c >>= λ it.
    clean_cache_item (pos c)
      (record s { current_cache = sub_size s.current_cache it.response_size })

abbrev pub free_bytes : Server → ℕ
free_bytes s = sub_size s.max_cache s.current_cache

-- `clock k` is the `k`-th result of `time`. The fuel counts the passes.
unfoldable pub evict :
    (clock : ℕ → ℤ) (fuel k needed_bytes : ℕ) → (oldest : ℤ) → Server → Option Server
evict clock zero k needed oldest s = none
evict clock (suc fuel) k needed (negsuc n) s = some s
evict clock (suc fuel) k needed (pos c) s =
    if ltb (free_bytes s) needed
    then (evict_one c s >>= λ s'.
        evict clock fuel (suc k) needed (get_oldest_record (clock k) s') s')
    else some s

-- With a pass for each item and one more.
unfoldable pub free_memory : (clock : ℕ → ℤ) (needed_bytes : ℕ) → Server → Option (ℤ × Server)
free_memory clock needed s =
    evict clock (suc (length s.cache)) 1 needed (get_oldest_record (clock 0) s) s >>= λ s'.
    some (if ltb needed (free_bytes s') then pos 0 else minus_one, s')
