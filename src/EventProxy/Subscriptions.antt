-- ===== src/EventProxy/Subscriptions.antt =====
-- Who waits for a cached response: `ReallocSubs`, `AddSub`, `DeleteSub` and `NotifySub` of
-- rybalko/31/server.c. `none` is a read or write outside an array or through a null pointer.
use posix_threads.Common.{
  ℕ, zero, suc, ◌+◌, ◌*◌, Bool, ◌||◌, Option, none, some, List, [], ◌∷◌, ◌++◌, ltb, leb, ◌==◌,
  if◌then◌else◌, get_elem?, length, modify, take, replicate, ◌>>=◌, ℤ, pos, negsuc, minus_one,
  is_neg, ◌==ℤ◌, find_below,
}
use posix_threads.EventProxy.{Client, Host, CacheItem, Server, sub_size}
use posix_threads.EventProxy.Descriptors.{set_event_for_fd}

abbrev pub put_client : ℕ → Client → Server → Server
put_client p c s = record s { clients = modify s.clients p (λ _. c) }

abbrev pub put_host : ℕ → Host → Server → Server
put_host h d s = record s { hosts = modify s.hosts h (λ _. d) }

abbrev pub put_item : ℕ → CacheItem → Server → Server
put_item c it s = record s { cache = modify s.cache c (λ _. it) }

-- The cells that a loop up to `subs_size` reads.
unfoldable pub sub_cells : CacheItem → Option (List ℤ)
sub_cells it =
    if it.subs_size == 0
    then some []
    else it.subscribers >>= λ cs.
        if leb it.subs_size (length cs) then some (take it.subs_size cs) else none

-- `POLLIN | POLLOUT`
abbrev pub both_events : ℕ
both_events = 5

-- What the loop of `DeleteSub` leaves in the cells below `n`.
unfoldable pub drop_client : ℤ → ℕ → List ℤ → List ℤ
drop_client p zero xs = xs
drop_client p (suc n) [] = []
drop_client p (suc n) (x ∷ xs) = (if x ==ℤ p then minus_one else x) ∷ drop_client p n xs

-- How often that loop counts `curr_subs` down.
unfoldable pub count_cells : ℤ → ℕ → List ℤ → ℕ
count_cells p zero xs = 0
count_cells p (suc n) [] = 0
count_cells p (suc n) (x ∷ xs) = (if x ==ℤ p then 1 else 0) + count_cells p n xs

unfoldable pub drop_from : ℕ → CacheItem → Option CacheItem
unfolding drop_client count_cells
drop_from p it =
    if it.subs_size == 0
    then some it
    else it.subscribers >>= λ cs.
        if leb it.subs_size (length cs)
        then some (record it {
          subscribers = some (drop_client (pos p) it.subs_size cs);
          curr_subs = sub_size it.curr_subs (count_cells (pos p) it.subs_size cs);
        })
        else none

unfoldable pub delete_sub : (client_idx cache_idx : ℤ) → Server → Option Server
unfolding drop_from
delete_sub (negsuc p) c s = some s
delete_sub (pos p) (negsuc c) s = some s
delete_sub (pos p) (pos c) s =
    if ltb (length s.cache) c || ltb (length s.clients) p
    then some s
    else get_elem? s.cache c >>= λ it. drop_from p it >>= λ it'. some (put_item c it' s)

-- The body of the loop of `NotifySub` for a subscriber that is not -1.
unfoldable pub notify_client : ℕ → ℕ → Server → Option Server
unfolding set_event_for_fd
notify_client events p s = get_elem? s.clients p >>= λ c. set_event_for_fd c.fd events s >>= λ s'.
    some (
      if is_neg c.last_written_idx
      then put_client p (record c { last_written_idx = pos 0 }) s'
      else s')

unfoldable pub notify_all : ℕ → List ℤ → Server → Option Server
unfolding notify_client
notify_all events [] s = some s
notify_all events (pos p ∷ cs) s = notify_client events p s >>= λ s'. notify_all events cs s'
notify_all events (negsuc zero ∷ cs) s = notify_all events cs s
notify_all events (negsuc (suc k) ∷ cs) s = none

-- `NotifySub` for an index that is not negative.
unfoldable pub notify_sub : (cache_idx : ℕ) → (events : ℕ) → Server → Option Server
unfolding sub_cells notify_all
notify_sub c events s = get_elem? s.cache c >>= λ it. sub_cells it >>= λ cs. notify_all events cs s

-- The first array of `AddSub`, of `SUB_SIZE` cells; when `malloc` fails a null pointer is written to.
unfoldable pub first_subs : (allocated : Bool) → CacheItem → Option CacheItem
first_subs allocated it =
    if it.subs_size == 0
    then (if allocated
        then some (record it { subs_size = 8; subscribers = some (replicate 8 minus_one) })
        else none)
    else some it

-- `ReallocSubs`; when it fails `AddSub` goes on to read the null pointer. A null array has cells
-- that nothing wrote.
unfoldable pub double_subs : (allocated : Bool) → CacheItem → Option CacheItem
double_subs allocated it =
    if allocated
    then (it.subscribers >>= λ cs. some (record it {
      subs_size = it.subs_size * 2;
      subscribers = some (take it.subs_size cs ++ replicate it.subs_size minus_one);
    }))
    else none

unfoldable pub more_subs : (allocated : Bool) → CacheItem → Option CacheItem
more_subs allocated it = if leb it.subs_size it.curr_subs then double_subs allocated it else some it

-- The cell where the last loop of `AddSub` stops is given to the client.
unfoldable pub store_at : ℕ → CacheItem → List ℤ → Option ℕ → Option CacheItem
store_at p it cs none = if leb it.subs_size (length cs) then some it else none
store_at p it cs (some i) = get_elem? cs i >>= λ x. some (record it {
  subscribers = some (modify cs i (λ _. pos p));
  curr_subs = it.curr_subs + (if x ==ℤ minus_one then 1 else 0);
})

abbrev pub free_for : ℕ → ℤ → Bool
free_for p x = (x ==ℤ pos p) || (x ==ℤ minus_one)

-- The last loop of `AddSub`: the first cell that is free or holds the client.
unfoldable pub store_sub : ℕ → CacheItem → Option CacheItem
store_sub p it = it.subscribers >>= λ cs. store_at p it cs (find_below (free_for p) it.subs_size cs)

unfoldable pub subscribe_to : (allocated : Bool) → ℕ → CacheItem → Option CacheItem
subscribe_to allocated p it =
    first_subs allocated (record it { curr_subs = it.curr_subs + 1 }) >>= λ it1.
    more_subs allocated it1 >>= λ it2. store_sub p it2

unfoldable pub add_sub : (allocated : Bool) → (client_idx cache_idx : ℤ) → Server → Option Server
add_sub allocated (negsuc p) c s = some s
add_sub allocated (pos p) (negsuc c) s = some s
add_sub allocated (pos p) (pos c) s =
    if ltb (length s.cache) c || ltb (length s.clients) p
    then some s
    else get_elem? s.cache c >>= λ it.
        if it.valid
        then (subscribe_to allocated p it >>= λ it'. some (put_item c it' s))
        else some s
