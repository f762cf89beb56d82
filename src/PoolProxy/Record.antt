-- ===== src/PoolProxy/Record.antt =====
-- One record of the cache of matsko/33_proxy_with_thread_pool: `cache_t` of cache.h, and the functions
-- of proxy.c that work on a single record. A record's mutexes are held inside one call only, so
-- each of these is one step.
pub mod Subscribers
pub mod Keeps
use posix_threads.Common.{
  ℕ, zero, suc, ◌*◌, ◌≡◌, Bool, true, false, not, ◌||◌, Option, none, some, List, [], ◌∷◌, ◌++◌,
  ◌==◌, if◌then◌else◌, length, modify, replicate, tabulate, ℤ, pos, minus_one, is_neg, ◌==ℤ◌,
  find_below,
}

-- `none` is the null pointer; a buffer is the list of its cells.
pub record Record : Type 0 where
  pub url : Option (List ℕ)
  pub request : Option (List ℕ)
  pub response : Option (List ℕ)
  pub subscribers : Option (List ℤ)
  pub url_len : ℕ
  pub subscribers_size : ℕ
  pub request_size : ℕ
  pub response_size : ℕ
  pub response_index : ℕ
  pub server_index : ℤ
  pub full : Bool
  pub valid : Bool
  pub private : Bool
  pub valid_rw_lock : Bool
  pub valid_subs_mutex : Bool

-- A record just after `calloc` and `initEmptyCacheRecord`, which leaves `REQUEST_SIZE` at 0.
abbrev pub empty_record : Record
empty_record = record {
  url = none;
  request = none;
  response = none;
  subscribers = none;
  url_len = 0;
  subscribers_size = 0;
  request_size = 0;
  response_size = 0;
  response_index = 0;
  server_index = minus_one;
  full = false;
  valid = false;
  private = true;
  valid_rw_lock = true;
  valid_subs_mutex = true;
}

abbrev pub put_subscribers : Record → List ℤ → Record
put_subscribers r cells = record r { subscribers = some cells }

-- `for (i = 0; i < size; i++) if (subscribers[i] == thread_fd) subscribers[i] = -1;`
drop_fd : ℤ → ℕ → List ℤ → List ℤ
drop_fd fd zero ss = ss
drop_fd fd (suc n) [] = []
drop_fd fd (suc n) (s ∷ ss) = (if s ==ℤ fd then minus_one else s) ∷ drop_fd fd n ss

-- Results of the three functions: `none` is the read through a null pointer.
pub remove_subscriber : ℤ → Record → Option Record
unfolding drop_fd
remove_subscriber thread_fd r =
    if is_neg thread_fd
    then some r
    else if r.subscribers_size == 0
    then some r
    else elim r.subscribers [
      | none ↦ none
      | some cells ↦ some (put_subscribers r (drop_fd thread_fd r.subscribers_size cells))
    ]

-- The first allocation in `addSubscriber`; when `calloc` fails the size stays at 4.
first_cells : (allocated : Bool) → Record → Bool × Record
first_cells allocated r =
    if r.subscribers_size == 0
    then (if allocated
        then (true, record r { subscribers_size = 4; subscribers = some (replicate 4 minus_one) })
        else (false, record r { subscribers_size = 4; subscribers = none }))
    else (true, r)

-- The first cell that is free or holds `thread_fd` already; else the array is doubled.
store_fd : ℤ → Record → List ℤ → Record
unfolding find_below
store_fd fd r cells =
    elim (find_below (λ s. (s ==ℤ minus_one) || (s ==ℤ fd)) r.subscribers_size cells) [
      | some i ↦ put_subscribers r (modify cells i (λ _. fd))
      | none ↦ record r {
        subscribers_size = r.subscribers_size * 2;
        subscribers =
            some (
              modify (cells ++ replicate r.subscribers_size minus_one) r.subscribers_size
                (λ _. fd));
      }
    ]

pub add_subscriber : (allocated : Bool) → ℤ → Record → Option (ℤ × Record)
unfolding first_cells store_fd
add_subscriber allocated thread_fd r =
    if is_neg thread_fd || not r.valid
    then some (minus_one, r)
    else let (ready, r') = first_cells allocated r in
      if ready
      then elim r'.subscribers [
        | none ↦ none
        | some cells ↦ some (pos 0, store_fd thread_fd r' cells)
      ]
      else some (minus_one, r')

subscribed : ℕ → List ℤ → List ℤ
subscribed zero ss = []
subscribed (suc n) [] = []
subscribed (suc n) (s ∷ ss) =
    let rest = subscribed n ss in if s ==ℤ minus_one then rest else s ∷ rest

unfoldable pub told_cells : ℕ → Option (List ℤ) → Option (List ℤ)
unfolding subscribed
told_cells size cells =
    if size == 0 then some [] else elim cells [ none ↦ none | some cs ↦ some (subscribed size cs) ]

-- `notifySubscribers`: the descriptors that are written to, in order.
unfoldable pub notify_subscribers : Record → Option (List ℤ)
notify_subscribers r = told_cells r.subscribers_size r.subscribers
