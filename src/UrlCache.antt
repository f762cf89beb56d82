-- ===== src/UrlCache.antt =====
-- The cache of shuvalov/31/http_socket/cache.c: a fixed array of nodes, each with the url it stands for and
-- a response of its own, whose subscribers are clients. A response is named by the index of its node.
pub mod Nodes
pub mod Turns
pub mod Lookup
pub mod Slots
use posix_threads.Common.{
  ℕ, zero, suc, ◌+◌, ◌-◌, ◌%◌, ◌^◌, Bool, true, false, Option, none, some, List, [], ◌∷◌, ltb, ◌==◌,
  if◌then◌else◌, get_elem?, modify, replicate, tabulate, ℤ, pos, negsuc, minus_one, ◌+ℤ◌, ◌==ℤ◌,
  find_below, same_string,
}

-- The fields of `struct response` that the cache works on; a subscriber is the address of a client.
pub record Response : Type 0 where
  pub subscribers : List (Option ℕ)
  pub subscribers_count : ℤ
  pub subscribers_max_size : ℕ
  pub buf_size : ℕ
  pub buf_len : ℕ
  pub headers_max_size : ℕ
  pub content_length : ℤ
  pub not_content_length : ℤ
  pub status : ℤ

pub record CacheNode : Type 0 where
  pub response : Response
  pub url : Option (List ℕ)
  pub empty : ℕ

pub record UrlCache : Type 0 where
  pub nodes : List CacheNode
  pub last_node_set : ℤ
  pub size : ℕ

-- The fields of `struct client` that the cache works on.
pub record SocketClient : Type 0 where
  pub fd : ℤ
  pub cache_node : ℤ
  pub response : Option ℕ

abbrev pub buf_size_default : ℕ
buf_size_default = 4096

-- `init_cache_node` with memory at hand.
abbrev pub new_node : CacheNode
new_node = record {
  empty = 1;
  url = none;
  response = record {
    status = minus_one;
    subscribers_count = pos 0;
    buf_size = buf_size_default;
    buf_len = 0;
    content_length = minus_one;
    not_content_length = minus_one;
    headers_max_size = 100;
    subscribers_max_size = 100;
    subscribers = replicate 100 none;
  };
}

-- `init_cache`, where `allocated i` says whether the memory of node `i` is at hand; `none` is -1.
all_below : (ℕ → Bool) → ℕ → Bool
all_below f zero = true
all_below f (suc n) = let rest = all_below f n in if f n then rest else false

pub init_cache : (nodes_ok : Bool) (allocated : ℕ → Bool) → ℕ → Option UrlCache
unfolding all_below
init_cache nodes_ok allocated size =
    if nodes_ok
    then (if all_below allocated size
        then some
            (record { nodes = replicate size new_node; last_node_set = minus_one; size = size })
        else none)
    else none

-- The array of subscribers is left as it is.
unfoldable pub clear_cache_node : CacheNode → CacheNode
clear_cache_node c = record {
  empty = 1;
  url = none;
  response = record (c.response) {
    subscribers_count = pos 0;
    buf_size = buf_size_default;
    buf_len = 0;
    content_length = minus_one;
    not_content_length = minus_one;
    headers_max_size = 100;
    subscribers_max_size = 100;
    status = minus_one;
  };
}

unfoldable pub set_cache_node : List ℕ → CacheNode → CacheNode
unfolding clear_cache_node
set_cache_node url c = record (clear_cache_node c) { url = some url; empty = 0 }

abbrev pub next_index : Option (Option ℕ) → Option (Option ℕ)
next_index none = none
next_index (some none) = some none
next_index (some (some i)) = some (some (suc i))

-- The loop of `get`: outside it `none` is a url that is null.
unfoldable pub get_from : List ℕ → ℕ → List CacheNode → Option (Option ℕ)
unfolding same_string
get_from url zero cs = some none
get_from url (suc n) [] = none
get_from url (suc n) (c ∷ cs) =
    let rest = next_index (get_from url n cs) in
    if c.empty == 0
    then elim c.url [ none ↦ none | some u ↦ if same_string u url then some (some 0) else rest ]
    else rest

-- The index of the node for the url, if there is one.
unfoldable pub get : UrlCache → List ℕ → Option (Option ℕ)
unfolding get_from
get cache url = get_from url cache.size cache.nodes

-- `++last_node_set` of an `int`; `none` is the overflow, which has no defined result.
abbrev pub next_set : ℤ → Option ℤ
next_set (pos n) = if ltb n 2147483647 then some (pos (suc n)) else none
next_set (negsuc zero) = some (pos 0)
next_set (negsuc (suc n)) = some (negsuc n)

-- `last_node_set % size`, where the integer becomes a `size_t`.
abbrev pub victim : ℤ → ℕ → ℕ
victim (pos n) size = n % size
victim (negsuc n) size = (2 ^ 64 - suc n) % size

unfoldable pub set : UrlCache → List ℕ → Option (ℕ × UrlCache)
unfolding set_cache_node find_below
set cache url = elim (find_below (λ c. c.empty == 1) cache.size cache.nodes) [
  | some i ↦ some (i, record cache { nodes = modify cache.nodes i (set_cache_node url) })
  | none ↦ elim (next_set cache.last_node_set) [
    | none ↦ none
    | some last ↦
        let i = victim last cache.size in
        some (
          i,
          record cache { nodes = modify cache.nodes i (set_cache_node url); last_node_set = last },
        )
  ]
]

-- The loop of `subscribe`: every slot that is null.
fill_slots : ℕ → ℕ → List (Option ℕ) → List (Option ℕ)
fill_slots p zero ss = ss
fill_slots p (suc n) [] = []
fill_slots p (suc n) (none ∷ ss) = some p ∷ fill_slots p n ss
fill_slots p (suc n) (some q ∷ ss) = some q ∷ fill_slots p n ss

-- The clients by their addresses.
abbrev pub Clients : Type 0
Clients = ℕ → Option SocketClient

abbrev pub put_client : Clients → ℕ → SocketClient → Clients
put_client cs p c q = if p == q then some c else cs q

abbrev pub put_response : UrlCache → ℕ → Response → UrlCache
put_response cache i r = record cache {
  nodes = modify cache.nodes i (λ n. record n { response = r });
}

take_slots : ℕ → Response → Response
unfolding fill_slots
take_slots p r = record r {
  subscribers = fill_slots p r.subscribers_max_size r.subscribers;
  subscribers_count = r.subscribers_count +ℤ pos 1;
}

-- The client at `p`; `none` is a bad access.
pub subscribe : Clients → ℕ → UrlCache → ℕ → Option (Clients × UrlCache)
subscribe cs p cache i = elim (get_elem? cache.nodes i) [
  | none ↦ none
  | some n ↦ elim (cs p) [
    | none ↦ none
    | some c ↦ some (
      put_client cs p (record c { cache_node = pos i; response = some i }),
      put_response cache i (take_slots p n.response),
    )
  ]
]

-- The loop of `unsubscribe`: every slot whose client has the descriptor.
clear_slots : Clients → ℤ → ℕ → List (Option ℕ) → Option (List (Option ℕ))
clear_slots cs fd zero ss = some ss
clear_slots cs fd (suc n) [] = none
clear_slots cs fd (suc n) (none ∷ ss) = elim (clear_slots cs fd n ss) [
  | none ↦ none
  | some rest ↦ some (none ∷ rest)
]
clear_slots cs fd (suc n) (some q ∷ ss) = elim (cs q) [
  | none ↦ none
  | some c ↦ elim (clear_slots cs fd n ss) [
    | none ↦ none
    | some rest ↦ some ((if c.fd ==ℤ fd then none else some q) ∷ rest)
  ]
]

drop_subscriber : Clients → ℤ → Response → Option Response
unfolding clear_slots
drop_subscriber cs fd r = elim (clear_slots cs fd r.subscribers_max_size r.subscribers) [
  | none ↦ none
  | some ss ↦
      some (record r { subscribers = ss; subscribers_count = r.subscribers_count +ℤ minus_one })
]

unsubscribe_from : Clients → SocketClient → UrlCache → ℕ → Option UrlCache
unfolding drop_subscriber
unsubscribe_from cs c cache i = elim (get_elem? cache.nodes i) [
  | none ↦ none
  | some n ↦ elim (drop_subscriber cs c.fd n.response) [
    | none ↦ none
    | some r ↦ some (put_response cache i r)
  ]
]

pub unsubscribe : Clients → ℕ → UrlCache → Option UrlCache
unfolding unsubscribe_from
unsubscribe cs p cache = elim (cs p) [
  | none ↦ none
  | some c ↦ elim c.response [ none ↦ some cache | some i ↦ unsubscribe_from cs c cache i ]
]

-- The response that a server is to fill.
pub make_publisher : UrlCache → ℕ → Option ℕ
make_publisher cache i = elim (get_elem? cache.nodes i) [ none ↦ none | some n ↦ some i ]
