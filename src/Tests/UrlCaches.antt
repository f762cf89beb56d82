-- ===== src/Tests/UrlCaches.antt =====
-- The cache of shuvalov/31/http_socket/cache.c at small inputs.
use posix_threads.Common.{
  ℕ, ◌≡◌, ◌≢◌, refl, inl, false, some, none, List, [], ◌∷◌, arith, ◌==◌, if◌then◌else◌, pos,
  minus_one, find_below, same_string,
}
use posix_threads.UrlCache.{
  CacheNode, UrlCache, SocketClient, Clients, new_node, get_from, get, set, set_cache_node,
  clear_cache_node,
}
use mathlib.Core.Option
use posix_threads.UrlCache.Nodes.{IsSized}
use posix_threads.UrlCache.Turns.{IsFull, Turned, set_all, set_all-Turned}
use posix_threads.UrlCache.Lookup.{set-get}

abbrev filled : List ℕ → CacheNode
filled url = record new_node { url = some url; empty = 0 }

-- Two nodes, both in use, for "a" and "b".
abbrev full_cache : UrlCache
full_cache = record {
  nodes = filled (97 ∷ []) ∷ filled (98 ∷ []) ∷ [];
  last_node_set = minus_one;
  size = 2;
}

full_cache-IsSized : IsSized full_cache
full_cache-IsSized = record { sized = refl; room = omega arith; counter = inl refl }

full_cache-IsFull : IsFull full_cache
unfolding find_below
full_cache-IsFull = refl

-- With no free node the nodes are replaced from the first on.
set_replaces :
    Option.map (λ r. r.0) (set_all full_cache ((99 ∷ []) ∷ (100 ∷ []) ∷ [])) ≡ some (0 ∷ 1 ∷ [])
unfolding set_all set find_below set_cache_node clear_cache_node
set_replaces = refl

set_all-Turned_example :
    (is : List ℕ) × (cache : UrlCache) × (set_all full_cache ((99 ∷ []) ∷ (100 ∷ []) ∷ [])
      ≡ some (is, cache))
    × Turned ((99 ∷ []) ∷ (100 ∷ []) ∷ []) full_cache cache
set_all-Turned_example =
    set_all-Turned ((99 ∷ []) ∷ (100 ∷ []) ∷ []) full_cache full_cache-IsSized full_cache-IsFull
      (omega arith) (omega arith)

c_absent : get full_cache (99 ∷ []) ≡ some none
unfolding get get_from same_string
c_absent = refl

set-get_example :
    (i : ℕ) × (cache : UrlCache) × (set full_cache (99 ∷ []) ≡ some (i, cache))
    × (get cache (99 ∷ []) ≡ some (some i))
    × ((other : List ℕ) (j : ℕ)
        → (99 ∷ []) ≢ other
        → (i == j) ≡ false
        → get full_cache other ≡ some (some j)
        → get cache other ≡ some (some j))
set-get_example = set-get full_cache (99 ∷ []) full_cache-IsSized (omega arith) c_absent

abbrev socket : ℕ → SocketClient
socket fd = record { fd = pos fd; cache_node = minus_one; response = none }

abbrev two_clients : Clients
two_clients = λ p. if p == 1 then some (socket 5) else if p == 2 then some (socket 6) else none
