-- ===== src/UrlCache/Nodes.antt =====
-- What `set` does to the nodes of the cache.
use posix_threads.Common.{
  ℕ, suc, ◌%◌, ◌<◌, ◌≡◌, ◌⊎◌, refl, inl, inr, none, some, List, arith, ◌==◌, get_elem?, length,
  length-modify, get_elem?-some, modify, subst, ltb, lt→ltb, true, ℤ, pos, negsuc, minus_one,
  find_below, find_below-passes, find_below-lt, Option-cases,
}
use native.Mathlib.Nat.{mod-lt}
use posix_threads.UrlCache.{CacheNode, UrlCache, set_cache_node, next_set, victim, set}

-- An array of the kept size, and a counter of evictions that is not below -1.
pub record IsSized (cache : UrlCache) : Type 0 where
  pub sized : cache.size ≡ length cache.nodes
  pub room : 0 < cache.size
  pub counter : (cache.last_node_set ≡ minus_one) ⊎ ((k : ℕ) × (cache.last_node_set ≡ pos k))

-- How often a node has been replaced.
abbrev pub evictions : ℤ → ℕ
evictions (pos n) = suc n
evictions (negsuc n) = 0

-- What `set` of a url answers, and what the cache is afterwards.
pub record Placed (url : List ℕ) (cache : UrlCache) (i : ℕ) (cache' : UrlCache) : Type 0 where
  pub inside : i < cache.size
  pub sized : IsSized cache'
  pub old : CacheNode
  pub was : get_elem? cache.nodes i ≡ some old
  pub same_size : cache'.size ≡ cache.size
  pub whole : cache'.nodes ≡ modify cache.nodes i (set_cache_node url)
  -- A free node if there is one, else the next in turn.
  pub chosen :
      ((find_below (λ c. c.empty == 1) cache.size cache.nodes ≡ some i)
        × (cache'.last_node_set ≡ cache.last_node_set))
      ⊎ ((find_below (λ c. c.empty == 1) cache.size cache.nodes ≡ none)
          × (i ≡ evictions cache.last_node_set % cache.size)
          × (evictions cache'.last_node_set ≡ suc (evictions cache.last_node_set)))

next_counter :
    (k : ℤ) (size : ℕ)
    → (k ≡ minus_one) ⊎ ((n : ℕ) × (k ≡ pos n))
    → evictions k < 2147483648
    → (n : ℕ) × (next_set k ≡ some (pos n))
      × (evictions (pos n) ≡ suc (evictions k))
      × (victim (pos n) size ≡ evictions k % size)
next_counter k size (inl e) h = (0, rw e refl, rw e refl, rw e refl)
next_counter k size (inr (n, e)) h =
    let bound : suc n < 2147483648 = subst (λ j. evictions j < 2147483648) e h in
    let room : ltb n 2147483647 ≡ true = lt→ltb n 2147483647 (omega arith) in
    (suc n, rw e (rw room refl), rw e refl, rw e refl)

-- `set` in a sized cache, with fewer than 2 ^ 31 replacements so far, answers an index inside it, at which
-- the node now stands for the url; every other node is as it was. The node is the first free one, and with
-- none free the next in turn.
pub set-Placed :
    (cache : UrlCache) (url : List ℕ)
    → IsSized cache
    → evictions cache.last_node_set < 2147483648
    → (i : ℕ) × (cache' : UrlCache) × (set cache url ≡ some (i, cache')) × Placed url cache i cache'
unfolding set
set-Placed cache url v bound =
    elim (Option-cases (find_below (λ c. c.empty == 1) cache.size cache.nodes)) [
      | inr (i, e) ↦
          let (old, at, free) = find_below-passes (λ c. c.empty == 1) cache.size cache.nodes i e in
          (
            i,
            record cache { nodes = modify cache.nodes i (set_cache_node url) },
            rw (e, set) refl,
            record {
              inside = find_below-lt (λ c. c.empty == 1) cache.size cache.nodes i e;
              sized = record {
                sized = omega (arith, v.sized, length-modify cache.nodes i (set_cache_node url));
                room = v.room;
                counter = v.counter;
              };
              same_size = refl;
              whole = refl;
              old = old;
              was = at;
              chosen = inl (e, refl);
            },
          )
      | inl e ↦
          let (n, next, more, turn) = next_counter cache.last_node_set cache.size v.counter bound in
          let i = victim (pos n) cache.size in
          let inside : i < cache.size =
            omega (arith, turn, mod-lt (evictions cache.last_node_set) v.room) in
          let (old, at) = get_elem?-some cache.nodes i (omega (arith, inside, v.sized)) in
          (
            i,
            record cache {
              nodes = modify cache.nodes i (set_cache_node url);
              last_node_set = pos n;
            },
            rw (e, set) (rw next refl),
            record {
              inside = inside;
              sized = record {
                sized = omega (arith, v.sized, length-modify cache.nodes i (set_cache_node url));
                room = v.room;
                counter = inr (n, refl);
              };
              same_size = refl;
              whole = refl;
              old = old;
              was = at;
              chosen = inr (e, turn, more);
            },
          )
    ]
