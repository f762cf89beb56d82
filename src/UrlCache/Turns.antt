-- ===== src/UrlCache/Turns.antt =====
-- A full cache replaces its nodes in turn.
use posix_threads.Common.{
  ℕ, zero, suc, ◌+◌, ◌-◌, ◌%◌, ◌≤◌, ◌<◌, ◌≡◌, ◌≢◌, refl, sym, ap, ◌∙◌, inl, inr, Bool, false,
  Option, none, some, List, [], ◌∷◌, arith, ltb, ◌==◌, ==_iff, get_elem?, modify, length,
  get_elem?-modify, get_elem?-modify_self, find_below, find_below-none, Bool-cases, ◌>>=◌,
}
use native.Mathlib.Nat.{mod-lt, mod-eq_of_lt, mod-eq-sub-mod, mod-add-mod}
use posix_threads.UrlCache.{CacheNode, UrlCache, set_cache_node, clear_cache_node, set}
use posix_threads.UrlCache.Nodes.{IsSized, evictions, set-Placed}

-- Calls of `set` one after the other: the indices that they answer, and the cache afterwards.
unfoldable pub set_all : UrlCache → List (List ℕ) → Option (List ℕ × UrlCache)
set_all cache [] = some ([], cache)
set_all cache (url ∷ urls) =
    set cache url >>= λ (i, cache1). set_all cache1 urls >>= λ (is, cache2). some (i ∷ is, cache2)

abbrev pub free : CacheNode → Bool
free c = c.empty == 1

-- No node is free.
abbrev pub IsFull : UrlCache → Type 0
IsFull cache = find_below free cache.size cache.nodes ≡ none

full-modify :
    (n i : ℕ) (cs : List CacheNode) (url : List ℕ)
    → find_below free n cs ≡ none
    → find_below free n (modify cs i (set_cache_node url)) ≡ none
unfolding find_below set_cache_node clear_cache_node
full-modify zero i cs url h = refl
full-modify (suc n) i [] url h = refl
full-modify (suc n) zero (c ∷ cs) url h = rw (find_below-none free n c cs h).1 refl
full-modify (suc n) (suc i) (c ∷ cs) url h =
    let (used, rest) = find_below-none free n c cs h in
    rw used (rw (full-modify n i cs url rest) refl)

-- The node of the next turns is another one.
other_turn : (e d s : ℕ) → 0 < d → d < s → (e + d) % s ≢ e % s
other_turn e d s low high same =
    let r = e % s in
    let below : r < s = mod-lt e (omega arith) in
    let sum : (r + d) % s ≡ r = mod-add-mod e s d ∙ same in
    elim (Bool-cases (ltb (r + d) s)) [
      | inl f ↦ absurd (omega (arith, sum, mod-eq_of_lt {n = r + d} {m = s} (ground arith)))
      | inr f ↦
          let once : (r + d) % s ≡ (r + d - s) % s = mod-eq-sub-mod (ground arith) in
          let reach : s ≤ r + d = ground arith in
          let less : r + d - s < s = omega arith in
          absurd (omega (arith, sum, once, mod-eq_of_lt less))
    ]

-- What the cache is after `urls` were set in it.
pub record Turned (urls : List (List ℕ)) (cache cache' : UrlCache) : Type 0 where
  pub placed :
      (k : ℕ) (url : List ℕ)
      → get_elem? urls k ≡ some url
      → (n : CacheNode) × (get_elem? cache'.nodes ((evictions cache.last_node_set + k) % cache.size)
          ≡ some n)
        × (n.url ≡ some url)
        × (n.empty ≡ 0)
  pub kept :
      (j : ℕ)
      → ((k : ℕ) → k < length urls → (evictions cache.last_node_set + k) % cache.size ≢ j)
      → get_elem? cache'.nodes j ≡ get_elem? cache.nodes j
  pub sized : IsSized cache'
  pub same_size : cache'.size ≡ cache.size
  pub full : IsFull cache'
  pub counted : evictions cache'.last_node_set ≡ evictions cache.last_node_set + length urls

-- The first of the calls.
record Replaced (url : List ℕ) (cache cache1 : UrlCache) : Type 0 where
  index : ℕ
  run : set cache url ≡ some (index, cache1)
  old : CacheNode
  was : get_elem? cache.nodes index ≡ some old
  whole : cache1.nodes ≡ modify cache.nodes index (set_cache_node url)
  same_size : cache1.size ≡ cache.size
  sized : IsSized cache1
  turn : index ≡ evictions cache.last_node_set % cache.size
  more : evictions cache1.last_node_set ≡ suc (evictions cache.last_node_set)

set-Replaced :
    (cache : UrlCache) (url : List ℕ)
    → IsSized cache
    → IsFull cache
    → evictions cache.last_node_set < 2147483648
    → (cache1 : UrlCache) × Replaced url cache cache1
set-Replaced cache url v full bound =
    let (i, cache1, run, d) = set-Placed cache url v bound in
    elim d.chosen [
      | inl (found, same) ↦ absurd (ground (arith, full, found))
      | inr (none_free, turn, more) ↦ (
        cache1,
        record {
          index = i;
          run = run;
          old = d.old;
          was = d.was;
          whole = d.whole;
          same_size = d.same_size;
          sized = d.sized;
          turn = turn;
          more = more;
        },
      )
    ]

module _ (url : List ℕ) (urls : List (List ℕ)) (cache cache1 cache2 : UrlCache)
    (few : suc (length urls) ≤ cache.size) (d : Replaced url cache cache1)
    (t : Turned urls cache1 cache2) where
  index_lem :
      (k : ℕ)
      → (evictions cache1.last_node_set + k) % cache1.size
        ≡ (evictions cache.last_node_set + suc k) % cache.size
  index_lem k =
      let sum : evictions cache1.last_node_set + k ≡ evictions cache.last_node_set + suc k =
        omega (arith, d.more) in
      rw (sum, d.same_size) refl

  first_lem : (evictions cache.last_node_set + 0) % cache.size ≡ d.index
  first_lem =
      let sum : evictions cache.last_node_set + 0 ≡ evictions cache.last_node_set = omega arith in
      rw sum (sym d.turn)

  -- The node of the first call is kept by the others.
  first_kept : get_elem? cache2.nodes d.index ≡ some (set_cache_node url d.old)
  first_kept =
      t.kept d.index (λ k h same.
        other_turn (evictions cache.last_node_set) (suc k) cache.size (omega arith)
          (omega (arith, few, h)) (sym (index_lem k) ∙ same ∙ d.turn))
      ∙ ap (λ cs. get_elem? cs d.index) d.whole
      ∙ get_elem?-modify_self cache.nodes d.index (set_cache_node url) d.old d.was

  other_kept : (j : ℕ) → d.index ≢ j → get_elem? cache1.nodes j ≡ get_elem? cache.nodes j
  other_kept j apart =
      let test : (d.index == j) ≡ false = ground (arith, ==_iff d.index j, apart) in
      ap (λ cs. get_elem? cs j) d.whole
      ∙ get_elem?-modify cache.nodes d.index j (set_cache_node url) d.old d.was
      ∙ rw test refl

  turned_lem : Turned (url ∷ urls) cache cache2
  unfolding set_cache_node clear_cache_node
  turned_lem = record {
    placed = λ k u at. placed k u at;
    kept = λ j h.
        t.kept j (λ k lt same. h (suc k) (omega arith) (sym (index_lem k) ∙ same))
        ∙ other_kept j (λ same. h 0 (omega arith) (first_lem ∙ same));
    sized = t.sized;
    same_size = t.same_size ∙ d.same_size;
    full = t.full;
    counted = omega (arith, t.counted, d.more);
  }
    where
      placed :
          (k : ℕ) (u : List ℕ)
          → get_elem? (url ∷ urls) k ≡ some u
          → (n : CacheNode) × (get_elem? cache2.nodes
                ((evictions cache.last_node_set + k) % cache.size)
              ≡ some n)
            × (n.url ≡ some u)
            × (n.empty ≡ 0)
      placed zero u at =
          (set_cache_node url d.old, ap (get_elem? cache2.nodes) first_lem ∙ first_kept, at, refl)
      placed (suc k) u at =
          let (n, there, has, used) = t.placed k u at in
          (n, ap (get_elem? cache2.nodes) (sym (index_lem k)) ∙ there, has, used)

-- In a sized cache with no free node, urls that are no more than the nodes are set one after the other, with
-- fewer than 2 ^ 31 replacements in all: every call ends, and afterwards each of the urls stands at a node of
-- its own, that of its turn, so none has replaced another; all other nodes are as they were, no node is free,
-- and the next turn is that behind the last of the urls.
pub set_all-Turned :
    (urls : List (List ℕ)) (cache : UrlCache)
    → IsSized cache
    → IsFull cache
    → length urls ≤ cache.size
    → evictions cache.last_node_set + length urls ≤ 2147483648
    → (is : List ℕ) × (cache' : UrlCache) × (set_all cache urls ≡ some (is, cache'))
      × Turned urls cache cache'
unfolding set_all
set_all-Turned [] cache v full few bound = (
  [],
  cache,
  refl,
  record {
    placed = λ k url at. absurd (ground arith);
    kept = λ j h. refl;
    sized = v;
    same_size = refl;
    full = full;
    counted = omega arith;
  },
)
set_all-Turned (url ∷ urls) cache v full few bound =
    let (cache1, d) = set-Replaced cache url v full (omega (arith, bound)) in
    let still : IsFull cache1 =
      rw (d.whole, d.same_size) (full-modify cache.size d.index cache.nodes url full) in
    let (is, cache2, run, t) =
      set_all-Turned urls cache1 d.sized still (omega (arith, few, d.same_size))
        (omega (arith, bound, d.more)) in
    (
      d.index ∷ is,
      cache2,
      rw d.run (rw run refl),
      turned_lem url urls cache cache1 cache2 (omega (arith, few)) d t,
    )
