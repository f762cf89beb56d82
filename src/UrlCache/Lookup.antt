-- ===== src/UrlCache/Lookup.antt =====
-- A url that was set is found.
use posix_threads.Common.{
  ℕ, zero, suc, ◌<◌, ◌≡◌, ◌≢◌, refl, sym, ◌∙◌, inl, inr, Bool, true, false, Option, none, some,
  List, [], ◌∷◌, arith, ◌==◌, if◌then◌else◌, modify, length, Option-cases, Bool-cases, same_string,
  same_string_iff,
}
use posix_threads.UrlCache.{
  CacheNode, UrlCache, set_cache_node, clear_cache_node, next_index, get_from, get, set,
}
use posix_threads.UrlCache.Nodes.{IsSized, evictions, set-Placed}

same_self : (url : List ℕ) → same_string url url ≡ true
same_self url = (same_string_iff url url).1 refl

next_none : (o : Option (Option ℕ)) → next_index o ≡ some none → o ≡ some none
next_none none h = cc
next_none (some none) h = refl
next_none (some (some i)) h = absurd (ground arith)

next_some : (o : Option (Option ℕ)) (j : ℕ) → next_index o ≡ some (some (suc j)) → o ≡ some (some j)
next_some none j h = cc
next_some (some none) j h = absurd (ground arith)
next_some (some (some i)) j h = ground arith

-- The answer of the loop, from that of the node at the front and that for the others.
abbrev answer : Option Bool → Option (Option ℕ) → Option (Option ℕ)
answer none r = none
answer (some true) r = some (some 0)
answer (some false) r = next_index r

answer-none :
    (b : Option Bool) (r : Option (Option ℕ))
    → answer b r ≡ some none
    → (b ≡ some false) × (r ≡ some none)
answer-none none r h = absurd (ground arith)
answer-none (some true) r h = absurd (ground arith)
answer-none (some false) r h = (refl, next_none r h)

answer-suc :
    (b : Option Bool) (r : Option (Option ℕ)) (j : ℕ)
    → answer b r ≡ some (some (suc j))
    → (b ≡ some false) × (r ≡ some (some j))
answer-suc none r j h = absurd (ground arith)
answer-suc (some true) r j h = absurd (ground arith)
answer-suc (some false) r j h = (refl, next_some r j h)

next_zero : (r : Option (Option ℕ)) → next_index r ≡ some (some 0) → ⊥
next_zero none h = cc
next_zero (some none) h = absurd (ground arith)
next_zero (some (some i)) h = absurd (ground arith)

answer-zero : (b : Option Bool) (r : Option (Option ℕ)) → answer b r ≡ some (some 0) → b ≡ some true
answer-zero none r h = absurd (ground arith)
answer-zero (some true) r h = refl
answer-zero (some false) r h = absurd (next_zero r h)

-- Whether the node at the front is the answer.
front : List ℕ → CacheNode → Option Bool
front url c =
    if c.empty == 0
    then elim c.url [ none ↦ none | some u ↦ some (same_string u url) ]
    else some false

-- One step of the loop, by that test.
one_step :
    (url : List ℕ) (n : ℕ) (c : CacheNode) (cs : List CacheNode)
    → get_from url (suc n) (c ∷ cs) ≡ answer (front url c) (get_from url n cs)
unfolding get_from front
one_step url n c cs = elim (Bool-cases (c.empty == 0)) [
  | inr e ↦ simp e
  | inl e ↦ elim (Option-cases c.url) [
    | inl f ↦ simp (e, f)
    | inr (u, f) ↦ elim (Bool-cases (same_string u url)) [
      | inl g ↦ simp (e, f, g)
      | inr g ↦ simp (e, f, g)
    ]
  ]
]

front_set :
    (url u : List ℕ) (c : CacheNode) → front url (set_cache_node u c) ≡ some (same_string u url)
unfolding front set_cache_node clear_cache_node
front_set url u c = refl

module _ (url : List ℕ) where
  -- A url that was not found is found where it was set.
  get_from-modify :
      (n i : ℕ) (cs : List CacheNode)
      → i < n
      → n ≡ length cs
      → get_from url n cs ≡ some none
      → get_from url n (modify cs i (set_cache_node url)) ≡ some (some i)
  get_from-modify zero i cs h l absent = absurd (omega arith)
  get_from-modify (suc n) i [] h l absent = absurd (omega arith)
  get_from-modify (suc n) zero (c ∷ cs) h l absent =
      one_step url n (set_cache_node url c) cs ∙ rw (front_set url url c, same_self url) refl
  get_from-modify (suc n) (suc i) (c ∷ cs) h l absent =
      let (before, rest) =
        answer-none (front url c) (get_from url n cs) (sym (one_step url n c cs) ∙ absent) in
      one_step url n c (modify cs i (set_cache_node url))
      ∙ rw (before, get_from-modify n i cs (omega arith) (omega arith) rest) refl

  -- What was found elsewhere still is, if its url is another.
  get_from-other :
      (u : List ℕ) (n i j : ℕ) (cs : List CacheNode)
      → same_string u url ≡ false
      → (i == j) ≡ false
      → get_from url n cs ≡ some (some j)
      → get_from url n (modify cs i (set_cache_node u)) ≡ some (some j)
  unfolding get_from
  get_from-other u zero i j cs other apart found = found
  get_from-other u (suc n) i j [] other apart found = found
  get_from-other u (suc n) zero zero (c ∷ cs) other apart found = absurd (ground arith)
  get_from-other u (suc n) zero (suc j) (c ∷ cs) other apart found =
      let (before, rest) =
        answer-suc (front url c) (get_from url n cs) j (sym (one_step url n c cs) ∙ found) in
      one_step url n (set_cache_node u c) cs ∙ rw (front_set url u c, other, rest) refl
  get_from-other u (suc n) (suc i) zero (c ∷ cs) other apart found =
      let here =
        answer-zero (front url c) (get_from url n cs) (sym (one_step url n c cs) ∙ found) in
      one_step url n c (modify cs i (set_cache_node u)) ∙ rw here refl
  get_from-other u (suc n) (suc i) (suc j) (c ∷ cs) other apart found =
      let (before, rest) =
        answer-suc (front url c) (get_from url n cs) j (sym (one_step url n c cs) ∙ found) in
      one_step url n c (modify cs i (set_cache_node u))
      ∙ rw (before, get_from-other u n i j cs other (ground arith) rest) refl

different : (url other : List ℕ) → url ≢ other → same_string url other ≡ false
different url other ne = elim (Bool-cases (same_string url other)) [
  | inl e ↦ absurd (ne ((same_string_iff url other).0 e))
  | inr e ↦ e
]

-- In a sized cache with fewer than 2 ^ 31 replacements so far, `set` of a url that was not there answers an
-- index: the url is found there, and every other url that was found at another index still is.
pub set-get :
    (cache : UrlCache) (url : List ℕ)
    → IsSized cache
    → evictions cache.last_node_set < 2147483648
    → get cache url ≡ some none
    → (i : ℕ) × (cache' : UrlCache) × (set cache url ≡ some (i, cache'))
      × (get cache' url ≡ some (some i))
      × ((other : List ℕ) (j : ℕ)
          → url ≢ other
          → (i == j) ≡ false
          → get cache other ≡ some (some j)
          → get cache' other ≡ some (some j))
unfolding get
set-get cache url v bound absent =
    let (i, cache', run, d) = set-Placed cache url v bound in
    let after : (u : List ℕ)
        → get cache' u ≡ get_from u cache.size (modify cache.nodes i (set_cache_node url)) =
      λ u. rw (d.whole, d.same_size) refl in
    (
      i,
      cache',
      run,
      after url ∙ get_from-modify url cache.size i cache.nodes d.inside v.sized absent,
      λ other j ne apart found.
          after other
          ∙ get_from-other other url cache.size i j cache.nodes (different url other ne) apart
              found,
    )
