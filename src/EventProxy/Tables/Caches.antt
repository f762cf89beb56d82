-- ===== src/EventProxy/Tables/Caches.antt =====
-- A request that `AddToCache` of rybalko/31/server.c has put into the cache is found by
-- `TryToFindAtCache`.
use posix_threads.Common.{
  ℕ, zero, suc, ◌≡◌, ◌<◌, refl, inl, inr, true, none, some, List, [], ◌∷◌, ◌++◌, arith, ==_iff,
  is_some, get_elem?-some, length, length-modify, length-append, length-replicate, modify,
  replicate, Bool-cases, Option-cases, ℤ, pos, find_below, find_below-lt, find_below-none,
}
use posix_threads.EventProxy.{CacheItem, Server, empty_item}
use posix_threads.EventProxy.Tables.{
  hash, has_hash, not_valid, touch_item, find_hashed, try_to_find_at_cache, realloc_cache,
  free_item, fill_item, add_to_cache,
}

-- No item that is valid has the hash.
abbrev pub Unknown : ℕ → Server → Type 0
Unknown h s = find_below (has_hash h) (length s.cache) s.cache ≡ none

find_below-modify :
    (h n i : ℕ) (cs : List CacheItem) (it : CacheItem)
    → find_below (has_hash h) n cs ≡ none
    → i < n
    → i < length cs
    → has_hash h it ≡ true
    → find_below (has_hash h) n (modify cs i (λ _. it)) ≡ some i
unfolding find_below
find_below-modify h zero i cs it e lt inside good = absurd (omega arith)
find_below-modify h (suc n) i [] it e lt inside good = absurd (omega arith)
find_below-modify h (suc n) zero (c ∷ cs) it e lt inside good = rw good refl
find_below-modify h (suc n) (suc i) (c ∷ cs) it e lt inside good =
    let (other, rest) = find_below-none (has_hash h) n c cs e in
    rw (other, find_below-modify h n i cs it rest (omega arith) (omega arith) good) refl

find_below-fresh :
    (h n k : ℕ) (cs : List CacheItem)
    → find_below (has_hash h) (length cs) cs ≡ none
    → find_below (has_hash h) n (cs ++ replicate k empty_item) ≡ none
unfolding find_below
find_below-fresh h zero k cs e = refl
find_below-fresh h (suc n) zero [] e = refl
find_below-fresh h (suc n) (suc k) [] e = rw (find_below-fresh h n k [] refl) refl
find_below-fresh h (suc n) k (c ∷ cs) e =
    let (other, rest) = find_below-none (has_hash h) (length cs) c cs e in
    rw (other, find_below-fresh h n k cs rest) refl

-- An index of the array, in a state in which the hash is still unknown.
record Place (h : ℕ) (r : ℕ × Server) : Type 0 where
  unknown : Unknown h r.1
  inside : r.0 < length r.1.cache

free_item-Place :
    (h : ℕ) (s : Server)
    → 0 < length s.cache
    → Unknown h s
    → (i : ℕ) × (s' : Server) × (free_item true s ≡ some (i, s')) × Place h (i, s')
unfolding free_item realloc_cache
free_item-Place h s room e = elim (Option-cases (find_below not_valid (length s.cache) s.cache)) [
  | inr (i, f) ↦ (
    i,
    s,
    rw (f, free_item) refl,
    record { unknown = e; inside = find_below-lt not_valid (length s.cache) s.cache i f },
  )
  | inl f ↦
      let s' = record s { cache = s.cache ++ replicate (length s.cache) empty_item } in
      (
        length s.cache,
        s',
        rw (f, free_item) refl,
        record {
          unknown = find_below-fresh h (length s'.cache) (length s.cache) s.cache e;
          inside = omega (
            arith,
            length-append s.cache (replicate (length s.cache) empty_item),
            length-replicate (length s.cache) empty_item,
          );
        },
      )
]

pub fill_item-has_hash :
    (h : ℕ) (request : List ℕ) (it : CacheItem)
    → (jt : CacheItem) × (fill_item true h request it ≡ (true, jt)) × (has_hash h jt ≡ true)
unfolding fill_item
fill_item-has_hash h request it = elim (Bool-cases (is_some it.request)) [
  | inl e ↦ (record it { request_hash = h; valid = true }, rw e refl, (==_iff h h).1 refl)
  | inr e ↦ (
    record it {
      request_hash = h;
      valid = true;
      request_size = length request;
      request = some request;
    },
    rw e refl,
    (==_iff h h).1 refl,
  )
]

find_hashed_lem :
    (now : ℤ) (h i : ℕ) (s : Server)
    → find_below (has_hash h) (length s.cache) s.cache ≡ some i
    → find_hashed now h s ≡ some (pos i, record s { cache = modify s.cache i (touch_item now) })
unfolding find_hashed
find_hashed_lem now h i s e = rw (e, find_hashed) refl

-- A request with a hash that no valid item has, with a cache array that is not empty and memory at hand: it
-- is put into some item, and there it is found afterwards, at any time.
pub add_to_cache-try_to_find :
    (request : List ℕ) (h : ℕ) (now : ℤ) (s : Server)
    → hash (some request) ≡ some h
    → 0 < length s.cache
    → Unknown h s
    → (i : ℕ) × (after : Server) × (add_to_cache true true request s ≡ some (pos i, after))
      × (found : Server) × (try_to_find_at_cache now request after ≡ some (pos i, found))
unfolding add_to_cache try_to_find_at_cache
add_to_cache-try_to_find request h now s e room unknown =
    let (i, s', got, place) = free_item-Place h s room unknown in
    let (it, at) = get_elem?-some s'.cache i place.inside in
    let (jt, filled, good) = fill_item-has_hash h request it in
    let after = record s' { cache = modify s'.cache i (λ _. jt) } in
    let size : length after.cache ≡ length s'.cache = length-modify s'.cache i (λ _. jt) in
    let finds : find_below (has_hash h) (length after.cache) after.cache ≡ some i = rw size (
      find_below-modify h (length s'.cache) i s'.cache jt place.unknown place.inside place.inside
        good) in
    (
      i,
      after,
      rw e (rw got (rw at (rw filled refl))),
      record after { cache = modify after.cache i (touch_item now) },
      rw e (find_hashed_lem now h i after finds),
    )
