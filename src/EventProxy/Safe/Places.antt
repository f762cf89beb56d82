-- ===== src/EventProxy/Safe/Places.antt =====
-- Cells taken in a safe state of rybalko/31/server.c: an item for a request.
use posix_threads.Common.{
  ℕ, ◌+◌, ◌≡◌, ◌<◌, refl, ◌∙◌, inl, inr, Bool, true, false, Option, some, List, ◌++◌, arith,
  is_some, if◌then◌else◌, get_elem?-some, length, length-modify, modify, replicate, Bool-cases,
  Option-cases, ℤ, pos, minus_one, find_below, find_below-lt,
}
use posix_threads.EventProxy.{CacheItem, Server, within, empty_item}
use posix_threads.EventProxy.Tables.{
  hash, hash_from, has_hash, touch_item, not_valid, find_hashed, free_item, realloc_cache,
  fill_item, add_to_cache, try_to_find_at_cache,
}
use posix_threads.EventProxy.Safe.{Every-modify, IsSound, IsSafe, put_item-Safe}
use posix_threads.EventProxy.Safe.Grows.{cache-IsSafe}

-- A text that fits has a hash.
hash-returns : (str : List ℕ) → length str < 1024 → (h : ℕ) × (hash (some str) ≡ some h)
unfolding hash
hash-returns str short = (hash_from 5381 str, ground (arith, short))

module _ (nc nh nk : ℕ) where
  pub changed-IsSafe :
      (s : Server) (i : ℕ) (f : CacheItem → CacheItem)
      → IsSafe nc nh nk s
      → ((it : CacheItem) → IsSound nc nh it → IsSound nc nh (f it))
      → IsSafe nc nh nk (record s { cache = modify s.cache i f })
  changed-IsSafe s i f v keeps = record {
    clients_sized = v.clients_sized;
    hosts_sized = v.hosts_sized;
    cache_sized = length-modify s.cache i f ∙ v.cache_sized;
    clients = v.clients;
    hosts = v.hosts;
    items = Every-modify (IsSound nc nh) s.cache i f v.items (λ x e. keeps x (v.items i x e));
    polls = v.polls;
  }

  -- The hosts and the subscribers of an item do not hang on its request.
  relabelled-IsSound :
      (it : CacheItem) (h : ℕ) (request : Option (List ℕ)) (size : ℕ) (time : ℤ) (valid : Bool)
      → IsSound nc nh it
      → IsSound nc nh (record it {
        request_hash = h;
        request = request;
        request_size = size;
        full_time = time;
        valid = valid;
      })
  relabelled-IsSound it h request size time valid v = record {
    host = v.host;
    null = v.null;
    idle = v.idle;
    fits = v.fits;
    counted = v.counted;
    subs = v.subs;
  }

  pub filled-IsSound :
      (stored : Bool) (h : ℕ) (request : List ℕ) (it : CacheItem)
      → IsSound nc nh it
      → IsSound nc nh ((fill_item stored h request it).1)
  unfolding fill_item
  filled-IsSound stored h request it v = elim (Bool-cases (is_some it.request)) [
    | inl e ↦ rw e (relabelled-IsSound it h it.request it.request_size it.full_time true v)
    | inr e ↦ elim (Bool-cases stored) [
      | inl f ↦
          rw (e, f) (relabelled-IsSound it h (some request) (length request) it.full_time true v)
      | inr f ↦ rw (e, f) (relabelled-IsSound it h it.request (length request) it.full_time false v)
    ]
  ]

  -- The search of the cache finds an item of the array, or none.
  pub record Found (o : Option (ℤ × Server)) : Type 0 where
    pub answer : ℤ
    pub after : Server
    pub returns : o ≡ some (answer, after)
    pub inside : within nk answer ≡ true
    pub safe : IsSafe nc nh nk after

  find_hashed-Found :
      (now : ℤ) (h : ℕ) (s : Server) → IsSafe nc nh nk s → Found (find_hashed now h s)
  unfolding find_hashed
  find_hashed-Found now h s v =
      elim (Option-cases (find_below (has_hash h) (length s.cache) s.cache)) [
        | inl e ↦
            rw (e, find_hashed)
              (record { answer = minus_one; after = s; returns = refl; inside = refl; safe = v })
        | inr (i, e) ↦
            rw (e, find_hashed)
              (record {
                answer = pos i;
                after = record s { cache = modify s.cache i (touch_item now) };
                returns = refl;
                inside =
                    ground (
                      arith,
                      v.cache_sized,
                      find_below-lt (has_hash h) (length s.cache) s.cache i e,
                    );
                safe = changed-IsSafe s i (touch_item now) v (λ it w.
                    relabelled-IsSound it it.request_hash it.request it.request_size now it.valid
                      w);
              })
      ]

  pub try_to_find-Found :
      (now : ℤ) (request : List ℕ) (s : Server)
      → IsSafe nc nh nk s
      → length request < 1024
      → Found (try_to_find_at_cache now request s)
  unfolding try_to_find_at_cache
  try_to_find-Found now request s v short =
      let (h, e) = hash-returns request short in rw e (find_hashed-Found now h s v)

module _ (nc nh : ℕ) where
  -- An item for a new request is one of an array that may have grown.
  pub record Freed (o : Option (ℕ × Server)) : Type 0 where
    pub size : ℕ
    pub index : ℕ
    pub after : Server
    pub returns : o ≡ some (index, after)
    pub below : index < size
    pub safe : IsSafe nc nh size after

  pub free_item-Freed :
      (nk : ℕ) (s : Server) → IsSafe nc nh nk s → 0 < nk → Freed (free_item true s)
  unfolding free_item realloc_cache
  free_item-Freed nk s v some_items =
      elim (Option-cases (find_below not_valid (length s.cache) s.cache)) [
        | inl e ↦
            rw (e, free_item)
              (record {
                size = nk + length s.cache;
                index = length s.cache;
                after = record s { cache = s.cache ++ replicate (length s.cache) empty_item };
                returns = refl;
                below = omega (arith, v.cache_sized);
                safe = cache-IsSafe nc nh nk (length s.cache) s v;
              })
        | inr (i, e) ↦
            rw (e, free_item)
              (record {
                size = nk;
                index = i;
                after = s;
                returns = refl;
                below =
                    omega
                      (arith, v.cache_sized, find_below-lt not_valid (length s.cache) s.cache i e);
                safe = v;
              })
      ]

  pub record Stored (o : Option (ℤ × Server)) : Type 0 where
    pub size : ℕ
    pub answer : ℤ
    pub after : Server
    pub returns : o ≡ some (answer, after)
    pub inside : within size answer ≡ true
    pub safe : IsSafe nc nh size after

  pub add_to_cache-Stored :
      (nk : ℕ) (stored : Bool) (request : List ℕ) (s : Server)
      → IsSafe nc nh nk s
      → 0 < nk
      → length request < 1024
      → Stored (add_to_cache true stored request s)
  unfolding add_to_cache
  add_to_cache-Stored nk stored request s v some_items short =
      let (h, e) = hash-returns request short in
      let f = free_item-Freed nk s v some_items in
      let (it, at) =
        get_elem?-some f.after.cache f.index (omega (arith, f.safe.cache_sized, f.below)) in
      let filled = fill_item stored h request it in
      let answer = if filled.0 then pos f.index else minus_one in
      record {
        size = f.size;
        answer = answer;
        after = record f.after { cache = modify f.after.cache f.index (λ _. filled.1) };
        returns = rw (e, f.returns) (rw at refl);
        inside = elim (Bool-cases (filled.0)) [
          | inl g ↦ rw g (ground (arith, f.below))
          | inr g ↦ rw g refl
        ];
        safe =
            put_item-Safe nc nh f.size f.after f.index (filled.1) f.safe
              (filled-IsSound nc nh f.size stored h request it (f.safe.items f.index it at));
      }
