-- ===== src/HashCache/Create.antt =====
-- `GetOrCreateCacheItem` of arkhipov/32/cache.c on the map.
use posix_threads.Common.{
  ℕ, zero, suc, ◌%◌, ◌≤◌, ◌<◌, ◌≡◌, refl, sym, ap, ◌∙◌, Bool, true, false, none, some, List, [],
  ◌∷◌, ◌++◌, arith, if◌then◌else◌, ◌==◌, leb, length, get_elem?, modify, replicate,
  length-replicate, length-modify, length-append, ℤ,
}
use posix_threads.HashCache.{
  Item, Cache, Memory, get_hash, index_of, str_equals, find_item, touch, set_bucket, insert_at,
  insert_cache_item, create_item, get_or_create, init_cache,
}
use posix_threads.HashCache.Hash.{text, total, get_hash-text, str_equals_iff}
use posix_threads.HashCache.Bucket.{
  Distinct, touched, find_item-append, find_item-touch, touch-Distinct, length-touch,
  append-Distinct,
}
use posix_threads.HashCache.Map.{
  Counts, AllDistinct, IsValid, find_at, find, Counts-at, Counts-same, Counts-more, AllDistinct-at,
  AllDistinct-modify, find_at-set, home_of, same_home,
}

-- What a call for `key` makes of the map: `item` stands for the key, and all else stays.
pub record Answered (key : List ℤ) (item : Item) (c c' : Cache) : Type 0 where
  pub valid : IsValid c'
  pub finds : (k : List ℤ) → find c' k ≡ (if str_equals key k then some item else find c k)

find-home :
    (c : Cache) (key : List ℤ) (i : ℕ) (chain : List Item)
    → index_of (get_hash key c.size) ≡ some i
    → get_elem? c.buckets i ≡ some chain
    → find c key ≡ find_item key chain
unfolding find find_at
find-home c key i chain home here = rw (home, find_at) (rw here refl)

touch-Answered :
    (c : Cache) (now : ℕ) (key : List ℤ) (i : ℕ) (chain : List Item) (item : Item)
    → IsValid c
    → index_of (get_hash key c.size) ≡ some i
    → get_elem? c.buckets i ≡ some chain
    → find_item key chain ≡ some item
    → Answered key (touched now item) c (set_bucket c i (touch now key chain))
unfolding find
touch-Answered c now key i chain item v home here found = record {
  valid = record {
    sized = v.sized ∙ sym (length-modify c.buckets i _);
    room = v.room;
    counted = v.counted;
    counts =
        Counts-same c.buckets c.buckets_size i chain (touch now key chain) v.counts here
          (length-touch now key chain);
    distinct =
        AllDistinct-modify c.buckets i (touch now key chain) v.distinct
          (touch-Distinct now key chain (AllDistinct-at c.buckets i chain v.distinct here));
  };
  finds = λ k.
      find_at-set c.buckets i key k chain (touch now key chain) (some (touched now item))
        (index_of (get_hash k c.size)) (same_home c.size i key k home) here
        (find_item-touch key k now item chain found);
}

-- The new item of a call.
abbrev pub fresh_item : ℕ → ℕ → ℕ → List ℤ → Item
fresh_item status_initial now a key = record {
  address = a;
  key = key;
  last_visited = now;
  content_size = 0;
  status = status_initial;
}

append-Answered :
    (c : Cache) (key : List ℤ) (i : ℕ) (chain : List Item) (item : Item)
    → IsValid c
    → item.key ≡ key
    → index_of (get_hash key c.size) ≡ some i
    → get_elem? c.buckets i ≡ some chain
    → find_item key chain ≡ none
    → Answered key item c (record (set_bucket c i (chain ++ item ∷ [])) {
      buckets_size = modify c.buckets_size i suc;
    })
unfolding find
append-Answered c key i chain item v e home here absent = record {
  valid = record {
    sized = v.sized ∙ sym (length-modify c.buckets i _);
    room = v.room;
    counted = length-modify c.buckets_size i suc ∙ v.counted;
    counts =
        Counts-more c.buckets c.buckets_size i chain (chain ++ item ∷ []) v.counts here
          (omega (arith, length-append chain (item ∷ [])));
    distinct = AllDistinct-modify c.buckets i (chain ++ item ∷ []) v.distinct (
        append-Distinct item chain (rw e absent)
          (AllDistinct-at c.buckets i chain v.distinct here));
  };
  finds = λ k.
      find_at-set c.buckets i key k chain (chain ++ item ∷ []) (some item)
        (index_of (get_hash k c.size)) (same_home c.size i key k home) here
        (find_item-append key k item chain e absent);
}

-- `GetOrCreateCacheItem` of a key of characters from 0 on that is in a valid cache answers its item, now
-- visited, and leaves all other keys as they were and the cache valid.
pub get_or_create-hit :
    (status_initial now : ℕ) (memory : Memory) (c : Cache) (cs : List ℕ) (item : Item)
    → IsValid c
    → find c (text cs) ≡ some item
    → (c' : Cache) × (get_or_create status_initial now memory c (text cs)
        ≡ some (some item.address, c'))
      × Answered (text cs) (touched now item) c c'
unfolding get_or_create
get_or_create-hit status_initial now memory c cs item v found =
    let (i, chain, home, here) = home_of c cs v in
    let there : find_item (text cs) chain ≡ some item =
      sym (find-home c (text cs) i chain home here) ∙ found in
    (
      set_bucket c i (touch now (text cs) chain),
      rw (home, here, there, get_or_create) refl,
      touch-Answered c now (text cs) i chain item v home here there,
    )

-- The bucket of a key has a place left.
pub record HasRoom (c : Cache) (cs : List ℕ) : Type 0 where
  pub chain : List Item
  pub here : get_elem? c.buckets (total cs % c.size) ≡ some chain
  pub room : length chain < c.bucket_capacity

unfoldable pub all_memory : ℕ → Memory
all_memory a = record { item = some a; key = true; node = true }

insert_room :
    (c : Cache) (i : ℕ) (chain : List Item) (item : Item)
    → IsValid c
    → get_elem? c.buckets i ≡ some chain
    → length chain < c.bucket_capacity
    → insert_at true c i item
      ≡ some (
        0,
        record (set_bucket c i (chain ++ item ∷ [])) { buckets_size = modify c.buckets_size i suc },
      )
unfolding insert_at
insert_room c i chain item v here room =
    let count = Counts-at c.buckets c.buckets_size i chain v.counts here in
    let free : leb c.bucket_capacity (length chain) ≡ false = ground arith in
    rw (count, free, here, insert_at) refl

insert_full :
    (c : Cache) (i : ℕ) (chain : List Item) (item : Item)
    → IsValid c
    → get_elem? c.buckets i ≡ some chain
    → c.bucket_capacity ≤ length chain
    → insert_at true c i item ≡ some (1, c)
unfolding insert_at
insert_full c i chain item v here full =
    let count = Counts-at c.buckets c.buckets_size i chain v.counts here in
    let no_room : leb c.bucket_capacity (length chain) ≡ true = ground arith in
    rw (count, no_room, insert_at) refl

insert_key :
    (allocated : Bool) (c : Cache) (item : Item) (i : ℕ)
    → index_of (get_hash item.key c.size) ≡ some i
    → insert_cache_item allocated c item ≡ insert_at allocated c i item
unfolding insert_cache_item
insert_key allocated c item i home = rw (home, insert_cache_item) refl

create_lem :
    (status_initial now a : ℕ) (c : Cache) (key : List ℤ) (i : ℕ) (chain : List Item) (err : ℕ)
    (c' : Cache)
    → index_of (get_hash key c.size) ≡ some i
    → get_elem? c.buckets i ≡ some chain
    → find_item key chain ≡ none
    → insert_at true c i (fresh_item status_initial now a key) ≡ some (err, c')
    → get_or_create status_initial now (all_memory a) c key
      ≡ (if err == 0 then some (some a, c') else none)
unfolding get_or_create create_item all_memory
create_lem status_initial now a c key i chain err c' home here absent inserted =
    let done = insert_key true c (fresh_item status_initial now a key) i home ∙ inserted in
    rw (home, here, absent, get_or_create) (rw (done, create_item) refl)

-- Of a key of characters from 0 on that is not in a valid cache, with memory at hand and a place in its
-- bucket: it answers the new item, which then stands for the key, and leaves all other keys as they were and
-- the cache valid.
pub get_or_create-miss :
    (status_initial now a : ℕ) (c : Cache) (cs : List ℕ)
    → IsValid c
    → find c (text cs) ≡ none
    → HasRoom c cs
    → (c' : Cache) × (get_or_create status_initial now (all_memory a) c (text cs)
        ≡ some (some a, c'))
      × Answered (text cs) (fresh_item status_initial now a (text cs)) c c'
get_or_create-miss status_initial now a c cs v absent free =
    let i = total cs % c.size in
    let home = ap index_of (get_hash-text cs c.size v.room) in
    let not_there = sym (find-home c (text cs) i free.chain home free.here) ∙ absent in
    let item = fresh_item status_initial now a (text cs) in
    (
      record (set_bucket c i (free.chain ++ item ∷ [])) {
        buckets_size = modify c.buckets_size i suc;
      },
      create_lem status_initial now a c (text cs) i free.chain 0 _ home free.here not_there
          (insert_room c i free.chain item v free.here free.room),
      append-Answered c (text cs) i free.chain item v refl home free.here not_there,
    )

-- Of a key that is not in the cache, whose bucket is full, with memory at hand: the pointer `content` of
-- the new item, which was not set, is freed.
pub get_or_create-faults :
    (status_initial now a : ℕ) (c : Cache) (cs : List ℕ) (chain : List Item)
    → IsValid c
    → find c (text cs) ≡ none
    → get_elem? c.buckets (total cs % c.size) ≡ some chain
    → c.bucket_capacity ≤ length chain
    → get_or_create status_initial now (all_memory a) c (text cs) ≡ none
get_or_create-faults status_initial now a c cs chain v absent here full =
    let i = total cs % c.size in
    let home = ap index_of (get_hash-text cs c.size v.room) in
    let not_there = sym (find-home c (text cs) i chain home here) ∙ absent in
    create_lem status_initial now a c (text cs) i chain 1 c home here not_there
      (insert_full c i chain (fresh_item status_initial now a (text cs)) v here full)

-- A key that was just created is found again: a second call, at any time, answers the same item.
pub get_or_create-again :
    (status_initial now later a : ℕ) (memory : Memory) (c : Cache) (cs : List ℕ)
    → IsValid c
    → find c (text cs) ≡ none
    → HasRoom c cs
    → (c' c'' : Cache) × (get_or_create status_initial now (all_memory a) c (text cs)
        ≡ some (some a, c'))
      × (get_or_create status_initial later memory c' (text cs) ≡ some (some a, c''))
get_or_create-again status_initial now later a memory c cs v absent free =
    let (c', made, answered) = get_or_create-miss status_initial now a c cs v absent free in
    let itself = (str_equals_iff (text cs) (text cs)).1 refl in
    let (c'', got, _) =
      get_or_create-hit status_initial later memory c' cs
        (fresh_item status_initial now a (text cs)) answered.valid
        (answered.finds (text cs) ∙ rw itself refl) in
    (c', c'', made, got)

Counts-init : (n m : ℕ) → n ≤ m → Counts (replicate n []) (replicate m 0)
unfolding Counts
Counts-init zero m h = tt
Counts-init (suc n) zero h = absurd (omega arith)
Counts-init (suc n) (suc m) h = (refl, Counts-init n m (omega arith))

AllDistinct-init : (n : ℕ) → AllDistinct (replicate n [])
unfolding AllDistinct Distinct
AllDistinct-init zero = tt
AllDistinct-init (suc n) = (tt, AllDistinct-init n)

-- A cache from `InitCache` with a bucket at least and no more buckets than a bucket has places is valid.
pub init_cache-IsValid :
    (size bucket_capacity : ℕ)
    → 0 < size
    → size ≤ bucket_capacity
    → (c : Cache) × (init_cache true size bucket_capacity ≡ some c) × IsValid c
unfolding init_cache
init_cache-IsValid size bucket_capacity room fits = (
  _,
  refl,
  record {
    sized = sym (length-replicate size []);
    room = room;
    counted = length-replicate bucket_capacity 0;
    counts = Counts-init size bucket_capacity fits;
    distinct = AllDistinct-init size;
  },
)
