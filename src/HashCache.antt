-- ===== src/HashCache.antt =====
-- The cache of responses of arkhipov/32/cache.c: a fixed array of buckets, each a chain of items, and
-- an array that counts them. The functions on the whole cache hold the lock of the bucket that they
-- work on.
pub mod Hash
pub mod Bucket
pub mod Map
pub mod Create
pub mod Clean
use posix_threads.Common.{
  ℕ, zero, suc, ◌+◌, ◌-◌, Bool, true, false, not, ◌&&◌, Option, none, some, List, [], ◌∷◌, ◌++◌,
  ltb, leb, ◌==◌, if◌then◌else◌, get_elem?, length, modify, replicate, ℤ, pos, negsuc, ◌==ℤ◌, ◌+ℤ◌,
  rem,
}

-- `CacheItem`, with the address that `malloc` gave it; a key is the list of its `key_size` signed
-- characters, none of which is 0.
pub record Item : Type 0 where
  pub address : ℕ
  pub key : List ℤ
  pub last_visited : ℕ
  pub content_size : ℕ
  pub status : ℕ

-- `buckets` are the chains behind the heads; `buckets_size` are their lengths.
pub record Cache : Type 0 where
  pub size : ℕ
  pub bucket_capacity : ℕ
  pub buckets : List (List Item)
  pub buckets_size : List ℕ

-- The array of counts has `bucket_capacity` cells, not `size`. `none` is the result 1.
unfoldable pub init_cache : (allocated : Bool) → ℕ → ℕ → Option Cache
init_cache allocated size bucket_capacity =
    if allocated
    then some (record {
      size = size;
      bucket_capacity = bucket_capacity;
      buckets = replicate size [];
      buckets_size = replicate bucket_capacity 0;
    })
    else none

-- The loop of `GetHash`, from the characters that are left.
unfoldable pub hash_from : ℤ → List ℤ → ℕ → ℤ
hash_from hash [] p = hash
hash_from hash (c ∷ str) p = hash_from (rem (hash +ℤ c) p) str p

unfoldable pub get_hash : List ℤ → ℕ → ℤ
unfolding hash_from
get_hash str p = hash_from (pos 0) str p

unfoldable pub str_equals : List ℤ → List ℤ → Bool
str_equals [] [] = true
str_equals [] (b ∷ bs) = false
str_equals (a ∷ k) [] = false
str_equals (a ∷ k) (b ∷ l) = a ==ℤ b && str_equals k l

-- `buckets[hash]`: a negative index is outside the array.
abbrev pub index_of : ℤ → Option ℕ
index_of (pos i) = some i
index_of (negsuc i) = none

-- The scan of a chain: the first item with the key.
unfoldable pub find_item : List ℤ → List Item → Option Item
find_item key [] = none
find_item key (i ∷ chain) =
    let rest = find_item key chain in if str_equals i.key key then some i else rest

-- `cursor_value->last_visited = time(NULL)` of that item.
unfoldable pub touch : ℕ → List ℤ → List Item → List Item
touch now key [] = []
touch now key (i ∷ chain) =
    let rest = touch now key chain in
    if str_equals i.key key then record i { last_visited = now } ∷ chain else i ∷ rest

-- In the results of the following functions, `none` is an access outside an array or a `free` of a
-- pointer that was not set.
abbrev pub set_bucket : Cache → ℕ → List Item → Cache
set_bucket c i chain = record c { buckets = modify c.buckets i (λ _. chain) }

-- `InsertCacheItem` for the bucket `i`: the result, 0 or 1.
pub insert_at : (allocated : Bool) → Cache → ℕ → Item → Option (ℕ × Cache)
insert_at allocated c i item = elim (get_elem? c.buckets_size i) [
  | none ↦ none
  | some n ↦ if leb c.bucket_capacity n then some (1, c) else elim (get_elem? c.buckets i) [
    | none ↦ none
    | some chain ↦
        if allocated
        then some (
          0,
          record (set_bucket c i (chain ++ item ∷ [])) {
            buckets_size = modify c.buckets_size i suc;
          },
        )
        else some (1, c)
  ]
]

pub insert_cache_item : (allocated : Bool) → Cache → Item → Option (ℕ × Cache)
unfolding insert_at
insert_cache_item allocated c item = elim (index_of (get_hash item.key c.size)) [
  | none ↦ none
  | some i ↦ insert_at allocated c i item
]

-- What the allocations of one call answer: the item, its key and its node in the chain.
pub record Memory : Type 0 where
  pub item : Option ℕ
  pub key : Bool
  pub node : Bool

-- The second half of `GetOrCreateCacheItem`. When the item cannot be inserted its `content`, which was
-- not set, is freed.
pub create_item :
    (status_initial : ℕ) (now : ℕ) → Memory → Cache → List ℤ → Option (Option ℕ × Cache)
unfolding insert_cache_item
create_item status_initial now memory c key = elim memory.item [
  | none ↦ some (none, c)
  | some a ↦
      if not memory.key
      then some (none, c)
      else elim (insert_cache_item memory.node c (record {
        address = a;
        key = key;
        last_visited = now;
        content_size = 0;
        status = status_initial;
      })) [ none ↦ none | some (err, c') ↦ if err == 0 then some (some a, c') else none ]
]

pub get_or_create :
    (status_initial : ℕ) (now : ℕ) → Memory → Cache → List ℤ → Option (Option ℕ × Cache)
unfolding create_item
get_or_create status_initial now memory c key = elim (index_of (get_hash key c.size)) [
  | none ↦ none
  | some i ↦ elim (get_elem? c.buckets i) [
    | none ↦ none
    | some chain ↦ elim (find_item key chain) [
      | some item ↦ some (some item.address, set_bucket c i (touch now key chain))
      | none ↦ create_item status_initial now memory c key
    ]
  ]
]

-- The test of `LookupAndClean`; `time(NULL)` is the same in one call.
unfoldable pub expired : (in_process now timeout : ℕ) → Item → Bool
expired in_process now timeout i =
    ltb (i.last_visited + timeout) now && not (i.status == in_process)

-- What the walk over one chain leaves, and what it deletes.
unfoldable pub kept : (Item → Bool) → List Item → List Item
kept old [] = []
kept old (i ∷ chain) = let rest = kept old chain in if old i then rest else i ∷ rest

unfoldable pub deleted : (Item → Bool) → List Item → List Item
deleted old [] = []
deleted old (i ∷ chain) = let rest = deleted old chain in if old i then i ∷ rest else rest

-- The loop over the buckets: the chains, their counts, and the items whose `rwlock` is unlocked after
-- they were freed.
unfoldable pub clean_buckets :
    (Item → Bool) → ℕ → List (List Item) → List ℕ → Option (List (List Item) × List ℕ × List Item)
unfolding kept deleted
clean_buckets old zero bs ns = some (bs, ns, [])
clean_buckets old (suc k) [] ns = none
clean_buckets old (suc k) (b ∷ bs) [] = elim (deleted old b) [
  | [] ↦ elim (clean_buckets old k bs []) [
    | none ↦ none
    | some (bs', ns', gone) ↦ some (b ∷ bs', ns', gone)
  ]
  | i ∷ more ↦ none
]
clean_buckets old (suc k) (b ∷ bs) (n ∷ ns) = elim (clean_buckets old k bs ns) [
  | none ↦ none
  | some (bs', ns', gone) ↦
      some (kept old b ∷ bs', (n - length (deleted old b)) ∷ ns', deleted old b ++ gone)
]

pub lookup_and_clean : (in_process now timeout : ℕ) → Cache → Option (Cache × List Item)
unfolding expired clean_buckets
lookup_and_clean in_process now timeout c =
    elim (clean_buckets (expired in_process now timeout) c.size c.buckets c.buckets_size) [
      | none ↦ none
      | some (bs, ns, gone) ↦ some (record c { buckets = bs; buckets_size = ns }, gone)
    ]

-- The items that `DeleteCache` frees, in order; the count of each bucket is set to 0.
unfoldable pub delete_buckets : ℕ → List (List Item) → List ℕ → Option (List Item)
delete_buckets zero bs ns = some []
delete_buckets (suc k) [] ns = none
delete_buckets (suc k) (b ∷ bs) [] = none
delete_buckets (suc k) (b ∷ bs) (n ∷ ns) = elim (delete_buckets k bs ns) [
  | none ↦ none
  | some gone ↦ some (b ++ gone)
]

pub delete_cache : Cache → Option (List Item)
unfolding delete_buckets
delete_cache c = delete_buckets c.size c.buckets c.buckets_size
