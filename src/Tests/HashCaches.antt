-- ===== src/Tests/HashCaches.antt =====
-- The cache of arkhipov/32/cache.c at small inputs.
use posix_threads.Common.{rem, ◌+ℤ◌, ◌≡◌, refl, none, some, List, [], ◌∷◌, arith}
use posix_threads.HashCache.{
  str_equals, Item, Cache, get_hash, get_or_create, lookup_and_clean, expired, find_item,
}
use posix_threads.HashCache.Hash.{text}
use posix_threads.HashCache.Bucket.{touched, Distinct}
use posix_threads.HashCache.Map.{IsValid, find, Counts, AllDistinct}
use posix_threads.HashCache.Create.{
  Answered, HasRoom, all_memory, fresh_item, get_or_create-hit, get_or_create-miss,
}
use posix_threads.HashCache.Clean.{Cleaned, lookup_and_clean-Cleaned}

abbrev old_item : Item
old_item = record {
  address = 7;
  key = text (97 ∷ []);
  last_visited = 5;
  content_size = 0;
  status = 0;
}

-- Two buckets with one place each: "a" is in the second.
abbrev small : Cache
small = record {
  size = 2;
  bucket_capacity = 2;
  buckets = [] ∷ (old_item ∷ []) ∷ [];
  buckets_size = 0 ∷ 1 ∷ [];
}

small-IsValid : IsValid small
unfolding Counts AllDistinct Distinct find_item
small-IsValid = record {
  sized = refl;
  room = omega arith;
  counted = refl;
  counts = (refl, (refl, tt));
  distinct = (tt, ((refl, tt), tt));
}

finds_a : find small (text (97 ∷ [])) ≡ some old_item
unfolding find get_hash find_item rem ◌+ℤ◌ str_equals
finds_a = refl

no_c : find small (text (99 ∷ [])) ≡ none
unfolding find get_hash find_item rem ◌+ℤ◌ str_equals
no_c = refl

room_c : HasRoom small (99 ∷ [])
room_c = record { chain = old_item ∷ []; here = refl; room = omega arith }

get_or_create-hit_example :
    (c' : Cache) × (get_or_create 0 9 (all_memory 8) small (text (97 ∷ [])) ≡ some (some 7, c'))
    × Answered (text (97 ∷ [])) (touched 9 old_item) small c'
get_or_create-hit_example =
    get_or_create-hit 0 9 (all_memory 8) small (97 ∷ []) old_item small-IsValid finds_a

get_or_create-miss_example :
    (c' : Cache) × (get_or_create 0 9 (all_memory 8) small (text (99 ∷ [])) ≡ some (some 8, c'))
    × Answered (text (99 ∷ [])) (fresh_item 0 9 8 (text (99 ∷ []))) small c'
get_or_create-miss_example = get_or_create-miss 0 9 8 small (99 ∷ []) small-IsValid no_c room_c

-- One bucket with one place, which is taken.
abbrev full : Cache
full = record {
  size = 1;
  bucket_capacity = 1;
  buckets = (old_item ∷ []) ∷ [];
  buckets_size = 1 ∷ [];
}

full-IsValid : IsValid full
unfolding Counts AllDistinct Distinct find_item
full-IsValid = record {
  sized = refl;
  room = omega arith;
  counted = refl;
  counts = (refl, tt);
  distinct = ((refl, tt), tt);
}

full_no_c : find full (text (99 ∷ [])) ≡ none
unfolding find get_hash find_item rem ◌+ℤ◌ str_equals
full_no_c = refl

lookup_and_clean-Cleaned_example :
    (c' : Cache) × (gone : List Item) × (lookup_and_clean 1 9 3 small ≡ some (c', gone))
    × Cleaned (expired 1 9 3) small c' gone
lookup_and_clean-Cleaned_example = lookup_and_clean-Cleaned 1 9 3 small small-IsValid
