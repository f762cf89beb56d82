-- ===== src/HashCache/Clean.antt =====
-- `LookupAndClean` and `DeleteCache` of arkhipov/32/cache.c.
use posix_threads.Common.{
  ℕ, zero, suc, ◌-◌, ◌≡◌, refl, sym, ap, ◌∙◌, Bool, Option, none, some, List, [], ◌∷◌, ◌++◌, arith,
  length, get_elem?, ℤ,
}
use posix_threads.HashCache.{
  Item, Cache, get_hash, index_of, kept, deleted, expired, clean_buckets, lookup_and_clean,
  delete_buckets, delete_cache,
}
use posix_threads.HashCache.Bucket.{unless, find_item-kept, length-kept, kept-Distinct}
use posix_threads.HashCache.Map.{Counts, AllDistinct, IsValid, bucket_find, find_at, find}

-- The items of all chains, in order, and those that are old.
unfoldable pub all_items : List (List Item) → List Item
all_items [] = []
all_items (b ∷ bs) = b ++ all_items bs

unfoldable pub all_deleted : (Item → Bool) → List (List Item) → List Item
all_deleted old [] = []
all_deleted old (b ∷ bs) = deleted old b ++ all_deleted old bs

abbrev all_kept : (Item → Bool) → List (List Item) → List (List Item)
all_kept old [] = []
all_kept old (b ∷ bs) = kept old b ∷ all_kept old bs

module _ (old : Item → Bool) where
  length-all_kept : (bs : List (List Item)) → length (all_kept old bs) ≡ length bs
  length-all_kept [] = refl
  length-all_kept (b ∷ bs) = ap suc (length-all_kept bs)

  all_kept-AllDistinct : (bs : List (List Item)) → AllDistinct bs → AllDistinct (all_kept old bs)
  unfolding AllDistinct
  all_kept-AllDistinct [] d = tt
  all_kept-AllDistinct (b ∷ bs) d = (kept-Distinct old b d.0, all_kept-AllDistinct bs d.1)

  find_at-all_kept :
      (bs : List (List Item)) (k : List ℤ) (i : ℕ)
      → AllDistinct bs
      → bucket_find k (get_elem? (all_kept old bs) i) ≡ unless old (bucket_find k (get_elem? bs i))
  unfolding AllDistinct
  find_at-all_kept [] k i d = refl
  find_at-all_kept (b ∷ bs) k zero d = find_item-kept old k b d.0
  find_at-all_kept (b ∷ bs) k (suc i) d = find_at-all_kept bs k i d.1

  clean_buckets_lem :
      (n : ℕ) (bs : List (List Item)) (ns : List ℕ)
      → n ≡ length bs
      → Counts bs ns
      → (ns' : List ℕ) × (clean_buckets old n bs ns
          ≡ some (all_kept old bs, ns', all_deleted old bs))
        × Counts (all_kept old bs) ns'
        × (length ns' ≡ length ns)
  unfolding clean_buckets all_deleted Counts
  clean_buckets_lem zero [] ns l v = (ns, refl, tt, refl)
  clean_buckets_lem zero (b ∷ bs) ns l v = absurd (omega arith)
  clean_buckets_lem (suc n) [] ns l v = absurd (omega arith)
  clean_buckets_lem (suc n) (b ∷ bs) [] l v = absurd v
  clean_buckets_lem (suc n) (b ∷ bs) (m ∷ ns) l v =
      let (ns', e, counts, same) = clean_buckets_lem n bs ns (omega arith) v.1 in
      (
        (m - length (deleted old b)) ∷ ns',
        rw e refl,
        (omega (arith, v.0, length-kept old b), counts),
        ap suc same,
      )

-- What cleaning leaves, and what was used after it was freed.
pub record Cleaned (old : Item → Bool) (c c' : Cache) (gone : List Item) : Type 0 where
  pub valid : IsValid c'
  pub finds : (k : List ℤ) → find c' k ≡ unless old (find c k)
  pub used_after_free : gone ≡ all_deleted old c.buckets

find_at-cleaned :
    (old : Item → Bool) (bs : List (List Item)) (k : List ℤ) (o : Option ℕ)
    → AllDistinct bs
    → find_at (all_kept old bs) k o ≡ unless old (find_at bs k o)
unfolding find_at
find_at-cleaned old bs k none d = refl
find_at-cleaned old bs k (some i) d = find_at-all_kept old bs k i d

-- `LookupAndClean` of a valid cache: it stays valid, the keys of expired items are gone and all others
-- have the item that they had, and the items whose lock is used after they are freed are just
-- those that were removed.
pub lookup_and_clean-Cleaned :
    (in_process now timeout : ℕ) (c : Cache)
    → IsValid c
    → (c' : Cache) × (gone : List Item) × (lookup_and_clean in_process now timeout c
        ≡ some (c', gone))
      × Cleaned (expired in_process now timeout) c c' gone
unfolding lookup_and_clean find
lookup_and_clean-Cleaned in_process now timeout c v =
    let old = expired in_process now timeout in
    let (ns', e, counts, same) =
      clean_buckets_lem old c.size c.buckets c.buckets_size v.sized v.counts in
    (
      record c { buckets = all_kept old c.buckets; buckets_size = ns' },
      all_deleted old c.buckets,
      rw (e, lookup_and_clean) refl,
      record {
        valid = record {
          sized = v.sized ∙ sym (length-all_kept old c.buckets);
          room = v.room;
          counted = same ∙ v.counted;
          counts = counts;
          distinct = all_kept-AllDistinct old c.buckets v.distinct;
        };
        finds = λ k. find_at-cleaned old c.buckets k (index_of (get_hash k c.size)) v.distinct;
        used_after_free = refl;
      },
    )

delete_buckets_lem :
    (n : ℕ) (bs : List (List Item)) (ns : List ℕ)
    → n ≡ length bs
    → Counts bs ns
    → delete_buckets n bs ns ≡ some (all_items bs)
unfolding delete_buckets all_items Counts
delete_buckets_lem zero [] ns l v = refl
delete_buckets_lem zero (b ∷ bs) ns l v = absurd (omega arith)
delete_buckets_lem (suc n) [] ns l v = absurd (omega arith)
delete_buckets_lem (suc n) (b ∷ bs) [] l v = absurd v
delete_buckets_lem (suc n) (b ∷ bs) (m ∷ ns) l v =
    rw (delete_buckets_lem n bs ns (omega arith) v.1) refl

-- `DeleteCache` of a valid cache frees each item of each chain once, and nothing is accessed outside the
-- arrays.
pub delete_cache-frees : (c : Cache) → IsValid c → delete_cache c ≡ some (all_items c.buckets)
unfolding delete_cache
delete_cache-frees c v = delete_buckets_lem c.size c.buckets c.buckets_size v.sized v.counts
