-- ===== src/EventProxy/Eviction/Oldest.antt =====
-- What `GetOldestRecord` of rybalko/31/server.c finds.
use posix_threads.Common.{
  ℕ, suc, ◌+◌, ◌≡◌, refl, ap, ◌∙◌, inl, inr, ◌⊎◌, true, false, ◌&&◌, some, List, [], ◌∷◌, arith,
  get_elem?, Bool-cases, ℤ, pos, minus_one, ltℤ, ltℤ-trans, ltℤ-self,
}
use posix_threads.EventProxy.{CacheItem, Server}
use posix_threads.EventProxy.Safe.{Every, Every-cons}
use posix_threads.EventProxy.Eviction.{timed, oldest_from, get_oldest_record}

-- An item with a time that is not before `m`, or without one.
abbrev pub Later : ℤ → CacheItem → Type 0
Later m it = timed it ≡ true → ltℤ it.full_time m ≡ false

-- The item with index `j` has a time before `m`, and no item has an earlier one.
pub record Oldest (m : ℤ) (its : List CacheItem) (j : ℕ) : Type 0 where
  pub item : CacheItem
  pub there : get_elem? its j ≡ some item
  pub has_time : timed item ≡ true
  pub before : ltℤ item.full_time m ≡ true
  pub first : Every (Later item.full_time) its

data Found (i : ℕ) (m res : ℤ) (its : List CacheItem) (result : ℤ × ℤ) : Type 0 where
  kept : result ≡ (m, res) → Every (Later m) its → Found i m res its result
  found :
      (j : ℕ)
      → (o : Oldest m its j) → result ≡ (o.item.full_time, pos (i + j))
      → Found i m res its result

cons-Later :
    (m t : ℤ) (it : CacheItem)
    → ltℤ t m ≡ true
    → (ltℤ it.full_time m && timed it) ≡ false
    → Later t it
cons-Later m t it lower other has_time = elim (Bool-cases (ltℤ it.full_time t)) [
  | inr e ↦ e
  | inl e ↦ absurd (ground (arith, ltℤ-trans it.full_time t m e lower))
]

oldest_from-Found :
    (i : ℕ) (m res : ℤ) (its : List CacheItem) → Found i m res its (oldest_from i m res its)
unfolding oldest_from
oldest_from-Found i m res [] = kept refl (λ j x e. absurd (ground arith))
oldest_from-Found i m res (it ∷ its) = elim (Bool-cases (ltℤ it.full_time m && timed it)) [
  | inr e ↦ rw e (elim (oldest_from-Found (suc i) m res its) [
    | kept f k ↦ kept f (Every-cons (Later m) it its (ground arith) k)
    | found j o f ↦
        found (suc j)
          (record {
            item = o.item;
            there = o.there;
            has_time = o.has_time;
            before = o.before;
            first =
                Every-cons (Later o.item.full_time) it its
                  (cons-Later m o.item.full_time it o.before e) o.first;
          })
          (f ∙ ap (λ n. (o.item.full_time, pos n)) (omega arith))
  ])
  | inl e ↦ rw e (elim (oldest_from-Found (suc i) it.full_time (pos i) its) [
    | kept f k ↦
        found 0
          (record {
            item = it;
            there = refl;
            has_time = ground arith;
            before = ground arith;
            first = Every-cons (Later it.full_time) it its (λ h. ltℤ-self it.full_time) k;
          })
          (f ∙ ap (λ n. (it.full_time, pos n)) (omega arith))
    | found j o f ↦
        found (suc j)
          (record {
            item = o.item;
            there = o.there;
            has_time = o.has_time;
            before = ltℤ-trans o.item.full_time it.full_time m o.before (ground arith);
            first =
                Every-cons (Later o.item.full_time) it its
                  (cons-Later it.full_time o.item.full_time it o.before
                    (ground (arith, ltℤ-self it.full_time)))
                  o.first;
          })
          (f ∙ ap (λ n. (o.item.full_time, pos n)) (omega arith))
  ])
]

-- `GetOldestRecord` answers the index of an item with a time before now that no other time comes before,
-- or -1 if no item has a time before now.
pub get_oldest_record-Oldest :
    (now : ℤ) (s : Server)
    → ((j : ℕ) × (get_oldest_record now s ≡ pos j) × Oldest now s.cache j)
      ⊎ ((get_oldest_record now s ≡ minus_one) × Every (Later now) s.cache)
unfolding get_oldest_record
get_oldest_record-Oldest now s = elim (oldest_from-Found 0 now minus_one s.cache) [
  | kept f k ↦ inr (ap (λ x. x.1) f, k)
  | found j o f ↦ inl (j, ap (λ x. x.1) f ∙ ap pos (omega arith), o)
]
