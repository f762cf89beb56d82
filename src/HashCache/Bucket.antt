-- ===== src/HashCache/Bucket.antt =====
-- One chain of arkhipov/32/cache.c as a map from keys to items.
use posix_threads.Common.{
  ℕ, ◌+◌, ◌≡◌, refl, Bool, Option, none, some, List, [], ◌∷◌, ◌++◌, arith, if◌then◌else◌, length, ℤ,
}
use posix_threads.HashCache.{Item, str_equals, find_item, touch, kept, deleted}
use posix_threads.HashCache.Hash.{str_equals_iff}

-- No key stands in the chain twice.
unfoldable pub Distinct : List Item → Type 0
Distinct [] = Unit
Distinct (i ∷ chain) = (find_item i.key chain ≡ none) × Distinct chain

pub touched : ℕ → Item → Item
touched now i = record i { last_visited = now }

module _ (key k : List ℤ) where
  pub find_item-append :
      (item : Item) (chain : List Item)
      → item.key ≡ key
      → find_item key chain ≡ none
      → find_item k (chain ++ item ∷ [])
        ≡ (if str_equals key k then some item else find_item k chain)
  unfolding find_item
  find_item-append item [] e absent = rw e refl
  find_item-append item (i ∷ chain) e absent = ground (
    arith,
    str_equals_iff i.key k,
    str_equals_iff i.key key,
    str_equals_iff key k,
    find_item-append item chain e,
  )

  pub find_item-touch :
      (now : ℕ) (item : Item) (chain : List Item)
      → find_item key chain ≡ some item
      → find_item k (touch now key chain)
        ≡ (if str_equals key k then some (touched now item) else find_item k chain)
  unfolding find_item touch touched
  find_item-touch now item [] here = ground arith
  find_item-touch now item (i ∷ chain) here = ground (
    arith,
    str_equals_iff i.key k,
    str_equals_iff i.key key,
    str_equals_iff key k,
    find_item-touch now item chain,
  )

-- The entry of a map, unless it is old.
abbrev pub unless : (Item → Bool) → Option Item → Option Item
unless old none = none
unless old (some i) = if old i then none else some i

module _ (old : Item → Bool) where
  pub find_item-kept :
      (k : List ℤ) (chain : List Item)
      → Distinct chain
      → find_item k (kept old chain) ≡ unless old (find_item k chain)
  unfolding find_item kept Distinct
  find_item-kept k [] d = refl
  find_item-kept k (i ∷ chain) d = ground (arith, str_equals_iff i.key k, find_item-kept k chain)

  pub length-kept :
      (chain : List Item) → length (kept old chain) + length (deleted old chain) ≡ length chain
  unfolding kept deleted
  length-kept [] = omega arith
  length-kept (i ∷ chain) = ground (arith, length-kept chain)

  pub kept-Distinct : (chain : List Item) → Distinct chain → Distinct (kept old chain)
  unfolding kept Distinct
  kept-Distinct [] d = tt
  kept-Distinct (i ∷ chain) d = ground (arith, find_item-kept i.key chain, kept-Distinct chain)

find_item-touch-none :
    (now : ℕ) (key k : List ℤ) (chain : List Item)
    → find_item k chain ≡ none
    → find_item k (touch now key chain) ≡ none
unfolding find_item touch
find_item-touch-none now key k [] h = refl
find_item-touch-none now key k (i ∷ chain) h = ground (arith, find_item-touch-none now key k chain)

pub touch-Distinct :
    (now : ℕ) (key : List ℤ) (chain : List Item) → Distinct chain → Distinct (touch now key chain)
unfolding touch Distinct
touch-Distinct now key [] d = tt
touch-Distinct now key (i ∷ chain) d =
    ground (arith, find_item-touch-none now key i.key chain, touch-Distinct now key chain)

pub length-touch :
    (now : ℕ) (key : List ℤ) (chain : List Item) → length (touch now key chain) ≡ length chain
unfolding touch
length-touch now key [] = refl
length-touch now key (i ∷ chain) = ground (arith, length-touch now key chain)

pub append-Distinct :
    (item : Item) (chain : List Item)
    → find_item item.key chain ≡ none
    → Distinct chain
    → Distinct (chain ++ item ∷ [])
unfolding Distinct find_item
append-Distinct item [] absent d = (refl, tt)
append-Distinct item (i ∷ chain) absent d = ground (
  arith,
  str_equals_iff i.key item.key,
  str_equals_iff item.key i.key,
  find_item-append item.key i.key item chain refl,
  append-Distinct item chain,
)
