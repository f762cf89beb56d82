-- ===== src/HashCache/Map.antt =====
-- The cache of arkhipov/32/cache.c as a map from keys to items: what is valid, and how one chain
-- is replaced.
use posix_threads.Common.{
  ℕ, zero, suc, ◌%◌, ◌<◌, ◌≡◌, refl, sym, ap, ◌∙◌, subst, inl, inr, true, Option, none, some, List,
  [], ◌∷◌, arith, if◌then◌else◌, ◌==◌, ==_iff, length, get_elem?, modify, get_elem?-modify,
  get_elem?-some, ℤ, Bool-cases,
}
use native.Mathlib.Nat.{mod-lt}
use posix_threads.HashCache.{Item, Cache, get_hash, index_of, str_equals, find_item}
use posix_threads.HashCache.Hash.{text, total, get_hash-text, str_equals_iff}
use posix_threads.HashCache.Bucket.{Distinct}

-- Each count is the length of its chain.
unfoldable pub Counts : List (List Item) → List ℕ → Type 0
Counts [] ns = Unit
Counts (b ∷ bs) [] = ⊥
Counts (b ∷ bs) (n ∷ ns) = (n ≡ length b) × Counts bs ns

unfoldable pub AllDistinct : List (List Item) → Type 0
AllDistinct [] = Unit
AllDistinct (b ∷ bs) = Distinct b × AllDistinct bs

pub record IsValid (c : Cache) : Type 0 where
  pub sized : c.size ≡ length c.buckets
  pub room : 0 < c.size
  pub counted : length c.buckets_size ≡ c.bucket_capacity
  pub counts : Counts c.buckets c.buckets_size
  pub distinct : AllDistinct c.buckets

-- The item of a key: the first in its bucket.
abbrev pub bucket_find : List ℤ → Option (List Item) → Option Item
bucket_find k none = none
bucket_find k (some chain) = find_item k chain

unfoldable pub find_at : List (List Item) → List ℤ → Option ℕ → Option Item
find_at bs k none = none
find_at bs k (some i) = bucket_find k (get_elem? bs i)

unfoldable pub find : Cache → List ℤ → Option Item
unfolding find_at
find c k = find_at c.buckets k (index_of (get_hash k c.size))

pub Counts-at :
    (bs : List (List Item)) (ns : List ℕ) (i : ℕ) (b : List Item)
    → Counts bs ns
    → get_elem? bs i ≡ some b
    → get_elem? ns i ≡ some (length b)
unfolding Counts
Counts-at [] ns i b v h = cc
Counts-at (a ∷ bs) [] i b v h = absurd v
Counts-at (a ∷ bs) (n ∷ ns) zero b v h = ground arith
Counts-at (a ∷ bs) (n ∷ ns) (suc i) b v h = Counts-at bs ns i b v.1 h

pub Counts-same :
    (bs : List (List Item)) (ns : List ℕ) (i : ℕ) (b b' : List Item)
    → Counts bs ns
    → get_elem? bs i ≡ some b
    → length b' ≡ length b
    → Counts (modify bs i (λ _. b')) ns
unfolding Counts
Counts-same [] ns i b b' v h l = tt
Counts-same (a ∷ bs) [] i b b' v h l = absurd v
Counts-same (a ∷ bs) (n ∷ ns) zero b b' v h l = ground arith
Counts-same (a ∷ bs) (n ∷ ns) (suc i) b b' v h l = (v.0, Counts-same bs ns i b b' v.1 h l)

pub Counts-more :
    (bs : List (List Item)) (ns : List ℕ) (i : ℕ) (b b' : List Item)
    → Counts bs ns
    → get_elem? bs i ≡ some b
    → length b' ≡ suc (length b)
    → Counts (modify bs i (λ _. b')) (modify ns i suc)
unfolding Counts
Counts-more [] ns i b b' v h l = tt
Counts-more (a ∷ bs) [] i b b' v h l = absurd v
Counts-more (a ∷ bs) (n ∷ ns) zero b b' v h l = ground arith
Counts-more (a ∷ bs) (n ∷ ns) (suc i) b b' v h l = (v.0, Counts-more bs ns i b b' v.1 h l)

pub AllDistinct-at :
    (bs : List (List Item)) (i : ℕ) (b : List Item)
    → AllDistinct bs
    → get_elem? bs i ≡ some b
    → Distinct b
unfolding AllDistinct
AllDistinct-at [] i b d h = cc
AllDistinct-at (a ∷ bs) zero b d h = ground arith
AllDistinct-at (a ∷ bs) (suc i) b d h = AllDistinct-at bs i b d.1 h

pub AllDistinct-modify :
    (bs : List (List Item)) (i : ℕ) (b : List Item)
    → AllDistinct bs
    → Distinct b
    → AllDistinct (modify bs i (λ _. b))
unfolding AllDistinct
AllDistinct-modify [] i b d h = tt
AllDistinct-modify (a ∷ bs) zero b d h = (h, d.1)
AllDistinct-modify (a ∷ bs) (suc i) b d h = (d.0, AllDistinct-modify bs i b d.1 h)

-- Putting a chain in the place of another, which differs from it at `key` only; `o` is where `k`
-- belongs.
pub find_at-set :
    (bs : List (List Item)) (i : ℕ) (key k : List ℤ) (chain chain' : List Item) (item : Option Item)
    (o : Option ℕ)
    → (str_equals key k ≡ true → o ≡ some i)
    → get_elem? bs i ≡ some chain
    → find_item k chain' ≡ (if str_equals key k then item else find_item k chain)
    → find_at (modify bs i (λ _. chain')) k o ≡ (if str_equals key k then item else find_at bs k o)
unfolding find_at
find_at-set bs i key k chain chain' item none home here law = elim (Bool-cases (str_equals key k)) [
  | inl e ↦ absurd (ground (arith, home e))
  | inr e ↦ rw e refl
]
find_at-set bs i key k chain chain' item (some j) home here law =
    ap (bucket_find k) (get_elem?-modify bs i j (λ _. chain') chain here)
    ∙ (elim (Bool-cases (i == j)) [
      | inl e ↦
          let equal = (==_iff i j).0 e in
          rw e (
            law
            ∙ ap (λ b. if str_equals key k then item else bucket_find k b)
                (sym (ap (get_elem? bs) (sym equal) ∙ here)))
      | inr e ↦ elim (Bool-cases (str_equals key k)) [
        | inl f ↦ absurd (let g = home f in ground (arith, ==_iff i j))
        | inr f ↦ rw (e, f) refl
      ]
    ])

-- Where the key belongs, when its characters are not negative.
pub home_of :
    (c : Cache) (cs : List ℕ)
    → IsValid c
    → (i : ℕ) × (chain : List Item) × (index_of (get_hash (text cs) c.size) ≡ some i)
      × (get_elem? c.buckets i ≡ some chain)
home_of c cs v =
    let i = total cs % c.size in
    let (chain, e) =
      get_elem?-some c.buckets i (omega (arith, mod-lt (total cs) v.room, v.sized)) in
    (i, chain, ap index_of (get_hash-text cs c.size v.room), e)

pub same_home :
    (size i : ℕ) (key k : List ℤ)
    → index_of (get_hash key size) ≡ some i
    → str_equals key k ≡ true
    → index_of (get_hash k size) ≡ some i
same_home size i key k home e =
    subst (λ l. index_of (get_hash l size) ≡ some i) ((str_equals_iff key k).0 e) home
