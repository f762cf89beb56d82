-- ===== src/EventProxy/Eviction/Frees.antt =====
-- `FreeMemoryForNewCacheRecord` of rybalko/31/server.c ends, and what it has thrown away then.
use posix_threads.Common.{
  ℕ, zero, suc, ◌+◌, ◌-◌, ◌≤◌, ◌<◌, ◌≡◌, refl, sym, ap, ◌∙◌, subst, inl, inr, ◌⊎◌, true, some, List,
  [], ◌∷◌, arith, if◌then◌else◌, get_elem?, get_elem?-lt, length, modify, ltb, Bool-cases, ℤ, pos,
  minus_one,
}
use mathlib.Core.Option.{some-injective}
use posix_threads.EventProxy.{CacheItem, Server, sub_size, empty_item}
use posix_threads.EventProxy.Safe.{Every, IsSafe, cores, core, cores-get}
use posix_threads.EventProxy.Safe.Emptied.{Cleaned}
use posix_threads.EventProxy.Safe.Clean.{clean_cache_item-Cleaned}
use posix_threads.EventProxy.Eviction.{
  timed, get_oldest_record, evict_one, free_bytes, evict, free_memory,
}
use posix_threads.EventProxy.Eviction.Oldest.{Later, get_oldest_record-Oldest}

-- How many items have a time.
pub count_timed : List CacheItem → ℕ
count_timed [] = 0
count_timed (it ∷ its) = (if timed it then 1 else 0) + count_timed its

count_timed-le : (its : List CacheItem) → count_timed (cores its) ≤ length its
unfolding count_timed
count_timed-le [] = omega arith
count_timed-le (it ∷ its) = ground (arith, count_timed-le its)

count_timed-modify :
    (its : List CacheItem) (c : ℕ) (it : CacheItem)
    → get_elem? its c ≡ some it
    → timed it ≡ true
    → suc (count_timed (modify its c (λ _. empty_item))) ≡ count_timed its
unfolding count_timed
count_timed-modify [] c it at h = absurd (ground arith)
count_timed-modify (x ∷ its) zero it at h =
    let same : timed x ≡ true = ap timed (some-injective _ _ at) ∙ h in rw same (omega arith)
count_timed-modify (x ∷ its) (suc c) it at h = omega (arith, count_timed-modify its c it at h)

-- `later` is `earlier` with some items emptied.
unfoldable pub Thinned : (earlier later : List CacheItem) → Type 0
Thinned [] [] = Unit
Thinned [] (y ∷ ys) = ⊥
Thinned (x ∷ xs) [] = ⊥
Thinned (x ∷ xs) (y ∷ ys) = ((y ≡ x) ⊎ (y ≡ empty_item)) × Thinned xs ys

Thinned-self : (xs : List CacheItem) → Thinned xs xs
unfolding Thinned
Thinned-self [] = tt
Thinned-self (x ∷ xs) = (inl refl, Thinned-self xs)

Thinned-trans : (xs ys zs : List CacheItem) → Thinned xs ys → Thinned ys zs → Thinned xs zs
unfolding Thinned
Thinned-trans [] [] [] h k = tt
Thinned-trans [] [] (z ∷ zs) h k = absurd k
Thinned-trans [] (y ∷ ys) zs h k = absurd h
Thinned-trans (x ∷ xs) [] zs h k = absurd h
Thinned-trans (x ∷ xs) (y ∷ ys) [] h k = absurd k
Thinned-trans (x ∷ xs) (y ∷ ys) (z ∷ zs) h k = (
  elim k.0 [ inr e ↦ inr e | inl e ↦ elim h.0 [ inl f ↦ inl (e ∙ f) | inr f ↦ inr (e ∙ f) ] ],
  Thinned-trans xs ys zs h.1 k.1,
)

Thinned-modify : (xs : List CacheItem) (c : ℕ) → Thinned xs (modify xs c (λ _. empty_item))
unfolding Thinned
Thinned-modify [] c = tt
Thinned-modify (x ∷ xs) zero = (inr refl, Thinned-self xs)
Thinned-modify (x ∷ xs) (suc c) = (inl refl, Thinned-modify xs c)

-- How many items have lost their time.
pub emptied : (before after : Server) → ℕ
emptied s after = count_timed (cores s.cache) - count_timed (cores after.cache)

module _ (nc nh nk : ℕ) where
  -- A state after the loop: safe, with some items emptied, and either enough bytes for `needed` or no item
  -- with a time before the last one that the clock told: the clock was asked for the time `k`, and once more
  -- after each item that was emptied.
  pub record Evicted (clock : ℕ → ℤ) (k needed : ℕ) (s after : Server) : Type 0 where
    pub safe : IsSafe nc nh nk after
    pub thinned : Thinned (cores s.cache) (cores after.cache)
    pub same_max : after.max_cache ≡ s.max_cache
    pub last : ℕ
    pub asked : last + count_timed (cores after.cache) ≡ k + count_timed (cores s.cache)
    pub enough : (needed ≤ free_bytes after) ⊎ Every (Later (clock last)) after.cache

  evict_one-Cleaned :
      (c : ℕ) (s : Server) (it : CacheItem)
      → IsSafe nc nh nk s
      → c < nk
      → get_elem? s.cache c ≡ some it
      → Cleaned nc nh nk c
          (record s { current_cache = sub_size s.current_cache it.response_size })
          (evict_one c s)
  unfolding evict_one
  evict_one-Cleaned c s it v h at = rw at (
      clean_cache_item-Cleaned nc nh nk c _
        (record {
          clients_sized = v.clients_sized;
          hosts_sized = v.hosts_sized;
          cache_sized = v.cache_sized;
          clients = v.clients;
          hosts = v.hosts;
          items = v.items;
          polls = v.polls;
        })
        h)

  evict-Evicted :
      (clock : ℕ → ℤ) (fuel k needed : ℕ) (s : Server)
      → IsSafe nc nh nk s
      → count_timed (cores s.cache) < fuel
      → (after : Server) × (evict clock fuel (suc k) needed (get_oldest_record (clock k) s) s
          ≡ some after)
        × Evicted clock k needed s after
  unfolding evict
  evict-Evicted clock zero k needed s v h = absurd (omega arith)
  evict-Evicted clock (suc fuel) k needed s v h = elim (get_oldest_record-Oldest (clock k) s) [
    | inr (e, none_left) ↦ (
      s,
      rw e refl,
      record {
        safe = v;
        thinned = Thinned-self (cores s.cache);
        same_max = refl;
        last = k;
        asked = refl;
        enough = inr none_left;
      },
    )
    | inl (c, e, o) ↦ elim (Bool-cases (ltb (free_bytes s) needed)) [
      | inr f ↦ (
        s,
        rw (e, f) refl,
        record {
          safe = v;
          thinned = Thinned-self (cores s.cache);
          same_max = refl;
          last = k;
          asked = refl;
          enough = inl (ground arith);
        },
      )
      | inl f ↦
          let r = evict_one-Cleaned c s o.item v (inside c o.item s v o.there) o.there in
          let one : suc (count_timed (cores r.after.cache)) ≡ count_timed (cores s.cache) = omega (
            arith,
            ap count_timed r.others,
            count_timed-modify (cores s.cache) c (core o.item) (cores-get s.cache c o.item o.there)
                o.has_time,
          ) in
          let fewer : count_timed (cores r.after.cache) < fuel = omega (arith, h, one) in
          let (after, run, done) = evict-Evicted clock fuel (suc k) needed r.after r.safe fewer in
          (
            after,
            rw (e, f) (rw r.returns run),
            record {
              safe = done.safe;
              thinned =
                  Thinned-trans (cores s.cache) (cores r.after.cache) (cores after.cache)
                    (subst (Thinned (cores s.cache)) (sym r.others)
                      (Thinned-modify (cores s.cache) c))
                    done.thinned;
              same_max = done.same_max ∙ r.same_max;
              last = done.last;
              asked = omega (arith, done.asked, one);
              enough = done.enough;
            },
          )
    ]
  ]
    where
      inside :
          (c : ℕ) (it : CacheItem) (s : Server)
          → IsSafe nc nh nk s
          → get_elem? s.cache c ≡ some it
          → c < nk
      inside c it s w at = omega (arith, w.cache_sized, get_elem?-lt s.cache c it at)

  -- In a safe state `FreeMemoryForNewCacheRecord` ends whatever the clock tells, without an access outside an
  -- array; the state is safe again, and of each item all but the host and the subscribers is as before or as
  -- InitCacheItem makes it. It answers 0 if more than the needed bytes are free then, and else -1, when exactly
  -- the needed bytes are free or no item is left that has a time before the last one that the clock told: the
  -- clock is asked once, and once more for each item that has lost its time.
  pub free_memory-Evicted :
      (clock : ℕ → ℤ) (needed : ℕ) (s : Server)
      → IsSafe nc nh nk s
      → (r : ℤ) × (after : Server) × (free_memory clock needed s ≡ some (r, after))
        × IsSafe nc nh nk after
        × Thinned (cores s.cache) (cores after.cache)
        × (((r ≡ pos 0) × (needed < free_bytes after))
            ⊎ ((r ≡ minus_one)
                × ((needed ≡ free_bytes after)
                    ⊎ Every (Later (clock (emptied s after))) after.cache)))
  unfolding free_memory emptied
  free_memory-Evicted clock needed s v =
      let (after, run, e) =
        evict-Evicted clock (suc (length s.cache)) 0 needed s v
          (omega (arith, count_timed-le s.cache)) in
      elim (Bool-cases (ltb needed (free_bytes after))) [
        | inl f ↦ (pos 0, after, rw run (rw f refl), e.safe, e.thinned, inl (refl, ground arith))
        | inr f ↦ (
          minus_one,
          after,
          rw run (rw f refl),
          e.safe,
          e.thinned,
          inr (
            refl,
            elim e.enough [
              | inl room ↦ inl (ground arith)
              | inr left ↦
                  inr
                    (subst (λ k. Every (Later (clock k)) after.cache) (omega (arith, e.asked)) left)
            ],
          ),
        )
      ]
