-- ===== src/UrlCache/Slots.antt =====
-- Who has a slot among the subscribers of a response.
use posix_threads.Common.{
  ℕ, zero, suc, ◌≡◌, refl, ap, ◌∙◌, Bool, false, ◌||◌, Option, none, some, List, [], ◌∷◌, arith,
  ◌==◌, get_elem?, get_elem?-modify_self, pos, ◌+ℤ◌,
}
use posix_threads.UrlCache.{
  CacheNode, UrlCache, SocketClient, Clients, fill_slots, take_slots, put_client, put_response,
  subscribe,
}

abbrev pub holds : ℕ → Option ℕ → Bool
holds q none = false
holds q (some p) = p == q

abbrev pub has_slot : ℕ → List (Option ℕ) → Bool
has_slot q [] = false
has_slot q (s ∷ ss) = holds q s || has_slot q ss

-- No slot is null below `n`.
fill_twice :
    (p q n : ℕ) (ss : List (Option ℕ)) → fill_slots q n (fill_slots p n ss) ≡ fill_slots p n ss
unfolding fill_slots
fill_twice p q zero ss = refl
fill_twice p q (suc n) [] = refl
fill_twice p q (suc n) (none ∷ ss) = ap (◌∷◌ (some p)) (fill_twice p q n ss)
fill_twice p q (suc n) (some r ∷ ss) = ap (◌∷◌ (some r)) (fill_twice p q n ss)

fill_other :
    (p q n : ℕ) (ss : List (Option ℕ))
    → (p == q) ≡ false
    → has_slot q (fill_slots p n ss) ≡ has_slot q ss
unfolding fill_slots
fill_other p q zero ss h = refl
fill_other p q (suc n) [] h = refl
fill_other p q (suc n) (none ∷ ss) h = rw h (fill_other p q n ss h)
fill_other p q (suc n) (some r ∷ ss) h = ap (λ b. (r == q) || b) (fill_other p q n ss h)

subscribe_lem :
    (cs : Clients) (p : ℕ) (cache : UrlCache) (i : ℕ) (n : CacheNode) (c : SocketClient)
    → get_elem? cache.nodes i ≡ some n
    → cs p ≡ some c
    → subscribe cs p cache i
      ≡ some (
        put_client cs p (record c { cache_node = pos i; response = some i }),
        put_response cache i (take_slots p n.response),
      )
unfolding subscribe
subscribe_lem cs p cache i n c at client = rw (at, subscribe) (rw client refl)

-- Two clients subscribe to one response, one after the other: both name the response, which counts two
-- subscribers more, but the second has a slot only if it had one before, since the first has
-- taken all that were null.
pub subscribe-takes_all :
    (cs : Clients) (p q : ℕ) (cache : UrlCache) (i : ℕ) (n : CacheNode) (c d : SocketClient)
    → get_elem? cache.nodes i ≡ some n
    → cs p ≡ some c
    → cs q ≡ some d
    → (p == q) ≡ false
    → (cs1 : Clients) × (cache1 : UrlCache) × (subscribe cs p cache i ≡ some (cs1, cache1))
      × (cs2 : Clients) × (cache2 : UrlCache) × (subscribe cs1 q cache1 i ≡ some (cs2, cache2))
      × (cs2 q ≡ some (record d { cache_node = pos i; response = some i }))
      × (m : CacheNode) × (get_elem? cache2.nodes i ≡ some m)
      × (m.response.subscribers_count ≡ n.response.subscribers_count +ℤ pos 1 +ℤ pos 1)
      × (has_slot q m.response.subscribers ≡ has_slot q n.response.subscribers)
unfolding take_slots
subscribe-takes_all cs p q cache i n c d at first second apart =
    let n1 : CacheNode = record n { response = take_slots p n.response } in
    let n2 : CacheNode = record n1 { response = take_slots q n1.response } in
    let cs1 = put_client cs p (record c { cache_node = pos i; response = some i }) in
    let cache1 = put_response cache i (take_slots p n.response) in
    let at1 : get_elem? cache1.nodes i ≡ some n1 = get_elem?-modify_self cache.nodes i _ n at in
    (
      cs1,
      cache1,
      subscribe_lem cs p cache i n c at first,
      put_client cs1 q (record d { cache_node = pos i; response = some i }),
      put_response cache1 i (take_slots q n1.response),
      subscribe_lem cs1 q cache1 i n1 d at1 (rw apart second),
      ground arith,
      n2,
      get_elem?-modify_self cache1.nodes i _ n1 at1,
      refl,
      ap (has_slot q) (fill_twice p q n.response.subscribers_max_size n.response.subscribers)
          ∙ fill_other p q n.response.subscribers_max_size n.response.subscribers apart,
    )
