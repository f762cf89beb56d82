-- ===== src/EventProxy/Safe/Clean.antt =====
-- What `CleanCacheItem` of rybalko/31/server.c leaves: the item as `InitCacheItem` makes it.
use posix_threads.Common.{
  ℕ, ◌≡◌, ◌<◌, ap, ◌∙◌, sym, subst, inl, inr, true, false, some, arith, ltb, get_elem?,
  get_elem?-some, get_elem?-modify_self, modify_twice, length, modify, Bool-cases, pos, minus_one,
  ◌==ℤ◌, ==ℤ_iff,
}
use mathlib.Core.Option.{some-injective}
use posix_threads.EventProxy.{CacheItem, Server, within, empty_item}
use posix_threads.EventProxy.Subscriptions.{put_item}
use posix_threads.EventProxy.Endings.{disconnect_host, reset_item, clean_host, clean_cache_item}
use posix_threads.EventProxy.Safe.{
  IsSound, IsSafe, Goes, Goes-some, Goes-bind, cores, cores-modify_lem, Hostless, put_item-Safe,
}
use posix_threads.EventProxy.Safe.Ends.{disconnect_host-Goes, unhosted-Goes}
use posix_threads.EventProxy.Safe.Emptied.{Cleaned, clean_subs-Cleaned, same_core}

put_unhosted :
    (c : ℕ) (s : Server) (it : CacheItem)
    → get_elem? s.cache c ≡ some it
    → Hostless c (put_item c (record it { host_idx = minus_one }) s)
put_unhosted c s it at jt f =
    ap (λ (x : CacheItem). x.host_idx)
      (some-injective _ _ (sym f ∙ get_elem?-modify_self s.cache c _ it at))

module _ (nc nh nk : ℕ) where
  reset-IsSound : (it : CacheItem) → IsSound nc nh it → IsSound nc nh (reset_item it)
  reset-IsSound it v = record {
    host = v.host;
    null = v.null;
    idle = v.idle;
    fits = v.fits;
    counted = v.counted;
    subs = v.subs;
  }

  reset-Safe :
      (c : ℕ) (s : Server) (it : CacheItem)
      → IsSafe nc nh nk s
      → get_elem? s.cache c ≡ some it
      → IsSafe nc nh nk (put_item c (reset_item it) s)
  reset-Safe c s it v at =
      put_item-Safe nc nh nk s c (reset_item it) v (reset-IsSound it (v.items c it at))

  clean_host-Goes :
      (c : ℕ) (s : Server)
      → IsSafe nc nh nk s
      → within nk (pos c) ≡ true
      → Goes nc nh nk s (clean_host c s)
  unfolding clean_host
  clean_host-Goes c s v inside =
      let (it, at) = get_elem?-some s.cache c (ground (arith, v.cache_sized)) in
      rw at (elim (Bool-cases (it.host_idx ==ℤ minus_one)) [
        | inl e ↦ rw e (Goes-some nc nh nk s v)
        | inr e ↦ rw e (
            Goes-bind nc nh nk s (disconnect_host it.host_idx s) _
              (disconnect_host-Goes nc nh nk it.host_idx s v (v.items c it at).host)
              (λ s' w.
                let (it', at') = get_elem?-some s'.cache c (ground (arith, w.cache_sized)) in
                rw at' (unhosted-Goes nc nh nk c s' w it' at')))
      ])

  clean_host-Hostless :
      (c : ℕ) (s s' : Server)
      → IsSafe nc nh nk s
      → within nk (pos c) ≡ true
      → clean_host c s ≡ some s'
      → Hostless c s'
  unfolding clean_host
  clean_host-Hostless c s s' v inside run =
      let (it, at) = get_elem?-some s.cache c (ground (arith, v.cache_sized)) in
      elim (Bool-cases (it.host_idx ==ℤ minus_one)) [
        | inl e ↦
            let same : s ≡ s' = some-injective _ _ (rw (at, e) at run) in
            subst (Hostless c) same (λ jt f.
              ap (λ y. y.host_idx) (some-injective _ _ (sym f ∙ at))
              ∙ (==ℤ_iff it.host_idx minus_one).0 e)
        | inr e ↦
            let g = disconnect_host-Goes nc nh nk it.host_idx s v (v.items c it at).host in
            let (jt, bt) = get_elem?-some g.after.cache c (ground (arith, g.safe.cache_sized)) in
            let same : put_item c (record jt { host_idx = minus_one }) g.after ≡ s' =
              some-injective _ _ (rw (at, e, g.returns, bt) at run) in
            subst (Hostless c) same (put_unhosted c g.after jt bt)
      ]

  -- `CleanCacheItem` of an item of the cache, in a safe state, returns; the state is safe again, the item is
  -- as `InitCacheItem` makes it, and of every other item only the host and the subscribers change.
  pub clean_cache_item-Cleaned :
      (c : ℕ) (s : Server)
      → IsSafe nc nh nk s
      → c < nk
      → Cleaned nc nh nk c s (clean_cache_item (pos c) s)
  unfolding clean_cache_item
  clean_cache_item-Cleaned c s v h =
      let inside : within nk (pos c) ≡ true = ground arith in
      let (it, at) = get_elem?-some s.cache c (omega (arith, v.cache_sized)) in
      let guard : ltb (length s.cache) c ≡ false = ground (arith, v.cache_sized) in
      let s0 = put_item c (reset_item it) s in
      let at0 = get_elem?-modify_self s.cache c (λ _. reset_item it) it at in
      let g = clean_host-Goes c s0 (reset-Safe c s it v at) inside in
      let (jt, bt) = get_elem?-some g.after.cache c (ground (arith, g.safe.cache_sized)) in
      let r =
        clean_subs-Cleaned nc nh nk c g.after jt it.subs_size g.safe inside bt
          (same_core g.after.cache s0.cache c jt _ g.same_cores bt at0)
          (clean_host-Hostless c s0 g.after (reset-Safe c s it v at) inside g.returns) in
      rw (guard, at)
        (rw g.returns (record {
          after = r.after;
          returns = r.returns;
          safe = r.safe;
          item = r.item;
          there = r.there;
          emptied = r.emptied;
          others =
              r.others
              ∙ ap (λ xs. modify xs c (λ _. empty_item))
                  (g.same_cores ∙ cores-modify_lem s.cache c _)
              ∙ modify_twice (cores s.cache) c _ _;
          same_max = r.same_max ∙ g.same_max;
          same_current = r.same_current ∙ g.same_current;
        }))
