-- ===== src/EventProxy/Safe/Ends.antt =====
-- What `DisconnectClient` and `DisconnectHost` of rybalko/31/server.c do to a safe state.
use posix_threads.Common.{
  ℕ, suc, ◌≡◌, refl, ap, ◌∙◌, inl, inr, true, false, some, List, [], ◌∷◌, arith, ltb, get_elem?,
  get_elem?-some, length, is_some, Bool-cases, ℤ, pos, negsuc, minus_one, ◌==ℤ◌,
}
use posix_threads.EventProxy.{Client, Host, CacheItem, Server, within}
use posix_threads.EventProxy.Subscriptions.{put_host, put_item, both_events, delete_sub, notify_sub}
use posix_threads.EventProxy.Endings.{
  forget_request, hang_up, leave_cache, without_fd, disconnect_client, leave_item, hang_up_host,
  disconnect_host, disconnect_all,
}
use posix_threads.EventProxy.Descriptors.{delete_from_poll}
use posix_threads.EventProxy.Safe.{Every, IsSafe, Goes, Goes-some, Goes-bind, Goes-after}
use posix_threads.EventProxy.Safe.Puts.{
  put_item-Goes, put_client-Goes, put_host-Goes, delete_poll-Goes,
}
use posix_threads.EventProxy.Safe.Subs.{delete_sub-Goes, notify_sub-Goes}

abbrev last_of : Client → Client
last_of c = without_fd (forget_request c)

same_cache_idx : (c : Client) → (last_of c).cache_idx ≡ c.cache_idx
same_cache_idx c = elim (Bool-cases (is_some c.request)) [
  | inl e ↦ rw e (elim (Bool-cases (c.fd ==ℤ minus_one)) [ inl f ↦ rw f refl | inr f ↦ rw f refl ])
  | inr e ↦ rw e (elim (Bool-cases (c.fd ==ℤ minus_one)) [ inl f ↦ rw f refl | inr f ↦ rw f refl ])
]

same_forgotten : (c : Client) → (forget_request c).cache_idx ≡ c.cache_idx
same_forgotten c = elim (Bool-cases (is_some c.request)) [ inl e ↦ rw e refl | inr e ↦ rw e refl ]

module _ (nc nh nk : ℕ) where
  hang_up-Goes :
      (p : ℕ) (c : Client) (s : Server)
      → IsSafe nc nh nk s
      → within nk c.cache_idx ≡ true
      → Goes nc nh nk s (hang_up p c s)
  unfolding hang_up
  hang_up-Goes p c s v h = elim (Bool-cases (c.fd ==ℤ minus_one)) [
    | inl e ↦ rw e (put_client-Goes nc nh nk s v p c h)
    | inr e ↦ rw e (
        Goes-bind nc nh nk s (delete_from_poll c.fd s) _ (delete_poll-Goes nc nh nk s v c.fd)
          (λ s' w. put_client-Goes nc nh nk s' w p (record c { fd = minus_one }) h))
  ]

  leave_cache-Goes :
      (p : ℕ) (c : Client) (s : Server)
      → IsSafe nc nh nk s
      → within nk c.cache_idx ≡ true
      → Goes nc nh nk s (leave_cache p c s)
  unfolding leave_cache
  leave_cache-Goes p c s v h = elim (Bool-cases (c.cache_idx ==ℤ minus_one)) [
    | inl e ↦ rw e (Goes-some nc nh nk s v)
    | inr e ↦ rw e (
        Goes-bind nc nh nk s (delete_sub (pos p) c.cache_idx s) _
          (delete_sub-Goes nc nh nk s v (pos p) c.cache_idx h)
          (λ s' w.
            put_client-Goes nc nh nk s' w p
              (record c { cache_idx = minus_one; last_written_idx = minus_one }) refl))
  ]

  pub disconnect_client-Goes :
      (p : ℤ) (s : Server)
      → IsSafe nc nh nk s
      → within nc p ≡ true
      → Goes nc nh nk s (disconnect_client p s)
  unfolding disconnect_client
  disconnect_client-Goes (negsuc p) s v h = Goes-some nc nh nk s v
  disconnect_client-Goes (pos p) s v h = elim (Bool-cases (ltb (length s.clients) p)) [
    | inl e ↦ rw e (Goes-some nc nh nk s v)
    | inr e ↦
        let (c, at) = get_elem?-some s.clients p (ground (arith, v.clients_sized)) in
        let inside = v.clients p c at in
        rw (e, at)
          (Goes-bind nc nh nk s (hang_up p (forget_request c) s) (leave_cache p (last_of c))
            (hang_up-Goes p (forget_request c) s v (ap (within nk) (same_forgotten c) ∙ inside))
            (λ s' w.
              leave_cache-Goes p (last_of c) s' w (ap (within nk) (same_cache_idx c) ∙ inside)))
  ]

  pub disconnect_all-Goes :
      (cs : List ℤ) (s : Server)
      → IsSafe nc nh nk s
      → Every (λ x. within nc x ≡ true) cs
      → Goes nc nh nk s (disconnect_all cs s)
  unfolding disconnect_all
  disconnect_all-Goes [] s v h = Goes-some nc nh nk s v
  disconnect_all-Goes (x ∷ xs) s v h = elim (Bool-cases (x ==ℤ minus_one)) [
    | inl e ↦ rw e (disconnect_all-Goes xs s v (λ j. h (suc j)))
    | inr e ↦ rw e (
        Goes-bind nc nh nk s (disconnect_client x s) (disconnect_all xs)
          (disconnect_client-Goes x s v (h 0 x refl))
          (λ s' w. disconnect_all-Goes xs s' w (λ j. h (suc j))))
  ]

  pub unhosted-Goes :
      (c : ℕ) (s : Server)
      → IsSafe nc nh nk s
      → (it : CacheItem) → get_elem? s.cache c ≡ some it
      → Goes nc nh nk s (some (put_item c (record it { host_idx = minus_one }) s))
  unhosted-Goes c s v it at =
      let w = v.items c it at in
      put_item-Goes nc nh nk s v c it (record it { host_idx = minus_one }) at
        (record {
          host = refl;
          null = w.null;
          idle = w.idle;
          fits = w.fits;
          counted = w.counted;
          subs = w.subs;
        })
        refl (λ h. refl)

  leave_item-Goes :
      (h : ℕ) (d : Host) (z : ℤ) (s : Server)
      → IsSafe nc nh nk s
      → within nk d.cache_idx ≡ true
      → within nk z ≡ true
      → Goes nc nh nk s (leave_item h d z s)
  unfolding leave_item
  leave_item-Goes h d (negsuc n) s v inside room = put_host-Goes nc nh nk s v h d inside
  leave_item-Goes h d (pos c) s v inside room =
      let (it, at) = get_elem?-some s.cache c (ground (arith, v.cache_sized)) in
      let s1 = put_host h d s in
      let s2 = put_item c (record it { host_idx = minus_one }) s1 in
      rw at (
        Goes-after nc nh nk s s1 _ (put_host-Goes nc nh nk s v h d inside) (λ v1.
          Goes-after nc nh nk s1 s2 _ (unhosted-Goes c s1 v1 it at) (λ v2.
            Goes-bind nc nh nk s2 (notify_sub c both_events s2) _
              (notify_sub-Goes nc nh nk c both_events s2 v2 room)
              (λ s' w. put_host-Goes nc nh nk s' w h (record d { cache_idx = minus_one }) refl))))

  hang_up_host-Goes :
      (h : ℕ) (s : Server)
      → IsSafe nc nh nk s
      → within nh (pos h) ≡ true
      → Goes nc nh nk s (hang_up_host h s)
  unfolding hang_up_host
  hang_up_host-Goes h s v inside =
      let (d, at) = get_elem?-some s.hosts h (ground (arith, v.hosts_sized)) in
      rw at (elim (Bool-cases (d.fd ==ℤ minus_one)) [
        | inl e ↦ rw e (Goes-some nc nh nk s v)
        | inr e ↦ rw e (
            Goes-bind nc nh nk s (delete_from_poll d.fd s) _ (delete_poll-Goes nc nh nk s v d.fd)
              (λ s' w.
                put_host-Goes nc nh nk s' w h (record d { fd = minus_one }) (v.hosts h d at)))
      ])

  pub disconnect_host-Goes :
      (h : ℤ) (s : Server)
      → IsSafe nc nh nk s
      → within nh h ≡ true
      → Goes nc nh nk s (disconnect_host h s)
  unfolding disconnect_host
  disconnect_host-Goes (negsuc h) s v inside = Goes-some nc nh nk s v
  disconnect_host-Goes (pos h) s v inside = elim (Bool-cases (ltb (length s.hosts) h)) [
    | inl e ↦ rw e (Goes-some nc nh nk s v)
    | inr e ↦
        let (d, at) = get_elem?-some s.hosts h (ground (arith, v.hosts_sized)) in
        let d' = record d { last_written_idx = minus_one; header_parsed = false } in
        rw (e, at)
          (Goes-bind nc nh nk s (leave_item h d' d.cache_idx s) (hang_up_host h)
            (leave_item-Goes h d' d.cache_idx s v (v.hosts h d at) (v.hosts h d at))
            (λ s' w. hang_up_host-Goes h s' w inside))
  ]
