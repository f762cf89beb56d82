-- ===== src/EventProxy/Safe/Serves.antt =====
-- The calls that `ReadFromClient` of rybalko/31/server.c makes for a client, in a safe state.
use posix_threads.Common.{
  ℕ, ◌≡◌, ◌<◌, inl, inr, true, false, List, arith, ltb, ◌==◌, get_elem?, get_elem?-some, length,
  ◌>>=◌, Bool-cases, ℤ, pos, minus_one, is_neg, ◌==ℤ◌, ◌||◌,
}
use posix_threads.PoolProxy.PollTable.{PollFd}
use posix_threads.EventProxy.{CacheItem, Server}
use posix_threads.EventProxy.Descriptors.{add_fd_to_server_fds}
use posix_threads.EventProxy.Descriptors.Room.{HasRoom, add_fd-Polls}
use posix_threads.EventProxy.Subscriptions.{put_host, put_item, both_events, add_sub}
use posix_threads.EventProxy.Endings.{disconnect_client}
use posix_threads.EventProxy.Requests.{ClientIo, attach, serve_cached}
use posix_threads.EventProxy.Safe.{IsSound, IsSafe, Goes-IsSafe, put_item-Safe}
use posix_threads.EventProxy.Safe.Adds.{add_sub-Subscribed}
use posix_threads.EventProxy.Safe.Puts.{put_client-Goes, put_host-Goes, set_event-Goes}
use posix_threads.EventProxy.Safe.Ends.{disconnect_client-Goes}
use posix_threads.EventProxy.Safe.Handlers.{Returns, Returns-some, Returns-bind, Goes-Returns}

-- Memory is at hand for the arrays, and `ConnectToHost` answers -1 or a descriptor.
pub record IsServing (io : ClientIo) : Type 0 where
  pub cache : io.cache_ok ≡ true
  pub hosts : io.hosts_ok ≡ true
  pub subs : io.subs_ok ≡ true
  pub fds : io.fds_ok ≡ true
  pub connects :
      (host : List ℕ) (port : ℤ)
      → (io.connect host port ==ℤ minus_one) ≡ false
      → is_neg (io.connect host port) ≡ false

pub fds-IsSafe :
    (nc nh nk : ℕ) (s : Server) (fds : List PollFd) (current amount : ℕ)
    → IsSafe nc nh nk s
    → HasRoom fds current amount
    → IsSafe nc nh nk (record s { server_fds = fds; current = current; server_amount = amount })
fds-IsSafe nc nh nk s fds current amount v room = record {
  clients_sized = v.clients_sized;
  hosts_sized = v.hosts_sized;
  cache_sized = v.cache_sized;
  clients = v.clients;
  hosts = v.hosts;
  items = v.items;
  polls = room;
}

pub hosted-IsSound :
    (nc nh h : ℕ) (it : CacheItem)
    → IsSound nc nh it
    → h < nh
    → IsSound nc nh (record it { host_idx = pos h })
hosted-IsSound nc nh h it q known = record {
  host = ground (arith, known);
  null = q.null;
  idle = q.idle;
  fits = q.fits;
  counted = q.counted;
  subs = q.subs;
}

module _ (nc nh nk p : ℕ) (lt : p < nc) where
  pub gone-Returns :
      (s : Server) → IsSafe nc nh nk s → Returns nc nh nk (disconnect_client (pos p) s)
  gone-Returns s v =
      Goes-Returns nc nh nk s _ (disconnect_client-Goes nc nh nk (pos p) s v (ground arith))

  attach-Returns :
      (c : ℕ) (s : Server) → IsSafe nc nh nk s → c < nk → Returns nc nh nk (attach p c s)
  unfolding attach
  attach-Returns c s v below =
      let (client, at) = get_elem?-some s.clients p (omega (arith, v.clients_sized)) in
      rw at (
        Goes-Returns nc nh nk s _ (
          put_client-Goes nc nh nk s v p
            (record client { cache_idx = pos c; last_written_idx = pos 0 }) (ground arith)))

  -- Whether the item is valid or not.
  add_sub-Returns :
      (c : ℕ) (s : Server)
      → IsSafe nc nh nk s
      → c < nk
      → Returns nc nh nk (add_sub true (pos p) (pos c) s)
  unfolding add_sub
  add_sub-Returns c s v below =
      let (it, at) = get_elem?-some s.cache c (omega (arith, v.cache_sized)) in
      elim (Bool-cases it.valid) [
        | inl e ↦
            let (jt, r, w, q) = add_sub-Subscribed nc nh nk p c s it v lt at e in
            rw r (Returns-some nc nh nk (put_item c jt s) w)
        | inr e ↦
            let guard : (ltb (length s.cache) c || ltb (length s.clients) p) ≡ false =
              ground (arith, v.clients_sized, v.cache_sized) in
            simp (guard, at, e) (Returns-some nc nh nk s v)
      ]

  pub add_fd-Returns :
      (fd : ℤ) (events : ℕ) (s : Server)
      → IsSafe nc nh nk s
      → Returns nc nh nk (add_fd_to_server_fds true fd events s)
  add_fd-Returns fd events s v =
      let (fds, current, amount, e, room) = add_fd-Polls fd events s v.polls in
      rw e (Returns-some nc nh nk _ (fds-IsSafe nc nh nk s fds current amount v room))

  -- The answer is in the cache.
  pub serve_cached-Returns :
      (io : ClientIo) (c : ℕ) (s : Server)
      → IsServing io
      → IsSafe nc nh nk s
      → c < nk
      → Returns nc nh nk (serve_cached io p c s)
  unfolding serve_cached
  serve_cached-Returns io c s ready v below = rw ready.subs (
      Returns-bind nc nh nk (add_sub true (pos p) (pos c) s) _ (add_sub-Returns c s v below)
        (λ s1 v1. Returns-bind nc nh nk (attach p c s1) _ (attach-Returns c s1 v1 below) (λ s2 v2.
          let (client, at) = get_elem?-some s2.clients p (omega (arith, v2.clients_sized)) in
          let (it, bt) = get_elem?-some s2.cache c (omega (arith, v2.cache_sized)) in
          rw at (
            rw bt (elim (Bool-cases (it.response_idx == 0)) [
              | inl e ↦ rw e (Returns-some nc nh nk s2 v2)
              | inr e ↦
                  rw e (
                    Goes-Returns nc nh nk s2 _
                      (set_event-Goes nc nh nk s2 v2 client.fd both_events))
            ])))))

  -- Item `c` is given host `h`, and client `p` waits for it.
  pub linked-Returns :
      (io : ClientIo) (c h : ℕ) (fd : ℤ) (s : Server)
      → IsServing io
      → IsSafe nc nh nk s
      → c < nk
      → h < nh
      → Returns nc nh nk (
          get_elem? s.hosts h >>= λ d. get_elem? s.cache c >>= λ it.
          add_sub io.subs_ok (pos p) (pos c) (
            put_item c
              (record it { host_idx = pos h })
              (put_host h (record d { cache_idx = pos c; last_written_idx = pos 0 }) s))
          >>= λ s3. attach p c s3 >>= λ s4. add_fd_to_server_fds io.fds_ok fd both_events s4)
  linked-Returns io c h fd s ready v below known =
      let (d, dt) = get_elem?-some s.hosts h (omega (arith, v.hosts_sized)) in
      let (it, at) = get_elem?-some s.cache c (omega (arith, v.cache_sized)) in
      let d' = record d { cache_idx = pos c; last_written_idx = pos 0 } in
      let w =
        put_item-Safe nc nh nk (put_host h d' s) c (record it { host_idx = pos h })
          (Goes-IsSafe nc nh nk s (put_host h d' s)
            (put_host-Goes nc nh nk s v h d' (ground arith)))
          (hosted-IsSound nc nh h it (v.items c it at) known) in
      rw (ready.subs, ready.fds)
        (rw dt (
          rw at (
            Returns-bind nc nh nk _ _ (add_sub-Returns c _ w below) (λ s3 v3.
              Returns-bind nc nh nk _ _ (attach-Returns c s3 v3 below)
                (λ s4 v4. add_fd-Returns fd both_events s4 v4)))))
