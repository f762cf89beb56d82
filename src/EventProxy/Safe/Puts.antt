-- ===== src/EventProxy/Safe/Puts.antt =====
-- Writes of one cell of rybalko/31/server.c, and of the polled descriptors, in a safe state.
use posix_threads.Common.{
  ℕ, ◌≡◌, refl, ◌∙◌, inl, inr, true, some, List, arith, ◌==◌, get_elem?, get_elem?-modify, ==_iff,
  sym, subst, length-modify, Bool-cases, ℤ, minus_one,
}
use mathlib.Core.Option.{some-injective}
use posix_threads.PoolProxy.PollTable.{PollFd}
use posix_threads.EventProxy.{Client, Host, CacheItem, Server, within}
use posix_threads.EventProxy.Descriptors.{delete_from_poll, set_event_for_fd}
use posix_threads.EventProxy.Descriptors.Room.{HasRoom, set_event-HasRoom, delete-HasRoom}
use posix_threads.EventProxy.Subscriptions.{put_client, put_host, put_item}
use posix_threads.EventProxy.Safe.{
  Every-modify, IsSound, IsSafe, Goes, Hostless, put_item-Safe, core, cores-modify,
}

module _ (nc nh nk : ℕ) (s : Server) (v : IsSafe nc nh nk s) where
  put_item-Hostless :
      (c : ℕ) (it it' : CacheItem)
      → get_elem? s.cache c ≡ some it
      → (it.host_idx ≡ minus_one → it'.host_idx ≡ minus_one)
      → (k : ℕ) → Hostless k s
      → Hostless k (put_item c it' s)
  put_item-Hostless c it it' at stays k h jt e = elim (Bool-cases (c == k)) [
    | inl same ↦
        let k≡ : c ≡ k = ground (arith, ==_iff c k) in
        subst (λ (x : CacheItem). x.host_idx ≡ minus_one)
          (some-injective _ _
            (sym (rw same at (get_elem?-modify s.cache c k (λ _. it') it at)) ∙ e))
          (stays (h it (subst (λ n. get_elem? s.cache n ≡ some it) k≡ at)))
    | inr apart ↦ h jt (sym (rw apart at (get_elem?-modify s.cache c k (λ _. it') it at)) ∙ e)
  ]

  pub put_item-Goes :
      (c : ℕ) (it it' : CacheItem)
      → get_elem? s.cache c ≡ some it
      → IsSound nc nh it'
      → core it' ≡ core it
      → (it.host_idx ≡ minus_one → it'.host_idx ≡ minus_one)
      → Goes nc nh nk s (some (put_item c it' s))
  put_item-Goes c it it' at sound same hostless = record {
    after = put_item c it' s;
    returns = refl;
    safe = put_item-Safe nc nh nk s c it' v sound;
    same_cores = cores-modify s.cache c it it' at same;
    same_max = refl;
    same_current = refl;
    hostless = λ k h. put_item-Hostless c it it' at hostless k h;
  }

  pub put_client-Goes :
      (p : ℕ) (c : Client)
      → within nk c.cache_idx ≡ true
      → Goes nc nh nk s (some (put_client p c s))
  put_client-Goes p c inside = record {
    after = put_client p c s;
    returns = refl;
    safe = record {
      clients_sized = length-modify s.clients p (λ _. c) ∙ v.clients_sized;
      hosts_sized = v.hosts_sized;
      cache_sized = v.cache_sized;
      clients =
          Every-modify (λ (c : Client). within nk c.cache_idx ≡ true) s.clients p (λ _. c) v.clients
            (λ x e. inside);
      hosts = v.hosts;
      items = v.items;
      polls = v.polls;
    };
    same_cores = refl;
    same_max = refl;
    same_current = refl;
    hostless = λ k h. h;
  }

  pub put_host-Goes :
      (h : ℕ) (d : Host) → within nk d.cache_idx ≡ true → Goes nc nh nk s (some (put_host h d s))
  put_host-Goes h d inside = record {
    after = put_host h d s;
    returns = refl;
    safe = record {
      clients_sized = v.clients_sized;
      hosts_sized = length-modify s.hosts h (λ _. d) ∙ v.hosts_sized;
      cache_sized = v.cache_sized;
      clients = v.clients;
      hosts =
          Every-modify (λ (d : Host). within nk d.cache_idx ≡ true) s.hosts h (λ _. d) v.hosts
            (λ x e. inside);
      items = v.items;
      polls = v.polls;
    };
    same_cores = refl;
    same_max = refl;
    same_current = refl;
    hostless = λ k h. h;
  }

  -- The polled descriptors are written inside their array.
  fds-Goes :
      (fds : List PollFd) (current : ℕ) (closed : List ℤ)
      → HasRoom fds current s.server_amount
      → Goes nc nh nk s (some (record s { server_fds = fds; current = current; closed = closed }))
  fds-Goes fds current closed room = record {
    after = record s { server_fds = fds; current = current; closed = closed };
    returns = refl;
    safe = record {
      clients_sized = v.clients_sized;
      hosts_sized = v.hosts_sized;
      cache_sized = v.cache_sized;
      clients = v.clients;
      hosts = v.hosts;
      items = v.items;
      polls = room;
    };
    same_cores = refl;
    same_max = refl;
    same_current = refl;
    hostless = λ k h. h;
  }

  pub set_event-Goes : (fd : ℤ) (events : ℕ) → Goes nc nh nk s (set_event_for_fd fd events s)
  set_event-Goes fd events =
      let (fds, e, room) = set_event-HasRoom fd events s v.polls in
      rw e (fds-Goes fds s.current s.closed room)

  pub delete_poll-Goes : (fd : ℤ) → Goes nc nh nk s (delete_from_poll fd s)
  delete_poll-Goes fd =
      let (fds, current, closed, e, room) = delete-HasRoom fd s v.polls in
      rw e (fds-Goes fds current closed room)
