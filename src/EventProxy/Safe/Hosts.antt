-- ===== src/EventProxy/Safe/Hosts.antt =====
-- A cell taken for a host in a safe state of rybalko/31/server.c.
use posix_threads.Common.{
  ℕ, ◌+◌, ◌≡◌, ◌<◌, refl, ◌∙◌, inl, inr, true, false, Option, some, List, ◌++◌, arith, get_elem?,
  get_elem?-some, get_elem?-modify_self, length, length-modify, modify, replicate, Option-cases, ℤ,
  pos, minus_one, is_neg, find_below, find_below-lt,
}
use posix_threads.EventProxy.{Host, CacheItem, Server, within, empty_host}
use posix_threads.EventProxy.Tables.{host_has, set_host_fd, set_for_free_host_id, realloc_hosts}
use posix_threads.EventProxy.Safe.{Every-modify, IsSafe}
use posix_threads.EventProxy.Safe.Grows.{hosts-IsSafe}

module _ (nc nk : ℕ) where
  pub record Hosted (fd : ℤ) (cache : List CacheItem) (o : Option (ℤ × Server)) : Type 0 where
    pub size : ℕ
    pub index : ℕ
    pub after : Server
    pub returns : o ≡ some (pos index, after)
    pub below : index < size
    pub safe : IsSafe nc size nk after
    pub same_cache : after.cache ≡ cache
    pub host : Host
    pub at : get_elem? after.hosts index ≡ some host
    pub has_fd : host.fd ≡ fd

  set_host-IsSafe :
      (nh i : ℕ) (fd : ℤ) (s : Server)
      → IsSafe nc nh nk s
      → IsSafe nc nh nk (record s { hosts = modify s.hosts i (set_host_fd fd) })
  set_host-IsSafe nh i fd s v = record {
    clients_sized = v.clients_sized;
    hosts_sized = length-modify s.hosts i (set_host_fd fd) ∙ v.hosts_sized;
    cache_sized = v.cache_sized;
    clients = v.clients;
    hosts =
        Every-modify (λ (h : Host). within nk h.cache_idx ≡ true) s.hosts i (set_host_fd fd) v.hosts
          (λ x e. v.hosts i x e);
    items = v.items;
    polls = v.polls;
  }

  pub set_for_free_host_id-Hosted :
      (nh : ℕ) (fd : ℤ) (s : Server)
      → IsSafe nc nh nk s
      → 0 < nh
      → is_neg fd ≡ false
      → Hosted fd s.cache (set_for_free_host_id true fd s)
  unfolding set_for_free_host_id realloc_hosts
  set_for_free_host_id-Hosted nh fd s v some_hosts opened =
      elim (Option-cases (find_below (host_has minus_one) (length s.hosts) s.hosts)) [
        | inl e ↦
            let m = length s.hosts in
            let grown = s.hosts ++ replicate m empty_host in
            let w = hosts-IsSafe nc nh nk m s v in
            let (x, at) = get_elem?-some grown m (omega (arith, v.hosts_sized, w.hosts_sized)) in
            rw (opened, e, set_for_free_host_id)
              (record {
                size = nh + m;
                index = m;
                after = record s { hosts = modify grown m (set_host_fd fd) };
                returns = refl;
                below = omega (arith, v.hosts_sized);
                safe = set_host-IsSafe (nh + m) m fd (record s { hosts = grown }) w;
                same_cache = refl;
                host = set_host_fd fd x;
                at = get_elem?-modify_self grown m (set_host_fd fd) x at;
                has_fd = refl;
              })
        | inr (i, e) ↦
            let lt : i < length s.hosts =
              find_below-lt (host_has minus_one) (length s.hosts) s.hosts i e in
            let (x, at) = get_elem?-some s.hosts i lt in
            rw (opened, e, set_for_free_host_id)
              (record {
                size = nh;
                index = i;
                after = record s { hosts = modify s.hosts i (set_host_fd fd) };
                returns = refl;
                below = omega (arith, v.hosts_sized, lt);
                safe = set_host-IsSafe nh i fd s v;
                same_cache = refl;
                host = set_host_fd fd x;
                at = get_elem?-modify_self s.hosts i (set_host_fd fd) x at;
                has_fd = refl;
              })
      ]
