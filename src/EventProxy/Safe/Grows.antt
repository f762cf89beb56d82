-- ===== src/EventProxy/Safe/Grows.antt =====
-- A state of rybalko/31/server.c stays safe when an array is made larger.
use posix_threads.Common.{
  ℕ, zero, suc, ◌+◌, ◌≡◌, refl, subst, true, List, [], ◌∷◌, ◌++◌, arith, length, length-append,
  length-replicate, replicate, ℤ, pos, negsuc,
}
use posix_threads.EventProxy.{
  Client, Host, CacheItem, Server, within, empty_client, empty_host, empty_item,
}
use posix_threads.EventProxy.Safe.{Every, Every-cons, IsSound, IsSafe}

nil-Every {ℓ κ} : {A : Type ℓ} (P : A → Type κ) → Every P []
nil-Every P i x e = absurd (ground arith)

Every-append {ℓ κ} :
    {A : Type ℓ} (P : A → Type κ) (xs ys : List A) → Every P xs → Every P ys → Every P (xs ++ ys)
Every-append P [] ys h k = k
Every-append P (y ∷ xs) ys h k =
    Every-cons P y (xs ++ ys) (h 0 y refl) (Every-append P xs ys (λ j. h (suc j)) k)

Every-replicate {ℓ κ} :
    {A : Type ℓ} (P : A → Type κ) (n : ℕ) (a : A) → P a → Every P (replicate n a)
Every-replicate P zero a p = nil-Every P
Every-replicate P (suc n) a p = Every-cons P a (replicate n a) p (Every-replicate P n a p)

within-add : (n m : ℕ) (z : ℤ) → within n z ≡ true → within (n + m) z ≡ true
within-add n m (pos i) h = ground arith
within-add n m (negsuc k) h = h

IsSound-add : (nc a nh b : ℕ) (it : CacheItem) → IsSound nc nh it → IsSound (nc + a) (nh + b) it
IsSound-add nc a nh b it v = record {
  host = within-add nh b it.host_idx v.host;
  null = v.null;
  idle = v.idle;
  fits = v.fits;
  counted = v.counted;
  subs = λ cs e i x f. within-add nc a x (v.subs cs e i x f);
}

empty_item-IsSound : (nc nh : ℕ) → IsSound nc nh empty_item
empty_item-IsSound nc nh = record {
  host = refl;
  null = λ h. refl;
  idle = λ h. refl;
  fits = λ cs h. absurd (ground arith);
  counted = λ cs h. absurd (ground arith);
  subs = λ cs h. absurd (ground arith);
}

length-grown {ℓ} :
    {A : Type ℓ} (xs : List A) (m n : ℕ) (a : A)
    → length xs ≡ n
    → length (xs ++ replicate m a) ≡ n + m
length-grown xs m n a e = omega (arith, length-append xs (replicate m a), length-replicate m a)

module _ (nc nh nk m : ℕ) (s : Server) (v : IsSafe nc nh nk s) where
  pub cache-IsSafe : IsSafe nc nh (nk + m) (record s { cache = s.cache ++ replicate m empty_item })
  cache-IsSafe = record {
    clients_sized = v.clients_sized;
    hosts_sized = v.hosts_sized;
    cache_sized = length-grown s.cache m nk empty_item v.cache_sized;
    clients = λ i x e. within-add nk m x.cache_idx (v.clients i x e);
    hosts = λ i x e. within-add nk m x.cache_idx (v.hosts i x e);
    items =
        Every-append (IsSound nc nh) s.cache (replicate m empty_item) v.items
          (Every-replicate (IsSound nc nh) m empty_item (empty_item-IsSound nc nh));
    polls = v.polls;
  }

  pub hosts-IsSafe : IsSafe nc (nh + m) nk (record s { hosts = s.hosts ++ replicate m empty_host })
  hosts-IsSafe = record {
    clients_sized = v.clients_sized;
    hosts_sized = length-grown s.hosts m nh empty_host v.hosts_sized;
    cache_sized = v.cache_sized;
    clients = v.clients;
    hosts =
        Every-append (λ (h : Host). within nk h.cache_idx ≡ true) s.hosts (replicate m empty_host)
          v.hosts (Every-replicate (λ (h : Host). within nk h.cache_idx ≡ true) m empty_host refl);
    items = λ i x e.
        subst (λ n. IsSound n (nh + m) x) (same nc) (IsSound-add nc 0 nh m x (v.items i x e));
    polls = v.polls;
  }
    where
      same : (n : ℕ) → n + 0 ≡ n
      same n = omega arith

  pub clients-IsSafe :
      IsSafe (nc + m) nh nk (record s { clients = s.clients ++ replicate m empty_client })
  clients-IsSafe = record {
    clients_sized = length-grown s.clients m nc empty_client v.clients_sized;
    hosts_sized = v.hosts_sized;
    cache_sized = v.cache_sized;
    clients =
        Every-append (λ (c : Client). within nk c.cache_idx ≡ true) s.clients
          (replicate m empty_client) v.clients
          (Every-replicate (λ (c : Client). within nk c.cache_idx ≡ true) m empty_client refl);
    hosts = v.hosts;
    items = λ i x e.
        subst (λ n. IsSound (nc + m) n x) (same nh) (IsSound-add nc m nh 0 x (v.items i x e));
    polls = v.polls;
  }
    where
      same : (n : ℕ) → n + 0 ≡ n
      same n = omega arith
