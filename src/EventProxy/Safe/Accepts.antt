-- ===== src/EventProxy/Safe/Accepts.antt =====
-- A new connection in a safe state of rybalko/31/server.c: `AcceptClient` with the cell of the client and
-- the polled descriptor.
use posix_threads.Common.{
  ℕ, ◌+◌, ◌*◌, ◌≤◌, ◌<◌, ◌≡◌, refl, ap, ◌∙◌, sym, subst, inl, inr, true, false, Option, none, some,
  List, ◌++◌, arith, if◌then◌else◌, length, length-modify, modify, replicate, Option-cases, ℤ, pos,
  minus_one, is_neg, ◌==ℤ◌, ==ℤ_iff, find_below,
}
use mathlib.Core.Option.{some-injective}
use posix_threads.EventProxy.{Client, Server, within, empty_client}
use posix_threads.EventProxy.Tables.{
  client_has, set_client_fd, get_client_id, set_for_free_client_id, realloc_clients,
}
use posix_threads.EventProxy.Tables.Finds.{set_for_free_client_id-Placed}
use posix_threads.EventProxy.Descriptors.{add_fd_to_server_fds}
use posix_threads.EventProxy.Descriptors.Polls.{IsPolled, polled}
use posix_threads.EventProxy.Descriptors.Appends.{add_fd-Appended}
use posix_threads.EventProxy.Requests.{accept_client}
use posix_threads.EventProxy.Safe.{Every-modify, IsSafe}
use posix_threads.EventProxy.Safe.Grows.{clients-IsSafe}
use posix_threads.EventProxy.Descriptors.Room.{add_fd-Polls}
use posix_threads.EventProxy.Safe.Serves.{fds-IsSafe}

-- The connection `fd` is a client's, and polled for input; all else is as before.
pub record Accepted (nh nk : ℕ) (fd : ℤ) (s : Server) (o : Option Server) : Type 0 where
  pub after : Server
  pub returns : o ≡ some after
  pub clients_size : ℕ
  pub safe : IsSafe clients_size nh nk after
  pub index : ℕ
  pub inside : index < length after.clients
  pub finds :
      (j : ℤ)
      → is_neg j ≡ false
      → get_client_id j after ≡ (if fd ==ℤ j then pos index else get_client_id j s)
  pub watched : IsPolled after
  pub asks : (j : ℤ) → is_neg j ≡ false → polled j after ≡ (if fd ==ℤ j then some 1 else polled j s)

module _ (nc nh nk : ℕ) (fd : ℤ) (known : is_neg fd ≡ false) where
  set_client-IsSafe :
      (n i : ℕ) (s : Server)
      → IsSafe n nh nk s
      → IsSafe n nh nk (record s { clients = modify s.clients i (set_client_fd fd) })
  set_client-IsSafe n i s v = record {
    clients_sized = length-modify s.clients i (set_client_fd fd) ∙ v.clients_sized;
    hosts_sized = v.hosts_sized;
    cache_sized = v.cache_sized;
    clients =
        Every-modify (λ (c : Client). within nk c.cache_idx ≡ true) s.clients i (set_client_fd fd)
          v.clients (λ x e. v.clients i x e);
    hosts = v.hosts;
    items = v.items;
    polls = v.polls;
  }

  -- Only the array of clients is written, and the state stays safe.
  set_for_free_client_id-IsSafe :
      (s : Server)
      → IsSafe nc nh nk s
      → (answer : ℤ) × (cs : List Client) × (size : ℕ) × (set_for_free_client_id true fd s
          ≡ some (answer, record s { clients = cs }))
        × IsSafe size nh nk (record s { clients = cs })
  unfolding set_for_free_client_id realloc_clients
  set_for_free_client_id-IsSafe s v =
      elim (Option-cases (find_below (client_has minus_one) (length s.clients) s.clients)) [
        | inl e ↦
            let m = length s.clients in
            let grown = s.clients ++ replicate m empty_client in
            (
              pos m,
              modify grown m (set_client_fd fd),
              nc + m,
              rw (known, e, set_for_free_client_id) refl,
              set_client-IsSafe (nc + m) m (record s { clients = grown })
                  (clients-IsSafe nc nh nk m s v),
            )
        | inr (i, e) ↦ (
          pos i,
          modify s.clients i (set_client_fd fd),
          nc,
          rw (known, e, set_for_free_client_id) refl,
          set_client-IsSafe nc i s v,
        )
      ]

accept_client_lem :
    (fd answer : ℤ) (s s1 t : Server)
    → is_neg fd ≡ false
    → set_for_free_client_id true fd s ≡ some (answer, s1)
    → add_fd_to_server_fds true fd 1 s1 ≡ some t
    → accept_client true true fd s ≡ some t
unfolding accept_client
accept_client_lem fd answer s s1 t known e1 e2 =
    let proper : (fd ==ℤ minus_one) ≡ false = ground (arith, ==ℤ_iff fd minus_one) in
    rw (proper, accept_client) (rw e1 e2)

get_client_id_cong :
    (j : ℤ) (s t : Server) → t.clients ≡ s.clients → get_client_id j t ≡ get_client_id j s
unfolding get_client_id
get_client_id_cong j s t e = simp e

-- `AcceptClient` of a descriptor that is not negative, that no client has and that is not polled, in a safe
-- state with some clients, with at least one cell of the polled descriptors counted, no descriptor twice in
-- them, an array of them of at most twice SERVER_FDS_AMOUNT and one cells, and with memory at hand: the call
-- ends in a safe state, the descriptor is found at a client and polled for input, every other descriptor is
-- found where it was and polled as it was, and no descriptor is polled twice.
pub accept_client-Accepted :
    (nc nh nk : ℕ) (fd : ℤ) (s : Server)
    → IsSafe nc nh nk s
    → 0 < nc
    → is_neg fd ≡ false
    → get_client_id fd s ≡ minus_one
    → IsPolled s
    → polled fd s ≡ none
    → length s.server_fds ≤ s.server_amount * 2 + 1
    → Accepted nh nk fd s (accept_client true true fd s)
accept_client-Accepted nc nh nk fd s v some_clients known absent w free room =
    let (answer, cs, size, e1, w1) = set_for_free_client_id-IsSafe nc nh nk fd known s v in
    let s1 = record s { clients = cs } in
    let (i, s2, e2, inside, finds) =
      set_for_free_client_id-Placed fd s (omega (arith, v.clients_sized)) known absent in
    let same : s1 ≡ s2 = ap (λ (r : ℤ × Server). r.1) (some-injective _ _ (sym e1 ∙ e2)) in
    let watched : IsPolled s1 = record {
      fits = w.fits;
      counted = w.counted;
      distinct = w.distinct;
    } in
    let (t, e3, a) = add_fd-Appended fd 1 s1 known watched free room in
    let (fds, current, amount, e4, roomy) = add_fd-Polls fd 1 s1 v.polls in
    let s3 = record s1 { server_fds = fds; current = current; server_amount = amount } in
    let whole : s3 ≡ t = some-injective _ _ (sym e4 ∙ e3) in
    let kept : t.clients ≡ s2.clients =
      ap (λ (x : Server). x.clients) (sym whole) ∙ ap (λ (x : Server). x.clients) same in
    record {
      after = t;
      returns = accept_client_lem fd answer s s1 t known e1 e3;
      clients_size = size;
      safe = subst (IsSafe size nh nk) whole (fds-IsSafe size nh nk s1 fds current amount w1 roomy);
      index = i;
      inside = subst (λ xs. i < length xs) (sym kept) inside;
      finds = λ j asked. get_client_id_cong j s2 t kept ∙ finds j asked;
      watched = a.valid;
      asks = a.asks;
    }
