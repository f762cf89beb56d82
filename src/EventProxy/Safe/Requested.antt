-- ===== src/EventProxy/Safe/Requested.antt =====
-- A request that is new to the cache of rybalko/31/server.c, from the bytes to the links.
use posix_threads.Common.{
  ℕ, ◌≡◌, ◌<◌, refl, ap, ◌∙◌, true, false, none, some, List, ◌∷◌, arith, ltb, get_elem?,
  get_elem?-lt, length, pos, minus_one, ◌==ℤ◌,
}
use posix_threads.PoolProxy.Transfer.{read_bytes}
use posix_threads.EventProxy.{Client, Server, within}
use posix_threads.EventProxy.Subscriptions.{put_client}
use posix_threads.EventProxy.Tables.{hash, find_hashed, try_to_find_at_cache}
use posix_threads.EventProxy.Tables.Caches.{Unknown}
use posix_threads.EventProxy.Texts.{c_string, extract_url}
use posix_threads.EventProxy.Requests.{
  ClientIo, serve_new, serve, receive_request, read_request, read_from_client,
}
use posix_threads.EventProxy.Safe.{IsSafe, Goes-IsSafe}
use posix_threads.EventProxy.Safe.Puts.{put_client-Goes}
use posix_threads.EventProxy.Safe.Serves.{IsServing}
use posix_threads.EventProxy.Safe.Readable.{keep_request-returns}
use posix_threads.EventProxy.Safe.Links.{Linked, fd_for, serve_new-Linked}

serve_lem :
    (io : ClientIo) (p h : ℕ) (text url : List ℕ) (s : Server)
    → hash (some text) ≡ some h
    → Unknown h s
    → serve io p text url s ≡ serve_new io p text url s
unfolding serve try_to_find_at_cache find_hashed
serve_lem io p h text url s e unknown = rw (e, serve) (rw (unknown, find_hashed) refl)

-- `ReadFromClient` of the bytes of a GET with an end of the url, fewer than `buf` has, for which no valid item
-- has the hash, in a safe state with some hosts and some items, with memory at hand and a `ConnectToHost`
-- that answers a descriptor, of a client that has a request or is to be given its first: the call ends.
-- Then the client takes its response, from the start, from a valid item with that hash, is among the
-- subscribers of the item, and the item is the one that the host at the descriptor fills, which is given
-- the request from its start.
pub read_from_client-Linked :
    (nc nh nk p h b : ℕ) (bs url : List ℕ) (io : ClientIo) (client : Client) (s : Server)
    → IsServing io
    → io.request_ok ≡ true
    → io.stored_ok ≡ true
    → (fd_for io url ==ℤ minus_one) ≡ false
    → IsSafe nc nh nk s
    → 0 < nh
    → 0 < nk
    → get_elem? s.clients p ≡ some client
    → (client.request ≡ none → client.request_size ≡ 0)
    → length (b ∷ bs) < 1024
    → extract_url (c_string (b ∷ bs)) ≡ some (some url)
    → hash (some (c_string (b ∷ bs))) ≡ some h
    → Unknown h s
    → (after : Server) × (read_from_client io (pos p) (read_bytes (b ∷ bs)) s ≡ some after)
      × Linked p h (fd_for io url) after
unfolding read_from_client read_request receive_request
read_from_client-Linked nc nh nk p h b bs url io client s ready room stored opened v some_hosts
      some_items at known short found e unknown =
    let lt : p < nc = omega (arith, v.clients_sized, get_elem?-lt s.clients p client at) in
    let guard : ltb (length s.clients) p ≡ false = ground (arith, v.clients_sized) in
    let fits : ltb (length (b ∷ bs)) 1024 ≡ true = ground (arith, short) in
    let (kept, c', k, same, if_room) = keep_request-returns io p (b ∷ bs) client known in
    let s1 = put_client p c' s in
    let w =
      Goes-IsSafe nc nh nk s s1
        (put_client-Goes nc nh nk s v p c' (ap (within nk) same ∙ v.clients p client at)) in
    let (after, run, linked) =
      serve_new-Linked nc nh nk p io (c_string (b ∷ bs)) url s1 h ready w some_hosts some_items lt e
        stored opened in
    (
      after,
      rw (guard, read_from_client)
          (rw at (
            rw (fits, receive_request)
              (rw k (
                rw (if_room room)
                  (rw found (rw (serve_lem io p h (c_string (b ∷ bs)) url s1 e unknown) run)))))),
      linked,
    )
