-- ===== src/EventProxy/Safe/Handlers.antt =====
-- Calls for an event in a safe state of rybalko/31/server.c: they return, and the state is safe again.
use posix_threads.Common.{
  ℕ, ◌≡◌, ◌<◌, refl, ap, ◌∙◌, sym, inl, inr, true, false, not, ◌&&◌, Option, some, List, [], arith,
  ltb, get_elem?, get_elem?-some, get_elem?-lt, length, ◌>>=◌, Bool-cases, ℤ, pos, minus_one, ◌==ℤ◌,
  ◌+ℤ◌,
}
use posix_threads.PoolProxy.Transfer.{read_bytes, WriteResult, write_failed, written}
use posix_threads.EventProxy.{Client, Host, CacheItem, Server, within}
use posix_threads.EventProxy.Subscriptions.{put_client, put_host, put_item, both_events, notify_sub}
use posix_threads.EventProxy.Endings.{disconnect_host, clean_cache_item}
use posix_threads.EventProxy.Requests.{write_to_client, send_item, note_sent, drop_failed, unsent}
use posix_threads.EventProxy.Responses.{
  HostIo, read_from_host, read_into, finish_response, left_of, write_to_host, note_written,
}
use posix_threads.EventProxy.Safe.{IsSound, IsSafe, Goes, Goes-IsSafe, put_item-Safe}
use posix_threads.EventProxy.Safe.Puts.{put_client-Goes, put_host-Goes, set_event-Goes}
use posix_threads.EventProxy.Safe.Subs.{notify_sub-Goes}
use posix_threads.EventProxy.Safe.Ends.{disconnect_client-Goes, disconnect_host-Goes}
use posix_threads.EventProxy.Safe.Emptied.{Cleaned}
use posix_threads.EventProxy.Safe.Clean.{clean_cache_item-Cleaned}

module _ (nc nh nk : ℕ) where
  -- The call ends, in a safe state.
  pub record Returns (o : Option Server) : Type 0 where
    pub after : Server
    pub returns : o ≡ some after
    pub safe : IsSafe nc nh nk after

  pub Returns-some : (s : Server) → IsSafe nc nh nk s → Returns (some s)
  Returns-some s v = record { after = s; returns = refl; safe = v }

  pub Returns-bind :
      (o : Option Server) (f : Server → Option Server)
      → Returns o
      → ((s : Server) → IsSafe nc nh nk s → Returns (f s))
      → Returns (o >>= f)
  Returns-bind o f r h =
      let k = h r.after r.safe in
      record { after = k.after; returns = rw r.returns k.returns; safe = k.safe }

  pub Goes-Returns : (s : Server) (o : Option Server) → Goes nc nh nk s o → Returns o
  Goes-Returns s o g = record { after = g.after; returns = g.returns; safe = g.safe }

  Cleaned-Returns : (c : ℕ) (s : Server) (o : Option Server) → Cleaned nc nh nk c s o → Returns o
  Cleaned-Returns c s o g = record { after = g.after; returns = g.returns; safe = g.safe }

  pub clean-Returns :
      (c : ℕ) (s : Server) → IsSafe nc nh nk s → c < nk → Returns (clean_cache_item (pos c) s)
  clean-Returns c s v h = Cleaned-Returns c s _ (clean_cache_item-Cleaned nc nh nk c s v h)

  drop_failed-Returns :
      (p c : ℕ) (s : Server) → IsSafe nc nh nk s → p < nc → c < nk → Returns (drop_failed p c s)
  unfolding drop_failed
  drop_failed-Returns p c s v lt below =
      let (it, at) = get_elem?-some s.cache c (omega (arith, v.cache_sized)) in
      rw at (elim (Bool-cases (not it.successful_request && it.full)) [
        | inr e ↦ rw e (Returns-some s v)
        | inl e ↦ rw e (
            Returns-bind (clean_cache_item (pos c) s) _ (clean-Returns c s v below) (λ s' w.
              let (client, bt) = get_elem?-some s'.clients p (omega (arith, w.clients_sized)) in
              rw bt (
                Goes-Returns s' _ (
                  put_client-Goes nc nh nk s' w p (record client { cache_idx = minus_one }) refl))))
      ])

  note_sent-Returns :
      (p c : ℕ) (client : Client) (it : CacheItem) (result : WriteResult) (s : Server)
      → IsSafe nc nh nk s
      → p < nc
      → c < nk
      → within nk client.cache_idx ≡ true
      → Returns (note_sent p c client it result s)
  unfolding note_sent
  note_sent-Returns p c client it write_failed s v lt below inside =
      Goes-Returns s _ (disconnect_client-Goes nc nh nk (pos p) s v (ground arith))
  note_sent-Returns p c client it (written n) s v lt below inside =
      let last = client.last_written_idx +ℤ pos n in
      let s1 = put_client p (record client { last_written_idx = last }) s in
      let w =
        Goes-IsSafe nc nh nk s s1
          (put_client-Goes nc nh nk s v p (record client { last_written_idx = last }) inside) in
      elim (Bool-cases (last ==ℤ pos it.response_idx)) [
        | inr e ↦ rw e (drop_failed-Returns p c s1 w lt below)
        | inl e ↦ rw e (
            Returns-bind _ _ (Goes-Returns s1 _ (set_event-Goes nc nh nk s1 w client.fd 1))
              (λ s2 u. drop_failed-Returns p c s2 u lt below))
      ]

  -- `WriteToClient`, in a safe state, for a client that takes its response from an item of the cache and has
  -- been given no more than the item holds: whatever `write` answers, the call ends, reads nothing outside
  -- the arrays, and leaves a safe state.
  pub write_to_client-Returns :
      (write : ℤ → List ℕ → WriteResult) (p c : ℕ) (client : Client) (it : CacheItem)
      (bytes : List ℕ) (s : Server)
      → IsSafe nc nh nk s
      → get_elem? s.clients p ≡ some client
      → client.cache_idx ≡ pos c
      → get_elem? s.cache c ≡ some it
      → unsent client.last_written_idx it ≡ some bytes
      → Returns (write_to_client write (pos p) s)
  unfolding write_to_client send_item
  write_to_client-Returns write p c client it bytes s v bt link at left =
      let lt : p < nc = omega (arith, v.clients_sized, get_elem?-lt s.clients p client bt) in
      let below : c < nk = omega (arith, v.cache_sized, get_elem?-lt s.cache c it at) in
      let guard : ltb (length s.clients) p ≡ false = ground (arith, v.clients_sized) in
      simp (guard, bt, link, at)
        (elim (Bool-cases ((it.host_idx ==ℤ minus_one) && not it.valid)) [
          | inl e ↦ rw e (clean-Returns c s v below)
          | inr e ↦
              simp (e, left)
                (note_sent-Returns p c client it (write client.fd bytes) s v lt below
                  (v.clients p client bt))
        ])

  finished-IsSound :
      (it : CacheItem) (now : ℤ)
      → IsSound nc nh it
      → IsSound nc nh (record it { full = true; full_time = now; response_size = it.response_idx })
  finished-IsSound it now v = record {
    host = v.host;
    null = v.null;
    idle = v.idle;
    fits = v.fits;
    counted = v.counted;
    subs = v.subs;
  }

  -- `ReadFromHost` at the end of a response, in a safe state, for a host that fills an item: the call ends and
  -- leaves a safe state.
  pub read_from_host-Returns :
      (io : HostIo) (h c : ℕ) (d : Host) (s : Server)
      → IsSafe nc nh nk s
      → get_elem? s.hosts h ≡ some d
      → d.cache_idx ≡ pos c
      → Returns (read_from_host io (pos h) (read_bytes []) s)
  unfolding read_from_host read_into finish_response
  read_from_host-Returns io h c d s v dt link =
      let inside : within nk (pos c) ≡ true = ap (within nk) (sym link) ∙ v.hosts h d dt in
      let (it, at) = get_elem?-some s.cache c (ground (arith, v.cache_sized)) in
      let guard : ltb (length s.hosts) h ≡ false = ground (arith, get_elem?-lt s.hosts h d dt) in
      let known : within nh (pos h) ≡ true =
        ground (arith, v.hosts_sized, get_elem?-lt s.hosts h d dt) in
      let jt = record it { full = true; full_time = io.clock 0; response_size = it.response_idx } in
      let s1 = put_item c jt s in
      let w =
        put_item-Safe nc nh nk s c jt v (finished-IsSound it (io.clock 0) (v.items c it at)) in
      simp (guard, dt, link, at)
        (Returns-bind (notify_sub c both_events s1) (disconnect_host (pos h))
          (Goes-Returns s1 _ (notify_sub-Goes nc nh nk c both_events s1 w inside))
          (λ s' u. Goes-Returns s' _ (disconnect_host-Goes nc nh nk (pos h) s' u known)))

  note_written-Returns :
      (h : ℕ) (d : Host) (it : CacheItem) (result : WriteResult) (s : Server)
      → IsSafe nc nh nk s
      → within nh (pos h) ≡ true
      → within nk d.cache_idx ≡ true
      → Returns (note_written h d it result s)
  unfolding note_written
  note_written-Returns h d it write_failed s v known inside =
      Goes-Returns s _ (disconnect_host-Goes nc nh nk (pos h) s v known)
  note_written-Returns h d it (written n) s v known inside =
      let last = d.last_written_idx +ℤ pos n in
      let s1 = put_host h (record d { last_written_idx = last }) s in
      let w =
        Goes-IsSafe nc nh nk s s1
          (put_host-Goes nc nh nk s v h (record d { last_written_idx = last }) inside) in
      elim (Bool-cases (last ==ℤ pos it.request_size)) [
        | inr e ↦ rw e (Returns-some s1 w)
        | inl e ↦ rw e (Goes-Returns s1 _ (set_event-Goes nc nh nk s1 w d.fd 1))
      ]

  -- `WriteToHost`, in a safe state, for a host that fills an item and of whose request it was given some
  -- number of bytes: whatever `write` answers, the call ends and leaves a safe state.
  pub write_to_host-Returns :
      (write : ℤ → List ℕ → WriteResult) (h c last : ℕ) (d : Host) (s : Server)
      → IsSafe nc nh nk s
      → get_elem? s.hosts h ≡ some d
      → d.cache_idx ≡ pos c
      → d.last_written_idx ≡ pos last
      → Returns (write_to_host write (pos h) s)
  unfolding write_to_host
  write_to_host-Returns write h c last d s v dt link so_far =
      let inside : within nk (pos c) ≡ true = ap (within nk) (sym link) ∙ v.hosts h d dt in
      let (it, at) = get_elem?-some s.cache c (ground (arith, v.cache_sized)) in
      let guard : ltb (length s.hosts) h ≡ false = ground (arith, get_elem?-lt s.hosts h d dt) in
      let known : within nh (pos h) ≡ true =
        ground (arith, v.hosts_sized, get_elem?-lt s.hosts h d dt) in
      simp (guard, dt, link, so_far, at)
        (note_written-Returns h d it (write d.fd (left_of last it)) s v known (v.hosts h d dt))
