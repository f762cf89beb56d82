-- ===== src/EventProxy/Safe/Links.antt =====
-- A new request in a safe state of rybalko/31/server.c: the client, the item and the host that
-- `ReadFromClient` links with one another.
use posix_threads.Common.{
  ℕ, ◌≡◌, ◌<◌, refl, ap, ◌∙◌, subst, true, false, Option, some, List, arith, ltb, ◌||◌, get_elem?,
  get_elem?-some, get_elem?-modify_self, length, modify, ◌>>=◌, ℤ, pos, minus_one, ◌==ℤ◌,
}
use posix_threads.EventProxy.{Client, Host, CacheItem, Server}
use posix_threads.EventProxy.Descriptors.{add_fd_to_server_fds}
use posix_threads.EventProxy.Descriptors.Room.{add_fd-Polls}
use posix_threads.EventProxy.Subscriptions.{put_client, put_host, put_item, both_events, add_sub}
use posix_threads.EventProxy.Tables.{hash, has_hash, add_to_cache, set_for_free_host_id}
use posix_threads.EventProxy.Tables.Caches.{fill_item-has_hash}
use posix_threads.EventProxy.Texts.{parse_full_url}
use posix_threads.EventProxy.Requests.{ClientIo, attach, start_host, serve_new}
use posix_threads.EventProxy.Safe.{IsSound, IsSafe, Goes-IsSafe, put_item-Safe}
use posix_threads.EventProxy.Safe.Puts.{put_host-Goes}
use posix_threads.EventProxy.Safe.Adds.{add_sub-Subscribed}
use posix_threads.EventProxy.Safe.Places.{free_item-Freed, filled-IsSound}
use posix_threads.EventProxy.Safe.Hosts.{set_for_free_host_id-Hosted}
use posix_threads.EventProxy.Safe.Serves.{IsServing, hosted-IsSound}
use posix_threads.EventProxy.Safe.Labels.{add_sub-labels}

-- Client `p` takes its response from an item for the hash `h`, which a host at `fd` is to fill, and for
-- which the client waits.
pub record Linked (p h : ℕ) (fd : ℤ) (s : Server) : Type 0 where
  pub client : Client
  pub client_at : get_elem? s.clients p ≡ some client
  pub cell : ℕ
  pub takes : client.cache_idx ≡ pos cell
  pub from_start : client.last_written_idx ≡ pos 0
  pub item : CacheItem
  pub item_at : get_elem? s.cache cell ≡ some item
  pub hashed : has_hash h item ≡ true
  pub subscribers : List ℤ
  pub array : item.subscribers ≡ some subscribers
  pub index : ℕ
  pub inside : index < item.subs_size
  pub waits : get_elem? subscribers index ≡ some (pos p)
  pub host_cell : ℕ
  pub filled_by : item.host_idx ≡ pos host_cell
  pub host : Host
  pub host_at : get_elem? s.hosts host_cell ≡ some host
  pub connected : host.fd ≡ fd
  pub fills : host.cache_idx ≡ pos cell
  pub unwritten : host.last_written_idx ≡ pos 0

-- An item with the hash of the request.
record Added (nc nh h : ℕ) (o : Option (ℤ × Server)) : Type 0 where
  size : ℕ
  index : ℕ
  after : Server
  returns : o ≡ some (pos index, after)
  below : index < size
  safe : IsSafe nc nh size after
  item : CacheItem
  at : get_elem? after.cache index ≡ some item
  hashed : has_hash h item ≡ true

add_to_cache-Added :
    (nc nh nk h : ℕ) (text : List ℕ) (s : Server)
    → IsSafe nc nh nk s
    → 0 < nk
    → hash (some text) ≡ some h
    → Added nc nh h (add_to_cache true true text s)
unfolding add_to_cache
add_to_cache-Added nc nh nk h text s v some_items e =
    let f = free_item-Freed nc nh nk s v some_items in
    let (it, at) =
      get_elem?-some f.after.cache f.index (omega (arith, f.safe.cache_sized, f.below)) in
    let (jt, filled, good) = fill_item-has_hash h text it in
    record {
      size = f.size;
      index = f.index;
      after = put_item f.index jt f.after;
      returns = rw (e, f.returns, add_to_cache) (rw at (rw filled refl));
      below = f.below;
      safe = put_item-Safe nc nh f.size f.after f.index jt f.safe (
          subst (λ q. IsSound nc nh (q.1)) filled
            (filled-IsSound nc nh f.size true h text it (f.safe.items f.index it at)));
      item = jt;
      at = get_elem?-modify_self f.after.cache f.index (λ _. jt) it at;
      hashed = good;
    }

module _ (nc nh nk p c k h : ℕ) (fd : ℤ) (s : Server) (v : IsSafe nc nh nk s) (lt : p < nc) where
  -- Item `c`, for the hash `h`, is given host `k`, and client `p` waits for it.
  linked_lem :
      (it : CacheItem) (d : Host)
      → get_elem? s.cache c ≡ some it
      → has_hash h it ≡ true
      → get_elem? s.hosts k ≡ some d
      → d.fd ≡ fd
      → c < nk
      → k < nh
      → (after : Server) × ((add_sub true (pos p) (pos c) (
              put_item c
                (record it { host_idx = pos k })
                (put_host k (record d { cache_idx = pos c; last_written_idx = pos 0 }) s))
            >>= λ s3. attach p c s3 >>= λ s4. add_fd_to_server_fds true fd both_events s4)
          ≡ some after)
        × Linked p h fd after
  unfolding attach
  linked_lem it d at good dt own below known =
      let d' = record d { cache_idx = pos c; last_written_idx = pos 0 } in
      let it' = record it { host_idx = pos k } in
      let s1 = put_host k d' s in
      let s2 = put_item c it' s1 in
      let w1 =
        Goes-IsSafe nc nh nk s s1 (put_host-Goes nc nh nk s v k d' (ground (arith, below))) in
      let w2 =
        put_item-Safe nc nh nk s1 c it' w1 (hosted-IsSound nc nh k it (v.items c it at) known) in
      let at2 = get_elem?-modify_self s.cache c (λ _. it') it at in
      let valid : it.valid ≡ true = ground (arith, good) in
      let (jt, added, w3, sub) = add_sub-Subscribed nc nh nk p c s2 it' w2 lt at2 valid in
      let guard : (ltb (length s2.cache) c || ltb (length s2.clients) p) ≡ false =
        ground (arith, w2.clients_sized, w2.cache_sized) in
      let same = add_sub-labels p c s2 it' jt guard at2 valid added in
      let s3 = put_item c jt s2 in
      let (cl, ct) = get_elem?-some s3.clients p (omega (arith, w3.clients_sized)) in
      let cl' = record cl { cache_idx = pos c; last_written_idx = pos 0 } in
      let (fds, current, amount, polled, roomy) =
        add_fd-Polls fd both_events (put_client p cl' s3) w3.polls in
      (
        record s3 {
          clients = modify s3.clients p (λ _. cl');
          server_fds = fds;
          current = current;
          server_amount = amount;
        },
        rw added (rw ct polled),
        record {
          client = cl';
          client_at = get_elem?-modify_self s3.clients p (λ _. cl') cl ct;
          cell = c;
          takes = refl;
          from_start = refl;
          item = jt;
          item_at = get_elem?-modify_self s2.cache c (λ _. jt) it' at2;
          hashed = ap (has_hash h) same ∙ good;
          subscribers = sub.cells;
          array = sub.array;
          index = sub.index;
          inside = sub.inside;
          waits = sub.there;
          host_cell = k;
          filled_by = ap (λ (x : CacheItem). x.host_idx) same;
          host = d';
          host_at = get_elem?-modify_self s.hosts k (λ _. d') d dt;
          connected = own;
          fills = refl;
          unwritten = refl;
        },
      )

start_host_lem :
    (io : ClientIo) (p c k : ℕ) (fd : ℤ) (s s1 after : Server) (it : CacheItem) (d : Host)
    → IsServing io
    → set_for_free_host_id true fd s ≡ some (pos k, s1)
    → get_elem? s1.hosts k ≡ some d
    → get_elem? s1.cache c ≡ some it
    → (add_sub true (pos p) (pos c) (
          put_item c
            (record it { host_idx = pos k })
            (put_host k (record d { cache_idx = pos c; last_written_idx = pos 0 }) s1))
        >>= λ s3. attach p c s3 >>= λ s4. add_fd_to_server_fds true fd both_events s4)
      ≡ some after
    → start_host io p c fd s ≡ some after
unfolding start_host
start_host_lem io p c k fd s s1 after it d ready e dt at run =
    rw (ready.hosts, start_host) (rw e (rw dt (rw at (rw (ready.subs, ready.fds) run))))

-- What `ConnectToHost` answers for the url of a request.
abbrev pub fd_for : ClientIo → (url : List ℕ) → ℤ
fd_for io url =
    let target = parse_full_url io.sscanf io.stack url in io.connect target.host target.port

module _ (nc nh nk p : ℕ) (io : ClientIo) (text url : List ℕ) (s : Server) where
  pub serve_new-Linked :
      (h : ℕ)
      → IsServing io
      → IsSafe nc nh nk s
      → 0 < nh
      → 0 < nk
      → p < nc
      → hash (some text) ≡ some h
      → io.stored_ok ≡ true
      → ((fd_for io url) ==ℤ minus_one) ≡ false
      → (after : Server) × (serve_new io p text url s ≡ some after)
        × Linked p h (fd_for io url) after
  unfolding serve_new
  serve_new-Linked h ready v some_hosts some_items lt e stored opened =
      let a = add_to_cache-Added nc nh nk h text s v some_items e in
      let t =
        set_for_free_host_id-Hosted nc a.size nh (fd_for io url) a.after a.safe some_hosts
          (ready.connects _ _ opened) in
      let at : get_elem? t.after.cache a.index ≡ some a.item =
        ap (λ cs. get_elem? cs a.index) t.same_cache ∙ a.at in
      let (after, run, linked) =
        linked_lem nc t.size a.size p a.index t.index h (fd_for io url) t.after t.safe lt a.item
          t.host at a.hashed t.at t.has_fd a.below t.below in
      (
        after,
        rw (ready.cache, stored, serve_new)
            (rw a.returns (
              rw opened (
                start_host_lem io p a.index t.index (fd_for io url) a.after t.after after a.item
                  t.host ready t.returns t.at at run))),
        linked,
      )
