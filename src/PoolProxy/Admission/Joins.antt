-- ===== src/PoolProxy/Admission/Joins.antt =====
-- What a request for a url in the list leaves: its client has the record.
use posix_threads.Common.{
  ℕ, ◌+◌, ◌<◌, ◌≡◌, refl, ap, ◌∙◌, inl, inr, true, false, ◌||◌, Option, some, List, arith, ◌==◌,
  if◌then◌else◌, get_elem?, length, get_elem?-modify, get_elem?-modify_self, ℤ, pos, is_neg, ◌==ℤ◌,
  Bool-cases,
}
use posix_threads.Chain.{Cells}
use posix_threads.PoolProxy.PollTable.{pollin, pollout, change_event_for_fd}
use posix_threads.PoolProxy.PollTable.Invariant.{watched}
use posix_threads.PoolProxy.PollTable.Refines.{Updated, IsWatched, change_unless-Updated}
use posix_threads.PoolProxy.Slots.{ClientCell}
use posix_threads.PoolProxy.Record.{Record}
use posix_threads.PoolProxy.Record.Subscribers.{IsListening, told, Tells, add_subscriber-Tells}
use posix_threads.PoolProxy.Record.Keeps.{Kept, add_subscriber-Kept}
use posix_threads.PoolProxy.World.{World, update, put_record, set_client}
use posix_threads.PoolProxy.Admission.{
  Cached, with_world, Answers, subscribe, attach, join_record, found_from,
  find_and_add_cache_record,
}
use posix_threads.PoolProxy.Admission.Search.{
  IsGood, IsCache, first_with, first_with-IsKnown, AllKnown-update, find_and_add_lem,
}

-- Who is told by the record `r'` that has come from `r`.
pub record Subscribed (fd : ℤ) (r r' : Record) : Type 0 where
  pub tells : Tells (λ j. (fd ==ℤ j) || told j r) r'
  pub kept : Kept r r'

pub subscribe-Subscribed :
    (w : World) (p : ℕ) (fd : ℤ) (r : Record)
    → w.records p ≡ some r
    → IsListening r
    → r.valid ≡ true
    → is_neg fd ≡ false
    → (r' : Record) × (subscribe true w p fd ≡ some (put_record w p r')) × Subscribed fd r r'
unfolding subscribe
subscribe-Subscribed w p fd r at fits live valid =
    let (r', e, t) = add_subscriber-Tells fd valid r fits live in
    (r', simp (at, e), record { tells = t; kept = add_subscriber-Kept fd r r' valid live e })

-- The client `i` has the record at `p`, which is now `r'`.
abbrev pub attached : World → ℕ → ClientCell → ℕ → Record → World
attached w i cl p r' =
    set_client (put_record w p r') i
      (record cl { cache_record = some p; write_response_index = pos 0 })

pub attach-Subscribed :
    (w : World) (i p : ℕ) (cl : ClientCell) (r : Record)
    → w.records p ≡ some r
    → IsListening r
    → r.valid ≡ true
    → get_elem? w.clients.cells i ≡ some cl
    → is_neg cl.thread_fd ≡ false
    → (r' : Record) × (attach true w i p ≡ some (attached w i cl p r'))
      × Subscribed cl.thread_fd r r'
unfolding attach
attach-Subscribed w i p cl r at fits live cell valid =
    let (r', e, s) = subscribe-Subscribed w p cl.thread_fd r at fits live valid in
    (r', simp (cell, e), s)

pub update_same : (rs : ℕ → Option Record) (p : ℕ) (r : Option Record) → update rs p r p ≡ r
update_same rs p r = ground arith

pub Subscribed-IsGood : (fd : ℤ) (r r' : Record) → Subscribed fd r r' → IsGood r → IsGood r'
Subscribed-IsGood fd r r' s g = record {
  text = g.text;
  live = ap (λ x. x.valid) s.kept ∙ g.live;
  url = ap (λ x. x.url) s.kept ∙ g.url;
  size = ap (λ x. x.url_len) s.kept ∙ g.size;
  fits = s.tells.listening;
}

-- Client `i` has become a client of the record `r` at `p`, which is told of it, and all else is as
-- it was but for the events the client is polled for: input and output if the record holds data.
pub record Joined (c : Cached) (i p : ℕ) (cl : ClientCell) (r : Record) (c' : Cached) : Type 0 where
  pub now : Record
  pub stored : c'.world.records p ≡ some now
  pub subscribed : Subscribed cl.thread_fd r now
  pub client :
      get_elem? c'.world.clients.cells i
      ≡ some (record cl { cache_record = some p; write_response_index = pos 0 })
  pub polled :
      Updated cl.fd
        (if r.response_index == 0 then watched cl.fd c.world.table else some (pollin + pollout))
        c.world.table
        c'.world.table
  pub servers : c'.world.servers ≡ c.world.servers
  pub size : c'.world.clients.size ≡ c.world.clients.size
  pub others :
      (j : ℕ)
      → (i == j) ≡ false
      → get_elem? c'.world.clients.cells j ≡ get_elem? c.world.clients.cells j

pub join_lem :
    (w : World) (i p : ℕ) (cl : ClientCell) (r r' : Record)
    → attach true w i p ≡ some (attached w i cl p r')
    → get_elem? w.clients.cells i ≡ some cl
    → Kept r r'
    → join_record true w i p
      ≡ some (record (attached w i cl p r') {
        table =
            if r.response_index == 0
            then w.table
            else change_event_for_fd w.table cl.fd (pollin + pollout);
      })
unfolding join_record
join_lem w i p cl r r' e cell k =
    let index : r'.response_index ≡ r.response_index = ap (λ x. x.response_index) k in
    let here =
      get_elem?-modify_self w.clients.cells i
        (λ _. record cl { cache_record = some p; write_response_index = pos 0 }) cl cell in
    elim (Bool-cases (r.response_index == 0)) [
      | inl z ↦ simp (e, update_same w.records p (some r'), here, index, z)
      | inr z ↦ simp (e, update_same w.records p (some r'), here, index, z)
    ]

-- A request whose url some record in the list has, in a list of valid records and with the other threads
-- quiet between two nodes, memory at hand, an eventfd of the thread, and the client polled in a valid table: the client gets the first
-- such record from its start, is polled for input and output if it holds data and else as before, as all others are, and its
-- thread is told of new data with those told before; the list stays as it is.
pub find_and_add-Joined :
    (k : ℕ) (others : Cached → Cached) (o : Answers) (c : Cached) (cs : Cells ℕ) (i n p : ℕ)
    (url : List ℕ) (cl : ClientCell)
    → ((x : Cached) → others x ≡ x)
    → length cs < k
    → IsCache c cs
    → first_with c.world.records url cs ≡ some p
    → get_elem? c.world.clients.cells i ≡ some cl
    → is_neg cl.thread_fd ≡ false
    → IsWatched c.world.table cl.fd
    → o.subscribers_ok ≡ true
    → (r : Record) × (c.world.records p ≡ some r)
      × (c' : Cached) × (find_and_add_cache_record k others o c i url n ≡ some c')
      × IsCache c' cs
      × Joined c i p cl r c'
unfolding found_from
find_and_add-Joined k others o c cs i n p url cl quiet fuel v f cell valid polled ok =
    let (r, at, g) = (first_with-IsKnown c.world.records url cs p v.known f).0 in
    let (r', e, s) = attach-Subscribed c.world i p cl r at g.fits g.live cell valid in
    let j = join_lem c.world i p cl r r' e cell s.kept in
    let start = find_and_add_lem k others o c cs i n url (some p) quiet fuel v f in
    (
      r,
      at,
      with_world c (record (attached c.world i cl p r') {
        table =
            if r.response_index == 0
            then c.world.table
            else change_event_for_fd c.world.table cl.fd (pollin + pollout);
      }),
      start ∙ simp ok (rw j refl),
      record {
        linked = v.linked;
        head = v.head;
        known = AllKnown-update c.world.records p r' cs (Subscribed-IsGood _ r r' s g) v.known;
      },
      record {
        now = r';
        stored = update_same c.world.records p (some r');
        subscribed = s;
        client = get_elem?-modify_self c.world.clients.cells i _ cl cell;
        polled =
            change_unless-Updated c.world.table cl.fd (pollin + pollout) (r.response_index == 0)
              polled;
        servers = refl;
        size = refl;
        others = λ j h. get_elem?-modify c.world.clients.cells i j _ cl cell ∙ rw h refl;
      },
    )
