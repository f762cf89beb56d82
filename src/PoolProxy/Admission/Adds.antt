-- ===== src/PoolProxy/Admission/Adds.antt =====
-- What a request for a url that is not in the list leaves: a new record at the end, with a server.
use posix_threads.Common.{
  ℕ, ◌+◌, ◌≤◌, ◌≡◌, refl, ap, ◌∙◌, true, false, none, some, List, arith, leb, ◌==◌, get_elem?,
  length, take, get_elem?-modify_self, get_elem?-some, ℤ, pos, minus_one, is_neg, ◌==ℤ◌, ==ℤ_iff,
}
use posix_threads.PoolProxy.PollTable.{PollTable, pollin, pollout, add_fd_to_poll_fds}
use posix_threads.PoolProxy.PollTable.Invariant.{IsValid, watched}
use posix_threads.PoolProxy.PollTable.Refines.{Updated, add_fd-Updated}
use posix_threads.PoolProxy.Slots.{
  Array, ClientCell, ServerCell, find_free_server, find_server_by_fd, server_fd,
}
use posix_threads.PoolProxy.Slots.Table.{IsSized, Taken, found_cell}
use posix_threads.PoolProxy.Slots.Refines.{find_free_server-Taken}
use posix_threads.PoolProxy.Record.{Record}
use posix_threads.PoolProxy.Record.Subscribers.{IsListening, Tells}
use posix_threads.PoolProxy.World.{World, update, put_record}
use posix_threads.PoolProxy.Admission.{
  Cached, Answers, new_record, served_world, give_server, open_server, copy_request, start_record,
  attach,
}
use posix_threads.PoolProxy.Admission.Joins.{Subscribed, attached, attach-Subscribed, update_same}

-- What `open_server` is given: memory, a connection on a descriptor that neither the array nor the table,
-- which is valid, has yet.
pub record Connects (o : Answers) (a : Array ServerCell) (t : PollTable) : Type 0 where
  pub fcntl_ok : o.fcntl_ok ≡ true
  pub request_ok : o.request_ok ≡ true
  pub subscribers_ok : o.subscribers_ok ≡ true
  pub valid : is_neg o.server_fd ≡ false
  pub sized : IsSized a
  pub unused : find_server_by_fd a o.server_fd ≡ minus_one
  pub table : IsValid t
  pub unpolled : watched o.server_fd t ≡ none

-- The cell of the server at the descriptor `fd` that works for the record at `p`.
pub record Serves (w : World) (p : ℕ) (fd : ℤ) (r : Record) : Type 0 where
  pub number : ℕ
  pub cell : ServerCell
  pub at : get_elem? w.servers.cells number ≡ some cell
  pub connected : cell.fd ≡ fd
  pub names : r.server_index ≡ pos number
  pub points : cell.cache_record ≡ some p
  pub begins : cell.write_request_index ≡ pos 0

-- `w'` is `w` with a server for the record at `p`, which was `r`, and client `i` as its client.
pub record Opened (o : Answers) (w : World) (i p : ℕ) (cl : ClientCell) (r : Record) (w' : World)
    : Type 0 where
  pub now : Record
  pub served : Serves w' p o.server_fd now
  pub stored :
      w'.records
      ≡ update
          (update w.records p (some (record r { server_index = pos (served.number) })))
          p
          (some now)
  pub subscribed : Subscribed cl.thread_fd (record r { server_index = pos (served.number) }) now
  pub client :
      get_elem? w'.clients.cells i
      ≡ some (record cl { cache_record = some p; write_response_index = pos 0 })
  pub polled : Updated o.server_fd (some (pollin + pollout)) w.table w'.table

give_server_lem :
    (o : Answers) (w : World) (a : Array ServerCell) (j i p : ℕ) (s : ServerCell) (r : Record)
    (table : PollTable)
    → get_elem? a.cells j ≡ some s
    → add_fd_to_poll_fds o.cells w.table o.server_fd (pollin + pollout) ≡ some table
    → w.records p ≡ some r
    → give_server o w a (pos j) i p
      ≡ attach o.subscribers_ok (served_world w table a.cells a.size j s p r) i p
unfolding give_server
give_server_lem o w a j i p s r table e added at = rw (e, give_server) (rw added (rw at refl))

pub open_server-Opened :
    (o : Answers) (w : World) (i p : ℕ) (cl : ClientCell) (r : Record)
    → Connects o w.servers w.table
    → w.records p ≡ some r
    → IsListening r
    → r.valid ≡ true
    → get_elem? w.clients.cells i ≡ some cl
    → is_neg cl.thread_fd ≡ false
    → (w' : World) × (open_server o w i p ≡ some w') × Opened o w i p cl r w'
unfolding open_server
open_server-Opened o w i p cl r a at fits live cell valid =
    let t : Taken server_fd o.server_fd w.servers (find_free_server w.servers o.server_fd) =
      find_free_server-Taken w.servers o.server_fd a.sized a.valid a.unused in
    let a' = (find_free_server w.servers o.server_fd).1 in
    let j = t.index in
    let (s, e) = get_elem?-some a'.cells j (omega (arith, t.inside, t.sized.sized)) in
    let itself : (o.server_fd ==ℤ o.server_fd) ≡ true = (==ℤ_iff o.server_fd o.server_fd).1 refl in
    let (table, added, polled) =
      add_fd-Updated o.cells w.table o.server_fd (pollin + pollout) a.table a.valid a.unpolled in
    let w1 = served_world w table a'.cells a'.size j s p r in
    let (now, f, sub) =
      attach-Subscribed w1 i p cl (record r { server_index = pos j }) (update_same w.records p _)
        fits live cell valid in
    let number : now.server_index ≡ pos j = ap (λ x. x.server_index) sub.kept in
    (
      attached w1 i cl p now,
      ap (λ num. give_server o w a' num i p) t.answer
          ∙ give_server_lem o w a' j i p s r table e added at
          ∙ rw a.subscribers_ok f,
      record {
        now = now;
        served = record {
          number = j;
          cell = record s { cache_record = some p; write_request_index = pos 0 };
          at = get_elem?-modify_self a'.cells j _ s e;
          connected =
              found_cell server_fd a' o.server_fd j s (t.finds o.server_fd a.valid ∙ rw itself refl)
                e;
          names = number;
          points = refl;
          begins = refl;
        };
        stored = refl;
        subscribed = sub;
        client = get_elem?-modify_self w.clients.cells i _ cl cell;
        polled = polled;
      },
    )

-- Client `i` has sent `buf`, of which the first `n` cells are the request, and memory is at hand for a
-- node at `f` and a record at `q`.
pub record Asks (o : Answers) (c : Cached) (i n f q : ℕ) (cl : ClientCell) (buf : List ℕ)
    : Type 0 where
  pub node_at : o.node_at ≡ some f
  pub record_at : o.record_at ≡ some q
  pub free : c.nodes f ≡ none
  pub client : get_elem? c.world.clients.cells i ≡ some cl
  pub wakes : is_neg cl.thread_fd ≡ false
  pub request : cl.request ≡ some buf
  pub whole : n ≤ length buf
  pub connects : Connects o c.world.servers c.world.table

-- The record at `q` stands for `url` from now on: it has the request and a server, whose descriptor is
-- polled for input and output and every other as before, tells the thread of the client alone, and the client has it from its start.
pub record Started (o : Answers) (c : Cached) (i n q : ℕ) (cl : ClientCell) (url buf : List ℕ)
    (c' : Cached) : Type 0 where
  pub now : Record
  pub stored : c'.world.records q ≡ some now
  pub url_of : now.url ≡ some url
  pub request : now.request ≡ some (take n buf)
  pub empty : now.response_index ≡ 0
  pub tells : Tells (λ j. cl.thread_fd ==ℤ j) now
  pub served : Serves c'.world q o.server_fd now
  pub client :
      get_elem? c'.world.clients.cells i
      ≡ some (record cl { cache_record = some q; write_response_index = pos 0 })
  pub polled : Updated o.server_fd (some (pollin + pollout)) c.world.table c'.world.table
  pub others : (p : ℕ) → (q == p) ≡ false → c'.world.records p ≡ c.world.records p

-- The record with its request.
abbrev pub asked : List ℕ → List ℕ → ℕ → Record
asked url request n = record (new_record url) { request = some request; request_size = n }

abbrev pub asked_world : World → ℕ → List ℕ → List ℕ → ℕ → World
asked_world w q url request n = put_record (put_record w q (new_record url)) q (asked url request n)

pub start_record_lem :
    (o : Answers) (w : World) (i n f q : ℕ) (cl : ClientCell) (url buf : List ℕ) (c : Cached)
    → Asks o c i n f q cl buf
    → w ≡ put_record c.world q (new_record url)
    → start_record o w i n q ≡ open_server o (asked_world c.world q url (take n buf) n) i q
unfolding start_record copy_request
start_record_lem o w i n f q cl url buf c a e =
    let connected : (o.server_fd ==ℤ minus_one) ≡ false =
      ground (arith, a.connects.valid, ==ℤ_iff o.server_fd minus_one) in
    let enough : leb n (length buf) ≡ true = ground (arith, a.whole) in
    rw e (
      simp
        (
          a.connects.request_ok,
          update_same c.world.records q (some (new_record url)),
          a.client,
          a.request,
          enough,
          connected,
          a.connects.fcntl_ok,
        )
        refl)
