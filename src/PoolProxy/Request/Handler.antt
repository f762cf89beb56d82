-- ===== src/PoolProxy/Request/Handler.antt =====
-- The way of a request through the handler of its client, from `read` to the list of records.
use posix_threads.Common.{
  ℕ, suc, ◌+◌, ◌-◌, ◌||◌, ◌≢◌, ◌≤◌, ◌<◌, ◌≡◌, refl, get_elem?-modify, modify, ap, ◌∙◌, true, false,
  not, ◌&&◌, Option, some, List, ◌∷◌, arith, ltb, lt→ltb, ◌==◌, get_elem?, length,
  get_elem?-modify_self, pos, minus_one, is_neg, ◌==ℤ◌,
}
use posix_threads.Chain.{Cells}
use posix_threads.PoolProxy.Slots.{ClientCell}
use posix_threads.PoolProxy.Record.{Record}
use posix_threads.PoolProxy.World.{World, ◌>>=◌, set_client}
use posix_threads.PoolProxy.Response.{bufsiz}
use posix_threads.PoolProxy.Response.Buffer.{IsBuffered}
use posix_threads.PoolProxy.Response.Append.{Appended}
use posix_threads.PoolProxy.Transfer.{read_bytes, shift_cell, shift_request}
use posix_threads.PoolProxy.Admission.{Cached, with_world, Answers, find_and_add_cache_record}
use posix_threads.PoolProxy.Admission.Search.{IsCache, first_with}
use posix_threads.PoolProxy.Admission.Joins.{Joined, find_and_add-Joined}
use posix_threads.PoolProxy.Request.{
  Parsed, Allocations, is_get, find_host, append_request, serve_request, parse_request,
  receive_request, read_request, read_from_client,
}
use posix_threads.PoolProxy.PollTable.Refines.{IsWatched}
use posix_threads.PoolProxy.Request.Shifts.{
  shift_cell-SameClient, request_index-shift_cell, some_buffer, Handled,
}
use posix_threads.PoolProxy.Request.Appends.{buffer_of, with_buffer, append_request-Appended}

-- Client `i` of the thread is connected, and its buffer is intact.
pub record Sends (c : Cached) (i : ℕ) (cl : ClientCell) (m : Allocations) : Type 0 where
  pub inside : i < c.world.clients.size
  pub cell : get_elem? c.world.clients.cells i ≡ some cl
  pub connected : (cl.fd ==ℤ minus_one) ≡ false
  pub buffered : IsBuffered (buffer_of cl)
  pub request_ok : m.request_ok ≡ true
  pub url_ok : m.url_ok ≡ true
  pub host_ok : m.host_ok ≡ true

-- The parser finds a whole GET of `suc n` bytes for the url at the host.
pub record IsRequest (p : Parsed) (n : ℕ) (url host : List ℕ) : Type 0 where
  pub whole : p.pret ≡ pos (suc n)
  pub get : is_get p.method ≡ some true
  pub path : p.path ≡ url
  pub host_of : find_host p.headers ≡ some (some host)

-- The state after the bytes of client `i` are stored, in a buffer as that of `r`.
abbrev pub stored_in : Cached → ℕ → ClientCell → Record → Cached
stored_in c i cl r = with_world c (set_client c.world i (with_buffer cl r))

modified_other :
    (xs : List ClientCell) (i j : ℕ) (f : ClientCell → ClientCell) (x : ClientCell)
    → get_elem? xs i ≡ some x
    → (i == j) ≡ false
    → get_elem? (modify xs i f) j ≡ get_elem? xs j
modified_other xs i j f x at h = get_elem?-modify xs i j f x at ∙ rw h refl

-- The client with the record at `q`, from its start.
abbrev given : ClientCell → Record → ℕ → ClientCell
given cl r q = record (with_buffer cl r) { cache_record = some q; write_response_index = pos 0 }

module _ (k : ℕ) (others : Cached → Cached) (parse : Option (List ℕ) → ℕ → Parsed) (m : Allocations)
    (answers : List ℕ → Answers) (c : Cached) (i : ℕ) (cl : ClientCell) (s : Sends c i cl m) where
  -- What the bytes lead to is what the parser says of the buffer.
  reads_lem :
      (b : ℕ) (bytes : List ℕ) (r : Record)
      → append_request m.memory (b ∷ bytes) cl ≡ some (with_buffer cl r)
      → read_from_client k others parse m answers c (pos i) (read_bytes (b ∷ bytes))
        ≡ parse_request k others parse m answers
            (stored_in c i cl r)
            i
            (parse r.response r.response_index)
            (parse r.response r.response_index).pret
  unfolding read_from_client read_request receive_request
  reads_lem b bytes r e =
      let below : ltb i (suc c.world.clients.size) ≡ true = lt→ltb _ _ (omega (arith, s.inside)) in
      let allocated : ((cl.request_size == 0) && not m.request_ok) ≡ false =
        ground (arith, s.request_ok) in
      rw (below, s.cell, s.connected, read_from_client) (simp (allocated, e))

  serves_lem :
      (x : Cached) (p : Parsed) (n : ℕ) (url host : List ℕ)
      → IsRequest p n url host
      → parse_request k others parse m answers x i p p.pret ≡ (
          find_and_add_cache_record k others (answers host) x i url (suc n) >>= λ c'.
          shift_request c'.world (pos i) (pos (suc n)) >>= λ w. some (with_world c' w))
  unfolding parse_request serve_request
  serves_lem x p n url host q =
      ap (parse_request k others parse m answers x i p) q.whole
      ∙ simp (q.get, s.url_ok, q.host_of, s.host_ok, q.path)

  shifts :
      (w : World) (n : ℕ) (d : ClientCell)
      → w.clients.size ≡ c.world.clients.size
      → get_elem? w.clients.cells i ≡ some d
      → shift_request w (pos i) (pos (suc n)) ≡ some (set_client w i (shift_cell (suc n) d))
  unfolding shift_request
  shifts w n d size at =
      let below : ltb i w.clients.size ≡ true = lt→ltb _ _ (omega (arith, s.inside, size)) in
      rw (below, at, shift_request) refl

  -- The client after the shift, which had joined the record at `q`.
  handled_lem :
      (b n q : ℕ) (bytes : List ℕ) (r t : Record) (c' : Cached)
      → Appended (b ∷ bytes) (buffer_of cl) r
      → is_neg cl.fd ≡ false
      → Joined (stored_in c i cl r) i q (with_buffer cl r) t c'
      → Handled c.world c'.world i q
          (cl.request_index + length (b ∷ bytes) - suc n)
          cl
          (set_client c'.world i (shift_cell (suc n) (given cl r q)))
  handled_lem b n q bytes r t c' a known joined =
      let d = given cl r q in
      let keeps = shift_cell-SameClient (suc n) d in
      let nonempty : r.response_index ≢ 0 = λ e. absurd (omega (arith, a.index, e)) in
      let (buf, has) =
        some_buffer r.response_size r.response_index r.response a.buffered nonempty in
      let guard : ((r.response_index == 0) || is_neg cl.fd) ≡ false =
        ground (arith, known, a.index) in
      record {
        client = shift_cell (suc n) d;
        at = get_elem?-modify_self c'.world.clients.cells i _ d joined.client;
        joins = keeps.cache_record;
        begins = keeps.write_response_index;
        fd_of = keeps.fd;
        wakes = keeps.thread_fd;
        remaining = request_index-shift_cell (suc n) d buf has guard ∙ ap (λ k. k - suc n) a.index;
        size = joined.size;
        others = λ j h.
            modified_other c'.world.clients.cells i j _ d joined.client h
            ∙ joined.others j h
            ∙ modified_other c.world.clients.cells i j _ cl s.cell h;
        servers = joined.servers;
        records = refl;
        table = refl;
      }

  -- Bytes that one `read` can deliver complete a GET for a url that a record in the list of valid records
  -- has, with the other threads quiet between two nodes and memory at hand: the handler stores
  -- them behind what the client had sent, the client is subscribed to the first such record and has it from
  -- its start, also after the shift of the request, which leaves as many bytes as the parser did not take and
  -- changes no other client, no server, no record and not the poll table; the client is polled for input and
  -- output if the record holds data, and all others as before.
  pub read_from_client-Joined :
      (cs : Cells ℕ) (b : ℕ) (bytes url host : List ℕ) (n q : ℕ) (p : Parsed)
      → length (b ∷ bytes) ≤ bufsiz
      → ((r : Record)
          → Appended (b ∷ bytes) (buffer_of cl) r
          → parse r.response r.response_index ≡ p)
      → IsRequest p n url host
      → ((x : Cached) → others x ≡ x)
      → length cs < k
      → IsCache c cs
      → first_with c.world.records url cs ≡ some q
      → is_neg cl.thread_fd ≡ false
      → IsWatched c.world.table cl.fd
      → (answers host).subscribers_ok ≡ true
      → (r : Record) × Appended (b ∷ bytes) (buffer_of cl) r
        × (t : Record) × (c.world.records q ≡ some t)
        × (c' : Cached) × IsCache c' cs
        × Joined (stored_in c i cl r) i q (with_buffer cl r) t c'
        × (w : World) × Handled c.world c'.world i q
            (cl.request_index + length (b ∷ bytes) - suc n)
            cl
            w
        × (read_from_client k others parse m answers c (pos i) (read_bytes (b ∷ bytes))
            ≡ some (with_world c' w))
  read_from_client-Joined cs b bytes url host n q p small parsed request quiet fuel v f wakes polled
        ok =
      let (r, stored, appended) =
        append_request-Appended m.memory (b ∷ bytes) cl s.buffered small in
      let (t, at, c', found, cache, joined) =
        find_and_add-Joined k others (answers host) (stored_in c i cl r) cs i (suc n) q url
          (with_buffer cl r) quiet fuel
          (record { linked = v.linked; head = v.head; known = v.known }) f
          (get_elem?-modify_self c.world.clients.cells i _ cl s.cell) wakes polled ok in
      let shifted = shifts c'.world n _ joined.size joined.client in
      let same = parsed r appended in
      (
        r,
        appended,
        t,
        at,
        c',
        cache,
        joined,
        set_client c'.world i (shift_cell (suc n) (given cl r q)),
        handled_lem b n q bytes r t c' appended polled.known joined,
        reads_lem b bytes r stored
            ∙ ap (λ x. parse_request k others parse m answers (stored_in c i cl r) i x x.pret) same
            ∙ serves_lem (stored_in c i cl r) p n url host request
            ∙ rw found (rw shifted refl),
      )
