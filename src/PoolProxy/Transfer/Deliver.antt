-- ===== src/PoolProxy/Transfer/Deliver.antt =====
-- What `writeToClient` gives a client of the record that it reads from.
use posix_threads.Common.{
  ℕ, zero, suc, ◌+◌, ◌≤◌, ◌<◌, ◌≡◌, refl, ◌∙◌, inl, inr, true, false, not, ◌&&◌, Option, none, some,
  List, [], ◌++◌, arith, ◌==◌, lt→ltb, if◌then◌else◌, or_else, get_elem?, take, drop, length,
  get_elem?-modify, get_elem?-modify_self, sum, take_split, subst, sym, ap, ◌∷◌, pos, minus_one,
  ◌==ℤ◌, Bool-cases,
}
use mathlib.Core.List.{append-nil}
use posix_threads.PoolProxy.PollTable.{change_event_for_fd, pollin}
use posix_threads.PoolProxy.PollTable.Invariant.{watched}
use posix_threads.PoolProxy.PollTable.Refines.{
  Updated, IsWatched, change_if-Updated, Updated-twice, Updated-IsWatched,
}
use posix_threads.PoolProxy.Slots.{ClientCell}
use posix_threads.PoolProxy.Record.{Record}
use posix_threads.PoolProxy.World.{World, ◌>>=◌, set_client}
use posix_threads.PoolProxy.Response.{rest_of}
use posix_threads.PoolProxy.Response.Buffer.{contents}
use posix_threads.PoolProxy.Transfer.{
  written, write_to_client, write_from, write_record, written_to_client,
}

-- Client `i` is connected and has `k` bytes of the record `r`, which is in memory at `p` and can
-- still be served.
pub record Awaits (w : World) (i p : ℕ) (c : ClientCell) (r : Record) (k : ℕ) : Type 0 where
  pub inside : i < w.clients.size
  pub cell : get_elem? w.clients.cells i ≡ some c
  pub connected : (c.fd ==ℤ minus_one) ≡ false
  pub points : c.cache_record ≡ some p
  pub allocated : w.records p ≡ some r
  pub alive : ((r.server_index ==ℤ minus_one) && not r.full) ≡ false
  pub lock : r.valid_rw_lock ≡ true
  pub position : c.write_response_index ≡ pos k
  pub behind : k ≤ r.response_index
  pub held : r.response_index ≤ length (or_else r.response [])

pub rest_of-contents :
    (index k : ℕ) (old : Option (List ℕ))
    → index ≤ length (or_else old [])
    → k ≤ index
    → rest_of old index (pos k) ≡ some (drop k (take index (or_else old [])))
unfolding rest_of
rest_of-contents zero zero none v h = refl
rest_of-contents zero (suc k) none v h = absurd (omega arith)
rest_of-contents (suc index) k none v h = absurd (omega arith)
rest_of-contents index k (some buf) v h = ground arith

writes :
    (w : World) (i p : ℕ) (c : ClientCell) (r : Record) (k n : ℕ)
    → Awaits w i p c r k
    → write_to_client w (pos i) (written n) ≡ write_record w i c p r (written n)
unfolding write_to_client
writes w i p c r k n a =
    rw (lt→ltb i w.clients.size a.inside, a.cell, a.connected, write_to_client)
      (simp a.points (rw (a.allocated, write_from)))

abbrev sent_world : World → ℕ → ClientCell → Record → ℕ → World
sent_world w i c r m = record (set_client w i (record c { write_response_index = pos m })) {
  table = if m == r.response_index then change_event_for_fd w.table c.fd pollin else w.table;
}

written_lem :
    (w : World) (i : ℕ) (c : ClientCell) (r : Record) (k n : ℕ)
    → c.write_response_index ≡ pos k
    → written_to_client w i c r (written n) ≡ some (sent_world w i c r (k + n))
unfolding written_to_client
written_lem w i c r k n e = elim (Bool-cases ((k + n) == r.response_index)) [
  | inl f ↦ simp (e, f)
  | inr f ↦ simp (e, f)
]

-- One `write` of `n` bytes.
writes_once :
    (w : World) (i p : ℕ) (c : ClientCell) (r : Record) (k n : ℕ)
    → Awaits w i p c r k
    → write_to_client w (pos i) (written n) ≡ some (sent_world w i c r (k + n), drop k (contents r))
unfolding write_record rest_of written_to_client
writes_once w i p c r k n a =
    let rest = rest_of-contents r.response_index k r.response a.held a.behind in
    writes w i p c r k n a
    ∙ rw (a.alive, a.lock, written_lem w i c r k n a.position, a.position, rest, write_record) refl

-- Calls of `writeToClient` for client `i` one after the other, of whose bytes `write` takes `ns` in turn, and
-- what the client receives in all.
pub deliver : World → ℕ → List ℕ → Option (World × List ℕ)
deliver w i [] = some (w, [])
deliver w i (n ∷ ns) = write_to_client w (pos i) (written n) >>= λ (w', bytes).
    deliver w' i ns >>= λ (w'', got). some (w'', take n bytes ++ got)

-- What the client has after it received `m` bytes in all.
pub record Delivered (w : World) (i : ℕ) (c : ClientCell) (r : Record) (m : ℕ) (w' : World)
    : Type 0 where
  pub moved : get_elem? w'.clients.cells i ≡ some (record c { write_response_index = pos m })
  pub others :
      (j : ℕ) → (i == j) ≡ false → get_elem? w'.clients.cells j ≡ get_elem? w.clients.cells j
  pub polled :
      Updated c.fd
        (if m == r.response_index then some pollin else watched c.fd w.table)
        w.table
        w'.table
  pub records : w'.records ≡ w.records
  pub servers : w'.servers ≡ w.servers

once-Delivered :
    (w : World) (i p : ℕ) (c : ClientCell) (r : Record) (k n : ℕ)
    → Awaits w i p c r k
    → IsWatched w.table c.fd
    → Delivered w i c r (k + n) (sent_world w i c r (k + n))
once-Delivered w i p c r k n a watches = record {
  moved = get_elem?-modify_self w.clients.cells i _ c a.cell;
  others = λ j h. get_elem?-modify w.clients.cells i j _ c a.cell ∙ rw h refl;
  polled = change_if-Updated w.table c.fd pollin ((k + n) == r.response_index) watches;
  records = refl;
  servers = refl;
}

-- The client after one `write` awaits the rest.
once-Awaits :
    (w : World) (i p : ℕ) (c : ClientCell) (r : Record) (k n : ℕ)
    → Awaits w i p c r k
    → k + n ≤ r.response_index
    → Awaits
        (sent_world w i c r (k + n))
        i
        p
        (record c { write_response_index = pos (k + n) })
        r
        (k + n)
once-Awaits w i p c r k n a h = record {
  inside = a.inside;
  cell = get_elem?-modify_self w.clients.cells i _ c a.cell;
  connected = a.connected;
  points = a.points;
  allocated = a.allocated;
  alive = a.alive;
  lock = a.lock;
  position = refl;
  behind = h;
  held = a.held;
}

twice-Delivered :
    (w w1 w2 : World) (i : ℕ) (c : ClientCell) (r : Record) (m l : ℕ)
    → m ≤ l
    → l ≤ r.response_index
    → Delivered w i c r m w1
    → Delivered w1 i (record c { write_response_index = pos m }) r l w2
    → Delivered w i c r l w2
twice-Delivered w w1 w2 i c r m l less bound d e = record {
  moved = e.moved;
  others = λ j h. e.others j h ∙ d.others j h;
  polled =
      Updated-twice c.fd pollin (m == r.response_index) (l == r.response_index) w.table w1.table
        w2.table (λ f. ground arith) d.polled e.polled;
  records = e.records ∙ d.records;
  servers = e.servers ∙ d.servers;
}

-- The response of a record reaches a connected client whole and in order, however `write` splits it: a client
-- that has had `k` bytes and is given as many calls of `writeToClient` as `write` answers numbers of bytes,
-- of which there is one at least and which are in all no more than it lacks, receives just the bytes of the
-- response behind the first `k`, as many as the numbers are in all, and is then past these. Its descriptor, which
-- the valid table polls, is polled for input alone when nothing is left to send and as before when something is;
-- all other descriptors are polled as before, and other clients, servers and records do not change.
pub deliver-Delivered :
    (w : World) (i p : ℕ) (c : ClientCell) (r : Record) (k n : ℕ) (ns : List ℕ)
    → Awaits w i p c r k
    → IsWatched w.table c.fd
    → k + sum (n ∷ ns) ≤ r.response_index
    → (w' : World) × (deliver w i (n ∷ ns) ≡ some (w', take (sum (n ∷ ns)) (drop k (contents r))))
      × Delivered w i c r (k + sum (n ∷ ns)) w'
unfolding deliver
deliver-Delivered w i p c r k n [] a watches h =
    let one : n + 0 ≡ n = omega arith in
    (
      sent_world w i c r (k + n),
      rw (writes_once w i p c r k n a) (
          rw one (
            ap (λ xs. some (sent_world w i c r (k + n), xs))
              (append-nil (take n (drop k (contents r)))))),
      rw one (once-Delivered w i p c r k n a watches),
    )
deliver-Delivered w i p c r k n (m ∷ ns) a watches h =
    let w1 = sent_world w i c r (k + n) in
    let d = once-Delivered w i p c r k n a watches in
    let (w2, run, e) =
      deliver-Delivered w1 i p (record c { write_response_index = pos (k + n) }) r (k + n) m ns
        (once-Awaits w i p c r k n a (omega (arith, h)))
        (Updated-IsWatched c.fd pollin ((k + n) == r.response_index) w.table w1.table watches
          d.polled)
        (omega (arith, h)) in
    let whole : k + n + sum (m ∷ ns) ≡ k + (n + sum (m ∷ ns)) = omega arith in
    (
      w2,
      rw (writes_once w i p c r k n a)
          (rw run (ap (λ xs. some (w2, xs)) (sym (take_split n (sum (m ∷ ns)) k (contents r))))),
      subst (λ l. Delivered w i c r l w2) whole
          (twice-Delivered w w1 w2 i c r (k + n) (k + n + sum (m ∷ ns)) (omega arith)
            (omega (arith, h)) d e),
    )
