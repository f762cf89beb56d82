-- ===== src/PoolProxy/Transfer/Forward.antt =====
-- What `writeToServer` forwards of the request of its record.
use posix_threads.Common.{
  ℕ, ◌+◌, ◌≤◌, ◌<◌, ◌≡◌, refl, ◌∙◌, inl, inr, false, some, List, [], ◌++◌, ◌==◌, lt→ltb,
  if◌then◌else◌, or_else, get_elem?, take, drop, length, get_elem?-modify, get_elem?-modify_self,
  sum, take_split, subst, sym, ap, ◌∷◌, Option, arith, pos, minus_one, ◌==ℤ◌, Bool-cases,
}
use mathlib.Core.List.{append-nil}
use posix_threads.PoolProxy.PollTable.{change_event_for_fd, pollin}
use posix_threads.PoolProxy.PollTable.Invariant.{watched}
use posix_threads.PoolProxy.PollTable.Refines.{
  Updated, IsWatched, change_if-Updated, Updated-twice, Updated-IsWatched,
}
use posix_threads.PoolProxy.Slots.{ServerCell}
use posix_threads.PoolProxy.Record.{Record}
use posix_threads.PoolProxy.World.{World, ◌>>=◌, set_server}
use posix_threads.PoolProxy.Transfer.{
  written, write_to_server, written_to_server, forward_record, forward_from,
}
use posix_threads.PoolProxy.Transfer.Deliver.{rest_of-contents}

-- The request of a record.
abbrev pub request_of : Record → List ℕ
request_of r = take r.request_size (or_else r.request [])

-- Server `i` is connected and has `k` bytes of the request of the record `r` at `p`.
pub record Expects (w : World) (i p : ℕ) (s : ServerCell) (r : Record) (k : ℕ) : Type 0 where
  pub inside : i < w.servers.size
  pub cell : get_elem? w.servers.cells i ≡ some s
  pub connected : (s.fd ==ℤ minus_one) ≡ false
  pub points : s.cache_record ≡ some p
  pub allocated : w.records p ≡ some r
  pub position : s.write_request_index ≡ pos k
  pub behind : k ≤ r.request_size
  pub held : r.request_size ≤ length (or_else r.request [])

abbrev forwarded_world : World → ℕ → ServerCell → Record → ℕ → World
forwarded_world w i s r m = record (set_server w i (record s { write_request_index = pos m })) {
  table = if m == r.request_size then change_event_for_fd w.table s.fd pollin else w.table;
}

forwarded_lem :
    (w : World) (i : ℕ) (s : ServerCell) (r : Record) (k n : ℕ)
    → s.write_request_index ≡ pos k
    → written_to_server w i s r (written n) ≡ some (forwarded_world w i s r (k + n))
unfolding written_to_server
forwarded_lem w i s r k n e = elim (Bool-cases ((k + n) == r.request_size)) [
  | inl f ↦ simp (e, f)
  | inr f ↦ simp (e, f)
]

forwards :
    (w : World) (i p : ℕ) (s : ServerCell) (r : Record) (k n : ℕ)
    → Expects w i p s r k
    → write_to_server w (pos i) (written n) ≡ forward_record w i s r (written n)
unfolding write_to_server
forwards w i p s r k n a =
    rw (lt→ltb i w.servers.size a.inside, a.cell, a.connected, write_to_server)
      (simp a.points (rw (a.allocated, forward_from)))

-- One `write` of `n` bytes.
forwards_once :
    (w : World) (i p : ℕ) (s : ServerCell) (r : Record) (k n : ℕ)
    → Expects w i p s r k
    → write_to_server w (pos i) (written n)
      ≡ some (forwarded_world w i s r (k + n), drop k (request_of r))
unfolding forward_record
forwards_once w i p s r k n a =
    let rest = rest_of-contents r.request_size k r.request a.held a.behind in
    let sent = forwarded_lem w i s r k n a.position in
    forwards w i p s r k n a ∙ rw (sent, a.position, rest, forward_record) refl

-- Calls of `writeToServer` for server `i` one after the other, of whose bytes `write` takes `ns` in turn, and
-- what the server receives in all.
pub forward : World → ℕ → List ℕ → Option (World × List ℕ)
forward w i [] = some (w, [])
forward w i (n ∷ ns) = write_to_server w (pos i) (written n) >>= λ (w', bytes).
    forward w' i ns >>= λ (w'', got). some (w'', take n bytes ++ got)

-- What the server has after it received `m` bytes in all.
pub record Forwarded (w : World) (i : ℕ) (s : ServerCell) (r : Record) (m : ℕ) (w' : World)
    : Type 0 where
  pub moved : get_elem? w'.servers.cells i ≡ some (record s { write_request_index = pos m })
  pub others :
      (j : ℕ) → (i == j) ≡ false → get_elem? w'.servers.cells j ≡ get_elem? w.servers.cells j
  pub polled :
      Updated s.fd
        (if m == r.request_size then some pollin else watched s.fd w.table)
        w.table
        w'.table
  pub records : w'.records ≡ w.records
  pub clients : w'.clients ≡ w.clients

once-Forwarded :
    (w : World) (i p : ℕ) (s : ServerCell) (r : Record) (k n : ℕ)
    → Expects w i p s r k
    → IsWatched w.table s.fd
    → Forwarded w i s r (k + n) (forwarded_world w i s r (k + n))
once-Forwarded w i p s r k n a watches = record {
  moved = get_elem?-modify_self w.servers.cells i _ s a.cell;
  others = λ j h. get_elem?-modify w.servers.cells i j _ s a.cell ∙ rw h refl;
  polled = change_if-Updated w.table s.fd pollin ((k + n) == r.request_size) watches;
  records = refl;
  clients = refl;
}

-- The server after one `write` awaits the rest.
once-Expects :
    (w : World) (i p : ℕ) (s : ServerCell) (r : Record) (k n : ℕ)
    → Expects w i p s r k
    → k + n ≤ r.request_size
    → Expects
        (forwarded_world w i s r (k + n))
        i
        p
        (record s { write_request_index = pos (k + n) })
        r
        (k + n)
once-Expects w i p s r k n a h = record {
  inside = a.inside;
  cell = get_elem?-modify_self w.servers.cells i _ s a.cell;
  connected = a.connected;
  points = a.points;
  allocated = a.allocated;
  position = refl;
  behind = h;
  held = a.held;
}

twice-Forwarded :
    (w w1 w2 : World) (i : ℕ) (s : ServerCell) (r : Record) (m l : ℕ)
    → m ≤ l
    → l ≤ r.request_size
    → Forwarded w i s r m w1
    → Forwarded w1 i (record s { write_request_index = pos m }) r l w2
    → Forwarded w i s r l w2
twice-Forwarded w w1 w2 i s r m l less bound d e = record {
  moved = e.moved;
  others = λ j h. e.others j h ∙ d.others j h;
  polled =
      Updated-twice s.fd pollin (m == r.request_size) (l == r.request_size) w.table w1.table
        w2.table (λ f. ground arith) d.polled e.polled;
  records = e.records ∙ d.records;
  clients = e.clients ∙ d.clients;
}

-- The request of a record reaches a connected server whole and in order, however `write` splits it: a server
-- that has had `k` bytes and is given as many calls of `writeToServer` as `write` answers numbers of bytes,
-- of which there is one at least and which are in all no more than it lacks, receives just the bytes of the
-- request behind the first `k`, as many as the numbers are in all, and is then past these. Its descriptor, which
-- the valid table polls, is polled for input alone when nothing is left to send and as before when something is;
-- all other descriptors are polled as before, and other servers, clients and records do not change.
pub forward-Forwarded :
    (w : World) (i p : ℕ) (s : ServerCell) (r : Record) (k n : ℕ) (ns : List ℕ)
    → Expects w i p s r k
    → IsWatched w.table s.fd
    → k + sum (n ∷ ns) ≤ r.request_size
    → (w' : World) × (forward w i (n ∷ ns) ≡ some (w', take (sum (n ∷ ns)) (drop k (request_of r))))
      × Forwarded w i s r (k + sum (n ∷ ns)) w'
unfolding forward
forward-Forwarded w i p s r k n [] a watches h =
    let one : n + 0 ≡ n = omega arith in
    (
      forwarded_world w i s r (k + n),
      rw (forwards_once w i p s r k n a) (
          rw one (
            ap (λ xs. some (forwarded_world w i s r (k + n), xs))
              (append-nil (take n (drop k (request_of r)))))),
      rw one (once-Forwarded w i p s r k n a watches),
    )
forward-Forwarded w i p s r k n (m ∷ ns) a watches h =
    let w1 = forwarded_world w i s r (k + n) in
    let d = once-Forwarded w i p s r k n a watches in
    let (w2, run, e) =
      forward-Forwarded w1 i p (record s { write_request_index = pos (k + n) }) r (k + n) m ns
        (once-Expects w i p s r k n a (omega (arith, h)))
        (Updated-IsWatched s.fd pollin ((k + n) == r.request_size) w.table w1.table watches
          d.polled)
        (omega (arith, h)) in
    let whole : k + n + sum (m ∷ ns) ≡ k + (n + sum (m ∷ ns)) = omega arith in
    (
      w2,
      rw (forwards_once w i p s r k n a)
          (rw run (ap (λ xs. some (w2, xs)) (sym (take_split n (sum (m ∷ ns)) k (request_of r))))),
      subst (λ l. Forwarded w i s r l w2) whole
          (twice-Forwarded w w1 w2 i s r (k + n) (k + n + sum (m ∷ ns)) (omega arith)
            (omega (arith, h)) d e),
    )
