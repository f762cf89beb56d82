-- ===== src/PoolProxy/Transfer/Relay.antt =====
-- What reaches the cache record from a server, and a client from the record.
use posix_threads.Common.{
  ℕ, suc, ◌≤◌, ◌<◌, ◌≡◌, refl, ◌∙◌, ◌⊎◌, inl, inr, true, false, Bool, not, ◌&&◌, Option, none, some,
  List, ◌∷◌, ◌++◌, arith, ◌==◌, lt→ltb, get_elem?-modify-none, get_elem?-modify_self, get_elem?,
  modify, length, ℤ, pos, minus_one, ◌==ℤ◌, Option-cases,
}
use posix_threads.PoolProxy.Slots.{ServerCell, empty_server}
use posix_threads.PoolProxy.Record.{Record, notify_subscribers}
use posix_threads.PoolProxy.World.{
  World, ◌>>=◌, put_record, set_server, disconnect_server, leave_record, notify, drop_fd,
}
use posix_threads.PoolProxy.Response.{bufsiz, publish}
use posix_threads.PoolProxy.Response.Buffer.{IsBuffered, contents}
use posix_threads.PoolProxy.Response.Append.{SameRole, append_response-Appended}
use posix_threads.PoolProxy.Transfer.{read_bytes, fail_receive, receive, read_from_server}

-- Server `i` is connected, and its record `r` is in memory at `p`.
pub record Serves (w : World) (i p : ℕ) (s : ServerCell) (r : Record) : Type 0 where
  pub inside : i < w.servers.size
  pub cell : get_elem? w.servers.cells i ≡ some s
  pub connected : (s.fd ==ℤ minus_one) ≡ false
  pub points : s.cache_record ≡ some p
  pub allocated : w.records p ≡ some r

reads :
    (parse : Option (List ℕ) → ℕ → ℕ → ℤ × ℕ) (memory : ℕ → ℕ) (got_memory : Bool) (w : World)
    (i p : ℕ) (s : ServerCell) (r : Record) (b : ℕ) (bytes : List ℕ)
    → Serves w i p s r
    → read_from_server parse memory got_memory w (pos i) (read_bytes (b ∷ bytes))
      ≡ receive parse memory got_memory w i p (b ∷ bytes)
unfolding read_from_server
reads parse memory got_memory w i p s r b bytes v =
    rw (lt→ltb i w.servers.size v.inside, v.cell, v.connected, v.points, read_from_server)

-- Server `i` of the cells has no record to read.
abbrev record_of : (ℕ → Option Record) → List ServerCell → ℕ → World → Option World
record_of records cells i w =
    get_elem? cells i >>= λ s. s.cache_record >>= λ p. records p >>= λ r. some w

orphan-none :
    (records : ℕ → Option Record) (cells : List ServerCell) (i : ℕ) (w : World)
    → record_of records (modify cells i (λ _. empty_server)) i w ≡ none
orphan-none records cells i w = elim (Option-cases (get_elem? cells i)) [
  | inl f ↦ rw (get_elem?-modify-none cells i (λ _. empty_server) f)
  | inr (old, f) ↦ rw (get_elem?-modify_self cells i (λ _. empty_server) old f)
]

-- Either it faults itself, or the record of server `i` cannot be reached any more.
disconnect_orphans :
    (w : World) (i : ℕ)
    → i < w.servers.size
    → (disconnect_server w (pos i) ≡ none)
      ⊎ ((w' : World) × (disconnect_server w (pos i) ≡ some w')
          × (record_of w'.records w'.servers.cells i w' ≡ none))
unfolding disconnect_server
disconnect_orphans w i h =
    rw (lt→ltb i (suc w.servers.size) (omega arith), disconnect_server)
      (elim (Option-cases (get_elem? w.servers.cells i)) [
        | inl e ↦ inl (rw (e, disconnect_server))
        | inr (s, e) ↦ elim (Option-cases (leave_record w s.cache_record)) [
          | inl f ↦ inl (rw (e, f, disconnect_server))
          | inr (w', f) ↦ inr (
            record (set_server w' i empty_server) { table = drop_fd w'.table s.fd },
            rw (e, f, disconnect_server),
            orphan-none w'.records w'.servers.cells i _,
          )
        ]
      ])

fail_receive-none : (w : World) (i : ℕ) → i < w.servers.size → fail_receive w i ≡ none
unfolding fail_receive
fail_receive-none w i h = elim (disconnect_orphans w i h) [
  | inl e ↦ rw (e, fail_receive)
  | inr (w', e, gone) ↦ rw (e, fail_receive) gone
]

-- When the first buffer of a response cannot be allocated, `readFromServer` reads through the null
-- pointer that `disconnectServer` has just left in the server's cell.
pub read_from_server-faults :
    (parse : Option (List ℕ) → ℕ → ℕ → ℤ × ℕ) (memory : ℕ → ℕ) (w : World) (i p : ℕ)
    (s : ServerCell) (r : Record) (b : ℕ) (bytes : List ℕ)
    → Serves w i p s r
    → r.response_size ≡ 0
    → read_from_server parse memory false w (pos i) (read_bytes (b ∷ bytes)) ≡ none
unfolding receive
read_from_server-faults parse memory w i p s r b bytes v e =
    let first : (r.response_size == 0) ≡ true = ground arith in
    reads parse memory false w i p s r b bytes v
    ∙ rw (v.allocated, first) (fail_receive-none w i v.inside)

notify_lem :
    (w : World) (p : ℕ) (r : Record) (fds : List ℤ)
    → w.records p ≡ some r
    → r.valid_subs_mutex ≡ true
    → notify_subscribers r ≡ some fds
    → notify w p ≡ some (record w { told = w.told ++ fds })
unfolding notify
notify_lem w p r fds at live who = simp (at, live, who)

put_record_at : (w : World) (p : ℕ) (r : Record) → (put_record w p r).records p ≡ some r
put_record_at w p r = ground arith

same_told : (r r' : Record) → SameRole r r' → notify_subscribers r' ≡ notify_subscribers r
unfolding notify_subscribers
same_told r r' s = rw (s.subscribers_size, s.subscribers)

-- What is in memory at `p` after `publish`, and who was told.
pub record Received (w : World) (p : ℕ) (r : Record) (bytes : List ℕ) (fds : List ℤ) (w' : World)
    : Type 0 where
  pub now : Record
  pub allocated : w'.records p ≡ some now
  pub buffered : IsBuffered now
  pub received : contents now ≡ contents r ++ bytes
  pub told : w'.told ≡ w.told ++ fds
  pub others : (q : ℕ) → (p == q) ≡ false → w'.records q ≡ w.records q

-- A successful `read` from a server whose record is intact: the bytes stand behind what the record
-- had, in a buffer that holds them, each subscriber is written to, and no other record changes.
pub read_from_server-Received :
    (parse : Option (List ℕ) → ℕ → ℕ → ℤ × ℕ) (memory : ℕ → ℕ) (w : World) (i p : ℕ)
    (s : ServerCell) (r : Record) (fds : List ℤ) (b : ℕ) (bytes : List ℕ)
    → Serves w i p s r
    → IsBuffered r
    → r.valid_subs_mutex ≡ true
    → notify_subscribers r ≡ some fds
    → length (b ∷ bytes) ≤ bufsiz
    → (w' : World) × (read_from_server parse memory true w (pos i) (read_bytes (b ∷ bytes))
        ≡ some w')
      × Received w p r (b ∷ bytes) fds w'
unfolding receive publish
read_from_server-Received parse memory w i p s r fds b bytes v ok live who small =
    let (r', stored, d) = append_response-Appended memory (b ∷ bytes) r ok small in
    let w1 = put_record w p r' in
    let told =
      notify_lem w1 p r' fds (put_record_at w p r') (d.role.valid_subs_mutex ∙ live)
        (same_told r r' d.role ∙ who) in
    let made : ((r.response_size == 0) && not true) ≡ false = ground arith in
    (
      put_record (record w1 { told = w.told ++ fds }) p (publish parse r.response_index r'),
      reads parse memory true w i p s r b bytes v ∙ rw (v.allocated, made, stored, told),
      record {
        now = publish parse r.response_index r';
        allocated = ground arith;
        buffered = d.buffered;
        received = d.received;
        told = refl;
        others = λ q e. ground arith;
      },
    )
