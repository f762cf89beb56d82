-- ===== src/PoolProxy/Transfer.antt =====
-- What moves data in matsko/33_proxy_with_thread_pool/proxy.c: `readFromServer`, `writeToClient`,
-- `writeToServer` and `shiftRequest`. What `read` and `write` return is an argument.
pub mod Abandon
pub mod Relay
pub mod Deliver
pub mod Forward
use posix_threads.Common.{
  ℕ, zero, suc, ◌+◌, ◌-◌, ◌*◌, ◌≤◌, ◌<◌, ◌≡◌, Bool, true, false, ◌&&◌, ◌||◌, Option, none, some,
  or_else, not, List, [], ◌∷◌, ◌++◌, ltb, leb, ◌==◌, if◌then◌else◌, is_some, get_elem?, modify,
  take, drop, length, replicate, tabulate, ℤ, pos, negsuc, minus_one, is_neg, ◌==ℤ◌,
}
use posix_threads.PoolProxy.PollTable.{change_event_for_fd, pollin}
use posix_threads.PoolProxy.Slots.{ClientCell, ServerCell}
use posix_threads.PoolProxy.Record.{Record}
use posix_threads.PoolProxy.World.{
  World, ◌>>=◌, put_record, set_client, set_server, index_below, disconnect_client,
  disconnect_server, free_cache_record, notify,
}
use posix_threads.PoolProxy.Response.{
  append_response, finish_response, publish, rest_of, advance, shift_buffer,
}

-- What `read` returns; no bytes are the end of the stream.
pub data ReadResult : Type 0 where
  read_failed : ReadResult
  read_bytes : List ℕ → ReadResult

pub data WriteResult : Type 0 where
  write_failed : WriteResult
  written : ℕ → WriteResult

-- After a failed `calloc` the code ends the server, and then unlocks the record of that server.
pub fail_receive : World → ℕ → Option World
fail_receive w i = disconnect_server w (pos i) >>= λ w'.
    get_elem? w'.servers.cells i >>= λ s. s.cache_record >>= λ p. w'.records p >>= λ r. some w'

-- The branch of `readFromServer` that has bytes, for server `i` with its record at `p`.
pub receive :
    (parse : Option (List ℕ) → ℕ → ℕ → ℤ × ℕ) (memory : ℕ → ℕ) (allocated : Bool)
    → World
    → ℕ
    → ℕ
    → List ℕ
    → Option World
unfolding fail_receive
receive parse memory allocated w i p bytes = w.records p >>= λ r.
    if (r.response_size == 0) && not allocated
    then fail_receive w i
    else (append_response memory bytes r >>= λ r'. notify (put_record w p r') p >>= λ w'.
        some (put_record w' p (publish parse r.response_index r')))

-- The end of the stream.
complete : (memory : ℕ → ℕ) → World → ℕ → ℕ → Option World
complete memory w i p = w.records p >>= λ r.
    notify (put_record w p (finish_response memory r)) p >>= λ w'. disconnect_server w' (pos i)

read_into :
    (parse : Option (List ℕ) → ℕ → ℕ → ℤ × ℕ) (memory : ℕ → ℕ) (allocated : Bool)
    → World
    → ℕ
    → ServerCell
    → ReadResult
    → Option World
unfolding receive complete
read_into parse memory allocated w i s read_failed = some w
read_into parse memory allocated w i s (read_bytes []) =
    s.cache_record >>= λ p. complete memory w i p
read_into parse memory allocated w i s (read_bytes (b ∷ bytes)) =
    s.cache_record >>= λ p. receive parse memory allocated w i p (b ∷ bytes)

pub read_from_server :
    (parse : Option (List ℕ) → ℕ → ℕ → ℤ × ℕ) (memory : ℕ → ℕ) (allocated : Bool)
    → World
    → ℤ
    → ReadResult
    → Option World
unfolding read_into
read_from_server parse memory allocated w server_num result =
    elim (index_below w.servers.size server_num) [
      | none ↦ some w
      | some i ↦ get_elem? w.servers.cells i >>= λ s.
          if s.fd ==ℤ minus_one then some w else read_into parse memory allocated w i s result
    ]

-- After `write` to client `i`, whose record is `r`.
written_to_client : World → ℕ → ClientCell → Record → WriteResult → Option World
written_to_client w i c r write_failed = disconnect_client w (pos i)
written_to_client w i c r (written n) =
    let next = advance c.write_response_index n in
    let w' = set_client w i (record c { write_response_index = next }) in
    if next ==ℤ pos r.response_index
    then some (record w' { table = change_event_for_fd w'.table c.fd pollin })
    else some w'

-- `writeToClient` to client `i` past its first guard, with its record: the new state, and the bytes
-- that were given to `write`.
write_record : World → ℕ → ClientCell → ℕ → Record → WriteResult → Option (World × List ℕ)
write_record w i c p r result =
    if (r.server_index ==ℤ minus_one) && not r.full
    then (free_cache_record w (some p) >>= λ w'.
        disconnect_client w' (pos i) >>= λ w''. some (w'', []))
    else if r.valid_rw_lock
    then (rest_of r.response r.response_index c.write_response_index >>= λ bytes.
        written_to_client w i c r result >>= λ w'. some (w', bytes))
    else none

write_from : World → ℕ → ClientCell → Option ℕ → WriteResult → Option (World × List ℕ)
unfolding write_record
write_from w i c none result = disconnect_client w (pos i) >>= λ w'. some (w', [])
write_from w i c (some p) result = w.records p >>= λ r. write_record w i c p r result

pub write_to_client : World → ℤ → WriteResult → Option (World × List ℕ)
unfolding write_from
write_to_client w client_num result = elim (index_below w.clients.size client_num) [
  | none ↦ some (w, [])
  | some i ↦ get_elem? w.clients.cells i >>= λ c.
      if c.fd ==ℤ minus_one then some (w, []) else write_from w i c c.cache_record result
]

written_to_server : World → ℕ → ServerCell → Record → WriteResult → Option World
written_to_server w i s r write_failed = disconnect_server w (pos i)
written_to_server w i s r (written n) =
    let next = advance s.write_request_index n in
    let w' = set_server w i (record s { write_request_index = next }) in
    if next ==ℤ pos r.request_size
    then some (record w' { table = change_event_for_fd w'.table s.fd pollin })
    else some w'

-- `write` to server `i` of the request of its record `r`, and what follows.
forward_record : World → ℕ → ServerCell → Record → WriteResult → Option (World × List ℕ)
unfolding written_to_server
forward_record w i s r result = rest_of r.request r.request_size s.write_request_index >>= λ bytes.
    written_to_server w i s r result >>= λ w'. some (w', bytes)

forward_from : World → ℕ → ServerCell → Option ℕ → WriteResult → Option (World × List ℕ)
unfolding forward_record
forward_from w i s none result = none
forward_from w i s (some p) result = w.records p >>= λ r. forward_record w i s r result

pub write_to_server : World → ℤ → WriteResult → Option (World × List ℕ)
unfolding forward_from
write_to_server w server_num result = elim (index_below w.servers.size server_num) [
  | none ↦ some (w, [])
  | some i ↦ get_elem? w.servers.cells i >>= λ s.
      if s.fd ==ℤ minus_one then some (w, []) else forward_from w i s s.cache_record result
]

unfoldable pub shift_cell : ℕ → ClientCell → ClientCell
shift_cell pret c = elim c.request [
  | none ↦ c
  | some buf ↦ if (c.request_index == 0) || is_neg c.fd then c else record c {
    request = some (shift_buffer pret c.request_index buf);
    request_index = c.request_index - pret;
  }
]

unfoldable pub shift_request : World → ℤ → ℤ → Option World
unfolding shift_cell
shift_request w client_num (negsuc _) = some w
shift_request w client_num (pos pret) = elim (index_below w.clients.size client_num) [
  | none ↦ some w
  | some i ↦ get_elem? w.clients.cells i >>= λ c. some (set_client w i (shift_cell pret c))
]
