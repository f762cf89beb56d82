-- ===== src/PoolProxy/World.antt =====
-- What the handlers of one pool thread of matsko/33_proxy_with_thread_pool/proxy.c work on: its
-- clients, servers and poll table, and the cache records, which clients and servers point to. Here
-- are the functions that end a connection or give up a record.
pub use posix_threads.Common.{◌>>=◌}
use posix_threads.Common.{
  ℕ, suc, true, false, Option, none, some, List, ◌++◌, ltb, ◌==◌, if◌then◌else◌, is_some, get_elem?,
  modify, drop, replicate, ℤ, pos, negsuc, minus_one, ◌==ℤ◌,
}
use posix_threads.PoolProxy.PollTable.{PollTable, remove_from_poll_fds}
use posix_threads.PoolProxy.Slots.{Array, ClientCell, ServerCell}
use posix_threads.PoolProxy.Record.{Record, notify_subscribers}

-- `records p` is the `cache_t` at address `p`, if one is allocated there. `told` are the eventfds
-- that were written to, in order.
pub record World : Type 0 where
  pub records : ℕ → Option Record
  pub clients : Array ClientCell
  pub servers : Array ServerCell
  pub table : PollTable
  pub told : List ℤ

-- `none` is undefined behaviour: a null or dangling pointer, an index outside an array, or a lock of
-- a destroyed mutex.
abbrev pub update {ℓ} : {A : Type ℓ} → (ℕ → A) → ℕ → A → ℕ → A
update f p a q = if p == q then a else f q

abbrev pub put_record : World → ℕ → Record → World
put_record w p r = record w { records = update w.records p (some r) }

abbrev pub set_client : World → ℕ → ClientCell → World
set_client w i c = record w {
  clients = record (w.clients) { cells = modify w.clients.cells i (λ _. c) };
}

abbrev pub set_server : World → ℕ → ServerCell → World
set_server w i s = record w {
  servers = record (w.servers) { cells = modify w.servers.cells i (λ _. s) };
}

-- `client_num < 0 || client_num >= CLIENTS_SIZE`, and the index if the test fails.
abbrev pub index_below : ℕ → ℤ → Option ℕ
index_below size (pos i) = if ltb i size then some i else none
index_below size (negsuc _) = none

-- The fields of the cell, in the order of the three tests of `disconnectClient`.
abbrev pub forget_request : ClientCell → ClientCell
forget_request c = elim c.request [
  | none ↦ c
  | some buf ↦ record c {
    request = some (replicate c.request_index 0 ++ drop c.request_index buf);
    request_index = 0;
  }
]

abbrev pub forget_record : ClientCell → ClientCell
forget_record c =
    if is_some c.cache_record
    then record c { cache_record = none; write_response_index = minus_one }
    else c

abbrev pub forget_client : ClientCell → ClientCell
forget_client c = record (forget_record (forget_request c)) { fd = minus_one }

abbrev pub drop_fd : PollTable → ℤ → PollTable
drop_fd t fd = if fd ==ℤ minus_one then t else remove_from_poll_fds t fd

unfoldable pub disconnect_client : World → ℤ → Option World
disconnect_client w client_num = elim (index_below w.clients.size client_num) [
  | none ↦ some w
  | some i ↦ get_elem? w.clients.cells i >>= λ c.
      some (record (set_client w i (forget_client c)) { table = drop_fd w.table c.fd })
]

-- `notifySubscribers` of a record in memory locks its `subs_mutex`.
unfoldable pub notify : World → ℕ → Option World
notify w p = w.records p >>= λ r.
    if r.valid_subs_mutex
    then (notify_subscribers r >>= λ fds. some (record w { told = w.told ++ fds }))
    else none

-- `server_index = -1; notifySubscribers(record)` for the record of a server, if it has one.
pub leave_record : World → Option ℕ → Option World
unfolding notify
leave_record w none = some w
leave_record w (some p) =
    w.records p >>= λ r. notify (put_record w p (record r { server_index = minus_one })) p

-- The guard of `disconnectServer` is `server_num > SERVERS_SIZE`: it lets the size itself through.
unfoldable pub disconnect_server : World → ℤ → Option World
unfolding leave_record
disconnect_server w server_num = elim (index_below (suc w.servers.size) server_num) [
  | none ↦ some w
  | some i ↦ get_elem? w.servers.cells i >>= λ s. leave_record w s.cache_record >>= λ w'.
      some
        (record (set_server w' i
          (record { cache_record = none; write_request_index = minus_one; fd = minus_one })) {
            table = drop_fd w'.table s.fd;
          })
]

-- The fields that `freeCacheRecord` clears before it looks at `server_index`.
abbrev pub clear_record : Record → Record
clear_record r = record r {
  private = true;
  url = none;
  url_len = if is_some r.url then 0 else r.url_len;
  request = none;
  request_size = 0;
  response = none;
  response_index = 0;
  response_size = 0;
  subscribers = none;
  subscribers_size = if is_some r.subscribers then 0 else r.subscribers_size;
  valid_subs_mutex = false;
}

unfoldable pub end_server : World → ℤ → Option World
unfolding disconnect_server
end_server w n = if n ==ℤ minus_one then some w else disconnect_server w n

unfoldable pub free_cache_record : World → Option ℕ → Option World
unfolding end_server
free_cache_record w none = some w
free_cache_record w (some p) = w.records p >>= λ r.
    end_server (put_record w p (clear_record r)) r.server_index >>= λ w'. w'.records p >>= λ r'.
    some (put_record w' p (record r' { valid_rw_lock = false; valid = false }))
