-- ===== src/PoolProxy/Transfer/Abandon.antt =====
-- The branch of `writeToClient` of matsko/33_proxy_with_thread_pool/proxy.c for a record without a server that is
-- not full.
use posix_threads.Common.{
  ℕ, ◌<◌, ◌≡◌, refl, ◌∙◌, true, false, not, ◌&&◌, some, [], arith, lt→ltb, ◌==◌, get_elem?, pos,
  minus_one, ◌==ℤ◌,
}
use posix_threads.PoolProxy.Slots.{ClientCell}
use posix_threads.PoolProxy.Record.{Record}
use posix_threads.PoolProxy.World.{
  World, set_client, put_record, forget_client, drop_fd, clear_record, end_server,
  disconnect_client, free_cache_record,
}
use posix_threads.PoolProxy.Transfer.{WriteResult, write_to_client, write_from, write_record}

-- Client `i` is connected and reads from the record at `p`.
pub record Reads (w : World) (i p : ℕ) (c : ClientCell) : Type 0 where
  pub inside : i < w.clients.size
  pub cell : get_elem? w.clients.cells i ≡ some c
  pub connected : (c.fd ==ℤ minus_one) ≡ false
  pub points : c.cache_record ≡ some p

-- The record after `freeCacheRecord`.
abbrev pub freed : Record → Record
freed r = record (clear_record r) { valid_rw_lock = false; valid = false }

unfoldable pub freed_world : World → ℕ → Record → World
freed_world w p r = put_record (put_record w p (clear_record r)) p (freed r)

free_lem :
    (w : World) (p : ℕ) (r : Record)
    → w.records p ≡ some r
    → r.server_index ≡ minus_one
    → free_cache_record w (some p) ≡ some (freed_world w p r)
unfolding free_cache_record end_server freed_world
free_lem w p r at alone = let itself : (p == p) ≡ true = ground arith in simp (at, alone, itself)

-- The world after client `i` is gone.
abbrev pub left_world : World → ℕ → ℕ → ClientCell → Record → World
left_world w i p c r = record (set_client (freed_world w p r) i (forget_client c)) {
  table = drop_fd w.table c.fd;
}

leaves_lem :
    (w : World) (i p : ℕ) (c : ClientCell) (r : Record)
    → Reads w i p c
    → disconnect_client (freed_world w p r) (pos i) ≡ some (left_world w i p c r)
unfolding disconnect_client freed_world
leaves_lem w i p c r a = rw (lt→ltb i w.clients.size a.inside, a.cell, disconnect_client) refl

-- Past its guards `writeToClient` goes on with the record of the client.
enters_lem :
    (w : World) (i p : ℕ) (c : ClientCell) (result : WriteResult)
    → Reads w i p c
    → write_to_client w (pos i) result ≡ write_from w i c (some p) result
unfolding write_to_client
enters_lem w i p c result a =
    rw (lt→ltb i w.clients.size a.inside, a.cell, a.connected, a.points, write_to_client) refl

pub gives_up_lem :
    (w : World) (i p : ℕ) (c : ClientCell) (r : Record) (result : WriteResult)
    → Reads w i p c
    → w.records p ≡ some r
    → r.server_index ≡ minus_one
    → r.full ≡ false
    → write_to_client w (pos i) result ≡ some (left_world w i p c r, [])
unfolding write_from write_record
gives_up_lem w i p c r result a at alone partial =
    let test : ((r.server_index ==ℤ minus_one) && not r.full) ≡ true = ground arith in
    let goes_on : write_record w i c p r result ≡ some (left_world w i p c r, []) =
      rw (test, free_lem w p r at alone, write_record) (rw (leaves_lem w i p c r a) refl) in
    enters_lem w i p c result a ∙ rw (at, write_from) goes_on
