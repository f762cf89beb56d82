-- ===== src/PoolProxy/Loop/Stale.antt =====
-- The clients of a thread of matsko/33_proxy_with_thread_pool/proxy.c that share a record: `writeToClient` and the
-- loop over the clients in `threadFunc`.
use posix_threads.Common.{
  ℕ, zero, suc, ◌<◌, ◌≡◌, refl, ◌∙◌, inl, inr, false, Option, none, some, List, [], ◌∷◌, arith,
  ◌==◌, get_elem?, get_elem?-modify, pos, minus_one, ◌==ℤ◌, Option-cases,
}
use posix_threads.PoolProxy.PollTable.{PollTable}
use posix_threads.PoolProxy.Slots.{ClientCell}
use posix_threads.PoolProxy.Record.{Record}
use posix_threads.PoolProxy.World.{World, forget_client}
use posix_threads.PoolProxy.Transfer.{WriteResult, write_to_client}
use posix_threads.PoolProxy.Transfer.Abandon.{Reads, freed, freed_world, left_world, gives_up_lem}
use posix_threads.PoolProxy.Loop.{wake_cell, wake_cells, wake_clients}

-- The loop over the clients reaches a record whose lock is destroyed.
wake_cells-none :
    (rs : ℕ → Option Record) (n j : ℕ) (cells : List ClientCell) (t : PollTable) (c : ClientCell)
    (p : ℕ) (r : Record)
    → j < n
    → get_elem? cells j ≡ some c
    → (c.fd ==ℤ minus_one) ≡ false
    → c.cache_record ≡ some p
    → rs p ≡ some r
    → r.valid_rw_lock ≡ false
    → wake_cells rs n cells t ≡ none
unfolding wake_cells wake_cell
wake_cells-none rs zero j cells t c p r h at open_fd points stored gone = absurd (omega arith)
wake_cells-none rs (suc n) j [] t c p r h at open_fd points stored gone = refl
wake_cells-none rs (suc n) zero (d ∷ cells) t c p r h at open_fd points stored gone =
    let same : d ≡ c = ground arith in rw same (simp (open_fd, points, stored, gone))
wake_cells-none rs (suc n) (suc j) (d ∷ cells) t c p r h at open_fd points stored gone =
    elim (Option-cases (wake_cell rs d t)) [
      | inl e ↦ rw (e, wake_cells) refl
      | inr (u, e) ↦
          rw (e, wake_cells)
            (wake_cells-none rs n j cells u c p r (omega arith) at open_fd points stored gone)
    ]

-- Two different clients of one thread are connected and read from a record that has no server and is not full.
-- `writeToClient` for the one returns and leaves the other connected and pointing to the record, whose lock is
-- now destroyed; and in the state it leaves, the loop of the thread that is woken makes a bad access.
pub write_to_client-wake_clients :
    (w : World) (i j p : ℕ) (c d : ClientCell) (r : Record) (result : WriteResult)
    → Reads w i p c
    → Reads w j p d
    → (i == j) ≡ false
    → w.records p ≡ some r
    → r.server_index ≡ minus_one
    → r.full ≡ false
    → (w' : World) × (write_to_client w (pos i) result ≡ some (w', []))
      × Reads w' j p d
      × ((r' : Record) × (w'.records p ≡ some r') × (r'.valid_rw_lock ≡ false))
      × (wake_clients w' ≡ none)
unfolding wake_clients freed_world
write_to_client-wake_clients w i j p c d r result a b apart at alone partial =
    let w' = left_world w i p c r in
    let still : get_elem? w'.clients.cells j ≡ some d =
      get_elem?-modify w.clients.cells i j (λ _. forget_client c) c a.cell ∙ rw apart b.cell in
    let stored : w'.records p ≡ some (freed r) = ground arith in
    (
      w',
      gives_up_lem w i p c r result a at alone partial,
      record { inside = b.inside; cell = still; connected = b.connected; points = b.points },
      (freed r, stored, refl),
      rw
          (wake_cells-none w'.records w'.clients.size j w'.clients.cells w'.table d p (freed r)
            b.inside still b.connected b.points stored refl)
          refl,
    )
