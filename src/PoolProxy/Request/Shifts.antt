-- ===== src/PoolProxy/Request/Shifts.antt =====
-- What `shiftRequest` leaves of a client of matsko/33_proxy_with_thread_pool/proxy.c that has joined a
-- record.
use posix_threads.Common.{
  ℕ, ◌-◌, ◌≡◌, ◌≢◌, refl, ap, ◌∙◌, sym, subst, inl, inr, false, ◌||◌, Option, none, some, List,
  arith, ◌==◌, get_elem?, Bool-cases, pos, is_neg, if◌then◌else◌,
}
use posix_threads.PoolProxy.Slots.{ClientCell}
use posix_threads.PoolProxy.World.{World}
use posix_threads.PoolProxy.Response.Buffer.{Holds}
use posix_threads.PoolProxy.Response.{shift_buffer}
use posix_threads.PoolProxy.Transfer.{shift_cell}

-- All of a client but its request.
pub record SameClient (d d' : ClientCell) : Type 0 where
  pub cache_record : d'.cache_record ≡ d.cache_record
  pub write_response_index : d'.write_response_index ≡ d.write_response_index
  pub thread_fd : d'.thread_fd ≡ d.thread_fd
  pub fd : d'.fd ≡ d.fd

SameClient-self : (d : ClientCell) → SameClient d d
SameClient-self d = record {
  cache_record = refl;
  write_response_index = refl;
  thread_fd = refl;
  fd = refl;
}

-- `shift_cell` of a client whose buffer is `o`.
abbrev shifted : ℕ → ClientCell → Option (List ℕ) → ClientCell
shifted pret d none = d
shifted pret d (some buf) = if (d.request_index == 0) || is_neg d.fd then d else record d {
  request = some (shift_buffer pret d.request_index buf);
  request_index = d.request_index - pret;
}

shift_cell_lem : (pret : ℕ) (d : ClientCell) → shift_cell pret d ≡ shifted pret d d.request
unfolding shift_cell
shift_cell_lem pret d = ground arith

shifted-SameClient :
    (pret : ℕ) (d : ClientCell) (o : Option (List ℕ)) → SameClient d (shifted pret d o)
shifted-SameClient pret d none = SameClient-self d
shifted-SameClient pret d (some buf) = elim (Bool-cases ((d.request_index == 0) || is_neg d.fd)) [
  | inl f ↦ rw f (SameClient-self d)
  | inr f ↦
      rw f
        (record { cache_record = refl; write_response_index = refl; thread_fd = refl; fd = refl })
]

pub shift_cell-SameClient : (pret : ℕ) (d : ClientCell) → SameClient d (shift_cell pret d)
shift_cell-SameClient pret d =
    subst (SameClient d) (sym (shift_cell_lem pret d)) (shifted-SameClient pret d d.request)

pub request_index-shift_cell :
    (pret : ℕ) (d : ClientCell) (buf : List ℕ)
    → d.request ≡ some buf
    → ((d.request_index == 0) || is_neg d.fd) ≡ false
    → (shift_cell pret d).request_index ≡ d.request_index - pret
request_index-shift_cell pret d buf e f =
    ap (λ (x : ClientCell). x.request_index) (shift_cell_lem pret d ∙ ap (shifted pret d) e)
    ∙ rw f refl

-- A buffer that holds something is there.
pub some_buffer :
    (size index : ℕ) (old : Option (List ℕ))
    → Holds size index old
    → index ≢ 0
    → (buf : List ℕ) × (old ≡ some buf)
some_buffer size index none v h = absurd (h (v.1))
some_buffer size index (some buf) v h = (buf, refl)

-- After the handler: client `i`, which was `cl`, has the record at `q` from its start and has `left` bytes
-- of its request left; the other clients and all servers are as they were, and the records and the
-- table are those of the world `v`.
pub record Handled (w0 v : World) (i q left : ℕ) (cl : ClientCell) (w : World) : Type 0 where
  pub client : ClientCell
  pub at : get_elem? w.clients.cells i ≡ some client
  pub joins : client.cache_record ≡ some q
  pub begins : client.write_response_index ≡ pos 0
  pub fd_of : client.fd ≡ cl.fd
  pub wakes : client.thread_fd ≡ cl.thread_fd
  pub remaining : client.request_index ≡ left
  pub size : w.clients.size ≡ w0.clients.size
  pub others :
      (j : ℕ) → (i == j) ≡ false → get_elem? w.clients.cells j ≡ get_elem? w0.clients.cells j
  pub servers : w.servers ≡ w0.servers
  pub records : w.records ≡ v.records
  pub table : w.table ≡ v.table
