-- ===== src/PoolProxy/Request/Appends.antt =====
-- What a client has sent is kept in a buffer that works as that of a response does.
use posix_threads.Common.{
  ℕ, ◌+◌, ◌≤◌, ◌≡◌, refl, ap, ◌∙◌, inl, inr, some, List, arith, leb, ◌==◌, length, Bool-cases,
  Option-cases,
}
use posix_threads.PoolProxy.Slots.{ClientCell}
use posix_threads.PoolProxy.Record.{Record, empty_record}
use posix_threads.PoolProxy.World.{◌>>=◌}
use posix_threads.PoolProxy.Response.{
  bufsiz, copy_at, zeroed_buffer, first_buffer, widen, store_bytes, append_response,
}
use posix_threads.PoolProxy.Response.Buffer.{IsBuffered}
use posix_threads.PoolProxy.Response.Append.{Appended, append_response-Appended}
use posix_threads.PoolProxy.Request.{first_request, widen_request, store_request, append_request}

-- A record with the buffer of the client as its response, and back.
abbrev pub buffer_of : ClientCell → Record
buffer_of cl = record empty_record {
  response = cl.request;
  response_size = cl.request_size;
  response_index = cl.request_index;
}

abbrev pub with_buffer : ClientCell → Record → ClientCell
with_buffer cl r = record cl {
  request = r.response;
  request_size = r.response_size;
  request_index = r.response_index;
}

first_lem : (cl : ClientCell) → first_request cl ≡ with_buffer cl (first_buffer (buffer_of cl))
unfolding first_request first_buffer zeroed_buffer
first_lem cl = elim (Bool-cases (cl.request_size == 0)) [ inl e ↦ simp e | inr e ↦ simp e ]

widen_lem :
    (memory : ℕ → ℕ) (more : ℕ) (cl : ClientCell) (r : Record)
    → widen_request memory more (with_buffer cl r) ≡ with_buffer cl (widen memory more r)
unfolding widen_request widen
widen_lem memory more cl r =
    let same : r.response_index + more ≡ more + r.response_index = omega arith in
    elim (Bool-cases (leb r.response_size (more + r.response_index))) [
      | inl e ↦ simp (same, e)
      | inr e ↦ simp (same, e)
    ]

store_lem :
    (bytes : List ℕ) (cl : ClientCell) (r : Record)
    → store_request bytes (with_buffer cl r)
      ≡ (store_bytes bytes r >>= λ r'. some (with_buffer cl r'))
unfolding store_request store_bytes
store_lem bytes cl r = elim (Option-cases r.response) [
  | inl e ↦ simp e
  | inr (buf, e) ↦ elim (Option-cases (copy_at buf r.response_index bytes)) [
    | inl f ↦ simp (e, f)
    | inr (buf', f) ↦ simp (e, f)
  ]
]

append_request_lem :
    (memory : ℕ → ℕ) (bytes : List ℕ) (cl : ClientCell)
    → append_request memory bytes cl
      ≡ (append_response memory bytes (buffer_of cl) >>= λ r. some (with_buffer cl r))
unfolding append_request append_response
append_request_lem memory bytes cl =
    ap (λ x. store_request bytes (widen_request memory (length bytes) x)) (first_lem cl)
    ∙ ap (store_request bytes) (widen_lem memory (length bytes) cl (first_buffer (buffer_of cl)))
    ∙ store_lem bytes cl (widen memory (length bytes) (first_buffer (buffer_of cl)))

-- Bytes of a client that one `read` can deliver are stored inside its buffer, behind all that it had sent;
-- nothing else of the client changes, and the buffer stays larger than what it holds.
pub append_request-Appended :
    (memory : ℕ → ℕ) (bytes : List ℕ) (cl : ClientCell)
    → IsBuffered (buffer_of cl)
    → length bytes ≤ bufsiz
    → (r : Record) × (append_request memory bytes cl ≡ some (with_buffer cl r))
      × Appended bytes (buffer_of cl) r
append_request-Appended memory bytes cl v small =
    let (r, e, a) = append_response-Appended memory bytes (buffer_of cl) v small in
    (r, append_request_lem memory bytes cl ∙ rw e refl, a)
