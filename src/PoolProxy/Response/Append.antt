-- ===== src/PoolProxy/Response/Append.antt =====
-- `readFromServer` stores what it reads behind what is there, inside the buffer.
use posix_threads.Common.{
  ℕ, ◌+◌, ◌-◌, ◌≤◌, ◌<◌, ◌≡◌, refl, ap, ◌∙◌, Option, none, some, or_else, List, [], ◌++◌, arith,
  take, length, tabulate, take_within, take_all, length-take,
}
use posix_threads.PoolProxy.Record.{Record}
use posix_threads.PoolProxy.Response.{
  bufsiz, first_buffer, realloc_bytes, widen, store_bytes, append_response, finish_response,
}
use posix_threads.PoolProxy.Response.Buffer.{
  Holds, IsBuffered, contents, Ready, copy_at_lem, first_buffer-Ready, widen-Ready,
}

-- What the readers of a record are told, and by what it is known, is the same.
pub record SameRole (r r' : Record) : Type 0 where
  pub subscribers : r'.subscribers ≡ r.subscribers
  pub subscribers_size : r'.subscribers_size ≡ r.subscribers_size
  pub valid_subs_mutex : r'.valid_subs_mutex ≡ r.valid_subs_mutex
  pub valid_rw_lock : r'.valid_rw_lock ≡ r.valid_rw_lock
  pub server_index : r'.server_index ≡ r.server_index
  pub full : r'.full ≡ r.full
  pub private : r'.private ≡ r.private

-- What storing `bytes` in a record does.
pub record Appended (bytes : List ℕ) (r r' : Record) : Type 0 where
  pub buffered : IsBuffered r'
  pub received : contents r' ≡ contents r ++ bytes
  pub index : r'.response_index ≡ r.response_index + length bytes
  pub role : SameRole r r'

store_bytes-Appended :
    (bytes : List ℕ) (r : Record) (buf : List ℕ)
    → Ready r buf
    → length bytes + r.response_index < length buf
    → (r' : Record) × (store_bytes bytes r ≡ some r')
      × IsBuffered r'
      × (contents r' ≡ take r.response_index buf ++ bytes)
      × (r'.response_index ≡ r.response_index + length bytes)
      × SameRole r r'
unfolding store_bytes
store_bytes-Appended bytes r buf d fits =
    let (buf', copied, same, got) = copy_at_lem buf r.response_index bytes (omega arith) in
    (
      record r { response = some buf'; response_index = r.response_index + length bytes },
      simp (d.has, copied),
      (omega (arith, d.size, same), d.least, omega (arith, d.size, same)),
      got,
      refl,
      record {
        subscribers = refl;
        subscribers_size = refl;
        valid_subs_mutex = refl;
        valid_rw_lock = refl;
        server_index = refl;
        full = refl;
        private = refl;
      },
    )

index_kept :
    (memory : ℕ → ℕ) (more : ℕ) (r : Record)
    → (widen memory more (first_buffer r)).response_index ≡ r.response_index
unfolding widen first_buffer
index_kept memory more r = ground arith

role_kept :
    (memory : ℕ → ℕ) (more : ℕ) (r r' : Record)
    → SameRole (widen memory more (first_buffer r)) r'
    → SameRole r r'
unfolding widen first_buffer
role_kept memory more r r' s = ground arith

-- Bytes that one `read` can deliver are stored inside the buffer, behind all that came before, and
-- the buffer stays larger than what it holds.
pub append_response-Appended :
    (memory : ℕ → ℕ) (bytes : List ℕ) (r : Record)
    → IsBuffered r
    → length bytes ≤ bufsiz
    → (r' : Record) × (append_response memory bytes r ≡ some r') × Appended bytes r r'
unfolding append_response
append_response-Appended memory bytes r v small =
    let (buf, ready, had) = first_buffer-Ready r v in
    let (buf', ready', fits, had') =
      widen-Ready memory (length bytes) (first_buffer r) buf ready small in
    let (r', stored, buffered, got, index, same) =
      store_bytes-Appended bytes (widen memory (length bytes) (first_buffer r)) buf' ready' fits in
    (
      r',
      stored,
      record {
        buffered = buffered;
        received = got ∙ ap (λ xs. xs ++ bytes) (had' ∙ had);
        index = omega (arith, index, index_kept memory (length bytes) r);
        role = role_kept memory (length bytes) r r' same;
      },
    )

received_fits :
    (size index : ℕ) (old : Option (List ℕ))
    → Holds size index old
    → index ≤ length (or_else old [])
received_fits size index none v = omega arith
received_fits size index (some buf) v = omega arith

-- At the end of the stream: the buffer is exactly what was received, and the size that
-- is kept for it is its length.
pub finish_response-contents :
    (memory : ℕ → ℕ) (r : Record)
    → IsBuffered r
    → ((finish_response memory r).response ≡ some (contents r))
      × (contents (finish_response memory r) ≡ contents r)
      × (length (contents r) ≡ (finish_response memory r).response_size)
unfolding finish_response realloc_bytes
finish_response-contents memory r v =
    let buf : List ℕ = or_else r.response [] in
    let inside : r.response_index ≤ length buf =
      received_fits r.response_size r.response_index r.response v in
    let cut =
      take_within r.response_index buf
        (tabulate memory (length buf) (r.response_index - length buf)) inside in
    let exact : length (take r.response_index buf) ≡ r.response_index =
      length-take r.response_index buf inside in
    (
      ap some cut,
      ap (take r.response_index) cut
          ∙ take_all r.response_index (take r.response_index buf) (omega (arith, exact)),
      exact,
    )
