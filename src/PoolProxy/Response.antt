-- ===== src/PoolProxy/Response.antt =====
-- The growing buffers of matsko/33_proxy_with_thread_pool/proxy.c: the response that
-- `readFromServer` stores, what `write` is given of a buffer, and the bytes that `shiftRequest` moves.
-- Whether an allocation succeeds and what `realloc` leaves in new cells are arguments.
pub mod Buffer
pub mod Append
pub mod Shift
use posix_threads.Common.{
  ℕ, zero, suc, ◌+◌, ◌-◌, ◌*◌, ◌≤◌, ◌<◌, ◌≡◌, Bool, true, false, ◌&&◌, ◌||◌, Option, none, some,
  or_else, not, List, [], ◌∷◌, ◌++◌, ltb, leb, ◌==◌, if◌then◌else◌, is_some, get_elem?, modify,
  take, drop, length, replicate, tabulate, ℤ, pos, negsuc, minus_one, is_neg, ◌==ℤ◌,
}
use posix_threads.PoolProxy.Record.{Record}
use posix_threads.PoolProxy.World.{◌>>=◌}

-- `BUFSIZ` of the C library; also `START_REQUEST_SIZE` and `START_RESPONSE_SIZE`.
abbrev pub bufsiz : ℕ
bufsiz = 8192

-- `memcpy(&buf[i], bytes, ...)`; a write outside the buffer is a fault.
pub copy_at : List ℕ → ℕ → List ℕ → Option (List ℕ)
copy_at buf i bytes =
    if leb (i + length bytes) (length buf)
    then some (take i buf ++ (bytes ++ drop (i + length bytes) buf))
    else none

-- `calloc(START_RESPONSE_SIZE, sizeof(char))`; the buffer of a response is made at the first read.
unfoldable pub zeroed_buffer : List ℕ
zeroed_buffer = replicate bufsiz 0

unfoldable pub first_buffer : Record → Record
first_buffer r =
    if r.response_size == 0
    then record r { response_size = bufsiz; response = some zeroed_buffer }
    else r

-- `realloc(response, n)`; for a null pointer it allocates.
pub realloc_bytes : (memory : ℕ → ℕ) → ℕ → Option (List ℕ) → List ℕ
realloc_bytes memory n old =
    let buf : List ℕ = or_else old [] in
    take n (buf ++ tabulate memory (length buf) (n - length buf))

-- Twice the size when the bytes do not fit with one cell to spare.
unfoldable pub widen : (memory : ℕ → ℕ) → ℕ → Record → Record
unfolding realloc_bytes
widen memory more r =
    if leb r.response_size (more + r.response_index)
    then record r {
      response_size = r.response_size * 2;
      response = some (realloc_bytes memory (r.response_size * 2) r.response);
    }
    else r

unfoldable pub store_bytes : List ℕ → Record → Option Record
unfolding copy_at
store_bytes bytes r = r.response >>= λ buf. copy_at buf r.response_index bytes >>= λ buf'.
    some (record r { response = some buf'; response_index = r.response_index + length bytes })

unfoldable pub append_response : (memory : ℕ → ℕ) → List ℕ → Record → Option Record
unfolding first_buffer widen store_bytes
append_response memory bytes r = store_bytes bytes (widen memory (length bytes) (first_buffer r))

-- At the end of the stream: the record is complete and its buffer cut to what was received.
pub finish_response : (memory : ℕ → ℕ) → Record → Record
unfolding realloc_bytes
finish_response memory r = record r {
  full = true;
  response = some (realloc_bytes memory r.response_index r.response);
  response_size = r.response_index;
}

abbrev pub is_positive : ℤ → Bool
is_positive (pos n) = ltb 0 n
is_positive (negsuc n) = false

-- `parse` stands for `phr_parse_response` on the buffer, its length and the length before the last
-- read; it gives the result and the status of the response.
unfoldable pub publish : (parse : Option (List ℕ) → ℕ → ℕ → ℤ × ℕ) → ℕ → Record → Record
publish parse prev_len r =
    let (pret, status) = parse r.response r.response_index prev_len in
    record r {
      private = if is_positive pret && (leb 200 status && ltb status 300) then false else r.private;
    }

-- The bytes handed to `write`: from the index on, as many as the buffer has; an index that is
-- negative or past the end is a fault.
unfoldable pub rest_of : Option (List ℕ) → ℕ → ℤ → Option (List ℕ)
rest_of buf end (negsuc _) = none
rest_of none end (pos i) = if i == end then some [] else none
rest_of (some buf) end (pos i) = if leb i end then some (drop i (take end buf)) else none

abbrev pub advance : ℤ → ℕ → ℤ
advance (pos i) n = pos (i + n)
advance (negsuc i) n = negsuc i

-- The loop of `shiftRequest`, for `rounds` values of `i` from `i` on.
shift_loop : ℕ → ℕ → ℕ → List ℕ → List ℕ
shift_loop zero i pret buf = buf
shift_loop (suc rounds) i pret buf =
    shift_loop rounds (i + 1) pret (modify buf i (λ b. or_else (get_elem? buf (i - pret)) b))

-- `shiftRequest` on the cell of a client, past its guards; `pret` is at most `request_index`.
unfoldable pub shift_buffer : ℕ → ℕ → List ℕ → List ℕ
unfolding shift_loop
shift_buffer pret index buf =
    let moved = shift_loop (index - pret) pret pret buf in
    take (index - pret) moved ++ (replicate pret 0 ++ drop index moved)
