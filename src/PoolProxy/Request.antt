-- ===== src/PoolProxy/Request.antt =====
-- `readFromClient` of matsko/33_proxy_with_thread_pool/proxy.c: the request of a client is stored until
-- the HTTP parser finds it whole, then it joins the list of records.
pub mod Appends
pub mod Methods
pub mod Shifts
pub mod Handler
use posix_threads.Common.{
  same_chars, ℕ, zero, suc, ◌+◌, ◌*◌, Bool, true, false, not, ◌&&◌, Option, none, some, List, [],
  ◌∷◌, leb, ◌==◌, if◌then◌else◌, length, get_elem?, replicate, ℤ, pos, negsuc, minus_one, ◌==ℤ◌,
}
use posix_threads.PoolProxy.Slots.{ClientCell}
use posix_threads.PoolProxy.World.{◌>>=◌, index_below, set_client, disconnect_client}
use posix_threads.PoolProxy.Response.{bufsiz, copy_at, realloc_bytes}
use posix_threads.PoolProxy.Transfer.{ReadResult, read_failed, read_bytes, shift_request}
use posix_threads.PoolProxy.Admission.{Cached, with_world, Answers, find_and_add_cache_record}

-- `struct phr_header`: the characters from the start of the name on, if the name is not null, and the
-- value.
pub record Header : Type 0 where
  pub name : Option (List ℕ)
  pub value : List ℕ

-- What `phr_parse_request` answers.
pub record Parsed : Type 0 where
  pub pret : ℤ
  pub method : List ℕ
  pub path : List ℕ
  pub headers : List Header

-- Which of the allocations succeed, and what `realloc` leaves in new cells.
pub record Allocations : Type 0 where
  pub request_ok : Bool
  pub url_ok : Bool
  pub host_ok : Bool
  pub memory : ℕ → ℕ

-- "GET" and "Host", with the zero at the end.
abbrev pub get_text : List ℕ
get_text = 71 ∷ 69 ∷ 84 ∷ 0 ∷ []

abbrev pub host_text : List ℕ
host_text = 72 ∷ 111 ∷ 115 ∷ 116 ∷ 0 ∷ []

-- `strncmp(method, "GET", method_len) == 0`
unfoldable pub is_get : List ℕ → Option Bool
unfolding same_chars
is_get method = same_chars (length method) method get_text

-- The value of the first header whose name begins with "Host", if there is one.
unfoldable pub find_host : List Header → Option (Option (List ℕ))
unfolding same_chars
find_host [] = some none
find_host (h ∷ hs) =
    let rest = find_host hs in
    h.name >>= λ name.
    same_chars 4 name host_text >>= λ same. if same then some (some h.value) else rest

pub first_request : ClientCell → ClientCell
first_request cl =
    if cl.request_size == 0
    then record cl { request_size = bufsiz; request = some (replicate bufsiz 0) }
    else cl

-- Twice the size when the bytes do not fit with one cell to spare; the result of `realloc` is not
-- looked at.
pub widen_request : (memory : ℕ → ℕ) → ℕ → ClientCell → ClientCell
widen_request memory more cl =
    if leb cl.request_size (cl.request_index + more)
    then record cl {
      request_size = cl.request_size * 2;
      request = some (realloc_bytes memory (cl.request_size * 2) cl.request);
    }
    else cl

pub store_request : List ℕ → ClientCell → Option ClientCell
store_request bytes cl = cl.request >>= λ buf. copy_at buf cl.request_index bytes >>= λ buf'.
    some (record cl { request = some buf'; request_index = cl.request_index + length bytes })

pub append_request : (memory : ℕ → ℕ) → List ℕ → ClientCell → Option ClientCell
unfolding first_request widen_request store_request
append_request memory bytes cl =
    store_request bytes (widen_request memory (length bytes) (first_request cl))

-- `disconnectClient` of client `i`.
pub leave : Cached → ℕ → Option Cached
leave c i = disconnect_client c.world (pos i) >>= λ w. some (with_world c w)

module _ (fuel : ℕ) (others : Cached → Cached) (parse : Option (List ℕ) → ℕ → Parsed)
    (m : Allocations) (answers : List ℕ → Answers) where
  -- A whole request of `pret` bytes: the answers from outside may depend on the host.
  pub serve_request : Cached → ℕ → Parsed → ℕ → Option Cached
  unfolding is_get find_host
  serve_request c i p pret = is_get p.method >>= λ get.
      if get && m.url_ok
      then (find_host p.headers >>= λ host. elim host [
        | none ↦ leave c i
        | some h ↦
            if m.host_ok
            then (find_and_add_cache_record fuel others (answers h) c i p.path pret >>= λ c'.
                shift_request c'.world (pos i) (pos pret) >>= λ w. some (with_world c' w))
            else leave c i
      ])
      else leave c i

  -- -1 is a request that is no HTTP, -2 one that is not complete.
  pub parse_request : Cached → ℕ → Parsed → ℤ → Option Cached
  unfolding serve_request
  parse_request c i p (pos zero) = some c
  parse_request c i p (pos (suc n)) = serve_request c i p (suc n)
  parse_request c i p (negsuc zero) = leave c i
  parse_request c i p (negsuc (suc n)) = some c

  pub receive_request : Cached → ℕ → ClientCell → List ℕ → Option Cached
  unfolding append_request parse_request
  receive_request c i cl bytes =
      if (cl.request_size == 0) && not m.request_ok
      then leave
          (with_world c
            (set_client c.world i (record cl { request_size = bufsiz; request = none })))
          i
      else (append_request m.memory bytes cl >>= λ cl'.
          let p = parse cl'.request cl'.request_index in
          parse_request (with_world c (set_client c.world i cl')) i p p.pret)

  pub read_request : Cached → ℕ → ClientCell → ReadResult → Option Cached
  unfolding receive_request
  read_request c i cl read_failed = leave c i
  read_request c i cl (read_bytes []) = leave c i
  read_request c i cl (read_bytes (b ∷ bytes)) = receive_request c i cl (b ∷ bytes)

  -- The guard is `client_num > CLIENTS_SIZE`: it lets the size itself through.
  pub read_from_client : Cached → ℤ → ReadResult → Option Cached
  unfolding read_request
  read_from_client c client_num result = elim (index_below (suc c.world.clients.size) client_num) [
    | none ↦ some c
    | some i ↦ get_elem? c.world.clients.cells i >>= λ cl.
        if cl.fd ==ℤ minus_one then some c else read_request c i cl result
  ]
