-- ===== src/PoolProxy/Slots.antt =====
-- The arrays of clients and of servers of one pool thread, in which a cell with `fd == -1` is free
-- (matsko/33_proxy_with_thread_pool/proxy.c). The C code has each function twice, once for
-- `client_t` and once for `server_t`; the scans are written once, over the cell type.
pub mod Table
pub mod Refines
use posix_threads.Common.{
  ℕ, ◌*◌, Bool, Option, none, some, List, ◌++◌, if◌then◌else◌, get_elem?, modify, replicate, ℤ, pos,
  minus_one, is_neg, ◌==ℤ◌, find_below,
}

-- `typedef struct client`; `cache_record` is a pointer.
pub record ClientCell : Type 0 where
  pub request : Option (List ℕ)
  pub cache_record : Option ℕ
  pub request_size : ℕ
  pub request_index : ℕ
  pub write_response_index : ℤ
  pub thread_fd : ℤ
  pub fd : ℤ

-- `typedef struct server`
pub record ServerCell : Type 0 where
  pub cache_record : Option ℕ
  pub write_request_index : ℤ
  pub fd : ℤ

abbrev pub empty_server : ServerCell
empty_server = record { cache_record = none; write_request_index = minus_one; fd = minus_one }

abbrev pub empty_client : ClientCell
empty_client = record {
  request = none;
  cache_record = none;
  request_size = 0;
  request_index = 0;
  write_response_index = minus_one;
  thread_fd = minus_one;
  fd = minus_one;
}

-- An array and the size that the code keeps beside it (`CLIENTS_SIZE`, `SERVERS_SIZE`).
pub record Array {ℓ} (A : Type ℓ) : Type ℓ where
  pub cells : List A
  pub size : ℕ

module _ {ℓ} {A : Type ℓ} (empty : A) where
  pub init_array : (allocated : Bool) → ℕ → Option (Array A)
  init_array allocated size =
      if allocated then some (record { cells = replicate size empty; size = size }) else none

  -- The new cells are all written; the result of `realloc` is not looked at.
  unfoldable pub realloc_array : Array A → Array A
  realloc_array a = record { cells = a.cells ++ replicate a.size empty; size = a.size * 2 }

module _ {ℓ} {A : Type ℓ} (fd_of : A → ℤ) where
  unfoldable pub find_by_fd : Array A → ℤ → ℤ
  unfolding find_below
  find_by_fd a fd =
      if is_neg fd then minus_one else elim (find_below (λ c. fd_of c ==ℤ fd) a.size a.cells) [
        | none ↦ minus_one
        | some i ↦ pos i
      ]

  unfoldable pub find_free : (empty : A) (set_fd : ℤ → A → A) → Array A → ℤ → ℤ × Array A
  unfolding find_below realloc_array
  find_free empty set_fd a fd =
      if is_neg fd
      then (minus_one, a)
      else elim (find_below (λ c. fd_of c ==ℤ minus_one) a.size a.cells) [
        | some i ↦ (pos i, record a { cells = modify a.cells i (set_fd fd) })
        | none ↦
            let b = realloc_array empty a in
            (pos a.size, record b { cells = modify b.cells a.size (set_fd fd) })
      ]

abbrev pub client_fd : ClientCell → ℤ
client_fd c = c.fd

abbrev pub set_client_fd : ℤ → ClientCell → ClientCell
set_client_fd fd c = record c { fd = fd }

abbrev pub server_fd : ServerCell → ℤ
server_fd s = s.fd

abbrev pub set_server_fd : ℤ → ServerCell → ServerCell
set_server_fd fd s = record s { fd = fd }

pub init_servers : (allocated : Bool) → ℕ → Option (Array ServerCell)
unfolding init_array
init_servers = init_array empty_server

pub init_clients : (allocated : Bool) → ℕ → Option (Array ClientCell)
unfolding init_array
init_clients = init_array empty_client

pub realloc_servers : Array ServerCell → Array ServerCell
unfolding realloc_array
realloc_servers = realloc_array empty_server

pub realloc_clients : Array ClientCell → Array ClientCell
unfolding realloc_array
realloc_clients = realloc_array empty_client

-- The index of a free cell, now with `server_fd`; with none free, the first cell of the new half.
pub find_free_server : Array ServerCell → ℤ → ℤ × Array ServerCell
unfolding find_free
find_free_server = find_free server_fd empty_server set_server_fd

pub find_free_client : Array ClientCell → ℤ → ℤ × Array ClientCell
unfolding find_free
find_free_client = find_free client_fd empty_client set_client_fd

unfoldable pub find_server_by_fd : Array ServerCell → ℤ → ℤ
unfolding find_by_fd
find_server_by_fd = find_by_fd server_fd

unfoldable pub find_client_by_fd : Array ClientCell → ℤ → ℤ
unfolding find_by_fd
find_client_by_fd = find_by_fd client_fd
