-- ===== src/SocketTable.antt =====
-- The arrays of clients and of servers of shuvalov/31/http_socket/http_socket.c, with the number of
-- cells in use: they double when all are. The C code has each function twice; here it is written once,
-- over the cell type.
pub mod Count
use posix_threads.Common.{
  ℕ, ◌+◌, ◌*◌, Bool, true, false, Option, none, some, List, [], ◌++◌, ◌==◌, if◌then◌else◌, modify,
  replicate, ℤ, pos, minus_one, ◌==ℤ◌, find_below,
}

pub record SocketArray (A : Type 0) : Type 0 where
  pub members : List A
  pub size : ℕ
  pub current_number : ℕ

-- The fields of `struct client` that are set when it is added; `buffered` says whether its request
-- has its buffers.
pub record ClientSocket : Type 0 where
  pub fd : ℤ
  pub poll_index : ℕ
  pub processed : ℕ
  pub bytes_written : ℕ
  pub cache_node : ℤ
  pub buffered : Bool

pub record ServerSocket : Type 0 where
  pub fd : ℤ
  pub poll_index : ℕ
  pub processed : ℕ
  pub bytes_written : ℕ
  pub request : Option ℕ

-- `init_client` and `setup_server`, over what was in memory.
abbrev pub init_client : ClientSocket
init_client = record {
  fd = minus_one;
  cache_node = minus_one;
  processed = 0;
  poll_index = 0;
  bytes_written = 0;
  buffered = true;
}

abbrev pub setup_server : ServerSocket
setup_server = record {
  fd = minus_one;
  processed = 0;
  bytes_written = 0;
  poll_index = 0;
  request = none;
}

module _ {A : Type 0} (fd_of : A → ℤ) (fresh : A) where
  pub init_sockets : (allocated : Bool) → ℕ → Option (SocketArray A)
  init_sockets allocated size =
      if allocated
      then some (record { members = replicate size fresh; size = size; current_number = 0 })
      else none

  -- When every cell is in use; `none` is a failed allocation, answered by -1.
  unfoldable pub grow_sockets : (allocated : Bool) → SocketArray A → Option (SocketArray A)
  grow_sockets allocated a =
      if a.current_number == a.size
      then (if allocated
          then some (record a { members = a.members ++ replicate a.size fresh; size = a.size * 2 })
          else none)
      else some a

  -- The first free cell is changed by `enter`.
  unfoldable pub take_socket : (enter : A → A) → SocketArray A → ℤ × SocketArray A
  unfolding find_below
  take_socket enter a = elim (find_below (λ c. fd_of c ==ℤ minus_one) a.size a.members) [
    | none ↦ (minus_one, a)
    | some i ↦ (
      pos i,
      record a { members = modify a.members i enter; current_number = a.current_number + 1 },
    )
  ]

  unfoldable pub add_socket :
      (allocated : Bool) (enter : A → A) → SocketArray A → Option (ℤ × SocketArray A)
  unfolding grow_sockets take_socket
  add_socket allocated enter a = elim (grow_sockets allocated a) [
    | none ↦ none
    | some b ↦ some (take_socket enter b)
  ]

abbrev pub client_fd : ClientSocket → ℤ
client_fd c = c.fd

abbrev pub server_fd : ServerSocket → ℤ
server_fd s = s.fd

unfoldable pub add_fd_to_clients :
    (allocated : Bool) → ℤ → ℕ → SocketArray ClientSocket → Option (ℤ × SocketArray ClientSocket)
unfolding add_socket
add_fd_to_clients allocated fd poll_index =
    add_socket client_fd init_client allocated
      (λ c. record c { fd = fd; processed = 1; poll_index = poll_index })

unfoldable pub add_fd_to_servers :
    (allocated : Bool)
    → ℤ
    → ℕ
    → Option ℕ
    → SocketArray ServerSocket
    → Option (ℤ × SocketArray ServerSocket)
unfolding add_socket
add_fd_to_servers allocated fd poll_index request =
    add_socket server_fd setup_server allocated
      (λ s. record s { fd = fd; processed = 1; poll_index = poll_index; request = request })
