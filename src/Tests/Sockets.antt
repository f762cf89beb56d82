-- ===== src/Tests/Sockets.antt =====
-- The arrays of shuvalov/31/http_socket/http_socket.c at small inputs.
use posix_threads.Common.{ℕ, ◌≡◌, refl, true, some, [], ◌∷◌, arith, pos, find_below}
use posix_threads.SocketTable.{
  SocketArray, ClientSocket, init_client, client_fd, grow_sockets, take_socket, add_socket,
  add_fd_to_clients,
}
use posix_threads.SocketTable.Count.{IsCounted, Added, add_socket-Added}

abbrev enter_five : ClientSocket → ClientSocket
enter_five c = record c { fd = pos 5; processed = 1; poll_index = 3 }

-- One cell, which is in use.
abbrev full_array : SocketArray ClientSocket
full_array = record {
  members = record init_client { fd = pos 4 } ∷ [];
  size = 1;
  current_number = 1;
}

full_array-IsCounted : IsCounted client_fd full_array
full_array-IsCounted = record { sized = refl; room = omega arith; counted = refl }

add_socket-Added_example :
    (i : ℕ) × (b : SocketArray ClientSocket) × (add_socket client_fd init_client true enter_five
        full_array
      ≡ some (pos i, b))
    × Added client_fd init_client refl enter_five full_array i b
add_socket-Added_example =
    add_socket-Added client_fd init_client refl enter_five full_array (λ c. refl)
      full_array-IsCounted

-- The array doubles, and the descriptor is in its second cell.
add_doubles :
    add_fd_to_clients true (pos 5) 3 full_array
    ≡ some (
      pos 1,
      record {
        members = record init_client { fd = pos 4 } ∷ enter_five init_client ∷ [];
        size = 2;
        current_number = 2;
      },
    )
unfolding add_fd_to_clients add_socket grow_sockets take_socket find_below
add_doubles = refl
