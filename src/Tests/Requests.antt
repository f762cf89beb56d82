-- ===== src/Tests/Requests.antt =====
-- A whole request of a client of matsko/33_proxy_with_thread_pool/proxy.c, at a small input.
use posix_threads.Common.{
  ℕ, ◌≡◌, refl, inr, true, some, none, List, [], ◌∷◌, arith, ◌==◌, if◌then◌else◌, pos, same_chars,
}
use posix_threads.Chain.{node, write, Cells}
use posix_threads.PoolProxy.PollTable.{zeroed, pollin}
use posix_threads.PoolProxy.PollTable.Lookup.{watch}
use posix_threads.PoolProxy.PollTable.Refines.{IsWatched}
use posix_threads.PoolProxy.Request.Shifts.{Handled}
use posix_threads.PoolProxy.Slots.{ClientCell, empty_client, empty_server}
use posix_threads.PoolProxy.Record.{Record}
use posix_threads.PoolProxy.World.{World}
use posix_threads.PoolProxy.Response.Append.{Appended}
use posix_threads.PoolProxy.Transfer.{read_bytes}
use posix_threads.PoolProxy.Admission.{Cached, with_world, Answers, new_record}
use posix_threads.PoolProxy.Admission.Search.{IsCache, first_with, has_url, same_text}
use posix_threads.PoolProxy.Admission.Joins.{Joined}
use posix_threads.PoolProxy.Request.{
  Parsed, Allocations, is_get, find_host, host_text, read_from_client,
}
use posix_threads.PoolProxy.Request.Appends.{buffer_of, with_buffer}
use posix_threads.PoolProxy.Request.Handler.{Sends, IsRequest, stored_in, read_from_client-Joined}

-- The url "/a", and a connected client with no bytes yet.
abbrev url_a : List ℕ
url_a = 47 ∷ 97 ∷ []

abbrev new_client : ClientCell
new_client = record empty_client { fd = pos 5; thread_fd = pos 9 }

abbrev one_record : Cached
one_record = record {
  world = record {
    records = λ p. if p == 100 then some (new_record url_a) else none;
    clients = record { cells = new_client ∷ []; size = 1 };
    servers = record { cells = empty_server ∷ []; size = 1 };
    table = record {
      fds = record { fd = pos 5; events = pollin; revents = 0 } ∷ [];
      last = 1;
      size = 1;
      closed = [];
    };
    told = [];
  };
  nodes = write (λ _. none) 1 (some (node 100 none));
  head = some 1;
}

five-IsWatched : IsWatched one_record.world.table (pos 5)
unfolding watch
five-IsWatched = record {
  table = record {
    sized = refl;
    room = omega arith;
    fits = omega arith;
    distinct = (inr refl, tt);
  };
  known = refl;
  old = pollin;
  asked = refl;
}

abbrev one_cell : Cells ℕ
one_cell = (1, 100) ∷ []

one_record-IsCache : IsCache one_record one_cell
one_record-IsCache = record {
  linked = (refl, refl, tt);
  head = refl;
  known = (
    (
      new_record url_a,
      refl,
      record { text = url_a; live = refl; url = refl; size = refl; fits = refl },
    ),
    tt,
  );
}

-- A parser for which one byte is a whole GET of "/a" from the host "h".
abbrev whole : Parsed
whole = record {
  pret = pos 1;
  method = 71 ∷ 69 ∷ 84 ∷ [];
  path = url_a;
  headers = record { name = some host_text; value = 104 ∷ [] } ∷ [];
}

abbrev memory_at_hand : Allocations
memory_at_hand = record { request_ok = true; url_ok = true; host_ok = true; memory = λ _. 0 }

abbrev host_answers : List ℕ → Answers
host_answers host = record {
  node_at = some 2;
  record_at = some 101;
  request_ok = true;
  server_fd = pos 7;
  fcntl_ok = true;
  cells = zeroed;
  subscribers_ok = true;
}

new_client-Sends : Sends one_record 0 new_client memory_at_hand
new_client-Sends = record {
  inside = omega arith;
  cell = refl;
  connected = refl;
  buffered = (refl, refl);
  request_ok = refl;
  url_ok = refl;
  host_ok = refl;
}

whole-IsRequest : IsRequest whole 0 url_a (104 ∷ [])
unfolding is_get find_host same_chars
whole-IsRequest = record { whole = refl; get = refl; path = refl; host_of = refl }

first_a : first_with one_record.world.records url_a one_cell ≡ some 100
unfolding first_with has_url same_text same_chars
first_a = refl

read_from_client-Joined_example :
    (r : Record) × Appended (71 ∷ []) (buffer_of new_client) r
    × (t : Record) × (one_record.world.records 100 ≡ some t)
    × (c' : Cached) × IsCache c' one_cell
    × Joined (stored_in one_record 0 new_client r) 0 100 (with_buffer new_client r) t c'
    × (w : World) × Handled one_record.world c'.world 0 100 0 new_client w
    × (read_from_client 2
          (λ x. x)
          (λ _ _. whole)
          memory_at_hand
          host_answers
          one_record
          (pos 0)
          (read_bytes (71 ∷ []))
        ≡ some (with_world c' w))
read_from_client-Joined_example =
    read_from_client-Joined 2 (λ x. x) (λ _ _. whole) memory_at_hand host_answers one_record 0
      new_client new_client-Sends one_cell 71 [] url_a (104 ∷ []) 0 100 whole (omega arith)
      (λ r a. refl) whole-IsRequest (λ x. refl) (omega arith) one_record-IsCache first_a refl
      five-IsWatched refl
