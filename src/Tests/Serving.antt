-- ===== src/Tests/Serving.antt =====
-- A request of a client of rybalko/31/server.c.
use posix_threads.Common.{
  inr, minus_one, ◌≡◌, some, find_below, ℕ, refl, true, none, List, [], ◌∷◌, ◌++◌, arith, pos,
}
use posix_threads.PoolProxy.Transfer.{read_bytes}
use posix_threads.EventProxy.Tables.{hash, hash_from}
use posix_threads.EventProxy.Tables.Caches.{Unknown}
use posix_threads.EventProxy.Texts.{c_string, starts_with, find_text, without_http, extract_url}
use posix_threads.EventProxy.Requests.{ClientIo, read_from_client}
use posix_threads.EventProxy.Safe.Serves.{IsServing}
use posix_threads.EventProxy.Safe.Links.{Linked}
use posix_threads.EventProxy.Safe.Requested.{read_from_client-Linked}
use posix_threads.EventProxy.{Server}
use posix_threads.PoolProxy.PollTable.Lookup.{watch}
use posix_threads.EventProxy.Descriptors.Polls.{IsPolled, polled}
use posix_threads.EventProxy.Safe.Accepts.{Accepted, accept_client-Accepted}
use posix_threads.EventProxy.Tables.{get_client_id}
use posix_threads.EventProxy.Requests.{accept_client}
use posix_threads.Tests.Events.{client, small, small-IsSafe, get}

abbrev client_io : ClientIo
client_io = record {
  sscanf = λ str. (none, none);
  stack = [];
  heap = λ i. 0;
  request_ok = true;
  cache_ok = true;
  stored_ok = true;
  hosts_ok = true;
  subs_ok = true;
  fds_ok = true;
  now = pos 5;
  connect = λ host port. pos 9;
}

client_io-IsServing : IsServing client_io
client_io-IsServing = record {
  cache = refl;
  hosts = refl;
  subs = refl;
  fds = refl;
  connects = λ host port h. refl;
}

-- "GET a HTTP".
abbrev get_a : List ℕ
get_a = get ++ 97 ∷ 32 ∷ 72 ∷ 84 ∷ 84 ∷ 80 ∷ []

abbrev hash_a : ℕ
hash_a = hash_from 5381 get_a

url_a : extract_url (c_string get_a) ≡ some (some (97 ∷ []))
unfolding extract_url c_string starts_with find_text without_http
url_a = refl

hash-get_a : hash (some (c_string get_a)) ≡ some hash_a
unfolding hash c_string hash_from
hash-get_a = refl

get_a-Unknown : Unknown hash_a small
unfolding find_below hash_from
get_a-Unknown = refl

read_from_client-Linked_example :
    (after : Server) × (read_from_client client_io (pos 0) (read_bytes get_a) small ≡ some after)
    × Linked 0 hash_a (pos 9) after
read_from_client-Linked_example =
    read_from_client-Linked 1 1 1 0 hash_a 71 (69 ∷ 84 ∷ 32 ∷ 97 ∷ 32 ∷ 72 ∷ 84 ∷ 84 ∷ 80 ∷ [])
      (97 ∷ []) client_io client small client_io-IsServing refl refl refl small-IsSafe (omega arith)
      (omega arith) refl (λ e. refl) (omega arith) url_a hash-get_a get_a-Unknown

small-Watched : IsPolled small
unfolding watch
small-Watched = record {
  fits = omega arith;
  counted = omega arith;
  distinct = (inr refl, (inr refl, tt));
}

nine_unknown : get_client_id (pos 9) small ≡ minus_one
unfolding get_client_id find_below
nine_unknown = refl

nine_unpolled : polled (pos 9) small ≡ none
unfolding watch
nine_unpolled = refl

accept_client-Accepted_example : Accepted 1 1 (pos 9) small (accept_client true true (pos 9) small)
accept_client-Accepted_example =
    accept_client-Accepted 1 1 1 (pos 9) small small-IsSafe (omega arith) refl nine_unknown
      small-Watched nine_unpolled (omega arith)
