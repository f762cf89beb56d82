-- ===== src/PoolProxy/Admission.antt =====
-- The list of cache records (cache.c of matsko/33_proxy_with_thread_pool) and how a request joins it:
-- `findAndAddCacheRecord` of proxy.c. A node of the list holds the address of its record.
pub mod Search
pub mod Joins
pub mod Links
pub mod Adds
pub mod Starts
pub mod Dangles
use posix_threads.Common.{
  same_chars, ℕ, zero, suc, ◌+◌, Bool, true, false, not, ◌||◌, Option, none, some, List, [], ◌∷◌,
  leb, ◌==◌, if◌then◌else◌, length, get_elem?, modify, take, ℤ, pos, negsuc, minus_one, ◌==ℤ◌,
}
use posix_threads.Chain.{Heap, node, write}
use posix_threads.PoolProxy.PollTable.{
  PollFd, PollTable, pollin, pollout, add_fd_to_poll_fds, change_event_for_fd,
}
use posix_threads.PoolProxy.Slots.{Array, ServerCell, find_free_server}
use posix_threads.PoolProxy.Record.{Record, empty_record, add_subscriber}
use posix_threads.PoolProxy.World.{
  World, ◌>>=◌, update, put_record, set_client, disconnect_client, free_cache_record,
}

-- `cache_list_t` and what the thread works on.
pub record Cached : Type 0 where
  pub world : World
  pub nodes : Heap ℕ
  pub head : Option ℕ

abbrev pub with_world : Cached → World → Cached
with_world c w = record c { world = w }

-- `initList`, in memory that holds no node of the list yet.
pub init_list : World → Heap ℕ → Cached
init_list w nodes = record { world = w; nodes = nodes; head = none }

abbrev pub free_record : World → ℕ → World
free_record w p = record w { records = update w.records p none }

-- The loop of `destroyList`, on fuel: `none` is a bad pointer, or that the fuel ran out. What a
-- record points to is not freed.
free_list : ℕ → World → Heap ℕ → Option ℕ → Option Cached
free_list zero w h p = none
free_list (suc k) w h none = some (record { world = w; nodes = h; head = none })
free_list (suc k) w h (some a) = elim (h a) [
  | none ↦ none
  | some n ↦ free_list k (free_record w n.value) (write h a none) n.next
]

pub destroy_list : ℕ → Cached → Option Cached
unfolding free_list
destroy_list fuel c = free_list fuel c.world c.nodes c.head

pub same_url : List ℕ → Record → Option Bool
unfolding same_chars
same_url url r =
    if r.url_len == length url then (r.url >>= λ u. same_chars (length url) u url) else some false

-- What one round of the search answers: the record is found, or the search goes on with the node
-- before and the next one.
pub data Round : Type 0 where
  found : Cached → ℕ → Round
  going : Cached → Option ℕ → Option ℕ → Round

-- A record that is not valid: it and its node are freed. The node before is left as it is.
pub drop_node : Cached → Option ℕ → ℕ → ℕ → Option ℕ → Option Round
drop_node c prev a p next = free_cache_record c.world (some p) >>= λ w.
    some (going (record c { world = free_record w p; nodes = write c.nodes a none }) prev next)

-- `others` is what the other threads do while the list is unlocked, between two nodes.
pub pass_node : (others : Cached → Cached) → Cached → ℕ → Option Round
pass_node others c a = let c' = others c in c'.nodes a >>= λ n. some (going c' (some a) n.next)

pub look_at : (others : Cached → Cached) → List ℕ → Cached → Option ℕ → ℕ → Option Round
unfolding same_url drop_node pass_node
look_at others url c prev a = c.nodes a >>= λ n. c.world.records n.value >>= λ r.
    if r.valid
    then (same_url url r >>= λ same. if same then some (found c n.value) else pass_node others c a)
    else drop_node c prev a n.value n.next

-- With no node left the answer is the last node, if any.
pub data Found : Type 0 where
  hit : Cached → ℕ → Found
  miss : Cached → Option ℕ → Found

pub search_list :
    ℕ → (others : Cached → Cached) → List ℕ → Cached → Option ℕ → Option ℕ → Option Found
unfolding look_at
search_list zero others url c prev p = none
search_list (suc k) others url c prev none = some (miss c prev)
search_list (suc k) others url c prev (some a) = elim (look_at others url c prev a) [
  | none ↦ none
  | some (found c' p) ↦ some (hit c' p)
  | some (going c' prev' p') ↦ search_list k others url c' prev' p'
]

-- `addSubscriber` of a record in memory; its answer is not looked at.
pub subscribe : (allocated : Bool) → World → ℕ → ℤ → Option World
subscribe allocated w p fd =
    w.records p >>= λ r. add_subscriber allocated fd r >>= λ x. some (put_record w p x.1)

-- The client `i` gets the record at `p`.
pub attach : (allocated : Bool) → World → ℕ → ℕ → Option World
unfolding subscribe
attach allocated w i p = get_elem? w.clients.cells i >>= λ c.
    subscribe allocated w p c.thread_fd >>= λ w'.
    some (set_client w' i (record c { cache_record = some p; write_response_index = pos 0 }))

-- A record in the list: the client is polled for output if there is something to send.
pub join_record : (allocated : Bool) → World → ℕ → ℕ → Option World
unfolding attach
join_record allocated w i p = attach allocated w i p >>= λ w'. w'.records p >>= λ r.
    get_elem? w'.clients.cells i >>= λ c. some (
      if r.response_index == 0
      then w'
      else record w' { table = change_event_for_fd w'.table c.fd (pollin + pollout) })

-- What is given from outside: the addresses of the new node and of the new record, whether the other
-- allocations succeed, what `connectToServerHost` and `fcntl` answer, and what `realloc` leaves in new
-- cells of the poll table.
pub record Answers : Type 0 where
  pub node_at : Option ℕ
  pub record_at : Option ℕ
  pub request_ok : Bool
  pub server_fd : ℤ
  pub fcntl_ok : Bool
  pub cells : ℕ → PollFd
  pub subscribers_ok : Bool

-- `initEmptyCacheRecord`, and what is set before the node is linked.
abbrev pub new_record : List ℕ → Record
new_record url = record empty_record { url = some url; url_len = length url; valid = true }

-- The node is linked behind the last one.
pub link_node : Cached → Option ℕ → ℕ → ℕ → Option Cached
link_node c none f p =
    some (record c { nodes = write c.nodes f (some (node p none)); head = some f })
link_node c (some a) f p =
    let h = write c.nodes f (some (node p none)) in
    h a >>= λ n. some (record c { nodes = write h a (some (node n.value (some f))) })

-- After a failure: `freeCacheRecord` of the new record, which stays in the list, and the client goes.
pub give_up : World → ℕ → ℕ → Option World
give_up w i p = free_cache_record w (some p) >>= λ w'. disconnect_client w' (pos i)

-- Server `j` of the array serves the record at `p`; its descriptor is in the table.
abbrev pub served_world :
    World → PollTable → List ServerCell → ℕ → ℕ → ServerCell → ℕ → Record → World
served_world w table cells size j s p r = record w {
  servers = record {
    cells = modify cells j (λ _. record s { cache_record = some p; write_request_index = pos 0 });
    size = size;
  };
  table = table;
  records = update w.records p (some (record r { server_index = pos j }));
}

-- The new record gets its server, and the client its record.
pub give_server : Answers → World → Array ServerCell → ℤ → ℕ → ℕ → Option World
unfolding attach
give_server o w a (negsuc j) i p = none
give_server o w a (pos j) i p = get_elem? a.cells j >>= λ s.
    add_fd_to_poll_fds o.cells w.table o.server_fd (pollin + pollout) >>= λ table.
    w.records p >>= λ r. attach o.subscribers_ok (served_world w table a.cells a.size j s p r) i p

pub open_server : Answers → World → ℕ → ℕ → Option World
unfolding give_server
open_server o w i p =
    let (num, servers) = find_free_server w.servers o.server_fd in give_server o w servers num i p

-- `memcpy(record->request, clients[i].request, REQUEST_SIZE)`; `none` is a read outside the buffer.
pub copy_request : ℕ → Option (List ℕ) → Option (List ℕ)
copy_request n none = if n == 0 then some [] else none
copy_request n (some buf) = if leb n (length buf) then some (take n buf) else none

-- From the copy of the request on. `close(server_fd)` has no other trace here: the descriptor is in no
-- table yet.
pub start_record : Answers → World → ℕ → ℕ → ℕ → Option World
unfolding give_up open_server copy_request
start_record o w i n p =
    if o.request_ok
    then (w.records p >>= λ r. get_elem? w.clients.cells i >>= λ c.
        copy_request n c.request >>= λ request.
        let w' = put_record w p (record r { request = some request; request_size = n }) in
        if (o.server_fd ==ℤ minus_one) || not o.fcntl_ok
        then give_up w' i p
        else open_server o w' i p)
    else give_up w i p

-- No record has the url: a new node and a new record at the end of the list.
pub add_record : Answers → Cached → Option ℕ → ℕ → List ℕ → ℕ → Option Cached
unfolding start_record
add_record o c prev i url n = elim o.node_at [
  | none ↦ disconnect_client c.world (pos i) >>= λ w. some (with_world c w)
  | some f ↦ elim o.record_at [
    | none ↦ disconnect_client c.world (pos i) >>= λ w. some (with_world c w)
    | some p ↦ link_node (with_world c (put_record c.world p (new_record url))) prev f p >>= λ c'.
        start_record o c'.world i n p >>= λ w. some (with_world c' w)
  ]
]

pub found_from : Answers → ℕ → List ℕ → ℕ → Found → Option Cached
unfolding join_record add_record
found_from o i url n (hit c p) =
    join_record o.subscribers_ok c.world i p >>= λ w. some (with_world c w)
found_from o i url n (miss c prev) = add_record o c prev i url n

-- For client `i`, the url of its request and the length of the request.
pub find_and_add_cache_record :
    ℕ → (others : Cached → Cached) → Answers → Cached → ℕ → List ℕ → ℕ → Option Cached
unfolding search_list found_from
find_and_add_cache_record fuel others o c i url n =
    search_list fuel others url c none c.head >>= found_from o i url n
