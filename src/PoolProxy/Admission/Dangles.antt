-- ===== src/PoolProxy/Admission/Dangles.antt =====
-- What the search leaves of a list whose first record is no longer valid.
use posix_threads.Common.{
  ℕ, zero, suc, ◌+◌, ◌<◌, ◌≡◌, refl, ap, ◌∙◌, Bool, true, false, Option, none, some, List, arith,
  ◌==◌, if◌then◌else◌, get_elem?, is_neg, minus_one,
}
use posix_threads.Chain.{node, write}
use posix_threads.PoolProxy.PollTable.{pollin, pollout, change_event_for_fd}
use posix_threads.PoolProxy.Slots.{ClientCell}
use posix_threads.PoolProxy.Record.{Record}
use posix_threads.PoolProxy.World.{
  World, ◌>>=◌, put_record, clear_record, free_cache_record, end_server,
}
use posix_threads.PoolProxy.Admission.{
  Cached, with_world, free_record, drop_node, look_at, found, going, hit, search_list, Answers,
  found_from, find_and_add_cache_record,
}
use posix_threads.PoolProxy.Admission.Search.{IsKnown, has_url, same_text, same_url_lem}
use posix_threads.PoolProxy.Admission.Joins.{attached, attach-Subscribed, join_lem}

-- The first node, at `a`, has a record that `freeCacheRecord` has given up, and the next, at `b`, has a
-- record for the url.
pub record Stale (c : Cached) (i : ℕ) (url : List ℕ) (a b p q : ℕ) (next : Option ℕ) (r : Record)
    (cl : ClientCell) : Type 0 where
  pub head : c.head ≡ some a
  pub first : c.nodes a ≡ some (node p (some b))
  pub second : c.nodes b ≡ some (node q next)
  pub nodes_apart : (a == b) ≡ false
  pub records_apart : (p == q) ≡ false
  pub stored : c.world.records p ≡ some r
  pub given_up : r.valid ≡ false
  pub alone : r.server_index ≡ minus_one
  pub known : IsKnown c.world.records q
  pub same : has_url url (c.world.records q) ≡ true
  pub client : get_elem? c.world.clients.cells i ≡ some cl
  pub wakes : is_neg cl.thread_fd ≡ false

-- A list that starts at a freed node: every later search reads it.
pub search_list-freed :
    (k : ℕ) (others : Cached → Cached) (o : Answers) (c : Cached) (a i n : ℕ) (url : List ℕ)
    → c.head ≡ some a
    → c.nodes a ≡ none
    → find_and_add_cache_record k others o c i url n ≡ none
unfolding find_and_add_cache_record search_list look_at
search_list-freed zero others o c a i n url h gone = refl
search_list-freed (suc k) others o c a i n url h gone =
    let looked : look_at others url c none a ≡ none = rw gone refl in
    let searched : search_list (suc k) others url c none (some a) ≡ none =
      rw (looked, search_list) refl in
    ap (λ p. search_list (suc k) others url c none p >>= found_from o i url n) h ∙ rw searched refl

-- `freeCacheRecord` of a record with no server changes that record alone.
free_alone :
    (w : World) (p : ℕ) (r : Record)
    → w.records p ≡ some r
    → r.server_index ≡ minus_one
    → (v : Record) × (free_cache_record w (some p)
        ≡ some (put_record (put_record w p (clear_record r)) p v))
unfolding free_cache_record end_server
free_alone w p r at alone =
    let self : (p == p) ≡ true = ground arith in
    (record (clear_record r) { valid_rw_lock = false; valid = false }, simp (at, alone, self))

itself : {A : Type 0} (h : ℕ → Option A) (a : ℕ) → (if a == a then none else h a) ≡ none
itself h a = ground arith

-- Every other record is left.
other_record :
    (w : World) (p q : ℕ) (r v : Record)
    → (p == q) ≡ false
    → (free_record (put_record (put_record w p r) p v) p).records q ≡ w.records q
other_record w p q r v h = rw h refl

if_false {ℓ} : {A : Type ℓ} {b : Bool} (x y : A) → b ≡ false → (if b then x else y) ≡ y
if_false x y e = rw e refl

-- The first round frees the node, and goes on to the next with no node before it.
abbrev after_first : Cached → ℕ → ℕ → Record → Record → Cached
after_first c a p r v = record c {
  world = free_record (put_record (put_record c.world p (clear_record r)) p v) p;
  nodes = write c.nodes a none;
}

first_round :
    (others : Cached → Cached) (url : List ℕ) (c : Cached) (a b p : ℕ) (r v : Record)
    → c.nodes a ≡ some (node p (some b))
    → c.world.records p ≡ some r
    → r.valid ≡ false
    → free_cache_record c.world (some p)
      ≡ some (put_record (put_record c.world p (clear_record r)) p v)
    → look_at others url c none a ≡ some (going (after_first c a p r v) none (some b))
unfolding look_at drop_node
first_round others url c a b p r v first stored given_up freed =
    rw (first, stored, look_at) (if_false _ _ given_up ∙ rw freed refl)

-- A node whose record has the url is the answer, whatever the other nodes are.
found_round :
    (others : Cached → Cached) (url : List ℕ) (c : Cached) (b q : ℕ) (next prev : Option ℕ)
    → c.nodes b ≡ some (node q next)
    → IsKnown c.world.records q
    → has_url url (c.world.records q) ≡ true
    → look_at others url c prev b ≡ some (found c q)
unfolding look_at has_url
found_round others url c b q next prev at (s, stored, g) same =
    let texts : same_text g.text url ≡ true = rw (stored, g.url) at same in
    rw (at, stored, g.live, same_url_lem url g.text s g.url g.size, look_at) (simp texts refl)

-- In a list whose first record was given up and whose second one has the url, a request for the url frees the
-- first node and leaves the head of the list on it: the request is served, and every request after it
-- reads the freed node.
pub find_and_add-dangles :
    (k : ℕ) (others : Cached → Cached) (o : Answers) (c : Cached) (i n : ℕ) (url : List ℕ)
    (a b p q : ℕ) (next : Option ℕ) (r : Record) (cl : ClientCell)
    → Stale c i url a b p q next r cl
    → o.subscribers_ok ≡ true
    → 1 < k
    → (c' : Cached) × (find_and_add_cache_record k others o c i url n ≡ some c')
      × ((k' : ℕ) (o' : Answers) (i' n' : ℕ) (url' : List ℕ)
          → find_and_add_cache_record k' others o' c' i' url' n' ≡ none)
unfolding find_and_add_cache_record search_list found_from
find_and_add-dangles zero others o c i n url a b p q next r cl s ok fuel = absurd (omega arith)
find_and_add-dangles (suc zero) others o c i n url a b p q next r cl s ok fuel =
    absurd (omega arith)
find_and_add-dangles (suc (suc k)) others o c i n url a b p q next r cl s ok fuel =
    let (v, freed) = free_alone c.world p r s.stored s.alone in
    let c1 = after_first c a p r v in
    let (x, at, g) = s.known in
    let left = other_record c.world p q (clear_record r) v s.records_apart in
    let one = first_round others url c a b p r v s.first s.stored s.given_up freed in
    let two =
      found_round others url c1 b q next none (rw s.nodes_apart s.second) (x, left ∙ at, g)
        (rw left s.same) in
    let searched : search_list (suc (suc k)) others url c none (some a) ≡ some (hit c1 q) =
      rw (one, search_list) (rw (two, search_list) refl) in
    let (x', e, sub) =
      attach-Subscribed c1.world i q cl x (left ∙ at) g.fits g.live s.client s.wakes in
    let joined = join_lem c1.world i q cl x x' e s.client sub.kept in
    (
      with_world c1 (record (attached c1.world i cl q x') {
        table =
            if x.response_index == 0
            then c.world.table
            else change_event_for_fd c.world.table cl.fd (pollin + pollout);
      }),
      ap (λ p. search_list (suc (suc k)) others url c none p >>= found_from o i url n) s.head
          ∙ rw searched (simp ok (rw joined refl)),
      λ k' o' i' n' url'.
          search_list-freed k' others o' (with_world c1 _) a i' n' url' s.head (itself c.nodes a),
    )
