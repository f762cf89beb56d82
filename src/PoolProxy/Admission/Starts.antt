-- ===== src/PoolProxy/Admission/Starts.antt =====
-- A request for a url that the list does not have, from the search to the new server.
use posix_threads.Common.{
  ℕ, ◌<◌, ◌≡◌, refl, sym, ap, subst, ◌∙◌, Bool, true, false, ◌||◌, Option, none, some, List, [],
  ◌∷◌, ◌++◌, ◌==◌, length, take, pos, ◌==ℤ◌,
}
use posix_threads.Chain.{Cells}
use posix_threads.PoolProxy.Slots.{ClientCell}
use posix_threads.PoolProxy.Record.{Record, notify_subscribers, told_cells}
use posix_threads.PoolProxy.Record.Subscribers.{IsListening, told}
use posix_threads.PoolProxy.World.{World, update, put_record}
use posix_threads.PoolProxy.Admission.{
  Cached, with_world, Answers, new_record, link_node, start_record, add_record, found_from,
  find_and_add_cache_record,
}
use posix_threads.PoolProxy.Admission.Search.{
  IsGood, IsKnown, AllKnown, IsCache, first_with, last_from, AllKnown-update, find_and_add_lem,
}
use posix_threads.PoolProxy.Admission.Joins.{Subscribed-IsGood, update_same}
use posix_threads.PoolProxy.Admission.Links.{Chained, link_node-Chained}
use posix_threads.PoolProxy.Admission.Adds.{
  Opened, Asks, Started, asked, asked_world, start_record_lem, open_server-Opened,
}

AllKnown-append :
    (rs : ℕ → Option Record) (cs : Cells ℕ) (f q : ℕ)
    → AllKnown rs cs
    → IsKnown rs q
    → AllKnown rs (cs ++ (f, q) ∷ [])
AllKnown-append rs [] f q k one = (one, tt)
AllKnown-append rs ((a, p) ∷ cs) f q (h, k) one = (h, AllKnown-append rs cs f q k one)

or_false : (b : Bool) → (b || false) ≡ b
or_false true = refl
or_false false = refl

served_record : List ℕ → List ℕ → ℕ → ℕ → Record
served_record url request n j = record (asked url request n) { server_index = pos j }

module _ (rs : ℕ → Option Record) (q n : ℕ) (url request : List ℕ) where
  -- What is stored at `q` on the way to the last version.
  asked_at : ℕ → ℕ → Option Record
  asked_at j =
      update (update (update rs q (some (new_record url))) q (some (asked url request n))) q
        (some (served_record url request n j))

  fresh-IsGood :
      (r : Record)
      → r.valid ≡ true
      → r.url ≡ some url
      → r.url_len ≡ length url
      → IsListening r
      → IsGood r
  fresh-IsGood r live has size fits = record {
    text = url;
    live = live;
    url = has;
    size = size;
    fits = fits;
  }

  asked_at-AllKnown :
      (j : ℕ) (now : Record) (cs : Cells ℕ)
      → IsGood now
      → AllKnown rs cs
      → AllKnown (update (asked_at j) q (some now)) cs
  unfolding asked_at served_record
  asked_at-AllKnown j now cs g k = AllKnown-update (asked_at j) q now cs g (
      AllKnown-update _ q (served_record url request n j) cs (fresh-IsGood _ refl refl refl refl) (
        AllKnown-update _ q (asked url request n) cs (fresh-IsGood _ refl refl refl refl)
          (AllKnown-update rs q (new_record url) cs (fresh-IsGood _ refl refl refl refl) k)))

  asked_at-other :
      (j p : ℕ) (now : Record) → (q == p) ≡ false → update (asked_at j) q (some now) p ≡ rs p
  unfolding asked_at
  asked_at-other j p now h = rw h refl

start_lem :
    (o : Answers) (c : Cached) (cs : Cells ℕ) (i n f q : ℕ) (cl : ClientCell) (url buf : List ℕ)
    (c' : Cached) (w : World)
    → AllKnown c.world.records cs
    → Chained (with_world c (put_record c.world q (new_record url))) (cs ++ (f, q) ∷ []) c'
    → Opened o (asked_world c.world q url (take n buf) n) i q cl (asked url (take n buf) n) w
    → IsCache (with_world c' w) (cs ++ (f, q) ∷ []) × Started o c i n q cl url buf (with_world c' w)
unfolding told notify_subscribers told_cells asked_at served_record
start_lem o c cs i n f q cl url buf c' w known l d =
    let rs = asked_at c.world.records q n url (take n buf) d.served.number in
    let same : w.records ≡ update rs q (some d.now) = d.stored in
    let here : w.records q ≡ some d.now = ap (λ x. x q) same ∙ update_same rs q (some d.now) in
    let good : IsGood d.now =
      Subscribed-IsGood cl.thread_fd (served_record url (take n buf) n d.served.number) d.now
        d.subscribed (fresh-IsGood c.world.records q n url (take n buf) _ refl refl refl refl) in
    let all : AllKnown w.records cs =
      subst (λ x. AllKnown x cs) (sym same)
        (asked_at-AllKnown c.world.records q n url (take n buf) d.served.number d.now cs good
          known) in
    (
      record {
        linked = l.linked;
        head = l.head;
        known = AllKnown-append w.records cs f q all (d.now, here, good);
      },
      record {
        now = d.now;
        stored = here;
        url_of = ap (λ x. x.url) d.subscribed.kept;
        request = ap (λ x. x.request) d.subscribed.kept;
        empty = ap (λ x. x.response_index) d.subscribed.kept;
        tells = record {
          listening = d.subscribed.tells.listening;
          tells = λ j h. d.subscribed.tells.tells j h ∙ or_false (cl.thread_fd ==ℤ j);
        };
        served = d.served;
        client = d.client;
        polled = d.polled;
        others = λ p h.
            ap (λ x. x p) same
            ∙ asked_at-other c.world.records q n url (take n buf) d.served.number p d.now h;
      },
    )

added_lem :
    (o : Answers) (c : Cached) (i n f q : ℕ) (cl : ClientCell) (url buf : List ℕ) (c' : Cached)
    (w : World) (prev : Option ℕ)
    → Asks o c i n f q cl buf
    → link_node (with_world c (put_record c.world q (new_record url))) prev f q ≡ some c'
    → start_record o c'.world i n q ≡ some w
    → add_record o c prev i url n ≡ some (with_world c' w)
unfolding add_record
added_lem o c i n f q cl url buf c' w prev a linked started =
    rw (a.node_at, a.record_at, add_record) (simp (linked, started) refl)

-- A request whose url no record in the list has, in a list of valid records and with the other threads
-- quiet between two nodes, memory and a connection at hand: a new record for the url stands at the end of the
-- list, all other records are as they were, the record has the request and a server of its own,
-- which has been sent nothing yet and whose descriptor is polled for input and output, as before all others are, and the client has the record from its start.
pub find_and_add-Started :
    (k : ℕ) (others : Cached → Cached) (o : Answers) (c : Cached) (cs : Cells ℕ) (i n f q : ℕ)
    (url buf : List ℕ) (cl : ClientCell)
    → ((x : Cached) → others x ≡ x)
    → length cs < k
    → IsCache c cs
    → first_with c.world.records url cs ≡ none
    → Asks o c i n f q cl buf
    → (c' : Cached) × (find_and_add_cache_record k others o c i url n ≡ some c')
      × IsCache c' (cs ++ (f, q) ∷ [])
      × Started o c i n q cl url buf c'
unfolding found_from add_record
find_and_add-Started k others o c cs i n f q url buf cl quiet fuel v absent a =
    let (c', e, l) =
      link_node-Chained (with_world c (put_record c.world q (new_record url))) cs f q v.linked
        v.head a.free in
    let w0 = asked_world c.world q url (take n buf) n in
    let (w, opened, d) =
      open_server-Opened o w0 i q cl (asked url (take n buf) n) a.connects
        (update_same (put_record c.world q (new_record url)).records q
          (some (asked url (take n buf) n)))
        refl refl a.client a.wakes in
    let begun = start_record_lem o c'.world i n f q cl url buf c a l.world ∙ opened in
    let (cache, started) = start_lem o c cs i n f q cl url buf c' w v.known l d in
    (
      with_world c' w,
      find_and_add_lem k others o c cs i n url none quiet fuel v absent
          ∙ added_lem o c i n f q cl url buf c' w (last_from none cs) a e begun,
      cache,
      started,
    )
