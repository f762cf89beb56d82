-- ===== src/MessageQueue/Delivery.antt =====
-- Whatever the order of the threads' steps, the texts come out of the message queue of korneshchuk/25 in
-- the order in which they went in.
use posix_threads.Common.{
  ℕ, ◌+◌, ◌≤◌, ◌≡◌, refl, sym, ◌∙◌, ap, true, false, some, List, [], ◌∷◌, ◌++◌, arith, length,
}
use mathlib.Core.List.{append_assoc}
use posix_threads.Chain.{Cells, values}
use posix_threads.MessageQueue.{MyQueue, my_msg_init, get_under_lock, buffer_size}
use posix_threads.MessageQueue.Fifo.{IsQueue}
use posix_threads.MessageQueue.Threads.{
  Thread, producing, consuming, putting, put_ready, getting, done, get_ready, System, Event, quiet,
  took, gave, Step, acts, drops, Begins, Reachable, starts, steps, sent_after, received_after,
}
use posix_threads.MessageQueue.Invariant.{
  put_count, get_count, count, count-append, AllFit, AllFit-take, AllFit-put, Texts, Balanced,
  Holds, Moves, extra, get-Balanced,
}
use posix_threads.MessageQueue.Acts.{Act-Led, recount}

in_order_after :
    (e : Event) (sent received vs vs' : List (List ℕ))
    → sent ≡ received ++ vs
    → Moves e vs vs'
    → sent_after e sent ≡ received_after e received ++ vs'
in_order_after quiet sent received vs vs' o m = o ∙ ap (◌++◌ received) (sym m)
in_order_after (took msg) sent received vs vs' o m =
    ap (λ s. s ++ msg ∷ []) o ∙ append_assoc received vs (msg ∷ []) ∙ ap (◌++◌ received) (sym m)
in_order_after (gave text) sent received vs vs' o m =
    o ∙ ap (◌++◌ received) m ∙ sym (append_assoc received (text ∷ []) vs')

Step-Holds :
    (s s' : System) (cs : Cells (List ℕ))
    → Holds s cs
    → Step s s'
    → (cs' : Cells (List ℕ)) × Holds s' cs'
Step-Holds s s' cs h (acts ts us t t' e a) =
    let before =
      recount h.balanced (count-append put_count ts t us) (count-append get_count ts t us) in
    let led =
      Act-Led _ _ t t' e cs (count put_count (ts ++ us)) (count get_count (ts ++ us)) before
        (AllFit-take ts t us h.fit) a in
    (
      led.cells,
      record {
        balanced =
            recount led.balanced (sym (count-append put_count ts t' us))
              (sym (count-append get_count ts t' us));
        fit = AllFit-put ts t t' us h.fit led.fits;
        in_order = in_order_after e _ _ (values cs) (values led.cells) h.in_order led.moves;
      },
    )
Step-Holds s s' cs h (drops live) =
    let none_extra : extra s.queue.dropped ≡ 0 = rw live refl in
    (
      cs,
      record {
        balanced = record {
          is_queue = h.balanced.is_queue;
          places = omega (arith, h.balanced.places);
          offered = omega (arith, h.balanced.offered);
          room = h.balanced.room;
          texts = h.balanced.texts;
        };
        fit = h.fit;
        in_order = h.in_order;
      },
    )

Begins-count :
    (ts : List Thread) → Begins ts → (count put_count ts ≡ 0) × (count get_count ts ≡ 0) × AllFit ts
unfolding Begins count AllFit
Begins-count [] b = (refl, refl, tt)
Begins-count (producing ∷ ts) b =
    let (p, g, fit) = Begins-count ts b in (omega (arith, p), omega (arith, g), (tt, fit))
Begins-count (consuming ∷ ts) b =
    let (p, g, fit) = Begins-count ts b in (omega (arith, p), omega (arith, g), (tt, fit))
Begins-count (putting msg ∷ ts) b = elim b [ ]
Begins-count (put_ready msg ∷ ts) b = elim b [ ]
Begins-count (getting ∷ ts) b = elim b [ ]
Begins-count (get_ready ∷ ts) b = elim b [ ]
Begins-count (done ∷ ts) b = elim b [ ]

pub Reachable-Holds : (s : System) → Reachable s → (cs : Cells (List ℕ)) × Holds s cs
unfolding my_msg_init Texts
Reachable-Holds s (starts heap {ts} b) =
    let (p, g, fit) = Begins-count ts b in
    (
      [],
      record {
        balanced = record {
          is_queue = record { linked = tt; head = refl; tail = tt };
          places = omega (arith, p);
          offered = omega (arith, g);
          room = omega arith;
          texts = tt;
        };
        fit = fit;
        in_order = refl;
      },
    )
Reachable-Holds s (steps {s = s0} r step) =
    let (cs, h) = Reachable-Holds s0 r in Step-Holds s0 s cs h step

-- What a state of the system delivers: the texts in the queue are those that were sent and not
-- received yet, in order, and there are ten of them at most.
pub record Delivers (s : System) : Type 0 where
  pub cells : Cells (List ℕ)
  pub is_queue : IsQueue s.queue.queue cells
  pub in_order : s.sent ≡ s.received ++ values cells
  pub room : length cells ≤ 10

-- In every reachable state, for any number of producers and consumers: the queue is well formed and
-- has ten texts at most, and they are what was sent less what was received, in order.
pub Reachable-Delivers : (s : System) → Reachable s → Delivers s
Reachable-Delivers s r =
    let (cs, h) = Reachable-Holds s r in
    record {
      cells = cs;
      is_queue = h.balanced.is_queue;
      in_order = h.in_order;
      room = h.balanced.room;
    }

next_text :
    (q : MyQueue) (cs : Cells (List ℕ)) (puts gets : ℕ) (sent received : List (List ℕ))
    → Balanced q cs puts (1 + gets)
    → q.dropped ≡ false
    → sent ≡ received ++ values cs
    → (text : List ℕ) × (rest : List (List ℕ)) × (q' : MyQueue) × (get_under_lock true true q
          buffer_size
        ≡ some (80, some text, q'))
      × (sent ≡ received ++ text ∷ rest)
next_text q [] puts gets sent received b live o =
    let none_extra : extra q.dropped ≡ 0 = rw live refl in absurd (omega (arith, b.offered))
next_text q ((a, v) ∷ cs) puts gets sent received b live o =
    let (q', e, after) = get-Balanced q a v cs puts gets (recount b refl (omega arith)) live in
    (v, values cs, q', e, o)

-- In a reachable state of a queue in use, a consumer past its semaphore is given a text of 80
-- characters, never a null pointer, and it is the oldest of those sent that nobody has received.
pub Reachable-gets :
    (q : MyQueue) (ts us : List Thread) (sent received : List (List ℕ))
    → Reachable
        (record { queue = q; threads = ts ++ get_ready ∷ us; sent = sent; received = received })
    → q.dropped ≡ false
    → (text : List ℕ) × (rest : List (List ℕ)) × (q' : MyQueue) × (get_under_lock true true q
          buffer_size
        ≡ some (80, some text, q'))
      × (sent ≡ received ++ text ∷ rest)
Reachable-gets q ts us sent received r live =
    let (cs, h) = Reachable-Holds _ r in
    next_text q cs (count put_count (ts ++ get_ready ∷ us)) (count get_count (ts ++ us)) sent
      received (recount h.balanced refl (count-append get_count ts get_ready us)) live h.in_order
