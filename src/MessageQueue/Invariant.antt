-- ===== src/MessageQueue/Invariant.antt =====
-- What holds of the semaphores, the threads and the queue in every reachable state.
use posix_threads.Common.{
  ℕ, suc, ◌+◌, ◌≤◌, ◌≡◌, refl, Bool, true, false, none, some, List, [], ◌∷◌, ◌++◌, arith,
  if◌then◌else◌, length, take, length-append, take_all,
}
use posix_threads.Chain.{Cells, values}
use posix_threads.MessageQueue.{MyQueue, copy_text, put_under_lock, get_under_lock, buffer_size}
use posix_threads.MessageQueue.Fifo.{IsQueue, push-IsQueue, pop-IsQueue}
use posix_threads.MessageQueue.Threads.{
  Thread, putting, put_ready, get_ready, System, Event, quiet, took, gave,
}

-- The threads past `sem_wait(&full_sem)`, and those past `sem_wait(&empty_sem)`.
abbrev pub put_count : Thread → ℕ
put_count (put_ready msg) = 1
put_count t = 0

abbrev pub get_count : Thread → ℕ
get_count get_ready = 1
get_count t = 0

unfoldable pub count : (Thread → ℕ) → List Thread → ℕ
count c [] = 0
count c (t ∷ ts) = c t + count c ts

pub count-append :
    (c : Thread → ℕ) (ts : List Thread) (t : Thread) (us : List Thread)
    → count c (ts ++ t ∷ us) ≡ c t + count c (ts ++ us)
unfolding count
count-append c [] t us = refl
count-append c (u ∷ ts) t us = ground (arith, count-append c ts t us)

-- The text that a thread is about to put has the size of `producer_routine`'s.
abbrev pub Fits : Thread → Type 0
Fits (putting msg) = length msg ≡ buffer_size
Fits (put_ready msg) = length msg ≡ buffer_size
Fits t = Unit

unfoldable pub AllFit : List Thread → Type 0
AllFit [] = Unit
AllFit (t ∷ ts) = Fits t × AllFit ts

pub AllFit-take :
    (ts : List Thread) (t : Thread) (us : List Thread) → AllFit (ts ++ t ∷ us) → Fits t
unfolding AllFit
AllFit-take [] t us a = a.0
AllFit-take (u ∷ ts) t us a = AllFit-take ts t us a.1

pub AllFit-put :
    (ts : List Thread) (t t' : Thread) (us : List Thread)
    → AllFit (ts ++ t ∷ us)
    → Fits t'
    → AllFit (ts ++ t' ∷ us)
unfolding AllFit
AllFit-put [] t t' us a fit = (fit, a.1)
AllFit-put (u ∷ ts) t t' us a fit = (a.0, AllFit-put ts t t' us a.1 fit)

unfoldable pub Texts : Cells (List ℕ) → Type 0
Texts [] = Unit
Texts ((a, v) ∷ cs) = (length v ≡ buffer_size) × Texts cs

Texts-append :
    (cs : Cells (List ℕ)) (f : ℕ) (v : List ℕ)
    → Texts cs
    → length v ≡ buffer_size
    → Texts (cs ++ (f, v) ∷ [])
unfolding Texts
Texts-append [] f v ok e = (e, tt)
Texts-append ((a, u) ∷ cs) f v ok e = (ok.0, Texts-append cs f v ok.1 e)

abbrev pub extra : Bool → ℕ
extra dropped = if dropped then 1 else 0

-- Each of the ten places is free, promised to a thread past its semaphore, or taken by a text; each
-- text is offered, or promised. `my_msg_drop` adds one to both semaphores. `puts` and `gets` are
-- the threads past their semaphores.
pub record Balanced (q : MyQueue) (cs : Cells (List ℕ)) (puts gets : ℕ) : Type 0 where
  pub is_queue : IsQueue q.queue cs
  pub places : q.full_sem + puts + length cs ≡ 10 + extra q.dropped
  pub offered : q.empty_sem + gets ≡ length cs + extra q.dropped
  pub room : length cs ≤ 10
  pub texts : Texts cs

pub record Holds (s : System) (cs : Cells (List ℕ)) : Type 0 where
  pub balanced : Balanced s.queue cs (count put_count s.threads) (count get_count s.threads)
  pub fit : AllFit s.threads
  pub in_order : s.sent ≡ s.received ++ values cs

-- What an event means for the texts in the queue.
abbrev pub Moves : Event → List (List ℕ) → List (List ℕ) → Type 0
Moves quiet vs vs' = vs' ≡ vs
Moves (took msg) vs vs' = vs' ≡ vs ++ msg ∷ []
Moves (gave text) vs vs' = vs ≡ text ∷ vs'

-- Putting a text while the queue is in use.
pub put-Balanced :
    (q : MyQueue) (cs : Cells (List ℕ)) (puts gets f : ℕ) (msg : List ℕ)
    → Balanced q cs (suc puts) gets
    → q.dropped ≡ false
    → length msg ≡ buffer_size
    → q.queue.heap f ≡ none
    → (q' : MyQueue) × (put_under_lock true true (some f) q msg ≡ some (80, q'))
      × Balanced q' (cs ++ (f, msg) ∷ []) puts gets
unfolding put_under_lock
put-Balanced q cs puts gets f msg b live fits fresh =
    let (l, e, is) = push-IsQueue q.queue cs f msg b.is_queue fresh in
    let whole : take 80 msg ≡ msg = take_all 80 msg (omega (arith, fits)) in
    let grown = length-append cs ((f, msg) ∷ []) in
    let none_extra : extra q.dropped ≡ 0 = rw live refl in
    (
      record q { queue = l; empty_sem = q.empty_sem + 1 },
      simp (live, whole, e, fits),
      record {
        is_queue = is;
        places = omega arith;
        offered = omega arith;
        room = omega arith;
        texts = Texts-append cs f msg b.texts fits;
      },
    )

-- Getting a text while the queue is in use.
pub get-Balanced :
    (q : MyQueue) (a : ℕ) (v : List ℕ) (cs : Cells (List ℕ)) (puts gets : ℕ)
    → Balanced q ((a, v) ∷ cs) puts (suc gets)
    → q.dropped ≡ false
    → (q' : MyQueue) × (get_under_lock true true q buffer_size ≡ some (80, some v, q'))
      × Balanced q' cs puts gets
unfolding get_under_lock copy_text Texts
get-Balanced q a v cs puts gets b live =
    let (l, e, is) = pop-IsQueue q.queue a v cs b.is_queue in
    let fits : length v ≡ 80 = b.texts.0 in
    let whole : take 80 v ≡ v = take_all 80 v (omega (arith, fits)) in
    (
      record q { queue = l; full_sem = q.full_sem + 1 },
      simp (live, e, whole, fits),
      record {
        is_queue = is;
        places = omega arith;
        offered = omega arith;
        room = omega arith;
        texts = b.texts.1;
      },
    )
