-- ===== src/MessageQueue/Acts.antt =====
-- Each act of a thread keeps the balance of semaphores, threads and texts.
use posix_threads.Common.{
  ℕ, zero, suc, ◌+◌, ◌≡◌, refl, sym, ◌∙◌, ap, inl, inr, true, false, Option, none, some, List, [],
  ◌∷◌, ◌++◌, arith, length, Bool-cases, or_else, subst,
}
use posix_threads.Chain.{Cells, values}
use posix_threads.Chain.Linked.{values-append}
use posix_threads.MessageQueue.{
  MyQueue, push, sem_wait, put_under_lock, get_under_lock, buffer_size,
}
use posix_threads.MessageQueue.Threads.{
  Thread, producing, consuming, put_starts, put_waits, put_ends, put_leaves, get_starts, get_waits,
  get_ends, get_leaves, Event, put_event, get_event, next_of, IsUnused, Act,
}
use posix_threads.MessageQueue.Invariant.{
  put_count, get_count, Fits, extra, Balanced, Moves, put-Balanced, get-Balanced,
}

pub put_refused :
    (q : MyQueue) (fresh : Option ℕ) (msg : List ℕ)
    → q.dropped ≡ true
    → put_under_lock true true fresh q msg ≡ some (0, record q { full_sem = q.full_sem + 1 })
unfolding put_under_lock
put_refused q fresh msg over = simp over

pub get_refused :
    (q : MyQueue)
    → q.dropped ≡ true
    → get_under_lock true true q buffer_size
      ≡ some (0, none, record q { empty_sem = q.empty_sem + 1 })
unfolding get_under_lock
get_refused q over = simp over

-- Where an act leads: `cs` are the texts in the queue before it.
pub record Led (q' : MyQueue) (t' : Thread) (e : Event) (cs : Cells (List ℕ)) (puts gets : ℕ)
    : Type 0 where
  pub cells : Cells (List ℕ)
  pub balanced : Balanced q' cells (put_count t' + puts) (get_count t' + gets)
  pub fits : Fits t'
  pub moves : Moves e (values cs) (values cells)

-- The same balance, with the counts written otherwise.
pub recount :
    {q : MyQueue} {cs : Cells (List ℕ)} {puts gets puts' gets' : ℕ}
    → Balanced q cs puts gets
    → puts ≡ puts'
    → gets ≡ gets'
    → Balanced q cs puts' gets'
recount b e e' = record {
  is_queue = b.is_queue;
  places = omega (arith, b.places);
  offered = omega (arith, b.offered);
  room = b.room;
  texts = b.texts;
}

pub same_value {ℓ} : {A : Type ℓ} {o : Option A} {a b : A} → o ≡ some a → o ≡ some b → a ≡ b
same_value {a = a} e f = ap (λ o. or_else o a) (sym e ∙ f)

more_full :
    (q : MyQueue) (cs : Cells (List ℕ)) (n puts puts' gets : ℕ)
    → Balanced q cs puts gets
    → n + puts' ≡ q.full_sem + puts
    → Balanced (record q { full_sem = n }) cs puts' gets
more_full q cs n puts puts' gets b e = record {
  is_queue = b.is_queue;
  places = omega (arith, b.places);
  offered = b.offered;
  room = b.room;
  texts = b.texts;
}

more_empty :
    (q : MyQueue) (cs : Cells (List ℕ)) (n puts gets gets' : ℕ)
    → Balanced q cs puts gets
    → n + gets' ≡ q.empty_sem + gets
    → Balanced (record q { empty_sem = n }) cs puts gets'
more_empty q cs n puts gets gets' b e = record {
  is_queue = b.is_queue;
  places = b.places;
  offered = omega (arith, b.offered);
  room = b.room;
  texts = b.texts;
}

put_null :
    (q : MyQueue) (msg : List ℕ) → q.dropped ≡ false → put_under_lock true true none q msg ≡ none
unfolding put_under_lock push
put_null q msg live = simp live

put_live :
    (q q' : MyQueue) (msg : List ℕ) (fresh : Option ℕ) (r : ℕ) (cs : Cells (List ℕ)) (puts gets : ℕ)
    → Balanced q cs (suc puts) gets
    → length msg ≡ buffer_size
    → IsUnused q.queue.heap fresh
    → q.dropped ≡ false
    → put_under_lock true true fresh q msg ≡ some (r, q')
    → Led q' (next_of producing r) (put_event r msg) cs puts gets
put_live q q' msg none r cs puts gets b fits unused live e = ground (arith, put_null q msg live)
put_live q q' msg (some f) r cs puts gets b fits unused live e =
    let (q'', s, after) = put-Balanced q cs puts gets f msg b live fits unused in
    subst (λ x. Led x.1 (next_of producing x.0) (put_event x.0 msg) cs puts gets) (same_value s e)
      (record {
        cells = cs ++ (f, msg) ∷ [];
        balanced = recount after (omega arith) (omega arith);
        fits = tt;
        moves = values-append cs f msg;
      })

put_ended :
    (q q' : MyQueue) (msg : List ℕ) (fresh : Option ℕ) (r : ℕ) (cs : Cells (List ℕ)) (puts gets : ℕ)
    → Balanced q cs (suc puts) gets
    → length msg ≡ buffer_size
    → IsUnused q.queue.heap fresh
    → put_under_lock true true fresh q msg ≡ some (r, q')
    → Led q' (next_of producing r) (put_event r msg) cs puts gets
put_ended q q' msg fresh r cs puts gets b fits unused e = elim (Bool-cases q.dropped) [
  | inl over ↦
      subst (λ x. Led x.1 (next_of producing x.0) (put_event x.0 msg) cs puts gets)
        (same_value (put_refused q fresh msg over) e)
        (record {
          cells = cs;
          balanced =
              recount (more_full q cs (q.full_sem + 1) (suc puts) puts gets b (omega arith))
                (omega arith) (omega arith);
          fits = tt;
          moves = refl;
        })
  | inr live ↦ put_live q q' msg fresh r cs puts gets b fits unused live e
]

get_live :
    (q q' : MyQueue) (r : ℕ) (text : Option (List ℕ)) (cs : Cells (List ℕ)) (puts gets : ℕ)
    → Balanced q cs puts (suc gets)
    → q.dropped ≡ false
    → get_under_lock true true q buffer_size ≡ some (r, text, q')
    → Led q' (next_of consuming r) (get_event text) cs puts gets
get_live q q' r text [] puts gets b live e =
    let none_extra : extra q.dropped ≡ 0 = rw live refl in absurd (omega (arith, b.offered))
get_live q q' r text ((a, v) ∷ cs) puts gets b live e =
    let (q'', s, after) = get-Balanced q a v cs puts gets b live in
    subst (λ x. Led x.2 (next_of consuming x.0) (get_event x.1) ((a, v) ∷ cs) puts gets)
      (same_value s e)
      (record {
        cells = cs;
        balanced = recount after (omega arith) (omega arith);
        fits = tt;
        moves = refl;
      })

get_ended :
    (q q' : MyQueue) (r : ℕ) (text : Option (List ℕ)) (cs : Cells (List ℕ)) (puts gets : ℕ)
    → Balanced q cs puts (suc gets)
    → get_under_lock true true q buffer_size ≡ some (r, text, q')
    → Led q' (next_of consuming r) (get_event text) cs puts gets
get_ended q q' r text cs puts gets b e = elim (Bool-cases q.dropped) [
  | inl over ↦
      subst (λ x. Led x.2 (next_of consuming x.0) (get_event x.1) cs puts gets)
        (same_value (get_refused q over) e)
        (record {
          cells = cs;
          balanced =
              recount (more_empty q cs (q.empty_sem + 1) puts (suc gets) gets b (omega arith))
                (omega arith) (omega arith);
          fits = tt;
          moves = refl;
        })
  | inr live ↦ get_live q q' r text cs puts gets b live e
]

waited : (sem n passed : ℕ) → sem_wait sem ≡ some n → n + suc passed ≡ sem + passed
waited zero n passed e = ground arith
waited (suc m) n passed e = let same : m ≡ n = same_value refl e in omega arith

-- An act leads from a balanced queue to a balanced queue.
pub Act-Led :
    (q q' : MyQueue) (t t' : Thread) (e : Event) (cs : Cells (List ℕ)) (puts gets : ℕ)
    → Balanced q cs (put_count t + puts) (get_count t + gets)
    → Fits t
    → Act q t q' t' e
    → Led q' t' e cs puts gets
Act-Led q q' t t' e cs puts gets b fits (put_starts live size) = record {
  cells = cs;
  balanced = recount b (omega arith) (omega arith);
  fits = size;
  moves = refl;
}
Act-Led q q' t t' e cs puts gets b fits (put_waits n w) = record {
  cells = cs;
  balanced =
      recount
        (more_full q cs n puts (suc puts) gets (recount b (omega arith) (omega arith))
          (waited q.full_sem n puts w))
        (omega arith) (omega arith);
  fits = fits;
  moves = refl;
}
Act-Led q q' t t' e cs puts gets b fits (put_ends f r unused s) =
    put_ended q q' _ f r cs puts gets (recount b (omega arith) (omega arith)) fits unused s
Act-Led q q' t t' e cs puts gets b fits (put_leaves over) = record {
  cells = cs;
  balanced = recount b (omega arith) (omega arith);
  fits = tt;
  moves = refl;
}
Act-Led q q' t t' e cs puts gets b fits (get_starts live) = record {
  cells = cs;
  balanced = recount b (omega arith) (omega arith);
  fits = tt;
  moves = refl;
}
Act-Led q q' t t' e cs puts gets b fits (get_waits n w) = record {
  cells = cs;
  balanced =
      recount
        (more_empty q cs n puts gets (suc gets) (recount b (omega arith) (omega arith))
          (waited q.empty_sem n gets w))
        (omega arith) (omega arith);
  fits = tt;
  moves = refl;
}
Act-Led q q' t t' e cs puts gets b fits (get_ends r text s) =
    get_ended q q' r text cs puts gets (recount b (omega arith) (omega arith)) s
Act-Led q q' t t' e cs puts gets b fits (get_leaves over) = record {
  cells = cs;
  balanced = recount b (omega arith) (omega arith);
  fits = tt;
  moves = refl;
}
