-- ===== src/PoolProxy/Loop/Wakes.antt =====
-- A thread that is woken polls its clients for output whose records have more than they were given.
use posix_threads.Common.{
  ℕ, zero, suc, ◌+◌, ◌≡◌, ◌⊎◌, refl, ◌∙◌, inl, inr, Bool, true, false, ◌&&◌, ◌||◌, Option, none,
  some, List, [], ◌∷◌, arith, if◌then◌else◌, is_some, length, ℤ, minus_one, is_neg, ◌==ℤ◌, ==ℤ_iff,
  Bool-cases, Option-cases,
}
use posix_threads.PoolProxy.PollTable.{PollTable, pollin, pollout, change_event_for_fd}
use posix_threads.PoolProxy.PollTable.Invariant.{IsValid, watched}
use posix_threads.PoolProxy.PollTable.Refines.{change-Updated}
use posix_threads.PoolProxy.Slots.{ClientCell}
use posix_threads.PoolProxy.Record.{Record}
use posix_threads.PoolProxy.World.{World}
use posix_threads.PoolProxy.Loop.{later, wake_cell, wake_cells, wake_clients}

abbrev pub has_more : ℤ → Option Record → Bool
has_more k none = false
has_more k (some r) = later r.response_index k

-- The record at the address, if any, has more than the client was given.
abbrev pub more_at : (ℕ → Option Record) → ℤ → Option ℕ → Bool
more_at rs k none = false
more_at rs k (some p) = has_more k (rs p)

-- The client with the descriptor `j` has more to be given.
abbrev pub waits : (ℕ → Option Record) → ℤ → ClientCell → Bool
waits rs j c = (c.fd ==ℤ j) && more_at rs c.write_response_index c.cache_record

abbrev pub any_waits : (ℕ → Option Record) → ℤ → List ClientCell → Bool
any_waits rs j [] = false
any_waits rs j (c ∷ cells) = waits rs j c || any_waits rs j cells

-- A record in memory, whose lock is not destroyed.
abbrev pub is_live : Option Record → Bool
is_live none = false
is_live (some r) = r.valid_rw_lock

-- A client of a valid table: its descriptor is polled, and its record is in memory with its lock.
pub record IsServed (rs : ℕ → Option Record) (t : PollTable) (c : ClientCell) : Type 0 where
  pub valid : is_neg c.fd ≡ false
  pub polled : is_some (watched c.fd t) ≡ true
  pub stored : (p : ℕ) → c.cache_record ≡ some p → is_live (rs p) ≡ true

-- Every cell is free or a client of the table.
abbrev pub AllServed : (ℕ → Option Record) → PollTable → List ClientCell → Type 0
AllServed rs t [] = Unit
AllServed rs t (c ∷ cells) = ((c.fd ≡ minus_one) ⊎ IsServed rs t c) × AllServed rs t cells

-- `u` is `t` with the descriptors for which `more` says so polled for input and output.
pub record Woken (more : ℤ → Bool) (t u : PollTable) : Type 0 where
  pub valid : IsValid u
  pub asks :
      (j : ℤ)
      → is_neg j ≡ false
      → watched j u ≡ (if more j then some (pollin + pollout) else watched j t)

stored_events : (o : Option ℕ) → is_some o ≡ true → (n : ℕ) × (o ≡ some n)
stored_events none h = absurd (ground arith)
stored_events (some n) h = (n, refl)

and_true : {A : Type 0} (x y : A) (b : Bool) → (if b then x else y) ≡ (if b && true then x else y)
and_true x y true = refl
and_true x y false = refl

and_false : {A : Type 0} (x y : A) (b : Bool) → y ≡ (if b && false then x else y)
and_false x y true = refl
and_false x y false = refl

some_either :
    (n : ℕ) (b : Bool) (o : Option ℕ) → is_some o ≡ true → is_some (if b then some n else o) ≡ true
some_either n true o h = refl
some_either n false o h = h

if_or :
    {A : Type 0} (a b : Bool) (x y : A)
    → (if b then x else (if a then x else y)) ≡ (if a || b then x else y)
if_or true true x y = refl
if_or true false x y = refl
if_or false true x y = refl
if_or false false x y = refl

stored_record :
    (o : Option Record) → is_live o ≡ true → (r : Record) × (o ≡ some r) × (r.valid_rw_lock ≡ true)
stored_record none h = absurd (ground arith)
stored_record (some r) h = (r, refl, h)

wake_stored :
    (rs : ℕ → Option Record) (c : ClientCell) (t : PollTable) (p : ℕ) (r : Record)
    → (c.fd ==ℤ minus_one) ≡ false
    → c.cache_record ≡ some p
    → rs p ≡ some r
    → r.valid_rw_lock ≡ true
    → wake_cell rs c t
      ≡ some (
          if more_at rs c.write_response_index c.cache_record
          then change_event_for_fd t c.fd (pollin + pollout)
          else t)
unfolding wake_cell
wake_stored rs c t p r other e at live = simp (other, e, at, live)

wake_cell_lem :
    (rs : ℕ → Option Record) (c : ClientCell) (t : PollTable)
    → IsServed rs t c
    → wake_cell rs c t
      ≡ some (
          if more_at rs c.write_response_index c.cache_record
          then change_event_for_fd t c.fd (pollin + pollout)
          else t)
unfolding wake_cell
wake_cell_lem rs c t s =
    let other : (c.fd ==ℤ minus_one) ≡ false = ground (arith, s.valid, ==ℤ_iff c.fd minus_one) in
    elim (Option-cases c.cache_record) [
      | inl e ↦ simp (other, e)
      | inr (p, e) ↦
          let (r, at, live) = stored_record (rs p) (s.stored p e) in
          wake_stored rs c t p r other e at live
    ]

free_waits :
    (rs : ℕ → Option Record) (j : ℤ) (c : ClientCell)
    → c.fd ≡ minus_one
    → is_neg j ≡ false
    → waits rs j c ≡ false
free_waits rs j c free h = ground (arith, ==ℤ_iff c.fd j)

wake_cell-Woken :
    (rs : ℕ → Option Record) (c : ClientCell) (t : PollTable)
    → IsValid t
    → (c.fd ≡ minus_one) ⊎ IsServed rs t c
    → (u : PollTable) × (wake_cell rs c t ≡ some u) × Woken (λ j. waits rs j c) t u
unfolding wake_cell
wake_cell-Woken rs c t v (inl free) =
    (t, simp free, record { valid = v; asks = λ j h. rw (free_waits rs j c free h) refl })
wake_cell-Woken rs c t v (inr s) =
    elim (Bool-cases (more_at rs c.write_response_index c.cache_record)) [
      | inl e ↦
          let (old, at) = stored_events (watched c.fd t) s.polled in
          let u = change-Updated t c.fd old (pollin + pollout) v s.valid at in
          (
            change_event_for_fd t c.fd (pollin + pollout),
            wake_cell_lem rs c t s ∙ rw e refl,
            record { valid = u.valid; asks = λ j h. u.asks j h ∙ rw e (and_true _ _ (c.fd ==ℤ j)) },
          )
      | inr e ↦ (
        t,
        wake_cell_lem rs c t s ∙ rw e refl,
        record { valid = v; asks = λ j h. rw e (and_false _ _ (c.fd ==ℤ j)) },
      )
    ]

-- The table after one client still serves the others.
Woken-AllServed :
    (rs : ℕ → Option Record) (more : ℤ → Bool) (t u : PollTable) (cells : List ClientCell)
    → Woken more t u
    → AllServed rs t cells
    → AllServed rs u cells
Woken-AllServed rs more t u [] w a = tt
Woken-AllServed rs more t u (c ∷ cells) w (inl free, a) =
    (inl free, Woken-AllServed rs more t u cells w a)
Woken-AllServed rs more t u (c ∷ cells) w (inr s, a) = (
  inr (record {
    valid = s.valid;
    polled =
        rw (w.asks c.fd s.valid)
          (some_either (pollin + pollout) (more c.fd) (watched c.fd t) s.polled);
    stored = s.stored;
  }),
  Woken-AllServed rs more t u cells w a,
)

wake_cells-Woken :
    (rs : ℕ → Option Record) (n : ℕ) (cells : List ClientCell) (t : PollTable)
    → n ≡ length cells
    → IsValid t
    → AllServed rs t cells
    → (u : PollTable) × (wake_cells rs n cells t ≡ some u) × Woken (λ j. any_waits rs j cells) t u
unfolding wake_cells
wake_cells-Woken rs zero [] t l v a = (t, refl, record { valid = v; asks = λ j h. refl })
wake_cells-Woken rs zero (c ∷ cells) t l v a = absurd (omega arith)
wake_cells-Woken rs (suc n) [] t l v a = absurd (omega arith)
wake_cells-Woken rs (suc n) (c ∷ cells) t l v (one, a) =
    let (u, e, w) = wake_cell-Woken rs c t v one in
    let (x, f, y) =
      wake_cells-Woken rs n cells u (omega arith) w.valid (Woken-AllServed rs _ t u cells w a) in
    (
      x,
      rw e f,
      record {
        valid = y.valid;
        asks =
            λ j h. y.asks j h ∙ rw (w.asks j h) (if_or (waits rs j c) (any_waits rs j cells) _ _);
      },
    )

-- A thread whose eventfd was written to, with a valid table, clients whose descriptors it polls and whose records
-- are in memory with locks that are not destroyed: it runs without a bad access, polls for input and output each
-- descriptor of a client whose record has more than the client was given, and every other as before.
pub wake_clients-Woken :
    (w : World)
    → w.clients.size ≡ length w.clients.cells
    → IsValid w.table
    → AllServed w.records w.table w.clients.cells
    → (u : PollTable) × (wake_clients w ≡ some (record w { table = u }))
      × Woken (λ j. any_waits w.records j w.clients.cells) w.table u
unfolding wake_clients
wake_clients-Woken w l v a =
    let (u, e, y) = wake_cells-Woken w.records w.clients.size w.clients.cells w.table l v a in
    (u, rw e refl, y)
