-- ===== src/PoolProxy/PollTable/Invariant.antt =====
-- What the poll table keeps: the used part fits, and no descriptor stands in it twice.
use posix_threads.Common.{
  ℕ, zero, suc, ◌-◌, ◌≤◌, ◌<◌, ◌≡◌, refl, inl, inr, false, Option, none, some, List, [], ◌∷◌, arith,
  if◌then◌else◌, get_elem?, modify, length, length-append, length-modify, length-tabulate, tabulate,
  ℤ, minus_one, is_neg, ◌==ℤ◌, ==ℤ_iff, find_below, Option-cases, Bool-cases, ◌+◌, lt→ltb, ◌==◌,
  ◌∙◌, sym, subst,
}
use native.Mathlib.Numerals.{add-one}
use posix_threads.PoolProxy.PollTable.{
  PollFd, PollTable, has_fd, put, clear_cell, trim, clear_fd, append_fd, realloc_poll_fds, unused,
}
use posix_threads.PoolProxy.PollTable.Lookup.{
  watch, Distinct, watch-append, watch-clear, watch-last,
}
use posix_threads.PoolProxy.PollTable.Distinct.{
  Distinct-put, Distinct-append, Distinct-clear, Distinct-change, Distinct-grow, Distinct-shorter,
  Distinct-trim, watch-grow,
}

pub record IsValid (t : PollTable) : Type 0 where
  pub sized : t.size ≡ length t.fds
  pub room : 0 < t.size
  pub fits : t.last ≤ t.size
  pub distinct : Distinct t.last t.fds

abbrev pub watched : ℤ → PollTable → Option ℕ
watched j t = watch j t.last t.fds

pub trim-le : (n : ℕ) (ps : List PollFd) → trim ps n ≤ n
unfolding trim
trim-le zero ps = omega arith
trim-le (suc n) ps = ground (arith, trim-le n ps)

-- A cleared cell at the very end leaves the used part at once.
get_elem?-clear :
    (fd : ℤ) (n i : ℕ) (ps : List PollFd)
    → find_below (has_fd fd) n ps ≡ some i
    → (p : PollFd) × (get_elem? (modify ps i clear_cell) i ≡ some p) × (p.fd ≡ minus_one)
unfolding find_below
get_elem?-clear fd zero i ps h = cc
get_elem?-clear fd (suc n) i [] h = cc
get_elem?-clear fd (suc n) zero (p ∷ ps) h = (clear_cell p, refl, refl)
get_elem?-clear fd (suc n) (suc i) (p ∷ ps) h = get_elem?-clear fd n i ps (ground arith)

clear_shrinks :
    (n i : ℕ) (ps : List PollFd)
    → Distinct n (modify ps i clear_cell)
    → Distinct (if i == n - 1 then n - 1 else n) (modify ps i clear_cell)
clear_shrinks zero i ps d = ground arith
clear_shrinks (suc n) i ps d =
    let less : suc n - 1 ≡ n = omega arith in
    rw less (elim (Bool-cases (i == n)) [
      | inl e ↦ rw e (Distinct-shorter n (modify ps i clear_cell) d)
      | inr e ↦ rw e d
    ])

pub watch-missing :
    (fd : ℤ) (n : ℕ) (ps : List PollFd) → find_below (has_fd fd) n ps ≡ none → watch fd n ps ≡ none
unfolding watch find_below
watch-missing fd zero ps h = refl
watch-missing fd (suc n) [] h = refl
watch-missing fd (suc n) (p ∷ ps) h = ground (arith, watch-missing fd n ps)

watch-shrinks :
    (fd j : ℤ) (n i : ℕ) (ps : List PollFd)
    → is_neg j ≡ false
    → find_below (has_fd fd) n ps ≡ some i
    → watch j (if i == n - 1 then n - 1 else n) (modify ps i clear_cell)
      ≡ watch j n (modify ps i clear_cell)
watch-shrinks fd j zero i ps asked found = ground arith
watch-shrinks fd j (suc n) i ps asked found =
    let less : suc n - 1 ≡ n = omega arith in
    let (p, at, gone) = get_elem?-clear fd (suc n) i ps found in
    rw less (elim (Bool-cases (i == n)) [
      | inl e ↦
          let same : i ≡ n = ground arith in
          rw e (
            sym (
              watch-last j n (modify ps i clear_cell) p asked
                (subst (λ k. get_elem? (modify ps i clear_cell) k ≡ some p) same at) gone))
      | inr e ↦ rw e
    ])

-- Preservation of `IsValid`, one lemma for each path through the operations.
pub realloc-IsValid :
    (memory : ℕ → PollFd) (t : PollTable) → IsValid t → IsValid (realloc_poll_fds memory t)
unfolding realloc_poll_fds
realloc-IsValid memory t v = record {
  sized = omega (
    arith,
    v.sized,
    length-append t.fds (tabulate (unused memory) t.size t.size),
    length-tabulate (unused memory) t.size t.size,
  );
  room = omega arith;
  fits = omega arith;
  distinct =
      Distinct-grow t.last t.fds (tabulate (unused memory) t.size t.size) (omega arith) v.distinct;
}

pub watched-realloc :
    (memory : ℕ → PollFd) (t : PollTable) (j : ℤ)
    → IsValid t
    → watched j (realloc_poll_fds memory t) ≡ watched j t
unfolding realloc_poll_fds
watched-realloc memory t j v = watch-grow j t.last t.fds _ (omega arith)

-- The table with one more cell in use.
pub appended : PollTable → ℤ → ℕ → PollTable
appended t fd ev = record t { fds = modify t.fds t.last (put fd ev); last = t.last + 1 }

pub append_fd_lem :
    (t : PollTable) (fd : ℤ) (ev : ℕ)
    → IsValid t
    → t.last < t.size
    → append_fd t fd ev ≡ some (appended t fd ev)
unfolding append_fd appended
append_fd_lem t fd ev v free = rw (lt→ltb t.last (length t.fds) (omega (arith, v.sized, free))) refl

module _ (t : PollTable) (v : IsValid t) (fd : ℤ) (ev : ℕ) (valid : is_neg fd ≡ false) where
  module _ (free : t.last < t.size) (absent : watched fd t ≡ none) where
    pub appended-IsValid : IsValid (appended t fd ev)
    unfolding appended
    appended-IsValid = record {
      sized = omega (arith, v.sized, length-modify t.fds t.last (put fd ev));
      room = v.room;
      fits = omega arith;
      distinct =
          rw add-one
            (Distinct-append fd ev valid t.last t.fds (omega (arith, v.sized)) absent v.distinct);
    }

    pub watched-appended :
        (j : ℤ)
        → is_neg j ≡ false
        → watched j (appended t fd ev) ≡ (if fd ==ℤ j then some ev else watched j t)
    unfolding appended
    watched-appended j asked =
        rw add-one (watch-append fd j ev valid asked t.last t.fds (omega (arith, v.sized)) absent)

  pub reuse-IsValid :
      (i : ℕ)
      → find_below (has_fd minus_one) t.last t.fds ≡ some i
      → watched fd t ≡ none
      → IsValid (record t { fds = modify t.fds i (put fd ev) })
  reuse-IsValid i found absent = record {
    sized = omega (arith, v.sized, length-modify t.fds i (put fd ev));
    room = v.room;
    fits = v.fits;
    distinct = Distinct-put fd ev valid t.last i t.fds found absent v.distinct;
  }

  pub change-IsValid :
      (i : ℕ)
      → find_below (has_fd fd) t.last t.fds ≡ some i
      → IsValid (record t { fds = modify t.fds i (λ p. record p { events = ev }) })
  change-IsValid i found = record {
    sized = omega (arith, v.sized, length-modify t.fds i (λ p. record p { events = ev }));
    room = v.room;
    fits = v.fits;
    distinct = Distinct-change fd ev valid t.last i t.fds found v.distinct;
  }

  -- The table between the two loops of `removeFromPollFds`.
  pub clear_fd-IsValid : IsValid (clear_fd t fd)
  unfolding clear_fd
  clear_fd-IsValid = elim (Option-cases (find_below (has_fd fd) t.last t.fds)) [
    | inl e ↦ rw (e, clear_fd) v
    | inr (i, e) ↦
        rw (e, clear_fd)
          (record {
            sized = omega (arith, v.sized, length-modify t.fds i clear_cell);
            room = v.room;
            fits = ground arith;
            distinct =
                clear_shrinks t.last i t.fds
                  (Distinct-clear fd ev valid t.last i t.fds e v.distinct);
          })
  ]

  pub watched-clear_fd :
      (j : ℤ)
      → is_neg j ≡ false
      → watched j (clear_fd t fd) ≡ (if fd ==ℤ j then none else watched j t)
  unfolding clear_fd
  watched-clear_fd j asked = elim (Option-cases (find_below (has_fd fd) t.last t.fds)) [
    | inl e ↦
        rw (e, clear_fd)
          (ground
            (arith, ==ℤ_iff fd j, watch-missing fd t.last t.fds, watch-missing j t.last t.fds))
    | inr (i, e) ↦
        rw (e, clear_fd)
          (watch-shrinks fd j t.last i t.fds asked e
            ∙ watch-clear fd j ev valid asked t.last i t.fds e v.distinct)
  ]

pub trim-IsValid : (t : PollTable) → IsValid t → IsValid (record t { last = trim t.fds t.last })
trim-IsValid t v = record {
  sized = v.sized;
  room = v.room;
  fits = omega (arith, v.fits, trim-le t.last t.fds);
  distinct = Distinct-trim t.last t.fds v.distinct;
}
