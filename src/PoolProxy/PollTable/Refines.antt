-- ===== src/PoolProxy/PollTable/Refines.antt =====
-- The operations on the poll table, seen from outside: a finite map from descriptors to events.
use posix_threads.Common.{
  ℕ, ◌<◌, ◌≡◌, refl, ap, sym, inl, inr, true, false, Option, none, some, arith, leb, ◌∙◌, subst,
  if◌then◌else◌, modify, Bool, ℤ, minus_one, is_neg, ◌==ℤ◌, ==ℤ_iff, find_below, Option-cases,
  Bool-cases, length-tabulate,
}
use mathlib.Core.Option.{some-injective}
use posix_threads.PoolProxy.PollTable.{
  PollFd, PollTable, has_fd, put, clear_fd, init_poll_fds, add_fd_to_poll_fds, remove_from_poll_fds,
  change_event_for_fd, realloc_poll_fds, append_fd, unused, zeroed,
}
use posix_threads.PoolProxy.PollTable.Lookup.{watch, watch-put, watch-trim, watch-change}
use posix_threads.PoolProxy.PollTable.Invariant.{
  IsValid, watched, realloc-IsValid, watched-realloc, appended, append_fd_lem, appended-IsValid,
  watched-appended, reuse-IsValid, change-IsValid, clear_fd-IsValid, watched-clear_fd, trim-IsValid,
  watch-missing,
}

-- What an operation does to the map: `after` answers for `fd`, and all else stays.
pub record Updated (fd : ℤ) (after : Option ℕ) (t u : PollTable) : Type 0 where
  pub valid : IsValid u
  pub asks : (j : ℤ) → is_neg j ≡ false → watched j u ≡ (if fd ==ℤ j then after else watched j t)

-- A table from `initPollFds` of a positive size is valid and watches nothing.
pub init_poll_fds-IsValid :
    (size : ℕ) (t : PollTable)
    → 0 < size
    → init_poll_fds true size ≡ some t
    → IsValid t × ((j : ℤ) → watched j t ≡ none)
unfolding init_poll_fds
init_poll_fds-IsValid size t h e =
    subst (λ u. IsValid u × ((j : ℤ) → watched j u ≡ none)) (some-injective _ _ e)
      (
        record {
          sized = omega (arith, length-tabulate (unused zeroed) 0 size);
          room = h;
          fits = omega arith;
          distinct = tt;
        },
        λ j. unfold watch in refl,
      )

realloc_room :
    (memory : ℕ → PollFd) (t : PollTable)
    → IsValid t
    → (realloc_poll_fds memory t).last < (realloc_poll_fds memory t).size
unfolding realloc_poll_fds
realloc_room memory t v = omega arith

append-Updated :
    (u : PollTable) (fd : ℤ) (ev : ℕ)
    → IsValid u
    → is_neg fd ≡ false
    → u.last < u.size
    → watched fd u ≡ none
    → (w : PollTable) × (append_fd u fd ev ≡ some w) × Updated fd (some ev) u w
append-Updated u fd ev v valid free absent = (
  appended u fd ev,
  append_fd_lem u fd ev v free,
  record {
    valid = appended-IsValid u v fd ev valid free absent;
    asks = watched-appended u v fd ev valid free absent;
  },
)

grown-Updated :
    (memory : ℕ → PollFd) (t : PollTable) (fd : ℤ) (ev : ℕ)
    → IsValid t
    → is_neg fd ≡ false
    → watched fd t ≡ none
    → (w : PollTable) × (append_fd (realloc_poll_fds memory t) fd ev ≡ some w)
      × Updated fd (some ev) t w
grown-Updated memory t fd ev v valid absent =
    let u = realloc_poll_fds memory t in
    let w = realloc-IsValid memory t v in
    let (x, e, added) =
      append-Updated u fd ev w valid (realloc_room memory t v)
        (watched-realloc memory t fd v ∙ absent) in
    (
      x,
      e,
      record {
        valid = added.valid;
        asks = λ j asked. rw (watched-realloc memory t j v) at (added.asks j asked);
      },
    )

-- `addFdToPollFds` of a descriptor that is not negative and not in the table, which is valid: nothing is
-- written outside the array, and the table stays valid and polls it for the events given, and every other descriptor as before.
pub add_fd-Updated :
    (memory : ℕ → PollFd) (t : PollTable) (fd : ℤ) (ev : ℕ)
    → IsValid t
    → is_neg fd ≡ false
    → watched fd t ≡ none
    → (u : PollTable) × (add_fd_to_poll_fds memory t fd ev ≡ some u) × Updated fd (some ev) t u
unfolding add_fd_to_poll_fds
add_fd-Updated memory t fd ev v valid absent =
    rw valid (elim (Option-cases (find_below (has_fd minus_one) t.last t.fds)) [
      | inr (i, e) ↦ rw e (
        record t { fds = modify t.fds i (put fd ev) },
        refl,
        record {
          valid = reuse-IsValid t v fd ev valid i e absent;
          asks = λ j asked. watch-put fd j ev valid asked t.last i t.fds e absent;
        },
      )
      | inl e ↦ rw e (elim (Bool-cases (leb t.size t.last)) [
        | inl full ↦ rw full (grown-Updated memory t fd ev v valid absent)
        | inr free ↦ rw free (append-Updated t fd ev v valid (ground arith) absent)
      ])
    ])

-- `removeFromPollFds` of a descriptor that is not negative, from a valid table: the table stays
-- valid and no longer polls the descriptor, and polls every other for the events as before.
pub remove-Updated :
    (t : PollTable) (fd : ℤ)
    → IsValid t
    → is_neg fd ≡ false
    → Updated fd none t (remove_from_poll_fds t fd)
unfolding remove_from_poll_fds
remove-Updated t fd v valid =
    let u = clear_fd t fd in
    rw valid (record {
      valid = trim-IsValid u (clear_fd-IsValid t v fd 0 valid);
      asks = λ j asked. watch-trim j u.last u.fds asked ∙ watched-clear_fd t v fd 0 valid j asked;
    })

-- `changeEventForFd` of a descriptor that a valid table polls: it is then polled for the new events,
-- and every other descriptor as before.
pub change-Updated :
    (t : PollTable) (fd : ℤ) (old ev : ℕ)
    → IsValid t
    → is_neg fd ≡ false
    → watched fd t ≡ some old
    → Updated fd (some ev) t (change_event_for_fd t fd ev)
unfolding change_event_for_fd
change-Updated t fd old ev v valid present =
    rw valid (elim (Option-cases (find_below (has_fd fd) t.last t.fds)) [
      | inl e ↦ absurd (ground (arith, watch-missing fd t.last t.fds))
      | inr (i, e) ↦ rw e (record {
        valid = change-IsValid t v fd ev valid i e;
        asks = λ j asked. watch-change fd j ev valid asked t.last i t.fds e;
      })
    ])

-- The table is valid and polls the descriptor.
pub record IsWatched (t : PollTable) (fd : ℤ) : Type 0 where
  pub table : IsValid t
  pub known : is_neg fd ≡ false
  pub old : ℕ
  pub asked : watched fd t ≡ some old

pub Updated-self : (t : PollTable) (fd : ℤ) → IsValid t → Updated fd (watched fd t) t t
Updated-self t fd v = record {
  valid = v;
  asks = λ j asked. elim (Bool-cases (fd ==ℤ j)) [
    | inl e ↦ rw e (ap (λ k. watched k t) (sym ((==ℤ_iff fd j).0 e)))
    | inr e ↦ rw e refl
  ];
}

-- `changeEventForFd` under a test.
pub change_if-Updated :
    (t : PollTable) (fd : ℤ) (ev : ℕ) (b : Bool)
    → IsWatched t fd
    → Updated fd
        (if b then some ev else watched fd t)
        t
        (if b then change_event_for_fd t fd ev else t)
change_if-Updated t fd ev true w = change-Updated t fd w.old ev w.table w.known w.asked
change_if-Updated t fd ev false w = Updated-self t fd w.table

pub change_unless-Updated :
    (t : PollTable) (fd : ℤ) (ev : ℕ) (b : Bool)
    → IsWatched t fd
    → Updated fd
        (if b then watched fd t else some ev)
        t
        (if b then t else change_event_for_fd t fd ev)
change_unless-Updated t fd ev true w = Updated-self t fd w.table
change_unless-Updated t fd ev false w = change-Updated t fd w.old ev w.table w.known w.asked

-- The descriptor is polled after a change under a test, too.
pub Updated-IsWatched :
    (fd : ℤ) (ev : ℕ) (b : Bool) (t u : PollTable)
    → IsWatched t fd
    → Updated fd (if b then some ev else watched fd t) t u
    → IsWatched u fd
Updated-IsWatched fd ev b t u w d =
    let itself : (fd ==ℤ fd) ≡ true = (==ℤ_iff fd fd).1 refl in
    let now : watched fd u ≡ (if b then some ev else watched fd t) =
      d.asks fd w.known ∙ rw itself refl in
    record {
      table = d.valid;
      known = w.known;
      old = if b then ev else w.old;
      asked = now ∙ elim (Bool-cases b) [ inl e ↦ rw e refl | inr e ↦ rw e w.asked ];
    }

-- Two changes under tests, of which the second holds if the first does.
pub Updated-twice :
    (fd : ℤ) (ev : ℕ) (b b' : Bool) (t u v : PollTable)
    → (b ≡ true → b' ≡ true)
    → Updated fd (if b then some ev else watched fd t) t u
    → Updated fd (if b' then some ev else watched fd u) u v
    → Updated fd (if b' then some ev else watched fd t) t v
Updated-twice fd ev b b' t u v h d e = record {
  valid = e.valid;
  asks = λ j asked. e.asks j asked ∙ elim (Bool-cases (fd ==ℤ j)) [
    | inr f ↦ rw f (d.asks j asked ∙ rw f refl)
    | inl f ↦
        let same : fd ≡ j = (==ℤ_iff fd j).0 f in
        let before : watched fd u ≡ (if b then some ev else watched fd t) =
          ap (λ k. watched k u) same ∙ d.asks j asked ∙ rw f refl in
        rw f (elim (Bool-cases b') [
          | inl g ↦ rw g refl
          | inr g ↦ rw g (
              before
              ∙ elim (Bool-cases b) [ inl k ↦ absurd (ground (arith, h k)) | inr k ↦ rw k refl ])
        ])
  ];
}
