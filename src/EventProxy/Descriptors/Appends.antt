-- ===== src/EventProxy/Descriptors/Appends.antt =====
-- What `AddFdTOServerFds` of rybalko/31/server.c does to the descriptors that are polled.
use posix_threads.Common.{
  ℕ, zero, suc, ◌+◌, ◌-◌, ◌*◌, ◌≤◌, ◌<◌, ◌≡◌, refl, ap, ◌∙◌, inl, inr, true, false, none, some,
  List, [], ◌∷◌, ◌++◌, arith, ltb, lt→ltb, if◌then◌else◌, length, length-modify, length-append,
  length-replicate, modify, replicate, take, take_all, Bool-cases, Option-cases, ℤ, minus_one,
  is_neg, ◌==ℤ◌, find_below,
}
use mathlib.Core.Option.{some-injective}
use posix_threads.PoolProxy.PollTable.{PollFd, has_fd, put}
use posix_threads.PoolProxy.PollTable.Lookup.{watch, Distinct, watch-put, watch-append}
use posix_threads.PoolProxy.PollTable.Distinct.{
  Distinct-put, Distinct-append, Distinct-grow, watch-grow,
}
use posix_threads.EventProxy.{Server}
use posix_threads.EventProxy.Descriptors.{
  empty_fd, set_fd, add_fd_to_server_fds, realloc_server_fds, append_to_poll,
}
use posix_threads.EventProxy.Descriptors.Polls.{IsPolled, polled}

abbrev quiet : PollFd → PollFd
quiet p = record p { revents = 0 }

set_fd_lem :
    (fd : ℤ) (ev i : ℕ) (ps : List PollFd)
    → modify ps i (set_fd fd ev) ≡ modify (modify ps i (put fd ev)) i quiet
set_fd_lem fd ev i [] = refl
set_fd_lem fd ev zero (p ∷ ps) = refl
set_fd_lem fd ev (suc i) (p ∷ ps) = ap (λ qs. p ∷ qs) (set_fd_lem fd ev i ps)

watch-quiet : (j : ℤ) (n i : ℕ) (ps : List PollFd) → watch j n (modify ps i quiet) ≡ watch j n ps
unfolding watch
watch-quiet j zero i ps = refl
watch-quiet j (suc n) i [] = refl
watch-quiet j (suc n) zero (p ∷ ps) = refl
watch-quiet j (suc n) (suc i) (p ∷ ps) = rw (watch-quiet j n i ps) refl

Distinct-quiet : (n i : ℕ) (ps : List PollFd) → Distinct n ps → Distinct n (modify ps i quiet)
unfolding watch
Distinct-quiet zero i ps d = tt
Distinct-quiet (suc n) i [] d = tt
Distinct-quiet (suc n) zero (p ∷ ps) d = d
Distinct-quiet (suc n) (suc i) (p ∷ ps) d =
    rw (watch-quiet p.fd n i ps) (d.0, Distinct-quiet n i ps (d.1))

-- The state after the call: `fd` is polled for `ev`, and all else as before.
pub record Appended (fd : ℤ) (ev : ℕ) (s t : Server) : Type 0 where
  pub valid : IsPolled t
  pub asks : (j : ℤ) → is_neg j ≡ false → polled j t ≡ (if fd ==ℤ j then some ev else polled j s)
  pub closed : t.closed ≡ s.closed

-- The array has room for one more.
appended : ℤ → ℕ → Server → Server
appended fd ev s = record s {
  server_fds = modify s.server_fds s.current (set_fd fd ev);
  current = s.current + 1;
}

append_to_poll_lem :
    (fd : ℤ) (ev : ℕ) (s : Server)
    → s.current < length s.server_fds
    → append_to_poll fd ev s ≡ some (appended fd ev s)
unfolding append_to_poll appended
append_to_poll_lem fd ev s room = rw (lt→ltb s.current (length s.server_fds) room) refl

module _ (fd : ℤ) (ev : ℕ) (known : is_neg fd ≡ false) (s : Server) (v : IsPolled s)
    (absent : polled fd s ≡ none) where
  put-Appended :
      (i : ℕ)
      → find_below (has_fd minus_one) s.current s.server_fds ≡ some i
      → Appended fd ev s (record s { server_fds = modify s.server_fds i (set_fd fd ev) })
  put-Appended i e =
      let ps = s.server_fds in
      rw (set_fd_lem fd ev i ps) (record {
        valid = record {
          fits = omega (
            arith,
            v.fits,
            length-modify ps i (put fd ev),
            length-modify (modify ps i (put fd ev)) i quiet,
          );
          counted = v.counted;
          distinct =
              Distinct-quiet s.current i (modify ps i (put fd ev))
                (Distinct-put fd ev known s.current i ps e absent v.distinct);
        };
        asks = λ j asked.
            watch-quiet j s.current i (modify ps i (put fd ev))
            ∙ watch-put fd j ev known asked s.current i ps e absent;
        closed = refl;
      })

  append-Appended : s.current < length s.server_fds → Appended fd ev s (appended fd ev s)
  unfolding appended
  append-Appended room =
      let ps = s.server_fds in
      let n = s.current in
      let next : n + 1 ≡ suc n = omega arith in
      rw (set_fd_lem fd ev n ps, next)
        (record {
          valid = record {
            fits = omega (
              arith,
              room,
              length-modify ps n (put fd ev),
              length-modify (modify ps n (put fd ev)) n quiet,
            );
            counted = omega arith;
            distinct =
                Distinct-quiet (suc n) n (modify ps n (put fd ev))
                  (Distinct-append fd ev known n ps room absent v.distinct);
          };
          asks = λ j asked.
              watch-quiet j (suc n) n (modify ps n (put fd ev))
              ∙ watch-append fd j ev known asked n ps room absent;
          closed = refl;
        })

grown-Polled :
    (s : Server)
    → IsPolled s
    → s.current ≡ length s.server_fds
    → length s.server_fds ≤ s.server_amount * 2 + 1
    → (s' : Server) × (realloc_server_fds true s ≡ some s')
      × IsPolled s'
      × ((j : ℤ) → polled j s' ≡ polled j s)
      × (s'.current < length s'.server_fds)
      × (s'.closed ≡ s.closed)
unfolding realloc_server_fds
grown-Polled s v full room =
    let ps = s.server_fds in
    let m = s.server_amount * 2 + 2 - s.current in
    let all : take s.current ps ≡ ps = take_all s.current ps (omega (arith, full)) in
    let size : length (ps ++ replicate m empty_fd) ≡ length ps + m =
      omega (arith, length-append ps (replicate m empty_fd), length-replicate m empty_fd) in
    (
      record s { server_fds = ps ++ replicate m empty_fd; server_amount = s.server_amount * 2 },
      rw all refl,
      record {
        fits = omega (arith, v.fits, size);
        counted = v.counted;
        distinct = Distinct-grow s.current ps (replicate m empty_fd) v.fits v.distinct;
      },
      λ j. watch-grow j s.current ps (replicate m empty_fd) v.fits,
      omega (arith, size, full, room),
      refl,
    )

-- `AddFdTOServerFds` of a descriptor that is not negative and not polled, with at least one cell counted, no
-- descriptor twice, an array of at most twice SERVER_FDS_AMOUNT and one cells, and memory at hand.
pub add_fd-Appended :
    (fd : ℤ) (ev : ℕ) (s : Server)
    → is_neg fd ≡ false
    → IsPolled s
    → polled fd s ≡ none
    → length s.server_fds ≤ s.server_amount * 2 + 1
    → (t : Server) × (add_fd_to_server_fds true fd ev s ≡ some t) × Appended fd ev s t
unfolding add_fd_to_server_fds realloc_server_fds
add_fd-Appended fd ev s known v absent room =
    elim (Bool-cases (ltb s.current (length s.server_fds))) [
      | inr e ↦
          let (s', got, w, same, free, closed) =
            grown-Polled s v (ground (arith, v.fits, e)) room in
          let a = append-Appended fd ev known s' w (same fd ∙ absent) free in
          (
            appended fd ev s',
            rw (e, add_fd_to_server_fds)
                (ap (append_to_poll fd ev) (some-injective _ _ got)
                  ∙ append_to_poll_lem fd ev s' free),
            record {
              valid = a.valid;
              asks = λ j asked. a.asks j asked ∙ ap (λ x. if fd ==ℤ j then some ev else x) (same j);
              closed = a.closed ∙ closed;
            },
          )
      | inl e ↦ elim (Option-cases (find_below (has_fd minus_one) s.current s.server_fds)) [
        | inl f ↦ (
          appended fd ev s,
          rw (e, f, add_fd_to_server_fds) (append_to_poll_lem fd ev s (ground (arith, e))),
          append-Appended fd ev known s v absent (ground (arith, e)),
        )
        | inr (i, f) ↦ (
          record s { server_fds = modify s.server_fds i (set_fd fd ev) },
          rw (e, f, add_fd_to_server_fds) refl,
          put-Appended fd ev known s v absent i f,
        )
      ]
    ]
