-- ===== src/EventProxy/Descriptors/Room.antt =====
-- The calls on `server_fds` of rybalko/31/server.c stay inside the array, which has room for one more
-- descriptor whenever `realloc` has made it larger.
use posix_threads.Common.{
  ℕ, zero, suc, ◌+◌, ◌-◌, ◌*◌, ◌≤◌, ◌<◌, ◌≡◌, refl, ap, inl, inr, true, false, Option, some, List,
  [], ◌∷◌, ◌++◌, arith, ltb, leb, ◌==◌, ◌&&◌, length, length-modify, length-append,
  length-replicate, modify, replicate, take, take_all, Bool-cases, Option-cases, ℤ, minus_one,
  is_neg, find_below, find_below-lt,
}
use posix_threads.PoolProxy.PollTable.{PollFd, has_fd, clear_cell, trim}
use posix_threads.PoolProxy.PollTable.Invariant.{trim-le}
use posix_threads.EventProxy.{Server, size_max}
use posix_threads.EventProxy.Descriptors.{
  empty_fd, set_fd, set_events, set_event_for_fd, update_poll_fds_amount, delete_from_poll,
  realloc_server_fds, append_to_poll, add_fd_to_server_fds,
}

-- Some cells are counted, all of them in the array, which is no larger than SERVER_FDS_AMOUNT allows.
pub record HasRoom (fds : List PollFd) (current amount : ℕ) : Type 0 where
  pub counted : 0 < current
  pub fits : current ≤ length fds
  pub some_amount : 0 < amount
  pub bounded : length fds ≤ amount * 2 + 1

abbrev pub Roomy : Server → Type 0
Roomy s = HasRoom s.server_fds s.current s.server_amount

pub lt-trim : (ps : List PollFd) (n : ℕ) → 0 < n → 0 < trim ps n
unfolding trim
lt-trim ps zero h = absurd (omega arith)
lt-trim ps (suc n) h = ground (arith, lt-trim ps n)

length-set_events :
    (fd : ℤ) (ev n : ℕ) (ps : List PollFd) → length (set_events fd ev n ps) ≡ length ps
unfolding set_events
length-set_events fd ev zero ps = refl
length-set_events fd ev (suc n) [] = refl
length-set_events fd ev (suc n) (p ∷ ps) = ap suc (length-set_events fd ev n ps)

pub set_event-HasRoom :
    (fd : ℤ) (ev : ℕ) (s : Server)
    → Roomy s
    → (fds : List PollFd) × (set_event_for_fd fd ev s ≡ some (record s { server_fds = fds }))
      × HasRoom fds s.current s.server_amount
unfolding set_event_for_fd
set_event-HasRoom fd ev s v =
    let inside : leb s.current (length s.server_fds) ≡ true = ground (arith, v.fits) in
    let same = length-set_events fd ev s.current s.server_fds in
    (
      set_events fd ev s.current s.server_fds,
      rw inside refl,
      record {
        counted = v.counted;
        fits = omega (arith, v.fits, same);
        some_amount = v.some_amount;
        bounded = omega (arith, v.bounded, same);
      },
    )

-- Past a cell that is counted the loop starts inside the array.
pub update_poll_fds_amount_lem :
    (i : ℕ) (s : Server)
    → i < s.current
    → s.current ≤ length s.server_fds
    → update_poll_fds_amount i s ≡ some (record s { current = trim s.server_fds s.current })
unfolding update_poll_fds_amount
update_poll_fds_amount_lem i s h fits =
    let apart : (i == s.current) ≡ false = ground arith in
    let inside : (ltb 1 s.current && ltb (length s.server_fds) s.current && ltb s.current size_max)
        ≡ false =
      ground arith in
    rw apart (rw inside refl)

trim-HasRoom :
    (fds : List PollFd) (current amount : ℕ)
    → HasRoom fds current amount
    → HasRoom fds (trim fds current) amount
trim-HasRoom fds current amount v = record {
  counted = lt-trim fds current v.counted;
  fits = omega (arith, v.fits, trim-le current fds);
  some_amount = v.some_amount;
  bounded = v.bounded;
}

pub delete-HasRoom :
    (fd : ℤ) (s : Server)
    → Roomy s
    → (fds : List PollFd) × (current : ℕ) × (closed : List ℤ) × (delete_from_poll fd s
        ≡ some (record s { server_fds = fds; current = current; closed = closed }))
      × HasRoom fds current s.server_amount
unfolding delete_from_poll
delete-HasRoom fd s v = elim (Bool-cases (is_neg fd)) [
  | inl e ↦ (s.server_fds, s.current, s.closed, rw e refl, v)
  | inr e ↦ elim (Option-cases (find_below (has_fd fd) s.current s.server_fds)) [
    | inl f ↦
        let inside : leb s.current (length s.server_fds) ≡ true = ground (arith, v.fits) in
        (
          s.server_fds,
          trim s.server_fds s.current,
          s.closed,
          rw (e, f, delete_from_poll) (rw inside (update_poll_fds_amount_lem 0 s v.counted v.fits)),
          trim-HasRoom s.server_fds s.current s.server_amount v,
        )
    | inr (i, f) ↦
        let ps = modify s.server_fds i clear_cell in
        let t = record s { server_fds = ps; closed = fd ∷ s.closed } in
        let same = length-modify s.server_fds i clear_cell in
        let room : HasRoom ps s.current s.server_amount = record {
          counted = v.counted;
          fits = omega (arith, v.fits, same);
          some_amount = v.some_amount;
          bounded = omega (arith, v.bounded, same);
        } in
        (
          ps,
          trim ps s.current,
          fd ∷ s.closed,
          rw (e, f, delete_from_poll)
              (update_poll_fds_amount_lem i t (find_below-lt (has_fd fd) s.current s.server_fds i f)
                room.fits),
          trim-HasRoom ps s.current s.server_amount room,
        )
  ]
]

-- Nothing but the polled descriptors is written, and they have room.
abbrev pub Polls : Server → Option Server → Type 0
Polls s o =
    (fds : List PollFd) × (current : ℕ) × (amount : ℕ) × (o
      ≡ some (record s { server_fds = fds; current = current; server_amount = amount }))
    × HasRoom fds current amount

append-Polls :
    (fd : ℤ) (ev : ℕ) (s : Server)
    → s.current < length s.server_fds
    → 0 < s.server_amount
    → length s.server_fds ≤ s.server_amount * 2 + 1
    → Polls s (append_to_poll fd ev s)
unfolding append_to_poll
append-Polls fd ev s free some_amount bounded =
    let inside : ltb s.current (length s.server_fds) ≡ true = ground arith in
    let same = length-modify s.server_fds s.current (set_fd fd ev) in
    (
      modify s.server_fds s.current (set_fd fd ev),
      s.current + 1,
      s.server_amount,
      rw inside refl,
      record {
        counted = omega arith;
        fits = omega (arith, free, same);
        some_amount = some_amount;
        bounded = omega (arith, bounded, same);
      },
    )

grown-Polls :
    (fd : ℤ) (ev : ℕ) (s : Server)
    → Roomy s
    → ltb s.current (length s.server_fds) ≡ false
    → Polls s (add_fd_to_server_fds true fd ev s)
unfolding add_fd_to_server_fds realloc_server_fds
grown-Polls fd ev s v e =
    let m = s.server_amount * 2 + 2 - s.current in
    let fds = take s.current s.server_fds ++ replicate m empty_fd in
    let full : length s.server_fds ≤ s.current = ground (arith, e) in
    let all : take s.current s.server_fds ≡ s.server_fds = take_all s.current s.server_fds full in
    let kept : length (take s.current s.server_fds) ≡ length s.server_fds = ap length all in
    let size : length fds ≡ s.server_amount * 2 + 2 = omega (
      arith,
      v.fits,
      v.bounded,
      full,
      kept,
      length-append (take s.current s.server_fds) (replicate m empty_fd),
      length-replicate m empty_fd,
    ) in
    let (qs, n, amount, r, room) =
      append-Polls fd ev (record s { server_fds = fds; server_amount = s.server_amount * 2 })
        (omega (arith, v.fits, v.bounded, size)) (omega (arith, v.some_amount))
        (omega (arith, v.some_amount, size)) in
    (qs, n, amount, rw (e, add_fd_to_server_fds) r, room)

-- With memory at hand `AddFdTOServerFds` returns, and writes inside the array.
pub add_fd-Polls :
    (fd : ℤ) (ev : ℕ) (s : Server) → Roomy s → Polls s (add_fd_to_server_fds true fd ev s)
unfolding add_fd_to_server_fds
add_fd-Polls fd ev s v = elim (Bool-cases (ltb s.current (length s.server_fds))) [
  | inr e ↦ grown-Polls fd ev s v e
  | inl e ↦ elim (Option-cases (find_below (has_fd minus_one) s.current s.server_fds)) [
    | inl f ↦
        rw (e, f, add_fd_to_server_fds)
          (append-Polls fd ev s (ground (arith, e)) v.some_amount v.bounded)
    | inr (i, f) ↦
        let same = length-modify s.server_fds i (set_fd fd ev) in
        (
          modify s.server_fds i (set_fd fd ev),
          s.current,
          s.server_amount,
          rw (e, f, add_fd_to_server_fds) refl,
          record {
            counted = v.counted;
            fits = omega (arith, v.fits, same);
            some_amount = v.some_amount;
            bounded = omega (arith, v.bounded, same);
          },
        )
  ]
]
