-- ===== src/EventProxy/Descriptors/Polls.antt =====
-- What `DeleteFromPoll` of rybalko/31/server.c does to the descriptors that are polled, read as a map from
-- a descriptor to its events.
use posix_threads.Common.{
  ℕ, ◌≤◌, ◌<◌, ◌≡◌, refl, ◌∙◌, ◌⊎◌, inl, inr, true, false, Option, none, some, ◌∷◌, arith, leb,
  if◌then◌else◌, length, length-modify, modify, Option-cases, ℤ, is_neg, ◌==ℤ◌, ==ℤ_iff, find_below,
  find_below-lt,
}
use posix_threads.PoolProxy.PollTable.{has_fd, clear_cell, trim}
use posix_threads.PoolProxy.PollTable.Lookup.{watch, Distinct, watch-clear, watch-trim}
use posix_threads.PoolProxy.PollTable.Distinct.{Distinct-clear, Distinct-trim}
use posix_threads.PoolProxy.PollTable.Invariant.{trim-le, watch-missing}
use posix_threads.EventProxy.{Server}
use posix_threads.EventProxy.Descriptors.{delete_from_poll}
use posix_threads.EventProxy.Descriptors.Room.{lt-trim, update_poll_fds_amount_lem}

-- Some cells of the array are counted, and no two of them hold the same descriptor.
pub record IsPolled (s : Server) : Type 0 where
  pub fits : s.current ≤ length s.server_fds
  pub counted : 0 < s.current
  pub distinct : Distinct s.current s.server_fds

abbrev pub polled : ℤ → Server → Option ℕ
polled j s = watch j s.current s.server_fds

trimmed-IsPolled :
    (s : Server) → IsPolled s → IsPolled (record s { current = trim s.server_fds s.current })
trimmed-IsPolled s v = record {
  fits = omega (arith, v.fits, trim-le s.current s.server_fds);
  counted = lt-trim s.server_fds s.current v.counted;
  distinct = Distinct-trim s.current s.server_fds v.distinct;
}

-- The state after the call: `fd` is not polled, all else is as before, and `fd` is closed if it was polled.
pub record Deleted (fd : ℤ) (s t : Server) : Type 0 where
  pub valid : IsPolled t
  pub asks : (j : ℤ) → is_neg j ≡ false → polled j t ≡ (if fd ==ℤ j then none else polled j s)
  pub closes : (t.closed ≡ fd ∷ s.closed) ⊎ ((t.closed ≡ s.closed) × (polled fd s ≡ none))

absent-Deleted :
    (fd : ℤ) (s : Server)
    → IsPolled s
    → is_neg fd ≡ false
    → find_below (has_fd fd) s.current s.server_fds ≡ none
    → Deleted fd s (record s { current = trim s.server_fds s.current })
absent-Deleted fd s v valid e =
    let gone = watch-missing fd s.current s.server_fds e in
    record {
      valid = trimmed-IsPolled s v;
      asks = λ j asked. watch-trim j s.current s.server_fds asked ∙ ground (arith, ==ℤ_iff fd j);
      closes = inr (refl, gone);
    }

present-Deleted :
    (fd : ℤ) (s : Server) (i : ℕ)
    → IsPolled s
    → is_neg fd ≡ false
    → find_below (has_fd fd) s.current s.server_fds ≡ some i
    → Deleted fd s (record s {
      server_fds = modify s.server_fds i clear_cell;
      closed = fd ∷ s.closed;
      current = trim (modify s.server_fds i clear_cell) s.current;
    })
present-Deleted fd s i v valid e =
    let ps = modify s.server_fds i clear_cell in
    record {
      valid =
          trimmed-IsPolled (record s { server_fds = ps; closed = fd ∷ s.closed })
            (record {
              fits = omega (arith, v.fits, length-modify s.server_fds i clear_cell);
              counted = v.counted;
              distinct = Distinct-clear fd 0 valid s.current i s.server_fds e v.distinct;
            });
      asks = λ j asked.
          watch-trim j s.current ps asked
          ∙ watch-clear fd j 0 valid asked s.current i s.server_fds e v.distinct;
      closes = inl refl;
    }

-- `DeleteFromPoll` of a descriptor that is not negative, with at least one cell counted and no descriptor
-- twice: the call ends and accesses nothing outside the array, the array stays so, the descriptor is not polled
-- any more, every other one is polled as before, and the descriptor is closed, unless it was not polled.
pub delete_from_poll-Deleted :
    (fd : ℤ) (s : Server)
    → IsPolled s
    → is_neg fd ≡ false
    → (t : Server) × (delete_from_poll fd s ≡ some t) × Deleted fd s t
unfolding delete_from_poll
delete_from_poll-Deleted fd s v valid =
    elim (Option-cases (find_below (has_fd fd) s.current s.server_fds)) [
      | inl e ↦
          let inside : leb s.current (length s.server_fds) ≡ true = ground (arith, v.fits) in
          (
            record s { current = trim s.server_fds s.current },
            rw (valid, e, delete_from_poll)
                (rw inside (update_poll_fds_amount_lem 0 s v.counted v.fits)),
            absent-Deleted fd s v valid e,
          )
      | inr (i, e) ↦
          let ps = modify s.server_fds i clear_cell in
          let t = record s { server_fds = ps; closed = fd ∷ s.closed } in
          (
            record t { current = trim ps s.current },
            rw (valid, e, delete_from_poll)
                (update_poll_fds_amount_lem i t
                  (find_below-lt (has_fd fd) s.current s.server_fds i e)
                  (omega (arith, v.fits, length-modify s.server_fds i clear_cell))),
            present-Deleted fd s i v valid e,
          )
    ]
