-- ===== src/PoolProxy/PollTable/Lookup.antt =====
-- The poll table read as a finite map from descriptors to the events that are polled for.
use posix_threads.Common.{
  ℕ, zero, suc, ◌<◌, ◌≡◌, refl, ◌⊎◌, inl, inr, true, false, Option, none, some, List, [], ◌∷◌,
  arith, if◌then◌else◌, get_elem?, modify, length, ℤ, minus_one, is_neg, ◌==ℤ◌, ==ℤ_iff, find_below,
  Option-cases,
}
use posix_threads.PoolProxy.PollTable.{PollFd, has_fd, put, clear_cell, trim}

-- The events of the first of `n` cells that holds `fd`.
unfoldable pub watch : ℤ → ℕ → List PollFd → Option ℕ
watch j zero ps = none
watch j (suc n) [] = none
watch j (suc n) (p ∷ ps) = if has_fd j p then some p.events else watch j n ps

-- No two of the first `n` cells hold the same descriptor.
abbrev pub Distinct : ℕ → List PollFd → Type 0
Distinct zero ps = Unit
Distinct (suc n) [] = Unit
Distinct (suc n) (p ∷ ps) = ((is_neg p.fd ≡ true) ⊎ (watch p.fd n ps ≡ none)) × Distinct n ps

module _ (fd j : ℤ) (ev : ℕ) (valid : is_neg fd ≡ false) (asked : is_neg j ≡ false) where
  pub watch-put :
      (n i : ℕ) (ps : List PollFd)
      → find_below (has_fd minus_one) n ps ≡ some i
      → watch fd n ps ≡ none
      → watch j n (modify ps i (put fd ev)) ≡ (if fd ==ℤ j then some ev else watch j n ps)
  unfolding watch find_below
  watch-put zero i ps found absent = cc
  watch-put (suc n) i [] found absent = cc
  watch-put (suc n) zero (p ∷ ps) found absent =
      ground (arith, ==ℤ_iff fd j, ==ℤ_iff p.fd fd, ==ℤ_iff p.fd j, ==ℤ_iff p.fd minus_one)
  watch-put (suc n) (suc i) (p ∷ ps) found absent =
      ground (arith, ==ℤ_iff fd j, ==ℤ_iff p.fd fd, ==ℤ_iff p.fd j, watch-put n i ps)

  pub watch-append :
      (n : ℕ) (ps : List PollFd)
      → n < length ps
      → watch fd n ps ≡ none
      → watch j (suc n) (modify ps n (put fd ev)) ≡ (if fd ==ℤ j then some ev else watch j n ps)
  unfolding watch
  watch-append n [] room absent = absurd (omega arith)
  watch-append zero (p ∷ ps) room absent = refl
  watch-append (suc n) (p ∷ ps) room absent =
      ground (arith, ==ℤ_iff fd j, ==ℤ_iff p.fd fd, ==ℤ_iff p.fd j, watch-append n ps)

  pub watch-clear :
      (n i : ℕ) (ps : List PollFd)
      → find_below (has_fd fd) n ps ≡ some i
      → Distinct n ps
      → watch j n (modify ps i clear_cell) ≡ (if fd ==ℤ j then none else watch j n ps)
  unfolding watch find_below
  watch-clear zero i ps found distinct = cc
  watch-clear (suc n) i [] found distinct = cc
  watch-clear (suc n) zero (p ∷ ps) found distinct =
      ground (arith, ==ℤ_iff fd j, ==ℤ_iff p.fd fd, ==ℤ_iff p.fd j)
  watch-clear (suc n) (suc i) (p ∷ ps) found distinct =
      ground (arith, ==ℤ_iff fd j, ==ℤ_iff p.fd fd, ==ℤ_iff p.fd j, watch-clear n i ps)

  pub watch-change :
      (n i : ℕ) (ps : List PollFd)
      → find_below (has_fd fd) n ps ≡ some i
      → watch j n (modify ps i (λ p. record p { events = ev }))
        ≡ (if fd ==ℤ j then some ev else watch j n ps)
  unfolding watch find_below
  watch-change zero i ps found = cc
  watch-change (suc n) i [] found = cc
  watch-change (suc n) zero (p ∷ ps) found =
      ground (arith, ==ℤ_iff fd j, ==ℤ_iff p.fd fd, ==ℤ_iff p.fd j)
  watch-change (suc n) (suc i) (p ∷ ps) found =
      ground (arith, ==ℤ_iff fd j, ==ℤ_iff p.fd fd, ==ℤ_iff p.fd j, watch-change n i ps)

-- A cell out of use at the end of the table does not count.
pub watch-last :
    (j : ℤ) (n : ℕ) (ps : List PollFd) (p : PollFd)
    → is_neg j ≡ false
    → get_elem? ps n ≡ some p
    → p.fd ≡ minus_one
    → watch j (suc n) ps ≡ watch j n ps
unfolding watch
watch-last j n [] p asked at gone = cc
watch-last j zero (q ∷ ps) p asked at gone = ground arith
watch-last j (suc n) (q ∷ ps) p asked at gone = ground (arith, watch-last j n ps p)

pub watch-trim :
    (j : ℤ) (n : ℕ) (ps : List PollFd) → is_neg j ≡ false → watch j (trim ps n) ps ≡ watch j n ps
unfolding trim
watch-trim j zero ps asked = refl
watch-trim j (suc n) ps asked = elim (Option-cases (get_elem? ps n)) [
  | inl e ↦ ground arith
  | inr (p, e) ↦
      ground (arith, watch-last j n ps p, ==ℤ_iff p.fd minus_one, watch-trim j n ps asked)
]
