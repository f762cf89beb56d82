-- ===== src/PoolProxy/PollTable/Distinct.antt =====
-- Each change of the poll table keeps its descriptors distinct.
use posix_threads.Common.{
  ℕ, zero, suc, ◌≤◌, ◌<◌, ◌≡◌, refl, inl, inr, false, none, some, List, [], ◌∷◌, ◌++◌, arith,
  get_elem?, modify, length, ℤ, minus_one, is_neg, ==ℤ_iff, find_below, Option-cases, Bool-cases,
  ltb, ◌&&◌,
}
use posix_threads.PoolProxy.PollTable.{PollFd, has_fd, put, clear_cell, trim}
use posix_threads.PoolProxy.PollTable.Lookup.{
  watch, Distinct, watch-put, watch-append, watch-clear, watch-change,
}

-- Each change of the table keeps its descriptors distinct.
module _ (fd : ℤ) (ev : ℕ) (valid : is_neg fd ≡ false) where
  pub Distinct-put :
      (n i : ℕ) (ps : List PollFd)
      → find_below (has_fd minus_one) n ps ≡ some i
      → watch fd n ps ≡ none
      → Distinct n ps
      → Distinct n (modify ps i (put fd ev))
  unfolding watch find_below
  Distinct-put zero i ps found absent d = tt
  Distinct-put (suc n) i [] found absent d = tt
  Distinct-put (suc n) zero (p ∷ ps) found absent d =
      ground (arith, ==ℤ_iff p.fd fd, ==ℤ_iff p.fd minus_one)
  Distinct-put (suc n) (suc i) (p ∷ ps) found absent d = ground (
    arith,
    ==ℤ_iff p.fd fd,
    ==ℤ_iff fd p.fd,
    λ (asked : is_neg p.fd ≡ false). watch-put fd p.fd ev valid asked n i ps,
    Distinct-put n i ps,
  )

  pub Distinct-append :
      (n : ℕ) (ps : List PollFd)
      → n < length ps
      → watch fd n ps ≡ none
      → Distinct n ps
      → Distinct (suc n) (modify ps n (put fd ev))
  unfolding watch
  Distinct-append n [] room absent d = absurd (omega arith)
  Distinct-append zero (p ∷ ps) room absent d = (inr refl, tt)
  Distinct-append (suc n) (p ∷ ps) room absent d = ground (
    arith,
    ==ℤ_iff p.fd fd,
    ==ℤ_iff fd p.fd,
    λ (asked : is_neg p.fd ≡ false). watch-append fd p.fd ev valid asked n ps,
    Distinct-append n ps,
  )

  pub Distinct-clear :
      (n i : ℕ) (ps : List PollFd)
      → find_below (has_fd fd) n ps ≡ some i
      → Distinct n ps
      → Distinct n (modify ps i clear_cell)
  unfolding watch find_below
  Distinct-clear zero i ps found d = tt
  Distinct-clear (suc n) i [] found d = tt
  Distinct-clear (suc n) zero (p ∷ ps) found d = ground arith
  Distinct-clear (suc n) (suc i) (p ∷ ps) found d = ground (
    arith,
    λ (asked : is_neg p.fd ≡ false). watch-clear fd p.fd ev valid asked n i ps,
    Distinct-clear n i ps,
  )

  pub Distinct-change :
      (n i : ℕ) (ps : List PollFd)
      → find_below (has_fd fd) n ps ≡ some i
      → Distinct n ps
      → Distinct n (modify ps i (λ p. record p { events = ev }))
  unfolding watch find_below
  Distinct-change zero i ps found d = tt
  Distinct-change (suc n) i [] found d = tt
  Distinct-change (suc n) zero (p ∷ ps) found d = ground arith
  Distinct-change (suc n) (suc i) (p ∷ ps) found d = ground (
    arith,
    ==ℤ_iff p.fd fd,
    ==ℤ_iff fd p.fd,
    λ (asked : is_neg p.fd ≡ false). watch-change fd p.fd ev valid asked n i ps,
    Distinct-change n i ps,
  )

-- The cells behind the used part do not count.
pub watch-grow :
    (j : ℤ) (n : ℕ) (ps qs : List PollFd) → n ≤ length ps → watch j n (ps ++ qs) ≡ watch j n ps
unfolding watch
watch-grow j zero ps qs h = refl
watch-grow j (suc n) [] qs h = absurd (omega arith)
watch-grow j (suc n) (p ∷ ps) qs h = ground (arith, watch-grow j n ps qs)

pub Distinct-grow :
    (n : ℕ) (ps qs : List PollFd) → n ≤ length ps → Distinct n ps → Distinct n (ps ++ qs)
unfolding watch
Distinct-grow zero ps qs h d = tt
Distinct-grow (suc n) [] qs h d = absurd (omega arith)
Distinct-grow (suc n) (p ∷ ps) qs h d =
    ground (arith, watch-grow p.fd n ps qs, Distinct-grow n ps qs)

pub watch-shorter :
    (j : ℤ) (n : ℕ) (ps : List PollFd) → watch j (suc n) ps ≡ none → watch j n ps ≡ none
unfolding watch
watch-shorter j zero ps h = refl
watch-shorter j (suc n) [] h = refl
watch-shorter j (suc n) (p ∷ ps) h = ground (arith, watch-shorter j n ps)

pub Distinct-shorter : (n : ℕ) (ps : List PollFd) → Distinct (suc n) ps → Distinct n ps
unfolding watch
Distinct-shorter zero ps d = tt
Distinct-shorter (suc n) [] d = tt
Distinct-shorter (suc n) (p ∷ ps) d = ground (arith, watch-shorter p.fd n ps, Distinct-shorter n ps)

pub Distinct-trim : (n : ℕ) (ps : List PollFd) → Distinct n ps → Distinct (trim ps n) ps
unfolding trim
Distinct-trim zero ps d = tt
Distinct-trim (suc n) ps d = elim (Option-cases (get_elem? ps n)) [
  | inl e ↦ rw (e, trim) d
  | inr (p, e) ↦ elim (Bool-cases (ltb 0 n && has_fd minus_one p)) [
    | inl more ↦ rw (e, more, trim) (Distinct-trim n ps (Distinct-shorter n ps d))
    | inr done ↦ rw (e, done, trim) d
  ]
]
