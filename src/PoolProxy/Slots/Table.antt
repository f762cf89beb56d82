-- ===== src/PoolProxy/Slots/Table.antt =====
-- A free cell is found or made, and the lookup by descriptor answers accordingly.
use posix_threads.Common.{
  ℕ, zero, suc, ◌+◌, ◌*◌, ◌<◌, ◌≡◌, refl, ap, sym, ◌∙◌, inl, inr, Bool, false, Option, none, some,
  List, [], ◌∷◌, ◌++◌, arith, if◌then◌else◌, modify, replicate, length, length-append,
  length-modify, length-replicate, ℤ, pos, minus_one, is_neg, ◌==ℤ◌, ==ℤ_iff, find_below,
  find_below-lt, find_below-passes, get_elem?, Option-cases,
}
use posix_threads.PoolProxy.Slots.{Array, find_by_fd, find_free}

pub record IsSized {ℓ} {A : Type ℓ} (a : Array A) : Type ℓ where
  pub sized : a.size ≡ length a.cells
  pub room : 0 < a.size

module _ {ℓ} {A : Type ℓ} (fd_of : A → ℤ) where
  -- What a call that is given `fd` answers, and what the array is afterwards.
  pub record Taken (fd : ℤ) (a : Array A) (r : ℤ × Array A) : Type ℓ where
    pub index : ℕ
    pub answer : r.0 ≡ pos index
    pub inside : index < r.1.size
    pub sized : IsSized r.1
    pub finds :
        (j : ℤ)
        → is_neg j ≡ false
        → find_by_fd fd_of r.1 j ≡ (if fd ==ℤ j then pos index else find_by_fd fd_of a j)

-- The cell that the lookup answers has the descriptor.
pub found_cell {ℓ} :
    {A : Type ℓ} (fd_of : A → ℤ) (a : Array A) (fd : ℤ) (j : ℕ) (c : A)
    → find_by_fd fd_of a fd ≡ pos j
    → get_elem? a.cells j ≡ some c
    → fd_of c ≡ fd
unfolding find_by_fd
found_cell {A} fd_of a fd j c h at =
    let test : A → Bool = λ x. fd_of x ==ℤ fd in
    elim (Option-cases (find_below test a.size a.cells)) [
      | inl e ↦ absurd (ground arith)
      | inr (i, e) ↦
          let same : i ≡ j = ground arith in
          let (x, here, has) = find_below-passes test a.size a.cells i e in
          let alike : x ≡ c = ground arith in ap fd_of (sym alike) ∙ (==ℤ_iff (fd_of x) fd).0 has
    ]

module _ {ℓ} {A : Type ℓ} (fd_of : A → ℤ) (empty : A) (set_fd : ℤ → A → A)
    (set_lem : (fd : ℤ) (c : A) → fd_of (set_fd fd c) ≡ fd)
    (empty_lem : fd_of empty ≡ minus_one) where
  abbrev at : ℤ → ℕ → List A → Option ℕ
  at j n cs = find_below (λ c. fd_of c ==ℤ j) n cs

  module _ (fd j : ℤ) (valid : is_neg fd ≡ false) (asked : is_neg j ≡ false) where
    at-reuse :
        (n i : ℕ) (cs : List A)
        → at minus_one n cs ≡ some i
        → at fd n cs ≡ none
        → at j n (modify cs i (set_fd fd)) ≡ (if fd ==ℤ j then some i else at j n cs)
    unfolding find_below
    at-reuse zero i cs found absent = cc
    at-reuse (suc n) i [] found absent = cc
    at-reuse (suc n) zero (c ∷ cs) found absent = ground (
      arith,
      set_lem fd c,
      ==ℤ_iff fd j,
      ==ℤ_iff (fd_of c) fd,
      ==ℤ_iff (fd_of c) j,
      ==ℤ_iff (fd_of c) minus_one,
    )
    at-reuse (suc n) (suc i) (c ∷ cs) found absent =
        ground (arith, ==ℤ_iff fd j, ==ℤ_iff (fd_of c) fd, ==ℤ_iff (fd_of c) j, at-reuse n i cs)

    at-empty : (n m : ℕ) → at j n (replicate m empty) ≡ none
    unfolding find_below
    at-empty zero m = refl
    at-empty (suc n) zero = refl
    at-empty (suc n) (suc m) = ground (arith, empty_lem, ==ℤ_iff minus_one j, at-empty n m)

    -- The cell behind the `k` cells `cs`, the first of `suc m` new ones, is taken.
    at-grow :
        (n m k : ℕ) (cs : List A)
        → n ≡ k + suc m
        → k ≡ length cs
        → at fd k cs ≡ none
        → at j n (modify (cs ++ replicate (suc m) empty) k (set_fd fd))
          ≡ (if fd ==ℤ j then some k else at j k cs)
    unfolding find_below
    at-grow zero m k cs e l absent = absurd (omega arith)
    at-grow (suc n) m zero [] e l absent =
        ground (arith, set_lem fd empty, ==ℤ_iff fd j, at-empty n m)
    at-grow (suc n) m zero (c ∷ cs) e l absent = absurd (omega arith)
    at-grow (suc n) m (suc k) [] e l absent = absurd (omega arith)
    at-grow (suc n) m (suc k) (c ∷ cs) e l absent =
        ground (arith, ==ℤ_iff fd j, ==ℤ_iff (fd_of c) fd, ==ℤ_iff (fd_of c) j, at-grow n m k cs)

    at-double :
        (k : ℕ) (cs : List A)
        → 0 < k
        → k ≡ length cs
        → at fd k cs ≡ none
        → at j (k * 2) (modify (cs ++ replicate k empty) k (set_fd fd))
          ≡ (if fd ==ℤ j then some k else at j k cs)
    at-double zero cs room l absent = absurd (omega arith)
    at-double (suc m) cs room l absent = at-grow (suc m * 2) m (suc m) cs (omega arith) l absent

  absent_at :
      (a : Array A) (fd : ℤ)
      → is_neg fd ≡ false
      → find_by_fd fd_of a fd ≡ minus_one
      → at fd a.size a.cells ≡ none
  unfolding find_by_fd
  absent_at a fd valid h = ground arith

  module _ (a : Array A) (fd : ℤ) (v : IsSized a) (valid : is_neg fd ≡ false)
      (absent : at fd a.size a.cells ≡ none) where
    reuse-Taken :
        (i : ℕ)
        → at minus_one a.size a.cells ≡ some i
        → Taken fd_of fd a (pos i, record a { cells = modify a.cells i (set_fd fd) })
    unfolding find_by_fd
    reuse-Taken i e = record {
      index = i;
      answer = refl;
      inside = find_below-lt (λ c. fd_of c ==ℤ minus_one) a.size a.cells i e;
      sized = record {
        sized = omega (arith, v.sized, length-modify a.cells i (set_fd fd));
        room = v.room;
      };
      finds = λ j asked. ground (arith, at-reuse fd j valid asked a.size i a.cells);
    }

    grow-Taken : Taken fd_of fd a (
      pos a.size,
      record {
        cells = modify (a.cells ++ replicate a.size empty) a.size (set_fd fd);
        size = a.size * 2;
      },
    )
    unfolding find_by_fd
    grow-Taken = record {
      index = a.size;
      answer = refl;
      inside = omega arith;
      sized = record {
        sized = omega (
          arith,
          v.sized,
          length-modify (a.cells ++ replicate a.size empty) a.size (set_fd fd),
          length-append a.cells (replicate a.size empty),
          length-replicate a.size empty,
        );
        room = omega arith;
      };
      finds = λ j asked.
          rw (asked, at-double fd j valid asked a.size a.cells v.room v.sized absent)
            (ground arith);
    }

  pub find_free-Taken :
      (a : Array A) (fd : ℤ)
      → IsSized a
      → is_neg fd ≡ false
      → find_by_fd fd_of a fd ≡ minus_one
      → Taken fd_of fd a (find_free fd_of empty set_fd a fd)
  unfolding find_free
  find_free-Taken a fd v valid absent =
      rw valid (elim (Option-cases (at minus_one a.size a.cells)) [
        | inr (i, e) ↦ rw e (reuse-Taken a fd v valid (absent_at a fd valid absent) i e)
        | inl e ↦ rw e (grow-Taken a fd v valid (absent_at a fd valid absent))
      ])
