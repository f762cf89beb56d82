-- ===== src/PoolProxy/Record/Subscribers.antt =====
-- Whom `notifySubscribers` writes to, after `addSubscriber` and `removeSubscriber`.
use posix_threads.Common.{
  ℕ, zero, suc, ◌+◌, ◌*◌, ◌<◌, ◌≡◌, refl, inl, inr, Bool, true, false, not, ◌&&◌, ◌||◌, Option,
  none, some, List, [], ◌∷◌, ◌++◌, arith, ◌==◌, length, modify, replicate, length-append,
  length-modify, length-replicate, ℤ, pos, minus_one, is_neg, ◌==ℤ◌, ==ℤ_iff, find_below, ◌∙◌, sym,
  ap, Option-cases, Bool-cases,
}
use posix_threads.PoolProxy.Record.{
  Record, drop_fd, store_fd, subscribed, add_subscriber, remove_subscriber, notify_subscribers,
  told_cells, put_subscribers,
}

abbrev pub mem : ℤ → List ℤ → Bool
mem j [] = false
mem j (s ∷ ss) = (s ==ℤ j) || mem j ss

-- Is `j` among the descriptors that are written to?
unfoldable pub told : ℤ → Record → Bool
told j r = elim (notify_subscribers r) [ none ↦ false | some js ↦ mem j js ]

abbrev pub Fits : ℕ → Option (List ℤ) → Type 0
Fits n none = n ≡ 0
Fits n (some cells) = n ≡ length cells

-- The array has the size that is kept for it.
abbrev pub IsListening : Record → Type 0
IsListening r = Fits r.subscribers_size r.subscribers

subscribed_zero : (n : ℕ) (cells : List ℤ) → n ≡ 0 → subscribed n cells ≡ []
unfolding subscribed
subscribed_zero zero cells e = refl
subscribed_zero (suc n) cells e = absurd (omega arith)

cells_told :
    (j : ℤ) (r : Record) (cells : List ℤ)
    → r.subscribers ≡ some cells
    → told j r ≡ mem j (subscribed r.subscribers_size cells)
unfolding told notify_subscribers told_cells
cells_told j r cells e = ground (arith, subscribed_zero r.subscribers_size cells)

told_zero : (j : ℤ) (r : Record) → r.subscribers_size ≡ 0 → told j r ≡ false
unfolding told notify_subscribers told_cells
told_zero j r e = ground arith

length-drop_fd : (fd : ℤ) (n : ℕ) (ss : List ℤ) → length (drop_fd fd n ss) ≡ length ss
unfolding drop_fd
length-drop_fd fd zero ss = refl
length-drop_fd fd (suc n) [] = refl
length-drop_fd fd (suc n) (s ∷ ss) = ap suc (length-drop_fd fd n ss)

module _ (fd j : ℤ) (valid : is_neg fd ≡ false) (asked : is_neg j ≡ false) where
  mem-drop :
      (n : ℕ) (ss : List ℤ)
      → mem j (subscribed n (drop_fd fd n ss)) ≡ (not (fd ==ℤ j) && mem j (subscribed n ss))
  unfolding drop_fd subscribed
  mem-drop zero ss = ground arith
  mem-drop (suc n) [] = ground arith
  mem-drop (suc n) (s ∷ ss) =
      ground (arith, ==ℤ_iff fd j, ==ℤ_iff s fd, ==ℤ_iff s j, ==ℤ_iff s minus_one, mem-drop n ss)

  mem-store :
      (n i : ℕ) (ss : List ℤ)
      → find_below (λ s. (s ==ℤ minus_one) || (s ==ℤ fd)) n ss ≡ some i
      → mem j (subscribed n (modify ss i (λ _. fd))) ≡ ((fd ==ℤ j) || mem j (subscribed n ss))
  unfolding subscribed find_below
  mem-store zero i ss found = cc
  mem-store (suc n) i [] found = cc
  mem-store (suc n) zero (s ∷ ss) found =
      ground
        (arith, ==ℤ_iff fd j, ==ℤ_iff s fd, ==ℤ_iff s j, ==ℤ_iff s minus_one, ==ℤ_iff fd minus_one)
  mem-store (suc n) (suc i) (s ∷ ss) found = ground (arith, ==ℤ_iff s minus_one, mem-store n i ss)

  mem-replicate : (n m : ℕ) → mem j (subscribed n (replicate m minus_one)) ≡ false
  unfolding subscribed
  mem-replicate zero m = refl
  mem-replicate (suc n) zero = refl
  mem-replicate (suc n) (suc m) = mem-replicate n m

  mem-grow :
      (n m k : ℕ) (ss : List ℤ)
      → n ≡ k + suc m
      → k ≡ length ss
      → mem j (subscribed n (modify (ss ++ replicate (suc m) minus_one) k (λ _. fd)))
        ≡ ((fd ==ℤ j) || mem j (subscribed k ss))
  unfolding subscribed
  mem-grow zero m k ss e l = absurd (omega arith)
  mem-grow (suc n) m zero [] e l = ground (arith, ==ℤ_iff fd minus_one, mem-replicate n m)
  mem-grow (suc n) m zero (s ∷ ss) e l = absurd (omega arith)
  mem-grow (suc n) m (suc k) [] e l = absurd (omega arith)
  mem-grow (suc n) m (suc k) (s ∷ ss) e l = ground (arith, ==ℤ_iff s minus_one, mem-grow n m k ss)

  mem-double :
      (k : ℕ) (ss : List ℤ)
      → 0 < k
      → k ≡ length ss
      → mem j (subscribed (k * 2) (modify (ss ++ replicate k minus_one) k (λ _. fd)))
        ≡ ((fd ==ℤ j) || mem j (subscribed k ss))
  mem-double zero ss room l = absurd (omega arith)
  mem-double (suc m) ss room l = mem-grow (suc m * 2) m (suc m) ss (omega arith) l

-- What `addSubscriber` and `removeSubscriber` leave, when `who` answers whom it tells.
pub record Tells (who : ℤ → Bool) (r : Record) : Type 0 where
  pub listening : IsListening r
  pub tells : (j : ℤ) → is_neg j ≡ false → told j r ≡ who j

Tells-same :
    {who who' : ℤ → Bool} {r : Record}
    → Tells who r
    → ((j : ℤ) → is_neg j ≡ false → who j ≡ who' j)
    → Tells who' r
Tells-same t same = record {
  listening = t.listening;
  tells = λ j asked. t.tells j asked ∙ same j asked;
}

-- A record with some subscribers has an array of them.
cells_of :
    (r : Record)
    → IsListening r
    → (r.subscribers_size == 0) ≡ false
    → (cells : List ℤ) × (r.subscribers ≡ some cells) × (r.subscribers_size ≡ length cells)
cells_of r fits some_size = elim (Option-cases r.subscribers) [
  | inl e ↦ absurd (let size : Fits r.subscribers_size none = rw e at fits in ground arith)
  | inr (cells, e) ↦ (cells, e, rw e at fits)
]

module _ (fd : ℤ) (valid : is_neg fd ≡ false) where
  store_fd-Tells :
      (r : Record) (cells : List ℤ)
      → r.subscribers_size ≡ length cells
      → 0 < r.subscribers_size
      → Tells (λ j. (fd ==ℤ j) || mem j (subscribed r.subscribers_size cells)) (store_fd fd r cells)
  unfolding store_fd
  store_fd-Tells r cells l room =
      let n = r.subscribers_size in
      elim (Option-cases (find_below (λ s. (s ==ℤ minus_one) || (s ==ℤ fd)) n cells)) [
        | inr (i, f) ↦
            rw (f, store_fd)
              (record {
                listening = omega (arith, length-modify cells i (λ _. fd));
                tells = λ j asked. cells_told j _ _ refl ∙ mem-store fd j valid asked n i cells f;
              })
        | inl f ↦
            rw (f, store_fd)
              (record {
                listening = omega (
                  arith,
                  length-modify (cells ++ replicate n minus_one) n (λ _. fd),
                  length-append cells (replicate n minus_one),
                  length-replicate n minus_one,
                );
                tells =
                    λ j asked. cells_told j _ _ refl ∙ mem-double fd j valid asked n cells room l;
              })
      ]

  -- `addSubscriber` of a descriptor that is not negative to a valid record, with memory at hand,
  -- answers 0; then the descriptor is told of new data, and so is who was told before.
  pub add_subscriber-Tells :
      (r : Record)
      → IsListening r
      → r.valid ≡ true
      → (r' : Record) × (add_subscriber true fd r ≡ some (pos 0, r'))
        × Tells (λ j. (fd ==ℤ j) || told j r) r'
  unfolding add_subscriber
  add_subscriber-Tells r fits live = elim (Bool-cases (r.subscribers_size == 0)) [
    | inl e ↦
        let fresh : Record = record r {
          subscribers_size = 4;
          subscribers = some (replicate 4 minus_one);
        } in
        let cells : List ℤ = replicate 4 minus_one in
        (
          store_fd fd fresh cells,
          ground arith,
          Tells-same (store_fd-Tells fresh cells refl (omega arith))
              (λ j asked. ground (arith, told_zero j r, mem-replicate fd j valid asked 4 4)),
        )
    | inr e ↦
        let (cells, has, size) = cells_of r fits e in
        (
          store_fd fd r cells,
          simp (valid, live, e, has),
          Tells-same (store_fd-Tells r cells size (ground arith))
              (λ j asked. ap (λ b. (fd ==ℤ j) || b) (sym (cells_told j r cells has))),
        )
  ]

  -- `removeSubscriber` of a descriptor that is not negative: it is not told again, and who else was
  -- told still is.
  pub remove_subscriber-Tells :
      (r : Record)
      → IsListening r
      → (r' : Record) × (remove_subscriber fd r ≡ some r')
        × Tells (λ j. not (fd ==ℤ j) && told j r) r'
  unfolding remove_subscriber
  remove_subscriber-Tells r fits = elim (Bool-cases (r.subscribers_size == 0)) [
    | inl e ↦ (
      r,
      rw (valid, e) refl,
      record { listening = fits; tells = λ j asked. ground (arith, told_zero j r) },
    )
    | inr e ↦
        let (cells, has, size) = cells_of r fits e in
        let n = r.subscribers_size in
        (
          put_subscribers r (drop_fd fd n cells),
          rw (valid, e, has) refl,
          record {
            listening = omega (arith, length-drop_fd fd n cells);
            tells = λ j asked.
                cells_told j _ _ refl
                ∙ mem-drop fd j valid asked n cells
                ∙ ap (λ b. not (fd ==ℤ j) && b) (sym (cells_told j r cells has));
          },
        )
  ]
