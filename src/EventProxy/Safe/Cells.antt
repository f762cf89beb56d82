-- ===== src/EventProxy/Safe/Cells.antt =====
-- Which cells of an array of subscribers are taken, in rybalko/31/server.c.
use posix_threads.Common.{
  ℕ, zero, suc, ◌+◌, ◌≤◌, ◌<◌, ◌≡◌, refl, true, none, some, List, [], ◌∷◌, ◌++◌, arith,
  if◌then◌else◌, get_elem?, length, modify, take, replicate, ℤ, pos, minus_one, ◌==ℤ◌, ==ℤ_iff,
  find_below, find_below-none,
}
use mathlib.Core.Option.{some-injective}
use posix_threads.EventProxy.{within}
use posix_threads.EventProxy.Subscriptions.{free_for}
use posix_threads.EventProxy.Safe.{Every, Every-cons, taken_cells}

pub taken-le : (n : ℕ) (xs : List ℤ) → taken_cells n xs ≤ n
unfolding taken_cells
taken-le zero xs = omega arith
taken-le (suc n) [] = omega arith
taken-le (suc n) (x ∷ xs) = ground (arith, taken-le n xs)

pub taken_full :
    (p n : ℕ) (xs : List ℤ)
    → n ≤ length xs
    → find_below (free_for p) n xs ≡ none
    → taken_cells n xs ≡ n
unfolding taken_cells find_below
taken_full p zero xs h e = refl
taken_full p (suc n) [] h e = absurd (omega arith)
taken_full p (suc n) (x ∷ xs) h e =
    let (used, rest) = find_below-none (free_for p) n x xs e in ground (arith, taken_full p n xs)

pub taken-store :
    (p n i : ℕ) (xs : List ℤ) (x : ℤ)
    → i < n
    → get_elem? xs i ≡ some x
    → free_for p x ≡ true
    → taken_cells n (modify xs i (λ _. pos p))
      ≡ taken_cells n xs + (if x ==ℤ minus_one then 1 else 0)
unfolding taken_cells
taken-store p zero i xs x h at e = absurd (omega arith)
taken-store p (suc n) i [] x h at e = absurd (ground arith)
taken-store p (suc n) zero (y ∷ xs) x h at e =
    let same : y ≡ x = some-injective _ _ at in
    rw same (ground (arith, ==ℤ_iff x minus_one, ==ℤ_iff x (pos p)))
taken-store p (suc n) (suc i) (y ∷ xs) x h at e =
    omega (arith, taken-store p n i xs x (omega arith) at e)

pub taken-fresh : (k m : ℕ) → taken_cells k (replicate m minus_one) ≡ 0
unfolding taken_cells
taken-fresh zero m = refl
taken-fresh (suc k) zero = refl
taken-fresh (suc k) (suc m) = omega (arith, taken-fresh k m)

pub taken-grow :
    (k n m : ℕ) (xs : List ℤ)
    → k ≡ n + m
    → n ≤ length xs
    → taken_cells k (take n xs ++ replicate m minus_one) ≡ taken_cells n xs
unfolding taken_cells
taken-grow k zero m xs e h = taken-fresh k m
taken-grow zero (suc n) m xs e h = absurd (omega arith)
taken-grow (suc k) (suc n) m [] e h = absurd (omega arith)
taken-grow (suc k) (suc n) m (x ∷ xs) e h =
    omega (arith, taken-grow k n m xs (omega arith) (omega arith))

pub empty-Every : (nc : ℕ) → Every (λ x. within nc x ≡ true) []
empty-Every nc j x e = absurd (ground arith)

pub append-Every :
    (nc n m : ℕ) (xs : List ℤ)
    → Every (λ x. within nc x ≡ true) xs
    → Every (λ x. within nc x ≡ true) (take n xs ++ replicate m minus_one)
append-Every nc zero zero xs h = empty-Every nc
append-Every nc zero (suc m) xs h =
    Every-cons (λ x. within nc x ≡ true) minus_one _ refl (append-Every nc zero m xs h)
append-Every nc (suc n) zero [] h = h
append-Every nc (suc n) (suc m) [] h =
    Every-cons (λ x. within nc x ≡ true) minus_one _ refl (append-Every nc (suc n) m [] h)
append-Every nc (suc n) m (x ∷ xs) h =
    Every-cons (λ x. within nc x ≡ true) x _ (h 0 x refl) (append-Every nc n m xs (λ j. h (suc j)))

pub get_elem?-kept :
    (n j : ℕ) (xs ys : List ℤ) (x : ℤ)
    → j < n
    → get_elem? xs j ≡ some x
    → get_elem? (take n xs ++ ys) j ≡ some x
get_elem?-kept zero j xs ys x h e = absurd (omega arith)
get_elem?-kept (suc n) j [] ys x h e = absurd (ground arith)
get_elem?-kept (suc n) zero (y ∷ xs) ys x h e = e
get_elem?-kept (suc n) (suc j) (y ∷ xs) ys x h e = get_elem?-kept n j xs ys x (omega arith) e
