-- ===== src/Common/Lists.antt =====
-- Lists measured and indexed by native numbers, under the library's names.
use Prim.Native.Nat.{ℕ, zero, suc, ◌+◌, ◌≤◌, ◌<◌}
use mathlib.Core.Path.{◌≡◌, refl, sym, ap, ◌∙◌}
use mathlib.Core.List.{List, [], ◌∷◌, ◌++◌}
use mathlib.Core.Option.{Option, none, some, some-injective}
use native.Mathlib.Omega.{arith}
use posix_threads.Common.Tests.{◌==◌, if◌then◌else◌}

module _ {ℓ} {A : Type ℓ} where
  abbrev pub length : List A → ℕ
  length [] = 0
  length (x ∷ xs) = suc (length xs)

  abbrev pub get_elem? : List A → ℕ → Option A
  get_elem? [] i = none
  get_elem? (x ∷ xs) zero = some x
  get_elem? (x ∷ xs) (suc i) = get_elem? xs i

  -- `xs[i] = f(xs[i])`; out of bounds nothing changes.
  abbrev pub modify : List A → ℕ → (A → A) → List A
  modify [] i f = []
  modify (x ∷ xs) zero f = f x ∷ xs
  modify (x ∷ xs) (suc i) f = x ∷ modify xs i f

  abbrev pub take : ℕ → List A → List A
  take zero xs = []
  take (suc n) [] = []
  take (suc n) (x ∷ xs) = x ∷ take n xs

  abbrev pub drop : ℕ → List A → List A
  drop zero xs = xs
  drop (suc n) [] = []
  drop (suc n) (x ∷ xs) = drop n xs

  -- `n` cells, the cell with index `i` holding `f i`, from index `from` on.
  abbrev pub tabulate : (ℕ → A) → ℕ → ℕ → List A
  tabulate f from zero = []
  tabulate f from (suc n) = f from ∷ tabulate f (suc from) n

  abbrev pub replicate : ℕ → A → List A
  replicate zero a = []
  replicate (suc n) a = a ∷ replicate n a

  pub length-append : (xs ys : List A) → length (xs ++ ys) ≡ length xs + length ys
  length-append [] ys = omega arith
  length-append (x ∷ xs) ys = omega (arith, length-append xs ys)

  pub length-tabulate : (f : ℕ → A) (from n : ℕ) → length (tabulate f from n) ≡ n
  length-tabulate f from zero = refl
  length-tabulate f from (suc n) = ap suc (length-tabulate f (suc from) n)

  pub length-replicate : (n : ℕ) (a : A) → length (replicate n a) ≡ n
  length-replicate zero a = refl
  length-replicate (suc n) a = ap suc (length-replicate n a)

  pub length-modify : (xs : List A) (i : ℕ) (f : A → A) → length (modify xs i f) ≡ length xs
  length-modify [] i f = refl
  length-modify (x ∷ xs) zero f = refl
  length-modify (x ∷ xs) (suc i) f = ap suc (length-modify xs i f)

  pub take-length : (n : ℕ) (xs ys : List A) → n ≡ length xs → take n (xs ++ ys) ≡ xs
  take-length zero [] ys e = refl
  take-length zero (x ∷ xs) ys e = absurd (omega arith)
  take-length (suc n) [] ys e = absurd (omega arith)
  take-length (suc n) (x ∷ xs) ys e = ap (◌∷◌ x) (take-length n xs ys (omega arith))

  pub take_within : (n : ℕ) (xs ys : List A) → n ≤ length xs → take n (xs ++ ys) ≡ take n xs
  take_within zero xs ys e = refl
  take_within (suc n) [] ys e = absurd (omega arith)
  take_within (suc n) (x ∷ xs) ys e = ap (◌∷◌ x) (take_within n xs ys (omega arith))

  pub take_all : (n : ℕ) (xs : List A) → length xs ≤ n → take n xs ≡ xs
  take_all zero [] e = refl
  take_all zero (x ∷ xs) e = absurd (omega arith)
  take_all (suc n) [] e = refl
  take_all (suc n) (x ∷ xs) e = ap (◌∷◌ x) (take_all n xs (omega arith))

  pub length-take : (n : ℕ) (xs : List A) → n ≤ length xs → length (take n xs) ≡ n
  length-take zero xs e = refl
  length-take (suc n) [] e = absurd (omega arith)
  length-take (suc n) (x ∷ xs) e = ap suc (length-take n xs (omega arith))

  pub length-drop : (n : ℕ) (xs : List A) → n ≤ length xs → length (drop n xs) + n ≡ length xs
  length-drop zero xs e = omega arith
  length-drop (suc n) [] e = absurd (omega arith)
  length-drop (suc n) (x ∷ xs) e = omega (arith, length-drop n xs (omega arith))

  pub get_elem?-modify_self :
      (xs : List A) (i : ℕ) (f : A → A) (x : A)
      → get_elem? xs i ≡ some x
      → get_elem? (modify xs i f) i ≡ some (f x)
  get_elem?-modify_self [] i f x h = cc
  get_elem?-modify_self (y ∷ xs) zero f x h = cc
  get_elem?-modify_self (y ∷ xs) (suc i) f x h = get_elem?-modify_self xs i f x h

  pub get_elem?-modify-none :
      (xs : List A) (i : ℕ) (f : A → A) → get_elem? xs i ≡ none → get_elem? (modify xs i f) i ≡ none
  get_elem?-modify-none [] i f h = refl
  get_elem?-modify-none (y ∷ xs) zero f h = cc
  get_elem?-modify-none (y ∷ xs) (suc i) f h = get_elem?-modify-none xs i f h

  pub take_more :
      (m k n : ℕ) (xs : List A) → m ≡ k + n → take m xs ≡ take k xs ++ take n (drop k xs)
  take_more m zero n xs e = let same : m ≡ n = omega arith in rw same
  take_more zero (suc k) n xs e = absurd (omega arith)
  take_more (suc m) (suc k) zero [] e = refl
  take_more (suc m) (suc k) (suc n) [] e = refl
  take_more (suc m) (suc k) n (x ∷ xs) e = ap (◌∷◌ x) (take_more m k n xs (omega arith))

  drop-nil : (n : ℕ) → drop n [] ≡ []
  drop-nil zero = refl
  drop-nil (suc n) = refl

  drop_twice : (m n k : ℕ) (xs : List A) → m ≡ k + n → drop n (drop k xs) ≡ drop m xs
  drop_twice m n zero xs e = let same : n ≡ m = omega arith in ap (λ i. drop i xs) same
  drop_twice zero n (suc k) xs e = absurd (omega arith)
  drop_twice (suc m) n (suc k) [] e = drop-nil n
  drop_twice (suc m) n (suc k) (x ∷ xs) e = drop_twice m n k xs (omega arith)

  -- A part of a list in two steps.
  pub take_split :
      (n m k : ℕ) (xs : List A)
      → take (n + m) (drop k xs) ≡ take n (drop k xs) ++ take m (drop (k + n) xs)
  take_split n m k xs =
      take_more (n + m) n m (drop k xs) refl
      ∙ ap (λ ys. take n (drop k xs) ++ take m ys) (drop_twice (k + n) n k xs refl)

  pub get_elem?-modify :
      (xs : List A) (i j : ℕ) (f : A → A) (x : A)
      → get_elem? xs i ≡ some x
      → get_elem? (modify xs i f) j ≡ (if i == j then some (f x) else get_elem? xs j)
  get_elem?-modify [] i j f x h = cc
  get_elem?-modify (y ∷ xs) zero zero f x h = cc
  get_elem?-modify (y ∷ xs) zero (suc j) f x h = ground arith
  get_elem?-modify (y ∷ xs) (suc i) zero f x h = ground arith
  get_elem?-modify (y ∷ xs) (suc i) (suc j) f x h = get_elem?-modify xs i j f x h ∙ ground arith

  pub get_elem?-some : (xs : List A) (i : ℕ) → i < length xs → (x : A) × (get_elem? xs i ≡ some x)
  get_elem?-some [] i h = absurd (omega arith)
  get_elem?-some (x ∷ xs) zero h = (x, refl)
  get_elem?-some (x ∷ xs) (suc i) h = get_elem?-some xs i (omega arith)

  pub modify_same :
      (xs : List A) (i : ℕ) (x : A) → get_elem? xs i ≡ some x → modify xs i (λ _. x) ≡ xs
  modify_same [] i x h = refl
  modify_same (y ∷ xs) zero x h = ap (λ z. z ∷ xs) (some-injective _ _ (sym h))
  modify_same (y ∷ xs) (suc i) x h = ap (◌∷◌ y) (modify_same xs i x h)

  pub modify_twice :
      (xs : List A) (i : ℕ) (f g : A → A) → modify (modify xs i f) i g ≡ modify xs i (λ x. g (f x))
  modify_twice [] i f g = refl
  modify_twice (y ∷ xs) zero f g = refl
  modify_twice (y ∷ xs) (suc i) f g = ap (◌∷◌ y) (modify_twice xs i f g)

  pub get_elem?-lt : (xs : List A) (i : ℕ) (x : A) → get_elem? xs i ≡ some x → i < length xs
  get_elem?-lt [] i x h = absurd (ground arith)
  get_elem?-lt (y ∷ xs) zero x h = omega arith
  get_elem?-lt (y ∷ xs) (suc i) x h = omega (arith, get_elem?-lt xs i x h)

abbrev pub sum : List ℕ → ℕ
sum [] = 0
sum (x ∷ xs) = x + sum xs
