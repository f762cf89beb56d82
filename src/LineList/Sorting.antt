-- ===== src/LineList/Sorting.antt =====
-- `sort_list` of arkhipov/17/LineListNode.h sorts: each round of the outer loop moves the last value of
-- those that are left behind them, and every swap keeps the values.
use posix_threads.Common.{
  ℕ, zero, suc, ◌≡◌, refl, sym, subst, ap, inl, inr, List, [], ◌∷◌, ◌++◌, arith, length, minus_one,
  ◌==ℤ◌, Bool-cases,
}
use mathlib.Core.List.Perm
use mathlib.Core.List.{Perm, append-nil}
use posix_threads.LineList.{compare_str, earlier, later, sweep, sort_to, sort_list}
use posix_threads.LineList.Order.{
  in_order, Lex, in_order-Lex, Lex-in_order, in_order_trans, in_order_total, in_order_refl,
}

-- Each of `xs` may stand before `b`; `b` may stand before each of `xs`.
unfoldable pub AllBefore : List (List ℕ) → List ℕ → Type 0
AllBefore [] b = Unit
AllBefore (x ∷ xs) b = Lex x b × AllBefore xs b

unfoldable pub AllBehind : List ℕ → List (List ℕ) → Type 0
AllBehind a [] = Unit
AllBehind a (x ∷ xs) = Lex a x × AllBehind a xs

unfoldable pub Sorted : List (List ℕ) → Type 0
Sorted [] = Unit
Sorted (x ∷ xs) = AllBehind x xs × Sorted xs

Lex-trans : (x y z : List ℕ) → Lex x y → Lex y z → Lex x z
Lex-trans x y z l k =
    in_order-Lex x z (in_order_trans x y z (Lex-in_order x y l) (Lex-in_order y z k))

-- The three facts about a pair of neighbours after the swap, in one split.
record Placed (x y : List ℕ) : Type 1 where
  ordered : Lex (earlier x y) (later x y)
  kept : (ls : List (List ℕ)) → Perm (x ∷ y ∷ ls) (earlier x y ∷ later x y ∷ ls)
  both : (P : List ℕ → Type 0) → P x → P y → P (earlier x y) × P (later x y)
  back : (P : List ℕ → Type 0) → P (earlier x y) → P (later x y) → P x × P y

placed : (x y : List ℕ) → Placed x y
unfolding earlier later in_order
placed x y = elim (Bool-cases (compare_str x y ==ℤ minus_one)) [
  | inl e ↦ record {
    ordered = rw e (in_order-Lex y x (in_order_total x y (ground arith)));
    kept = λ ls. rw e (Perm.swap y x ls);
    both = λ P p q. rw e (q, p);
    back = λ P. rw e (λ p q. (q, p));
  }
  | inr e ↦ record {
    ordered = rw e (in_order-Lex x y (ground arith));
    kept = λ ls. rw e (Perm.refl (x ∷ y ∷ ls));
    both = λ P p q. rw e (p, q);
    back = λ P. rw e (λ p q. (p, q));
  }
]

sweep-Perm : (n : ℕ) (xs : List (List ℕ)) → Perm xs (sweep n xs)
unfolding sweep
sweep-Perm zero xs = Perm.refl xs
sweep-Perm (suc n) [] = Perm.refl []
sweep-Perm (suc n) (x ∷ []) = Perm.refl (x ∷ [])
sweep-Perm (suc n) (x ∷ y ∷ xs) =
    Perm.trans ((placed x y).kept xs) (Perm.cons (earlier x y) (sweep-Perm n (later x y ∷ xs)))

sort_to-Perm : (n : ℕ) (xs : List (List ℕ)) → Perm xs (sort_to n xs)
unfolding sort_to
sort_to-Perm zero xs = Perm.refl xs
sort_to-Perm (suc n) xs = Perm.trans (sweep-Perm n xs) (sort_to-Perm n (sweep n xs))

-- One run of the inner loop over `xs`, which are followed by `ys`: a last value stands behind the others.
record Swept (n : ℕ) (xs ys : List (List ℕ)) : Type 0 where
  front : List (List ℕ)
  top : List ℕ
  result : sweep n (xs ++ ys) ≡ front ++ top ∷ ys
  long : length front ≡ n
  below : AllBefore front top
  whole : AllBefore xs top
  bound : (b : List ℕ) → AllBefore xs b → AllBefore front b × Lex top b

swept : (n : ℕ) (x : List ℕ) (xs ys : List (List ℕ)) → length xs ≡ n → Swept n (x ∷ xs) ys
unfolding sweep AllBefore
swept zero x [] ys l = record {
  front = [];
  top = x;
  result = refl;
  long = refl;
  below = tt;
  whole = (in_order-Lex x x (in_order_refl x), tt);
  bound = λ b h. (tt, h.0);
}
swept zero x (y ∷ xs) ys l = absurd (omega arith)
swept (suc n) x [] ys l = absurd (omega arith)
swept (suc n) x (y ∷ xs) ys l =
    let p = placed x y in
    let s = swept n (later x y) xs ys (omega arith) in
    let first : Lex (earlier x y) s.top =
      Lex-trans (earlier x y) (later x y) s.top p.ordered s.whole.0 in
    let (to_x, to_y) = p.back (λ v. Lex v s.top) first s.whole.0 in
    record {
      front = earlier x y ∷ s.front;
      top = s.top;
      result = ap (◌∷◌ (earlier x y)) s.result;
      long = ap suc s.long;
      below = (first, s.below);
      whole = (to_x, (to_y, s.whole.1));
      bound = λ b h.
          let (e, k) = p.both (λ v. Lex v b) h.0 h.1.0 in
          let (f, t) = s.bound b (k, h.1.1) in ((e, f), t);
    }

-- Each of `xs` may stand before each of `ys`.
AllPairs : List (List ℕ) → List (List ℕ) → Type 0
AllPairs xs [] = Unit
AllPairs xs (y ∷ ys) = AllBefore xs y × AllPairs xs ys

pairs_after :
    (n : ℕ) (xs ys : List (List ℕ)) (s : Swept n xs ys) (zs : List (List ℕ))
    → AllPairs xs zs
    → AllPairs s.front zs × AllBehind s.top zs
unfolding AllPairs AllBehind
pairs_after n xs ys s [] h = (tt, tt)
pairs_after n xs ys s (z ∷ zs) h =
    let (f, t) = s.bound z h.0 in let (fs, ts) = pairs_after n xs ys s zs h.1 in ((f, fs), (t, ts))

sort_to-Sorted :
    (n : ℕ) (xs ys : List (List ℕ))
    → length xs ≡ n
    → Sorted ys
    → AllPairs xs ys
    → Sorted (sort_to n (xs ++ ys))
unfolding sort_to Sorted AllPairs
sort_to-Sorted zero [] ys l sorted pairs = sorted
sort_to-Sorted zero (x ∷ xs) ys l sorted pairs = absurd (omega arith)
sort_to-Sorted (suc n) [] ys l sorted pairs = absurd (omega arith)
sort_to-Sorted (suc n) (x ∷ xs) ys l sorted pairs =
    let s = swept n x xs ys (omega arith) in
    let (front, top) = pairs_after n (x ∷ xs) ys s ys pairs in
    subst (λ v. Sorted (sort_to n v)) (sym s.result)
      (sort_to-Sorted n s.front (s.top ∷ ys) s.long (top, sorted) (s.below, front))

nothing_behind : (xs : List (List ℕ)) → AllPairs xs []
unfolding AllPairs
nothing_behind xs = tt

-- `sort_list` gives the values it was given, in the order of a dictionary: each may stand before all
-- that follow it.
pub sort_list-Sorted : (xs : List (List ℕ)) → Sorted (sort_list xs) × Perm xs (sort_list xs)
unfolding sort_list Sorted
sort_list-Sorted xs = (
  subst (λ v. Sorted (sort_to (length xs) v)) (append-nil xs)
      (sort_to-Sorted (length xs) xs [] refl tt (nothing_behind xs)),
  sort_to-Perm (length xs) xs,
)
