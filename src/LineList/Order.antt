-- ===== src/LineList/Order.antt =====
-- The order of `compare_str` of arkhipov/17/LineListNode.h.
use posix_threads.Common.{
  ℕ, ◌<◌, ◌≡◌, ◌↔◌, refl, Bool, true, false, not, List, [], ◌∷◌, arith, minus_one, ◌==ℤ◌,
  Bool-cases, inl, inr, ◌≢◌, subst, ltb, ltb→lt, ==ℤ_iff,
}
use mathlib.Core.Bool.{false≢true}
use posix_threads.LineList.{compare_str}

-- The two need no swap.
unfoldable pub in_order : List ℕ → List ℕ → Bool
in_order x y = not (compare_str x y ==ℤ minus_one)

-- The order of a dictionary: a string stands before its continuations.
pub data Lex : List ℕ → List ℕ → Type 0 where
  ends : {ys : List ℕ} → Lex [] ys
  less : {a b : ℕ} {us vs : List ℕ} → a < b → Lex (a ∷ us) (b ∷ vs)
  same : {a : ℕ} {us vs : List ℕ} → Lex us vs → Lex (a ∷ us) (a ∷ vs)

same_heads : (a b : ℕ) (us vs : List ℕ) → a ≡ b → Lex us vs → Lex (a ∷ us) (b ∷ vs)
same_heads a b us vs e l = subst (λ c. Lex (a ∷ us) (c ∷ vs)) e (same l)

pub in_order-Lex : (x y : List ℕ) → in_order x y ≡ true → Lex x y
unfolding in_order compare_str
in_order-Lex [] y h = ends
in_order-Lex (a ∷ us) [] h = absurd (false≢true h)
in_order-Lex (a ∷ us) (b ∷ vs) h = elim (Bool-cases (ltb a b)) [
  | inl e ↦ less (ltb→lt a b e)
  | inr e ↦
      let equal : a ≡ b = ground arith in
      let rest : in_order us vs ≡ true = ground arith in
      same_heads a b us vs equal (in_order-Lex us vs rest)
]

pub Lex-in_order : (x y : List ℕ) → Lex x y → in_order x y ≡ true
unfolding in_order compare_str
Lex-in_order x [] ends = refl
Lex-in_order x (b ∷ vs) ends = refl
Lex-in_order x y (less {a = a} {b = b} h) = ground arith
Lex-in_order x y (same {a = a} {us = us} {vs = vs} l) = ground (arith, Lex-in_order us vs l)

-- `compare_str` answers -1 exactly when its first string does not stand before the second in the
-- order of a dictionary.
pub compare_str-Lex : (x y : List ℕ) → (compare_str x y ≢ minus_one) ↔ Lex x y
unfolding in_order
compare_str-Lex x y = (
  λ h. in_order-Lex x y (ground (arith, ==ℤ_iff (compare_str x y) minus_one)),
  λ l. let h = Lex-in_order x y l in λ e. ground (arith, ==ℤ_iff (compare_str x y) minus_one),
)

pub in_order_refl : (x : List ℕ) → in_order x x ≡ true
unfolding in_order compare_str
in_order_refl [] = refl
in_order_refl (a ∷ us) = ground (arith, in_order_refl us)

pub in_order_total : (x y : List ℕ) → in_order x y ≡ false → in_order y x ≡ true
unfolding in_order compare_str
in_order_total [] [] h = refl
in_order_total [] (b ∷ vs) h = ground arith
in_order_total (a ∷ us) [] h = refl
in_order_total (a ∷ us) (b ∷ vs) h = ground (arith, in_order_total us vs)

pub in_order_trans :
    (x y z : List ℕ) → in_order x y ≡ true → in_order y z ≡ true → in_order x z ≡ true
unfolding in_order compare_str
in_order_trans [] y [] h k = refl
in_order_trans [] y (c ∷ ws) h k = refl
in_order_trans (a ∷ us) [] z h k = ground arith
in_order_trans (a ∷ us) (b ∷ vs) [] h k = ground arith
in_order_trans (a ∷ us) (b ∷ vs) (c ∷ ws) h k = ground (arith, in_order_trans us vs ws)
