-- ===== src/LineList.antt =====
-- The sorted list of lines of arkhipov/17/LineListNode.h. A node's place never changes: `sort_list` swaps
-- the values of neighbours, so a list is its values in order, and a pointer into it is an index.
pub mod Order
pub mod Sorting
use posix_threads.Common.{
  ℕ, zero, suc, Option, List, [], ◌∷◌, if◌then◌else◌, length, ltb, ℤ, pos, minus_one, ◌==ℤ◌,
}

-- `compare_str`, from the index on up to which the strings agree: 1, -1 or 0.
unfoldable pub compare_str : List ℕ → List ℕ → ℤ
compare_str [] [] = pos 0
compare_str [] (b ∷ vs) = pos 1
compare_str (a ∷ us) [] = minus_one
compare_str (a ∷ us) (b ∷ vs) =
    let rest = compare_str us vs in if ltb a b then pos 1 else if ltb b a then minus_one else rest

-- The two values of neighbours after `if (compare_str(...) == -1) swap_with_next(cursor)`.
unfoldable pub earlier : List ℕ → List ℕ → List ℕ
unfolding compare_str
earlier x y = if compare_str x y ==ℤ minus_one then y else x

unfoldable pub later : List ℕ → List ℕ → List ℕ
unfolding compare_str
later x y = if compare_str x y ==ℤ minus_one then x else y

-- The inner loop: `rounds` pairs of neighbours, from the cursor on.
unfoldable pub sweep : ℕ → List (List ℕ) → List (List ℕ)
unfolding earlier later
sweep zero lines = lines
sweep (suc rounds) [] = []
sweep (suc rounds) (x ∷ []) = x ∷ []
sweep (suc rounds) (x ∷ y ∷ lines) = earlier x y ∷ sweep rounds (later x y ∷ lines)

-- The outer loop: `end` is the index of the node that `end` points to, the length for a null pointer.
unfoldable pub sort_to : ℕ → List (List ℕ) → List (List ℕ)
unfolding sweep
sort_to zero lines = lines
sort_to (suc end) lines = sort_to end (sweep end lines)

unfoldable pub sort_list : List (List ℕ) → List (List ℕ)
unfolding sort_to
sort_list lines = sort_to (length lines) lines
