-- ===== src/Tests/Lines.antt =====
-- The sorted list of arkhipov/17 at small inputs.
use posix_threads.Common.{ℕ, ◌≡◌, ◌≢◌, ◌↔◌, refl, List, [], ◌∷◌, minus_one}
use mathlib.Core.List.{Perm}
use posix_threads.LineList.{compare_str, sort_list, sort_to, sweep, earlier, later}
use posix_threads.LineList.Order.{Lex, compare_str-Lex}
use posix_threads.LineList.Sorting.{Sorted, sort_list-Sorted}

abbrev three_lines : List (List ℕ)
three_lines = (98 ∷ 97 ∷ []) ∷ (98 ∷ []) ∷ (97 ∷ 99 ∷ []) ∷ []

sort_three_lines : sort_list three_lines ≡ (97 ∷ 99 ∷ []) ∷ (98 ∷ []) ∷ (98 ∷ 97 ∷ []) ∷ []
unfolding sort_list sort_to sweep earlier later compare_str
sort_three_lines = refl

sort_list-Sorted_example : Sorted (sort_list three_lines) × Perm three_lines (sort_list three_lines)
sort_list-Sorted_example = sort_list-Sorted three_lines

compare_str-Lex_example :
    (compare_str (98 ∷ []) (98 ∷ 97 ∷ []) ≢ minus_one) ↔ Lex (98 ∷ []) (98 ∷ 97 ∷ [])
compare_str-Lex_example = compare_str-Lex (98 ∷ []) (98 ∷ 97 ∷ [])
