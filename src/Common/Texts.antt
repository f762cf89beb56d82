-- ===== src/Common/Texts.antt =====
-- Comparisons of C strings: a text is the list of its characters.
use Prim.Native.Nat.{ℕ, zero, suc}
use mathlib.Core.Bool.{Bool, true, false, ◌&&◌}
use mathlib.Core.List.{List, [], ◌∷◌}
use mathlib.Core.Logic.{◌↔◌}
use mathlib.Core.Path.{◌≡◌}
use mathlib.Core.Option.{Option, none, some}
use native.Mathlib.Omega.{arith}
use posix_threads.Common.Tests.{◌==◌, if◌then◌else◌, ==_iff}

-- `strncmp(a, b, n) == 0`, where a zero character ends a text; `none` is a read outside one of the two.
unfoldable pub same_chars : ℕ → List ℕ → List ℕ → Option Bool
same_chars zero xs ys = some true
same_chars (suc n) [] ys = none
same_chars (suc n) (x ∷ xs) [] = none
same_chars (suc n) (x ∷ xs) (y ∷ ys) =
    let rest = same_chars n xs ys in
    if x == y then (if x == 0 then some true else rest) else some false

-- `strcmp(a, b) == 0`, of texts without the zero at their ends.
unfoldable pub same_string : List ℕ → List ℕ → Bool
same_string [] [] = true
same_string [] (y ∷ ys) = false
same_string (x ∷ xs) [] = false
same_string (x ∷ xs) (y ∷ ys) = (x == y) && same_string xs ys

pub same_string_iff : (xs ys : List ℕ) → (same_string xs ys ≡ true) ↔ (xs ≡ ys)
unfolding same_string
same_string_iff [] [] = ground arith
same_string_iff [] (y ∷ ys) = ground arith
same_string_iff (x ∷ xs) [] = ground arith
same_string_iff (x ∷ xs) (y ∷ ys) = ground (arith, same_string_iff xs ys, ==_iff x y)
