-- ===== src/PoolProxy/Request/Methods.antt =====
-- Which requests `readFromClient` takes for a GET.
use posix_threads.Common.{
  same_chars, ℕ, ◌≡◌, refl, Bool, true, false, ◌&&◌, some, List, [], ◌∷◌, ◌++◌, arith, ◌==◌, length,
}
use posix_threads.PoolProxy.Admission.Search.{IsText}
use posix_threads.PoolProxy.Request.{is_get}

-- The one text begins the other.
abbrev pub begins : List ℕ → List ℕ → Bool
begins [] ys = true
begins (x ∷ xs) [] = false
begins (x ∷ xs) (y ∷ ys) = (x == y) && begins xs ys

same_chars-begins :
    (xs ys : List ℕ) → IsText xs → same_chars (length xs) xs (ys ++ 0 ∷ []) ≡ some (begins xs ys)
unfolding same_chars
same_chars-begins [] ys t = refl
same_chars-begins (x ∷ xs) [] t = ground arith
same_chars-begins (x ∷ xs) (y ∷ ys) t = ground (arith, same_chars-begins xs ys t.1)

-- The characters of "GET".
abbrev pub get_chars : List ℕ
get_chars = 71 ∷ 69 ∷ 84 ∷ []

-- A method with no zero character passes for GET exactly when it is the beginning of "GET": so does "GE",
-- and nothing is read outside either text.
pub is_get-begins :
    (method : List ℕ) → IsText method → is_get method ≡ some (begins method get_chars)
unfolding is_get
is_get-begins method t = same_chars-begins method get_chars t
