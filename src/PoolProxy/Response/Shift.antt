-- ===== src/PoolProxy/Response/Shift.antt =====
-- What `shiftRequest` leaves of a request buffer.
use posix_threads.Common.{
  ℕ, zero, suc, ◌+◌, ◌-◌, ◌≤◌, ◌<◌, ◌≡◌, refl, ◌∙◌, List, [], ◌∷◌, ◌++◌, arith, or_else, get_elem?,
  modify, take, length, length-modify,
}
use posix_threads.PoolProxy.Response.{shift_loop, shift_buffer}

get_elem?-modify_ne {ℓ} :
    {A : Type ℓ} (xs : List A) (i j : ℕ) (f : A → A)
    → j < i
    → get_elem? (modify xs i f) j ≡ get_elem? xs j
get_elem?-modify_ne [] i j f h = refl
get_elem?-modify_ne (x ∷ xs) zero j f h = absurd (omega arith)
get_elem?-modify_ne (x ∷ xs) (suc i) zero f h = refl
get_elem?-modify_ne (x ∷ xs) (suc i) (suc j) f h = get_elem?-modify_ne xs i j f (omega arith)

get_elem?-take {ℓ} :
    {A : Type ℓ} (n : ℕ) (xs ys : List A) (j : ℕ)
    → j < n
    → n ≤ length xs
    → get_elem? (take n xs ++ ys) j ≡ get_elem? xs j
get_elem?-take zero xs ys j h k = absurd (omega arith)
get_elem?-take (suc n) [] ys j h k = absurd (omega arith)
get_elem?-take (suc n) (x ∷ xs) ys zero h k = refl
get_elem?-take (suc n) (x ∷ xs) ys (suc j) h k =
    get_elem?-take n xs ys j (omega arith) (omega arith)

length-shift_loop :
    (rounds i pret : ℕ) (buf : List ℕ) → length (shift_loop rounds i pret buf) ≡ length buf
unfolding shift_loop
length-shift_loop zero i pret buf = refl
length-shift_loop (suc rounds) i pret buf =
    length-shift_loop rounds (i + 1) pret _
    ∙ length-modify buf i (λ b. or_else (get_elem? buf (i - pret)) b)

-- The loop writes at `i` and behind only.
shift_loop_below :
    (rounds i pret : ℕ) (buf : List ℕ) (j : ℕ)
    → j < i
    → get_elem? (shift_loop rounds i pret buf) j ≡ get_elem? buf j
unfolding shift_loop
shift_loop_below zero i pret buf j h = refl
shift_loop_below (suc rounds) i pret buf j h =
    shift_loop_below rounds (i + 1) pret _ j (omega arith)
    ∙ get_elem?-modify_ne buf i j (λ b. or_else (get_elem? buf (i - pret)) b) h

-- After `shiftRequest` by `pret` the buffer starts as it started before, up to `pret` or to the
-- new end: the handled request is still there, and not what followed it.
pub shift_buffer-keeps :
    (pret index : ℕ) (buf : List ℕ) (j : ℕ)
    → index ≤ length buf
    → j < pret
    → j < index - pret
    → get_elem? (shift_buffer pret index buf) j ≡ get_elem? buf j
unfolding shift_buffer
shift_buffer-keeps pret index buf j inside handled left =
    get_elem?-take (index - pret) (shift_loop (index - pret) pret pret buf) _ j left
      (omega (arith, length-shift_loop (index - pret) pret pret buf))
    ∙ shift_loop_below (index - pret) pret pret buf j handled
