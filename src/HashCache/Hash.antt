-- ===== src/HashCache/Hash.antt =====
-- The hash of a key of arkhipov/32/cache.c. Over characters that are not negative it is an index of a
-- bucket; a negative character can make it negative.
use posix_threads.Common.{
  ℕ, zero, suc, ◌+◌, ◌%◌, ◌<◌, ◌≡◌, ◌↔◌, refl, sym, ap, ◌∙◌, true, List, [], ◌∷◌, arith, ℤ, pos,
  ==ℤ_iff, ◌+ℤ◌, rem, sub_ℕ,
}
use native.Mathlib.Nat.{mod-lt, mod-eq_of_lt, mod-add-mod}
use posix_threads.HashCache.{get_hash, hash_from, str_equals}

-- A key of characters below 128, from their codes.
abbrev pub text : List ℕ → List ℤ
text [] = []
text (c ∷ cs) = pos c ∷ text cs

abbrev pub total : List ℕ → ℕ
total [] = 0
total (c ∷ cs) = c + total cs

-- A key of negative characters, from their absolute values.
abbrev pub negative : List ℕ → List ℤ
negative [] = []
negative (c ∷ cs) = sub_ℕ 0 c ∷ negative cs

rem_pos : (a b p : ℕ) → rem (pos a +ℤ pos b) p ≡ pos ((a + b) % p)
unfolding rem ◌+ℤ◌
rem_pos a b p = ground arith

hash_from-text :
    (h : ℕ) (cs : List ℕ) (p : ℕ) → h < p → hash_from (pos h) (text cs) p ≡ pos ((h + total cs) % p)
unfolding hash_from
hash_from-text h [] p lt = ap pos (sym (mod-eq_of_lt lt) ∙ ap (λ n. n % p) (omega arith))
hash_from-text h (c ∷ cs) p lt =
    ap (λ x. hash_from x (text cs) p) (rem_pos h c p)
    ∙ hash_from-text ((h + c) % p) cs p (mod-lt (h + c) (omega arith))
    ∙ ap pos (mod-add-mod (h + c) p (total cs) ∙ ap (λ n. n % p) (omega arith))

pub get_hash-text : (cs : List ℕ) (p : ℕ) → 0 < p → get_hash (text cs) p ≡ pos (total cs % p)
unfolding get_hash
get_hash-text cs p room = hash_from-text 0 cs p room ∙ ap pos (ap (λ n. n % p) (omega arith))

rem_neg : (a b p : ℕ) → rem (sub_ℕ 0 a +ℤ sub_ℕ 0 b) p ≡ sub_ℕ 0 ((a + b) % p)
unfolding rem ◌+ℤ◌
rem_neg zero zero p = ground arith
rem_neg zero (suc b) p = ground arith
rem_neg (suc a) zero p = ground arith
rem_neg (suc a) (suc b) p = ground arith

hash_from-negative :
    (h : ℕ) (cs : List ℕ) (p : ℕ)
    → h < p
    → hash_from (sub_ℕ 0 h) (negative cs) p ≡ sub_ℕ 0 ((h + total cs) % p)
unfolding hash_from
hash_from-negative h [] p lt = ap (sub_ℕ 0) (sym (mod-eq_of_lt lt) ∙ ap (λ n. n % p) (omega arith))
hash_from-negative h (c ∷ cs) p lt =
    ap (λ x. hash_from x (negative cs) p) (rem_neg h c p)
    ∙ hash_from-negative ((h + c) % p) cs p (mod-lt (h + c) (omega arith))
    ∙ ap (sub_ℕ 0) (mod-add-mod (h + c) p (total cs) ∙ ap (λ n. n % p) (omega arith))

pub get_hash-negative :
    (cs : List ℕ) (p : ℕ) → 0 < p → get_hash (negative cs) p ≡ sub_ℕ 0 (total cs % p)
unfolding get_hash
get_hash-negative cs p room =
    hash_from-negative 0 cs p room ∙ ap (sub_ℕ 0) (ap (λ n. n % p) (omega arith))

pub str_equals_iff : (k l : List ℤ) → (str_equals k l ≡ true) ↔ (k ≡ l)
unfolding str_equals
str_equals_iff [] [] = (λ h. refl, λ e. refl)
str_equals_iff [] (b ∷ l) = ground arith
str_equals_iff (a ∷ k) [] = ground arith
str_equals_iff (a ∷ k) (b ∷ l) = ground (arith, ==ℤ_iff a b, str_equals_iff k l)
