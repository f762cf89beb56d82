-- ===== src/EventProxy/Tables/Collisions.antt =====
-- Requests that the cache of rybalko/31/server.c takes for each other.
use posix_threads.Common.{
  ℕ, suc, ◌+◌, ◌*◌, ◌%◌, ◌<◌, ◌≡◌, ◌≢◌, ℤ, refl, sym, ap, ◌∙◌, true, some, List, [], ◌∷◌, ◌++◌,
  arith, ltb, length,
}
use posix_threads.EventProxy.{Server}
use posix_threads.EventProxy.Tables.{hash_from, hash, try_to_find_at_cache}

abbrev first : List ℕ → ℕ
first [] = 0
first (x ∷ xs) = x

abbrev rest : List ℕ → List ℕ
rest [] = []
rest (x ∷ xs) = xs

hash_from-append : (xs ys : List ℕ) (h : ℕ) → hash_from h (xs ++ ys) ≡ hash_from (hash_from h xs) ys
unfolding hash_from
hash_from-append [] ys h = refl
hash_from-append (x ∷ xs) ys h = hash_from-append xs ys _

two_steps :
    (h a b : ℕ)
    → a < 127
    → b < 95
    → (((h * 32 + h + a) % 18446744073709551616) * 32
          + ((h * 32 + h + a) % 18446744073709551616)
          + (b + 33))
        % 18446744073709551616
      ≡ (((h * 32 + h + suc a) % 18446744073709551616) * 32
          + ((h * 32 + h + suc a) % 18446744073709551616)
          + b)
        % 18446744073709551616
two_steps h a b k l = omega arith

pair_hash :
    (h a b : ℕ) (post : List ℕ)
    → a < 127
    → b < 95
    → hash_from h (a ∷ (b + 33) ∷ post) ≡ hash_from h (suc a ∷ b ∷ post)
unfolding hash_from
pair_hash h a b post k l =
    let one : ltb a 128 ≡ true = ground arith in
    let second : ltb (b + 33) 128 ≡ true = ground arith in
    let third : ltb (suc a) 128 ≡ true = ground arith in
    let fourth : ltb b 128 ≡ true = ground arith in
    rw (one, second, third, fourth) (ap (λ x. hash_from x post) (two_steps h a b k l))

same_length :
    (a b c d : ℕ) (pre post : List ℕ) → length (pre ++ a ∷ b ∷ post) ≡ length (pre ++ c ∷ d ∷ post)
same_length a b c d [] post = refl
same_length a b c d (x ∷ pre) post = ap suc (same_length a b c d pre post)

-- Two characters of ASCII can be changed, the first to the next and the second to the one 33 before it, and
-- the hash stays the same, whatever stands before and behind them.
hash-collides :
    (pre post : List ℕ) (a b : ℕ)
    → a < 127
    → b < 95
    → hash (some (pre ++ a ∷ (b + 33) ∷ post)) ≡ hash (some (pre ++ suc a ∷ b ∷ post))
unfolding hash
hash-collides pre post a b k l =
    let same : hash_from 5381 (pre ++ a ∷ (b + 33) ∷ post)
        ≡ hash_from 5381 (pre ++ suc a ∷ b ∷ post) =
      hash_from-append pre (a ∷ (b + 33) ∷ post) 5381
      ∙ pair_hash (hash_from 5381 pre) a b post k l
      ∙ sym (hash_from-append pre (suc a ∷ b ∷ post) 5381) in
    rw (same, same_length a (b + 33) (suc a) b pre post) refl

-- Of two requests that differ in two characters of ASCII, where the one has some character and one that is
-- at least 33, and the other the next character and the one 33 before, each is answered from the cache as
-- the other is, at every time and in every state.
pub try_to_find-collides :
    (pre post : List ℕ) (a b : ℕ) (now : ℤ) (s : Server)
    → a < 127
    → b < 95
    → (pre ++ a ∷ (b + 33) ∷ post ≢ pre ++ suc a ∷ b ∷ post)
      × (try_to_find_at_cache now (pre ++ a ∷ (b + 33) ∷ post) s
          ≡ try_to_find_at_cache now (pre ++ suc a ∷ b ∷ post) s)
unfolding try_to_find_at_cache
try_to_find-collides pre post a b now s k l =
    (differ a (b + 33) b pre post, rw (hash-collides pre post a b k l) refl)
  where
    differ : (a b c : ℕ) (pre post : List ℕ) → pre ++ a ∷ b ∷ post ≢ pre ++ suc a ∷ c ∷ post
    differ a b c [] post e = absurd (omega (arith, ap first e))
    differ a b c (x ∷ pre) post e = differ a b c pre post (ap rest e)
