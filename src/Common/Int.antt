-- ===== src/Common/Int.antt =====
-- The signed integers of C, over the native numbers: descriptors, and indices that may be -1.
use Prim.Native.Nat.{ℕ, suc, ◌+◌, ◌-◌, ◌%◌}
use mathlib.Core.Path.{◌≡◌, refl}
use mathlib.Core.Logic.{◌↔◌}
use mathlib.Core.Bool.{Bool, true, false}
use native.Mathlib.Omega.{arith}
use posix_threads.Common.Tests.{◌==◌, leb, ltb, if◌then◌else◌}

-- `negsuc n` is -(n + 1).
pub data ℤ : Type 0 where
  pos : ℕ → ℤ
  negsuc : ℕ → ℤ

abbrev pub minus_one : ℤ
minus_one = negsuc 0

abbrev pub is_neg : ℤ → Bool
is_neg (pos n) = false
is_neg (negsuc n) = true

infix 50 ◌==ℤ◌
abbrev pub ◌==ℤ◌ : ℤ → ℤ → Bool
pos a ==ℤ pos b = a == b
pos a ==ℤ negsuc b = false
negsuc a ==ℤ pos b = false
negsuc a ==ℤ negsuc b = a == b

pub ==ℤ_iff : (a b : ℤ) → ((a ==ℤ b) ≡ true) ↔ (a ≡ b)
==ℤ_iff (pos a) (pos b) = ground arith
==ℤ_iff (pos a) (negsuc b) = ground arith
==ℤ_iff (negsuc a) (pos b) = ground arith
==ℤ_iff (negsuc a) (negsuc b) = ground arith

abbrev pub ltℤ : ℤ → ℤ → Bool
ltℤ (pos a) (pos b) = ltb a b
ltℤ (pos a) (negsuc b) = false
ltℤ (negsuc a) (pos b) = true
ltℤ (negsuc a) (negsuc b) = ltb b a

pub ltℤ-trans : (a b c : ℤ) → ltℤ a b ≡ true → ltℤ b c ≡ true → ltℤ a c ≡ true
ltℤ-trans (pos a) (pos b) (pos c) h k = ground arith
ltℤ-trans (pos a) (pos b) (negsuc c) h k = absurd (ground arith)
ltℤ-trans (pos a) (negsuc b) c h k = absurd (ground arith)
ltℤ-trans (negsuc a) (pos b) (pos c) h k = refl
ltℤ-trans (negsuc a) (pos b) (negsuc c) h k = absurd (ground arith)
ltℤ-trans (negsuc a) (negsuc b) (pos c) h k = refl
ltℤ-trans (negsuc a) (negsuc b) (negsuc c) h k = ground arith

pub ltℤ-self : (a : ℤ) → ltℤ a a ≡ false
ltℤ-self (pos a) = ground arith
ltℤ-self (negsuc a) = ground arith

abbrev pub pos_part : ℤ → ℕ
pos_part (pos n) = n
pos_part (negsuc n) = 0

abbrev pub neg_part : ℤ → ℕ
neg_part (pos n) = 0
neg_part (negsuc n) = suc n

-- a - b, as an integer.
abbrev pub sub_ℕ : ℕ → ℕ → ℤ
sub_ℕ a b = if leb b a then pos (a - b) else negsuc (b - a - 1)

infixl 65 ◌+ℤ◌
unfoldable pub ◌+ℤ◌ : ℤ → ℤ → ℤ
a +ℤ b = sub_ℕ (pos_part a + pos_part b) (neg_part a + neg_part b)

-- `a % p` of C, which has the sign of `a`.
unfoldable pub rem : ℤ → ℕ → ℤ
rem (pos a) p = pos (a % p)
rem (negsuc a) p = sub_ℕ 0 (suc a % p)
