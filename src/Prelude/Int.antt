-- ===== src/Prelude/Int.antt =====
-- Signed integers over the native numbers, where a difference of times may be below zero.
use Prim.Native.Nat.{ℕ, zero, suc, ◌+◌, ◌-◌}
use corner_tasks.Prelude.Tests.{ltb, leb, if◌then◌else◌}
use mathlib.Core.Bool.{Bool, true, false}
use mathlib.Core.Path.{◌≡◌}
use native.Mathlib.Omega.{arith}

-- `negsuc n` is -(n + 1).
pub data ℤ : Type 0 where
  pos : ℕ → ℤ
  negsuc : ℕ → ℤ

abbrev pub pos_part : ℤ → ℕ
pos_part (pos n) = n
pos_part (negsuc n) = 0

abbrev pub neg_part : ℤ → ℕ
neg_part (pos n) = 0
neg_part (negsuc n) = suc n

-- a - b, as an integer.
abbrev pub sub_ℕ : ℕ → ℕ → ℤ
sub_ℕ a b = if leb b a then pos (a - b) else negsuc (b - a - 1)

infixl 65 ◌-ℤ◌
unfoldable pub ◌-ℤ◌ : ℤ → ℤ → ℤ
a -ℤ b = sub_ℕ (pos_part a + neg_part b) (neg_part a + pos_part b)

abbrev pub ltb_ℤ : ℤ → ℤ → Bool
ltb_ℤ a b = ltb (pos_part a + neg_part b) (pos_part b + neg_part a)

abbrev pub suc_ℤ : ℤ → ℤ
suc_ℤ (pos n) = pos (suc n)
suc_ℤ (negsuc zero) = pos 0
suc_ℤ (negsuc (suc n)) = negsuc n

abbrev pub max_ℤ : ℤ → ℤ → ℤ
max_ℤ i j = if ltb_ℤ i j then j else i

pub lt_suc_ℤ : (i j : ℤ) → ltb_ℤ j i ≡ false → ltb_ℤ i (suc_ℤ j) ≡ true
lt_suc_ℤ (pos m) (pos n) h = ground arith
lt_suc_ℤ (pos m) (negsuc n) h = ground arith
lt_suc_ℤ (negsuc m) (pos n) h = ground arith
lt_suc_ℤ (negsuc m) (negsuc zero) h = ground arith
lt_suc_ℤ (negsuc m) (negsuc (suc n)) h = ground arith

pub ge_trans_ℤ : (i j k : ℤ) → ltb_ℤ i j ≡ false → ltb_ℤ j k ≡ false → ltb_ℤ i k ≡ false
ge_trans_ℤ (pos l) (pos m) (pos n) h e = ground arith
ge_trans_ℤ (pos l) (pos m) (negsuc n) h e = ground arith
ge_trans_ℤ (pos l) (negsuc m) (pos n) h e = ground arith
ge_trans_ℤ (pos l) (negsuc m) (negsuc n) h e = ground arith
ge_trans_ℤ (negsuc l) (pos m) (pos n) h e = ground arith
ge_trans_ℤ (negsuc l) (pos m) (negsuc n) h e = ground arith
ge_trans_ℤ (negsuc l) (negsuc m) (pos n) h e = ground arith
ge_trans_ℤ (negsuc l) (negsuc m) (negsuc n) h e = ground arith

pub max_ℤ-left : (i j : ℤ) → ltb_ℤ (max_ℤ i j) i ≡ false
max_ℤ-left (pos m) (pos n) = ground arith
max_ℤ-left (pos m) (negsuc n) = ground arith
max_ℤ-left (negsuc m) (pos n) = ground arith
max_ℤ-left (negsuc m) (negsuc n) = ground arith

pub max_ℤ-right : (i j : ℤ) → ltb_ℤ (max_ℤ i j) j ≡ false
max_ℤ-right (pos m) (pos n) = ground arith
max_ℤ-right (pos m) (negsuc n) = ground arith
max_ℤ-right (negsuc m) (pos n) = ground arith
max_ℤ-right (negsuc m) (negsuc n) = ground arith
