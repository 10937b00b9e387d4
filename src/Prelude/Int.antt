-- ===== src/Prelude/Int.antt =====
-- Go's signed integers: identifiers, pair numbers, subgroups and versions, with their order.
use Prim.Native.Nat.{ℕ, zero, suc, ◌+◌, ◌≤◌, ◌<◌}
use mathlib.Core.Path.{◌≡◌}
use mathlib.Core.Logic.{◌↔◌}
use mathlib.Core.Bool.{Bool, true, false}
use native.Mathlib.Omega.{arith}
use ispo_shedule_backend.Prelude.Tests.{ltb, nat_beq, HasEq, if◌then◌else◌}

-- `negsuc n` is -(n + 1).
pub data ℤ : Type 0 where
  pos : ℕ → ℤ
  negsuc : ℕ → ℤ

abbrev pub pos_part : ℤ → ℕ
pos_part (pos n) = n
pos_part (negsuc n) = 0

abbrev pub neg_part : ℤ → ℕ
neg_part (pos n) = 0
neg_part (negsuc n) = suc n

abbrev pub ltb_ℤ : ℤ → ℤ → Bool
ltb_ℤ a b = ltb (pos_part a + neg_part b) (pos_part b + neg_part a)

infix 50 ◌≤ℤ◌ ◌<ℤ◌
abbrev pub ◌≤ℤ◌ : ℤ → ℤ → Type 0
a ≤ℤ b = pos_part a + neg_part b ≤ pos_part b + neg_part a

abbrev pub ◌<ℤ◌ : ℤ → ℤ → Type 0
a <ℤ b = pos_part a + neg_part b < pos_part b + neg_part a

-- `id > 0`, the guard that the services and repositories make of an identifier.
abbrev pub is_positive : ℤ → Bool
is_positive (pos n) = ltb 0 n
is_positive (negsuc n) = false

abbrev pub int_beq : ℤ → ℤ → Bool
int_beq (pos a) (pos b) = nat_beq a b
int_beq (negsuc a) (negsuc b) = nat_beq a b
int_beq (pos a) (negsuc b) = false
int_beq (negsuc a) (pos b) = false

pub int_beq_iff : (a b : ℤ) → (int_beq a b ≡ true) ↔ (a ≡ b)
int_beq_iff (pos a) (pos b) = ground arith
int_beq_iff (negsuc a) (negsuc b) = ground arith
int_beq_iff (pos a) (negsuc b) = (λ h. cc, λ h. cc)
int_beq_iff (negsuc a) (pos b) = (λ h. cc, λ h. cc)

instance abbrev pub int_eq : HasEq ℤ
int_eq = record { equal = int_beq; equal_iff = int_beq_iff }

abbrev pub max_int : ℕ
max_int = 9223372036854775807

-- `v++` on a 64-bit `int`, with its wrap-around.
unfoldable pub int_succ : ℤ → ℤ
int_succ (pos n) = if nat_beq n max_int then negsuc max_int else pos (suc n)
int_succ (negsuc zero) = pos 0
int_succ (negsuc (suc n)) = negsuc n

-- Below the largest value the increment is the mathematical one.
pub int_succ-pos : (n : ℕ) → n < max_int → int_succ (pos n) ≡ pos (suc n)
unfolding int_succ
int_succ-pos n h = ground arith
