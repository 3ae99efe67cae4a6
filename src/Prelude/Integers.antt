-- ===== src/Prelude/Integers.antt =====
-- Integers over the native numbers: `negsuc n` is -(n + 1).
use Prim.Native.Nat.{ℕ}
use mathlib.Core.Bool.{Bool, true, false}
use mathlib.Core.Path.{◌≡◌}
use mathlib.Core.Logic.{◌↔◌}
use native.Mathlib.Omega.{arith}
use fed_lo_ra_public.Prelude.Tests.{◌==◌, ==_iff}
use fed_lo_ra_public.Prelude.Maps.{Eq}

pub data ℤ : Type 0 where
  pos : ℕ → ℤ
  negsuc : ℕ → ℤ

unfoldable pub integer_beq : ℤ → ℤ → Bool
integer_beq (pos m) (pos n) = m == n
integer_beq (pos m) (negsuc n) = false
integer_beq (negsuc m) (pos n) = false
integer_beq (negsuc m) (negsuc n) = m == n

pub integer_beq_iff : (a b : ℤ) → (integer_beq a b ≡ true) ↔ (a ≡ b)
unfolding integer_beq
integer_beq_iff (pos m) (pos n) = ground (arith, ==_iff m n)
integer_beq_iff (pos m) (negsuc n) = ground arith
integer_beq_iff (negsuc m) (pos n) = ground arith
integer_beq_iff (negsuc m) (negsuc n) = ground (arith, ==_iff m n)

instance abbrev pub integer_eq : Eq ℤ
integer_eq = record { beq = integer_beq; beq_iff = integer_beq_iff }
