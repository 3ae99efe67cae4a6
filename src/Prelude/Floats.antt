-- ===== src/Prelude/Floats.antt =====
-- Python's floats, which the program computes with and does not implement: the operations are
-- parameters, and a theorem that relies on a law of theirs takes the law as a hypothesis.
use Prim.Native.Nat.{ℕ}
use mathlib.Core.Bool.{Bool}
use fed_lo_ra_public.Prelude.Tests.{if◌then◌else◌}

pub record FloatOps : Type 1 where
  pub Float : Type 0
  -- float(n)
  pub of_nat : ℕ → Float
  pub add : Float → Float → Float
  pub sub : Float → Float → Float
  pub mul : Float → Float → Float
  -- a / b for a b that is not zero, where Python raises
  pub div : Float → Float → Float
  -- a < b
  pub lt : Float → Float → Bool
  -- int(round(x)) of a float that is not negative
  pub round_nat : Float → ℕ

module _ (ops : FloatOps) where
  open ops use {Float, lt}

  -- Python's max(a, b) and min(a, b): the first unless the second is beyond it.
  unfoldable pub fmax : Float → Float → Float
  fmax a b = if lt a b then b else a

  unfoldable pub fmin : Float → Float → Float
  fmin a b = if lt b a then b else a
