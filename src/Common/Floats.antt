-- ===== src/Common/Floats.antt =====
-- `f64` as the program uses it: a type with the operations that the source calls. The language's
-- floating-point arithmetic is not part of the repository, so it is a parameter of every
-- definition that needs it.
use Prim.Native.Nat.{ℕ, ◌+◌, ◌-◌, ◌*◌, ◌/◌, ◌^◌, min, max}
use mathlib.Core.Bool.{Bool, true}
use bc3_online_miner.Common.Tests.{ltb, leb, ◌==◌}

pub record Float : Type 1 where
  pub F64 : Type 0
  pub of_nat : ℕ → F64
  pub add : F64 → F64 → F64
  pub sub : F64 → F64 → F64
  pub mul : F64 → F64 → F64
  pub div : F64 → F64 → F64
  pub abs : F64 → F64
  pub fmax : F64 → F64 → F64
  -- `a < b` and `a <= b`; both false if either is NaN
  pub flt : F64 → F64 → Bool
  pub fle : F64 → F64 → Bool
  -- `a == b`; false if either is NaN
  pub feq : F64 → F64 → Bool
  pub infinity : F64
  pub is_finite : F64 → Bool
  -- `x as u128`: truncation, saturating
  pub to_u128 : F64 → ℕ

-- Natural numbers in the place of floating-point numbers.
abbrev pub naturals : Float
naturals = record {
  F64 = ℕ;
  of_nat = λ n. n;
  add = ◌+◌;
  sub = ◌-◌;
  mul = ◌*◌;
  div = ◌/◌;
  abs = λ n. n;
  fmax = max;
  flt = ltb;
  fle = leb;
  feq = ◌==◌;
  infinity = 2 ^ 1024;
  is_finite = λ n. true;
  to_u128 = λ n. min n (2 ^ 128 - 1);
}
