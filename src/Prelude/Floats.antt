-- ===== src/Prelude/Floats.antt =====
-- Python floats, which the language has not: the type and the operations that the program uses are
-- a record, and what a theorem relies on is a hypothesis. `scaled` is an instance for runs: integers,
-- so coordinates in whole pixels.
use mathlib.Core.Bool.{Bool, true, false}
use mathlib.Core.Option.{Option, none, some}
use mathlib.Core.Path.{◌≡◌}
use native.Mathlib.Omega.{arith}
use cat_sentinel.Prelude.Tests.{if◌then◌else◌}
use cat_sentinel.Prelude.Int.{ℤ, pos, ◌+ℤ◌, ◌-ℤ◌, ◌*ℤ◌, quot, leb_ℤ, ltb_ℤ, -ℤ_parts}

pub record Floats : Type 1 where
  pub Float : Type 0
  pub zero_float : Float
  pub add : Float → Float → Float
  pub sub : Float → Float → Float
  pub mul : Float → Float → Float
  -- `none` is ZeroDivisionError.
  pub div : Float → Float → Option Float
  -- `x / 2.0`
  pub half : Float → Float
  -- a value in the order of `math.hypot`
  pub hypot : Float → Float → Float
  -- `none` is the OverflowError or ValueError of an infinity or a NaN.
  pub round : Float → Option ℤ
  pub lt : Float → Float → Bool
  pub le : Float → Float → Bool
  pub eq : Float → Float → Bool
  -- `not (math.isinf(v) or math.isnan(v))`
  pub finite : Float → Bool

-- What IEEE arithmetic guarantees of finite values, as far as the theorems need it.
pub record FiniteLaws (F : Floats) : Type 0 where
  pub eq_refl : (a : F.Float) → F.finite a ≡ true → F.eq a a ≡ true
  -- The difference of two finite numbers that differ is not zero, so it divides.
  pub div_some :
      (n a b : F.Float)
      → F.finite a ≡ true
      → F.finite b ≡ true
      → F.eq a b ≡ false
      → (q : F.Float) × (F.div n (F.sub b a) ≡ some q)

-- The order of finite values.
pub record OrderLaws (F : Floats) : Type 0 where
  pub le_not_lt :
      (a b : F.Float)
      → F.finite a ≡ true
      → F.finite b ≡ true
      → F.le a b ≡ (if F.lt b a then false else true)
  pub lt_trans :
      (a b c : F.Float)
      → F.finite a ≡ true
      → F.finite b ≡ true
      → F.finite c ≡ true
      → F.lt a b ≡ true
      → F.lt b c ≡ true
      → F.lt a c ≡ true
  -- a < b ≤ c
  pub lt_le_trans :
      (a b c : F.Float)
      → F.finite a ≡ true
      → F.finite b ≡ true
      → F.finite c ≡ true
      → F.lt a b ≡ true
      → F.lt c b ≡ false
      → F.lt a c ≡ true
  pub eq_not_lt :
      (a b : F.Float)
      → F.finite a ≡ true
      → F.finite b ≡ true
      → F.lt a b ≡ true
      → (F.eq a b ≡ false) × (F.eq b a ≡ false)

-- `bool(min(a, b))` and its dual as Python computes them: the first argument wins a tie.
module _ (F : Floats) where
  unfoldable pub float_min : F.Float → F.Float → F.Float
  float_min a b = if F.lt b a then b else a

  unfoldable pub float_max : F.Float → F.Float → F.Float
  float_max a b = if F.lt a b then b else a

eq_ℤ : ℤ → ℤ → Bool
eq_ℤ a b = if leb_ℤ a b then leb_ℤ b a else false

div_ℤ : ℤ → ℤ → Option ℤ
unfolding eq_ℤ
div_ℤ n d = if eq_ℤ d (pos 0) then none else some (quot n d)

unfoldable pub scaled : Floats
unfolding div_ℤ eq_ℤ ◌+ℤ◌ ◌-ℤ◌ ◌*ℤ◌ quot
scaled = record {
  Float = ℤ;
  zero_float = pos 0;
  add = ◌+ℤ◌;
  sub = ◌-ℤ◌;
  mul = ◌*ℤ◌;
  div = div_ℤ;
  half = λ a. quot a (pos 2);
  hypot = λ a b. a *ℤ a +ℤ b *ℤ b;
  round = some;
  lt = ltb_ℤ;
  le = leb_ℤ;
  eq = eq_ℤ;
  finite = λ _. true;
}

eq_ℤ_refl : (a : ℤ) → eq_ℤ a a ≡ true
unfolding eq_ℤ
eq_ℤ_refl a = ground arith

div_ℤ-some : (n a b : ℤ) → eq_ℤ a b ≡ false → (q : ℤ) × (div_ℤ n (b -ℤ a) ≡ some q)
unfolding div_ℤ eq_ℤ
div_ℤ-some n a b h = (quot n (b -ℤ a), ground (arith, -ℤ_parts b a))

pub scaled_laws : FiniteLaws scaled
unfolding scaled
scaled_laws = record { eq_refl = λ a _. eq_ℤ_refl a; div_some = λ n a b _ _ h. div_ℤ-some n a b h }

eq_ℤ-ltb : (a b : ℤ) → ltb_ℤ a b ≡ true → (eq_ℤ a b ≡ false) × (eq_ℤ b a ≡ false)
unfolding eq_ℤ
eq_ℤ-ltb a b h = (ground (arith, h), ground (arith, h))

pub scaled_order : OrderLaws scaled
unfolding scaled
scaled_order = record {
  le_not_lt = λ a b _ _. ground arith;
  lt_trans = λ a b c _ _ _ h k. ground (arith, h, k);
  lt_le_trans = λ a b c _ _ _ h k. ground (arith, h, k);
  eq_not_lt = λ a b _ _ h. eq_ℤ-ltb a b h;
}
