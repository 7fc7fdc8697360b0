-- ===== src/Common/Float.antt =====
-- What the code does with `float64`, as an interface, and the laws of it that proofs use.
use llm_request_balancer.Common.Tests.{if◌then◌else◌}
use Prim.Native.Nat.{ℕ, ◌/◌}
use mathlib.Core.Path.{◌≡◌}
use mathlib.Core.Bool.{Bool, true}
use native.Mathlib.Omega.{arith}
use llm_request_balancer.Common.Int.{
  ℤ, pos, negsuc, times_ℤ, pos_part, neg_part, sub_ℕ, ◌+ℤ◌, ◌-ℤ◌, ◌≤ℤ◌, leb_ℤ,
}

pub record Float64 (F : Type 0) : Type 0 where
  pub of_int : ℤ → F  -- float64(n)
  pub add : F → F → F
  pub sub : F → F → F
  pub mul : F → F → F
  pub div : F → F → F
  pub min : F → F → F  -- math.Min
  pub le : F → F → Bool  -- false if a side is NaN
  pub to_int : F → ℤ  -- int(x)
  pub seconds : ℤ → F  -- d.Seconds()
  pub duration : F → ℤ  -- time.Duration(x * float64(time.Second))

infix 4 ◌≼◌
abbrev pub ◌≼◌ : {F : Type 0} ⦃fl : Float64 F⦄ → F → F → Type 0
◌≼◌ ⦃fl⦄ x y = fl.le x y ≡ true

abbrev pub nought : {F : Type 0} ⦃fl : Float64 F⦄ → F
nought ⦃fl⦄ = fl.of_int (pos 0)

-- A rate that is a finite number and not negative: an infinite one, times 0, would be NaN.
abbrev pub IsRate : {F : Type 0} ⦃fl : Float64 F⦄ → F → Type 0
IsRate ⦃fl⦄ r = (nought ≼ r) × (nought ≼ fl.mul nought r)

-- Twice this is beyond `int64`; conversions to an integer are defined up to it and a little further.
abbrev pub two_62 : ℤ
two_62 = pos 4611686018427387904

-- Laws of IEEE 754 arithmetic: rounding is monotone, and comparisons that hold exclude NaN. Integers
-- and durations are of 64 bits in the code: beyond these they count as the nearest that is.
pub record IsMonotone (F : Type 0) ⦃fl : Float64 F⦄ : Type 0 where
  pub le_trans : (x y z : F) → x ≼ y → y ≼ z → x ≼ z
  pub of_int_mono : (a b : ℤ) → a ≤ℤ b → fl.of_int a ≼ fl.of_int b
  pub min_bounds :
      (low x y : F) → low ≼ x → low ≼ y → (low ≼ fl.min x y) × (fl.min x y ≼ x) × (fl.min x y ≼ y)
  pub add_grows : (x y : F) → nought ≼ x → nought ≼ y → x ≼ fl.add x y
  pub mul_seconds : (d : ℕ) (r : F) → IsRate r → nought ≼ fl.mul (fl.seconds (pos d)) r
  pub sub_nonneg : (x : F) (n : ℤ) → fl.of_int n ≼ x → nought ≼ fl.sub x (fl.of_int n)
  pub sub_le : (x : F) (n : ℤ) → pos 0 ≤ℤ n → nought ≼ x → fl.sub x (fl.of_int n) ≼ x
  pub sub_nonpos : (x : F) (n : ℤ) → fl.of_int n ≼ x → fl.sub (fl.of_int n) x ≼ nought
  pub le_of_sub : (x : F) (n : ℤ) → fl.sub (fl.of_int n) x ≼ nought → fl.of_int n ≼ x
  pub mul_nonneg : (n : ℕ) (r : F) → IsRate r → nought ≼ fl.mul r (fl.of_int (pos n))
  pub one_rate : IsRate (fl.of_int (pos 1))
  pub to_int_nonneg : (x : F) → nought ≼ x → x ≼ fl.of_int two_62 → pos 0 ≤ℤ fl.to_int x

-- The laws can be met: fixed-point numbers, in billionths.
pub record Fixed : Type 0 where
  pub units : ℤ

abbrev billion : ℕ
billion = 1000000000

-- Division of an integer by a positive number, rounded towards 0.
abbrev quot_ℤ : ℤ → ℕ → ℤ
quot_ℤ a n = sub_ℕ (pos_part a / n) (neg_part a / n)

-- A quotient by a number that is not positive is not needed, and taken as 0.
abbrev over_ℤ : ℤ → ℤ → ℤ
over_ℤ a b = quot_ℤ (times_ℤ a (pos billion)) (pos_part b)

instance abbrev pub fixed_float : Float64 Fixed
fixed_float = record {
  of_int = λ n. record { units = times_ℤ n (pos billion) };
  add = λ x y. record { units = x.units +ℤ y.units };
  sub = λ x y. record { units = x.units -ℤ y.units };
  mul = λ x y. record { units = quot_ℤ (times_ℤ x.units y.units) billion };
  div = λ x y. record { units = over_ℤ x.units y.units };
  min = λ x y. if leb_ℤ x.units y.units then x else y;
  le = λ x y. leb_ℤ x.units y.units;
  to_int = λ x. quot_ℤ x.units billion;
  seconds = λ d. record { units = d };
  duration = λ x. x.units;
}

times_nonneg : (a b : ℤ) → pos 0 ≤ℤ a → pos 0 ≤ℤ b → pos 0 ≤ℤ times_ℤ a b
times_nonneg (pos n) (pos m) h k = ground arith
times_nonneg (pos n) (negsuc m) h k = absurd (omega arith)
times_nonneg (negsuc n) b h k = absurd (omega arith)

quot_nonneg : (a : ℤ) (n : ℕ) → pos 0 ≤ℤ a → pos 0 ≤ℤ quot_ℤ a n
quot_nonneg (pos a) n h = ground arith
quot_nonneg (negsuc a) n h = absurd (omega arith)

leb_of_le : (a b : ℤ) → a ≤ℤ b → leb_ℤ a b ≡ true
leb_of_le a b h = ground arith

le_of_leb : (a b : ℤ) → leb_ℤ a b ≡ true → a ≤ℤ b
le_of_leb a b h = ground arith

pub Fixed-IsMonotone : IsMonotone Fixed
unfolding ◌+ℤ◌ ◌-ℤ◌
Fixed-IsMonotone = record {
  le_trans = λ x y z h k. ground arith;
  of_int_mono = λ a b h. ground arith;
  min_bounds = λ low x y h k. ground arith;
  add_grows = λ x y h k. ground arith;
  mul_seconds = λ d r h. leb_of_le (pos 0) (quot_ℤ (times_ℤ (pos d) r.units) billion) (
      quot_nonneg (times_ℤ (pos d) r.units) billion
        (times_nonneg (pos d) r.units (omega arith) (le_of_leb (pos 0) r.units h.0)));
  sub_nonneg = λ x n h. ground arith;
  sub_le = λ x n h k. ground arith;
  sub_nonpos = λ x n h. ground arith;
  le_of_sub = λ x n h. ground arith;
  mul_nonneg = λ n r h.
      leb_of_le (pos 0) (quot_ℤ (times_ℤ r.units (times_ℤ (pos n) (pos billion))) billion) (
        quot_nonneg (times_ℤ r.units (times_ℤ (pos n) (pos billion))) billion (
          times_nonneg r.units (times_ℤ (pos n) (pos billion)) (le_of_leb (pos 0) r.units h.0)
            (times_nonneg (pos n) (pos billion) (omega arith) (omega arith))));
  one_rate = (ground arith, ground arith);
  to_int_nonneg = λ x h k. quot_nonneg x.units billion (le_of_leb (pos 0) x.units h);
}
