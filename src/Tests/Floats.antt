-- ===== src/Tests/Floats.antt =====
-- Fixed-point numbers of three decimals, cut, in place of floats.
use native.Mathlib.Nat.{div-mul-le_self, le-div_iff_mul-le, le_trans, mul-le-mul_left}
use rpld_hymrpl.Prelude.{ℕ, ◌+◌, ◌-◌, ◌*◌, ◌/◌, ◌≤◌, ◌<◌, ◌≡◌, refl, true, arith, ltb, leb, leb→le}
use rpld_hymrpl.Adaptive.{FloatOps}
use rpld_hymrpl.Adaptive.Stability.{RatioLaws}
use rpld_hymrpl.Adaptive.Decision.{OrderLaws}

abbrev pub fixed : FloatOps ℕ
fixed = record {
  add = λ a b. a + b;
  sub = λ a b. a - b;
  mul = λ a b. a * b / 1000;
  div = λ a b. a * 1000 / b;
  int = λ n. n * 1000;
  decimal = λ n d. n * 1000 / d;
  le = leb;
  lt = ltb;
}

pub fixed-RatioLaws : RatioLaws fixed
fixed-RatioLaws = record { three_thirds = refl; above_one = λ c h. ground arith }

div_mono : (a b k : ℕ) → a ≤ b → 0 < k → a / k ≤ b / k
div_mono a b k h pos = (le-div_iff_mul-le pos).1 (le_trans (div-mul-le_self a k) h)

share :
    (m n k : ℕ)
    → m ≤ n
    → 0 < k
    → leb
        (m * 1000 * 1000 / (k * 1000) * 100000 / 1000)
        (n * 1000 * 1000 / (k * 1000) * 100000 / 1000)
      ≡ true
share m n k h pos =
    let d = div_mono (m * 1000 * 1000) (n * 1000 * 1000) (k * 1000) (omega arith) (omega arith) in
    ground arith

weight : (w a b : ℕ) → leb a b ≡ true → leb (w * a / 1000) (w * b / 1000) ≡ true
weight w a b h = let k : w * a ≤ w * b = mul-le-mul_left w (leb→le a b h) in ground arith

pub fixed-OrderLaws : OrderLaws fixed
fixed-OrderLaws = record {
  le_trans = λ a b c h k. ground arith;
  le_refl = λ a h. ground arith;
  add_mono = λ a b c d h₁ h₂ h₃ h₄. ground arith;
  add_nonneg = λ a b h k. ground arith;
  weight_mono = λ w a b h k l. weight w a b l;
  weight_nonneg = λ w a h k. ground arith;
  percent_mono = λ a b h k. ground arith;
  percent_nonneg = λ a h. ground arith;
  share_mono = share;
  share_nonneg = λ m k h. ground arith;
}
