-- ===== src/Prelude/Bits.antt =====
-- What `|` and `^` of the C code need: a `^` is 0 between equal numbers only, a `|` is 0 between
-- zeros only, and a number shifted by four takes in a nibble. By induction on the digits' count.
use Prim.Native.Nat.{
  ℕ, zero, suc, ◌+◌, ◌*◌, ◌/◌, ◌%◌, ◌≤◌, ◌<◌, min, max, digits, differ, bit_and, bit_or, bit_xor,
  bit_and-bitwise, bit_or-bitwise, bit_xor-bitwise,
}
use mathlib.Core.Path.{◌≡◌, refl, sym, ap, ◌∙◌}
use native.Mathlib.Omega.{arith}

differ_zero : (x y : ℕ) → differ x y ≡ 0 → x ≡ y
differ_zero zero y e = sym e
differ_zero (suc x) zero e = e
differ_zero (suc x) (suc y) e = ap suc (differ_zero x y e)

differ_self : (x : ℕ) → differ x x ≡ 0
differ_self zero = refl
differ_self (suc x) = differ_self x

xor_digits_zero : (n a b : ℕ) → a ≤ n → digits (λ y. y) differ n a b ≡ 0 → a ≡ b
xor_digits_zero zero zero b h e = sym e
xor_digits_zero zero (suc a) b h e = absurd (omega arith)
xor_digits_zero (suc n) zero b h e = sym e
xor_digits_zero (suc n) (suc a) b h e = omega (
  arith,
  xor_digits_zero n (suc a / 2) (b / 2) (omega arith) (omega arith),
  differ_zero (suc a % 2) (b % 2) (omega arith),
)

xor_digits_self : (n a : ℕ) → a ≤ n → digits (λ y. y) differ n a a ≡ 0
xor_digits_self zero zero h = refl
xor_digits_self zero (suc a) h = absurd (omega arith)
xor_digits_self (suc n) zero h = refl
xor_digits_self (suc n) (suc a) h =
    omega (arith, xor_digits_self n (suc a / 2) (omega arith), differ_self (suc a % 2))

or_digits_zero : (n a b : ℕ) → a ≤ n → digits (λ y. y) max n a b ≡ 0 → (a ≡ 0) × (b ≡ 0)
or_digits_zero zero zero b h e = (refl, e)
or_digits_zero zero (suc a) b h e = absurd (omega arith)
or_digits_zero (suc n) zero b h e = (refl, e)
or_digits_zero (suc n) (suc a) b h e =
    absurd (omega (arith, or_digits_zero n (suc a / 2) (b / 2) (omega arith) (omega arith)))

or_digits_right : (n a : ℕ) → a ≤ n → digits (λ y. y) max n a 0 ≡ a
or_digits_right zero zero h = refl
or_digits_right zero (suc a) h = absurd (omega arith)
or_digits_right (suc n) zero h = refl
or_digits_right (suc n) (suc a) h = omega (arith, or_digits_right n (suc a / 2) (omega arith))

-- `q << k`
abbrev double : ℕ → ℕ → ℕ
double zero q = q
double (suc k) q = 2 * double k q

or_digits_fields :
    (n k q r a : ℕ) → a ≡ double k q → a ≤ n → r < double k 1 → digits (λ y. y) max n a r ≡ a + r
or_digits_fields n zero q zero a e h l = omega (arith, or_digits_right n a h)
or_digits_fields n zero q (suc r) a e h l = absurd (omega arith)
or_digits_fields zero (suc k) q r zero e h l = omega arith
or_digits_fields zero (suc k) q r (suc a) e h l = absurd (omega arith)
or_digits_fields (suc n) (suc k) q r zero e h l = omega arith
or_digits_fields (suc n) (suc k) q r (suc a) e h l =
    omega
      (arith, or_digits_fields n k q (r / 2) (suc a / 2) (omega arith) (omega arith) (omega arith))

pub bit_xor_zero : (a b : ℕ) → bit_xor a b ≡ 0 → a ≡ b
bit_xor_zero a b e = xor_digits_zero a a b (omega arith) (sym (bit_xor-bitwise a b) ∙ e)

pub bit_xor_self : (a : ℕ) → bit_xor a a ≡ 0
bit_xor_self a = bit_xor-bitwise a a ∙ xor_digits_self a a (omega arith)

pub bit_or_zero : (a b : ℕ) → bit_or a b ≡ 0 → (a ≡ 0) × (b ≡ 0)
bit_or_zero a b e = or_digits_zero a a b (omega arith) (sym (bit_or-bitwise a b) ∙ e)

-- `(q << 4) | r`
pub bit_or_nibble : (q r : ℕ) → r < 16 → bit_or (q * 16) r ≡ q * 16 + r
bit_or_nibble q r h =
    bit_or-bitwise (q * 16) r
    ∙ or_digits_fields (q * 16) 4 q r (q * 16) (omega arith) (omega arith) (omega arith)

-- A mask of `j` ones.
abbrev ones : ℕ → ℕ
ones zero = 0
ones (suc j) = 2 * ones j + 1

-- The lowest `j` digits.
abbrev low : ℕ → ℕ → ℕ
low zero a = 0
low (suc j) a = 2 * low j (a / 2) + a % 2

-- The `j` digits above the lowest `k`, in their place.
abbrev masked : ℕ → ℕ → ℕ → ℕ
masked zero j a = low j a
masked (suc k) j a = 2 * masked k j (a / 2)

low_zero : (j : ℕ) → low j 0 ≡ 0
low_zero zero = refl
low_zero (suc j) = omega (arith, low_zero j)

masked_zero : (k j : ℕ) → masked k j 0 ≡ 0
masked_zero zero j = low_zero j
masked_zero (suc k) j = omega (arith, masked_zero k j)

and_digits_zero : (n a : ℕ) → digits (λ y. 0) min n a 0 ≡ 0
and_digits_zero zero a = refl
and_digits_zero (suc n) zero = refl
and_digits_zero (suc n) (suc a) = omega (arith, and_digits_zero n (suc a / 2))

and_digits-low : (n j a : ℕ) → a ≤ n → digits (λ y. 0) min n a (ones j) ≡ low j a
and_digits-low n zero a h = and_digits_zero n a
and_digits-low zero (suc j) zero h = omega (arith, low_zero j)
and_digits-low zero (suc j) (suc a) h = absurd (omega arith)
and_digits-low (suc n) (suc j) zero h = omega (arith, low_zero j)
and_digits-low (suc n) (suc j) (suc a) h =
    let half : (2 * ones j + 1) / 2 ≡ ones j = omega arith in
    omega (
      arith,
      ap (λ m. digits (λ y. 0) min n (suc a / 2) m) half,
      and_digits-low n j (suc a / 2) (omega arith),
    )

and_digits-masked :
    (n k j a : ℕ) → a ≤ n → digits (λ y. 0) min n a (double k (ones j)) ≡ masked k j a
and_digits-masked n zero j a h = and_digits-low n j a h
and_digits-masked zero (suc k) j zero h = omega (arith, masked_zero k j)
and_digits-masked zero (suc k) j (suc a) h = absurd (omega arith)
and_digits-masked (suc n) (suc k) j zero h = omega (arith, masked_zero k j)
and_digits-masked (suc n) (suc k) j (suc a) h =
    let half : 2 * double k (ones j) / 2 ≡ double k (ones j) = omega arith in
    omega (
      arith,
      ap (λ m. digits (λ y. 0) min n (suc a / 2) m) half,
      and_digits-masked n k j (suc a / 2) (omega arith),
    )

-- `a & (7 << 3)`, `a & 7`, `a & (1 << 7)`, `a & (1 << 6)`
pub bit_and_56 : (a : ℕ) → bit_and a 56 ≡ a / 8 % 8 * 8
bit_and_56 a = bit_and-bitwise a 56 ∙ omega (arith, and_digits-masked a 3 3 a (omega arith))

pub bit_and_7 : (a : ℕ) → bit_and a 7 ≡ a % 8
bit_and_7 a = bit_and-bitwise a 7 ∙ omega (arith, and_digits-masked a 0 3 a (omega arith))

pub bit_and_128 : (a : ℕ) → bit_and a 128 ≡ a / 128 % 2 * 128
bit_and_128 a = bit_and-bitwise a 128 ∙ omega (arith, and_digits-masked a 7 1 a (omega arith))

pub bit_and_64 : (a : ℕ) → bit_and a 64 ≡ a / 64 % 2 * 64
bit_and_64 a = bit_and-bitwise a 64 ∙ omega (arith, and_digits-masked a 6 1 a (omega arith))
