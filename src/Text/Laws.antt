-- ===== src/Text/Laws.antt =====
-- Hex text that is printed is read back, and what the scans for a separator find.
use rpld_hymrpl.Prelude.{
  ℕ, zero, suc, ◌+◌, ◌-◌, ◌*◌, ◌/◌, ◌%◌, ◌≤◌, ◌<◌, ◌≡◌, ◌⊎◌, inl, inr, refl, ap, ◌∙◌, some, List,
  [], ◌∷◌, ◌++◌, arith, length, length-append, take, drop,
}
use rpld_hymrpl.Text.{
  strchr, is_space, hex_value, scan_digits, scan_prefix, scan_sign, skip_space, scan_hex, hex_digit,
  print_hex, decode_hex, encode_hex,
}

abbrev pub All : (ℕ → Type 0) → List ℕ → Type 0
All P [] = Unit {0}
All P (x ∷ xs) = P x × All P xs

abbrev pub IsByte : ℕ → Type 0
IsByte b = b < 256

-- A digit as `hex_digit` writes it.
abbrev pub IsDigit : ℕ → Type 0
IsDigit c = ((48 ≤ c) × (c ≤ 57)) ⊎ ((97 ≤ c) × (c ≤ 102))

pub hex_digit-IsDigit : (d : ℕ) → d < 16 → IsDigit (hex_digit d)
unfolding hex_digit
hex_digit-IsDigit d h = ground arith

pub hex_value-hex_digit : (d : ℕ) → d < 16 → hex_value (hex_digit d) ≡ some d
unfolding hex_value hex_digit
hex_value-hex_digit d h = ground arith

hex_value-some : (c : ℕ) → IsDigit c → (v : ℕ) × (hex_value c ≡ some v) × (v < 16)
unfolding hex_value
hex_value-some c (inl h) = (c - 48, ground arith, omega arith)
hex_value-some c (inr h) = (c - 97 + 10, ground arith, omega arith)

-- A digit begins no white space and no sign.
scan_hex_digit :
    (width c : ℕ) (s : List ℕ)
    → IsDigit c
    → scan_hex (suc width) (c ∷ s) ≡ scan_prefix (suc width) (c ∷ s)
unfolding scan_hex skip_space is_space scan_sign
scan_hex_digit width c s (inl h) = ground arith
scan_hex_digit width c s (inr h) = ground arith

pub scan_hex_one : (c : ℕ) (s : List ℕ) → IsDigit c → scan_hex 1 (c ∷ s) ≡ hex_value c
unfolding scan_prefix scan_digits
scan_hex_one c s h = scan_hex_digit 0 c s h ∙ ground (arith, hex_value-some c h)

pub scan_hex_two :
    (c d v w : ℕ) (s : List ℕ)
    → IsDigit c
    → IsDigit d
    → hex_value c ≡ some v
    → hex_value d ≡ some w
    → scan_hex 2 (c ∷ d ∷ s) ≡ some (v * 16 + w)
unfolding scan_prefix scan_digits
scan_hex_two c d v w s hc hd ec ed = scan_hex_digit 1 c (d ∷ s) hc ∙ ground arith

pub length-print_hex : (width n : ℕ) → length (print_hex width n) ≡ width
unfolding print_hex
length-print_hex zero n = refl
length-print_hex (suc width) n = omega (
  arith,
  length-append (print_hex width (n / 16)) (hex_digit (n % 16) ∷ []),
  length-print_hex width (n / 16),
)

All-append : (P : ℕ → Type 0) (xs ys : List ℕ) → All P xs → All P ys → All P (xs ++ ys)
All-append P [] ys hx hy = hy
All-append P (x ∷ xs) ys hx hy = (hx.0, All-append P xs ys hx.1 hy)

pub print_hex-IsDigit : (width n : ℕ) → All IsDigit (print_hex width n)
unfolding print_hex
print_hex-IsDigit zero n = tt
print_hex-IsDigit (suc width) n =
    All-append IsDigit (print_hex width (n / 16)) _ (print_hex-IsDigit width (n / 16))
      (hex_digit-IsDigit (n % 16) (omega arith), tt)

-- The two digits of a byte read back as that byte.
pub scan_hex-print_hex : (b : ℕ) (s : List ℕ) → IsByte b → scan_hex 2 (print_hex 2 b ++ s) ≡ some b
unfolding print_hex
scan_hex-print_hex b s h =
    scan_hex_two _ _ (b / 16 % 16) (b % 16) s (hex_digit-IsDigit (b / 16 % 16) (omega arith))
      (hex_digit-IsDigit (b % 16) (omega arith)) (hex_value-hex_digit _ (omega arith))
      (hex_value-hex_digit _ (omega arith))
    ∙ ap some (omega arith)

pub decode_hex-encode_hex :
    (bytes s : List ℕ)
    → All IsByte bytes
    → decode_hex (length bytes) (encode_hex bytes ++ s) ≡ some bytes
unfolding decode_hex encode_hex print_hex
decode_hex-encode_hex [] s h = refl
decode_hex-encode_hex (b ∷ bytes) s (hb, h) =
    ground (arith, scan_hex-print_hex b (encode_hex bytes ++ s) hb, decode_hex-encode_hex bytes s h)

pub encode_hex-IsDigit : (bytes : List ℕ) → All IsDigit (encode_hex bytes)
unfolding encode_hex
encode_hex-IsDigit [] = tt
encode_hex-IsDigit (b ∷ bytes) =
    All-append IsDigit (print_hex 2 b) (encode_hex bytes) (print_hex-IsDigit 2 b)
      (encode_hex-IsDigit bytes)

pub length-encode_hex : (bytes : List ℕ) → length (encode_hex bytes) ≡ 2 * length bytes
unfolding encode_hex
length-encode_hex [] = refl
length-encode_hex (b ∷ bytes) = omega (
  arith,
  length-append (print_hex 2 b) (encode_hex bytes),
  length-print_hex 2 b,
  length-encode_hex bytes,
)

-- The first separator stands right behind the digits.
pub strchr_digits :
    (xs s : List ℕ) → All IsDigit xs → strchr (xs ++ (b'|' ∷ s)) b'|' ≡ some (length xs)
unfolding strchr
strchr_digits [] s h = refl
strchr_digits (x ∷ xs) s (hx, h) = ground (arith, strchr_digits xs s h)

pub take_append {ℓ} : {A : Type ℓ} (xs ys : List A) → take (length xs) (xs ++ ys) ≡ xs
take_append [] ys = refl
take_append (x ∷ xs) ys = ap (λ zs. x ∷ zs) (take_append xs ys)

pub drop_append {ℓ} : {A : Type ℓ} (xs ys : List A) → drop (length xs) (xs ++ ys) ≡ ys
drop_append [] ys = refl
drop_append (x ∷ xs) ys = drop_append xs ys
