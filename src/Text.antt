-- ===== src/Text.antt =====
-- The C library's text functions, as far as hymrpl_adaptive.c and hymrpl_cmd.c call them. A text is
-- the list of its bytes; a NUL among them ends it.
pub mod Laws
use Prim.Native.String.{String}
use Prim.Native.Char.{code}
use rpld_hymrpl.Prelude.{
  ℕ, zero, suc, ◌+◌, ◌-◌, ◌*◌, ◌/◌, ◌%◌, ◌^◌, Bool, true, false, ◌&&◌, ◌||◌, Option, none, some,
  List, [], ◌∷◌, ◌++◌, leb, ◌==◌, if◌then◌else◌, length, drop,
}

-- The code points of a text.
abbrev pub codes : String → List ℕ
codes String.[] = []
codes (String.◌∷◌ c s) = code c ∷ codes s

-- `strcmp(a, b) == 0`
unfoldable pub str_eq : List ℕ → List ℕ → Bool
str_eq [] [] = true
str_eq [] (y ∷ b) = false
str_eq (x ∷ a) [] = false
str_eq (x ∷ a) (y ∷ b) = (x == y) && str_eq a b

-- `strchr(s, c)`, as the index of the first `c`, for a `c` that is not NUL.
unfoldable pub strchr : List ℕ → ℕ → Option ℕ
strchr [] c = none
strchr (x ∷ s) c =
    let rest = strchr s c in
    if x == 0
    then none
    else if x == c
    then some 0
    else elim rest [ none ↦ none | some i ↦ some (suc i) ]

-- Whether `s` begins with `p`; no `p` of the program holds a NUL.
unfoldable pub begins_with : List ℕ → List ℕ → Bool
begins_with [] s = true
begins_with (c ∷ p) [] = false
begins_with (c ∷ p) (x ∷ s) = (x == c) && begins_with p s

-- `strstr(s, p) != NULL`
unfoldable pub contains : List ℕ → List ℕ → Bool
contains p [] = begins_with p []
contains p (x ∷ s) =
    let rest = contains p s in
    if begins_with p (x ∷ s) then true else if x == 0 then false else rest

-- `isspace`
unfoldable pub is_space : ℕ → Bool
is_space c = c == b' ' || (leb 9 c && leb c 13)

unfoldable pub hex_value : ℕ → Option ℕ
hex_value c =
    if leb b'0' c && leb c b'9'
    then some (c - b'0')
    else if leb b'a' c && leb c b'f'
    then some (c - b'a' + 10)
    else if leb b'A' c && leb c b'F'
    then some (c - b'A' + 10)
    else none

-- The digits of a `%x` conversion: `width` at most, into the value read so far (`none`: no digit yet).
unfoldable pub scan_digits : ℕ → List ℕ → Option ℕ → Option ℕ
scan_digits zero s read = read
scan_digits (suc width) [] read = read
scan_digits (suc width) (c ∷ s) read = elim (hex_value c) [
  | none ↦ read
  | some d ↦ scan_digits width s (some (elim read [ none ↦ d | some v ↦ v * 16 + d ]))
]

-- An optional `0x` counts towards the width, and wants a digit behind it.
unfoldable pub scan_prefix : ℕ → List ℕ → Option ℕ
scan_prefix (suc (suc width)) (c ∷ x ∷ s) =
    if (c == b'0') && ((x == b'x') || (x == b'X'))
    then scan_digits width s none
    else scan_digits (suc (suc width)) (c ∷ x ∷ s) none
scan_prefix width s = scan_digits width s none

-- A sign counts towards the width too; a negative number is converted to unsigned int.
unfoldable pub scan_sign : ℕ → List ℕ → Option ℕ
scan_sign (suc width) (c ∷ s) =
    if c == b'-'
    then elim (scan_prefix width s) [ none ↦ none | some v ↦ some ((2 ^ 32 - v) % 2 ^ 32) ]
    else if c == b'+'
    then scan_prefix width s
    else scan_prefix (suc width) (c ∷ s)
scan_sign width s = scan_prefix width s

unfoldable pub skip_space : List ℕ → List ℕ
skip_space [] = []
skip_space (c ∷ s) = let rest = skip_space s in if is_space c then rest else c ∷ s

-- `sscanf(s, "%<width>x", &v) == 1`, with the `v` that it stores.
unfoldable pub scan_hex : ℕ → List ℕ → Option ℕ
scan_hex width s = scan_sign width (skip_space s)

unfoldable pub hex_digit : ℕ → ℕ
hex_digit d = if leb d 9 then b'0' + d else b'a' + (d - 10)

-- `%0<width>x` of a number of no more digits than that.
unfoldable pub print_hex : ℕ → ℕ → List ℕ
print_hex zero n = []
print_hex (suc width) n = print_hex width (n / 16) ++ hex_digit (n % 16) ∷ []

-- `for (i = 0; i < n; i++) sscanf(&s[i * 2], "%02x", &byte)` into bytes; `none` is a failed call.
unfoldable pub decode_hex : ℕ → List ℕ → Option (List ℕ)
decode_hex zero s = some []
decode_hex (suc n) s = elim (scan_hex 2 s) [
  | none ↦ none
  | some byte ↦ elim (decode_hex n (drop 2 s)) [
    | none ↦ none
    | some rest ↦ some ((byte % 256) ∷ rest)
  ]
]

-- `for (i = 0; i < n; i++) fprintf(f, "%02x", bytes[i])`
unfoldable pub encode_hex : List ℕ → List ℕ
encode_hex [] = []
encode_hex (byte ∷ bytes) = print_hex 2 byte ++ encode_hex bytes
