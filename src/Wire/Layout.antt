-- ===== src/Wire/Layout.antt =====
-- Laid out structs, and that a cast reads back what was laid out.
use native.Mathlib.Nat.{pow-suc}
use rpld_hymrpl.Prelude.{
  ℕ, zero, suc, ◌+◌, ◌*◌, ◌/◌, ◌%◌, ◌^◌, ◌<◌, ◌≡◌, refl, ap, ◌∙◌, List, [], ◌∷◌, ◌++◌, arith,
  length, length-append, get_or,
}
use rpld_hymrpl.Dag.{Addr}
use rpld_hymrpl.Wire.{memory_of, read_bytes, read_addr, addr_of, bytes_of}

read_bytes-suc :
    (x : ℕ) (xs : List ℕ) (i n : ℕ)
    → read_bytes (memory_of (x ∷ xs)) (suc i) n ≡ read_bytes (memory_of xs) i n
unfolding read_bytes
read_bytes-suc x xs i zero = refl
read_bytes-suc x xs i (suc n) =
    let e : suc i + 1 ≡ suc (i + 1) = omega arith in
    rw e (ap (λ bytes. get_or xs i 0 ∷ bytes) (read_bytes-suc x xs (i + 1) n))

read_front : (ys zs : List ℕ) → read_bytes (memory_of (ys ++ zs)) 0 (length ys) ≡ ys
unfolding read_bytes
read_front [] zs = refl
read_front (y ∷ ys) zs =
    ap (λ bytes. y ∷ bytes) (read_bytes-suc y (ys ++ zs) 0 (length ys) ∙ read_front ys zs)

-- A list that stands behind another in memory is read back.
pub read_bytes-memory_of :
    (xs ys zs : List ℕ) → read_bytes (memory_of (xs ++ (ys ++ zs))) (length xs) (length ys) ≡ ys
read_bytes-memory_of [] ys zs = read_front ys zs
read_bytes-memory_of (x ∷ xs) ys zs =
    read_bytes-suc x (xs ++ (ys ++ zs)) (length xs) (length ys) ∙ read_bytes-memory_of xs ys zs

addr_of-snoc :
    (bytes : List ℕ) (b high : ℕ) → addr_of (bytes ++ b ∷ []) high ≡ addr_of bytes high * 256 + b
unfolding addr_of
addr_of-snoc [] b high = refl
addr_of-snoc (x ∷ bytes) b high = addr_of-snoc bytes b (high * 256 + x)

pub length-bytes_of : (width n : ℕ) → length (bytes_of width n) ≡ width
unfolding bytes_of
length-bytes_of zero n = refl
length-bytes_of (suc width) n = omega (
  arith,
  length-append (bytes_of width (n / 256)) (n % 256 ∷ []),
  length-bytes_of width (n / 256),
)

-- A number that fits its bytes is read back.
pub addr_of-bytes_of : (width n : ℕ) → n < 256 ^ width → addr_of (bytes_of width n) 0 ≡ n
unfolding bytes_of
addr_of-bytes_of zero n h = unfold addr_of in omega arith
addr_of-bytes_of (suc width) n h =
    let less : n < 256 ^ width * 256 = rw pow-suc at h in
    addr_of-snoc (bytes_of width (n / 256)) (n % 256) 0
    ∙ omega (arith, addr_of-bytes_of width (n / 256) (omega arith))

-- What stands at a place behind `xs` in memory.
get_or-append : (xs ys : List ℕ) (i : ℕ) → memory_of (xs ++ ys) (length xs + i) ≡ memory_of ys i
get_or-append [] ys i = ap (λ j. get_or ys j 0) (omega arith)
get_or-append (x ∷ xs) ys i =
    let e : suc (length xs) + i ≡ suc (length xs + i) = omega arith in rw e (get_or-append xs ys i)

read_bytes-append :
    (xs ys : List ℕ) (i n : ℕ)
    → read_bytes (memory_of (xs ++ ys)) (length xs + i) n ≡ read_bytes (memory_of ys) i n
read_bytes-append [] ys i n = ap (λ j. read_bytes (memory_of ys) j n) (omega arith)
read_bytes-append (x ∷ xs) ys i n =
    let e : suc (length xs) + i ≡ suc (length xs + i) = omega arith in
    rw e (read_bytes-suc x (xs ++ ys) (length xs + i) n ∙ read_bytes-append xs ys i n)

-- The byte at the start of what stands behind `xs`, and at an offset from there.
pub byte_at : (xs ys : List ℕ) → memory_of (xs ++ ys) (length xs) ≡ memory_of ys 0
byte_at xs ys =
    let e : length xs ≡ length xs + 0 = omega arith in
    ap (memory_of (xs ++ ys)) e ∙ get_or-append xs ys 0

pub byte_behind : (xs ys : List ℕ) (i : ℕ) → memory_of (xs ++ ys) (length xs + i) ≡ memory_of ys i
byte_behind xs ys i = get_or-append xs ys i

-- An address that is laid out behind `head`, which stands behind `xs`, is read back.
pub addr_behind :
    (xs head rest : List ℕ) (a : Addr)
    → a < 256 ^ 16
    → read_addr (memory_of (xs ++ (head ++ (bytes_of 16 a ++ rest)))) (length xs + length head) ≡ a
unfolding read_addr
addr_behind xs head rest a h =
    ap (λ bytes. addr_of bytes 0)
      (read_bytes-append xs (head ++ (bytes_of 16 a ++ rest)) (length head) 16
        ∙ rw (length-bytes_of 16 a) at (read_bytes-memory_of head (bytes_of 16 a) rest))
    ∙ addr_of-bytes_of 16 a h
