-- ===== src/Prelude/Slices.antt =====
-- Cutting a list at a position: `take` and `drop` of a written list, and the last items of a list.
use Prim.Native.Nat.{ℕ, zero, suc, ◌+◌, ◌-◌, ◌≤◌, ◌<◌}
use mathlib.Core.Path.{◌≡◌, refl, ap, ◌∙◌}
use mathlib.Core.List.{List, [], ◌∷◌, ◌++◌}
use native.Mathlib.Omega.{arith}
use rpld_hymrpl.Prelude.Lists.{length, get_elem?, set, take, drop}

suc_plus : (m n : ℕ) → suc m + n ≡ suc (m + n)
suc_plus m n = omega arith

module _ {ℓ} {A : Type ℓ} where
  pub take-set :
      (i : ℕ) (xs : List A) (v : A)
      → i < length xs
      → take (suc i) (set xs i v) ≡ take i xs ++ v ∷ []
  take-set i [] v h = elim h [ ]
  take-set zero (x ∷ xs) v h = refl
  take-set (suc i) (x ∷ xs) v h = ap (λ ys. x ∷ ys) (take-set i xs v (omega arith))

  pub drop-set : (i : ℕ) (xs : List A) (v : A) → drop (suc i) (set xs i v) ≡ drop (suc i) xs
  drop-set i [] v = refl
  drop-set zero (x ∷ xs) v = refl
  drop-set (suc i) (x ∷ xs) v = drop-set i xs v

  pub drop-drop_one : (i : ℕ) (xs : List A) → drop 1 (drop i xs) ≡ drop (suc i) xs
  drop-drop_one zero xs = refl
  drop-drop_one (suc i) [] = refl
  drop-drop_one (suc i) (x ∷ xs) = drop-drop_one i xs

  pub drop_one-append : (xs ys : List A) → 0 < length xs → drop 1 (xs ++ ys) ≡ drop 1 xs ++ ys
  drop_one-append [] ys h = elim h [ ]
  drop_one-append (x ∷ xs) ys h = refl

  pub drop_all : (n : ℕ) (xs : List A) → length xs ≤ n → drop n xs ≡ []
  drop_all zero [] h = refl
  drop_all zero (x ∷ xs) h = absurd (omega arith)
  drop_all (suc n) [] h = refl
  drop_all (suc n) (x ∷ xs) h = drop_all n xs (omega arith)

  pub take_all : (n : ℕ) (xs : List A) → length xs ≤ n → take n xs ≡ xs
  take_all zero [] h = refl
  take_all zero (x ∷ xs) h = absurd (omega arith)
  take_all (suc n) [] h = refl
  take_all (suc n) (x ∷ xs) h = ap (λ ys. x ∷ ys) (take_all n xs (omega arith))

  pub drop-append_le :
      (n : ℕ) (xs ys : List A) → n ≤ length xs → drop n (xs ++ ys) ≡ drop n xs ++ ys
  drop-append_le zero xs ys h = refl
  drop-append_le (suc n) [] ys h = absurd (omega arith)
  drop-append_le (suc n) (x ∷ xs) ys h = drop-append_le n xs ys (omega arith)

  pub take-append_le : (n : ℕ) (xs ys : List A) → n ≤ length xs → take n (xs ++ ys) ≡ take n xs
  take-append_le zero xs ys h = refl
  take-append_le (suc n) [] ys h = absurd (omega arith)
  take-append_le (suc n) (x ∷ xs) ys h = ap (λ zs. x ∷ zs) (take-append_le n xs ys (omega arith))

  pub get_elem?-behind :
      (xs ys : List A) (i : ℕ) → get_elem? (xs ++ ys) (length xs + i) ≡ get_elem? ys i
  get_elem?-behind [] ys i = ap (get_elem? ys) (omega arith)
  get_elem?-behind (x ∷ xs) ys i =
      ap (get_elem? (x ∷ (xs ++ ys))) (suc_plus (length xs) i) ∙ get_elem?-behind xs ys i

  pub take-append_ge : (xs ys : List A) (k : ℕ) → take (length xs + k) (xs ++ ys) ≡ xs ++ take k ys
  take-append_ge [] ys k = ap (λ m. take m ys) (omega arith)
  take-append_ge (x ∷ xs) ys k =
      ap (λ m. take m (x ∷ (xs ++ ys))) (suc_plus (length xs) k)
      ∙ ap (λ zs. x ∷ zs) (take-append_ge xs ys k)

  pub drop-append_ge : (xs ys : List A) (k : ℕ) → drop (length xs + k) (xs ++ ys) ≡ drop k ys
  drop-append_ge [] ys k = ap (λ m. drop m ys) (omega arith)
  drop-append_ge (x ∷ xs) ys k =
      ap (λ m. drop m (x ∷ (xs ++ ys))) (suc_plus (length xs) k) ∙ drop-append_ge xs ys k

  -- The last `n` items of a list, or all of it if it is shorter.
  abbrev pub last_items : ℕ → List A → List A
  last_items n xs = drop (length xs - n) xs

module _ {ℓ} {A : Type ℓ} where
  pub drop-ge : (m n : ℕ) (xs : List A) → m ≡ n → drop m xs ≡ drop n xs
  drop-ge m n xs e = ap (λ k. drop k xs) e
