-- ===== src/Prelude/Items.antt =====
-- A predicate of all items of a list, under reads, writes and maps.
use Prim.Native.Nat.{ℕ, zero, suc}
use mathlib.Core.List.{List, [], ◌∷◌, map}
use mathlib.Core.Option.{Option, none, some}
use rpld_hymrpl.Prelude.Lists.{get_elem?, set}

abbrev pub Each {ℓ} : {A : Type ℓ} → (A → Type 0) → List A → Type 0
Each P [] = Unit {0}
Each P (x ∷ xs) = P x × Each P xs

-- A predicate of what there is, if there is anything.
abbrev pub Maybe {ℓ} : {A : Type ℓ} → (A → Type 0) → Option A → Type 0
Maybe P none = Unit {0}
Maybe P (some x) = P x

module _ {ℓ} {A : Type ℓ} (P : A → Type 0) where
  pub Each-get : (xs : List A) (i : ℕ) → Each P xs → Maybe P (get_elem? xs i)
  Each-get [] i h = tt
  Each-get (x ∷ xs) zero h = h.0
  Each-get (x ∷ xs) (suc i) h = Each-get xs i h.1

  pub Each-set : (xs : List A) (i : ℕ) {v : A} → Each P xs → P v → Each P (set xs i v)
  Each-set [] i h p = tt
  Each-set (x ∷ xs) zero h p = (p, h.1)
  Each-set (x ∷ xs) (suc i) h p = (h.0, Each-set xs i h.1 p)

pub Each-map {ℓ ℓ'} :
    {A : Type ℓ} {B : Type ℓ'} (P : A → Type 0) (Q : B → Type 0) (f : A → B)
    → ((x : A) → P x → Q (f x))
    → (xs : List A) → Each P xs
    → Each Q (map f xs)
Each-map P Q f step [] h = tt
Each-map P Q f step (x ∷ xs) h = (step x h.0, Each-map P Q f step xs h.1)

pub Each-imp {ℓ} :
    {A : Type ℓ} (P Q : A → Type 0) → ((x : A) → P x → Q x) → (xs : List A) → Each P xs → Each Q xs
Each-imp P Q step [] h = tt
Each-imp P Q step (x ∷ xs) h = (step x h.0, Each-imp P Q step xs h.1)
