-- ===== src/Fifo/Split.antt =====
-- How the parts of a message that `verify_hmac` takes apart make up the message.
use rpld_hymrpl.Prelude.{
  ℕ, zero, suc, ◌+◌, ◌≡◌, ◌⊎◌, inl, inr, refl, ap, ◌∙◌, sym, ◌||◌, some, List, [], ◌∷◌, ◌++◌, arith,
  ◌==◌, take, drop, Each, Option-cases, Bool-cases,
}
use rpld_hymrpl.Text.{strchr}
use rpld_hymrpl.Fifo.{Parts, strip_newlines, split_at, split_message}

abbrev pub IsNewline : ℕ → Type 0
IsNewline c = (c ≡ 10) ⊎ (c ≡ 13)

-- A text is what stands before a character, the character, and what stands behind it.
strchr-splits :
    (s : List ℕ) (c : ℕ) {i : ℕ} → strchr s c ≡ some i → s ≡ take i s ++ (c ∷ drop (i + 1) s)
unfolding strchr
strchr-splits [] c e = absurd (cc)
strchr-splits (x ∷ s) c {i} e = elim (Bool-cases (x == 0)) [
  | inl nul ↦ absurd (ground (arith, nul))
  | inr text ↦ elim (Bool-cases (x == c)) [
    | inl here ↦
        let at_start : i ≡ 0 = ground (arith, text, here) in
        let same : x ≡ c = ground (arith, here) in rw at_start (ap (λ y. y ∷ s) same)
    | inr later ↦ elim (Option-cases (strchr s c)) [
      | inl fails ↦ absurd (ground (arith, text, later, fails))
      | inr (j, found) ↦
          let behind : i ≡ suc j = ground (arith, text, later, found) in
          let shift : suc j + 1 ≡ suc (j + 1) = omega arith in
          rw (behind, shift) (ap (λ r. x ∷ r) (strchr-splits s c found))
    ]
  ]
]

drop-nil : (n : ℕ) → drop {A = ℕ} n [] ≡ []
drop-nil zero = refl
drop-nil (suc n) = refl

drop-drop : (m n : ℕ) (s : List ℕ) → drop n (drop m s) ≡ drop (m + n) s
drop-drop zero n s = ap (λ k. drop k s) (omega arith)
drop-drop (suc m) n [] = drop-nil n ∙ sym (drop-nil (suc m + n))
drop-drop (suc m) n (x ∷ s) =
    let shift : suc m + n ≡ suc (m + n) = omega arith in rw shift (drop-drop m n s)

strip_newlines_cons :
    (x : ℕ) (s r tail : List ℕ)
    → strip_newlines s ≡ r
    → s ≡ r ++ tail
    → Each IsNewline tail
    → (tail' : List ℕ) × (x ∷ s ≡ strip_newlines (x ∷ s) ++ tail') × Each IsNewline tail'
unfolding strip_newlines
strip_newlines_cons x s (y ∷ r) tail e splits ends = rw e (tail, ap (λ t. x ∷ t) splits, ends)
strip_newlines_cons x s [] tail e splits ends = elim (Bool-cases (x == 10 || x == 13)) [
  | inl newline ↦
      rw (e, newline) (x ∷ tail, ap (λ t. x ∷ t) splits, (ground (arith, newline), ends))
  | inr other ↦ rw (e, other) (tail, ap (λ t. x ∷ t) splits, ends)
]

-- What is stripped off the end are newlines.
strip_newlines-splits :
    (s : List ℕ) → (tail : List ℕ) × (s ≡ strip_newlines s ++ tail) × Each IsNewline tail
unfolding strip_newlines
strip_newlines-splits [] = ([], refl, tt)
strip_newlines-splits (x ∷ s) =
    let (tail, splits, ends) = strip_newlines-splits s in
    strip_newlines_cons x s (strip_newlines s) tail refl splits ends

split_at_parts :
    (p q : ℕ) (msg : List ℕ) {parts : Parts}
    → split_at p q msg ≡ some parts
    → (parts.cmd_part ≡ take p msg)
      × (parts.nonce_hex ≡ take q (drop (p + 1) msg))
      × (parts.hmac_hex ≡ strip_newlines (drop (p + 1 + q + 1) msg))
unfolding split_at
split_at_parts p q msg e = ground arith

-- The message is its three parts with a separator between two, and newlines at most behind them.
pub split_message-splits :
    (msg : List ℕ) {parts : Parts}
    → split_message msg ≡ some parts
    → (tail : List ℕ) × (msg
        ≡ parts.cmd_part ++ (b'|' ∷ parts.nonce_hex ++ (b'|' ∷ parts.hmac_hex ++ tail)))
      × Each IsNewline tail
unfolding split_message
split_message-splits msg {parts} e = elim (Option-cases (strchr msg b'|')) [
  | inl fails ↦ absurd (ground (arith, fails))
  | inr (p, found) ↦ elim (Option-cases (strchr (drop (p + 1) msg) b'|')) [
    | inl fails ↦ absurd (ground (arith, found, fails))
    | inr (q, found') ↦
        let taken : split_at p q msg ≡ some parts = rw (found, found', split_message) at e in
        let (cmd, nonce, hmac) = split_at_parts p q msg taken in
        let (tail, splits, ends) = strip_newlines-splits (drop (p + 1 + q + 1) msg) in
        let rest = drop (p + 1) msg in
        let behind : drop (q + 1) rest ≡ drop (p + 1 + q + 1) msg =
          drop-drop (p + 1) (q + 1) msg ∙ ap (λ k. drop k msg) (omega arith) in
        let rest_is : rest ≡ parts.nonce_hex ++ (b'|' ∷ parts.hmac_hex ++ tail) =
          strchr-splits rest b'|' found' ∙ λ i.
          sym nonce i ++ (b'|' ∷ (behind ∙ splits ∙ ap (λ h. h ++ tail) (sym hmac)) i) in
        (tail, strchr-splits msg b'|' found ∙ λ i. sym cmd i ++ (b'|' ∷ rest_is i), ends)
  ]
]
