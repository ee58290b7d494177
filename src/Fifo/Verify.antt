-- ===== src/Fifo/Verify.antt =====
-- What an accepted message is: well formed, with the digest that the shared token gives.
use rpld_hymrpl.Prelude.{
  ℕ, zero, suc, ◌+◌, ◌<◌, ◌≡◌, inl, inr, refl, ap₂, true, false, some, List, [], ◌∷◌, ◌++◌, arith,
  Each, Option-cases, length, length-take, drop, bit_or, bit_xor, bit_or_zero, bit_xor_zero,
  bit_xor_self,
}
use rpld_hymrpl.Text.{codes, strchr, contains, begins_with, scan_hex, decode_hex}
use rpld_hymrpl.Dag.{NodeClass, class_s, class_n}
use rpld_hymrpl.Fifo.Split.{IsNewline, split_message-splits}
use rpld_hymrpl.Fifo.{
  FifoSec, nonce_len, Parts, difference, parse_nonce, parse_class, split_at, split_message,
  data_to_verify, parse_command, verify_parts, verify_hmac,
}

-- The text of the command for a class.
abbrev pub class_name : NodeClass → List ℕ
class_name class_s = codes "CLASS_S"
class_name class_n = codes "CLASS_N"

-- The accumulated difference is 0 only for equal digests, and the accumulator was 0.
difference_zero :
    (diff : ℕ) (e r : List ℕ) → length e ≡ length r → difference diff e r ≡ 0 → (diff ≡ 0) × (e ≡ r)
unfolding difference
difference_zero diff [] [] h d = (d, refl)
difference_zero diff [] (y ∷ r) h d = absurd (omega arith)
difference_zero diff (x ∷ e) [] h d = absurd (omega arith)
difference_zero diff (x ∷ e) (y ∷ r) h d =
    let (acc, rest) = difference_zero (bit_or diff (bit_xor x y)) e r (omega arith) d in
    let (diff_zero, xor_zero) = bit_or_zero diff (bit_xor x y) acc in
    (diff_zero, ap₂ ◌∷◌ (bit_xor_zero x y xor_zero) rest)

pub difference_self : (e : List ℕ) → difference 0 e e ≡ 0
unfolding difference
difference_self [] = refl
difference_self (x ∷ e) = rw (bit_xor_self x) (difference_self e)

pub length-decode_hex :
    (n : ℕ) (s : List ℕ) {bytes : List ℕ} → decode_hex n s ≡ some bytes → length bytes ≡ n
unfolding decode_hex
length-decode_hex zero s e = ground arith
length-decode_hex (suc n) s {bytes} e = elim (Option-cases (scan_hex 2 s)) [
  | inl fails ↦ ground (arith, fails)
  | inr (byte, scanned) ↦ elim (Option-cases (decode_hex n (drop 2 s))) [
    | inl fails ↦ ground (arith, scanned, fails)
    | inr (rest, decoded) ↦ ground (arith, scanned, decoded, length-decode_hex n (drop 2 s) decoded)
  ]
]

begins_with-eq : (p s : List ℕ) → length p ≡ length s → begins_with p s ≡ true → s ≡ p
unfolding begins_with
begins_with-eq [] [] h e = refl
begins_with-eq [] (x ∷ s) h e = absurd (omega arith)
begins_with-eq (c ∷ p) [] h e = absurd (omega arith)
begins_with-eq (c ∷ p) (x ∷ s) h e = ground (arith, begins_with-eq p s)

begins_with-short : (p s : List ℕ) → length s < length p → begins_with p s ≡ false
unfolding begins_with
begins_with-short [] s h = absurd (omega arith)
begins_with-short (c ∷ p) [] h = refl
begins_with-short (c ∷ p) (x ∷ s) h = ground (arith, begins_with-short p s)

contains-short : (p s : List ℕ) → length s < length p → contains p s ≡ false
unfolding contains
contains-short p [] h = begins_with-short p [] h
contains-short p (x ∷ s) h = ground (arith, begins_with-short p (x ∷ s), contains-short p s)

-- A text as long as the one looked for contains it only if it is that text.
contains-eq : (p s : List ℕ) → length p ≡ length s → contains p s ≡ true → s ≡ p
unfolding contains
contains-eq p [] h e = begins_with-eq p [] h e
contains-eq p (x ∷ s) h e = ground (arith, begins_with-eq p (x ∷ s), contains-short p s)

pub parse_class-eq :
    (text : List ℕ) {c : NodeClass}
    → length text ≡ 7
    → parse_class text ≡ some c
    → text ≡ class_name c
unfolding parse_class
parse_class-eq text {c = class_s} h e = ground (arith, contains-eq (class_name class_s) text)
parse_class-eq text {c = class_n} h e = ground (arith, contains-eq (class_name class_n) text)

strchr-lt : (s : List ℕ) (c : ℕ) {i : ℕ} → strchr s c ≡ some i → i < length s
unfolding strchr
strchr-lt [] c e = cc
strchr-lt (x ∷ s) c {i} e = elim (Option-cases (strchr s c)) [
  | inl fails ↦ ground (arith, fails)
  | inr (j, found) ↦ ground (arith, found, strchr-lt s c found)
]

-- The parts of a message have the lengths of the format.
split_message-lengths :
    (msg : List ℕ) {parts : Parts}
    → split_message msg ≡ some parts
    → (length parts.cmd_part ≡ 7) × (length parts.nonce_hex ≡ 16) × (length parts.hmac_hex ≡ 64)
unfolding split_message split_at
split_message-lengths msg {parts} e = elim (Option-cases (strchr msg b'|')) [
  | inl fails ↦ ground (arith, fails)
  | inr (p, found) ↦ elim (Option-cases (strchr (drop (p + 1) msg) b'|')) [
    | inl fails ↦ ground (arith, found, fails)
    | inr (q, found') ↦ ground (
      arith,
      found,
      found',
      strchr-lt msg b'|' found,
      strchr-lt (drop (p + 1) msg) b'|' found',
      length-take p msg,
      length-take q (drop (p + 1) msg),
    )
  ]
]

-- What an accepted message is, byte for byte, and what its digest is.
pub record Authentic (hmac : List ℕ → List ℕ → List ℕ) (token msg : List ℕ) (new_class : NodeClass)
    (nonce : ℕ) : Type 0 where
  pub nonce_hex : List ℕ
  pub hmac_hex : List ℕ
  pub tail : List ℕ
  pub message_is : msg ≡ class_name new_class ++ (b'|' ∷ nonce_hex ++ (b'|' ∷ hmac_hex ++ tail))
  pub newlines : Each IsNewline tail
  pub nonce_chars : length nonce_hex ≡ 16
  pub hmac_chars : length hmac_hex ≡ 64
  pub nonce_value : parse_nonce 16 nonce_hex 0 ≡ some nonce
  pub digest :
      decode_hex 32 hmac_hex ≡ some (hmac token (class_name new_class ++ (b'|' ∷ nonce_hex)))

module _ (hmac : List ℕ → List ℕ → List ℕ)
    (digest_len : (key text : List ℕ) → length (hmac key text) ≡ 32) where
  verify_parts_inv :
      (token : List ℕ) (parts : Parts) {out : NodeClass × ℕ}
      → verify_parts hmac token parts ≡ some out
      → (decode_hex 32 parts.hmac_hex ≡ some (hmac token (data_to_verify parts)))
        × (parse_command parts ≡ some out)
  unfolding verify_parts
  verify_parts_inv token parts e = elim (Option-cases (decode_hex 32 parts.hmac_hex)) [
    | inl fails ↦ ground (arith, fails)
    | inr (received, decoded) ↦ ground (
      arith,
      decoded,
      digest_len token (data_to_verify parts),
      length-decode_hex 32 parts.hmac_hex decoded,
      difference_zero 0 (hmac token (data_to_verify parts)) received,
    )
  ]

  parse_command_inv :
      (parts : Parts) {new_class : NodeClass} {nonce : ℕ}
      → parse_command parts ≡ some (new_class, nonce)
      → (parse_nonce 16 parts.nonce_hex 0 ≡ some nonce)
        × (parse_class parts.cmd_part ≡ some new_class)
  unfolding parse_command
  parse_command_inv parts e = elim (Option-cases (parse_nonce 16 parts.nonce_hex 0)) [
    | inl fails ↦ ground (arith, fails)
    | inr (n, read) ↦ elim (Option-cases (parse_class parts.cmd_part)) [
      | inl fails ↦ ground (arith, read, fails)
      | inr (c, named) ↦ ground (arith, read, named)
    ]
  ]

  -- A message that `verify_hmac` accepts is the text of the class, a separator, 16 characters that
  -- read as the nonce, a separator, and 64 characters, with nothing behind them but newlines and
  -- carriage returns; the 64 characters decode to the HMAC under the shared token of the text of the
  -- class, a separator and the 16 characters. The digest is taken to have 32 bytes.
  pub verify_hmac_sound :
      (sec : FifoSec) (msg : List ℕ) (new_class : NodeClass) (nonce : ℕ)
      → verify_hmac hmac sec msg ≡ some (new_class, nonce)
      → Authentic hmac sec.token msg new_class nonce
  unfolding verify_hmac
  verify_hmac_sound sec msg new_class nonce e = elim (Option-cases (split_message msg)) [
    | inl fails ↦ ground (arith, fails)
    | inr (parts, splits) ↦
        let (digest, command) =
          verify_parts_inv sec.token parts {out = (new_class, nonce)}
            (rw (splits, verify_hmac) at e) in
        let (nonce_read, class_read) = parse_command_inv parts command in
        let (cmd_len, nonce_len, hmac_len) = split_message-lengths msg splits in
        let named = parse_class-eq parts.cmd_part cmd_len class_read in
        let (tail, message, newlines) = split_message-splits msg splits in
        record {
          nonce_hex = parts.nonce_hex;
          hmac_hex = parts.hmac_hex;
          tail = tail;
          message_is = rw named at message;
          newlines = newlines;
          nonce_chars = nonce_len;
          hmac_chars = hmac_len;
          nonce_value = nonce_read;
          digest = rw (← named) digest;
        }
  ]
