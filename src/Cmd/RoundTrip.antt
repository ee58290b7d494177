-- ===== src/Cmd/RoundTrip.antt =====
-- The daemon accepts what the sender writes, and both read back the token that either generates.
use mathlib.Core.List.{append-nil, append_assoc}
use native.Mathlib.Nat.{pow-suc}
use rpld_hymrpl.Prelude.{
  ℕ, zero, suc, ◌+◌, ◌/◌, ◌%◌, ◌^◌, ◌<◌, ◌≡◌, refl, ap, ◌∙◌, some, List, [], ◌∷◌, ◌++◌, arith,
  length, length-append, take, drop, bit_or_nibble,
}
use rpld_hymrpl.Text.{strchr, contains, begins_with, print_hex, decode_hex, encode_hex, hex_digit}
use rpld_hymrpl.Text.Laws.{
  All, IsByte, IsDigit, print_hex-IsDigit, encode_hex-IsDigit, length-print_hex, length-encode_hex,
  strchr_digits, decode_hex-encode_hex, scan_hex_one, hex_digit-IsDigit, hex_value-hex_digit,
  take_append, drop_append,
}
use rpld_hymrpl.Dag.{NodeClass, class_s, class_n}
use rpld_hymrpl.Fifo.{
  FifoSec, Parts, strip_newlines, parse_nonce, parse_class, split_at, split_message, data_to_verify,
  parse_command, verify_parts, verify_hmac,
}
use rpld_hymrpl.Fifo.Verify.{class_name, difference_self}
use rpld_hymrpl.Cmd.{data_to_sign, message}

strip_newlines_digits : (xs : List ℕ) → All IsDigit xs → strip_newlines (xs ++ 10 ∷ []) ≡ xs
unfolding strip_newlines
strip_newlines_digits [] h = refl
strip_newlines_digits (x ∷ []) (hx, h) = ground arith
strip_newlines_digits (x ∷ y ∷ xs) (hx, h) =
    rw (strip_newlines_digits (y ∷ xs) h, strip_newlines) refl

parse_nonce_digit :
    (k n : ℕ) (s : List ℕ)
    → n < 2 ^ 64
    → parse_nonce (suc k) (hex_digit (n % 16) ∷ s) (n / 16) ≡ parse_nonce k s n
unfolding parse_nonce
parse_nonce_digit k n s h = ground (
  arith,
  scan_hex_one (hex_digit (n % 16)) s (hex_digit-IsDigit (n % 16) (omega arith)),
  hex_value-hex_digit (n % 16) (omega arith),
  bit_or_nibble (n / 16) (n % 16) (omega arith),
)

-- The printed nonce is read back digit by digit.
parse_nonce-print_hex :
    (width k m n : ℕ) (s : List ℕ)
    → m ≡ width + k
    → n < 16 ^ width
    → n < 2 ^ 64
    → parse_nonce m (print_hex width n ++ s) 0 ≡ parse_nonce k s n
unfolding print_hex
parse_nonce-print_hex zero k m n s e h l =
    let e' : m ≡ k = omega arith in let z : n ≡ 0 = omega arith in rw (e', z) refl
parse_nonce-print_hex (suc width) k m n s e h l =
    rw (append_assoc (print_hex width (n / 16)) (hex_digit (n % 16) ∷ []) s) (
      parse_nonce-print_hex width (suc k) m (n / 16) (hex_digit (n % 16) ∷ s) (omega arith)
        (omega (arith, pow-suc 16 width)) (omega arith)
      ∙ parse_nonce_digit k n s l)

parse_class-class_name : (c : NodeClass) → parse_class (class_name c) ≡ some c
unfolding parse_class contains begins_with
parse_class-class_name class_s = refl
parse_class-class_name class_n = refl

-- A message is cut by what stands behind its first separator.
split_message_cut :
    (c : NodeClass) (t : List ℕ) {nonce_hex hmac_hex : List ℕ}
    → strchr t b'|' ≡ some 16
    → take 16 t ≡ nonce_hex
    → strip_newlines (drop 17 t) ≡ hmac_hex
    → length hmac_hex ≡ 64
    → split_message (class_name c ++ (b'|' ∷ t))
      ≡ some (record { cmd_part = class_name c; nonce_hex = nonce_hex; hmac_hex = hmac_hex })
unfolding split_message split_at strchr
split_message_cut class_s t found nonce_eq hmac_eq len =
    rw (found, hmac_eq, nonce_eq) (ground arith)
split_message_cut class_n t found nonce_eq hmac_eq len =
    rw (found, hmac_eq, nonce_eq) (ground arith)

module _ (nonce : ℕ) (digest : List ℕ) (len : length digest ≡ 32) where
  -- What stands behind the first separator, and its parts.
  abbrev tail_text : List ℕ
  tail_text = print_hex 16 nonce ++ (b'|' ∷ encode_hex digest ++ 10 ∷ [])

  strchr-tail_text : strchr tail_text b'|' ≡ some 16
  strchr-tail_text =
      strchr_digits (print_hex 16 nonce) (encode_hex digest ++ 10 ∷ []) (print_hex-IsDigit 16 nonce)
      ∙ ap some (length-print_hex 16 nonce)

  take-tail_text : take 16 tail_text ≡ print_hex 16 nonce
  take-tail_text =
      rw (length-print_hex 16 nonce) at
        (take_append (print_hex 16 nonce) (b'|' ∷ encode_hex digest ++ 10 ∷ []))

  drop-tail_text : drop 17 tail_text ≡ encode_hex digest ++ 10 ∷ []
  drop-tail_text =
      let head : List ℕ = print_hex 16 nonce ++ b'|' ∷ [] in
      let e : length head ≡ 17 =
        omega (arith, length-append (print_hex 16 nonce) (b'|' ∷ []), length-print_hex 16 nonce) in
      rw (e, append_assoc (print_hex 16 nonce) (b'|' ∷ []) (encode_hex digest ++ 10 ∷ [])) at
        (drop_append head (encode_hex digest ++ 10 ∷ []))

  split_message-tail_text :
      (c : NodeClass)
      → split_message (class_name c ++ (b'|' ∷ tail_text))
        ≡ some (record {
          cmd_part = class_name c;
          nonce_hex = print_hex 16 nonce;
          hmac_hex = encode_hex digest;
        })
  split_message-tail_text c =
      split_message_cut c tail_text strchr-tail_text take-tail_text
        (ap strip_newlines drop-tail_text
          ∙ strip_newlines_digits (encode_hex digest) (encode_hex-IsDigit digest))
        (omega (arith, length-encode_hex digest))

nonce_read : (nonce : ℕ) → nonce < 2 ^ 64 → parse_nonce 16 (print_hex 16 nonce) 0 ≡ some nonce
nonce_read nonce h =
    rw append-nil at (parse_nonce-print_hex 16 0 16 nonce [] (omega arith) (omega arith) h)
    ∙ unfold parse_nonce in refl

parse_command-printed :
    (c : NodeClass) (nonce : ℕ) (hmac_hex : List ℕ)
    → nonce < 2 ^ 64
    → parse_command
        (record { cmd_part = class_name c; nonce_hex = print_hex 16 nonce; hmac_hex = hmac_hex })
      ≡ some (c, nonce)
unfolding parse_command
parse_command-printed c nonce hmac_hex h =
    ground (arith, nonce_read nonce h, parse_class-class_name c)

decode_hex_digest :
    (digest : List ℕ)
    → length digest ≡ 32
    → All IsByte digest
    → decode_hex 32 (encode_hex digest) ≡ some digest
decode_hex_digest digest len bytes = rw (append-nil, len) at (decode_hex-encode_hex digest [] bytes)

verify_hmac_split :
    (hmac : List ℕ → List ℕ → List ℕ) (sec : FifoSec) (msg : List ℕ) (parts : Parts)
    → split_message msg ≡ some parts
    → decode_hex 32 parts.hmac_hex ≡ some (hmac sec.token (data_to_verify parts))
    → verify_hmac hmac sec msg ≡ parse_command parts
unfolding verify_hmac verify_parts
verify_hmac_split hmac sec msg parts e d =
    ground (arith, difference_self (hmac sec.token (data_to_verify parts)))

module _ (hmac : List ℕ → List ℕ → List ℕ)
    (digest_len : (key text : List ℕ) → length (hmac key text) ≡ 32)
    (digest_bytes : (key text : List ℕ) → All IsByte (hmac key text)) where
  -- A command signed by the sender with the daemon's token is accepted, as the class and the nonce
  -- that were signed. The digest has 32 bytes and the nonce 64 bits.
  pub verify_hmac-message :
      (sec : FifoSec) (c : NodeClass) (nonce : ℕ)
      → nonce < 2 ^ 64
      → verify_hmac hmac sec (message hmac sec.token (class_name c) nonce) ≡ some (c, nonce)
  unfolding message data_to_sign
  verify_hmac-message sec c nonce h =
      let text = class_name c ++ (b'|' ∷ print_hex 16 nonce) in
      verify_hmac_split hmac sec _ _
        (split_message-tail_text nonce (hmac sec.token text) (digest_len sec.token text) c)
        (decode_hex_digest (hmac sec.token text) (digest_len sec.token text)
          (digest_bytes sec.token text))
      ∙ parse_command-printed c nonce (encode_hex (hmac sec.token text)) h
