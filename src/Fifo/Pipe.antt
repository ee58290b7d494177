-- ===== src/Fifo/Pipe.antt =====
-- The named pipe between sender and daemon: what one `read` of `hymrpl_fifo_sec_check` gets of it.
pub mod Lost
use mathlib.Core.List.{append_assoc}
use rpld_hymrpl.Prelude.{
  ℕ, zero, suc, ◌<◌, ◌≡◌, refl, ap, ◌∙◌, true, false, ◌||◌, ◌==◌, Option, none, some, List, [], ◌∷◌,
  ◌++◌, arith, length, length-append, length-drop, take, drop, get_elem?, get_elem?-behind,
  take-append_ge, drop-append_ge, drop-append_le, drop_all, take_all,
}
use rpld_hymrpl.Text.{strchr, print_hex, encode_hex}
use rpld_hymrpl.Text.Laws.{
  All, IsDigit, length-print_hex, length-encode_hex, encode_hex-IsDigit, print_hex-IsDigit,
  strchr_digits,
}
use rpld_hymrpl.Dag.{NodeClass, class_s, class_n, Time, Iface}
use rpld_hymrpl.Fifo.{
  FifoSec, strip_newlines, split_at, split_message, verify_hmac, authenticate, fifo_sec_check,
  Checked,
}
use rpld_hymrpl.Fifo.Verify.{class_name}
use rpld_hymrpl.Cmd.{data_to_sign, message}

-- `HYMRPL_FIFO_MSG_MAX - 1`
abbrev pub read_size : ℕ
read_size = 127

-- `read(fifo_fd, buf, sizeof(buf) - 1)` on a pipe: as many of its bytes as there are, up to the size.
-- An empty pipe, with writers or without, gives a result that is not positive. Second, what stays.
unfoldable pub read_fifo : List ℕ → Option (List ℕ) × List ℕ
read_fifo [] = (none, [])
read_fifo (x ∷ pipe) = (some (take read_size (x ∷ pipe)), drop read_size (x ∷ pipe))

-- A poll of the pipe, with what stays in it.
abbrev pub poll_pipe :
    (List ℕ → List ℕ → List ℕ) → Time → List ℕ → FifoSec → List Iface → Checked × List ℕ
poll_pipe hmac now pipe sec ifaces =
    let (input, pipe') = read_fifo pipe in (fifo_sec_check hmac now true input sec ifaces, pipe')

pub length-class_name : (c : NodeClass) → length (class_name c) ≡ 7
length-class_name class_s = refl
length-class_name class_n = refl

pub read_fifo-some :
    (pipe : List ℕ) → 0 < length pipe → read_fifo pipe ≡ (some (take 127 pipe), drop 127 pipe)
unfolding read_fifo
read_fifo-some [] h = absurd (omega arith)
read_fifo-some (x ∷ pipe) h = refl

module _ (hmac : List ℕ → List ℕ → List ℕ)
    (digest_len : (key text : List ℕ) → length (hmac key text) ≡ 32) where
  -- What the sender writes has ninety bytes.
  pub length-message :
      (key : List ℕ) (c : NodeClass) (nonce : ℕ)
      → length (message hmac key (class_name c) nonce) ≡ 90
  unfolding message
  length-message key c nonce =
      let digest = hmac key (data_to_sign (class_name c) nonce) in
      let printed = print_hex 16 nonce in
      omega (
        arith,
        length-append (class_name c) (b'|' ∷ printed ++ (b'|' ∷ encode_hex digest ++ 10 ∷ [])),
        length-append printed (b'|' ∷ encode_hex digest ++ 10 ∷ []),
        length-append (encode_hex digest) (10 ∷ []),
        length-class_name c,
        length-print_hex 16 nonce,
        length-encode_hex digest,
        digest_len key (data_to_sign (class_name c) nonce),
      )
