-- ===== src/Fifo/Pipe/Lost.antt =====
-- Two commands that are written to the FIFO between two polls.
-- what becomes of two commands that are written between two polls.
use mathlib.Core.List.{append_assoc}
use rpld_hymrpl.Prelude.{
  ℕ, zero, suc, ◌<◌, ◌≡◌, refl, ap, ◌∙◌, true, false, ◌||◌, ◌==◌, none, some, List, [], ◌∷◌, ◌++◌,
  arith, length, length-append, length-drop, take, drop, get_elem?, get_elem?-behind,
  take-append_ge, drop-append_ge, drop-append_le, drop_all, take_all,
}
use rpld_hymrpl.Text.{strchr, print_hex, encode_hex}
use rpld_hymrpl.Text.Laws.{
  All, IsDigit, length-print_hex, length-encode_hex, encode_hex-IsDigit, print_hex-IsDigit,
  strchr_digits,
}
use rpld_hymrpl.Dag.{NodeClass, class_s, class_n, Time, Iface}
use rpld_hymrpl.Fifo.{
  FifoSec, strip_newlines, split_at, split_message, verify_hmac, authenticate, fifo_sec_check,
}
use rpld_hymrpl.Fifo.Pipe.{poll_pipe, read_fifo-some, length-message}
use rpld_hymrpl.Fifo.Verify.{class_name}
use rpld_hymrpl.Cmd.{data_to_sign, message}

-- Newlines are taken off the end only: what stands before another character stays.
strip_newlines_keeps :
    (s : List ℕ) (i x : ℕ)
    → get_elem? s i ≡ some x
    → (x == 10 || x == 13) ≡ false
    → i < length (strip_newlines s)
unfolding strip_newlines
strip_newlines_keeps [] i x e h = absurd (ground arith)
strip_newlines_keeps (y ∷ s) zero x e h = ground arith
strip_newlines_keeps (y ∷ s) (suc i) x e h = ground (arith, strip_newlines_keeps s i x e h)

drop-All : (P : ℕ → Type 0) (n : ℕ) (xs : List ℕ) → All P xs → All P (drop n xs)
drop-All P zero xs h = h
drop-All P (suc n) [] h = h
drop-All P (suc n) (x ∷ xs) h = drop-All P n xs h.1

strchr_absent : (xs : List ℕ) → All IsDigit xs → strchr (xs ++ 10 ∷ []) b'|' ≡ none
unfolding strchr
strchr_absent [] h = refl
strchr_absent (x ∷ xs) (hx, h) = ground (arith, strchr_absent xs h)

-- A message whose last part is too long when cut is refused.
split_message_refuses :
    (c : NodeClass) (t : List ℕ)
    → strchr t b'|' ≡ some 16
    → 64 < length (strip_newlines (drop 17 t))
    → split_message (class_name c ++ (b'|' ∷ t)) ≡ none
unfolding split_message split_at strchr
split_message_refuses class_s t found long = rw found (ground arith)
split_message_refuses class_n t found long = rw found (ground arith)

-- What the sender writes behind the command, for any digest, with what else stands in the pipe.
abbrev signed_tail : ℕ → List ℕ → List ℕ → List ℕ
signed_tail nonce digest rest = print_hex 16 nonce ++ (b'|' ∷ (encode_hex digest ++ (10 ∷ rest)))

module _ (nonce : ℕ) (digest rest : List ℕ) (len : length digest ≡ 32) where
  strchr-signed_tail : strchr (signed_tail nonce digest rest) b'|' ≡ some 16
  strchr-signed_tail =
      strchr_digits (print_hex 16 nonce) (encode_hex digest ++ (10 ∷ rest))
        (print_hex-IsDigit 16 nonce)
      ∙ ap some (length-print_hex 16 nonce)

  drop-signed_tail : drop 17 (signed_tail nonce digest rest) ≡ encode_hex digest ++ (10 ∷ rest)
  drop-signed_tail =
      rw (length-print_hex 16 nonce) at
        (drop-append_ge (print_hex 16 nonce) (b'|' ∷ (encode_hex digest ++ (10 ∷ rest))) 1)

  signed_tail-long :
      (y : ℕ) (ys : List ℕ)
      → rest ≡ y ∷ ys
      → (y == 10 || y == 13) ≡ false
      → 64 < length (strip_newlines (drop 17 (signed_tail nonce digest rest)))
  signed_tail-long y ys e other =
      let whole = encode_hex digest ++ (10 ∷ rest) in
      let size : length (encode_hex digest) ≡ 64 = omega (arith, length-encode_hex digest, len) in
      let at_place : get_elem? whole 65 ≡ some y =
        rw size at (get_elem?-behind (encode_hex digest) (10 ∷ rest) 1)
        ∙ ap (λ r. get_elem? r 0) e in
      let kept = strip_newlines_keeps whole 65 y at_place other in
      rw drop-signed_tail (omega (arith, kept))

module _ (hmac : List ℕ → List ℕ → List ℕ)
    (digest_len : (key text : List ℕ) → length (hmac key text) ≡ 32) where
  message-signed_tail :
      (key : List ℕ) (c : NodeClass) (nonce : ℕ) (rest : List ℕ)
      → message hmac key (class_name c) nonce ++ rest
        ≡ class_name c
          ++ (b'|' ∷ signed_tail nonce (hmac key (data_to_sign (class_name c) nonce)) rest)
  unfolding message
  message-signed_tail key c nonce rest =
      let hex = encode_hex (hmac key (data_to_sign (class_name c) nonce)) in
      let printed = print_hex 16 nonce in
      append_assoc (class_name c) (b'|' ∷ printed ++ (b'|' ∷ hex ++ 10 ∷ [])) rest
      ∙ ap (λ t. class_name c ++ (b'|' ∷ t))
          (append_assoc printed (b'|' ∷ hex ++ 10 ∷ []) rest
            ∙ ap (λ t. printed ++ (b'|' ∷ t)) (append_assoc hex (10 ∷ []) rest))

  verify_hmac-message_behind :
      (sec : FifoSec) (key : List ℕ) (c : NodeClass) (nonce y : ℕ) (ys : List ℕ)
      → (y == 10 || y == 13) ≡ false
      → verify_hmac hmac sec (message hmac key (class_name c) nonce ++ (y ∷ ys)) ≡ none
  unfolding verify_hmac
  verify_hmac-message_behind sec key c nonce y ys other =
      let digest = hmac key (data_to_sign (class_name c) nonce) in
      let refused =
        split_message_refuses c (signed_tail nonce digest (y ∷ ys))
          (strchr-signed_tail nonce digest (y ∷ ys) (digest_len _ _))
          (signed_tail-long nonce digest (y ∷ ys) (digest_len _ _) y ys refl other) in
      rw (message-signed_tail key c nonce (y ∷ ys), verify_hmac, refused) refl

  fifo_sec_check-refused :
      (now : Time) (sec : FifoSec) (ifaces : List Iface) (buf : List ℕ)
      → sec.token_loaded ≡ true
      → verify_hmac hmac (record sec { fifo_open = true }) buf ≡ none
      → fifo_sec_check hmac now true (some buf) sec ifaces
        ≡ record { sec = record sec { fifo_open = true }; ifaces = ifaces; result = none }
  unfolding fifo_sec_check authenticate
  fifo_sec_check-refused now sec ifaces buf loaded refused = ground arith

  message_head :
      (key : List ℕ) (c : NodeClass) (nonce : ℕ)
      → let msg = message hmac key (class_name c) nonce in take 37 msg ≡ 67 ∷ take 36 (drop 1 msg)
  unfolding message
  message_head key class_s nonce = refl
  message_head key class_n nonce = refl

  message_end :
      (key : List ℕ) (c : NodeClass) (nonce : ℕ)
      → drop 37 (message hmac key (class_name c) nonce)
        ≡ drop 29 (
            print_hex 16 nonce
            ++ (b'|' ∷ encode_hex (hmac key (data_to_sign (class_name c) nonce)) ++ 10 ∷ []))
  unfolding message
  message_end key class_s nonce = refl
  message_end key class_n nonce = refl

  -- The first read gets the first message and the beginning of the second.
  first_read :
      (key : List ℕ) (c c' : NodeClass) (nonce nonce' : ℕ)
      → let msg = message hmac key (class_name c) nonce in
        let msg' = message hmac key (class_name c') nonce' in
        (take 127 (msg ++ msg') ≡ msg ++ (67 ∷ take 36 (drop 1 msg')))
        × (drop 127 (msg ++ msg') ≡ drop 37 msg')
  unfolding message
  first_read key c c' nonce nonce' =
      let msg = message hmac key (class_name c) nonce in
      let msg' = message hmac key (class_name c') nonce' in
      let size = length-message hmac digest_len key c nonce in
      let taken : take 127 (msg ++ msg') ≡ msg ++ take 37 msg' =
        rw size at (take-append_ge msg msg' 37) in
      let dropped : drop 127 (msg ++ msg') ≡ drop 37 msg' =
        rw size at (drop-append_ge msg msg' 37) in
      (taken ∙ ap (λ t. msg ++ t) (message_head key c' nonce'), dropped)

  -- The second read gets the end of the second message, in which there is no separator.
  second_read :
      (sec : FifoSec) (key : List ℕ) (c : NodeClass) (nonce : ℕ)
      → verify_hmac hmac sec (drop 37 (message hmac key (class_name c) nonce)) ≡ none
  unfolding message verify_hmac split_message
  second_read sec key c nonce =
      let digest = hmac key (data_to_sign (class_name c) nonce) in
      let end : drop 37 (message hmac key (class_name c) nonce)
          ≡ drop 12 (encode_hex digest) ++ 10 ∷ [] =
        message_end key c nonce
        ∙ rw (length-print_hex 16 nonce) at
            (drop-append_ge (print_hex 16 nonce) (b'|' ∷ encode_hex digest ++ 10 ∷ []) 13)
        ∙ drop-append_le 12 (encode_hex digest) (10 ∷ []) (
            omega (
              arith,
              length-encode_hex digest,
              digest_len key (data_to_sign (class_name c) nonce),
            )) in
      let absent =
        strchr_absent (drop 12 (encode_hex digest))
          (drop-All IsDigit 12 (encode_hex digest) (encode_hex-IsDigit digest)) in
      rw (end, verify_hmac, split_message, absent) refl

  -- Two signed commands that are written to the FIFO between two polls are both lost, whatever
  -- their classes, nonces and key: the first poll reads the first command with a piece of the
  -- second and refuses it, the next one reads the rest and refuses it, and then the FIFO is empty.
  -- No class changes, and of the security state only that the FIFO is open. The digest has 32
  -- bytes, the token is loaded and the FIFO can be opened.
  pub two_commands_lost :
      (sec : FifoSec) (ifaces : List Iface) (key : List ℕ) (c c' : NodeClass) (nonce nonce' : ℕ)
      (now now' : Time)
      → sec.token_loaded ≡ true
      → let pipe =
          message hmac key (class_name c) nonce ++ message hmac key (class_name c') nonce' in
        let (r, pipe') = poll_pipe hmac now pipe sec ifaces in
        let (r', pipe'') = poll_pipe hmac now' pipe' r.sec r.ifaces in
        (r.result ≡ none)
        × (r'.result ≡ none)
        × (r'.ifaces ≡ ifaces)
        × (r'.sec ≡ record sec { fifo_open = true })
        × (pipe'' ≡ [])
  two_commands_lost sec ifaces key c c' nonce nonce' now now' loaded =
      let msg = message hmac key (class_name c) nonce in
      let msg' = message hmac key (class_name c') nonce' in
      let opened : FifoSec = record sec { fifo_open = true } in
      let (front, back) = first_read key c c' nonce nonce' in
      let size = length-message hmac digest_len key c nonce in
      let size' = length-message hmac digest_len key c' nonce' in
      let read = read_fifo-some (msg ++ msg') (omega (arith, length-append msg msg', size)) in
      let read' = read_fifo-some (drop 37 msg') (omega (arith, length-drop 37 msg', size')) in
      let refused =
        fifo_sec_check-refused now sec ifaces (msg ++ (67 ∷ take 36 (drop 1 msg'))) loaded
          (verify_hmac-message_behind opened key c nonce 67 (take 36 (drop 1 msg')) refl) in
      let all : take 127 (drop 37 msg') ≡ drop 37 msg' =
        take_all 127 (drop 37 msg') (omega (arith, length-drop 37 msg', size')) in
      let none_left : drop 127 (drop 37 msg') ≡ [] =
        drop_all 127 (drop 37 msg') (omega (arith, length-drop 37 msg', size')) in
      let refused' =
        fifo_sec_check-refused now' opened ifaces (drop 37 msg') loaded
          (second_read opened key c' nonce') in
      rw (read, front, back, refused, read', all, none_left, refused')
        (refl, refl, refl, refl, refl)
