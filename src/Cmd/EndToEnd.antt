-- ===== src/Cmd/EndToEnd.antt =====
-- From the generated token to the switched node: sender and daemon together.
use mathlib.Core.List.{append-nil}
use rpld_hymrpl.Prelude.{
  ℕ, ◌+◌, ◌^◌, ◌≤◌, ◌<◌, ◌≡◌, refl, ◌∙◌, Bool, true, ◌||◌, ◌⊎◌, inl, none, some, List, [], ◌∷◌,
  ◌++◌, arith, if◌then◌else◌, length, length-append, take,
}
use rpld_hymrpl.Text.{str_eq, encode_hex, decode_hex}
use rpld_hymrpl.Text.Laws.{All, IsByte, decode_hex-encode_hex, length-encode_hex, take_append}
use rpld_hymrpl.Dag.{NodeClass, class_s, class_n, Time, Iface, seconds, apply_class}
use rpld_hymrpl.Dag.ClassSwitch.{AllOf, apply_class-AllOf}
use rpld_hymrpl.Fifo
use rpld_hymrpl.Fifo.{
  FifoSec, empty_sec, verify_hmac, fifo_sec_init, decode_token, authenticate, switch_class,
  reset_minute, fifo_sec_check, too_fast, Checked,
}
use rpld_hymrpl.Fifo.Verify.{class_name}
use rpld_hymrpl.Cmd
use rpld_hymrpl.Cmd.{
  Env, Exit, load_token, generate_token, get_nonce, message, send_plain, send_signed, main,
}
use rpld_hymrpl.Cmd.RoundTrip.{verify_hmac-message}

-- The text of a token file: 64 digits and a newline.
abbrev pub token_text : List ℕ → List ℕ
token_text token = encode_hex token ++ 10 ∷ []

module _ (token : List ℕ) (len : length token ≡ 32) (bytes : All IsByte token) where
  take-token_text : take 64 (token_text token) ≡ encode_hex token
  take-token_text =
      let e : length (encode_hex token) ≡ 64 = omega (arith, length-encode_hex token) in
      rw e at (take_append (encode_hex token) (10 ∷ []))

  decode-token_text : decode_hex 32 (take 64 (token_text token)) ≡ some token
  decode-token_text =
      rw (take-token_text) (rw (append-nil, len) at (decode_hex-encode_hex token [] bytes))

  length-token_text : length (token_text token) ≡ 65
  length-token_text =
      omega (arith, length-append (encode_hex token) (10 ∷ []), length-encode_hex token)

  -- The token file that the sender or the daemon generates from 32 random bytes is the same, and gives
  -- those bytes back to both.
  pub token_round_trip :
      (now : Time)
      → (Cmd.generate_token (some token) true ≡ Fifo.generate_token (some token) true)
        × (Cmd.generate_token (some token) true ≡ some (token_text token))
        × (load_token (some (token_text token)) ≡ some token)
        × (fifo_sec_init now (some (token_text token))
            ≡ (record (empty_sec now) { token = token; token_loaded = true }, true))
  unfolding Cmd.generate_token Fifo.generate_token load_token fifo_sec_init
  token_round_trip now = (
    ground arith,
    ground arith,
    ground (arith, length-token_text, decode-token_text),
    ground (arith, length-token_text, decode-token_text),
  )

get_nonce-lt : (tv_sec tv_usec : ℕ) → get_nonce tv_sec tv_usec < 2 ^ 64
unfolding get_nonce
get_nonce-lt tv_sec tv_usec = omega arith

main_command :
    (hmac : List ℕ → List ℕ → List ℕ) (env : Env) (c : NodeClass)
    → main hmac env (class_name c ∷ []) ≡ (
        if env.token_readable
        then send_signed hmac env (class_name c)
        else send_plain env (class_name c))
unfolding main str_eq
main_command hmac env class_s = refl
main_command hmac env class_n = refl

module _ (hmac : List ℕ → List ℕ → List ℕ)
    (digest_len : (key text : List ℕ) → length (hmac key text) ≡ 32)
    (digest_bytes : (key text : List ℕ) → All IsByte (hmac key text)) where
  -- A signed command with a nonce of 64 bits above the last one switches a daemon that has loaded the
  -- token and has its FIFO open, if the last switch is ten seconds old and the minute has room or is
  -- over. The digest has 32 bytes.
  pub fresh_message_switches :
      (sec : FifoSec) (c : NodeClass) (nonce : ℕ) (now : Time) (opens : Bool) (ifaces : List Iface)
      → sec.token_loaded ≡ true
      → (sec.fifo_open || opens) ≡ true
      → nonce < 2 ^ 64
      → sec.last_nonce < nonce
      → sec.last_switch_time + seconds 10 ≤ now
      → (sec.switches_this_minute < 3) ⊎ (sec.minute_start + seconds 60 < now)
      → let msg = message hmac sec.token (class_name c) nonce in
        let r = fifo_sec_check hmac now opens (some msg) sec ifaces in
        (r.result ≡ some c)
        × (r.ifaces ≡ apply_class c ifaces)
        × (r.sec.last_nonce ≡ nonce)
        × (r.sec.last_switch_time ≡ now)
  unfolding fifo_sec_check authenticate switch_class reset_minute
  fresh_message_switches sec c nonce now opens ifaces loaded open_now small fresh gap room =
      ground (
        arith,
        verify_hmac-message hmac digest_len digest_bytes (record sec { fifo_open = true }) c nonce
            small,
      )

  main_sends :
      (env : Env) (c : NodeClass) (token : List ℕ)
      → env.token_readable ≡ true
      → load_token env.token_file ≡ some token
      → env.fifo_opens ≡ true
      → env.fifo_writes ≡ true
      → main hmac env (class_name c ∷ []) ≡ record {
        status = 0;
        token_written = none;
        sent = some (message hmac token (class_name c) (get_nonce env.tv_sec env.tv_usec));
      }
  unfolding send_signed
  main_sends env c token readable loads opens writes = main_command hmac env c ∙ ground arith

  -- The sender run with the name of a class, on a token file that was generated before, exits with 0,
  -- and the message that it wrote makes a daemon that started with that token file switch every
  -- interface and dag to that class. The clock of the sender is past 1970, the daemon has been up
  -- or the epoch begun for ten seconds, the digest has 32 bytes, and no call of the system fails.
  pub sent_command_switches :
      (token : List ℕ) (env : Env) (c : NodeClass) (start now : Time) (ifaces : List Iface)
      → length token ≡ 32
      → All IsByte token
      → env.token_readable ≡ true
      → env.token_file ≡ Cmd.generate_token (some token) true
      → env.fifo_opens ≡ true
      → env.fifo_writes ≡ true
      → 0 < get_nonce env.tv_sec env.tv_usec
      → seconds 10 ≤ now
      → let exit = main hmac env (class_name c ∷ []) in
        let sec = (fifo_sec_init start env.token_file).0 in
        let r = fifo_sec_check hmac now true exit.sent sec ifaces in
        (exit.status ≡ 0) × (r.result ≡ some c) × AllOf c r.ifaces
  sent_command_switches token env c start now ifaces len bytes readable file opens writes pos late =
      let (_, text, loads, starts) = token_round_trip token len bytes start in
      let nonce = get_nonce env.tv_sec env.tv_usec in
      let sec : FifoSec = record (empty_sec start) { token = token; token_loaded = true } in
      let (result, applied, _, _) =
        fresh_message_switches sec c nonce now true ifaces refl refl
          (get_nonce-lt env.tv_sec env.tv_usec) pos late (inl (omega arith)) in
      rw (main_sends env c token readable (rw (file, text) loads) opens writes, file, text, starts)
        (refl, result, rw applied (apply_class-AllOf c ifaces))
