-- ===== src/Tests/Fifo.antt =====
-- Runs of the FIFO and of the sender.
use rpld_hymrpl.Prelude.{
  ℕ, ◌≤◌, ◌≡◌, refl, true, false, none, some, List, [], ◌∷◌, ◌++◌, map, length, arith,
}
use rpld_hymrpl.Text.{str_eq}
use rpld_hymrpl.Dag.{seconds, class_s, class_n}
use rpld_hymrpl.Dag.ClassSwitch.{AllOf}
use rpld_hymrpl.Fifo.{fifo_sec_init, fifo_sec_check}
use rpld_hymrpl.Fifo.Cases.{Poll}
use rpld_hymrpl.Fifo.Verify.{class_name, Authentic, verify_hmac_sound}
use rpld_hymrpl.Fifo.Replay.{poll_all, replay_rejected}
use rpld_hymrpl.Fifo.Limits.{IsSpaced, count_from, poll_log, switches_limited}
use rpld_hymrpl.Fifo.Pipe.{poll_pipe, read_fifo}
use rpld_hymrpl.Fifo.Pipe.Lost.{two_commands_lost}
use rpld_hymrpl.Cmd
use rpld_hymrpl.Cmd.{Env, main, send_plain, message, load_token}
use rpld_hymrpl.Cmd.Fits.{main_fits}
use rpld_hymrpl.Cmd.RoundTrip.{verify_hmac-message}
use rpld_hymrpl.Cmd.Obeyed.{Reading, idle, signed, poll_of, answers, obey, commands_obeyed}
use rpld_hymrpl.Cmd.EndToEnd.{token_text, sent_command_switches}
use rpld_hymrpl.Tests.Data.{
  toy_hmac, length-toy_hmac, toy_hmac-IsByte, token, token-IsByte, loaded_sec, node_iface,
}

abbrev env : Env
env = record {
  token_readable = true;
  token_file = Cmd.generate_token (some token) true;
  urandom = some token;
  token_writable = true;
  tv_sec = 1700;
  tv_usec = 5;
  fifo_opens = true;
  fifo_writes = true;
}

sent_command_switches_example :
    let exit = main toy_hmac env (class_name class_n ∷ []) in
    let sec = (fifo_sec_init (seconds 100) env.token_file).0 in
    let r = fifo_sec_check toy_hmac (seconds 120) true exit.sent sec (node_iface ∷ []) in
    (exit.status ≡ 0) × (r.result ≡ some class_n) × AllOf class_n r.ifaces
sent_command_switches_example =
    sent_command_switches toy_hmac length-toy_hmac toy_hmac-IsByte token env class_n (seconds 100)
      (seconds 120) (node_iface ∷ []) refl token-IsByte refl refl refl refl
      (unfold Cmd.get_nonce in omega arith) (omega arith)

-- A message of the sender, with the nonce 5.
abbrev msg : List ℕ
msg = message toy_hmac token (class_name class_n) 5

verify_hmac_sound_example : Authentic toy_hmac token msg class_n 5
verify_hmac_sound_example = verify_hmac_sound toy_hmac length-toy_hmac loaded_sec msg class_n 5 (
    verify_hmac-message toy_hmac length-toy_hmac toy_hmac-IsByte loaded_sec class_n 5 (omega arith))

abbrev poll_at : ℕ → Poll
poll_at n = record { now = seconds n; opens = true; input = some msg }

replay_rejected_example :
    let (sec', ifaces') =
      poll_all toy_hmac (poll_at 120 ∷ poll_at 125 ∷ []) (loaded_sec, node_iface ∷ []) in
    let r = fifo_sec_check toy_hmac (seconds 200) true (some msg) sec' ifaces' in
    (r.result ≡ none) × (r.ifaces ≡ ifaces')
replay_rejected_example =
    replay_rejected toy_hmac (poll_at 120) (poll_at 200) (poll_at 125 ∷ []) loaded_sec
      (node_iface ∷ []) msg refl refl refl refl
      (verify_hmac-message toy_hmac length-toy_hmac toy_hmac-IsByte loaded_sec class_n 5
        (omega arith))

-- Polls of a node with no token.
abbrev plain_poll : ℕ → Poll
plain_poll n = record { now = seconds n; opens = true; input = some (class_name class_n) }

switches_limited_example :
    let polls = plain_poll 20 ∷ plain_poll 25 ∷ plain_poll 31 ∷ [] in
    let sec = (fifo_sec_init 0 none).0 in
    let log = poll_log toy_hmac polls (sec, node_iface ∷ []) [] in
    IsSpaced log
    × (count_from (poll_all toy_hmac polls (sec, node_iface ∷ [])).0.minute_start log ≤ 3)
switches_limited_example =
    switches_limited toy_hmac 0 none (plain_poll 20 ∷ plain_poll 25 ∷ plain_poll 31 ∷ [])
      (node_iface ∷ [])

two_commands_lost_example :
    let pipe = msg ++ message toy_hmac token (class_name class_s) 6 in
    let (r, pipe') = poll_pipe toy_hmac (seconds 120) pipe loaded_sec (node_iface ∷ []) in
    let (r', pipe'') = poll_pipe toy_hmac (seconds 121) pipe' r.sec r.ifaces in
    (r.result ≡ none)
    × (r'.result ≡ none)
    × (r'.ifaces ≡ node_iface ∷ [])
    × (r'.sec ≡ record loaded_sec { fifo_open = true })
    × (pipe'' ≡ [])
two_commands_lost_example =
    two_commands_lost toy_hmac length-toy_hmac loaded_sec (node_iface ∷ []) token class_n class_s 5
      6 (seconds 120) (seconds 121) refl

-- The sender of a node with no token.
abbrev plain_env : Env
plain_env = record env { token_readable = false }

main_fits_example :
    (length (class_name class_n ++ 10 ∷ []) ≤ 90)
    × (read_fifo (class_name class_n ++ 10 ∷ []) ≡ (some (class_name class_n ++ 10 ∷ []), []))
main_fits_example =
    main_fits toy_hmac length-toy_hmac plain_env (class_name class_n ∷ [])
      (class_name class_n ++ 10 ∷ []) (unfold main str_eq send_plain in refl)

-- Two commands, and polls of an empty pipe.
abbrev readings : List Reading
readings =
    idle (seconds 105)
    ∷ signed (seconds 125) (record { new_class = class_n; nonce = 5 })
    ∷ idle (seconds 130)
    ∷ signed (seconds 146) (record { new_class = class_s; nonce = 6 })
    ∷ []

commands_obeyed_example :
    let sec = (fifo_sec_init (seconds 100) (some (token_text token))).0 in
    (answers toy_hmac token readings (sec, node_iface ∷ [])
      ≡ none ∷ some class_n ∷ none ∷ some class_s ∷ [])
    × ((poll_all toy_hmac (map (poll_of toy_hmac token) readings) (sec, node_iface ∷ [])).1
        ≡ obey readings (node_iface ∷ []))
commands_obeyed_example =
    commands_obeyed toy_hmac length-toy_hmac toy_hmac-IsByte token (seconds 100) readings
      (node_iface ∷ []) refl token-IsByte (omega arith)
