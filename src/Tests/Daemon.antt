-- ===== src/Tests/Daemon.antt =====
-- Runs of the event loop and of main.
use rpld_hymrpl.Prelude.{ℕ, ◌≡◌, refl, ◌==◌, true, false, Option, none, some, List, [], ◌∷◌, arith}
use rpld_hymrpl.Dag.{
  Time, seconds, class_s, class_n, apply_class, set_iface_class, set_rpl_class, set_dag_class,
}
use rpld_hymrpl.Text.{codes}
use rpld_hymrpl.Fifo.Cases.{Poll, check}
use rpld_hymrpl.Fifo.Limits.{IsSpaced}
use rpld_hymrpl.Fifo.Verify.{class_name}
use rpld_hymrpl.Cmd.{message}
use rpld_hymrpl.Cmd.RoundTrip.{verify_hmac-message}
use rpld_hymrpl.Adaptive.{adaptive_init, score, class_of_score}
use rpld_hymrpl.Rpld.{Daemon, first_class, class_in_rpls}
use rpld_hymrpl.Rpld.Switching.Deciding.{third_round_switches}
use rpld_hymrpl.Dag.ClassSwitch.{AllOf, blot}
use rpld_hymrpl.Rpld.Timers.{Scanned, reload_cb}
use rpld_hymrpl.Rpld.Switching.{round}
use rpld_hymrpl.Rpld.System.{round_due, reload_asked, done, next}
use rpld_hymrpl.Rpld.System.Node.{node, NodeRun, event_loop-NodeRun}
use rpld_hymrpl.Rpld.System.Replay.{event_loop-replay_rejected}
use rpld_hymrpl.Rpld.Main.{Env, read_opts, default_settings, main}
use rpld_hymrpl.Rpld.Main.Options.{first_refused, settings_of, reading_of, read_opts-settings}
use rpld_hymrpl.Rpld.Main.Releases.{hold_all, nothing, main-releases}
use rpld_hymrpl.Tests.Floats.{fixed}
use rpld_hymrpl.Tests.Data.{
  toy_hmac, length-toy_hmac, toy_hmac-IsByte, token, loaded_sec, node_iface, toy_net,
  toy_net-DagLaws,
}

abbrev daemon : Daemon ℕ
daemon = record {
  ifaces = node_iface ∷ [];
  adp = adaptive_init fixed none;
  sec = loaded_sec;
  enabled = true;
}

abbrev msg : List ℕ
msg = message toy_hmac token (class_name class_n) 5

abbrev poll_at : ℕ → Poll
poll_at n = record { now = seconds n; opens = true; input = some msg }

-- A round with a command, then a reload.
abbrev switched : Daemon ℕ
switched = round fixed toy_hmac (poll_at 120) daemon

abbrev conf : Option (Option Scanned × Option Scanned)
conf = some (some (record { le_zero = false; period = 7 }), none)

abbrev reloaded : Daemon ℕ
reloaded = record switched { ifaces = reload_cb conf switched.ifaces }

event_loop-NodeRun_example :
    (log : List Time) × NodeRun (node daemon) (node reloaded) log × IsSpaced log
event_loop-NodeRun_example =
    event_loop-NodeRun fixed toy_hmac toy_net toy_net-DagLaws
      (next (next (done daemon) (round_due (poll_at 120) daemon)) (reload_asked conf switched))

event_loop-replay_rejected_example :
    let r = check toy_hmac (poll_at 200) reloaded.sec reloaded.ifaces in
    (r.result ≡ none) × (r.ifaces ≡ reloaded.ifaces)
event_loop-replay_rejected_example =
    event_loop-replay_rejected fixed toy_hmac toy_net (poll_at 120) (poll_at 200) daemon reloaded
      msg class_n 5 refl refl refl refl
      (verify_hmac-message toy_hmac length-toy_hmac toy_hmac-IsByte loaded_sec class_n 5
        (omega arith))
      (next (done switched) (reload_asked conf switched))

-- The first byte, in place of `atoi`.
abbrev first_byte : List ℕ → ℕ
first_byte [] = 0
first_byte (x ∷ s) = x

abbrev opts : List (ℕ × List ℕ)
opts = (b'C', codes "a.conf") ∷ (b'm', codes "none") ∷ (b'C', codes "b.conf") ∷ []

read_opts-settings_example :
    read_opts first_byte opts default_settings
    ≡ reading_of first_byte (first_refused opts) (settings_of first_byte opts default_settings)
read_opts-settings_example = read_opts-settings first_byte opts default_settings

-- The setting of the limit of the kernel fails.
abbrev env : Env
env = record {
  log_opens = true;
  netlink_opens = true;
  conf = some (node_iface ∷ []);
  now = seconds 100;
  token_file = none;
  var_set = false;
  socket_opens = true;
}

main-releases_example :
    let exit = main fixed first_byte env opts in
    let held = hold_all nothing exit.calls in
    (held.socket ≡ false)
    × (held.netlink ≡ (exit.status == 255))
    × (held.config ≡ (exit.status == 255))
main-releases_example = main-releases fixed first_byte env opts

-- A node of Class N with good metrics, and rounds with nothing to read.
abbrev idle_at : ℕ → Poll
idle_at n = record { now = seconds n; opens = true; input = none }

abbrev class_n_daemon : Daemon ℕ
class_n_daemon = record daemon { ifaces = apply_class class_n (node_iface ∷ []) }

third_round_switches_example :
    let s₂ = round fixed toy_hmac (idle_at 21) (round fixed toy_hmac (idle_at 20) class_n_daemon) in
    let s₃ = round fixed toy_hmac (idle_at 22) s₂ in
    (s₂.ifaces ≡ class_n_daemon.ifaces)
    × AllOf class_s s₃.ifaces
    × (blot s₃.ifaces ≡ blot class_n_daemon.ifaces)
    × (s₃.sec.last_switch_time ≡ seconds 22)
unfolding adaptive_init score class_of_score first_class class_in_rpls apply_class set_iface_class
    set_rpl_class set_dag_class
third_round_switches_example =
    third_round_switches fixed toy_hmac (idle_at 20) (idle_at 21) (idle_at 22) class_n_daemon
      class_s refl refl refl refl refl refl (ground arith) (omega arith)
