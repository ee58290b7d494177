-- ===== src/Rpld/Main.antt =====
-- rpld_new.c, `main` and what it registers: the options, the start with the outcome of every call that
-- can fail, the event loop and the shutdown. Log lines are left out but for the last one.
--
-- `atoi` is an argument, into the type of its results. What `getopt` returns, one pair after the other,
-- is a list of pairs of the option and its argument; a `?` is an option it does not know.
pub mod Releases
pub mod Options
use rpld_hymrpl.Prelude.{
  ℕ, ◌+◌, ◌-◌, Bool, true, false, ◌&&◌, ◌||◌, Option, none, some, List, [], ◌∷◌, ◌++◌, ltb, ◌==◌,
  if◌then◌else◌,
}
use rpld_hymrpl.Text.{codes, str_eq}
use rpld_hymrpl.Dag.{Time, Addr, Iface}
use rpld_hymrpl.Adaptive.{FloatOps}
use rpld_hymrpl.Wire.{Memory}
use rpld_hymrpl.Process.{Effect, Net}
use rpld_hymrpl.Process.Dispatch.{process}
use rpld_hymrpl.Rpld.{Daemon}
use rpld_hymrpl.Rpld.System.{first_node, start_daemon}

-- The methods of log.h that main names.
pub data LogMethod : Type 0 where
  l_syslog l_stderr_syslog l_stderr l_stderr_clean l_logfile l_none : LogMethod

unfoldable pub log_method_of : List ℕ → Option LogMethod
log_method_of optarg =
    if str_eq optarg (codes "syslog")
    then some l_syslog
    else if str_eq optarg (codes "stderr_syslog")
    then some l_stderr_syslog
    else if str_eq optarg (codes "stderr")
    then some l_stderr
    else if str_eq optarg (codes "stderr_clean")
    then some l_stderr_clean
    else if str_eq optarg (codes "logfile")
    then some l_logfile
    else if str_eq optarg (codes "none")
    then some l_none
    else none

-- The locals of main that the options set; `log_method` is `none` for L_UNSPEC. `facility` is `none`
-- for LOG_DAEMON, and `debuglevel` if `set_debuglevel` is not called.
pub record Settings (I : Type 0) : Type 0 where
  pub conf_path : List ℕ
  pub log_method : Option LogMethod
  pub facility : Option I
  pub logfile : List ℕ
  pub debuglevel : Option I

abbrev pub default_settings : {I : Type 0} → Settings I
default_settings = record {
  conf_path = codes "/etc/rpld.conf";
  log_method = none;
  facility = none;
  logfile = codes "/var/log/rpld.log";
  debuglevel = none;
}

-- What main prints before it exits while it reads the options.
pub data Said : Type 0 where
  help_shown usage_shown unknown_log_method : Said

-- The settings, or an exit with a status.
pub data Reading (I : Type 0) : Type 0 where
  reads : Settings I → Reading I
  quits : ℕ → Said → Reading I

unfoldable pub set_log_method : {I : Type 0} → Option LogMethod → Settings I → Reading I
set_log_method none s = quits 1 unknown_log_method
set_log_method (some method) s = reads (record s { log_method = some method })

module _ {I : Type 0} (atoi : List ℕ → I) where
  -- The switch over the option.
  unfoldable pub take_opt : ℕ → List ℕ → Settings I → Reading I
  take_opt opt optarg s =
      if opt == b'C'
      then reads (record s { conf_path = optarg })
      else if opt == b'm'
      then set_log_method (log_method_of optarg) s
      else if opt == b'f'
      then reads (record s { facility = some (atoi optarg) })
      else if opt == b'l'
      then reads (record s { logfile = optarg })
      else if opt == b'd'
      then reads (record s { debuglevel = some (atoi optarg) })
      else if opt == b'h'
      then quits 0 help_shown
      else quits 1 usage_shown

  unfoldable pub read_opts : List (ℕ × List ℕ) → Settings I → Reading I
  read_opts [] s = reads s
  read_opts ((opt, optarg) ∷ opts) s = elim (take_opt opt optarg s) [
    | quits status said ↦ quits status said
    | reads s' ↦ read_opts opts s'
  ]

-- The calls of main that hold something or act on the system, with the success of those that can fail.
pub data Call : Type 0 where
  init_random_gen : Call
  catch_sigint : Call
  catch_sigusr1 : Call
  log_open : Bool → LogMethod → List ℕ → Call
  log_close : Call
  netlink_open : Bool → Call
  netlink_close : Call
  config_load : Bool → List ℕ → Call
  config_free : Call
  init_fifo_sec : Call
  init_adaptive : List ℕ → Call
  setup_rpld : Call
  set_var : Bool → ℕ → Call
  open_icmpv6_socket : Bool → Call
  close_icmpv6_socket : Call
  watch_socket : Call
  start_periodic : Call
  ev_run : Call
  flog_exited : Call

-- The outcomes of the calls that can fail; `conf` is `none` if `config_load` fails.
pub record Env : Type 0 where
  pub log_opens : Bool
  pub netlink_opens : Bool
  pub conf : Option (List Iface)
  pub now : Time
  pub token_file : Option (List ℕ)
  pub var_set : Bool
  pub socket_opens : Bool

-- The calls made, the exit status, and the daemon that entered the event loop, if it did. The return
-- of -1 is the exit status 255.
pub record Exit (F : Type 0) : Type 0 where
  pub calls : List Call
  pub status : ℕ
  pub entered : Option (Daemon F)

-- L_UNSPEC is replaced by L_STDERR.
unfoldable pub method_or_stderr : Option LogMethod → LogMethod
method_or_stderr none = l_stderr
method_or_stderr (some method) = method

unfoldable pub adaptive_calls : Option Iface → List Call
adaptive_calls none = []
adaptive_calls (some iface) = init_adaptive iface.ifname ∷ []

-- `ev_run` returns when a SIGINT has broken the loop, and all is released.
abbrev pub run_calls : List Call
run_calls =
    watch_socket ∷ start_periodic ∷ ev_run ∷ netlink_close ∷ close_icmpv6_socket ∷ config_free
    ∷ log_close ∷ flog_exited ∷ []

module _ {F : Type 0} (fl : FloatOps F) where
  abbrev pub after : List Call → Exit F → Exit F
  after calls exit = record exit { calls = calls ++ exit.calls }

  -- From `open_icmpv6_socket` on.
  unfoldable pub run_node : Env → List Iface → Exit F
  run_node env ifaces =
      if env.socket_opens
      then record {
        calls = open_icmpv6_socket true ∷ run_calls;
        status = 0;
        entered = some (start_daemon fl env.now env.token_file ifaces);
      }
      else record {
        calls = open_icmpv6_socket false ∷ netlink_close ∷ config_free ∷ [];
        status = 1;
        entered = none;
      }

  -- From the configuration on. `rpld_setup` returns 0 always, so its error path is not taken.
  unfoldable pub start_node : Env → List Iface → Exit F
  start_node env ifaces =
      after (init_fifo_sec ∷ adaptive_calls (first_node ifaces) ++ setup_rpld ∷ []) (
        if env.var_set
        then after (set_var true 99 ∷ []) (run_node env ifaces)
        else record { calls = set_var false 99 ∷ []; status = 255; entered = none })

  unfoldable pub load_config : Env → List ℕ → Option (List Iface) → Exit F
  load_config env conf_path none = record {
    calls = config_load false conf_path ∷ netlink_close ∷ [];
    status = 1;
    entered = none;
  }
  load_config env conf_path (some ifaces) =
      after (config_load true conf_path ∷ []) (start_node env ifaces)

  unfoldable pub open_netlink : Env → List ℕ → Exit F
  open_netlink env conf_path =
      if env.netlink_opens
      then after (netlink_open true ∷ []) (load_config env conf_path env.conf)
      else record { calls = netlink_open false ∷ []; status = 1; entered = none }

  unfoldable pub start : {I : Type 0} → Env → Settings I → Exit F
  start env s =
      let log = log_open env.log_opens (method_or_stderr s.log_method) s.logfile in
      after (init_random_gen ∷ catch_sigint ∷ catch_sigusr1 ∷ log ∷ []) (
        if env.log_opens
        then open_netlink env s.conf_path
        else record { calls = []; status = 1; entered = none })

  unfoldable pub run_settings : {I : Type 0} → Env → Reading I → Exit F
  run_settings env (quits status said) = record { calls = []; status = status; entered = none }
  run_settings env (reads s) = start env s

  unfoldable pub main : {I : Type 0} → (List ℕ → I) → Env → List (ℕ × List ℕ) → Exit F
  main atoi env opts = run_settings env (read_opts atoi opts default_settings)

-- `icmpv6_cb`: the packet is processed only if some bytes came with their interface. `found` is the
-- interface of the packet info, if there is one, and `len` is 0 for a result of `recv_rs_ra` below 1.
unfoldable pub icmpv6_cb :
    Net
    → Time
    → List Iface
    → Bool
    → Option (ℕ × Iface)
    → Memory
    → ℕ
    → Addr
    → List Iface × List Effect
icmpv6_cb net now ifaces pkt_info found msg len from =
    if ltb 0 len && pkt_info then process net now ifaces found msg len from else (ifaces, [])
