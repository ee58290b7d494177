-- ===== src/Tests/Process.antt =====
-- Runs of the message handlers and of the daemon's callbacks.
use rpld_hymrpl.Prelude.{
  Option, ◌<◌, ◌-◌, ◌++◌, replicate, length, List, ℕ, ◌+◌, ◌≡◌, ◌==◌, inl, inr, refl, true, false,
  none, some, [], ◌∷◌, arith, if◌then◌else◌,
}
use rpld_hymrpl.Dag.{Prefix, infinite_rank, Iface, seconds, class_n}
use rpld_hymrpl.Adaptive.{Adaptive, adaptive_init}
use rpld_hymrpl.Fifo.{empty_sec}
use rpld_hymrpl.Fifo.Cases.{Poll}
use rpld_hymrpl.Wire.{Memory, memory_of, bytes_of, read_addr}
use rpld_hymrpl.Wire.Flags.{mop_of}
use rpld_hymrpl.Process.Dio.Join.{long_prefix_copied}
use rpld_hymrpl.Process.Dio.{join_dag, update_dag}
use rpld_hymrpl.Process.Dao.{Options, parsed, parse_options}
use rpld_hymrpl.Process.Dao.Loop.{Ends, Bounded, parse_options-Ends, transit_reads_past_end}
use rpld_hymrpl.Rpld.{Daemon, parent_check_cb}
use rpld_hymrpl.Rpld.Liveness.{silent_parent_replaced}
use rpld_hymrpl.Rpld.Switching.{Turns, round_switch, round, round-Turns}
use rpld_hymrpl.Rpld.Timers.{rpld_setup, Scanned, reload_cb}
use rpld_hymrpl.Rpld.Timers.Periods.{
  AllIfaces, IsQuiet, IsReloaded, mask, rpld_setup-IsQuiet, reload_cb_cases,
}
use rpld_hymrpl.Fifo.Verify.{class_name}
use rpld_hymrpl.Process.Dropped.{bad_option, process-dropped}
use rpld_hymrpl.Process.Dispatch.{process}
use rpld_hymrpl.Process.Sound.{IsSound}
use rpld_hymrpl.Process.Sound.Packet.{located}
use rpld_hymrpl.Rpld.System.{packet_in, round_due, done, next, start_daemon}
use rpld_hymrpl.Rpld.System.Sound.{event_loop-IsSound}
use rpld_hymrpl.Tests.Floats.{fixed}
use rpld_hymrpl.Tests.Data.{
  toy_hmac, node_dag, root_dag, live_parent, node_iface, toy_net, toy_net-NetLaws, toy_net-DagLaws,
}

abbrev engine : Adaptive ℕ
engine = adaptive_init fixed none

silent_parent_replaced_example :
    let checked = (parent_check_cb true (seconds 116) node_dag engine).dag in
    let dag' = (update_dag toy_net (seconds 118) 22 9 checked checked.parent).0 in
    (dag'.parent ≡ some (record { addr = 22; rank = 9 })) × (dag'.my_rank ≡ 10)
silent_parent_replaced_example =
    silent_parent_replaced true (seconds 116) engine toy_net toy_net-NetLaws node_dag live_parent
      (seconds 118) 22 9 (omega arith) refl (omega arith) (omega arith) (omega arith) (omega arith)

-- A target option of sixteen bytes of address, then a transit option that is cut short.
abbrev dao : Memory
dao i = if i == 20 then 5 else if i == 21 then 18 else if i == 40 then 6 else 1

abbrev no_options : Options
no_options = record { transit = none; targets = []; dag = root_dag }

parse_options-Ends_example : Ends Bounded (parse_options toy_net dao 21 30 20 22 no_options)
parse_options-Ends_example =
    parse_options-Ends toy_net dao 21 30 20 22 no_options (omega arith) (omega arith)

-- Twenty bytes, a transit option that ends the message, and the address 77 behind the end.
transit_reads_past_end_example :
    let message : List ℕ = replicate 20 0 ++ (6 ∷ 0 ∷ []) in
    let buffer : List ℕ = message ++ (replicate 4 0 ++ (bytes_of 16 77 ++ 9 ∷ [])) in
    parse_options toy_net (memory_of buffer) 21 2 20 (length message - 20) no_options
    ≡ parsed (record no_options { transit = some 77 })
transit_reads_past_end_example =
    transit_reads_past_end toy_net 21 0 (replicate 20 0) (replicate 4 0) (9 ∷ []) 0 77 no_options
      refl (omega arith)

abbrev daemon : Daemon ℕ
daemon = record { ifaces = node_iface ∷ []; adp = engine; sec = empty_sec 0; enabled = true }

abbrev plain_poll : ℕ → Poll
plain_poll n = record { now = seconds n; opens = true; input = some (class_name class_n) }

round-Turns_example :
    Turns
      (round_switch fixed toy_hmac (plain_poll 20) daemon)
      (seconds 20)
      daemon.sec
      daemon.ifaces
      (round fixed toy_hmac (plain_poll 20) daemon).sec
      (round fixed toy_hmac (plain_poll 20) daemon).ifaces
round-Turns_example = round-Turns fixed toy_hmac (plain_poll 20) daemon

rpld_setup-IsQuiet_example :
    AllIfaces
      (IsQuiet true (seconds 100 + seconds 15) engine)
      (rpld_setup (seconds 100) (node_iface ∷ [])).0
rpld_setup-IsQuiet_example =
    rpld_setup-IsQuiet true (seconds 100) (seconds 15) engine (node_iface ∷ [])
      (((omega arith, tt), tt), tt)

reload_cb_cases_example :
    let conf : Option (Option Scanned × Option Scanned) =
      some (none, some (record { le_zero = false; period = 7 })) in
    let new = reload_cb conf (node_iface ∷ []) in
    AllIfaces (IsReloaded 7) new × (mask new ≡ mask (node_iface ∷ []))
reload_cb_cases_example =
    reload_cb_cases (some (none, some (record { le_zero = false; period = 7 }))) (node_iface ∷ [])

-- The list of interfaces that the runs below start with.
abbrev ifaces : List Iface
ifaces = node_iface ∷ []

ifaces-IsSound : IsSound ifaces
ifaces-IsSound = (((((omega arith, inl refl), refl), tt), tt), tt)

-- A DIO of a new dag: version 1, rank 258, hybrid mode and a prefix of 64 bits.
abbrev dio : Memory
dio i =
    if i == 0
    then 155
    else if i == 1
    then 1
    else if i == 4
    then 2
    else if i == 7
    then 2
    else if i == 8
    then 48
    else if i == 28
    then 3
    else if i == 30
    then 64
    else 1

-- The node starts, hears the DIO, and runs a round.
abbrev fresh : Daemon ℕ
fresh = start_daemon fixed (seconds 100) none ifaces

abbrev heard : Daemon ℕ
heard = record fresh {
  ifaces = (process toy_net (seconds 101) fresh.ifaces (located fresh.ifaces (some 0)) dio 60 22).0;
}

event_loop-IsSound_example : IsSound (round fixed toy_hmac (plain_poll 120) heard).ifaces
event_loop-IsSound_example =
    event_loop-IsSound fixed toy_hmac toy_net toy_net-DagLaws (seconds 100) none ifaces
      ifaces-IsSound
      (next (next (done fresh) (packet_in (seconds 101) (some 0) dio 60 22 fresh.adp fresh))
        (round_due (plain_poll 120) heard))

-- A prefix option of 200 bits.
abbrev long_dio : Memory
long_dio i = if i == 24 then 3 else if i == 26 then 200 else 1

long_prefix_copied_example :
    (dest : Prefix) × (join_dag toy_net node_iface long_dio 40
      ≡ toy_net.dag_create node_iface 1 (read_addr long_dio 8) infinite_rank 1 (mop_of 1) dest)
    × (16 < length dest.bytes)
long_prefix_copied_example =
    long_prefix_copied toy_net node_iface long_dio 40 refl (omega arith) refl (omega arith)

-- A DIO of an unknown instance, with an option of type 4 in place of the prefix.
abbrev other_option : Memory
other_option i = if i == 0 then 155 else if i == 1 then 1 else if i == 4 then 2 else 4

process-dropped_example :
    process toy_net 5 (node_iface ∷ []) (some (0, node_iface)) other_option 50 22
    ≡ (node_iface ∷ [], [])
process-dropped_example =
    process-dropped toy_net 5 node_iface other_option 50 22 (node_iface ∷ []) 0 refl
      (bad_option refl refl (inr (inl (omega arith))))
