-- ===== src/Rpld/Timers.antt =====
-- rpld_new.c, the timers: `dag_init_timer`, `rpld_setup`, `send_dis_cb`, `trickle_cb` and the reload
-- of the Trickle period.
pub mod Periods
use rpld_hymrpl.Prelude.{
  ℕ, Bool, true, false, Option, none, some, List, [], ◌∷◌, ◌++◌, ◌==◌, if◌then◌else◌, map,
}
use rpld_hymrpl.Dag.{Addr, Time, seconds, Timer, Dag, Rpl, Iface}
use rpld_hymrpl.Process.{Effect, send_dio, send_dis, add_addr}
use rpld_hymrpl.Rpld.{parent_check_interval}

-- `ev_timer_init` and `ev_timer_start`, with one time for the first expiry and the period.
abbrev pub start_timer : Time → Timer
start_timer every = record { running = true; after = every; period = every }

unfoldable pub dag_init_timer : Time → Dag → Dag
dag_init_timer now dag = record dag {
  trickle_w = start_timer dag.trickle_t;
  parent_last_seen = now;
  parent_check_w = start_timer parent_check_interval;
}

-- The body of the setup loop, which has the same calls and the address of a root.
unfoldable pub setup_dags : Time → Bool → ℕ → List Dag → List Dag × List Effect
unfolding dag_init_timer
setup_dags now dodag_root ifindex [] = ([], [])
setup_dags now dodag_root ifindex (dag ∷ dags) =
    let (dags', effects) = setup_dags now dodag_root ifindex dags in
    (
      dag_init_timer now dag ∷ dags',
      if dodag_root then add_addr ifindex dag.dodagid ∷ effects else effects,
    )

unfoldable pub setup_rpls : Time → Bool → ℕ → List Rpl → List Rpl × List Effect
setup_rpls now dodag_root ifindex [] = ([], [])
setup_rpls now dodag_root ifindex (r ∷ rs) =
    let (dags', effects) = setup_dags now dodag_root ifindex r.dags in
    let (rs', more) = setup_rpls now dodag_root ifindex rs in
    (record r { dags = dags' } ∷ rs', effects ++ more)

unfoldable pub rpld_setup : Time → List Iface → List Iface × List Effect
rpld_setup now [] = ([], [])
rpld_setup now (iface ∷ ifaces) =
    let (rpls', effects) = setup_rpls now iface.dodag_root iface.ifindex iface.rpls in
    let (ifaces', more) = rpld_setup now ifaces in
    (record iface { dis_w = start_timer (seconds 1); rpls = rpls' } ∷ ifaces', effects ++ more)

unfoldable pub has_dag : List Rpl → Bool
has_dag [] = false
has_dag (r ∷ rs) = elim r.dags [ [] ↦ has_dag rs | d ∷ ds ↦ true ]

-- The solicitation goes on until the interface has a dag.
unfoldable pub send_dis_cb : Iface → Iface × List Effect
send_dis_cb iface =
    if has_dag iface.rpls
    then (record iface { dis_w = record iface.dis_w { running = false } }, [])
    else (iface, send_dis iface.ifindex ∷ [])

unfoldable pub trickle_cb : Dag → List Effect
trickle_cb dag = send_dio dag.dodagid ∷ []

-- What the code uses of a double that was scanned: whether it is `<= 0.0`, which a NaN is not, and the
-- period that it is for a timer, in whole microseconds. A double above 0 can be a period of 0.
pub record Scanned : Type 0 where
  pub le_zero : Bool
  pub period : Time

-- What the scans of the file give: `none` if it cannot be opened, else the number behind
-- "trickle_t=" and the number at its start. The result is `none` where the code returns -1.0.
unfoldable pub read_trickle_config : Option (Option Scanned × Option Scanned) → Option Scanned
read_trickle_config none = none
read_trickle_config (some (some val, plain)) = some val
read_trickle_config (some (none, plain)) = plain

unfoldable pub reload_dag : Time → Dag → Dag
reload_dag new_trickle_t dag = record dag {
  trickle_t = new_trickle_t;
  trickle_w = start_timer new_trickle_t;
}

unfoldable pub reload_rpl : Time → Rpl → Rpl
reload_rpl new_trickle_t r = record r { dags = map (reload_dag new_trickle_t) r.dags }

unfoldable pub reload_iface : Time → Iface → Iface
reload_iface new_trickle_t i = record i { rpls = map (reload_rpl new_trickle_t) i.rpls }

-- The value -1.0 is `<= 0.0`.
unfoldable pub reload_with : Option Scanned → List Iface → List Iface
reload_with none ifaces = ifaces
reload_with (some new_trickle_t) ifaces =
    if new_trickle_t.le_zero then ifaces else map (reload_iface new_trickle_t.period) ifaces

unfoldable pub reload_cb : Option (Option Scanned × Option Scanned) → List Iface → List Iface
reload_cb conf ifaces = reload_with (read_trickle_config conf) ifaces
