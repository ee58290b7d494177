-- ===== src/Rpld.antt =====
-- rpld_new.c, the callbacks of the daemon: the liveness of the parent, the periodic class decision,
-- the timers and the reload of the Trickle period.
--
-- A double of the C code that is not a float of the adaptive engine is a time in microseconds.
pub mod Liveness
pub mod Orphans
pub mod Loops
pub mod DefaultRoute
pub mod Switching
pub mod Timers
pub mod System
pub mod Main
use rpld_hymrpl.Prelude.{
  ℕ, ◌+◌, ◌-◌, ◌*◌, Bool, true, false, Option, none, some, List, [], ◌∷◌, ◌++◌, ltb, leb, ◌==◌, not,
  ◌||◌, if◌then◌else◌, map,
}
use rpld_hymrpl.Dag.{
  Addr, Time, seconds, infinite_rank, NodeClass, class_s, Timer, Peer, Dag, Rpl, Iface, apply_class,
}
use rpld_hymrpl.Adaptive.{FloatOps, Adaptive, adaptive_init, parent_changed, get_recommendation}
use rpld_hymrpl.Fifo.{FifoSec, Checked, min_switch_interval, fifo_sec_check, fifo_sec_init}
use rpld_hymrpl.Process.{Effect, del_route_via, send_dio, send_dis, add_addr}

abbrev pub parent_check_interval : Time
parent_check_interval = seconds 5

abbrev pub parent_timeout_factor : ℕ
parent_timeout_factor = 8

-- The engine's part of a callback: a change is noted only where the engine is enabled.
unfoldable pub note_change : {F : Type 0} → Bool → Time → Adaptive F → Adaptive F
note_change enabled now adp = if enabled then parent_changed now none adp else adp

-- The state after `parent_check_cb`, with what it asks for.
pub record Checkup (F : Type 0) : Type 0 where
  pub dag : Dag
  pub adp : Adaptive F
  pub effects : List Effect

-- The dag whose parent is given up; its Trickle timer fires in a second.
unfoldable pub give_up : Dag → Peer → Dag
give_up dag parent = record dag {
  parent = some (record parent { rank = infinite_rank });
  my_rank = infinite_rank;
  trickle_w = record { running = true; after = seconds 1; period = dag.trickle_t };
}

-- `now - parent_last_seen < timeout` is written without the subtraction.
unfoldable pub check_parent :
    {F : Type 0} → Bool → Time → Dag → Option Peer → Adaptive F → Checkup F
check_parent enabled now dag none adp = record { dag = dag; adp = adp; effects = [] }
check_parent enabled now dag (some parent) adp =
    if (parent.rank == infinite_rank)
      || ltb now (dag.parent_last_seen + parent_timeout_factor * dag.trickle_t)
    then record { dag = dag; adp = adp; effects = [] }
    else record {
      dag = give_up dag parent;
      adp = note_change enabled now adp;
      effects = del_route_via dag.ifindex dag.dest ∷ [];
    }

unfoldable pub parent_check_cb : {F : Type 0} → Bool → Time → Dag → Adaptive F → Checkup F
parent_check_cb enabled now dag adp =
    if dag.my_rank == 1
    then record { dag = dag; adp = adp; effects = [] }
    else check_parent enabled now dag dag.parent adp

-- The class of the first dag, or the one given where there is none.
unfoldable pub class_in_rpls : List Rpl → NodeClass → NodeClass
class_in_rpls [] default = default
class_in_rpls (r ∷ rs) default = elim r.dags [
  | [] ↦ class_in_rpls rs default
  | d ∷ ds ↦ d.node_class
]

unfoldable pub first_class : List Iface → NodeClass
first_class [] = class_s
first_class (iface ∷ ifaces) = class_in_rpls iface.rpls (first_class ifaces)

pub record Daemon (F : Type 0) : Type 0 where
  pub ifaces : List Iface
  pub adp : Adaptive F
  pub sec : FifoSec
  pub enabled : Bool

-- A recommendation is applied unless the last switch, of either kind, is less than ten seconds old.
unfoldable pub apply_recommendation : {F : Type 0} → Time → Option NodeClass → Daemon F → Daemon F
apply_recommendation now none s = s
apply_recommendation now (some new_class) s =
    if ltb now (s.sec.last_switch_time + min_switch_interval) then s else record s {
      ifaces = apply_class new_class s.ifaces;
      sec = record s.sec { last_switch_time = now };
    }

module _ {F : Type 0} (fl : FloatOps F) (hmac : List ℕ → List ℕ → List ℕ) where
  unfoldable pub adaptive_step : Time → Daemon F → Daemon F
  adaptive_step now s =
      let (adp', recommended) = get_recommendation fl (first_class s.ifaces) s.adp in
      apply_recommendation now recommended (record s { adp = adp' })

  -- A command that was applied ends the round; else an enabled engine is asked.
  unfoldable pub after_poll : Time → Option NodeClass → Daemon F → Daemon F
  after_poll now (some new_class) s = s
  after_poll now none s = if s.enabled then adaptive_step now s else s

  unfoldable pub hymrpl_periodic_cb : Time → Bool → Option (List ℕ) → Daemon F → Daemon F
  hymrpl_periodic_cb now opens input s =
      let r = fifo_sec_check hmac now opens input s.sec s.ifaces in
      after_poll now r.result (record s { ifaces = r.ifaces; sec = r.sec })
