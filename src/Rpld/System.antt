-- ===== src/Rpld/System.antt =====
-- The daemon as a whole: whatever the event loop of rpld_new.c may run next, as a step relation. The
-- notices to the engine that process.c sends go to code outside this repository, so a packet may leave
-- the engine in any state.
pub mod Sound
pub mod Node
pub mod Outcomes
pub mod Replay
use rpld_hymrpl.Prelude.{
  ℕ, ◌+◌, ◌≡◌, Bool, true, false, Option, none, some, List, [], ◌∷◌, get_elem?, set, replicate,
  if◌then◌else◌,
}
use rpld_hymrpl.Dag.{Addr, Time, class_s, Dag, Iface}
use rpld_hymrpl.Adaptive.{
  FloatOps, Adaptive, adaptive_init, adaptive_eval_cb, pdr_window_size, stability_nmax,
}
use rpld_hymrpl.Fifo.{fifo_sec_init}
use rpld_hymrpl.Fifo.Cases.{Poll}
use rpld_hymrpl.Wire.{Memory}
use rpld_hymrpl.Process.{DagRef, dag_at, put_dag, Net}
use rpld_hymrpl.Process.Dispatch.{process}
use rpld_hymrpl.Process.Sound.Packet.{located}
use rpld_hymrpl.Rpld.{Daemon, parent_check_cb, hymrpl_periodic_cb}
use rpld_hymrpl.Rpld.Timers.{rpld_setup, send_dis_cb, Scanned, reload_cb}

-- The first interface that is no root.
unfoldable pub first_node : List Iface → Option Iface
first_node [] = none
first_node (iface ∷ ifaces) = if iface.dodag_root then first_node ifaces else some iface

module _ {F : Type 0} (fl : FloatOps F) where
  -- `g_adaptive` before anything is written to it, which on a root is never.
  abbrev pub static_adaptive : Adaptive F
  static_adaptive = record {
    pdr = fl.int 0;
    energy_pct = fl.int 0;
    energy_ema = fl.int 0;
    pdr_window = replicate pdr_window_size 0;
    pdr_idx = 0;
    pdr_count = 0;
    parent_change_times = replicate (stability_nmax + 1) 0;
    parent_change_count = 0;
    s_stab = fl.int 0;
    last_score = fl.int 0;
    hysteresis_counter = 0;
    pending_class = class_s;
    eval_w = record { running = false; after = 0; period = 0 };
    last_parent_change = 0;
    last_parent_addr = 0;
    battery_path = [];
  }

  -- The engine, and whether it is enabled.
  unfoldable pub start_engine : Option Iface → Adaptive F × Bool
  start_engine none = (static_adaptive, false)
  start_engine (some iface) = (adaptive_init fl (some iface.ifname), true)

  -- What main sets up before the event loop runs, from the interfaces of the configuration. The
  -- result of `hymrpl_fifo_sec_init` is not looked at.
  unfoldable pub start_daemon : Time → Option (List ℕ) → List Iface → Daemon F
  start_daemon now token_file ifaces =
      let (adp, enabled) = start_engine (first_node ifaces) in
      record {
        ifaces = (rpld_setup now ifaces).0;
        adp = adp;
        sec = (fifo_sec_init now token_file).0;
        enabled = enabled;
      }

module _ {F : Type 0} (fl : FloatOps F) (hmac : List ℕ → List ℕ → List ℕ) (net : Net) where
  pub data Step : Daemon F → Daemon F → Type 0 where
    -- icmpv6_cb, with a packet on the interface at a place, or on none
    packet_in :
        (now : Time) (found : Option ℕ) (packet : Memory) (len : ℕ) (from : Addr) (adp : Adaptive F)
        (s : Daemon F)
        → Step s (record s {
          ifaces = (process net now s.ifaces (located s.ifaces found) packet len from).0;
          adp = adp;
        })
    -- parent_check_cb for a dag of an interface
    liveness_due :
        (now : Time) (place : ℕ) (ref : DagRef) (iface : Iface) (dag : Dag) (s : Daemon F)
        → get_elem? s.ifaces place ≡ some iface
        → dag_at iface ref ≡ some dag
        → Step s (record s {
          ifaces =
              set s.ifaces place (put_dag iface ref (parent_check_cb s.enabled now dag s.adp).dag);
          adp = (parent_check_cb s.enabled now dag s.adp).adp;
        })
    -- hymrpl_periodic_cb
    round_due :
        (p : Poll) (s : Daemon F) → Step s (hymrpl_periodic_cb fl hmac p.now p.opens p.input s)
    -- adaptive_eval_cb
    evaluation_due :
        (now : Time) (battery capacity : Option (Option F)) (s : Daemon F)
        → Step s (record s { adp = adaptive_eval_cb fl now battery capacity s.adp })
    -- send_dis_cb
    solicitation_due :
        (place : ℕ) (iface : Iface) (s : Daemon F)
        → get_elem? s.ifaces place ≡ some iface
        → Step s (record s { ifaces = set s.ifaces place (send_dis_cb iface).0 })
    -- reload_cb
    reload_asked :
        (conf : Option (Option Scanned × Option Scanned)) (s : Daemon F)
        → Step s (record s { ifaces = reload_cb conf s.ifaces })

  -- Any number of steps.
  pub data Steps : Daemon F → Daemon F → Type 0 where
    done : (s : Daemon F) → Steps s s
    next : {s t u : Daemon F} → Steps s t → Step t u → Steps s u
