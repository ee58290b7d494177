-- ===== src/Rpld/System/Sound.antt =====
-- What holds of the daemon after every run.
use rpld_hymrpl.Prelude.{
  ℕ, ◌≡◌, ◌∙◌, sym, Bool, Option, none, some, List, [], ◌∷◌, map, Each, Each-get, Each-set,
  Each-map, Bool-cases, inl, inr, arith,
}
use rpld_hymrpl.Dag.{Time, NodeClass, Dag, Rpl, Iface}
use rpld_hymrpl.Dag.ClassSwitch.{AllOf, RplsOf, DagsOf, blot, blot_dag, blot_rpl, blot_iface}
use rpld_hymrpl.Adaptive.{FloatOps}
use rpld_hymrpl.Fifo.{FifoSec}
use rpld_hymrpl.Process.{Net}
use rpld_hymrpl.Process.Dio.Rank.{IsRanked}
use rpld_hymrpl.Process.Sound.{
  SoundDag, SoundRpl, SoundIface, IsSound, DagLaws, dag_at-SoundDag, put_dag-SoundIface,
}
use rpld_hymrpl.Process.Sound.Packet.{process-IsSound}
use rpld_hymrpl.Rpld.{Daemon}
use rpld_hymrpl.Rpld.Liveness.{parent_check_cb-IsRanked, parent_check_cb_class}
use rpld_hymrpl.Rpld.Switching.{Turns, round_switch, round, round-Turns}
use rpld_hymrpl.Rpld.Timers.{
  dag_init_timer, setup_dags, setup_rpls, rpld_setup, send_dis_cb, reload_cb, reload_with,
  reload_iface, reload_rpl, reload_dag, Scanned, read_trickle_config,
}
use rpld_hymrpl.Rpld.System.{
  Step, packet_in, liveness_due, round_due, evaluation_due, solicitation_due, reload_asked, Steps,
  done, next, start_daemon,
}

abbrev pub RankedRpl : Rpl → Type 0
RankedRpl r = Each IsRanked r.dags

abbrev pub RankedIface : Iface → Type 0
RankedIface i = Each RankedRpl i.rpls

-- The ranks of sound dags do not depend on the classes.
blot-Ranked : (ifaces : List Iface) → IsSound ifaces → Each RankedIface (blot ifaces)
blot-Ranked ifaces h =
    Each-map SoundIface RankedIface blot_iface
      (λ i.
        Each-map (SoundRpl i.node_class) RankedRpl blot_rpl
          (λ r. Each-map (SoundDag i.node_class) IsRanked blot_dag (λ d k. k.0) r.dags) i.rpls)
      ifaces h

DagsOf-Sound :
    (c own : NodeClass) (ds : List Dag)
    → own ≡ c
    → Each IsRanked (map blot_dag ds)
    → DagsOf c ds
    → Each (SoundDag own) ds
DagsOf-Sound c own [] e h k = tt
DagsOf-Sound c own (d ∷ ds) e h k = ((h.0, k.0 ∙ sym e), DagsOf-Sound c own ds e h.1 k.1)

RplsOf-Sound :
    (c own : NodeClass) (rs : List Rpl)
    → own ≡ c
    → Each RankedRpl (map blot_rpl rs)
    → RplsOf c rs
    → Each (SoundRpl own) rs
RplsOf-Sound c own [] e h k = tt
RplsOf-Sound c own (r ∷ rs) e h k =
    (DagsOf-Sound c own r.dags e h.0 k.0, RplsOf-Sound c own rs e h.1 k.1)

AllOf-Sound :
    (c : NodeClass) (is : List Iface) → Each RankedIface (blot is) → AllOf c is → IsSound is
AllOf-Sound c [] h k = tt
AllOf-Sound c (i ∷ is) h k =
    (RplsOf-Sound c i.node_class i.rpls k.0 h.0 k.1, AllOf-Sound c is h.1 k.2)

Turns-IsSound :
    (out : Option NodeClass) (now : Time) (sec sec' : FifoSec) (ifaces ifaces' : List Iface)
    → Turns out now sec ifaces sec' ifaces'
    → IsSound ifaces
    → IsSound ifaces'
Turns-IsSound none now sec sec' ifaces ifaces' h sound = rw h.1 sound
Turns-IsSound (some c) now sec sec' ifaces ifaces' h sound =
    AllOf-Sound c ifaces' (rw h.1 (blot-Ranked ifaces sound)) h.0

send_dis_cb-SoundIface : (iface : Iface) → SoundIface iface → SoundIface (send_dis_cb iface).0
unfolding send_dis_cb
send_dis_cb-SoundIface iface h = ground arith

reload_with-IsSound :
    (new : Option Scanned) (is : List Iface) → IsSound is → IsSound (reload_with new is)
unfolding reload_with reload_iface reload_rpl reload_dag
reload_with-IsSound none is h = h
reload_with-IsSound (some t) is h = elim (Bool-cases t.le_zero) [
  | inl refused ↦ rw (refused, reload_with) h
  | inr taken ↦
      rw (taken, reload_with)
        (Each-map SoundIface SoundIface (reload_iface t.period)
          (λ i.
            Each-map (SoundRpl i.node_class) (SoundRpl i.node_class) (reload_rpl t.period)
              (λ r.
                Each-map (SoundDag i.node_class) (SoundDag i.node_class) (reload_dag t.period)
                  (λ d k. k) r.dags)
              i.rpls)
          is h)
]

setup_dags-Sound :
    (now : Time) (root : Bool) (ifindex : ℕ) (c : NodeClass) (ds : List Dag)
    → Each (SoundDag c) ds
    → Each (SoundDag c) (setup_dags now root ifindex ds).0
unfolding setup_dags dag_init_timer
setup_dags-Sound now root ifindex c [] h = tt
setup_dags-Sound now root ifindex c (d ∷ ds) h = (h.0, setup_dags-Sound now root ifindex c ds h.1)

setup_rpls-Sound :
    (now : Time) (root : Bool) (ifindex : ℕ) (c : NodeClass) (rs : List Rpl)
    → Each (SoundRpl c) rs
    → Each (SoundRpl c) (setup_rpls now root ifindex rs).0
unfolding setup_rpls
setup_rpls-Sound now root ifindex c [] h = tt
setup_rpls-Sound now root ifindex c (r ∷ rs) h =
    (setup_dags-Sound now root ifindex c r.dags h.0, setup_rpls-Sound now root ifindex c rs h.1)

rpld_setup-IsSound : (now : Time) (is : List Iface) → IsSound is → IsSound (rpld_setup now is).0
unfolding rpld_setup
rpld_setup-IsSound now [] h = tt
rpld_setup-IsSound now (i ∷ is) h = (
  setup_rpls-Sound now i.dodag_root i.ifindex i.node_class i.rpls h.0,
  rpld_setup-IsSound now is h.1,
)

module _ {F : Type 0} (fl : FloatOps F) (hmac : List ℕ → List ℕ → List ℕ) (net : Net)
    (laws : DagLaws net) where
  Step-IsSound : {s t : Daemon F} → Step fl hmac net s t → IsSound s.ifaces → IsSound t.ifaces
  unfolding reload_cb
  Step-IsSound (packet_in now found packet len from adp s) h =
      process-IsSound net laws now s.ifaces found packet len from h
  Step-IsSound (liveness_due now place ref iface dag s at_place at_ref) h =
      let held : SoundIface iface = rw at_place at (Each-get SoundIface s.ifaces place h) in
      let (ranked, of_class) : SoundDag iface.node_class dag =
        rw at_ref at (dag_at-SoundDag iface ref held) in
      Each-set SoundIface s.ifaces place h (
        put_dag-SoundIface iface ref _ held (
          parent_check_cb-IsRanked s.enabled now s.adp dag ranked,
          parent_check_cb_class s.enabled now s.adp dag ∙ of_class,
        ))
  Step-IsSound (round_due p s) h =
      Turns-IsSound (round_switch fl hmac p s) p.now s.sec (round fl hmac p s).sec s.ifaces
        (round fl hmac p s).ifaces (round-Turns fl hmac p s) h
  Step-IsSound (evaluation_due now battery capacity s) h = h
  Step-IsSound (solicitation_due place iface s at_place) h =
      let held : SoundIface iface = rw at_place at (Each-get SoundIface s.ifaces place h) in
      Each-set SoundIface s.ifaces place h (send_dis_cb-SoundIface iface held)
  Step-IsSound (reload_asked conf s) h = reload_with-IsSound (read_trickle_config conf) s.ifaces h

  Steps-IsSound : {s t : Daemon F} → Steps fl hmac net s t → IsSound s.ifaces → IsSound t.ifaces
  Steps-IsSound (done s) h = h
  Steps-IsSound (next steps step) h = Step-IsSound step (Steps-IsSound steps h)

  -- In every run of the event loop from its start, in whatever order packets, liveness checks,
  -- rounds, evaluations, solicitations and reloads come, every dag has the class of its interface,
  -- and its rank is tied to its parent's: without a parent it is 1 or 65535; with one it is the
  -- parent's and one more in sixteen bits, so 0 under a parent of rank 65535, where it can
  -- also be 65535. The configured dags must be so from the start. It relies on `DagLaws`.
  pub event_loop-IsSound :
      (now : Time) (token_file : Option (List ℕ)) (ifaces : List Iface) {s : Daemon F}
      → IsSound ifaces
      → Steps fl hmac net (start_daemon fl now token_file ifaces) s
      → IsSound s.ifaces
  unfolding start_daemon
  event_loop-IsSound now token_file ifaces h steps =
      Steps-IsSound steps (rpld_setup-IsSound now ifaces h)
