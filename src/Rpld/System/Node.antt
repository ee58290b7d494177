-- ===== src/Rpld/System/Node.antt =====
-- The daemon as an abstract node: the classes of its interfaces and the time of the last switch.
use rpld_hymrpl.Prelude.{
  ℕ, ◌+◌, ◌≤◌, ◌≡◌, ◌∙◌, refl, sym, ap, ap₂, Option, none, some, List, [], ◌∷◌, arith, map, length,
  length-map, replicate,
}
use rpld_hymrpl.Dag.{Time, NodeClass, Iface}
use rpld_hymrpl.Dag.ClassSwitch.{AllOf, blot, blot_iface}
use rpld_hymrpl.Adaptive.{FloatOps}
use rpld_hymrpl.Fifo.{min_switch_interval}
use rpld_hymrpl.Fifo.Limits.{IsSpaced}
use rpld_hymrpl.Process.{put_dag, Net}
use rpld_hymrpl.Process.Sound.{DagLaws}
use rpld_hymrpl.Process.Sound.Classes.{class_of, map-set_same, process-classes}
use rpld_hymrpl.Rpld.{Daemon}
use rpld_hymrpl.Rpld.Switching.{Turns, round_switch, round, round-Turns}
use rpld_hymrpl.Rpld.Timers.{
  send_dis_cb, Scanned, reload_cb, reload_with, reload_iface, read_trickle_config,
}
use rpld_hymrpl.Rpld.System.{
  Step, packet_in, liveness_due, round_due, evaluation_due, solicitation_due, reload_asked, Steps,
  done, next,
}

pub record Node : Type 0 where
  pub classes : List NodeClass
  pub last_switch : Time

abbrev pub node : {F : Type 0} → Daemon F → Node
node s = record { classes = map class_of s.ifaces; last_switch = s.sec.last_switch_time }

-- One step of the abstract node, with the time of the switch, if it is one.
pub data NodeStep (n m : Node) : Option Time → Type 0 where
  stays : m ≡ n → NodeStep n m none
  switches :
      (now : Time) (c : NodeClass)
      → n.last_switch + min_switch_interval ≤ now
      → m ≡ record { classes = replicate (length n.classes) c; last_switch = now }
      → NodeStep n m (some now)

abbrev pub log_time : Option Time → List Time → List Time
log_time none log = log
log_time (some now) log = now ∷ log

-- A run of the abstract node, with the times of its switches, latest first.
pub data NodeRun (n : Node) : Node → List Time → Type 0 where
  begins : NodeRun n n []
  goes :
      {m m' : Node} {log : List Time} (at_time : Option Time)
      → NodeRun n m log
      → NodeStep m m' at_time
      → NodeRun n m' (log_time at_time log)

abbrev pub IsLast : Node → List Time → Type 0
IsLast n [] = Unit {0}
IsLast n (t ∷ ts) = n.last_switch ≡ t

NodeStep-IsSpaced :
    (n m : Node) (at_time : Option Time) (log : List Time)
    → NodeStep n m at_time
    → IsSpaced log
    → IsLast n log
    → IsSpaced (log_time at_time log) × IsLast m (log_time at_time log)
NodeStep-IsSpaced n m none [] (stays e) spaced last = (tt, tt)
NodeStep-IsSpaced n m none (t ∷ ts) (stays e) spaced last =
    (spaced, ap (λ x. x.last_switch) e ∙ last)
NodeStep-IsSpaced n m (some t') [] (switches now c late e) spaced last =
    (tt, ap (λ x. x.last_switch) e)
NodeStep-IsSpaced n m (some now) (t ∷ ts) (switches t' c late e) spaced last =
    ((omega (arith, last, late), spaced), ap (λ x. x.last_switch) e)

NodeRun-IsSpaced : {n m : Node} {log : List Time} → NodeRun n m log → IsSpaced log × IsLast m log
NodeRun-IsSpaced begins = (tt, tt)
NodeRun-IsSpaced (goes {m = m} {m' = m'} {log = log} at_time run step) =
    let (spaced, last) = NodeRun-IsSpaced run in NodeStep-IsSpaced m m' at_time log step spaced last

AllOf-replicate :
    (c : NodeClass) (is js : List Iface)
    → AllOf c is
    → length is ≡ length js
    → map class_of is ≡ replicate (length (map class_of js)) c
AllOf-replicate c [] [] h e = refl
AllOf-replicate c [] (j ∷ js) h e = absurd (omega (arith, e))
AllOf-replicate c (i ∷ is) [] h e = absurd (omega (arith, e))
AllOf-replicate c (i ∷ is) (j ∷ js) h e =
    ap₂ ◌∷◌ h.0 (AllOf-replicate c is js h.2 (omega (arith, e)))

length-blot : (is js : List Iface) → blot is ≡ blot js → length is ≡ length js
length-blot is js e = sym (length-map is blot_iface) ∙ ap length e ∙ length-map js blot_iface

send_dis_cb_class : (iface : Iface) → (send_dis_cb iface).0.node_class ≡ iface.node_class
unfolding send_dis_cb
send_dis_cb_class iface = ground arith

map-reload_iface :
    (t : Time) (is : List Iface) → map class_of (map (reload_iface t) is) ≡ map class_of is
unfolding reload_iface
map-reload_iface t [] = refl
map-reload_iface t (i ∷ is) = ap (λ cs. i.node_class ∷ cs) (map-reload_iface t is)

reload_with-classes :
    (new : Option Scanned) (is : List Iface) → map class_of (reload_with new is) ≡ map class_of is
unfolding reload_with
reload_with-classes none is = refl
reload_with-classes (some t) is = ground (arith, map-reload_iface t.period is)

keeps :
    (n m : Node)
    → m.classes ≡ n.classes
    → m.last_switch ≡ n.last_switch
    → (at_time : Option Time) × NodeStep n m at_time
keeps n m e f = (none, stays (ap₂ (λ cs l. record { classes = cs; last_switch = l }) e f))

Turns-NodeStep :
    {F : Type 0} (out : Option NodeClass) (now : Time) (s t : Daemon F)
    → Turns out now s.sec s.ifaces t.sec t.ifaces
    → (at_time : Option Time) × NodeStep (node s) (node t) at_time
Turns-NodeStep none now s t h = keeps (node s) (node t) (ap (map class_of) h.1) h.0
Turns-NodeStep (some c) now s t h =
    let all = AllOf-replicate c t.ifaces s.ifaces h.0 (length-blot t.ifaces s.ifaces h.1) in
    (some now, switches now c h.3 (ap₂ (λ cs l. record { classes = cs; last_switch = l }) all h.2))

module _ {F : Type 0} (fl : FloatOps F) (hmac : List ℕ → List ℕ → List ℕ) (net : Net)
    (laws : DagLaws net) where
  Step-NodeStep :
      {s t : Daemon F}
      → Step fl hmac net s t
      → (at_time : Option Time) × NodeStep (node s) (node t) at_time
  unfolding reload_cb put_dag
  Step-NodeStep (packet_in now found packet len from adp s) =
      keeps (node s) _ (process-classes net laws now s.ifaces found packet len from) refl
  Step-NodeStep (liveness_due now place ref iface dag s at_place at_ref) =
      keeps (node s) _ (map-set_same s.ifaces place iface _ at_place refl) refl
  Step-NodeStep (round_due p s) =
      Turns-NodeStep (round_switch fl hmac p s) p.now s (round fl hmac p s)
        (round-Turns fl hmac p s)
  Step-NodeStep (evaluation_due now battery capacity s) = keeps (node s) _ refl refl
  Step-NodeStep (solicitation_due place iface s at_place) =
      keeps (node s) _ (map-set_same s.ifaces place iface _ at_place (send_dis_cb_class iface)) refl
  Step-NodeStep (reload_asked conf s) =
      keeps (node s) _ (reload_with-classes (read_trickle_config conf) s.ifaces) refl

  Steps-NodeRun :
      {s t : Daemon F} → Steps fl hmac net s t → (log : List Time) × NodeRun (node s) (node t) log
  Steps-NodeRun (done s) = ([], begins)
  Steps-NodeRun (next steps step) =
      let (log, run) = Steps-NodeRun steps in
      let (at_time, one) = Step-NodeStep step in (log_time at_time log, goes at_time run one)

  -- With `DagLaws`: every run of the event loop, in whatever order its callbacks come, is for the
  -- classes of the interfaces a run of the abstract node, of which each step either changes nothing or
  -- gives one class to all interfaces at once; and the times of its switches, by command or by the
  -- engine, lie ten seconds apart at least.
  pub event_loop-NodeRun :
      {s t : Daemon F}
      → Steps fl hmac net s t
      → (log : List Time) × NodeRun (node s) (node t) log × IsSpaced log
  event_loop-NodeRun steps =
      let (log, run) = Steps-NodeRun steps in (log, run, (NodeRun-IsSpaced run).0)
