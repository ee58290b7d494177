-- ===== src/Rpld/Switching.antt =====
-- The periodic round: which switches it makes, and how far apart.
pub mod Deciding
use rpld_hymrpl.Prelude.{
  ℕ, ◌+◌, ◌≤◌, ◌≡◌, inl, inr, refl, sym, ap, ◌∙◌, Bool, true, false, Option, none, some, List, [],
  ◌∷◌, arith, leb, Bool-cases, ◌||◌, if◌then◌else◌,
}
use rpld_hymrpl.Dag.{Time, NodeClass, Iface}
use rpld_hymrpl.Dag.ClassSwitch.{AllOf, blot, apply_class-AllOf, blot-apply_class}
use rpld_hymrpl.Adaptive.{FloatOps, get_recommendation}
use rpld_hymrpl.Fifo.{FifoSec, reset_minute, switch_class, too_fast, min_switch_interval}
use rpld_hymrpl.Fifo.Cases.{Poll, check, check_cases}
use rpld_hymrpl.Fifo.Limits.{IsSpaced, authenticate-SameLimits}
use rpld_hymrpl.Rpld.{
  Daemon, first_class, apply_recommendation, adaptive_step, after_poll, hymrpl_periodic_cb,
}

-- The last switch, of either kind, is the latest of the log.
abbrev pub IsLast : FifoSec → List Time → Type 0
IsLast sec [] = Unit {0}
IsLast sec (t ∷ ts) = sec.last_switch_time ≡ t

-- What a part of a round does at time `now`. With no class it makes no switch: interfaces and the
-- time of the last switch stay. With a class it sets all to that class and nothing else, and the last
-- switch, ten seconds or more ago before, is now.
abbrev pub Turns : Option NodeClass → Time → FifoSec → List Iface → FifoSec → List Iface → Type 0
Turns none now sec ifaces sec' ifaces' =
    (sec'.last_switch_time ≡ sec.last_switch_time) × (ifaces' ≡ ifaces)
Turns (some c) now sec ifaces sec' ifaces' =
    AllOf c ifaces'
    × (blot ifaces' ≡ blot ifaces)
    × (sec'.last_switch_time ≡ now)
    × (sec.last_switch_time + min_switch_interval ≤ now)

switch_class-Turns :
    (now : Time) (c : NodeClass) (sec : FifoSec) (ifaces : List Iface)
    → let r = switch_class now c sec ifaces in Turns r.result now sec ifaces r.sec r.ifaces
unfolding switch_class reset_minute
switch_class-Turns now c sec ifaces =
    let sec' = reset_minute now sec in
    elim (Bool-cases (leb 3 sec'.switches_this_minute || too_fast now sec')) [
      | inl limited ↦ rw limited (ground arith, refl)
      | inr free ↦
          rw free (apply_class-AllOf c ifaces, blot-apply_class c ifaces, refl, ground arith)
    ]

Turns-from :
    (out : Option NodeClass) (now : Time) (sec sec' sec'' : FifoSec)
    (ifaces ifaces' ifaces'' : List Iface)
    → sec.last_switch_time ≡ sec'.last_switch_time
    → ifaces' ≡ ifaces
    → Turns out now sec' ifaces' sec'' ifaces''
    → Turns out now sec ifaces sec'' ifaces''
Turns-from none now sec sec' sec'' ifaces ifaces' ifaces'' e f h = (h.0 ∙ sym e, h.1 ∙ f)
Turns-from (some c) now sec sec' sec'' ifaces ifaces' ifaces'' e f h =
    (h.0, h.1 ∙ ap blot f, h.2, omega (arith, e, h.3))

module _ (hmac : List ℕ → List ℕ → List ℕ) where
  check-Turns :
      (p : Poll) (sec : FifoSec) (ifaces : List Iface)
      → let r = check hmac p sec ifaces in Turns r.result p.now sec ifaces r.sec r.ifaces
  check-Turns p sec ifaces = elim (check_cases hmac p sec ifaces) [
    | inl stops ↦ rw stops.returns (refl, refl)
    | inr goes ↦
        let (same, _, _) =
          authenticate-SameLimits hmac (record sec { fifo_open = true }) goes.msg goes.accepts in
        rw goes.returns (
          Turns-from _ p.now sec goes.sec' _ ifaces ifaces _ same refl
            (switch_class-Turns p.now goes.new_class goes.sec' ifaces))
  ]

-- The recommendation that is not held back by the interval.
abbrev pub let_through : Time → FifoSec → Option NodeClass → Option NodeClass
let_through now sec none = none
let_through now sec (some c) = if too_fast now sec then none else some c

apply_recommendation-Turns :
    {F : Type 0} (now : Time) (out : Option NodeClass) (s : Daemon F)
    → let s' = apply_recommendation now out s in
      Turns (let_through now s.sec out) now s.sec s.ifaces s'.sec s'.ifaces
unfolding apply_recommendation
apply_recommendation-Turns now none s = (refl, refl)
apply_recommendation-Turns now (some c) s = elim (Bool-cases (too_fast now s.sec)) [
  | inl early ↦ rw early (refl, refl)
  | inr late ↦
      rw late (apply_class-AllOf c s.ifaces, blot-apply_class c s.ifaces, refl, ground arith)
]

module _ {F : Type 0} (fl : FloatOps F) (hmac : List ℕ → List ℕ → List ℕ) where
  -- The daemon after a poll of the FIFO.
  abbrev pub polled : Poll → Daemon F → Daemon F
  polled p s = record s {
    ifaces = (check hmac p s.sec s.ifaces).ifaces;
    sec = (check hmac p s.sec s.ifaces).sec;
  }

  -- The class that a round switches to, by the result of its poll and the daemon after it.
  abbrev pub decided : Time → Option NodeClass → Daemon F → Option NodeClass
  decided now (some c) s = some c
  decided now none s =
      if s.enabled
      then let_through now s.sec (get_recommendation fl (first_class s.ifaces) s.adp).1
      else none

  after_poll-Turns :
      (now : Time) (out : Option NodeClass) (sec : FifoSec) (ifaces : List Iface) (s : Daemon F)
      → Turns out now sec ifaces s.sec s.ifaces
      → Turns
          (decided now out s)
          now
          sec
          ifaces
          (after_poll fl hmac now out s).sec
          (after_poll fl hmac now out s).ifaces
  unfolding after_poll adaptive_step
  after_poll-Turns now (some c) sec ifaces s h = h
  after_poll-Turns now none sec ifaces s h = if_Turns s.enabled
    where
      out : Option NodeClass
      out = (get_recommendation fl (first_class s.ifaces) s.adp).1

      s' : Daemon F
      s' = record s { adp = (get_recommendation fl (first_class s.ifaces) s.adp).0 }

      if_Turns :
          (on : Bool)
          → let after = if on then adaptive_step fl hmac now s else s in
            Turns
              (if on then let_through now s.sec out else none)
              now
              sec
              ifaces
              after.sec
              after.ifaces
      if_Turns true =
          Turns-from (let_through now s.sec out) now sec s.sec _ ifaces s.ifaces _ (sym h.0) h.1
            (apply_recommendation-Turns now out s')
      if_Turns false = h

  abbrev pub round_switch : Poll → Daemon F → Option NodeClass
  round_switch p s = decided p.now (check hmac p s.sec s.ifaces).result (polled p s)

  abbrev pub round : Poll → Daemon F → Daemon F
  round p s = hymrpl_periodic_cb fl hmac p.now p.opens p.input s

  -- A round either makes no switch, by FIFO or engine, and leaves the interfaces alone; or it sets
  -- every interface and dag to one class, changes nothing else of them, and does so ten seconds or
  -- more after the last switch of either kind.
  pub round-Turns :
      (p : Poll) (s : Daemon F)
      → Turns (round_switch p s) p.now s.sec s.ifaces (round p s).sec (round p s).ifaces
  unfolding hymrpl_periodic_cb
  round-Turns p s =
      after_poll-Turns p.now (check hmac p s.sec s.ifaces).result s.sec s.ifaces (polled p s)
        (check-Turns hmac p s.sec s.ifaces)

  -- The times of the switches of a run of rounds, latest first.
  abbrev pub log_switch : Time → Option NodeClass → List Time → List Time
  log_switch now none log = log
  log_switch now (some c) log = now ∷ log

  abbrev pub rounds_log : List Poll → Daemon F → List Time → List Time
  rounds_log [] s log = log
  rounds_log (p ∷ ps) s log = rounds_log ps (round p s) (log_switch p.now (round_switch p s) log)

  log_switch-IsSpaced :
      (out : Option NodeClass) (now : Time) (sec sec' : FifoSec) (ifaces ifaces' : List Iface)
      (log : List Time)
      → Turns out now sec ifaces sec' ifaces'
      → IsSpaced log
      → IsLast sec log
      → IsSpaced (log_switch now out log) × IsLast sec' (log_switch now out log)
  log_switch-IsSpaced none now sec sec' ifaces ifaces' [] h spaced last = (tt, tt)
  log_switch-IsSpaced none now sec sec' ifaces ifaces' (t ∷ ts) h spaced last = (spaced, h.0 ∙ last)
  log_switch-IsSpaced (some c) now sec sec' ifaces ifaces' [] h spaced last = (tt, h.2)
  log_switch-IsSpaced (some c) now sec sec' ifaces ifaces' (t ∷ ts) h spaced last =
      ((omega (arith, last, h.3), spaced), h.2)

  rounds_log-IsSpaced :
      (ps : List Poll) (s : Daemon F) (log : List Time)
      → IsSpaced log
      → IsLast s.sec log
      → IsSpaced (rounds_log ps s log)
  rounds_log-IsSpaced [] s log spaced last = spaced
  rounds_log-IsSpaced (p ∷ ps) s log spaced last =
      let (spaced', last') =
        log_switch-IsSpaced (round_switch p s) p.now s.sec (round p s).sec s.ifaces
          (round p s).ifaces log (round-Turns p s) spaced last in
      rounds_log-IsSpaced ps (round p s) (log_switch p.now (round_switch p s) log) spaced' last'

  -- Over every run of rounds, from any daemon, with any input and clock: two switches, whether they
  -- come from the FIFO or from the engine, lie at least ten seconds apart.
  pub all_switches-IsSpaced : (ps : List Poll) (s : Daemon F) → IsSpaced (rounds_log ps s [])
  all_switches-IsSpaced ps s = rounds_log-IsSpaced ps s [] tt tt
