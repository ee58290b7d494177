-- ===== src/Rpld/Switching/Deciding.antt =====
-- The engine's decision carried out: rounds of the daemon in which no command comes.
use rpld_hymrpl.Prelude.{
  ℕ, ◌+◌, ◌≤◌, ◌≡◌, ◌≢◌, refl, ap, ◌∙◌, inl, inr, Bool, true, false, none, some, List, arith, ltb,
  if◌then◌else◌,
}
use rpld_hymrpl.Dag.{NodeClass, Iface, apply_class}
use rpld_hymrpl.Dag.ClassSwitch.{AllOf, blot, apply_class-AllOf, blot-apply_class}
use rpld_hymrpl.Adaptive.{FloatOps, get_recommendation, score, class_of_score}
use rpld_hymrpl.Adaptive.Hysteresis.{recommends_third_time}
use rpld_hymrpl.Fifo.{FifoSec, min_switch_interval}
use rpld_hymrpl.Fifo.Cases.{Poll, check, check_cases}
use rpld_hymrpl.Rpld.{
  Daemon, first_class, apply_recommendation, adaptive_step, after_poll, hymrpl_periodic_cb,
}
use rpld_hymrpl.Rpld.Switching.{round}

module _ {F : Type 0} (fl : FloatOps F) (hmac : List ℕ → List ℕ → List ℕ) where
  -- The daemon with the FIFO open or not.
  abbrev opened : Bool → Daemon F → Daemon F
  opened o s = record s { sec = record s.sec { fifo_open = o } }

  quiet_check :
      (p : Poll) (sec : FifoSec) (ifaces : List Iface)
      → p.input ≡ none
      → (o : Bool) × (check hmac p sec ifaces
          ≡ record { sec = record sec { fifo_open = o }; ifaces = ifaces; result = none })
  quiet_check p sec ifaces e = elim (check_cases hmac p sec ifaces) [
    | inl stops ↦ (stops.opened, stops.returns)
    | inr goes ↦ absurd (ground (arith, goes.reads, e))
  ]

  quiet_round :
      (p : Poll) (s : Daemon F)
      → p.input ≡ none
      → s.enabled ≡ true
      → (o : Bool) × (round fl hmac p s ≡ adaptive_step fl hmac p.now (opened o s))
  unfolding hymrpl_periodic_cb after_poll
  quiet_round p s e on =
      let (o, quiet) = quiet_check p s.sec s.ifaces e in
      (
        o,
        ap (λ r. after_poll fl hmac p.now r.result (record s { ifaces = r.ifaces; sec = r.sec }))
              quiet
            ∙ ap (λ b. if b then adaptive_step fl hmac p.now (opened o s) else opened o s) on,
      )

  idle_round :
      (p : Poll) (s : Daemon F)
      → p.input ≡ none
      → s.enabled ≡ true
      → (get_recommendation fl (first_class s.ifaces) s.adp).1 ≡ none
      → (o : Bool) × (round fl hmac p s
          ≡ opened o (record s { adp = (get_recommendation fl (first_class s.ifaces) s.adp).0 }))
  unfolding adaptive_step apply_recommendation
  idle_round p s e on idle = let (o, quiet) = quiet_round p s e on in (o, quiet ∙ rw idle refl)

  switching_round :
      (p : Poll) (s : Daemon F) (r : NodeClass)
      → p.input ≡ none
      → s.enabled ≡ true
      → (get_recommendation fl (first_class s.ifaces) s.adp).1 ≡ some r
      → s.sec.last_switch_time + min_switch_interval ≤ p.now
      → ((round fl hmac p s).ifaces ≡ apply_class r s.ifaces)
        × ((round fl hmac p s).sec.last_switch_time ≡ p.now)
  unfolding adaptive_step apply_recommendation
  switching_round p s r e on asks late =
      let (o, quiet) = quiet_round p s e on in
      let free : ltb p.now (s.sec.last_switch_time + min_switch_interval) ≡ false = ground arith in
      (
        ap (λ d. d.ifaces) quiet ∙ rw (asks, free) refl,
        ap (λ d. d.sec.last_switch_time) quiet ∙ rw (asks, free) refl,
      )

  -- An enabled node that gets no command, whose metrics call for the other class and whose counter
  -- is at rest, switches in the third round, and no earlier: after two rounds every class is as it
  -- was, after the third every interface and dag is of the class that the metrics call for, nothing
  -- else of them has changed, and the time of the last switch is that of the round. The last switch
  -- before was ten seconds or more ago at the third round.
  pub third_round_switches :
      (p₁ p₂ p₃ : Poll) (s : Daemon F) (r : NodeClass)
      → p₁.input ≡ none
      → p₂.input ≡ none
      → p₃.input ≡ none
      → s.enabled ≡ true
      → s.adp.hysteresis_counter ≡ 0
      → class_of_score fl (score fl s.adp) ≡ r
      → r ≢ first_class s.ifaces
      → s.sec.last_switch_time + min_switch_interval ≤ p₃.now
      → let s₂ = round fl hmac p₂ (round fl hmac p₁ s) in
        let s₃ = round fl hmac p₃ s₂ in
        (s₂.ifaces ≡ s.ifaces)
        × AllOf r s₃.ifaces
        × (blot s₃.ifaces ≡ blot s.ifaces)
        × (s₃.sec.last_switch_time ≡ p₃.now)
  third_round_switches p₁ p₂ p₃ s r e₁ e₂ e₃ on rest asks other late =
      let current = first_class s.ifaces in
      let (idle, idle', asked, _) = recommends_third_time fl s.adp current r rest asks other in
      let (o₁, first) = idle_round p₁ s e₁ on idle in
      let s₁ = opened o₁ (record s { adp = (get_recommendation fl current s.adp).0 }) in
      let (o₂, second) = idle_round p₂ s₁ e₂ on idle' in
      let s₂ = opened o₂ (record s₁ { adp = (get_recommendation fl current s₁.adp).0 }) in
      let twice : round fl hmac p₂ (round fl hmac p₁ s) ≡ s₂ =
        ap (round fl hmac p₂) first ∙ second in
      let (applied, switched) = switching_round p₃ s₂ r e₃ on asked late in
      rw twice (
        refl,
        rw applied (apply_class-AllOf r s.ifaces),
        rw applied (blot-apply_class r s.ifaces),
        switched,
      )
