-- ===== src/Rpld/System/Outcomes.antt =====
-- What a round makes of the daemon, and which steps touch the security state.
use rpld_hymrpl.Prelude.{
  ◌≡◌, ◌⊎◌, inl, inr, refl, Bool, true, false, Option, none, some, List, ℕ, if◌then◌else◌,
}
use rpld_hymrpl.Dag.{NodeClass}
use rpld_hymrpl.Adaptive.{FloatOps, Adaptive, get_recommendation}
use rpld_hymrpl.Fifo.Cases.{Poll, check}
use rpld_hymrpl.Process.{Net}
use rpld_hymrpl.Rpld.{
  Daemon, first_class, apply_recommendation, adaptive_step, after_poll, hymrpl_periodic_cb,
}
use rpld_hymrpl.Rpld.Switching.{polled, round}
use rpld_hymrpl.Rpld.System.{
  Step, packet_in, liveness_due, round_due, evaluation_due, solicitation_due, reload_asked,
}

module _ {F : Type 0} (fl : FloatOps F) (hmac : List ℕ → List ℕ → List ℕ) where
  -- A round leaves what the poll made, or applies a recommendation to it.
  pub round_outcome :
      (P : Daemon F → Type 0) (p : Poll) (s : Daemon F)
      → P (polled fl hmac p s)
      → ((adp : Adaptive F) (out : Option NodeClass)
          → P (apply_recommendation p.now out (record (polled fl hmac p s) { adp = adp })))
      → P (round fl hmac p s)
  unfolding hymrpl_periodic_cb after_poll adaptive_step
  round_outcome P p s same applied = by_result (check hmac p s.sec s.ifaces).result
    where
      s' : Daemon F
      s' = polled fl hmac p s

      by_switch : (on : Bool) → P (if on then adaptive_step fl hmac p.now s' else s')
      by_switch true =
          let (adp, out) = get_recommendation fl (first_class s'.ifaces) s'.adp in applied adp out
      by_switch false = same

      by_result : (result : Option NodeClass) → P (after_poll fl hmac p.now result s')
      by_result (some c) = same
      by_result none = by_switch s'.enabled

  -- Only a round touches the security state.
  pub Step-sec :
      (net : Net) {s t : Daemon F}
      → Step fl hmac net s t
      → (t.sec ≡ s.sec) ⊎ ((p : Poll) × (t ≡ round fl hmac p s))
  Step-sec net (packet_in now found packet len from adp s) = inl refl
  Step-sec net (liveness_due now place ref iface dag s at_place at_ref) = inl refl
  Step-sec net (round_due p s) = inr (p, refl)
  Step-sec net (evaluation_due now battery capacity s) = inl refl
  Step-sec net (solicitation_due place iface s at_place) = inl refl
  Step-sec net (reload_asked conf s) = inl refl
