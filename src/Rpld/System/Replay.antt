-- ===== src/Rpld/System/Replay.antt =====
-- Replay protection over every run of the event loop, whatever stands between the two reads.
use native.Mathlib.Nat.{le_trans}
use rpld_hymrpl.Prelude.{
  ℕ, ◌+◌, ◌≤◌, ◌≡◌, ◌∙◌, refl, true, ◌||◌, Option, none, some, List, arith, ltb, Bool-cases, inl,
  inr,
}
use rpld_hymrpl.Dag.{NodeClass, Time}
use rpld_hymrpl.Adaptive.{FloatOps}
use rpld_hymrpl.Fifo.{FifoSec, verify_hmac, min_switch_interval}
use rpld_hymrpl.Fifo.Cases.{Poll, check}
use rpld_hymrpl.Fifo.Replay.{Advances, poll-Advances, verify_hmac_token, stale_rejected, nonce_used}
use rpld_hymrpl.Process.{Net}
use rpld_hymrpl.Rpld.{Daemon, apply_recommendation}
use rpld_hymrpl.Rpld.Switching.{polled, round}
use rpld_hymrpl.Rpld.System.Outcomes.{round_outcome, Step-sec}
use rpld_hymrpl.Rpld.System.{Step, Steps, done, next}

Advances-trans : {a b c : FifoSec} → Advances a b → Advances b c → Advances a c
Advances-trans h k = record {
  same_token = k.same_token ∙ h.same_token;
  same_loaded = k.same_loaded ∙ h.same_loaded;
  nonce_le = le_trans h.nonce_le k.nonce_le;
}

same-Advances : (sec : FifoSec) → Advances sec sec
same-Advances sec = record { same_token = refl; same_loaded = refl; nonce_le = omega arith }

-- The engine's part of a round touches the time of the last switch only.
apply_recommendation-Advances :
    {F : Type 0} (now : Time) (out : Option NodeClass) (s : Daemon F)
    → Advances s.sec (apply_recommendation now out s).sec
unfolding apply_recommendation
apply_recommendation-Advances now none s = same-Advances s.sec
apply_recommendation-Advances now (some c) s =
    elim (Bool-cases (ltb now (s.sec.last_switch_time + min_switch_interval))) [
      | inl early ↦ rw (early, apply_recommendation) (same-Advances s.sec)
      | inr late ↦
          rw (late, apply_recommendation)
            (record { same_token = refl; same_loaded = refl; nonce_le = omega arith })
    ]

module _ {F : Type 0} (fl : FloatOps F) (hmac : List ℕ → List ℕ → List ℕ) where
  round-Advances : (p : Poll) (s : Daemon F) → Advances s.sec (round fl hmac p s).sec
  round-Advances p s =
      let polls = poll-Advances hmac p s.sec s.ifaces in
      round_outcome fl hmac (λ t. Advances s.sec t.sec) p s polls
        (λ adp out.
          Advances-trans polls
            (apply_recommendation-Advances p.now out (record (polled fl hmac p s) { adp = adp })))

  round_nonce :
      (p : Poll) (s : Daemon F)
      → (check hmac p s.sec s.ifaces).sec.last_nonce ≤ (round fl hmac p s).sec.last_nonce
  round_nonce p s =
      let polled_nonce = (check hmac p s.sec s.ifaces).sec.last_nonce in
      round_outcome fl hmac (λ t. polled_nonce ≤ t.sec.last_nonce) p s (omega arith)
        (λ adp out.
          (apply_recommendation-Advances p.now out
            (record (polled fl hmac p s) { adp = adp })).nonce_le)

  module _ (net : Net) where
    Step-Advances : {s t : Daemon F} → Step fl hmac net s t → Advances s.sec t.sec
    Step-Advances {s} step = elim (Step-sec fl hmac net step) [
      | inl same ↦ rw same (same-Advances s.sec)
      | inr (p, e) ↦ rw e (round-Advances p s)
    ]

    Steps-Advances : {s t : Daemon F} → Steps fl hmac net s t → Advances s.sec t.sec
    Steps-Advances (done s) = same-Advances s.sec
    Steps-Advances (next steps step) = Advances-trans (Steps-Advances steps) (Step-Advances step)

    -- A message with a valid HMAC that one round of the daemon has read, whether or not it led to a
    -- switch, is refused by every later round, whatever packets, timers, evaluations, reloads and other
    -- rounds come between: the check of the FIFO then returns no class and leaves all interfaces alone.
    -- The token was loaded and the FIFO open at the first read.
    pub event_loop-replay_rejected :
        (first last : Poll) (s t : Daemon F) (msg : List ℕ) (c : NodeClass) (nonce : ℕ)
        → first.input ≡ some msg
        → last.input ≡ some msg
        → (s.sec.fifo_open || first.opens) ≡ true
        → s.sec.token_loaded ≡ true
        → verify_hmac hmac s.sec msg ≡ some (c, nonce)
        → Steps fl hmac net (round fl hmac first s) t
        → let r = check hmac last t.sec t.ifaces in (r.result ≡ none) × (r.ifaces ≡ t.ifaces)
    event_loop-replay_rejected first last s t msg c nonce e e' open_now loaded verified steps =
        let used = nonce_used hmac first s.sec s.ifaces msg e open_now loaded verified in
        let kept = Advances-trans (round-Advances first s) (Steps-Advances steps) in
        let later = le_trans (round_nonce first s) (Steps-Advances steps).nonce_le in
        stale_rejected hmac last t.sec t.ifaces msg e' (kept.same_loaded ∙ loaded)
          (verify_hmac_token hmac s.sec t.sec msg kept.same_token ∙ verified) (le_trans used later)
