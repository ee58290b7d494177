-- ===== src/Fifo/Replay.antt =====
-- Replay protection over every run of the FIFO check.
use native.Mathlib.Nat.{le_trans}
use rpld_hymrpl.Prelude.{
  ◌∙◌, ℕ, ◌≤◌, ◌<◌, ◌≡◌, inl, inr, refl, true, none, some, List, [], ◌∷◌, arith, ◌||◌,
}
use rpld_hymrpl.Dag.{NodeClass, Time, Iface}
use rpld_hymrpl.Fifo.Cases.{Poll, check_cases}
use rpld_hymrpl.Fifo.{
  FifoSec, split_message, verify_parts, verify_hmac, authenticate, reset_minute, switch_class,
  fifo_sec_check,
}

-- The token stays, and the accepted nonce does not fall.
pub record Advances (old new : FifoSec) : Type 0 where
  pub same_token : new.token ≡ old.token
  pub same_loaded : new.token_loaded ≡ old.token_loaded
  pub nonce_le : old.last_nonce ≤ new.last_nonce

switch_class-Advances :
    (now : Time) (c : NodeClass) (sec : FifoSec) (ifaces : List Iface)
    → Advances sec (switch_class now c sec ifaces).sec
unfolding switch_class reset_minute
switch_class-Advances now c sec ifaces = ground arith

module _ (hmac : List ℕ → List ℕ → List ℕ) where
  -- An accepted message, with a token loaded, has a fresh nonce, which is then the last one.
  pub authenticate_inv :
      (sec : FifoSec) (msg : List ℕ) {c : NodeClass} {sec' : FifoSec}
      → sec.token_loaded ≡ true
      → authenticate hmac sec msg ≡ some (c, sec')
      → (verify_hmac hmac sec msg ≡ some (c, sec'.last_nonce))
        × (sec.last_nonce < sec'.last_nonce)
        × (sec' ≡ record sec { last_nonce = sec'.last_nonce })
  unfolding authenticate
  authenticate_inv sec msg loaded e = ground arith

  authenticate-Advances :
      (sec : FifoSec) (msg : List ℕ) {c : NodeClass} {sec' : FifoSec}
      → authenticate hmac sec msg ≡ some (c, sec')
      → Advances sec sec'
  unfolding authenticate
  authenticate-Advances sec msg e = ground arith

  abbrev pub poll : Poll → FifoSec × List Iface → FifoSec × List Iface
  poll p (sec, ifaces) =
      let r = fifo_sec_check hmac p.now p.opens p.input sec ifaces in (r.sec, r.ifaces)

  abbrev pub poll_all : List Poll → FifoSec × List Iface → FifoSec × List Iface
  poll_all [] s = s
  poll_all (p ∷ ps) s = poll_all ps (poll p s)

  pub poll-Advances :
      (p : Poll) (sec : FifoSec) (ifaces : List Iface)
      → Advances sec (fifo_sec_check hmac p.now p.opens p.input sec ifaces).sec
  poll-Advances p sec ifaces = elim (check_cases hmac p sec ifaces) [
    | inl stops ↦ rw stops.returns (ground arith)
    | inr goes ↦
        let accepted =
          authenticate-Advances (record sec { fifo_open = true }) goes.msg goes.accepts in
        let switched = switch_class-Advances p.now goes.new_class goes.sec' ifaces in
        rw goes.returns (ground arith)
  ]

  poll_all-Advances :
      (ps : List Poll) (sec : FifoSec) (ifaces : List Iface)
      → Advances sec (poll_all ps (sec, ifaces)).0
  poll_all-Advances [] sec ifaces = ground arith
  poll_all-Advances (p ∷ ps) sec ifaces =
      let r = fifo_sec_check hmac p.now p.opens p.input sec ifaces in
      let first = poll-Advances p sec ifaces in
      let rest = poll_all-Advances ps r.sec r.ifaces in
      record {
        same_token = rest.same_token ∙ first.same_token;
        same_loaded = rest.same_loaded ∙ first.same_loaded;
        nonce_le = le_trans first.nonce_le rest.nonce_le;
      }

  -- The check reads of the state only the token and the last nonce to accept a message.
  pub verify_hmac_token :
      (old new : FifoSec) (msg : List ℕ)
      → new.token ≡ old.token
      → verify_hmac hmac new msg ≡ verify_hmac hmac old msg
  unfolding verify_hmac
  verify_hmac_token old new msg e =
      λ i. elim (split_message msg) [ none ↦ none | some parts ↦ verify_parts hmac (e i) parts ]

  -- A message whose nonce is not above the last one is refused and changes nothing but `fifo_open`.
  pub stale_rejected :
      (p : Poll) (sec : FifoSec) (ifaces : List Iface) (msg : List ℕ) {c : NodeClass} {nonce : ℕ}
      → p.input ≡ some msg
      → sec.token_loaded ≡ true
      → verify_hmac hmac sec msg ≡ some (c, nonce)
      → nonce ≤ sec.last_nonce
      → let r = fifo_sec_check hmac p.now p.opens p.input sec ifaces in
        (r.result ≡ none) × (r.ifaces ≡ ifaces)
  unfolding fifo_sec_check authenticate
  stale_rejected p sec ifaces msg e loaded verified stale =
      ground (arith, verify_hmac_token sec (record sec { fifo_open = true }) msg refl)

  -- Once read, a genuine message has used up its nonce.
  pub nonce_used :
      (p : Poll) (sec : FifoSec) (ifaces : List Iface) (msg : List ℕ) {c : NodeClass} {nonce : ℕ}
      → p.input ≡ some msg
      → (sec.fifo_open || p.opens) ≡ true
      → sec.token_loaded ≡ true
      → verify_hmac hmac sec msg ≡ some (c, nonce)
      → nonce ≤ (fifo_sec_check hmac p.now p.opens p.input sec ifaces).sec.last_nonce
  unfolding fifo_sec_check authenticate
  nonce_used p sec ifaces msg {c} {nonce} e open_now loaded verified = ground (
    arith,
    verify_hmac_token sec (record sec { fifo_open = true }) msg refl,
    switch_class-Advances p.now c (record sec { fifo_open = true; last_nonce = nonce }) ifaces,
  )

  -- A message with a valid HMAC that was read once, whether it led to a switch, met a rate limit or
  -- was stale already, is never accepted again: after any further polls it is refused, at any time,
  -- and no class changes.
  pub replay_rejected :
      (first last : Poll) (ps : List Poll) (sec : FifoSec) (ifaces : List Iface) (msg : List ℕ)
      {c : NodeClass} {nonce : ℕ}
      → first.input ≡ some msg
      → last.input ≡ some msg
      → (sec.fifo_open || first.opens) ≡ true
      → sec.token_loaded ≡ true
      → verify_hmac hmac sec msg ≡ some (c, nonce)
      → let (sec', ifaces') = poll_all (first ∷ ps) (sec, ifaces) in
        let r = fifo_sec_check hmac last.now last.opens last.input sec' ifaces' in
        (r.result ≡ none) × (r.ifaces ≡ ifaces')
  replay_rejected first last ps sec ifaces msg e e' open_now loaded verified =
      let s = poll_all (first ∷ ps) (sec, ifaces) in
      let used = nonce_used first sec ifaces msg e open_now loaded verified in
      let r = fifo_sec_check hmac first.now first.opens first.input sec ifaces in
      let kept = poll_all-Advances (first ∷ ps) sec ifaces in
      let after = poll_all-Advances ps r.sec r.ifaces in
      stale_rejected last s.0 s.1 msg e' (kept.same_loaded ∙ loaded)
        (verify_hmac_token sec s.0 msg kept.same_token ∙ verified) (le_trans used after.nonce_le)
