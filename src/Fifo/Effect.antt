-- ===== src/Fifo/Effect.antt =====
-- What a poll of the FIFO does to the interfaces, on every way out.
use rpld_hymrpl.Prelude.{ℕ, ◌≡◌, ◌⊎◌, inl, inr, refl, ◌||◌, none, some, List, leb, Bool-cases}
use rpld_hymrpl.Dag.{NodeClass, Time, Iface}
use rpld_hymrpl.Dag.ClassSwitch.{AllOf, blot, apply_class-AllOf, blot-apply_class}
use rpld_hymrpl.Fifo.{FifoSec, Checked, reset_minute, switch_class, too_fast}
use rpld_hymrpl.Fifo.Cases.{Poll, check, check_cases}

-- The result `c` means that all are of class `c` now, and nothing but classes changed; no result
-- means that the interfaces are as they were.
abbrev pub Effect : List Iface → Checked → Type 0
Effect before r =
    ((r.result ≡ none) × (r.ifaces ≡ before))
    ⊎ ((c : NodeClass) × (r.result ≡ some c) × AllOf c r.ifaces × (blot r.ifaces ≡ blot before))

pub switch_class-Effect :
    (now : Time) (c : NodeClass) (sec : FifoSec) (ifaces : List Iface)
    → Effect ifaces (switch_class now c sec ifaces)
unfolding switch_class
switch_class-Effect now c sec ifaces =
    let sec' = reset_minute now sec in
    elim (Bool-cases (leb 3 sec'.switches_this_minute || too_fast now sec')) [
      | inl limited ↦ inl (rw limited refl, rw limited refl)
      | inr free ↦ inr (
        c,
        rw free refl,
        rw free (apply_class-AllOf c ifaces),
        rw free (blot-apply_class c ifaces),
      )
    ]

-- A poll either returns -1 and leaves the interfaces as they were, or returns a class, sets every
-- interface and every dag to it, and changes nothing else of them.
pub fifo_sec_check-Effect :
    (hmac : List ℕ → List ℕ → List ℕ) (p : Poll) (sec : FifoSec) (ifaces : List Iface)
    → Effect ifaces (check hmac p sec ifaces)
fifo_sec_check-Effect hmac p sec ifaces = elim (check_cases hmac p sec ifaces) [
  | inl stops ↦ rw stops.returns (inl (refl, refl))
  | inr goes ↦ rw goes.returns (switch_class-Effect p.now goes.new_class goes.sec' ifaces)
]
