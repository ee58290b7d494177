-- ===== src/Fifo/Cases.antt =====
-- The ways out of a poll: it stops before the class is known, or it goes on to `switch_class`.
use rpld_hymrpl.Prelude.{
  ℕ, ◌≡◌, ◌⊎◌, inl, inr, Bool, true, false, not, ◌&&◌, Option, none, some, List, arith,
  Option-cases, Bool-cases,
}
use rpld_hymrpl.Dag.{NodeClass, Time, Iface}
use rpld_hymrpl.Fifo.{FifoSec, authenticate, switch_class, Checked, fifo_sec_check}

-- One call of `hymrpl_fifo_sec_check`: the clock, whether the FIFO can be opened, and what is read.
pub record Poll : Type 0 where
  pub now : Time
  pub opens : Bool
  pub input : Option (List ℕ)

abbrev pub check : (List ℕ → List ℕ → List ℕ) → Poll → FifoSec → List Iface → Checked
check hmac p sec ifaces = fifo_sec_check hmac p.now p.opens p.input sec ifaces

module _ (hmac : List ℕ → List ℕ → List ℕ) (p : Poll) (sec : FifoSec) (ifaces : List Iface) where
  -- Nothing has changed but, at most, that the FIFO is open now.
  pub record Stops : Type 0 where
    pub opened : Bool
    pub returns :
        check hmac p sec ifaces
        ≡ record { sec = record sec { fifo_open = opened }; ifaces = ifaces; result = none }

  -- A message was read and authenticated.
  pub record GoesOn : Type 0 where
    pub msg : List ℕ
    pub new_class : NodeClass
    pub sec' : FifoSec
    pub reads : p.input ≡ some msg
    pub accepts : authenticate hmac (record sec { fifo_open = true }) msg ≡ some (new_class, sec')
    pub returns : check hmac p sec ifaces ≡ switch_class p.now new_class sec' ifaces

  -- Past the opening of the FIFO.
  read_cases : (not sec.fifo_open && not p.opens) ≡ false → Stops ⊎ GoesOn
  unfolding fifo_sec_check
  read_cases open_now = elim (Option-cases p.input) [
    | inl nothing ↦ inl (record { opened = true; returns = ground arith })
    | inr (msg, reads) ↦
        elim (Option-cases (authenticate hmac (record sec { fifo_open = true }) msg)) [
          | inl rejects ↦ inl (record { opened = true; returns = ground arith })
          | inr ((c, sec'), accepts) ↦ inr (record {
            msg = msg;
            new_class = c;
            sec' = sec';
            reads = reads;
            accepts = accepts;
            returns = ground arith;
          })
        ]
  ]

  pub check_cases : Stops ⊎ GoesOn
  unfolding fifo_sec_check
  check_cases = elim (Bool-cases (not sec.fifo_open && not p.opens)) [
    | inl shut ↦ inl (record { opened = sec.fifo_open; returns = ground arith })
    | inr open_now ↦ read_cases open_now
  ]
