-- ===== src/Fifo/Limits.antt =====
-- The rate limits of the FIFO, and what a poll does to the interfaces.
use native.Mathlib.Nat.{le_trans}
use rpld_hymrpl.Prelude.{
  ℕ, suc, ◌+◌, ◌≤◌, ◌<◌, ◌≡◌, inl, inr, refl, true, Option, none, some, List, [], ◌∷◌, arith, leb,
  if◌then◌else◌,
}
use rpld_hymrpl.Dag.{NodeClass, Time, Iface, seconds}
use rpld_hymrpl.Fifo.{
  FifoSec, authenticate, reset_minute, switch_class, fifo_sec_check, fifo_sec_init,
  min_switch_interval, max_switches_per_min,
}
use rpld_hymrpl.Fifo.Cases.{Poll, check_cases}
use rpld_hymrpl.Fifo.Replay.{poll_all}

-- Times of accepted switches, latest first, each at least ten seconds after the one before.
abbrev pub IsSpaced : List Time → Type 0
IsSpaced [] = Unit {0}
IsSpaced (t ∷ []) = Unit {0}
IsSpaced (t ∷ u ∷ ts) = (u + min_switch_interval ≤ t) × IsSpaced (u ∷ ts)

-- How many of the times are not before `start`.
abbrev pub count_from : Time → List Time → ℕ
count_from start [] = 0
count_from start (t ∷ ts) = let rest = count_from start ts in if leb start t then suc rest else rest

-- The last switch, if any, is the latest of the log, and fell into the current minute or before.
abbrev pub IsLatest : FifoSec → List Time → Type 0
IsLatest sec [] = Unit {0}
IsLatest sec (t ∷ ts) = (sec.last_switch_time ≡ t) × (t ≤ sec.minute_start + seconds 60)

-- The state limits the switches made so far, whose times are `log`, latest first.
pub record IsLimited (sec : FifoSec) (log : List Time) : Type 0 where
  pub spaced : IsSpaced log
  pub latest : IsLatest sec log
  pub counted : count_from sec.minute_start log ≤ sec.switches_this_minute
  pub at_most : sec.switches_this_minute ≤ max_switches_per_min

-- A switch is logged with its time.
abbrev pub logged : Time → Option NodeClass → List Time → List Time
logged now none log = log
logged now (some c) log = now ∷ log

-- After the latest of spaced times there is none.
count_from_after :
    (start t : Time) (ts : List Time)
    → IsSpaced (t ∷ ts)
    → t < start
    → count_from start (t ∷ ts) ≡ 0
count_from_after start t [] h l = ground arith
count_from_after start t (u ∷ ts) (gap, h) l = ground (arith, count_from_after start u ts h)

reset_minute-IsLimited :
    (now : Time) (sec : FifoSec) (log : List Time)
    → IsLimited sec log
    → IsLimited (reset_minute now sec) log
unfolding reset_minute
reset_minute-IsLimited now sec [] h = ground arith
reset_minute-IsLimited now sec (t ∷ ts) h = ground (arith, count_from_after now t ts h.spaced)

-- The minute that is current after `reset_minute` has not run for more than sixty seconds.
reset_minute_current :
    (now : Time) (sec : FifoSec) → now ≤ (reset_minute now sec).minute_start + seconds 60
unfolding reset_minute
reset_minute_current now sec = ground arith

switch_class-IsLimited :
    (now : Time) (c : NodeClass) (sec : FifoSec) (ifaces : List Iface) (log : List Time)
    → IsLimited sec log
    → let r = switch_class now c sec ifaces in IsLimited r.sec (logged now r.result log)
unfolding switch_class
switch_class-IsLimited now c sec ifaces [] h =
    ground (arith, reset_minute-IsLimited now sec [] h, reset_minute_current now sec)
switch_class-IsLimited now c sec ifaces (t ∷ ts) h =
    ground (arith, reset_minute-IsLimited now sec (t ∷ ts) h, reset_minute_current now sec)

-- Only the fields that the limits do not read differ.
abbrev pub SameLimits : FifoSec → FifoSec → Type 0
SameLimits a b =
    (a.last_switch_time ≡ b.last_switch_time)
    × (a.switches_this_minute ≡ b.switches_this_minute)
    × (a.minute_start ≡ b.minute_start)

SameLimits-IsLimited :
    (a b : FifoSec) (log : List Time) → SameLimits a b → IsLimited a log → IsLimited b log
SameLimits-IsLimited a b [] e h = ground arith
SameLimits-IsLimited a b (t ∷ ts) e h = ground arith

module _ (hmac : List ℕ → List ℕ → List ℕ) where
  pub authenticate-SameLimits :
      (sec : FifoSec) (msg : List ℕ) {c : NodeClass} {sec' : FifoSec}
      → authenticate hmac sec msg ≡ some (c, sec')
      → SameLimits sec sec'
  unfolding authenticate
  authenticate-SameLimits sec msg e = ground arith

  -- One poll keeps the limits, with or without a switch.
  pub fifo_sec_check-IsLimited :
      (p : Poll) (sec : FifoSec) (ifaces : List Iface) (log : List Time)
      → IsLimited sec log
      → let r = fifo_sec_check hmac p.now p.opens p.input sec ifaces in
        IsLimited r.sec (logged p.now r.result log)
  fifo_sec_check-IsLimited p sec ifaces log h = elim (check_cases hmac p sec ifaces) [
    | inl stops ↦ rw stops.returns (
        SameLimits-IsLimited sec (record sec { fifo_open = stops.opened }) log (refl, refl, refl) h)
    | inr goes ↦ rw goes.returns (
        switch_class-IsLimited p.now goes.new_class goes.sec' ifaces log (
          SameLimits-IsLimited sec goes.sec' log
            (authenticate-SameLimits (record sec { fifo_open = true }) goes.msg goes.accepts) h))
  ]

  -- The times of the switches that a run of polls makes, latest first.
  abbrev pub poll_log : List Poll → FifoSec × List Iface → List Time → List Time
  poll_log [] s log = log
  poll_log (p ∷ ps) (sec, ifaces) log =
      let r = fifo_sec_check hmac p.now p.opens p.input sec ifaces in
      poll_log ps (r.sec, r.ifaces) (logged p.now r.result log)

  pub poll_all-IsLimited :
      (ps : List Poll) (sec : FifoSec) (ifaces : List Iface) (log : List Time)
      → IsLimited sec log
      → IsLimited (poll_all hmac ps (sec, ifaces)).0 (poll_log ps (sec, ifaces) log)
  poll_all-IsLimited [] sec ifaces log h = h
  poll_all-IsLimited (p ∷ ps) sec ifaces log h =
      let r = fifo_sec_check hmac p.now p.opens p.input sec ifaces in
      poll_all-IsLimited ps r.sec r.ifaces (logged p.now r.result log)
        (fifo_sec_check-IsLimited p sec ifaces log h)

  fifo_sec_init-IsLimited :
      (now : Time) (file : Option (List ℕ)) → IsLimited (fifo_sec_init now file).0 []
  unfolding fifo_sec_init
  fifo_sec_init-IsLimited now none = ground arith
  fifo_sec_init-IsLimited now (some file) = ground arith

  -- Over every run of polls from the start of the daemon, whatever is read and however the clock
  -- runs: any two switches of the FIFO lie ten seconds apart, and three at most fall into the current
  -- minute.
  pub switches_limited :
      (start : Time) (file : Option (List ℕ)) (ps : List Poll) (ifaces : List Iface)
      → let sec = (fifo_sec_init start file).0 in
        let log = poll_log ps (sec, ifaces) [] in
        IsSpaced log × (count_from (poll_all hmac ps (sec, ifaces)).0.minute_start log ≤ 3)
  switches_limited start file ps ifaces =
      let h =
        poll_all-IsLimited ps (fifo_sec_init start file).0 ifaces []
          (fifo_sec_init-IsLimited start file) in
      (h.spaced, le_trans h.counted h.at_most)
