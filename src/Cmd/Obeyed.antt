-- ===== src/Cmd/Obeyed.antt =====
-- A daemon that reads signed commands one by one: which it obeys, under both rate limits.
use mathlib.Core.Path.{subst}
use rpld_hymrpl.Prelude.{
  ℕ, ◌+◌, ◌*◌, ◌^◌, ◌≤◌, ◌<◌, ◌≡◌, refl, ◌∙◌, ap, ap₂, sym, true, Option, none, some, List, [], ◌∷◌,
  arith, length, map,
}
use rpld_hymrpl.Text.Laws.{All, IsByte}
use rpld_hymrpl.Dag.{NodeClass, Time, Iface, seconds, apply_class}
use rpld_hymrpl.Fifo.{
  FifoSec, fifo_sec_init, fifo_sec_check, authenticate, switch_class, reset_minute, Checked,
}
use rpld_hymrpl.Fifo.Cases.{Poll, check}
use rpld_hymrpl.Fifo.Replay.{poll_all}
use rpld_hymrpl.Fifo.Verify.{class_name}
use rpld_hymrpl.Cmd.{message}
use rpld_hymrpl.Cmd.RoundTrip.{verify_hmac-message}
use rpld_hymrpl.Cmd.EndToEnd.{token_text, token_round_trip}

-- A command that the sender has signed.
pub record Command : Type 0 where
  pub new_class : NodeClass
  pub nonce : ℕ

-- A poll at a time, of a pipe that holds nothing or one command.
pub data Reading : Type 0 where
  idle : Time → Reading
  signed : Time → Command → Reading

abbrev pub class_of : Reading → Option NodeClass
class_of (idle now) = none
class_of (signed now c) = some c.new_class

-- What obeying every command, in order, makes of the interfaces.
abbrev pub obey : List Reading → List Iface → List Iface
obey [] ifaces = ifaces
obey (idle now ∷ rs) ifaces = obey rs ifaces
obey (signed now c ∷ rs) ifaces = obey rs (apply_class c.new_class ifaces)

-- Each command comes more than twenty seconds after the one before, with a higher nonce of 64 bits.
abbrev pub IsPaced : Time → ℕ → List Reading → Type 0
IsPaced last nonce [] = Unit {0}
IsPaced last nonce (idle now ∷ rs) = IsPaced last nonce rs
IsPaced last nonce (signed now c ∷ rs) =
    (last + seconds 20 < now) × (nonce < c.nonce) × (c.nonce < 2 ^ 64) × IsPaced now c.nonce rs

-- The state admits a command more than twenty seconds after `last`.
pub record IsReady (token : List ℕ) (last : Time) (nonce : ℕ) (sec : FifoSec) : Type 0 where
  pub loaded : sec.token_loaded ≡ true
  pub same_token : sec.token ≡ token
  pub same_nonce : sec.last_nonce ≡ nonce
  pub switched : sec.last_switch_time ≤ last
  pub minute : sec.minute_start ≤ last
  pub counted : sec.minute_start + sec.switches_this_minute * 20000001 ≤ last + 20000001
  pub at_most : sec.switches_this_minute ≤ 3

pub record Obeys (token : List ℕ) (r : Checked) (expected : Option NodeClass) (ifaces : List Iface)
    (last : Time) (nonce : ℕ) : Type 0 where
  pub result : r.result ≡ expected
  pub applied : r.ifaces ≡ ifaces
  pub ready : IsReady token last nonce r.sec

module _ (hmac : List ℕ → List ℕ → List ℕ) (token : List ℕ) where
  abbrev pub poll_of : Reading → Poll
  poll_of (idle now) = record { now = now; opens = true; input = none }
  poll_of (signed now c) = record {
    now = now;
    opens = true;
    input = some (message hmac token (class_name c.new_class) c.nonce);
  }

  -- The answers of a run of polls.
  abbrev pub answers : List Reading → FifoSec × List Iface → List (Option NodeClass)
  answers [] s = []
  answers (r ∷ rs) (sec, ifaces) =
      let checked = check hmac (poll_of r) sec ifaces in
      checked.result ∷ answers rs (checked.sec, checked.ifaces)

  -- What a run of polls should answer, and leave.
  abbrev pub IsObeyed : List Reading → FifoSec → List Iface → Type 0
  IsObeyed rs sec ifaces =
      (answers rs (sec, ifaces) ≡ map class_of rs)
      × ((poll_all hmac (map (poll_of) rs) (sec, ifaces)).1 ≡ obey rs ifaces)

module _ (hmac : List ℕ → List ℕ → List ℕ)
    (digest_len : (key text : List ℕ) → length (hmac key text) ≡ 32)
    (digest_bytes : (key text : List ℕ) → All IsByte (hmac key text)) (token : List ℕ) where
  idle-Obeys :
      (now last : Time) (nonce : ℕ) (sec : FifoSec) (ifaces : List Iface)
      → IsReady token last nonce sec
      → Obeys token (fifo_sec_check hmac now true none sec ifaces) none ifaces last nonce
  unfolding fifo_sec_check
  idle-Obeys now last nonce sec ifaces h = ground arith

  switch_class-Obeys :
      (now last : Time) (nonce : ℕ) (c : NodeClass) (sec : FifoSec) (ifaces : List Iface)
      → IsReady token last nonce sec
      → last + seconds 20 < now
      → Obeys token (switch_class now c sec ifaces) (some c) (apply_class c ifaces) now nonce
  unfolding switch_class reset_minute
  switch_class-Obeys now last nonce c sec ifaces h gap = ground arith

  authenticate-IsReady :
      (last : Time) (nonce : ℕ) (c : Command) (sec : FifoSec)
      → IsReady token last nonce sec
      → nonce < c.nonce
      → c.nonce < 2 ^ 64
      → authenticate hmac sec (message hmac token (class_name c.new_class) c.nonce)
        ≡ some (c.new_class, record sec { last_nonce = c.nonce })
  unfolding authenticate
  authenticate-IsReady last nonce c sec h fresh small =
      let verified =
        verify_hmac-message hmac digest_len digest_bytes sec c.new_class c.nonce small in
      let message_token = ap (λ t. message hmac t (class_name c.new_class) c.nonce) h.same_token in
      ground (arith, verified, message_token)

  command-Obeys :
      (now last : Time) (nonce : ℕ) (c : Command) (sec : FifoSec) (ifaces : List Iface)
      → IsReady token last nonce sec
      → last + seconds 20 < now
      → nonce < c.nonce
      → c.nonce < 2 ^ 64
      → let msg = message hmac token (class_name c.new_class) c.nonce in
        Obeys token
          (fifo_sec_check hmac now true (some msg) sec ifaces)
          (some c.new_class)
          (apply_class c.new_class ifaces)
          now
          c.nonce
  unfolding fifo_sec_check
  command-Obeys now last nonce c sec ifaces h gap fresh small =
      let accepted : IsReady token last nonce (record sec { fifo_open = true }) = ground arith in
      let returns : fifo_sec_check hmac now true
            (some (message hmac token (class_name c.new_class) c.nonce)) sec ifaces
          ≡ switch_class now c.new_class (record sec { fifo_open = true; last_nonce = c.nonce })
              ifaces =
        ground (arith, authenticate-IsReady last nonce c _ accepted fresh small) in
      rw returns (
        switch_class-Obeys now last c.nonce c.new_class
          (record sec { fifo_open = true; last_nonce = c.nonce }) ifaces (ground arith) gap)

  one-IsObeyed :
      (r : Reading) (rs : List Reading) {ifaces' : List Iface} {last : Time} {nonce : ℕ}
      (sec : FifoSec) (ifaces : List Iface)
      → Obeys token (check hmac (poll_of hmac token r) sec ifaces) (class_of r) ifaces' last nonce
      → IsObeyed hmac token rs (check hmac (poll_of hmac token r) sec ifaces).sec ifaces'
      → obey rs ifaces' ≡ obey (r ∷ rs) ifaces
      → IsObeyed hmac token (r ∷ rs) sec ifaces
  one-IsObeyed r rs sec ifaces first rest e =
      let checked = check hmac (poll_of hmac token r) sec ifaces in
      let (answered, left) = subst (IsObeyed hmac token rs checked.sec) (sym first.applied) rest in
      (ap₂ ◌∷◌ first.result answered, left ∙ ap (obey rs) first.applied ∙ e)

  all-IsObeyed :
      (rs : List Reading) (last : Time) (nonce : ℕ) (sec : FifoSec) (ifaces : List Iface)
      → IsReady token last nonce sec
      → IsPaced last nonce rs
      → IsObeyed hmac token rs sec ifaces
  all-IsObeyed [] last nonce sec ifaces h paced = (refl, refl)
  all-IsObeyed (idle now ∷ rs) last nonce sec ifaces h paced =
      let first = idle-Obeys now last nonce sec ifaces h in
      one-IsObeyed (idle now) rs sec ifaces first
        (all-IsObeyed rs last nonce (check hmac (poll_of hmac token (idle now)) sec ifaces).sec
          ifaces first.ready paced)
        refl
  all-IsObeyed (signed now c ∷ rs) last nonce sec ifaces h (gap, fresh, small, paced) =
      let first = command-Obeys now last nonce c sec ifaces h gap fresh small in
      one-IsObeyed (signed now c) rs sec ifaces first
        (all-IsObeyed rs now c.nonce (check hmac (poll_of hmac token (signed now c)) sec ifaces).sec
          (apply_class c.new_class ifaces) first.ready paced)
        refl

  init-IsReady :
      (start : Time)
      → length token ≡ 32
      → All IsByte token
      → IsReady token start 0 (fifo_sec_init start (some (token_text token))).0
  init-IsReady start len bytes =
      let (_, _, _, starts) = token_round_trip token len bytes start in rw starts (ground arith)

  -- A daemon started with a generated token file obeys every signed command, in order, and answers
  -- nothing to an empty pipe, whatever the number of commands: each is executed in the poll that
  -- reads it, and the interfaces are those that the class changes make of them one after the other.
  -- Between the start and the first command and between two commands lie more than twenty seconds,
  -- nonces grow and have 64 bits, each poll finds at most one command, the FIFO can be opened, and
  -- the digest has 32 bytes.
  pub commands_obeyed :
      (start : Time) (rs : List Reading) (ifaces : List Iface)
      → length token ≡ 32
      → All IsByte token
      → IsPaced start 0 rs
      → let sec = (fifo_sec_init start (some (token_text token))).0 in
        (answers hmac token rs (sec, ifaces) ≡ map class_of rs)
        × ((poll_all hmac (map (poll_of hmac token) rs) (sec, ifaces)).1 ≡ obey rs ifaces)
  commands_obeyed start rs ifaces len bytes paced =
      all-IsObeyed rs start 0 (fifo_sec_init start (some (token_text token))).0 ifaces
        (init-IsReady start len bytes) paced
