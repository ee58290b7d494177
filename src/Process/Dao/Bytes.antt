-- ===== src/Process/Dao/Bytes.antt =====
-- A DAO packet, from its bytes to `update_dao`.
use rpld_hymrpl.Prelude.{
  ℕ, ◌+◌, ◌-◌, ◌≡◌, refl, ap, ◌∙◌, false, some, List, [], ◌∷◌, ◌++◌, arith, set, ltb,
}
use rpld_hymrpl.Dag.{Addr, Time, Dag, Iface}
use rpld_hymrpl.Wire.{Memory, memory_of, NdRplDao, dao_of}
use rpld_hymrpl.Wire.Layout.{byte_behind}
use rpld_hymrpl.Wire.Structs.{IsAddr, dao_bytes, dao_of-dao_bytes}
use rpld_hymrpl.Process.{Effect, DagRef, dag_at, put_dag, Net}
use rpld_hymrpl.Process.Dao.{update_dao, dao_at, process_dao}
use rpld_hymrpl.Process.Dispatch.{process_message, process}

process_dao_known :
    (net : Net) (iface : Iface) (msg : Memory) (len : ℕ) (from : Addr) (d : NdRplDao) (ref : DagRef)
    (dag : Dag)
    → dao_of msg ≡ d
    → net.dag_lookup iface d.rpl_instanceid d.rpl_dagid ≡ some ref
    → dag_at iface ref ≡ some dag
    → process_dao net iface msg (20 + len) from
      ≡ (let (dag', effects) = update_dao net msg len from dag in (put_dag iface ref dag', effects))
unfolding process_dao dao_at
process_dao_known net iface msg len from d ref dag header known held =
    let no_short : ltb (20 + len) 20 ≡ false = ground arith in
    let behind : 20 + len - 20 ≡ len = omega arith in
    let instance = ap (λ x. x.rpl_instanceid) header in
    let dagid = ap (λ x. x.rpl_dagid) header in
    rw (no_short, instance, dagid, known, behind, held) refl

-- What `process` makes of a message of an interface.
abbrev pub put_at : List Iface → ℕ → Iface × List Effect → List Iface × List Effect
put_at ifaces place (iface', effects) = (set ifaces place iface', effects)

process_dao_packet :
    (net : Net) (now : Time) (ifaces : List Iface) (place : ℕ) (iface : Iface) (packet : Memory)
    (n : ℕ) (from : Addr)
    → packet 0 ≡ 155
    → packet 1 ≡ 2
    → process net now ifaces (some (place, iface)) packet (24 + n) from
      ≡ put_at ifaces place (process_dao net iface (λ i. packet (i + 4)) (20 + n) from)
unfolding process process_message
process_dao_packet net now ifaces place iface packet n from kind code =
    let no_short : ltb (24 + n) 4 ≡ false = ground arith in
    let behind : 24 + n - 4 ≡ 20 + n = omega arith in rw (no_short, kind, code, behind) refl

-- The packet: type 155 and code 2, a checksum, and the DAO.
abbrev pub packet_of : ℕ → ℕ → List ℕ → Memory
packet_of sum₁ sum₂ message = memory_of (155 ∷ 2 ∷ sum₁ ∷ sum₂ ∷ message)

packet_of-message :
    (sum₁ sum₂ : ℕ) (message : List ℕ)
    → (λ i. packet_of sum₁ sum₂ message (i + 4)) ≡ memory_of message
packet_of-message sum₁ sum₂ message = λ j i. at_four i j
  where
    at_four : (i : ℕ) → packet_of sum₁ sum₂ message (i + 4) ≡ memory_of message i
    at_four i =
        let e : i + 4 ≡ 4 + i = omega arith in
        ap (packet_of sum₁ sum₂ message) e ∙ byte_behind (155 ∷ 2 ∷ sum₁ ∷ sum₂ ∷ []) message i

-- A DAO packet for a dag that the interface has comes to `update_dao`.
pub process-dao_bytes :
    (net : Net) (now : Time) (ifaces : List Iface) (place : ℕ) (iface : Iface) (sum₁ sum₂ : ℕ)
    (d : NdRplDao) (rest : List ℕ) (n : ℕ) (from : Addr) (ref : DagRef) (dag : Dag)
    → IsAddr d.rpl_dagid
    → net.dag_lookup iface d.rpl_instanceid d.rpl_dagid ≡ some ref
    → dag_at iface ref ≡ some dag
    → let message = dao_bytes d ++ rest in
      process net now ifaces (some (place, iface)) (packet_of sum₁ sum₂ message) (24 + n) from ≡ (
        let (dag', effects) = update_dao net (memory_of message) n from dag in
        (set ifaces place (put_dag iface ref dag'), effects))
process-dao_bytes net now ifaces place iface sum₁ sum₂ d rest n from ref dag fits known held =
    let message = dao_bytes d ++ rest in
    process_dao_packet net now ifaces place iface (packet_of sum₁ sum₂ message) n from refl refl
    ∙ ap (λ m. put_at ifaces place (process_dao net iface m (20 + n) from))
        (packet_of-message sum₁ sum₂ message)
    ∙ ap (put_at ifaces place) (
        process_dao_known net iface (memory_of message) n from d ref dag
          (dao_of-dao_bytes rest d fits) known held)
