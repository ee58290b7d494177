-- ===== src/Process/Dio/Known.antt =====
-- `process_dio` on a DIO of a dag that the interface has.
use rpld_hymrpl.Prelude.{
  ◌++◌, ◌∙◌, ap, List, length, length-append, min, ℕ, ◌≤◌, ◌≡◌, ◌≢◌, ◌⊎◌, inl, inr, refl, false,
  some, arith, ◌==◌, ltb, Bool-cases,
}
use rpld_hymrpl.Dag.{Addr, Time, Dag, Iface, Peer}
use rpld_hymrpl.Wire.{Memory, memory_of, NdRplDio, dio_of, read16}
use rpld_hymrpl.Wire.Structs.{IsAddr, dio_bytes, length-dio_bytes, dio_of-dio_bytes}
use rpld_hymrpl.Process.{DagRef, dag_at, Net}
use rpld_hymrpl.Process.Places.{dag_at-put_dag, dag_at-put_dag_ne}
use rpld_hymrpl.Process.Dio.{dio_size, update_at, update_dag, known_dag, process_dio}
use rpld_hymrpl.Process.Dio.History.{Dio, Follows, IsRank, hear, hear-Follows}
use rpld_hymrpl.Process.Dio.Rank.{NetLaws}
use rpld_hymrpl.Process.Dio.Asked.{asked, update_dag-asked}

module _ (net : Net) where
  known_dag-hear :
      (now : Time) (from : Addr) (rank : ℕ) (iface : Iface) (ref other : DagRef) (dag : Dag)
      → dag_at iface ref ≡ some dag
      → (ref.0 ≢ other.0) ⊎ (ref.1 ≢ other.1)
      → let iface' = (known_dag net now from rank iface ref (some dag)).0 in
        (dag_at iface' ref ≡ some (hear net (record { now = now; from = from; rank = rank }) dag))
        × (dag_at iface' other ≡ dag_at iface other)
  unfolding known_dag update_at hear
  known_dag-hear now from rank iface ref other dag here apart =
      elim (Bool-cases (dag.my_rank == 1)) [
        | inl e ↦ rw (e, known_dag, hear) (here, refl)
        | inr e ↦
            let new = (update_dag net now from rank dag dag.parent).0 in
            rw (e, known_dag, hear)
              (dag_at-put_dag iface ref new here, dag_at-put_dag_ne iface ref other new apart)
      ]

  process_dio-hear :
      (now : Time) (iface : Iface) (msg : Memory) (len : ℕ) (from : Addr) (ref other : DagRef)
      (dag : Dag)
      → dio_size ≤ len
      → net.dag_lookup iface (dio_of msg).rpl_instanceid (dio_of msg).rpl_dagid ≡ some ref
      → dag_at iface ref ≡ some dag
      → (ref.0 ≢ other.0) ⊎ (ref.1 ≢ other.1)
      → let iface' = (process_dio net now iface msg len from).0 in
        let dio : Dio = record { now = now; from = from; rank = read16 msg 2 } in
        (dag_at iface' ref ≡ some (hear net dio dag)) × (dag_at iface' other ≡ dag_at iface other)
  unfolding process_dio
  process_dio-hear now iface msg len from ref other dag enough found here apart =
      let long : ltb len dio_size ≡ false = ground arith in
      rw (long, found, here) (known_dag-hear now from (read16 msg 2) iface ref other dag here apart)

  process_dio_effects :
      (now : Time) (iface : Iface) (msg : Memory) (len : ℕ) (from : Addr) (ref : DagRef) (dag : Dag)
      → dio_size ≤ len
      → net.dag_lookup iface (dio_of msg).rpl_instanceid (dio_of msg).rpl_dagid ≡ some ref
      → dag_at iface ref ≡ some dag
      → (dag.my_rank == 1) ≡ false
      → (process_dio net now iface msg len from).1
        ≡ (update_dag net now from (read16 msg 2) dag dag.parent).1
  unfolding process_dio known_dag update_at
  process_dio_effects now iface msg len from ref dag enough found here below =
      let long : ltb len dio_size ≡ false = ground arith in rw (long, found, here, below) refl

  -- Let a DIO be laid out as its sender does, with any bytes behind it, for a dag that the lookup
  -- finds, which stands one rank below a parent, and with a rank between 1 and 65534. Whoever sends
  -- it, afterwards the dag has the parent's address with the lower of the parent's rank and the
  -- DIO's, and stands one below that; every other dag of the interface is as before. If the rank is no
  -- higher than the parent's, the default route to the parent and the DAOs of the mode are asked
  -- for, else nothing. It relies on `NetLaws`.
  pub process_dio-Follows :
      (laws : NetLaws net) (now : Time) (iface : Iface) (d : NdRplDio) (rest : List ℕ) (from : Addr)
      (ref other : DagRef) (dag : Dag) (parent : Peer)
      → IsAddr d.rpl_dagid
      → net.dag_lookup iface d.rpl_instanceid d.rpl_dagid ≡ some ref
      → dag_at iface ref ≡ some dag
      → Follows dag parent
      → IsRank d.rpl_dagrank
      → (ref.0 ≢ other.0) ⊎ (ref.1 ≢ other.1)
      → let msg = dio_bytes d ++ rest in
        let (iface', effects) = process_dio net now iface (memory_of msg) (length msg) from in
        let best : Peer = record { addr = parent.addr; rank = min parent.rank d.rpl_dagrank } in
        ((dag' : Dag) × (dag_at iface' ref ≡ some dag') × Follows dag' best)
        × (dag_at iface' other ≡ dag_at iface other)
        × (effects ≡ asked d.rpl_dagrank dag parent)
  process_dio-Follows laws now iface d rest from ref other dag parent fits found here follows small
        apart =
      let bytes = dio_bytes d ++ rest in
      let msg = memory_of bytes in
      let header = dio_of-dio_bytes rest d fits in
      let enough : 24 ≤ length bytes =
        omega (arith, length-append (dio_bytes d) rest, length-dio_bytes d) in
      let rank : read16 msg 2 ≡ d.rpl_dagrank = ap (λ x. x.rpl_dagrank) header in
      let known : net.dag_lookup iface (dio_of msg).rpl_instanceid (dio_of msg).rpl_dagid
          ≡ some ref =
        ap (λ x. net.dag_lookup iface x.rpl_instanceid x.rpl_dagid) header ∙ found in
      let below : (dag.my_rank == 1) ≡ false = ground (arith, follows.below, follows.positive) in
      let dio : Dio = record { now = now; from = from; rank = d.rpl_dagrank } in
      let (at_ref, at_other) =
        process_dio-hear now iface msg (length bytes) from ref other dag enough known here apart in
      (
        (hear net dio dag, rw rank at at_ref, hear-Follows net laws dio dag parent follows small),
        at_other,
        process_dio_effects now iface msg (length bytes) from ref dag enough known here below
            ∙ rw rank (
                update_dag-asked net laws now from d.rpl_dagrank dag parent dag.parent follows.held
                  follows.finite),
      )
