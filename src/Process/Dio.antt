-- ===== src/Process/Dio.antt =====
-- `process_dio` of process.c.
pub mod Rank
pub mod Asked
pub mod Created
pub mod Join
pub mod LaidOut
pub mod History
pub mod Known
use rpld_hymrpl.Prelude.{
  ℕ, ◌+◌, ◌-◌, ◌%◌, Bool, Option, none, some, List, [], ◌∷◌, ◌++◌, ltb, ◌==◌, not, if◌then◌else◌,
}
use rpld_hymrpl.Dag.{
  Addr, Time, infinite_rank, Mop, no_downward, nonstoring, storing_no_multicast, storing_multicast,
  hybrid, other, Peer, Prefix, Dag, Iface,
}
use rpld_hymrpl.Wire.{dio_of, destprefix_at, Memory, read16, read_bytes, read_addr}
use rpld_hymrpl.Wire.Flags.{mop_of}
use rpld_hymrpl.Process.{
  Effect, route_default, send_dao, notify_dao_sent, notify_parent_change, DagRef, dag_at, put_dag,
  Net,
}

abbrev pub dio_size : ℕ
dio_size = 24

-- The DAOs for a DIO that was taken, by the mode of operation. A hybrid node whose parent is the root
-- sends one only.
unfoldable pub send_daos : Mop → Addr → Peer → List Effect
send_daos storing_no_multicast dodagid parent = send_dao parent.addr ∷ notify_dao_sent ∷ []
send_daos storing_multicast dodagid parent = send_dao parent.addr ∷ notify_dao_sent ∷ []
send_daos nonstoring dodagid parent = send_dao dodagid ∷ notify_dao_sent ∷ []
send_daos hybrid dodagid parent =
    if ltb 1 parent.rank
    then send_dao parent.addr ∷ send_dao dodagid ∷ notify_dao_sent ∷ []
    else send_dao parent.addr ∷ notify_dao_sent ∷ []
send_daos no_downward dodagid parent = []
send_daos (other value) dodagid parent = []

-- The parent is read after `dag_process_dio`, which does not unset it.
unfoldable pub send_daos_of : Dag → Option Peer → List Effect
send_daos_of dag none = []
send_daos_of dag (some parent) = send_daos dag.mop dag.dodagid parent

-- The liveness of the parent: refreshed by its own DIO; one that was given up is replaced.
unfoldable pub track_parent : Net → Time → Addr → Dag → Peer → Dag × List Effect
track_parent net now from dag parent =
    if net.dag_is_peer parent from
    then (record dag { parent = some parent; parent_last_seen = now }, [])
    else if parent.rank == infinite_rank
    then (
      record dag {
        parent = some (record { addr = from; rank = infinite_rank });
        parent_last_seen = now;
      },
      notify_parent_change from ∷ [],
    )
    else (record dag { parent = some parent }, [])

-- From the test of the rank on. `rank + 1` is cut to sixteen bits.
unfoldable pub take_rank : Net → ℕ → Dag → Peer → Dag × List Effect
take_rank net rank dag parent =
    if ltb parent.rank rank
    then (dag, [])
    else let dag' = net.dag_process_dio (record dag {
      parent = some (record parent { rank = rank });
      my_rank = (rank + 1) % 65536;
    }) in
      (dag', route_default dag.ifindex parent.addr ∷ send_daos_of dag' dag'.parent)

unfoldable pub take_rank_of : Net → ℕ → Dag → Option Peer → Dag × List Effect
take_rank_of net rank dag none = (dag, [])
take_rank_of net rank dag (some parent) = take_rank net rank dag parent

unfoldable pub with_parent : Net → Time → Addr → ℕ → Dag → Peer → Dag × List Effect
with_parent net now from rank dag parent =
    let (dag₁, tracked) = track_parent net now from dag parent in
    let (dag₂, taken) = take_rank_of net rank dag₁ dag₁.parent in (dag₂, tracked ++ taken)

-- The part of `process_dio` behind the lookup of the dag.
unfoldable pub update_dag : Net → Time → Addr → ℕ → Dag → Option Peer → Dag × List Effect
update_dag net now from rank dag (some parent) = with_parent net now from rank dag parent
update_dag net now from rank dag none = elim (net.dag_peer_create from) [
  | none ↦ (dag, [])
  | some parent ↦ with_parent net now from rank dag parent
]

-- A DIO of an unknown dag: the length and type checks of the prefix option, the copy of the prefix
-- and the creation of the dag. `none` is an early return.
unfoldable pub join_dag : Net → Iface → Memory → ℕ → Option (Iface × DagRef)
join_dag net iface msg len =
    let dio = dio_of msg in
    let diodp = destprefix_at msg dio_size in
    let prefix_bytes = net.bits_to_bytes diodp.rpl_dio_prefixlen in
    if ltb len 8
    then none
    else if not (diodp.rpl_dio_type == 3)
    then none
    else if ltb (len - 8) prefix_bytes
    then none
    else net.dag_create iface dio.rpl_instanceid dio.rpl_dagid infinite_rank dio.rpl_version
        (mop_of dio.rpl_mopprf)
        (record {
          len = diodp.rpl_dio_prefixlen;
          bytes = read_bytes msg (dio_size + 8) prefix_bytes;
        })

-- The update of the dag that a pointer leads to.
unfoldable pub update_at : Net → Time → Addr → ℕ → Iface → DagRef → Option Dag → Iface × List Effect
update_at net now from rank iface ref none = (iface, [])
update_at net now from rank iface ref (some dag) =
    let (dag', effects) = update_dag net now from rank dag dag.parent in
    (put_dag iface ref dag', effects)

-- A DIO of a dag that the interface has: the root ignores it.
unfoldable pub known_dag : Net → Time → Addr → ℕ → Iface → DagRef → Option Dag → Iface × List Effect
known_dag net now from rank iface ref none = (iface, [])
known_dag net now from rank iface ref (some dag) =
    if dag.my_rank == 1 then (iface, []) else update_at net now from rank iface ref (some dag)

-- The class of the interface is given to a dag that was just created.
unfoldable pub inherit_class : Iface → Option Dag → Option Dag
inherit_class iface none = none
inherit_class iface (some dag) = some (record dag { node_class = iface.node_class })

unfoldable pub process_dio : Net → Time → Iface → Memory → ℕ → Addr → Iface × List Effect
process_dio net now iface msg len from =
    let dio = dio_of msg in
    if ltb len dio_size
    then (iface, [])
    else elim (net.dag_lookup iface dio.rpl_instanceid dio.rpl_dagid) [
      | some ref ↦ known_dag net now from dio.rpl_dagrank iface ref (dag_at iface ref)
      | none ↦ elim (join_dag net iface msg (len - dio_size)) [
        | none ↦ (iface, [])
        | some (iface', ref) ↦
            update_at net now from dio.rpl_dagrank iface' ref
              (inherit_class iface (dag_at iface' ref))
      ]
    ]
