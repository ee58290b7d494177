-- ===== src/Process/Dispatch.antt =====
-- `process_daoack`, `process_dis` and `process` of process.c.
use rpld_hymrpl.Prelude.{
  ℕ, ◌+◌, ◌-◌, Option, none, some, List, [], ◌∷◌, ◌++◌, ltb, ◌==◌, not, if◌then◌else◌, set,
}
use rpld_hymrpl.Dag.{Addr, Time, Dag, Rpl, Iface}
use rpld_hymrpl.Wire.{
  daoack_of, nd_rpl_dag_is, nd_rpl_dag_io, nd_rpl_dao, nd_rpl_dao_ack, nd_rpl_message, Memory,
}
use rpld_hymrpl.Process.{Effect, send_dio, Net}
use rpld_hymrpl.Process.Dio.{process_dio}
use rpld_hymrpl.Process.Dao.{process_dao}

abbrev pub daoack_size : ℕ
daoack_size = 20

-- A DAO-ACK is looked up and logged, whether its dag is known or not.
unfoldable pub process_daoack : Net → Iface → Memory → ℕ → Iface × List Effect
process_daoack net iface msg len =
    if ltb len daoack_size
    then (iface, [])
    else elim (net.dag_lookup iface (daoack_of msg).rpl_instanceid (daoack_of msg).rpl_dagid) [
      | none ↦ (iface, [])
      | some ref ↦ (iface, [])
    ]

unfoldable pub dios : List Dag → List Effect
dios [] = []
dios (dag ∷ dags) = send_dio dag.dodagid ∷ dios dags

unfoldable pub process_dis : List Rpl → List Effect
process_dis [] = []
process_dis (rpl ∷ rpls) = dios rpl.dags ++ process_dis rpls

-- The dispatch by code. An unknown code is logged.
unfoldable pub process_message : Net → Time → Iface → ℕ → Memory → ℕ → Addr → Iface × List Effect
process_message net now iface code msg len from =
    if code == nd_rpl_dag_is
    then (iface, process_dis iface.rpls)
    else if code == nd_rpl_dag_io
    then process_dio net now iface msg len from
    else if code == nd_rpl_dao
    then process_dao net iface msg len from
    else if code == nd_rpl_dao_ack
    then process_daoack net iface msg len
    else (iface, [])

-- A packet: the ICMPv6 header of four bytes (the type at 0 and the code at 1), then the message.
-- `found` is the interface, with its place, that belongs to the index of the packet.
unfoldable pub process :
    Net → Time → List Iface → Option (ℕ × Iface) → Memory → ℕ → Addr → List Iface × List Effect
process net now ifaces found packet len from = if ltb len 4 then (ifaces, []) else elim found [
  | none ↦ (ifaces, [])
  | some (place, iface) ↦
      if not (packet 0 == nd_rpl_message)
      then (ifaces, [])
      else let (iface', effects) =
          process_message net now iface (packet 1) (λ i. packet (i + 4)) (len - 4) from in
        (set ifaces place iface', effects)
]
