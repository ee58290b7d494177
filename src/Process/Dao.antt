-- ===== src/Process/Dao.antt =====
-- `process_dao` and `dag_insert_source_routes` of process.c.
pub mod Loop
pub mod LaidOut
pub mod Bytes
pub mod Packet
pub mod Routes
pub mod ByClass
use rpld_hymrpl.Prelude.{
  ℕ, zero, suc, ◌+◌, ◌-◌, Bool, Option, none, some, List, [], ◌∷◌, ◌++◌, ltb, ◌==◌, length, map,
  if◌then◌else◌,
}
use rpld_hymrpl.Dag.{
  Addr, Mop, no_downward, nonstoring, storing_no_multicast, storing_multicast, hybrid, other,
  NodeClass, class_s, class_n, Child, TreeInsert, Dag, Iface,
}
use rpld_hymrpl.Wire.{
  opt_at, transit_at, target_at, dao_of, rpl_dao_transitinfo, rpl_dao_rpltarget, Memory, read_addr,
}
use rpld_hymrpl.Process.{
  Effect, route_via, source_routes, send_dao_ack, DagRef, dag_at, put_dag, Net,
}

abbrev pub dao_size : ℕ
dao_size = 20

abbrev pub max_dao_targets : ℕ
max_dao_targets = 16

-- What the loop over the options has found: the parent of the last transit option, and the prefixes
-- of the targets, first to last. The dag is the one with the children made so far.
pub record Options : Type 0 where
  pub transit : Option Addr
  pub targets : List Addr
  pub dag : Dag

-- `dropped` is the early return for an option that does not fit, `stuck` a lack of fuel.
pub data Parsed : Type 0 where
  parsed dropped : Options → Parsed
  stuck : Parsed

-- One option at offset `p`: RPL_DAO_TRANSITINFO, RPL_DAO_RPLTARGET or another.
unfoldable pub take_option : Net → Memory → Addr → ℕ → Options → Options
take_option net msg from p o =
    if (opt_at msg p).opt_type == rpl_dao_transitinfo
    then record o { transit = some (transit_at msg p).parent }
    else if (opt_at msg p).opt_type == rpl_dao_rpltarget
    then record o {
      dag = net.dag_lookup_child_or_create o.dag (target_at msg p).rpl_dao_prefix from;
      targets =
          if ltb (length o.targets) max_dao_targets
          then o.targets ++ (target_at msg p).rpl_dao_prefix ∷ []
          else o.targets;
    }
    else o

-- The loop, with `optlen` bytes left from `p` on. `optlen` is an int, and a value below 0 ends the
-- loop as 0 does.
unfoldable pub parse_options : Net → Memory → Addr → ℕ → ℕ → ℕ → Options → Parsed
parse_options net msg from zero p optlen o = if optlen == 0 then parsed o else stuck
parse_options net msg from (suc fuel) p optlen o =
    let rest =
      parse_options net msg from fuel (p + (2 + (opt_at msg p).opt_len))
        (optlen - (2 + (opt_at msg p).opt_len)) (take_option net msg from p o) in
    if optlen == 0 then parsed o else if ltb optlen 2 then dropped o else rest

-- The path to the node that the latest insertion gave, in the tree with that insertion.
unfoldable pub dag_insert_source_routes : Net → ℕ → List TreeInsert → TreeInsert → Effect
dag_insert_source_routes net ifindex root node = source_routes ifindex (net.t_path root node)

-- The loop over the targets: an insertion into the tree, and source routes if it gave a node.
unfoldable pub insert_targets : Net → Addr → Addr → List Addr → Dag → Dag × List Effect
insert_targets net transit from [] dag = (dag, [])
insert_targets net transit from (target ∷ targets) dag =
    let insert : TreeInsert = record { parent = transit; from = from; target = target } in
    let root' = dag.root ++ insert ∷ [] in
    let (dag', effects) = insert_targets net transit from targets (record dag { root = root' }) in
    (
      dag',
      if net.t_insert dag.root insert
          then dag_insert_source_routes net dag.ifindex root' insert ∷ effects
          else effects,
    )

unfoldable pub insert_all : Net → Addr → Option Addr → List Addr → Dag → Dag × List Effect
insert_all net from none targets dag = (dag, [])
insert_all net from (some transit) targets dag = insert_targets net transit from targets dag

unfoldable pub routes_via : Dag → List Effect
routes_via dag = map (λ child. route_via dag.ifindex child.addr child.from) dag.childs

unfoldable pub install_class : NodeClass → Dag → Dag × List Effect
install_class class_s dag = (dag, routes_via dag)
install_class class_n dag = (dag, [])

-- The installation of routes by the mode of operation and the class.
unfoldable pub install_routes : Net → Addr → Mop → Options → Dag × List Effect
install_routes net from storing_no_multicast o = (o.dag, routes_via o.dag)
install_routes net from storing_multicast o = (o.dag, routes_via o.dag)
install_routes net from nonstoring o = insert_all net from o.transit o.targets o.dag
install_routes net from hybrid o =
    if o.dag.my_rank == 1
    then insert_all net from o.transit o.targets o.dag
    else install_class o.dag.node_class o.dag
install_routes net from no_downward o = (o.dag, [])
install_routes net from (other value) o = (o.dag, [])

unfoldable pub finish_dao : Net → Addr → Parsed → Dag → Dag × List Effect
finish_dao net from stuck dag = (dag, [])
finish_dao net from (dropped o) dag = (o.dag, [])
finish_dao net from (parsed o) dag =
    let (dag', effects) = install_routes net from o.dag.mop o in
    (dag', effects ++ send_dao_ack from ∷ [])

-- `len` is the length behind the header. It is the fuel too.
unfoldable pub update_dao : Net → Memory → ℕ → Addr → Dag → Dag × List Effect
update_dao net msg len from dag =
    finish_dao net from
      (parse_options net msg from len dao_size len
        (record { transit = none; targets = []; dag = dag }))
      dag

unfoldable pub dao_at : Net → Iface → Memory → ℕ → Addr → DagRef → Option Dag → Iface × List Effect
dao_at net iface msg len from ref none = (iface, [])
dao_at net iface msg len from ref (some dag) =
    let (dag', effects) = update_dao net msg len from dag in (put_dag iface ref dag', effects)

unfoldable pub process_dao : Net → Iface → Memory → ℕ → Addr → Iface × List Effect
process_dao net iface msg len from =
    if ltb len dao_size
    then (iface, [])
    else elim (net.dag_lookup iface (dao_of msg).rpl_instanceid (dao_of msg).rpl_dagid) [
      | none ↦ (iface, [])
      | some ref ↦ dao_at net iface msg (len - dao_size) from ref (dag_at iface ref)
    ]
