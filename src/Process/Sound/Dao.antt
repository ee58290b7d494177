-- ===== src/Process/Sound/Dao.antt =====
-- A DAO keeps every dag sound.
use rpld_hymrpl.Prelude.{
  ℕ, zero, suc, ◌+◌, ◌-◌, inl, inr, Option, none, some, List, [], arith, ltb, ◌==◌, Bool-cases,
  Maybe,
}
use rpld_hymrpl.Dag.{
  Addr, NodeClass, Mop, no_downward, nonstoring, storing_no_multicast, storing_multicast, hybrid,
  other, class_s, class_n, Dag, Iface,
}
use rpld_hymrpl.Wire.{Memory, read_addr}
use rpld_hymrpl.Process.{DagRef, dag_at, Net}
use rpld_hymrpl.Process.Dao.{
  Options, Parsed, parsed, dropped, stuck, take_option, parse_options, insert_all, install_class,
  install_routes, finish_dao, dao_size, update_dao, dao_at, process_dao,
}
use rpld_hymrpl.Process.Dao.Routes.{insert_targets-dag}
use rpld_hymrpl.Process.Outcomes.{process_dao_outcome}
use rpld_hymrpl.Process.Sound.{SoundDag, SoundIface, DagLaws, dag_at-SoundDag, put_dag-SoundIface}

-- The dag that the loop over the options ends with, if it ends.
abbrev pub SoundParsed : NodeClass → Parsed → Type 0
SoundParsed c (parsed o) = SoundDag c o.dag
SoundParsed c (dropped o) = SoundDag c o.dag
SoundParsed c stuck = Unit {0}

install_class-SoundDag :
    (c k : NodeClass) (dag : Dag) → SoundDag c dag → SoundDag c (install_class k dag).0
unfolding install_class
install_class-SoundDag c class_s dag h = h
install_class-SoundDag c class_n dag h = h

module _ (net : Net) (laws : DagLaws net) where
  -- The dag of the options read so far.
  take_option-SoundDag :
      (msg : Memory) (from : Addr) (p : ℕ) (c : NodeClass) (o : Options)
      → SoundDag c o.dag
      → SoundDag c (take_option net msg from p o).dag
  unfolding take_option
  take_option-SoundDag msg from p c o h =
      let a = read_addr msg (p + 4) in
      ground (
        arith,
        laws.child_class o.dag a from,
        laws.child_rank o.dag a from,
        laws.child_parent o.dag a from,
      )

  parse_options-SoundDag :
      (msg : Memory) (from : Addr) (fuel p optlen : ℕ) (c : NodeClass) (o : Options)
      → SoundDag c o.dag
      → SoundParsed c (parse_options net msg from fuel p optlen o)
  unfolding parse_options
  parse_options-SoundDag msg from zero p optlen c o h = ground arith
  parse_options-SoundDag msg from (suc fuel) p optlen c o h =
      let step = 2 + msg (p + 1) in
      let rest =
        parse_options-SoundDag msg from fuel (p + step) (optlen - step) c
          (take_option net msg from p o) (take_option-SoundDag msg from p c o h) in
      elim (Bool-cases (optlen == 0)) [
        | inl done ↦ rw done h
        | inr more ↦ elim (Bool-cases (ltb optlen 2)) [
          | inl short ↦ rw (more, short) h
          | inr fits ↦ rw (more, fits) rest
        ]
      ]

  insert_all-SoundDag :
      (from : Addr) (c : NodeClass) (transit : Option Addr) (targets : List Addr) (dag : Dag)
      → SoundDag c dag
      → SoundDag c (insert_all net from transit targets dag).0
  unfolding insert_all
  insert_all-SoundDag from c none targets dag h = h
  insert_all-SoundDag from c (some transit) targets dag h =
      rw (insert_targets-dag net transit from targets dag) h

  install_routes-SoundDag :
      (from : Addr) (c : NodeClass) (mode : Mop) (o : Options)
      → SoundDag c o.dag
      → SoundDag c (install_routes net from mode o).0
  unfolding install_routes
  install_routes-SoundDag from c storing_no_multicast o h = h
  install_routes-SoundDag from c storing_multicast o h = h
  install_routes-SoundDag from c nonstoring o h =
      insert_all-SoundDag from c o.transit o.targets o.dag h
  install_routes-SoundDag from c no_downward o h = h
  install_routes-SoundDag from c (other value) o h = h
  install_routes-SoundDag from c hybrid o h = elim (Bool-cases (o.dag.my_rank == 1)) [
    | inl root ↦ rw (root, install_routes) (insert_all-SoundDag from c o.transit o.targets o.dag h)
    | inr node ↦ rw (node, install_routes) (install_class-SoundDag c o.dag.node_class o.dag h)
  ]

  finish_dao-SoundDag :
      (from : Addr) (c : NodeClass) (options : Parsed) (dag : Dag)
      → SoundDag c dag
      → SoundParsed c options
      → SoundDag c (finish_dao net from options dag).0
  unfolding finish_dao
  finish_dao-SoundDag from c (parsed o) dag h k = install_routes-SoundDag from c o.dag.mop o k
  finish_dao-SoundDag from c (dropped o) dag h k = k
  finish_dao-SoundDag from c stuck dag h k = h

  dao_at-SoundIface :
      (iface : Iface) (msg : Memory) (len : ℕ) (from : Addr) (ref : DagRef) (held : Option Dag)
      → SoundIface iface
      → Maybe (SoundDag iface.node_class) held
      → SoundIface (dao_at net iface msg len from ref held).0
  unfolding dao_at update_dao
  dao_at-SoundIface iface msg len from ref none h k = h
  dao_at-SoundIface iface msg len from ref (some dag) h k =
      let o : Options = record { transit = none; targets = []; dag = dag } in
      put_dag-SoundIface iface ref (update_dao net msg len from dag).0 h (
        finish_dao-SoundDag from iface.node_class (parse_options net msg from len dao_size len o)
          dag k (parse_options-SoundDag msg from len dao_size len iface.node_class o k))

  pub process_dao-SoundIface :
      (iface : Iface) (msg : Memory) (len : ℕ) (from : Addr)
      → SoundIface iface
      → SoundIface (process_dao net iface msg len from).0
  process_dao-SoundIface iface msg len from h =
      process_dao_outcome net SoundIface iface h msg len from (λ ref.
        dao_at-SoundIface iface msg (len - dao_size) from ref (dag_at iface ref) h
          (dag_at-SoundDag iface ref h))
