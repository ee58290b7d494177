-- ===== src/Process/Dao/ByClass.antt =====
-- A DAO at a node of a hybrid network that is not the root: its children, and the routes by its class.
use rpld_hymrpl.Prelude.{
  ℕ, ◌+◌, ◌≡◌, ◌≢◌, refl, ap, ◌∙◌, none, some, List, [], ◌∷◌, ◌++◌, arith, length, map, set,
  get_elem?, Each,
}
use rpld_hymrpl.Dag.{Addr, Time, NodeClass, class_s, class_n, hybrid, Mop, Child, Dag, Iface}
use rpld_hymrpl.Wire.{Memory, memory_of, NdRplDao}
use rpld_hymrpl.Wire.Structs.{IsAddr, dao_bytes, length-dao_bytes}
use rpld_hymrpl.Process.{Effect, route_via, send_dao_ack, DagRef, dag_at, put_dag, Net}
use rpld_hymrpl.Process.Dao.{
  Options, parsed, finish_dao, update_dao, install_routes, install_class, routes_via,
}
use rpld_hymrpl.Process.Dao.LaidOut.{
  DaoOption, target, transit, unknown, options_bytes, AreOptions, heed, heed_all,
  parse_options-options_bytes,
}
use rpld_hymrpl.Process.Dispatch.{process}
use rpld_hymrpl.Process.Dao.Bytes.{packet_of, process-dao_bytes}

-- A child of that address is in the list.
abbrev pub HasChild : List Child → Addr → Type 0
HasChild childs a = (c : Child) × (i : ℕ) × (get_elem? childs i ≡ some c) × (c.addr ≡ a)

-- What is relied on of dag.c: `dag_lookup_child_or_create` finds or adds the child, keeps the others,
-- and leaves the mode, the rank, the class and the interface of the dag alone.
pub record ChildListLaws (net : Net) : Type 0 where
  pub child_mop : (d : Dag) (a f : Addr) → (net.dag_lookup_child_or_create d a f).mop ≡ d.mop
  pub child_rank :
      (d : Dag) (a f : Addr) → (net.dag_lookup_child_or_create d a f).my_rank ≡ d.my_rank
  pub child_class :
      (d : Dag) (a f : Addr) → (net.dag_lookup_child_or_create d a f).node_class ≡ d.node_class
  pub child_added :
      (d : Dag) (a f : Addr) → HasChild (net.dag_lookup_child_or_create d a f).childs a
  pub child_kept :
      (d : Dag) (a f b : Addr)
      → HasChild d.childs b
      → HasChild (net.dag_lookup_child_or_create d a f).childs b

-- The targets of a list of options.
abbrev pub targets_of : List DaoOption → List Addr
targets_of [] = []
targets_of (target t ∷ xs) = t.rpl_dao_prefix ∷ targets_of xs
targets_of (transit t ∷ xs) = targets_of xs
targets_of (unknown code payload ∷ xs) = targets_of xs

-- The routes that a node of a class installs.
abbrev pub class_routes : NodeClass → Dag → List Effect
class_routes class_s dag = map (λ c. route_via dag.ifindex c.addr c.from) dag.childs
class_routes class_n dag = []

-- What the options leave of a dag.
pub record Grown (old new : Dag) (added : List Addr) : Type 0 where
  pub same_mop : new.mop ≡ old.mop
  pub same_rank : new.my_rank ≡ old.my_rank
  pub same_class : new.node_class ≡ old.node_class
  pub kept : (b : Addr) → HasChild old.childs b → HasChild new.childs b
  pub has : Each (HasChild new.childs) added

module _ (net : Net) (laws : ChildListLaws net) (from : Addr) where
  heed_all-Grown :
      (xs : List DaoOption) (o : Options) → Grown o.dag (heed_all net from xs o).dag (targets_of xs)
  heed_all-Grown [] o = record {
    same_mop = refl;
    same_rank = refl;
    same_class = refl;
    kept = λ b h. h;
    has = tt;
  }
  heed_all-Grown (transit t ∷ xs) o = heed_all-Grown xs (heed net from (transit t) o)
  heed_all-Grown (unknown code payload ∷ xs) o = heed_all-Grown xs o
  heed_all-Grown (target t ∷ xs) o =
      let a = t.rpl_dao_prefix in
      let rest = heed_all-Grown xs (heed net from (target t) o) in
      record {
        same_mop = rest.same_mop ∙ laws.child_mop o.dag a from;
        same_rank = rest.same_rank ∙ laws.child_rank o.dag a from;
        same_class = rest.same_class ∙ laws.child_class o.dag a from;
        kept = λ b h. rest.kept b (laws.child_kept o.dag a from b h);
        has = (rest.kept a (laws.child_added o.dag a from), rest.has);
      }

install_class-routes : (c : NodeClass) (dag : Dag) → install_class c dag ≡ (dag, class_routes c dag)
unfolding install_class routes_via
install_class-routes class_s dag = refl
install_class-routes class_n dag = refl

install_routes-class :
    (net : Net) (from : Addr) (mode : Mop) (o : Options)
    → mode ≡ hybrid
    → o.dag.my_rank ≢ 1
    → install_routes net from mode o ≡ (o.dag, class_routes o.dag.node_class o.dag)
unfolding install_routes
install_routes-class net from mode o e below =
    rw (e, install_routes) (ground (arith, below, install_class-routes o.dag.node_class o.dag))

finish_dao-class :
    (net : Net) (from : Addr) (o : Options) (dag : Dag)
    → o.dag.mop ≡ hybrid
    → o.dag.my_rank ≢ 1
    → finish_dao net from (parsed o) dag
      ≡ (o.dag, class_routes o.dag.node_class o.dag ++ send_dao_ack from ∷ [])
unfolding finish_dao
finish_dao-class net from o dag mode below =
    ap (λ (r : Dag × List Effect). (r.0, r.1 ++ send_dao_ack from ∷ []))
      (install_routes-class net from o.dag.mop o mode below)

module _ (net : Net) (laws : ChildListLaws net) (from : Addr) (d : NdRplDao) (xs : List DaoOption)
    (rest : List ℕ) (laid_out : AreOptions xs) (fits : IsAddr d.rpl_dagid) where
  abbrev pub dao_message : List ℕ
  dao_message = dao_bytes d ++ (options_bytes xs ++ rest)

  abbrev pub packet : ℕ → ℕ → Memory
  packet sum₁ sum₂ = packet_of sum₁ sum₂ dao_message

  -- The dag after the DAO, and the effects.
  abbrev pub IsServed : Dag → Dag → List Effect → Type 0
  IsServed dag dag' effects =
      Each (HasChild dag'.childs) (targets_of xs)
      × (effects ≡ class_routes dag.node_class dag' ++ send_dao_ack from ∷ [])

  update_dao-IsServed :
      (dag : Dag)
      → dag.mop ≡ hybrid
      → dag.my_rank ≢ 1
      → let (dag', effects) =
          update_dao net (memory_of dao_message) (length (options_bytes xs)) from dag in
        IsServed dag dag' effects
  unfolding update_dao
  update_dao-IsServed dag mode below =
      let o = heed_all net from xs (record { transit = none; targets = []; dag = dag }) in
      let grown =
        heed_all-Grown net laws from xs (record { transit = none; targets = []; dag = dag }) in
      let parses = rw (length-dao_bytes d) at (
        parse_options-options_bytes net from (dao_bytes d) rest xs (length (options_bytes xs))
          (record { transit = none; targets = []; dag = dag }) laid_out (omega arith)) in
      let ends : update_dao net (memory_of dao_message) (length (options_bytes xs)) from dag
          ≡ (o.dag, class_routes o.dag.node_class o.dag ++ send_dao_ack from ∷ []) =
        ap (λ r. finish_dao net from r dag) parses
        ∙ finish_dao-class net from o dag (grown.same_mop ∙ mode)
            (λ e. omega (arith, e, grown.same_rank, below)) in
      rw (ends)
        (grown.has, ap (λ c. class_routes c o.dag ++ send_dao_ack from ∷ []) grown.same_class)

  -- A node of a hybrid network that is not the root gets a DAO in the bytes that a sender lays out,
  -- with any options in any order. Then every target of it, however many, is among the node's
  -- children, and the last effect is the acknowledgement; before it, a node of Class S asks for a
  -- route to each of its children, through the neighbour that the child was heard from, and a node
  -- of Class N for none. It relies on `ChildListLaws`.
  pub process-class_routes :
      (now : Time) (ifaces : List Iface) (place : ℕ) (iface : Iface) (ref : DagRef) (dag : Dag)
      (sum₁ sum₂ : ℕ)
      → net.dag_lookup iface d.rpl_instanceid d.rpl_dagid ≡ some ref
      → dag_at iface ref ≡ some dag
      → dag.mop ≡ hybrid
      → dag.my_rank ≢ 1
      → let (ifaces', effects) =
          process net now ifaces
            (some (place, iface))
            (packet sum₁ sum₂)
            (24 + length (options_bytes xs))
            from in
        (dag' : Dag) × (ifaces' ≡ set ifaces place (put_dag iface ref dag'))
        × IsServed dag dag' effects
  process-class_routes now ifaces place iface ref dag sum₁ sum₂ known held mode below =
      let whole =
        process-dao_bytes net now ifaces place iface sum₁ sum₂ d (options_bytes xs ++ rest)
          (length (options_bytes xs)) from ref dag fits known held in
      (
        (update_dao net (memory_of dao_message) (length (options_bytes xs)) from dag).0,
        rw whole refl,
        rw whole (update_dao-IsServed dag mode below),
      )
