-- ===== src/Process/Dao/Packet.antt =====
-- A whole DAO packet at the root of a hybrid network, from its bytes to the source routes.
use mathlib.Core.List.{append_assoc, append-nil}
use rpld_hymrpl.Prelude.{
  ℕ, ◌+◌, ◌≤◌, ◌≡◌, refl, sym, ap, ◌∙◌, true, none, some, List, [], ◌∷◌, ◌++◌, arith, length,
  length-append, map, set, ltb,
}
use rpld_hymrpl.Dag.{Addr, Time, hybrid, TreeInsert, Dag, Iface}
use rpld_hymrpl.Wire.{Memory, memory_of, NdRplDao, RplDaoTarget, RplDaoTransit}
use rpld_hymrpl.Wire.Structs.{IsAddr, dao_bytes, length-dao_bytes}
use rpld_hymrpl.Process.{Effect, send_dao_ack, DagRef, dag_at, put_dag, Net}
use rpld_hymrpl.Process.Dao.{Options, parsed, finish_dao, update_dao, max_dao_targets}
use rpld_hymrpl.Process.Dao.LaidOut.{
  DaoOption, target, transit, options_bytes, AreOptions, heed, heed_all,
  parse_options-options_bytes,
}
use rpld_hymrpl.Process.Dispatch.{process}
use rpld_hymrpl.Process.Dao.Bytes.{packet_of, process-dao_bytes}
use rpld_hymrpl.Process.Dao.Routes.{insert_of, routes_to, hybrid_root_routes}

-- What is relied on of dag.c: a new child leaves the mode, the rank, the tree and the interface of the
-- dag alone.
pub record ChildLaws (net : Net) : Type 0 where
  pub child_mop : (d : Dag) (a f : Addr) → (net.dag_lookup_child_or_create d a f).mop ≡ d.mop
  pub child_rank :
      (d : Dag) (a f : Addr) → (net.dag_lookup_child_or_create d a f).my_rank ≡ d.my_rank
  pub child_root : (d : Dag) (a f : Addr) → (net.dag_lookup_child_or_create d a f).root ≡ d.root
  pub child_ifindex :
      (d : Dag) (a f : Addr) → (net.dag_lookup_child_or_create d a f).ifindex ≡ d.ifindex

-- The options of a DAO with its targets first and one transit option last.
abbrev pub dao_options : List RplDaoTarget → RplDaoTransit → List DaoOption
dao_options [] t = transit t ∷ []
dao_options (x ∷ xs) t = target x ∷ dao_options xs t

abbrev pub prefixes : List RplDaoTarget → List Addr
prefixes targets = map (λ x. x.rpl_dao_prefix) targets

-- What the options have given, as far as the routes depend on it.
pub record Given (dag : Dag) (parent : Addr) (targets : List Addr) (o : Options) : Type 0 where
  pub given_transit : o.transit ≡ some parent
  pub given_targets : o.targets ≡ targets
  pub given_mop : o.dag.mop ≡ dag.mop
  pub given_rank : o.dag.my_rank ≡ dag.my_rank
  pub given_root : o.dag.root ≡ dag.root
  pub given_ifindex : o.dag.ifindex ≡ dag.ifindex

module _ (net : Net) (laws : ChildLaws net) (from : Addr) where
  heed_all-Given :
      (xs : List RplDaoTarget) (t : RplDaoTransit) (o : Options)
      → length o.targets + length xs ≤ 16
      → Given o.dag t.parent (o.targets ++ prefixes xs) (heed_all net from (dao_options xs t) o)
  heed_all-Given [] t o h = record {
    given_transit = refl;
    given_targets = sym (append-nil o.targets);
    given_mop = refl;
    given_rank = refl;
    given_root = refl;
    given_ifindex = refl;
  }
  heed_all-Given (x ∷ xs) t o h =
      let a = x.rpl_dao_prefix in
      let room : ltb (length o.targets) max_dao_targets ≡ true = ground arith in
      let o' : Options = record o {
        dag = net.dag_lookup_child_or_create o.dag a from;
        targets = o.targets ++ a ∷ [];
      } in
      let step : heed net from (target x) o ≡ o' = rw room refl in
      let rest = heed_all-Given xs t o' (omega (arith, h, length-append o.targets (a ∷ []))) in
      rw (step, heed_all)
        (record {
          given_transit = rest.given_transit;
          given_targets = rest.given_targets ∙ append_assoc o.targets (a ∷ []) (prefixes xs);
          given_mop = rest.given_mop ∙ laws.child_mop o.dag a from;
          given_rank = rest.given_rank ∙ laws.child_rank o.dag a from;
          given_root = rest.given_root ∙ laws.child_root o.dag a from;
          given_ifindex = rest.given_ifindex ∙ laws.child_ifindex o.dag a from;
        })

  module _ (takes : (past : List TreeInsert) (new : TreeInsert) → net.t_insert past new ≡ true)
      (d : NdRplDao) (xs : List RplDaoTarget) (t : RplDaoTransit) (rest : List ℕ)
      (laid_out : AreOptions (dao_options xs t)) (few : length xs ≤ 16)
      (fits : IsAddr d.rpl_dagid) where
    -- The bytes of the DAO, with what stands behind it in memory.
    abbrev pub dao_memory : Memory
    dao_memory = memory_of (dao_bytes d ++ (options_bytes (dao_options xs t) ++ rest))

    abbrev pub options_len : ℕ
    options_len = length (options_bytes (dao_options xs t))

    abbrev pub read_options : Dag → Options
    read_options dag =
        heed_all net from (dao_options xs t) (record { transit = none; targets = []; dag = dag })

    update_dao-memory :
        (dag : Dag)
        → update_dao net dao_memory options_len from dag
          ≡ finish_dao net from (parsed (read_options dag)) dag
    unfolding update_dao
    update_dao-memory dag =
        ap (λ r. finish_dao net from r dag)
          (rw (length-dao_bytes d) at (
            parse_options-options_bytes net from (dao_bytes d) rest (dao_options xs t) options_len
              (record { transit = none; targets = []; dag = dag }) laid_out (omega arith)))

    -- The effects of the DAO, and the tree of the dag after it.
    abbrev pub IsRouted : Dag → Dag → List Effect → Type 0
    IsRouted dag dag' effects =
        (dag'.root ≡ dag.root ++ map (insert_of t.parent from) (prefixes xs))
        × (effects
            ≡ routes_to net dag.ifindex dag.root (map (insert_of t.parent from) (prefixes xs))
              ++ send_dao_ack from ∷ [])

    update_dao-IsRouted :
        (dag : Dag)
        → dag.mop ≡ hybrid
        → dag.my_rank ≡ 1
        → let (dag', effects) = update_dao net dao_memory options_len from dag in
          IsRouted dag dag' effects
    update_dao-IsRouted dag mode top =
        let o = read_options dag in
        let given =
          heed_all-Given xs t (record { transit = none; targets = []; dag = dag })
            (omega (arith, few)) in
        let (after, effects) =
          hybrid_root_routes net from t.parent o dag takes (given.given_mop ∙ mode)
            (given.given_rank ∙ top) given.given_transit in
        rw (update_dao-memory dag) (
          ap (λ x. x.root) after ∙ λ i.
              given.given_root i ++ map (insert_of t.parent from) (given.given_targets i),
          effects ∙ λ i.
              routes_to net (given.given_ifindex i) (given.given_root i)
                (map (insert_of t.parent from) (given.given_targets i))
              ++ send_dao_ack from ∷ [],
        )

    abbrev pub packet : ℕ → ℕ → Memory
    packet sum₁ sum₂ =
        packet_of sum₁ sum₂ (dao_bytes d ++ (options_bytes (dao_options xs t) ++ rest))

    -- The root of a hybrid network that gets a DAO with any targets, sixteen at most, and the
    -- transit option of their parent, in the bytes that a sender lays out, asks for a source route
    -- to each target through that parent, in their order, each along the path that the tree has
    -- right after the target's insertion, and acknowledges last; and the tree of the dag has one
    -- insertion more for each target. With `ChildLaws`; the tree takes every insertion.
    pub process-source_routes :
        (now : Time) (ifaces : List Iface) (place : ℕ) (iface : Iface) (ref : DagRef) (dag : Dag)
        (sum₁ sum₂ : ℕ)
        → net.dag_lookup iface d.rpl_instanceid d.rpl_dagid ≡ some ref
        → dag_at iface ref ≡ some dag
        → dag.mop ≡ hybrid
        → dag.my_rank ≡ 1
        → let (ifaces', effects) =
            process net now ifaces
              (some (place, iface))
              (packet sum₁ sum₂)
              (24 + options_len)
              from in
          (dag' : Dag) × (ifaces' ≡ set ifaces place (put_dag iface ref dag'))
          × IsRouted dag dag' effects
    process-source_routes now ifaces place iface ref dag sum₁ sum₂ known held mode top =
        let whole =
          process-dao_bytes net now ifaces place iface sum₁ sum₂ d
            (options_bytes (dao_options xs t) ++ rest) options_len from ref dag fits known held in
        (
          (update_dao net dao_memory options_len from dag).0,
          rw whole refl,
          rw whole (update_dao-IsRouted dag mode top),
        )
