-- ===== src/Process/Dio/Created.antt =====
-- A dag that `process_dio` has just created, under the DIO that it was created for.
use rpld_hymrpl.Prelude.{ℕ, ◌≡◌, refl, ◌∙◌, none, some, ◌∷◌}
use rpld_hymrpl.Dag.{Addr, Time, Mop, Peer, Prefix, Dag, Iface, infinite_rank}
use rpld_hymrpl.Process.{route_default, DagRef, dag_at, Net}
use rpld_hymrpl.Process.Places.{dag_at-put_dag}
use rpld_hymrpl.Process.Dio.{send_daos, update_dag, inherit_class, update_at}
use rpld_hymrpl.Process.Dio.Rank.{NetLaws}
use rpld_hymrpl.Process.Dio.History.{IsRank, Follows, update_dag_fresh}
use rpld_hymrpl.Process.Dio.Asked.{update_dag_first, update_dag_keeps}

-- A dag with the fields that were asked for, at its creation.
pub record NewDag (ifindex : ℕ) (dodagid : Addr) (rank version : ℕ) (mop : Mop) (dest : Prefix)
    (dag : Dag) : Type 0 where
  pub ifindex_is : dag.ifindex ≡ ifindex
  pub dodagid_is : dag.dodagid ≡ dodagid
  pub rank_is : dag.my_rank ≡ rank
  pub version_is : dag.version ≡ version
  pub mop_is : dag.mop ≡ mop
  pub dest_is : dag.dest ≡ dest
  pub no_parent : dag.parent ≡ none

-- What is relied on of dag.c for a new dag: the pointer that `dag_create` returns leads to a dag with
-- the fields asked for and without a parent, and `dag_process_dio` leaves its version, its prefix
-- and its class alone.
pub record JoinLaws (net : Net) : Type 0 where
  pub keeps_version : (d : Dag) → (net.dag_process_dio d).version ≡ d.version
  pub keeps_dest : (d : Dag) → (net.dag_process_dio d).dest ≡ d.dest
  pub keeps_class : (d : Dag) → (net.dag_process_dio d).node_class ≡ d.node_class
  pub creates :
      (iface iface' : Iface) (ref : DagRef) (id : ℕ) (dodagid : Addr) (rank version : ℕ) (mop : Mop)
      (dest : Prefix)
      → net.dag_create iface id dodagid rank version mop dest ≡ some (iface', ref)
      → (dag : Dag) × (dag_at iface' ref ≡ some dag)
        × NewDag iface.ifindex dodagid rank version mop dest dag

-- The update of a new dag by the DIO that it was created for.
pub update_at_new :
    {net : Net} (laws : NetLaws net) (join : JoinLaws net) (now : Time) (iface iface' : Iface)
    (ref : DagRef) (from : Addr) (rank : ℕ) (mode : Mop) (dodagid : Addr) (version : ℕ)
    (dest : Prefix) (peer : Peer) (dag : Dag)
    → IsRank rank
    → net.dag_peer_create from ≡ some peer
    → dag_at iface' ref ≡ some dag
    → NewDag iface.ifindex dodagid infinite_rank version mode dest dag
    → let (iface'', effects) =
        update_at net now from rank iface' ref (inherit_class iface (dag_at iface' ref)) in
      let parent : Peer = record { addr = from; rank = rank } in
      ((dag' : Dag) × (dag_at iface'' ref ≡ some dag')
        × Follows dag' parent
        × (dag'.version ≡ version)
        × (dag'.dodagid ≡ dodagid)
        × (dag'.mop ≡ mode)
        × (dag'.dest ≡ dest)
        × (dag'.node_class ≡ iface.node_class))
      × (effects ≡ route_default iface.ifindex from ∷ send_daos mode dodagid parent)
unfolding update_at inherit_class
update_at_new {net} laws join now iface iface' ref from rank mode dodagid version dest peer dag
      small made at_ref fresh =
    let own : Dag = record dag { node_class = iface.node_class } in
    let dag' = (update_dag net now from rank own own.parent).0 in
    let asked =
      update_dag_first net laws now from rank own peer own.parent fresh.no_parent made small.1 in
    rw (at_ref, inherit_class, update_at)
      (
        (
          dag',
          dag_at-put_dag iface' ref dag' at_ref,
          update_dag_fresh net laws now from rank own peer own.parent fresh.no_parent made small,
          update_dag_keeps net (λ x. x.version) join.keeps_version (λ x p r t. refl) now from rank
                own own.parent
              ∙ fresh.version_is,
          update_dag_keeps net (λ x. x.dodagid) laws.keeps_id (λ x p r t. refl) now from rank own
                own.parent
              ∙ fresh.dodagid_is,
          update_dag_keeps net (λ x. x.mop) laws.keeps_mop (λ x p r t. refl) now from rank own
                own.parent
              ∙ fresh.mop_is,
          update_dag_keeps net (λ x. x.dest) join.keeps_dest (λ x p r t. refl) now from rank own
                own.parent
              ∙ fresh.dest_is,
          update_dag_keeps net (λ x. x.node_class) join.keeps_class (λ x p r t. refl) now from rank
              own own.parent,
        ),
        asked ∙ (λ i.
            route_default (fresh.ifindex_is i) from
            ∷ send_daos (fresh.mop_is i) (fresh.dodagid_is i)
                (record { addr = from; rank = rank })),
      )
