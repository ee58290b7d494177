-- ===== src/Process/Dao/Routes.antt =====
-- Which routes a DAO leads to, by mode, rank and class.
use mathlib.Core.List.{append-nil, append_assoc}
use rpld_hymrpl.Prelude.{ℕ, ◌≡◌, sym, refl, ap, ◌∙◌, true, some, List, [], ◌∷◌, ◌++◌, arith, map}
use rpld_hymrpl.Dag.{Addr, Mop, hybrid, TreeInsert, Dag}
use rpld_hymrpl.Process.{Effect, source_routes, send_dao_ack, Net}
use rpld_hymrpl.Process.Dao.{
  Options, parsed, dag_insert_source_routes, insert_targets, insert_all, install_routes, finish_dao,
}

-- The insertion for a target.
abbrev pub insert_of : Addr → Addr → Addr → TreeInsert
insert_of transit from target = record { parent = transit; from = from; target = target }

-- The source routes for insertions into a tree: each along the path that the tree has right after
-- that insertion.
unfoldable pub routes_to : Net → ℕ → List TreeInsert → List TreeInsert → List Effect
routes_to net ifindex root [] = []
routes_to net ifindex root (new ∷ news) =
    source_routes ifindex (net.t_path (root ++ new ∷ []) new)
    ∷ routes_to net ifindex (root ++ new ∷ []) news

module _ (net : Net) (transit from : Addr) where
  -- The tree grows by one insertion for each target, in order, and nothing else of the dag changes.
  pub insert_targets-dag :
      (targets : List Addr) (dag : Dag)
      → (insert_targets net transit from targets dag).0
        ≡ record dag { root = dag.root ++ map (insert_of transit from) targets }
  unfolding insert_targets
  insert_targets-dag [] dag = ap (λ r. record dag { root = r }) (sym (append-nil dag.root))
  insert_targets-dag (target ∷ targets) dag =
      let insert = insert_of transit from target in
      insert_targets-dag targets (record dag { root = dag.root ++ insert ∷ [] })
      ∙ ap (λ r. record dag { root = r })
          (append_assoc dag.root (insert ∷ []) (map (insert_of transit from) targets))

  insert_targets-effects :
      ((past : List TreeInsert) (new : TreeInsert) → net.t_insert past new ≡ true)
      → (targets : List Addr) (dag : Dag)
      → (insert_targets net transit from targets dag).1
        ≡ routes_to net dag.ifindex dag.root (map (insert_of transit from) targets)
  unfolding insert_targets routes_to dag_insert_source_routes
  insert_targets-effects ok [] dag = refl
  insert_targets-effects ok (target ∷ targets) dag =
      let insert = insert_of transit from target in
      rw (ok dag.root insert) (
        ap (λ es. source_routes dag.ifindex (net.t_path (dag.root ++ insert ∷ []) insert) ∷ es)
          (insert_targets-effects ok targets (record dag { root = dag.root ++ insert ∷ [] })))

install_routes-hybrid_root :
    (net : Net) (from transit : Addr) (o : Options) (mode : Mop)
    → mode ≡ hybrid
    → o.dag.my_rank ≡ 1
    → o.transit ≡ some transit
    → install_routes net from mode o ≡ insert_targets net transit from o.targets o.dag
unfolding install_routes insert_all
install_routes-hybrid_root net from transit o mode e top found =
    rw e (ground (arith, ap (λ t. insert_all net from t o.targets o.dag) found))

-- The root of a hybrid network, whose options were read with a transit parent: it adds one insertion
-- for each target to its tree, under that parent and in the order of the options, asks for source
-- routes to each of them, if the tree takes every insertion, and acknowledges the DAO last. Its class
-- does not matter.
pub hybrid_root_routes :
    (net : Net) (from transit : Addr) (o : Options) (dag : Dag)
    → ((past : List TreeInsert) (new : TreeInsert) → net.t_insert past new ≡ true)
    → o.dag.mop ≡ hybrid
    → o.dag.my_rank ≡ 1
    → o.transit ≡ some transit
    → (finish_dao net from (parsed o) dag).0
        ≡ record o.dag { root = o.dag.root ++ map (insert_of transit from) o.targets }
      × (finish_dao net from (parsed o) dag).1
        ≡ routes_to net o.dag.ifindex o.dag.root (map (insert_of transit from) o.targets)
          ++ send_dao_ack from ∷ []
unfolding finish_dao
hybrid_root_routes net from transit o dag ok mode top found =
    let installs = install_routes-hybrid_root net from transit o o.dag.mop mode top found in
    (
      ap (λ r. r.0) installs ∙ insert_targets-dag net transit from o.targets o.dag,
      ap (λ r. r.1 ++ send_dao_ack from ∷ []) installs
          ∙ ap (λ es. es ++ send_dao_ack from ∷ [])
              (insert_targets-effects net transit from ok o.targets o.dag),
    )
