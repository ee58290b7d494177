-- ===== src/Dag/ClassSwitch.antt =====
-- The class switch over all interfaces: every class becomes the new one, and nothing else changes.
use rpld_hymrpl.Prelude.{◌≡◌, refl, ap, ap₂, List, [], ◌∷◌, map, arith}
use rpld_hymrpl.Dag.{
  NodeClass, class_s, Dag, Rpl, Iface, set_dag_class, set_rpl_class, set_iface_class, apply_class,
}

abbrev pub DagsOf : NodeClass → List Dag → Type 0
DagsOf c [] = Unit {0}
DagsOf c (d ∷ ds) = (d.node_class ≡ c) × DagsOf c ds

abbrev pub RplsOf : NodeClass → List Rpl → Type 0
RplsOf c [] = Unit {0}
RplsOf c (r ∷ rs) = DagsOf c r.dags × RplsOf c rs

-- Every interface and every dag is of the class.
abbrev pub AllOf : NodeClass → List Iface → Type 0
AllOf c [] = Unit {0}
AllOf c (i ∷ is) = (i.node_class ≡ c) × RplsOf c i.rpls × AllOf c is

-- What is left of the state with the classes blotted out.
abbrev pub blot_dag : Dag → Dag
blot_dag d = record d { node_class = class_s }

abbrev pub blot_rpl : Rpl → Rpl
blot_rpl r = record r { dags = map blot_dag r.dags }

abbrev pub blot_iface : Iface → Iface
blot_iface i = record i { node_class = class_s; rpls = map blot_rpl i.rpls }

abbrev pub blot : List Iface → List Iface
blot is = map blot_iface is

set_dag_class-eq : (c : NodeClass) (d : Dag) → set_dag_class c d ≡ record d { node_class = c }
unfolding set_dag_class
set_dag_class-eq c d = ground arith

set_dag_class-DagsOf : (c : NodeClass) (ds : List Dag) → DagsOf c (map (set_dag_class c) ds)
set_dag_class-DagsOf c [] = tt
set_dag_class-DagsOf c (d ∷ ds) =
    (ap (λ x. x.node_class) (set_dag_class-eq c d), set_dag_class-DagsOf c ds)

set_rpl_class-RplsOf : (c : NodeClass) (rs : List Rpl) → RplsOf c (map (set_rpl_class c) rs)
unfolding set_rpl_class
set_rpl_class-RplsOf c [] = tt
set_rpl_class-RplsOf c (r ∷ rs) = (set_dag_class-DagsOf c r.dags, set_rpl_class-RplsOf c rs)

pub apply_class-AllOf : (c : NodeClass) (is : List Iface) → AllOf c (apply_class c is)
unfolding apply_class set_iface_class
apply_class-AllOf c [] = tt
apply_class-AllOf c (i ∷ is) = (refl, set_rpl_class-RplsOf c i.rpls, apply_class-AllOf c is)

blot-set_dag_class :
    (c : NodeClass) (ds : List Dag) → map blot_dag (map (set_dag_class c) ds) ≡ map blot_dag ds
blot-set_dag_class c [] = refl
blot-set_dag_class c (d ∷ ds) =
    ap₂ ◌∷◌ (ap blot_dag (set_dag_class-eq c d)) (blot-set_dag_class c ds)

blot-set_rpl_class :
    (c : NodeClass) (rs : List Rpl) → map blot_rpl (map (set_rpl_class c) rs) ≡ map blot_rpl rs
unfolding set_rpl_class
blot-set_rpl_class c [] = refl
blot-set_rpl_class c (r ∷ rs) =
    ap₂ ◌∷◌ (ap (λ ds. record r { dags = ds }) (blot-set_dag_class c r.dags))
      (blot-set_rpl_class c rs)

pub blot-apply_class : (c : NodeClass) (is : List Iface) → blot (apply_class c is) ≡ blot is
unfolding apply_class set_iface_class
blot-apply_class c [] = refl
blot-apply_class c (i ∷ is) =
    ap₂ ◌∷◌ (ap (λ rs. record i { node_class = class_s; rpls = rs }) (blot-set_rpl_class c i.rpls))
      (blot-apply_class c is)
