-- ===== src/Process/Places.antt =====
-- Reads and writes through pointers to the dags of an interface.
use rpld_hymrpl.Prelude.{
  ℕ, zero, suc, ◌≡◌, ◌≢◌, ◌⊎◌, inl, inr, refl, ap, ◌∙◌, sym, Option, none, some, List, [], ◌∷◌,
  get_elem?, get_elem?-set_self, get_elem?-set_ne, set, length, ◌<◌, arith, ≡-cases,
}
use rpld_hymrpl.Dag.{Dag, Rpl, Iface}
use rpld_hymrpl.Process.{DagRef, rpl_dag, dag_at, put_rpl, put_dag}

get_elem?→lt : {A : Type 0} (xs : List A) (i : ℕ) {x : A} → get_elem? xs i ≡ some x → i < length xs
get_elem?→lt [] i h = absurd (cc)
get_elem?→lt (x ∷ xs) zero h = omega arith
get_elem?→lt (x ∷ xs) (suc i) h = omega (arith, get_elem?→lt xs i h)

rpl_dag-put_self :
    (rpls : List Rpl) (i j : ℕ) (r : Option Rpl) {d : Dag} (new : Dag)
    → get_elem? rpls i ≡ r
    → rpl_dag r j ≡ some d
    → rpl_dag (get_elem? (put_rpl rpls i r j new) i) j ≡ some new
unfolding rpl_dag put_rpl
rpl_dag-put_self rpls i j none new e h = absurd (cc)
rpl_dag-put_self rpls i j (some r) new e h =
    ap (λ o. rpl_dag o j) (get_elem?-set_self rpls i _ (get_elem?→lt rpls i e))
    ∙ get_elem?-set_self r.dags j new (get_elem?→lt r.dags j h)

-- What is written through a pointer that leads to a dag is read through it.
pub dag_at-put_dag :
    (iface : Iface) (ref : DagRef) {d : Dag} (new : Dag)
    → dag_at iface ref ≡ some d
    → dag_at (put_dag iface ref new) ref ≡ some new
unfolding dag_at put_dag
dag_at-put_dag iface (i, j) new h =
    rpl_dag-put_self iface.rpls i j (get_elem? iface.rpls i) new refl h

rpl_dag-set :
    (rpls : List Rpl) (i j i' j' : ℕ) (r : Rpl) (new : Dag)
    → get_elem? rpls i ≡ some r
    → (i ≡ i') ⊎ (i ≢ i')
    → (i ≢ i') ⊎ (j ≢ j')
    → rpl_dag (get_elem? (set rpls i (record r { dags = set r.dags j new })) i') j'
      ≡ rpl_dag (get_elem? rpls i') j'
unfolding rpl_dag
rpl_dag-set rpls i j i' j' r new e (inr h) other =
    ap (λ o. rpl_dag o j') (get_elem?-set_ne rpls _ h)
rpl_dag-set rpls i j i' j' r new e (inl h) (inl k) = absurd (k h)
rpl_dag-set rpls i j i' j' r new e (inl h) (inr k) = rw⁻¹ h (
    ap (λ o. rpl_dag o j') (get_elem?-set_self rpls i _ (get_elem?→lt rpls i e))
    ∙ get_elem?-set_ne r.dags new k
    ∙ sym (ap (λ o. rpl_dag o j') e))

rpl_dag-put_ne :
    (rpls : List Rpl) (i j i' j' : ℕ) (r : Option Rpl) (new : Dag)
    → get_elem? rpls i ≡ r
    → (i ≢ i') ⊎ (j ≢ j')
    → rpl_dag (get_elem? (put_rpl rpls i r j new) i') j' ≡ rpl_dag (get_elem? rpls i') j'
unfolding rpl_dag put_rpl
rpl_dag-put_ne rpls i j i' j' none new e other = refl
rpl_dag-put_ne rpls i j i' j' (some r) new e other =
    rpl_dag-set rpls i j i' j' r new e (≡-cases i i') other

-- A write through one pointer is not seen through another.
pub dag_at-put_dag_ne :
    (iface : Iface) (ref other : DagRef) (new : Dag)
    → (ref.0 ≢ other.0) ⊎ (ref.1 ≢ other.1)
    → dag_at (put_dag iface ref new) other ≡ dag_at iface other
unfolding dag_at put_dag
dag_at-put_dag_ne iface (i, j) (i', j') new h =
    rpl_dag-put_ne iface.rpls i j i' j' (get_elem? iface.rpls i) new refl h
