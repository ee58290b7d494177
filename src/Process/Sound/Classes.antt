-- ===== src/Process/Sound/Classes.antt =====
-- No packet changes the class of an interface.
use rpld_hymrpl.Prelude.{
  ℕ, ◌-◌, ◌+◌, ◌≡◌, refl, sym, ap, ◌∙◌, arith, ◌==◌, Option, none, some, List, [], ◌∷◌, map,
  get_elem?, set, Bool-cases, inl, inr, zero, suc,
}
use rpld_hymrpl.Dag.{Addr, Time, NodeClass, Dag, Iface}
use rpld_hymrpl.Wire.{Memory, read16}
use rpld_hymrpl.Process.{DagRef, dag_at, put_dag, Net}
use rpld_hymrpl.Process.Dio.{dio_size, update_at, known_dag, inherit_class, process_dio}
use rpld_hymrpl.Process.Dao.{dao_size, dao_at, process_dao}
use rpld_hymrpl.Process.Dispatch.{process_message, process}
use rpld_hymrpl.Process.Outcomes.{process_dio_outcome, process_dao_outcome, process_message_outcome}
use rpld_hymrpl.Process.Sound.{DagLaws, join_dag-Created}
use rpld_hymrpl.Process.Sound.Packet.{located, located_at}

abbrev pub class_of : Iface → NodeClass
class_of i = i.node_class

-- A write of an interface that is of the class of the one at its place.
pub map-set_same :
    (ifaces : List Iface) (place : ℕ) (i j : Iface)
    → get_elem? ifaces place ≡ some i
    → j.node_class ≡ i.node_class
    → map class_of (set ifaces place j) ≡ map class_of ifaces
map-set_same [] place i j e h = refl
map-set_same (x ∷ xs) zero i j e h =
    let same : x.node_class ≡ j.node_class = ground (arith, h, e) in
    ap (λ c. c ∷ map class_of xs) (sym same)
map-set_same (x ∷ xs) (suc place) i j e h =
    ap (λ cs. x.node_class ∷ cs) (map-set_same xs place i j e h)

module _ (net : Net) (laws : DagLaws net) where
  known_dag_class :
      (now : Time) (from : Addr) (rank : ℕ) (iface : Iface) (ref : DagRef) (held : Option Dag)
      → (known_dag net now from rank iface ref held).0.node_class ≡ iface.node_class
  unfolding known_dag update_at put_dag
  known_dag_class now from rank iface ref none = refl
  known_dag_class now from rank iface ref (some dag) = elim (Bool-cases (dag.my_rank == 1)) [
    | inl root ↦ rw root refl
    | inr node ↦ rw node refl
  ]

  update_at_class :
      (now : Time) (from : Addr) (rank : ℕ) (iface : Iface) (ref : DagRef) (held : Option Dag)
      → (update_at net now from rank iface ref held).0.node_class ≡ iface.node_class
  unfolding update_at put_dag
  update_at_class now from rank iface ref none = refl
  update_at_class now from rank iface ref (some dag) = refl

  process_dio_class :
      (now : Time) (iface : Iface) (msg : Memory) (len : ℕ) (from : Addr)
      → (process_dio net now iface msg len from).0.node_class ≡ iface.node_class
  process_dio_class now iface msg len from =
      process_dio_outcome net (λ i. i.node_class ≡ iface.node_class) iface refl now msg len from
        (λ ref. known_dag_class now from (read16 msg 2) iface ref (dag_at iface ref))
        (λ iface' ref joins.
          update_at_class now from (read16 msg 2) iface' ref
            (inherit_class iface (dag_at iface' ref))
          ∙ (join_dag-Created net laws iface iface' msg (len - dio_size) ref joins).same_class)

  dao_at_class :
      (iface : Iface) (msg : Memory) (len : ℕ) (from : Addr) (ref : DagRef) (held : Option Dag)
      → (dao_at net iface msg len from ref held).0.node_class ≡ iface.node_class
  unfolding dao_at put_dag
  dao_at_class iface msg len from ref none = refl
  dao_at_class iface msg len from ref (some dag) = refl

  process_dao_class :
      (iface : Iface) (msg : Memory) (len : ℕ) (from : Addr)
      → (process_dao net iface msg len from).0.node_class ≡ iface.node_class
  process_dao_class iface msg len from =
      process_dao_outcome net (λ i. i.node_class ≡ iface.node_class) iface refl msg len from
        (λ ref. dao_at_class iface msg (len - dao_size) from ref (dag_at iface ref))

  process_message_class :
      (now : Time) (iface : Iface) (code : ℕ) (msg : Memory) (len : ℕ) (from : Addr)
      → (process_message net now iface code msg len from).0.node_class ≡ iface.node_class
  process_message_class now iface code msg len from =
      process_message_outcome net (λ i. i.node_class ≡ iface.node_class) iface refl now code msg len
        from (process_dio_class now iface msg len from) (process_dao_class iface msg len from)

  process_at-classes :
      (now : Time) (ifaces : List Iface) (place : ℕ) (found : Option Iface) (packet : Memory)
      (len : ℕ) (from : Addr)
      → get_elem? ifaces place ≡ found
      → map class_of (process net now ifaces (located_at place found) packet len from).0
        ≡ map class_of ifaces
  unfolding process
  process_at-classes now ifaces place none packet len from e = ground arith
  process_at-classes now ifaces place (some iface) packet len from e =
      let message = process_message net now iface (packet 1) (λ i. packet (i + 4)) (len - 4) from in
      ground (
        arith,
        map-set_same ifaces place iface message.0 e
            (process_message_class now iface (packet 1) (λ i. packet (i + 4)) (len - 4) from),
      )

  process_nowhere :
      (now : Time) (ifaces : List Iface) (packet : Memory) (len : ℕ) (from : Addr)
      → map class_of (process net now ifaces none packet len from).0 ≡ map class_of ifaces
  unfolding process
  process_nowhere now ifaces packet len from = ground arith

  -- The class of an interface is left alone by every packet.
  pub process-classes :
      (now : Time) (ifaces : List Iface) (found : Option ℕ) (packet : Memory) (len : ℕ)
      (from : Addr)
      → map class_of (process net now ifaces (located ifaces found) packet len from).0
        ≡ map class_of ifaces
  process-classes now ifaces none packet len from = process_nowhere now ifaces packet len from
  process-classes now ifaces (some place) packet len from =
      process_at-classes now ifaces place (get_elem? ifaces place) packet len from refl
