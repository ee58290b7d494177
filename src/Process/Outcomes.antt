-- ===== src/Process/Outcomes.antt =====
-- What a message can make of an interface: a property of the interface before, and of each of the
-- ways in which a handler changes it, is a property of the interface after.
use rpld_hymrpl.Prelude.{ℕ, ◌-◌, ◌≡◌, inl, inr, refl, some, ltb, ◌==◌, Bool-cases, Option-cases}
use rpld_hymrpl.Dag.{Addr, Time, Iface}
use rpld_hymrpl.Wire.{
  Memory, read_addr, read16, nd_rpl_dag_is, nd_rpl_dag_io, nd_rpl_dao, nd_rpl_dao_ack, daoack_of,
}
use rpld_hymrpl.Process.{DagRef, dag_at, Net}
use rpld_hymrpl.Process.Dio.{dio_size, join_dag, update_at, known_dag, inherit_class, process_dio}
use rpld_hymrpl.Process.Dao.{dao_size, dao_at, process_dao}
use rpld_hymrpl.Process.Dispatch.{daoack_size, process_daoack, process_message}

module _ (net : Net) (P : Iface → Type 0) (iface : Iface) (same : P iface) where
  -- A DIO leaves the interface, updates a dag that it knows, or creates one and updates it.
  pub process_dio_outcome :
      (now : Time) (msg : Memory) (len : ℕ) (from : Addr)
      → ((ref : DagRef) → P (known_dag net now from (read16 msg 2) iface ref (dag_at iface ref)).0)
      → ((iface' : Iface) (ref : DagRef)
          → join_dag net iface msg (len - dio_size) ≡ some (iface', ref)
          → P
              (update_at net now from
                (read16 msg 2)
                iface'
                ref
                (inherit_class iface (dag_at iface' ref))).0)
      → P (process_dio net now iface msg len from).0
  unfolding process_dio
  process_dio_outcome now msg len from known created = elim (Bool-cases (ltb len dio_size)) [
    | inl short ↦ rw (short, process_dio) same
    | inr fits ↦ elim (Option-cases (net.dag_lookup iface (msg 0) (read_addr msg 8))) [
      | inr (ref, found) ↦ rw (fits, found, process_dio) (known ref)
      | inl new ↦ elim (Option-cases (join_dag net iface msg (len - dio_size))) [
        | inl fails ↦ rw (fits, new, fails, process_dio) same
        | inr ((iface', ref), joins) ↦ rw (fits, new, joins, process_dio) (created iface' ref joins)
      ]
    ]
  ]

  -- A DAO leaves the interface, or updates a dag that it knows.
  pub process_dao_outcome :
      (msg : Memory) (len : ℕ) (from : Addr)
      → ((ref : DagRef) → P (dao_at net iface msg (len - dao_size) from ref (dag_at iface ref)).0)
      → P (process_dao net iface msg len from).0
  unfolding process_dao
  process_dao_outcome msg len from known = elim (Bool-cases (ltb len dao_size)) [
    | inl short ↦ rw (short, process_dao) same
    | inr fits ↦ elim (Option-cases (net.dag_lookup iface (msg 0) (read_addr msg 4))) [
      | inl unknown ↦ rw (fits, unknown, process_dao) same
      | inr (ref, found) ↦ rw (fits, found, process_dao) (known ref)
    ]
  ]

  -- A DAO-ACK leaves the interface.
  process_daoack_same : (msg : Memory) (len : ℕ) → (process_daoack net iface msg len).0 ≡ iface
  unfolding process_daoack
  process_daoack_same msg len = elim (Bool-cases (ltb len daoack_size)) [
    | inl short ↦ rw (short, process_daoack) refl
    | inr fits ↦
        let ack = daoack_of msg in
        elim (Option-cases (net.dag_lookup iface ack.rpl_instanceid ack.rpl_dagid)) [
          | inl unknown ↦ rw (fits, unknown, process_daoack) refl
          | inr (ref, found) ↦ rw (fits, found, process_daoack) refl
        ]
  ]

  pub process_message_outcome :
      (now : Time) (code : ℕ) (msg : Memory) (len : ℕ) (from : Addr)
      → P (process_dio net now iface msg len from).0
      → P (process_dao net iface msg len from).0
      → P (process_message net now iface code msg len from).0
  unfolding process_message
  process_message_outcome now code msg len from dio dao =
      elim (Bool-cases (code == nd_rpl_dag_is)) [
        | inl e ↦ rw (e, process_message) same
        | inr e ↦ elim (Bool-cases (code == nd_rpl_dag_io)) [
          | inl e' ↦ rw (e, e', process_message) dio
          | inr e' ↦ elim (Bool-cases (code == nd_rpl_dao)) [
            | inl e'' ↦ rw (e, e', e'', process_message) dao
            | inr e'' ↦ elim (Bool-cases (code == nd_rpl_dao_ack)) [
              | inl ack ↦ rw (e, e', e'', ack, process_message, process_daoack_same msg len) same
              | inr no_ack ↦ rw (e, e', e'', no_ack, process_message) same
            ]
          ]
        ]
      ]
