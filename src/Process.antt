-- ===== src/Process.antt =====
-- process.c: what its handlers share. What a handler asks of the rest of the daemon is a list of
-- effects; the functions of dag.c, tree.c and helpers.c, which are not part of this repository, are
-- the fields of `Net`.
pub mod Dio
pub mod Places
pub mod Network
pub mod Dao
pub mod Dispatch
pub mod Outcomes
pub mod Dropped
pub mod Sound
use rpld_hymrpl.Prelude.{
  ℕ, zero, suc, ◌+◌, ◌*◌, ◌/◌, ◌%◌, Bool, Option, none, some, List, [], ◌∷◌, ◌==◌, get_elem?, set,
  if◌then◌else◌,
}
use rpld_hymrpl.Dag.{
  Addr, Mop, no_downward, nonstoring, storing_no_multicast, storing_multicast, hybrid, other, Peer,
  Prefix, TreeInsert, Dag, Rpl, Iface,
}

-- `struct t_path` of tree.h, as `dag_insert_source_routes` prints it.
pub record PathSegment : Type 0 where
  pub addr : Addr
  pub target : Addr

pub data Effect : Type 0 where
  route_default : ℕ → Addr → Effect
  route_via : ℕ → Addr → Addr → Effect
  del_route_via : ℕ → Prefix → Effect
  source_routes : ℕ → List PathSegment → Effect
  send_dao : Addr → Effect
  send_dao_ack : Addr → Effect
  send_dio : Addr → Effect
  send_dis : ℕ → Effect
  notify_dao_sent : Effect
  notify_parent_change : Addr → Effect
  add_addr : ℕ → Addr → Effect

-- A pointer to a dag of an interface: the place of its instance, and its place there.
abbrev pub DagRef : Type 0
DagRef = ℕ × ℕ

unfoldable pub rpl_dag : Option Rpl → ℕ → Option Dag
rpl_dag none j = none
rpl_dag (some r) j = get_elem? r.dags j

-- What a pointer to a dag leads to.
unfoldable pub dag_at : Iface → DagRef → Option Dag
unfolding rpl_dag
dag_at iface (i, j) = rpl_dag (get_elem? iface.rpls i) j

unfoldable pub put_rpl : List Rpl → ℕ → Option Rpl → ℕ → Dag → List Rpl
put_rpl rpls i none j d = rpls
put_rpl rpls i (some r) j d = set rpls i (record r { dags = set r.dags j d })

-- A write through a pointer to a dag.
unfoldable pub put_dag : Iface → DagRef → Dag → Iface
unfolding put_rpl
put_dag iface (i, j) d = record iface { rpls = put_rpl iface.rpls i (get_elem? iface.rpls i) j d }

-- The functions that process.c calls and that are not in this repository. `t_insert` is given the
-- insertions made before, and says whether it returns a node.
pub record Net : Type 0 where
  pub bits_to_bytes : ℕ → ℕ
  pub dag_lookup : Iface → ℕ → Addr → Option DagRef
  pub dag_create : Iface → ℕ → Addr → ℕ → ℕ → Mop → Prefix → Option (Iface × DagRef)
  pub dag_peer_create : Addr → Option Peer
  pub dag_is_peer : Peer → Addr → Bool
  pub dag_process_dio : Dag → Dag
  pub dag_lookup_child_or_create : Dag → Addr → Addr → Dag
  pub t_insert : List TreeInsert → TreeInsert → Bool
  pub t_path : List TreeInsert → TreeInsert → List PathSegment
