-- ===== src/Dag.antt =====
-- The daemon's state: the structs of dag.h and config.h, and the class switch over all of them.
--
-- An address (`struct in6_addr`) is a number. A time (`ev_tstamp`, a double of seconds) is a number
-- of microseconds. `node_class` holds only HYMRPL_CLASS_S and HYMRPL_CLASS_N, so it is an enum.
-- The lists of the C code are lists; a pointer to a dag is its place in its interface.
pub mod ClassSwitch
use rpld_hymrpl.Prelude.{ℕ, ◌*◌, Bool, true, false, if◌then◌else◌, Option, List, map}

abbrev pub Addr : Type 0
Addr = ℕ

abbrev pub Time : Type 0
Time = ℕ

abbrev pub seconds : ℕ → Time
seconds n = n * 1000000

abbrev pub infinite_rank : ℕ
infinite_rank = 65535

-- HYMRPL_CLASS_S and HYMRPL_CLASS_N
pub data NodeClass : Type 0 where
  class_s class_n : NodeClass

abbrev pub same_class : NodeClass → NodeClass → Bool
same_class class_s class_s = true
same_class class_s class_n = false
same_class class_n class_s = false
same_class class_n class_n = true

-- `enum RPL_DIO_MOP`; the values with no name are `other`.
pub data Mop : Type 0 where
  no_downward nonstoring storing_no_multicast storing_multicast hybrid : Mop
  other : ℕ → Mop

pub record Peer : Type 0 where
  pub addr : Addr
  pub rank : ℕ

pub record Child : Type 0 where
  pub addr : Addr
  pub from : Addr

-- A libev timer: whether it runs, the delay of its first expiry and its period.
pub record Timer : Type 0 where
  pub running : Bool
  pub after : Time
  pub period : Time

-- `struct in6_prefix`: its length in bits and the bytes copied into it.
pub record Prefix : Type 0 where
  pub len : ℕ
  pub bytes : List ℕ

-- The arguments of a call of `t_insert`.
pub record TreeInsert : Type 0 where
  pub parent : Addr
  pub from : Addr
  pub target : Addr

pub record DagDaoack : Type 0 where
  pub dsn : ℕ

-- `struct dag`. `root`, the tree of the external tree.c, is the list of the insertions made so far.
-- `ifindex` is `iface->ifindex`; `rpl` is the instance that the dag stands in.
pub record Dag : Type 0 where
  pub version : ℕ
  pub dtsn : ℕ
  pub dsn : ℕ
  pub dodagid : Addr
  pub mop : Mop
  pub node_class : NodeClass
  pub root : List TreeInsert
  pub dest : Prefix
  pub my_rank : ℕ
  pub parent : Option Peer
  pub self : Addr
  pub childs : List Child
  pub trickle_t : Time
  pub trickle_w : Timer
  pub parent_last_seen : Time
  pub parent_check_w : Timer
  pub ifindex : ℕ
  pub pending_acks : List DagDaoack

pub record Rpl : Type 0 where
  pub instance_id : ℕ
  pub dags : List Dag

-- `struct iface_llinfo`: the link-layer address of an interface.
pub record IfaceLlinfo : Type 0 where
  pub addr : List ℕ
  pub ifindex : ℕ

-- `struct iface`. The lengths `addr_len` and `ifaddrs_count` are those of the lists.
pub record Iface : Type 0 where
  pub ifname : List ℕ
  pub ifindex : ℕ
  pub dis_w : Timer
  pub llinfo : IfaceLlinfo
  pub ifaddr : Addr
  pub ifaddrs : List Addr
  pub ifaddr_src : Option Addr
  pub rpls : List Rpl
  pub dodag_root : Bool
  pub mop : Mop
  pub tickle_t : ℕ
  pub node_class : NodeClass

-- The inner body of the switch loop: a dag of the class already is left alone.
unfoldable pub set_dag_class : NodeClass → Dag → Dag
set_dag_class new_class d =
    if same_class d.node_class new_class then d else record d { node_class = new_class }

unfoldable pub set_rpl_class : NodeClass → Rpl → Rpl
set_rpl_class new_class r = record r { dags = map (set_dag_class new_class) r.dags }

unfoldable pub set_iface_class : NodeClass → Iface → Iface
set_iface_class new_class i = record i {
  node_class = new_class;
  rpls = map (set_rpl_class new_class) i.rpls;
}

-- The loop over the interfaces that applies a class change.
unfoldable pub apply_class : NodeClass → List Iface → List Iface
apply_class new_class ifaces = map (set_iface_class new_class) ifaces
