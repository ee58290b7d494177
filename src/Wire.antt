-- ===== src/Wire.antt =====
-- rpl.h: the codes and the packed structs of RPL messages. A struct is a record; a cast of a pointer
-- into a message is a function that reads its fields at their offsets; a laid out struct is the list of
-- its bytes. Numbers stand in network order, and fields of two bytes are as `ntohs` gives them.
pub mod Flags
pub mod Layout
pub mod Structs
pub mod Macros
use rpld_hymrpl.Prelude.{
  ℕ, zero, suc, ◌+◌, ◌*◌, ◌/◌, ◌%◌, List, [], ◌∷◌, ◌++◌, ◌==◌, if◌then◌else◌, get_or,
}
use rpld_hymrpl.Dag.{
  Addr, Mop, no_downward, nonstoring, storing_no_multicast, storing_multicast, hybrid, other,
}

-- The bytes from the start of a message on.
abbrev pub Memory : Type 0
Memory = ℕ → ℕ

-- Memory that begins with the given bytes.
abbrev pub memory_of : List ℕ → Memory
memory_of bytes = λ i. get_or bytes i 0

unfoldable pub read16 : Memory → ℕ → ℕ
read16 msg i = msg i * 256 + msg (i + 1)

unfoldable pub read_bytes : Memory → ℕ → ℕ → List ℕ
read_bytes msg i zero = []
read_bytes msg i (suc n) = msg i ∷ read_bytes msg (i + 1) n

-- The number whose bytes stand first to last.
unfoldable pub addr_of : List ℕ → ℕ → ℕ
addr_of [] high = high
addr_of (b ∷ bytes) high = addr_of bytes (high * 256 + b)

unfoldable pub read32 : Memory → ℕ → ℕ
read32 msg i = addr_of (read_bytes msg i 4) 0

unfoldable pub read_addr : Memory → ℕ → Addr
read_addr msg i = addr_of (read_bytes msg i 16) 0

-- The last `width` bytes of a number, first to last.
unfoldable pub bytes_of : ℕ → ℕ → List ℕ
bytes_of zero n = []
bytes_of (suc width) n = bytes_of width (n / 256) ++ n % 256 ∷ []

abbrev pub nd_rpl_message : ℕ
nd_rpl_message = 155

-- `enum ND_RPL_CODE`, without the secure variants, which the daemon does not know.
abbrev pub nd_rpl_dag_is : ℕ
nd_rpl_dag_is = 0

abbrev pub nd_rpl_dag_io : ℕ
nd_rpl_dag_io = 1

abbrev pub nd_rpl_dao : ℕ
nd_rpl_dao = 2

abbrev pub nd_rpl_dao_ack : ℕ
nd_rpl_dao_ack = 3

-- The options of `enum RPL_SUBOPT` that the handlers look for.
abbrev pub rpl_dao_rpltarget : ℕ
rpl_dao_rpltarget = 5

abbrev pub rpl_dao_transitinfo : ℕ
rpl_dao_transitinfo = 6

pub record NdRplOpt : Type 0 where
  pub opt_type : ℕ
  pub opt_len : ℕ

abbrev pub opt_at : Memory → ℕ → NdRplOpt
opt_at msg p = record { opt_type = msg p; opt_len = msg (p + 1) }

pub record NdRplDio : Type 0 where
  pub rpl_instanceid : ℕ
  pub rpl_version : ℕ
  pub rpl_dagrank : ℕ
  pub rpl_mopprf : ℕ
  pub rpl_dtsn : ℕ
  pub rpl_flags : ℕ
  pub rpl_resv1 : ℕ
  pub rpl_dagid : Addr

abbrev pub dio_of : Memory → NdRplDio
dio_of msg = record {
  rpl_instanceid = msg 0;
  rpl_version = msg 1;
  rpl_dagrank = read16 msg 2;
  rpl_mopprf = msg 4;
  rpl_dtsn = msg 5;
  rpl_flags = msg 6;
  rpl_resv1 = msg 7;
  rpl_dagid = read_addr msg 8;
}

pub record RplDioDestprefix : Type 0 where
  pub rpl_dio_type : ℕ
  pub rpl_dio_len : ℕ
  pub rpl_dio_prefixlen : ℕ
  pub rpl_dio_prf : ℕ
  pub rpl_dio_route_lifetime : ℕ
  pub rpl_dio_prefix : Addr

abbrev pub destprefix_at : Memory → ℕ → RplDioDestprefix
destprefix_at msg p = record {
  rpl_dio_type = msg p;
  rpl_dio_len = msg (p + 1);
  rpl_dio_prefixlen = msg (p + 2);
  rpl_dio_prf = msg (p + 3);
  rpl_dio_route_lifetime = read32 msg (p + 4);
  rpl_dio_prefix = read_addr msg (p + 8);
}

pub record NdRplDao : Type 0 where
  pub rpl_instanceid : ℕ
  pub rpl_flags : ℕ
  pub rpl_resv : ℕ
  pub rpl_daoseq : ℕ
  pub rpl_dagid : Addr

abbrev pub dao_of : Memory → NdRplDao
dao_of msg = record {
  rpl_instanceid = msg 0;
  rpl_flags = msg 1;
  rpl_resv = msg 2;
  rpl_daoseq = msg 3;
  rpl_dagid = read_addr msg 4;
}

pub record RplDaoTarget : Type 0 where
  pub rpl_dao_type : ℕ
  pub rpl_dao_len : ℕ
  pub rpl_dao_flags : ℕ
  pub rpl_dao_prefixlen : ℕ
  pub rpl_dao_prefix : Addr

abbrev pub target_at : Memory → ℕ → RplDaoTarget
target_at msg p = record {
  rpl_dao_type = msg p;
  rpl_dao_len = msg (p + 1);
  rpl_dao_flags = msg (p + 2);
  rpl_dao_prefixlen = msg (p + 3);
  rpl_dao_prefix = read_addr msg (p + 4);
}

pub record RplDaoTransit : Type 0 where
  pub transit_type : ℕ
  pub transit_len : ℕ
  pub flags : ℕ
  pub path_ctrl : ℕ
  pub seq : ℕ
  pub lifetime : ℕ
  pub parent : Addr

abbrev pub transit_at : Memory → ℕ → RplDaoTransit
transit_at msg p = record {
  transit_type = msg p;
  transit_len = msg (p + 1);
  flags = msg (p + 2);
  path_ctrl = msg (p + 3);
  seq = msg (p + 4);
  lifetime = msg (p + 5);
  parent = read_addr msg (p + 6);
}

pub record NdRplDaoack : Type 0 where
  pub rpl_instanceid : ℕ
  pub rpl_flags : ℕ
  pub rpl_daoseq : ℕ
  pub rpl_status : ℕ
  pub rpl_dagid : Addr

abbrev pub daoack_of : Memory → NdRplDaoack
daoack_of msg = record {
  rpl_instanceid = msg 0;
  rpl_flags = msg 1;
  rpl_daoseq = msg 2;
  rpl_status = msg 3;
  rpl_dagid = read_addr msg 4;
}
