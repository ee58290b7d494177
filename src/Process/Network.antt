-- ===== src/Process/Network.antt =====
-- A DODAG of nodes that run process.c: each node's dag, and DIOs delivered over links.
--
-- `send_dio` is not in the repository: a DIO is taken to carry `my_rank` of its sender. The nodes share
-- the dag's id, and no parent is given up while the deliveries last.
pub mod Paths
pub mod Shortest
pub mod Routes
pub mod Rounds
use rpld_hymrpl.Prelude.{
  ℕ, zero, suc, ◌<◌, ◌≡◌, ◌≢◌, Option, some, List, [], ◌∷◌, ◌==◌, if◌then◌else◌,
}
use rpld_hymrpl.Dag.{Addr, Time, infinite_rank, Peer, Dag}
use rpld_hymrpl.Process.{Net}
use rpld_hymrpl.Process.Dio.History.{hear, IsFresh}

-- The dag of each node, by the node's address.
abbrev pub Nodes : Type 0
Nodes = Addr → Dag

-- A DIO of `sender` that `receiver` gets at time `now`.
pub record Delivery : Type 0 where
  pub now : Time
  pub sender : Addr
  pub receiver : Addr

unfoldable pub deliver : Net → Nodes → Delivery → Nodes
deliver net nodes d n =
    if n == d.receiver
    then hear net (record { now = d.now; from = d.sender; rank = (nodes d.sender).my_rank })
        (nodes n)
    else nodes n

unfoldable pub deliver_all : Net → Nodes → List Delivery → Nodes
deliver_all net nodes [] = nodes
deliver_all net nodes (d ∷ ds) = deliver_all net (deliver net nodes d) ds

-- The root has rank 1, the other nodes have just created their dags.
pub record IsStart (root : Addr) (nodes : Nodes) : Type 0 where
  pub root_rank : (nodes root).my_rank ≡ 1
  pub fresh : (n : Addr) → n ≢ root → IsFresh (nodes n)

-- A node sends over its links, and once it has a rank.
abbrev pub CanSend : (Addr → Addr → Type 0) → Nodes → Delivery → Type 0
CanSend link nodes d = link d.sender d.receiver × ((nodes d.sender).my_rank < infinite_rank)

-- Each delivery of the list can be sent when its turn comes.
abbrev pub IsSchedule : (Addr → Addr → Type 0) → Net → Nodes → List Delivery → Type 0
IsSchedule link net nodes [] = Unit {0}
IsSchedule link net nodes (d ∷ ds) =
    CanSend link nodes d × IsSchedule link net (deliver net nodes d) ds

-- A walk of so many links from the root.
abbrev pub Walk : (Addr → Addr → Type 0) → Addr → ℕ → Addr → Type 0
Walk link root zero n = n ≡ root
Walk link root (suc k) n = (a : Addr) × Walk link root k a × link a n

-- A peer can be created for every sender.
abbrev pub CreatesPeers : Net → Type 0
CreatesPeers net = (a : Addr) → (p : Peer) × (net.dag_peer_create a ≡ some p)
