-- ===== src/Tests/Data.antt =====
-- A token, a digest of 32 bytes in place of HMAC-SHA256, a node with one dag, and the calls of other
-- files that process.c makes.
use mathlib.Core.Path.{subst}
use rpld_hymrpl.Prelude.{
  ℕ, zero, suc, ◌+◌, ◌*◌, ◌/◌, ◌%◌, ◌≡◌, ◌⊎◌, inl, inr, refl, ap, ◌∙◌, true, false, none, some,
  List, [], ◌∷◌, ◌++◌, arith, length, replicate, ◌==◌, ==_iff, get_elem?, if◌then◌else◌, Each,
  Each-imp, Maybe,
}
use rpld_hymrpl.Text.Laws.{All, IsByte}
use rpld_hymrpl.Text.{codes}
use rpld_hymrpl.Dag.{
  Addr, hybrid, class_s, Peer, Timer, Dag, Iface, seconds, infinite_rank, Rpl, Mop, Prefix,
}
use rpld_hymrpl.Fifo.{FifoSec, empty_sec}
use rpld_hymrpl.Process.{Net, DagRef, dag_at, rpl_dag, put_dag, put_rpl}
use rpld_hymrpl.Process.Sound.{Created, DagLaws, Held}
use rpld_hymrpl.Process.Dio.Rank.{NetLaws}
use rpld_hymrpl.Process.Dio.Created.{NewDag, JoinLaws}

pub checksum : List ℕ → ℕ → ℕ
checksum [] acc = acc
checksum (x ∷ xs) acc = checksum xs ((acc * 31 + x) % 256)

abbrev pub toy_hmac : List ℕ → List ℕ → List ℕ
toy_hmac key text = replicate 32 (checksum (key ++ text) 0 % 256)

All-replicate : (n x : ℕ) → IsByte x → All IsByte (replicate n x)
All-replicate zero x h = tt
All-replicate (suc n) x h = (h, All-replicate n x h)

pub length-toy_hmac : (key text : List ℕ) → length (toy_hmac key text) ≡ 32
length-toy_hmac key text = refl

pub toy_hmac-IsByte : (key text : List ℕ) → All IsByte (toy_hmac key text)
toy_hmac-IsByte key text = All-replicate 32 (checksum (key ++ text) 0 % 256) (omega arith)

abbrev pub token : List ℕ
token = replicate 32 7

pub token-IsByte : All IsByte token
token-IsByte = All-replicate 32 7 (omega arith)

abbrev pub loaded_sec : FifoSec
loaded_sec = record (empty_sec (seconds 100)) { token = token; token_loaded = true }

abbrev pub timer : Timer
timer = record { running = true; after = seconds 1; period = seconds 1 }

abbrev pub live_parent : Peer
live_parent = record { addr = 21; rank = 3 }

abbrev pub lost_parent : Peer
lost_parent = record { addr = 21; rank = infinite_rank }

abbrev pub node_dag : Dag
node_dag = record {
  version = 1;
  dtsn = 0;
  dsn = 240;
  dodagid = 99;
  mop = hybrid;
  node_class = class_s;
  root = [];
  dest = record { len = 64; bytes = replicate 8 253 };
  my_rank = 4;
  parent = some live_parent;
  self = 20;
  childs = record { addr = 31; from = 32 } ∷ [];
  trickle_t = seconds 2;
  trickle_w = timer;
  parent_last_seen = seconds 100;
  parent_check_w = timer;
  ifindex = 5;
  pending_acks = record { dsn = 240 } ∷ [];
}

abbrev pub lost_dag : Dag
lost_dag = record node_dag { my_rank = infinite_rank; parent = some lost_parent }

abbrev pub root_dag : Dag
root_dag = record node_dag { my_rank = 1; parent = none }

abbrev pub node_iface : Iface
node_iface = record {
  ifname = codes "lowpan0";
  ifindex = 5;
  rpls = record { instance_id = 1; dags = node_dag ∷ [] } ∷ [];
  dodag_root = false;
  mop = hybrid;
  tickle_t = 5;
  node_class = class_s;
  dis_w = timer;
  llinfo = record { addr = replicate 8 2; ifindex = 5 };
  ifaddr = 20;
  ifaddrs = 20 ∷ [];
  ifaddr_src = some 20;
}

-- What is created: a dag with no parent, in an instance before the others.
abbrev pub new_dag : ℕ → Addr → ℕ → ℕ → Mop → Prefix → Dag
new_dag ifindex dodagid rank version mop dest = record node_dag {
  ifindex = ifindex;
  dodagid = dodagid;
  version = version;
  my_rank = rank;
  mop = mop;
  dest = dest;
  parent = none;
  node_class = class_s;
  childs = [];
}

abbrev pub add_rpl : Iface → Rpl → Iface
add_rpl iface r = record iface { rpls = r ∷ iface.rpls }

abbrev pub toy_net : Net
toy_net = record {
  bits_to_bytes = λ bits. (bits + 7) / 8;
  dag_lookup = λ iface id dodagid. if id == 1 then some (0, 0) else none;
  dag_create = λ iface id dodagid rank version mop dest. some (
    add_rpl iface (record {
      instance_id = id;
      dags = new_dag iface.ifindex dodagid rank version mop dest ∷ [];
    }),
    (0, 0),
  );
  dag_peer_create = λ addr. some (record { addr = addr; rank = infinite_rank });
  dag_is_peer = λ p addr. p.addr == addr;
  dag_process_dio = λ dag. dag;
  dag_lookup_child_or_create = λ dag addr from. record dag {
    childs = dag.childs ++ record { addr = addr; from = from } ∷ [];
  };
  t_insert = λ past new. true;
  t_path = λ tree new. record { addr = new.parent; target = new.target } ∷ [];
}

pub toy_net-NetLaws : NetLaws toy_net
toy_net-NetLaws = record {
  keeps_rank = λ d. refl;
  keeps_parent = λ d. refl;
  keeps_mop = λ d. refl;
  keeps_id = λ d. refl;
  new_peer = λ a p e. ground arith;
  is_peer = λ p a. ==_iff p.addr a;
}

-- Every item of a list stands at its place.
abbrev pub Placed : {A : Type 0} → List A → A → Type 0
Placed xs x = (i : ℕ) × (get_elem? xs i ≡ some x)

Each-Placed : {A : Type 0} (xs : List A) → Each (Placed xs) xs
Each-Placed [] = tt
Each-Placed (x ∷ xs) =
    ((0, refl), Each-imp (Placed xs) (Placed (x ∷ xs)) (λ y (i, e). (suc i, e)) xs (Each-Placed xs))

Held-Placed :
    (iface : Iface) (r : Rpl) → Placed iface.rpls r → (x : Dag) → Placed r.dags x → Held iface x
unfolding dag_at rpl_dag
Held-Placed iface r (i, e) x (j, e') = ((i, j), ap (λ o. rpl_dag o j) e ∙ e')

Each-Held :
    (iface : Iface) (d : Dag) → Each (λ r. Each (λ x. (x ≡ d) ⊎ Held iface x) r.dags) iface.rpls
Each-Held iface d =
    Each-imp (Placed iface.rpls) (λ r. Each (λ x. (x ≡ d) ⊎ Held iface x) r.dags)
      (λ r place.
        Each-imp (Placed r.dags) (λ x. (x ≡ d) ⊎ Held iface x)
          (λ x place'. inr (Held-Placed iface r place x place')) r.dags (Each-Placed r.dags))
      iface.rpls (Each-Placed iface.rpls)

toy_net-Created :
    (iface : Iface) (id : ℕ) (dodagid : Addr) (rank version : ℕ) (mop : Mop) (dest : Prefix)
    → Created rank iface
        (add_rpl iface (record {
          instance_id = id;
          dags = new_dag iface.ifindex dodagid rank version mop dest ∷ [];
        }))
        (0, 0)
unfolding dag_at rpl_dag put_dag put_rpl
toy_net-Created iface id dodagid rank version mop dest = record {
  same_class = refl;
  new = new_dag iface.ifindex dodagid rank version mop dest;
  at_ref = refl;
  rank_is = refl;
  no_parent = refl;
  others = λ d. ((inl refl, tt), Each-Held iface d);
}

pub toy_net-DagLaws : DagLaws toy_net
toy_net-DagLaws = record {
  ranks = toy_net-NetLaws;
  keeps_class = λ d. refl;
  child_class = λ d a f. refl;
  child_rank = λ d a f. refl;
  child_parent = λ d a f. refl;
  creates = λ iface iface' ref id dodagid rank version mop dest e.
      let made : Maybe (λ p. Created rank iface p.0 p.1)
          (toy_net.dag_create iface id dodagid rank version mop dest) =
        toy_net-Created iface id dodagid rank version mop dest in
      subst (λ o. Maybe (λ p. Created rank iface p.0 p.1) o) e made;
}

-- What is created is what was asked for.
AsAsked :
    (iface : Iface) (dodagid : Addr) (rank version : ℕ) (mop : Mop) (dest : Prefix)
    → Iface × DagRef
    → Type 0
AsAsked iface dodagid rank version mop dest (iface', ref) =
    (dag : Dag) × (dag_at iface' ref ≡ some dag)
    × NewDag iface.ifindex dodagid rank version mop dest dag

toy_net-creates :
    (iface : Iface) (id : ℕ) (dodagid : Addr) (rank version : ℕ) (mop : Mop) (dest : Prefix)
    → Maybe
        (AsAsked iface dodagid rank version mop dest)
        (toy_net.dag_create iface id dodagid rank version mop dest)
unfolding dag_at rpl_dag AsAsked
toy_net-creates iface id dodagid rank version mop dest = (
  new_dag iface.ifindex dodagid rank version mop dest,
  refl,
  record {
    ifindex_is = refl;
    dodagid_is = refl;
    rank_is = refl;
    version_is = refl;
    mop_is = refl;
    dest_is = refl;
    no_parent = refl;
  },
)

pub toy_net-JoinLaws : JoinLaws toy_net
unfolding AsAsked
toy_net-JoinLaws = record {
  keeps_version = λ d. refl;
  keeps_dest = λ d. refl;
  keeps_class = λ d. refl;
  creates = λ iface iface' ref id dodagid rank version mop dest e.
      subst (λ o. Maybe (AsAsked iface dodagid rank version mop dest) o) e
        (toy_net-creates iface id dodagid rank version mop dest);
}
