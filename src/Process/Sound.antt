-- ===== src/Process/Sound.antt =====
-- What every message keeps: the ranks of all dags, and the class that they share with their interface.
pub mod Dao
pub mod Packet
pub mod Classes
use rpld_hymrpl.Prelude.{
  ℕ, zero, suc, ◌+◌, ◌-◌, ◌%◌, ◌≡◌, ◌⊎◌, inl, inr, refl, sym, ap, ◌∙◌, Bool, true, false, Option,
  none, some, List, [], ◌∷◌, ◌++◌, arith, ltb, ◌==◌, Bool-cases, Option-cases, get_elem?, set,
  if◌then◌else◌, Each, Maybe, Each-get, Each-set, Each-imp,
}
use rpld_hymrpl.Dag.{
  Addr, Time, NodeClass, Mop, no_downward, nonstoring, storing_no_multicast, storing_multicast,
  hybrid, other, Peer, Prefix, class_s, class_n, Dag, Rpl, Iface, infinite_rank,
}
use rpld_hymrpl.Wire.{Memory, read_addr, read_bytes, read16}
use rpld_hymrpl.Wire.Flags.{mop_of}
use rpld_hymrpl.Process.{Effect, DagRef, rpl_dag, dag_at, put_rpl, put_dag, Net}
use rpld_hymrpl.Process.Dio.{
  track_parent, take_rank, take_rank_of, with_parent, update_dag, join_dag, update_at, known_dag,
  inherit_class, process_dio, dio_size,
}
use rpld_hymrpl.Process.Dio.Rank.{IsRanked, NetLaws, update_dag-IsRanked}
use rpld_hymrpl.Process.Dao.{
  Options, Parsed, parsed, dropped, stuck, take_option, parse_options, insert_targets, insert_all,
  install_class, install_routes, finish_dao, dao_size, update_dao, dao_at, process_dao,
}
use rpld_hymrpl.Process.Dao.Routes.{insert_targets-dag}
use rpld_hymrpl.Process.Outcomes.{process_dio_outcome}
use rpld_hymrpl.Process.Dispatch.{process_message, process}

abbrev pub SoundDag : NodeClass → Dag → Type 0
SoundDag c d = IsRanked d × (d.node_class ≡ c)

abbrev pub SoundRpl : NodeClass → Rpl → Type 0
SoundRpl c r = Each (SoundDag c) r.dags

-- Every dag has a rank tied to its parent's, and the class of the interface.
abbrev pub SoundIface : Iface → Type 0
SoundIface i = Each (SoundRpl i.node_class) i.rpls

-- And so on every interface.
abbrev pub IsSound : List Iface → Type 0
IsSound ifaces = Each SoundIface ifaces

-- A dag that the interface holds somewhere.
abbrev pub Held : Iface → Dag → Type 0
Held iface d = (ref : DagRef) × (dag_at iface ref ≡ some d)

-- The result of `dag_create`: the class of the interface is kept, the place holds a dag with the rank
-- asked for and no parent, and all other dags were there before.
pub record Created (rank : ℕ) (iface iface' : Iface) (ref : DagRef) : Type 0 where
  pub same_class : iface'.node_class ≡ iface.node_class
  pub new : Dag
  pub at_ref : dag_at iface' ref ≡ some new
  pub rank_is : new.my_rank ≡ rank
  pub no_parent : new.parent ≡ none
  pub others :
      (d : Dag) → Each (λ r. Each (λ x. (x ≡ d) ⊎ Held iface x) r.dags) (put_dag iface' ref d).rpls

-- What is relied on of dag.c for the class of a dag, its children and its creation.
pub record DagLaws (net : Net) : Type 0 where
  pub ranks : NetLaws net
  pub keeps_class : (d : Dag) → (net.dag_process_dio d).node_class ≡ d.node_class
  pub child_class :
      (d : Dag) (a f : Addr) → (net.dag_lookup_child_or_create d a f).node_class ≡ d.node_class
  pub child_rank :
      (d : Dag) (a f : Addr) → (net.dag_lookup_child_or_create d a f).my_rank ≡ d.my_rank
  pub child_parent :
      (d : Dag) (a f : Addr) → (net.dag_lookup_child_or_create d a f).parent ≡ d.parent
  pub creates :
      (iface iface' : Iface) (ref : DagRef) (id : ℕ) (dodagid : Addr) (rank version : ℕ) (mop : Mop)
      (dest : Prefix)
      → net.dag_create iface id dodagid rank version mop dest ≡ some (iface', ref)
      → Created rank iface iface' ref

rpl_dag-SoundDag :
    (c : NodeClass) (r : Option Rpl) (j : ℕ)
    → Maybe (SoundRpl c) r
    → Maybe (SoundDag c) (rpl_dag r j)
unfolding rpl_dag
rpl_dag-SoundDag c none j h = tt
rpl_dag-SoundDag c (some r) j h = Each-get (SoundDag c) r.dags j h

pub dag_at-SoundDag :
    (iface : Iface) (ref : DagRef)
    → SoundIface iface
    → Maybe (SoundDag iface.node_class) (dag_at iface ref)
unfolding dag_at
dag_at-SoundDag iface (i, j) h =
    rpl_dag-SoundDag iface.node_class (get_elem? iface.rpls i) j
      (Each-get (SoundRpl iface.node_class) iface.rpls i h)

put_rpl-SoundRpl :
    (c : NodeClass) (rs : List Rpl) (i : ℕ) (r : Option Rpl) (j : ℕ) (d : Dag)
    → Each (SoundRpl c) rs
    → Maybe (SoundRpl c) r
    → SoundDag c d
    → Each (SoundRpl c) (put_rpl rs i r j d)
unfolding put_rpl
put_rpl-SoundRpl c rs i none j d h k s = h
put_rpl-SoundRpl c rs i (some r) j d h k s =
    Each-set (SoundRpl c) rs i h (Each-set (SoundDag c) r.dags j k s)

pub put_dag-SoundIface :
    (iface : Iface) (ref : DagRef) (d : Dag)
    → SoundIface iface
    → SoundDag iface.node_class d
    → SoundIface (put_dag iface ref d)
unfolding put_dag
put_dag-SoundIface iface (i, j) d h s =
    put_rpl-SoundRpl iface.node_class iface.rpls i (get_elem? iface.rpls i) j d h
      (Each-get (SoundRpl iface.node_class) iface.rpls i h) s

module _ (net : Net) (laws : DagLaws net) where
  take_rank_class :
      (rank : ℕ) (dag : Dag) (parent : Option Peer)
      → (take_rank_of net rank dag parent).0.node_class ≡ dag.node_class
  unfolding take_rank_of take_rank
  take_rank_class rank dag none = refl
  take_rank_class rank dag (some parent) = ground (
    arith,
    laws.keeps_class (record dag {
      parent = some (record parent { rank = rank });
      my_rank = (rank + 1) % 65536;
    }),
  )

  with_parent_class :
      (now : Time) (from : Addr) (rank : ℕ) (dag : Dag) (parent : Peer)
      → (with_parent net now from rank dag parent).0.node_class ≡ dag.node_class
  unfolding with_parent track_parent
  with_parent_class now from rank dag parent =
      let tracked = (track_parent net now from dag parent).0 in
      let same : tracked.node_class ≡ dag.node_class = ground arith in
      take_rank_class rank tracked tracked.parent ∙ same

  update_dag_class :
      (now : Time) (from : Addr) (rank : ℕ) (dag : Dag) (parent : Option Peer)
      → (update_dag net now from rank dag parent).0.node_class ≡ dag.node_class
  unfolding update_dag
  update_dag_class now from rank dag (some parent) = with_parent_class now from rank dag parent
  update_dag_class now from rank dag none = elim (Option-cases (net.dag_peer_create from)) [
    | inl fails ↦ rw (fails, update_dag) refl
    | inr (parent, made) ↦ rw (made, update_dag) (with_parent_class now from rank dag parent)
  ]

  update_dag-SoundDag :
      (now : Time) (from : Addr) (rank : ℕ) (c : NodeClass) (dag : Dag)
      → (dag.my_rank == 1) ≡ false
      → SoundDag c dag
      → SoundDag c (update_dag net now from rank dag dag.parent).0
  update_dag-SoundDag now from rank c dag node h = (
    update_dag-IsRanked net laws.ranks now from rank dag node h.0,
    update_dag_class now from rank dag dag.parent ∙ h.1,
  )

  known_dag-SoundIface :
      (now : Time) (from : Addr) (rank : ℕ) (iface : Iface) (ref : DagRef) (held : Option Dag)
      → SoundIface iface
      → Maybe (SoundDag iface.node_class) held
      → SoundIface (known_dag net now from rank iface ref held).0
  unfolding known_dag update_at
  known_dag-SoundIface now from rank iface ref none h k = h
  known_dag-SoundIface now from rank iface ref (some dag) h k =
      elim (Bool-cases (dag.my_rank == 1)) [
        | inl root ↦ rw root h
        | inr node ↦ rw node (
            put_dag-SoundIface iface ref (update_dag net now from rank dag dag.parent).0 h
              (update_dag-SoundDag now from rank iface.node_class dag node k))
      ]

  SoundDag-other :
      (iface : Iface) (c : NodeClass) (d x : Dag)
      → SoundIface iface
      → c ≡ iface.node_class
      → SoundDag c d
      → (x ≡ d) ⊎ Held iface x
      → SoundDag c x
  SoundDag-other iface c d x h e k (inl same) = rw same k
  SoundDag-other iface c d x h e k (inr (ref, at_ref)) =
      let held = dag_at-SoundDag iface ref h in
      let found : SoundDag iface.node_class x = rw at_ref at held in rw e found

  Created-SoundIface :
      (now : Time) (from : Addr) (rank : ℕ) (iface iface' : Iface) (ref : DagRef)
      → SoundIface iface
      → Created infinite_rank iface iface' ref
      → SoundIface
          (update_at net now from rank iface' ref (inherit_class iface (dag_at iface' ref))).0
  unfolding update_at inherit_class put_dag
  Created-SoundIface now from rank iface iface' ref h made =
      let d = record made.new { node_class = iface.node_class } in
      let d' = (update_dag net now from rank d d.parent).0 in
      let ranked : IsRanked d = rw made.no_parent (inr made.rank_is) in
      let node : (d.my_rank == 1) ≡ false = ground (arith, made.rank_is) in
      let sound = update_dag-SoundDag now from rank iface.node_class d node (ranked, refl) in
      let kept : SoundDag iface'.node_class d' = (sound.0, sound.1 ∙ sym made.same_class) in
      rw made.at_ref (
        Each-imp (λ r. Each (λ x. (x ≡ d') ⊎ Held iface x) r.dags) (SoundRpl iface'.node_class)
          (λ r.
            Each-imp (λ x. (x ≡ d') ⊎ Held iface x) (SoundDag iface'.node_class)
              (λ x. SoundDag-other iface iface'.node_class d' x h made.same_class kept) r.dags)
          (put_dag iface' ref d').rpls (made.others d'))

  pub join_dag-Created :
      (iface iface' : Iface) (msg : Memory) (len : ℕ) (ref : DagRef)
      → join_dag net iface msg len ≡ some (iface', ref)
      → Created infinite_rank iface iface' ref
  unfolding join_dag
  join_dag-Created iface iface' msg len ref e =
      laws.creates iface iface' ref (msg 0) (read_addr msg 8) infinite_rank (msg 1) (mop_of (msg 4))
        (record {
          len = msg (dio_size + 2);
          bytes = read_bytes msg (dio_size + 8) (net.bits_to_bytes (msg (dio_size + 2)));
        })
        (ground (arith, e))

  pub process_dio-SoundIface :
      (now : Time) (iface : Iface) (msg : Memory) (len : ℕ) (from : Addr)
      → SoundIface iface
      → SoundIface (process_dio net now iface msg len from).0
  process_dio-SoundIface now iface msg len from h =
      process_dio_outcome net SoundIface iface h now msg len from
        (λ ref.
          known_dag-SoundIface now from (read16 msg 2) iface ref (dag_at iface ref) h
            (dag_at-SoundDag iface ref h))
        (λ iface' ref joins.
          Created-SoundIface now from (read16 msg 2) iface iface' ref h
            (join_dag-Created iface iface' msg (len - dio_size) ref joins))
