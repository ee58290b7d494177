-- ===== src/Process/Dio/Rank.antt =====
-- What a DIO does to the rank and the parent of a dag.
use rpld_hymrpl.Prelude.{
  ℕ, ◌+◌, ◌%◌, ◌≤◌, ◌<◌, ◌≡◌, ◌≢◌, ◌⊎◌, ◌↔◌, inl, inr, refl, true, false, ◌==◌, Option, none, some,
  [], ◌∷◌, arith, Option-cases,
}
use rpld_hymrpl.Dag.{Addr, Time, infinite_rank, Peer, Dag, Iface}
use rpld_hymrpl.Process.{route_default, notify_parent_change, DagRef, Net}
use rpld_hymrpl.Process.Dio.{
  send_daos, send_daos_of, track_parent, take_rank, take_rank_of, with_parent, update_dag,
  known_dag,
}

-- Without a parent a dag has the rank of a root or the infinite one. With a parent, its rank is one
-- more than the parent's, cut to sixteen bits; if the parent has been given up, it can be infinite.
abbrev pub RankedBy : ℕ → Option Peer → Type 0
RankedBy rank none = (rank ≡ 1) ⊎ (rank ≡ infinite_rank)
RankedBy rank (some parent) =
    (parent.rank ≤ infinite_rank)
    × ((rank ≡ (parent.rank + 1) % 65536)
        ⊎ ((parent.rank ≡ infinite_rank) × (rank ≡ infinite_rank)))

abbrev pub IsRanked : Dag → Type 0
IsRanked dag = RankedBy dag.my_rank dag.parent

-- What process.c relies on of dag.c: `dag_process_dio`, which sets addresses, leaves the rank, the
-- parent, the mode, the id and the interface alone; a new peer has the address asked for and
-- infinite rank; `dag_is_peer` compares addresses.
pub record NetLaws (net : Net) : Type 0 where
  pub keeps_rank : (d : Dag) → (net.dag_process_dio d).my_rank ≡ d.my_rank
  pub keeps_parent : (d : Dag) → (net.dag_process_dio d).parent ≡ d.parent
  pub keeps_mop : (d : Dag) → (net.dag_process_dio d).mop ≡ d.mop
  pub keeps_id : (d : Dag) → (net.dag_process_dio d).dodagid ≡ d.dodagid
  pub new_peer :
      (a : Addr) (p : Peer)
      → net.dag_peer_create a ≡ some p
      → (p.addr ≡ a) × (p.rank ≡ infinite_rank)
  pub is_peer : (p : Peer) (a : Addr) → (net.dag_is_peer p a ≡ true) ↔ (p.addr ≡ a)

module _ (net : Net) (laws : NetLaws net) where
  take_rank-IsRanked :
      (rank : ℕ) (dag : Dag) (parent : Peer)
      → RankedBy dag.my_rank (some parent)
      → dag.parent ≡ some parent
      → IsRanked (take_rank net rank dag parent).0
  unfolding take_rank
  take_rank-IsRanked rank dag parent h e =
      let next : Dag = record dag {
        parent = some (record parent { rank = rank });
        my_rank = (rank + 1) % 65536;
      } in
      ground (arith, laws.keeps_rank next, laws.keeps_parent next)

  take_rank_of-IsRanked :
      (rank : ℕ) (dag : Dag) (parent : Option Peer)
      → RankedBy dag.my_rank parent
      → dag.parent ≡ parent
      → IsRanked (take_rank_of net rank dag parent).0
  unfolding take_rank_of
  take_rank_of-IsRanked rank dag none h e = rw e h
  take_rank_of-IsRanked rank dag (some parent) h e = take_rank-IsRanked rank dag parent h e

  track_parent-IsRanked :
      (now : Time) (from : Addr) (dag : Dag) (parent : Peer)
      → RankedBy dag.my_rank (some parent)
      → IsRanked (track_parent net now from dag parent).0
  unfolding track_parent
  track_parent-IsRanked now from dag parent h = ground arith

  with_parent-IsRanked :
      (now : Time) (from : Addr) (rank : ℕ) (dag : Dag) (parent : Peer)
      → RankedBy dag.my_rank (some parent)
      → IsRanked (with_parent net now from rank dag parent).0
  unfolding with_parent
  with_parent-IsRanked now from rank dag parent h =
      let tracked = (track_parent net now from dag parent).0 in
      take_rank_of-IsRanked rank tracked tracked.parent
        (track_parent-IsRanked now from dag parent h) refl

  update_dag-RankedBy :
      (now : Time) (from : Addr) (rank : ℕ) (dag : Dag) (parent : Option Peer)
      → (dag.my_rank == 1) ≡ false
      → RankedBy dag.my_rank parent
      → dag.parent ≡ parent
      → IsRanked (update_dag net now from rank dag parent).0
  unfolding update_dag
  update_dag-RankedBy now from rank dag none node h e =
      elim (Option-cases (net.dag_peer_create from)) [
        | inl fails ↦ rw (fails, update_dag, e) h
        | inr (parent, made) ↦
            let (_, unranked) = laws.new_peer from parent made in
            rw (made, update_dag)
              (with_parent-IsRanked now from rank dag parent (ground (arith, unranked, node, h)))
      ]
  update_dag-RankedBy now from rank dag (some parent) node h e =
      with_parent-IsRanked now from rank dag parent h

  -- With `NetLaws`, every DIO keeps the rank of a node that is not the root tied to its parent's.
  pub update_dag-IsRanked :
      (now : Time) (from : Addr) (rank : ℕ) (dag : Dag)
      → (dag.my_rank == 1) ≡ false
      → IsRanked dag
      → IsRanked (update_dag net now from rank dag dag.parent).0
  update_dag-IsRanked now from rank dag node h =
      update_dag-RankedBy now from rank dag dag.parent node h refl

  -- A parent that was given up is replaced by the next sender: from any other neighbour a DIO of a
  -- rank that is a rank makes that neighbour the parent, with its rank, puts the node one rank below,
  -- and asks for a notice of the change, the default route to the new parent and the DAOs of the mode.
  -- It relies on `NetLaws`.
  pub adopts_new_parent :
      (now : Time) (from : Addr) (rank : ℕ) (dag : Dag) (old : Peer)
      → dag.parent ≡ some old
      → old.rank ≡ infinite_rank
      → old.addr ≢ from
      → rank < infinite_rank
      → let (dag', effects) = update_dag net now from rank dag dag.parent in
        let new : Peer = record { addr = from; rank = rank } in
        (dag'.parent ≡ some new)
        × (dag'.my_rank ≡ rank + 1)
        × (effects
            ≡ notify_parent_change from
              ∷ route_default dag.ifindex from
              ∷ send_daos dag.mop dag.dodagid new)
  unfolding update_dag with_parent track_parent take_rank_of take_rank send_daos_of
  adopts_new_parent now from rank dag old e gone other small =
      let next : Dag = record dag {
        parent = some (record { addr = from; rank = rank });
        my_rank = (rank + 1) % 65536;
        parent_last_seen = now;
      } in
      ground (
        arith,
        laws.is_peer old from,
        laws.keeps_rank next,
        laws.keeps_parent next,
        laws.keeps_mop next,
        laws.keeps_id next,
      )

  -- A live parent's address is kept, but a neighbour that is not the parent and sends no higher a rank
  -- than the parent's has its rank written over the parent's: the node stands one rank below that
  -- neighbour while its default route goes to the parent. It relies on `NetLaws`.
  pub foreign_rank_taken :
      (now : Time) (from : Addr) (rank : ℕ) (dag : Dag) (parent : Peer)
      → dag.parent ≡ some parent
      → parent.rank < infinite_rank
      → parent.addr ≢ from
      → rank ≤ parent.rank
      → let (dag', effects) = update_dag net now from rank dag dag.parent in
        (dag'.parent ≡ some (record { addr = parent.addr; rank = rank }))
        × (dag'.my_rank ≡ rank + 1)
        × (effects
            ≡ route_default dag.ifindex parent.addr
              ∷ send_daos dag.mop dag.dodagid (record { addr = parent.addr; rank = rank }))
  unfolding update_dag with_parent track_parent take_rank_of take_rank send_daos_of
  foreign_rank_taken now from rank dag parent e live other low =
      let next : Dag = record dag {
        parent = some (record { addr = parent.addr; rank = rank });
        my_rank = (rank + 1) % 65536;
      } in
      ground (
        arith,
        laws.is_peer parent from,
        laws.keeps_rank next,
        laws.keeps_parent next,
        laws.keeps_mop next,
        laws.keeps_id next,
      )

  track_parent_some :
      (now : Time) (from : Addr) (dag : Dag) (parent : Peer)
      → (track_parent net now from dag parent).0.parent ≢ none
  unfolding track_parent
  track_parent_some now from dag parent = ground arith

  zero_rank_taken :
      (dag : Dag) (parent : Option Peer)
      → parent ≢ none
      → (take_rank_of net 0 dag parent).0.my_rank ≡ 1
  unfolding take_rank_of take_rank
  zero_rank_taken dag none h = absurd (h refl)
  zero_rank_taken dag (some parent) h = ground (
    arith,
    laws.keeps_rank (record dag { parent = some (record parent { rank = 0 }); my_rank = 1 }),
  )

  pub zero_rank_update :
      (now : Time) (from : Addr) (dag : Dag) (parent : Peer)
      → dag.parent ≡ some parent
      → (update_dag net now from 0 dag dag.parent).0.my_rank ≡ 1
  unfolding update_dag with_parent
  zero_rank_update now from dag parent e =
      let tracked = (track_parent net now from dag parent).0 in
      rw (e, update_dag)
        (zero_rank_taken tracked tracked.parent (track_parent_some now from dag parent))

  -- With `NetLaws`, a DIO of rank 0, from anyone, gives a node with a parent the rank 1 of a root,
  -- and from then on the node drops every DIO for that dag.
  pub zero_rank_makes_root :
      (now later : Time) (from from' : Addr) (rank' : ℕ) (dag : Dag) (parent : Peer) (iface : Iface)
      (ref : DagRef)
      → dag.parent ≡ some parent
      → let dag' = (update_dag net now from 0 dag dag.parent).0 in
        (dag'.my_rank ≡ 1) × (known_dag net later from' rank' iface ref (some dag') ≡ (iface, []))
  unfolding known_dag
  zero_rank_makes_root now later from from' rank' dag parent iface ref e =
      let rank_one = zero_rank_update now from dag parent e in (rank_one, ground arith)
