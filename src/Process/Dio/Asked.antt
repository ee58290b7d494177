-- ===== src/Process/Dio/Asked.antt =====
-- What a DIO that a dag takes asks for, and what it leaves of the dag.
use rpld_hymrpl.Prelude.{
  ℕ, ◌+◌, ◌%◌, ◌<◌, ◌≡◌, ◌⊎◌, inl, inr, refl, ◌∙◌, Bool, Option, none, some, List, [], ◌∷◌, arith,
  leb, ltb, ◌==◌, if◌then◌else◌, Bool-cases, Option-cases,
}
use rpld_hymrpl.Dag.{Addr, Time, infinite_rank, Peer, Dag}
use rpld_hymrpl.Process.{Effect, route_default, Net}
use rpld_hymrpl.Process.Dio.{
  send_daos, send_daos_of, track_parent, take_rank, take_rank_of, with_parent, update_dag,
}
use rpld_hymrpl.Process.Dio.Rank.{NetLaws}

-- The effects of a rank that is no higher than the parent's: the default route to the parent and the
-- DAOs of the mode. A higher one has none.
abbrev pub asked : ℕ → Dag → Peer → List Effect
asked rank dag parent =
    if leb rank parent.rank
    then route_default dag.ifindex parent.addr
      ∷ send_daos dag.mop dag.dodagid (record { addr = parent.addr; rank = rank })
    else []

module _ (net : Net) (laws : NetLaws net) where
  take_rank-asked :
      (rank : ℕ) (dag : Dag) (parent : Peer)
      → (take_rank net rank dag parent).1 ≡ asked rank dag parent
  unfolding take_rank send_daos_of
  take_rank-asked rank dag parent =
      let next : Dag = record dag {
        parent = some (record { addr = parent.addr; rank = rank });
        my_rank = (rank + 1) % 65536;
      } in
      ground (arith, laws.keeps_parent next, laws.keeps_mop next, laws.keeps_id next)

  take_rank_of-asked :
      (rank : ℕ) (dag : Dag) (parent : Peer) (held : Option Peer)
      → held ≡ some parent
      → (take_rank_of net rank dag held).1 ≡ asked rank dag parent
  unfolding take_rank_of
  take_rank_of-asked rank dag parent held e = rw (e, take_rank_of) (take_rank-asked rank dag parent)

  -- A parent that is not given up, or that the sender is, is not replaced.
  with_parent-asked :
      (now : Time) (from : Addr) (rank : ℕ) (dag : Dag) (parent : Peer)
      → (parent.addr ≡ from) ⊎ (parent.rank < infinite_rank)
      → (with_parent net now from rank dag parent).1 ≡ asked rank dag parent
  unfolding with_parent track_parent
  with_parent-asked now from rank dag parent h = elim (Bool-cases (net.dag_is_peer parent from)) [
    | inl is ↦
        rw (is, with_parent, track_parent)
          (take_rank_of-asked rank (record dag { parent = some parent; parent_last_seen = now })
            parent (some parent) refl)
    | inr other ↦
        let live : (parent.rank == infinite_rank) ≡ Bool.false =
          ground (arith, h, other, laws.is_peer parent from) in
        rw (other, live, with_parent, track_parent)
          (take_rank_of-asked rank (record dag { parent = some parent }) parent (some parent) refl)
  ]

  pub update_dag-asked :
      (now : Time) (from : Addr) (rank : ℕ) (dag : Dag) (parent : Peer) (held : Option Peer)
      → held ≡ some parent
      → parent.rank < infinite_rank
      → (update_dag net now from rank dag held).1 ≡ asked rank dag parent
  unfolding update_dag
  update_dag-asked now from rank dag parent held e live =
      rw (e, update_dag) (with_parent-asked now from rank dag parent (inr live))

  -- The first parent of a dag.
  pub update_dag_first :
      (now : Time) (from : Addr) (rank : ℕ) (dag : Dag) (peer : Peer) (held : Option Peer)
      → held ≡ none
      → net.dag_peer_create from ≡ some peer
      → rank < infinite_rank
      → (update_dag net now from rank dag held).1
        ≡ route_default dag.ifindex from
          ∷ send_daos dag.mop dag.dodagid (record { addr = from; rank = rank })
  unfolding update_dag
  update_dag_first now from rank dag peer held e made small =
      let (named, unranked) = laws.new_peer from peer made in
      rw (e, made, update_dag)
        (with_parent-asked now from rank dag peer (inl named)
          ∙ ground (arith, named, unranked, small))

-- What a DIO cannot change of a dag: what neither the parent, the rank and the time have a part in,
-- nor `dag_process_dio` changes.
module _ {A : Type 0} (net : Net) (f : Dag → A)
    (keeps : (d : Dag) → f (net.dag_process_dio d) ≡ f d)
    (blind : (d : Dag) (parent : Option Peer) (rank : ℕ) (seen : Time)
      → f (record d { parent = parent; my_rank = rank; parent_last_seen = seen }) ≡ f d) where
  take_rank_of_keeps :
      (rank : ℕ) (dag : Dag) (held : Option Peer) → f (take_rank_of net rank dag held).0 ≡ f dag
  unfolding take_rank_of take_rank
  take_rank_of_keeps rank dag none = refl
  take_rank_of_keeps rank dag (some parent) = elim (Bool-cases (ltb parent.rank rank)) [
    | inl worse ↦ rw (worse, take_rank_of, take_rank) refl
    | inr taken ↦
        let next : Dag = record dag {
          parent = some (record { addr = parent.addr; rank = rank });
          my_rank = (rank + 1) % 65536;
        } in
        rw (taken, take_rank_of, take_rank)
          (keeps next
            ∙ blind dag (some (record { addr = parent.addr; rank = rank })) ((rank + 1) % 65536)
                dag.parent_last_seen)
  ]

  track_parent_keeps :
      (now : Time) (from : Addr) (dag : Dag) (parent : Peer)
      → f (track_parent net now from dag parent).0 ≡ f dag
  unfolding track_parent
  track_parent_keeps now from dag parent = elim (Bool-cases (net.dag_is_peer parent from)) [
    | inl is ↦ rw (is, track_parent) (blind dag (some parent) dag.my_rank now)
    | inr other ↦ elim (Bool-cases (parent.rank == infinite_rank)) [
      | inl gone ↦
          rw (other, gone, track_parent)
            (blind dag (some (record { addr = from; rank = infinite_rank })) dag.my_rank now)
      | inr live ↦
          rw (other, live, track_parent) (blind dag (some parent) dag.my_rank dag.parent_last_seen)
    ]
  ]

  with_parent_keeps :
      (now : Time) (from : Addr) (rank : ℕ) (dag : Dag) (parent : Peer)
      → f (with_parent net now from rank dag parent).0 ≡ f dag
  unfolding with_parent
  with_parent_keeps now from rank dag parent =
      let tracked = (track_parent net now from dag parent).0 in
      take_rank_of_keeps rank tracked tracked.parent ∙ track_parent_keeps now from dag parent

  pub update_dag_keeps :
      (now : Time) (from : Addr) (rank : ℕ) (dag : Dag) (held : Option Peer)
      → f (update_dag net now from rank dag held).0 ≡ f dag
  unfolding update_dag
  update_dag_keeps now from rank dag (some parent) = with_parent_keeps now from rank dag parent
  update_dag_keeps now from rank dag none = elim (Option-cases (net.dag_peer_create from)) [
    | inl fails ↦ rw (fails, update_dag) refl
    | inr (parent, made) ↦ rw (made, update_dag) (with_parent_keeps now from rank dag parent)
  ]
