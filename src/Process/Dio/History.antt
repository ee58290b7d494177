-- ===== src/Process/Dio/History.antt =====
-- A node under a list of DIOs of one dag: `process_dio`, run once for each.
use mathlib.Core.Path.{subst}
use rpld_hymrpl.Prelude.{
  ℕ, ◌+◌, ◌%◌, ◌<◌, ◌≡◌, min, List, [], ◌∷◌, Option, none, some, Each, arith, false, if◌then◌else◌,
  ◌==◌,
}
use rpld_hymrpl.Dag.{Addr, Time, infinite_rank, Peer, Dag}
use rpld_hymrpl.Process.{Net}
use rpld_hymrpl.Process.Dio.{update_dag, with_parent, track_parent, take_rank_of, take_rank}
use rpld_hymrpl.Process.Dio.Rank.{NetLaws}

-- What `process_dio` reads of a DIO of a dag that is there, and when it comes in.
pub record Dio : Type 0 where
  pub now : Time
  pub from : Addr
  pub rank : ℕ

-- `process_dio` from the lookup of the dag on: the root ignores the DIO.
unfoldable pub hear : Net → Dio → Dag → Dag
hear net dio dag =
    if dag.my_rank == 1 then dag else (update_dag net dio.now dio.from dio.rank dag dag.parent).0

unfoldable pub hear_all : Net → List Dio → Dag → Dag
hear_all net [] dag = dag
hear_all net (dio ∷ dios) dag = hear_all net dios (hear net dio dag)

-- The least rank of a list of DIOs and of one more.
unfoldable pub least_rank : ℕ → List Dio → ℕ
least_rank rank [] = rank
least_rank rank (dio ∷ dios) = least_rank (min rank dio.rank) dios

-- A rank that a node below another can have.
abbrev pub IsRank : ℕ → Type 0
IsRank rank = (0 < rank) × (rank < infinite_rank)

-- The parent has not been given up, and the node stands one rank below it.
pub record Follows (dag : Dag) (parent : Peer) : Type 0 where
  pub held : dag.parent ≡ some parent
  pub positive : 0 < parent.rank
  pub finite : parent.rank < infinite_rank
  pub below : dag.my_rank ≡ parent.rank + 1

-- A node that has just created its dag.
pub record IsFresh (dag : Dag) : Type 0 where
  pub unranked : dag.my_rank ≡ infinite_rank
  pub no_parent : dag.parent ≡ none

module _ (net : Net) (laws : NetLaws net) where
  take_rank-Follows :
      (rank : ℕ) (dag : Dag) (parent : Peer)
      → Follows dag parent
      → IsRank rank
      → Follows
          (take_rank net rank dag parent).0
          (record { addr = parent.addr; rank = min parent.rank rank })
  unfolding take_rank
  take_rank-Follows rank dag parent h small =
      let next : Dag = record dag {
        parent = some (record { addr = parent.addr; rank = rank });
        my_rank = (rank + 1) % 65536;
      } in
      record {
        held = ground (arith, h.held, laws.keeps_parent next);
        positive = ground (arith, h.positive, small);
        finite = ground (arith, h.finite, small);
        below = ground (arith, h.below, laws.keeps_rank next);
      }

  take_rank_fresh :
      (rank : ℕ) (dag : Dag) (parent : Peer)
      → parent.rank ≡ infinite_rank
      → IsRank rank
      → Follows (take_rank net rank dag parent).0 (record { addr = parent.addr; rank = rank })
  unfolding take_rank
  take_rank_fresh rank dag parent unranked small =
      let next : Dag = record dag {
        parent = some (record { addr = parent.addr; rank = rank });
        my_rank = (rank + 1) % 65536;
      } in
      record {
        held = ground (arith, laws.keeps_parent next);
        positive = small.0;
        finite = small.1;
        below = ground (arith, laws.keeps_rank next);
      }

  track_parent-Follows :
      (now : Time) (from : Addr) (dag : Dag) (parent : Peer)
      → Follows dag parent
      → Follows (track_parent net now from dag parent).0 parent
  unfolding track_parent
  track_parent-Follows now from dag parent h = record {
    held = ground (arith, h.finite);
    positive = h.positive;
    finite = h.finite;
    below = ground (arith, h.finite, h.below);
  }

  take_rank_of-Follows :
      (rank : ℕ) (dag : Dag) (parent : Peer) (held : Option Peer)
      → held ≡ some parent
      → Follows dag parent
      → IsRank rank
      → Follows
          (take_rank_of net rank dag held).0
          (record { addr = parent.addr; rank = min parent.rank rank })
  unfolding take_rank_of
  take_rank_of-Follows rank dag parent held e h small =
      rw (e, take_rank_of) (take_rank-Follows rank dag parent h small)

  update_dag-Follows :
      (now : Time) (from : Addr) (rank : ℕ) (dag : Dag) (parent : Peer) (held : Option Peer)
      → held ≡ some parent
      → Follows dag parent
      → IsRank rank
      → Follows
          (update_dag net now from rank dag held).0
          (record { addr = parent.addr; rank = min parent.rank rank })
  unfolding update_dag with_parent
  update_dag-Follows now from rank dag parent held e h small =
      let tracked = (track_parent net now from dag parent).0 in
      let h' = track_parent-Follows now from dag parent h in
      rw (e, update_dag) (take_rank_of-Follows rank tracked parent tracked.parent h'.held h' small)

  -- A DIO of a rank between 1 and 65534, from anyone, keeps the parent's address and lowers its rank
  -- to the DIO's if that is lower.
  pub hear-Follows :
      (dio : Dio) (dag : Dag) (parent : Peer)
      → Follows dag parent
      → IsRank dio.rank
      → Follows (hear net dio dag) (record { addr = parent.addr; rank = min parent.rank dio.rank })
  unfolding hear
  hear-Follows dio dag parent h small =
      let not_root : (dag.my_rank == 1) ≡ false = ground (arith, h.below, h.positive) in
      rw (not_root, hear)
        (update_dag-Follows dio.now dio.from dio.rank dag parent dag.parent h.held h small)

  track_fresh :
      (now : Time) (from : Addr) (dag : Dag) (parent : Peer)
      → parent.addr ≡ from
      → (track_parent net now from dag parent).0.parent ≡ some parent
  unfolding track_parent
  track_fresh now from dag parent e = ground (arith, (laws.is_peer parent from).1 e)

  take_rank_of_fresh :
      (rank : ℕ) (dag : Dag) (parent : Peer) (held : Option Peer)
      → held ≡ some parent
      → parent.rank ≡ infinite_rank
      → IsRank rank
      → Follows (take_rank_of net rank dag held).0 (record { addr = parent.addr; rank = rank })
  unfolding take_rank_of
  take_rank_of_fresh rank dag parent held e unranked small =
      rw (e, take_rank_of) (take_rank_fresh rank dag parent unranked small)

  pub update_dag_fresh :
      (now : Time) (from : Addr) (rank : ℕ) (dag : Dag) (peer : Peer) (held : Option Peer)
      → held ≡ none
      → net.dag_peer_create from ≡ some peer
      → IsRank rank
      → Follows (update_dag net now from rank dag held).0 (record { addr = from; rank = rank })
  unfolding update_dag with_parent
  update_dag_fresh now from rank dag peer held e made small =
      let (named, unranked) = laws.new_peer from peer made in
      let tracked = (track_parent net now from dag peer).0 in
      let taken : Follows (take_rank_of net rank tracked tracked.parent).0
          (record { addr = from; rank = rank }) =
        subst
          (λ a.
            Follows (take_rank_of net rank tracked tracked.parent).0
              (record { addr = a; rank = rank }))
          named
          (take_rank_of_fresh rank tracked peer tracked.parent (track_fresh now from dag peer named)
            unranked small) in
      rw (e, update_dag, made) taken

  -- The first DIO that a new dag takes makes its sender the parent, if a peer can be created.
  pub hear-IsFresh :
      (dio : Dio) (dag : Dag) (peer : Peer)
      → IsFresh dag
      → net.dag_peer_create dio.from ≡ some peer
      → IsRank dio.rank
      → Follows (hear net dio dag) (record { addr = dio.from; rank = dio.rank })
  unfolding hear
  hear-IsFresh dio dag peer h made small =
      let not_root : (dag.my_rank == 1) ≡ false = ground (arith, h.unranked) in
      rw (not_root, hear)
        (update_dag_fresh dio.now dio.from dio.rank dag peer dag.parent h.no_parent made small)

  hear_all-Follows :
      (dios : List Dio) (dag : Dag) (parent : Peer)
      → Follows dag parent
      → Each (λ dio. IsRank dio.rank) dios
      → Follows
          (hear_all net dios dag)
          (record { addr = parent.addr; rank = least_rank parent.rank dios })
  unfolding hear_all least_rank
  hear_all-Follows [] dag parent h small = h
  hear_all-Follows (dio ∷ dios) dag parent h small =
      hear_all-Follows dios (hear net dio dag)
        (record { addr = parent.addr; rank = min parent.rank dio.rank })
        (hear-Follows dio dag parent h small.0) small.1

  -- After any DIOs of ranks between 1 and 65534 from any neighbours, in any order, a node that started
  -- with a new dag stands one below the least rank of all of them, whoever sent it, while its
  -- parent has the address of the first sender. It relies on `NetLaws`, and on `dag_peer_create`
  -- returning a peer for the first sender.
  pub hear_all_least :
      (dio : Dio) (dios : List Dio) (dag : Dag) (peer : Peer)
      → IsFresh dag
      → net.dag_peer_create dio.from ≡ some peer
      → Each (λ d. IsRank d.rank) (dio ∷ dios)
      → let dag' = hear_all net (dio ∷ dios) dag in
        let best = least_rank dio.rank dios in
        (dag'.parent ≡ some (record { addr = dio.from; rank = best })) × (dag'.my_rank ≡ best + 1)
  unfolding hear_all
  hear_all_least dio dios dag peer fresh made small =
      let follows =
        hear_all-Follows dios (hear net dio dag) (record { addr = dio.from; rank = dio.rank })
          (hear-IsFresh dio dag peer fresh made small.0) small.1 in
      (follows.held, follows.below)
