-- ===== src/Rpld/Liveness.antt =====
-- The liveness of the parent: when `parent_check_cb` gives it up, and what follows.
use rpld_hymrpl.Prelude.{
  ℕ, ◌+◌, ◌%◌, ◌∙◌, ◌*◌, ◌≤◌, ◌<◌, ◌≡◌, ◌≢◌, refl, Bool, true, Option, none, some, [], ◌∷◌, arith,
}
use rpld_hymrpl.Dag.{Addr, Time, seconds, infinite_rank, Peer, Dag}
use rpld_hymrpl.Adaptive.{Adaptive}
use rpld_hymrpl.Process.{del_route_via, Net}
use rpld_hymrpl.Process.Dio.{update_dag, with_parent, track_parent, take_rank_of, take_rank}
use rpld_hymrpl.Process.Dio.Rank.{IsRanked, RankedBy, NetLaws, adopts_new_parent}
use rpld_hymrpl.Rpld.{note_change, give_up, check_parent, parent_check_cb}

module _ {F : Type 0} (enabled : Bool) (now : Time) (adp : Adaptive F) where
  -- A node that is no root gives up a parent that it holds live exactly when the parent has been
  -- silent for eight Trickle periods. It then forgets both ranks, asks for the removal of the route,
  -- has its Trickle timer fire in a second and tells an enabled engine; before, nothing changes.
  pub parent_check_cb_lem :
      (dag : Dag) (parent : Peer)
      → dag.my_rank ≢ 1
      → dag.parent ≡ some parent
      → parent.rank ≢ infinite_rank
      → let r = parent_check_cb enabled now dag adp in
        let quiet = dag.parent_last_seen + 8 * dag.trickle_t in
        (now < quiet → r ≡ record { dag = dag; adp = adp; effects = [] })
        × (quiet ≤ now
            → (r.dag.parent ≡ some (record { addr = parent.addr; rank = infinite_rank }))
              × (r.dag.my_rank ≡ infinite_rank)
              × (r.dag.trickle_w
                  ≡ record { running = true; after = seconds 1; period = dag.trickle_t })
              × (r.adp ≡ note_change enabled now adp)
              × (r.effects ≡ del_route_via dag.ifindex dag.dest ∷ []))
  unfolding parent_check_cb check_parent give_up
  parent_check_cb_lem dag parent root e live = (λ early. ground arith, λ silent. ground arith)

  check_parent-IsRanked :
      (dag : Dag) (parent : Option Peer)
      → RankedBy dag.my_rank parent
      → dag.parent ≡ parent
      → IsRanked (check_parent enabled now dag parent adp).dag
  unfolding check_parent give_up
  check_parent-IsRanked dag none h e = rw e h
  check_parent-IsRanked dag (some parent) h e = ground arith

  check_parent_early :
      (dag : Dag) (parent : Option Peer)
      → now < dag.parent_last_seen + 8 * dag.trickle_t
      → check_parent enabled now dag parent adp ≡ record { dag = dag; adp = adp; effects = [] }
  unfolding check_parent
  check_parent_early dag none h = refl
  check_parent_early dag (some parent) h = ground arith

  pub parent_check_cb_early :
      (dag : Dag)
      → now < dag.parent_last_seen + 8 * dag.trickle_t
      → parent_check_cb enabled now dag adp ≡ record { dag = dag; adp = adp; effects = [] }
  unfolding parent_check_cb
  parent_check_cb_early dag h = ground (arith, check_parent_early dag dag.parent h)

  -- The check keeps the rank of a node tied to its parent's.
  pub parent_check_cb-IsRanked :
      (dag : Dag) → IsRanked dag → IsRanked (parent_check_cb enabled now dag adp).dag
  unfolding parent_check_cb
  parent_check_cb-IsRanked dag h = ground (arith, check_parent-IsRanked dag dag.parent h refl)

  check_parent_class :
      (dag : Dag) (parent : Option Peer)
      → (check_parent enabled now dag parent adp).dag.node_class ≡ dag.node_class
  unfolding check_parent give_up
  check_parent_class dag none = refl
  check_parent_class dag (some parent) = ground arith

  pub parent_check_cb_class :
      (dag : Dag) → (parent_check_cb enabled now dag adp).dag.node_class ≡ dag.node_class
  unfolding parent_check_cb
  parent_check_cb_class dag = ground (arith, check_parent_class dag dag.parent)

  -- With `NetLaws`, the parent of a node that is no root is replaced once it falls silent: after a
  -- check at eight Trickle periods of silence or more, the next DIO from another neighbour, of any
  -- rank that is a rank, even a worse one than the old parent's, makes that neighbour the parent.
  pub silent_parent_replaced :
      (net : Net) (laws : NetLaws net) (dag : Dag) (parent : Peer) (later : Time) (from : Addr)
      (rank : ℕ)
      → dag.my_rank ≢ 1
      → dag.parent ≡ some parent
      → parent.rank ≢ infinite_rank
      → dag.parent_last_seen + 8 * dag.trickle_t ≤ now
      → parent.addr ≢ from
      → rank < infinite_rank
      → let checked = (parent_check_cb enabled now dag adp).dag in
        let dag' = (update_dag net later from rank checked checked.parent).0 in
        (dag'.parent ≡ some (record { addr = from; rank = rank })) × (dag'.my_rank ≡ rank + 1)
  silent_parent_replaced net laws dag parent later from rank root e live silent other small =
      let checked = (parent_check_cb enabled now dag adp).dag in
      let gone = (parent_check_cb_lem dag parent root e live).1 silent in
      let adopted =
        adopts_new_parent net laws later from rank checked
          (record { addr = parent.addr; rank = infinite_rank }) gone.0 refl other small in
      (adopted.0, adopted.1)

module _ (net : Net) (laws : NetLaws net)
    (keeps_times : (d : Dag)
      → ((net.dag_process_dio d).parent_last_seen ≡ d.parent_last_seen)
        × ((net.dag_process_dio d).trickle_t ≡ d.trickle_t)) where
  take_rank_times :
      (rank : ℕ) (dag : Dag) (parent : Option Peer)
      → let dag' = (take_rank_of net rank dag parent).0 in
        (dag'.parent_last_seen ≡ dag.parent_last_seen) × (dag'.trickle_t ≡ dag.trickle_t)
  unfolding take_rank_of take_rank
  take_rank_times rank dag none = (refl, refl)
  take_rank_times rank dag (some parent) = ground (
    arith,
    keeps_times (record dag {
      parent = some (record parent { rank = rank });
      my_rank = (rank + 1) % 65536;
    }),
  )

  track_parent_times :
      (heard : Time) (dag : Dag) (from : Addr) (parent : Peer)
      → parent.addr ≡ from
      → let dag' = (track_parent net heard from dag parent).0 in
        (dag'.parent_last_seen ≡ heard) × (dag'.trickle_t ≡ dag.trickle_t)
  unfolding track_parent
  track_parent_times heard dag from parent e = ground (arith, (laws.is_peer parent from).1 e)

  update_dag_times :
      (heard : Time) (rank : ℕ) (dag : Dag) (parent : Peer) (held : Option Peer)
      → held ≡ some parent
      → let dag' = (update_dag net heard parent.addr rank dag held).0 in
        (dag'.parent_last_seen ≡ heard) × (dag'.trickle_t ≡ dag.trickle_t)
  unfolding update_dag with_parent
  update_dag_times heard rank dag parent none e = cc
  update_dag_times heard rank dag other (some parent) e =
      let tracked = (track_parent net heard other.addr dag parent).0 in
      let (seen, period) = track_parent_times heard dag other.addr parent (ground arith) in
      let (seen', period') = take_rank_times rank tracked tracked.parent in
      (seen' ∙ seen, period' ∙ period)

  -- A parent that is heard is kept: after any DIO of the parent at time `heard`, a check before eight
  -- Trickle periods have passed changes nothing. It relies on `NetLaws`, and on
  -- `dag_process_dio` leaving the time of the last DIO and the Trickle period alone.
  pub heard_parent_kept :
      {F : Type 0} (enabled : Bool) (adp : Adaptive F) (dag : Dag) (parent : Peer)
      (heard now : Time) (rank : ℕ)
      → dag.parent ≡ some parent
      → now < heard + 8 * dag.trickle_t
      → let dag' = (update_dag net heard parent.addr rank dag dag.parent).0 in
        parent_check_cb enabled now dag' adp ≡ record { dag = dag'; adp = adp; effects = [] }
  heard_parent_kept enabled adp dag parent heard now rank e soon =
      let (seen, period) = update_dag_times heard rank dag parent dag.parent e in
      parent_check_cb_early enabled now adp (update_dag net heard parent.addr rank dag dag.parent).0
        (rw (seen, period) soon)
