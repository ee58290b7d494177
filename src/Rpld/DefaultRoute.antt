-- ===== src/Rpld/DefaultRoute.antt =====
-- The default routes that a node asks for along its DIOs and the checks of its parent: `process_dio`
-- of process.c with `parent_check_cb` of rpld_new.c.
pub mod Told
pub mod Aligned
use mathlib.Core.Path.{subst}
use rpld_hymrpl.Prelude.{
  ℕ, ◌+◌, ◌*◌, ◌%◌, ◌≤◌, ◌<◌, ◌≡◌, ◌≢◌, ◌⊎◌, inl, inr, refl, Bool, true, false, ap, ◌∙◌, sym,
  Option, none, some, List, [], ◌∷◌, ◌++◌, arith, ◌==◌, if◌then◌else◌, Each, Maybe, Option-cases,
  ltb, Bool-cases,
}
use rpld_hymrpl.Dag.{
  Addr, Time, infinite_rank, Peer, Dag, Mop, no_downward, nonstoring, storing_no_multicast,
  storing_multicast, hybrid, other,
}
use rpld_hymrpl.Adaptive.{Adaptive}
use rpld_hymrpl.Process.{
  Effect, route_default, route_via, del_route_via, source_routes, send_dao, send_dao_ack, send_dio,
  send_dis, notify_dao_sent, notify_parent_change, add_addr, Net,
}
use rpld_hymrpl.Process.Dio.{
  update_dag, with_parent, track_parent, take_rank_of, take_rank, send_daos, send_daos_of,
}
use rpld_hymrpl.Process.Dio.Rank.{NetLaws}
use rpld_hymrpl.Process.Dio.History.{Dio}
use rpld_hymrpl.Rpld.{parent_check_cb, check_parent, give_up}

-- The next hop of the last `nl_add_route_default` of a list of effects, or else the one given.
unfoldable pub last_route : List Effect → Option Addr → Option Addr
last_route [] route = route
last_route (route_default ifindex addr ∷ es) route = last_route es (some addr)
last_route (_ ∷ es) route = last_route es route

-- What a node meets: a DIO of its dag, and the check of its parent.
pub data Event (F : Type 0) : Type 0 where
  dio_in : Dio → Event F
  check_due : Bool → Adaptive F → Time → Event F

-- `rpl_dagrank` has sixteen bits.
abbrev pub HasRank : {F : Type 0} → Event F → Type 0
HasRank (dio_in dio) = dio.rank ≤ infinite_rank
HasRank (check_due enabled adp now) = Unit {0}

-- `process_dio` from the lookup of the dag on, with its effects.
unfoldable pub hear_told : Net → Dio → Dag → Dag × List Effect
hear_told net dio dag =
    if dag.my_rank == 1 then (dag, []) else update_dag net dio.now dio.from dio.rank dag dag.parent

-- The dag after the events, and all their effects in order.
unfoldable pub node_run : {F : Type 0} → Net → List (Event F) → Dag → Dag × List Effect
node_run net [] dag = (dag, [])
node_run net (dio_in dio ∷ es) dag =
    let (dag', effects) = hear_told net dio dag in
    let (last, log) = node_run net es dag' in (last, effects ++ log)
node_run net (check_due enabled adp now ∷ es) dag =
    let checked = parent_check_cb enabled now dag adp in
    let (last, log) = node_run net es checked.dag in (last, checked.effects ++ log)
