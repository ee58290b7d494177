-- ===== src/Rpld/DefaultRoute/Aligned.antt =====
-- The last default route asked for after any DIOs and parent checks.
use mathlib.Core.Path.{subst}
use rpld_hymrpl.Prelude.{
  sym, ◌++◌, ◌≤◌, ◌≡◌, inl, inr, refl, Bool, ap, ◌∙◌, Option, none, some, List, [], ◌∷◌, arith,
  ◌==◌, Each, Bool-cases,
}
use rpld_hymrpl.Dag.{Addr, Time, infinite_rank, Peer, Dag}
use rpld_hymrpl.Adaptive.{Adaptive}
use rpld_hymrpl.Process.{
  Effect, route_default, route_via, del_route_via, source_routes, send_dao, send_dao_ack, send_dio,
  send_dis, notify_dao_sent, notify_parent_change, add_addr, Net,
}
use rpld_hymrpl.Process.Dio.Rank.{NetLaws}
use rpld_hymrpl.Process.Dio.History.{Dio}
use rpld_hymrpl.Rpld.{parent_check_cb, check_parent, give_up}
use rpld_hymrpl.Rpld.DefaultRoute.{
  last_route, Event, dio_in, check_due, HasRank, hear_told, node_run,
}
use rpld_hymrpl.Rpld.DefaultRoute.Told.{IsAligned, update_dag-IsAligned}

IsAligned-parent :
    (held : Option Peer) (parent : Peer) (route : Option Addr)
    → held ≡ some parent
    → IsAligned held route
    → route ≡ some parent.addr
IsAligned-parent none parent route e h = absurd (cc)
IsAligned-parent (some p) parent route e h =
    let same : p ≡ parent = cc in h ∙ ap (λ (q : Peer). some q.addr) same

none-IsAligned : (held : Option Peer) (route : Option Addr) → held ≡ none → IsAligned held route
none-IsAligned none route e = tt
none-IsAligned (some p) route e = absurd (cc)

check_parent-IsAligned :
    {F : Type 0} (enabled : Bool) (adp : Adaptive F) (now : Time) (dag : Dag) (held : Option Peer)
    (route : Option Addr)
    → dag.parent ≡ held
    → IsAligned held route
    → let r = check_parent enabled now dag held adp in
      IsAligned r.dag.parent (last_route r.effects route)
unfolding check_parent give_up last_route
check_parent-IsAligned enabled adp now dag none route e h = rw e tt
check_parent-IsAligned enabled adp now dag (some parent) route e h = ground (arith, e)

parent_check_cb-IsAligned :
    {F : Type 0} (enabled : Bool) (adp : Adaptive F) (now : Time) (dag : Dag) (route : Option Addr)
    → IsAligned dag.parent route
    → let r = parent_check_cb enabled now dag adp in
      IsAligned r.dag.parent (last_route r.effects route)
unfolding parent_check_cb last_route
parent_check_cb-IsAligned enabled adp now dag route h = elim (Bool-cases (dag.my_rank == 1)) [
  | inl top ↦ rw (top, parent_check_cb) h
  | inr below ↦
      rw (below, parent_check_cb)
        (check_parent-IsAligned enabled adp now dag dag.parent route refl h)
]

last_route-append :
    (es fs : List Effect) (route : Option Addr)
    → last_route (es ++ fs) route ≡ last_route fs (last_route es route)
unfolding last_route
last_route-append [] fs route = refl
last_route-append (route_default ifindex addr ∷ es) fs route = last_route-append es fs (some addr)
last_route-append (route_via ifindex dest via ∷ es) fs route = last_route-append es fs route
last_route-append (del_route_via ifindex dest ∷ es) fs route = last_route-append es fs route
last_route-append (source_routes ifindex rs ∷ es) fs route = last_route-append es fs route
last_route-append (send_dao to ∷ es) fs route = last_route-append es fs route
last_route-append (send_dao_ack to ∷ es) fs route = last_route-append es fs route
last_route-append (send_dio to ∷ es) fs route = last_route-append es fs route
last_route-append (send_dis to ∷ es) fs route = last_route-append es fs route
last_route-append (notify_dao_sent ∷ es) fs route = last_route-append es fs route
last_route-append (notify_parent_change to ∷ es) fs route = last_route-append es fs route
last_route-append (add_addr ifindex to ∷ es) fs route = last_route-append es fs route

module _ (net : Net) (laws : NetLaws net) where
  hear-IsAligned :
      (dio : Dio) (dag : Dag) (route : Option Addr)
      → dio.rank ≤ infinite_rank
      → IsAligned dag.parent route
      → let (dag', effects) = hear_told net dio dag in
        IsAligned dag'.parent (last_route effects route)
  unfolding hear_told last_route
  hear-IsAligned dio dag route small h = elim (Bool-cases (dag.my_rank == 1)) [
    | inl top ↦ rw (top, hear_told) h
    | inr below ↦
        rw (below, hear_told)
          (update_dag-IsAligned net laws dio.now dio.from dio.rank dag dag.parent route small refl
            h)
  ]

  module _ {F : Type 0} where
    node_run-IsAligned :
        (es : List (Event F)) (dag : Dag) (route : Option Addr)
        → Each HasRank es
        → IsAligned dag.parent route
        → let (last, log) = node_run net es dag in IsAligned last.parent (last_route log route)
    unfolding node_run last_route
    node_run-IsAligned [] dag route small h = h
    node_run-IsAligned (dio_in dio ∷ es) dag route small h =
        let next = hear_told net dio dag in
        let rest = node_run net es next.0 in
        subst (IsAligned rest.0.parent) (sym (last_route-append next.1 rest.1 route)) (
          node_run-IsAligned es next.0 (last_route next.1 route) small.1
            (hear-IsAligned dio dag route small.0 h))
    node_run-IsAligned (check_due enabled adp now ∷ es) dag route small h =
        let checked = parent_check_cb enabled now dag adp in
        let rest = node_run net es checked.dag in
        subst (IsAligned rest.0.parent) (sym (last_route-append checked.effects rest.1 route)) (
          node_run-IsAligned es checked.dag (last_route checked.effects route) small.1
            (parent_check_cb-IsAligned enabled adp now dag route h))

    -- Let a node start without a parent. After any DIOs of its dag, from any neighbours and of any
    -- rank of sixteen bits, and any checks of the parent between them, the last default route that
    -- the node has asked for, of all that it asked for from the start, goes to the parent that it
    -- then has, if it has one. It relies on `NetLaws`, and says nothing of how the kernel carries
    -- the requests out.
    pub default_route_goes_to_parent :
        (es : List (Event F)) (dag : Dag) (parent : Peer)
        → dag.parent ≡ none
        → Each HasRank es
        → let (last, log) = node_run net es dag in
          last.parent ≡ some parent → last_route log none ≡ some parent.addr
    default_route_goes_to_parent es dag parent alone small held =
        let (last, log) = node_run net es dag in
        IsAligned-parent last.parent parent (last_route log none) held
          (node_run-IsAligned es dag none small (none-IsAligned dag.parent none alone))
