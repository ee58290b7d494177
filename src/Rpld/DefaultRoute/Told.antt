-- ===== src/Rpld/DefaultRoute/Told.antt =====
-- The last default route asked for after one DIO.
use mathlib.Core.Path.{subst}
use rpld_hymrpl.Prelude.{
  ℕ, ◌+◌, ◌%◌, ◌≤◌, ◌≡◌, ◌⊎◌, inl, inr, refl, ap, ◌∙◌, sym, Option, none, some, List, ◌++◌, arith,
  ◌==◌, Maybe, Option-cases, ltb, Bool-cases,
}
use rpld_hymrpl.Dag.{
  Addr, Time, infinite_rank, Peer, Dag, Mop, no_downward, nonstoring, storing_no_multicast,
  storing_multicast, hybrid, other,
}
use rpld_hymrpl.Process.{Effect, Net}
use rpld_hymrpl.Process.Dio.{
  update_dag, with_parent, track_parent, take_rank_of, take_rank, send_daos, send_daos_of,
}
use rpld_hymrpl.Process.Dio.Rank.{NetLaws}
use rpld_hymrpl.Rpld.DefaultRoute.{last_route}

-- The route goes to the parent, if there is one.
abbrev pub IsAligned : Option Peer → Option Addr → Type 0
IsAligned parent route = Maybe (λ p. route ≡ some p.addr) parent

held-IsAligned :
    (held : Option Peer) (parent : Peer) (route : Option Addr)
    → held ≡ some parent
    → route ≡ some parent.addr
    → IsAligned held route
held-IsAligned none parent route e h = tt
held-IsAligned (some p) parent route e h =
    let same : p ≡ parent = cc in h ∙ ap (λ (q : Peer). some q.addr) (sym same)

send_daos_route :
    (mop : Mop) (dodagid : Addr) (parent : Peer) (route : Option Addr)
    → last_route (send_daos mop dodagid parent) route ≡ route
unfolding last_route send_daos
send_daos_route no_downward dodagid parent route = refl
send_daos_route nonstoring dodagid parent route = refl
send_daos_route storing_no_multicast dodagid parent route = refl
send_daos_route storing_multicast dodagid parent route = refl
send_daos_route hybrid dodagid parent route = ground arith
send_daos_route (other value) dodagid parent route = refl

send_daos_of_route :
    (dag : Dag) (parent : Option Peer) (route : Option Addr)
    → last_route (send_daos_of dag parent) route ≡ route
unfolding send_daos_of last_route
send_daos_of_route dag none route = refl
send_daos_of_route dag (some parent) route = send_daos_route dag.mop dag.dodagid parent route

low_rank :
    (rank : ℕ) (parent : Peer) (route : Option Addr)
    → rank ≤ infinite_rank
    → (parent.rank ≡ infinite_rank) ⊎ (route ≡ some parent.addr)
    → (rank ≤ parent.rank) ⊎ (route ≡ some parent.addr)
low_rank rank parent route small (inl h) = inl (omega (arith, small, h))
low_rank rank parent route small (inr h) = inr h

module _ (net : Net) (laws : NetLaws net) where
  take_rank-IsAligned :
      (rank : ℕ) (dag : Dag) (parent : Peer) (route : Option Addr)
      → dag.parent ≡ some parent
      → (rank ≤ parent.rank) ⊎ (route ≡ some parent.addr)
      → let (dag', effects) = take_rank net rank dag parent in
        IsAligned dag'.parent (last_route effects route)
  unfolding take_rank last_route
  take_rank-IsAligned rank dag parent route e h =
      let next : Dag = record dag {
        parent = some (record parent { rank = rank });
        my_rank = (rank + 1) % 65536;
      } in
      let dag' = net.dag_process_dio next in
      elim (Bool-cases (ltb parent.rank rank)) [
        | inl worse ↦
            let kept : route ≡ some parent.addr = ground (arith, worse) in
            rw (worse, take_rank) (held-IsAligned dag.parent parent route e kept)
        | inr taken ↦
            rw (taken, take_rank)
              (held-IsAligned dag'.parent (record parent { rank = rank }) _ (laws.keeps_parent next)
                (send_daos_of_route dag' dag'.parent (some parent.addr)))
      ]

  take_rank_of-IsAligned :
      (rank : ℕ) (dag : Dag) (parent : Peer) (held : Option Peer) (route : Option Addr)
      → held ≡ some parent
      → dag.parent ≡ some parent
      → (rank ≤ parent.rank) ⊎ (route ≡ some parent.addr)
      → let (dag', effects) = take_rank_of net rank dag held in
        IsAligned dag'.parent (last_route effects route)
  unfolding take_rank_of
  take_rank_of-IsAligned rank dag parent held route e held' h =
      rw (e, take_rank_of) (take_rank-IsAligned rank dag parent route held' h)

  -- The parent after the test of its liveness: given up, or the one that the route goes to.
  record Tracked (tracked : Dag × List Effect) (route : Option Addr) : Type 0 where
    parent : Peer
    held : tracked.0.parent ≡ some parent
    waits : (parent.rank ≡ infinite_rank) ⊎ (route ≡ some parent.addr)
    silent : (es : List Effect) → last_route (tracked.1 ++ es) route ≡ last_route es route

  track_parent-Tracked :
      (now : Time) (from : Addr) (dag : Dag) (parent : Peer) (route : Option Addr)
      → (parent.rank ≡ infinite_rank) ⊎ (route ≡ some parent.addr)
      → Tracked (track_parent net now from dag parent) route
  unfolding track_parent last_route
  track_parent-Tracked now from dag parent route h =
      elim (Bool-cases (net.dag_is_peer parent from)) [
        | inl is ↦
            rw (is, track_parent)
              (record { parent = parent; held = refl; waits = h; silent = λ es. refl })
        | inr not_peer ↦ elim (Bool-cases (parent.rank == infinite_rank)) [
          | inl gone ↦
              rw (not_peer, gone, track_parent)
                (record {
                  parent = record { addr = from; rank = infinite_rank };
                  held = refl;
                  waits = inl refl;
                  silent = λ es. refl;
                })
          | inr live ↦
              rw (not_peer, live, track_parent)
                (record { parent = parent; held = refl; waits = h; silent = λ es. refl })
        ]
      ]

  with_parent-IsAligned :
      (now : Time) (from : Addr) (rank : ℕ) (dag : Dag) (parent : Peer) (route : Option Addr)
      → rank ≤ infinite_rank
      → (parent.rank ≡ infinite_rank) ⊎ (route ≡ some parent.addr)
      → let (dag', effects) = with_parent net now from rank dag parent in
        IsAligned dag'.parent (last_route effects route)
  unfolding with_parent
  with_parent-IsAligned now from rank dag parent route small h =
      let tracked = track_parent net now from dag parent in
      let t = track_parent-Tracked now from dag parent route h in
      let taken = take_rank_of net rank tracked.0 tracked.0.parent in
      subst (IsAligned taken.0.parent) (sym (t.silent taken.1)) (
        take_rank_of-IsAligned rank tracked.0 t.parent tracked.0.parent route t.held t.held
          (low_rank rank t.parent route small t.waits))

  pub update_dag-IsAligned :
      (now : Time) (from : Addr) (rank : ℕ) (dag : Dag) (held : Option Peer) (route : Option Addr)
      → rank ≤ infinite_rank
      → dag.parent ≡ held
      → IsAligned held route
      → let (dag', effects) = update_dag net now from rank dag held in
        IsAligned dag'.parent (last_route effects route)
  unfolding update_dag last_route
  update_dag-IsAligned now from rank dag (some parent) route small e h =
      with_parent-IsAligned now from rank dag parent route small (inr h)
  update_dag-IsAligned now from rank dag none route small e h =
      elim (Option-cases (net.dag_peer_create from)) [
        | inl fails ↦ rw (fails, update_dag, e) tt
        | inr (parent, made) ↦
            rw (made, update_dag)
              (with_parent-IsAligned now from rank dag parent route small
                (inl (laws.new_peer from parent made).1))
      ]
