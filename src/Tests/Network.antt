-- ===== src/Tests/Network.antt =====
-- A line of three nodes behind process.c, and nodes that lost their parents.
use rpld_hymrpl.Prelude.{
  ℕ, zero, suc, ◌+◌, ◌++◌, length, ◌≤◌, ◌≡◌, ◌⊎◌, inl, inr, refl, ap, true, none, some, List, [],
  ◌∷◌, ◌==◌, arith, if◌then◌else◌,
}
use rpld_hymrpl.Dag.{Addr, Time, Dag, infinite_rank, seconds}
use rpld_hymrpl.Adaptive.{Adaptive, adaptive_init}
use rpld_hymrpl.Wire.{memory_of, NdRplDio}
use rpld_hymrpl.Process.{dag_at, rpl_dag}
use rpld_hymrpl.Process.Dio.{
  process_dio, update_dag, with_parent, track_parent, take_rank_of, take_rank, send_daos,
  send_daos_of,
}
use rpld_hymrpl.Process.Dio.History.{
  Dio, IsFresh, Follows, hear, hear_all, hear_all_least, least_rank,
}
use rpld_hymrpl.Process.Dio.Known.{process_dio-Follows}
use rpld_hymrpl.Process.Dio.Asked.{asked}
use rpld_hymrpl.Wire.Structs.{dio_bytes}
use rpld_hymrpl.Process.Network.{Nodes, Delivery, IsStart, IsSchedule, Walk, deliver, deliver_all}
use rpld_hymrpl.Process.Network.Rounds.{IsRound, Sends, run_rounds, rounds_find_distances}
use rpld_hymrpl.Process.Network.Shortest.{IsDistance, IsQuiet, quiet_network_ranks}
use rpld_hymrpl.Process.Network.Routes.{Chain, default_routes_reach_root}
use rpld_hymrpl.Rpld.{parent_check_cb, check_parent, give_up}
use rpld_hymrpl.Rpld.DefaultRoute.{Event, dio_in, check_due, node_run, last_route, hear_told}
use rpld_hymrpl.Rpld.DefaultRoute.Aligned.{default_route_goes_to_parent}
use rpld_hymrpl.Rpld.Loops.{Turn, first_hears, second_hears, exchange, child_adopted}
use rpld_hymrpl.Rpld.Orphans.{worse_parent_kept, orphans_make_root}
use rpld_hymrpl.Tests.Floats.{fixed}
use rpld_hymrpl.Tests.Data.{node_dag, root_dag, live_parent, node_iface, toy_net, toy_net-NetLaws}

abbrev fresh_dag : Dag
fresh_dag = record node_dag { my_rank = infinite_rank; parent = none }

fresh_dag-IsFresh : IsFresh fresh_dag
fresh_dag-IsFresh = record { unranked = refl; no_parent = refl }

abbrev dio : ℕ → Addr → ℕ → Dio
dio n from rank = record { now = seconds n; from = from; rank = rank }

hear_all_least_example :
    let dag' = hear_all toy_net (dio 1 21 7 ∷ dio 2 22 3 ∷ dio 3 23 5 ∷ []) fresh_dag in
    let best = least_rank 7 (dio 2 22 3 ∷ dio 3 23 5 ∷ []) in
    (dag'.parent ≡ some (record { addr = 21; rank = best })) × (dag'.my_rank ≡ best + 1)
hear_all_least_example =
    hear_all_least toy_net toy_net-NetLaws (dio 1 21 7) (dio 2 22 3 ∷ dio 3 23 5 ∷ []) fresh_dag
      (record { addr = 21; rank = infinite_rank }) fresh_dag-IsFresh refl (omega arith)

-- A DIO of instance 1 and rank 2 from a neighbour that is not the parent.
abbrev better_dio : NdRplDio
better_dio = record {
  rpl_instanceid = 1;
  rpl_version = 1;
  rpl_dagrank = 2;
  rpl_mopprf = 0;
  rpl_dtsn = 0;
  rpl_flags = 0;
  rpl_resv1 = 0;
  rpl_dagid = 99;
}

node_dag-Follows : Follows node_dag live_parent
node_dag-Follows = record {
  held = refl;
  positive = omega arith;
  finite = omega arith;
  below = refl;
}

process_dio-Follows_example :
    let msg = dio_bytes better_dio ++ 7 ∷ [] in
    let (iface', effects) =
      process_dio toy_net (seconds 101) node_iface (memory_of msg) (length msg) 22 in
    ((dag' : Dag) × (dag_at iface' (0, 0) ≡ some dag')
      × Follows dag' (record { addr = 21; rank = 2 }))
    × (dag_at iface' (1, 0) ≡ dag_at node_iface (1, 0))
    × (effects ≡ asked 2 node_dag live_parent)
unfolding dag_at rpl_dag
process_dio-Follows_example =
    process_dio-Follows toy_net toy_net-NetLaws (seconds 101) node_iface better_dio (7 ∷ []) 22
      (0, 0) (1, 0) node_dag live_parent (omega arith) refl refl node_dag-Follows (omega arith)
      (inl (omega arith))

-- 1 → 2 → 3
abbrev Line : Addr → Addr → Type 0
Line a b = (a + 1 ≡ b) × (1 ≤ a) × (b ≤ 3)

abbrev nodes : Nodes
nodes n = if n == 1 then root_dag else fresh_dag

nodes-IsStart : IsStart 1 nodes
nodes-IsStart = record {
  root_rank = refl;
  fresh = λ n h.
      let e : nodes n ≡ fresh_dag = ground arith in
      record { unranked = ap (λ (d : Dag). d.my_rank) e; no_parent = ap (λ (d : Dag). d.parent) e };
}

abbrev delivery : Addr → Addr → Delivery
delivery a b = record { now = seconds 100; sender = a; receiver = b }

abbrev deliveries : List Delivery
deliveries = delivery 1 2 ∷ delivery 1 2 ∷ delivery 2 3 ∷ []

deliveries-IsSchedule : IsSchedule Line toy_net nodes deliveries
unfolding deliver hear update_dag with_parent track_parent take_rank_of take_rank
deliveries-IsSchedule = omega arith

Line-IsDistance : IsDistance Line 1 3 2
Line-IsDistance = ((2, (1, refl, omega arith), omega arith), shortest)
  where
    shortest : (i : ℕ) → Walk Line 1 i 3 → 2 ≤ i
    shortest zero e = omega arith
    shortest (suc zero) (a, e, l) = omega arith
    shortest (suc (suc i)) w = omega arith

default_routes_reach_root_example :
    (k : ℕ) × Chain Line 1 (deliver_all toy_net nodes deliveries) k 3
unfolding deliver_all deliver hear update_dag with_parent track_parent take_rank_of take_rank
default_routes_reach_root_example =
    default_routes_reach_root Line 1 toy_net toy_net-NetLaws (λ a. (_, refl)) deliveries nodes 3
      nodes-IsStart deliveries-IsSchedule (omega arith)

abbrev IsQuietAt : Delivery → Type 0
IsQuietAt d =
    let settled = deliver_all toy_net nodes deliveries in
    (deliver toy_net settled d d.receiver).my_rank ≡ (settled d.receiver).my_rank

link_quiet :
    (now : Time) (a b : Addr)
    → (a ≡ 1) ⊎ (a ≡ 2)
    → a + 1 ≡ b
    → IsQuietAt (record { now = now; sender = a; receiver = b })
unfolding deliver_all deliver hear update_dag with_parent track_parent take_rank_of take_rank
link_quiet now a b (inl h) e = let two : b ≡ 2 = omega (arith, h, e) in rw (h, two) refl
link_quiet now a b (inr h) e = let three : b ≡ 3 = omega (arith, h, e) in rw (h, three) refl

line_sender : (a : ℕ) → 1 ≤ a → a + 1 ≤ 3 → (a ≡ 1) ⊎ (a ≡ 2)
line_sender zero low high = absurd (omega arith)
line_sender (suc zero) low high = inl refl
line_sender (suc (suc zero)) low high = inr refl
line_sender (suc (suc (suc a))) low high = absurd (omega arith)

deliveries-IsQuiet : IsQuiet Line toy_net (deliver_all toy_net nodes deliveries)
deliveries-IsQuiet d ((e, low, high), ranked) =
    link_quiet d.now d.sender d.receiver (line_sender d.sender low (omega arith)) e

-- The link farther from the root first.
abbrev both_links : List Delivery
both_links = delivery 2 3 ∷ delivery 1 2 ∷ []

both_links-IsRound : IsRound Line both_links
both_links-IsRound = record {
  over_links = omega arith;
  covers = λ a b (e, low, high). found a b e low high;
}
  where
    found : (a b : Addr) → a + 1 ≡ b → 1 ≤ a → b ≤ 3 → Sends both_links a b
    found a b e low high = elim (line_sender a low (omega arith)) [
      | inl h ↦ (1, delivery 1 2, refl, omega arith, omega arith)
      | inr h ↦ (0, delivery 2 3, refl, omega arith, omega arith)
    ]

rounds_find_distances_example :
    (run_rounds toy_net nodes (both_links ∷ both_links ∷ []) 3).my_rank ≡ 3
rounds_find_distances_example =
    rounds_find_distances Line 1 toy_net toy_net-NetLaws (λ a. (_, refl))
      (both_links ∷ both_links ∷ []) nodes 3 2 nodes-IsStart
      (both_links-IsRound, (both_links-IsRound, tt)) Line-IsDistance (omega arith) (omega arith)

quiet_network_ranks_example : (deliver_all toy_net nodes deliveries 3).my_rank ≡ 3
quiet_network_ranks_example =
    quiet_network_ranks Line 1 toy_net toy_net-NetLaws (λ a. (_, refl)) deliveries nodes 3 2
      nodes-IsStart deliveries-IsSchedule deliveries-IsQuiet Line-IsDistance (omega arith)

abbrev engine : Adaptive ℕ
engine = adaptive_init fixed none

worse_parent_kept_example :
    let dag' =
      hear toy_net (dio 120 21 infinite_rank) (hear_all toy_net (dio 110 21 9 ∷ []) node_dag) in
    (dag'.parent ≡ some live_parent)
    × (dag'.my_rank ≡ 4)
    × (parent_check_cb true (seconds 135) dag' engine
        ≡ record { dag = dag'; adp = engine; effects = [] })
worse_parent_kept_example =
    worse_parent_kept toy_net toy_net-NetLaws true engine node_dag live_parent (dio 110 21 9 ∷ [])
      (dio 120 21 infinite_rank) (seconds 135) node_dag-Follows ((refl, omega arith), tt)
      (refl, omega arith) (omega arith)

orphans_make_root_example :
    let a' = (parent_check_cb true (seconds 120) node_dag engine).dag in
    let b'' = hear toy_net (record { now = seconds 121; from = 22; rank = a'.my_rank }) a' in
    let c' = hear toy_net (record { now = seconds 122; from = 23; rank = b''.my_rank }) node_dag in
    (b''.my_rank ≡ 0) × (c'.my_rank ≡ 1) × (hear toy_net (dio 123 21 3) c' ≡ c')
orphans_make_root_example =
    orphans_make_root toy_net toy_net-NetLaws true engine (seconds 120) (seconds 120) (seconds 121)
      (seconds 122) 22 23 node_dag node_dag node_dag live_parent live_parent live_parent
      (dio 123 21 3) (omega arith, refl, omega arith) (omega arith, refl, omega arith)
      (omega arith, refl) (omega arith) (omega arith)

-- A child of node 20, which has the address 22.
abbrev child_dag : Dag
child_dag = record node_dag { my_rank = 5; parent = some (record { addr = 20; rank = 4 }) }

child_dag-Follows : Follows child_dag (record { addr = 20; rank = 4 })
child_dag-Follows = record {
  held = refl;
  positive = omega arith;
  finite = omega arith;
  below = refl;
}

abbrev turns : List Turn
turns = second_hears (seconds 122) ∷ first_hears (seconds 123) ∷ []

child_adopted_example :
    let a' = (parent_check_cb true (seconds 120) node_dag engine).dag in
    let a'' = hear toy_net (record { now = seconds 121; from = 22; rank = 5 }) a' in
    let (last_a, last_b) = exchange toy_net 20 22 turns a'' child_dag in
    (last_a.parent ≡ some (record { addr = 22; rank = 5 }))
    × (last_b.parent ≡ some (record { addr = 20; rank = 4 }))
child_adopted_example =
    child_adopted toy_net toy_net-NetLaws 20 22 true engine (seconds 120) (seconds 121) node_dag
      child_dag live_parent 4 turns (omega arith) refl (omega arith) (omega arith) (omega arith)
      child_dag-Follows (omega arith)

-- A first parent, its loss, and a second one.
abbrev events : List (Event ℕ)
events = dio_in (dio 101 21 3) ∷ check_due true engine (seconds 130) ∷ dio_in (dio 131 22 7) ∷ []

default_route_goes_to_parent_example :
    last_route (node_run toy_net events fresh_dag).1 none ≡ some 22
unfolding node_run hear_told last_route update_dag with_parent track_parent take_rank_of take_rank
    send_daos_of send_daos parent_check_cb check_parent give_up
default_route_goes_to_parent_example =
    default_route_goes_to_parent toy_net toy_net-NetLaws events fresh_dag
      (record { addr = 22; rank = 7 }) refl (omega arith) refl
