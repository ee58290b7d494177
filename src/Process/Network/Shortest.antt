-- ===== src/Process/Network/Shortest.antt =====
-- The ranks that deliveries find, against the distances from the root.
use rpld_hymrpl.Prelude.{ℕ, zero, suc, ◌+◌, ◌≤◌, ◌<◌, ◌≡◌, ◌⊎◌, inl, inr, ap, List, [], ◌∷◌, arith}
use rpld_hymrpl.Dag.{Addr, infinite_rank}
use rpld_hymrpl.Process.{Net}
use rpld_hymrpl.Process.Dio.Rank.{NetLaws}
use rpld_hymrpl.Process.Network.{
  Nodes, Delivery, deliver, deliver_all, IsStart, CanSend, IsSchedule, Walk, CreatesPeers,
}
use rpld_hymrpl.Process.Network.Paths.{
  OnWalk, IsPlaced, start-IsPlaced, deliver-IsPlaced, deliver_lowers, deliver_reaches,
  deliver_all-IsPlaced,
}

-- From `a`, `k` links behind the root, the deliveries go on to `n`, `j` links behind the root: a walk
-- whose links are among the deliveries in its order, whatever stands between them.
abbrev pub Carries : ℕ → Addr → List Delivery → ℕ → Addr → Type 0
Carries k a [] j n = (k ≡ j) × (a ≡ n)
Carries k a (d ∷ ds) j n = Carries k a ds j n ⊎ ((d.sender ≡ a) × Carries (suc k) d.receiver ds j n)

-- The length of a shortest walk.
abbrev pub IsDistance : (Addr → Addr → Type 0) → Addr → Addr → ℕ → Type 0
IsDistance link root n j = Walk link root j n × ((i : ℕ) → Walk link root i n → j ≤ i)

-- No DIO that can be sent changes the rank of its receiver.
abbrev pub IsQuiet : (Addr → Addr → Type 0) → Net → Nodes → Type 0
IsQuiet link net nodes =
    (d : Delivery)
    → CanSend link nodes d
    → (deliver net nodes d d.receiver).my_rank ≡ (nodes d.receiver).my_rank

module _ (link : Addr → Addr → Type 0) (root : Addr) (net : Net) (laws : NetLaws net)
    (creates : CreatesPeers net) where
  carried :
      (ds : List Delivery) (nodes : Nodes) (k : ℕ) (a : Addr) (j : ℕ) (n : Addr)
      → ((m : Addr) → IsPlaced link root nodes m)
      → IsSchedule link net nodes ds
      → (nodes a).my_rank ≤ k + 1
      → Carries k a ds j n
      → (deliver_all net nodes ds n).my_rank ≤ j + 1
  unfolding deliver_all
  carried [] nodes k a j n h s r (e, e') = omega (arith, r, e, ap (λ m. (nodes m).my_rank) e')
  carried (d ∷ ds) nodes k a j n h s r (inl c) =
      carried ds (deliver net nodes d) k a j n
        (deliver-IsPlaced link root net laws creates nodes d h s.0) s.1
        (omega (arith, r, deliver_lowers link root net laws creates nodes d h s.0 a)) c
  carried (d ∷ ds) nodes k a j n h s r (inr (e, c)) =
      carried ds (deliver net nodes d) (suc k) d.receiver j n
        (deliver-IsPlaced link root net laws creates nodes d h s.0) s.1
        (omega (
          arith,
          r,
          ap (λ m. (nodes m).my_rank) e,
          deliver_reaches link root net laws creates nodes d h s.0,
        ))
        c

  deliver_all_lowers :
      (ds : List Delivery) (nodes : Nodes) (n : Addr)
      → ((m : Addr) → IsPlaced link root nodes m)
      → IsSchedule link net nodes ds
      → (deliver_all net nodes ds n).my_rank ≤ (nodes n).my_rank
  unfolding deliver_all
  deliver_all_lowers [] nodes n h s = omega arith
  deliver_all_lowers (d ∷ ds) nodes n h s = omega (
    arith,
    deliver_lowers link root net laws creates nodes d h s.0 n,
    deliver_all_lowers ds (deliver net nodes d) n
        (deliver-IsPlaced link root net laws creates nodes d h s.0) s.1,
  )

  -- A rank between the distance and a finite bound on it is one more than the distance.
  pub rank_of_distance :
      (rank j : ℕ) (n : Addr)
      → (rank ≡ infinite_rank) ⊎ OnWalk link root rank n
      → ((i : ℕ) → Walk link root i n → j ≤ i)
      → rank ≤ j + 1
      → j + 1 < infinite_rank
      → rank ≡ j + 1
  rank_of_distance rank j n (inl e) least h small = absurd (omega (arith, e, h, small))
  rank_of_distance rank j n (inr (k, e, w)) least h small = omega (arith, e, h, least k w)

  -- Let only the root have a rank at first. After any deliveries over the links, in any order and
  -- with any repetitions, that carry a DIO along a shortest walk from the root to a node, the node
  -- has the rank one more than its distance from the root, if that is below 65535. It relies on
  -- `NetLaws`, on `dag_peer_create` not failing, and on each sender having a rank when it sends.
  pub deliveries_find_distance :
      (ds : List Delivery) (nodes : Nodes) (n : Addr) (j : ℕ)
      → IsStart root nodes
      → IsSchedule link net nodes ds
      → IsDistance link root n j
      → j + 1 < infinite_rank
      → Carries 0 root ds j n
      → (deliver_all net nodes ds n).my_rank ≡ j + 1
  deliveries_find_distance ds nodes n j start sched (walk, least) small along =
      let placed = start-IsPlaced link root nodes start in
      rank_of_distance (deliver_all net nodes ds n).my_rank j n
        (deliver_all-IsPlaced link root net laws creates ds nodes placed sched n).walked least
        (carried ds nodes 0 root j n placed sched (omega (arith, start.root_rank)) along) small

  quiet_bound :
      (nodes : Nodes) (i : ℕ) (n : Addr)
      → ((m : Addr) → IsPlaced link root nodes m)
      → (nodes root).my_rank ≤ 1
      → IsQuiet link net nodes
      → i + 1 < infinite_rank
      → Walk link root i n
      → (nodes n).my_rank ≤ i + 1
  quiet_bound nodes zero n h r quiet small e = omega (arith, r, ap (λ m. (nodes m).my_rank) e)
  quiet_bound nodes (suc i) n h r quiet small (a, w, l) =
      let near = quiet_bound nodes i a h r quiet (omega (arith, small)) w in
      let d : Delivery = record { now = 0; sender = a; receiver = n } in
      let can : CanSend link nodes d = (l, omega (arith, near, small)) in
      omega (arith, near, quiet d can, deliver_reaches link root net laws creates nodes d h can)

  -- Let only the root have a rank at first. Once deliveries over the links have brought the network
  -- to a state in which no DIO that can be sent changes a rank, every node at a distance from the
  -- root has the rank one more than that distance, if that is below 65535. It relies on `NetLaws`,
  -- on `dag_peer_create` not failing, and on each sender having a rank when it sends.
  pub quiet_network_ranks :
      (ds : List Delivery) (nodes : Nodes) (n : Addr) (j : ℕ)
      → IsStart root nodes
      → IsSchedule link net nodes ds
      → IsQuiet link net (deliver_all net nodes ds)
      → IsDistance link root n j
      → j + 1 < infinite_rank
      → (deliver_all net nodes ds n).my_rank ≡ j + 1
  quiet_network_ranks ds nodes n j start sched quiet (walk, least) small =
      let placed = start-IsPlaced link root nodes start in
      let placed' = deliver_all-IsPlaced link root net laws creates ds nodes placed sched in
      rank_of_distance (deliver_all net nodes ds n).my_rank j n (placed' n).walked least
        (quiet_bound (deliver_all net nodes ds) j n placed'
          (omega (arith, start.root_rank, deliver_all_lowers ds nodes root placed sched)) quiet
          small walk)
        small
