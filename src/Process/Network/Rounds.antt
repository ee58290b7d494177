-- ===== src/Process/Network/Rounds.antt =====
-- Rounds of a network in which every link is offered a DIO.
use rpld_hymrpl.Prelude.{
  ℕ, zero, suc, ◌+◌, ◌≤◌, ◌<◌, ◌≡◌, inl, inr, ap, ◌∙◌, some, List, [], ◌∷◌, arith, Each, length,
  get_elem?, ltb, ltb→lt, if◌then◌else◌, Bool-cases,
}
use rpld_hymrpl.Dag.{Addr, infinite_rank}
use rpld_hymrpl.Process.{Net}
use rpld_hymrpl.Process.Dio.Rank.{NetLaws}
use rpld_hymrpl.Process.Network.{Nodes, Delivery, deliver, IsStart, CanSend, Walk, CreatesPeers}
use rpld_hymrpl.Process.Network.Paths.{
  IsPlaced, start-IsPlaced, deliver-IsPlaced, deliver_lowers, deliver_reaches,
}
use rpld_hymrpl.Process.Network.Shortest.{IsDistance, rank_of_distance}

-- A node without a rank has no dag yet, and sends nothing.
unfoldable pub offer : Net → Nodes → Delivery → Nodes
offer net nodes d =
    if ltb (nodes d.sender).my_rank infinite_rank then deliver net nodes d else nodes

unfoldable pub offer_all : Net → Nodes → List Delivery → Nodes
offer_all net nodes [] = nodes
offer_all net nodes (d ∷ ds) = offer_all net (offer net nodes d) ds

unfoldable pub run_rounds : Net → Nodes → List (List Delivery) → Nodes
run_rounds net nodes [] = nodes
run_rounds net nodes (r ∷ rs) = run_rounds net (offer_all net nodes r) rs

-- Somewhere in the round `a` sends to `b`.
abbrev pub Sends : List Delivery → Addr → Addr → Type 0
Sends ds a b =
    (i : ℕ) × (d : Delivery) × (get_elem? ds i ≡ some d) × (d.sender ≡ a) × (d.receiver ≡ b)

-- A round goes over links only, and over every link at least once.
pub record IsRound (link : Addr → Addr → Type 0) (ds : List Delivery) : Type 0 where
  pub over_links : Each (λ d. link d.sender d.receiver) ds
  pub covers : (a b : Addr) → link a b → Sends ds a b

module _ (link : Addr → Addr → Type 0) (root : Addr) (net : Net) (laws : NetLaws net)
    (creates : CreatesPeers net) where
  abbrev AllPlaced : Nodes → Type 0
  AllPlaced nodes = (n : Addr) → IsPlaced link root nodes n

  record Offered (nodes nodes' : Nodes) (d : Delivery) : Type 0 where
    placed : AllPlaced nodes'
    lowers : (n : Addr) → (nodes' n).my_rank ≤ (nodes n).my_rank
    reaches :
        (nodes d.sender).my_rank < infinite_rank
        → (nodes' d.receiver).my_rank ≤ (nodes d.sender).my_rank + 1

  offer-Offered :
      (nodes : Nodes) (d : Delivery)
      → AllPlaced nodes
      → link d.sender d.receiver
      → Offered nodes (offer net nodes d) d
  unfolding offer
  offer-Offered nodes d h l = elim (Bool-cases (ltb (nodes d.sender).my_rank infinite_rank)) [
    | inl ranked ↦
        let s : CanSend link nodes d = (l, ltb→lt _ _ ranked) in
        rw (ranked, offer)
          (record {
            placed = deliver-IsPlaced link root net laws creates nodes d h s;
            lowers = deliver_lowers link root net laws creates nodes d h s;
            reaches = λ _. deliver_reaches link root net laws creates nodes d h s;
          })
    | inr unranked ↦
        rw (unranked, offer)
          (record {
            placed = h;
            lowers = λ n. omega arith;
            reaches = λ small. absurd (ground (arith, small, unranked));
          })
  ]

  record After (nodes nodes' : Nodes) : Type 0 where
    placed : AllPlaced nodes'
    lowers : (n : Addr) → (nodes' n).my_rank ≤ (nodes n).my_rank

  offer_all-After :
      (ds : List Delivery) (nodes : Nodes)
      → AllPlaced nodes
      → Each (λ d. link d.sender d.receiver) ds
      → After nodes (offer_all net nodes ds)
  unfolding offer_all
  offer_all-After [] nodes h l = record { placed = h; lowers = λ n. omega arith }
  offer_all-After (d ∷ ds) nodes h l =
      let first = offer-Offered nodes d h l.0 in
      let rest = offer_all-After ds (offer net nodes d) first.placed l.1 in
      record { placed = rest.placed; lowers = λ n. omega (arith, first.lowers n, rest.lowers n) }

  -- A sender of the round puts its receiver at most one below itself.
  round_reaches :
      (ds : List Delivery) (nodes : Nodes) (a b : Addr) (k : ℕ)
      → AllPlaced nodes
      → Each (λ d. link d.sender d.receiver) ds
      → (nodes a).my_rank ≤ k
      → k < infinite_rank
      → Sends ds a b
      → (offer_all net nodes ds b).my_rank ≤ k + 1
  unfolding offer_all
  round_reaches [] nodes a b k h l r small (i, d, at, from, to) = absurd (cc)
  round_reaches (x ∷ ds) nodes a b k h l r small (zero, d, at, from, to) =
      let same : x ≡ d = cc in
      let sender : (nodes x.sender).my_rank ≡ (nodes a).my_rank =
        ap (λ (y : Delivery). (nodes y.sender).my_rank) same ∙ ap (λ m. (nodes m).my_rank) from in
      let receiver : x.receiver ≡ b = ap (λ (y : Delivery). y.receiver) same ∙ to in
      let first = offer-Offered nodes x h l.0 in
      let rest = offer_all-After ds (offer net nodes x) first.placed l.1 in
      omega (
        arith,
        r,
        sender,
        first.reaches (omega (arith, sender, r, small)),
        rest.lowers b,
        ap (λ m. (offer net nodes x m).my_rank) receiver,
      )
  round_reaches (x ∷ ds) nodes a b k h l r small (suc i, d, at, from, to) =
      let first = offer-Offered nodes x h l.0 in
      round_reaches ds (offer net nodes x) a b k first.placed l.1 (omega (arith, r, first.lowers a))
        small (i, d, at, from, to)

  -- Every node at the end of a walk of at most `k` links has its bound.
  abbrev Bounded : ℕ → Nodes → Type 0
  Bounded k nodes =
      (i : ℕ) (n : Addr)
      → i ≤ k
      → i + 1 < infinite_rank
      → Walk link root i n
      → (nodes n).my_rank ≤ i + 1

  round-Bounded :
      (k : ℕ) (ds : List Delivery) (nodes : Nodes)
      → AllPlaced nodes
      → IsRound link ds
      → Bounded k nodes
      → Bounded (suc k) (offer_all net nodes ds)
  round-Bounded k ds nodes h round bound zero n low small w = omega (
    arith,
    bound 0 n (omega arith) (omega arith) w,
    (offer_all-After ds nodes h round.over_links).lowers n,
  )
  round-Bounded k ds nodes h round bound (suc i) n low small (a, w, l) =
      let near = bound i a (omega (arith, low)) (omega (arith, small)) w in
      omega (
        arith,
        round_reaches ds nodes a n (i + 1) h round.over_links near (omega (arith, small))
            (round.covers a n l),
      )

  run_rounds-Bounded :
      (rs : List (List Delivery)) (k : ℕ) (nodes : Nodes)
      → AllPlaced nodes
      → Each (IsRound link) rs
      → Bounded k nodes
      → Bounded (k + length rs) (run_rounds net nodes rs) × AllPlaced (run_rounds net nodes rs)
  unfolding run_rounds
  run_rounds-Bounded [] k nodes h rounds bound =
      (λ i n low small w. bound i n (omega (arith, low)) small w, h)
  run_rounds-Bounded (r ∷ rs) k nodes h rounds bound =
      let after = offer_all-After r nodes h rounds.0.over_links in
      let (bound', placed) =
        run_rounds-Bounded rs (suc k) (offer_all net nodes r) after.placed rounds.1
          (round-Bounded k r nodes h rounds.0 bound) in
      (λ i n low small w. bound' i n (omega (arith, low)) small w, placed)

  start-Bounded : (nodes : Nodes) → IsStart root nodes → Bounded 0 nodes
  start-Bounded nodes start zero n low small w =
      omega (arith, start.root_rank, ap (λ m. (nodes m).my_rank) w)
  start-Bounded nodes start (suc i) n low small w = absurd (omega (arith, low))

  -- Let only the root have a rank at first, and let nodes send once they have one. After as many
  -- rounds as a node is links away from the root, in each of which every link is offered at least
  -- one DIO, in any order, the node has the rank one more than its distance, if that is below
  -- 65535, whatever was sent besides and however many rounds follow. It relies on `NetLaws`, on
  -- `dag_peer_create` not failing, and on no parent being given up.
  pub rounds_find_distances :
      (rs : List (List Delivery)) (nodes : Nodes) (n : Addr) (j : ℕ)
      → IsStart root nodes
      → Each (IsRound link) rs
      → IsDistance link root n j
      → j ≤ length rs
      → j + 1 < infinite_rank
      → (run_rounds net nodes rs n).my_rank ≡ j + 1
  rounds_find_distances rs nodes n j start rounds (walk, least) enough small =
      let (bound, placed) =
        run_rounds-Bounded rs 0 nodes (start-IsPlaced link root nodes start) rounds
          (start-Bounded nodes start) in
      rank_of_distance link root net laws creates (run_rounds net nodes rs n).my_rank j n
        (placed n).walked least (bound j n (omega (arith, enough)) small walk) small
