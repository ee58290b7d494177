-- ===== src/Process/Network/Paths.antt =====
-- Ranks of nodes and walks from the root, under deliveries.
use rpld_hymrpl.Prelude.{
  ℕ, suc, ◌+◌, ◌≤◌, ◌<◌, ◌≡◌, ◌⊎◌, inl, inr, ap, ◌∙◌, min, true, List, [], ◌∷◌, arith, ◌==◌,
  Bool-cases, ≡-cases, ◌≢◌, ltb,
}
use rpld_hymrpl.Dag.{Addr, infinite_rank, Peer, Dag}
use rpld_hymrpl.Process.{Net}
use rpld_hymrpl.Process.Dio.Rank.{NetLaws}
use rpld_hymrpl.Process.Dio.History.{
  Dio, hear, IsRank, IsFresh, Follows, hear-Follows, hear-IsFresh,
}
use rpld_hymrpl.Process.Network.{
  Nodes, Delivery, deliver, deliver_all, IsStart, CanSend, IsSchedule, Walk, CreatesPeers,
}

-- A node that takes DIOs has just created its dag, or follows a parent, or is the root.
pub data Standing (dag : Dag) : Type 0 where
  is_root : dag.my_rank ≡ 1 → Standing dag
  is_fresh : IsFresh dag → Standing dag
  is_placed : (parent : Peer) → Follows dag parent → Standing dag

-- A node's new rank is its own or one more than the DIO's.
pub record Heard (rank : ℕ) (old new : Dag) : Type 0 where
  pub standing : Standing new
  pub chosen : (new.my_rank ≡ old.my_rank) ⊎ (new.my_rank ≡ rank + 1)
  pub kept : new.my_rank ≤ old.my_rank
  pub lowered : (new.my_rank ≤ rank + 1)

least_cases :
    (a b : ℕ) {new old : ℕ} → new ≡ min a b + 1 → old ≡ a + 1 → (new ≡ old) ⊎ (new ≡ b + 1)
least_cases a b h k = elim (Bool-cases (ltb a b)) [
  | inl e ↦ inl (ground arith)
  | inr e ↦ inr (ground arith)
]

module _ (net : Net) (laws : NetLaws net) (creates : CreatesPeers net) where
  pub hear_root : (dio : Dio) (dag : Dag) → dag.my_rank ≡ 1 → hear net dio dag ≡ dag
  unfolding hear
  hear_root dio dag h = ground (arith, h)

  pub hear-Heard :
      (dio : Dio) (dag : Dag)
      → Standing dag
      → IsRank dio.rank
      → Heard dio.rank dag (hear net dio dag)
  hear-Heard dio dag (is_root h) real =
      let same : hear net dio dag ≡ dag = hear_root dio dag h in
      record {
        standing = rw same (is_root h);
        chosen = inl (ap (λ d. d.my_rank) same);
        kept = omega (arith, ap (λ d. d.my_rank) same);
        lowered = omega (arith, ap (λ d. d.my_rank) same, h);
      }
  hear-Heard dio dag (is_fresh h) real =
      let (peer, made) = creates dio.from in
      let follows = hear-IsFresh net laws dio dag peer h made real in
      record {
        standing = is_placed _ follows;
        chosen = inr follows.below;
        kept = omega (arith, follows.below, h.unranked, real.1);
        lowered = omega (arith, follows.below);
      }
  hear-Heard dio dag (is_placed parent h) real =
      let follows = hear-Follows net laws dio dag parent h real in
      record {
        standing = is_placed _ follows;
        chosen = least_cases parent.rank dio.rank follows.below h.below;
        kept = omega (arith, follows.below, h.below);
        lowered = omega (arith, follows.below);
      }

module _ (link : Addr → Addr → Type 0) (root : Addr) where
  -- A rank that tells the length of a walk from the root.
  abbrev pub OnWalk : ℕ → Addr → Type 0
  OnWalk rank n = (k : ℕ) × (rank ≡ k + 1) × Walk link root k n

  -- A node stands as `process_dio` leaves it, and its rank is infinite or tells a walk.
  pub record IsPlaced (nodes : Nodes) (n : Addr) : Type 0 where
    pub standing : Standing (nodes n)
    pub walked : ((nodes n).my_rank ≡ infinite_rank) ⊎ OnWalk (nodes n).my_rank n

  pub IsRank-positive :
      {rank : ℕ} {n : Addr}
      → rank < infinite_rank
      → (rank ≡ infinite_rank) ⊎ OnWalk rank n
      → IsRank rank
  IsRank-positive small (inl h) = absurd (omega (arith, small, h))
  IsRank-positive small (inr (k, h, w)) = (omega (arith, h), small)

  walk_on :
      {rank new : ℕ} {a n : Addr}
      → rank < infinite_rank
      → (rank ≡ infinite_rank) ⊎ OnWalk rank a
      → link a n
      → new ≡ rank + 1
      → OnWalk new n
  walk_on small (inl h) l e = absurd (omega (arith, small, h))
  walk_on {a = a} small (inr (k, h, w)) l e = (suc k, omega (arith, h, e), (a, w, l))

  heard_walk :
      {rank new old : ℕ} {a n : Addr}
      → rank < infinite_rank
      → (rank ≡ infinite_rank) ⊎ OnWalk rank a
      → link a n
      → (old ≡ infinite_rank) ⊎ OnWalk old n
      → (new ≡ old) ⊎ (new ≡ rank + 1)
      → (new ≡ infinite_rank) ⊎ OnWalk new n
  heard_walk small w l w' (inr e) = inr (walk_on small w l e)
  heard_walk small w l (inl h) (inl e) = inl (e ∙ h)
  heard_walk small w l (inr (k, h, v)) (inl e) = inr (k, e ∙ h, v)

  pub start-IsPlaced : (nodes : Nodes) → IsStart root nodes → (n : Addr) → IsPlaced nodes n
  start-IsPlaced nodes h n = elim (≡-cases n root) [
    | inl e ↦
        let rank : (nodes n).my_rank ≡ 1 = ap (λ m. (nodes m).my_rank) e ∙ h.root_rank in
        record { standing = is_root rank; walked = inr (0, rank, e) }
    | inr e ↦ record { standing = is_fresh (h.fresh n e); walked = inl (h.fresh n e).unranked }
  ]

  module _ (net : Net) (laws : NetLaws net) (creates : CreatesPeers net) where
    receiver-Heard :
        (nodes : Nodes) (d : Delivery)
        → ((n : Addr) → IsPlaced nodes n)
        → CanSend link nodes d
        → Heard (nodes d.sender).my_rank (nodes d.receiver) (deliver net nodes d d.receiver)
    unfolding deliver
    receiver-Heard nodes d h s =
        let dio : Dio = record { now = d.now; from = d.sender; rank = (nodes d.sender).my_rank } in
        let self : (d.receiver == d.receiver) ≡ true = ground arith in
        rw self (
          hear-Heard net laws creates dio (nodes d.receiver) (h d.receiver).standing
            (IsRank-positive s.1 (h d.sender).walked))

    pub receiver_hears :
        (nodes : Nodes) (d : Delivery)
        → deliver net nodes d d.receiver
          ≡ hear net
              (record { now = d.now; from = d.sender; rank = (nodes d.sender).my_rank })
              (nodes d.receiver)
    unfolding deliver
    receiver_hears nodes d = ground arith

    pub others_kept :
        (nodes : Nodes) (d : Delivery) (n : Addr) → n ≢ d.receiver → deliver net nodes d n ≡ nodes n
    unfolding deliver
    others_kept nodes d n h = ground arith

    pub deliver-IsPlaced :
        (nodes : Nodes) (d : Delivery)
        → ((n : Addr) → IsPlaced nodes n)
        → CanSend link nodes d
        → (n : Addr) → IsPlaced (deliver net nodes d) n
    deliver-IsPlaced nodes d h s n = elim (≡-cases n d.receiver) [
      | inl e ↦ rw e (
          let heard = receiver-Heard nodes d h s in
          record {
            standing = heard.standing;
            walked = heard_walk s.1 (h d.sender).walked s.0 (h d.receiver).walked heard.chosen;
          })
      | inr e ↦
          let same = others_kept nodes d n e in
          record { standing = rw same (h n).standing; walked = rw same (h n).walked }
    ]

    -- No delivery raises a rank, and one over a link puts the receiver at most one below the sender.
    pub deliver_lowers :
        (nodes : Nodes) (d : Delivery)
        → ((n : Addr) → IsPlaced nodes n)
        → CanSend link nodes d
        → (n : Addr) → (deliver net nodes d n).my_rank ≤ (nodes n).my_rank
    deliver_lowers nodes d h s n = elim (≡-cases n d.receiver) [
      | inl e ↦ rw e (receiver-Heard nodes d h s).kept
      | inr e ↦ omega (arith, ap (λ (x : Dag). x.my_rank) (others_kept nodes d n e))
    ]

    pub deliver_reaches :
        (nodes : Nodes) (d : Delivery)
        → ((n : Addr) → IsPlaced nodes n)
        → CanSend link nodes d
        → (deliver net nodes d d.receiver).my_rank ≤ (nodes d.sender).my_rank + 1
    deliver_reaches nodes d h s = (receiver-Heard nodes d h s).lowered

    pub deliver_all-IsPlaced :
        (ds : List Delivery) (nodes : Nodes)
        → ((n : Addr) → IsPlaced nodes n)
        → IsSchedule link net nodes ds
        → (n : Addr) → IsPlaced (deliver_all net nodes ds) n
    unfolding deliver_all
    deliver_all-IsPlaced [] nodes h s = h
    deliver_all-IsPlaced (d ∷ ds) nodes h s =
        deliver_all-IsPlaced ds (deliver net nodes d) (deliver-IsPlaced nodes d h s.0) s.1
