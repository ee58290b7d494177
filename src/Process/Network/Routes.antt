-- ===== src/Process/Network/Routes.antt =====
-- The parents of the nodes of a network, and the ways along them to the root.
use rpld_hymrpl.Prelude.{
  ℕ, zero, suc, ◌<◌, ◌≡◌, ◌⊎◌, inl, inr, refl, ap, ◌∙◌, sym, some, List, [], ◌∷◌, arith, ≡-cases,
}
use mathlib.Core.Path.{subst}
use rpld_hymrpl.Dag.{Addr, infinite_rank, Peer, Dag}
use rpld_hymrpl.Process.{Net}
use rpld_hymrpl.Process.Dio.Rank.{NetLaws}
use rpld_hymrpl.Process.Dio.History.{Dio, hear, IsFresh, hear-Follows, hear-IsFresh}
use rpld_hymrpl.Process.Network.{
  Nodes, Delivery, deliver, deliver_all, IsStart, CanSend, IsSchedule, CreatesPeers,
}
use rpld_hymrpl.Process.Network.Paths.{
  Standing, is_root, is_fresh, is_placed, IsPlaced, start-IsPlaced, deliver-IsPlaced, hear_root,
  IsRank-positive, others_kept, receiver_hears,
}

module _ (link : Addr → Addr → Type 0) (root : Addr) where
  -- From the node, `k` steps to the parent lead to the root, each over a link on which the parent
  -- sends to the node.
  abbrev pub Chain : Nodes → ℕ → Addr → Type 0
  Chain nodes zero n = n ≡ root
  Chain nodes (suc k) n =
      (p : Peer) × ((nodes n).parent ≡ some p) × link p.addr n × Chain nodes k p.addr

  abbrev pub IsRouted : Nodes → Addr → Type 0
  IsRouted nodes n = IsFresh (nodes n) ⊎ ((k : ℕ) × Chain nodes k n)

  module _ (net : Net) (laws : NetLaws net) (creates : CreatesPeers net) where
    hear_keeps_addr :
        (dio : Dio) (dag : Dag) (p : Peer)
        → Standing dag
        → (0 < dio.rank) × (dio.rank < infinite_rank)
        → dag.parent ≡ some p
        → (p' : Peer) × ((hear net dio dag).parent ≡ some p') × (p'.addr ≡ p.addr)
    hear_keeps_addr dio dag p (is_root h) real e =
        (p, ap (λ (d : Dag). d.parent) (hear_root net laws creates dio dag h) ∙ e, refl)
    hear_keeps_addr dio dag p (is_fresh h) real e = absurd (cc (h.no_parent, e))
    hear_keeps_addr dio dag p (is_placed q h) real e =
        let same : q ≡ p = cc (h.held, e) in
        (_, (hear-Follows net laws dio dag q h real).held, ap (λ (x : Peer). x.addr) same)

    deliver_keeps_addr :
        (nodes : Nodes) (d : Delivery) (n : Addr) (p : Peer)
        → ((n : Addr) → IsPlaced link root nodes n)
        → CanSend link nodes d
        → (nodes n).parent ≡ some p
        → (p' : Peer) × ((deliver net nodes d n).parent ≡ some p') × (p'.addr ≡ p.addr)
    deliver_keeps_addr nodes d n p h s e = elim (≡-cases n d.receiver) [
      | inr other ↦ (
        p,
        ap (λ (x : Dag). x.parent) (others_kept link root net laws creates nodes d n other) ∙ e,
        refl,
      )
      | inl here ↦
          let dio : Dio = record {
            now = d.now;
            from = d.sender;
            rank = (nodes d.sender).my_rank;
          } in
          let (p', e', same) =
            hear_keeps_addr dio (nodes d.receiver) p (h d.receiver).standing
              (IsRank-positive link root s.1 (h d.sender).walked)
              (ap (λ m. (nodes m).parent) (sym here) ∙ e) in
          (
            p',
            ap (λ m. (deliver net nodes d m).parent) here
                ∙ ap (λ (x : Dag). x.parent) (receiver_hears link root net laws creates nodes d)
                ∙ e',
            same,
          )
    ]

    deliver-Chain :
        (nodes : Nodes) (d : Delivery) (k : ℕ) (n : Addr)
        → ((n : Addr) → IsPlaced link root nodes n)
        → CanSend link nodes d
        → Chain nodes k n
        → Chain (deliver net nodes d) k n
    deliver-Chain nodes d zero n h s c = c
    deliver-Chain nodes d (suc k) n h s (p, e, l, c) =
        let (p', e', same) = deliver_keeps_addr nodes d n p h s e in
        (
          p',
          e',
          subst (λ a. link a n) (sym same) l,
          subst (Chain (deliver net nodes d) k) (sym same) (deliver-Chain nodes d k p.addr h s c),
        )

    -- A node that can send has a rank, so it has a route, or is the root.
    sender-Chain :
        (nodes : Nodes) (n : Addr)
        → IsRouted nodes n
        → (nodes n).my_rank < infinite_rank
        → (k : ℕ) × Chain nodes k n
    sender-Chain nodes n (inr c) small = c
    sender-Chain nodes n (inl fresh) small = absurd (omega (arith, fresh.unranked, small))

    fresh-IsRouted :
        (nodes : Nodes) (d : Delivery)
        → ((m : Addr) → IsPlaced link root nodes m)
        → ((m : Addr) → IsRouted nodes m)
        → CanSend link nodes d
        → IsFresh (nodes d.receiver)
        → IsRouted (deliver net nodes d) d.receiver
    fresh-IsRouted nodes d h r s fresh =
        let dio : Dio = record { now = d.now; from = d.sender; rank = (nodes d.sender).my_rank } in
        let (peer, made) = creates d.sender in
        let follows =
          hear-IsFresh net laws dio (nodes d.receiver) peer fresh made
            (IsRank-positive link root s.1 (h d.sender).walked) in
        let (k, c) = sender-Chain nodes d.sender (r d.sender) s.1 in
        inr (
          suc k,
          (
            _,
            ap (λ (x : Dag). x.parent) (receiver_hears link root net laws creates nodes d)
                ∙ follows.held,
            s.0,
            deliver-Chain nodes d k d.sender h s c,
          ),
        )

    deliver-IsRouted :
        (nodes : Nodes) (d : Delivery)
        → ((m : Addr) → IsPlaced link root nodes m)
        → ((m : Addr) → IsRouted nodes m)
        → CanSend link nodes d
        → (n : Addr) → IsRouted (deliver net nodes d) n
    deliver-IsRouted nodes d h r s n = elim (r n) [
      | inr (k, c) ↦ inr (k, deliver-Chain nodes d k n h s c)
      | inl fresh ↦ elim (≡-cases n d.receiver) [
        | inr other ↦ inl (rw (others_kept link root net laws creates nodes d n other) fresh)
        | inl here ↦
            subst (IsRouted (deliver net nodes d)) (sym here)
              (fresh-IsRouted nodes d h r s (subst (λ m. IsFresh (nodes m)) here fresh))
      ]
    ]

    deliver_all-IsRouted :
        (ds : List Delivery) (nodes : Nodes)
        → ((m : Addr) → IsPlaced link root nodes m)
        → ((m : Addr) → IsRouted nodes m)
        → IsSchedule link net nodes ds
        → (n : Addr) → IsRouted (deliver_all net nodes ds) n
    unfolding deliver_all
    deliver_all-IsRouted [] nodes h r s = r
    deliver_all-IsRouted (d ∷ ds) nodes h r s =
        deliver_all-IsRouted ds (deliver net nodes d)
          (deliver-IsPlaced link root net laws creates nodes d h s.0)
          (deliver-IsRouted nodes d h r s.0) s.1

    start-IsRouted : (nodes : Nodes) → IsStart root nodes → (n : Addr) → IsRouted nodes n
    start-IsRouted nodes h n = elim (≡-cases n root) [
      | inl e ↦ inr (0, e)
      | inr e ↦ inl (h.fresh n e)
    ]

    -- Let only the root have a rank at first. After any deliveries over the links, in any order and
    -- with any repetitions, from every node that has a rank the parents, to which the default
    -- routes go, lead to the root in finitely many steps, each over a link: there is no routing
    -- loop. It relies on `NetLaws`, on `dag_peer_create` not failing, on each sender having a rank
    -- when it sends, and on no parent being given up.
    pub default_routes_reach_root :
        (ds : List Delivery) (nodes : Nodes) (n : Addr)
        → IsStart root nodes
        → IsSchedule link net nodes ds
        → let nodes' = deliver_all net nodes ds in
          (nodes' n).my_rank < infinite_rank → (k : ℕ) × Chain nodes' k n
    default_routes_reach_root ds nodes n start sched ranked =
        let placed = start-IsPlaced link root nodes start in
        sender-Chain (deliver_all net nodes ds) n
          (deliver_all-IsRouted ds nodes placed (start-IsRouted nodes start) sched n) ranked
