-- ===== src/Rpld/Loops.antt =====
-- A node that has lost its parent and hears its own child: `parent_check_cb` of rpld_new.c with
-- `process_dio` of process.c.
use rpld_hymrpl.Prelude.{
  ℕ, ◌+◌, ◌*◌, ◌≤◌, ◌<◌, ◌≡◌, ◌≢◌, refl, Bool, false, some, List, [], ◌∷◌, arith, ◌==◌,
}
use mathlib.Core.Path.{subst}
use rpld_hymrpl.Dag.{Addr, Time, infinite_rank, Peer, Dag}
use rpld_hymrpl.Adaptive.{Adaptive}
use rpld_hymrpl.Process.{Net}
use rpld_hymrpl.Process.Dio.Rank.{NetLaws, adopts_new_parent}
use rpld_hymrpl.Process.Dio.History.{Dio, hear, Follows, hear-Follows}
use rpld_hymrpl.Rpld.{parent_check_cb}
use rpld_hymrpl.Rpld.Liveness.{parent_check_cb_lem}
use rpld_hymrpl.Rpld.Orphans.{hear-Follows_worse}

-- The DIOs of two neighbours: which of them hears the other, and when.
pub data Turn : Type 0 where
  first_hears second_hears : Time → Turn

module _ (net : Net) (addr_a addr_b : Addr) where
  unfoldable pub exchange : List Turn → Dag → Dag → Dag × Dag
  exchange [] a b = (a, b)
  exchange (first_hears now ∷ ts) a b =
      exchange ts (hear net (record { now = now; from = addr_b; rank = b.my_rank }) a) b
  exchange (second_hears now ∷ ts) a b =
      exchange ts a (hear net (record { now = now; from = addr_a; rank = a.my_rank }) b)

Follows-rank :
    (dag : Dag) (addr : Addr) {rank rank' : ℕ}
    → rank ≡ rank'
    → Follows dag (record { addr = addr; rank = rank })
    → Follows dag (record { addr = addr; rank = rank' })
Follows-rank dag addr e h = subst (λ r. Follows dag (record { addr = addr; rank = r })) e h

-- Each is the parent of the other.
pub record IsLoop (addr_a addr_b : Addr) (rank : ℕ) (a b : Dag) : Type 0 where
  pub first : Follows a (record { addr = addr_b; rank = rank + 1 })
  pub second : Follows b (record { addr = addr_a; rank = rank })

module _ (net : Net) (laws : NetLaws net) (addr_a addr_b : Addr) where
  first_hears-IsLoop :
      (now : Time) (rank : ℕ) (a b : Dag)
      → IsLoop addr_a addr_b rank a b
      → IsLoop addr_a addr_b rank
          (hear net (record { now = now; from = addr_b; rank = b.my_rank }) a)
          b
  first_hears-IsLoop now rank a b h =
      let dio : Dio = record { now = now; from = addr_b; rank = b.my_rank } in
      let told : b.my_rank ≡ rank + 1 = h.second.below in
      let parent : Peer = record { addr = addr_b; rank = rank + 1 } in
      let real : (0 < b.my_rank) × (b.my_rank < infinite_rank) =
        omega (arith, told, h.first.finite) in
      record {
        first =
            Follows-rank (hear net dio a) addr_b (omega (arith, told))
              (hear-Follows net laws dio a parent h.first real);
        second = h.second;
      }

  second_hears-IsLoop :
      (now : Time) (rank : ℕ) (a b : Dag)
      → IsLoop addr_a addr_b rank a b
      → IsLoop addr_a addr_b rank a
          (hear net (record { now = now; from = addr_a; rank = a.my_rank }) b)
  second_hears-IsLoop now rank a b h = record {
    first = h.first;
    second =
        (hear-Follows_worse net laws (record { now = now; from = addr_a; rank = a.my_rank }) b
          (record { addr = addr_a; rank = rank }) h.second (refl, omega (arith, h.first.below))).0;
  }

  exchange-IsLoop :
      (ts : List Turn) (rank : ℕ) (a b : Dag)
      → IsLoop addr_a addr_b rank a b
      → let (a', b') = exchange net addr_a addr_b ts a b in IsLoop addr_a addr_b rank a' b'
  unfolding exchange
  exchange-IsLoop [] rank a b h = h
  exchange-IsLoop (first_hears now ∷ ts) rank a b h =
      exchange-IsLoop ts rank (hear net (record { now = now; from = addr_b; rank = b.my_rank }) a) b
        (first_hears-IsLoop now rank a b h)
  exchange-IsLoop (second_hears now ∷ ts) rank a b h =
      exchange-IsLoop ts rank a (hear net (record { now = now; from = addr_a; rank = a.my_rank }) b)
        (second_hears-IsLoop now rank a b h)

  hear_adopts :
      (dio : Dio) (dag : Dag) (old : Peer)
      → dag.my_rank ≡ infinite_rank
      → dag.parent ≡ some old
      → old.rank ≡ infinite_rank
      → old.addr ≢ dio.from
      → 0 < dio.rank
      → dio.rank < infinite_rank
      → Follows (hear net dio dag) (record { addr = dio.from; rank = dio.rank })
  unfolding hear
  hear_adopts dio dag old unranked held gone other positive small =
      let not_root : (dag.my_rank == 1) ≡ false = ground arith in
      let (parent, rank, _) =
        adopts_new_parent net laws dio.now dio.from dio.rank dag old held gone other small in
      rw (not_root, hear)
        (record { held = parent; positive = positive; finite = small; below = rank })

  -- A node that has given up its parent adopts the next neighbour it hears, its own child included,
  -- which it then has as the parent while the child still has it: a routing loop, which no
  -- further DIOs between the two, in any order, resolve. It relies on `NetLaws`.
  pub child_adopted :
      {F : Type 0} (enabled : Bool) (adp : Adaptive F) (now₁ now₂ : Time) (a b : Dag)
      (parent_a : Peer) (rank : ℕ) (ts : List Turn)
      → a.my_rank ≢ 1
      → a.parent ≡ some parent_a
      → parent_a.rank ≢ infinite_rank
      → a.parent_last_seen + 8 * a.trickle_t ≤ now₁
      → parent_a.addr ≢ addr_b
      → Follows b (record { addr = addr_a; rank = rank })
      → rank + 1 < infinite_rank
      → let a' = (parent_check_cb enabled now₁ a adp).dag in
        let a'' = hear net (record { now = now₂; from = addr_b; rank = b.my_rank }) a' in
        let (last_a, last_b) = exchange net addr_a addr_b ts a'' b in
        (last_a.parent ≡ some (record { addr = addr_b; rank = rank + 1 }))
        × (last_b.parent ≡ some (record { addr = addr_a; rank = rank }))
  child_adopted enabled adp now₁ now₂ a b parent_a rank ts root held live silent other child small =
      let a' = (parent_check_cb enabled now₁ a adp).dag in
      let dio : Dio = record { now = now₂; from = addr_b; rank = b.my_rank } in
      let (gone, unranked, _, _, _) =
        (parent_check_cb_lem enabled now₁ adp a parent_a root held live).1 silent in
      let told : b.my_rank ≡ rank + 1 = child.below in
      let adopted =
        hear_adopts dio a' (record { addr = parent_a.addr; rank = infinite_rank }) unranked gone
          refl other (omega (arith, told)) (omega (arith, told, small)) in
      let loop =
        exchange-IsLoop ts rank (hear net dio a') b
          (record { first = Follows-rank (hear net dio a') addr_b told adopted; second = child }) in
      (loop.first.held, loop.second.held)
