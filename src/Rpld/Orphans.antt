-- ===== src/Rpld/Orphans.antt =====
-- Nodes that have lost their parent, and their neighbours: `parent_check_cb` of rpld_new.c with
-- `process_dio` of process.c.
use rpld_hymrpl.Prelude.{
  ℕ, ◌+◌, ◌*◌, ◌≤◌, ◌<◌, ◌≡◌, ◌≢◌, ◌∙◌, refl, Bool, false, ap, Option, some, List, [], ◌∷◌, arith,
  Each, ◌==◌,
}
use rpld_hymrpl.Dag.{Addr, Time, infinite_rank, Peer, Dag}
use rpld_hymrpl.Adaptive.{Adaptive}
use rpld_hymrpl.Process.{Net}
use rpld_hymrpl.Process.Dio.{update_dag, with_parent, track_parent, take_rank_of, take_rank}
use rpld_hymrpl.Process.Dio.Rank.{NetLaws, zero_rank_update}
use rpld_hymrpl.Process.Dio.History.{Dio, hear, hear_all, Follows}
use rpld_hymrpl.Rpld.{parent_check_cb}
use rpld_hymrpl.Rpld.Liveness.{parent_check_cb_lem, parent_check_cb_early}

module _ (net : Net) (laws : NetLaws net) where
  update_wraps :
      (now : Time) (from : Addr) (dag : Dag) (old : Peer) (held : Option Peer)
      → held ≡ some old
      → old.rank ≡ infinite_rank
      → (update_dag net now from infinite_rank dag held).0.my_rank ≡ 0
  unfolding update_dag with_parent track_parent take_rank_of take_rank
  update_wraps now from dag old held e gone =
      let next : Addr → Dag = λ a. record dag {
        parent = some (record { addr = a; rank = infinite_rank });
        my_rank = 0;
        parent_last_seen = now;
      } in
      rw (e, update_dag)
        (ground (arith, laws.keeps_rank (next from), laws.keeps_rank (next old.addr)))

  hear_wraps :
      (now : Time) (from : Addr) (rank : ℕ) (dag : Dag) (old : Peer)
      → rank ≡ infinite_rank
      → dag.my_rank ≢ 1
      → dag.parent ≡ some old
      → old.rank ≡ infinite_rank
      → (hear net (record { now = now; from = from; rank = rank }) dag).my_rank ≡ 0
  unfolding hear
  hear_wraps now from rank dag old e root held gone =
      let not_root : (dag.my_rank == 1) ≡ false = ground arith in
      rw (e, not_root, hear) (update_wraps now from dag old dag.parent held gone)

  hear_zero :
      (now : Time) (from : Addr) (rank : ℕ) (dag : Dag) (parent : Peer)
      → rank ≡ 0
      → dag.my_rank ≢ 1
      → dag.parent ≡ some parent
      → (hear net (record { now = now; from = from; rank = rank }) dag).my_rank ≡ 1
  unfolding hear
  hear_zero now from rank dag parent e root held =
      let not_root : (dag.my_rank == 1) ≡ false = ground arith in
      rw (e, not_root, hear) (zero_rank_update net laws now from dag parent held)

  hear_root : (dio : Dio) (dag : Dag) → dag.my_rank ≡ 1 → hear net dio dag ≡ dag
  unfolding hear
  hear_root dio dag h = ground (arith, h)

  update_worse :
      (dio : Dio) (dag : Dag) (parent : Peer) (held : Option Peer)
      → held ≡ some parent
      → dio.from ≡ parent.addr
      → parent.rank < dio.rank
      → (update_dag net dio.now dio.from dio.rank dag held).0
        ≡ record dag { parent = some parent; parent_last_seen = dio.now }
  unfolding update_dag with_parent track_parent take_rank_of take_rank
  update_worse dio dag parent held h e worse =
      rw (h, update_dag) (ground (arith, e, worse, laws.is_peer parent dio.from))

  hear_worse :
      (dio : Dio) (dag : Dag) (parent : Peer)
      → Follows dag parent
      → dio.from ≡ parent.addr
      → parent.rank < dio.rank
      → hear net dio dag ≡ record dag { parent = some parent; parent_last_seen = dio.now }
  unfolding hear
  hear_worse dio dag parent h e worse =
      let not_root : (dag.my_rank == 1) ≡ false = ground (arith, h.below, h.positive) in
      rw (not_root, hear) (update_worse dio dag parent dag.parent h.held e worse)

  -- A DIO of the parent that tells a higher rank than the node knows of it.
  abbrev pub IsWorse : Peer → Dio → Type 0
  IsWorse parent dio = (dio.from ≡ parent.addr) × (parent.rank < dio.rank)

  pub hear-Follows_worse :
      (dio : Dio) (dag : Dag) (parent : Peer)
      → Follows dag parent
      → IsWorse parent dio
      → Follows (hear net dio dag) parent × ((hear net dio dag).trickle_t ≡ dag.trickle_t)
  hear-Follows_worse dio dag parent h (e, worse) =
      let told = hear_worse dio dag parent h e worse in
      (
        record {
          held = ap (λ (d : Dag). d.parent) told;
          positive = h.positive;
          finite = h.finite;
          below = ap (λ (d : Dag). d.my_rank) told ∙ h.below;
        },
        ap (λ (d : Dag). d.trickle_t) told,
      )

  hear_all-Follows_worse :
      (dios : List Dio) (dag : Dag) (parent : Peer)
      → Follows dag parent
      → Each (IsWorse parent) dios
      → Follows (hear_all net dios dag) parent × ((hear_all net dios dag).trickle_t ≡ dag.trickle_t)
  unfolding hear_all
  hear_all-Follows_worse [] dag parent h worse = (h, refl)
  hear_all-Follows_worse (dio ∷ dios) dag parent h worse =
      let (follows, period) = hear-Follows_worse dio dag parent h worse.0 in
      let (follows', period') =
        hear_all-Follows_worse dios (hear net dio dag) parent follows worse.1 in
      (follows', period' ∙ period)

  -- A parent that tells higher ranks than the node knows of it, such as the infinite rank it has once
  -- it has lost its own parent, stays the parent at the old rank, however many such DIOs it sends:
  -- each counts as a sign of life, so the check before eight Trickle periods from the last changes
  -- nothing. It relies on `NetLaws`.
  pub worse_parent_kept :
      {F : Type 0} (enabled : Bool) (adp : Adaptive F) (dag : Dag) (parent : Peer) (dios : List Dio)
      (last : Dio) (now : Time)
      → Follows dag parent
      → Each (IsWorse parent) dios
      → IsWorse parent last
      → now < last.now + 8 * dag.trickle_t
      → let dag' = hear net last (hear_all net dios dag) in
        (dag'.parent ≡ some parent)
        × (dag'.my_rank ≡ parent.rank + 1)
        × (parent_check_cb enabled now dag' adp ≡ record { dag = dag'; adp = adp; effects = [] })
  worse_parent_kept enabled adp dag parent dios last now h worse worse' soon =
      let before = hear_all net dios dag in
      let (follows, period) = hear_all-Follows_worse dios dag parent h worse in
      let told = hear_worse last before parent follows worse'.0 worse'.1 in
      let (kept, period') = hear-Follows_worse last before parent follows worse' in
      (
        kept.held,
        kept.below,
        parent_check_cb_early enabled now adp (hear net last before)
            (omega (arith, soon, period, period', ap (λ (d : Dag). d.parent_last_seen) told)),
      )

  -- Two neighbours that both gave up their parents bring forth false roots: the DIO of one, which
  -- tells the rank that the check left it with, gives the other, whose rank plus one is cut to
  -- sixteen bits, rank 0; the DIO of that one gives any node with a parent rank 1, after which the
  -- node ignores every DIO. It relies on `NetLaws`.
  pub orphans_make_root :
      {F : Type 0} (enabled : Bool) (adp : Adaptive F) (now₁ now₂ now₃ now₄ : Time)
      (addr_a addr_b : Addr) (a b c : Dag) (parent_a parent_b parent_c : Peer) (dio : Dio)
      → (a.my_rank ≢ 1) × (a.parent ≡ some parent_a) × (parent_a.rank ≢ infinite_rank)
      → (b.my_rank ≢ 1) × (b.parent ≡ some parent_b) × (parent_b.rank ≢ infinite_rank)
      → (c.my_rank ≢ 1) × (c.parent ≡ some parent_c)
      → a.parent_last_seen + 8 * a.trickle_t ≤ now₁
      → b.parent_last_seen + 8 * b.trickle_t ≤ now₂
      → let a' = (parent_check_cb enabled now₁ a adp).dag in
        let b' = (parent_check_cb enabled now₂ b adp).dag in
        let b'' = hear net (record { now = now₃; from = addr_a; rank = a'.my_rank }) b' in
        let c' = hear net (record { now = now₄; from = addr_b; rank = b''.my_rank }) c in
        (b''.my_rank ≡ 0) × (c'.my_rank ≡ 1) × (hear net dio c' ≡ c')
  orphans_make_root enabled adp now₁ now₂ now₃ now₄ addr_a addr_b a b c parent_a parent_b parent_c
        dio (root_a, held_a, live_a) (root_b, held_b, live_b) (root_c, held_c) silent_a silent_b =
      let lost_a =
        (parent_check_cb_lem enabled now₁ adp a parent_a root_a held_a live_a).1 silent_a in
      let lost_b =
        (parent_check_cb_lem enabled now₂ adp b parent_b root_b held_b live_b).1 silent_b in
      let a' = (parent_check_cb enabled now₁ a adp).dag in
      let b' = (parent_check_cb enabled now₂ b adp).dag in
      let wrapped =
        hear_wraps now₃ addr_a a'.my_rank b' (record { addr = parent_b.addr; rank = infinite_rank })
          lost_a.1 (λ e. omega (arith, e, lost_b.1)) lost_b.0 refl in
      let b'' = hear net (record { now = now₃; from = addr_a; rank = a'.my_rank }) b' in
      let root = hear_zero now₄ addr_b b''.my_rank c parent_c wrapped root_c held_c in
      (wrapped, root, hear_root dio _ root)
