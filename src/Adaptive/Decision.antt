-- ===== src/Adaptive/Decision.antt =====
-- The decision of `adaptive_decide` follows the metrics: better ones never lose Class S.
use rpld_hymrpl.Prelude.{
  ℕ, ◌≤◌, ◌<◌, ◌≡◌, ◌∙◌, ◌⊎◌, inl, inr, refl, ap, Bool, true, false, List, [], ◌∷◌, arith, length,
  length-append, drop, drop_one-append,
}
use rpld_hymrpl.Dag.{class_s}
use rpld_hymrpl.Adaptive.{
  FloatOps, Adaptive, hundred, sum, push_outcome, compute_pdr, record_dao, score, class_of_score,
  adaptive_decide,
}
use rpld_hymrpl.Adaptive.Window.{
  IsWindow, outcomes, push_bounded, pdr_of, sum-append, record_dao_refines,
}

-- A success and a failure lengthen the list of outcomes alike, and the success counts for more.
push_bounded_bits :
    (q : List ℕ)
    → (sum (push_bounded q 0) ≤ sum (push_bounded q 1))
      × (length (push_bounded q 0) ≡ length (push_bounded q 1))
      × (0 < length (push_bounded q 1))
unfolding sum
push_bounded_bits q = ground (
  arith,
  sum-append q (0 ∷ []),
  sum-append q (1 ∷ []),
  length-append q (0 ∷ []),
  length-append q (1 ∷ []),
  length-append (drop 1 q) (0 ∷ []),
  length-append (drop 1 q) (1 ∷ []),
  sum-append (drop 1 q) (0 ∷ []),
  sum-append (drop 1 q) (1 ∷ []),
  drop_one-append q (0 ∷ []),
  drop_one-append q (1 ∷ []),
)

module _ {F : Type 0} (fl : FloatOps F) where
  abbrev pub zero_f : F
  zero_f = fl.int 0

  abbrev pub LeF : F → F → Type 0
  LeF a b = fl.le a b ≡ true

  -- The weights of the score.
  abbrev pub IsWeight : F → Type 0
  IsWeight w = (w ≡ fl.decimal 4 10) ⊎ (w ≡ fl.decimal 3 10)

  -- What the decision needs of float arithmetic: rounding keeps the order of sums, of products with
  -- a weight and of quotients by a positive number, for operands that are not negative.
  pub record OrderLaws : Type 0 where
    pub le_trans : (a b c : F) → LeF a b → LeF b c → LeF a c
    pub le_refl : (a : F) → LeF zero_f a → LeF a a
    pub add_mono :
        (a b c d : F)
        → LeF zero_f a
        → LeF a b
        → LeF zero_f c
        → LeF c d
        → LeF (fl.add a c) (fl.add b d)
    pub add_nonneg : (a b : F) → LeF zero_f a → LeF zero_f b → LeF zero_f (fl.add a b)
    pub weight_mono :
        (w a b : F) → IsWeight w → LeF zero_f a → LeF a b → LeF (fl.mul w a) (fl.mul w b)
    pub weight_nonneg : (w a : F) → IsWeight w → LeF zero_f a → LeF zero_f (fl.mul w a)
    pub percent_mono :
        (a b : F) → LeF zero_f a → LeF a b → LeF (fl.div a (hundred fl)) (fl.div b (hundred fl))
    pub percent_nonneg : (a : F) → LeF zero_f a → LeF zero_f (fl.div a (hundred fl))
    pub share_mono :
        (m n k : ℕ)
        → m ≤ n
        → 0 < k
        → LeF
            (fl.mul (fl.div (fl.int m) (fl.int k)) (hundred fl))
            (fl.mul (fl.div (fl.int n) (fl.int k)) (hundred fl))
    pub share_nonneg :
        (m k : ℕ) → 0 < k → LeF zero_f (fl.mul (fl.div (fl.int m) (fl.int k)) (hundred fl))

  -- The metrics of the second state are at least those of the first, which are not negative.
  pub record NoWorse (adp better : Adaptive F) : Type 0 where
    pub pdr_nonneg : LeF zero_f adp.pdr
    pub pdr_le : LeF adp.pdr better.pdr
    pub energy_nonneg : LeF zero_f adp.energy_ema
    pub energy_le : LeF adp.energy_ema better.energy_ema
    pub stab_nonneg : LeF zero_f adp.s_stab
    pub stab_le : LeF adp.s_stab better.s_stab

  score_mono :
      OrderLaws
      → (adp better : Adaptive F) → NoWorse adp better
      → LeF (score fl adp) (score fl better)
  unfolding score
  score_mono l adp better h =
      let four = fl.decimal 4 10 in
      let three = fl.decimal 3 10 in
      let a = fl.div adp.pdr (hundred fl) in
      let a' = fl.div better.pdr (hundred fl) in
      let a_pos = l.percent_nonneg adp.pdr h.pdr_nonneg in
      let pdr_pos = l.weight_nonneg four a (inl refl) a_pos in
      let pdr_le =
        l.weight_mono four a a' (inl refl) a_pos (l.percent_mono _ _ h.pdr_nonneg h.pdr_le) in
      let energy_pos = l.weight_nonneg three adp.energy_ema (inr refl) h.energy_nonneg in
      let energy_le = l.weight_mono three _ _ (inr refl) h.energy_nonneg h.energy_le in
      let stab_pos = l.weight_nonneg three adp.s_stab (inr refl) h.stab_nonneg in
      let stab_le = l.weight_mono three _ _ (inr refl) h.stab_nonneg h.stab_le in
      l.add_mono _ _ _ _ (l.add_nonneg _ _ pdr_pos energy_pos)
        (l.add_mono _ _ _ _ pdr_pos pdr_le energy_pos energy_le) stab_pos stab_le

  -- With `OrderLaws`: where the metrics, none below 0, call for Class S, metrics that are no worse call
  -- for it too.
  pub better_metrics_keep_class_s :
      OrderLaws
      → (adp better : Adaptive F) → NoWorse adp better
      → (adaptive_decide fl adp).1 ≡ class_s
      → (adaptive_decide fl better).1 ≡ class_s
  unfolding adaptive_decide class_of_score
  better_metrics_keep_class_s l adp better h e = ground (
    arith,
    score_mono l adp better h,
    l.le_trans (fl.decimal 75 100) (score fl adp) (score fl better),
  )

  pdr_of_mono :
      OrderLaws
      → (p q : List ℕ) → sum p ≤ sum q
      → length p ≡ length q
      → 0 < length q
      → LeF zero_f (pdr_of fl p) × LeF (pdr_of fl p) (pdr_of fl q)
  pdr_of_mono l p q h e pos =
      ground (arith, l.share_nonneg (sum p) (length p), l.share_mono (sum p) (sum q) (length q))

  record_dao_others :
      (b : Bool) (adp : Adaptive F)
      → ((record_dao fl b adp).energy_ema ≡ adp.energy_ema)
        × ((record_dao fl b adp).s_stab ≡ adp.s_stab)
  unfolding record_dao compute_pdr push_outcome
  record_dao_others b adp = ground arith

  record_dao-NoWorse :
      OrderLaws
      → (adp : Adaptive F) → IsWindow adp
      → LeF zero_f adp.energy_ema
      → LeF zero_f adp.s_stab
      → NoWorse (record_dao fl false adp) (record_dao fl true adp)
  record_dao-NoWorse l adp valid energy stab =
      let (failed, failed_pdr) = record_dao_refines fl false valid in
      let (passed, passed_pdr) = record_dao_refines fl true valid in
      let (sums, lengths, pos) = push_bounded_bits (outcomes adp) in
      let (low, le) = pdr_of_mono l _ _ sums lengths pos in
      let failed_eq = failed_pdr ∙ ap (pdr_of fl) failed in
      let passed_eq = passed_pdr ∙ ap (pdr_of fl) passed in
      let (e₀, s₀) = record_dao_others false adp in
      let (e₁, s₁) = record_dao_others true adp in
      record {
        pdr_nonneg = rw failed_eq low;
        pdr_le = rw (failed_eq, passed_eq) le;
        energy_nonneg = rw e₀ energy;
        energy_le = rw (e₀, e₁) (l.le_refl _ energy);
        stab_nonneg = rw s₀ stab;
        stab_le = rw (s₀, s₁) (l.le_refl _ stab);
      }

  -- A success is never worse than a failure: if the node would be of Class S after a failed DAO, it
  -- would be of Class S had that DAO succeeded. The ring is valid, energy and stability are not
  -- below 0, and `OrderLaws` hold.
  pub success_no_worse :
      OrderLaws
      → (adp : Adaptive F) → IsWindow adp
      → LeF zero_f adp.energy_ema
      → LeF zero_f adp.s_stab
      → (adaptive_decide fl (record_dao fl false adp)).1 ≡ class_s
      → (adaptive_decide fl (record_dao fl true adp)).1 ≡ class_s
  success_no_worse l adp valid energy stab e =
      better_metrics_keep_class_s l _ _ (record_dao-NoWorse l adp valid energy stab) e
