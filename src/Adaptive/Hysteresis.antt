-- ===== src/Adaptive/Hysteresis.antt =====
-- When `hymrpl_adaptive_get_recommendation` recommends a change of class.
use rpld_hymrpl.Prelude.{
  ℕ, zero, suc, ◌≤◌, ◌≡◌, ◌≢◌, Bool, Option, none, some, List, [], ◌∷◌, arith,
}
use rpld_hymrpl.Dag.{Addr, Time, NodeClass}
use rpld_hymrpl.Adaptive.{
  FloatOps, Adaptive, push_change, push_outcome, compute_pdr, compute_stability, update_energy,
  adaptive_init, record_dao, parent_changed, adaptive_eval_cb, adaptive_decide, score,
  class_of_score, hysteresis, get_recommendation,
}

-- What can happen to the engine: a DAO outcome, a change of parent, the evaluation timer, and a
-- question by the daemon, which is of the given class.
pub data Action (F : Type 0) : Type 0 where
  outcome : Bool → Action F
  change : Time → Option Addr → Action F
  evaluate : Time → Option (Option F) → Option (Option F) → Action F
  ask : NodeClass → Action F

-- A question: the class that the metrics called for, and the class at the time.
pub record Question : Type 0 where
  pub decided : NodeClass
  pub current : NodeClass

-- The latest `k` questions, newest first, all called for class `r` while the class was not `r`.
abbrev pub Streak : ℕ → NodeClass → List Question → Type 0
Streak zero r log = Unit {0}
Streak (suc k) r [] = ⊥
Streak (suc k) r (q ∷ log) = (q.decided ≡ r) × (q.current ≢ r) × Streak k r log

-- The counter stays below the threshold, and counts questions that called for `pending_class`.
abbrev pub Counts : {F : Type 0} → Adaptive F → List Question → Type 0
Counts adp log =
    (adp.hysteresis_counter ≤ 2)
    × (1 ≤ adp.hysteresis_counter → Streak 1 adp.pending_class log)
    × (2 ≤ adp.hysteresis_counter → Streak 2 adp.pending_class log)

module _ {F : Type 0} (fl : FloatOps F) where
  -- The question that a call of `get_recommendation` answers.
  abbrev pub question : NodeClass → Adaptive F → Question
  question current adp = record { decided = class_of_score fl (score fl adp); current = current }

  abbrev pub act : Action F → Adaptive F × List Question → Adaptive F × List Question
  act (outcome success) (adp, log) = (record_dao fl success adp, log)
  act (change now new_parent) (adp, log) = (parent_changed now new_parent adp, log)
  act (evaluate now battery capacity) (adp, log) =
      (adaptive_eval_cb fl now battery capacity adp, log)
  act (ask current) (adp, log) = ((get_recommendation fl current adp).0, question current adp ∷ log)

  -- Everything that happens to the engine, first to last, with the questions that it was asked.
  abbrev pub run : List (Action F) → Adaptive F × List Question → Adaptive F × List Question
  run [] s = s
  run (a ∷ acts) s = run acts (act a s)

  get_recommendation-Counts :
      (current : NodeClass) (adp : Adaptive F) (log : List Question)
      → Counts adp log
      → Counts (get_recommendation fl current adp).0 (question current adp ∷ log)
  unfolding get_recommendation hysteresis adaptive_decide
  get_recommendation-Counts current adp log h = ground arith

  get_recommendation-Streak :
      (current r : NodeClass) (adp : Adaptive F) (log : List Question)
      → Counts adp log
      → (get_recommendation fl current adp).1 ≡ some r
      → Streak 3 r (question current adp ∷ log)
  unfolding get_recommendation hysteresis adaptive_decide
  get_recommendation-Streak current r adp log h e = ground arith

  act-Counts :
      (a : Action F) (adp : Adaptive F) (log : List Question)
      → Counts adp log
      → Counts (act a (adp, log)).0 (act a (adp, log)).1
  act-Counts (outcome success) adp log h =
      unfold record_dao compute_pdr push_outcome in ground arith
  act-Counts (change now none) adp log h = unfold parent_changed push_change in ground arith
  act-Counts (change now (some p)) adp log h = unfold parent_changed push_change in ground arith
  act-Counts (evaluate now battery capacity) adp log h =
      unfold adaptive_eval_cb adaptive_decide compute_stability update_energy in h
  act-Counts (ask current) adp log h = get_recommendation-Counts current adp log h

  run-Counts :
      (acts : List (Action F)) (adp : Adaptive F) (log : List Question)
      → Counts adp log
      → Counts (run acts (adp, log)).0 (run acts (adp, log)).1
  run-Counts [] adp log h = h
  run-Counts (a ∷ acts) adp log h =
      run-Counts acts (act a (adp, log)).0 (act a (adp, log)).1 (act-Counts a adp log h)

  -- Whatever happened to the engine since it started: when it recommends a class, the metrics called
  -- for that class at this question and at the two questions before it, and at none of the three the
  -- node was of that class.
  pub recommends_after-Streak :
      (ifname : Option (List ℕ)) (acts : List (Action F)) (current r : NodeClass)
      → (get_recommendation fl current (run acts (adaptive_init fl ifname, [])).0).1 ≡ some r
      → let (adp, log) = run acts (adaptive_init fl ifname, []) in
        Streak 3 r (question current adp ∷ log)
  recommends_after-Streak ifname acts current r e =
      let (adp, log) = run acts (adaptive_init fl ifname, []) in
      get_recommendation-Streak current r adp log
        (run-Counts acts (adaptive_init fl ifname) [] (unfold adaptive_init in (omega arith))) e

  -- Asked three times in a row with the counter at rest, a node whose metrics call for the other
  -- class gets no answer twice and that class the third time, and the counter is at rest again.
  pub recommends_third_time :
      (adp : Adaptive F) (current r : NodeClass)
      → adp.hysteresis_counter ≡ 0
      → class_of_score fl (score fl adp) ≡ r
      → r ≢ current
      → let (adp₁, out₁) = get_recommendation fl current adp in
        let (adp₂, out₂) = get_recommendation fl current adp₁ in
        let (adp₃, out₃) = get_recommendation fl current adp₂ in
        (out₁ ≡ none) × (out₂ ≡ none) × (out₃ ≡ some r) × (adp₃.hysteresis_counter ≡ 0)
  unfolding get_recommendation hysteresis adaptive_decide score
  recommends_third_time adp current r h e ne = ground arith
